-- ===== src/Config/Matching.antt =====
-- Which names find which keys.
use ats_fastcgi.Common.{
  ◌≡◌, refl, sym, ap, ◌∙◌, true, Bool-cases, inl, inr, some, List, [], ◌∷◌, ◌++◌, Bytes, length,
  ◌⊎◌, strncmp_eq, ok, arith,
}
use ats_fastcgi.Config.Keys.{
  ConfigKey, ParamKey, config_text, param_text, config_keys, param_keys, find_key,
  fcgi_http_txn_config_find, fcgi_param_config_find, fcgi_enabled, fcgi_hostname, fcgi_server_ip,
  fcgi_server_port, fcgi_include, fcgi_document_root, fcgi_html, fcgi_min_connections,
  fcgi_max_connections, fcgi_max_requests, fcgi_request_queue_size, gateway_interface,
  server_software, query_string, request_method, content_type, content_length, script_filename,
  script_name, request_uri, document_uri, document_root, server_protocol, remote_addr, remote_port,
  server_addr, server_port, server_name,
}

-- `strncmp(name, text, strlen(name))` is 0 if `name` is the front of `text`.
strncmp_eq-prefix :
    (name text : Bytes)
    → strncmp_eq (length name) name text ≡ true
    → (rest : Bytes) × (text ≡ name ++ rest)
unfolding strncmp_eq
strncmp_eq-prefix [] text h = (text, refl)
strncmp_eq-prefix (c ∷ name) [] h = absurd (cc)
strncmp_eq-prefix (c ∷ name) (d ∷ text) h =
    let same : c ≡ d = ground arith in
    let (rest, e) = strncmp_eq-prefix name text (ground arith) in (rest, cc)

strncmp_eq-front : (name rest : Bytes) → strncmp_eq (length name) name (name ++ rest) ≡ true
unfolding strncmp_eq
strncmp_eq-front [] rest = refl
strncmp_eq-front (c ∷ name) rest = ground (arith, strncmp_eq-front name rest)

-- Some key of a list.
abbrev pub Among : {K : Type 0} → K → List K → Type 0
Among k [] = ⊥
Among k (j ∷ ks) = (k ≡ j) ⊎ Among k ks

find_key-prefix :
    {K : Type 0} (text : K → Bytes) (ks : List K) (name : Bytes) (k : K)
    → find_key text ks name ≡ some k
    → (rest : Bytes) × (text k ≡ name ++ rest)
unfolding find_key
find_key-prefix text [] name k h = absurd (cc)
find_key-prefix text (j ∷ ks) name k h =
    elim (Bool-cases (strncmp_eq (length name) name (text j))) [
      | inl hit ↦
          let (rest, e) = strncmp_eq-prefix name (text j) hit in
          let same : j ≡ k = ground (arith, hit) in (rest, ap text (sym same) ∙ e)
      | inr miss ↦ find_key-prefix text ks name k (ground (arith, miss))
    ]

find_key-front :
    {K : Type 0} (text : K → Bytes) (ks : List K) (name rest : Bytes) (k : K)
    → Among k ks
    → text k ≡ name ++ rest
    → (j : K) × (find_key text ks name ≡ some j)
unfolding find_key
find_key-front text [] name rest k a e = absurd a
find_key-front text (j ∷ ks) name rest k (inl same) e =
    let hit : strncmp_eq (length name) name (text j) ≡ true =
      ap (strncmp_eq (length name) name) (ap text (sym same) ∙ e) ∙ strncmp_eq-front name rest in
    (j, rw hit refl)
find_key-front text (j ∷ ks) name rest k (inr a) e =
    elim (Bool-cases (strncmp_eq (length name) name (text j))) [
      | inl hit ↦ (j, rw hit refl)
      | inr miss ↦ let (found, run) = find_key-front text ks name rest k a e in (found, rw miss run)
    ]

ConfigKey-Among : (k : ConfigKey) → Among k config_keys
ConfigKey-Among fcgi_enabled = inl refl
ConfigKey-Among fcgi_hostname = inr (inl refl)
ConfigKey-Among fcgi_server_ip = inr (inr (inl refl))
ConfigKey-Among fcgi_server_port = inr (inr (inr (inl refl)))
ConfigKey-Among fcgi_include = inr (inr (inr (inr (inl refl))))
ConfigKey-Among fcgi_document_root = inr (inr (inr (inr (inr (inl refl)))))
ConfigKey-Among fcgi_html = inr (inr (inr (inr (inr (inr (inl refl))))))
ConfigKey-Among fcgi_min_connections = inr (inr (inr (inr (inr (inr (inr (inl refl)))))))
ConfigKey-Among fcgi_max_connections = inr (inr (inr (inr (inr (inr (inr (inr (inl refl))))))))
ConfigKey-Among fcgi_max_requests = inr (inr (inr (inr (inr (inr (inr (inr (inr (inl refl)))))))))
ConfigKey-Among fcgi_request_queue_size =
    inr (inr (inr (inr (inr (inr (inr (inr (inr (inr (inl refl))))))))))

ParamKey-Among : (k : ParamKey) → Among k param_keys
ParamKey-Among gateway_interface = inl refl
ParamKey-Among server_software = inr (inl refl)
ParamKey-Among query_string = inr (inr (inl refl))
ParamKey-Among request_method = inr (inr (inr (inl refl)))
ParamKey-Among content_type = inr (inr (inr (inr (inl refl))))
ParamKey-Among content_length = inr (inr (inr (inr (inr (inl refl)))))
ParamKey-Among script_filename = inr (inr (inr (inr (inr (inr (inl refl))))))
ParamKey-Among script_name = inr (inr (inr (inr (inr (inr (inr (inl refl)))))))
ParamKey-Among request_uri = inr (inr (inr (inr (inr (inr (inr (inr (inl refl))))))))
ParamKey-Among document_uri = inr (inr (inr (inr (inr (inr (inr (inr (inr (inl refl)))))))))
ParamKey-Among document_root = inr (inr (inr (inr (inr (inr (inr (inr (inr (inr (inl refl))))))))))
ParamKey-Among server_protocol =
    inr (inr (inr (inr (inr (inr (inr (inr (inr (inr (inr (inl refl)))))))))))
ParamKey-Among remote_addr =
    inr (inr (inr (inr (inr (inr (inr (inr (inr (inr (inr (inr (inl refl))))))))))))
ParamKey-Among remote_port =
    inr (inr (inr (inr (inr (inr (inr (inr (inr (inr (inr (inr (inr (inl refl)))))))))))))
ParamKey-Among server_addr =
    inr (inr (inr (inr (inr (inr (inr (inr (inr (inr (inr (inr (inr (inr (inl refl))))))))))))))
ParamKey-Among server_port =
    inr
      (inr (inr (inr (inr (inr (inr (inr (inr (inr (inr (inr (inr (inr (inr (inl refl)))))))))))))))
ParamKey-Among server_name = inr (
    inr (
      inr (inr (inr (inr (inr (inr (inr (inr (inr (inr (inr (inr (inr (inr (inl refl))))))))))))))))

-- `fcgiHttpTxnConfigFind` finds a key for exactly the names that are the front of some key's name: a key
-- that it finds has a name that begins so, and if any key's name begins so, it finds a key.
pub config_find_iff :
    (name : Bytes)
    → ((k : ConfigKey)
        → fcgi_http_txn_config_find (some name) ≡ ok (some k)
        → (rest : Bytes) × (config_text k ≡ name ++ rest))
      × ((k : ConfigKey) (rest : Bytes)
          → config_text k ≡ name ++ rest
          → (j : ConfigKey) × (fcgi_http_txn_config_find (some name) ≡ ok (some j)))
unfolding fcgi_http_txn_config_find
config_find_iff name = (
  (λ k h. find_key-prefix config_text config_keys name k (cc)),
  (λ k rest e.
      let (j, run) = find_key-front config_text config_keys name rest k (ConfigKey-Among k) e in
      (j, ap (λ o. ok o) run)),
)

-- `fcgiParamConfigFind` finds a key for exactly the names that are the front of some key's name.
pub param_find_iff :
    (name : Bytes)
    → ((k : ParamKey)
        → fcgi_param_config_find (some name) ≡ ok (some k)
        → (rest : Bytes) × (param_text k ≡ name ++ rest))
      × ((k : ParamKey) (rest : Bytes)
          → param_text k ≡ name ++ rest
          → (j : ParamKey) × (fcgi_param_config_find (some name) ≡ ok (some j)))
unfolding fcgi_param_config_find
param_find_iff name = (
  (λ k h. find_key-prefix param_text param_keys name k (cc)),
  (λ k rest e.
      let (j, run) = find_key-front param_text param_keys name rest k (ParamKey-Among k) e in
      (j, ap (λ o. ok o) run)),
)

pub config_find-text :
    (k : ConfigKey) → fcgi_http_txn_config_find (some (config_text k)) ≡ ok (some k)
unfolding fcgi_http_txn_config_find
config_find-text fcgi_enabled = refl
config_find-text fcgi_hostname = refl
config_find-text fcgi_server_ip = refl
config_find-text fcgi_server_port = refl
config_find-text fcgi_include = refl
config_find-text fcgi_document_root = refl
config_find-text fcgi_html = refl
config_find-text fcgi_min_connections = refl
config_find-text fcgi_max_connections = refl
config_find-text fcgi_max_requests = refl
config_find-text fcgi_request_queue_size = refl

pub param_find-text : (k : ParamKey) → fcgi_param_config_find (some (param_text k)) ≡ ok (some k)
unfolding fcgi_param_config_find
param_find-text gateway_interface = refl
param_find-text server_software = refl
param_find-text query_string = refl
param_find-text request_method = refl
param_find-text content_type = refl
param_find-text content_length = refl
param_find-text script_filename = refl
param_find-text script_name = refl
param_find-text request_uri = refl
param_find-text document_uri = refl
param_find-text document_root = refl
param_find-text server_protocol = refl
param_find-text remote_addr = refl
param_find-text remote_port = refl
param_find-text server_addr = refl
param_find-text server_port = refl
param_find-text server_name = refl
