-- ===== src/Headers/Variables.antt =====
-- What the parameters of a request are, name by name.
use ats_fastcgi.Common.{
  ◌≡◌, refl, ap, sym, ◌∙◌, Option, none, some, List, [], ◌∷◌, ◌++◌, Bytes, codes, equal, equal_iff,
  if◌then◌else◌, ok, ok-injective, arith,
}
use ats_fastcgi.StringMap.{StringMap, find, assign, index}
use ats_fastcgi.StringMap.Laws.{find-assign, IsSorted, assign-IsSorted}
use ats_fastcgi.Config.Settings.{FcgiPluginConfig}
use ats_fastcgi.Config.Access.{get_document_root_dir}
use ats_fastcgi.Headers.{
  Transaction, http_name, add_fields, client_fields, request_script, set_all, request_variables,
  generate_fcgi_request_headers,
}

abbrev pub first_of : Option Bytes → Option Bytes → Option Bytes
first_of (some v) o = some v
first_of none o = o

-- The value of a name's last assignment.
abbrev pub last_value : Bytes → List (Bytes × Bytes) → Option Bytes
last_value name [] = none
last_value name ((k, v) ∷ kvs) =
    first_of (last_value name kvs) (if equal k name then some v else none)

abbrev pub named : List (Bytes × Bytes) → List (Bytes × Bytes)
named [] = []
named ((name, values) ∷ fields) = (http_name name, values) ∷ named fields

-- Every assignment that `GenerateFcgiRequestHeaders` makes, in order.
abbrev pub assignments : Bytes → Bytes → Transaction → List (Bytes × Bytes)
assignments root script t =
    named (client_fields t)
    ++ ((codes "DOCUMENT_ROOT", root)
        ∷ (codes "SCRIPT_FILENAME", root ++ script)
        ∷ request_variables script t)

first_of_assoc : (a b c : Option Bytes) → first_of (first_of a b) c ≡ first_of a (first_of b c)
first_of_assoc none b c = refl
first_of_assoc (some v) b c = refl

first_of-none : (o : Option Bytes) → first_of o none ≡ o
first_of-none none = refl
first_of-none (some v) = refl

pub last_value-append :
    (name : Bytes) (a b : List (Bytes × Bytes))
    → last_value name (a ++ b) ≡ first_of (last_value name b) (last_value name a)
last_value-append name [] b = sym (first_of-none (last_value name b))
last_value-append name ((k, v) ∷ a) b =
    ap (λ o. first_of o (if equal k name then some v else none)) (last_value-append name a b)
    ∙ first_of_assoc (last_value name b) (last_value name a) _

find-assign_first :
    (k name v : Bytes) (m : StringMap)
    → find name (assign k v m) ≡ first_of (if equal k name then some v else none) (find name m)
find-assign_first k name v m = ground (arith, find-assign k name v m)

find-set_all :
    (name : Bytes) (kvs : List (Bytes × Bytes)) (m : StringMap)
    → find name (set_all kvs m) ≡ first_of (last_value name kvs) (find name m)
unfolding set_all
find-set_all name [] m = refl
find-set_all name ((k, v) ∷ kvs) m =
    find-set_all name kvs (assign k v m)
    ∙ ap (first_of (last_value name kvs)) (find-assign_first k name v m)
    ∙ sym
        (first_of_assoc (last_value name kvs) (if equal k name then some v else none) (find name m))

find-add_fields :
    (name : Bytes) (fields : List (Bytes × Bytes)) (m : StringMap)
    → find name (add_fields fields m) ≡ first_of (last_value name (named fields)) (find name m)
unfolding add_fields
find-add_fields name [] m = refl
find-add_fields name ((f, v) ∷ fields) m =
    find-add_fields name fields (assign (http_name f) v m)
    ∙ ap (first_of (last_value name (named fields))) (find-assign_first (http_name f) name v m)
    ∙ sym (
        first_of_assoc (last_value name (named fields))
          (if equal (http_name f) name then some v else none) (find name m))

fields-find :
    (name : Bytes) (fields : List (Bytes × Bytes))
    → find name (add_fields fields []) ≡ last_value name (named fields)
unfolding find
fields-find name fields =
    find-add_fields name fields [] ∙ first_of-none (last_value name (named fields))

set_all-IsSorted :
    (kvs : List (Bytes × Bytes)) (m : StringMap) → IsSorted m → IsSorted (set_all kvs m)
unfolding set_all
set_all-IsSorted [] m s = s
set_all-IsSorted ((k, v) ∷ kvs) m s = set_all-IsSorted kvs (assign k v m) (assign-IsSorted k v m s)

add_fields-IsSorted :
    (fields : List (Bytes × Bytes)) (m : StringMap) → IsSorted m → IsSorted (add_fields fields m)
unfolding add_fields
add_fields-IsSorted [] m s = s
add_fields-IsSorted ((f, v) ∷ fields) m s =
    add_fields-IsSorted fields (assign (http_name f) v m) (assign-IsSorted (http_name f) v m s)

index-assign : (k v : Bytes) (m : StringMap) → index k (assign k v m) ≡ (v, assign k v m)
unfolding index
index-assign k v m = rw (found, index) refl
  where
    found : find k (assign k v m) ≡ some v
    found = ground (arith, find-assign k k v m, equal_iff k k)

-- `GenerateFcgiRequestHeaders`, with a document root, and an index page if the path ends in a slash:
-- the parameters are a map, in order and with each name once, in which every name has the value of its
-- last assignment, and no other name has one; the assignments are of the header fields, `DOCUMENT_ROOT`,
-- `SCRIPT_FILENAME` and the other variables, in this order.
pub generate-find :
    (config : FcgiPluginConfig) (t : Transaction) (root script : Bytes)
    → get_document_root_dir config ≡ some root
    → request_script config t ≡ ok script
    → (m : StringMap) × (generate_fcgi_request_headers config t ≡ ok m)
      × IsSorted m
      × ((name : Bytes) → find name m ≡ last_value name (assignments root script t))
unfolding generate_fcgi_request_headers set_all
generate-find config t root script r s =
    let fields = add_fields (client_fields t) [] in
    let rooted = assign (codes "DOCUMENT_ROOT") root fields in
    let scripted = assign (codes "SCRIPT_FILENAME") (root ++ script) rooted in
    (
      set_all (request_variables script t) scripted,
      rw (s, r, index-assign (codes "DOCUMENT_ROOT") root fields) refl,
      set_all-IsSorted (request_variables script t) scripted (
          assign-IsSorted (codes "SCRIPT_FILENAME") (root ++ script) rooted (
            assign-IsSorted (codes "DOCUMENT_ROOT") root fields
              (add_fields-IsSorted (client_fields t) [] tt))),
      (λ name.
          find-set_all name
            ((codes "DOCUMENT_ROOT", root)
              ∷ (codes "SCRIPT_FILENAME", root ++ script)
              ∷ request_variables script t)
            fields
          ∙ ap
              (first_of (
                last_value name (
                  (codes "DOCUMENT_ROOT", root)
                  ∷ (codes "SCRIPT_FILENAME", root ++ script)
                  ∷ request_variables script t)))
              (fields-find name (client_fields t))
          ∙ sym (last_value-append name (named (client_fields t)) _)),
    )

-- `GenerateFcgiRequestHeaders`, with a document root, and an index page if the path ends in a slash:
-- no header field of the client changes the plugin's own variables. The value of a name `HTTP_…` is that
-- of the last header field of this name. `DOCUMENT_ROOT` is that of the configuration, and
-- `SCRIPT_FILENAME` the script in it; `SCRIPT_NAME` and `REQUEST_URI` are the script after a slash,
-- `REQUEST_METHOD` and `QUERY_STRING` those of the request; and `GATEWAY_INTERFACE`, `SERVER_SOFTWARE`,
-- `SERVER_NAME`, `SERVER_ADDR`, `SERVER_PORT`, `SERVER_PROTOCOL`, `REMOTE_ADDR`, `REMOTE_PORT` and
-- `FCGI_ROLE` are constants.
pub generate-own :
    (config : FcgiPluginConfig) (t : Transaction) (root script : Bytes) (m : StringMap)
    → get_document_root_dir config ≡ some root
    → request_script config t ≡ ok script
    → generate_fcgi_request_headers config t ≡ ok m
    → ((field : Bytes)
        → find (http_name field) m ≡ last_value (http_name field) (named (client_fields t)))
      × (find (codes "SCRIPT_FILENAME") m ≡ some (root ++ script))
      × (find (codes "DOCUMENT_ROOT") m ≡ some root)
      × (find (codes "REQUEST_METHOD") m ≡ some t.method)
      × (find (codes "QUERY_STRING") m ≡ some t.query)
      × (find (codes "FCGI_ROLE") m ≡ some (codes "RESPONDER"))
      × (find (codes "SCRIPT_NAME") m ≡ some (codes "/" ++ script))
      × (find (codes "REQUEST_URI") m ≡ some (codes "/" ++ script))
      × (find (codes "GATEWAY_INTERFACE") m ≡ some (codes "FastCGI/1.1"))
      × (find (codes "SERVER_SOFTWARE") m ≡ some (codes "ATS 7.1.1"))
      × (find (codes "SERVER_NAME") m ≡ some (codes "ATS 7.1.1"))
      × (find (codes "SERVER_ADDR") m ≡ some (codes "127.0.0.1"))
      × (find (codes "SERVER_PORT") m ≡ some (codes "60000"))
      × (find (codes "SERVER_PROTOCOL") m ≡ some (codes "HTTP/1.1"))
      × (find (codes "REMOTE_ADDR") m ≡ some (codes "127.0.0.1"))
      × (find (codes "REMOTE_PORT") m ≡ some (codes "8090"))
unfolding http_name equal
generate-own config t root script m r s e =
    let (m', run, sorted, values) = generate-find config t root script r s in
    let same : m ≡ m' = ok-injective (sym e ∙ run) in
    let value = λ (name : Bytes).
      ap (find name) same ∙ values name ∙ last_value-append name (named (client_fields t)) _ in
    (
      (λ field. value (http_name field)),
      value (codes "SCRIPT_FILENAME"),
      value (codes "DOCUMENT_ROOT"),
      value (codes "REQUEST_METHOD"),
      value (codes "QUERY_STRING"),
      value (codes "FCGI_ROLE"),
      value (codes "SCRIPT_NAME"),
      value (codes "REQUEST_URI"),
      value (codes "GATEWAY_INTERFACE"),
      value (codes "SERVER_SOFTWARE"),
      value (codes "SERVER_NAME"),
      value (codes "SERVER_ADDR"),
      value (codes "SERVER_PORT"),
      value (codes "SERVER_PROTOCOL"),
      value (codes "REMOTE_ADDR"),
      value (codes "REMOTE_PORT"),
    )
