-- ===== src/Client/Working.antt =====
-- When the plugin can do its work: the address of the application is read, and client requests are made.
use ats_fastcgi.Common.{
  ℕ, ◌<◌, ◌^◌, ◌≡◌, ◌≢◌, refl, ap, sym, ◌∙◌, ◌⊎◌, inl, inr, Option, none, some, c_string, read_int,
  List, [], ◌∷◌, ◌++◌, Bytes, codes, true, false, Bool-cases, equal, equal_iff, decimal_before,
  Outcome, ok, fault,
}
use ats_fastcgi.StringMap.{StringMap, find, assign, index}
use ats_fastcgi.Config.Settings.{FcgiPluginConfig}
use ats_fastcgi.Config.Access.{get_document_root_dir, get_html, get_server_ip, get_server_port}
use ats_fastcgi.Headers.{http_name, client_fields, Transaction, request_script, ends_with}
use ats_fastcgi.Headers.Variables.{
  last_value, named, assignments, last_value-append, generate-find, generate-own,
}
use ats_fastcgi.StringMap.Laws.{find-assign}
use ats_fastcgi.Client.{
  add_field, content_fields, add_content_fields, buffer_size, buf_size, size_buffer,
  new_client_request,
}
use ats_fastcgi.Client.Buffer.{IsPost, index-found, size_buffer-post}
use ats_fastcgi.Request.{ClientState}
use ats_fastcgi.Connection.Address.{server_address, address_of, address_of-decimal}
use ats_fastcgi.Intercept.{Environment, Works, client_request}

-- The request does not give the length of a body.
abbrev pub HasNoLength : Transaction → Type 0
HasNoLength t = (t.fields ≡ none) ⊎ (t.content_length ≡ none)

-- No POST, a POST without a `Content-Length`, or one whose length fits into the buffer's size
abbrev pub IsComplete : Transaction → Type 0
IsComplete t =
    (t.method ≢ codes "POST")
    ⊎ HasNoLength t
    ⊎ ((fields : List (Bytes × Bytes)) × (v : Bytes) × (n : ℕ) × IsPost t fields v n)

size_buffer-other :
    (t : Transaction) (m : StringMap)
    → t.method ≢ codes "POST"
    → find (codes "REQUEST_METHOD") m ≡ some t.method
    → size_buffer t m ≡ ok (m, buf_size)
unfolding size_buffer
size_buffer-other t m n e =
    let other : equal t.method (codes "POST") ≡ false =
      not_equal (Bool-cases (equal t.method (codes "POST"))) in
    rw (index-found (codes "REQUEST_METHOD") t.method m e, other) refl
  where
    not_equal :
        (equal t.method (codes "POST") ≡ true) ⊎ (equal t.method (codes "POST") ≡ false)
        → equal t.method (codes "POST") ≡ false
    not_equal (inl same) = absurd (n ((equal_iff t.method (codes "POST")).0 same))
    not_equal (inr other) = other

unnamed :
    (fields : List (Bytes × Bytes)) → last_value (codes "CONTENT_LENGTH") (named fields) ≡ none
unfolding http_name equal
unnamed [] = refl
unnamed ((name, values) ∷ fields) = rw (unnamed fields) refl

add_field-length :
    (v : Option Bytes) (m : StringMap)
    → find (codes "CONTENT_LENGTH") (add_field (codes "CONTENT_TYPE") v m)
      ≡ find (codes "CONTENT_LENGTH") m
unfolding add_field equal
add_field-length none m = refl
add_field-length (some v) m =
    find-assign (codes "CONTENT_TYPE") (codes "CONTENT_LENGTH") (c_string v) m

content_fields-length :
    (fields : Option (List (Bytes × Bytes))) (content_length content_type : Option Bytes)
    (m : StringMap)
    → (fields ≡ none) ⊎ (content_length ≡ none)
    → find (codes "CONTENT_LENGTH") (content_fields fields content_length content_type m)
      ≡ find (codes "CONTENT_LENGTH") m
unfolding content_fields add_field
content_fields-length none content_length content_type m h = refl
content_fields-length (some fs) none content_type m h = add_field-length content_type m
content_fields-length (some fs) (some v) content_type m (inl e) = absurd (cc)
content_fields-length (some fs) (some v) content_type m (inr e) = absurd (cc)

index-missing : (k : Bytes) (m : StringMap) → find k m ≡ none → index k m ≡ ([], assign k [] m)
unfolding index
index-missing k m e = rw (e, index) refl

size_buffer-none :
    (t : Transaction) (m : StringMap)
    → t.method ≡ codes "POST"
    → HasNoLength t
    → find (codes "REQUEST_METHOD") m ≡ some t.method
    → find (codes "CONTENT_LENGTH") m ≡ none
    → (sized : StringMap × ℕ) × (size_buffer t m ≡ ok sized)
unfolding size_buffer add_content_fields read_int buffer_size equal
size_buffer-none t m post none_given e missing =
    let added = add_content_fields t m in
    let empty : find (codes "CONTENT_LENGTH") added ≡ none =
      content_fields-length t.fields t.content_length t.content_type m none_given ∙ missing in
    (
      (assign (codes "CONTENT_LENGTH") [] added, buf_size),
      rw
          (
            index-found (codes "REQUEST_METHOD") (codes "POST") m (e ∙ ap some post),
            index-missing (codes "CONTENT_LENGTH") added empty,
          )
          refl,
    )

size_buffer-ok :
    (t : Transaction) (m : StringMap)
    → IsComplete t
    → find (codes "REQUEST_METHOD") m ≡ some t.method
    → find (codes "CONTENT_LENGTH") m ≡ none
    → (sized : StringMap × ℕ) × (size_buffer t m ≡ ok sized)
size_buffer-ok t m (inl n) e missing = (_, size_buffer-other t m n e)
size_buffer-ok t m (inr (inl h)) e missing = elim (Bool-cases (equal t.method (codes "POST"))) [
  | inl post ↦ size_buffer-none t m ((equal_iff t.method (codes "POST")).0 post) h e missing
  | inr other ↦ (
    _,
    size_buffer-other t m (λ same. let post = (equal_iff t.method (codes "POST")).1 same in cc) e,
  )
]
size_buffer-ok t m (inr (inr (fields, v, n, post))) e missing =
    (_, size_buffer-post t fields v n m post (e ∙ ap some post.method_eq))

no_length :
    (root script : Bytes) (t : Transaction)
    → last_value (codes "CONTENT_LENGTH") (assignments root script t) ≡ none
unfolding equal
no_length root script t =
    last_value-append (codes "CONTENT_LENGTH") (named (client_fields t)) _
    ∙ unnamed (client_fields t)

request_script-ok :
    (config : FcgiPluginConfig) (t : Transaction) (html : Bytes)
    → get_html config ≡ some html
    → (script : Bytes) × (request_script config t ≡ ok script)
unfolding request_script
request_script-ok config t html h = elim (Bool-cases (ends_with t.path (codes "/"))) [
  | inl slash ↦ (t.path ++ html, rw (slash, h) refl)
  | inr other ↦ (t.path, rw other refl)
]

new_client_request-ok :
    (ts_malloc : ℕ → Bytes) (config : FcgiPluginConfig) (request_id : ℕ) (t : Transaction)
    (root html : Bytes)
    → get_document_root_dir config ≡ some root
    → get_html config ≡ some html
    → IsComplete t
    → (st : ClientState) × (new_client_request ts_malloc config request_id t ≡ ok st)
unfolding new_client_request
new_client_request-ok ts_malloc config request_id t root html r h whole =
    let (script, s) = request_script-ok config t html h in
    let (m, made, sorted, values) = generate-find config t root script r s in
    let missing = values (codes "CONTENT_LENGTH") ∙ no_length root script t in
    let method = (generate-own config t root script m r s made).3 in
    let (sized, run) = size_buffer-ok t m whole method missing in
    (
      record {
        request_id = request_id;
        request_headers = sized.0;
        buff = ts_malloc sized.1;
        p_buff_inc = 0;
      },
      rw (made, run) refl,
    )

ok-ne-fault : {A : Type 0} (m : Outcome A) (a : A) → m ≡ ok a → m ≢ fault
ok-ne-fault m a e f = let clash : ok a ≡ fault = sym e ∙ f in cc

abbrev pub dotted : ℕ → ℕ → ℕ → ℕ → Bytes
dotted a b c d =
    decimal_before a
      (b'.' ∷ decimal_before b (b'.' ∷ decimal_before c (b'.' ∷ decimal_before d [])))

-- With a document root and an index page, and the address of the application as decimal numbers: if each
-- request is no POST, or gives no `Content-Length`, or gives one of `n` bytes with `5000 + n` less than
-- 2^31, the address of the application can be read and every client request can be made.
pub decimal_address-Works :
    (env : Environment) (root html : Bytes) (a b c d p : ℕ)
    → get_document_root_dir env.config ≡ some root
    → get_html env.config ≡ some html
    → get_server_ip env.config ≡ some (dotted a b c d)
    → get_server_port env.config ≡ some (decimal_before p [])
    → a < 256
    → b < 256
    → c < 256
    → d < 256
    → p < 2 ^ 16
    → ((i : ℕ) → IsComplete (env.transactions i))
    → Works env
unfolding server_address client_request
decimal_address-Works env root html a b c d p r h ip port ha hb hc hd hp whole = (
  ok-ne-fault (server_address env.config) _ (
      ap (λ x. address_of x (get_server_port env.config)) ip
      ∙ ap (address_of (some (dotted a b c d))) port
      ∙ address_of-decimal a b c d p ha hb hc hd hp),
  (λ id i.
      let (st, run) =
        new_client_request-ok env.ts_malloc env.config id (env.transactions i) root html r h
          (whole i) in
      ok-ne-fault (client_request env id i) st run),
)
