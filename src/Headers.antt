-- ===== src/Headers.antt =====
-- src/ats_fcgi_client.cc: `GenerateFcgiRequestHeaders`, the parameters that a request is sent with.
-- The transaction is Traffic Server's, and a parameter.
pub mod Variables
use ats_fastcgi.Common.{
  ℕ, ◌-◌, Bool, ◌&&◌, Option, none, some, List, [], ◌∷◌, ◌++◌, map, Bytes, codes, c_string, equal,
  length, drop, leb, if◌then◌else◌, Outcome, ok, fault, ◌>>=◌,
}
use ats_fastcgi.StringMap.{StringMap, assign, index}
use ats_fastcgi.Config.Settings.{FcgiPluginConfig}
use ats_fastcgi.Config.Access.{get_html, get_document_root_dir}

-- What the plugin reads of a `Transaction` and its client request.
pub record Transaction : Type 0 where
  -- the header fields, each with its name and `values()`; `none` if the headers are not initialised
  pub fields : Option (List (Bytes × Bytes))
  -- `getUrl().getPath()` and `getUrl().getQuery()`
  pub path : Bytes
  pub query : Bytes
  -- `HTTP_METHOD_STRINGS[getMethod()]`
  pub method : Bytes
  -- the values of the field that `find` gives for `Content-Length` and `Content-type`
  pub content_length : Option Bytes
  pub content_type : Option Bytes

-- `std::toupper`, in the "C" locale
unfoldable pub to_upper : ℕ → ℕ
to_upper c = if leb b'a' c && leb c b'z' then c - 32 else c

-- `endsWith`
unfoldable pub ends_with : Bytes → Bytes → Bool
unfolding equal
ends_with main_str to_match =
    leb (length to_match) (length main_str)
    && equal (drop (length main_str - length to_match) main_str) to_match

-- `HTTP_` and the field's name in capitals
unfoldable pub http_name : Bytes → Bytes
unfolding to_upper c_string
http_name name = codes "HTTP_" ++ map to_upper (c_string name)

-- The loop over the header fields.
unfoldable pub add_fields : List (Bytes × Bytes) → StringMap → StringMap
unfolding http_name assign
add_fields [] m = m
add_fields ((name, values) ∷ fields) m = add_fields fields (assign (http_name name) values m)

-- Nothing, if the headers are not initialised.
unfoldable pub client_fields : Transaction → List (Bytes × Bytes)
client_fields t = elim t.fields [ none ↦ [] | some fields ↦ fields ]

-- A text of the configuration that becomes a `std::string`: the null pointer is a fault.
abbrev pub text_of : Option Bytes → Outcome Bytes
text_of none = fault
text_of (some text) = ok text

-- `requestScript`: the path, with the index page if it ends in a slash.
unfoldable pub request_script : FcgiPluginConfig → Transaction → Outcome Bytes
unfolding ends_with
request_script config t =
    if ends_with t.path (codes "/")
    then (text_of (get_html config) >>= λ html. ok (t.path ++ html))
    else ok t.path

-- Assignments one after the other.
unfoldable pub set_all : List (Bytes × Bytes) → StringMap → StringMap
unfolding assign
set_all [] m = m
set_all ((k, v) ∷ kvs) m = set_all kvs (assign k v m)

-- The assignments after that of `SCRIPT_FILENAME`.
abbrev pub request_variables : Bytes → Transaction → List (Bytes × Bytes)
request_variables script t =
    (codes "GATEWAY_INTERFACE", codes "FastCGI/1.1")
    ∷ (codes "REQUEST_METHOD", t.method)
    ∷ (codes "SCRIPT_NAME", codes "/" ++ script)
    ∷ (codes "QUERY_STRING", t.query)
    ∷ (codes "REQUEST_URI", codes "/" ++ script)
    ∷ (codes "SERVER_SOFTWARE", codes "ATS 7.1.1")
    ∷ (codes "REMOTE_ADDR", codes "127.0.0.1")
    ∷ (codes "REMOTE_PORT", codes "8090")
    ∷ (codes "SERVER_ADDR", codes "127.0.0.1")
    ∷ (codes "SERVER_PORT", codes "60000")
    ∷ (codes "SERVER_NAME", codes "ATS 7.1.1")
    ∷ (codes "SERVER_PROTOCOL", codes "HTTP/1.1")
    ∷ (codes "FCGI_ROLE", codes "RESPONDER")
    ∷ []

-- `GenerateFcgiRequestHeaders`
unfoldable pub generate_fcgi_request_headers : FcgiPluginConfig → Transaction → Outcome StringMap
unfolding add_fields client_fields request_script set_all assign index
generate_fcgi_request_headers config t = do
  let fields = add_fields (client_fields t) []
  script ← request_script config t
  root ← text_of (get_document_root_dir config)
  let (root', m) = index (codes "DOCUMENT_ROOT") (assign (codes "DOCUMENT_ROOT") root fields)
  ok (set_all (request_variables script t) (assign (codes "SCRIPT_FILENAME") (root' ++ script) m))
