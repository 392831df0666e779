-- ===== src/Tests/Clients.antt =====
-- A request with a body.
use ats_fastcgi.Common.{
  ℕ, zero, suc, ◌+◌, ◌≡◌, refl, ap, List, [], ◌∷◌, ◌++◌, Bytes, length, some, codes, arith, equal,
  leb, leb→le, true, Outcome, ok, c_string, read_int,
}
use ats_fastcgi.StringMap.{less, index, assign, StringMap, find}
use ats_fastcgi.StringMap.Laws.{IsSorted}
use ats_fastcgi.Config.Settings.{default_config}
use ats_fastcgi.Headers.{
  set_all, ends_with, to_upper, add_fields, Transaction, http_name, client_fields, request_script,
  generate_fcgi_request_headers,
}
use ats_fastcgi.Headers.Variables.{last_value, named, assignments, generate-find, generate-own}
use ats_fastcgi.Client.{
  buffer_size, size_buffer, add_field, content_fields, add_content_fields, new_client_request,
}
use ats_fastcgi.Client.Buffer.{IsPost, new_client_request-post, new_client_request-sends}
use ats_fastcgi.Response.Stream.{encode_all}
use ats_fastcgi.Request.{
  name_value_bytes, length_bytes, ClientState, create_begin_request, post_body_chunk,
  add_client_request,
}
use ats_fastcgi.Request.Bounds.{params_bytes}
use ats_fastcgi.Request.Frames.{request_messages, AllMessages}
use ats_fastcgi.Request.Bodies.{post_messages}

abbrev block : ℕ → Bytes
block zero = []
block (suc n) = 0 ∷ block n

length-block : (n : ℕ) → length (block n) ≡ n
length-block zero = refl
length-block (suc n) = ap suc (length-block n)

abbrev post_fields : List (Bytes × Bytes)
post_fields = (codes "Content-Length", codes "3") ∷ []

abbrev post : Transaction
post = record {
  fields = some post_fields;
  path = codes "forms/";
  query = codes "id=1";
  method = codes "POST";
  content_length = some (codes "3");
  content_type = some (codes "text/plain");
}

abbrev root_dir : Bytes
root_dir = codes "/var/www/html/"

abbrev script_path : Bytes
script_path = codes "forms/index.php"

post-script : request_script default_config post ≡ ok script_path
unfolding request_script
post-script = refl

post-IsPost : IsPost post post_fields (codes "3") 3
unfolding c_string read_int
post-IsPost = record {
  fields_eq = refl;
  method_eq = refl;
  length_eq = refl;
  value_eq = refl;
  small = omega arith;
}

generate-find_example :
    (m : StringMap) × (generate_fcgi_request_headers default_config post ≡ ok m)
    × IsSorted m
    × ((name : Bytes) → find name m ≡ last_value name (assignments root_dir script_path post))
generate-find_example = generate-find default_config post root_dir script_path refl post-script

-- The parameters of the request.
made :
    (m : StringMap) × (generate_fcgi_request_headers default_config post ≡ ok m)
    × IsSorted m
    × ((name : Bytes) → find name m ≡ last_value name (assignments root_dir script_path post))
made = generate-find default_config post root_dir script_path refl post-script

generate-own_example :
    ((field : Bytes)
      → find (http_name field) made.0 ≡ last_value (http_name field) (named (client_fields post)))
    × (find (codes "SCRIPT_FILENAME") made.0 ≡ some (root_dir ++ script_path))
    × (find (codes "DOCUMENT_ROOT") made.0 ≡ some root_dir)
    × (find (codes "REQUEST_METHOD") made.0 ≡ some (codes "POST"))
    × (find (codes "QUERY_STRING") made.0 ≡ some (codes "id=1"))
    × (find (codes "FCGI_ROLE") made.0 ≡ some (codes "RESPONDER"))
    × (find (codes "SCRIPT_NAME") made.0 ≡ some (codes "/" ++ script_path))
    × (find (codes "REQUEST_URI") made.0 ≡ some (codes "/" ++ script_path))
    × (find (codes "GATEWAY_INTERFACE") made.0 ≡ some (codes "FastCGI/1.1"))
    × (find (codes "SERVER_SOFTWARE") made.0 ≡ some (codes "ATS 7.1.1"))
    × (find (codes "SERVER_NAME") made.0 ≡ some (codes "ATS 7.1.1"))
    × (find (codes "SERVER_ADDR") made.0 ≡ some (codes "127.0.0.1"))
    × (find (codes "SERVER_PORT") made.0 ≡ some (codes "60000"))
    × (find (codes "SERVER_PROTOCOL") made.0 ≡ some (codes "HTTP/1.1"))
    × (find (codes "REMOTE_ADDR") made.0 ≡ some (codes "127.0.0.1"))
    × (find (codes "REMOTE_PORT") made.0 ≡ some (codes "8090"))
generate-own_example =
    generate-own default_config post root_dir script_path made.0 refl post-script made.1

new_client_request-post_example :
    (st : ClientState) × (new_client_request block default_config 9 post ≡ ok st)
    × (length st.buff ≡ 5000 + 3)
    × (st.p_buff_inc ≡ 0)
    × (find (codes "CONTENT_LENGTH") st.request_headers ≡ some (c_string (codes "3")))
new_client_request-post_example =
    new_client_request-post block length-block default_config 9 post root_dir script_path
      post_fields (codes "3") 3 refl post-script post-IsPost

-- The new request, or an empty one.
abbrev made_or_empty : Outcome ClientState → ClientState
made_or_empty (ok st) = st
made_or_empty _ = record { request_id = 0; request_headers = []; buff = []; p_buff_inc = 0 }

abbrev request : ClientState
request = made_or_empty (new_client_request block default_config 9 post)

request-made : new_client_request block default_config 9 post ≡ ok request
unfolding generate_fcgi_request_headers client_fields add_fields http_name to_upper request_script
    ends_with set_all assign index find less add_content_fields content_fields add_field size_buffer
    buffer_size c_string read_int equal new_client_request
request-made = refl

request-small : leb (length (params_bytes request.request_headers)) 4968 ≡ true
unfolding generate_fcgi_request_headers client_fields add_fields http_name to_upper request_script
    ends_with set_all assign index find less add_content_fields content_fields add_field size_buffer
    buffer_size c_string read_int equal new_client_request name_value_bytes length_bytes
request-small = refl

new_client_request-sends_example :
    (st1 st2 : ClientState) × (create_begin_request request ≡ ok st1)
    × (add_client_request st1 ≡ encode_all (request_messages request))
    × AllMessages (request_messages request)
    × (post_body_chunk (codes "a=1") st1 ≡ ok st2)
    × (add_client_request st2 ≡ encode_all (post_messages (codes "a=1") st1))
    × AllMessages (post_messages (codes "a=1") st1)
new_client_request-sends_example =
    new_client_request-sends block length-block default_config 9 post root_dir script_path
      post_fields (codes "3") 3 request (codes "a=1") refl post-script post-IsPost request-made
      (omega (arith, leb→le _ _ request-small)) (omega arith) (omega arith)
