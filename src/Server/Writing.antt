-- ===== src/Server/Writing.antt =====
-- src/server.cc: `writeRequestHeader`, `writeRequestBody` and `writeRequestBodyComplete`;
-- src/server_connection.cc: `phpWrite`; src/server_intercept.cc: `consume` and `handleInputComplete`.
-- `total_bytes_written`, which nothing reads, is left out.
use ats_fastcgi.Common.{
  ℕ, Bool, true, false, ◌++◌, Option, none, some, ◌==◌, if◌then◌else◌, Bytes, length, Outcome, ok,
  fault, ◌>>=◌,
}
use ats_fastcgi.Connection.{ServerConnection, FcgiRequest}
use ats_fastcgi.Connection.Heap.{put, load}
use ats_fastcgi.Request.{
  ClientState, create_begin_request, post_body_chunk, empty_param, add_client_request,
}
use ats_fastcgi.Intercept.{Intercept, start_write, write, reenable}
use ats_fastcgi.Server.{Server, emit, get_server_connection}

-- What Traffic Server answers while a request is written: `TSVConnClosedGet`, that `TSVConnWrite` gives no
-- null pointer, and how many bytes `TSIOBufferWrite` has written.
pub record Answers : Type 0 where
  pub vc_closed : Bool
  pub has_vio : Bool
  pub num_bytes_written : ℕ

abbrev pub set_connection : ℕ → ServerConnection → Server → Server
set_connection c conn s = record s { heap = put c (some conn) s.heap }

-- The end of `phpWrite`, by `endflag`; `TSVIOReenable` needs a `vio`.
unfoldable pub finish_write : Bool → ℕ → ServerConnection → Server → Outcome Server
unfolding put
finish_write true c conn s = ok (set_connection c (record conn { read_enable = true }) s)
finish_write false c conn s = if conn.write_vio then ok (emit (reenable c) s) else fault

-- The bytes, on a channel that is there.
unfoldable pub write_bytes : Answers → ℕ → Bytes → Bool → ServerConnection → Server → Outcome Server
unfolding finish_write
write_bytes io c buf endflag conn s =
    let s' = emit (write c buf) s in
    if io.num_bytes_written == length buf then finish_write endflag c conn s' else ok s'

-- `phpWrite`, on the channel `writeio` of a connection
unfoldable pub php_write : Answers → ℕ → Bytes → Bool → ServerConnection → Server → Outcome Server
unfolding put write_bytes
php_write io c buf endflag conn s =
    if io.vc_closed
    then ok s
    else if conn.writing
    then write_bytes io c buf endflag conn s
    else (let conn' = record conn { writing = true; write_vio = io.has_vio } in
        let s' = emit (start_write c) (set_connection c conn' s) in
        if io.has_vio then write_bytes io c buf endflag conn' s' else ok s')

-- What a client request serialises, written to the application; the request may be a null pointer.
unfoldable pub write_client :
    (ClientState → Outcome ClientState)
    → Bool
    → Answers
    → ℕ
    → ServerConnection
    → Option FcgiRequest
    → Server
    → Outcome Server
unfolding put php_write
write_client serialise endflag io c conn none s = fault
write_client serialise endflag io c conn (some r) s = do
  client ← serialise r.client
  let conn' = record conn { fcgi_request = some (record r { client = client }) }
  php_write io c (add_client_request client) endflag conn' (set_connection c conn' s)

unfoldable pub write_found :
    (ClientState → Outcome ClientState)
    → Bool
    → Answers
    → Option ℕ
    → Server
    → Outcome (Bool × Server)
unfolding load write_client
write_found serialise endflag io none s = ok (false, s)
write_found serialise endflag io (some c) s = do
  conn ← load c s.heap
  s' ← write_client serialise endflag io c conn conn.fcgi_request s
  ok (true, s')

-- `writeRequestHeader`
unfoldable pub write_request_header : Answers → ℕ → Server → Outcome (Bool × Server)
unfolding write_found create_begin_request get_server_connection
write_request_header io id s =
    write_found create_begin_request false io (get_server_connection id s) s

-- `writeRequestBody`
unfoldable pub write_request_body : Answers → ℕ → Bytes → Server → Outcome (Bool × Server)
unfolding write_found post_body_chunk get_server_connection
write_request_body io id chunk s =
    write_found (post_body_chunk chunk) false io (get_server_connection id s) s

-- `writeRequestBodyComplete`
unfoldable pub write_request_body_complete : Answers → ℕ → Server → Outcome (Bool × Server)
unfolding write_found empty_param get_server_connection
write_request_body_complete io id s = write_found empty_param true io (get_server_connection id s) s

-- A change of an intercept.
abbrev pub change_intercept : ℕ → (Intercept → Intercept) → Server → Server
change_intercept i f s = record s {
  intercepts = λ j. if i == j then f (s.intercepts j) else s.intercepts j;
}

-- `InterceptPlugin::RequestDataType`
pub data RequestDataType : Type 0 where
  request_header request_body : RequestDataType

abbrev pub keep_header : Bytes → Intercept → Intercept
keep_header chunk n = record n { data_buffered = true; client_header = n.client_header ++ chunk }

abbrev pub keep_body : Bytes → Intercept → Intercept
keep_body chunk n = record n { data_buffered = true; client_body = n.client_body ++ chunk }

-- What an intercept does with the result of a write.
unfoldable pub after_write :
    ℕ → (Intercept → Intercept) → (Intercept → Intercept) → Bool × Server → Server
after_write i done missed (true, s) = change_intercept i done s
after_write i done missed (false, s) = change_intercept i missed s

-- `streamReqHeader`
unfoldable pub stream_req_header : Answers → ℕ → Bytes → Server → Outcome Server
unfolding write_request_header after_write
stream_req_header io i chunk s = do
  written ← write_request_header io (s.intercepts i).request_id s
  ok (after_write i (λ n. n) (keep_header chunk) written)

-- `streamReqBody`
unfoldable pub stream_req_body : Answers → ℕ → Bytes → Server → Outcome Server
unfolding write_request_body after_write
stream_req_body io i chunk s = do
  written ← write_request_body io (s.intercepts i).request_id chunk s
  ok (after_write i (λ n. n) (keep_body chunk) written)

-- `consume`
unfoldable pub consume : Answers → ℕ → Bytes → RequestDataType → Server → Outcome Server
unfolding stream_req_header stream_req_body
consume io i chunk request_header s = stream_req_header io i chunk s
consume io i chunk request_body s = stream_req_body io i chunk s

-- `handleInputComplete`
unfoldable pub handle_input_complete : Answers → ℕ → Server → Outcome Server
unfolding write_request_body_complete after_write
handle_input_complete io i s = do
  written ← write_request_body_complete io (s.intercepts i).request_id s
  ok (after_write i (λ n. record n { input_complete = true }) (λ n. n) written)
