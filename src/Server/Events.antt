-- ===== src/Server/Events.antt =====
-- src/server.cc: the events of a connection in `handlePHPConnectionEvents` but `TS_EVENT_NET_CONNECT`,
-- and src/server_intercept.cc: `setResponseOutputComplete` and `~ServerIntercept`.
-- The continuation of an event has a pointer to its connection. Statistics are not modelled.
use ats_fastcgi.Common.{
  ℕ, Bool, not, List, true, false, [], ◌∷◌, Option, none, some, ◌==◌, if◌then◌else◌, Bytes, Outcome,
  ok, fault, ◌>>=◌,
}
use ats_fastcgi.Connection.{FcgiRequest, ServerConnection, ConnState, is_complete, complete, closed}
use ats_fastcgi.Connection.Heap.{put, load}
use ats_fastcgi.Response.{Decoder, Run}
use ats_fastcgi.Transfer.{intercept_transfer_data}
use ats_fastcgi.Intercept.{
  abort, start_read, produce, set_output_complete, set_status_code, fail, new_intercept,
}
use ats_fastcgi.Server.{Server, emit, get_intercept, re_connect, remove_intercept, close_connection}

-- `server_connection->setState(state)`
unfoldable pub set_state : ConnState → ℕ → Server → Outcome Server
unfolding load put
set_state state c s = do
  conn ← load c s.heap
  ok (record s { heap = put c (some (record conn { state = state })) s.heap })

-- `setState(CLOSED)` and `connectionClosed`
unfoldable pub close_down : ℕ → Server → Outcome Server
unfolding set_state close_connection
close_down c s = set_state closed c s >>= close_connection c

-- A connection that is lost before its request is written: the request gets another one.
unfoldable pub retry : ℕ → ℕ → Server → Outcome Server
unfolding re_connect close_down
retry c request_id s = re_connect request_id s >>= close_down c

-- `TS_EVENT_NET_CONNECT_FAILED`
unfoldable pub net_connect_failed : ℕ → Server → Outcome Server
unfolding load retry
net_connect_failed c s = do conn ← load c s.heap; retry c conn.request_id s

abbrev pub set_output_state : ℕ → Server → Server
set_output_state i s = record s {
  intercepts =
      λ j. if i == j then record (s.intercepts j) { output_complete = true } else s.intercepts j;
}

-- `setResponseOutputComplete`
unfoldable pub set_response_output_complete : ℕ → Server → Outcome Server
unfolding remove_intercept
set_response_output_complete i s =
    remove_intercept (s.intercepts i).request_id
      (set_output_state i (emit (set_output_complete i) s))

-- `new ServerIntercept(transaction)` at `i`, where the memory held `garbage`
abbrev pub add_intercept : ℕ → ℕ → Server → Server
add_intercept i garbage s = record s {
  intercepts = λ j. if i == j then new_intercept garbage else s.intercepts j;
}

-- `~ServerIntercept`
unfoldable pub destroy_intercept : ℕ → Server → Outcome Server
unfolding remove_intercept
destroy_intercept i s =
    if not (s.intercepts i).output_complete
    then remove_intercept (s.intercepts i).request_id s
    else ok s

-- The response of an intercept is complete.
unfoldable pub complete_response : ℕ → ℕ → Server → Outcome Server
unfolding set_state set_response_output_complete
complete_response i c s = set_state complete c s >>= set_response_output_complete i

-- `TS_EVENT_VCONN_READ_COMPLETE`: the intercept may be a null pointer.
unfoldable pub complete_found : Option ℕ → Server → Outcome Server
unfolding set_response_output_complete
complete_found none s = fault
complete_found (some i) s = set_response_output_complete i s

unfoldable pub read_complete : ℕ → Server → Outcome Server
unfolding load get_intercept set_state complete_found
read_complete c s = do
  conn ← load c s.heap
  s' ← set_state complete c s
  complete_found (get_intercept conn.request_id s) s'

-- `if (data.size()) intercept->writeResponseChunkToATS(data);`
abbrev pub write_response_chunk : ℕ → Bytes → Server → Server
write_response_chunk i [] s = s
write_response_chunk i (b ∷ bs) s = emit (produce i (b ∷ bs)) s

-- The decoder goes on, and the client gets what was decoded.
abbrev pub received : ℕ → ℕ → ServerConnection → FcgiRequest → Decoder → Bytes → Server → Server
received i c conn r d output s =
    let conn' = record conn { fcgi_request = some (record r { decoder = d }) } in
    write_response_chunk i output (record s { heap = put c (some conn') s.heap })

-- What follows the decoding of the blocks.
unfoldable pub after_transfer :
    ℕ → ℕ → ServerConnection → FcgiRequest → Run → Server → Outcome Server
unfolding put complete_response
after_transfer i c conn r none s = fault
after_transfer i c conn r (some fault) s = fault
after_transfer i c conn r (some (ok (d, output, response_status))) s =
    let s' = received i c conn r d output s in
    if response_status then complete_response i c s' else ok s'

all_empty : List Bytes → Bool
all_empty [] = true
all_empty ([] ∷ blocks) = all_empty blocks
all_empty ((b ∷ bs) ∷ blocks) = false

-- The blocks of a connection with the client request that decodes them, which may be a null pointer.
unfoldable pub transfer_to :
    ℕ → ℕ → ServerConnection → List Bytes → Option FcgiRequest → Server → Outcome Server
unfolding after_transfer intercept_transfer_data all_empty
transfer_to i c conn blocks none s = if all_empty blocks then ok s else fault
transfer_to i c conn blocks (some r) s =
    after_transfer i c conn r (intercept_transfer_data s.env.ts_malloc s.env.mime blocks r.decoder)
      s

unfoldable pub transfer_found :
    Option ℕ → ℕ → ServerConnection → List Bytes → Server → Outcome Server
unfolding transfer_to
transfer_found none c conn blocks s = ok s
transfer_found (some i) c conn blocks s = transfer_to i c conn blocks conn.fcgi_request s

-- `TS_EVENT_VCONN_READ_READY`, with the blocks of the reader
unfoldable pub read_ready : List Bytes → ℕ → Server → Outcome Server
unfolding load get_intercept transfer_found
read_ready blocks c s = do
  conn ← load c s.heap
  transfer_found (get_intercept conn.request_id s) c conn blocks s

-- `readio.read(…)`, by what `TSVConnClosedGet` says of the connection.
unfoldable pub start_reading : Bool → ℕ → ServerConnection → Server → Server
unfolding put
start_reading true c conn s = s
start_reading false c conn s =
    if conn.reading
    then s
    else emit (start_read c)
        (record s { heap = put c (some (record conn { reading = true })) s.heap })

-- `TS_EVENT_VCONN_WRITE_COMPLETE`
unfoldable pub write_complete : Bool → ℕ → Server → Outcome Server
unfolding load start_reading
write_complete vc_closed c s = do conn ← load c s.heap; ok (start_reading vc_closed c conn s)

-- `TS_EVENT_VCONN_WRITE_READY`, which calls the handler of the event above
unfoldable pub write_ready : Bool → ℕ → Server → Outcome Server
unfolding load write_complete
write_ready vc_closed c s = do
  conn ← load c s.heap
  if conn.read_enable then write_complete vc_closed c s else ok s

-- The error of a request whose response is not complete.
unfoldable pub fail_unfinished : Bool → Option ℕ → Server → Server
fail_unfinished true found s = s
fail_unfinished false none s = s
fail_unfinished false (some i) s =
    if not (s.intercepts i).output_complete then emit (fail i) s else s

-- `TS_EVENT_VCONN_EOS`
unfoldable pub eos : ℕ → Server → Outcome Server
unfolding load retry close_down get_intercept fail_unfinished is_complete
eos c s = do
  conn ← load c s.heap
  if not conn.read_enable
      then retry c conn.request_id s
      else close_down c
          (fail_unfinished (is_complete conn.state) (get_intercept conn.request_id s) s)

-- The intercept of a connection with an error.
unfoldable pub fail_found : Option ℕ → ℕ → Server → Outcome Server
unfolding set_state
fail_found none c s = ok s
fail_found (some i) c s = do
  s' ← set_state closed c s
  ok (emit (fail i) (emit (set_status_code i 502) s'))

-- `TS_EVENT_ERROR`
unfoldable pub error : ℕ → Server → Outcome Server
unfolding load get_intercept fail_found close_connection
error c s = do
  conn ← load c s.heap
  s' ← fail_found (get_intercept conn.request_id s) c (emit (abort c) s)
  close_connection c s'
