-- ===== src/Server/Sending.antt =====
-- The writing of a request keeps the invariant of the server.
use ats_fastcgi.Common.{
  ℕ, ◌≡◌, refl, Option, none, some, Outcome, ok, fault, OnOk, OnOk->>=, OnOk-any, Bool, true, false,
  Bytes, ◌==◌, if◌then◌else◌, length, arith,
}
use ats_fastcgi.Connection.{ServerConnection, FcgiRequest}
use ats_fastcgi.Connection.Heap.{put, cell-put}
use ats_fastcgi.Request.{
  ClientState, create_begin_request, post_body_chunk, empty_param, add_client_request,
}
use ats_fastcgi.Intercept.{Intercept, start_write, write, reenable}
use ats_fastcgi.Server.{Server, emit, find, get_server_connection}
use ats_fastcgi.Server.Owners.{IsOwned}
use ats_fastcgi.Server.Handling.{load-OnOk, change-IsOwned}
use ats_fastcgi.Server.Writing.{
  Answers, set_connection, finish_write, write_bytes, php_write, write_client, write_found,
  write_request_header, write_request_body, write_request_body_complete, RequestDataType,
  request_header, request_body, after_write, stream_req_header, stream_req_body, consume,
  handle_input_complete, keep_header, keep_body,
}

-- The invariant, and what the heap has at a connection.
abbrev HoldsAt : ℕ → ServerConnection → Server → Type 0
HoldsAt c conn s = IsOwned s × (s.heap.cell c ≡ some conn)

set_connection-HoldsAt :
    (c : ℕ) (conn conn' : ServerConnection) (s : Server)
    → conn'.request_id ≡ conn.request_id
    → HoldsAt c conn s
    → HoldsAt c conn' (set_connection c conn' s)
set_connection-HoldsAt c conn conn' s e (o, f) =
    (change-IsOwned s c conn conn' f e o, ground (arith, cell-put c c (some conn') s.heap))

finish_write-IsOwned :
    (b : Bool) (c : ℕ) (conn : ServerConnection) (s : Server)
    → HoldsAt c conn s
    → OnOk IsOwned (finish_write b c conn s)
unfolding finish_write put
finish_write-IsOwned true c conn s h =
    (set_connection-HoldsAt c conn (record conn { read_enable = true }) s refl h).0
finish_write-IsOwned false c conn s h = by_vio conn.write_vio
  where
    by_vio : (b : Bool) → OnOk IsOwned (if b then ok (emit (reenable c) s) else fault)
    by_vio true = h.0
    by_vio false = tt

write_bytes-IsOwned :
    (io : Answers) (c : ℕ) (buf : Bytes) (b : Bool) (conn : ServerConnection) (s : Server)
    → HoldsAt c conn s
    → OnOk IsOwned (write_bytes io c buf b conn s)
unfolding write_bytes
write_bytes-IsOwned io c buf b conn s h = by_count (io.num_bytes_written == length buf)
  where
    by_count :
        (all : Bool)
        → OnOk IsOwned (
            if all then finish_write b c conn (emit (write c buf) s) else ok (emit (write c buf) s))
    by_count true = finish_write-IsOwned b c conn (emit (write c buf) s) h
    by_count false = h.0

php_write-IsOwned :
    (io : Answers) (c : ℕ) (buf : Bytes) (b : Bool) (conn : ServerConnection) (s : Server)
    → HoldsAt c conn s
    → OnOk IsOwned (php_write io c buf b conn s)
unfolding php_write put
php_write-IsOwned io c buf b conn s h = by_state io.vc_closed conn.writing io.has_vio
  where
    conn' : ServerConnection
    conn' = record conn { writing = true; write_vio = io.has_vio }

    s' : Server
    s' = emit (start_write c) (set_connection c conn' s)

    opened : HoldsAt c conn' s'
    opened = set_connection-HoldsAt c conn conn' s refl h

    by_state :
        (vc_closed writing has_vio : Bool)
        → OnOk IsOwned (
            if vc_closed
            then ok s
            else if writing
            then write_bytes io c buf b conn s
            else if has_vio
            then write_bytes io c buf b conn' s'
            else ok s')
    by_state true writing has_vio = h.0
    by_state false true has_vio = write_bytes-IsOwned io c buf b conn s h
    by_state false false true = write_bytes-IsOwned io c buf b conn' s' opened
    by_state false false false = opened.0

write_client-IsOwned :
    (f : ClientState → Outcome ClientState) (b : Bool) (io : Answers) (c : ℕ)
    (conn : ServerConnection) (request : Option FcgiRequest) (s : Server)
    → HoldsAt c conn s
    → OnOk IsOwned (write_client f b io c conn request s)
unfolding write_client put
write_client-IsOwned f b io c conn none s h = tt
write_client-IsOwned f b io c conn (some r) s h =
    OnOk->>= (λ client. Unit {0}) IsOwned (f r.client) _ (OnOk-any (f r.client))
      (λ client u.
        let conn' = record conn { fcgi_request = some (record r { client = client }) } in
        php_write-IsOwned io c (add_client_request client) b conn' (set_connection c conn' s)
          (set_connection-HoldsAt c conn conn' s refl h))

-- The invariant of the server in a result.
abbrev IsOwnedAfter : Bool × Server → Type 0
IsOwnedAfter (written, s) = IsOwned s

write_found-IsOwned :
    (f : ClientState → Outcome ClientState) (b : Bool) (io : Answers) (id : ℕ) (s : Server)
    → IsOwned s
    → OnOk IsOwnedAfter (write_found f b io (get_server_connection id s) s)
unfolding write_found get_server_connection
write_found-IsOwned f b io id s o = by_entry (find id s.intercept_list) refl
  where
    by_entry :
        (v : Option (ℕ × ℕ))
        → find id s.intercept_list ≡ v
        → OnOk IsOwnedAfter (write_found f b io (elim v [ none ↦ none | some (i, c) ↦ some c ]) s)
    by_entry none e = o
    by_entry (some (i, c)) e =
        load-OnOk IsOwnedAfter c s _ (id, o.serving id i c e)
          (λ conn g.
            OnOk->>= IsOwned IsOwnedAfter (write_client f b io c conn conn.fcgi_request s) _
              (write_client-IsOwned f b io c conn conn.fcgi_request s (o, g)) (λ s' o'. o'))

after_write-IsOwned :
    (i : ℕ) (done missed : Intercept → Intercept) (written : Bool × Server)
    → IsOwnedAfter written
    → IsOwned (after_write i done missed written)
unfolding after_write
after_write-IsOwned i done missed (true, s) o = o
after_write-IsOwned i done missed (false, s) o = o

-- `consume`
pub consume-IsOwned :
    (io : Answers) (i : ℕ) (chunk : Bytes) (t : RequestDataType) (s : Server)
    → IsOwned s
    → OnOk IsOwned (consume io i chunk t s)
unfolding consume stream_req_header stream_req_body write_request_header write_request_body
consume-IsOwned io i chunk request_header s o =
    OnOk->>= IsOwnedAfter IsOwned (write_request_header io (s.intercepts i).request_id s) _
      (write_found-IsOwned create_begin_request false io (s.intercepts i).request_id s o)
      (λ r o'. after_write-IsOwned i (λ n. n) (keep_header chunk) r o')
consume-IsOwned io i chunk request_body s o =
    OnOk->>= IsOwnedAfter IsOwned (write_request_body io (s.intercepts i).request_id chunk s) _
      (write_found-IsOwned (post_body_chunk chunk) false io (s.intercepts i).request_id s o)
      (λ r o'. after_write-IsOwned i (λ n. n) (keep_body chunk) r o')

-- `handleInputComplete`
pub handle_input_complete-IsOwned :
    (io : Answers) (i : ℕ) (s : Server) → IsOwned s → OnOk IsOwned (handle_input_complete io i s)
unfolding handle_input_complete write_request_body_complete
handle_input_complete-IsOwned io i s o =
    OnOk->>= IsOwnedAfter IsOwned (write_request_body_complete io (s.intercepts i).request_id s) _
      (write_found-IsOwned empty_param true io (s.intercepts i).request_id s o)
      (λ r o'. after_write-IsOwned i (λ n. record n { input_complete = true }) (λ n. n) r o')
