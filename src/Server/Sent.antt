-- ===== src/Server/Sent.antt =====
-- What the application gets of a request.
use ats_fastcgi.Common.{
  ℕ, ◌+◌, ◌≤◌, ◌<◌, ◌^◌, ◌≡◌, refl, ap, ◌∙◌, List, [], ◌∷◌, ◌++◌, append_assoc, some, Outcome, ok,
  Bool, true, false, Bytes, ◌==◌, length, arith,
}
use ats_fastcgi.Connection.{ServerConnection, FcgiRequest}
use ats_fastcgi.Connection.Heap.{load}
use ats_fastcgi.Request.{ClientState, create_begin_request, post_body_chunk, add_client_request}
use ats_fastcgi.Request.Bounds.{params_bytes}
use ats_fastcgi.Request.Frames.{request_messages, AllMessages, create_begin_request-records}
use ats_fastcgi.Request.Bodies.{post_messages, post_body_chunk-records}
use ats_fastcgi.Response.Stream.{encode_all}
use ats_fastcgi.Intercept.{Effect, start_write, write, reenable}
use ats_fastcgi.Server.{Server, emit, find, get_server_connection}
use ats_fastcgi.Server.Writing.{
  Answers, set_connection, finish_write, write_bytes, php_write, write_client, write_found,
  write_request_header, write_request_body,
}

-- Nothing goes wrong while `n` bytes are written: the connection is open, a channel that is there has its
-- `vio`, and all bytes are written.
pub record IsOpen (io : Answers) (conn : ServerConnection) (n : ℕ) : Type 0 where
  pub not_closed : io.vc_closed ≡ false
  pub has_vio_eq : io.has_vio ≡ true
  pub all_written : io.num_bytes_written ≡ n
  pub channel : conn.writing ≡ true → conn.write_vio ≡ true

-- The channel is opened, if it is not there.
abbrev pub opening : ℕ → Bool → List Effect
opening c true = []
opening c false = start_write c ∷ []

-- What is asked of Traffic Server when bytes are written that are not the last.
abbrev pub sending : ℕ → Bool → Bytes → List Effect
sending c writing buf = opening c writing ++ (write c buf ∷ reenable c ∷ [])

write_bytes-sends :
    (io : Answers) (c : ℕ) (buf : Bytes) (conn : ServerConnection) (s : Server)
    → io.num_bytes_written ≡ length buf
    → conn.write_vio ≡ true
    → write_bytes io c buf false conn s ≡ ok (emit (reenable c) (emit (write c buf) s))
unfolding write_bytes finish_write
write_bytes-sends io c buf conn s n v =
    let same : (io.num_bytes_written == length buf) ≡ true = ground arith in rw (same, v) refl

php_write-sends :
    (io : Answers) (c : ℕ) (buf : Bytes) (conn : ServerConnection) (s : Server) (writing : Bool)
    → conn.writing ≡ writing
    → IsOpen io conn (length buf)
    → (s' : Server) × (php_write io c buf false conn s ≡ ok s')
      × (s'.effects ≡ s.effects ++ sending c writing buf)
unfolding php_write
php_write-sends io c buf conn s true e h = (
  emit (reenable c) (emit (write c buf) s),
  rw (h.not_closed, e) (write_bytes-sends io c buf conn s h.all_written (h.channel e)),
  append_assoc s.effects (write c buf ∷ []) (reenable c ∷ []),
)
php_write-sends io c buf conn s false e h =
    let conn' = record conn { writing = true; write_vio = io.has_vio } in
    let s' = emit (start_write c) (set_connection c conn' s) in
    (
      emit (reenable c) (emit (write c buf) s'),
      rw (h.not_closed, e, h.has_vio_eq)
          (write_bytes-sends io c buf (record conn { writing = true; write_vio = true }) _
            h.all_written refl),
      append_assoc (s.effects ++ (start_write c ∷ [])) (write c buf ∷ []) (reenable c ∷ [])
          ∙ append_assoc s.effects (start_write c ∷ []) (write c buf ∷ reenable c ∷ []),
    )

-- `writeRequestHeader` and `writeRequestBody`, for any serialisation.
write_found-sends :
    (serialise : ClientState → Outcome ClientState) (io : Answers) (c : ℕ) (conn : ServerConnection)
    (r : FcgiRequest) (client : ClientState) (buf : Bytes) (s : Server)
    → s.heap.cell c ≡ some conn
    → conn.fcgi_request ≡ some r
    → serialise r.client ≡ ok client
    → add_client_request client ≡ buf
    → IsOpen io conn (length buf)
    → (s' : Server) × (write_found serialise false io (some c) s ≡ ok (true, s'))
      × (s'.effects ≡ s.effects ++ sending c conn.writing buf)
unfolding write_found write_client load
write_found-sends serialise io c conn r client buf s f g run sent h =
    let conn' = record conn { fcgi_request = some (record r { client = client }) } in
    let (s', done, effects) =
      php_write-sends io c buf conn' (set_connection c conn' s) conn.writing refl (record {
        not_closed = h.not_closed;
        has_vio_eq = h.has_vio_eq;
        all_written = h.all_written;
        channel = h.channel;
      }) in
    (s', rw (f, g, run, sent, done) refl, effects)

get_server_connection-found :
    (id i c : ℕ) (s : Server)
    → find id s.intercept_list ≡ some (i, c)
    → get_server_connection id s ≡ some c
unfolding get_server_connection
get_server_connection-found id i c s e = rw (e, get_server_connection) refl

-- `writeRequestHeader`, of a request of the map with a client request that has nothing written,
-- parameters of less than 65536 bytes and a buffer with room for them and 32 bytes more, where Traffic
-- Server takes all that is written: it succeeds, and what is written to the request's connection is
-- well-formed records, which are a begin record, the parameters and their end.
pub write_request_header-sends :
    (io : Answers) (id i c : ℕ) (conn : ServerConnection) (r : FcgiRequest) (s : Server)
    → find id s.intercept_list ≡ some (i, c)
    → s.heap.cell c ≡ some conn
    → conn.fcgi_request ≡ some r
    → r.client.p_buff_inc ≡ 0
    → length (params_bytes r.client.request_headers) < 2 ^ 16
    → 32 + length (params_bytes r.client.request_headers) ≤ length r.client.buff
    → IsOpen io conn (length (encode_all (request_messages r.client)))
    → (s' : Server) × (write_request_header io id s ≡ ok (true, s'))
      × (s'.effects ≡ s.effects ++ sending c conn.writing (encode_all (request_messages r.client)))
      × AllMessages (request_messages r.client)
unfolding write_request_header
write_request_header-sends io id i c conn r s e f g fresh short room h =
    let (client, run, sent, messages) = create_begin_request-records r.client fresh short room in
    let (s', done, effects) =
      write_found-sends create_begin_request io c conn r client _ s f g run sent h in
    (
      s',
      ap (λ v. write_found create_begin_request false io v s)
            (get_server_connection-found id i c s e)
          ∙ done,
      effects,
      messages,
    )

-- `writeRequestBody`, of a request of the map with a client request and less than 65536 bytes that leave
-- 16 of its buffer, where Traffic Server takes all that is written: it succeeds, and what is written to
-- the request's connection is two well-formed records, the bytes and the end of the body.
pub write_request_body-sends :
    (io : Answers) (id i c : ℕ) (chunk : Bytes) (conn : ServerConnection) (r : FcgiRequest)
    (s : Server)
    → find id s.intercept_list ≡ some (i, c)
    → s.heap.cell c ≡ some conn
    → conn.fcgi_request ≡ some r
    → length chunk < 2 ^ 16
    → 16 + length chunk ≤ length r.client.buff
    → IsOpen io conn (length (encode_all (post_messages chunk r.client)))
    → (s' : Server) × (write_request_body io id chunk s ≡ ok (true, s'))
      × (s'.effects
          ≡ s.effects ++ sending c conn.writing (encode_all (post_messages chunk r.client)))
      × AllMessages (post_messages chunk r.client)
unfolding write_request_body
write_request_body-sends io id i c chunk conn r s e f g short room h =
    let (client, run, sent, messages) = post_body_chunk-records chunk r.client short room in
    let (s', done, effects) =
      write_found-sends (post_body_chunk chunk) io c conn r client _ s f g run sent h in
    (
      s',
      ap (λ v. write_found (post_body_chunk chunk) false io v s)
            (get_server_connection-found id i c s e)
          ∙ done,
      effects,
      messages,
    )
