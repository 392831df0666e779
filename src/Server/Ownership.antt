-- ===== src/Server/Ownership.antt =====
-- Every operation of the server that changes the pool or the map keeps the invariant, and reads no
-- connection that was deleted.
use ats_fastcgi.Common.{
  ℕ, ◌+◌, ◌^◌, ◌%◌, ◌<◌, ◌≡◌, ◌≢◌, refl, Option, none, some, sym, subst, OnOk, OnOk-Safe, Safe,
  Safe->>=, Safe-any, Outcome, ok, fault, if◌then◌else◌, ltb, arith, Bool, true, false,
}
use ats_fastcgi.Connection.{
  ServerConnection, create_fcgi_client, release_fcgi_client, new_client, inuse, is_ready, ready,
  closed,
}
use ats_fastcgi.Connection.Heap.{Heap, put}
use ats_fastcgi.Pool.{ConnectionPool, get_available_connection, reuse_connection}
use ats_fastcgi.Request.{ClientState}
use ats_fastcgi.Connection.Address.{server_address}
use ats_fastcgi.Intercept.{client_request}
use ats_fastcgi.Queue.{pop_from_queue}
use ats_fastcgi.Server.{
  started, assigned, max_requests, start_found, net_connected, Server, re_connect_found, connect_if,
  reuse_or_close, give_back, serve_queue, remove_entry, serve_or_queue, start_request,
  set_request_id, find, erase, assign, get_intercept, initiate_backend_connection, connect,
  re_connect, remove_intercept,
}
use ats_fastcgi.Server.Lists.{count}
use ats_fastcgi.Server.Invariant.{
  erase-Owned, free, reset-Owned, alone, assign-Owned, give_back-Owned, same-Owned,
}
use ats_fastcgi.Server.Owners.{owner_in, IsOwned, owner-put, load_lem, put-IsOwned}
use ats_fastcgi.Server.Pooling.{
  Keeps, close_connection-Keeps, IsReady, IsFound, get_available_connection-IsFound,
}

-- The connection of a client request keeps its request id.
abbrev pub IsSameRequest : ServerConnection → ServerConnection × Bool → Type 0
IsSameRequest conn made = made.0.request_id ≡ conn.request_id

create_fcgi_client-IsSameRequest :
    (new_request : Outcome ClientState) (conn : ServerConnection)
    → new_request ≢ fault
    → Safe (IsSameRequest conn) (create_fcgi_client new_request conn)
unfolding create_fcgi_client
create_fcgi_client-IsSameRequest (ok client) conn h = by_state _
  where
    by_state :
        (b : Bool)
        → Safe (IsSameRequest conn) (
            if b
            then ok (
              record conn {
                fcgi_request = some (record { decoder = new_client; client = client });
                state = inuse;
                req_count = (conn.req_count + 1) % 2 ^ 32;
              },
              true,
            )
            else ok (conn, false))
    by_state true = refl
    by_state false = refl
create_fcgi_client-IsSameRequest fault conn h = absurd (h refl)

pub create_fcgi_client-OnOk :
    (new_request : Outcome ClientState) (conn : ServerConnection)
    → OnOk (IsSameRequest conn) (create_fcgi_client new_request conn)
unfolding create_fcgi_client
create_fcgi_client-OnOk (ok client) conn =
    OnOk-Safe (IsSameRequest conn) (create_fcgi_client (ok client) conn)
      (create_fcgi_client-IsSameRequest (ok client) conn (λ e. cc))
create_fcgi_client-OnOk fault conn = by_state _
  where
    by_state : (b : Bool) → OnOk (IsSameRequest conn) (if b then fault else ok (conn, false))
    by_state true = tt
    by_state false = refl

started-IsOwned :
    (s : Server) (i c : ℕ) (conn : ServerConnection) (h : Heap) (made : ServerConnection × Bool)
    → IsOwned (record s { heap = put c (some conn) h })
    → IsSameRequest conn made
    → IsOwned (started i c made (record s { heap = put c (some conn) h }))
unfolding put
started-IsOwned s i c conn h (conn', true) o e = put-IsOwned s c conn conn' h e o
started-IsOwned s i c conn h (conn', false) o e = put-IsOwned s c conn conn' h e o

start_request-IsOwned :
    (s : Server) (b : Bool) (i c : ℕ) (conn : ServerConnection) (h : Heap)
    → IsOwned (record s { heap = put c (some conn) h })
    → Safe IsOwned (start_request b i c conn (record s { heap = put c (some conn) h }))
unfolding start_request
start_request-IsOwned s true i c conn h o =
    let new_request = client_request s.env conn.request_id i in
    Safe->>= (IsSameRequest conn) IsOwned (create_fcgi_client new_request conn) _
      (create_fcgi_client-IsSameRequest new_request conn (o.works.1 conn.request_id i))
      (λ made e. started-IsOwned s i c conn h made o e)
start_request-IsOwned s false i c conn h o =
    Safe->>= (λ address. Unit {0}) IsOwned (server_address s.env.config) _
      (Safe-any (server_address s.env.config) o.works.0) (λ address u. o)

-- The request ids have not run out.
abbrev pub HasIds : Server → Type 0
HasIds s = s.next_id + 1 < 2 ^ 32

initiate_backend_connection-IsOwned :
    (s : Server) (i c : ℕ)
    → IsOwned s
    → HasIds s
    → IsReady (some c) s.pool s.heap
    → Safe IsOwned (initiate_backend_connection i c s)
unfolding initiate_backend_connection
initiate_backend_connection-IsOwned s i c o more r =
    let (conn, f, run, same) = load_lem c 0 s.heap r.0 in
    let conn' = record conn { request_id = s.next_id } in
    rw run (start_assigned (is_ready conn.state) conn' refl)
  where
    wrap : (s.next_id + 1) % 2 ^ 32 ≡ s.next_id + 1
    wrap = omega arith

    start_assigned :
        (b : Bool) (conn : ServerConnection)
        → conn.request_id ≡ s.next_id
        → Safe IsOwned (start_request b i c conn (assigned i c conn s))
    start_assigned b conn e =
        let next = set_request_id i s.next_id (record s {
          next_id = s.next_id + 1;
          intercept_list = assign s.next_id i c s.intercept_list;
        }) in
        let owned =
          assign-Owned o i c (owner_in (put c (some conn) s.heap)) r.0 r.1
            (λ d. ground (arith, owner-put c d (some conn) s.heap, e)) in
        subst
          (λ n.
            Safe IsOwned (start_request b i c conn (record (assigned i c conn s) { next_id = n })))
          (sym wrap) (start_request-IsOwned next b i c conn s.heap owned)

serve_or_queue-IsOwned :
    (s : Server) (i : ℕ) (r : Option ℕ × ConnectionPool × Heap)
    → HasIds s
    → IsFound s r
    → Safe IsOwned (serve_or_queue i r.0 (record s { pool = r.1; heap = r.2 }))
unfolding serve_or_queue
serve_or_queue-IsOwned s i (none, p, h) more f = f.0
serve_or_queue-IsOwned s i (some c, p, h) more f =
    initiate_backend_connection-IsOwned (record s { pool = p; heap = h }) i c f.0 more f.1

pub connect-IsOwned : (s : Server) (i : ℕ) → IsOwned s → HasIds s → Safe IsOwned (connect i s)
unfolding connect
connect-IsOwned s i o more =
    Safe->>= (IsFound s) IsOwned (get_available_connection (max_requests s) s.pool s.heap)
      (λ r. serve_or_queue i r.0 (record s { pool = r.1; heap = r.2 }))
      (get_available_connection-IsFound s (max_requests s) o)
      (λ r f. serve_or_queue-IsOwned s i r more f)

re_connect_found-IsOwned :
    (s : Server) (k : ℕ) (v : Option ℕ)
    → IsOwned s
    → HasIds s
    → Safe IsOwned (re_connect_found k v s)
unfolding re_connect_found
re_connect_found-IsOwned s k none o more = o
re_connect_found-IsOwned s k (some i) o more =
    connect-IsOwned (record s { intercept_list = erase k s.intercept_list }) i (erase-Owned o k)
      more

pub re_connect-IsOwned : (s : Server) (k : ℕ) → IsOwned s → HasIds s → Safe IsOwned (re_connect k s)
unfolding re_connect
re_connect-IsOwned s k o more = re_connect_found-IsOwned s k (get_intercept k s) o more

connect_if-IsOwned :
    (s : Server) (v : Option ℕ) → IsOwned s → HasIds s → Safe IsOwned (connect_if v s)
unfolding connect_if
connect_if-IsOwned s none o more = o
connect_if-IsOwned s (some i) o more = connect-IsOwned s i o more

-- The connection has no request id any more, and no entry of the map.
reuse_or_close-Keeps :
    (s : Server) (b : Bool) (c : ℕ)
    → IsOwned s
    → owner_in s.heap c ≡ some 0
    → count c s.pool.available_connections ≡ 0
    → Safe (Keeps s.next_id) (reuse_or_close b c s)
unfolding reuse_or_close reuse_connection
reuse_or_close-Keeps s true c o e n =
    let (conn, f, run, same) = load_lem c 0 s.heap e in
    let conn' = record conn { read_enable = false; state = ready } in
    rw run (
      give_back-Owned o c 0 (owner_in (put c (some conn') s.heap)) e (free o c e) n
          (λ d. ground (arith, owner-put c d (some conn') s.heap)),
      refl,
    )
reuse_or_close-Keeps s false c o e n =
    let (conn, f, run, same) = load_lem c 0 s.heap e in
    let conn' = record conn { state = closed } in
    let h = put c (some conn') s.heap in
    rw run (
      close_connection-Keeps (record s { heap = h }) c 0
        (same-Owned o (owner_in h) (λ d. ground (arith, owner-put c d (some conn') s.heap)))
        (ground (arith, owner-put c c (some conn') s.heap)))

give_back-Keeps :
    (s : Server) (c k : ℕ)
    → IsOwned s
    → owner_in s.heap c ≡ some k
    → ((j i : ℕ) → find j s.intercept_list ≢ some (i, c))
    → count c s.pool.available_connections ≡ 0
    → Safe (Keeps s.next_id) (give_back c s)
unfolding give_back
give_back-Keeps s c k o e f n =
    let (conn, _, run, same) = load_lem c k s.heap e in
    let conn' = record (release_fcgi_client conn) { request_id = 0 } in
    let h = put c (some conn') s.heap in
    rw run (
      reuse_or_close-Keeps (record s { heap = h }) (ltb conn'.req_count conn'.max_requests) c
        (reset-Owned o c k (owner_in h) e f (λ d. owner-put c d (some conn') s.heap))
        (ground (arith, owner-put c c (some conn') s.heap)) n)

remove_entry-IsOwned :
    (s : Server) (k : ℕ) (v : Option (ℕ × ℕ))
    → IsOwned s
    → HasIds s
    → find k s.intercept_list ≡ v
    → Safe IsOwned (remove_entry k v s)
unfolding remove_entry serve_queue
remove_entry-IsOwned s k none o more e = o
remove_entry-IsOwned s k (some (i, c)) o more e =
    let (own_k, only, out) = alone o k i c e in
    Safe->>= (Keeps s.next_id) IsOwned
      (give_back c (record s { intercept_list = erase k s.intercept_list })) (λ s'. serve_queue s')
      (give_back-Keeps (record s { intercept_list = erase k s.intercept_list }) c k
        (erase-Owned o k) own_k only out)
      (λ s' r.
        connect_if-IsOwned (record s' { queue = (pop_from_queue s'.queue).1 })
          (pop_from_queue s'.queue).0 r.0 (rw r.1 more))

-- `removeIntercept`
pub remove_intercept-IsOwned :
    (s : Server) (k : ℕ) → IsOwned s → HasIds s → Safe IsOwned (remove_intercept k s)
unfolding remove_intercept
remove_intercept-IsOwned s k o more = remove_entry-IsOwned s k (find k s.intercept_list) o more refl

start_found-IsOwned :
    (s : Server) (v : Option ℕ) (c : ℕ) (conn : ServerConnection) (h : Heap)
    → IsOwned (record s { heap = put c (some conn) h })
    → Safe IsOwned (start_found v c conn (record s { heap = put c (some conn) h }))
unfolding start_found
start_found-IsOwned s none c conn h o = o
start_found-IsOwned s (some i) c conn h o =
    start_request-IsOwned s (is_ready conn.state) i c conn h o

-- `TS_EVENT_NET_CONNECT`, of a connection that is live.
pub net_connected-IsOwned :
    (s : Server) (c k : ℕ)
    → IsOwned s
    → owner_in s.heap c ≡ some k
    → Safe IsOwned (net_connected c s)
unfolding net_connected
net_connected-IsOwned s c k o e =
    let (conn, _, run, same) = load_lem c k s.heap e in
    let conn' = record conn { connected = true; state = ready } in
    let owners = λ (d : ℕ). owner-put c d (some conn') s.heap in
    rw run (
      start_found-IsOwned s (get_intercept conn.request_id s) c conn' s.heap
        (same-Owned o (owner_in (put c (some conn') s.heap)) (λ d. ground (arith, owners d))))
