-- ===== src/Server.antt =====
-- src/server.cc: the server as one event thread sees it, with that thread's connection pool and
-- request queue. Intercepts and connections are pointers.
-- The mutexes guard each access to the map and are not modelled; nothing of another thread is.
pub mod Lists
pub mod Invariant
pub mod Owners
pub mod Pooling
pub mod Ownership
pub mod Staying
pub mod Events
pub mod Writing
pub mod Handling
pub mod Ending
pub mod Sending
pub mod Receiving
pub mod Delivering
pub mod Sent
pub mod Reachable
pub mod Retry
pub mod Retries
pub mod Starving
use ats_fastcgi.Common.{
  ℕ, ◌+◌, ◌%◌, ◌^◌, Bool, not, List, true, false, [], ◌∷◌, ◌++◌, Option, none, some, ltb, ◌==◌,
  if◌then◌else◌, to_uint, Outcome, ok, ◌>>=◌,
}
use ats_fastcgi.Connection.{
  ServerConnection, is_ready, ready, closed, create_fcgi_client, release_fcgi_client,
}
use ats_fastcgi.Connection.Heap.{Heap, put, load}
use ats_fastcgi.Pool.{
  new_pool, ConnectionPool, get_available_connection, reuse_connection, connection_closed,
}
use ats_fastcgi.Config.Access.{get_max_conn_length, get_max_req_length, get_request_queue_size}
use ats_fastcgi.Connection.Address.{server_address}
use ats_fastcgi.Intercept.{
  Effect, start_intercept, net_connect, close, Intercept, Environment, client_request,
}
use ats_fastcgi.Queue.{new_queue, RequestQueue, add_to_queue, pop_from_queue}

pub record Server : Type 0 where
  -- `UniqueRequesID::_id`
  pub next_id : ℕ
  -- `_intercept_list`: a request id, the intercept and the connection
  pub intercept_list : List (ℕ × ℕ × ℕ)
  pub pool : ConnectionPool
  pub queue : RequestQueue
  pub heap : Heap
  pub intercepts : ℕ → Intercept
  pub env : Environment
  -- newest last
  pub effects : List Effect

-- `Server()` and the `ThreadData` of a thread, before the first request
abbrev pub new_server : Environment → (ℕ → Intercept) → Server
new_server env intercepts = record {
  next_id = 1;
  intercept_list = [];
  pool = new_pool (get_max_conn_length env.config);
  queue = new_queue (get_request_queue_size env.config);
  heap = record { cell = λ c. none; next = 1 };
  intercepts = intercepts;
  env = env;
  effects = [];
}

-- `_intercept_list.find(request_id)`
unfoldable pub find : ℕ → List (ℕ × ℕ × ℕ) → Option (ℕ × ℕ)
find k [] = none
find k ((j, i, c) ∷ l) = if j == k then some (i, c) else find k l

unfoldable pub erase : ℕ → List (ℕ × ℕ × ℕ) → List (ℕ × ℕ × ℕ)
erase k [] = []
erase k ((j, i, c) ∷ l) = if j == k then erase k l else (j, i, c) ∷ erase k l

-- `_intercept_list[request_id] = std::make_tuple(intercept, conn)`
unfoldable pub assign : ℕ → ℕ → ℕ → List (ℕ × ℕ × ℕ) → List (ℕ × ℕ × ℕ)
unfolding erase
assign k i c l = (k, i, c) ∷ erase k l

-- `getIntercept`
unfoldable pub get_intercept : ℕ → Server → Option ℕ
unfolding find
get_intercept id s = elim (find id s.intercept_list) [ none ↦ none | some (i, c) ↦ some i ]

-- `getServerConnection`
unfoldable pub get_server_connection : ℕ → Server → Option ℕ
unfolding find
get_server_connection id s = elim (find id s.intercept_list) [ none ↦ none | some (i, c) ↦ some c ]

abbrev pub emit : Effect → Server → Server
emit e s = record s { effects = s.effects ++ (e ∷ []) }

-- `~ServerConnection` closes what is connected.
abbrev closing : ServerConnection → ℕ → Server → Server
closing conn c s = if conn.connected then emit (close c) s else s

-- `connectionClosed`
unfoldable pub close_connection : ℕ → Server → Outcome Server
unfolding load erase
close_connection c s = do
  conn ← load c s.heap
  (pool', heap') ← connection_closed c s.pool s.heap
  ok (
      closing conn c (record s {
        intercept_list = erase conn.request_id s.intercept_list;
        pool = pool';
        heap = heap';
      }))

abbrev pub set_request_id : ℕ → ℕ → Server → Server
set_request_id i id s = record s {
  intercepts = λ j. if i == j then record (s.intercepts j) { request_id = id } else s.intercepts j;
}

-- The transaction goes on, if the client request was made.
abbrev pub started : ℕ → ℕ → ServerConnection × Bool → Server → Server
started i c (conn, made) s =
    let s' = record s { heap = put c (some conn) s.heap } in
    if made then emit (start_intercept i) s' else s'

-- The end of `initiateBackendConnection`, by whether the connection is ready: one that is takes the
-- request at once, one that is not is set up.
unfoldable pub start_request : Bool → ℕ → ℕ → ServerConnection → Server → Outcome Server
unfolding create_fcgi_client put client_request server_address
start_request true i c conn s = do
  made ← create_fcgi_client (client_request s.env conn.request_id i) conn
  ok (started i c made s)
start_request false i c conn s = do
  address ← server_address s.env.config
  ok (emit (net_connect c address) s)

-- The next id is the intercept's and the connection's, and the key of their entry.
abbrev pub assigned : ℕ → ℕ → ServerConnection → Server → Server
assigned i c conn s = set_request_id i s.next_id (record s {
  next_id = (s.next_id + 1) % 2 ^ 32;
  heap = put c (some conn) s.heap;
  intercept_list = assign s.next_id i c s.intercept_list;
})

-- `initiateBackendConnection`
unfoldable pub initiate_backend_connection : ℕ → ℕ → Server → Outcome Server
unfolding load put assign start_request
initiate_backend_connection i c s = do
  conn ← load c s.heap
  let conn' = record conn { request_id = s.next_id }
  start_request (is_ready conn.state) i c conn' (assigned i c conn' s)

-- What `connect` does with a connection, or with none.
unfoldable pub serve_or_queue : ℕ → Option ℕ → Server → Outcome Server
unfolding initiate_backend_connection add_to_queue
serve_or_queue i (some c) s = initiate_backend_connection i c s
serve_or_queue i none s = ok (record s { queue = (add_to_queue i s.queue).0 })

-- `_max_requests` of a new connection
abbrev pub max_requests : Server → ℕ
max_requests s = to_uint (get_max_req_length s.env.config)

-- `connect`, in a thread that has its data
unfoldable pub connect : ℕ → Server → Outcome Server
unfolding serve_or_queue get_available_connection
connect i s = do
  (found, pool', heap') ← get_available_connection (max_requests s) s.pool s.heap
  serve_or_queue i found (record s { pool = pool'; heap = heap' })

-- `if (intercept) connect(intercept);`
unfoldable pub connect_if : Option ℕ → Server → Outcome Server
unfolding connect
connect_if none s = ok s
connect_if (some i) s = connect i s

-- The rest of `reConnect`, for the intercept that was found.
unfoldable pub re_connect_found : ℕ → Option ℕ → Server → Outcome Server
unfolding connect erase
re_connect_found id none s = ok s
re_connect_found id (some i) s = connect i (record s { intercept_list = erase id s.intercept_list })

-- `reConnect`
unfoldable pub re_connect : ℕ → Server → Outcome Server
unfolding re_connect_found get_intercept
re_connect id s = re_connect_found id (get_intercept id s) s

-- A connection that may take more requests goes back to the pool; another is closed.
unfoldable pub reuse_or_close : Bool → ℕ → Server → Outcome Server
unfolding load put reuse_connection close_connection
reuse_or_close true c s = do
  (pool', heap') ← reuse_connection c s.pool s.heap
  ok (record s { pool = pool'; heap = heap' })
reuse_or_close false c s = do
  conn ← load c s.heap
  close_connection c (record s { heap = put c (some (record conn { state = closed })) s.heap })

-- The connection of a finished or abandoned request.
unfoldable pub give_back : ℕ → Server → Outcome Server
unfolding load put release_fcgi_client reuse_or_close
give_back c s = do
  conn ← load c s.heap
  let conn' = record (release_fcgi_client conn) { request_id = 0 }
  reuse_or_close (ltb conn'.req_count conn'.max_requests) c
      (record s { heap = put c (some conn') s.heap })

-- The next request of the queue, if there is one.
unfoldable pub serve_queue : Server → Outcome Server
unfolding pop_from_queue connect_if
serve_queue s =
    let (next, queue') = pop_from_queue s.queue in connect_if next (record s { queue = queue' })

-- The rest of `removeIntercept`, for an entry of the map.
unfoldable pub remove_entry : ℕ → Option (ℕ × ℕ) → Server → Outcome Server
unfolding erase give_back serve_queue
remove_entry id none s = ok s
remove_entry id (some (i, c)) s = do
  s' ← give_back c (record s { intercept_list = erase id s.intercept_list })
  serve_queue s'

-- `removeIntercept`
unfoldable pub remove_intercept : ℕ → Server → Outcome Server
unfolding find remove_entry
remove_intercept id s = remove_entry id (find id s.intercept_list) s

-- The request that waits for a connection which has come up, if it is still there.
unfoldable pub start_found : Option ℕ → ℕ → ServerConnection → Server → Outcome Server
unfolding start_request
start_found none c conn s = ok s
start_found (some i) c conn s = start_request (is_ready conn.state) i c conn s

-- `TS_EVENT_NET_CONNECT` of `handlePHPConnectionEvents`
unfoldable pub net_connected : ℕ → Server → Outcome Server
unfolding load put get_intercept start_found
net_connected c s = do
  conn ← load c s.heap
  let conn' = record conn { connected = true; state = ready }
  start_found (get_intercept conn.request_id s) c conn'
      (record s { heap = put c (some conn') s.heap })
