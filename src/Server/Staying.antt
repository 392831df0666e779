-- ===== src/Server/Staying.antt =====
-- A connection of the pool stays there while requests are connected.
use ats_fastcgi.Common.{
  ℕ, ◌<◌, inl, inr, List, [], ◌∷◌, Option, none, some, ok, OnOk, OnOk->>=, OnOk-any, length, ltb,
  if◌then◌else◌, arith, Bool, true, false, Bool-cases,
}
use ats_fastcgi.Connection.{ServerConnection, create_fcgi_client, is_ready}
use ats_fastcgi.Connection.Heap.{Heap, load}
use ats_fastcgi.Pool.{
  ConnectionPool, take_available, grow, add_connection, get_available_connection,
}
use ats_fastcgi.Connection.Address.{server_address}
use ats_fastcgi.Intercept.{client_request}
use ats_fastcgi.Server.{
  started, assigned, max_requests, Server, erase, get_intercept, start_request,
  initiate_backend_connection, serve_or_queue, connect, re_connect_found, re_connect,
}
use ats_fastcgi.Server.Lists.{count, count-append}

-- A connection is in the pool.
abbrev pub Has : ℕ → ConnectionPool → Type 0
Has c p = 0 < count c p.connections

take_available-Has :
    (c : ℕ) (av : List ℕ) (p : ConnectionPool) (h : Heap)
    → Has c p
    → OnOk (λ r. Has c r.1) (take_available av p h)
unfolding take_available
take_available-Has c [] p h n = n
take_available-Has c (d ∷ av) p h n =
    OnOk->>= (λ conn. Unit {0}) (λ r. Has c r.1) (load d h) _ (OnOk-any (load d h)) (λ conn u. n)

grow-Has :
    (c max_requests : ℕ) (r : Option ℕ × ConnectionPool × Heap)
    → Has c r.1
    → Has c (grow max_requests r).1
unfolding grow add_connection
grow-Has c max_requests (found, p, h) n =
    elim (Bool-cases (ltb (length p.connections) p.max_conn)) [
      | inl room ↦ rw room (omega (arith, n, count-append c h.next p.connections))
      | inr full ↦ rw full n
    ]

get_available_connection-Has :
    (c max_requests : ℕ) (p : ConnectionPool) (h : Heap)
    → Has c p
    → OnOk (λ r. Has c r.1) (get_available_connection max_requests p h)
unfolding get_available_connection
get_available_connection-Has c max_requests p h n =
    OnOk->>= (λ r. Has c r.1) (λ r. Has c r.1) _ (λ r. ok (grow max_requests r)) (pick _)
      (λ r m. grow-Has c max_requests r m)
  where
    pick :
        (b : Bool)
        → OnOk
            (λ r. Has c r.1)
            (if b then take_available p.available_connections p h else ok (none, p, h))
    pick true = take_available-Has c p.available_connections p h n
    pick false = n

started-Has :
    (c i d : ℕ) (made : ServerConnection × Bool) (s : Server)
    → Has c s.pool
    → Has c (started i d made s).pool
started-Has c i d (conn, true) s n = n
started-Has c i d (conn, false) s n = n

start_request-Has :
    (c : ℕ) (b : Bool) (i d : ℕ) (conn : ServerConnection) (s : Server)
    → Has c s.pool
    → OnOk (λ s'. Has c s'.pool) (start_request b i d conn s)
unfolding start_request
start_request-Has c true i d conn s n =
    let made = create_fcgi_client (client_request s.env conn.request_id i) conn in
    OnOk->>= (λ m. Unit {0}) (λ s'. Has c s'.pool) made _ (OnOk-any made)
      (λ m u. started-Has c i d m s n)
start_request-Has c false i d conn s n =
    let address = server_address s.env.config in
    OnOk->>= (λ a. Unit {0}) (λ s'. Has c s'.pool) address _ (OnOk-any address) (λ a u. n)

serve_or_queue-Has :
    (c i : ℕ) (found : Option ℕ) (s : Server)
    → Has c s.pool
    → OnOk (λ s'. Has c s'.pool) (serve_or_queue i found s)
unfolding serve_or_queue initiate_backend_connection
serve_or_queue-Has c i none s n = n
serve_or_queue-Has c i (some d) s n =
    OnOk->>= (λ conn. Unit {0}) (λ s'. Has c s'.pool) (load d s.heap) _ (OnOk-any (load d s.heap))
      (λ conn u.
        let conn' = record conn { request_id = s.next_id } in
        start_request-Has c (is_ready conn.state) i d conn' (assigned i d conn' s) n)

connect-Has : (c i : ℕ) (s : Server) → Has c s.pool → OnOk (λ s'. Has c s'.pool) (connect i s)
unfolding connect
connect-Has c i s n =
    OnOk->>= (λ r. Has c r.1) (λ s'. Has c s'.pool)
      (get_available_connection (max_requests s) s.pool s.heap)
      (λ r. serve_or_queue i r.0 (record s { pool = r.1; heap = r.2 }))
      (get_available_connection-Has c (max_requests s) s.pool s.heap n)
      (λ r m. serve_or_queue-Has c i r.0 (record s { pool = r.1; heap = r.2 }) m)

re_connect_found-Has :
    (c k : ℕ) (found : Option ℕ) (s : Server)
    → Has c s.pool
    → OnOk (λ s'. Has c s'.pool) (re_connect_found k found s)
unfolding re_connect_found
re_connect_found-Has c k none s n = n
re_connect_found-Has c k (some i) s n =
    connect-Has c i (record s { intercept_list = erase k s.intercept_list }) n

-- `reConnect` takes no connection from the pool.
pub re_connect-Has :
    (c k : ℕ) (s : Server) → Has c s.pool → OnOk (λ s'. Has c s'.pool) (re_connect k s)
unfolding re_connect
re_connect-Has c k s n = re_connect_found-Has c k (get_intercept k s) s n
