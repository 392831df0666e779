-- ===== src/Server/Retry.antt =====
-- What becomes of a request whose connection fails before it is written.
use ats_fastcgi.Common.{
  ℕ, ◌<◌, ◌≡◌, ◌≢◌, refl, ap, sym, ◌∙◌, inl, inr, ◌⊎◌, List, [], ◌∷◌, Option, none, some, Outcome,
  ok, Safe, Safe-OnOk, OnOk, OnOk->>=, OnOk-any, OnOk-Safe, arith, Bool, true, false, Bool-cases,
  subst, ◌>>=◌, length, ltb, if◌then◌else◌,
}
use ats_fastcgi.Connection.{
  ServerConnection, closed, ready, new_connection, create_fcgi_client, is_ready,
}
use ats_fastcgi.Connection.Heap.{Heap, put, load, alloc, cell-put}
use ats_fastcgi.Pool.{
  ConnectionPool, take_available, grow, get_available_connection, connection_closed,
}
use ats_fastcgi.Queue.{RequestQueue, add_to_queue}
use ats_fastcgi.Intercept.{Effect, close}
use ats_fastcgi.Connection.Address.{server_address}
use ats_fastcgi.Intercept.{client_request}
use ats_fastcgi.Server.Ownership.{IsSameRequest, create_fcgi_client-OnOk}
use ats_fastcgi.Server.{
  started, assigned, max_requests, Server, find, erase, assign, get_intercept, start_request,
  initiate_backend_connection, serve_or_queue, connect, re_connect_found, re_connect,
  close_connection, emit,
}
use ats_fastcgi.Server.Invariant.{erase-Owned}
use ats_fastcgi.Server.Events.{set_state, close_down}
use ats_fastcgi.Server.Owners.{owner_in, IsOwned, owner-put, load_lem}
use ats_fastcgi.Server.Pooling.{IsFound, get_available_connection-IsFound}

-- What is done with a connection that is read, if it is live.
load_any-OnOk :
    {A : Type 0} (P : A → Type 0) (c : ℕ) (h : Heap) (more : ServerConnection → Outcome A)
    → ((conn : ServerConnection) → h.cell c ≡ some conn → OnOk P (more conn))
    → OnOk P (load c h >>= more)
unfolding load
load_any-OnOk P c h more f = by_cell (h.cell c) refl
  where
    by_cell : (v : Option ServerConnection) → h.cell c ≡ v → OnOk P (load c h >>= more)
    by_cell none e = rw (e, load) tt
    by_cell (some conn) e = rw (e, load) (f conn e)

-- A connection keeps its request id.
abbrev pub KeepsId : ℕ → ℕ → Heap → Type 0
KeepsId c k h = owner_in h c ≡ some k

put-KeepsId :
    (c d k : ℕ) (conn conn' : ServerConnection) (h : Heap)
    → h.cell d ≡ some conn
    → conn'.request_id ≡ conn.request_id
    → KeepsId c k h
    → KeepsId c k (put d (some conn') h)
put-KeepsId c d k conn conn' h f e o = ground (arith, owner-put d c (some conn') h, f, e)

-- The same id, and the same unused memory.
abbrev IsKept : ℕ → ℕ → ℕ → Option ℕ × ConnectionPool × Heap → Type 0
IsKept c k next (found, p, h) = KeepsId c k h × (h.next ≡ next)

take_available-IsKept :
    (c k : ℕ) (av : List ℕ) (p : ConnectionPool) (h : Heap)
    → KeepsId c k h
    → OnOk (IsKept c k h.next) (take_available av p h)
unfolding take_available put
take_available-IsKept c k [] p h o = (o, refl)
take_available-IsKept c k (d ∷ av) p h o =
    load_any-OnOk (IsKept c k h.next) d h _
      (λ conn f. (put-KeepsId c d k conn (record conn { state = ready }) h f refl o, refl))

grow-KeepsId :
    (c k max_requests : ℕ) (r : Option ℕ × ConnectionPool × Heap)
    → KeepsId c k r.2
    → r.2.next ≢ c
    → KeepsId c k (grow max_requests r).2
unfolding grow alloc
grow-KeepsId c k max_requests (found, p, h) o new =
    elim (Bool-cases (ltb (length p.connections) p.max_conn)) [
      | inl room ↦
          rw room (ground (arith, owner-put h.next c (some (new_connection max_requests)) h))
      | inr full ↦ rw full o
    ]

get_available_connection-KeepsId :
    (c k max_requests : ℕ) (p : ConnectionPool) (h : Heap)
    → KeepsId c k h
    → h.next ≢ c
    → OnOk (λ r. KeepsId c k r.2) (get_available_connection max_requests p h)
unfolding get_available_connection
get_available_connection-KeepsId c k max_requests p h o new =
    OnOk->>= (IsKept c k h.next) (λ r. KeepsId c k r.2) _ (λ r. ok (grow max_requests r)) (pick _)
      (λ r (o', same). grow-KeepsId c k max_requests r o' (λ e. new (sym same ∙ e)))
  where
    pick :
        (b : Bool)
        → OnOk
            (IsKept c k h.next)
            (if b then take_available p.available_connections p h else ok (none, p, h))
    pick true = take_available-IsKept c k p.available_connections p h o
    pick false = (o, refl)

-- The request `i` has a connection under the next id, or is offered to the queue, and `c` keeps its id.
abbrev pub IsPlaced : ℕ → ℕ → ℕ → ℕ → List (ℕ × ℕ × ℕ) → RequestQueue → Server → Type 0
IsPlaced i c k id l q s' =
    KeepsId c k s'.heap
    × (((d : ℕ) × (s'.intercept_list ≡ assign id i d l) × (s'.queue ≡ q))
        ⊎ ((s'.intercept_list ≡ l) × (s'.queue ≡ (add_to_queue i q).0)))

started-IsPlaced :
    (i c k id d : ℕ) (conn : ServerConnection) (made : ServerConnection × Bool) (s : Server)
    (l : List (ℕ × ℕ × ℕ)) (q : RequestQueue)
    → s.intercept_list ≡ assign id i d l
    → s.queue ≡ q
    → KeepsId c k s.heap
    → s.heap.cell d ≡ some conn
    → made.0.request_id ≡ conn.request_id
    → IsPlaced i c k id l q (started i d made s)
unfolding put
started-IsPlaced i c k id d conn (conn', true) s l q e f o h same =
    (put-KeepsId c d k conn conn' s.heap h same o, inl (d, e, f))
started-IsPlaced i c k id d conn (conn', false) s l q e f o h same =
    (put-KeepsId c d k conn conn' s.heap h same o, inl (d, e, f))

start_request-IsPlaced :
    (i c k id d : ℕ) (b : Bool) (conn : ServerConnection) (s : Server) (l : List (ℕ × ℕ × ℕ))
    (q : RequestQueue)
    → s.intercept_list ≡ assign id i d l
    → s.queue ≡ q
    → KeepsId c k s.heap
    → s.heap.cell d ≡ some conn
    → OnOk (IsPlaced i c k id l q) (start_request b i d conn s)
unfolding start_request
start_request-IsPlaced i c k id d true conn s l q e f o h =
    let new_request = client_request s.env conn.request_id i in
    OnOk->>= (IsSameRequest conn) (IsPlaced i c k id l q) (create_fcgi_client new_request conn) _
      (create_fcgi_client-OnOk new_request conn)
      (λ made same. started-IsPlaced i c k id d conn made s l q e f o h same)
start_request-IsPlaced i c k id d false conn s l q e f o h =
    let address = server_address s.env.config in
    OnOk->>= (λ a. Unit {0}) (IsPlaced i c k id l q) address _ (OnOk-any address)
      (λ a u. (o, inl (d, e, f)))

initiate_backend_connection-IsPlaced :
    (s : Server) (i c k d : ℕ)
    → KeepsId c k s.heap
    → d ≢ c
    → OnOk (IsPlaced i c k s.next_id s.intercept_list s.queue) (initiate_backend_connection i d s)
unfolding initiate_backend_connection put
initiate_backend_connection-IsPlaced s i c k d o n =
    load_any-OnOk (IsPlaced i c k s.next_id s.intercept_list s.queue) d s.heap _ (λ conn f.
      let conn' = record conn { request_id = s.next_id } in
      start_request-IsPlaced i c k s.next_id d (is_ready conn.state) conn' (assigned i d conn' s)
        s.intercept_list s.queue refl refl (ground (arith, owner-put d c (some conn') s.heap))
        (ground (arith, cell-put d d (some conn') s.heap)))

serve_or_queue-IsPlaced :
    (s : Server) (i c k : ℕ) (r : Option ℕ × ConnectionPool × Heap)
    → 0 < k
    → KeepsId c k r.2
    → IsFound s r
    → OnOk
        (IsPlaced i c k s.next_id s.intercept_list s.queue)
        (serve_or_queue i r.0 (record s { pool = r.1; heap = r.2 }))
unfolding serve_or_queue
serve_or_queue-IsPlaced s i c k (none, p, h) n o f = (o, inr (refl, refl))
serve_or_queue-IsPlaced s i c k (some d, p, h) n o f =
    initiate_backend_connection-IsPlaced (record s { pool = p; heap = h }) i c k d o
      (λ e. let idle = f.1.0 in ground arith)

connect-IsPlaced :
    (s : Server) (i c k : ℕ)
    → 0 < k
    → IsOwned s
    → KeepsId c k s.heap
    → OnOk (IsPlaced i c k s.next_id s.intercept_list s.queue) (connect i s)
unfolding connect
connect-IsPlaced s i c k n o e =
    let found = get_available_connection (max_requests s) s.pool s.heap in
    OnOk->>= (λ r. IsFound s r × KeepsId c k r.2)
      (IsPlaced i c k s.next_id s.intercept_list s.queue) found
      (λ r. serve_or_queue i r.0 (record s { pool = r.1; heap = r.2 }))
      (OnOk-Safe _ found (
        Safe-OnOk (IsFound s) (λ r. KeepsId c k r.2) found
          (get_available_connection-IsFound s (max_requests s) o)
          (get_available_connection-KeepsId c k (max_requests s) s.pool s.heap e
            (λ new. let unused = o.unused c in ground arith))))
      (λ r (f, e'). serve_or_queue-IsPlaced s i c k r n e' f)

get_intercept-found :
    (k i c : ℕ) (s : Server) → find k s.intercept_list ≡ some (i, c) → get_intercept k s ≡ some i
unfolding get_intercept
get_intercept-found k i c s e = rw (e, get_intercept) refl

-- `reConnect`, of the request of a connection.
pub re_connect-IsPlaced :
    (s : Server) (i c k : ℕ)
    → IsOwned s
    → find k s.intercept_list ≡ some (i, c)
    → OnOk (IsPlaced i c k s.next_id (erase k s.intercept_list) s.queue) (re_connect k s)
unfolding re_connect re_connect_found
re_connect-IsPlaced s i c k o e =
    subst
      (λ v.
        OnOk (IsPlaced i c k s.next_id (erase k s.intercept_list) s.queue) (re_connect_found k v s))
      (sym (get_intercept-found k i c s e))
      (connect-IsPlaced (record s { intercept_list = erase k s.intercept_list }) i c k
        (o.ids k i c e).0 (erase-Owned o k) (o.serving k i c e))

-- The connection is deleted, and the entry of its request.
abbrev pub IsClosed : ℕ → ℕ → Server → Server → Type 0
IsClosed c k s s' =
    (s'.heap.cell c ≡ none) × (s'.intercept_list ≡ erase k s.intercept_list) × (s'.queue ≡ s.queue)

closing-IsClosed :
    (c k : ℕ) (b : Bool) (e : Effect) (s s' : Server)
    → IsClosed c k s s'
    → IsClosed c k s (if b then emit e s' else s')
closing-IsClosed c k true e s s' p = p
closing-IsClosed c k false e s s' p = p

close_connection-IsClosed :
    (s : Server) (c k : ℕ) → KeepsId c k s.heap → Safe (IsClosed c k s) (close_connection c s)
unfolding close_connection connection_closed
close_connection-IsClosed s c k e =
    let (conn, f, run, same) = load_lem c k s.heap e in
    rw run (
      closing-IsClosed c k conn.connected (close c) s _
        (ground (arith, cell-put c c none s.heap), ap (λ j. erase j s.intercept_list) same, refl))

pub close_down-IsClosed :
    (s : Server) (c k : ℕ) → KeepsId c k s.heap → Safe (IsClosed c k s) (close_down c s)
unfolding close_down set_state
close_down-IsClosed s c k e =
    let (conn, f, run, same) = load_lem c k s.heap e in
    let conn' = record conn { state = closed } in
    rw run (
      close_connection-IsClosed (record s { heap = put c (some conn') s.heap }) c k
        (put-KeepsId c c k conn conn' s.heap f refl e))
