-- ===== src/Server/Pooling.antt =====
-- `connectionClosed`, and `getAvailableConnection` of src/connection_pool.cc, under the invariant.
use ats_fastcgi.Common.{
  ℕ, ◌≡◌, refl, inl, inr, List, [], ◌∷◌, Option, none, some, ok, Safe, Safe->>=, length, ltb,
  if◌then◌else◌, arith, Bool, true, false, Bool-cases,
}
use ats_fastcgi.Connection.{new_connection, ready}
use ats_fastcgi.Connection.Heap.{Heap, put, alloc}
use ats_fastcgi.Pool.{
  remove, add_connection, take_available, grow, ConnectionPool, get_available_connection,
  connection_closed,
}
use ats_fastcgi.Intercept.{Effect, close}
use ats_fastcgi.Server.{Server, emit, erase, close_connection}
use ats_fastcgi.Server.Lists.{count}
use ats_fastcgi.Server.Invariant.{close-Owned, grow-Owned, same-Owned, take-Owned, new-count}
use ats_fastcgi.Server.Owners.{owner_in, IsOwned, owner-put, load_lem}

-- The invariant, and the same next request id as before.
abbrev pub Keeps : ℕ → Server → Type 0
Keeps id s = IsOwned s × (s.next_id ≡ id)

close-emit-Keeps :
    (b : Bool) (id : ℕ) (e : Effect) (s : Server)
    → Keeps id s
    → Keeps id (if b then emit e s else s)
close-emit-Keeps true id e s o = o
close-emit-Keeps false id e s o = o

-- `connectionClosed`, of a connection that is live.
pub close_connection-Keeps :
    (s : Server) (c k : ℕ)
    → IsOwned s
    → owner_in s.heap c ≡ some k
    → Safe (Keeps s.next_id) (close_connection c s)
unfolding close_connection connection_closed
close_connection-Keeps s c k o e =
    let (conn, f, run, same) = load_lem c k s.heap e in
    rw run (
      close-emit-Keeps conn.connected s.next_id (close c)
        (record s {
          intercept_list = erase conn.request_id s.intercept_list;
          pool = record s.pool {
            available_connections = remove c s.pool.available_connections;
            connections = remove c s.pool.connections;
          };
          heap = put c none s.heap;
        })
        (close-Owned o c conn.request_id _ (rw same e) (λ d. owner-put c d none s.heap), refl))

-- A connection that was found: it is live, has no request and is not in the pool.
abbrev pub IsReady : Option ℕ → ConnectionPool → Heap → Type 0
IsReady none p h = Unit {0}
IsReady (some c) p h = (owner_in h c ≡ some 0) × (count c p.available_connections ≡ 0)

-- The invariant with another pool and heap, and what was found.
abbrev pub IsFound : Server → Option ℕ × ConnectionPool × Heap → Type 0
IsFound s (found, p, h) = IsOwned (record s { pool = p; heap = h }) × IsReady found p h

take_front-IsFound :
    (s : Server) (c : ℕ) (cs : List ℕ)
    → IsOwned (record s { pool = record s.pool { available_connections = cs } })
    → owner_in s.heap c ≡ some 0
    → count c cs ≡ 0
    → Safe (IsFound s) (take_available (c ∷ cs) s.pool s.heap)
unfolding take_available
take_front-IsFound s c cs taken idle out =
    let (conn, f, run, same) = load_lem c 0 s.heap idle in
    let put_ready = λ (d : ℕ). owner-put c d (some (record conn { state = ready })) s.heap in
    rw run (
      same-Owned taken (owner_in (put c (some (record conn { state = ready })) s.heap))
          (λ d. ground (arith, put_ready d)),
      (ground (arith, put_ready c), out),
    )

take_available-IsFound :
    (s : Server) (av : List ℕ)
    → IsOwned s
    → s.pool.available_connections ≡ av
    → Safe (IsFound s) (take_available av s.pool s.heap)
take_available-IsFound s [] o e = unfold take_available in (o, tt)
take_available-IsFound s (c ∷ cs) o e =
    let (taken, idle, out) = take-Owned (rw e at o) in take_front-IsFound s c cs taken idle out

grow-IsFound :
    (s : Server) (max_requests : ℕ) (r : Option ℕ × ConnectionPool × Heap)
    → IsFound s r
    → IsFound s (grow max_requests r)
unfolding grow alloc add_connection
grow-IsFound s max_requests (found, p, h) f =
    elim (Bool-cases (ltb (length p.connections) p.max_conn)) [
      | inl room ↦
          let new = λ (d : ℕ). owner-put h.next d (some (new_connection max_requests)) h in
          rw room (
            grow-Owned f.0 (owner_in (alloc max_requests h)) (ground arith) new,
            (ground (arith, new h.next), new-count f.0),
          )
      | inr full ↦ rw full f
    ]

pick-IsFound :
    (s : Server) (b : Bool)
    → IsOwned s
    → Safe (IsFound s) (
        if b
        then take_available s.pool.available_connections s.pool s.heap
        else ok (none, s.pool, s.heap))
pick-IsFound s true o = take_available-IsFound s s.pool.available_connections o refl
pick-IsFound s false o = (o, tt)

pub get_available_connection-IsFound :
    (s : Server) (max_requests : ℕ)
    → IsOwned s
    → Safe (IsFound s) (get_available_connection max_requests s.pool s.heap)
unfolding get_available_connection
get_available_connection-IsFound s max_requests o =
    Safe->>= (IsFound s) (IsFound s) _ (λ r. ok (grow max_requests r)) (pick-IsFound s _ o)
      (λ r f. grow-IsFound s max_requests r f)
