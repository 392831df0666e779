-- ===== src/Pool.antt =====
-- src/connection_pool.cc: the connections of one thread. A connection is its pointer.
use ats_fastcgi.Common.{
  ℕ, Bool, true, false, ◌&&◌, not, List, [], ◌∷◌, ◌++◌, Option, none, some, ltb, leb, ◌==◌,
  if◌then◌else◌, length, ℤ, to_uint, div_by, Outcome, ok, ◌>>=◌,
}
use ats_fastcgi.Connection.{ready}
use ats_fastcgi.Connection.Heap.{Heap, put, load, alloc}

pub record ConnectionPool : Type 0 where
  pub max_conn : ℕ
  pub available_connections : List ℕ
  pub connections : List ℕ

-- `ConnectionPool(…)`, with the configured maximum
abbrev pub new_pool : ℤ → ConnectionPool
new_pool max_connections = record {
  max_conn = to_uint (div_by max_connections 6);
  available_connections = [];
  connections = [];
}

-- `std::list::remove`
unfoldable pub remove : ℕ → List ℕ → List ℕ
remove c [] = []
remove c (x ∷ xs) = if x == c then remove c xs else x ∷ remove c xs

-- `checkAvailability`
unfoldable pub check_availability : ConnectionPool → ℕ
check_availability p = length p.available_connections

-- `addConnection`
unfoldable pub add_connection : ℕ → ConnectionPool → ConnectionPool
add_connection c p = record p { connections = p.connections ++ (c ∷ []) }

abbrev is_empty : List ℕ → Bool
is_empty [] = true
is_empty (x ∷ xs) = false

-- The front of the available connections, made ready.
unfoldable pub take_available :
    List ℕ → ConnectionPool → Heap → Outcome (Option ℕ × ConnectionPool × Heap)
unfolding load put
take_available [] p h = ok (none, p, h)
take_available (c ∷ cs) p h = do
  conn ← load c h
  ok (
    some c,
    record p { available_connections = cs },
    put c (some (record conn { state = ready })) h,
  )

-- A new connection, if there is room for one; else what was found.
unfoldable pub grow : ℕ → Option ℕ × ConnectionPool × Heap → Option ℕ × ConnectionPool × Heap
unfolding alloc add_connection
grow max_requests (found, p, h) =
    if ltb (length p.connections) p.max_conn
    then (some h.next, add_connection h.next p, alloc max_requests h)
    else (found, p, h)

-- `getAvailableConnection`; the first number is what `getMaxReqLength` gives.
unfoldable pub get_available_connection :
    ℕ → ConnectionPool → Heap → Outcome (Option ℕ × ConnectionPool × Heap)
unfolding take_available grow
get_available_connection max_requests p h = do
  found ←
      if not (is_empty p.available_connections) && leb p.max_conn (length p.connections)
      then take_available p.available_connections p h
      else ok (none, p, h)
  ok (grow max_requests found)

-- `reuseConnection`
unfoldable pub reuse_connection : ℕ → ConnectionPool → Heap → Outcome (ConnectionPool × Heap)
unfolding load put
reuse_connection c p h = do
  conn ← load c h
  ok (
    record p { available_connections = p.available_connections ++ (c ∷ []) },
    put c (some (record conn { read_enable = false; state = ready })) h,
  )

-- `connectionClosed`: the connection is deleted.
unfoldable pub connection_closed : ℕ → ConnectionPool → Heap → Outcome (ConnectionPool × Heap)
unfolding load put remove
connection_closed c p h = do
  conn ← load c h
  ok (
    record p {
      available_connections = remove c p.available_connections;
      connections = remove c p.connections;
    },
    put c none h,
  )
