-- ===== src/Server/Owners.antt =====
-- The invariant of the server, and changes of its heap that keep the owners.
use ats_fastcgi.Common.{ℕ, ◌≡◌, refl, Option, none, some, ok, ◌==◌, if◌then◌else◌, arith}
use ats_fastcgi.Connection.{ServerConnection}
use ats_fastcgi.Connection.Heap.{Heap, put, load, cell-put}
use ats_fastcgi.Server.{Server}
use ats_fastcgi.Server.Invariant.{Owned, same-Owned}

-- The request id of a live connection.
abbrev pub request_of : Option ServerConnection → Option ℕ
request_of none = none
request_of (some conn) = some conn.request_id

abbrev pub owner_in : Heap → ℕ → Option ℕ
owner_in h c = request_of (h.cell c)

abbrev pub IsOwned : Server → Type 0
IsOwned s =
    Owned s.intercept_list s.pool.available_connections s.pool.connections s.pool.max_conn
      (owner_in s.heap) s.heap.next s.next_id s.env

pub owner-put :
    (c d : ℕ) (v : Option ServerConnection) (h : Heap)
    → owner_in (put c v h) d ≡ (if c == d then request_of v else owner_in h d)
owner-put c d v h = ground (arith, cell-put c d v h)

-- A connection with an owner can be read.
pub load_lem :
    (c k : ℕ) (h : Heap)
    → owner_in h c ≡ some k
    → (conn : ServerConnection) × (h.cell c ≡ some conn)
      × (load c h ≡ ok conn)
      × (conn.request_id ≡ k)
unfolding load
load_lem c k h e = by_cell (h.cell c) refl
  where
    by_cell :
        (v : Option ServerConnection)
        → h.cell c ≡ v
        → (conn : ServerConnection) × (h.cell c ≡ some conn)
          × (load c h ≡ ok conn)
          × (conn.request_id ≡ k)
    by_cell none f = absurd (cc)
    by_cell (some conn) f = (conn, f, rw f refl, cc)

-- A second change of a connection that keeps its request id.
pub put-IsOwned :
    (s : Server) (c : ℕ) (conn conn' : ServerConnection) (h : Heap)
    → conn'.request_id ≡ conn.request_id
    → IsOwned (record s { heap = put c (some conn) h })
    → IsOwned (record s { heap = put c (some conn') (put c (some conn) h) })
unfolding put
put-IsOwned s c conn conn' h e o =
    same-Owned o (owner_in (put c (some conn') (put c (some conn) h))) (λ d.
      ground
        (arith, owner-put c d (some conn') (put c (some conn) h), owner-put c d (some conn) h, e))
