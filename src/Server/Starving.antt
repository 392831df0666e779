-- ===== src/Server/Starving.antt =====
-- A pool without room for a connection: the configured maximum is divided by 6.
use ats_fastcgi.Common.{
  ℕ, ◌<◌, ◌≤◌, ◌≡◌, refl, ap, ◌∙◌, List, [], ◌∷◌, Option, none, some, ok, pos, length, arith, ltb,
  false, to_uint, div_by,
}
use ats_fastcgi.Config.Access.{get_max_conn_length}
use ats_fastcgi.Pool.{ConnectionPool, get_available_connection, grow}
use ats_fastcgi.Connection.Heap.{Heap}
use ats_fastcgi.Queue.{add_to_queue}
use ats_fastcgi.Server.{Server, find, connect, serve_or_queue, max_requests}
use ats_fastcgi.Server.Lists.{count}
use ats_fastcgi.Server.Owners.{IsOwned}
use ats_fastcgi.Server.Reachable.{Reachable, Reachable-IsOwned}

length-zero : {A : Type 0} (l : List A) → length l ≤ 0 → l ≡ []
length-zero [] h = refl
length-zero (x ∷ l) h = absurd (omega arith)

counted-none : (l : List ℕ) → ((c : ℕ) → count c l ≡ 0) → l ≡ []
unfolding count
counted-none [] h = refl
counted-none (c ∷ l) h = let own = h c in absurd (ground arith)

-- A pool without room: it is empty, nobody owns a connection, and none is available.
record IsStarved (s : Server) : Type 0 where
  no_room : s.pool.max_conn ≡ 0
  no_connections : s.pool.connections ≡ []
  none_available : s.pool.available_connections ≡ []
  no_requests : (k : ℕ) → find k s.intercept_list ≡ none

owned-IsStarved :
    (s : Server) (n : ℕ)
    → IsOwned s
    → get_max_conn_length s.env.config ≡ pos n
    → n < 6
    → IsStarved s
unfolding to_uint div_by count
owned-IsStarved s n o e h =
    let no_room : s.pool.max_conn ≡ 0 = o.sized ∙ ap (λ m. to_uint (div_by m 6)) e ∙ omega arith in
    let empty : s.pool.connections ≡ [] =
      length-zero s.pool.connections (let room = o.bounded in omega arith) in
    let uncounted : (c : ℕ) → count c s.pool.connections ≡ 0 = λ c. ap (count c) empty in
    record {
      no_room = no_room;
      no_connections = empty;
      none_available = counted-none s.pool.available_connections (λ c.
          let idle = o.idle c in let live = o.live c 0 in let out = uncounted c in ground arith);
      no_requests = λ k. unserved k uncounted (find k s.intercept_list) refl;
    }
  where
    unserved :
        (k : ℕ)
        → ((c : ℕ) → count c s.pool.connections ≡ 0)
        → (v : Option (ℕ × ℕ)) → find k s.intercept_list ≡ v
        → find k s.intercept_list ≡ none
    unserved k uncounted none f = f
    unserved k uncounted (some (i, c)) f =
        let live = o.live c k (o.serving k i c f) in let out = uncounted c in absurd (omega arith)

get_available_connection-starved :
    (m : ℕ) (p : ConnectionPool) (h : Heap)
    → p.max_conn ≡ 0
    → p.connections ≡ []
    → p.available_connections ≡ []
    → get_available_connection m p h ≡ ok (none, p, h)
unfolding get_available_connection grow
get_available_connection-starved m p h a b c =
    let full : ltb (length p.connections) p.max_conn ≡ false = rw (a, b) refl in rw (c, full) refl

-- Where the configured maximum of connections is 0 to 5, in every state that the server comes to by calls
-- and events, which are made while request ids are left and of which the events and `connectionClosed` get
-- a live connection, where the address of the application can be read and every client request can be
-- made: no request has a connection, and `connect` does nothing but offer a request to the queue.
pub connect-starves :
    (s : Server) (n : ℕ)
    → Reachable s
    → get_max_conn_length s.env.config ≡ pos n
    → n < 6
    → ((k : ℕ) → find k s.intercept_list ≡ none)
      × ((i : ℕ) → connect i s ≡ ok (record s { queue = (add_to_queue i s.queue).0 }))
unfolding connect serve_or_queue
connect-starves s n r e h =
    let starved = owned-IsStarved s n (Reachable-IsOwned r) e h in
    (
      starved.no_requests,
      (λ i.
          rw
            (get_available_connection-starved (max_requests s) s.pool s.heap starved.no_room
              starved.no_connections starved.none_available)
            refl),
    )
