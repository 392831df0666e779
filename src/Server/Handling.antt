-- ===== src/Server/Handling.antt =====
-- Every event of a connection keeps the invariant of the server.
use ats_fastcgi.Common.{
  ℕ, ◌≡◌, refl, sym, Option, none, some, Outcome, ok, fault, Safe, Safe->>=, Safe-OnOk, OnOk,
  OnOk->>=, OnOk-Safe, arith, Bool, true, false, not, if◌then◌else◌, subst, ◌>>=◌,
}
use ats_fastcgi.Connection.{ServerConnection, ConnState, complete, closed}
use ats_fastcgi.Connection.Heap.{put, load}
use ats_fastcgi.Intercept.{set_output_complete}
use ats_fastcgi.Server.{Server, emit, get_intercept, re_connect, remove_intercept, close_connection}
use ats_fastcgi.Server.Invariant.{same-Owned}
use ats_fastcgi.Server.Owners.{owner_in, IsOwned, owner-put, load_lem}
use ats_fastcgi.Server.Pooling.{Keeps, close_connection-Keeps}
use ats_fastcgi.Server.Staying.{Has, re_connect-Has}
use ats_fastcgi.Server.Ownership.{HasIds, re_connect-IsOwned, remove_intercept-IsOwned}
use ats_fastcgi.Server.Events.{
  set_state, close_down, retry, net_connect_failed, set_output_state, set_response_output_complete,
  destroy_intercept, complete_response, read_complete, complete_found,
}

-- A connection that is live.
abbrev pub IsLive : ℕ → Server → Type 0
IsLive c s = (k : ℕ) × (owner_in s.heap c ≡ some k)

Has-IsLive : (s : Server) (c : ℕ) → IsOwned s → Has c s.pool → IsLive c s
Has-IsLive s c o n = by_owner (owner_in s.heap c) refl
  where
    by_owner : (v : Option ℕ) → owner_in s.heap c ≡ v → IsLive c s
    by_owner none e = absurd (o.pooled c n e)
    by_owner (some k) e = (k, e)

-- What is done with a live connection that is read.
pub load-Safe :
    (P : Server → Type 0) (c : ℕ) (s : Server) (more : ServerConnection → Outcome Server)
    → IsLive c s
    → ((conn : ServerConnection) → s.heap.cell c ≡ some conn → Safe P (more conn))
    → Safe P (load c s.heap >>= more)
load-Safe P c s more (k, e) h =
    let (conn, f, run, same) = load_lem c k s.heap e in
    subst (λ m. Safe P (m >>= more)) (sym run) (h conn f)

pub load-OnOk :
    {A : Type 0} (P : A → Type 0) (c : ℕ) (s : Server) (more : ServerConnection → Outcome A)
    → IsLive c s
    → ((conn : ServerConnection) → s.heap.cell c ≡ some conn → OnOk P (more conn))
    → OnOk P (load c s.heap >>= more)
load-OnOk P c s more (k, e) h =
    let (conn, f, run, same) = load_lem c k s.heap e in
    subst (λ m. OnOk P (m >>= more)) (sym run) (h conn f)

-- A live connection changes, and keeps its request id.
pub change-IsOwned :
    (s : Server) (c : ℕ) (conn conn' : ServerConnection)
    → s.heap.cell c ≡ some conn
    → conn'.request_id ≡ conn.request_id
    → IsOwned s
    → IsOwned (record s { heap = put c (some conn') s.heap })
unfolding put
change-IsOwned s c conn conn' f e o =
    same-Owned o (owner_in (put c (some conn') s.heap))
      (λ d. ground (arith, owner-put c d (some conn') s.heap, f, e))

-- The invariant, a live connection, and the same next request id as before.
abbrev pub KeepsLive : ℕ → ℕ → Server → Type 0
KeepsLive c id s = Keeps id s × IsLive c s

pub set_state-KeepsLive :
    (s : Server) (c k : ℕ) (state : ConnState)
    → IsOwned s
    → owner_in s.heap c ≡ some k
    → Safe (KeepsLive c s.next_id) (set_state state c s)
unfolding set_state
set_state-KeepsLive s c k state o e =
    load-Safe (KeepsLive c s.next_id) c s _ (k, e)
      (λ conn f.
        let conn' = record conn { state = state } in
        (
          (change-IsOwned s c conn conn' f refl o, refl),
          (conn.request_id, ground (arith, owner-put c c (some conn') s.heap)),
        ))

pub close_down-Keeps :
    (s : Server) (c : ℕ) → IsOwned s → IsLive c s → Safe (Keeps s.next_id) (close_down c s)
unfolding close_down
close_down-Keeps s c o (k, e) =
    Safe->>= (KeepsLive c s.next_id) (Keeps s.next_id) (set_state closed c s) (close_connection c)
      (set_state-KeepsLive s c k closed o e)
      (λ s' ((o', same), (k', e')).
        subst (λ id. Safe (Keeps id) (close_connection c s')) same
          (close_connection-Keeps s' c k' o' e'))

-- The invariant alone.
pub Keeps-IsOwned : (id : ℕ) (m : Outcome Server) → Safe (Keeps id) m → Safe IsOwned m
Keeps-IsOwned id (ok s) p = p.0
Keeps-IsOwned id fault p = p

pub retry-IsOwned :
    (s : Server) (c id : ℕ) → IsOwned s → HasIds s → IsLive c s → Safe IsOwned (retry c id s)
unfolding retry
retry-IsOwned s c id o more (k, e) =
    Safe->>= (λ s'. IsOwned s' × Has c s'.pool) IsOwned (re_connect id s) (close_down c)
      (Safe-OnOk IsOwned (λ s'. Has c s'.pool) (re_connect id s) (re_connect-IsOwned s id o more)
        (re_connect-Has c id s (o.live c k e)))
      (λ s' (o', n).
        Keeps-IsOwned s'.next_id (close_down c s')
          (close_down-Keeps s' c o' (Has-IsLive s' c o' n)))

-- `TS_EVENT_NET_CONNECT_FAILED`, of a live connection.
pub net_connect_failed-IsOwned :
    (s : Server) (c : ℕ) → IsOwned s → HasIds s → IsLive c s → Safe IsOwned (net_connect_failed c s)
unfolding net_connect_failed
net_connect_failed-IsOwned s c o more live =
    load-Safe IsOwned c s _ live (λ conn f. retry-IsOwned s c conn.request_id o more live)

set_response_output_complete-IsOwned :
    (s : Server) (i : ℕ) → IsOwned s → HasIds s → Safe IsOwned (set_response_output_complete i s)
unfolding set_response_output_complete
set_response_output_complete-IsOwned s i o more =
    remove_intercept-IsOwned (set_output_state i (emit (set_output_complete i) s))
      (s.intercepts i).request_id o more

-- `~ServerIntercept`
pub destroy_intercept-IsOwned :
    (s : Server) (i : ℕ) → IsOwned s → HasIds s → Safe IsOwned (destroy_intercept i s)
unfolding destroy_intercept
destroy_intercept-IsOwned s i o more = by_state (not (s.intercepts i).output_complete)
  where
    by_state :
        (b : Bool)
        → Safe IsOwned (if b then remove_intercept (s.intercepts i).request_id s else ok s)
    by_state true = remove_intercept-IsOwned s (s.intercepts i).request_id o more
    by_state false = o

pub complete_response-IsOwned :
    (s : Server) (i c : ℕ)
    → IsOwned s
    → HasIds s
    → IsLive c s
    → Safe IsOwned (complete_response i c s)
unfolding complete_response
complete_response-IsOwned s i c o more (k, e) =
    Safe->>= (KeepsLive c s.next_id) IsOwned (set_state complete c s)
      (set_response_output_complete i) (set_state-KeepsLive s c k complete o e)
      (λ s' ((o', same), live). set_response_output_complete-IsOwned s' i o' (rw same more))

-- `TS_EVENT_VCONN_READ_COMPLETE`, of a live connection whose intercept is there.
complete_found-IsOwned :
    (s : Server) (found : Option ℕ) → IsOwned s → HasIds s → OnOk IsOwned (complete_found found s)
unfolding complete_found
complete_found-IsOwned s none o more = tt
complete_found-IsOwned s (some i) o more =
    OnOk-Safe IsOwned (set_response_output_complete i s)
      (set_response_output_complete-IsOwned s i o more)

pub read_complete-IsOwned :
    (s : Server) (c : ℕ) → IsOwned s → HasIds s → IsLive c s → OnOk IsOwned (read_complete c s)
unfolding read_complete
read_complete-IsOwned s c o more (k, e) =
    load-OnOk IsOwned c s _ (k, e)
      (λ conn f.
        OnOk->>= (KeepsLive c s.next_id) IsOwned (set_state complete c s)
          (complete_found (get_intercept conn.request_id s))
          (OnOk-Safe (KeepsLive c s.next_id) (set_state complete c s)
            (set_state-KeepsLive s c k complete o e))
          (λ s' ((o', same), live).
            complete_found-IsOwned s' (get_intercept conn.request_id s) o' (rw same more)))
