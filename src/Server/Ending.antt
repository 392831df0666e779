-- ===== src/Server/Ending.antt =====
-- The events that write a request and those that end a connection keep the invariant of the server.
use ats_fastcgi.Common.{
  ℕ, ◌≡◌, refl, Option, none, some, ok, Safe, Safe->>=, Bool, true, false, not, if◌then◌else◌,
}
use ats_fastcgi.Connection.{ServerConnection, closed, is_complete}
use ats_fastcgi.Connection.Heap.{put}
use ats_fastcgi.Intercept.{abort, fail, start_read}
use ats_fastcgi.Server.{Server, emit, get_intercept, close_connection}
use ats_fastcgi.Server.Owners.{IsOwned}
use ats_fastcgi.Server.Pooling.{close_connection-Keeps}
use ats_fastcgi.Server.Ownership.{HasIds}
use ats_fastcgi.Server.Handling.{
  IsLive, KeepsLive, load-Safe, change-IsOwned, set_state-KeepsLive, close_down-Keeps,
  Keeps-IsOwned, retry-IsOwned,
}
use ats_fastcgi.Server.Events.{
  set_state, close_down, retry, start_reading, write_complete, write_ready, fail_unfinished, eos,
  fail_found, error,
}

start_reading-IsOwned :
    (s : Server) (vc_closed : Bool) (c : ℕ) (conn : ServerConnection)
    → IsOwned s
    → s.heap.cell c ≡ some conn
    → IsOwned (start_reading vc_closed c conn s)
unfolding start_reading put
start_reading-IsOwned s true c conn o f = o
start_reading-IsOwned s false c conn o f = by_state conn.reading
  where
    by_state :
        (b : Bool)
        → IsOwned (
            if b
            then s
            else emit
                (start_read c)
                (record s { heap = put c (some (record conn { reading = true })) s.heap }))
    by_state true = o
    by_state false = change-IsOwned s c conn (record conn { reading = true }) f refl o

-- `TS_EVENT_VCONN_WRITE_COMPLETE`, of a live connection.
pub write_complete-IsOwned :
    (s : Server) (vc_closed : Bool) (c : ℕ)
    → IsOwned s
    → IsLive c s
    → Safe IsOwned (write_complete vc_closed c s)
unfolding write_complete
write_complete-IsOwned s vc_closed c o live =
    load-Safe IsOwned c s _ live (λ conn f. start_reading-IsOwned s vc_closed c conn o f)

-- `TS_EVENT_VCONN_WRITE_READY`, of a live connection.
pub write_ready-IsOwned :
    (s : Server) (vc_closed : Bool) (c : ℕ)
    → IsOwned s
    → IsLive c s
    → Safe IsOwned (write_ready vc_closed c s)
unfolding write_ready
write_ready-IsOwned s vc_closed c o live =
    load-Safe IsOwned c s _ live (λ conn f. by_state conn.read_enable)
  where
    by_state : (b : Bool) → Safe IsOwned (if b then write_complete vc_closed c s else ok s)
    by_state true = write_complete-IsOwned s vc_closed c o live
    by_state false = o

-- Nothing but what is asked of Traffic Server differs.
fail_unfinished-KeepsLive :
    (s : Server) (b : Bool) (found : Option ℕ) (c id : ℕ)
    → KeepsLive c id s
    → KeepsLive c id (fail_unfinished b found s)
unfolding fail_unfinished
fail_unfinished-KeepsLive s true found c id p = p
fail_unfinished-KeepsLive s false none c id p = p
fail_unfinished-KeepsLive s false (some i) c id p = by_state (not (s.intercepts i).output_complete)
  where
    by_state : (b : Bool) → KeepsLive c id (if b then emit (fail i) s else s)
    by_state true = p
    by_state false = p

-- `TS_EVENT_VCONN_EOS`, of a live connection.
pub eos-IsOwned : (s : Server) (c : ℕ) → IsOwned s → HasIds s → IsLive c s → Safe IsOwned (eos c s)
unfolding eos
eos-IsOwned s c o more live =
    load-Safe IsOwned c s _ live (λ conn f. by_state conn (not conn.read_enable))
  where
    by_state :
        (conn : ServerConnection) (b : Bool)
        → Safe IsOwned (
            if b
            then retry c conn.request_id s
            else close_down c
                (fail_unfinished (is_complete conn.state) (get_intercept conn.request_id s) s))
    by_state conn true = retry-IsOwned s c conn.request_id o more live
    by_state conn false =
        let (kept, live') =
          fail_unfinished-KeepsLive s (is_complete conn.state) (get_intercept conn.request_id s) c
            s.next_id ((o, refl), live) in
        Keeps-IsOwned _ _ (close_down-Keeps _ c kept.0 live')

fail_found-KeepsLive :
    (s : Server) (found : Option ℕ) (c : ℕ)
    → IsOwned s
    → IsLive c s
    → Safe (KeepsLive c s.next_id) (fail_found found c s)
unfolding fail_found
fail_found-KeepsLive s none c o live = ((o, refl), live)
fail_found-KeepsLive s (some i) c o (k, e) =
    Safe->>= (KeepsLive c s.next_id) (KeepsLive c s.next_id) (set_state closed c s) _
      (set_state-KeepsLive s c k closed o e) (λ s' p. p)

-- `TS_EVENT_ERROR`, of a live connection.
pub error-IsOwned : (s : Server) (c : ℕ) → IsOwned s → IsLive c s → Safe IsOwned (error c s)
unfolding error
error-IsOwned s c o live = load-Safe IsOwned c s _ live (λ conn f.
    Safe->>= (KeepsLive c s.next_id) IsOwned
      (fail_found (get_intercept conn.request_id s) c (emit (abort c) s)) (close_connection c)
      (fail_found-KeepsLive (emit (abort c) s) (get_intercept conn.request_id s) c o live)
      (λ s' (kept, (k, e)).
        Keeps-IsOwned s'.next_id (close_connection c s') (close_connection-Keeps s' c k kept.0 e)))
