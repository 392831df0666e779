-- ===== src/Server/Reachable.antt =====
-- The states that the server comes to, and who has which connection there.
use ats_fastcgi.Common.{
  to_uint, div_by, ℕ, ◌≤◌, ◌≡◌, ◌≢◌, refl, some, Outcome, ok, fault, Safe, OnOk, Bool, Bytes, List,
  length, arith, subst, sym,
}
use ats_fastcgi.Config.Access.{get_max_conn_length}
use ats_fastcgi.Intercept.{Environment, Works, Intercept, resume}
use ats_fastcgi.Server.{
  Server, new_server, emit, find, close_connection, connect, re_connect, remove_intercept,
  net_connected,
}
use ats_fastcgi.Server.Events.{
  add_intercept, add_intercept, net_connect_failed, destroy_intercept, read_ready, read_complete,
  write_ready, write_complete, eos, error,
}
use ats_fastcgi.Server.Writing.{Answers, RequestDataType, consume, handle_input_complete}
use ats_fastcgi.Server.Receiving.{read_ready-IsOwned}
use ats_fastcgi.Server.Sending.{consume-IsOwned, handle_input_complete-IsOwned}
use ats_fastcgi.Server.Handling.{
  IsLive, net_connect_failed-IsOwned, destroy_intercept-IsOwned, read_complete-IsOwned,
}
use ats_fastcgi.Server.Ending.{
  write_complete-IsOwned, write_ready-IsOwned, eos-IsOwned, error-IsOwned,
}
use ats_fastcgi.Server.Lists.{count}
use ats_fastcgi.Server.Invariant.{alone}
use ats_fastcgi.Server.Owners.{owner_in, IsOwned}
use ats_fastcgi.Server.Pooling.{Keeps, close_connection-Keeps}
use ats_fastcgi.Server.Ownership.{
  HasIds, connect-IsOwned, re_connect-IsOwned, remove_intercept-IsOwned, net_connected-IsOwned,
}

-- One call into the server that ends well, a new intercept, or a request that is left alone; the connection of an event is a live one. A read event has
-- the blocks of the reader, a write event what `TSVConnClosedGet` says, and an intercept's call what
-- Traffic Server answers to it.
pub data Step (s s' : Server) : Type 0 where
  connects : (i : ℕ) → connect i s ≡ ok s' → Step s s'
  re_connects : (k : ℕ) → re_connect k s ≡ ok s' → Step s s'
  removes : (k : ℕ) → remove_intercept k s ≡ ok s' → Step s s'
  destroys : (i : ℕ) → destroy_intercept i s ≡ ok s' → Step s s'
  comes_up : (c : ℕ) → IsLive c s → net_connected c s ≡ ok s' → Step s s'
  fails : (c : ℕ) → IsLive c s → net_connect_failed c s ≡ ok s' → Step s s'
  consumes :
      (io : Answers) (i : ℕ) (chunk : Bytes) (t : RequestDataType)
      → consume io i chunk t s ≡ ok s'
      → Step s s'
  completes : (io : Answers) (i : ℕ) → handle_input_complete io i s ≡ ok s' → Step s s'
  reads : (blocks : List Bytes) (c : ℕ) → IsLive c s → read_ready blocks c s ≡ ok s' → Step s s'
  reads_all : (c : ℕ) → IsLive c s → read_complete c s ≡ ok s' → Step s s'
  writes : (vc_closed : Bool) (c : ℕ) → IsLive c s → write_ready vc_closed c s ≡ ok s' → Step s s'
  writes_all :
      (vc_closed : Bool) (c : ℕ) → IsLive c s → write_complete vc_closed c s ≡ ok s' → Step s s'
  ends : (c : ℕ) → IsLive c s → eos c s ≡ ok s' → Step s s'
  errs : (c : ℕ) → IsLive c s → error c s ≡ ok s' → Step s s'
  makes : (i garbage : ℕ) → s' ≡ add_intercept i garbage s → Step s s'
  leaves_alone : (i : ℕ) → s' ≡ emit (resume i) s → Step s s'
  closes : (c : ℕ) → IsLive c s → close_connection c s ≡ ok s' → Step s s'

-- The states after any calls, as long as the request ids have not run out. The application's address can
-- be read and every client request can be made.
pub data Reachable : Server → Type 0 where
  start :
      (env : Environment) (intercepts : ℕ → Intercept)
      → Works env
      → Reachable (new_server env intercepts)
  step : {s s' : Server} → Reachable s → HasIds s → Step s s' → Reachable s'

OnOk-ok : (P : Server → Type 0) (m : Outcome Server) {s : Server} → OnOk P m → m ≡ ok s → P s
OnOk-ok P m p e = subst (OnOk P) e p

Safe-ok : (P : Server → Type 0) (m : Outcome Server) {s : Server} → Safe P m → m ≡ ok s → P s
Safe-ok P m p e = subst (Safe P) e p

Safe-ne-fault : (P : Server → Type 0) (m : Outcome Server) → Safe P m → m ≢ fault
Safe-ne-fault P m p e = subst (Safe P) e p

new_server-IsOwned :
    (env : Environment) (intercepts : ℕ → Intercept)
    → Works env
    → IsOwned (new_server env intercepts)
unfolding find count
new_server-IsOwned env intercepts works = record {
  bounded = omega arith;
  serving = λ k i c e. cc;
  ids = λ k i c e. absurd (cc);
  idle = λ c h. absurd (omega arith);
  once = λ c. omega arith;
  pooled = λ c h. absurd (omega arith);
  live = λ c k e. absurd (cc);
  unused = λ c h. refl;
  next_id_pos = omega arith;
  works = works;
  sized = refl;
}

Step-IsOwned : {s s' : Server} → IsOwned s → HasIds s → Step s s' → IsOwned s'
Step-IsOwned {s} o more (connects i e) =
    Safe-ok IsOwned (connect i s) (connect-IsOwned s i o more) e
Step-IsOwned {s} o more (re_connects k e) =
    Safe-ok IsOwned (re_connect k s) (re_connect-IsOwned s k o more) e
Step-IsOwned {s} o more (removes k e) =
    Safe-ok IsOwned (remove_intercept k s) (remove_intercept-IsOwned s k o more) e
Step-IsOwned {s} o more (destroys i e) =
    Safe-ok IsOwned (destroy_intercept i s) (destroy_intercept-IsOwned s i o more) e
Step-IsOwned {s} o more (comes_up c (k, f) e) =
    Safe-ok IsOwned (net_connected c s) (net_connected-IsOwned s c k o f) e
Step-IsOwned {s} o more (fails c live e) =
    Safe-ok IsOwned (net_connect_failed c s) (net_connect_failed-IsOwned s c o more live) e
Step-IsOwned {s} o more (consumes io i chunk t e) =
    OnOk-ok IsOwned (consume io i chunk t s) (consume-IsOwned io i chunk t s o) e
Step-IsOwned {s} o more (completes io i e) =
    OnOk-ok IsOwned (handle_input_complete io i s) (handle_input_complete-IsOwned io i s o) e
Step-IsOwned {s} o more (reads blocks c live e) =
    OnOk-ok IsOwned (read_ready blocks c s) (read_ready-IsOwned s blocks c o more live) e
Step-IsOwned {s} o more (reads_all c live e) =
    OnOk-ok IsOwned (read_complete c s) (read_complete-IsOwned s c o more live) e
Step-IsOwned {s} o more (writes b c live e) =
    Safe-ok IsOwned (write_ready b c s) (write_ready-IsOwned s b c o live) e
Step-IsOwned {s} o more (writes_all b c live e) =
    Safe-ok IsOwned (write_complete b c s) (write_complete-IsOwned s b c o live) e
Step-IsOwned {s} o more (ends c live e) = Safe-ok IsOwned (eos c s) (eos-IsOwned s c o more live) e
Step-IsOwned {s} o more (errs c live e) = Safe-ok IsOwned (error c s) (error-IsOwned s c o live) e
Step-IsOwned o more (makes i garbage e) = subst IsOwned (sym e) o
Step-IsOwned o more (leaves_alone i e) = subst IsOwned (sym e) o
Step-IsOwned {s} o more (closes c (k, f) e) =
    (Safe-ok (Keeps s.next_id) (close_connection c s) (close_connection-Keeps s c k o f) e).0

pub Reachable-IsOwned : {s : Server} → Reachable s → IsOwned s
Reachable-IsOwned (start env intercepts works) = new_server-IsOwned env intercepts works
Reachable-IsOwned (step r more t) = Step-IsOwned (Reachable-IsOwned r) more t

-- In every state that the server comes to, by any calls and events, which are made while request ids
-- are left and of which the events and `connectionClosed` get a live connection, where the address of
-- the application can be read and every client request can be made, the maximum
-- of the thread's connections is the configured one divided by 6, as an unsigned number, and it has no
-- more than that; two requests of the map never have the same connection; and the connection of a request
-- is live, carries that request's id, and is not in the list of the available ones.
pub Reachable-exclusive :
    (s : Server)
    → Reachable s
    → (s.pool.max_conn ≡ to_uint (div_by (get_max_conn_length s.env.config) 6))
      × (length s.pool.connections ≤ s.pool.max_conn)
      × ((k i c : ℕ)
          → find k s.intercept_list ≡ some (i, c)
          → (owner_in s.heap c ≡ some k)
            × (count c s.pool.available_connections ≡ 0)
            × ((j i' : ℕ) → find j s.intercept_list ≡ some (i', c) → j ≡ k))
Reachable-exclusive s r =
    let o = Reachable-IsOwned r in
    (
      o.sized,
      o.bounded,
      (λ k i c e.
          let (own_k, _, out) = alone o k i c e in
          (own_k, out, (λ j i' f. let own_j = o.serving j i' c f in ground arith))),
    )

-- In every state that the server comes to by any calls and events, which are made while request ids are
-- left and of which the events and `connectionClosed` get a live connection, where the address of the
-- application can be read and every client request can be made, and while request ids are left: no call of `connect`,
-- `reConnect`, `removeIntercept` or `~ServerIntercept` reads or writes a connection that was deleted, and
-- neither does `connectionClosed` or an event, of those that read no response, of a live connection.
pub Reachable-ne-fault :
    (s : Server)
    → Reachable s
    → HasIds s
    → ((i : ℕ) → connect i s ≢ fault)
      × ((k : ℕ) → re_connect k s ≢ fault)
      × ((k : ℕ) → remove_intercept k s ≢ fault)
      × ((i : ℕ) → destroy_intercept i s ≢ fault)
      × ((c : ℕ)
          → IsLive c s
          → (net_connected c s ≢ fault)
            × (net_connect_failed c s ≢ fault)
            × ((b : Bool) → write_ready b c s ≢ fault)
            × ((b : Bool) → write_complete b c s ≢ fault)
            × (eos c s ≢ fault)
            × (error c s ≢ fault)
            × (close_connection c s ≢ fault))
Reachable-ne-fault s r more =
    let o = Reachable-IsOwned r in
    (
      (λ i. Safe-ne-fault IsOwned (connect i s) (connect-IsOwned s i o more)),
      (λ k. Safe-ne-fault IsOwned (re_connect k s) (re_connect-IsOwned s k o more)),
      (λ k. Safe-ne-fault IsOwned (remove_intercept k s) (remove_intercept-IsOwned s k o more)),
      (λ i. Safe-ne-fault IsOwned (destroy_intercept i s) (destroy_intercept-IsOwned s i o more)),
      (λ c live. (
        Safe-ne-fault IsOwned (net_connected c s) (net_connected-IsOwned s c live.0 o live.1),
        Safe-ne-fault IsOwned (net_connect_failed c s) (net_connect_failed-IsOwned s c o more live),
        (λ b. Safe-ne-fault IsOwned (write_ready b c s) (write_ready-IsOwned s b c o live)),
        (λ b. Safe-ne-fault IsOwned (write_complete b c s) (write_complete-IsOwned s b c o live)),
        Safe-ne-fault IsOwned (eos c s) (eos-IsOwned s c o more live),
        Safe-ne-fault IsOwned (error c s) (error-IsOwned s c o live),
        Safe-ne-fault (Keeps s.next_id) (close_connection c s)
            (close_connection-Keeps s c live.0 o live.1),
      )),
    )
