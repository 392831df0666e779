-- ===== src/Plugin/Serving.antt =====
-- A new intercept is connected, in a thread with its data and in one without.
use ats_fastcgi.Common.{
  ℕ, ◌≡◌, ◌≢◌, refl, ap, sym, ◌∙◌, true, false, List, ◌∷◌, ◌++◌, Option, some, ◌==◌, Outcome, ok,
  arith, Safe-result,
}
use ats_fastcgi.Server.{Server, connect}
use ats_fastcgi.Server.Events.{add_intercept}
use ats_fastcgi.Server.Reachable.{Reachable, step, makes, connects, Reachable-IsOwned}
use ats_fastcgi.Server.Ownership.{HasIds, connect-IsOwned}
use ats_fastcgi.Server.Owners.{IsOwned}
use ats_fastcgi.Plugin.Thread.{ThreadData, new_thread_data, Thread, KeyAnswer, with_data, keep}
use ats_fastcgi.Plugin.Hook.{connect_here, connect_from, intercept_request}
use ats_fastcgi.Plugin.SetUp.{granted, AllFail, set_up-ends}

-- The server with the pool and the queue that the thread uses
abbrev pub IsView : Thread → Server → Type 0
IsView t s = (d : ThreadData) × (t.specific t.thread_key ≡ some d) × (s ≡ with_data d t.server)

pub keep-IsView : (t : Thread) (s : Server) → IsView (keep s t) s
keep-IsView t s =
    (record { connection_pool = s.pool; pending_req_queue = s.queue }, ground arith, refl)

connect_from-lem :
    (i : ℕ) (t : Thread) (s s' : Server)
    → IsView t s
    → connect i s ≡ ok s'
    → connect_from (some t) i ≡ ok (some (keep s' t))
unfolding connect_from connect_here
connect_from-lem i t s s' (d, found, e) run =
    let here : connect i (with_data d t.server) ≡ ok s' = ap (connect i) (sym e) ∙ run in
    rw (found, connect_here) (rw here refl)

-- A new intercept is connected to the server.
abbrev pub Connects : ℕ → ℕ → Server → Server → Type 0
Connects i garbage s s' = connect i (add_intercept i garbage s) ≡ ok s'

connect-Reachable :
    (i garbage : ℕ) (s : Server)
    → Reachable s
    → HasIds s
    → (s' : Server) × Connects i garbage s s' × Reachable s'
connect-Reachable i garbage s r more =
    let made = step r more (makes i garbage refl) in
    let (s', run, o) =
      Safe-result IsOwned (connect i (add_intercept i garbage s))
        (connect-IsOwned (add_intercept i garbage s) i (Reachable-IsOwned made) more) in
    (s', run, step made more (connects i run))

-- The thread after a request
abbrev pub IsServed : Outcome (Option Thread) → ℕ → (Server → Type 0) → Type 0
IsServed m k P =
    (t' : Thread) × (s' : Server) × (m ≡ ok (some t'))
    × (t'.thread_key ≡ k)
    × IsView t' s'
    × Reachable s'
    × P s'

pub intercept_request-serves :
    (answers : List KeyAnswer) (i garbage : ℕ) (t : Thread) (s : Server)
    → t.thread_key ≢ 0
    → IsView t s
    → Reachable s
    → HasIds s
    → IsServed (intercept_request answers i garbage t) t.thread_key (Connects i garbage s)
unfolding intercept_request
intercept_request-serves answers i garbage t s n (d, found, e) r more =
    let (s', run, r') = connect-Reachable i garbage s r more in
    let t0 = record t { server = add_intercept i garbage t.server } in
    let has_key : t.thread_key == 0 ≡ false = ground arith in
    (
      keep s' t0,
      s',
      rw has_key (
          connect_from-lem i t0 (add_intercept i garbage s) s'
            (d, found, ap (add_intercept i garbage) e) run),
      refl,
      keep-IsView t0 s',
      r',
      run,
    )

pub first_request-serves :
    (failures rest : List KeyAnswer) (k i garbage : ℕ) (t : Thread)
    → AllFail failures
    → t.thread_key ≡ 0
    → Reachable (with_data (new_thread_data t.server.env.config) t.server)
    → HasIds t.server
    → IsServed
        (intercept_request (failures ++ granted k ∷ rest) i garbage t)
        k
        (Connects i garbage (with_data (new_thread_data t.server.env.config) t.server))
unfolding intercept_request
first_request-serves failures rest k i garbage t fails no_key r more =
    let s = with_data (new_thread_data t.server.env.config) t.server in
    let (s', run, r') = connect-Reachable i garbage s r more in
    let t0 = record t { server = add_intercept i garbage t.server } in
    let (t', ends, (at_k, found, same), others) = set_up-ends failures rest k t0 fails in
    let asked : t.thread_key == 0 ≡ true = ground arith in
    (
      keep s' t',
      s',
      rw asked (
          rw ends (
            connect_from-lem i t' (add_intercept i garbage s) s'
              (
                new_thread_data t.server.env.config,
                ap t'.specific at_k ∙ found,
                ap (with_data (new_thread_data t.server.env.config)) (sym same),
              )
              run)),
      at_k,
      keep-IsView t' s',
      r',
      run,
    )
