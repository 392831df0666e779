-- ===== src/Plugin/Decisions.antt =====
-- What becomes of a request in the hook.
use ats_fastcgi.Common.{
  ℕ, ◌≡◌, ◌≢◌, refl, ap, sym, Bool, true, false, ◌||◌, List, [], ◌∷◌, ◌++◌, Option, some, ◌==◌,
  if◌then◌else◌, Bytes, Outcome, ok, arith, equal, equal_iff,
}
use ats_fastcgi.Server.{Server, new_server, emit}
use ats_fastcgi.Intercept.{resume, Environment, Intercept, Works}
use ats_fastcgi.Server.Reachable.{Reachable, start, step, leaves_alone}
use ats_fastcgi.Server.Ownership.{HasIds}
use ats_fastcgi.Plugin.Thread.{ThreadData, Thread, KeyAnswer}
use ats_fastcgi.Plugin.Hook.{
  intercept_request, resumed, CacheLookup, handle_read_cache_lookup_complete,
}
use ats_fastcgi.Plugin.SetUp.{granted, AllFail}
use ats_fastcgi.Plugin.Serving.{
  IsView, Connects, IsServed, intercept_request-serves, first_request-serves,
}

-- `.*` takes the front of a path up to the end of its line.
abbrev pub line_front : Bytes → Bytes
line_front [] = []
line_front (c ∷ cs) = let more = c ∷ line_front cs in if c == 10 || c == 13 then [] else more

-- What the hook makes of the server, by what Traffic Server says of the request
abbrev pub IsDecided : CacheLookup → ℕ → ℕ → Server → Server → Type 0
IsDecided lookup i garbage s s' =
    let path = (s.env.transactions i).path in
    (lookup.hit_fresh ≡ true → s' ≡ emit (resume i) s)
    × (lookup.hit_fresh ≡ false → lookup.has_handle ≡ false → s' ≡ s)
    × (lookup.hit_fresh ≡ false
        → lookup.has_handle ≡ true
        → line_front path ≢ path
        → s' ≡ emit (resume i) s)
    × (lookup.hit_fresh ≡ false
        → lookup.has_handle ≡ true
        → line_front path ≡ path
        → Connects i garbage s s')

abbrev pub new_thread : (ℕ → Option ThreadData) → Server → Thread
new_thread specific s = record { thread_key = 0; specific = specific; server = s }

abbrev pub lookup_of : Bool → Bool → CacheLookup
lookup_of fresh has_handle = record { hit_fresh = fresh; has_handle = has_handle }

resumed-IsServed :
    (i : ℕ) (t : Thread) (s : Server)
    → IsView t s
    → Reachable s
    → HasIds s
    → IsServed (ok (some (resumed i t))) t.thread_key (λ s'. s' ≡ emit (resume i) s)
resumed-IsServed i t s (d, found, e) r more = (
  resumed i t,
  emit (resume i) s,
  refl,
  refl,
  (d, found, ap (emit (resume i)) e),
  step r more (leaves_alone i refl),
  refl,
)

IsServed-map :
    (m : Outcome (Option Thread)) (k : ℕ) (P Q : Server → Type 0)
    → ((s : Server) → P s → Q s)
    → IsServed m k P
    → IsServed m k Q
IsServed-map m k P Q f (t, s, run, at_k, view, r, p) = (t, s, run, at_k, view, r, f s p)

module _ (regex_search : Bytes → Option Bytes)
    (regex_search-line : (path : Bytes) → regex_search path ≡ some (line_front path)) where
  handle-missed :
      (answers : List KeyAnswer) (i garbage : ℕ) (t : Thread) (s : Server) (b : Bool)
      → equal (s.env.transactions i).path (line_front (s.env.transactions i).path) ≡ b
      → t.thread_key ≢ 0
      → IsView t s
      → Reachable s
      → HasIds s
      → IsServed
          (if b then intercept_request answers i garbage t else ok (some (resumed i t)))
          t.thread_key
          (IsDecided (lookup_of false true) i garbage s)
  handle-missed answers i garbage t s true e n v r more =
      let path = (s.env.transactions i).path in
      let m = intercept_request answers i garbage t in
      IsServed-map m t.thread_key (Connects i garbage s) _
        (λ s' run. (
          (λ h. absurd (cc)),
          (λ h k. absurd (cc)),
          (λ h k l. absurd (l (sym ((equal_iff path (line_front path)).0 e)))),
          (λ h k l. run),
        ))
        (intercept_request-serves answers i garbage t s n v r more)
  handle-missed answers i garbage t s false e n v r more =
      let path = (s.env.transactions i).path in
      IsServed-map (ok (some (resumed i t))) t.thread_key (λ s'. s' ≡ emit (resume i) s) _
        (λ s' run. (
          (λ h. absurd (cc)),
          (λ h k. absurd (cc)),
          (λ h k l. run),
          (λ h k l. absurd (let same = (equal_iff path (line_front path)).1 (sym l) in cc)),
        ))
        (resumed-IsServed i t s v r more)

  handle-cases :
      (fresh has_handle : Bool) (answers : List KeyAnswer) (i garbage : ℕ) (t : Thread) (s : Server)
      → t.thread_key ≢ 0
      → IsView t s
      → Reachable s
      → HasIds s
      → IsServed
          (handle_read_cache_lookup_complete regex_search
            (lookup_of fresh has_handle)
            answers
            i
            garbage
            t)
          t.thread_key
          (IsDecided (lookup_of fresh has_handle) i garbage s)
  unfolding handle_read_cache_lookup_complete
  handle-cases true b answers i garbage t s n v r more =
      IsServed-map (ok (some (resumed i t))) t.thread_key (λ s'. s' ≡ emit (resume i) s) _
        (λ s' run. ((λ h. run), (λ h. absurd (cc)), (λ h. absurd (cc)), (λ h. absurd (cc))))
        (resumed-IsServed i t s v r more)
  handle-cases false false answers i garbage t s n v r more = (
    t,
    s,
    refl,
    refl,
    v,
    r,
    ((λ h. absurd (cc)), (λ h k. refl), (λ h k. absurd (cc)), (λ h k. absurd (cc))),
  )
  handle-cases false true answers i garbage t s n (d, found, e) r more =
      let same : s.env.transactions ≡ t.server.env.transactions = ap (λ x. x.env.transactions) e in
      rw (regex_search-line (t.server.env.transactions i).path) (
        handle-missed answers i garbage t s _
          (ap (λ tr. equal (tr i).path (line_front (tr i).path)) same) n (d, found, e) r more)

  -- In a thread that has its data under a key that is not 0, while request ids are left and with a server
  -- that calls and events come to, the hook ends: a request that is fresh in the cache is resumed, one
  -- without a handle is left as it is, one whose path is not a line of its own is resumed, and any other
  -- gets a new intercept, which is connected. The server is again one that calls and events come to, with
  -- the thread's data under the same key. `regex_search` gives the front of a path that is one line.
  pub handle-decides :
      (lookup : CacheLookup) (answers : List KeyAnswer) (i garbage : ℕ) (t : Thread) (s : Server)
      → t.thread_key ≢ 0
      → IsView t s
      → Reachable s
      → HasIds s
      → IsServed
          (handle_read_cache_lookup_complete regex_search lookup answers i garbage t)
          t.thread_key
          (IsDecided lookup i garbage s)
  handle-decides lookup answers i garbage t s n v r more =
      handle-cases lookup.hit_fresh lookup.has_handle answers i garbage t s n v r more

  -- The first request of a thread, to a server that has had none: where the path is one line, the
  -- address of the application can be read and every client request can be made, and where the attempts
  -- to set the thread up fail some times and then succeed, the hook ends, with the intercept connected to
  -- the new server, and the thread's data under the key that the last attempt gave.
  pub handle-starts :
      (failures rest : List KeyAnswer) (k i garbage : ℕ) (env : Environment)
      (intercepts : ℕ → Intercept) (specific : ℕ → Option ThreadData)
      → AllFail failures
      → Works env
      → line_front (env.transactions i).path ≡ (env.transactions i).path
      → IsServed
          (handle_read_cache_lookup_complete regex_search
            (lookup_of false true)
            (failures ++ granted k ∷ rest)
            i
            garbage
            (new_thread specific (new_server env intercepts)))
          k
          (Connects i garbage (new_server env intercepts))
  unfolding handle_read_cache_lookup_complete
  handle-starts failures rest k i garbage env intercepts specific fails works line =
      let t = new_thread specific (new_server env intercepts) in
      let path = (env.transactions i).path in
      let matches : equal path (line_front path) ≡ true =
        (equal_iff path (line_front path)).1 (sym line) in
      rw (regex_search-line path) (
        rw matches (
          first_request-serves failures rest k i garbage t fails refl (start env intercepts works)
            (omega arith)))
