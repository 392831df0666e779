-- ===== src/Plugin/Hook.antt =====
-- src/ats_fastcgi.cc: `handleReadCacheLookupComplete`, which decides what becomes of a request.
use ats_fastcgi.Common.{
  ℕ, Bool, not, List, [], Option, none, some, ◌==◌, if◌then◌else◌, Bytes, equal, Outcome, ok, ◌>>=◌,
}
use ats_fastcgi.Intercept.{resume}
use ats_fastcgi.Server.Events.{add_intercept}
use ats_fastcgi.Server.{emit, connect}
use ats_fastcgi.Plugin.Thread.{Thread, KeyAnswer, set_up, with_data, keep}

-- `connect` of src/server.cc, which gives 1 and does nothing in a thread without its data
unfoldable pub connect_here : ℕ → Thread → Outcome (ℕ × Thread)
unfolding connect
connect_here i t = elim (t.specific t.thread_key) [
  | none ↦ ok (1, t)
  | some d ↦ connect i (with_data d t.server) >>= λ s. ok (0, keep s t)
]

-- The thread is set up, if it has no key; then the intercept is connected. None, if the set-up is not
-- done after these answers.
unfoldable pub connect_from : Option Thread → ℕ → Outcome (Option Thread)
unfolding connect_here
connect_from none i = ok none
connect_from (some t) i = connect_here i t >>= λ r. ok (some r.1)

unfoldable pub intercept_request : List KeyAnswer → ℕ → ℕ → Thread → Outcome (Option Thread)
unfolding connect_from set_up
intercept_request answers i garbage t =
    let t' = record t { server = add_intercept i garbage t.server } in
    connect_from (if t'.thread_key == 0 then set_up answers t' else some t') i

-- `urlMatch.str()`, which is empty without a match
abbrev pub match_text : Option Bytes → Bytes
match_text none = []
match_text (some text) = text

-- `transaction.resume()`
abbrev pub resumed : ℕ → Thread → Thread
resumed i t = record t { server = emit (resume i) t.server }

-- What Traffic Server says of a transaction: `CACHE_LOOKUP_HIT_FRESH`, and its handle is not null.
pub record CacheLookup : Type 0 where
  pub hit_fresh : Bool
  pub has_handle : Bool

module _ (regex_search : Bytes → Option Bytes) where
  -- `handleReadCacheLookupComplete` for the transaction of the intercept `i`; `regex_search` gives the
  -- first match of the expression `.*` in a path.
  unfoldable pub handle_read_cache_lookup_complete :
      CacheLookup → List KeyAnswer → ℕ → ℕ → Thread → Outcome (Option Thread)
  unfolding intercept_request equal
  handle_read_cache_lookup_complete lookup answers i garbage t =
      let path = (t.server.env.transactions i).path in
      if lookup.hit_fresh
      then ok (some (resumed i t))
      else if not lookup.has_handle
      then ok (some t)
      else if equal path (match_text (regex_search path))
      then intercept_request answers i garbage t
      else ok (some (resumed i t))
