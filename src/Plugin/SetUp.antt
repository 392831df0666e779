-- ===== src/Plugin/SetUp.antt =====
-- The set-up of a thread before its first request.
use ats_fastcgi.Common.{
  ℕ, ◌≡◌, ◌≢◌, refl, ap, sym, ◌∙◌, Bool, true, false, List, [], ◌∷◌, ◌++◌, Option, none, some,
  arith,
}
use ats_fastcgi.Plugin.Thread.{
  new_thread_data, Thread, KeyAnswer, with_key, setup_thread_local_storage, add_data, create_key,
  set_specific, set_up,
}

-- An attempt that fails: no key, or one whose value cannot be set
abbrev pub Fails : KeyAnswer → Type 0
Fails answer = elim answer.key [ none ↦ Unit {0} | some k ↦ answer.can_set ≡ false ]

abbrev pub AllFail : List KeyAnswer → Type 0
AllFail [] = Unit {0}
AllFail (answer ∷ answers) = Fails answer × AllFail answers

-- None of the answers gives this key.
abbrev pub Spares : ℕ → List KeyAnswer → Type 0
Spares j [] = Unit {0}
Spares j (answer ∷ answers) = (answer.key ≢ some j) × Spares j answers

abbrev pub granted : ℕ → KeyAnswer
granted k = record { key = some k; can_set = true }

-- The thread `t'` is `t` with new data under the key `k`.
abbrev pub HasNewData : ℕ → Thread → Thread → Type 0
HasNewData k t t' =
    (t'.thread_key ≡ k)
    × (t'.specific k ≡ some (new_thread_data t.server.env.config))
    × (t'.server ≡ t.server)

-- A new key has no data.
create_key-null : (k : ℕ) (t : Thread) → (create_key k t).specific k ≡ none
create_key-null k t = ground arith

create_key-other : (j k : ℕ) (t : Thread) → j ≢ k → (create_key k t).specific j ≡ t.specific j
create_key-other j k t n = ground arith

-- The thread with new data under a new key
abbrev pub made : ℕ → Thread → Thread
made k t = set_specific k (some (new_thread_data t.server.env.config)) (create_key k t)

with_key-granted : (k : ℕ) (t : Thread) → with_key (some k) true t ≡ (true, made k t)
unfolding with_key add_data
with_key-granted k t = rw (create_key-null k t) refl

made-HasNewData : (k : ℕ) (t : Thread) → HasNewData k t (made k t)
made-HasNewData k t = (refl, ground arith, refl)

made-other : (j k : ℕ) (t : Thread) → j ≢ k → (made k t).specific j ≡ t.specific j
made-other j k t n = ground (arith, create_key-other j k t n)

-- A failed attempt changes no data under a key that it did not give.
with_key-Fails :
    (key : Option ℕ) (can_set : Bool) (t : Thread)
    → Fails (record { key = key; can_set = can_set })
    → (t' : Thread) × (with_key key can_set t ≡ (false, t'))
      × (t'.server ≡ t.server)
      × ((j : ℕ) → key ≢ some j → t'.specific j ≡ t.specific j)
unfolding with_key add_data
with_key-Fails none can_set t h = (t, refl, refl, λ j n. refl)
with_key-Fails (some k) true t h = absurd (cc)
with_key-Fails (some k) false t h =
    let t' = record (create_key k t) { thread_key = 0 } in
    (
      t',
      rw (create_key-null k t) refl,
      refl,
      λ j n. create_key-other j k t (λ e. n (ap some (sym e))),
    )

-- The loop that sets a thread up ends with the first attempt that gives a key and sets its value: the
-- thread then has a new pool and a new queue under this key, the server is as before, and so is the data
-- under every key that no attempt gave.
pub set_up-ends :
    (failures rest : List KeyAnswer) (k : ℕ) (t : Thread)
    → AllFail failures
    → (t' : Thread) × (set_up (failures ++ granted k ∷ rest) t ≡ some t')
      × HasNewData k t t'
      × ((j : ℕ) → j ≢ k → Spares j failures → t'.specific j ≡ t.specific j)
unfolding set_up setup_thread_local_storage
set_up-ends [] rest k t h =
    (made k t, rw (with_key-granted k t) refl, made-HasNewData k t, (λ j n s. made-other j k t n))
set_up-ends (answer ∷ failures) rest k t (h, hs) =
    let (t', run, same, kept) = with_key-Fails answer.key answer.can_set t h in
    let (t'', runs, new, others) = set_up-ends failures rest k t' hs in
    (t'', rw run runs, news t t' t'' new same, λ j n (s, ss). others j n ss ∙ kept j s)
  where
    news : (t t' t'' : Thread) → HasNewData k t' t'' → t'.server ≡ t.server → HasNewData k t t''
    news t t' t'' (at_k, found, after) same =
        (at_k, found ∙ ap (λ s. some (new_thread_data s.env.config)) same, after ∙ same)
