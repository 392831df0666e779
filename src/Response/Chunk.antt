-- ===== src/Response/Chunk.antt =====
-- `fcgiProcessBuffer` on one chunk of a response, wherever the chunk begins and ends.
use ats_fastcgi.Common.{
  ℕ, zero, suc, ◌≤◌, ◌<◌, ◌≡◌, ◌≢◌, ◌⊎◌, inl, inr, refl, sym, ap, ◌∙◌, Bool, true, false, List,
  Bytes, length, [], ◌∷◌, ◌++◌, arith, append-nil, append-cases, append-eq-nil, append-eq-nil_right,
  nil-cases, ok,
}
use native.Mathlib.Nat.{le_trans}
use ats_fastcgi.Record.{FcgiRecord, state_padding}
use ats_fastcgi.Record.Message.{Message, IsMessage, Holds, body, encode}
use ats_fastcgi.Record.Pending.{Pending, awaits, Awaits-fresh}
use ats_fastcgi.Response.{Mime, Turn, renew, at_end, turn, after_turn, loop}
use ats_fastcgi.Response.Stream.{
  head_valid, head_padding, encode_all, is_final, IsResponse, final, more, output, renew-Holds,
  renew-Pending,
}
use ats_fastcgi.Response.Termination.{rounds, turn-again-fewer}
use ats_fastcgi.Response.Waiting.{
  Waiting, waiting, Covers, Holds-Covers, returned_with, Result, ended, going, Result-cons,
}
use ats_fastcgi.Response.Turns.{turn_part, turn_all, after_final, after_other}

module _ (ts_malloc : ℕ → Bytes) (malloc_size : (n : ℕ) → length (ts_malloc n) ≡ n)
    (mime : Mime) where
  loop-suc :
      (fuel : ℕ) (bs : Bytes) (rec : FcgiRecord) (first : Bool) (out : Bytes) (t : Turn)
      → turn ts_malloc mime bs rec first ≡ ok t
      → loop ts_malloc mime (suc fuel) bs rec first out
        ≡ after_turn (loop ts_malloc mime fuel) out (ok t)
  unfolding loop
  loop-suc fuel bs rec first out t e = rw e

  -- The chunk leaves the record at hand unfinished.
  stays :
      (m : Message) (v : IsMessage m) (rest : List Message) (fuel : ℕ) (t bs left todo : Bytes)
      (rec : FcgiRecord) (first : Bool) (out : Bytes)
      → Pending m t (renew rec)
      → t ≡ bs ++ left
      → todo ≡ left ++ encode_all rest
      → bs ≢ []
      → (left ≢ []) ⊎ (body m ≡ [])
      → ((renew rec).state ≡ state_padding → length m.padding ≤ length bs)
      → Result mime first out todo (m ∷ rest) (loop ts_malloc mime (suc fuel) bs rec first out)
  unfolding after_turn
  stays m v rest fuel t bs left todo rec first out p e d h k c =
      let (rec', run, q) = turn_part ts_malloc malloc_size mime m v t bs left rec first p e h k c in
      going [] (m ∷ rest) first rec' refl refl
        (waiting m rest left refl d (rw (renew-Pending m left rec' q) q))
        (loop-suc fuel bs rec first out _ run)

  -- The chunk completes the final record; what follows it in the chunk is left alone.
  completes_final :
      (m : Message) (v : IsMessage m) (fuel : ℕ) (t z todo : Bytes) (rec : FcgiRecord)
      (first : Bool) (out : Bytes)
      → is_final m ≡ true
      → Pending m t (renew rec)
      → body m ++ z ≢ []
      → todo ≡ []
      → Result mime first out todo (m ∷ []) (loop ts_malloc mime (suc fuel) (t ++ z) rec first out)
  unfolding after_turn
  completes_final m v fuel t z todo rec first out f p h e =
      let (rec', run, q) = turn_all ts_malloc malloc_size mime m v t z rec first p h in
      ended rec' e (
        loop-suc fuel (t ++ z) rec first out _
          (run ∙ ap ok (after_final ts_malloc malloc_size mime m z rec' first q f))
        ∙ ap (λ o. returned_with false rec' (out ++ o) true) (sym (append-nil _)))

  next_waits :
      (n : ℕ) (ms : List Message) (m : Message) (rec : FcgiRecord)
      → IsResponse n ms
      → Holds m rec
      → Waiting (encode_all ms) ms rec
  next_waits n [] m rec r h = elim r [ ]
  next_waits n (m' ∷ ms) m rec r h =
      waiting m' ms (encode m') refl refl (rw (renew-Holds m rec h) (awaits (Awaits-fresh m')))

  -- The same claim about the rest of the chunk, for the rounds that follow.
  abbrev Later : ℕ → ℕ → Bytes → FcgiRecord → Bytes → List Message → Type 0
  Later n fuel bs rec todo ms =
      (z : Bytes) (rec' : FcgiRecord) (out : Bytes)
      → z ≢ []
      → Waiting (z ++ todo) ms rec'
      → Covers n z rec'
      → rounds z rec' < rounds bs rec
      → Result mime false out todo ms (loop ts_malloc mime fuel z rec' false out)

  -- The chunk completes a record that is not the final one.
  completes :
      (n : ℕ) (m : Message) (v : IsMessage m) (rest : List Message) (fuel : ℕ) (t z todo : Bytes)
      (rec : FcgiRecord) (first : Bool) (out : Bytes)
      → is_final m ≡ false
      → IsResponse n rest
      → Pending m t (renew rec)
      → body m ++ z ≢ []
      → encode_all rest ≡ z ++ todo
      → Later n fuel (t ++ z) rec todo rest
      → Result mime first out todo
          (m ∷ rest)
          (loop ts_malloc mime (suc fuel) (t ++ z) rec first out)
  unfolding after_turn at_end
  completes n m v rest fuel t [] todo rec first out f r p h g later =
      let (rec', run, q) = turn_all ts_malloc malloc_size mime m v t [] rec first p h in
      going (m ∷ []) rest false rec' refl refl (rw g at (next_waits n rest m rec' r q)) (
        loop-suc fuel (t ++ []) rec first out _
          (run ∙ ap ok (after_other ts_malloc malloc_size mime m [] rec' first q f))
        ∙ ap (λ o. returned_with false rec' (out ++ o) false) (sym (append-nil _)))
  completes n m v rest fuel t (b ∷ z) todo rec first out f r p h g later =
      let (rec', run, q) = turn_all ts_malloc malloc_size mime m v t (b ∷ z) rec first p h in
      let on = run ∙ ap ok (after_other ts_malloc malloc_size mime m (b ∷ z) rec' first q f) in
      rw (loop-suc fuel (t ++ (b ∷ z)) rec first out _ on) (
        Result-cons mime first out todo m rest _ (
          later (b ∷ z) rec' (out ++ output mime first m) (λ e. cc)
            (rw g at (next_waits n rest m rec' r q)) (Holds-Covers n (b ∷ z) m rec' q)
            (turn-again-fewer ts_malloc mime (t ++ (b ∷ z)) (b ∷ z) rec rec' first on)))

  finishes :
      (n fuel : ℕ) (m : Message) (rest : List Message) (t z todo : Bytes) (rec : FcgiRecord)
      (first : Bool) (out : Bytes)
      → IsResponse n (m ∷ rest)
      → Pending m t (renew rec)
      → body m ++ z ≢ []
      → encode_all rest ≡ z ++ todo
      → (IsResponse n rest → Later n fuel (t ++ z) rec todo rest)
      → Result mime first out todo
          (m ∷ rest)
          (loop ts_malloc mime (suc fuel) (t ++ z) rec first out)
  finishes n fuel m rest t z todo rec first out (final v d f b) p h g later =
      completes_final m v fuel t z todo rec first out f p h (append-eq-nil_right z todo (sym g))
  finishes n fuel m rest t z todo rec first out (more v d f r) p h g later =
      completes n m v rest fuel t z todo rec first out f r p h g (later r)

  chunk_step :
      (n fuel : ℕ) (bs todo : Bytes) (m : Message) (rest : List Message) (t : Bytes)
      (rec : FcgiRecord) (first : Bool) (out : Bytes)
      → IsResponse n (m ∷ rest)
      → bs ≢ []
      → t ++ encode_all rest ≡ bs ++ todo
      → Pending m t (renew rec)
      → Covers n bs rec
      → (IsResponse n rest → Later n fuel bs rec todo rest)
      → Result mime first out todo (m ∷ rest) (loop ts_malloc mime (suc fuel) bs rec first out)
  chunk_step n fuel bs todo m rest t rec first out r h e p c later =
      elim (append-cases t (encode_all rest) bs todo e) [
        | inl (z, nz, f, g) ↦
            stays m (head_valid r) rest fuel t bs z todo rec first out p f g h (inl nz)
              (λ s. le_trans (head_padding r) (c s))
        | inr (z, f, g) ↦ elim (nil-cases (body m ++ z)) [
          | inl empty ↦
              let zn : z ≡ [] = append-eq-nil_right (body m) z empty in
              stays m (head_valid r) rest fuel t bs [] todo rec first out p
                (sym (append-nil bs ∙ f ∙ ap (◌++◌ t) zn ∙ append-nil t))
                (sym (g ∙ ap (λ y. y ++ todo) zn)) h (inr (append-eq-nil (body m) z empty))
                (λ s. le_trans (head_padding r) (c s))
          | inr full ↦
              rw f (
                finishes n fuel m rest t z todo rec first out r p full g (λ r'. rw f at (later r')))
        ]
      ]

  -- The loop on one chunk, for any fuel above the rounds that the chunk may need.
  pub loop_chunk :
      (n fuel : ℕ) (bs todo : Bytes) (ms : List Message) (rec : FcgiRecord) (first : Bool)
      (out : Bytes)
      → IsResponse n ms
      → bs ≢ []
      → Waiting (bs ++ todo) ms rec
      → Covers n bs rec
      → rounds bs rec < fuel
      → Result mime first out todo ms (loop ts_malloc mime fuel bs rec first out)
  loop_chunk n zero bs todo ms rec first out r h w c k = absurd (omega arith)
  loop_chunk n (suc fuel) bs todo ms rec first out r h (waiting m rest t e d p) c k = rw e (
      chunk_step n fuel bs todo m rest t rec first out (rw e at r) h (sym d) p c
        (λ r' z rec' out' h' w' c' k'.
          loop_chunk n fuel z todo rest rec' false out' r' h' w' c' (omega arith)))
