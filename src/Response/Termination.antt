-- ===== src/Response/Termination.antt =====
-- The loop of `fcgiProcessBuffer` ends: its fuel is never used up.
use ats_fastcgi.Common.{
  ℕ, zero, suc, ◌+◌, ◌*◌, ◌<◌, ◌≡◌, ◌≢◌, refl, Bool, Bytes, length, [], ◌∷◌, ◌++◌, arith, none,
  Outcome, ok, fault, >>=-eq-ok, ok-injective, if◌then◌else◌,
}
use mathlib.Core.Path.{subst₂}
use ats_fastcgi.Record.{
  FcgiRecord, Status, process_again, process_done, process_err, state_done, in_state, value,
  process_record,
}
use ats_fastcgi.Record.Progress.{Took, everything, something, nothing, process_record-Took}
use ats_fastcgi.Response.{
  Mime, Decoder, held, Turn, return, again, renew, after_record, turn, Run, after_turn, loop,
  process_buffer,
}

-- Rounds that may still come: two for each byte, and one to finish the record at hand.
abbrev pub rounds : Bytes → FcgiRecord → ℕ
rounds bs rec = 2 * length bs + (if in_state rec.state state_done then 0 else 1)

-- The loop goes on only with what `fcgiProcessRecord` left, and only if that is something.
after_record-again :
    (mime : Mime) (first : Bool) (s : Status) (rest bs : Bytes) (rec rec' : FcgiRecord)
    {first' : Bool} {o : Bytes}
    → after_record mime first (s, rest, rec) ≡ again bs rec' first' o
    → (rest ≡ bs) × (rec ≡ rec') × (bs ≢ [])
unfolding after_record
after_record-again mime first process_done [] bs rec rec' e = ground arith
after_record-again mime first process_done (b ∷ rest) bs rec rec' e = ground arith
after_record-again mime first process_again [] bs rec rec' e = ground arith
after_record-again mime first process_again (b ∷ rest) bs rec rec' e = ground arith
after_record-again mime first process_err [] bs rec rec' e = ground arith
after_record-again mime first process_err (b ∷ rest) bs rec rec' e = ground arith

renew-fewer :
    (bs rest : Bytes) (rec rec' : FcgiRecord)
    → Took bs rest (renew rec) rec'
    → rest ≢ []
    → rounds rest rec' < rounds bs rec
unfolding renew in_state value
renew-fewer bs rest rec rec' (everything e) n = absurd (n e)
renew-fewer bs rest rec rec' (something h) n = ground arith
renew-fewer bs rest rec rec' (nothing h d k) n = ground arith

module _ (ts_malloc : ℕ → Bytes) (mime : Mime) where
  pub turn-again-fewer :
      (bs rest : Bytes) (rec rec' : FcgiRecord) (first : Bool) {first' : Bool} {o : Bytes}
      → turn ts_malloc mime bs rec first ≡ ok (again rest rec' first' o)
      → rounds rest rec' < rounds bs rec
  unfolding turn
  turn-again-fewer bs rest rec rec' first e =
      let ((s, left, r), run, f) = >>=-eq-ok (process_record ts_malloc bs (renew rec)) _ e in
      let (same, kept, more) = after_record-again mime first s left rest r rec' (ok-injective f) in
      renew-fewer bs rest rec rec'
        (subst₂ (λ bs' r'. Took bs bs' (renew rec) r') same kept
          (process_record-Took ts_malloc bs left (renew rec) r s run))
        more

  after_turn_total :
      (more : Bytes → FcgiRecord → Bool → Bytes → Run) (out : Bytes) (t : Outcome Turn)
      → ((rest : Bytes) (rec : FcgiRecord) (first : Bool) (o : Bytes)
          → t ≡ ok (again rest rec first o)
          → more rest rec first (out ++ o) ≢ none)
      → after_turn more out t ≢ none
  unfolding after_turn
  after_turn_total more out fault h = λ e. cc
  after_turn_total more out (ok (return b rec first o)) h = λ e. cc
  after_turn_total more out (ok (again rest rec first o)) h = h rest rec first o refl

  -- Enough fuel gives a result: the loop returns, or it faults.
  loop_total :
      (fuel : ℕ) (bs : Bytes) (rec : FcgiRecord) (first : Bool) (out : Bytes)
      → rounds bs rec < fuel
      → loop ts_malloc mime fuel bs rec first out ≢ none
  unfolding loop
  loop_total zero bs rec first out h = absurd (omega arith)
  loop_total (suc fuel) bs rec first out h =
      after_turn_total (loop ts_malloc mime fuel) out (turn ts_malloc mime bs rec first)
        (λ rest rec' first' o e.
          loop_total fuel rest rec' first' (out ++ o)
            (omega (arith, turn-again-fewer bs rest rec rec' first e)))

  pub rounds-lt : (bs : Bytes) (rec : FcgiRecord) → rounds bs rec < 2 * length bs + 2
  rounds-lt bs rec = ground arith

  -- `fcgiProcessBuffer` ends on every chunk, from every state of the decoder: the fuel that
  -- `process_buffer` gives its loop is never used up.
  pub process_buffer-ne-none :
      (bs : Bytes) (d : Decoder) (output : Bytes) → process_buffer ts_malloc mime bs d output ≢ none
  unfolding process_buffer
  process_buffer-ne-none bs d output =
      loop_total _ bs (held d.header_record) d.first_chunk output
        (rounds-lt bs (held d.header_record))
