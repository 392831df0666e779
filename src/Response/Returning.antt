-- ===== src/Response/Returning.antt =====
-- When `fcgiProcessBuffer` returns: on any bytes, unless the padding of a record runs out of the chunk.
use ats_fastcgi.Common.{
  ℕ, zero, suc, ◌≤◌, ◌<◌, ◌≡◌, ◌≢◌, refl, sym, ap, Bool, false, Bool-cases, inl, inr, Bytes, length,
  [], ◌∷◌, ◌++◌, none, some, arith, ◌==◌, Outcome, ok, fault, Safe, Safe->>=,
}
use ats_fastcgi.Record.{
  FcgiRecord, Status, fresh, process_again, process_done, process_err, state_done, in_state, value,
  process_record,
}
use ats_fastcgi.Record.Sound.{
  AllBytes, padding_left, IsSound, IsReturned, fresh-IsSound, process_record-IsReturned,
  process_record-overrun,
}
use ats_fastcgi.Response.{
  Mime, Decoder, held, Turn, return, again, renew, is_last, after_record, turn, Run, at_end,
  output_of, after_turn, loop, process_buffer,
}
use ats_fastcgi.Response.Termination.{process_buffer-ne-none}

-- What a round gives: a sound record, with which the loop can go on
abbrev IsRound : Turn → Type 0
IsRound (return b rec first o) = IsSound rec
IsRound (again bs rec first o) =
    (bs ≢ []) × AllBytes bs × IsSound rec × (padding_left rec ≤ length bs)

finished-padding_left : (rec : FcgiRecord) → value rec.state ≡ 11 → padding_left rec ≡ 0
unfolding in_state value
finished-padding_left rec e =
    let other : (value rec.state == 10) ≡ false = ground arith in rw other refl

done-padding_left : (rec : FcgiRecord) → rec.state ≡ state_done → padding_left rec ≡ 0
unfolding value
done-padding_left rec e = finished-padding_left rec (ap value e)

at_end-IsRound :
    (s : Status) (rest : Bytes) (rec : FcgiRecord) (first : Bool) (o : Bytes)
    → IsReturned (s, rest, rec)
    → IsRound (at_end rest rec first o)
unfolding at_end
at_end-IsRound s [] rec first o h = h.0
at_end-IsRound s (b ∷ rest) rec first o (sound, bytes, ends) =
    let none_left = done-padding_left rec (ends (λ e. cc)) in ((λ e. cc), bytes, sound, omega arith)

after_record-IsRound :
    (mime : Mime) (first : Bool) (r : Status × Bytes × FcgiRecord)
    → IsReturned r
    → IsRound (after_record mime first r)
unfolding after_record
after_record-IsRound mime first (process_done, rest, rec) h = elim (Bool-cases (is_last rec)) [
  | inl last ↦ rw last h.0
  | inr other ↦ rw other (at_end-IsRound process_done rest rec false (output_of mime first rec) h)
]
after_record-IsRound mime first (process_again, rest, rec) h =
    at_end-IsRound process_again rest rec first [] h
after_record-IsRound mime first (process_err, rest, rec) h =
    at_end-IsRound process_err rest rec first [] h

renew-IsSound :
    (rec : FcgiRecord)
    → IsSound rec
    → IsSound (renew rec)
      × ((renew rec).state ≢ state_done)
      × (padding_left (renew rec) ≡ padding_left rec)
unfolding renew in_state value
renew-IsSound rec sound = elim (Bool-cases (value rec.state == value state_done)) [
  | inl finished ↦
      let at_end : value rec.state ≡ 11 = ground arith in
      rw finished (fresh-IsSound, (λ e. cc), sym (finished-padding_left rec at_end))
  | inr going ↦
      rw going (sound, (λ e. let v : value rec.state ≡ 11 = ap value e in ground arith), refl)
]

-- No access outside the chunk or a block, and a sound record at the end
abbrev IsReturnedRun : Run → Type 0
IsReturnedRun none = Unit {0}
IsReturnedRun (some fault) = ⊥
IsReturnedRun (some (ok (d, o, b))) = IsSound (held d.header_record)

module _ (ts_malloc : ℕ → Bytes) (malloc_size : (n : ℕ) → length (ts_malloc n) ≡ n)
    (mime : Mime) where
  turn-IsRound :
      (bs : Bytes) (rec : FcgiRecord) (first : Bool)
      → bs ≢ []
      → AllBytes bs
      → IsSound rec
      → padding_left rec ≤ length bs
      → Safe IsRound (turn ts_malloc mime bs rec first)
  unfolding turn
  turn-IsRound [] rec first n h sound fits = absurd (n refl)
  turn-IsRound (ch ∷ bs) rec first n h sound fits =
      let (sound', going, same) = renew-IsSound rec sound in
      Safe->>= IsReturned IsRound (process_record ts_malloc (ch ∷ bs) (renew rec))
        (λ done. ok (after_record mime first done))
        (process_record-IsReturned ts_malloc malloc_size ch bs (renew rec) sound' h going
          (omega arith))
        (λ r returned. after_record-IsRound mime first r returned)

  loop-IsReturnedRun :
      (fuel : ℕ) (bs : Bytes) (rec : FcgiRecord) (first : Bool) (out : Bytes)
      → bs ≢ []
      → AllBytes bs
      → IsSound rec
      → padding_left rec ≤ length bs
      → IsReturnedRun (loop ts_malloc mime fuel bs rec first out)
  unfolding loop after_turn
  loop-IsReturnedRun zero bs rec first out n h sound fits = tt
  loop-IsReturnedRun (suc fuel) bs rec first out n h sound fits =
      after (turn ts_malloc mime bs rec first) (turn-IsRound bs rec first n h sound fits)
        (λ bs' rec' first' out' n' h' sound' fits'.
          loop-IsReturnedRun fuel bs' rec' first' out' n' h' sound' fits')
    where
      after :
          (t : Outcome Turn)
          → Safe IsRound t
          → ((bs' : Bytes) (rec' : FcgiRecord) (first' : Bool) (out' : Bytes)
              → bs' ≢ []
              → AllBytes bs'
              → IsSound rec'
              → padding_left rec' ≤ length bs'
              → IsReturnedRun (loop ts_malloc mime fuel bs' rec' first' out'))
          → IsReturnedRun (after_turn (loop ts_malloc mime fuel) out t)
      after fault r next = r
      after (ok (return b rec' first' o)) r next = r
      after (ok (again bs' rec' first' o)) (n', h', sound', fits') next =
          next bs' rec' first' (out ++ o) n' h' sound' fits'

  of_run :
      (run : Run)
      → run ≢ none
      → IsReturnedRun run
      → (d : Decoder) × (o : Bytes) × (b : Bool) × (run ≡ some (ok (d, o, b)))
        × IsSound (held d.header_record)
  of_run none n h = absurd (n refl)
  of_run (some fault) n h = absurd h
  of_run (some (ok (d, o, b))) n h = (d, o, b, refl, h)

  loop_overrun :
      (fuel : ℕ) (bs : Bytes) (rec : FcgiRecord) (first : Bool) (out : Bytes)
      → 0 < fuel
      → bs ≢ []
      → IsSound rec
      → length bs < padding_left rec
      → loop ts_malloc mime fuel bs rec first out ≡ some fault
  unfolding loop turn after_turn
  loop_overrun zero bs rec first out f n sound h = absurd (omega arith)
  loop_overrun (suc fuel) [] rec first out f n sound h = absurd (n refl)
  loop_overrun (suc fuel) (ch ∷ bs) rec first out f n sound h =
      let (sound', going, same) = renew-IsSound rec sound in
      rw (process_record-overrun ts_malloc malloc_size ch bs (renew rec) sound' (omega arith)) refl

  -- `fcgiProcessBuffer` returns for every chunk of one or more bytes, and every decoder with a sound record,
  -- unless more padding is left of the record than the chunk has bytes: its loop ends, with no access
  -- outside the chunk or a block, and the decoder's record is sound again. If more padding is left, the
  -- pointer is moved past the end of the chunk. A new record is sound; `TSmalloc n` gives `n` bytes.
  pub process_buffer-returns :
      (bs : Bytes) (d : Decoder) (output : Bytes)
      → bs ≢ []
      → AllBytes bs
      → IsSound (held d.header_record)
      → IsSound fresh
        × (padding_left (held d.header_record) ≤ length bs
            → (d' : Decoder) × (o : Bytes) × (b : Bool) × (process_buffer ts_malloc mime bs d output
                ≡ some (ok (d', o, b)))
              × IsSound (held d'.header_record))
        × (length bs < padding_left (held d.header_record)
            → process_buffer ts_malloc mime bs d output ≡ some fault)
  unfolding process_buffer
  process_buffer-returns bs d output n h sound = (
    fresh-IsSound,
    (λ fits.
        of_run (process_buffer ts_malloc mime bs d output)
          (process_buffer-ne-none ts_malloc mime bs d output)
          (loop-IsReturnedRun _ bs (held d.header_record) d.first_chunk output n h sound fits)),
    (λ runs_out.
        loop_overrun _ bs (held d.header_record) d.first_chunk output (omega arith) n sound
          runs_out),
  )
