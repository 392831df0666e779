-- ===== src/Response/Turns.antt =====
-- One round of the loop of `fcgiProcessBuffer` on a well-formed response.
use ats_fastcgi.Common.{
  ℕ, ◌≤◌, ◌≡◌, ◌≢◌, ◌⊎◌, inl, inr, ap, Bool, true, false, Bytes, length, [], ◌++◌, arith,
  length-pos, length-append, ok,
}
use ats_fastcgi.Record.{FcgiRecord, state_padding, process_done}
use ats_fastcgi.Record.Message.{Message, IsMessage, Holds, body}
use ats_fastcgi.Record.Pending.{Pending, awaits, in_padding}
use ats_fastcgi.Record.Chunks.{process_record-Part}
use ats_fastcgi.Record.Complete.{process_record-All}
use ats_fastcgi.Response.{Mime, return, renew, at_end, after_record, turn}
use ats_fastcgi.Response.Stream.{is_final, output, Holds-output}

module _ (ts_malloc : ℕ → Bytes) (malloc_size : (n : ℕ) → length (ts_malloc n) ≡ n)
    (mime : Mime) where
  -- The record is not completed: the call returns `false`, with no output.
  pub turn_part :
      (m : Message) (v : IsMessage m) (t bs left : Bytes) (rec : FcgiRecord) (first : Bool)
      → Pending m t (renew rec)
      → t ≡ bs ++ left
      → bs ≢ []
      → (left ≢ []) ⊎ (body m ≡ [])
      → ((renew rec).state ≡ state_padding → length m.padding ≤ length bs)
      → (rec' : FcgiRecord) × (turn ts_malloc mime bs rec first ≡ ok (return false rec' first []))
        × Pending m left rec'
  unfolding turn after_record at_end
  turn_part m v t bs left rec first (awaits a) e h k c =
      let (rec', run, q) =
        process_record-Part ts_malloc malloc_size m v (renew rec) t bs left a e h k in
      (rec', rw run, q)
  turn_part m v t bs left rec first (in_padding skipped d n s) e h (inl k) c = absurd (
      omega (
        arith,
        c s.state_eq,
        ap length d,
        length-append skipped t,
        ap length e,
        length-append bs left,
        length-pos left k,
      ))
  turn_part m v t bs left rec first (in_padding skipped d n s) e h (inr k) c = absurd (
      omega (
        arith,
        ap length d,
        ap length k,
        length-append skipped t,
        length-append m.content m.padding,
        length-pos t n,
      ))

  pub turn_all :
      (m : Message) (v : IsMessage m) (t z : Bytes) (rec : FcgiRecord) (first : Bool)
      → Pending m t (renew rec)
      → body m ++ z ≢ []
      → (rec' : FcgiRecord) × (turn ts_malloc mime (t ++ z) rec first
          ≡ ok (after_record mime first (process_done, z, rec')))
        × Holds m rec'
  unfolding turn
  turn_all m v t z rec first p h =
      let (rec', run, q) = process_record-All ts_malloc malloc_size m v (renew rec) t z p h in
      (rec', rw run, q)

  pub after_final :
      (m : Message) (z : Bytes) (rec : FcgiRecord) (first : Bool)
      → Holds m rec
      → is_final m ≡ true
      → after_record mime first (process_done, z, rec) ≡ return true rec false (output mime first m)
  unfolding after_record
  after_final m z rec first h f = let (o, l) = Holds-output mime first m rec h in rw (l, f, o)

  pub after_other :
      (m : Message) (z : Bytes) (rec : FcgiRecord) (first : Bool)
      → Holds m rec
      → is_final m ≡ false
      → after_record mime first (process_done, z, rec) ≡ at_end z rec false (output mime first m)
  unfolding after_record
  after_other m z rec first h f = let (o, l) = Holds-output mime first m rec h in rw (l, f, o)
