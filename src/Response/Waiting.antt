-- ===== src/Response/Waiting.antt =====
-- Where the decoder stands in a response, and what a chunk may do.
use ats_fastcgi.Common.{
  ℕ, ◌≤◌, ◌≡◌, sym, ap, ◌∙◌, Bool, true, false, List, Bytes, length, [], ◌∷◌, ◌++◌, append_assoc,
  some, ok,
}
use ats_fastcgi.Record.{FcgiRecord, fresh, state_padding}
use ats_fastcgi.Record.Message.{Message, Holds}
use ats_fastcgi.Record.Pending.{Pending}
use ats_fastcgi.Response.{Mime, renew, Run}
use ats_fastcgi.Response.Stream.{
  encode_all, output, outputs, first_after, first_after-false, renew-Holds,
}

-- The record at hand is in the first of the records `ms`, and `todo` is all that is still to come.
pub data Waiting (todo : Bytes) (ms : List Message) (rec : FcgiRecord) : Type 0 where
  waiting :
      (m : Message) (rest : List Message) (t : Bytes)
      → ms ≡ m ∷ rest
      → todo ≡ t ++ encode_all rest
      → Pending m t (renew rec)
      → Waiting todo ms rec

-- Where the record at hand is in its padding, which is at most `n` bytes long, the chunk has `n`.
abbrev pub Covers : ℕ → Bytes → FcgiRecord → Type 0
Covers n bs rec = (renew rec).state ≡ state_padding → n ≤ length bs

pub Holds-Covers :
    (n : ℕ) (bs : Bytes) (m : Message) (rec : FcgiRecord) → Holds m rec → Covers n bs rec
Holds-Covers n bs m rec h e = absurd (distinct (sym (ap (λ c. c.state) (renew-Holds m rec h)) ∙ e))
  where
    distinct : fresh.state ≡ state_padding → ⊥
    distinct d = cc

-- A call that returns `b`, having appended `o`.
abbrev pub returned_with : Bool → FcgiRecord → Bytes → Bool → Run
returned_with first rec o b =
    some (ok (record { first_chunk = first; header_record = some rec }, o, b))

-- What a chunk does: it ends the response, or leaves the records `rest` and the bytes `todo`.
pub data Result (mime : Mime) (first : Bool) (out todo : Bytes) (ms : List Message) (r : Run)
    : Type 0 where
  ended :
      (rec : FcgiRecord)
      → todo ≡ []
      → r ≡ returned_with false rec (out ++ outputs mime first ms) true
      → Result mime first out todo ms r
  going :
      (done rest : List Message) (first' : Bool) (rec : FcgiRecord)
      → ms ≡ done ++ rest
      → first' ≡ first_after first done
      → Waiting todo rest rec
      → r ≡ returned_with first' rec (out ++ outputs mime first done) false
      → Result mime first out todo ms r

-- One more record in front.
pub Result-cons :
    (mime : Mime) (first : Bool) (out todo : Bytes) (m : Message) (ms : List Message) (r : Run)
    → Result mime false (out ++ output mime first m) todo ms r
    → Result mime first out todo (m ∷ ms) r
Result-cons mime first out todo m ms r (ended rec n e) =
    ended rec n (e ∙ ap (λ o. returned_with false rec o true) (append_assoc out _ _))
Result-cons mime first out todo m ms r (going done rest first' rec s o w e) =
    going (m ∷ done) rest first' rec (ap (◌∷◌ m) s) (o ∙ first_after-false done) w
      (e ∙ ap (λ o. returned_with first' rec o false) (append_assoc out _ _))
