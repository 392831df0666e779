-- ===== src/Record/Progress.antt =====
-- How much of a chunk one call of `fcgiProcessRecord` takes, from any record.
use ats_fastcgi.Common.{
  ℕ, ◌≤◌, ◌<◌, ◌≡◌, ◌⊎◌, inl, inr, refl, sym, Bytes, subst, length, [], ◌∷◌, arith, Bool-cases,
  length-drop, drop_all, ok, advance, memcpy, >>=-eq-ok, ltb,
}
use ats_fastcgi.Record.Feed.{process_header_step}
use ats_fastcgi.Record.{
  FcgiRecord, Status, state_done, value, after_byte, process_again, process_header, HeaderRead,
  read_header, returned, past_header, overrun, process_record, after_header, process_content,
  skip_padding, copy_content, content_copied, in_state, state_padding,
}

-- A call takes the whole chunk, some bytes, or, past the header, none at the end of a record.
pub data Took (bs rest : Bytes) (before after : FcgiRecord) : Type 0 where
  everything : rest ≡ [] → Took bs rest before after
  something : length rest < length bs → Took bs rest before after
  nothing :
      8 ≤ value before.state
      → after.state ≡ state_done
      → length rest ≤ length bs
      → Took bs rest before after

abbrev Ends : Bytes → Bytes → FcgiRecord → Type 0
Ends bs rest rec = (rest ≡ []) ⊎ ((rec.state ≡ state_done) × (length rest ≤ length bs))

advance-length : (bs rest : Bytes) (n : ℕ) → advance bs n ≡ ok rest → length rest ≤ length bs
unfolding advance
advance-length bs rest n e = ground (arith, length-drop n bs)

skip_padding-Ends :
    (bs rest : Bytes) (rec rec' : FcgiRecord) (s : Status)
    → skip_padding bs rec ≡ ok (s, rest, rec')
    → Ends bs rest rec'
unfolding skip_padding
skip_padding-Ends bs rest rec rec' s e =
    let (r, run, f) = >>=-eq-ok (advance bs _) _ e in
    inr (ground arith, ground (arith, advance-length bs r _ run))

content_copied-Ends :
    (con tot : ℕ) (bs rest : Bytes) (rec rec' : FcgiRecord) (s : Status)
    → content_copied con tot bs rec ≡ ok (s, rest, rec')
    → Ends bs rest rec'
unfolding content_copied advance
content_copied-Ends con tot bs rest rec rec' s e =
    ground (arith, drop_all (length bs) bs, length-drop tot bs)

copy_content-Ends :
    (bs rest : Bytes) (rec rec' : FcgiRecord) (s : Status)
    → copy_content bs rec ≡ ok (s, rest, rec')
    → Ends bs rest rec'
unfolding copy_content
copy_content-Ends bs rest rec rec' s e =
    let (block, run, f) = >>=-eq-ok (memcpy rec.content rec.offset _) _ e in
    content_copied-Ends _ _ bs rest _ rec' s f

process_content-Ends :
    (bs rest : Bytes) (rec rec' : FcgiRecord) (s : Status)
    → process_content bs rec ≡ ok (s, rest, rec')
    → Ends bs rest rec'
unfolding process_content
process_content-Ends bs rest rec rec' s e = elim (Bool-cases (in_state rec.state state_padding)) [
  | inl h ↦ skip_padding-Ends bs rest rec rec' s (rw h at e)
  | inr h ↦ copy_content-Ends bs rest rec rec' s (rw h at e)
]

-- The header loop returns at the end of the chunk, or has taken every header byte that it needed.
data HeaderTook (bs : Bytes) (before : FcgiRecord) : HeaderRead → Type 0 where
  all_taken : (s : Status) (rec : FcgiRecord) → HeaderTook bs before (returned s [] rec)
  no_header : 8 ≤ value before.state → HeaderTook bs before (past_header bs before)
  some_taken :
      (rest : Bytes) (rec : FcgiRecord)
      → length rest < length bs
      → HeaderTook bs before (past_header rest rec)
  no_bytes : HeaderTook bs before overrun

HeaderTook-cons :
    (ch : ℕ) (bs : Bytes) (rec rec' : FcgiRecord) (r : HeaderRead)
    → HeaderTook bs rec' r
    → HeaderTook (ch ∷ bs) rec r
HeaderTook-cons ch bs rec rec' r (all_taken s rec'') = all_taken s rec''
HeaderTook-cons ch bs rec rec' r (no_header h) = some_taken bs rec' (omega arith)
HeaderTook-cons ch bs rec rec' r (some_taken rest rec'' h) = some_taken rest rec'' (omega arith)
HeaderTook-cons ch bs rec rec' r no_bytes = no_bytes

after_byte-HeaderTook :
    (ch : ℕ) (bs : Bytes) (rec rec' : FcgiRecord) (more : HeaderRead)
    → HeaderTook bs rec' more
    → HeaderTook (ch ∷ bs) rec (after_byte process_again ch bs rec' more)
unfolding after_byte
after_byte-HeaderTook ch [] rec rec' more t = all_taken process_again rec'
after_byte-HeaderTook ch (c ∷ bs) rec rec' more t = HeaderTook-cons ch (c ∷ bs) rec rec' more t

read_header-HeaderTook : (bs : Bytes) (rec : FcgiRecord) → HeaderTook bs rec (read_header bs rec)
unfolding read_header
read_header-HeaderTook [] rec = elim (Bool-cases (ltb (value rec.state) 8)) [
  | inl h ↦ rw h no_bytes
  | inr h ↦ rw h (no_header (ground arith))
]
read_header-HeaderTook (ch ∷ bs) rec = elim (Bool-cases (ltb (value rec.state) 8)) [
  | inl h ↦ rw h (
      subst
        (λ status. HeaderTook (ch ∷ bs) rec (
          after_byte status ch bs (process_header ch rec).1
            (read_header bs (process_header ch rec).1)))
        (sym (process_header_step ch rec rec.state refl (ground arith)).0)
        (after_byte-HeaderTook ch bs rec (process_header ch rec).1
          (read_header bs (process_header ch rec).1)
          (read_header-HeaderTook bs (process_header ch rec).1)))
  | inr h ↦ rw h (no_header (ground arith))
]

module _ (ts_malloc : ℕ → Bytes) where
  after_header-Took :
      (bs rest : Bytes) (rec rec' : FcgiRecord) (s : Status) (r : HeaderRead)
      → HeaderTook bs rec r
      → after_header ts_malloc r ≡ ok (s, rest, rec')
      → Took bs rest rec rec'
  unfolding after_header
  after_header-Took bs rest rec rec' s r (all_taken s' rec'') e = everything (cc)
  after_header-Took bs rest rec rec' s r (no_header h) e =
      elim (process_content-Ends bs rest _ rec' s e) [
        | inl z ↦ everything z
        | inr (d, k) ↦ nothing h d k
      ]
  after_header-Took bs rest rec rec' s r (some_taken rest' rec'' h) e =
      elim (process_content-Ends rest' rest _ rec' s e) [
        | inl z ↦ everything z
        | inr (d, k) ↦ something (omega arith)
      ]
  after_header-Took bs rest rec rec' s r no_bytes e = absurd (cc)

  pub process_record-Took :
      (bs rest : Bytes) (rec rec' : FcgiRecord) (s : Status)
      → process_record ts_malloc bs rec ≡ ok (s, rest, rec')
      → Took bs rest rec rec'
  unfolding process_record
  process_record-Took bs rest rec rec' s e =
      after_header-Took bs rest rec rec' s _ (read_header-HeaderTook bs rec) e
