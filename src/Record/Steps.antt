-- ===== src/Record/Steps.antt =====
-- One call of `fcgiProcessRecord`, by what the header loop and `fcgiProcessContent` do.
use ats_fastcgi.Common.{
  ℕ, ◌≤◌, ◌≡◌, ◌≢◌, inl, inr, refl, sym, ap, ◌∙◌, Bytes, length, [], ◌∷◌, ◌++◌, arith, append_assoc,
  append-cases, ok,
}
use ats_fastcgi.Record.{
  FcgiRecord, state_content_proc, state_padding, value, process_again, process_done,
  process_content, process_record, begin_content, read_header, returned, past_header, copy_content,
  skip_padding,
}
use ats_fastcgi.Record.Message.{Message, IsMessage, InContent, Holds}
use ats_fastcgi.Record.Content.{copy_content_part, copy_content_padding, copy_content_all}
use ats_fastcgi.Record.Pending.{header_done, Pending, awaits, in_padding, in_content}

module _ (ts_malloc : ℕ → Bytes) (malloc_size : (n : ℕ) → length (ts_malloc n) ≡ n) (m : Message)
    (v : IsMessage m) where
  pub begin_content_lem : InContent m [] (begin_content ts_malloc (header_done m))
  unfolding begin_content
  begin_content_lem = record {
    header_eq = refl;
    state_eq = refl;
    length_eq = v.content_fits;
    offset_eq = refl;
    block_eq = malloc_size _ ∙ v.content_fits;
    front_eq = refl;
  }

  pub begin_content_id :
      (rec : FcgiRecord) → rec.state ≡ state_content_proc → begin_content ts_malloc rec ≡ rec
  unfolding begin_content
  begin_content_id rec e = ground arith

  pub begin_content_padding :
      (rec : FcgiRecord) → rec.state ≡ state_padding → begin_content ts_malloc rec ≡ rec
  unfolding begin_content
  begin_content_padding rec e = ground arith

  pub process_record_returned :
      (bs : Bytes) (rec : FcgiRecord) {rest : Bytes} {rec' : FcgiRecord}
      → read_header bs rec ≡ returned process_again rest rec'
      → process_record ts_malloc bs rec ≡ ok (process_again, rest, rec')
  unfolding process_record
  process_record_returned bs rec e = rw e

  pub process_record_past :
      (bs : Bytes) (rec : FcgiRecord) {rest : Bytes} {rec' : FcgiRecord}
      → read_header bs rec ≡ past_header rest rec'
      → process_record ts_malloc bs rec ≡ process_content rest (begin_content ts_malloc rec')
  unfolding process_record
  process_record_past bs rec e = rw e

  pub read_header_skipped :
      (bs : Bytes) (rec : FcgiRecord)
      → 8 ≤ value rec.state
      → read_header bs rec ≡ past_header bs rec
  unfolding read_header
  read_header_skipped [] rec h = ground arith
  read_header_skipped (ch ∷ bs) rec h = ground arith

  pub process_record_proc :
      (bs : Bytes) (rec : FcgiRecord)
      → rec.state ≡ state_content_proc
      → process_record ts_malloc bs rec ≡ process_content bs rec
  unfolding value
  process_record_proc bs rec e =
      process_record_past bs rec (read_header_skipped bs rec (rw e (omega arith)))
      ∙ ap (process_content bs) (begin_content_id rec e)

  pub process_record_begin :
      (bs : Bytes) (rec : FcgiRecord)
      → rec ≡ header_done m
      → process_record ts_malloc bs rec
        ≡ process_content bs (begin_content ts_malloc (header_done m))
  unfolding value
  process_record_begin bs rec e =
      ap (process_record ts_malloc bs) e
      ∙ process_record_past bs (header_done m) (read_header_skipped bs _ (omega arith))

  pub process_content_copy :
      (bs : Bytes) (rec : FcgiRecord)
      → rec.state ≡ state_content_proc
      → process_content bs rec ≡ copy_content bs rec
  unfolding process_content
  process_content_copy bs rec e = ground arith

  pub process_content_skip :
      (bs : Bytes) (rec : FcgiRecord)
      → rec.state ≡ state_padding
      → process_content bs rec ≡ skip_padding bs rec
  unfolding process_content
  process_content_skip bs rec e = ground arith

  module _ (front left : Bytes) (c : m.content ≡ front ++ left) (rec : FcgiRecord)
      (s : InContent m front rec) where
    pub process_content_part :
        (bs more : Bytes)
        → more ≢ []
        → left ++ m.padding ≡ bs ++ more
        → (rec' : FcgiRecord) × (process_content bs rec ≡ ok (process_again, [], rec'))
          × Pending m more rec'
    process_content_part bs more h e = elim (append-cases left m.padding bs more e) [
      | inl (z, n, f, g) ↦
          let (rec', run, t) = copy_content_part m v rec front left c s bs z n f in
          let c' : m.content ≡ (front ++ bs) ++ z =
            c ∙ ap (◌++◌ front) f ∙ sym (append_assoc front bs z) in
          (
            rec',
            process_content_copy bs rec s.state_eq ∙ run,
            awaits (in_content (front ++ bs) z c' n t g),
          )
      | inr (z, f, g) ↦
          let (rec', run, t) = copy_content_padding m v rec front left c s bs z more h g f in
          (rec', process_content_copy bs rec s.state_eq ∙ run, in_padding z g h t)
    ]

    pub process_content_all :
        (rest : Bytes)
        → (rec' : FcgiRecord) × (process_content ((left ++ m.padding) ++ rest) rec
            ≡ ok (process_done, rest, rec'))
          × Holds m rec'
    process_content_all rest =
        let bs = (left ++ m.padding) ++ rest in
        let (rec', run, t) =
          copy_content_all m v rec front left c s bs rest (append_assoc left m.padding rest) in
        (rec', process_content_copy bs rec s.state_eq ∙ run, t)
