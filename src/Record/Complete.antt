-- ===== src/Record/Complete.antt =====
-- `fcgiProcessRecord` on a chunk that completes the record, and on one that ends in its padding.
use ats_fastcgi.Common.{
  ℕ, ◌+◌, ◌<◌, ◌≡◌, ◌≢◌, refl, ap, ◌∙◌, Bytes, length, [], ◌∷◌, ◌++◌, arith, append_assoc, ok,
  fault,
}
use ats_fastcgi.Record.{
  FcgiRecord, state_done, value, process_done, process_content, process_record, begin_content,
}
use ats_fastcgi.Record.Message.{Message, IsMessage, InPadding, Holds, body}
use ats_fastcgi.Record.Feed.{feed, read_header_past}
use ats_fastcgi.Record.Content.{skip_padding_lem, skip_padding_overrun}
use ats_fastcgi.Record.Pending.{
  header_done, Awaits, Pending, awaits, in_padding, in_header, at_content, in_content,
}
use ats_fastcgi.Record.Steps.{
  begin_content_padding, process_content_skip, process_record_begin, process_content_all,
  process_record_past, process_record_proc, read_header_skipped, begin_content_lem,
}

module _ (ts_malloc : ℕ → Bytes) (malloc_size : (n : ℕ) → length (ts_malloc n) ≡ n) (m : Message)
    (v : IsMessage m) where
  -- The padding that is left, in one chunk.
  pub process_record_padding :
      (rec : FcgiRecord) (todo rest : Bytes)
      → InPadding m (length todo) rec
      → process_record ts_malloc (todo ++ rest) rec
        ≡ ok (process_done, rest, record rec { state = state_done })
  unfolding value
  process_record_padding rec todo rest s =
      process_record_past ts_malloc malloc_size m v _ rec
        (read_header_skipped ts_malloc malloc_size m v _ rec (rw s.state_eq (omega arith)))
      ∙ ap (process_content (todo ++ rest))
          (begin_content_padding ts_malloc malloc_size m v rec s.state_eq)
      ∙ process_content_skip ts_malloc malloc_size m v (todo ++ rest) rec s.state_eq
      ∙ skip_padding_lem m v rec todo rest s

  -- A well-formed message's record whose content has been read, and that has more padding left than the
  -- chunk has bytes: `fcgiProcessRecord` moves the pointer past the chunk's end.
  pub process_record_padding_overrun :
      (rec : FcgiRecord) (left : ℕ) (bs : Bytes)
      → InPadding m left rec
      → length bs < left
      → process_record ts_malloc bs rec ≡ fault
  unfolding value
  process_record_padding_overrun rec left bs s h =
      process_record_past ts_malloc malloc_size m v _ rec
        (read_header_skipped ts_malloc malloc_size m v _ rec (rw s.state_eq (omega arith)))
      ∙ ap (process_content bs) (begin_content_padding ts_malloc malloc_size m v rec s.state_eq)
      ∙ process_content_skip ts_malloc malloc_size m v bs rec s.state_eq
      ∙ skip_padding_overrun m v rec left bs s h

  abbrev All : Bytes → Bytes → FcgiRecord → Type 0
  All bs rest rec =
      (rec' : FcgiRecord) × (process_record ts_malloc bs rec ≡ ok (process_done, rest, rec'))
      × Holds m rec'

  header-All :
      (rec : FcgiRecord) (hs b rest : Bytes)
      → b ≢ []
      → value rec.state + length hs ≡ 8
      → feed hs rec ≡ header_done m
      → b ≡ body m ++ rest
      → All (hs ++ b) rest rec
  header-All rec hs [] rest h val f d = absurd (h refl)
  header-All rec hs (c ∷ b) rest h val f d =
      let (rec', run, t) =
        process_content_all ts_malloc malloc_size m v [] m.content refl _
          (begin_content_lem ts_malloc malloc_size m v) rest in
      (
        rec',
        process_record_past ts_malloc malloc_size m v _ rec (read_header_past hs c b rec val)
            ∙ ap (λ r. process_content (c ∷ b) (begin_content ts_malloc r)) f
            ∙ ap (λ t. process_content t (begin_content ts_malloc (header_done m))) d
            ∙ run,
        t,
      )

  Awaits-All :
      (rec : FcgiRecord) (todo rest : Bytes)
      → Awaits m todo rec
      → body m ++ rest ≢ []
      → All (todo ++ rest) rest rec
  Awaits-All rec todo rest (in_header hs n val f d) h =
      rw (d, append_assoc hs (body m) rest) (header-All rec hs _ rest h val f refl)
  Awaits-All rec todo rest (at_content r d) h =
      let (rec', run, t) =
        process_content_all ts_malloc malloc_size m v [] m.content refl _
          (begin_content_lem ts_malloc malloc_size m v) rest in
      rw d (rec', process_record_begin ts_malloc malloc_size m v _ rec r ∙ run, t)
  Awaits-All rec todo rest (in_content front left c n s d) h =
      let (rec', run, t) = process_content_all ts_malloc malloc_size m v front left c rec s rest in
      rw d (rec', process_record_proc ts_malloc malloc_size m v _ rec s.state_eq ∙ run, t)

  -- `fcgiProcessRecord`, on a chunk that begins with all that the record waits for: it answers
  -- `FCGI_PROCESS_DONE`, the bytes after the record are left in the chunk, and the record holds the
  -- message's header and content. This is so from every state in which a well-formed message's record
  -- can wait, if the message has a body or there are bytes after it, and `TSmalloc n` gives `n` bytes.
  pub process_record-All :
      (rec : FcgiRecord) (todo rest : Bytes)
      → Pending m todo rec
      → body m ++ rest ≢ []
      → All (todo ++ rest) rest rec
  process_record-All rec todo rest (awaits a) h = Awaits-All rec todo rest a h
  process_record-All rec todo rest (in_padding skipped e n s) h = (
    record rec { state = state_done },
    process_record_padding rec todo rest s,
    record {
      header_eq = s.header_eq;
      state_eq = refl;
      length_eq = s.length_eq;
      content_eq = s.content_eq;
    },
  )
