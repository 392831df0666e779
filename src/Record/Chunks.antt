-- ===== src/Record/Chunks.antt =====
-- `fcgiProcessRecord` on a chunk that does not complete the record.
use ats_fastcgi.Common.{
  ℕ, ◌+◌, ◌≤◌, ◌≡◌, ◌≢◌, ◌⊎◌, inl, inr, refl, sym, ap, ◌∙◌, Bytes, length, [], ◌∷◌, ◌++◌, arith,
  append-nil, append-cases, append-eq-nil, length-pos, length-append, ok,
}
use ats_fastcgi.Record.{
  FcgiRecord, value, process_again, process_content, process_record, begin_content,
}
use ats_fastcgi.Record.Message.{Message, IsMessage, body}
use ats_fastcgi.Record.Feed.{feed, feed-append, value-feed, read_header_inside, read_header_past}
use ats_fastcgi.Record.Pending.{
  header_done, Awaits, Pending, awaits, in_header, at_content, in_content,
}
use ats_fastcgi.Record.Steps.{
  process_record_returned, process_content_part, process_record_begin, process_record_past,
  process_record_proc, begin_content_lem,
}

module _ (ts_malloc : ℕ → Bytes) (malloc_size : (n : ℕ) → length (ts_malloc n) ≡ n) (m : Message)
    (v : IsMessage m) where
  abbrev Part : Bytes → Bytes → FcgiRecord → Type 0
  Part bs more rec =
      (rec' : FcgiRecord) × (process_record ts_malloc bs rec ≡ ok (process_again, [], rec'))
      × Pending m more rec'

  -- The chunk ends before the header does.
  header-Part :
      (rec : FcgiRecord) (bs z more : Bytes)
      → bs ≢ []
      → z ≢ []
      → value rec.state + length (bs ++ z) ≡ 8
      → feed (bs ++ z) rec ≡ header_done m
      → more ≡ z ++ body m
      → Part bs more rec
  header-Part rec [] z more h n val f d = absurd (h refl)
  header-Part rec (ch ∷ bs) z more h n val f d =
      let sizes : value rec.state + length (ch ∷ bs) + length z ≡ 8 =
        omega (arith, length-append (ch ∷ bs) z) in
      let inside : value rec.state + length (ch ∷ bs) ≤ 8 = omega arith in
      (
        feed (ch ∷ bs) rec,
        process_record_returned ts_malloc malloc_size m v (ch ∷ bs) rec
            (read_header_inside ch bs rec inside),
        awaits (
            in_header z n (omega (arith, value-feed (ch ∷ bs) rec inside))
              (sym (feed-append (ch ∷ bs) z rec) ∙ f) d),
      )

  -- The chunk ends with the header, or in the body.
  body-Part :
      (rec : FcgiRecord) (hs z more : Bytes)
      → hs ≢ []
      → value rec.state + length hs ≡ 8
      → feed hs rec ≡ header_done m
      → body m ≡ z ++ more
      → (more ≢ []) ⊎ (body m ≡ [])
      → Part (hs ++ z) more rec
  body-Part rec [] z more h val f d k = absurd (h refl)
  body-Part rec (ch ∷ hs) [] more h val f d k = (
    header_done m,
    rw append-nil (
        process_record_returned ts_malloc malloc_size m v (ch ∷ hs) rec
          (read_header_inside ch hs rec (omega arith))
        ∙ ap (λ r. ok (process_again, [], r)) f),
    awaits (at_content refl (sym d)),
  )
  body-Part rec (ch ∷ hs) (c ∷ z) more h val f d (inr b) = absurd (cc)
  body-Part rec (ch ∷ hs) (c ∷ z) more h val f d (inl k) =
      let (rec', run, t) =
        process_content_part ts_malloc malloc_size m v [] m.content refl _
          (begin_content_lem ts_malloc malloc_size m v) (c ∷ z) more k d in
      (
        rec',
        process_record_past ts_malloc malloc_size m v _ rec (read_header_past (ch ∷ hs) c z rec val)
            ∙ ap (λ r. process_content (c ∷ z) (begin_content ts_malloc r)) f
            ∙ run,
        t,
      )

  -- `fcgiProcessRecord`, on a chunk that is a non-empty front part of what a well-formed record waits
  -- for in its header or content, and not all of it unless the record has no body: it answers
  -- `FCGI_PROCESS_AGAIN`, reads the whole chunk without an access outside a buffer, and the record then
  -- waits for exactly the bytes that are left. `TSmalloc n` gives `n` bytes.
  pub process_record-Part :
      (rec : FcgiRecord) (todo bs more : Bytes)
      → Awaits m todo rec
      → todo ≡ bs ++ more
      → bs ≢ []
      → (more ≢ []) ⊎ (body m ≡ [])
      → Part bs more rec
  process_record-Part rec todo bs more (in_header hs n val f d) e h k =
      elim (append-cases hs (body m) bs more (sym d ∙ e)) [
        | inl (z, nz, g, w) ↦ header-Part rec bs z more h nz (rw g at val) (rw g at f) w
        | inr (z, g, w) ↦ rw g (body-Part rec hs z more n val f w k)
      ]
  process_record-Part rec todo bs more (at_content r d) e h (inl k) =
      let (rec', run, t) =
        process_content_part ts_malloc malloc_size m v [] m.content refl _
          (begin_content_lem ts_malloc malloc_size m v) bs more k (sym d ∙ e) in
      (rec', process_record_begin ts_malloc malloc_size m v bs rec r ∙ run, t)
  process_record-Part rec todo bs more (at_content r d) e h (inr b) =
      absurd (h (append-eq-nil bs more (sym e ∙ d ∙ b)))
  process_record-Part rec todo bs more (in_content front left c n s d) e h (inl k) =
      let (rec', run, t) =
        process_content_part ts_malloc malloc_size m v front left c rec s bs more k (sym d ∙ e) in
      (rec', process_record_proc ts_malloc malloc_size m v bs rec s.state_eq ∙ run, t)
  process_record-Part rec todo bs more (in_content front left c n s d) e h (inr b) = absurd (
      omega (
        arith,
        length-pos bs h,
        ap length (sym d ∙ e),
        length-append bs more,
        length-append left m.padding,
        length-append front left,
        length-append m.content m.padding,
        ap length c,
        ap length b,
      ))
