-- ===== src/Record/Content.antt =====
-- `fcgiProcessContent` on the content and padding of one record.
use ats_fastcgi.Common.{
  ℕ, ◌+◌, ◌≤◌, ◌<◌, ◌≡◌, ◌≢◌, refl, sym, ap, ◌∙◌, Bytes, length, take, drop, [], ◌++◌, arith, leb,
  if◌then◌else◌, le→leb, lt→leb, append_assoc, length-pos, ok, memcpy_extends, advance_lem,
  advance_overrun, fault, length-append, take_left, drop_left, drop_all, take_all,
}
use ats_fastcgi.Record.Message.{
  Message, IsMessage, InContent, InPadding, Holds, content_lt, padding_lt,
}
use ats_fastcgi.Record.{
  FcgiRecord, state_padding, state_done, process_again, process_done, copy_content, content_copied,
  skip_padding, add64, sub64,
}

-- The three ways in which the copying call ends.
module _ (con tot : ℕ) (bs : Bytes) (r : FcgiRecord) where
  copied_part :
      length bs < con
      → con ≤ tot
      → content_copied con tot bs r
        ≡ ok (process_again, [], record r { offset = add64 r.offset (length bs) })
  unfolding content_copied
  copied_part h k =
      rw (lt→leb tot (length bs) (omega arith), lt→leb con (length bs) h)
        (rw (advance_lem bs (length bs) (omega arith)) (rw (drop_all (length bs) bs (omega arith))))

  copied_some_padding :
      con ≤ length bs
      → length bs < tot
      → content_copied con tot bs r
        ≡ ok (
          process_again,
          [],
          record r { offset = add64 r.offset (length bs); state = state_padding },
        )
  unfolding content_copied
  copied_some_padding h k =
      rw (lt→leb tot (length bs) k, le→leb con (length bs) h)
        (rw (advance_lem bs (length bs) (omega arith)) (rw (drop_all (length bs) bs (omega arith))))

  copied_all :
      (rest : Bytes)
      → drop tot bs ≡ rest
      → tot ≤ length bs
      → content_copied con tot bs r
        ≡ ok (process_done, rest, record r { offset = add64 r.offset tot; state = state_done })
  unfolding content_copied
  copied_all rest e h = rw (le→leb tot (length bs) h) (rw (advance_lem bs tot h, e))

module _ (m : Message) (v : IsMessage m) (rec : FcgiRecord) where
  padding_left :
      (left : ℕ)
      → InPadding m left rec
      → add64 (sub64 rec.length_ rec.offset) rec.header.padding_length ≡ left
  padding_left left s = omega (
    arith,
    content_lt m v,
    padding_lt m v,
    v.padding_fits,
    s.offset_eq,
    s.length_eq,
    ap (λ h. h.padding_length) s.header_eq,
  )

  -- The rest of the padding, and whatever follows it.
  pub skip_padding_lem :
      (p rest : Bytes)
      → InPadding m (length p) rec
      → skip_padding (p ++ rest) rec ≡ ok (process_done, rest, record rec { state = state_done })
  unfolding skip_padding
  skip_padding_lem p rest s = rw (padding_left (length p) s) (
      rw (advance_lem (p ++ rest) (length p) (omega (arith, length-append p rest)))
        (rw (drop_left p rest (length p) refl)))

  -- A chunk that is shorter than the rest of the padding.
  pub skip_padding_overrun :
      (left : ℕ) (bs : Bytes)
      → InPadding m left rec
      → length bs < left
      → skip_padding bs rec ≡ fault
  unfolding skip_padding
  skip_padding_overrun left bs s h = rw (padding_left left s) (rw (advance_overrun bs left h))

  module _ (front left : Bytes) (c : m.content ≡ front ++ left) (s : InContent m front rec) where
    con_len_lem : sub64 rec.length_ rec.offset ≡ length left
    con_len_lem =
        omega
          (arith, content_lt m v, s.length_eq, s.offset_eq, length-append front left, ap length c)

    tot_len_lem : add64 (length left) rec.header.padding_length ≡ length left + length m.padding
    tot_len_lem = omega (
      arith,
      content_lt m v,
      padding_lt m v,
      v.padding_fits,
      ap (λ h. h.padding_length) s.header_eq,
      length-append front left,
      ap length c,
    )

    -- A block of the content's size that starts with the content is the content.
    whole :
        (block : Bytes)
        → length block ≡ length m.content
        → take (length (front ++ left)) block ≡ front ++ left
        → block ≡ m.content
    whole block size starts =
        sym (take_all (length (front ++ left)) block (omega (arith, ap length c))) ∙ starts ∙ sym c

    -- The `memcpy` of the chunk's bytes `src`, and the branch taken after it.
    copy_content_lem :
        (bs src : Bytes)
        → take (if leb (length left) (length bs) then length left else length bs) bs ≡ src
        → length src ≤ length left
        → (block : Bytes) × (copy_content bs rec
            ≡ content_copied
                (length left)
                (length left + length m.padding)
                bs
                (record rec { content = block }))
          × (length block ≡ length m.content)
          × (take (length (front ++ src)) block ≡ front ++ src)
    unfolding copy_content
    copy_content_lem bs src e h =
        let fits : length front + length src ≤ length rec.content =
          omega (arith, s.block_eq, length-append front left, ap length c) in
        let (block, copied, size, starts) = memcpy_extends rec.content front src s.front_eq fits in
        (block, rw (con_len_lem, tot_len_lem, e, s.offset_eq, copied), size ∙ s.block_eq, starts)

    -- Less than the content that is left: all of the chunk is copied.
    pub copy_content_part :
        (bs more : Bytes)
        → more ≢ []
        → left ≡ bs ++ more
        → (rec' : FcgiRecord) × (copy_content bs rec ≡ ok (process_again, [], rec'))
          × InContent m (front ++ bs) rec'
    copy_content_part bs more h e =
        let short : length bs < length left =
          grind (arith, ap length e, length-append bs more, length-pos more h) in
        let cut : take (if leb (length left) (length bs) then length left else length bs) bs ≡ bs =
          rw (lt→leb _ _ short) (take_all (length bs) bs (omega arith)) in
        let (block, copied, size, starts) = copy_content_lem bs bs cut (omega arith) in
        (
          _,
          copied ∙ copied_part _ _ bs _ short (omega arith),
          record {
            header_eq = s.header_eq;
            state_eq = s.state_eq;
            length_eq = s.length_eq;
            offset_eq = omega (
              arith,
              content_lt m v,
              s.offset_eq,
              length-append front bs,
              length-append front left,
              ap length c,
            );
            block_eq = size;
            front_eq = starts;
          },
        )

    -- All the content and some of the padding.
    pub copy_content_padding :
        (bs p more : Bytes)
        → more ≢ []
        → m.padding ≡ p ++ more
        → bs ≡ left ++ p
        → (rec' : FcgiRecord) × (copy_content bs rec ≡ ok (process_again, [], rec'))
          × InPadding m (length more) rec'
    copy_content_padding bs p more h e b =
        let sizes : length bs ≡ length left + length p = ap length b ∙ length-append left p in
        let short : length p + length more ≡ length m.padding =
          sym (ap length e ∙ length-append p more) in
        let cut : take (if leb (length left) (length bs) then length left else length bs) bs
            ≡ left =
          rw (le→leb (length left) (length bs) (omega arith), b) (take_left left p _ refl) in
        let (block, copied, size, starts) = copy_content_lem bs left cut (omega arith) in
        (
          _,
          copied ∙ copied_some_padding _ _ bs _ (omega arith) (omega (arith, length-pos more h)),
          record {
            header_eq = s.header_eq;
            state_eq = refl;
            length_eq = s.length_eq;
            offset_eq = omega (
              arith,
              content_lt m v,
              padding_lt m v,
              s.offset_eq,
              length-append front left,
              ap length c,
            );
            content_eq = whole block size starts;
          },
        )

    -- All that the record waits for, and whatever follows it.
    pub copy_content_all :
        (bs rest : Bytes)
        → bs ≡ left ++ (m.padding ++ rest)
        → (rec' : FcgiRecord) × (copy_content bs rec ≡ ok (process_done, rest, rec')) × Holds m rec'
    copy_content_all bs rest b =
        let sizes : length bs ≡ length left + (length m.padding + length rest) = omega (
          arith,
          ap length b,
          length-append left (m.padding ++ rest),
          length-append m.padding rest,
        ) in
        let cut : take (if leb (length left) (length bs) then length left else length bs) bs
            ≡ left =
          rw (le→leb (length left) (length bs) (omega arith), b) (take_left left _ _ refl) in
        let tail : drop (length left + length m.padding) bs ≡ rest =
          rw (b, ← append_assoc left m.padding rest)
            (drop_left (left ++ m.padding) rest _ (sym (length-append left m.padding))) in
        let (block, copied, size, starts) = copy_content_lem bs left cut (omega arith) in
        (
          _,
          copied ∙ copied_all _ _ bs _ rest tail (omega arith),
          record {
            header_eq = s.header_eq;
            state_eq = refl;
            length_eq = s.length_eq;
            content_eq = whole block size starts;
          },
        )
