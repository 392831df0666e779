-- ===== src/Record/Sound.antt =====
-- `fcgiProcessRecord` on any bytes: from a sound record whose padding does not run out of the chunk, it
-- returns, with a sound record.
use ats_fastcgi.Common.{
  ℕ, zero, suc, ◌+◌, ◌-◌, ◌^◌, ◌≤◌, ◌<◌, ◌≡◌, ◌≢◌, refl, sym, ◌∙◌, true, false, Bool-cases, ◌⊎◌,
  ◌==◌, inl, inr, Bytes, length, take, drop, [], ◌∷◌, ◌++◌, arith, leb, ltb, if◌then◌else◌, ok,
  fault, Safe, memcpy, memcpy_lem, advance_lem, advance_overrun, length-append, length-drop,
  length-take, drop_all, subst,
}
use ats_fastcgi.Record.{
  FcgiRecord, Status, fresh, value, in_state, state_padding, state_done, state_content_begin,
  state_content_proc, process_again, process_header, header_byte, content_len, add64, sub64,
  skip_padding, content_copied, copy_content, process_content, state_version, state_type,
  state_request_id_hi, state_request_id_lo, state_content_len_hi, state_content_len_lo,
  state_padding_len, state_reserved, FcgiState, HeaderRead, returned, past_header, overrun,
  after_byte, read_header, begin_content, after_header, process_record,
}
use ats_fastcgi.Record.Feed.{process_header_step}

abbrev pub AllBytes : Bytes → Type 0
AllBytes [] = Unit {0}
AllBytes (b ∷ bs) = (b < 256) × AllBytes bs

-- The padding that is still to be skipped, once the content is there
abbrev pub padding_left : FcgiRecord → ℕ
padding_left rec =
    if in_state rec.state state_padding
    then rec.length_ + rec.header.padding_length - rec.offset
    else 0

-- A record that reading bytes can come to: nothing is copied before the content, and never more than the
-- block has room for; in the padding, all the content is copied, and no more than the padding is skipped.
pub record IsSound (rec : FcgiRecord) : Type 0 where
  pub high_byte : rec.header.content_length_b1 < 256
  pub low_byte : rec.header.content_length_b0 < 256
  pub padding_byte : rec.header.padding_length < 256
  pub unread : value rec.state ≤ 8 → rec.offset ≡ 0
  pub small : 9 ≤ value rec.state → rec.length_ < 2 ^ 16
  pub block : value rec.state ≡ 9 → length rec.content ≡ rec.length_
  pub copied : value rec.state ≡ 9 → rec.offset ≤ rec.length_
  pub skipped :
      value rec.state ≡ 10
      → (rec.length_ ≤ rec.offset) × (rec.offset ≤ rec.length_ + rec.header.padding_length)

pub fresh-IsSound : IsSound fresh
unfolding value
fresh-IsSound = record {
  high_byte = omega arith;
  low_byte = omega arith;
  padding_byte = omega arith;
  unread = λ h. refl;
  small = λ h. absurd (omega arith);
  block = λ h. absurd (omega arith);
  copied = λ h. absurd (omega arith);
  skipped = λ h. absurd (omega arith);
}

-- What a call returns: bytes that are left, if any, follow a finished record.
abbrev pub IsReturned : Status × Bytes × FcgiRecord → Type 0
IsReturned (s, rest, rec) = IsSound rec × AllBytes rest × (rest ≢ [] → rec.state ≡ state_done)

drop-AllBytes : (n : ℕ) (bs : Bytes) → AllBytes bs → AllBytes (drop n bs)
drop-AllBytes zero bs h = h
drop-AllBytes (suc n) [] h = h
drop-AllBytes (suc n) (b ∷ bs) h = drop-AllBytes n bs h.1

skip_padding-IsReturned :
    (bs : Bytes) (rec : FcgiRecord)
    → IsSound rec
    → AllBytes bs
    → value rec.state ≡ 10
    → rec.length_ + rec.header.padding_length - rec.offset ≤ length bs
    → Safe IsReturned (skip_padding bs rec)
unfolding skip_padding value
skip_padding-IsReturned bs rec sound h at_padding fits =
    let (all_copied, in_padding) = sound.skipped at_padding in
    let left : add64 (sub64 rec.length_ rec.offset) rec.header.padding_length
        ≡ rec.length_ + rec.header.padding_length - rec.offset =
      let small = sound.small (omega arith) in let pad = sound.padding_byte in omega arith in
    rw (left, advance_lem bs (rec.length_ + rec.header.padding_length - rec.offset) fits)
      (
        record {
          high_byte = sound.high_byte;
          low_byte = sound.low_byte;
          padding_byte = sound.padding_byte;
          unread = λ k. absurd (omega arith);
          small = λ k. sound.small (omega arith);
          block = λ k. absurd (omega arith);
          copied = λ k. absurd (omega arith);
          skipped = λ k. absurd (omega arith);
        },
        drop-AllBytes _ bs h,
        (λ n. refl),
      )

-- A sound record in the content, after a copy that kept the block's size
content_copied-IsReturned :
    (bs : Bytes) (rec : FcgiRecord)
    → IsSound rec
    → AllBytes bs
    → value rec.state ≡ 9
    → Safe IsReturned (
        content_copied
          (rec.length_ - rec.offset)
          (rec.length_ - rec.offset + rec.header.padding_length)
          bs
          rec)
unfolding content_copied value
content_copied-IsReturned bs rec sound h at_content =
    let con = rec.length_ - rec.offset in
    let tot = con + rec.header.padding_length in
    let small = sound.small (omega arith) in
    let copied = sound.copied at_content in
    let pad = sound.padding_byte in
    elim (Bool-cases (leb tot (length bs))) [
      | inl all ↦
          rw (all, advance_lem bs tot (ground arith))
            (
              record {
                high_byte = sound.high_byte;
                low_byte = sound.low_byte;
                padding_byte = sound.padding_byte;
                unread = λ k. absurd (omega arith);
                small = λ k. small;
                block = λ k. absurd (omega arith);
                copied = λ k. absurd (omega arith);
                skipped = λ k. absurd (omega arith);
              },
              drop-AllBytes tot bs h,
              (λ n. refl),
            )
      | inr some_left ↦ elim (Bool-cases (leb con (length bs))) [
        | inl content ↦
            rw
              (
                some_left,
                content,
                advance_lem bs (length bs) (omega arith),
                drop_all (length bs) bs (omega arith),
              )
              (
                record {
                  high_byte = sound.high_byte;
                  low_byte = sound.low_byte;
                  padding_byte = sound.padding_byte;
                  unread = λ k. absurd (omega arith);
                  small = λ k. small;
                  block = λ k. absurd (omega arith);
                  copied = λ k. absurd (omega arith);
                  skipped = λ k. (ground arith, ground arith);
                },
                tt,
                (λ n. absurd (n refl)),
              )
        | inr part ↦
            rw
              (
                some_left,
                part,
                advance_lem bs (length bs) (omega arith),
                drop_all (length bs) bs (omega arith),
              )
              (
                record {
                  high_byte = sound.high_byte;
                  low_byte = sound.low_byte;
                  padding_byte = sound.padding_byte;
                  unread = λ k. absurd (omega arith);
                  small = λ k. small;
                  block = sound.block;
                  copied = λ k. ground arith;
                  skipped = λ k. absurd (omega arith);
                },
                tt,
                (λ n. absurd (n refl)),
              )
      ]
    ]

-- The bytes of a `memcpy` lie in the block, and it keeps its size.
memcpy-length :
    (block : Bytes) (offset : ℕ) (src : Bytes)
    → offset + length src ≤ length block
    → (block' : Bytes) × (memcpy block offset src ≡ ok block') × (length block' ≡ length block)
memcpy-length block offset src h = (
  take offset block ++ (src ++ drop (offset + length src) block),
  memcpy_lem block offset src h,
  ground (
    arith,
    length-append (take offset block) (src ++ drop (offset + length src) block),
    length-append src (drop (offset + length src) block),
    length-drop (offset + length src) block,
    length-take offset block,
  ),
)

copy_content-IsReturned :
    (bs : Bytes) (rec : FcgiRecord)
    → IsSound rec
    → AllBytes bs
    → value rec.state ≡ 9
    → Safe IsReturned (copy_content bs rec)
unfolding copy_content
copy_content-IsReturned bs rec sound h at_content =
    let con = rec.length_ - rec.offset in
    let small = sound.small (omega arith) in
    let copied = sound.copied at_content in
    let pad = sound.padding_byte in
    let room = sound.block at_content in
    let con_eq : sub64 rec.length_ rec.offset ≡ con = omega arith in
    let tot_eq : add64 con rec.header.padding_length ≡ con + rec.header.padding_length =
      omega arith in
    let cpy_len = if leb con (length bs) then con else length bs in
    let (block', run, size) =
      memcpy-length rec.content rec.offset (take cpy_len bs)
        (ground (arith, length-take cpy_len bs)) in
    let sound' : IsSound (record rec { content = block' }) = record {
      high_byte = sound.high_byte;
      low_byte = sound.low_byte;
      padding_byte = sound.padding_byte;
      unread = sound.unread;
      small = sound.small;
      block = λ k. size ∙ sound.block k;
      copied = sound.copied;
      skipped = sound.skipped;
    } in
    rw (con_eq, tot_eq, run)
      (content_copied-IsReturned bs (record rec { content = block' }) sound' h at_content)

-- A byte of the header is stored, and the state moves on.
process_header-IsSound :
    (ch : ℕ) (rec : FcgiRecord)
    → ch < 256
    → IsSound rec
    → value rec.state < 8
    → IsSound (process_header ch rec).1
unfolding process_header header_byte value
process_header-IsSound ch rec h sound inside =
    let high = sound.high_byte in
    let low = sound.low_byte in
    let pad = sound.padding_byte in
    let next = (process_header_step ch rec rec.state refl inside).1 in
    record {
      high_byte = ground arith;
      low_byte = ground arith;
      padding_byte = ground arith;
      unread = λ k. sound.unread (omega arith);
      small = λ k. absurd (omega arith);
      block = λ k. absurd (omega arith);
      copied = λ k. absurd (omega arith);
      skipped = λ k. absurd (omega arith);
    }

-- What the loop over the header bytes leaves: it never reads behind the chunk.
abbrev IsRead : HeaderRead → Type 0
IsRead (returned s rest rec) = IsReturned (s, rest, rec)
IsRead (past_header rest rec) = IsSound rec × AllBytes rest × (value rec.state ≡ 8)
IsRead overrun = ⊥

after_byte-IsRead :
    (ch : ℕ) (bs : Bytes) (rec : FcgiRecord) (more : HeaderRead)
    → IsSound rec
    → (bs ≢ [] → IsRead more)
    → IsRead (after_byte process_again ch bs rec more)
unfolding after_byte
after_byte-IsRead ch [] rec more sound h = (sound, tt, (λ n. absurd (n refl)))
after_byte-IsRead ch (b ∷ bs) rec more sound h = h (λ e. cc)

header_step :
    (ch : ℕ) (bs : Bytes) (rec : FcgiRecord)
    → AllBytes (ch ∷ bs)
    → IsSound rec
    → value rec.state ≤ 8
    → (bs ≢ []
        → value rec.state < 8
        → IsSound (process_header ch rec).1
        → IsRead (read_header bs (process_header ch rec).1))
    → IsRead (read_header (ch ∷ bs) rec)
unfolding read_header
header_step ch bs rec h sound inside more = elim (Bool-cases (ltb (value rec.state) 8)) [
  | inl low ↦
      let below : value rec.state < 8 = ground arith in
      let sound' = process_header-IsSound ch rec h.0 sound below in
      let rec' = (process_header ch rec).1 in
      rw low (
        subst (λ status. IsRead (after_byte status ch bs rec' (read_header bs rec')))
          (sym (process_header_step ch rec rec.state refl below).0)
          (after_byte-IsRead ch bs rec' (read_header bs rec') sound' (λ n. more n below sound')))
  | inr at_end ↦ rw at_end (sound, h, ground arith)
]

read_header-IsRead :
    (ch : ℕ) (bs : Bytes) (rec : FcgiRecord)
    → AllBytes (ch ∷ bs)
    → IsSound rec
    → value rec.state ≤ 8
    → IsRead (read_header (ch ∷ bs) rec)
unfolding read_header
read_header-IsRead ch [] rec h sound inside =
    header_step ch [] rec h sound inside (λ n. absurd (n refl))
read_header-IsRead ch (b ∷ bs) rec h sound inside =
    header_step ch (b ∷ bs) rec h sound inside (λ n low sound'.
      read_header-IsRead b bs (process_header ch rec).1 h.1 sound'
        (omega (arith, process_header_step ch rec rec.state refl low)))

-- The states after the header
past_states : (s : FcgiState) → 9 ≤ value s → s ≢ state_done → (value s ≡ 9) ⊎ (value s ≡ 10)
unfolding value
past_states state_content_proc h n = inl refl
past_states state_padding h n = inr refl
past_states state_done h n = absurd (n refl)
past_states state_version h n = absurd (omega arith)
past_states state_type h n = absurd (omega arith)
past_states state_request_id_hi h n = absurd (omega arith)
past_states state_request_id_lo h n = absurd (omega arith)
past_states state_content_len_hi h n = absurd (omega arith)
past_states state_content_len_lo h n = absurd (omega arith)
past_states state_padding_len h n = absurd (omega arith)
past_states state_reserved h n = absurd (omega arith)
past_states state_content_begin h n = absurd (omega arith)

process_content-IsReturned :
    (bs : Bytes) (rec : FcgiRecord)
    → IsSound rec
    → AllBytes bs
    → 9 ≤ value rec.state
    → rec.state ≢ state_done
    → padding_left rec ≤ length bs
    → Safe IsReturned (process_content bs rec)
unfolding process_content in_state value
process_content-IsReturned bs rec sound h past going fits =
    elim (past_states rec.state past going) [
      | inl content ↦
          let other : (value rec.state == 10) ≡ false = ground arith in
          rw other (copy_content-IsReturned bs rec sound h content)
      | inr padding ↦
          let here : (value rec.state == 10) ≡ true = ground arith in
          rw here (skip_padding-IsReturned bs rec sound h padding (rw here at fits))
    ]

module _ (ts_malloc : ℕ → Bytes) (malloc_size : (n : ℕ) → length (ts_malloc n) ≡ n) where
  abbrev begun : FcgiRecord → FcgiRecord
  begun rec = record rec {
    length_ = content_len rec.header;
    content = ts_malloc (content_len rec.header);
    state = state_content_proc;
  }

  begun-IsSound : (rec : FcgiRecord) → IsSound rec → value rec.state ≡ 8 → IsSound (begun rec)
  unfolding value
  begun-IsSound rec sound e =
      let high = sound.high_byte in
      let low = sound.low_byte in
      let start = sound.unread (omega arith) in
      record {
        high_byte = high;
        low_byte = low;
        padding_byte = sound.padding_byte;
        unread = λ k. absurd (omega arith);
        small = λ k. omega arith;
        block = λ k. malloc_size (content_len rec.header);
        copied = λ k. omega arith;
        skipped = λ k. absurd (omega arith);
      }

  after_header-IsReturned : (r : HeaderRead) → IsRead r → Safe IsReturned (after_header ts_malloc r)
  unfolding after_header begin_content in_state value
  after_header-IsReturned (returned s rest rec) h = h
  after_header-IsReturned (past_header rest rec) (sound, bytes, e) =
      let begins : (value rec.state == 8) ≡ true = ground arith in
      rw begins (
        process_content-IsReturned rest (begun rec) (begun-IsSound rec sound e) bytes (omega arith)
          (λ k. cc) (omega arith))
  after_header-IsReturned overrun h = absurd h

  past_header-content :
      (ch : ℕ) (bs : Bytes) (rec : FcgiRecord)
      → 9 ≤ value rec.state
      → process_record ts_malloc (ch ∷ bs) rec ≡ process_content (ch ∷ bs) rec
  unfolding process_record read_header after_header begin_content in_state
  past_header-content ch bs rec past =
      let low : ltb (value rec.state) 8 ≡ false = ground arith in
      let begun_before : (value rec.state == 8) ≡ false = ground arith in
      rw (low, begun_before) refl

  -- `fcgiProcessRecord` on a chunk with bytes, from a sound record that is not finished
  pub process_record-IsReturned :
      (ch : ℕ) (bs : Bytes) (rec : FcgiRecord)
      → IsSound rec
      → AllBytes (ch ∷ bs)
      → rec.state ≢ state_done
      → padding_left rec ≤ length (ch ∷ bs)
      → Safe IsReturned (process_record ts_malloc (ch ∷ bs) rec)
  unfolding process_record
  process_record-IsReturned ch bs rec sound h going fits =
      elim (Bool-cases (leb (value rec.state) 8)) [
        | inl inside ↦
            after_header-IsReturned (read_header (ch ∷ bs) rec)
              (read_header-IsRead ch bs rec h sound (ground arith))
        | inr past ↦
            rw (past_header-content ch bs rec (ground arith))
              (process_content-IsReturned (ch ∷ bs) rec sound h (ground arith) going fits)
      ]

  -- The padding runs out of the chunk.
  pub process_record-overrun :
      (ch : ℕ) (bs : Bytes) (rec : FcgiRecord)
      → IsSound rec
      → length (ch ∷ bs) < padding_left rec
      → process_record ts_malloc (ch ∷ bs) rec ≡ fault
  unfolding process_content skip_padding in_state value
  process_record-overrun ch bs rec sound h = elim (Bool-cases (in_state rec.state state_padding)) [
    | inl padding ↦
        let at_padding : value rec.state ≡ 10 = ground (arith, padding) in
        let small = sound.small (omega arith) in
        let pad = sound.padding_byte in
        let (all_copied, in_padding) = sound.skipped at_padding in
        let here : (value rec.state == 10) ≡ true = ground arith in
        let left : add64 (sub64 rec.length_ rec.offset) rec.header.padding_length
            ≡ rec.length_ + rec.header.padding_length - rec.offset =
          omega arith in
        past_header-content ch bs rec (omega arith)
        ∙ rw (here, left)
            (rw
              (advance_overrun (ch ∷ bs) (rec.length_ + rec.header.padding_length - rec.offset)
                (rw here at h))
              refl)
    | inr other ↦ absurd (let none_left = rw other at h in omega arith)
  ]
