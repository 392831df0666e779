-- ===== src/Record.antt =====
-- src/ats_fcgi_client.cc and .h: `FCGIRecordList` and the functions that read one record from a
-- chunk of the response: `fcgiProcessHeader`, `fcgiProcessContent`, `fcgiProcessRecord`.
-- A chunk is the bytes from `*beg_buf` to `end_buf`. `size_t` is 64 bits wide.
pub mod Message
pub mod Feed
pub mod Content
pub mod Pending
pub mod Steps
pub mod Chunks
pub mod Complete
pub mod Progress
pub mod Sound
use ats_fastcgi.Common.{
  ℕ, ◌+◌, ◌*◌, ◌-◌, ◌%◌, ◌^◌, Bool, [], ◌∷◌, ltb, leb, ◌==◌, if◌then◌else◌, Bytes, length, take,
  Outcome, ok, fault, ◌>>=◌, advance, memcpy,
}
use ats_fastcgi.Protocol.{Header, zero_header}

pub data FcgiState : Type 0 where
  state_version state_type state_request_id_hi state_request_id_lo : FcgiState
  state_content_len_hi state_content_len_lo state_padding_len state_reserved : FcgiState
  state_content_begin state_content_proc state_padding state_done : FcgiState

-- The value of the C enumerator.
unfoldable pub value : FcgiState → ℕ
value state_version = 0
value state_type = 1
value state_request_id_hi = 2
value state_request_id_lo = 3
value state_content_len_hi = 4
value state_content_len_lo = 5
value state_padding_len = 6
value state_reserved = 7
value state_content_begin = 8
value state_content_proc = 9
value state_padding = 10
value state_done = 11

-- `*state == fcgi_state_padding`, `_headerRecord->state == fcgi_state_done` and so on
unfoldable pub in_state : FcgiState → FcgiState → Bool
unfolding value
in_state s t = value s == value t

pub data Status : Type 0 where
  process_again process_done process_err : Status

-- `content` is the block that `TSmalloc` gave, [] for the null pointer. `endBody` is never read.
pub record FcgiRecord : Type 0 where
  pub header : Header
  pub content : Bytes
  pub state : FcgiState
  pub length_ : ℕ
  pub offset : ℕ

-- `FCGIRecordList()`
abbrev pub fresh : FcgiRecord
fresh = record {
  header = zero_header;
  content = [];
  state = state_version;
  length_ = 0;
  offset = 0;
}

abbrev pub add64 : ℕ → ℕ → ℕ
add64 a b = (a + b) % 2 ^ 64

abbrev pub sub64 : ℕ → ℕ → ℕ
sub64 a b = (a + 2 ^ 64 - b) % 2 ^ 64

-- `fcgiHeaderGetContentLen`
abbrev pub content_len : Header → ℕ
content_len h = h.content_length_b1 * 2 ^ 8 + h.content_length_b0

-- The new header and the next state, for one byte read in a state.
header_byte : FcgiState → ℕ → Header → Header × FcgiState × Status
header_byte state_version ch h = (record h { version = ch }, state_type, process_again)
header_byte state_type ch h = (record h { type_ = ch }, state_request_id_hi, process_again)
header_byte state_request_id_hi ch h =
    (record h { request_id_b1 = ch }, state_request_id_lo, process_again)
header_byte state_request_id_lo ch h =
    (record h { request_id_b0 = ch }, state_content_len_hi, process_again)
header_byte state_content_len_hi ch h =
    (record h { content_length_b1 = ch }, state_content_len_lo, process_again)
header_byte state_content_len_lo ch h =
    (record h { content_length_b0 = ch }, state_padding_len, process_again)
header_byte state_padding_len ch h =
    (record h { padding_length = ch }, state_reserved, process_again)
header_byte state_reserved ch h = (record h { reserved = ch }, state_content_begin, process_again)
header_byte state_content_begin ch h = (h, state_content_begin, process_done)
header_byte state_content_proc ch h = (h, state_content_proc, process_done)
header_byte state_padding ch h = (h, state_padding, process_done)
header_byte state_done ch h = (h, state_done, process_done)

-- `fcgiProcessHeader`
unfoldable pub process_header : ℕ → FcgiRecord → Status × FcgiRecord
unfolding header_byte
process_header ch rec =
    let (h, s, status) = header_byte rec.state ch rec.header in
    (status, record rec { header = h; state = s })

-- `fcgiProcessContent`, where the content has been read: the rest of the padding is skipped.
unfoldable pub skip_padding : Bytes → FcgiRecord → Outcome (Status × Bytes × FcgiRecord)
skip_padding bs rec = do
  rest ← advance bs (add64 (sub64 rec.length_ rec.offset) rec.header.padding_length)
  ok (process_done, rest, record rec { state = state_done })

-- The three ways in which `fcgiProcessContent` ends after its `memcpy`, with the new block.
content_copied : ℕ → ℕ → Bytes → FcgiRecord → Outcome (Status × Bytes × FcgiRecord)
content_copied con_len tot_len bs rec =
    let nb = length bs in
    if leb tot_len nb
    then (advance bs tot_len >>= λ rest.
        ok (
          process_done,
          rest,
          record rec { offset = add64 rec.offset tot_len; state = state_done },
        ))
    else if leb con_len nb
    then (advance bs nb >>= λ rest.
        ok
          (process_again, rest, record rec { offset = add64 rec.offset nb; state = state_padding }))
    else (advance bs nb >>= λ rest.
        ok (process_again, rest, record rec { offset = add64 rec.offset nb }))

-- `fcgiProcessContent` in the other states.
unfoldable pub copy_content : Bytes → FcgiRecord → Outcome (Status × Bytes × FcgiRecord)
unfolding content_copied
copy_content bs rec =
    let con_len = sub64 rec.length_ rec.offset in
    let tot_len = add64 con_len rec.header.padding_length in
    let cpy_len = if leb con_len (length bs) then con_len else length bs in
    memcpy rec.content rec.offset (take cpy_len bs) >>= λ block.
    content_copied con_len tot_len bs (record rec { content = block })

-- `fcgiProcessContent`: the status, what is left of the chunk, and the record.
unfoldable pub process_content : Bytes → FcgiRecord → Outcome (Status × Bytes × FcgiRecord)
unfolding in_state skip_padding copy_content
process_content bs rec =
    if in_state rec.state state_padding then skip_padding bs rec else copy_content bs rec

-- The loop of `fcgiProcessRecord` over the header bytes.
pub data HeaderRead : Type 0 where
  returned : Status → Bytes → FcgiRecord → HeaderRead
  past_header : Bytes → FcgiRecord → HeaderRead
  overrun : HeaderRead

-- What the loop does after one byte: `more` is the rest of the loop.
after_byte : Status → ℕ → Bytes → FcgiRecord → HeaderRead → HeaderRead
after_byte process_err ch bs rec more = returned process_err (ch ∷ bs) rec
after_byte _ ch [] rec more = returned process_again [] rec
after_byte _ ch (b ∷ bs) rec more = more

unfoldable pub read_header : Bytes → FcgiRecord → HeaderRead
unfolding value process_header after_byte
read_header [] rec = if ltb (value rec.state) 8 then overrun else past_header [] rec
read_header (ch ∷ bs) rec =
    let (status, rec') = process_header ch rec in
    let more = read_header bs rec' in
    if ltb (value rec.state) 8 then after_byte status ch bs rec' more else past_header (ch ∷ bs) rec

module _ (ts_malloc : ℕ → Bytes) where
  unfoldable pub begin_content : FcgiRecord → FcgiRecord
  unfolding in_state
  begin_content rec =
      if in_state rec.state state_content_begin
      then record rec {
        length_ = content_len rec.header;
        content = ts_malloc (content_len rec.header);
        state = state_content_proc;
      }
      else rec

  after_header : HeaderRead → Outcome (Status × Bytes × FcgiRecord)
  unfolding begin_content process_content
  after_header (returned status bs rec) = ok (status, bs, rec)
  after_header overrun = fault
  after_header (past_header bs rec) = process_content bs (begin_content rec)

  -- `fcgiProcessRecord`
  unfoldable pub process_record : Bytes → FcgiRecord → Outcome (Status × Bytes × FcgiRecord)
  unfolding read_header after_header
  process_record bs rec = after_header (read_header bs rec)
