-- ===== src/Record/Message.antt =====
-- One FastCGI record as the application sends it, and what the reader's record holds while it reads
-- that record's content and padding.
use ats_fastcgi.Common.{ℕ, ◌+◌, ◌^◌, ◌<◌, ◌≡◌, Bytes, length, take, ◌++◌, arith}
use ats_fastcgi.Protocol.{Header, IsHeader, header_bytes}
use ats_fastcgi.Record.{FcgiRecord, state_content_proc, state_padding, state_done, content_len}

-- One record as the application sends it.
pub record Message : Type 0 where
  pub header : Header
  pub content : Bytes
  pub padding : Bytes

abbrev pub body : Message → Bytes
body m = m.content ++ m.padding

-- The bytes on the wire.
abbrev pub encode : Message → Bytes
encode m = header_bytes m.header ++ body m

-- The header says how long the content and the padding are, in its two bytes and its one.
pub record IsMessage (m : Message) : Type 0 where
  pub is_header : IsHeader m.header
  pub content_fits : content_len m.header ≡ length m.content
  pub padding_fits : m.header.padding_length ≡ length m.padding

-- The record holds the bytes `front` of the content, and waits for more.
pub record InContent (m : Message) (front : Bytes) (rec : FcgiRecord) : Type 0 where
  pub header_eq : rec.header ≡ m.header
  pub state_eq : rec.state ≡ state_content_proc
  pub length_eq : rec.length_ ≡ length m.content
  pub offset_eq : rec.offset ≡ length front
  pub block_eq : length rec.content ≡ length m.content
  pub front_eq : take (length front) rec.content ≡ front

-- The whole content is in place, and `left` bytes of padding are still to come.
pub record InPadding (m : Message) (left : ℕ) (rec : FcgiRecord) : Type 0 where
  pub header_eq : rec.header ≡ m.header
  pub state_eq : rec.state ≡ state_padding
  pub length_eq : rec.length_ ≡ length m.content
  pub offset_eq : rec.offset + left ≡ length m.content + length m.padding
  pub content_eq : rec.content ≡ m.content

-- What a finished record holds.
pub record Holds (m : Message) (rec : FcgiRecord) : Type 0 where
  pub header_eq : rec.header ≡ m.header
  pub state_eq : rec.state ≡ state_done
  pub length_eq : rec.length_ ≡ length m.content
  pub content_eq : rec.content ≡ m.content

pub content_lt : (m : Message) → IsMessage m → length m.content < 2 ^ 16
content_lt m v =
    omega (
      arith, v.is_header.content_length_b1_byte, v.is_header.content_length_b0_byte, v.content_fits,
    )

pub padding_lt : (m : Message) → IsMessage m → length m.padding < 256
padding_lt m v = omega (arith, v.is_header.padding_length_byte, v.padding_fits)
