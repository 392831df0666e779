-- ===== src/Protocol.antt =====
-- src/fcgi_protocol.h and the byte macros of src/ats_fcgi_client.h: the record header, the
-- constants that the plugin uses, and the bytes of a header as they lie in memory.
use ats_fastcgi.Common.{ℕ, ◌/◌, ◌%◌, ◌^◌, ◌<◌, [], ◌∷◌, Bytes, bit_or}

pub record Header : Type 0 where
  pub version : ℕ
  pub type_ : ℕ
  pub request_id_b1 : ℕ
  pub request_id_b0 : ℕ
  pub content_length_b1 : ℕ
  pub content_length_b0 : ℕ
  pub padding_length : ℕ
  pub reserved : ℕ

abbrev pub fcgi_header_len : ℕ
fcgi_header_len = 8

abbrev pub fcgi_version_1 : ℕ
fcgi_version_1 = 1

abbrev pub fcgi_begin_request : ℕ
fcgi_begin_request = 1

abbrev pub fcgi_end_request : ℕ
fcgi_end_request = 3

abbrev pub fcgi_params : ℕ
fcgi_params = 4

abbrev pub fcgi_stdin : ℕ
fcgi_stdin = 5

abbrev pub fcgi_stdout : ℕ
fcgi_stdout = 6

abbrev pub fcgi_stderr : ℕ
fcgi_stderr = 7

abbrev pub fcgi_keep_conn : ℕ
fcgi_keep_conn = 1

abbrev pub fcgi_responder : ℕ
fcgi_responder = 1

-- `BYTE_0` to `BYTE_3`, of an `int` or `uint32_t` that is not negative, stored into a `uchar`.
abbrev pub byte_0 : ℕ → ℕ
byte_0 x = x % 2 ^ 8

abbrev pub byte_1 : ℕ → ℕ
byte_1 x = x / 2 ^ 8 % 2 ^ 8

abbrev pub byte_2 : ℕ → ℕ
byte_2 x = x / 2 ^ 16 % 2 ^ 8

abbrev pub byte_3 : ℕ → ℕ
byte_3 x = bit_or (x / 2 ^ 24) 0x80 % 2 ^ 8

-- `memset(header, 0, sizeof(FCGI_Header))`
abbrev pub zero_header : Header
zero_header = record {
  version = 0;
  type_ = 0;
  request_id_b1 = 0;
  request_id_b0 = 0;
  content_length_b1 = 0;
  content_length_b0 = 0;
  padding_length = 0;
  reserved = 0;
}

-- The struct as `memcpy` copies it: eight members of one byte, with no gaps.
abbrev pub header_bytes : Header → Bytes
header_bytes h =
    h.version ∷ h.type_ ∷ h.request_id_b1 ∷ h.request_id_b0 ∷ h.content_length_b1
    ∷ h.content_length_b0 ∷ h.padding_length ∷ h.reserved ∷ []

-- Every member is an `unsigned char`.
pub record IsHeader (h : Header) : Type 0 where
  pub version_byte : h.version < 256
  pub type_byte : h.type_ < 256
  pub request_id_b1_byte : h.request_id_b1 < 256
  pub request_id_b0_byte : h.request_id_b0 < 256
  pub content_length_b1_byte : h.content_length_b1 < 256
  pub content_length_b0_byte : h.content_length_b0 < 256
  pub padding_length_byte : h.padding_length < 256
  pub reserved_byte : h.reserved < 256
