-- ===== src/Record/Feed.antt =====
-- `fcgiProcessHeader` and the loop over it, on header bytes in chunks of any size.
use ats_fastcgi.Common.{ℕ, ◌+◌, ◌≤◌, ◌<◌, ◌≡◌, refl, Bytes, length, [], ◌∷◌, ◌++◌, arith}
use ats_fastcgi.Protocol.{Header, header_bytes}
use ats_fastcgi.Record.{
  FcgiState, FcgiRecord, state_content_begin, value, fresh, process_again, process_header,
  read_header, returned, past_header,
}

-- The record after some header bytes.
unfoldable pub feed : Bytes → FcgiRecord → FcgiRecord
feed [] rec = rec
feed (ch ∷ bs) rec = feed bs (process_header ch rec).1

pub feed-append :
    (front bs : Bytes) (rec : FcgiRecord) → feed (front ++ bs) rec ≡ feed bs (feed front rec)
unfolding feed
feed-append [] bs rec = refl
feed-append (ch ∷ front) bs rec = feed-append front bs (process_header ch rec).1

-- One byte is taken in every header state, and the state moves on by one.
pub process_header_step :
    (ch : ℕ) (rec : FcgiRecord) (s : FcgiState)
    → rec.state ≡ s
    → value s < 8
    → ((process_header ch rec).0 ≡ process_again)
      × (value (process_header ch rec).1.state ≡ value s + 1)
unfolding process_header value
process_header_step ch rec s e h = ground arith

pub value-feed :
    (bs : Bytes) (rec : FcgiRecord)
    → value rec.state + length bs ≤ 8
    → value (feed bs rec).state ≡ value rec.state + length bs
unfolding feed
value-feed [] rec h = omega arith
value-feed (ch ∷ bs) rec h = omega (
  arith,
  process_header_step ch rec rec.state refl (omega arith),
  value-feed bs (process_header ch rec).1
      (omega (arith, process_header_step ch rec rec.state refl (omega arith))),
)

-- A chunk that ends inside the header, or with its last byte.
pub read_header_inside :
    (ch : ℕ) (bs : Bytes) (rec : FcgiRecord)
    → value rec.state + length (ch ∷ bs) ≤ 8
    → read_header (ch ∷ bs) rec ≡ returned process_again [] (feed (ch ∷ bs) rec)
unfolding read_header feed
read_header_inside ch [] rec h =
    ground (arith, process_header_step ch rec rec.state refl (omega arith))
read_header_inside ch (c ∷ bs) rec h = ground (
  arith,
  process_header_step ch rec rec.state refl (omega arith),
  read_header_inside c bs (process_header ch rec).1
      (omega (arith, process_header_step ch rec rec.state refl (omega arith))),
)

-- A chunk that goes on behind the header.
pub read_header_past :
    (bs : Bytes) (c : ℕ) (rest : Bytes) (rec : FcgiRecord)
    → value rec.state + length bs ≡ 8
    → read_header (bs ++ (c ∷ rest)) rec ≡ past_header (c ∷ rest) (feed bs rec)
unfolding read_header feed
read_header_past [] c rest rec h = ground arith
read_header_past (ch ∷ []) c rest rec h = ground (
  arith,
  process_header_step ch rec rec.state refl (omega arith),
  read_header_past [] c rest (process_header ch rec).1
      (omega (arith, process_header_step ch rec rec.state refl (omega arith))),
)
read_header_past (ch ∷ b ∷ bs) c rest rec h = ground (
  arith,
  process_header_step ch rec rec.state refl (omega arith),
  read_header_past (b ∷ bs) c rest (process_header ch rec).1
      (omega (arith, process_header_step ch rec rec.state refl (omega arith))),
)

-- The eight bytes of a header, read into a new record.
pub feed-header_bytes :
    (h : Header)
    → feed (header_bytes h) fresh ≡ record fresh { header = h; state = state_content_begin }
unfolding feed process_header
feed-header_bytes h = refl
