-- ===== src/Record/Pending.antt =====
-- Where the reader stands in a record of which some bytes have come.
use ats_fastcgi.Common.{◌+◌, ◌≡◌, ◌≢◌, refl, Bytes, length, [], ◌++◌}
use ats_fastcgi.Protocol.{header_bytes}
use ats_fastcgi.Record.{FcgiRecord, state_content_begin, value, fresh}
use ats_fastcgi.Record.Message.{Message, InContent, InPadding, body, encode}
use ats_fastcgi.Record.Feed.{feed, feed-header_bytes}

-- The record after the header, before its content.
abbrev pub header_done : Message → FcgiRecord
header_done m = record fresh { header = m.header; state = state_content_begin }

-- `rec` has read the record up to the bytes `todo`, with no padding skipped yet.
pub data Awaits (m : Message) (todo : Bytes) (rec : FcgiRecord) : Type 0 where
  in_header :
      (hs : Bytes)
      → hs ≢ []
      → value rec.state + length hs ≡ 8
      → feed hs rec ≡ header_done m
      → todo ≡ hs ++ body m
      → Awaits m todo rec
  at_content : rec ≡ header_done m → todo ≡ body m → Awaits m todo rec
  in_content :
      (front left : Bytes)
      → m.content ≡ front ++ left
      → left ≢ []
      → InContent m front rec
      → todo ≡ left ++ m.padding
      → Awaits m todo rec

-- The same, or the content is complete and some padding has been skipped.
pub data Pending (m : Message) (todo : Bytes) (rec : FcgiRecord) : Type 0 where
  awaits : Awaits m todo rec → Pending m todo rec
  in_padding :
      (skipped : Bytes)
      → m.padding ≡ skipped ++ todo
      → todo ≢ []
      → InPadding m (length todo) rec
      → Pending m todo rec

pub Awaits-fresh : (m : Message) → Awaits m (encode m) fresh
unfolding value
Awaits-fresh m = in_header (header_bytes m.header) (λ e. cc) refl (feed-header_bytes m.header) refl
