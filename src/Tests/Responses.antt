-- ===== src/Tests/Responses.antt =====
-- A response of three records, in the buffer blocks of two read events.
use ats_fastcgi.Common.{
  ℕ, zero, suc, ◌≤◌, ◌<◌, Bool, ◌≡◌, refl, ap, inl, inr, List, [], ◌∷◌, ◌++◌, Bytes, length, none,
  some, ok, fault, true, false, codes, arith,
}
use ats_fastcgi.Protocol.{Header, zero_header}
use ats_fastcgi.Record.{
  FcgiRecord, fresh, process_record, process_again, process_done, state_padding,
}
use ats_fastcgi.Record.Message.{Message, IsMessage, Holds, encode}
use ats_fastcgi.Record.Pending.{Pending, awaits, Awaits-fresh}
use ats_fastcgi.Record.Chunks.{process_record-Part}
use ats_fastcgi.Record.Complete.{process_record-All, process_record_padding_overrun}
use ats_fastcgi.Response.{held, status_line, Mime, Decoder, parse_error, process_buffer}
use ats_fastcgi.Response.Stream.{IsResponse, final, more, outputs}
use ats_fastcgi.Response.Returning.{process_buffer-returns}
use ats_fastcgi.Record.Sound.{IsSound, padding_left, fresh-IsSound}
use ats_fastcgi.Transfer.{read_events}
use ats_fastcgi.Transfer.Delivery.{AllEventsLong, new_decoder, read_events-outputs}

abbrev pub zeros : ℕ → Bytes
zeros zero = []
zeros (suc n) = 0 ∷ zeros n

pub length-zeros : (n : ℕ) → length (zeros n) ≡ n
length-zeros zero = refl
length-zeros (suc n) = ap suc (length-zeros n)

-- A parser that refuses every header.
abbrev pub plain : Mime
plain = record {
  parse = λ text. parse_error;
  print = λ text. [];
  is_initialized = λ text. false;
  status = λ text. none;
  http_version_1_1 = codes "HTTP/1.1";
}

abbrev stdout_header : Header
stdout_header = record zero_header {
  version = 1;
  type_ = 6;
  request_id_b0 = 1;
  content_length_b0 = 2;
  padding_length = 3;
}

abbrev hello : Message
hello = record { header = stdout_header; content = 72 ∷ 105 ∷ []; padding = 0 ∷ 0 ∷ 0 ∷ [] }

abbrev end_of_stdout : Message
end_of_stdout = record {
  header = record zero_header { version = 1; type_ = 6; request_id_b0 = 1 };
  content = [];
  padding = [];
}

abbrev end_request : Message
end_request = record {
  header = record zero_header { version = 1; type_ = 3; request_id_b0 = 1; content_length_b0 = 8 };
  content = 0 ∷ 0 ∷ 0 ∷ 0 ∷ 0 ∷ 0 ∷ 0 ∷ 0 ∷ [];
  padding = [];
}

abbrev pub reply : List Message
reply = hello ∷ end_of_stdout ∷ end_request ∷ []

hello-IsMessage : IsMessage hello
hello-IsMessage = omega arith

pub reply-IsResponse : IsResponse 3 reply
reply-IsResponse =
    more hello-IsMessage (omega arith) refl
      (more (omega arith) (omega arith) refl (final (omega arith) (omega arith) refl (λ e. cc)))

-- The first block ends in the content of the first record, the second in its padding, the third with
-- the empty record's header.
abbrev pub events : List (List Bytes)
events =
    ((1 ∷ 6 ∷ 0 ∷ 1 ∷ 0 ∷ 2 ∷ 3 ∷ 0 ∷ 72 ∷ []) ∷ [] ∷ (105 ∷ 0 ∷ 0 ∷ []) ∷ [])
    ∷ ((0 ∷ 1 ∷ 6 ∷ 0 ∷ 1 ∷ 0 ∷ 0 ∷ 0 ∷ 0 ∷ [])
        ∷ (1 ∷ 3 ∷ 0 ∷ 1 ∷ 0 ∷ 8 ∷ 0 ∷ 0 ∷ 0 ∷ 0 ∷ 0 ∷ 0 ∷ 0 ∷ 0 ∷ 0 ∷ 0 ∷ [])
        ∷ [])
    ∷ []

pub events-AllEventsLong : AllEventsLong 3 events
events-AllEventsLong = (
  (inr (omega arith), (inl refl, (inr (omega arith), tt))),
  ((inr (omega arith), (inr (omega arith), tt)), tt),
)

read_events-outputs_example :
    (d : Decoder) × (read_events zeros plain events new_decoder []
      ≡ some (ok (d, outputs plain true reply, true)))
read_events-outputs_example =
    read_events-outputs zeros length-zeros plain 3 events reply reply-IsResponse
      events-AllEventsLong refl

reply_text : outputs plain true reply ≡ codes "Hi"
unfolding status_line
reply_text = refl

-- The first bytes of a header
process_buffer-returns_example :
    IsSound fresh
    × (padding_left fresh ≤ 3
        → (d' : Decoder) × (o : Bytes) × (b : Bool) × (process_buffer zeros plain
              (1 ∷ 6 ∷ 0 ∷ [])
              new_decoder
              []
            ≡ some (ok (d', o, b)))
          × IsSound (held d'.header_record))
    × (3 < padding_left fresh
        → process_buffer zeros plain (1 ∷ 6 ∷ 0 ∷ []) new_decoder [] ≡ some fault)
process_buffer-returns_example =
    process_buffer-returns zeros length-zeros plain (1 ∷ 6 ∷ 0 ∷ []) new_decoder [] (λ e. cc)
      (omega arith, (omega arith, (omega arith, tt))) fresh-IsSound

-- The header and one byte of content.
process_record-Part_example :
    (rec : FcgiRecord) × (process_record zeros (1 ∷ 6 ∷ 0 ∷ 1 ∷ 0 ∷ 2 ∷ 3 ∷ 0 ∷ 72 ∷ []) fresh
      ≡ ok (process_again, [], rec))
    × Pending hello (105 ∷ 0 ∷ 0 ∷ 0 ∷ []) rec
process_record-Part_example =
    process_record-Part zeros length-zeros hello hello-IsMessage fresh (encode hello)
      (1 ∷ 6 ∷ 0 ∷ 1 ∷ 0 ∷ 2 ∷ 3 ∷ 0 ∷ 72 ∷ []) (105 ∷ 0 ∷ 0 ∷ 0 ∷ []) (Awaits-fresh hello) refl
      (λ e. cc) (inl (λ e. cc))

-- The whole record and one byte of the next.
process_record-All_example :
    (rec : FcgiRecord) × (process_record zeros (encode hello ++ (1 ∷ [])) fresh
      ≡ ok (process_done, 1 ∷ [], rec))
    × Holds hello rec
process_record-All_example =
    process_record-All zeros length-zeros hello hello-IsMessage fresh (encode hello) (1 ∷ [])
      (awaits (Awaits-fresh hello)) (λ e. cc)

abbrev skipping : FcgiRecord
skipping = record {
  header = stdout_header;
  content = 72 ∷ 105 ∷ [];
  state = state_padding;
  length_ = 2;
  offset = 3;
}

-- Two bytes of padding are left, and the chunk has one.
process_record_padding_overrun_example : process_record zeros (0 ∷ []) skipping ≡ fault
process_record_padding_overrun_example =
    process_record_padding_overrun zeros length-zeros hello hello-IsMessage skipping 2 (0 ∷ [])
      (record {
        header_eq = refl;
        state_eq = refl;
        length_eq = refl;
        offset_eq = refl;
        content_eq = refl;
      })
      (omega arith)
