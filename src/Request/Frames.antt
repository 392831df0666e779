-- ===== src/Request/Frames.antt =====
-- What the application receives: the written bytes read as FastCGI records.
use ats_fastcgi.Common.{
  ok-injective, sym, ℕ, ◌+◌, ◌≤◌, ◌<◌, ◌≡◌, refl, ap, ◌∙◌, ◌/◌, List, [], ◌∷◌, Bytes, length, take,
  ok, fault, arith, append_assoc, append-nil, ◌%◌, ◌^◌,
}
use mathlib.Core.Path.{ap₂}
use ats_fastcgi.Protocol.{Header}
use ats_fastcgi.Record.Message.{Message, IsMessage}
use ats_fastcgi.Response.Stream.{encode_all}
use ats_fastcgi.Request.{
  ClientState, create_header, set_content_len, create_begin_request, add_client_request,
}
use ats_fastcgi.Request.Bounds.{Written, params_bytes, fits, overruns}
use ats_fastcgi.Request.Records.{
  begin_request_bytes, length-begin_request_bytes, create_begin_request-Writes,
}

-- The specification's header of a record without padding: version 1, and two bytes, high and low, for
-- the request id and for the content's length.
abbrev spec_header : ℕ → ℕ → ℕ → Header
spec_header type_ request_id size = record {
  version = 1;
  type_ = type_;
  request_id_b1 = request_id / 256 % 256;
  request_id_b0 = request_id % 256;
  content_length_b1 = size / 256 % 256;
  content_length_b0 = size % 256;
  padding_length = 0;
  reserved = 0;
}

-- A record of the request: its type and its content, with no padding.
abbrev pub message : ℕ → ℕ → Bytes → Message
message type_ request_id content = record {
  header = spec_header type_ request_id (length content);
  content = content;
  padding = [];
}

-- The begin record: the responder's role and the flag that keeps the connection.
abbrev begin_message : ClientState → Message
begin_message st = message 1 st.request_id (0 ∷ 1 ∷ 1 ∷ 0 ∷ 0 ∷ 0 ∷ 0 ∷ 0 ∷ [])

-- The records of `createBeginRequest`, of the types 1 and 4.
abbrev pub request_messages : ClientState → List Message
request_messages st =
    begin_message st
    ∷ message 4 st.request_id (params_bytes st.request_headers)
    ∷ message 4 st.request_id []
    ∷ []

abbrev pub AllMessages : List Message → Type 0
AllMessages [] = Unit {0}
AllMessages (m ∷ ms) = IsMessage m × AllMessages ms

pub message-IsMessage :
    (type_ request_id : ℕ) (content : Bytes)
    → type_ < 256
    → length content < 2 ^ 16
    → IsMessage (message type_ request_id content)
message-IsMessage type_ request_id content h k = record {
  is_header = omega arith;
  content_fits = omega arith;
  padding_fits = refl;
}

-- The header that the code makes is the specification's.
pub set_content_len-create_header :
    (type_ request_id size : ℕ)
    → set_content_len (size % 2 ^ 32) (create_header type_ request_id)
      ≡ spec_header type_ request_id size
unfolding set_content_len create_header
set_content_len-create_header type_ request_id size =
    ap₂
      (λ high low. record (spec_header type_ request_id size) {
        content_length_b1 = high;
        content_length_b0 = low;
      })
      (omega arith) (omega arith)

pub set_content_len-empty :
    (type_ request_id : ℕ)
    → set_content_len 0 (create_header type_ request_id) ≡ spec_header type_ request_id 0
unfolding set_content_len create_header
set_content_len-empty type_ request_id = refl

encode-request_messages :
    (st : ClientState) → begin_request_bytes st ≡ encode_all (request_messages st)
unfolding create_header
encode-request_messages st =
    rw
      (
        set_content_len-create_header 4 st.request_id (length (params_bytes st.request_headers)),
        set_content_len-empty 4 st.request_id,
      )
      (simp (append_assoc, append-nil))

pub sent :
    {start st : ClientState} {written : Bytes}
    → Written start written st
    → add_client_request st ≡ written
sent {start} {st} w = ap (λ n. take n st.buff) w.offset ∙ w.front

-- `createBeginRequest`, with `pBuffInc` at the start of the buffer, parameters of less than 65536
-- bytes and a buffer with room for them and 32 bytes more: it succeeds, and the plugin sends
-- well-formed records of version 1 with the low 16 bits of the request's id, which are a begin record for
-- a responder that keeps the connection, of type 1, and the parameters and their end, of type 4.
pub create_begin_request-records :
    (st : ClientState)
    → st.p_buff_inc ≡ 0
    → length (params_bytes st.request_headers) < 2 ^ 16
    → 32 + length (params_bytes st.request_headers) ≤ length st.buff
    → (st' : ClientState) × (create_begin_request st ≡ ok st')
      × (add_client_request st' ≡ encode_all (request_messages st))
      × AllMessages (request_messages st)
create_begin_request-records st e short room = elim (create_begin_request-Writes st e) [
  | fits st' run w h ↦ (
    st',
    run,
    sent w ∙ encode-request_messages st,
    (
      message-IsMessage 1 st.request_id _ (omega arith) (omega arith),
      (
        message-IsMessage 4 st.request_id _ (omega arith) short,
        (message-IsMessage 4 st.request_id [] (omega arith) (omega arith), tt),
      ),
    ),
  )
  | overruns run h ↦ absurd (omega (arith, length-begin_request_bytes st))
]

-- `createBeginRequest` has no bounds check: with `pBuffInc` at the start of the buffer, parameters
-- that leave less than 32 bytes of it make it write past the buffer's end.
pub create_begin_request-fault :
    (st : ClientState)
    → st.p_buff_inc ≡ 0
    → length st.buff < 32 + length (params_bytes st.request_headers)
    → create_begin_request st ≡ fault
create_begin_request-fault st e long = elim (create_begin_request-Writes st e) [
  | fits st' run w h ↦ absurd (omega (arith, length-begin_request_bytes st))
  | overruns run h ↦ run
]

-- The buffer keeps its size.
pub create_begin_request-size :
    (st st' : ClientState)
    → st.p_buff_inc ≡ 0
    → create_begin_request st ≡ ok st'
    → length st'.buff ≡ length st.buff
create_begin_request-size st st' e run' = elim (create_begin_request-Writes st e) [
  | fits st'' run w h ↦ ap (λ x. length x.buff) (ok-injective (sym run' ∙ run)) ∙ w.same_size
  | overruns run h ↦ absurd (let clash : ok st' ≡ fault = sym run' ∙ run in cc)
]
