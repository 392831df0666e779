-- ===== src/Request/Bodies.antt =====
-- What the application receives of a body: the chunks that `postBodyChunk` writes.
use ats_fastcgi.Common.{
  ℕ, ◌+◌, ◌≤◌, ◌<◌, ◌≡◌, ◌≢◌, refl, sym, ap, ◌∙◌, List, [], ◌∷◌, ◌++◌, Bytes, length, ok, fault,
  arith, ◌==◌, if◌then◌else◌, append_assoc, append-nil, length-append, ◌%◌, ◌^◌,
}
use mathlib.Core.Path.{ap₂}
use ats_fastcgi.Protocol.{header_bytes, fcgi_stdin}
use ats_fastcgi.Record.{content_len}
use ats_fastcgi.Record.Message.{Message, encode}
use ats_fastcgi.Response.Stream.{encode_all}
use ats_fastcgi.Request.{
  ClientState, create_header, set_content_len, post_body_chunk, add_client_request,
}
use ats_fastcgi.Request.Bounds.{fits, overruns}
use ats_fastcgi.Request.Records.{post_body_bytes, post_body_chunk-Writes}
use ats_fastcgi.Request.Frames.{
  message, AllMessages, message-IsMessage, sent, set_content_len-create_header,
  set_content_len-empty,
}

abbrev pub post_messages : Bytes → ClientState → List Message
post_messages post_data st = message 5 st.request_id post_data ∷ message 5 st.request_id [] ∷ []

encode-post_messages :
    (post_data : Bytes) (st : ClientState)
    → post_body_bytes post_data st ≡ encode_all (post_messages post_data st)
encode-post_messages post_data st =
    rw
      (
        set_content_len-create_header 5 st.request_id (length post_data),
        set_content_len-empty 5 st.request_id,
      )
      (simp (append_assoc, append-nil))

length-post_body_bytes :
    (post_data : Bytes) (st : ClientState)
    → length (post_body_bytes post_data st) ≡ 16 + length post_data
length-post_body_bytes post_data st = omega (
  arith,
  length-append post_data
      (header_bytes (set_content_len 0 (create_header fcgi_stdin st.request_id))),
)

-- `postBodyChunk`, on less than 65536 bytes that leave 16 of the buffer: it succeeds, and the plugin
-- sends two well-formed records of version 1 and type 5 with the low 16 bits of the request's id, the
-- bytes and the end of the body.
pub post_body_chunk-records :
    (post_data : Bytes) (st : ClientState)
    → length post_data < 2 ^ 16
    → 16 + length post_data ≤ length st.buff
    → (st' : ClientState) × (post_body_chunk post_data st ≡ ok st')
      × (add_client_request st' ≡ encode_all (post_messages post_data st))
      × AllMessages (post_messages post_data st)
post_body_chunk-records post_data st short room = elim (post_body_chunk-Writes post_data st) [
  | fits st' run w h ↦ (
    st',
    run,
    sent w ∙ encode-post_messages post_data st,
    (
      message-IsMessage 5 st.request_id post_data (omega arith) short,
      (message-IsMessage 5 st.request_id [] (omega arith) (omega arith), tt),
    ),
  )
  | overruns run h ↦ absurd (omega (arith, length-post_body_bytes post_data st))
]

-- `postBodyChunk` has no bounds check: bytes that leave less than 16 of the buffer make it write past
-- the buffer's end.
pub post_body_chunk-fault :
    (post_data : Bytes) (st : ClientState)
    → length st.buff < 16 + length post_data
    → post_body_chunk post_data st ≡ fault
post_body_chunk-fault post_data st long = elim (post_body_chunk-Writes post_data st) [
  | fits st' run w h ↦ absurd (omega (arith, length-post_body_bytes post_data st))
  | overruns run h ↦ run
]

-- A chunk of 65536 bytes or more that fits the buffer is sent under a header that gives another
-- length: the first record says that it has the low 16 bits of the length.
pub post_body_chunk_wraps :
    (post_data : Bytes) (st : ClientState)
    → 2 ^ 16 ≤ length post_data
    → 16 + length post_data ≤ length st.buff
    → (st' : ClientState) × (post_body_chunk post_data st ≡ ok st')
      × (add_client_request st' ≡ encode_all (post_messages post_data st))
      × (content_len (message 5 st.request_id post_data).header ≡ length post_data % 2 ^ 16)
      × (content_len (message 5 st.request_id post_data).header ≢ length post_data)
post_body_chunk_wraps post_data st long room = elim (post_body_chunk-Writes post_data st) [
  | fits st' run w h ↦
      (st', run, sent w ∙ encode-post_messages post_data st, omega arith, omega arith)
  | overruns run h ↦ absurd (omega (arith, length-post_body_bytes post_data st))
]

-- The body that a FastCGI application reads: the `FCGI_STDIN` contents up to the first empty one.
abbrev pub body_read : List Message → Bytes
body_read [] = []
body_read (m ∷ ms) =
    if m.header.type_ == 5
    then (elim m.content [ [] ↦ [] | b ∷ bs ↦ (b ∷ bs) ++ body_read ms ])
    else body_read ms

encode_all-append : (ms ns : List Message) → encode_all (ms ++ ns) ≡ encode_all ms ++ encode_all ns
encode_all-append [] ns = refl
encode_all-append (m ∷ ms) ns =
    ap (◌++◌ (encode m)) (encode_all-append ms ns)
    ∙ sym (append_assoc (encode m) (encode_all ms) (encode_all ns))

body_read_cut :
    (b : ℕ) (first second : Bytes) (st : ClientState)
    → body_read (post_messages (b ∷ first) st ++ post_messages second st) ≡ b ∷ first
body_read_cut b first second st = ap (◌∷◌ b) (append-nil first)

-- The same, for a client whose buffer and request id are those of another.
post_body_chunk_again :
    (post_data : Bytes) (start st : ClientState)
    → st.request_id ≡ start.request_id
    → length st.buff ≡ length start.buff
    → 16 + length post_data ≤ length start.buff
    → (st' : ClientState) × (post_body_chunk post_data st ≡ ok st')
      × (st'.request_id ≡ start.request_id)
      × (length st'.buff ≡ length start.buff)
      × (add_client_request st' ≡ encode_all (post_messages post_data start))
post_body_chunk_again post_data start st i l room = elim (post_body_chunk-Writes post_data st) [
  | fits st' run w h ↦ (
    st',
    run,
    w.same_id ∙ i,
    w.same_size ∙ l,
    sent w
        ∙ encode-post_messages post_data st
        ∙ ap (λ n. encode_all (message 5 n post_data ∷ message 5 n [] ∷ [])) i,
  )
  | overruns run h ↦ absurd (omega (arith, length-post_body_bytes post_data st))
]

-- A body that comes in two chunks which fit a buffer of less than 65536 bytes, the first with bytes in
-- it, is sent as well-formed records from which an application reads the first chunk alone:
-- `postBodyChunk` ends the body each time.
pub post_body_chunks_cut :
    (b : ℕ) (first second : Bytes) (st : ClientState)
    → length st.buff < 2 ^ 16
    → 17 + length first ≤ length st.buff
    → 16 + length second ≤ length st.buff
    → (st1 st2 : ClientState) × (ms : List Message) × (post_body_chunk (b ∷ first) st ≡ ok st1)
      × (post_body_chunk second st1 ≡ ok st2)
      × (add_client_request st1 ++ add_client_request st2 ≡ encode_all ms)
      × AllMessages ms
      × (body_read ms ≡ b ∷ first)
post_body_chunks_cut b first second st size h k =
    let (st1, run1, id1, size1, sent1) =
      post_body_chunk_again (b ∷ first) st st refl refl (omega arith) in
    let (st2, run2, _, _, sent2) = post_body_chunk_again second st st1 id1 size1 k in
    (
      st1,
      st2,
      post_messages (b ∷ first) st ++ post_messages second st,
      run1,
      run2,
      ap₂ (λ x y. x ++ y) sent1 sent2
          ∙ sym (encode_all-append (post_messages (b ∷ first) st) (post_messages second st)),
      (
        message-IsMessage 5 st.request_id (b ∷ first) (omega arith) (omega arith),
        (
          message-IsMessage 5 st.request_id [] (omega arith) (omega arith),
          (
            message-IsMessage 5 st.request_id second (omega arith) (omega arith),
            (message-IsMessage 5 st.request_id [] (omega arith) (omega arith), tt),
          ),
        ),
      ),
      body_read_cut b first second st,
    )
