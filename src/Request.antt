-- ===== src/Request.antt =====
-- src/ats_fcgi_client.cc: the functions of `FCGIClientRequest` that serialise a request into its
-- buffer. `request_headers` lists the map in the order of its iterator; `p_buff_inc` is the offset
-- `pBuffInc - buff`. `int` and `uint32_t` are 32 bits wide.
pub mod Bounds
pub mod NameValue
pub mod Records
pub mod Frames
pub mod Bodies
use ats_fastcgi.Common.{
  codes, equal, ℕ, ◌+◌, ◌%◌, ◌^◌, List, [], ◌∷◌, ◌++◌, Bytes, length, take, ltb, if◌then◌else◌,
  Outcome, ok, ◌>>=◌, memcpy, Bool,
}
use ats_fastcgi.StringMap.{StringMap, index}
use ats_fastcgi.Protocol.{
  Header, header_bytes, zero_header, byte_0, byte_1, byte_2, byte_3, fcgi_version_1,
  fcgi_begin_request, fcgi_params, fcgi_stdin, fcgi_keep_conn, fcgi_responder,
}

pub record ClientState : Type 0 where
  pub request_id : ℕ
  pub request_headers : StringMap
  pub buff : Bytes
  pub p_buff_inc : ℕ

-- `createHeader` and `fcgiHeaderSetRequestId`
unfoldable pub create_header : ℕ → ℕ → Header
create_header type_ request_id = record zero_header {
  version = fcgi_version_1;
  type_ = type_;
  request_id_b1 = byte_1 request_id;
  request_id_b0 = byte_0 request_id;
}

-- `contentLengthB0 = BYTE_0(len)` and `contentLengthB1 = BYTE_1(len)`; `fcgiHeaderSetContentLen`
unfoldable pub set_content_len : ℕ → Header → Header
set_content_len len h = record h { content_length_b1 = byte_1 len; content_length_b0 = byte_0 len }

-- `createBeginRequest`'s body: `FCGI_BeginRequestBody` from `calloc`, with its role and flags.
abbrev pub begin_body : Bytes
begin_body = 0 ∷ fcgi_responder ∷ fcgi_keep_conn ∷ 0 ∷ 0 ∷ 0 ∷ 0 ∷ 0 ∷ []

-- `serialize(state_->pBuffInc, …)`: the bytes are copied to where `pBuffInc` points.
unfoldable pub serialize : Bytes → ClientState → Outcome ClientState
serialize bytes st = memcpy st.buff st.p_buff_inc bytes >>= λ buff'. ok (record st { buff = buff' })

-- The same, and `pBuffInc` moves behind them.
unfoldable pub serialize_next : Bytes → ClientState → Outcome ClientState
unfolding serialize
serialize_next bytes st = do
  st' ← serialize bytes st
  ok (record st' { p_buff_inc = st.p_buff_inc + length bytes })

-- The length of a name or a value, in one byte or four.
unfoldable pub length_bytes : ℕ → Bytes
length_bytes n = if ltb n 128 then byte_0 n ∷ [] else byte_3 n ∷ byte_2 n ∷ byte_1 n ∷ byte_0 n ∷ []

-- What `serializeNameValue` writes; it returns how many bytes that is.
unfoldable pub name_value_bytes : Bytes × Bytes → Bytes
name_value_bytes (name, value) =
    length_bytes (length name % 2 ^ 32) ++ (length_bytes (length value % 2 ^ 32) ++ (name ++ value))

-- The first loop of `createBeginRequest`: each pair is written where `pBuffInc` points, which does
-- not move, to add up the lengths.
unfoldable pub measure_params : StringMap → ℕ → ClientState → Outcome (ℕ × ClientState)
unfolding serialize
measure_params [] len st = ok (len, st)
measure_params (kv ∷ kvs) len st = do
  st' ← serialize (name_value_bytes kv) st
  measure_params kvs ((len + length (name_value_bytes kv)) % 2 ^ 32) st'

-- Its second loop.
unfoldable pub write_params : StringMap → ClientState → Outcome ClientState
unfolding serialize_next
write_params [] st = ok st
write_params (kv ∷ kvs) st = do st' ← serialize_next (name_value_bytes kv) st; write_params kvs st'

abbrev pub begin_header : ClientState → Header
begin_header st = record (create_header fcgi_begin_request st.request_id) { content_length_b0 = 8 }

-- `createBeginRequest`
unfoldable pub create_begin_request : ClientState → Outcome ClientState
unfolding measure_params write_params serialize_next create_header set_content_len
create_begin_request st = do
  st1 ← serialize_next (header_bytes (begin_header st)) st
  st2 ← serialize_next begin_body st1
  (len, st3) ← measure_params st.request_headers 0 st2
  let header = create_header fcgi_params st.request_id
  st4 ← serialize_next (header_bytes (set_content_len len header)) st3
  st5 ← write_params st.request_headers st4
  serialize_next (header_bytes (set_content_len 0 header)) st5

-- `postBodyChunk`, with `postData`
unfoldable pub post_body_chunk : Bytes → ClientState → Outcome ClientState
unfolding serialize_next create_header set_content_len
post_body_chunk post_data st = do
  let header = create_header fcgi_stdin st.request_id
  st1 ←
      serialize_next (header_bytes (set_content_len (length post_data % 2 ^ 32) header))
        (record st { p_buff_inc = 0 })
  st2 ← serialize_next post_data st1
  serialize_next (header_bytes (set_content_len 0 header)) st2

-- `emptyParam`
unfoldable pub empty_param : ClientState → Outcome ClientState
unfolding serialize_next create_header set_content_len index
empty_param st =
    let (method, headers) = index (codes "REQUEST_METHOD") st.request_headers in
    let st0 = record st { request_headers = headers; p_buff_inc = 0 } in
    if equal method (codes "POST")
    then ok st0
    else serialize_next (header_bytes (set_content_len 0 (create_header fcgi_stdin st.request_id)))
        st0

-- `addClientRequest`: the bytes that `phpWrite` is given.
abbrev pub add_client_request : ClientState → Bytes
add_client_request st = take st.p_buff_inc st.buff
