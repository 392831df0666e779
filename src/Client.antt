-- ===== src/Client.antt =====
-- src/ats_fcgi_client.cc: the constructor of `FCGIClientRequest`, with the buffer that it allocates.
pub mod Buffer
pub mod Working
use ats_fastcgi.Common.{
  ℕ, ◌+◌, ◌-◌, ◌^◌, ◌%◌, Option, none, some, List, Bytes, codes, c_string, equal, read_int, ℤ, pos,
  negsuc, suc, ltb, leb, if◌then◌else◌, Outcome, ok, fault, ◌>>=◌,
}
use ats_fastcgi.StringMap.{StringMap, assign, index}
use ats_fastcgi.Config.Settings.{FcgiPluginConfig}
use ats_fastcgi.Headers.{Transaction, generate_fcgi_request_headers}
use ats_fastcgi.Request.{ClientState}

abbrev pub buf_size : ℕ
buf_size = 5000

-- `BUF_SIZE + contentLength` as the argument of `TSmalloc`: the sum of two `int`s must be an `int`, and
-- a negative one asks for more memory than there is, which ends the process.
unfoldable pub buffer_size : ℤ → Outcome ℕ
buffer_size (pos n) = if ltb (buf_size + n) (2 ^ 31) then ok (buf_size + n) else fault
buffer_size (negsuc n) = if leb (n + 1) buf_size then ok (buf_size - (n + 1)) else fault

-- `state_->requestHeaders[name] = value.c_str()`, for a field that is there
unfoldable pub add_field : Bytes → Option Bytes → StringMap → StringMap
unfolding assign c_string
add_field name none m = m
add_field name (some value) m = assign name (c_string value) m

unfoldable pub content_fields :
    Option (List (Bytes × Bytes)) → Option Bytes → Option Bytes → StringMap → StringMap
unfolding add_field
content_fields none content_length content_type m = m
content_fields (some fields) content_length content_type m =
    add_field (codes "CONTENT_TYPE") content_type
      (add_field (codes "CONTENT_LENGTH") content_length m)

-- The fields of a body, if the headers are initialised.
unfoldable pub add_content_fields : Transaction → StringMap → StringMap
unfolding content_fields
add_content_fields t m = content_fields t.fields t.content_length t.content_type m

-- The headers and the size of the buffer.
unfoldable pub size_buffer : Transaction → StringMap → Outcome (StringMap × ℕ)
unfolding add_content_fields index equal read_int buffer_size
size_buffer t m =
    let (method, m1) = index (codes "REQUEST_METHOD") m in
    if equal method (codes "POST")
    then (let (cl, m2) = index (codes "CONTENT_LENGTH") (add_content_fields t m1) in
        buffer_size (read_int cl) >>= λ size. ok (m2, size))
    else ok (m1, buf_size)

-- `FCGIClientRequest(request_id, txn)`; `request_id` is an `int` of an `unsigned int` below 2^31.
unfoldable pub new_client_request :
    (ℕ → Bytes) → FcgiPluginConfig → ℕ → Transaction → Outcome ClientState
unfolding generate_fcgi_request_headers size_buffer
new_client_request ts_malloc config request_id t = do
  headers ← generate_fcgi_request_headers config t
  (headers', size) ← size_buffer t headers
  ok (record {
    request_id = request_id;
    request_headers = headers';
    buff = ts_malloc size;
    p_buff_inc = 0;
  })
