-- ===== src/Client/Buffer.antt =====
-- The buffer of a new `FCGIClientRequest` has room for its parameters and its body.
use ats_fastcgi.Common.{
  ℕ, ◌+◌, ◌≤◌, ◌<◌, ◌^◌, ◌≡◌, refl, ap, sym, ◌∙◌, Option, none, some, List, Bytes, codes, c_string,
  equal, length, read_int, pos, ok, ok-injective, arith,
}
use ats_fastcgi.StringMap.{StringMap, find, assign, index}
use ats_fastcgi.StringMap.Laws.{find-assign}
use ats_fastcgi.Config.Settings.{FcgiPluginConfig}
use ats_fastcgi.Config.Access.{get_document_root_dir}
use ats_fastcgi.Headers.{Transaction, request_script}
use ats_fastcgi.Headers.Variables.{generate-find, generate-own}
use ats_fastcgi.Client.{
  buf_size, buffer_size, size_buffer, new_client_request, add_content_fields, add_field,
  content_fields,
}
use ats_fastcgi.Request.{ClientState, create_begin_request, post_body_chunk, add_client_request}
use ats_fastcgi.Request.Bounds.{params_bytes}
use ats_fastcgi.Request.Frames.{
  request_messages, AllMessages, create_begin_request-records, create_begin_request-size,
}
use ats_fastcgi.Request.Bodies.{post_messages, post_body_chunk-records}
use ats_fastcgi.Response.Stream.{encode_all}

-- `index` of a name that is there.
pub index-found : (k v : Bytes) (m : StringMap) → find k m ≡ some v → index k m ≡ (v, m)
unfolding index
index-found k v m e = rw (e, index) refl

buffer_size_fits : (n : ℕ) → buf_size + n < 2 ^ 31 → buffer_size (pos n) ≡ ok (buf_size + n)
unfolding buffer_size
buffer_size_fits n h = ground arith

content_length-add_field :
    (v : Bytes) (content_type : Option Bytes) (m : StringMap)
    → find (codes "CONTENT_LENGTH") (
        add_field
          (codes "CONTENT_TYPE")
          content_type
          (add_field (codes "CONTENT_LENGTH") (some v) m))
      ≡ some (c_string v)
unfolding add_field equal
content_length-add_field v none m =
    find-assign (codes "CONTENT_LENGTH") (codes "CONTENT_LENGTH") (c_string v) m
content_length-add_field v (some w) m =
    find-assign (codes "CONTENT_TYPE") (codes "CONTENT_LENGTH") (c_string w)
      (assign (codes "CONTENT_LENGTH") (c_string v) m)
    ∙ find-assign (codes "CONTENT_LENGTH") (codes "CONTENT_LENGTH") (c_string v) m

-- A request with a body: its headers are there, and give its length.
pub record IsPost (t : Transaction) (fields : List (Bytes × Bytes)) (v : Bytes) (n : ℕ)
    : Type 0 where
  pub fields_eq : t.fields ≡ some fields
  pub method_eq : t.method ≡ codes "POST"
  pub length_eq : t.content_length ≡ some v
  pub value_eq : read_int (c_string v) ≡ pos n
  pub small : buf_size + n < 2 ^ 31

content_length-found :
    (t : Transaction) (fields : List (Bytes × Bytes)) (v : Bytes) (m : StringMap)
    → t.fields ≡ some fields
    → t.content_length ≡ some v
    → find (codes "CONTENT_LENGTH") (add_content_fields t m) ≡ some (c_string v)
unfolding add_content_fields
content_length-found t fields v m e f =
    ap (λ o. find (codes "CONTENT_LENGTH") (content_fields o t.content_length t.content_type m)) e
    ∙ ap
        (λ o. find (codes "CONTENT_LENGTH") (
          add_field (codes "CONTENT_TYPE") t.content_type (add_field (codes "CONTENT_LENGTH") o m)))
        f
    ∙ content_length-add_field v t.content_type m

pub size_buffer-post :
    (t : Transaction) (fields : List (Bytes × Bytes)) (v : Bytes) (n : ℕ) (m : StringMap)
    → IsPost t fields v n
    → find (codes "REQUEST_METHOD") m ≡ some (codes "POST")
    → size_buffer t m ≡ ok (add_content_fields t m, buf_size + n)
unfolding size_buffer
size_buffer-post t fields v n m post e =
    rw
      (
        index-found (codes "REQUEST_METHOD") (codes "POST") m e,
        index-found (codes "CONTENT_LENGTH") (c_string v) (add_content_fields t m)
            (content_length-found t fields v m post.fields_eq post.length_eq),
        post.value_eq,
        buffer_size_fits n post.small,
      )
      refl

-- `FCGIClientRequest` of a POST with a document root and a script, whose headers give a `Content-Length`
-- of `n`: it is made, with a buffer of 5000 bytes more than `n`, with nothing written, and with that
-- length among its parameters. `TSmalloc n` gives `n` bytes, and the buffer's size is an `int`.
pub new_client_request-post :
    (ts_malloc : ℕ → Bytes) (malloc_size : (n : ℕ) → length (ts_malloc n) ≡ n)
    (config : FcgiPluginConfig) (request_id : ℕ) (t : Transaction) (root script : Bytes)
    (fields : List (Bytes × Bytes)) (v : Bytes) (n : ℕ)
    → get_document_root_dir config ≡ some root
    → request_script config t ≡ ok script
    → IsPost t fields v n
    → (st : ClientState) × (new_client_request ts_malloc config request_id t ≡ ok st)
      × (length st.buff ≡ 5000 + n)
      × (st.p_buff_inc ≡ 0)
      × (find (codes "CONTENT_LENGTH") st.request_headers ≡ some (c_string v))
unfolding new_client_request
new_client_request-post ts_malloc malloc_size config request_id t root script fields v n r s post =
    let (m, made, _, _) = generate-find config t root script r s in
    let method = (generate-own config t root script m r s made).3 in
    let sized = size_buffer-post t fields v n m post (method ∙ ap some post.method_eq) in
    (
      record {
        request_id = request_id;
        request_headers = add_content_fields t m;
        buff = ts_malloc (buf_size + n);
        p_buff_inc = 0;
      },
      rw (made, sized) refl,
      malloc_size (buf_size + n),
      refl,
      content_length-found t fields v m post.fields_eq post.length_eq,
    )

-- A request that `FCGIClientRequest` made of a POST with a document root and a script, whose headers give
-- a `Content-Length` of `n`, can be sent, if its parameters take at most 4968 bytes: `createBeginRequest`
-- succeeds and sends well-formed records, and the first `postBodyChunk` after it, of at most `n` and less
-- than 65536 bytes, succeeds and sends well-formed records; so neither writes outside the buffer. `TSmalloc
-- n` gives `n` bytes, and the buffer's size is an `int`.
pub new_client_request-sends :
    (ts_malloc : ℕ → Bytes) (malloc_size : (n : ℕ) → length (ts_malloc n) ≡ n)
    (config : FcgiPluginConfig) (request_id : ℕ) (t : Transaction) (root script : Bytes)
    (fields : List (Bytes × Bytes)) (v : Bytes) (n : ℕ) (st : ClientState) (chunk : Bytes)
    → get_document_root_dir config ≡ some root
    → request_script config t ≡ ok script
    → IsPost t fields v n
    → new_client_request ts_malloc config request_id t ≡ ok st
    → length (params_bytes st.request_headers) ≤ 4968
    → length chunk ≤ n
    → length chunk < 2 ^ 16
    → (st1 st2 : ClientState) × (create_begin_request st ≡ ok st1)
      × (add_client_request st1 ≡ encode_all (request_messages st))
      × AllMessages (request_messages st)
      × (post_body_chunk chunk st1 ≡ ok st2)
      × (add_client_request st2 ≡ encode_all (post_messages chunk st1))
      × AllMessages (post_messages chunk st1)
new_client_request-sends ts_malloc malloc_size config request_id t root script fields v n st chunk r
      s post made params fits short =
    let (st0, run, size0, start0, _) =
      new_client_request-post ts_malloc malloc_size config request_id t root script fields v n r s
        post in
    let same : st0 ≡ st = ok-injective (sym run ∙ made) in
    let size : length st.buff ≡ 5000 + n = ap (λ x. length x.buff) (sym same) ∙ size0 in
    let start : st.p_buff_inc ≡ 0 = ap (λ x. x.p_buff_inc) (sym same) ∙ start0 in
    let (st1, run1, sent1, ok1) =
      create_begin_request-records st start (omega arith) (omega arith) in
    let kept = create_begin_request-size st st1 start run1 in
    let (st2, run2, sent2, ok2) = post_body_chunk-records chunk st1 short (omega arith) in
    (st1, st2, run1, sent1, ok1, run2, sent2, ok2)
