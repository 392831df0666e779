-- ===== src/Request/Records.antt =====
-- The request in the buffer, as FastCGI records.
use ats_fastcgi.Common.{
  ℕ, ◌+◌, ◌≤◌, ◌≡◌, refl, ap, ◌∙◌, [], ◌++◌, Bytes, length, Outcome, ok, ◌>>=◌, arith,
  length-append, ◌%◌, ◌^◌,
}
use ats_fastcgi.Protocol.{Header, header_bytes, fcgi_params, fcgi_stdin}
use ats_fastcgi.Request.{
  ClientState, create_header, set_content_len, begin_header, begin_body, create_begin_request,
  post_body_chunk,
}
use ats_fastcgi.Request.Bounds.{
  Written, Writes, Writes-bind, serialize_next-Writes, params_bytes, write_params-Writes, Measures,
  measured, too_long, measure_params-Measures, overruns,
}

-- The bytes of a whole request without its body.
abbrev pub begin_request_bytes : ClientState → Bytes
begin_request_bytes st =
    let header = create_header fcgi_params st.request_id in
    let total = length (params_bytes st.request_headers) % 2 ^ 32 in
    (((header_bytes (begin_header st) ++ begin_body) ++ header_bytes (set_content_len total header))
      ++ params_bytes st.request_headers)
    ++ header_bytes (set_content_len 0 header)

Written-start : (st : ClientState) → st.p_buff_inc ≡ 0 → Written st [] st
Written-start st e = record {
  same_id = refl;
  same_headers = refl;
  same_size = refl;
  offset = e;
  front = refl;
}

after_measure :
    (start : ClientState) (written total : Bytes) (n : ℕ) (o : Outcome (ℕ × ClientState))
    (f : ℕ × ClientState → Outcome ClientState)
    → length written + n ≤ length total
    → Measures start written 0 n o
    → ((st : ClientState) → Written start written st → Writes start total (f (n % 2 ^ 32, st)))
    → Writes start total (o >>= f)
after_measure start written total n o f h (measured st e w) k =
    let same : (0 + n) % 2 ^ 32 ≡ n % 2 ^ 32 = omega arith in
    rw (e ∙ ap (λ x. ok (x, st)) same) (k st w)
after_measure start written total n o f h (too_long e l) k = overruns (rw e) (omega arith)

pub length-begin_request_bytes :
    (st : ClientState)
    → length (begin_request_bytes st) ≡ 32 + length (params_bytes st.request_headers)
length-begin_request_bytes st = omega (
  arith,
  length-append (params_bytes st.request_headers)
      (header_bytes (set_content_len 0 (create_header fcgi_params st.request_id))),
)

-- `createBeginRequest` writes a whole request behind an empty `pBuffInc`, or runs over the end of the
-- buffer, and that only if the request is longer than the buffer.
pub create_begin_request-Writes :
    (st : ClientState)
    → st.p_buff_inc ≡ 0
    → Writes st (begin_request_bytes st) (create_begin_request st)
unfolding create_begin_request
create_begin_request-Writes st e =
    let size = length-begin_request_bytes st in
    Writes-bind st (header_bytes (begin_header st)) total _ _ (omega (arith, size))
      (serialize_next-Writes st [] (header_bytes (begin_header st)) st (Written-start st e))
      λ st1 w1 _.
        Writes-bind st _ total _ _ (omega (arith, size))
          (serialize_next-Writes st _ begin_body st1 w1)
          λ st2 w2 _.
            after_measure st _ total _ _ _ (omega (arith, size))
              (measure_params-Measures st _ st.request_headers 0 st2 (omega arith) w2)
              λ st3 w3.
                Writes-bind st _ total _ _ (omega (arith, size))
                  (serialize_next-Writes st _ (header_bytes (set_content_len n header)) st3 w3)
                  λ st4 w4 h4.
                    Writes-bind st _ total _ _ (omega (arith, size))
                      (write_params-Writes st _ st.request_headers st4 w4 h4)
                      λ st5 w5 _.
                        serialize_next-Writes st _ (header_bytes (set_content_len 0 header)) st5 w5
  where
    total : Bytes
    total = begin_request_bytes st

    header : Header
    header = create_header fcgi_params st.request_id

    n : ℕ
    n = length (params_bytes st.request_headers) % 2 ^ 32

-- The bytes of one chunk of a request's body.
abbrev pub post_body_bytes : Bytes → ClientState → Bytes
post_body_bytes post_data st =
    let header = create_header fcgi_stdin st.request_id in
    (header_bytes (set_content_len (length post_data % 2 ^ 32) header) ++ post_data)
    ++ header_bytes (set_content_len 0 header)

-- `postBodyChunk` writes the chunk between two headers at the start of the buffer, or runs over its
-- end, and that only if they do not fit.
pub post_body_chunk-Writes :
    (post_data : Bytes) (st : ClientState)
    → Writes
        (record st { p_buff_inc = 0 })
        (post_body_bytes post_data st)
        (post_body_chunk post_data st)
unfolding post_body_chunk
post_body_chunk-Writes post_data st =
    Writes-bind start _ total _ _ (omega (arith, length-append post_data last))
      (serialize_next-Writes start [] first start (Written-start start refl))
      λ st1 w1 _.
        Writes-bind start _ total _ _ (omega (arith, length-append post_data last))
          (serialize_next-Writes start _ post_data st1 w1)
          λ st2 w2 _. serialize_next-Writes start _ last st2 w2
  where
    start : ClientState
    start = record st { p_buff_inc = 0 }

    first : Bytes
    first =
        header_bytes
          (set_content_len (length post_data % 2 ^ 32) (create_header fcgi_stdin st.request_id))

    last : Bytes
    last = header_bytes (set_content_len 0 (create_header fcgi_stdin st.request_id))

    total : Bytes
    total = post_body_bytes post_data st
