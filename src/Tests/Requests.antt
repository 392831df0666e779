-- ===== src/Tests/Requests.antt =====
-- Requests with one header, and bodies.
use ats_fastcgi.Common.{
  ℕ, zero, suc, ◌^◌, ◌≡◌, refl, ap, List, [], ◌∷◌, ◌++◌, Bytes, length, some, ok, fault, codes,
  arith, ◌≢◌, ◌%◌,
}
use ats_fastcgi.StringMap.{StringMap}
use ats_fastcgi.Record.{content_len}
use ats_fastcgi.Record.Message.{Message}
use ats_fastcgi.Response.Stream.{encode_all}
use ats_fastcgi.Request.{
  ClientState, create_begin_request, post_body_chunk, add_client_request, name_value_bytes,
  length_bytes,
}
use ats_fastcgi.Request.Bounds.{params_bytes}
use ats_fastcgi.Request.Frames.{
  request_messages, AllMessages, message, create_begin_request-records, create_begin_request-fault,
}
use ats_fastcgi.Request.Bodies.{
  post_messages, body_read, post_body_chunk-records, post_body_chunk-fault, post_body_chunk_wraps,
  post_body_chunks_cut,
}
use ats_fastcgi.Request.NameValue.{read_params, read_params-params_bytes}
use ats_fastcgi.Queue.{RequestQueue, get_size}
use ats_fastcgi.Queue.Laws.{add, pop, Fifo, run-Fifo}

abbrev zeros : ℕ → Bytes
zeros zero = []
zeros (suc n) = 0 ∷ zeros n

abbrev headers : StringMap
headers = (codes "FCGI_ROLE", codes "RESPONDER") ∷ []

abbrev client : ℕ → ClientState
client size = record {
  request_id = 7;
  request_headers = headers;
  buff = zeros size;
  p_buff_inc = 0;
}

create_begin_request-records_example :
    (st : ClientState) × (create_begin_request (client 64) ≡ ok st)
    × (add_client_request st ≡ encode_all (request_messages (client 64)))
    × AllMessages (request_messages (client 64))
unfolding name_value_bytes length_bytes
create_begin_request-records_example =
    create_begin_request-records (client 64) refl (omega arith) (omega arith)

create_begin_request-fault_example : create_begin_request (client 40) ≡ fault
unfolding name_value_bytes length_bytes
create_begin_request-fault_example = create_begin_request-fault (client 40) refl (omega arith)

read_params-params_bytes_example : read_params 1 (params_bytes headers) ≡ some headers
read_params-params_bytes_example = read_params-params_bytes headers ((omega arith, omega arith), tt)

post_body_chunk-records_example :
    (st : ClientState) × (post_body_chunk (codes "a=1") (client 32) ≡ ok st)
    × (add_client_request st ≡ encode_all (post_messages (codes "a=1") (client 32)))
    × AllMessages (post_messages (codes "a=1") (client 32))
post_body_chunk-records_example =
    post_body_chunk-records (codes "a=1") (client 32) (omega arith) (omega arith)

post_body_chunk-fault_example : post_body_chunk (codes "a=1") (client 16) ≡ fault
post_body_chunk-fault_example = post_body_chunk-fault (codes "a=1") (client 16) (omega arith)

length-zeros : (n : ℕ) → length (zeros n) ≡ n
length-zeros zero = refl
length-zeros (suc n) = ap suc (length-zeros n)

post_body_chunk_wraps_example :
    (st : ClientState) × (post_body_chunk (zeros 65536) (client 65552) ≡ ok st)
    × (add_client_request st ≡ encode_all (post_messages (zeros 65536) (client 65552)))
    × (content_len (message 5 7 (zeros 65536)).header ≡ length (zeros 65536) % 2 ^ 16)
    × (content_len (message 5 7 (zeros 65536)).header ≢ length (zeros 65536))
post_body_chunk_wraps_example =
    post_body_chunk_wraps (zeros 65536) (client 65552) (omega (arith, length-zeros 65536))
      (omega (arith, length-zeros 65536, length-zeros 65552))

post_body_chunks_cut_example :
    (st1 st2 : ClientState) × (ms : List Message) × (post_body_chunk (codes "a=1") (client 32)
      ≡ ok st1)
    × (post_body_chunk (codes "b=2") st1 ≡ ok st2)
    × (add_client_request st1 ++ add_client_request st2 ≡ encode_all ms)
    × AllMessages ms
    × (body_read ms ≡ codes "a=1")
post_body_chunks_cut_example =
    post_body_chunks_cut b'a' (codes "=1") (codes "b=2") (client 32) (omega arith) (omega arith)
      (omega arith)

abbrev waiting_one : RequestQueue
waiting_one = record { max_queue_size = 2; pending_list = 5 ∷ [] }

run-Fifo_example : Fifo (add 6 ∷ add 7 ∷ pop ∷ add 8 ∷ []) waiting_one
unfolding get_size
run-Fifo_example = run-Fifo (add 6 ∷ add 7 ∷ pop ∷ add 8 ∷ []) waiting_one (omega arith)
