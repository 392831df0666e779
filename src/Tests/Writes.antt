-- ===== src/Tests/Writes.antt =====
-- A request whose connection has come up is written.
use ats_fastcgi.Common.{
  ℕ, ◌≡◌, ◌++◌, refl, true, false, Bytes, ok, length, arith, codes, to_uint, div_by,
}
use ats_fastcgi.Connection.{ServerConnection, FcgiRequest}
use ats_fastcgi.Request.{name_value_bytes, length_bytes}
use ats_fastcgi.Request.Frames.{request_messages, AllMessages}
use ats_fastcgi.Request.Bodies.{post_messages}
use ats_fastcgi.Response.Stream.{encode_all}
use ats_fastcgi.Intercept.{new_intercept}
use ats_fastcgi.StringMap.{less}
use ats_fastcgi.Tests.Given.{result, connection_of, request_of, given}
use ats_fastcgi.Server.{Server, new_server, connect, net_connected, find}
use ats_fastcgi.Server.Writing.{Answers, write_request_header, write_request_body}
use ats_fastcgi.Server.Sent.{sending, write_request_header-sends, write_request_body-sends}

abbrev empty_server : Server
empty_server = new_server given (λ i. new_intercept 0)

abbrev connected_server : Server
connected_server =
    result empty_server (net_connected 1 (result empty_server (connect 50 empty_server)))

abbrev connection : ServerConnection
connection = connection_of (connected_server.heap.cell 1)

abbrev request : FcgiRequest
request = request_of connection.fcgi_request

abbrev all_taken : ℕ → Answers
all_taken n = record { vc_closed = false; has_vio = true; num_bytes_written = n }

abbrev sent_header : Bytes
sent_header = encode_all (request_messages request.client)

write_request_header-sends_example :
    (s' : Server) × (write_request_header (all_taken (length sent_header)) 1 connected_server
      ≡ ok (true, s'))
    × (s'.effects ≡ connected_server.effects ++ sending 1 false sent_header)
    × AllMessages (request_messages request.client)
unfolding to_uint div_by less find connect net_connected name_value_bytes length_bytes
write_request_header-sends_example =
    write_request_header-sends (all_taken (length sent_header)) 1 50 1 connection request
      connected_server refl refl refl refl (omega arith) (omega arith)
      (record { not_closed = refl; has_vio_eq = refl; all_written = refl; channel = λ e. cc })

abbrev sent_body : Bytes
sent_body = encode_all (post_messages (codes "a=1") request.client)

write_request_body-sends_example :
    (s' : Server) × (write_request_body
        (all_taken (length sent_body))
        1
        (codes "a=1")
        connected_server
      ≡ ok (true, s'))
    × (s'.effects ≡ connected_server.effects ++ sending 1 false sent_body)
    × AllMessages (post_messages (codes "a=1") request.client)
unfolding to_uint div_by less find connect net_connected
write_request_body-sends_example =
    write_request_body-sends (all_taken (length sent_body)) 1 50 1 (codes "a=1") connection request
      connected_server refl refl refl (omega arith) (omega arith)
      (record { not_closed = refl; has_vio_eq = refl; all_written = refl; channel = λ e. cc })
