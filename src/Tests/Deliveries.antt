-- ===== src/Tests/Deliveries.antt =====
-- A server that reads a response.
use ats_fastcgi.Common.{◌≡◌, ◌++◌, refl, ◌∷◌, List, true, Bytes, ok, arith, to_uint, div_by}
use ats_fastcgi.StringMap.{less}
use ats_fastcgi.Connection.{ServerConnection}
use ats_fastcgi.Response.Stream.{outputs}
use ats_fastcgi.Intercept.{Environment, Works, new_intercept}
use ats_fastcgi.Server.{Server, new_server, connect, net_connected, find}
use ats_fastcgi.Server.Reachable.{Reachable, start, step, connects, comes_up}
use ats_fastcgi.Server.Events.{read_ready, complete_response}
use ats_fastcgi.Server.Delivering.{read_all, produced, read_ready-delivers}
use ats_fastcgi.Tests.Given.{result, connection_of, request_of, given, get_pages-Works}
use ats_fastcgi.Tests.Responses.{
  zeros, length-zeros, plain, reply, reply-IsResponse, events, events-AllEventsLong,
}

-- Blocks have the size that is asked for, and headers are read as they are.
abbrev reading : Environment
reading = record given { ts_malloc = zeros; mime = plain }

reading-Works : Works reading
reading-Works = get_pages-Works reading refl refl refl refl (λ i. refl)

abbrev fresh_server : Server
fresh_server = new_server reading (λ i. new_intercept 0)

abbrev one_request : Server
one_request = result fresh_server (connect 50 fresh_server)

abbrev one_connected : Server
one_connected = result fresh_server (net_connected 1 one_request)

one_connected-Reachable : Reachable one_connected
unfolding to_uint div_by connect net_connected less
one_connected-Reachable =
    step
      (step (start reading (λ i. new_intercept 0) reading-Works) (omega arith) (connects 50 refl))
      (omega arith) (comes_up 1 (1, refl) refl)

abbrev connection : ServerConnection
connection = connection_of (one_connected.heap.cell 1)

read_ready-delivers_example :
    (before after : List (List Bytes)) × (blocks : List Bytes) × (s1 s2 s' : Server) × (events
      ≡ before ++ blocks ∷ after)
    × (read_all before 1 one_connected ≡ ok s1)
    × (read_ready blocks 1 s1 ≡ complete_response 50 1 s2)
    × (produced 50 s2.effects ≡ produced 50 one_connected.effects ++ outputs plain true reply)
    × (complete_response 50 1 s2 ≡ ok s')
unfolding to_uint div_by less find connect net_connected
read_ready-delivers_example =
    read_ready-delivers one_connected 50 1 1 3 connection (request_of connection.fcgi_request)
      events reply one_connected-Reachable (omega arith) length-zeros (refl, refl, refl, refl) refl
      reply-IsResponse events-AllEventsLong refl
