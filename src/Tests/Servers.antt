-- ===== src/Tests/Servers.antt =====
-- A server with room for two connections, after three requests, of which the third waits in the queue;
-- and then the connection of the first is there.
use ats_fastcgi.Common.{
  ℕ, ◌≤◌, ◌≡◌, ◌≢◌, refl, some, Bool, ok, fault, length, arith, to_uint, div_by,
}
use ats_fastcgi.StringMap.{less}
use ats_fastcgi.Pool.{connection_closed}
use ats_fastcgi.Config.Access.{get_max_conn_length}
use ats_fastcgi.Intercept.{new_intercept}
use ats_fastcgi.Tests.Given.{result, connection_of, given, given-Works}
use ats_fastcgi.Server.{
  net_connected, Server, new_server, find, close_connection, connect, re_connect, remove_intercept,
}
use ats_fastcgi.Server.Events.{
  net_connect_failed, destroy_intercept, write_ready, write_complete, eos, error,
}
use ats_fastcgi.Server.Handling.{IsLive}
use ats_fastcgi.Connection.{ServerConnection}
use ats_fastcgi.Server.Retries.{IsRetried, net_connect_failed-IsRetried, eos-IsRetried}
use ats_fastcgi.Server.Lists.{count}
use ats_fastcgi.Server.Owners.{owner_in}
use ats_fastcgi.Server.Reachable.{
  Reachable, start, step, connects, comes_up, Reachable-exclusive, Reachable-ne-fault,
}

abbrev fresh_server : Server
fresh_server = new_server given (λ i. new_intercept 0)

abbrev one_request : Server
one_request = result fresh_server (connect 50 fresh_server)

abbrev two_requests : Server
two_requests = result fresh_server (connect 51 one_request)

abbrev one_waiting : Server
one_waiting = result fresh_server (connect 52 two_requests)

abbrev one_connected : Server
one_connected = result fresh_server (net_connected 1 one_waiting)

one_waiting-Reachable : Reachable one_waiting
unfolding to_uint div_by connect
one_waiting-Reachable =
    step
      (step (step (start given (λ i. new_intercept 0) given-Works) (omega arith) (connects 50 refl))
        (omega arith) (connects 51 refl))
      (omega arith) (connects 52 refl)

one_connected-Reachable : Reachable one_connected
unfolding to_uint div_by connect net_connected less
one_connected-Reachable = step one_waiting-Reachable (omega arith) (comes_up 1 (1, refl) refl)

Reachable-exclusive_example :
    (one_connected.pool.max_conn
      ≡ to_uint (div_by (get_max_conn_length one_connected.env.config) 6))
    × (length one_connected.pool.connections ≤ one_connected.pool.max_conn)
    × ((k i c : ℕ)
        → find k one_connected.intercept_list ≡ some (i, c)
        → (owner_in one_connected.heap c ≡ some k)
          × (count c one_connected.pool.available_connections ≡ 0)
          × ((j i' : ℕ) → find j one_connected.intercept_list ≡ some (i', c) → j ≡ k))
Reachable-exclusive_example = Reachable-exclusive one_connected one_connected-Reachable

Reachable-ne-fault_example :
    ((i : ℕ) → connect i one_connected ≢ fault)
    × ((k : ℕ) → re_connect k one_connected ≢ fault)
    × ((k : ℕ) → remove_intercept k one_connected ≢ fault)
    × ((i : ℕ) → destroy_intercept i one_connected ≢ fault)
    × ((c : ℕ)
        → IsLive c one_connected
        → (net_connected c one_connected ≢ fault)
          × (net_connect_failed c one_connected ≢ fault)
          × ((b : Bool) → write_ready b c one_connected ≢ fault)
          × ((b : Bool) → write_complete b c one_connected ≢ fault)
          × (eos c one_connected ≢ fault)
          × (error c one_connected ≢ fault)
          × (close_connection c one_connected ≢ fault))
unfolding to_uint div_by find less connect net_connected net_connect_failed connection_closed
Reachable-ne-fault_example = Reachable-ne-fault one_connected one_connected-Reachable (omega arith)

net_connect_failed-IsRetried_example :
    (s' : Server) × (net_connect_failed 2 one_waiting ≡ ok s')
    × IsRetried 51 2 2 one_waiting.next_id one_waiting.queue s'
unfolding to_uint div_by find less connect net_connected net_connect_failed connection_closed
net_connect_failed-IsRetried_example =
    net_connect_failed-IsRetried one_waiting 51 2 2 one_waiting-Reachable (omega arith) refl

-- The connection of the first request, which is not written yet.
abbrev first_connection : ServerConnection
first_connection = connection_of (one_waiting.heap.cell 1)

eos-IsRetried_example :
    (s' : Server) × (eos 1 one_waiting ≡ ok s')
    × IsRetried 50 1 1 one_waiting.next_id one_waiting.queue s'
unfolding to_uint div_by find less connect net_connected net_connect_failed connection_closed
eos-IsRetried_example =
    eos-IsRetried one_waiting 50 1 1 first_connection one_waiting-Reachable (omega arith) refl refl
      refl
