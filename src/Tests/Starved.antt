-- ===== src/Tests/Starved.antt =====
-- A server whose configuration allows five connections.
use ats_fastcgi.Common.{ℕ, ◌≡◌, refl, none, ok, pos, arith, to_uint, div_by}
use ats_fastcgi.Intercept.{Environment, Works, new_intercept}
use ats_fastcgi.Queue.{add_to_queue}
use ats_fastcgi.Server.{Server, new_server, connect, find}
use ats_fastcgi.Server.Reachable.{Reachable, start, step, connects}
use ats_fastcgi.Server.Starving.{connect-starves}
use ats_fastcgi.Tests.Given.{result, given, given_config, get_pages-Works}

abbrev narrow : Environment
narrow = record given { config = record given_config { max_connections = pos 5 } }

narrow-Works : Works narrow
narrow-Works = get_pages-Works narrow refl refl refl refl (λ i. refl)

abbrev fresh_server : Server
fresh_server = new_server narrow (λ i. new_intercept 0)

abbrev one_queued : Server
one_queued = result fresh_server (connect 50 fresh_server)

one_queued-Reachable : Reachable one_queued
unfolding to_uint div_by connect
one_queued-Reachable =
    step (start narrow (λ i. new_intercept 0) narrow-Works) (omega arith) (connects 50 refl)

connect-starves_example :
    ((k : ℕ) → find k one_queued.intercept_list ≡ none)
    × ((i : ℕ)
        → connect i one_queued
          ≡ ok (record one_queued { queue = (add_to_queue i one_queued.queue).0 }))
unfolding to_uint div_by connect
connect-starves_example = connect-starves one_queued 5 one_queued-Reachable refl (omega arith)
