-- ===== src/Plugin/Thread.antt =====
-- src/server.cc: `ThreadData` and `setupThreadLocalStorage`. A key of the thread's storage is a number,
-- and what the `pthread` functions answer is given.
use ats_fastcgi.Common.{
  ℕ, Bool, true, false, List, [], ◌∷◌, Option, none, some, ◌==◌, if◌then◌else◌,
}
use ats_fastcgi.Config.Settings.{FcgiPluginConfig}
use ats_fastcgi.Config.Access.{get_max_conn_length, get_request_queue_size}
use ats_fastcgi.Pool.{ConnectionPool, new_pool}
use ats_fastcgi.Queue.{RequestQueue, new_queue}
use ats_fastcgi.Server.{Server}

pub record ThreadData : Type 0 where
  pub connection_pool : ConnectionPool
  pub pending_req_queue : RequestQueue

-- `ThreadData(…)`
abbrev pub new_thread_data : FcgiPluginConfig → ThreadData
new_thread_data config = record {
  connection_pool = new_pool (get_max_conn_length config);
  pending_req_queue = new_queue (get_request_queue_size config);
}

-- A thread: its `threadKey`, the values of its keys, and the server, whose pool and queue are those
-- of the value that was used last.
pub record Thread : Type 0 where
  pub thread_key : ℕ
  pub specific : ℕ → Option ThreadData
  pub server : Server

-- `pthread_setspecific`, where it succeeds
abbrev pub set_specific : ℕ → Option ThreadData → Thread → Thread
set_specific k v t = record t { specific = λ j. if k == j then v else t.specific j }

-- What the system answers to one attempt: a new key, if there is one, and whether its value can be set
pub record KeyAnswer : Type 0 where
  pub key : Option ℕ
  pub can_set : Bool

-- The thread has no data under its new key, as a new key's value is null; if it cannot be set, the key
-- is deleted.
unfoldable pub add_data : Option ThreadData → Bool → Thread → Bool × Thread
add_data (some d) can_set t = (true, t)
add_data none true t =
    (true, set_specific t.thread_key (some (new_thread_data t.server.env.config)) t)
add_data none false t = (false, record t { thread_key = 0 })

-- `pthread_key_create` gives the key, with a null value in each thread.
abbrev pub create_key : ℕ → Thread → Thread
create_key k t = set_specific k none (record t { thread_key = k })

-- By what `pthread_key_create` gives
unfoldable pub with_key : Option ℕ → Bool → Thread → Bool × Thread
unfolding add_data
with_key none can_set t = (false, t)
with_key (some k) can_set t = add_data ((create_key k t).specific k) can_set (create_key k t)

-- `setupThreadLocalStorage`
unfoldable pub setup_thread_local_storage : KeyAnswer → Thread → Bool × Thread
unfolding with_key
setup_thread_local_storage answer t = with_key answer.key answer.can_set t

-- `while (!gServer->setupThreadLocalStorage());` with the answers to its rounds: none, if the loop
-- still runs after them.
unfoldable pub set_up : List KeyAnswer → Thread → Option Thread
unfolding setup_thread_local_storage
set_up [] t = none
set_up (answer ∷ answers) t =
    let (done, t') = setup_thread_local_storage answer t in
    let again = set_up answers t' in if done then some t' else again

-- The server with the data of the thread that runs.
abbrev pub with_data : ThreadData → Server → Server
with_data d s = record s { pool = d.connection_pool; queue = d.pending_req_queue }

-- What a call makes of the server is kept, with the thread's data.
abbrev pub keep : Server → Thread → Thread
keep s t =
    set_specific t.thread_key
      (some (record { connection_pool = s.pool; pending_req_queue = s.queue }))
      (record t { server = s })
