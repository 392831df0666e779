-- ===== src/Queue.antt =====
-- src/request_queue.cc: the requests of one thread that wait for a connection. An intercept is its
-- pointer, as a number.
pub mod Laws
use ats_fastcgi.Common.{
  ℕ, Bool, List, [], ◌∷◌, ◌++◌, Option, none, some, leb, not, if◌then◌else◌, length, true, false, ℤ,
  to_uint,
}

pub record RequestQueue : Type 0 where
  pub max_queue_size : ℕ
  pub pending_list : List ℕ

-- `RequestQueue()`, with the configured size
abbrev pub new_queue : ℤ → RequestQueue
new_queue size = record { max_queue_size = to_uint size; pending_list = [] }

-- `isQueueFull`
unfoldable pub is_queue_full : RequestQueue → Bool
is_queue_full q = leb q.max_queue_size (length q.pending_list)

abbrev is_empty : List ℕ → Bool
is_empty [] = true
is_empty (i ∷ is) = false

-- `getSize`
unfoldable pub get_size : RequestQueue → ℕ
get_size q = length q.pending_list

-- `isQueueEmpty`
unfoldable pub is_queue_empty : RequestQueue → Bool
is_queue_empty q = is_empty q.pending_list

-- `addToQueue`: a full queue takes nothing, and the result is 1 all the same.
unfoldable pub add_to_queue : ℕ → RequestQueue → RequestQueue × ℕ
unfolding is_queue_full
add_to_queue intercept q = (
  if not (is_queue_full q)
      then record q { pending_list = q.pending_list ++ (intercept ∷ []) }
      else q,
  1,
)

pop_front : List ℕ → RequestQueue → Option ℕ × RequestQueue
pop_front [] q = (none, q)
pop_front (i ∷ is) q = (some i, record q { pending_list = is })

-- `popFromQueue`
unfoldable pub pop_from_queue : RequestQueue → Option ℕ × RequestQueue
unfolding pop_front
pop_from_queue q = pop_front q.pending_list q
