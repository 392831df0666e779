-- ===== src/Connection/Heap.antt =====
-- The heap of connections: allocation, access through a pointer, and deletion.
use ats_fastcgi.Common.{
  ℕ, ◌+◌, Option, none, some, ◌==◌, if◌then◌else◌, Outcome, ok, fault, ◌≡◌, refl,
}
use ats_fastcgi.Connection.{ServerConnection, new_connection}

-- Every pointer from `next` on is unused.
pub record Heap : Type 0 where
  pub cell : ℕ → Option ServerConnection
  pub next : ℕ

unfoldable pub put : ℕ → Option ServerConnection → Heap → Heap
put p v h = record h { cell = λ q. if p == q then v else h.cell q }

-- `p->…`, read: a fault on freed memory.
abbrev pub or_fault : Option ServerConnection → Outcome ServerConnection
or_fault none = fault
or_fault (some c) = ok c

unfoldable pub load : ℕ → Heap → Outcome ServerConnection
load p h = or_fault (h.cell p)

-- `new ServerConnection(…)`
unfoldable pub alloc : ℕ → Heap → Heap
unfolding put
alloc max_requests h = record (put h.next (some (new_connection max_requests)) h) {
  next = h.next + 1;
}

pub cell-put :
    (p q : ℕ) (v : Option ServerConnection) (h : Heap)
    → (put p v h).cell q ≡ (if p == q then v else h.cell q)
unfolding put
cell-put p q v h = refl
