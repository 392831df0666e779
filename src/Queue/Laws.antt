-- ===== src/Queue/Laws.antt =====
-- The queue is first in, first out, never longer than its limit, and a full queue drops a request.
use ats_fastcgi.Common.{
  suc, subst, sym, append-nil, append_assoc, ◌⊎◌, inl, inr, le-or-lt, le→leb, lt→leb, ◌-◌, ap, ◌∙◌,
  ℕ, ◌+◌, ◌≤◌, ◌<◌, ◌≡◌, refl, false, List, [], ◌∷◌, ◌++◌, none, some, leb, not, if◌then◌else◌,
  length, length-append, arith,
}
use ats_fastcgi.Queue.{RequestQueue, get_size, add_to_queue, pop_from_queue}

abbrev pub IsBounded : RequestQueue → Type 0
IsBounded q = get_size q ≤ q.max_queue_size

-- A queue with room takes a request at its end; a full one drops it. The result is 1 either way.
pub add_to_queue_lem :
    (i : ℕ) (q : RequestQueue)
    → ((get_size q < q.max_queue_size)
        × ((add_to_queue i q).0.pending_list ≡ q.pending_list ++ (i ∷ []))
        × ((add_to_queue i q).1 ≡ 1))
      ⊎ ((q.max_queue_size ≤ get_size q) × (add_to_queue i q ≡ (q, 1)))
unfolding add_to_queue get_size
add_to_queue_lem i q = elim (le-or-lt q.max_queue_size (length q.pending_list)) [
  | inl h ↦ inr (h, rw (le→leb _ _ h))
  | inr h ↦ inl (h, rw (lt→leb _ _ h), refl)
]

-- The requests that a list of calls offers, and how many calls take one out.
pub data Op : Type 0 where
  add : ℕ → Op
  pop : Op

-- The requests that come out, in order, and the queue at the end.
unfoldable pub run : List Op → RequestQueue → List ℕ × RequestQueue
run [] q = ([], q)
run (add i ∷ ops) q = run ops (add_to_queue i q).0
run (pop ∷ ops) q =
    let (out, q') = pop_from_queue q in
    let (outs, last) = run ops q' in (elim out [ none ↦ outs | some i ↦ i ∷ outs ], last)

-- The requests that were taken in, in order: those offered while there was room.
unfoldable pub accepted : List Op → ℕ → ℕ → List ℕ
accepted [] size max = []
accepted (add i ∷ ops) size max =
    if leb max size then accepted ops size max else i ∷ accepted ops (size + 1) max
accepted (pop ∷ ops) size max = accepted ops (size - 1) max

abbrev FifoOf : List ℕ × RequestQueue → List ℕ → ℕ → Type 0
FifoOf r taken max =
    (r.0 ++ r.1.pending_list ≡ taken) × (get_size r.1 ≤ max) × (r.1.max_queue_size ≡ max)

abbrev pub Fifo : List Op → RequestQueue → Type 0
Fifo ops q =
    FifoOf (run ops q) (q.pending_list ++ accepted ops (get_size q) q.max_queue_size)
      q.max_queue_size

room_step :
    (i : ℕ) (ops : List Op) (q : RequestQueue)
    → Fifo ops (record q { pending_list = q.pending_list ++ (i ∷ []) })
    → get_size q < q.max_queue_size
    → Fifo (add i ∷ ops) q
unfolding run accepted get_size add_to_queue
room_step i ops q f h =
    let full : leb q.max_queue_size (length q.pending_list) ≡ false = lt→leb _ _ h in
    let size : length (q.pending_list ++ (i ∷ [])) ≡ length q.pending_list + 1 =
      omega (arith, length-append q.pending_list (i ∷ [])) in
    let taken : (q.pending_list ++ (i ∷ []))
          ++ accepted ops (length (q.pending_list ++ (i ∷ []))) q.max_queue_size
        ≡ q.pending_list ++ (i ∷ accepted ops (length q.pending_list + 1) q.max_queue_size) =
      ap (λ n. (q.pending_list ++ (i ∷ [])) ++ accepted ops n q.max_queue_size) size
      ∙ append_assoc q.pending_list (i ∷ [])
          (accepted ops (length q.pending_list + 1) q.max_queue_size) in
    subst
      (λ b.
        FifoOf
          (run ops (if not b then record q { pending_list = q.pending_list ++ (i ∷ []) } else q))
          (q.pending_list
            ++ (if b
                then accepted ops (length q.pending_list) q.max_queue_size
                else i ∷ accepted ops (length q.pending_list + 1) q.max_queue_size))
          q.max_queue_size)
      (sym full) (f.0 ∙ taken, f.1, f.2)

full_step :
    (i : ℕ) (ops : List Op) (q : RequestQueue)
    → Fifo ops q
    → q.max_queue_size ≤ get_size q
    → Fifo (add i ∷ ops) q
unfolding run accepted get_size add_to_queue
full_step i ops q f h =
    subst
      (λ b.
        FifoOf
          (run ops (if not b then record q { pending_list = q.pending_list ++ (i ∷ []) } else q))
          (q.pending_list
            ++ (if b
                then accepted ops (length q.pending_list) q.max_queue_size
                else i ∷ accepted ops (length q.pending_list + 1) q.max_queue_size))
          q.max_queue_size)
      (sym (le→leb _ _ h)) f

abbrev queue_of : ℕ → List ℕ → RequestQueue
queue_of max pending = record { max_queue_size = max; pending_list = pending }

pop_step :
    (ops : List Op) (max : ℕ) (pending : List ℕ)
    → Fifo ops (pop_from_queue (queue_of max pending)).1
    → Fifo (pop ∷ ops) (queue_of max pending)
unfolding run accepted get_size pop_from_queue
pop_step ops max [] f = f
pop_step ops max (i ∷ pending) f =
    let size : suc (length pending) - 1 ≡ length pending = omega arith in
    (ap (◌∷◌ i) f.0 ∙ ap (λ n. i ∷ (pending ++ accepted ops n max)) (sym size), f.1, f.2)

pop_bounded :
    (max : ℕ) (pending : List ℕ)
    → length pending ≤ max
    → get_size (pop_from_queue (queue_of max pending)).1
      ≤ (pop_from_queue (queue_of max pending)).1.max_queue_size
unfolding pop_from_queue get_size
pop_bounded max [] h = h
pop_bounded max (i ∷ pending) h = omega arith

-- First in, first out: whatever calls are made on a queue within its limit, what came out and what is
-- still in it are, in order, what was in it and then the requests that were offered while it had
-- room; and the queue stays within its limit, which does not change.
pub run-Fifo : (ops : List Op) (q : RequestQueue) → get_size q ≤ q.max_queue_size → Fifo ops q
unfolding get_size
run-Fifo [] q h = unfold run accepted in (sym (append-nil q.pending_list), h, refl)
run-Fifo (add i ∷ ops) q h = elim (le-or-lt q.max_queue_size (length q.pending_list)) [
  | inl full ↦ full_step i ops q (run-Fifo ops q h) full
  | inr room ↦
      room_step i ops q
        (run-Fifo ops (record q { pending_list = q.pending_list ++ (i ∷ []) })
          (omega (arith, length-append q.pending_list (i ∷ []))))
        room
]
run-Fifo (pop ∷ ops) q h =
    pop_step ops q.max_queue_size q.pending_list
      (run-Fifo ops (pop_from_queue q).1 (pop_bounded q.max_queue_size q.pending_list h))
