-- ===== src/Queue.antt =====
-- src/queue.h: the queue between the threads, a linked list with a sentinel. Here the operations run
-- one after the other.
pub mod Fifo
pub mod Threads
use hype.Base.{
  ℕ, zero, suc, List, [], ◌∷◌, Option, none, some, Bool, true, false, ◌==◌, ◌&&◌, ◌>>=◌,
  if◌then◌else◌,
}

-- Nodes are addresses, and `next` is their member in memory, with `none` for NULL. The member `node` of
-- the queue is the sentinel.
pub record Queue : Type 0 where
  pub next : ℕ → Option ℕ
  pub sentinel : ℕ
  pub p : ℕ

abbrev pub is_null : Option ℕ → Bool
is_null none = true
is_null (some n) = false

-- The memory with one `next` set.
unfoldable pub put : (ℕ → Option ℕ) → ℕ → Option ℕ → ℕ → Option ℕ
put next node to n = if n == node then to else next n

unfoldable pub queue_node_init : Queue → ℕ → Queue
queue_node_init q node = record q { next = put q.next node none }

unfoldable pub queue_init : Queue → Queue
queue_init q = record (queue_node_init q q.sentinel) { p = q.sentinel }

unfoldable pub queue_empty : Queue → Bool
queue_empty q = is_null (q.next q.sentinel) && (q.p == q.sentinel)

-- The exchange of the tail, and the link from the old one.
unfoldable pub queue_enqueue : Queue → ℕ → Queue × Bool
queue_enqueue q node =
    let old_tail = q.p in
    (
      record q { next = put q.next old_tail (some node); p = node },
      if old_tail == q.sentinel then false else true,
    )

-- `queue_node_next` waits on NULL, and without another thread it waits for ever.
pub data Dequeued : Type 0 where
  hangs : Dequeued
  dequeued : Queue → Option ℕ → Dequeued

-- `q->node.next = next`, and the node.
abbrev pub unlink : Queue → ℕ → Option ℕ → Dequeued
unlink q node none = hangs
unlink q node (some next) =
    dequeued (record q { next = put q.next q.sentinel (some next) }) (some node)

-- `node` is the last one: the sentinel takes its place, unless the tail has moved on.
unfoldable pub dequeue_last : Queue → ℕ → Dequeued
dequeue_last q node =
    let q' = queue_node_init q q.sentinel in
    if q'.p == node
    then dequeued (record q' { p = q.sentinel }) (some node)
    else unlink q' node (q'.next node)

unfoldable pub queue_dequeue : Queue → Dequeued
queue_dequeue q = if queue_empty q then dequeued q none else elim (q.next q.sentinel) [
  | none ↦ hangs
  | some node ↦ elim (q.next node) [
    | none ↦ dequeue_last q node
    | some next ↦ unlink q node (some next)
  ]
]
