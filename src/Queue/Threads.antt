-- ===== src/Queue/Threads.antt =====
-- src/queue.h between threads: any number of them enqueue, and one dequeues. Each step is one access to
-- the memory that they share, and the accesses come in one order, that of a history.
pub mod Chain
pub mod Inv
pub mod Enqueue
pub mod Dequeue
pub mod Order
use hype.Base.{ℕ, List, [], ◌∷◌, ◌++◌, Option, none, some, ◌≡◌, ◌≢◌, All, ◌==◌, if◌then◌else◌}
use hype.Queue.{Queue, put, is_null, queue_init, queue_node_init}

-- Where the dequeuing thread is in `queue_dequeue`: about to read the sentinel's `next`, about to read
-- the tail, waiting for the first node, about to read a node's `next`, about to clear the sentinel's
-- `next`, about to compare and exchange the tail, waiting for a node's `next`, about to unlink.
pub data Consumer : Type 0 where
  idle testing heading : Consumer
  peeking clearing trying awaiting : ℕ → Consumer
  moving : ℕ → ℕ → Consumer

-- The memory and the place after a step, and what `queue_dequeue` returns, if it does.
pub record Taken : Type 0 where
  pub mem : Queue
  pub consumer : Consumer
  pub answer : Option (Option ℕ)

abbrev pub goes_on : Queue → Consumer → Taken
goes_on q c = record { mem = q; consumer = c; answer = none }

abbrev pub returns : Queue → Option ℕ → Taken
returns q r = record { mem = q; consumer = idle; answer = some r }

unfoldable pub dequeue_step : Queue → Consumer → Taken
dequeue_step q idle = goes_on q (if is_null (q.next q.sentinel) then testing else heading)
dequeue_step q testing = if q.p == q.sentinel then returns q none else goes_on q heading
dequeue_step q heading = elim (q.next q.sentinel) [
  | none ↦ goes_on q heading
  | some n ↦ goes_on q (peeking n)
]
dequeue_step q (peeking n) = elim (q.next n) [
  | none ↦ goes_on q (clearing n)
  | some m ↦ goes_on q (moving n m)
]
dequeue_step q (clearing n) = goes_on (queue_node_init q q.sentinel) (trying n)
dequeue_step q (trying n) =
    if q.p == n then returns (record q { p = q.sentinel }) (some n) else goes_on q (awaiting n)
dequeue_step q (awaiting n) = elim (q.next n) [
  | none ↦ goes_on q (awaiting n)
  | some m ↦ goes_on q (moving n m)
]
dequeue_step q (moving n m) = returns (record q { next = put q.next q.sentinel (some m) }) (some n)

-- `thread t` is `some (old_tail, node)` between the exchange and the store of `queue_enqueue` of thread
-- `t`. The nodes that entered the queue, in the order of the exchanges, and those that were returned.
pub record System : Type 0 where
  pub mem : Queue
  pub thread : ℕ → Option (ℕ × ℕ)
  pub consumer : Consumer
  pub entered : List ℕ
  pub left : List ℕ

unfoldable pub set_thread : (ℕ → Option (ℕ × ℕ)) → ℕ → Option (ℕ × ℕ) → ℕ → Option (ℕ × ℕ)
set_thread thread t v u = if u == t then v else thread u

-- `uatomic_xchg(&q->p, node)`
unfoldable pub exchange : System → ℕ → ℕ → System
exchange s t node = record s {
  mem = record s.mem { p = node };
  thread = set_thread s.thread t (some (s.mem.p, node));
  entered = s.entered ++ (node ∷ []);
}

-- `CMM_STORE_SHARED(old_tail->next, node)`
unfoldable pub link : System → ℕ → ℕ → ℕ → System
link s t old_tail node = record s {
  mem = record s.mem { next = put s.mem.next old_tail (some node) };
  thread = set_thread s.thread t none;
}

abbrev pub with_answer : List ℕ → Option (Option ℕ) → List ℕ
with_answer left none = left
with_answer left (some none) = left
with_answer left (some (some n)) = left ++ (n ∷ [])

unfoldable pub consume : System → System
consume s =
    let taken = dequeue_step s.mem s.consumer in
    record s { mem = taken.mem; consumer = taken.consumer; left = with_answer s.left taken.answer }

-- A thread enqueues only a node whose `next` is NULL, as `pkt_new` makes it, and that was not enqueued
-- before.
pub data Step (s : System) : System → Type 0 where
  exchanges :
      (t node : ℕ)
      → s.thread t ≡ none
      → s.mem.next node ≡ none
      → node ≢ s.mem.sentinel
      → All (λ m. m ≢ node) s.entered
      → Step s (exchange s t node)
  links :
      (t old_tail node : ℕ) → s.thread t ≡ some (old_tail, node) → Step s (link s t old_tail node)
  consumes : Step s (consume s)

-- From `queue_init` on.
unfoldable pub start : Queue → System
start q = record {
  mem = queue_init q;
  thread = λ t. none;
  consumer = idle;
  entered = [];
  left = [];
}

pub data Reach (q : Queue) : System → Type 0 where
  starts : Reach q (start q)
  goes : (s s' : System) → Reach q s → Step s s' → Reach q s'
