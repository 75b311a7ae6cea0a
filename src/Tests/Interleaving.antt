-- ===== src/Tests/Interleaving.antt =====
-- Two threads that enqueue on src/queue.h while a third dequeues.
use hype.Base.{ℕ, List, [], ◌++◌, none, some, ◌≡◌, ◌≢◌, All, refl, arith}
use hype.Queue.{Queue, queue_init, queue_node_init, put}
use hype.Queue.Fifo.{Holds}
use hype.Queue.Threads.{
  idle, System, dequeue_step, exchange, link, consume, set_thread, exchanges, links, consumes,
  start, Reach, starts, goes,
}
use hype.Queue.Threads.Order.{threads_share_fifo}

abbrev fresh : Queue
fresh = record { next = λ n. none; sentinel = 1; p = 1 }

-- Thread 7 has exchanged the tail for node 5, and thread 8 for node 6, before either has stored.
abbrev one_in : System
one_in = exchange (start fresh) 7 5

abbrev two_in : System
two_in = exchange one_in 8 6

-- Then thread 8 stores, and the dequeuing thread looks.
abbrev later : System
later = consume (link two_in 8 5 6)

later-Reach : Reach fresh later
unfolding start queue_init queue_node_init exchange link set_thread put
later-Reach =
    goes (link two_in 8 5 6) later
      (goes two_in (link two_in 8 5 6)
        (goes one_in two_in
          (goes (start fresh) one_in starts (exchanges 7 5 refl refl (omega arith) tt))
          (exchanges 8 6 refl refl (omega arith) (omega arith, tt)))
        (links 8 5 6 refl))
      consumes

threads_share_fifo_example :
    (ns : List ℕ) × (later.entered ≡ later.left ++ ns)
    × ((dequeue_step later.mem later.consumer).answer ≡ some none → ns ≡ [])
    × ((t old_tail node : ℕ)
        → later.thread t ≡ some (old_tail, node)
        → All (λ n. n ≢ old_tail) later.left)
    × (((t : ℕ) → later.thread t ≡ none) → later.consumer ≡ idle → Holds later.mem ns)
threads_share_fifo_example = threads_share_fifo fresh later later-Reach
