-- ===== src/Queue/Fifo.antt =====
-- The queue of src/queue.h holds a list of nodes, first in and first out.
use hype.Base.{
  ℕ, List, [], ◌∷◌, ◌++◌, Option, none, some, true, false, ◌==◌, if◌then◌else◌, ◌≡◌, ◌≢◌, refl, All,
  arith, ◌↔◌, sym,
}
use hype.Queue.{
  Queue, put, queue_node_init, queue_init, queue_empty, queue_enqueue, Dequeued, hangs, dequeued,
  dequeue_last, queue_dequeue,
}

-- From `from` on, the memory links the nodes of the list, the last of which is `last`.
abbrev pub Linked : (ℕ → Option ℕ) → ℕ → List ℕ → ℕ → Type 0
Linked next from [] last = (next from ≡ none) × (from ≡ last)
Linked next from (n ∷ rest) last =
    (next from ≡ some n) × All (λ m. n ≢ m) rest × Linked next n rest last

-- The queue holds the nodes of the list, all different and none of them the sentinel.
pub record Holds (q : Queue) (nodes : List ℕ) : Type 0 where
  pub linked : Linked q.next q.sentinel nodes q.p
  pub proper : All (λ n. n ≢ q.sentinel) nodes

-- `queue_init` leaves an empty queue.
pub queue_init-Holds : (q : Queue) → Holds (queue_init q) []
unfolding queue_init queue_node_init put
queue_init-Holds q = record { linked = (ground arith, refl); proper = tt }

-- What the two answers of `queue_dequeue` say of a list of nodes.
abbrev pub Takes : Queue → List ℕ → Dequeued → Type 0
Takes q nodes hangs = ⊥
Takes q [] (dequeued q' r) = (q' ≡ q) × (r ≡ none)
Takes q (n ∷ rest) (dequeued q' r) = (r ≡ some n) × Holds q' rest

put-Linked :
    (next : ℕ → Option ℕ) (s from : ℕ) (to : Option ℕ) (nodes : List ℕ) (last : ℕ)
    → All (λ n. n ≢ s) nodes
    → from ≢ s
    → Linked next from nodes last
    → Linked (put next s to) from nodes last
unfolding put
put-Linked next s from to [] last v ne l = ground arith
put-Linked next s from to (n ∷ rest) last v ne l =
    (ground arith, l.1, put-Linked next s n to rest last v.1 v.0 l.2)

-- If the queue holds a list, `queue_dequeue` returns: nothing and the same queue if the list is empty,
-- and otherwise the first node, with a queue that holds the others.
pub queue_dequeue-Takes :
    (q : Queue) (nodes : List ℕ) → Holds q nodes → Takes q nodes (queue_dequeue q)
unfolding queue_dequeue queue_empty dequeue_last queue_node_init put
queue_dequeue-Takes q [] h =
    let e : queue_dequeue q ≡ dequeued q none = ground arith in rw (e, Takes) (refl, refl)
queue_dequeue-Takes q (n ∷ []) h =
    let q' : Queue = record (queue_node_init q q.sentinel) { p = q.sentinel } in
    let e : queue_dequeue q ≡ dequeued q' (some n) = ground arith in
    rw (e, Takes) (refl, record { linked = (ground arith, refl); proper = tt })
queue_dequeue-Takes q (n ∷ m ∷ rest) h =
    let q' : Queue = record q { next = put q.next q.sentinel (some m) } in
    let e : queue_dequeue q ≡ dequeued q' (some n) = ground arith in
    let tail = h.linked.2 in
    rw (e, Takes)
      (
        refl,
        record {
          linked = (
            ground arith,
            tail.1,
            put-Linked q.next q.sentinel m (some m) rest q.p h.proper.1.1 h.proper.1.0 tail.2,
          );
          proper = h.proper.1;
        },
      )

last_apart :
    (next : ℕ → Option ℕ) (x from : ℕ) (nodes : List ℕ) (last : ℕ)
    → x ≢ from
    → All (λ m. x ≢ m) nodes
    → Linked next from nodes last
    → x ≢ last
last_apart next x from [] last ne v l = ground arith
last_apart next x from (n ∷ rest) last ne v l = last_apart next x n rest last v.0 v.1 l.2

All-snoc :
    (P : ℕ → Type 0) (nodes : List ℕ) (node : ℕ)
    → All P nodes
    → P node
    → All P (nodes ++ (node ∷ []))
All-snoc P [] node v h = (h, tt)
All-snoc P (n ∷ rest) node v h = (v.0, All-snoc P rest node v.1 h)

put-snoc :
    (next : ℕ → Option ℕ) (from : ℕ) (nodes : List ℕ) (last node : ℕ)
    → Linked next from nodes last
    → All (λ m. from ≢ m) nodes
    → next node ≡ none
    → from ≢ node
    → All (λ m. m ≢ node) nodes
    → Linked (put next last (some node)) from (nodes ++ (node ∷ [])) node
unfolding put
put-snoc next from [] last node l v fresh ne w = (ground arith, tt, (ground arith, refl))
put-snoc next from (n ∷ rest) last node l v fresh ne w =
    let apart = last_apart next from n rest last v.0 v.1 l.2 in
    (
      ground arith,
      All-snoc (λ m. n ≢ m) rest node l.1 w.0,
      put-snoc next n rest last node l.2 l.1 fresh w.0 w.1,
    )

pub flipped : (nodes : List ℕ) (s : ℕ) → All (λ n. n ≢ s) nodes → All (λ n. s ≢ n) nodes
flipped [] s v = tt
flipped (n ∷ rest) s v = (λ e. v.0 (sym e), flipped rest s v.1)

tail_says :
    (q : Queue) (nodes : List ℕ)
    → Holds q nodes
    → ((if q.p == q.sentinel then false else true) ≡ false) ↔ (nodes ≡ [])
tail_says q [] h = ground arith
tail_says q (n ∷ rest) h =
    let apart : q.sentinel ≢ q.p =
      last_apart q.next q.sentinel n rest q.p (λ e. h.proper.0 (sym e))
        (flipped rest q.sentinel h.proper.1) h.linked.2 in
    (λ e. absurd (ground arith), λ e. cc)

-- If the queue holds a list, and a node whose `next` is NULL is neither in it nor the sentinel,
-- `queue_enqueue` makes a queue that holds the list with the node at its end, and says whether there
-- was a node before.
queue_enqueue-Holds :
    (q : Queue) (nodes : List ℕ) (node : ℕ)
    → Holds q nodes
    → q.next node ≡ none
    → node ≢ q.sentinel
    → All (λ m. m ≢ node) nodes
    → Holds (queue_enqueue q node).0 (nodes ++ (node ∷ []))
      × (((queue_enqueue q node).1 ≡ false) ↔ (nodes ≡ []))
unfolding queue_enqueue
queue_enqueue-Holds q nodes node h fresh ne w = (
  record {
    linked =
        put-snoc q.next q.sentinel nodes q.p node h.linked (flipped nodes q.sentinel h.proper) fresh
          (λ e. ne (sym e)) w;
    proper = All-snoc (λ m. m ≢ q.sentinel) nodes node h.proper ne;
  },
  tail_says q nodes h,
)
