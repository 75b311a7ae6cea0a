-- ===== src/Queue/Threads/Order.antt =====
-- What the queue of src/queue.h gives to its threads, in every state that they can reach.
use hype.Base.{
  ℕ, List, [], ◌∷◌, ◌++◌, Option, none, some, ◌≡◌, ◌≢◌, inl, inr, refl, sym, All, subst,
}
use hype.Queue.{Queue}
use hype.Queue.Fifo.{Linked, Holds, queue_init-Holds, flipped}
use hype.Queue.Threads.{
  Consumer, idle, System, dequeue_step, Step, exchanges, links, consumes, start, Reach, starts,
  goes,
}
use hype.Queue.Threads.Chain.{Threads, Chain, Among, Among-All}
use hype.Queue.Threads.Inv.{Shape, members, Once, Inv, nodes_apart, nodes-Once, members-cases}
use hype.Queue.Threads.Enqueue.{exchange-Inv, link-Inv}
use hype.Queue.Threads.Dequeue.{consumed, consume-Inv}

start-Inv : (q : Queue) → Inv (start q) []
unfolding start
start-Inv q =
    let empty = (queue_init-Holds q).linked in
    record {
      history = refl;
      apart = tt;
      once = tt;
      shape = (empty.0, empty.1, tt);
      open_end = λ t x k e. cc;
      not_last = λ t x k e. cc;
      member = λ t x k e. cc;
      one_each = λ t u x k l e f. cc;
    }

step-Inv : (s s' : System) (ns : List ℕ) → Inv s ns → Step s s' → (ns' : List ℕ) × Inv s' ns'
step-Inv s _ ns i (exchanges t node free fresh proper unused) =
    (ns ++ (node ∷ []), exchange-Inv s ns t node i free fresh proper unused)
step-Inv s _ ns i (links t old_tail node busy) = (ns, link-Inv s ns t old_tail node i busy)
step-Inv s _ ns i consumes = ((consumed s ns i).nodes, consume-Inv s ns i)

Reach-Inv : (q : Queue) (s : System) → Reach q s → (ns : List ℕ) × Inv s ns
Reach-Inv q _ starts = ([], start-Inv q)
Reach-Inv q _ (goes s s' r step) = let (ns, i) = Reach-Inv q s r in step-Inv s s' ns i step

-- When no thread has a store to do, the chain is that of a queue at rest.
Chain-Linked :
    (next : ℕ → Option ℕ) (thread : Threads) (x : ℕ) (ns : List ℕ) (last : ℕ)
    → ((t : ℕ) → thread t ≡ none)
    → Once ns
    → Chain next thread x ns last
    → Linked next x ns last
Chain-Linked next thread x [] last quiet once c = c
Chain-Linked next thread x (n ∷ rest) last quiet once (inl e, c) =
    (e, flipped rest n once.0, Chain-Linked next thread n rest last quiet once.1 c)
Chain-Linked next thread x (n ∷ rest) last quiet once (inr (e, (t, w)), c) =
    absurd (cc (quiet t, w))

Shape-Linked :
    (q : Queue) (thread : Threads) (ns : List ℕ)
    → ((t : ℕ) → thread t ≡ none)
    → Once ns
    → Shape q thread idle ns
    → Linked q.next q.sentinel ns q.p
Shape-Linked q thread [] quiet once h = (h.0, h.1)
Shape-Linked q thread (n ∷ rest) quiet once h =
    Chain-Linked q.next thread q.sentinel (n ∷ rest) q.p quiet once h

-- The nodes before are none of those behind.
Once-cross : (xs ys : List ℕ) (y : ℕ) → Once (xs ++ ys) → Among y ys → All (λ x. x ≢ y) xs
Once-cross [] ys y v a = tt
Once-cross (x ∷ xs) ys y v a = (
  λ e. Among-All (λ m. m ≢ x) y (xs ++ ys) v.0 (Among-right xs ys y a) (sym e),
  Once-cross xs ys y v.1 a,
)
  where
    Among-right : (xs ys : List ℕ) (y : ℕ) → Among y ys → Among y (xs ++ ys)
    Among-right [] ys y a = a
    Among-right (x ∷ xs) ys y a = inr (Among-right xs ys y a)

All-left : (P : ℕ → Type 0) (xs ys : List ℕ) → All P (xs ++ ys) → All P xs
All-left P [] ys v = tt
All-left P (x ∷ xs) ys v = (v.0, All-left P xs ys v.1)

module _ (s : System) (ns : List ℕ) (i : Inv s ns) where
  members_not_left : (x : ℕ) → Among x (s.mem.sentinel ∷ ns) → All (λ n. n ≢ x) s.left
  members_not_left x (inl e) =
      subst (λ y. All (λ n. n ≢ y) s.left) (sym e)
        (All-left (λ n. n ≢ s.mem.sentinel) s.left ns
          (subst (All (λ n. n ≢ s.mem.sentinel)) i.history i.apart))
  members_not_left x (inr a) = Once-cross s.left ns x (subst Once i.history i.once) a

-- In every state that the threads can reach from an empty queue, where each enqueues only nodes whose
-- `next` is NULL and that were not enqueued before, in any order of their accesses: the nodes that entered
-- are those that were returned, in the same order, and then those that are in the queue; `queue_dequeue` is
-- about to return NULL only if there are none; no thread is about to store to a node that was returned; and
-- while no thread is between the two accesses of `queue_enqueue`, nor the other in `queue_dequeue`, the nodes
-- in the queue are linked from the sentinel to the tail.
pub threads_share_fifo :
    (q : Queue) (s : System)
    → Reach q s
    → (ns : List ℕ) × (s.entered ≡ s.left ++ ns)
      × ((dequeue_step s.mem s.consumer).answer ≡ some none → ns ≡ [])
      × ((t old_tail node : ℕ)
          → s.thread t ≡ some (old_tail, node)
          → All (λ n. n ≢ old_tail) s.left)
      × (((t : ℕ) → s.thread t ≡ none) → s.consumer ≡ idle → Holds s.mem ns)
threads_share_fifo q s r =
    let (ns, i) = Reach-Inv q s r in
    (
      ns,
      i.history,
      (consumed s ns i).nothing,
      λ t x k w.
          members_not_left s ns i x (wider s.consumer s.mem.sentinel x ns (i.member t x k w)),
      λ quiet at_rest. record {
        linked =
            Shape-Linked s.mem s.thread ns quiet (nodes-Once s ns i)
              (subst (λ c. Shape s.mem s.thread c ns) at_rest i.shape);
        proper = nodes_apart s ns i;
      },
    )
  where
    wider : (c : Consumer) (m x : ℕ) (ns : List ℕ) → Among x (members c m ns) → Among x (m ∷ ns)
    wider c m x ns a = elim (members-cases c m ns ns) [
      | inl (e, f) ↦ subst (Among x) e a
      | inr (e, f, late) ↦ inr (subst (Among x) e a)
    ]
