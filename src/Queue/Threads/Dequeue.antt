-- ===== src/Queue/Threads/Dequeue.antt =====
-- The steps of `queue_dequeue` keep the invariant of the queue between threads.
mod Early
mod Late
use hype.Base.{
  ℕ, List, [], ◌∷◌, ◌++◌, Option, none, some, ◌≡◌, ◌≢◌, inl, inr, refl, sym, ◌∙◌, All, ◌==◌, arith,
  subst, ap, ap₂, Bool-cases, Option-cases,
}
use mathlib.Core.List.{append_assoc}
use hype.Queue.{Queue, put, is_null, queue_node_init}
use hype.Queue.Threads.{
  Consumer, idle, testing, heading, peeking, clearing, trying, awaiting, moving, Taken, goes_on,
  dequeue_step, with_answer, System, consume,
}
use hype.Queue.Threads.Chain.{Threads, Chain, Among, Among-All, Chain-Among, Chain-put}
use hype.Queue.Threads.Inv.{Shape, members, Once, Inv, nodes_apart, nodes-Once}
use Early.{Good, Kept, idle-Kept, testing-Kept, heading-Kept}
use Late.{peeking-Kept, awaiting-Kept, clearing-Kept, trying-Kept, moving-Kept}

module _ (q : Queue) (thread : Threads) where
  step-Kept :
      (c : Consumer) (ns : List ℕ)
      → All (λ n. n ≢ q.sentinel) ns
      → Once ns
      → Good q thread c ns
      → Kept q thread ns (dequeue_step q c)
  step-Kept idle ns v once g = idle-Kept q thread ns g
  step-Kept testing ns v once g = testing-Kept q thread ns v g
  step-Kept heading ns v once g = heading-Kept q thread ns g
  step-Kept (peeking n) ns v once g = peeking-Kept q thread n ns g
  step-Kept (clearing n) ns v once g = clearing-Kept q thread n ns v g
  step-Kept (trying n) ns v once g = trying-Kept q thread n ns v once g
  step-Kept (awaiting n) ns v once g = awaiting-Kept q thread n ns g
  step-Kept (moving n m) ns v once g = moving-Kept q thread n m ns v g

with_answer-append :
    (left : List ℕ) (a : Option (Option ℕ)) (ns : List ℕ)
    → with_answer left a ++ ns ≡ left ++ (with_answer [] a ++ ns)
with_answer-append left none ns = refl
with_answer-append left (some none) ns = refl
with_answer-append left (some (some n)) ns = append_assoc left (n ∷ []) ns

module _ (s : System) (ns : List ℕ) (i : Inv s ns) where
  pub consumed : Kept s.mem s.thread ns (dequeue_step s.mem s.consumer)
  consumed =
      step-Kept s.mem s.thread s.consumer ns (nodes_apart s ns i) (nodes-Once s ns i) (record {
        shape = i.shape;
        open_end = i.open_end;
        not_last = i.not_last;
        member = i.member;
      })

  pub consume-Inv : Inv (consume s) consumed.nodes
  unfolding consume
  consume-Inv =
      let kept = consumed in
      let taken = dequeue_step s.mem s.consumer in
      record {
        history =
            i.history
            ∙ ap (λ l. s.left ++ l) (sym kept.leaves)
            ∙ sym (with_answer-append s.left taken.answer kept.nodes);
        apart = subst (λ z. All (λ n. n ≢ z) s.entered) (sym kept.same_sentinel) i.apart;
        once = i.once;
        shape = kept.good.shape;
        open_end = kept.good.open_end;
        not_last = kept.good.not_last;
        member = kept.good.member;
        one_each = i.one_each;
      }
