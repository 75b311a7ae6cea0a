-- ===== src/Queue/Threads/Dequeue/Late.antt =====
-- `queue_dequeue` between threads, from the first node on: its steps keep the invariant.
use hype.Base.{
  ℕ, List, [], ◌∷◌, none, some, ◌≡◌, ◌≢◌, inl, inr, refl, sym, ◌∙◌, All, ◌==◌, arith, subst, ap,
  ap₂, Bool-cases, Option-cases,
}
use hype.Queue.{Queue, put, queue_node_init}
use hype.Queue.Threads.{Consumer, peeking, clearing, trying, awaiting, moving, dequeue_step}
use hype.Queue.Threads.Chain.{Threads, Chain, Among, Among-All, Chain-Among, Chain-put}
use hype.Queue.Threads.Inv.{Once}
use hype.Queue.Threads.Dequeue.Early.{Good, Kept, stay}

not_first : (x n : ℕ) (ns : List ℕ) → x ≢ n → Among x (n ∷ ns) → Among x ns
not_first x n ns ne (inl e) = absurd (ne e)
not_first x n ns ne (inr a) = a

module _ (q : Queue) (thread : Threads) where
  -- A thread has nothing to store to a node that is linked.
  off :
      (c : Consumer) (ns : List ℕ) (y m : ℕ)
      → Good q thread c ns
      → q.next y ≡ some m
      → (t x k : ℕ) → thread t ≡ some (x, k)
      → x ≢ y
  off c ns y m g e t x k w same =
      let end : q.next x ≡ none = g.open_end t x k w in
      let on : q.next x ≡ some m = subst (λ z. q.next z ≡ some m) (sym same) e in cc (end, on)

  pub peeking-Kept :
      (n : ℕ) (ns : List ℕ)
      → Good q thread (peeking n) ns
      → Kept q thread ns (dequeue_step q (peeking n))
  unfolding dequeue_step
  peeking-Kept n [] g = elim g.shape.2 [ ]
  peeking-Kept n (n' ∷ rest) g =
      let ((here, first), chain) = g.shape in
      elim (Option-cases (q.next n)) [
        | inl e ↦
            rw (e, dequeue_step)
              (stay q thread (clearing n) (n' ∷ rest) (record {
                shape = g.shape;
                open_end = g.open_end;
                not_last = g.not_last;
                member = g.member;
              }))
        | inr (m, e) ↦
            rw (e, dequeue_step)
              (stay q thread (moving n m) (n' ∷ rest) (record {
                shape = ((here, subst (λ z. q.next z ≡ some m) here e), chain);
                open_end = g.open_end;
                not_last = g.not_last;
                member = λ t x k w.
                    not_first x q.sentinel (n' ∷ rest)
                      (off (peeking n) (n' ∷ rest) q.sentinel n' g first t x k w)
                      (g.member t x k w);
              }))
      ]

  pub awaiting-Kept :
      (n : ℕ) (ns : List ℕ)
      → Good q thread (awaiting n) ns
      → Kept q thread ns (dequeue_step q (awaiting n))
  unfolding dequeue_step
  awaiting-Kept n [] g = elim g.shape.2 [ ]
  awaiting-Kept n (n' ∷ rest) g =
      let ((here, first), chain) = g.shape in
      elim (Option-cases (q.next n)) [
        | inl e ↦ rw (e, dequeue_step) (stay q thread (awaiting n) (n' ∷ rest) g)
        | inr (m, e) ↦
            rw (e, dequeue_step)
              (stay q thread (moving n m) (n' ∷ rest) (record {
                shape = ((here, subst (λ z. q.next z ≡ some m) here e), chain);
                open_end = g.open_end;
                not_last = g.not_last;
                member = g.member;
              }))
      ]

  pub clearing-Kept :
      (n : ℕ) (ns : List ℕ)
      → All (λ m. m ≢ q.sentinel) ns
      → Good q thread (clearing n) ns
      → Kept q thread ns (dequeue_step q (clearing n))
  unfolding dequeue_step queue_node_init put
  clearing-Kept n [] v g = elim g.shape.2 [ ]
  clearing-Kept n (n' ∷ rest) v g =
      let ((here, first), chain) = g.shape in
      record {
        nodes = n' ∷ rest;
        leaves = refl;
        same_sentinel = refl;
        good = record {
          shape = (
            (here, ground arith),
            Chain-put q.next thread q.sentinel none n' rest q.p v.0 v.1 chain,
          );
          open_end = λ t x k w. let end : q.next x ≡ none = g.open_end t x k w in ground arith;
          not_last = g.not_last;
          member = λ t x k w.
              not_first x q.sentinel (n' ∷ rest)
                (off (clearing n) (n' ∷ rest) q.sentinel n' g first t x k w) (g.member t x k w);
        };
        nothing = λ e. cc;
      }

  -- If the tail is the first node, it is the only one.
  only_node :
      (n : ℕ) (rest : List ℕ)
      → Once (n ∷ rest)
      → Chain q.next thread n rest q.p
      → q.p ≡ n
      → rest ≡ []
  only_node n [] v chain e = refl
  only_node n (m ∷ rest) v (d, chain) e =
      absurd
        (Among-All (λ z. z ≢ n) q.p (m ∷ rest) v.0 (Chain-Among q.next thread m rest q.p chain) e)

  pub trying-Kept :
      (n : ℕ) (ns : List ℕ)
      → All (λ m. m ≢ q.sentinel) ns
      → Once ns
      → Good q thread (trying n) ns
      → Kept q thread ns (dequeue_step q (trying n))
  unfolding dequeue_step
  trying-Kept n [] v once g = elim g.shape.2 [ ]
  trying-Kept n (n' ∷ rest) v once g =
      let ((here, first), chain) = g.shape in
      elim (Bool-cases (q.p == n)) [
        | inl e ↦
            let last : q.p ≡ n' = ground arith in
            let alone : rest ≡ [] = only_node n' rest once chain last in
            rw e (record {
              nodes = [];
              leaves = ap₂ (λ a b. a ∷ b) here (sym alone);
              same_sentinel = refl;
              good = record {
                shape = (first, refl, tt);
                open_end = g.open_end;
                not_last =
                    λ t x k w. Among-All (λ m. m ≢ q.sentinel) x (n' ∷ rest) v (g.member t x k w);
                member = λ t x k w. elim (subst (λ r. Among x (n' ∷ r)) alone (g.member t x k w)) [
                  | inl same ↦ absurd (g.not_last t x k w (same ∙ sym last))
                  | inr none_left ↦ elim none_left [ ]
                ];
              };
              nothing = λ r. cc;
            })
        | inr e ↦ rw e (
            stay q thread (awaiting n) (n' ∷ rest) (record {
              shape = g.shape;
              open_end = g.open_end;
              not_last = g.not_last;
              member = g.member;
            }))
      ]

  pub moving-Kept :
      (n m : ℕ) (ns : List ℕ)
      → All (λ z. z ≢ q.sentinel) ns
      → Good q thread (moving n m) ns
      → Kept q thread ns (dequeue_step q (moving n m))
  unfolding dequeue_step put
  moving-Kept n m [] v g = elim g.shape.2 [ ]
  moving-Kept n m (n' ∷ []) v g = let ((here, on), (end, last)) = g.shape in absurd (cc (on, end))
  moving-Kept n m (n' ∷ m' ∷ rest) v g =
      let ((here, on), (d, chain)) = g.shape in
      let second : m ≡ m' = elim d [ inl e ↦ cc (on, e) | inr (e, u) ↦ absurd (cc (on, e)) ] in
      record {
        nodes = m' ∷ rest;
        leaves = ap (λ z. z ∷ m' ∷ rest) here;
        same_sentinel = refl;
        good = record {
          shape = (
            inl (ground arith),
            Chain-put q.next thread q.sentinel (some m) m' rest q.p v.1.0 v.1.1 chain,
          );
          open_end = λ t x k w.
              let end : q.next x ≡ none = g.open_end t x k w in
              let away : x ≢ q.sentinel =
                Among-All (λ z. z ≢ q.sentinel) x (n' ∷ m' ∷ rest) v (g.member t x k w) in
              ground arith;
          not_last = g.not_last;
          member = λ t x k w. inr (
              not_first x n' (m' ∷ rest) (off (moving n m) (n' ∷ m' ∷ rest) n' m g on t x k w)
                (g.member t x k w));
        };
        nothing = λ e. cc;
      }
