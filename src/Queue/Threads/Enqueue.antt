-- ===== src/Queue/Threads/Enqueue.antt =====
-- The two steps of `queue_enqueue` keep the invariant of the queue between threads.
use mathlib.Core.List.{append_assoc}
use hype.Base.{
  ℕ, List, [], ◌∷◌, ◌++◌, none, some, ◌≡◌, ◌≢◌, ◌⊎◌, inl, inr, refl, sym, ◌∙◌, All, arith, subst,
  ap,
}
use hype.Queue.{Queue, put}
use hype.Queue.Threads.{
  Consumer, idle, testing, heading, peeking, clearing, trying, awaiting, moving, System, set_thread,
  exchange, link,
}
use hype.Queue.Threads.Chain.{
  Threads, Edge, Among, Among-All, OneEach, Edge-exchange, Edge-new, Chain-exchange, Edge-link,
  Chain-link,
}
use hype.Queue.Threads.Inv.{
  Head, Shape, members, Inv, nodes_apart, All-right, All-snoc, Once-snoc, Head-early, members-left,
  members-All, last_member, last_open, set_thread-cases,
}

Head-exchange :
    (q : Queue) (thread : Threads) (c : Consumer) (t node n last : ℕ)
    → thread t ≡ none
    → Head q thread c n
    → Head (record q { p = node }) (set_thread thread t (some (last, node))) c n
Head-exchange q thread (peeking k) t node n last free h = h
Head-exchange q thread (clearing k) t node n last free h = h
Head-exchange q thread (trying k) t node n last free h = h
Head-exchange q thread (awaiting k) t node n last free h = h
Head-exchange q thread (moving k m) t node n last free h = h
Head-exchange q thread idle t node n last free h =
    Edge-exchange q.next thread t node last free q.sentinel n h
Head-exchange q thread testing t node n last free h =
    Edge-exchange q.next thread t node last free q.sentinel n h
Head-exchange q thread heading t node n last free h =
    Edge-exchange q.next thread t node last free q.sentinel n h

Shape-exchange :
    (q : Queue) (thread : Threads) (c : Consumer) (ns : List ℕ) (t node : ℕ)
    → thread t ≡ none
    → q.next node ≡ none
    → Shape q thread c ns
    → Shape (record q { p = node }) (set_thread thread t (some (q.p, node))) c (ns ++ (node ∷ []))
Shape-exchange q thread c [] t node free fresh h = (
  Head-early (record q { p = node }) (set_thread thread t (some (q.p, node))) c node h.2
      (subst (λ y. Edge q.next (set_thread thread t (some (q.p, node))) y node) (sym h.1)
        (Edge-new q.next thread t node q.p free (last_open q thread c [] h))),
  (fresh, refl),
)
Shape-exchange q thread c (n ∷ rest) t node free fresh (h, chain) = (
  Head-exchange q thread c t node n q.p free h,
  Chain-exchange q.next thread t node q.p free n rest fresh chain,
)

-- After an exchange, a thread that has a store to do is the new one, or one of the others.
exchanged-cases :
    (thread : Threads) (t u p node x k : ℕ)
    → set_thread thread t (some (p, node)) u ≡ some (x, k)
    → ((u ≡ t) × (p ≡ x)) ⊎ ((u ≢ t) × (thread u ≡ some (x, k)))
exchanged-cases thread t u p node x k e =
    elim (set_thread-cases thread t u (some (p, node)) (some (x, k)) e) [
      | inl (same, w) ↦ inl (same, cc)
      | inr other ↦ inr other
    ]

OneEach-exchange :
    (thread : Threads) (t p node : ℕ)
    → ((u x k : ℕ) → thread u ≡ some (x, k) → x ≢ p)
    → OneEach thread
    → OneEach (set_thread thread t (some (p, node)))
OneEach-exchange thread t p node not_last one u v x k l e f =
    elim (exchanged-cases thread t u p node x k e) [
      | inl (same, here) ↦ elim (exchanged-cases thread t v p node x l f) [
        | inl (same', here') ↦ same ∙ sym same'
        | inr (other, w) ↦ absurd (not_last v x l w (sym here))
      ]
      | inr (other, w) ↦ elim (exchanged-cases thread t v p node x l f) [
        | inl (same, here) ↦ absurd (not_last u x k w (sym here))
        | inr (other', w') ↦ one u v x k l w w'
      ]
    ]

pub exchange-Inv :
    (s : System) (ns : List ℕ) (t node : ℕ)
    → Inv s ns
    → s.thread t ≡ none
    → s.mem.next node ≡ none
    → node ≢ s.mem.sentinel
    → All (λ m. m ≢ node) s.entered
    → Inv (exchange s t node) (ns ++ (node ∷ []))
unfolding exchange
exchange-Inv s ns t node i free fresh proper unused =
    let before = members s.consumer s.mem.sentinel ns in
    let last = last_member s.mem s.thread s.consumer ns i.shape in
    let new : All (λ m. m ≢ node) ns =
      All-right (λ m. m ≢ node) s.left ns (subst (All (λ m. m ≢ node)) i.history unused) in
    let others : All (λ m. m ≢ node) before =
      members-All (λ m. m ≢ node) s.consumer s.mem.sentinel ns (λ e. proper (sym e)) new in
    let member' : (u x k : ℕ)
        → set_thread s.thread t (some (s.mem.p, node)) u ≡ some (x, k)
        → Among x before =
      λ u x k e. elim (exchanged-cases s.thread t u s.mem.p node x k e) [
        | inl (same, here) ↦ subst (λ y. Among y before) here last
        | inr (other, w) ↦ i.member u x k w
      ] in
    record {
      history = ap (λ l. l ++ (node ∷ [])) i.history ∙ append_assoc s.left ns (node ∷ []);
      apart = All-snoc (λ n. n ≢ s.mem.sentinel) s.entered node i.apart proper;
      once = Once-snoc s.entered node i.once unused;
      shape = Shape-exchange s.mem s.thread s.consumer ns t node free fresh i.shape;
      open_end = λ u x k e. elim (exchanged-cases s.thread t u s.mem.p node x k e) [
        | inl (same, here) ↦
            subst (λ y. s.mem.next y ≡ none) here (last_open s.mem s.thread s.consumer ns i.shape)
        | inr (other, w) ↦ i.open_end u x k w
      ];
      not_last = λ u x k e. Among-All (λ m. m ≢ node) x before others (member' u x k e);
      member = λ u x k e. members-left s.consumer s.mem.sentinel x ns (node ∷ []) (member' u x k e);
      one_each = OneEach-exchange s.thread t s.mem.p node i.not_last i.one_each;
    }

module _ (q : Queue) (thread : Threads) (one_each : OneEach thread) (t y k : ℕ)
    (busy : thread t ≡ some (y, k)) (open_end : q.next y ≡ none) where
  linked : Queue
  linked = record q { next = put q.next y (some k) }

  Head-link :
      (c : Consumer) (n : ℕ) (ns : List ℕ)
      → Among y (members c q.sentinel ns)
      → All (λ m. m ≢ q.sentinel) ns
      → Head q thread c n
      → Head linked (set_thread thread t none) c n
  unfolding linked put
  Head-link idle n ns a v h = Edge-link q.next thread one_each t y k busy open_end q.sentinel n h
  Head-link testing n ns a v h = Edge-link q.next thread one_each t y k busy open_end q.sentinel n h
  Head-link heading n ns a v h = Edge-link q.next thread one_each t y k busy open_end q.sentinel n h
  Head-link (peeking j) n ns a v h = ground arith
  Head-link (clearing j) n ns a v h = ground arith
  Head-link (trying j) n ns a v h =
      let away : y ≢ q.sentinel = Among-All (λ m. m ≢ q.sentinel) y ns v a in ground arith
  Head-link (awaiting j) n ns a v h =
      let away : y ≢ q.sentinel = Among-All (λ m. m ≢ q.sentinel) y ns v a in ground arith
  Head-link (moving j m) n ns a v h = ground arith

  Shape-link :
      (c : Consumer) (ns : List ℕ)
      → Among y (members c q.sentinel ns)
      → All (λ m. m ≢ q.sentinel) ns
      → y ≢ q.p
      → Shape q thread c ns
      → Shape linked (set_thread thread t none) c ns
  unfolding linked put
  Shape-link c [] a v ne h = (ground arith, h.1, h.2)
  Shape-link c (n ∷ rest) a v ne (h, chain) = (
    Head-link c n (n ∷ rest) a v h,
    Chain-link q.next thread one_each t y k busy open_end n rest q.p ne chain,
  )

  -- The other threads have their stores still to do, and to other nodes.
  linked-cases :
      (u x l : ℕ) → set_thread thread t none u ≡ some (x, l) → (thread u ≡ some (x, l)) × (x ≢ y)
  linked-cases u x l e = elim (set_thread-cases thread t u none (some (x, l)) e) [
    | inl (same, w) ↦ absurd (cc w)
    | inr (other, w) ↦ (
      w,
      λ here. other (sym (one_each t u y k l busy (subst (λ z. thread u ≡ some (z, l)) here w))),
    )
  ]

pub link-Inv :
    (s : System) (ns : List ℕ) (t y k : ℕ)
    → Inv s ns
    → s.thread t ≡ some (y, k)
    → Inv (link s t y k) ns
unfolding link put linked
link-Inv s ns t y k i busy =
    let others = linked-cases s.mem s.thread i.one_each t y k busy (i.open_end t y k busy) in
    record {
      history = i.history;
      apart = i.apart;
      once = i.once;
      shape =
          Shape-link s.mem s.thread i.one_each t y k busy (i.open_end t y k busy) s.consumer ns
            (i.member t y k busy) (nodes_apart s ns i) (i.not_last t y k busy) i.shape;
      open_end = λ u x l e.
          let (w, ne) = others u x l e in
          let before : s.mem.next x ≡ none = i.open_end u x l w in ground arith;
      not_last = λ u x l e. i.not_last u x l (others u x l e).0;
      member = λ u x l e. i.member u x l (others u x l e).0;
      one_each = λ u v x l m e f. i.one_each u v x l m (others u x l e).0 (others v x m f).0;
    }
