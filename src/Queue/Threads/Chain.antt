-- ===== src/Queue/Threads/Chain.antt =====
-- Nodes in the order of their exchanges: each is linked from the one before, or a thread has still to do it.
use hype.Base.{
  ℕ, List, [], ◌∷◌, ◌++◌, Option, none, some, ◌≡◌, ◌≢◌, ◌⊎◌, inl, inr, refl, sym, All, arith,
  ℕ_discrete, subst,
}
use hype.Queue.{put}
use hype.Queue.Threads.{set_thread}

abbrev pub Memory : Type 0
Memory = ℕ → Option ℕ

abbrev pub Threads : Type 0
Threads = ℕ → Option (ℕ × ℕ)

abbrev pub Edge : Memory → Threads → ℕ → ℕ → Type 0
Edge next thread x n = (next x ≡ some n) ⊎ ((next x ≡ none) × ((t : ℕ) × (thread t ≡ some (x, n))))

-- From `x` on, through the nodes of the list, to `last`, whose `next` is NULL.
abbrev pub Chain : Memory → Threads → ℕ → List ℕ → ℕ → Type 0
Chain next thread x [] last = (next x ≡ none) × (x ≡ last)
Chain next thread x (n ∷ rest) last = Edge next thread x n × Chain next thread n rest last

abbrev pub Among : ℕ → List ℕ → Type 0
Among x [] = ⊥
Among x (n ∷ rest) = (x ≡ n) ⊎ Among x rest

pub Among-All : (P : ℕ → Type 0) (x : ℕ) (ns : List ℕ) → All P ns → Among x ns → P x
Among-All P x [] v a = elim a [ ]
Among-All P x (n ∷ rest) v (inl e) = subst P (sym e) v.0
Among-All P x (n ∷ rest) v (inr a) = Among-All P x rest v.1 a

pub Among-left : (x : ℕ) (ns ms : List ℕ) → Among x ns → Among x (ns ++ ms)
Among-left x [] ms a = elim a [ ]
Among-left x (n ∷ rest) ms (inl e) = inl e
Among-left x (n ∷ rest) ms (inr a) = inr (Among-left x rest ms a)

-- No two threads are to store to the same node.
abbrev pub OneEach : Threads → Type 0
OneEach thread = (t u x k l : ℕ) → thread t ≡ some (x, k) → thread u ≡ some (x, l) → t ≡ u

module _ (next : Memory) (thread : Threads) where
  pub Chain-last : (x : ℕ) (ns : List ℕ) (last : ℕ) → Chain next thread x ns last → next last ≡ none
  Chain-last x [] last c = subst (λ y. next y ≡ none) c.1 c.0
  Chain-last x (n ∷ rest) last c = Chain-last n rest last c.1

  pub Chain-Among :
      (x : ℕ) (ns : List ℕ) (last : ℕ) → Chain next thread x ns last → Among last (x ∷ ns)
  Chain-Among x [] last c = inl (sym c.1)
  Chain-Among x (n ∷ rest) last c = inr (Chain-Among n rest last c.1)

  -- A store to a node outside the chain.
  pub Chain-put :
      (y : ℕ) (to : Option ℕ) (x : ℕ) (ns : List ℕ) (last : ℕ)
      → x ≢ y
      → All (λ n. n ≢ y) ns
      → Chain next thread x ns last
      → Chain (put next y to) thread x ns last
  unfolding put
  Chain-put y to x [] last ne v c = ground arith
  Chain-put y to x (n ∷ rest) last ne v (e, c) =
      (ground arith, Chain-put y to n rest last v.0 v.1 c)

  module _ (t node last : ℕ) (free : thread t ≡ none) where
    pub Edge-exchange :
        (x n : ℕ) → Edge next thread x n → Edge next (set_thread thread t (some (last, node))) x n
    unfolding set_thread
    Edge-exchange x n (inl e) = inl e
    Edge-exchange x n (inr (e, (u, w))) = inr (e, (u, ground arith))

    pub Edge-new : next last ≡ none → Edge next (set_thread thread t (some (last, node))) last node
    unfolding set_thread
    Edge-new e = inr (e, (t, ground arith))

    pub Chain-exchange :
        (x : ℕ) (ns : List ℕ)
        → next node ≡ none
        → Chain next thread x ns last
        → Chain next (set_thread thread t (some (last, node))) x (ns ++ (node ∷ [])) node
    Chain-exchange x [] e c = (
      subst (λ y. Edge next (set_thread thread t (some (last, node))) y node) (sym c.1)
          (Edge-new (Chain-last x [] last c)),
      (e, refl),
    )
    Chain-exchange x (n ∷ rest) e (d, c) = (Edge-exchange x n d, Chain-exchange n rest e c)

  module _ (one_each : OneEach thread) (t y k : ℕ) (busy : thread t ≡ some (y, k))
      (open_end : next y ≡ none) where
    pub Edge-link :
        (x n : ℕ) → Edge next thread x n → Edge (put next y (some k)) (set_thread thread t none) x n
    unfolding put set_thread
    Edge-link x n (inl e) = inl (ground arith)
    Edge-link x n (inr (e, (u, w))) = elim (ℕ_discrete u t) [
      | yes same ↦
          let moved : thread t ≡ some (x, n) = subst (λ z. thread z ≡ some (x, n)) same w in
          let here : x ≡ y = cc in let there : n ≡ k = cc in inl (ground arith)
      | no other ↦
          let apart : x ≢ y = λ here.
            other (sym (one_each t u y k n busy (subst (λ z. thread u ≡ some (z, n)) here w))) in
          inr (ground arith, (u, ground arith))
    ]

    pub Chain-link :
        (x : ℕ) (ns : List ℕ) (last : ℕ)
        → y ≢ last
        → Chain next thread x ns last
        → Chain (put next y (some k)) (set_thread thread t none) x ns last
    unfolding put
    Chain-link x [] last ne c = ground arith
    Chain-link x (n ∷ rest) last ne (d, c) = (Edge-link x n d, Chain-link n rest last ne c)
