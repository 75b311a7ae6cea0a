-- ===== src/Queue/Threads/Inv.antt =====
-- The invariant of the queue between threads.
use hype.Base.{
  ℕ, List, [], ◌∷◌, ◌++◌, Option, none, some, ◌≡◌, ◌≢◌, ◌⊎◌, inl, inr, refl, sym, All, arith,
  ℕ_discrete, subst,
}
use hype.Queue.{Queue}
use hype.Queue.Threads.{
  Consumer, idle, testing, heading, peeking, clearing, trying, awaiting, moving, System, set_thread,
}
use hype.Queue.Threads.Chain.{
  Threads, Edge, Chain, Among, Among-left, OneEach, Chain-last, Chain-Among,
}

-- How the sentinel leads to the first node, for each place of the dequeuing thread.
abbrev pub Head : Queue → Threads → Consumer → ℕ → Type 0
Head q thread (peeking k) n = (k ≡ n) × (q.next q.sentinel ≡ some n)
Head q thread (clearing k) n = (k ≡ n) × (q.next q.sentinel ≡ some n)
Head q thread (trying k) n = (k ≡ n) × (q.next q.sentinel ≡ none)
Head q thread (awaiting k) n = (k ≡ n) × (q.next q.sentinel ≡ none)
Head q thread (moving k m) n = (k ≡ n) × (q.next n ≡ some m)
Head q thread _ n = Edge q.next thread q.sentinel n

-- The places before a node is found.
abbrev pub IsEarly : Consumer → Type 0
IsEarly idle = Unit
IsEarly testing = Unit
IsEarly heading = Unit
IsEarly _ = ⊥

abbrev pub Shape : Queue → Threads → Consumer → List ℕ → Type 0
Shape q thread c [] = (q.next q.sentinel ≡ none) × (q.sentinel ≡ q.p) × IsEarly c
Shape q thread c (n ∷ rest) = Head q thread c n × Chain q.next thread n rest q.p

-- The nodes that a thread may still store to.
abbrev pub members : Consumer → ℕ → List ℕ → List ℕ
members (trying k) s ns = ns
members (awaiting k) s ns = ns
members (moving k m) s ns = ns
members _ s ns = s ∷ ns

abbrev pub Once : List ℕ → Type 0
Once [] = Unit
Once (n ∷ rest) = All (λ m. m ≢ n) rest × Once rest

-- `ns` are the nodes in the queue: those that entered and have not left.
pub record Inv (s : System) (ns : List ℕ) : Type 0 where
  pub history : s.entered ≡ s.left ++ ns
  pub apart : All (λ n. n ≢ s.mem.sentinel) s.entered
  pub once : Once s.entered
  pub shape : Shape s.mem s.thread s.consumer ns
  pub open_end : (t x k : ℕ) → s.thread t ≡ some (x, k) → s.mem.next x ≡ none
  pub not_last : (t x k : ℕ) → s.thread t ≡ some (x, k) → x ≢ s.mem.p
  pub member :
      (t x k : ℕ) → s.thread t ≡ some (x, k) → Among x (members s.consumer s.mem.sentinel ns)
  pub one_each : OneEach s.thread

pub All-right : (P : ℕ → Type 0) (xs ys : List ℕ) → All P (xs ++ ys) → All P ys
All-right P [] ys v = v
All-right P (x ∷ xs) ys v = All-right P xs ys v.1

pub Once-right : (xs ys : List ℕ) → Once (xs ++ ys) → Once ys
Once-right [] ys v = v
Once-right (x ∷ xs) ys v = Once-right xs ys v.1

pub All-snoc : (P : ℕ → Type 0) (xs : List ℕ) (x : ℕ) → All P xs → P x → All P (xs ++ (x ∷ []))
All-snoc P [] x v h = (h, tt)
All-snoc P (y ∷ xs) x v h = (v.0, All-snoc P xs x v.1 h)

pub Once-snoc : (xs : List ℕ) (x : ℕ) → Once xs → All (λ m. m ≢ x) xs → Once (xs ++ (x ∷ []))
Once-snoc [] x v w = (tt, tt)
Once-snoc (y ∷ xs) x v w =
    (All-snoc (λ m. m ≢ y) xs x v.0 (λ e. w.0 (sym e)), Once-snoc xs x v.1 w.1)

module _ (s : System) (ns : List ℕ) (i : Inv s ns) where
  -- The nodes in the queue are none of them the sentinel, and all different.
  pub nodes_apart : All (λ n. n ≢ s.mem.sentinel) ns
  nodes_apart =
      All-right (λ n. n ≢ s.mem.sentinel) s.left ns
        (subst (All (λ n. n ≢ s.mem.sentinel)) i.history i.apart)

  pub nodes-Once : Once ns
  nodes-Once = Once-right s.left ns (subst Once i.history i.once)

pub Head-early :
    (q : Queue) (thread : Threads) (c : Consumer) (n : ℕ)
    → IsEarly c
    → Edge q.next thread q.sentinel n
    → Head q thread c n
Head-early q thread idle n v e = e
Head-early q thread testing n v e = e
Head-early q thread heading n v e = e
Head-early q thread (peeking k) n v e = elim v [ ]
Head-early q thread (clearing k) n v e = elim v [ ]
Head-early q thread (trying k) n v e = elim v [ ]
Head-early q thread (awaiting k) n v e = elim v [ ]
Head-early q thread (moving k m) n v e = elim v [ ]

-- The places where the sentinel may be stored to, and the others.
pub members-cases :
    (c : Consumer) (s : ℕ) (ns ms : List ℕ)
    → ((members c s ns ≡ s ∷ ns) × (members c s ms ≡ s ∷ ms))
      ⊎ ((members c s ns ≡ ns) × (members c s ms ≡ ms) × (IsEarly c → ⊥))
members-cases idle s ns ms = inl (refl, refl)
members-cases testing s ns ms = inl (refl, refl)
members-cases heading s ns ms = inl (refl, refl)
members-cases (peeking k) s ns ms = inl (refl, refl)
members-cases (clearing k) s ns ms = inl (refl, refl)
members-cases (trying k) s ns ms = inr (refl, refl, λ e. e)
members-cases (awaiting k) s ns ms = inr (refl, refl, λ e. e)
members-cases (moving k m) s ns ms = inr (refl, refl, λ e. e)

pub members-left :
    (c : Consumer) (s x : ℕ) (ns ms : List ℕ)
    → Among x (members c s ns)
    → Among x (members c s (ns ++ ms))
members-left c s x ns ms a = elim (members-cases c s ns (ns ++ ms)) [
  | inl (e, f) ↦ subst (Among x) (sym f) (Among-left x (s ∷ ns) ms (subst (Among x) e a))
  | inr (e, f, late) ↦ subst (Among x) (sym f) (Among-left x ns ms (subst (Among x) e a))
]

pub members-All :
    (P : ℕ → Type 0) (c : Consumer) (s : ℕ) (ns : List ℕ) → P s → All P ns → All P (members c s ns)
members-All P c s ns p v = elim (members-cases c s ns ns) [
  | inl (e, f) ↦ subst (All P) (sym e) (p, v)
  | inr (e, f, late) ↦ subst (All P) (sym e) v
]

-- The tail is one of them.
pub last_member :
    (q : Queue) (thread : Threads) (c : Consumer) (ns : List ℕ)
    → Shape q thread c ns
    → Among q.p (members c q.sentinel ns)
last_member q thread c [] h = elim (members-cases c q.sentinel [] []) [
  | inl (e, f) ↦ subst (Among q.p) (sym e) (inl (sym h.1))
  | inr (e, f, late) ↦ absurd (late h.2)
]
last_member q thread c (n ∷ rest) h =
    let here = Chain-Among q.next thread n rest q.p h.1 in
    elim (members-cases c q.sentinel (n ∷ rest) []) [
      | inl (e, f) ↦ subst (Among q.p) (sym e) (inr here)
      | inr (e, f, late) ↦ subst (Among q.p) (sym e) here
    ]

-- The tail's `next` is NULL.
pub last_open :
    (q : Queue) (thread : Threads) (c : Consumer) (ns : List ℕ)
    → Shape q thread c ns
    → q.next q.p ≡ none
last_open q thread c [] h = subst (λ y. q.next y ≡ none) h.1 h.0
last_open q thread c (n ∷ rest) h = Chain-last q.next thread n rest q.p h.1

pub set_thread-cases :
    (thread : Threads) (t u : ℕ) (v w : Option (ℕ × ℕ))
    → set_thread thread t v u ≡ w
    → ((u ≡ t) × (v ≡ w)) ⊎ ((u ≢ t) × (thread u ≡ w))
unfolding set_thread
set_thread-cases thread t u v w e = elim (ℕ_discrete u t) [
  | yes same ↦ inl (same, ground arith)
  | no other ↦ inr (other, ground arith)
]
