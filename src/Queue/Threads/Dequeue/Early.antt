-- ===== src/Queue/Threads/Dequeue/Early.antt =====
-- `queue_dequeue` between threads, up to the first node: its steps keep the invariant.
use hype.Base.{
  ℕ, List, [], ◌∷◌, ◌++◌, none, some, ◌≡◌, ◌≢◌, inl, inr, refl, All, ◌==◌, arith, Bool-cases,
  Option-cases,
}
use hype.Queue.{Queue, is_null}
use hype.Queue.Threads.{
  Consumer, idle, testing, heading, peeking, Taken, goes_on, dequeue_step, with_answer,
}
use hype.Queue.Threads.Chain.{Threads, Among, Among-All, Chain-Among}
use hype.Queue.Threads.Inv.{Shape, members}

-- The part of the invariant that a step of the dequeuing thread concerns.
pub record Good (q : Queue) (thread : Threads) (c : Consumer) (ns : List ℕ) : Type 0 where
  pub shape : Shape q thread c ns
  pub open_end : (t x k : ℕ) → thread t ≡ some (x, k) → q.next x ≡ none
  pub not_last : (t x k : ℕ) → thread t ≡ some (x, k) → x ≢ q.p
  pub member : (t x k : ℕ) → thread t ≡ some (x, k) → Among x (members c q.sentinel ns)

-- What a step leaves in the queue, when `ns` were in it.
pub record Kept (q : Queue) (thread : Threads) (ns : List ℕ) (taken : Taken) : Type 0 where
  pub nodes : List ℕ
  pub leaves : with_answer [] taken.answer ++ nodes ≡ ns
  pub same_sentinel : taken.mem.sentinel ≡ q.sentinel
  pub good : Good taken.mem thread taken.consumer nodes
  pub nothing : taken.answer ≡ some none → ns ≡ []

module _ (q : Queue) (thread : Threads) where
  -- No step but the next one, on the same memory.
  pub stay : (c : Consumer) (ns : List ℕ) → Good q thread c ns → Kept q thread ns (goes_on q c)
  stay c ns g = record {
    nodes = ns;
    leaves = refl;
    same_sentinel = refl;
    good = g;
    nothing = λ e. cc;
  }

  idle-testing : (ns : List ℕ) → Shape q thread idle ns → Shape q thread testing ns
  idle-testing [] h = h
  idle-testing (n ∷ rest) h = h

  idle-heading : (ns : List ℕ) → Shape q thread idle ns → Shape q thread heading ns
  idle-heading [] h = h
  idle-heading (n ∷ rest) h = h

  testing-idle : (ns : List ℕ) → Shape q thread testing ns → Shape q thread idle ns
  testing-idle [] h = h
  testing-idle (n ∷ rest) h = h

  tail_is_sentinel :
      (ns : List ℕ)
      → All (λ n. n ≢ q.sentinel) ns
      → Shape q thread testing ns
      → q.p ≡ q.sentinel
      → ns ≡ []
  tail_is_sentinel [] v h e = refl
  tail_is_sentinel (n ∷ rest) v h e = absurd (
      Among-All (λ m. m ≢ q.sentinel) q.p (n ∷ rest) v (Chain-Among q.next thread n rest q.p h.1) e)

  pub idle-Kept : (ns : List ℕ) → Good q thread idle ns → Kept q thread ns (dequeue_step q idle)
  unfolding dequeue_step
  idle-Kept ns g =
      let test : Good q thread testing ns = record {
        shape = idle-testing ns g.shape;
        open_end = g.open_end;
        not_last = g.not_last;
        member = g.member;
      } in
      let look : Good q thread heading ns = record {
        shape = idle-heading ns g.shape;
        open_end = g.open_end;
        not_last = g.not_last;
        member = g.member;
      } in
      elim (Bool-cases (is_null (q.next q.sentinel))) [
        | inl e ↦ rw e (stay testing ns test)
        | inr e ↦ rw e (stay heading ns look)
      ]

  pub testing-Kept :
      (ns : List ℕ)
      → All (λ n. n ≢ q.sentinel) ns
      → Good q thread testing ns
      → Kept q thread ns (dequeue_step q testing)
  unfolding dequeue_step
  testing-Kept ns v g = elim (Bool-cases (q.p == q.sentinel)) [
    | inl e ↦ rw e (record {
      nodes = ns;
      leaves = refl;
      same_sentinel = refl;
      good = record {
        shape = testing-idle ns g.shape;
        open_end = g.open_end;
        not_last = g.not_last;
        member = g.member;
      };
      nothing = λ r. tail_is_sentinel ns v g.shape (ground arith);
    })
    | inr e ↦ rw e (
        stay heading ns (record {
          shape = idle-heading ns (testing-idle ns g.shape);
          open_end = g.open_end;
          not_last = g.not_last;
          member = g.member;
        }))
  ]

  found :
      (n : ℕ) (ns : List ℕ)
      → q.next q.sentinel ≡ some n
      → Shape q thread heading ns
      → Shape q thread (peeking n) ns
  found n [] e h = absurd (cc (e, h.0))
  found n (m ∷ rest) e (inl f, chain) = ((cc, f), chain)
  found n (m ∷ rest) e (inr (f, u), chain) = absurd (cc (e, f))

  pub heading-Kept :
      (ns : List ℕ) → Good q thread heading ns → Kept q thread ns (dequeue_step q heading)
  unfolding dequeue_step
  heading-Kept ns g = elim (Option-cases (q.next q.sentinel)) [
    | inl e ↦ rw (e, dequeue_step) (stay heading ns g)
    | inr (n, e) ↦
        rw (e, dequeue_step)
          (stay (peeking n) ns (record {
            shape = found n ns e g.shape;
            open_end = g.open_end;
            not_last = g.not_last;
            member = g.member;
          }))
  ]
