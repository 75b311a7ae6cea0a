-- ===== src/Netdev/Transmit/Inv.antt =====
-- The invariant of the sending ring, while the thread injects every buffer that it gets.
use hype.Base.{
  ℕ, suc, ◌+◌, ◌-◌, ◌%◌, ◌<◌, ◌≤◌, ◌≡◌, ◌≢◌, inl, inr, sym, ap, ◌∙◌, List, [], ◌∷◌, ◌++◌, ◌==◌, ltb,
  arith, Bool-cases, ap₂, ==_iff,
}
use mathlib.Core.List.{append_assoc}
use hype.Netdev.{ring_frame_nr, TxStatus, available, send_request, other_status}
use hype.Netdev.Transmit.{Ring, set_bytes, set_status, kernel_took, kernel_returned}
use hype.Netdev.Transmit.Window.{held, held-snoc, held-ext, held-head}
use hype.Netdev.Transmit.Round.{requested, moved}

-- The requests are those of `n` frames from the kernel's place to the thread's, and the frames that were
-- injected are on the wire or in those.
pub record Inv (s : Ring) (frames : List (List ℕ)) : Type 0 where
  pub n : ℕ
  pub room : n ≤ ring_frame_nr
  pub inside : s.head < ring_frame_nr
  pub place : s.tx.tx_ring_off ≡ (s.head + n) % ring_frame_nr
  pub wanted : (k : ℕ) → k < n → s.tx.tx_status ((s.head + k) % ring_frame_nr) ≡ send_request
  pub others :
      (k : ℕ)
      → n ≤ k
      → k < ring_frame_nr
      → s.tx.tx_status ((s.head + k) % ring_frame_nr) ≢ send_request
  pub order : frames ≡ s.wire ++ held s.tx_bytes s.head n

-- A frame that is free is none of those with a request.
free-lt :
    (s : Ring) (frames : List (List ℕ)) (i : Inv s frames)
    → s.tx.tx_status s.tx.tx_ring_off ≡ available
    → i.n < ring_frame_nr
free-lt s frames i free = elim (Bool-cases (ltb i.n ring_frame_nr)) [
  | inl less ↦ ground arith
  | inr full ↦
      let at_head : s.tx.tx_ring_off ≡ (s.head + 0) % ring_frame_nr =
        ground (arith, i.room, i.place, i.inside) in
      absurd (cc (i.wanted 0 (ground arith), at_head, free))
]

set_status-at : (v : ℕ → TxStatus) (i j : ℕ) (x : TxStatus) → j ≡ i → set_status v i x j ≡ x
set_status-at v i j x e = ground arith

set_status-off : (v : ℕ → TxStatus) (i j : ℕ) (x : TxStatus) → j ≢ i → set_status v i x j ≡ v j
set_status-off v i j x e = ground arith

apart :
    (h k n : ℕ)
    → k ≢ n
    → k < ring_frame_nr
    → n < ring_frame_nr
    → (h + k) % ring_frame_nr ≢ (h + n) % ring_frame_nr
apart h k n ne below below' = omega arith

set_bytes-held :
    (mem : ℕ → List ℕ) (h n : ℕ) (bytes : List ℕ)
    → n < ring_frame_nr
    → held (set_bytes mem ((h + n) % ring_frame_nr) bytes) h (suc n) ≡ held mem h n ++ (bytes ∷ [])
set_bytes-held mem h n bytes room =
    let mem' = set_bytes mem ((h + n) % ring_frame_nr) bytes in
    let kept : (k : ℕ) → k < n → mem' ((h + k) % ring_frame_nr) ≡ mem ((h + k) % ring_frame_nr) =
      λ k below. ground (arith, apart h k n (omega arith) (omega arith) room) in
    held-snoc mem' h n ∙ ap₂ (λ xs x. xs ++ (x ∷ [])) (held-ext mem' mem h h n kept) (ground arith)

pub requested-Inv :
    (s : Ring) (frames : List (List ℕ)) (bytes : List ℕ)
    → Inv s frames
    → s.tx.tx_status s.tx.tx_ring_off ≡ available
    → Inv (requested (moved s) s.tx.tx_ring_off bytes) (frames ++ (bytes ∷ []))
requested-Inv s frames bytes i free =
    let room = free-lt s frames i free in
    let off = s.tx.tx_ring_off in
    let place = i.place in
    let at : ℕ → ℕ = λ k. (s.head + k) % ring_frame_nr in
    record {
      n = suc i.n;
      room = omega arith;
      inside = i.inside;
      place = omega (arith, i.place);
      wanted = λ k below. elim (Bool-cases (k == i.n)) [
        | inl last ↦
            set_status-at s.tx.tx_status off (at k) send_request
              (ap at ((==_iff k i.n).0 last) ∙ sym place)
        | inr before ↦
            set_status-off s.tx.tx_status off (at k) send_request
              (λ e. apart s.head k i.n (ground arith) (omega arith) room (e ∙ place))
            ∙ i.wanted k (ground arith)
      ];
      others = λ k above below e. i.others k (omega arith) below (
          sym (
            set_status-off s.tx.tx_status off (at k) send_request
              (λ e. apart s.head k i.n (omega arith) below room (e ∙ place)))
          ∙ e);
      order =
          ap (λ fs. fs ++ (bytes ∷ [])) i.order
          ∙ append_assoc s.wire (held s.tx_bytes s.head i.n) (bytes ∷ [])
          ∙ ap (λ fs. s.wire ++ fs)
              (sym (set_bytes-held s.tx_bytes s.head i.n bytes room)
                ∙ ap (λ o. held (set_bytes s.tx_bytes o bytes) s.head (suc i.n)) (sym place));
    }

pub took-Inv :
    (s : Ring) (frames : List (List ℕ))
    → Inv s frames
    → s.tx.tx_status s.head ≡ send_request
    → Inv (kernel_took s) frames
took-Inv s frames i asked =
    let inside = i.inside in
    let room = i.room in
    let some_left : 0 < i.n = elim (Bool-cases (ltb 0 i.n)) [
      | inl more ↦ ground arith
      | inr nothing ↦
          let at_head : (s.head + 0) % ring_frame_nr ≡ s.head = omega arith in
          absurd (i.others 0 (ground arith) (omega arith) (ap s.tx.tx_status at_head ∙ asked))
    ] in
    let n = i.n - 1 in
    let at : ℕ → ℕ = λ k. (s.head + k) % ring_frame_nr in
    let at' : ℕ → ℕ = λ k. ((s.head + 1) % ring_frame_nr + k) % ring_frame_nr in
    record {
      n = n;
      room = omega arith;
      inside = omega arith;
      place = omega (arith, i.place);
      wanted = λ k below.
          let ne : at' k ≢ s.head = omega arith in
          let e : at' k ≡ at (suc k) = omega arith in
          set_status-off s.tx.tx_status s.head (at' k) other_status ne
          ∙ ap s.tx.tx_status e
          ∙ i.wanted (suc k) (omega arith);
      others = λ k above below e. elim (Bool-cases (at' k == s.head)) [
        | inl round ↦ cc (
          set_status-at s.tx.tx_status s.head (at' k) other_status
              ((==_iff (at' k) s.head).0 round),
          e,
        )
        | inr on ↦
            let ne : at' k ≢ s.head = λ same. cc (on, (==_iff (at' k) s.head).1 same) in
            let next : at' k ≡ at (suc k) = omega arith in
            i.others (suc k) (omega arith) (omega arith) (
              ap s.tx.tx_status (sym next)
              ∙ sym (set_status-off s.tx.tx_status s.head (at' k) other_status ne)
              ∙ e)
      ];
      order =
          i.order
          ∙ ap (λ fs. s.wire ++ fs) (held-head s.tx_bytes s.head i.n inside some_left)
          ∙ sym (
              append_assoc s.wire (s.tx_bytes s.head ∷ [])
                (held s.tx_bytes ((s.head + 1) % ring_frame_nr) n));
    }

pub returned-Inv :
    (s : Ring) (frames : List (List ℕ)) (j : ℕ)
    → Inv s frames
    → s.tx.tx_status j ≡ other_status
    → Inv (kernel_returned s j) frames
returned-Inv s frames j i busy =
    let at : ℕ → ℕ = λ k. (s.head + k) % ring_frame_nr in
    record {
      n = i.n;
      room = i.room;
      inside = i.inside;
      place = i.place;
      wanted = λ k below.
          set_status-off s.tx.tx_status j (at k) available (λ e. cc (i.wanted k below, e, busy))
          ∙ i.wanted k below;
      others = λ k above below e. elim (Bool-cases (at k == j)) [
        | inl same ↦
            cc (set_status-at s.tx.tx_status j (at k) available ((==_iff (at k) j).0 same), e)
        | inr other ↦
            i.others k above below
              (sym (set_status-off s.tx.tx_status j (at k) available (λ e. ground arith)) ∙ e)
      ];
      order = i.order;
    }
