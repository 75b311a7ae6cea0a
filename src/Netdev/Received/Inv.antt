-- ===== src/Netdev/Received/Inv.antt =====
-- The invariant of the receiving ring, while the kernel refuses no frame.
use Prim.Native.Nat.{bit_and}
use hype.Base.{
  ℕ, suc, ◌+◌, ◌-◌, ◌%◌, ◌<◌, ◌≤◌, ◌≡◌, ◌≢◌, inl, inr, refl, sym, ap, ap₂, ◌∙◌, subst, List, [],
  ◌∷◌, ◌++◌, some, Bool, false, ◌==◌, arith, Bool-cases, ==_iff, ltb,
}
use mathlib.Core.List.{append_assoc, append-nil}
use hype.Header.{Pkt}
use hype.Utlist.{Utlist}
use hype.Loop.{Args}
use hype.Netdev.{
  ring_frame_nr, Frame, Polled, netdev_capture_sock, Receiver, set_frame, of_kernel,
  netdev_release_sock, recv_round,
}
use hype.Netdev.Transmit.Window.{held, held-snoc, held-ext, held-head}
use hype.Netdev.Received.{Line, filled, kernel_filled, taken}
use hype.Netdev.Received.Round.{mask_mod, free-taken, free-round, filled-round}

module _ (lists : Utlist Pkt) (script_recv : List Pkt → Bool) where
  -- The frames of the thread are `n` from its place to the kernel's, none of them refused.
  pub record Inv (s : Line) (given got : List (List ℕ)) : Type 0 where
    pub n : ℕ
    pub room : n ≤ ring_frame_nr
    pub inside : s.thread.rx_ring_off < ring_frame_nr
    pub place : s.next ≡ (s.thread.rx_ring_off + n) % ring_frame_nr
    pub full :
        (k : ℕ)
        → k < n
        → s.thread.rx_ring ((s.thread.rx_ring_off + k) % ring_frame_nr)
          ≡ filled (s.thread.rx_ring ((s.thread.rx_ring_off + k) % ring_frame_nr)).bytes
    pub free :
        (k : ℕ)
        → n ≤ k
        → k < ring_frame_nr
        → (s.thread.rx_ring ((s.thread.rx_ring_off + k) % ring_frame_nr)).user ≡ false
    pub order : given ≡ got ++ held (λ i. (s.thread.rx_ring i).bytes) s.thread.rx_ring_off n

  -- Only the ring and the place of the thread count.
  abbrev bytes_of : Line → ℕ → List ℕ
  bytes_of s i = (s.thread.rx_ring i).bytes

  set_frame-at : (v : ℕ → Frame) (i j : ℕ) (x : Frame) → j ≡ i → set_frame v i x j ≡ x
  unfolding set_frame
  set_frame-at v i j x e = ground arith

  set_frame-off : (v : ℕ → Frame) (i j : ℕ) (x : Frame) → j ≢ i → set_frame v i x j ≡ v j
  unfolding set_frame
  set_frame-off v i j x e = ground arith

  room-lt :
      (s : Line) (given got : List (List ℕ)) (i : Inv s given got)
      → (s.thread.rx_ring s.next).user ≡ false
      → i.n < ring_frame_nr
  room-lt s given got i free = elim (Bool-cases (ltb i.n ring_frame_nr)) [
    | inl less ↦ ground arith
    | inr all_full ↦
        let at_next : (s.thread.rx_ring_off + 0) % ring_frame_nr ≡ s.next =
          ground (arith, i.room, i.place, i.inside) in
        let full = i.full 0 (ground arith) in
        absurd (cc (ap (λ f. f.user) full, ap (λ k. (s.thread.rx_ring k).user) at_next, free))
  ]

  apart :
      (h k n : ℕ)
      → k ≢ n
      → k < ring_frame_nr
      → n < ring_frame_nr
      → (h + k) % ring_frame_nr ≢ (h + n) % ring_frame_nr
  apart h k n ne below below' = omega arith

  pub fills-Inv :
      (s : Line) (given got : List (List ℕ)) (bytes : List ℕ)
      → Inv s given got
      → (s.thread.rx_ring s.next).user ≡ false
      → Inv (kernel_filled s bytes) (given ++ (bytes ∷ [])) got
  fills-Inv s given got bytes i free =
      let room = room-lt s given got i free in
      let ring = s.thread.rx_ring in
      let place = i.place in
      let at : ℕ → ℕ = λ k. (s.thread.rx_ring_off + k) % ring_frame_nr in
      let off : (k : ℕ)
          → k ≢ i.n
          → k < ring_frame_nr
          → set_frame ring s.next (filled bytes) (at k) ≡ ring (at k) =
        λ k ne below.
          set_frame-off ring s.next (at k) (filled bytes)
            λ e. apart s.thread.rx_ring_off k i.n ne below room (e ∙ place) in
      let last : set_frame ring s.next (filled bytes) (at i.n) ≡ filled bytes =
        set_frame-at ring s.next (at i.n) (filled bytes) (sym place) in
      let mem = bytes_of (kernel_filled s bytes) in
      record {
        n = suc i.n;
        room = omega arith;
        inside = i.inside;
        place = omega (arith, i.place);
        full = λ k below. elim (Bool-cases (k == i.n)) [
          | inl now ↦
              let here : set_frame ring s.next (filled bytes) (at k) ≡ filled bytes =
                ap (λ j. set_frame ring s.next (filled bytes) (at j)) ((==_iff k i.n).0 now)
                ∙ last in
              here ∙ ap (λ f. filled f.bytes) (sym here)
          | inr before ↦
              let same = off k (ground arith) (omega arith) in
              same ∙ i.full k (ground arith) ∙ ap (λ f. filled f.bytes) (sym same)
        ];
        free = λ k above below.
            ap (λ f. f.user) (off k (omega arith) below) ∙ i.free k (omega arith) below;
        order =
            ap (λ fs. fs ++ (bytes ∷ [])) i.order
            ∙ append_assoc got (held (bytes_of s) s.thread.rx_ring_off i.n) (bytes ∷ [])
            ∙ ap (λ fs. got ++ fs)
                (sym (
                  held-snoc mem s.thread.rx_ring_off i.n
                  ∙ ap₂ (λ xs x. xs ++ (x ∷ []))
                      (held-ext mem (bytes_of s) s.thread.rx_ring_off s.thread.rx_ring_off i.n
                        λ k below. ap (λ f. f.bytes) (off k (omega arith) (omega arith)))
                      (ap (λ f. f.bytes) last)));
      }

  -- The thread gives its frame back and moves on.
  released-Inv :
      (s : Line) (given got : List (List ℕ)) (a : Args) (i : Inv s given got)
      → 0 < i.n
      → Inv
          (record s { thread = netdev_release_sock (record s.thread { args = a }) })
          given
          (got ++ ((s.thread.rx_ring s.thread.rx_ring_off).bytes ∷ []))
  unfolding netdev_release_sock
  released-Inv s given got a i some_left =
      let ring = s.thread.rx_ring in
      let off = s.thread.rx_ring_off in
      let inside = i.inside in
      let room = i.room in
      let moved : bit_and (off + 1) (ring_frame_nr - 1) ≡ (off + 1) % ring_frame_nr =
        mask_mod off inside in
      let ring' = set_frame ring off (of_kernel (ring off)) in
      let at : ℕ → ℕ = λ k. (off + k) % ring_frame_nr in
      let at' : ℕ → ℕ = λ k. ((off + 1) % ring_frame_nr + k) % ring_frame_nr in
      let on : (k : ℕ) → suc k < ring_frame_nr → ring' (at' k) ≡ ring (at (suc k)) = λ k below.
        let ne : at' k ≢ off = omega arith in
        let next : at' k ≡ at (suc k) = omega arith in
        set_frame-off ring off (at' k) (of_kernel (ring off)) ne ∙ ap ring next in
      let here : held (bytes_of s) off i.n
          ≡ (ring off).bytes ∷ held (bytes_of s) ((off + 1) % ring_frame_nr) (i.n - 1) =
        held-head (bytes_of s) off i.n inside some_left in
      subst
        (λ o.
          Inv (record s { thread = record s.thread { rx_ring = ring'; rx_ring_off = o; args = a } })
            given (got ++ ((ring off).bytes ∷ [])))
        (sym moved)
        (record {
          n = i.n - 1;
          room = omega arith;
          inside = omega arith;
          place = omega (arith, i.place);
          full = λ k below.
              let same = on k (omega arith) in
              same ∙ i.full (suc k) (omega arith) ∙ ap (λ f. filled f.bytes) (sym same);
          free = λ k above below. elim (Bool-cases (suc k == ring_frame_nr)) [
            | inl last ↦
                let round : at' k ≡ off = omega (arith, (==_iff (suc k) ring_frame_nr).0 last) in
                ap (λ f. f.user) (set_frame-at ring off (at' k) (of_kernel (ring off)) round)
            | inr more ↦
                ap (λ f. f.user) (on k (ground arith)) ∙ i.free (suc k) (omega arith) (ground arith)
          ];
          order =
              i.order
              ∙ ap (λ fs. got ++ fs) here
              ∙ sym (
                  append_assoc got ((ring off).bytes ∷ [])
                    (held (bytes_of s) ((off + 1) % ring_frame_nr) (i.n - 1)))
              ∙ ap (λ fs. (got ++ ((ring off).bytes ∷ [])) ++ fs)
                  (held-ext (bytes_of s) (λ j. (ring' j).bytes) ((off + 1) % ring_frame_nr)
                    ((off + 1) % ring_frame_nr) (i.n - 1)
                    λ k below.
                      let ne : at' k ≢ off = omega arith in
                      ap (λ f. f.bytes)
                        (sym (set_frame-off ring off (at' k) (of_kernel (ring off)) ne)));
        })

  pub rounds-Inv :
      (s : Line) (given got : List (List ℕ)) (polled : Polled) (r : Receiver)
      → Inv s given got
      → recv_round lists script_recv s.thread polled ≡ some r
      → Inv
          (record s { thread = r })
          given
          (got ++ taken (s.thread.rx_ring s.thread.rx_ring_off) polled)
  unfolding netdev_capture_sock
  rounds-Inv s given got polled r i e =
      let ring = s.thread.rx_ring in
      let off = s.thread.rx_ring_off in
      let inside = i.inside in
      let first : (off + 0) % ring_frame_nr ≡ off = omega arith in
      elim (Bool-cases (ltb 0 i.n)) [
        | inr nothing_left ↦
            let kernels : (ring off).user ≡ false =
              ap (λ k. (ring k).user) (sym first) ∙ i.free 0 (ground arith) (omega arith) in
            subst (λ fs. Inv (record s { thread = r }) given fs)
              (sym (append-nil got)
                ∙ ap (λ fs. got ++ fs) (sym (free-taken (ring off) polled kernels)))
              (subst (λ t. Inv (record s { thread = t }) given got)
                (free-round lists script_recv s.thread r polled kernels e) i)
        | inl some_left ↦
            let bytes = (ring off).bytes in
            let full : ring off ≡ filled bytes =
              ap ring (sym first)
              ∙ i.full 0 (ground arith)
              ∙ ap (λ k. filled (ring k).bytes) first in
            let (a, same) = filled-round lists script_recv s.thread r polled bytes full e in
            let gives : taken (ring off) polled ≡ bytes ∷ [] = rw full refl in
            subst (λ fs. Inv (record s { thread = r }) given (got ++ fs)) (sym gives)
              (subst (λ t. Inv (record s { thread = t }) given (got ++ (bytes ∷ []))) (sym same)
                (released-Inv s given got a i (ground arith)))
      ]
