-- ===== src/Ranges/Cover.antt =====
-- What `range_list_add` does to the set of numbers that a list covers.
use hype.Base.{
  ℕ, suc, ◌-◌, ◌<◌, ◌≤◌, ◌≡◌, ◌⊎◌, ◌↔◌, inl, inr, refl, List, [], ◌∷◌, ◌++◌, some, none, length,
  All, arith, sym, ap, ◌∙◌, ltb, Bool-cases, Option-cases,
}
use mathlib.Core.List.{append-nil}
use hype.Utlist.{Utlist}
use hype.Ranges.{Range, extend, position, insert_new, range_list_add}

abbrev pub Within : Range → ℕ → Type 0
Within r x = (r.start ≤ x) × (x ≤ r.end)

abbrev pub Covers : List Range → ℕ → Type 0
Covers [] x = ⊥
Covers (r ∷ rest) x = Within r x ⊎ Covers rest x

-- The range runs forwards, and `start` to `end` does not stick out of it on both sides.
abbrev pub NotSwallowed : ℕ → ℕ → Range → Type 0
NotSwallowed start end r = (r.start ≤ r.end) × (start < r.start → r.start ≤ end → end ≤ r.end)

extend_here :
    (cur : Range) (rest l : List Range) (start end x : ℕ)
    → start ≤ end
    → NotSwallowed start end cur
    → extend (cur ∷ rest) start end ≡ some l
    → extend rest start end ≡ none
    → Covers l x ↔ (Covers (cur ∷ rest) x ⊎ Within (record { start = start; end = end }) x)
unfolding extend
extend_here cur rest l start end x le v e nothing = ground arith

extend-Covers :
    (list l : List Range) (start end x : ℕ)
    → start ≤ end
    → All (NotSwallowed start end) list
    → extend list start end ≡ some l
    → Covers l x ↔ (Covers list x ⊎ Within (record { start = start; end = end }) x)
unfolding extend
extend-Covers [] l start end x le v e = cc
extend-Covers (cur ∷ rest) l start end x le v e = elim (Option-cases (extend rest start end)) [
  | inl nothing ↦ extend_here cur rest l start end x le v.0 e nothing
  | inr (m, later) ↦ ground (arith, extend-Covers rest m start end x)
]

Covers-append :
    (pre post : List Range) (x : ℕ) → Covers (pre ++ post) x ↔ (Covers pre x ⊎ Covers post x)
Covers-append [] post x = ground arith
Covers-append (r ∷ pre) post x = ground (arith, Covers-append pre post x)

-- Where the second loop stops: before a range that lies behind `end`, and behind no such range.
pub record Stops (list : List Range) (end i : ℕ) : Type 0 where
  pub pre : List Range
  pub cur : Range
  pub post : List Range
  pub splits : list ≡ pre ++ (cur ∷ post)
  pub here : i ≡ length pre
  pub behind : end < cur.start
  pub before : All (λ r. r.start ≤ end) pre

pub position-Stops :
    (list : List Range) (end i j : ℕ)
    → position list end i ≡ some j
    → (i ≤ j) × Stops list end (j - i)
unfolding position
position-Stops [] end i j e = cc
position-Stops (cur ∷ rest) end i j e = elim (Bool-cases (ltb end cur.start)) [
  | inl found ↦ (
    ground arith,
    record {
      pre = [];
      cur = cur;
      post = rest;
      splits = refl;
      here = ground arith;
      behind = ground arith;
      before = tt;
    },
  )
  | inr not_yet ↦
      let (le, s) = position-Stops rest end (suc i) j (ground arith) in
      (
        omega arith,
        record {
          pre = cur ∷ s.pre;
          cur = s.cur;
          post = s.post;
          splits = ap (λ l. cur ∷ l) s.splits;
          here = omega (arith, s.here);
          behind = s.behind;
          before = (ground arith, s.before);
        },
      )
]

pub position-none :
    (list : List Range) (end i : ℕ) → position list end i ≡ none → All (λ r. r.start ≤ end) list
unfolding position
position-none [] end i e = tt
position-none (cur ∷ rest) end i e = (ground arith, position-none rest end (suc i) (ground arith))

module _ (lists : Utlist Range) where
  -- What `insert_new` makes of the list, without the list operations.
  pub insert_new-cases :
      (list : List Range) (start end : ℕ)
      → (pre : List Range) × (post : List Range) × (list ≡ pre ++ post)
        × (insert_new lists list start end ≡ pre ++ (record { start = start; end = end } ∷ post))
        × All (λ r. r.start ≤ end) pre
        × ((post ≡ [])
            ⊎ ((cur : Range) × (rest : List Range) × (post ≡ cur ∷ rest) × (end < cur.start)))
  unfolding insert_new
  insert_new-cases list start end = elim (Option-cases (position list end 0)) [
    | inl last ↦ (
      list,
      [],
      sym (append-nil list),
      rw (last, insert_new) (lists.append_lem list (record { start = start; end = end })),
      position-none list end 0 last,
      inl refl,
    )
    | inr (i, found) ↦
        let s = (position-Stops list end 0 i found).1 in
        (
          s.pre,
          s.cur ∷ s.post,
          s.splits,
          rw (found, insert_new)
              (ap (λ l. lists.prepend_elem l i (record { start = start; end = end })) s.splits
                ∙ ap
                    (λ n.
                      lists.prepend_elem (s.pre ++ (s.cur ∷ s.post)) n
                        (record { start = start; end = end }))
                    (same_index i ∙ s.here)
                ∙ lists.prepend_elem_lem s.pre s.post s.cur (record { start = start; end = end })),
          s.before,
          inr (s.cur, s.post, refl, s.behind),
        )
  ]
    where
      same_index : (i : ℕ) → i ≡ i - 0
      same_index i = omega arith

  insert_new-Covers :
      (list : List Range) (start end x : ℕ)
      → Covers (insert_new lists list start end) x
        ↔ (Covers list x ⊎ Within (record { start = start; end = end }) x)
  insert_new-Covers list start end x =
      let (pre, post, split, result, before, behind) = insert_new-cases list start end in
      rw (result, split)
        (ground (
          arith,
          Covers-append pre post x,
          Covers-append pre (record { start = start; end = end } ∷ post) x,
        ))

  pub add-insert_new :
      (list : List Range) (start end : ℕ)
      → extend list start end ≡ none
      → range_list_add lists list start end ≡ insert_new lists list start end
  unfolding range_list_add
  add-insert_new list start end e = rw (e, range_list_add)

  add-extend :
      (list l : List Range) (start end : ℕ)
      → extend list start end ≡ some l
      → range_list_add lists list start end ≡ l
  unfolding range_list_add
  add-extend list l start end e = rw (e, range_list_add)

  -- Adding a range that runs forwards to a list of such ranges, of which it neither surrounds one nor
  -- reaches past the end of one from before its start: the list then covers exactly what it covered
  -- before and the numbers of the new range.
  pub range_list_add-Covers :
      (list : List Range) (start end x : ℕ)
      → start ≤ end
      → All (NotSwallowed start end) list
      → Covers (range_list_add lists list start end) x
        ↔ (Covers list x ⊎ Within (record { start = start; end = end }) x)
  range_list_add-Covers list start end x le v = elim (Option-cases (extend list start end)) [
    | inl nothing ↦ rw (add-insert_new list start end nothing) (insert_new-Covers list start end x)
    | inr (l, found) ↦
        rw (add-extend list l start end found) (extend-Covers list l start end x le v found)
  ]

  -- A new range that sticks out of the list's first range on both sides loses its numbers behind that
  -- range: after adding it, the list covers such a number only if one of its other ranges did before.
  pub range_list_add_swallows :
      (cur : Range) (rest : List Range) (start end x : ℕ)
      → cur.start ≤ cur.end
      → start < cur.start
      → cur.end < end
      → cur.end < x
      → Covers (range_list_add lists (cur ∷ rest) start end) x ↔ Covers rest x
  unfolding range_list_add extend
  range_list_add_swallows cur rest start end x ordered left right beyond = ground arith
