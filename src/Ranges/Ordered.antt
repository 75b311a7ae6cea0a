-- ===== src/Ranges/Ordered.antt =====
-- Lists of ranges in increasing order without overlap, as adding disjoint ranges keeps them.
use hype.Base.{ℕ, ◌<◌, ◌≤◌, ◌≡◌, ◌⊎◌, refl, List, [], ◌∷◌, ◌++◌, none, All, arith, subst}
use hype.Utlist.{Utlist}
use hype.Ranges.{Range, extend, range_list_add}
use hype.Ranges.Cover.{insert_new-cases, add-insert_new}

-- The list begins behind `e`.
abbrev pub Behind : ℕ → List Range → Type 0
Behind e [] = Unit
Behind e (r ∷ rest) = e < r.start

abbrev pub IsOrdered : List Range → Type 0
IsOrdered [] = Unit
IsOrdered (r ∷ rest) = (r.start ≤ r.end) × Behind r.end rest × IsOrdered rest

abbrev pub Disjoint : ℕ → ℕ → Range → Type 0
Disjoint start end r = (end < r.start) ⊎ (r.end < start)

extend-none :
    (list : List Range) (start end : ℕ)
    → start ≤ end
    → IsOrdered list
    → All (Disjoint start end) list
    → extend list start end ≡ none
unfolding extend
extend-none [] start end le o d = refl
extend-none (cur ∷ rest) start end le o d = ground (arith, extend-none rest start end le o.2 d.1)

-- A new range between two parts of an ordered list.
between :
    (pre post : List Range) (start end : ℕ)
    → start ≤ end
    → IsOrdered (pre ++ post)
    → All (Disjoint start end) (pre ++ post)
    → All (λ r. r.start ≤ end) pre
    → Behind end post
    → IsOrdered (pre ++ (record { start = start; end = end } ∷ post))
between [] post start end le o d b h = (le, h, o)
between (r ∷ []) post start end le o d b h =
    (o.0, ground arith, between [] post start end le o.2 d.1 tt h)
between (r ∷ q ∷ pre) post start end le o d b h =
    (o.0, o.1, between (q ∷ pre) post start end le o.2 d.1 b.1 h)

module _ (lists : Utlist Range) where
  -- Adding a range that runs forwards and meets no range of an ordered list without overlap gives
  -- such a list again.
  pub range_list_add-IsOrdered :
      (list : List Range) (start end : ℕ)
      → start ≤ end
      → IsOrdered list
      → All (Disjoint start end) list
      → IsOrdered (range_list_add lists list start end)
  range_list_add-IsOrdered list start end le o d =
      let (pre, post, split, result, before, behind) = insert_new-cases lists list start end in
      rw (add-insert_new lists list start end (extend-none list start end le o d), result)
        (between pre post start end le (subst IsOrdered split o)
          (subst (All (Disjoint start end)) split d) before (ground (arith)))
