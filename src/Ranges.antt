-- ===== src/Ranges.antt =====
-- src/ranges.c: lists of address or port ranges.
pub mod Pick
pub mod Mask
pub mod Cover
pub mod Ordered
pub mod Parse
use hype.Base.{
  ℕ, zero, suc, ◌+◌, ◌-◌, ◌^◌, List, [], ◌∷◌, Option, none, some, u32, u64, ltb, leb, ◌&&◌, Bool,
  if◌then◌else◌,
}
use hype.Utlist.{Utlist}
use mathlib.Core.Option

-- `struct range`; both ends belong to it.
pub record Range : Type 0 where
  pub start : ℕ
  pub end : ℕ

-- `(cur->end - cur->start) + 1`, in 32 bits.
abbrev pub size : Range → ℕ
size cur = u32 (u32 (cur.end + (2 ^ 32 - cur.start)) + 1)

unfoldable pub range_list_pick : List Range → ℕ → ℕ
range_list_pick [] index = 0
range_list_pick (cur ∷ rest) index =
    let later = range_list_pick rest (index - size cur) in
    if ltb index (size cur) then u32 (cur.start + index) else later

unfoldable pub range_list_min : List Range → ℕ
range_list_min list = range_list_pick list 0

-- The loop of `range_list_count`, with a `size_t` total.
unfoldable pub count_from : ℕ → List Range → ℕ
count_from count [] = count
count_from count (cur ∷ rest) = count_from (u64 (count + size cur)) rest

unfoldable pub range_list_count : List Range → ℕ
range_list_count list = count_from 0 list

-- The three tests of the first loop of `range_list_add`.
abbrev pub inside : Range → ℕ → ℕ → Bool
inside cur start end = leb cur.start start && leb end cur.end

abbrev pub reaches_left : Range → ℕ → ℕ → Bool
reaches_left cur start end = ltb start cur.start && leb cur.start end

abbrev pub reaches_right : Range → ℕ → ℕ → Bool
reaches_right cur start end = ltb start cur.end && leb cur.end end

-- The first loop: the list as it returns, or `none` if it runs to the end.
unfoldable pub extend : List Range → ℕ → ℕ → Option (List Range)
extend [] start end = none
extend (cur ∷ rest) start end =
    if inside cur start end
    then some (cur ∷ rest)
    else if reaches_left cur start end
    then some (record cur { start = start } ∷ rest)
    else if reaches_right cur start end
    then some (record cur { end = end } ∷ rest)
    else Option.map (λ l. cur ∷ l) (extend rest start end)

-- The second loop: the position of the first range that lies behind `end`.
unfoldable pub position : List Range → ℕ → ℕ → Option ℕ
position [] end i = none
position (cur ∷ rest) end i =
    let later = position rest end (suc i) in if ltb end cur.start then some i else later

module _ (lists : Utlist Range) where
  -- The second half of `range_list_add`: the new range goes before that position, or to the end.
  unfoldable pub insert_new : List Range → ℕ → ℕ → List Range
  insert_new list start end =
      let new : Range = record { start = start; end = end } in
      elim (position list end 0) [
        | some i ↦ lists.prepend_elem list i new
        | none ↦ lists.append list new
      ]

  unfoldable pub range_list_add : List Range → ℕ → ℕ → List Range
  range_list_add list start end = elim (extend list start end) [
    | some l ↦ l
    | none ↦ insert_new list start end
  ]

-- The ranges in the order in which they are unlinked and freed.
unfoldable pub range_list_free : List Range → List Range
range_list_free [] = []
range_list_free (cur ∷ rest) = cur ∷ range_list_free rest
