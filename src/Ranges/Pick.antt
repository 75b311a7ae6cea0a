-- ===== src/Ranges/Pick.antt =====
-- Picking by index goes through the numbers of the ranges in order.
use hype.Base.{
  ℕ, zero, suc, ◌+◌, ◌-◌, ◌^◌, ◌<◌, ◌≤◌, ◌≡◌, refl, List, [], ◌∷◌, ◌++◌, some, length, get_elem?,
  All, u32, u64, arith, ap, ◌∙◌, length-append, ltb, Bool-cases, inl, inr,
}
use hype.Ranges.{Range, size, range_list_pick, count_from, range_list_count}

-- A range from a start to an end, and not the whole of the 32-bit numbers.
pub record IsRange (r : Range) : Type 0 where
  pub ordered : r.start ≤ r.end
  pub bounded : r.end < 2 ^ 32
  pub partial : r.end < r.start + (2 ^ 32 - 1)

-- `n` numbers from `s` on.
unfoldable pub numbers : ℕ → ℕ → List ℕ
numbers s zero = []
numbers s (suc n) = s ∷ numbers (s + 1) n

-- The numbers of all ranges, one range after the other.
unfoldable pub enumerate : List Range → List ℕ
enumerate [] = []
enumerate (r ∷ rest) = numbers r.start (r.end + 1 - r.start) ++ enumerate rest

length-numbers : (s n : ℕ) → length (numbers s n) ≡ n
unfolding numbers
length-numbers s zero = refl
length-numbers s (suc n) = omega (arith, length-numbers (s + 1) n)

get_elem?-numbers :
    (s n i : ℕ) (rest : List ℕ) → i < n → get_elem? (numbers s n ++ rest) i ≡ some (s + i)
unfolding numbers
get_elem?-numbers s zero i rest h = elim h [ ]
get_elem?-numbers s (suc n) zero rest h = ap some (omega arith)
get_elem?-numbers s (suc n) (suc i) rest h =
    get_elem?-numbers (s + 1) n i rest (omega arith) ∙ ap some (omega arith)

get_elem?-behind :
    (xs ys : List ℕ) (i : ℕ) → length xs ≤ i → get_elem? (xs ++ ys) i ≡ get_elem? ys (i - length xs)
get_elem?-behind [] ys i h = ap (get_elem? ys) (omega arith)
get_elem?-behind (x ∷ xs) ys zero h = absurd (omega arith)
get_elem?-behind (x ∷ xs) ys (suc i) h =
    get_elem?-behind xs ys i (omega arith) ∙ ap (get_elem? ys) (omega arith)

size-eq : (r : Range) → IsRange r → size r ≡ r.end + 1 - r.start
size-eq r v = omega arith

in_range :
    (r : Range) (index : ℕ)
    → IsRange r
    → index < r.end + 1 - r.start
    → r.start + index ≡ u32 (r.start + index)
in_range r index v h = omega arith

-- On ranges from a start to an end, none of them the whole 32-bit space, `range_list_pick` at an
-- index below the number of their numbers gives the number at that index of the enumeration.
pub range_list_pick-enumerate :
    (list : List Range) (index : ℕ)
    → All IsRange list
    → index < length (enumerate list)
    → get_elem? (enumerate list) index ≡ some (range_list_pick list index)
unfolding enumerate range_list_pick
range_list_pick-enumerate [] index v h = elim h [ ]
range_list_pick-enumerate (r ∷ rest) index v h =
    let block = numbers r.start (r.end + 1 - r.start) in
    let n = length-numbers r.start (r.end + 1 - r.start) in
    let whole = size-eq r v.0 in
    elim (Bool-cases (ltb index (size r))) [
      | inl here ↦ rw here (
          get_elem?-numbers r.start (r.end + 1 - r.start) index (enumerate rest) (ground arith)
          ∙ ap some (in_range r index v.0 (ground arith)))
      | inr behind ↦ rw behind (
          get_elem?-behind block (enumerate rest) index (ground arith)
          ∙ ap (get_elem? (enumerate rest)) (omega arith)
          ∙ range_list_pick-enumerate rest (index - size r) v.1
              (ground (arith, length-append block (enumerate rest))))
    ]

count_from-eq :
    (count : ℕ) (list : List Range)
    → All IsRange list
    → count + length (enumerate list) < 2 ^ 64
    → count_from count list ≡ count + length (enumerate list)
unfolding count_from enumerate
count_from-eq count [] v h = omega arith
count_from-eq count (r ∷ rest) v h = ground (
  arith,
  size-eq r,
  length-append (numbers r.start (r.end + 1 - r.start)) (enumerate rest),
  length-numbers r.start (r.end + 1 - r.start),
  count_from-eq (u64 (count + size r)) rest,
)

-- On ranges from a start to an end, none of them the whole 32-bit space, `range_list_count` is the
-- length of the enumeration of their numbers, if that is below 2 ^ 64.
pub range_list_count-enumerate :
    (list : List Range)
    → All IsRange list
    → length (enumerate list) < 2 ^ 64
    → range_list_count list ≡ length (enumerate list)
unfolding range_list_count
range_list_count-enumerate list v h = omega (arith, count_from-eq 0 list v)
