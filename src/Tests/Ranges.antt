-- ===== src/Tests/Ranges.antt =====
-- The range lists of src/ranges.c on small lists.
use hype.Base.{
  ◌-◌, ◌/◌, ◌^◌, ◌≤◌, ntohl, ◌≡◌, ◌⊎◌, ◌↔◌, refl, List, [], ◌∷◌, some, length, get_elem?, arith,
}
use hype.Utlist.{plain_lists, insert_at}
use hype.Ranges.{
  Range, range_list_pick, range_list_count, count_from, range_list_add, insert_new, extend,
  position,
}
use hype.Ranges.Pick.{enumerate, numbers, range_list_pick-enumerate, range_list_count-enumerate}
use hype.Ranges.Cover.{Within, Covers, range_list_add-Covers, range_list_add_swallows}
use hype.Ranges.Ordered.{IsOrdered, range_list_add-IsOrdered}
use hype.Ranges.Parse.{target_range}
use hype.Ranges.Mask.{target_range-covers}

abbrev low : Range
low = record { start = 5; end = 10 }

abbrev high : Range
high = record { start = 20; end = 22 }

abbrev two : List Range
two = low ∷ high ∷ []

add_between :
    range_list_add plain_lists two 12 14 ≡ low ∷ record { start = 12; end = 14 } ∷ high ∷ []
unfolding range_list_add insert_new extend position plain_lists insert_at
add_between = refl

-- 0 to 15 around 5 to 10: the numbers from 11 on are lost.
add_around : range_list_add plain_lists (low ∷ []) 0 15 ≡ record { start = 0; end = 10 } ∷ []
unfolding range_list_add extend
add_around = refl

-- The whole 32-bit space counts as nothing.
whole_counts_nothing : range_list_count (record { start = 0; end = 2 ^ 32 - 1 } ∷ []) ≡ 0
unfolding range_list_count count_from
whole_counts_nothing = refl

pick_second : range_list_pick two 7 ≡ 21
unfolding range_list_pick
pick_second = refl

range_list_pick-enumerate_example : get_elem? (enumerate two) 7 ≡ some (range_list_pick two 7)
range_list_pick-enumerate_example =
    range_list_pick-enumerate two 7 (omega arith) (unfold enumerate numbers in omega arith)

range_list_count-enumerate_example : range_list_count two ≡ length (enumerate two)
range_list_count-enumerate_example =
    range_list_count-enumerate two (omega arith) (unfold enumerate numbers in omega arith)

range_list_add-Covers_example :
    Covers (range_list_add plain_lists two 8 13) 12
    ↔ (Covers two 12 ⊎ Within (record { start = 8; end = 13 }) 12)
range_list_add-Covers_example =
    range_list_add-Covers plain_lists two 8 13 12 (omega arith) (omega arith)

range_list_add_swallows_example :
    Covers (range_list_add plain_lists (low ∷ []) 0 15) 12 ↔ Covers [] 12
range_list_add_swallows_example =
    range_list_add_swallows plain_lists low [] 0 15 12 (omega arith) (omega arith) (omega arith)
      (omega arith)

range_list_add-IsOrdered_example : IsOrdered (range_list_add plain_lists two 12 14)
range_list_add-IsOrdered_example =
    range_list_add-IsOrdered plain_lists two 12 14 (omega arith) (omega arith) (omega arith)

-- 192.168.0.7 is in 192.168.0.0/24, given in network order.
target_range-covers_example :
    (((target_range 0x0000a8c0 24).start ≤ 0xc0a80007)
      × (0xc0a80007 ≤ (target_range 0x0000a8c0 24).end))
    ↔ (0xc0a80007 / 2 ^ 8 ≡ ntohl 0x0000a8c0 / 2 ^ 8)
target_range-covers_example = target_range-covers 0x0000a8c0 24 0xc0a80007 (omega arith)
