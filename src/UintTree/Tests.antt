-- ===== src/UintTree/Tests.antt =====
-- The theorems about the tree at concrete inputs, and runs that follow nettree/tree_test.go.
use tanlnode.Base.{ℕ, ◌+◌, ◌<◌, ◌≤◌, ◌≡◌, ◌↔◌, refl, true, false, not, ◌&&◌, ◌||◌, some, arith}
use tanlnode.UintTree.{UintTree, nil, node, put, delete, put_nth_free, overlaps, size}
use tanlnode.UintTree.Spec.{
  IsValid, IsSubnet, covered, in_subnet, assigned, prefix_bits, used, taken,
}
use tanlnode.UintTree.Nth.{count_free}
use tanlnode.UintTree.Laws.Puts.{put_iff, covered-put, put-IsValid}
use tanlnode.UintTree.Laws.Deletes.{delete-eq-assigned, covered-delete, delete-IsValid, delete-put}
use tanlnode.UintTree.Laws.Picks.{TakesFree, put_nth_free_lem}
use tanlnode.UintTree.Laws.Sizes.{size-add-free}
use tanlnode.UintTree.Laws.Overlaps.{overlaps-eq-not-put}

abbrev empty : UintTree
empty = record { root = nil; ms_bit = 32768; max_uint = 65535; max_pref_bits = 16 }

-- 0x8000/1 is assigned.
abbrev upper_half : UintTree
upper_half = record empty { root = node nil (node nil nil 32768) 32768 }

-- A tree of four addresses with the second one assigned.
abbrev four : UintTree
four = record {
  root = node (node nil (node nil nil 1) 1) nil 1;
  ms_bit = 2;
  max_uint = 3;
  max_pref_bits = 2;
}

upper_half-IsValid : IsValid 16 upper_half
unfolding used
upper_half-IsValid = record {
  level_pos = omega arith;
  level_le = omega arith;
  mask = refl;
  bound = refl;
  counted = (refl, tt, (refl, tt, tt));
}

four-IsValid : IsValid 16 four
unfolding used
four-IsValid = record {
  level_pos = omega arith;
  level_le = omega arith;
  mask = refl;
  bound = refl;
  counted = (refl, (refl, tt, (refl, refl, refl)), tt);
}

quarter : IsSubnet upper_half 0x4000 2
quarter = record { addr_le = omega arith; bits_le = omega arith }

half : IsSubnet upper_half 0x8000 1
half = record { addr_le = omega arith; bits_le = omega arith }

-- The test of the whole tree: its counter wraps to 0.
whole_tree :
    (put 16 empty 0 0 ≡ (record empty { root = node nil nil 0 }, true))
    × ((put 16 (put 16 empty 0 0).0 0 0).1 ≡ false)
    × ((put 16 (put 16 empty 0 0).0 0xffff 16).1 ≡ false)
    × (size (put 16 empty 0 0).0 ≡ 65536)
    × (overlaps 16 (put 16 empty 0 0).0 0x1234 11 ≡ true)
unfolding put overlaps size
whole_tree = (refl, refl, refl, refl, refl)

three_subnets : UintTree
unfolding put
three_subnets = (put 16 (put 16 (put 16 empty 0 2).0 0xa000 3).0 0xe000 3).0

three_subnets_run :
    ((put 16 three_subnets 0x3000 4).1 ≡ false)
    × (overlaps 16 three_subnets 0 1 ≡ true)
    × (overlaps 16 three_subnets 0x4000 2 ≡ false)
    × ((delete 16 three_subnets 0 0).1 ≡ false)
    × ((delete 16 three_subnets 0xa000 3).1 ≡ true)
    × (size three_subnets ≡ 32768)
unfolding three_subnets overlaps size delete
three_subnets_run = (refl, refl, refl, refl, refl, refl)

nth_run :
    put_nth_free 16 four 1
    ≡ some (
      record four { root = node (node nil (node nil nil 1) 1) (node (node nil nil 1) nil 1) 2 },
      2,
    )
unfolding put_nth_free put
nth_run = refl

put_iff_example : ((put 16 upper_half 0x4000 2).1 ≡ true) ↔ (
    (x : ℕ)
    → x ≤ upper_half.max_uint
    → in_subnet upper_half 0x4000 2 x ≡ true
    → covered upper_half x ≡ false)
put_iff_example = put_iff {t = upper_half} upper_half-IsValid quarter

covered-put_example :
    covered (put 16 upper_half 0x4000 2).0 0x5555
    ≡ covered upper_half 0x5555
      || (put 16 upper_half 0x4000 2).1 && in_subnet upper_half 0x4000 2 0x5555
covered-put_example = covered-put {t = upper_half} upper_half-IsValid quarter 0x5555 (omega arith)

put-IsValid_example : IsValid 16 (put 16 upper_half 0x4000 2).0
put-IsValid_example = put-IsValid {t = upper_half} upper_half-IsValid quarter

delete-eq-assigned_example :
    (delete 16 upper_half 0x8000 1).1 ≡ assigned upper_half.root (prefix_bits 16 1 0x8000)
delete-eq-assigned_example = delete-eq-assigned {t = upper_half} upper_half-IsValid half

covered-delete_example :
    covered (delete 16 upper_half 0x8000 1).0 0x9000
    ≡ covered upper_half 0x9000
      && not ((delete 16 upper_half 0x8000 1).1 && in_subnet upper_half 0x8000 1 0x9000)
covered-delete_example =
    covered-delete {t = upper_half} upper_half-IsValid half 0x9000 (omega arith)

delete-IsValid_example : IsValid 16 (delete 16 upper_half 0x8000 1).0
delete-IsValid_example = delete-IsValid {t = upper_half} upper_half-IsValid half

delete-put_example : delete 16 (put 16 upper_half 0x4000 2).0 0x4000 2 ≡ (upper_half, true)
delete-put_example = delete-put {t = upper_half} upper_half-IsValid quarter (unfold put in refl)

two_free : 2 < count_free (covered four) (four.max_uint + 1)
unfolding count_free taken
two_free = omega arith

put_nth_free_lem_example :
    (x : ℕ) × (t' : UintTree) × (put_nth_free 16 four 2 ≡ some (t', x)) × TakesFree 16 four 2 t' x
put_nth_free_lem_example = put_nth_free_lem {t = four} four-IsValid 2 two_free

size-add-free_example :
    size four + count_free (covered four) (four.max_uint + 1) ≡ four.max_uint + 1
size-add-free_example = size-add-free {w = 16} {t = four} four-IsValid

overlaps-eq-not-put_example : overlaps 16 upper_half 0x4000 2 ≡ not (put 16 upper_half 0x4000 2).1
overlaps-eq-not-put_example = overlaps-eq-not-put {t = upper_half} upper_half-IsValid quarter
