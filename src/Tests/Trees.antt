-- ===== src/Tests/Trees.antt =====
-- Trees of width 3 with leaves of width 4.
use consfs.Common.{
  ℕ, zero, suc, ◌+◌, ◌*◌, lt→ltb, ◌<◌, ◌≡◌, ◌==◌, if◌then◌else◌, true, false, none, some, List, [],
  ◌∷◌, refl, arith, ◌>>=◌, inl,
}
use consfs.Keys.{leaf_position_for, inner_position_for, scan}
use consfs.Keys.Position.{leaf_position_for-eq, inner_position_for-eq}
use consfs.Tree.Before.{find_last_less_then, descend_before, pick_before, place_before}
use consfs.Tree.{LeafNode, Node, Tree, leaf, inner}
use consfs.Tree.Arrays.{shift_up, copy}
use consfs.Tree.Find.{find, find_at, leaf_find, lookup, remove, remove_at, leaf_remove, descend}
use consfs.Tree.Insert.{
  add, new, insert_at, grow, leaf_insert, split_leaf, leaf_sibling, leaf_insert_nonfull,
  inner_insert, split_inner, inner_insert_nonfull, link_child, all_children, is_leaf, is_inner,
}
use consfs.Tree.Invariant.{IsTree}
use consfs.Tree.LeafOverwrite.{after}
use consfs.Tree.Add.{IsWide, add_lem, new_lem}
use consfs.Tree.Remove.{remove_lem}
use consfs.Tree.History.{Op, put, delete, run, perform, replay, lookup-run, run-Shows, Shows}
use consfs.Tree.Limits.{zero_key_lost, width_one_stops, full_leaf_overread}

abbrev noise : ℕ → ℕ
noise _ = 77

widths : IsWide 3 4
widths = omega arith

abbrev script : List Op
script =
    put 5 50
    ∷ put 3 30
    ∷ put 9 90
    ∷ put 1 10
    ∷ put 4 40
    ∷ put 2 20
    ∷ put 6 60
    ∷ put 7 70
    ∷ put 8 80
    ∷ delete 4
    ∷ put 3 33
    ∷ []

run-script :
    (new 3 4 noise >>= λ t. run 3 4 noise script t >>= λ t'. find t' 3) ≡ some (true, some 33)
unfolding new run perform add insert_at grow leaf_insert split_leaf leaf_sibling leaf_insert_nonfull
    inner_insert split_inner inner_insert_nonfull link_child all_children is_leaf is_inner shift_up
    copy scan leaf_position_for inner_position_for find find_at descend leaf_find remove remove_at
    leaf_remove
run-script = refl

abbrev short : List Op
short = put 5 50 ∷ put 3 30 ∷ delete 5 ∷ put 3 33 ∷ []

lookup-run_example : (new 3 4 noise >>= λ t. run 3 4 noise short t >>= λ t'. lookup t' 3) ≡ some 33
lookup-run_example =
    lookup-run 3 4 noise widths 100 short 3
      (omega arith, (omega arith, ((omega arith, (50, refl)), (omega arith, tt)))) (omega arith)

-- A full leaf with the keys 10, 20, 30 and 40.
abbrev tens : LeafNode
tens = record { num_keys = 4; keys = λ i. i * 10 + 10; values = λ i. i + 1 }

abbrev ten_tree : Tree
ten_tree = record { depth = 0; root = leaf tens }

ten_tree-IsTree : IsTree 3 4 100 ten_tree
ten_tree-IsTree = record {
  width = omega arith;
  sorted = λ i j h k. omega arith;
  low = λ i h. omega arith;
  high = λ i h. omega arith;
  stale = λ j h k. absurd (omega arith);
}

find-ten_tree : find ten_tree 20 ≡ some (true, some 2)
unfolding find find_at descend leaf_find leaf_position_for scan
find-ten_tree = refl

add_lem_example :
    (t' : Tree) × (add 3 4 noise ten_tree 25 7 ≡ some t')
    × IsTree 3 4 100 t'
    × ((q : ℕ) → q < 100 → find t' q ≡ after 25 7 q (find ten_tree q))
add_lem_example =
    add_lem 3 4 noise widths 100 25 7 ten_tree ten_tree-IsTree (omega arith) (omega arith)

remove_lem_example :
    (t' : Tree) × (remove 4 ten_tree 20 ≡ some (true, t'))
    × IsTree 3 4 100 t'
    × ((q : ℕ) → q < 100 → find t' q ≡ after 20 0 q (find ten_tree q))
remove_lem_example =
    remove_lem 3 4 widths 100 20 ten_tree ten_tree-IsTree (omega arith) find-ten_tree

new_lem_example :
    (t : Tree) × (new 3 4 noise ≡ some t)
    × IsTree 3 4 100 t
    × ((q : ℕ) → find t q ≡ some (false, none))
new_lem_example = new_lem 3 4 noise widths 100

zero_key_lost_example :
    (new 3 4 noise >>= λ t. add 3 4 noise t 0 5 >>= λ t'. find t' 0) ≡ some (false, none)
zero_key_lost_example = zero_key_lost 3 4 noise widths 5

abbrev single : LeafNode
single = record { num_keys = 1; keys = λ _. 10; values = λ _. 1 }

width_one_stops_example : add 3 1 noise (record { depth = 0; root = leaf single }) 10 2 ≡ none
width_one_stops_example = width_one_stops 3 noise single 10 2 refl (omega arith)

full_leaf_overread_example : remove 4 ten_tree 50 ≡ none
full_leaf_overread_example = full_leaf_overread 4 50 tens (omega arith) refl (λ i h. omega arith)

leaf_position_for-eq_example : leaf_position_for 25 tens.keys 4 ≡ some 2
leaf_position_for-eq_example = leaf_position_for-eq 25 tens.keys (omega arith) (record {
  within = omega arith;
  passed = λ i h. lt→ltb (i * 10 + 10) 25 (omega arith);
  failed = λ _. refl;
})

inner_position_for-eq_example : inner_position_for 20 tens.keys 4 ≡ some 2
inner_position_for-eq_example =
    inner_position_for-eq 20 tens.keys (omega arith)
      (record { within = omega arith; passed = λ i h. ground arith; failed = λ _. refl })

abbrev fresh : Tree
fresh = record { depth = 0; root = leaf (record { num_keys = 0; keys = λ _. 0; values = noise }) }

fresh-IsTree : IsTree 3 4 100 fresh
fresh-IsTree = record {
  width = omega arith;
  sorted = λ i j h k. absurd (omega arith);
  low = λ i h. absurd (omega arith);
  high = λ i h. absurd (omega arith);
  stale = λ j h k. inl refl;
}

fresh-Shows : Shows 100 fresh (λ _. none)
unfolding find find_at descend leaf_find leaf_position_for scan
fresh-Shows q h = refl

run-Shows_example :
    (t' : Tree) × (run 3 4 noise short fresh ≡ some t')
    × IsTree 3 4 100 t'
    × Shows 100 t' (replay short (λ _. none))
run-Shows_example =
    run-Shows 3 4 noise widths 100 short fresh (λ _. none) fresh-IsTree fresh-Shows
      (omega arith, (omega arith, ((omega arith, (50, refl)), (omega arith, tt))))

-- A leaf with the keys 10 and 20, which is removed, and one with 30, 40, 50 and 60.
abbrev branch : ℕ → Node
branch zero =
    leaf (record { num_keys = 2; keys = λ j. j * 10 + 10; values = λ j. if j == 0 then 9 else 0 })
branch (suc i) = leaf (record { num_keys = 4; keys = λ j. j * 10 + 30; values = λ j. j + 1 })

abbrev two_leaves : Tree
two_leaves = record { depth = 1; root = inner 1 (λ i. 30) branch }

find_last_less_then_test : find_last_less_then 31 two_leaves 30 ≡ some (some (9, 10))
unfolding find_last_less_then descend_before pick_before place_before leaf_position_for
    inner_position_for scan
find_last_less_then_test = refl
