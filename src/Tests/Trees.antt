-- ===== src/Tests/Trees.antt =====
-- data/boundTree/boundTree.c at a tree of the ranges from 100 to 200 and from 10 to 20.
use counter_rop.Common.{
  is_some, ℕ, ◌≡◌, refl, true, false, not, Option, none, some, arith, ◌||◌, ◌&&◌,
}
use counter_rop.Common.Word.{slt, word_mod}
use counter_rop.Common.Outcome.{ok, fault, then_with}
use counter_rop.Common.Heap.{Heap, Ptr, update}
use counter_rop.BoundTree.{
  BoundTree, BoundTreeData, TreeNode, tree_node, insert_range, find_range, find_loop, load,
  bound_tree_delete, bound_tree_new,
}
use counter_rop.BoundTree.Shape.{Shape, leaf, node, IsTree}
use counter_rop.BoundTree.Ranges.{Separated, covered}
use counter_rop.BoundTree.Bounds.{
  Holds, find_range-covered, insert_range-Holds, insert_range-covered, find_range_left,
  find_range_right,
}
use counter_rop.BoundTree.Delete.{bound_tree_delete_all, bound_tree_delete_new}
use counter_rop.BoundTree.Direct.{insert_range-find_then_insert, find_then_insert}

abbrev shape : Shape
shape = node 1 100 200 (node 2 10 20 leaf leaf) leaf

abbrev tree : BoundTree
tree = record {
  root = 1;
  is_initialized = true;
  heap = record {
    cell =
        update (update (λ _. none) 1 (some (tree_node 100 200 2 0))) 2 (some (tree_node 10 20 0 0));
    fresh = 3;
    room = 5;
  };
}

tree-Holds : Holds tree shape
tree-Holds = record {
  is_tree = record {
    initialized = refl;
    rooted = λ e. refl;
    repr = (omega arith, refl, (omega arith, refl, tt, tt), tt);
    distinct = (refl, refl, λ q m. refl, (refl, refl, λ q m. refl, tt, tt), tt);
    below = (omega arith, (omega arith, tt, tt), tt);
    sized = omega arith;
    exact = λ p out. ground arith;
  };
  separated =
      (omega arith, omega arith, omega arith, (omega arith, omega arith, omega arith, tt, tt), tt);
}

find_range-covered_example :
    (d : Option BoundTreeData) × (find_range 15 tree ≡ ok (d, tree)) × (is_some d ≡ false)
unfolding slt
find_range-covered_example = find_range-covered tree shape 15 tree-Holds

insert_range-Holds_example :
    (b' : BoundTree) × (t' : Shape) × (insert_range 30 99 tree ≡ ok (true, b'))
    × Holds b' t'
    × ((y : ℕ) → covered t' y ≡ ((not (slt y 30) && not (slt 99 y)) || covered shape y))
insert_range-Holds_example =
    insert_range-Holds tree shape 30 99 tree-Holds (omega arith) (unfold slt in refl) (omega arith)
      (unfold slt in omega arith)

insert_range-covered_example : insert_range 15 40 tree ≡ ok (false, tree)
insert_range-covered_example = insert_range-covered tree shape 15 40 tree-Holds (unfold slt in refl)

abbrev left_data : BoundTreeData
left_data = record { is_left_child = true; bound = 9; node = 2 }

find_range_left_example :
    (b' : BoundTree) × (t' : Shape) × (insert_range 5 9 tree ≡ ok (true, b')) × Holds b' t'
find_range_left_example =
    find_range_left tree shape 5 9 left_data tree-Holds (omega arith)
      (unfold find_range find_loop load slt in refl) refl (omega arith) (omega arith)

abbrev right_data : BoundTreeData
right_data = record { is_left_child = false; bound = 1029; node = 2 }

-- The search for 30 ends on the right of the range from 10 to 20, and the bound 1029 runs into the
-- range from 100 to 200.
find_range_right_example :
    (b' : BoundTree) × (t' : Shape) × (insert_range 30 1029 tree ≡ ok (true, b'))
    × IsTree b' t'
    × ¬ Separated 0 word_mod t'
find_range_right_example =
    find_range_right tree shape 30 right_data tree-Holds (omega arith)
      (unfold find_range find_loop load slt in refl) refl (unfold slt in omega arith)

insert_range-find_then_insert_example : insert_range 30 99 tree ≡ find_then_insert 30 99 tree
insert_range-find_then_insert_example = insert_range-find_then_insert tree 30 99

bound_tree_delete_all_example :
    (h : Heap TreeNode) × (bound_tree_delete tree ≡ ok h) × ((p : Ptr) → h.cell p ≡ none)
bound_tree_delete_all_example = bound_tree_delete_all tree shape tree-Holds.is_tree refl

bound_tree_delete_new_example : then_with (bound_tree_new true 7 5) bound_tree_delete ≡ fault
bound_tree_delete_new_example = bound_tree_delete_new true 7 5 (omega arith)
