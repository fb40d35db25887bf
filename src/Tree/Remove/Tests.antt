-- ===== src/Tree/Remove/Tests.antt =====
-- Runs of `BStree_remove` of common/src/tree/tree.c.
use morning_projects.Common.{ℕ, ◌≡◌, refl, true, none, some, [], ◌∷◌, ◌==◌, if◌then◌else◌, arith}
use morning_projects.Tree.{Ptr, exit_success}
use morning_projects.Tree.Strict.{Strict, delete}
use morning_projects.Tree.Remove.{HeapTree, NodeHeap, bstree_remove}
use morning_projects.Tree.Remove.Placed.{Placed, leaf, node, tree_cell, inorder}
use morning_projects.Tree.Remove.Removal.{Once}
use morning_projects.Tree.Remove.Outcome.{Without, bstree_remove-Without}

-- each pointer points to the number that it is
abbrev self : Ptr → ℕ
self p = p

-- 20 over 10 and 30, and 25 under 30
abbrev four : Placed
four = node (node leaf 1 10 leaf) 0 20 (node (node leaf 3 25 leaf) 2 30 leaf)

abbrev four_cells : NodeHeap
four_cells a =
    if a == 1
    then tree_cell 2 20 3
    else if a == 2
    then tree_cell 0 10 0
    else if a == 3
    then tree_cell 4 30 0
    else if a == 4
    then tree_cell 0 25 0
    else none

abbrev four_tree : HeapTree
four_tree = record { heap = four_cells; root = 1; num_nodes = 4; has_remove = true }

four-Once : Once [] four
four-Once x = ground arith

bstree_remove-Without_example :
    (u : HeapTree) × (bstree_remove 9 self four_tree 20 ≡ some (exit_success, u, 20 ∷ []))
    × (w : Without four_tree u four 20) × (Strict self (inorder four)
        → inorder w.left ≡ delete self 20 (inorder four))
bstree_remove-Without_example =
    (bstree_remove-Without self four_tree four 20 9
        (record { root = refl; lies = (refl, (refl, tt, tt), (refl, (refl, tt, tt), tt)) })
        four-Once (omega arith)).1
      [] (node leaf 1 10 leaf) 0 20 (node (node leaf 3 25 leaf) 2 30 leaf) refl tt
