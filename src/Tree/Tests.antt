-- ===== src/Tree/Tests.antt =====
-- Runs of the trees on small inputs, and the theorems at concrete trees.
use morning_projects.Common.{
  ℕ, ◌+◌, ◌≤◌, ◌≡◌, refl, true, false, ◌||◌, some, [], arith, ◌==◌, length,
}
use mathlib.Core.Option
use morning_projects.Tree.{
  Ptr, Node, leaf, node, Tree, exit_success, increment, bstree_lookup, traverse_inorder,
}
use morning_projects.Tree.Sorted.{Sorted, insert, contains}
use morning_projects.Tree.Find.{bstree_lookup-contains}
use morning_projects.Tree.Bst.{bstree_attach, bstree_lookup-attach}
use morning_projects.Tree.Avl.{
  avltree_attach, avltree_remove_data, avl_rebalance_ex, avl_rotation_ll,
}
use morning_projects.Tree.Avl.Attach.{Mended, Raised, avltree_attach-Balanced}
use morning_projects.Tree.Avl.Remove.{Deleted, avltree_remove_data-Deleted}
use morning_projects.Tree.Avl.Mend.{avl_rebalance_ex-Mended}
use morning_projects.Tree.Rb.{RbNode, red, black, rbtree_attach, rb_inorder, rb_sanity_check}
use morning_projects.Tree.Rb.Attach.{Rooted, rbtree_attach-Rooted}
use morning_projects.Tree.Rb.Order.{insert_new, rbtree_attach_inorder}

-- each pointer points to the number that it is
abbrev self : Ptr → ℕ
self p = p

abbrev two_left : Node
two_left = node (node leaf 30 leaf) 50 leaf

abbrev tree_of : Node → Tree Node
tree_of n = record { num_nodes = 2; root = n; has_remove = true }

-- a left-heavy insertion is mended by a rotation
attach_rotates :
    avltree_attach self true (tree_of two_left) 20
    ≡ some (
      exit_success,
      record {
        num_nodes = 3;
        root = node (node leaf 20 leaf) 30 (node leaf 50 leaf);
        has_remove = true;
      },
    )
unfolding avltree_attach avl_rotation_ll
attach_rotates = refl

-- the removal of 50 leaves the left side higher by two over two equal subtrees
abbrev level_left : Node
level_left = node (node (node leaf 10 leaf) 20 (node leaf 25 leaf)) 30 (node leaf 50 leaf)

remove_unbalances :
    avltree_remove_data self (tree_of level_left) 50
    ≡ some (
      exit_success,
      record {
        num_nodes = 1;
        root = node (node (node leaf 10 leaf) 20 (node leaf 25 leaf)) 30 leaf;
        has_remove = true;
      },
      [],
    )
unfolding avltree_remove_data avl_rebalance_ex
remove_unbalances = refl

bstree_lookup-contains_example :
    bstree_lookup self (tree_of level_left) 25 ≡ contains self 25 (traverse_inorder level_left)
bstree_lookup-contains_example = bstree_lookup-contains self (tree_of level_left) 25 (omega arith)

bstree_lookup-attach_example :
    let u = (bstree_attach self true (tree_of level_left) 27).1 in
    ((bstree_attach self true (tree_of level_left) 27).0 ≡ exit_success)
    × Sorted self (traverse_inorder u.root)
    × (length (traverse_inorder u.root) ≡ length (traverse_inorder level_left) + 1)
    × (u.num_nodes ≡ increment 2)
    × (bstree_lookup self u 27 ≡ ((◌==◌ 27 27) || bstree_lookup self (tree_of level_left) 27))
bstree_lookup-attach_example = bstree_lookup-attach self (tree_of level_left) 27 27 (omega arith)

avltree_attach-Balanced_example :
    (u : Tree Node) × (avltree_attach self true (tree_of two_left) 20 ≡ some (exit_success, u))
    × Raised self 20 two_left (some u.root)
    × (traverse_inorder u.root ≡ insert self 20 (traverse_inorder two_left))
    × (u.num_nodes ≡ increment 2)
avltree_attach-Balanced_example =
    avltree_attach-Balanced self 20 (tree_of two_left) (omega arith) (omega arith)

avltree_remove_data-Deleted_example :
    Deleted self (tree_of level_left) 50 (avltree_remove_data self (tree_of level_left) 50)
avltree_remove_data-Deleted_example =
    avltree_remove_data-Deleted self (tree_of level_left) 50 (omega arith)

avl_rebalance_ex-Mended_example :
    Mended 2 (avl_rebalance_ex (node two_left 60 leaf))
    × Mended 2 (avl_rebalance_ex (node leaf 60 two_left))
avl_rebalance_ex-Mended_example =
    avl_rebalance_ex-Mended (node leaf 30 leaf) 50 leaf 60 leaf (omega arith) (omega arith) refl
      (omega arith)

abbrev rb_root : RbNode
rb_root = RbNode.node black (RbNode.node red RbNode.leaf 10 RbNode.leaf) 20 RbNode.leaf

abbrev rb_tree : Tree RbNode
rb_tree = record { num_nodes = 2; root = rb_root; has_remove = false }

-- with the colour black in the new node's memory the insertion spoils the black height
attach_black :
    Option.map (λ out. (rb_sanity_check out.1.root).0) (rbtree_attach self true black rb_tree 5)
    ≡ some 0
unfolding rbtree_attach rb_sanity_check
attach_black = refl

rbtree_attach-Rooted_example :
    (u : Tree RbNode) × (rbtree_attach self true red rb_tree 5 ≡ some (exit_success, u))
    × ((m : ℕ) × (2 ≤ m) × (m ≤ 2 + 1) × Rooted m u.root × (rb_sanity_check u.root ≡ (m, [])))
rbtree_attach-Rooted_example =
    rbtree_attach-Rooted self 5 2 rb_tree (omega arith) ((tt, tt, refl, refl), tt, refl, refl)

rbtree_attach_inorder_example :
    (u : Tree RbNode) × (rbtree_attach self true black rb_tree 20 ≡ some (exit_success, u))
    × (rb_inorder u.root ≡ insert_new self 20 (rb_inorder rb_root))
    × (u.num_nodes ≡ increment 2)
rbtree_attach_inorder_example = rbtree_attach_inorder self black rb_tree 20 (omega arith)
