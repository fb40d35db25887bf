-- ===== src/Tree/Avl/Mend.antt =====
-- `avl_rebalance_ex` at a node that is out of balance by two.
use morning_projects.Common.{◌+◌, ◌≡◌, ◌≢◌, ◌∙◌, some, arith, ltb, if◌then◌else◌}
use morning_projects.Tree.{Ptr, Node, leaf, node}
use morning_projects.Tree.Avl.{avl_node_height, avl_rebalance_ex, avl_rotation_rr, avl_rotation_rl}
use morning_projects.Tree.Avl.Attach.{Balanced, Mended, ll-Mended, lr-Mended, rr-Mended, rl-Mended}

-- on the left the balance factor is not above 1, so the right side is looked at
right_side :
    (l : Node) (k : Ptr) (a : Node) (m : Ptr) (b : Node)
    → avl_node_height (node a m b) ≡ avl_node_height l + 2
    → avl_rebalance_ex (node l k (node a m b)) ≡ (
        if ltb (avl_node_height a) (avl_node_height b)
        then avl_rotation_rr (node l k (node a m b))
        else if ltb (avl_node_height b) (avl_node_height a)
        then avl_rotation_rl (node l k (node a m b))
        else some (node l k (node a m b)))
unfolding avl_rebalance_ex
right_side leaf k a m b tall = ground arith
right_side (node c n d) k a m b tall = ground arith

-- Where the left subtree of two balanced ones is higher by two and the heights below it differ,
-- `avl_rebalance_ex` makes a balanced tree, one level lower; and so with the sides exchanged.
pub avl_rebalance_ex-Mended :
    (a : Node) (m : Ptr) (b : Node) (k : Ptr) (other : Node)
    → Balanced (node a m b)
    → Balanced other
    → avl_node_height (node a m b) ≡ avl_node_height other + 2
    → avl_node_height a ≢ avl_node_height b
    → Mended (avl_node_height other + 2) (avl_rebalance_ex (node (node a m b) k other))
      × Mended (avl_node_height other + 2) (avl_rebalance_ex (node other k (node a m b)))
unfolding avl_rebalance_ex
avl_rebalance_ex-Mended a m b k other bc bo tall differ = (
  ground (arith, ll-Mended a m b k other, lr-Mended a m b k other),
  rw (right_side other k a m b tall)
      (ground (arith, rr-Mended other k a m b, rl-Mended other k a m b)),
)

-- Where the heights below the higher subtree are equal, `avl_rebalance_ex` changes nothing, and the
-- node stays out of balance.
pub avl_rebalance_ex_gives_up :
    (a : Node) (m : Ptr) (b : Node) (k : Ptr) (other : Node)
    → avl_node_height (node a m b) ≡ avl_node_height other + 2
    → avl_node_height a ≡ avl_node_height b
    → (avl_rebalance_ex (node (node a m b) k other) ≡ some (node (node a m b) k other))
      × (¬ Balanced (node (node a m b) k other))
      × (avl_rebalance_ex (node other k (node a m b)) ≡ some (node other k (node a m b)))
      × (¬ Balanced (node other k (node a m b)))
unfolding avl_rebalance_ex
avl_rebalance_ex_gives_up a m b k other tall level = (
  ground arith,
  (λ h. omega arith),
  right_side other k a m b tall ∙ ground arith,
  (λ h. omega arith),
)
