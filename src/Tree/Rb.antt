-- ===== src/Tree/Rb.antt =====
-- common/src/tree/tree.c, the red-black tree: rotations, `RBtree_attach` and `rb_sanity_check`.
pub mod Attach
pub mod Order
use morning_projects.Common.{
  ℕ, ◌+◌, Bool, true, false, ◌&&◌, ◌||◌, Option, none, some, List, [], ◌∷◌, ◌++◌, ◌==◌,
  if◌then◌else◌, ◌>>=◌, not,
}
use Prim.Native.Nat.{Ordering}
use morning_projects.Tree.{Ptr, Tree, Status, exit_success, exit_failure, increment, compare_data}

pub data Color : Type 0 where
  red black : Color

-- `rbtree_node_tag`; a NULL child is `leaf`
pub data RbNode : Type 0 where
  leaf : RbNode
  node : Color → RbNode → Ptr → RbNode → RbNode

-- the calls of `display` in an in-order traversal
abbrev pub rb_inorder : RbNode → List Ptr
rb_inorder leaf = []
rb_inorder (node c l k r) = rb_inorder l ++ (k ∷ rb_inorder r)

abbrev pub is_red : RbNode → Bool
is_red leaf = false
is_red (node red l k r) = true
is_red (node black l k r) = false

-- The fields of a node that a test has shown not to be NULL.
abbrev pub left_child : RbNode → RbNode
left_child leaf = leaf
left_child (node c l k r) = l

abbrev pub right_child : RbNode → RbNode
right_child leaf = leaf
right_child (node c l k r) = r

abbrev pub paint : Color → RbNode → RbNode
paint c leaf = leaf
paint c (node d l k r) = node c l k r

-- The rotations read through child pointers: `none` is the fault at NULL.
unfoldable pub rb_rotation_ll : RbNode → Option RbNode
rb_rotation_ll leaf = none
rb_rotation_ll (node c leaf k r) = none
rb_rotation_ll (node c (node d a m b) k r) = some (node black a m (node red b k r))

unfoldable pub rb_rotation_rr : RbNode → Option RbNode
rb_rotation_rr leaf = none
rb_rotation_rr (node c l k leaf) = none
rb_rotation_rr (node c l k (node d a m b)) = some (node black (node red l k a) m b)

unfoldable pub rb_rotation_lr : RbNode → Option RbNode
unfolding rb_rotation_ll rb_rotation_rr
rb_rotation_lr leaf = none
rb_rotation_lr (node c l k r) = do l' ← rb_rotation_rr l; rb_rotation_ll (node c l' k r)

unfoldable pub rb_rotation_rl : RbNode → Option RbNode
unfolding rb_rotation_ll rb_rotation_rr
rb_rotation_rl leaf = none
rb_rotation_rl (node c l k r) = do r' ← rb_rotation_ll r; rb_rotation_rr (node c l k r')

-- `rb_rebalance` at `nav_dir < 0`
unfoldable pub rebalance_left : Color → RbNode → Ptr → RbNode → Option RbNode
unfolding rb_rotation_lr
rebalance_left c l k r =
    if is_red l
    then (if is_red r
        then some (node red (paint black l) k (paint black r))
        else if is_red (left_child l)
        then rb_rotation_ll (node c l k r)
        else if is_red (right_child l)
        then rb_rotation_lr (node c l k r)
        else some (node c l k r))
    else some (node c l k r)

-- `rb_rebalance` otherwise
unfoldable pub rebalance_right : Color → RbNode → Ptr → RbNode → Option RbNode
unfolding rb_rotation_rl
rebalance_right c l k r =
    if is_red r
    then (if is_red l
        then some (node red (paint black l) k (paint black r))
        else if is_red (right_child r)
        then rb_rotation_rr (node c l k r)
        else if is_red (left_child r)
        then rb_rotation_rl (node c l k r)
        else some (node c l k r))
    else some (node c l k r)

-- `rb_node_attach`. `fresh` is the colour that the new node's memory holds: `RBtree_attach` clears
-- only the first `sizeof(avltree_node_tag)` bytes of it, which do not reach the colour.
unfoldable pub rb_node_attach : (Ptr → ℕ) → Color → RbNode → Ptr → Option RbNode
unfolding rebalance_left rebalance_right
rb_node_attach deref fresh leaf new = some (node fresh leaf new leaf)
rb_node_attach deref fresh (node c l k r) new = elim (compare_data deref new k) [
  | Ordering.lt ↦ do l' ← rb_node_attach deref fresh l new; rebalance_left c l' k r
  | Ordering.gt ↦ do r' ← rb_node_attach deref fresh r new; rebalance_right c l k r'
  | Ordering.eq ↦ some (node c l k r)
]

-- `RBtree_attach`
unfoldable pub rbtree_attach :
    (Ptr → ℕ) → Bool → Color → Tree RbNode → Ptr → Option (Status × Tree RbNode)
unfolding rb_node_attach
rbtree_attach deref allocated fresh t new =
    if allocated
    then (rb_node_attach deref fresh t.root new >>= λ root.
        some
          (exit_success, record t { num_nodes = increment t.num_nodes; root = paint black root }))
    else some (exit_failure, t)

pub data Warning : Type 0 where
  red_violation : Ptr → Warning
  black_violation : Ptr → Warning

-- `rb_sanity_check`: the black height, or 0, and the warnings printed. The test for a red child of
-- a red node names the right child twice.
unfoldable pub rb_sanity_check : RbNode → ℕ × List Warning
rb_sanity_check leaf = (1, [])
rb_sanity_check (node c l k r) =
    let (height_l, warnings_l) = rb_sanity_check l in
    let (height_r, warnings_r) = rb_sanity_check r in
    let reds =
      if is_red (node c l k r) && (is_red r || is_red r) then red_violation k ∷ [] else [] in
    if not (height_l == 0) && not (height_r == 0)
    then (if not (height_l == height_r)
        then (0, reds ++ (warnings_l ++ (warnings_r ++ (black_violation k ∷ []))))
        else (
          (if is_red (node c l k r) then height_l else height_l + 1),
          reds ++ (warnings_l ++ warnings_r),
        ))
    else (0, reds ++ (warnings_l ++ warnings_r))
