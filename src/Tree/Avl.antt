-- ===== src/Tree/Avl.antt =====
-- common/src/tree/tree.c, the height-balanced tree: heights, rotations, `AVLtree_attach` and
-- `AVLtree_remove`. A height is a plain number: it is below the number of nodes in memory.
pub mod Rotation
pub mod Attach
pub mod Remove
pub mod Mend
use morning_projects.Common.{
  ℕ, ◌+◌, ◌≡◌, Bool, true, false, ◌||◌, not, Option, none, some, List, [], ◌∷◌, ◌++◌, ◌^◌, ◌%◌, ◌-◌,
  ltb, leb, ◌==◌, if◌then◌else◌, ◌>>=◌,
}
use morning_projects.Tree.{
  Ptr, Node, leaf, node, Tree, Status, exit_success, exit_failure, increment, is_below,
  compare_data,
}
use Prim.Native.Nat.{Ordering}
use mathlib.Core.Option
use morning_projects.Tree.Bst.{node_attach}

-- `avl_node_height`
abbrev pub avl_node_height : Node → ℕ
avl_node_height leaf = 0
avl_node_height (node l k r) =
    let height_l = avl_node_height l in
    let height_r = avl_node_height r in (if ltb height_r height_l then height_l else height_r) + 1

-- `balance_factor > 1`, the factor being `height_L - height_R`
abbrev pub left_heavy : Node → Bool
left_heavy leaf = false
left_heavy (node l k r) = ltb (avl_node_height r + 1) (avl_node_height l)

-- `balance_factor < -1`
abbrev pub right_heavy : Node → Bool
right_heavy leaf = false
right_heavy (node l k r) = ltb (avl_node_height l + 1) (avl_node_height r)

-- The rotations read through child pointers: `none` is the fault at NULL.
unfoldable pub avl_rotation_ll : Node → Option Node
avl_rotation_ll leaf = none
avl_rotation_ll (node leaf k r) = none
avl_rotation_ll (node (node a m b) k r) = some (node a m (node b k r))

unfoldable pub avl_rotation_rr : Node → Option Node
avl_rotation_rr leaf = none
avl_rotation_rr (node l k leaf) = none
avl_rotation_rr (node l k (node a m b)) = some (node (node l k a) m b)

unfoldable pub avl_rotation_lr : Node → Option Node
unfolding avl_rotation_ll avl_rotation_rr
avl_rotation_lr leaf = none
avl_rotation_lr (node l k r) = do l' ← avl_rotation_rr l; avl_rotation_ll (node l' k r)

unfoldable pub avl_rotation_rl : Node → Option Node
unfolding avl_rotation_ll avl_rotation_rr
avl_rotation_rl leaf = none
avl_rotation_rl (node l k r) = do r' ← avl_rotation_ll r; avl_rotation_rr (node l k r')

-- `avl_node_attach` is `node_attach` word for word.
abbrev pub avl_node_attach : (Ptr → ℕ) → Node → Ptr → Node
avl_node_attach = node_attach

-- The second half of `avl_rebalance`: the rotation at `*pivot_node`.
unfoldable pub rotate_pivot : (Ptr → ℕ) → Ptr → Node → Option Node
rotate_pivot deref new leaf = none
rotate_pivot deref new (node l k r) =
    if is_below deref new k
    then elim l [
      | leaf ↦ none
      | node a m b ↦
          if is_below deref new m
          then avl_rotation_ll (node (node a m b) k r)
          else avl_rotation_lr (node (node a m b) k r)
    ]
    else elim r [
      | leaf ↦ none
      | node a m b ↦
          if is_below deref new m
          then avl_rotation_rl (node l k (node a m b))
          else avl_rotation_rr (node l k (node a m b))
    ]

-- a node of the loop of `avl_rebalance` below which there is no pivot
abbrev pub pivot_here : (Ptr → ℕ) → Ptr → Node → Option (Option Node)
pivot_here deref new t =
    if left_heavy t || right_heavy t
    then (do u ← rotate_pivot deref new t; some (some u))
    else some none

-- The loop of `avl_rebalance` with the rotation that follows it: the pivot is the last node on
-- the way down whose balance factor is above 1 or below -1, so a pivot further down wins. The
-- result is a fault, no pivot (`some none`), or the subtree with the pivot rotated.
unfoldable pub rebalance_path : (Ptr → ℕ) → Ptr → Node → Option (Option Node)
rebalance_path deref new leaf = some none
rebalance_path deref new (node l k r) = elim (is_below deref new k) [
  | true ↦ do
    below ← rebalance_path deref new l
    elim below [ some l' ↦ some (some (node l' k r)) | none ↦ pivot_here deref new (node l k r) ]
  | false ↦ do
    below ← rebalance_path deref new r
    elim below [ some r' ↦ some (some (node l k r')) | none ↦ pivot_here deref new (node l k r) ]
]

-- `avl_rebalance`
unfoldable pub avl_rebalance : (Ptr → ℕ) → Ptr → Node → Option Node
unfolding rebalance_path rotate_pivot
avl_rebalance deref new t = do
  pivot ← rebalance_path deref new t
  elim pivot [ some u ↦ some u | none ↦ some t ]

-- `AVLtree_attach` on the root: the first node, or the new node hung in and the path rebalanced
unfoldable pub attach_root : (Ptr → ℕ) → Node → Ptr → Option Node
unfolding avl_rebalance node_attach
attach_root deref leaf new = some (node leaf new leaf)
attach_root deref (node l k r) new =
    avl_rebalance deref new (avl_node_attach deref (node l k r) new)

-- `AVLtree_attach`
unfoldable pub avltree_attach : (Ptr → ℕ) → Bool → Tree Node → Ptr → Option (Status × Tree Node)
unfolding attach_root
avltree_attach deref allocated t new =
    if allocated
    then (attach_root deref t.root new >>= λ root.
        some (exit_success, record t { num_nodes = increment t.num_nodes; root = root }))
    else some (exit_failure, t)

-- `avl_rebalance_ex`: one rotation at a node whose balance factor is above 1 or below -1, but none
-- where the factor of its higher child is 0
unfoldable pub avl_rebalance_ex : Node → Option Node
unfolding avl_rotation_lr avl_rotation_rl
avl_rebalance_ex leaf = none
avl_rebalance_ex (node l k r) =
    if left_heavy (node l k r)
    then elim l [
      | leaf ↦ none
      | node a m b ↦
          if ltb (avl_node_height b) (avl_node_height a)
          then avl_rotation_ll (node (node a m b) k r)
          else if ltb (avl_node_height a) (avl_node_height b)
          then avl_rotation_lr (node (node a m b) k r)
          else some (node (node a m b) k r)
    ]
    else if right_heavy (node l k r)
    then elim r [
      | leaf ↦ none
      | node a m b ↦
          if ltb (avl_node_height a) (avl_node_height b)
          then avl_rotation_rr (node l k (node a m b))
          else if ltb (avl_node_height b) (avl_node_height a)
          then avl_rotation_rl (node l k (node a m b))
          else some (node l k (node a m b))
    ]
    else some (node l k r)

-- What a removal leaves: the subtree, how many nodes it freed (`num_nodes--` for each), and the
-- data that it passed to the `remove` callback, the latest first: the calls below come after the caller's own.
pub record Removal : Type 0 where
  pub subtree : Node
  pub freed : ℕ
  pub passed : List Ptr

-- the datum of the last node on the way right from `node l k r`
abbrev pub predecessor : Node → Ptr → Node → Ptr
predecessor l k leaf = k
predecessor l k (node a m b) = predecessor a m b

-- `node->left_child = avltree_remove(...); node = avl_rebalance_ex(node)`, and for the right
abbrev pub fill_left : Ptr → Node → Option Removal → Option Removal
fill_left k r below = do
  d ← below
  u ← avl_rebalance_ex (node d.subtree k r)
  some (record d { subtree = u })

abbrev pub fill_right : Node → Ptr → Option Removal → Option Removal
fill_right l k below = do
  d ← below
  u ← avl_rebalance_ex (node l k d.subtree)
  some (record d { subtree = u })

-- a freed node adds to what was removed further down
abbrev pub free_node : Bool → Ptr → Ptr → Removal → Removal
free_node has_remove q k d = record d {
  freed = d.freed + 1;
  passed = if (q == k) || not has_remove then d.passed else d.passed ++ (k ∷ []);
}

abbrev pub pass_data : Bool → Ptr → Removal → Removal
pass_data has_remove k d = if has_remove then record d { passed = d.passed ++ (k ∷ []) } else d

-- `avltree_remove`. After a node with a missing child is freed, the walk goes on from the child
-- that took its place; a node with two children takes its predecessor's datum, which is then
-- removed on the left.
unfoldable pub avltree_remove : (Ptr → ℕ) → Bool → Node → Ptr → Option Removal
avltree_remove deref has_remove leaf q = some (record { subtree = leaf; freed = 0; passed = [] })
avltree_remove deref has_remove (node leaf k leaf) q = elim (compare_data deref q k) [
  | Ordering.lt ↦ fill_left k leaf (avltree_remove deref has_remove leaf q)
  | Ordering.gt ↦ fill_right leaf k (avltree_remove deref has_remove leaf q)
  | Ordering.eq ↦
      Option.map (free_node has_remove q k)
        (some (record { subtree = leaf; freed = 0; passed = [] }))
]
avltree_remove deref has_remove (node leaf k (node a m b)) q = elim (compare_data deref q k) [
  | Ordering.lt ↦ fill_left k (node a m b) (avltree_remove deref has_remove leaf q)
  | Ordering.gt ↦ fill_right leaf k (avltree_remove deref has_remove (node a m b) q)
  | Ordering.eq ↦ Option.map (free_node has_remove q k) (elim (leb (deref q) (deref m)) [
    | true ↦ fill_left m b (avltree_remove deref has_remove a q)
    | false ↦ fill_right a m (avltree_remove deref has_remove b q)
  ])
]
avltree_remove deref has_remove (node (node a m b) k leaf) q = elim (compare_data deref q k) [
  | Ordering.lt ↦ fill_left k leaf (avltree_remove deref has_remove (node a m b) q)
  | Ordering.gt ↦ fill_right (node a m b) k (avltree_remove deref has_remove leaf q)
  | Ordering.eq ↦ Option.map (free_node has_remove q k) (elim (leb (deref q) (deref m)) [
    | true ↦ fill_left m b (avltree_remove deref has_remove a q)
    | false ↦ fill_right a m (avltree_remove deref has_remove b q)
  ])
]
avltree_remove deref has_remove (node (node a m b) k (node c n d)) q =
    elim (compare_data deref q k) [
      | Ordering.lt ↦ fill_left k (node c n d) (avltree_remove deref has_remove (node a m b) q)
      | Ordering.gt ↦ fill_right (node a m b) k (avltree_remove deref has_remove (node c n d) q)
      | Ordering.eq ↦
          let p = predecessor a m b in
          Option.map (pass_data has_remove k)
            (fill_left p (node c n d) (avltree_remove deref has_remove (node a m b) p))
    ]

-- `AVLtree_remove` answers success whether or not it found anything.
unfoldable pub avltree_remove_data :
    (Ptr → ℕ) → Tree Node → Ptr → Option (Status × Tree Node × List Ptr)
unfolding avltree_remove
avltree_remove_data deref t q = do
  d ← avltree_remove deref t.has_remove t.root q
  some (
    exit_success,
    record t { num_nodes = (t.num_nodes + 2 ^ 32 - d.freed % 2 ^ 32) % 2 ^ 32; root = d.subtree },
    d.passed,
  )
