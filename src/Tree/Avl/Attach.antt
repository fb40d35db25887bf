-- ===== src/Tree/Avl/Attach.antt =====
-- `AVLtree_attach`: a height-balanced tree stays one, the rotations never read through NULL, and
-- the in-order sequence receives the new datum at its place.
use morning_projects.Common.{
  ℕ, ◌+◌, ◌≤◌, ◌≡◌, refl, ◌∙◌, true, false, Option, none, some, arith, Bool-cases, inl, inr,
}
use morning_projects.Tree.{
  Ptr, Node, leaf, node, Tree, exit_success, increment, is_below, traverse_inorder,
}
use morning_projects.Tree.Bst.{node_attach, inorder-node_attach}
use morning_projects.Tree.Sorted.{Sorted, insert}
use morning_projects.Tree.Avl.{
  avl_node_height, avl_rotation_ll, avl_rotation_rr, avl_rotation_lr, avl_rotation_rl, rotate_pivot,
  rebalance_path, attach_root, avltree_attach,
}
use morning_projects.Tree.Avl.Rotation.{inorder-avl_rebalance}

-- at every node the heights of the two subtrees differ by at most one
abbrev pub Balanced : Node → Type 0
Balanced leaf = Unit
Balanced (node l k r) =
    Balanced l
    × Balanced r
    × (avl_node_height l ≤ avl_node_height r + 1)
    × (avl_node_height r ≤ avl_node_height l + 1)

-- a rotated subtree: balanced again, and of the given height
abbrev pub Mended : ℕ → Option Node → Type 0
Mended n none = ⊥
Mended n (some u) = Balanced u × (avl_node_height u ≡ n)

pub ll-Mended :
    (a : Node) (m : Ptr) (b : Node) (k : Ptr) (r : Node)
    → Balanced (node a m b)
    → Balanced r
    → avl_node_height b ≤ avl_node_height r
    → avl_node_height (node a m b) ≡ avl_node_height r + 2
    → Mended (avl_node_height r + 2) (avl_rotation_ll (node (node a m b) k r))
unfolding avl_rotation_ll
ll-Mended a m b k r bl br low tall = ground arith

pub lr-Mended :
    (a : Node) (m : Ptr) (b : Node) (k : Ptr) (r : Node)
    → Balanced (node a m b)
    → Balanced r
    → avl_node_height a ≤ avl_node_height r
    → avl_node_height (node a m b) ≡ avl_node_height r + 2
    → Mended (avl_node_height r + 2) (avl_rotation_lr (node (node a m b) k r))
unfolding avl_rotation_lr
lr-Mended a m leaf k r bl br low tall = absurd (ground arith)
lr-Mended a m (node p n q) k r bl br low tall = ground arith

pub rr-Mended :
    (l : Node) (k : Ptr) (a : Node) (m : Ptr) (b : Node)
    → Balanced (node a m b)
    → Balanced l
    → avl_node_height a ≤ avl_node_height l
    → avl_node_height (node a m b) ≡ avl_node_height l + 2
    → Mended (avl_node_height l + 2) (avl_rotation_rr (node l k (node a m b)))
unfolding avl_rotation_rr
rr-Mended l k a m b br bl low tall = ground arith

pub rl-Mended :
    (l : Node) (k : Ptr) (a : Node) (m : Ptr) (b : Node)
    → Balanced (node a m b)
    → Balanced l
    → avl_node_height b ≤ avl_node_height l
    → avl_node_height (node a m b) ≡ avl_node_height l + 2
    → Mended (avl_node_height l + 2) (avl_rotation_rl (node l k (node a m b)))
unfolding avl_rotation_rl
rl-Mended l k leaf m b br bl low tall = absurd (ground arith)
rl-Mended l k (node p n q) m b br bl low tall = ground arith

module _ (deref : Ptr → ℕ) (new : Ptr) where
  -- the subtree on the way down has outgrown the other one by two
  left_pivot :
      (l : Node) (k : Ptr) (r : Node)
      → Balanced (node_attach deref l new)
      → Balanced r
      → avl_node_height l ≤ avl_node_height r + 1
      → avl_node_height (node_attach deref l new) ≡ avl_node_height r + 2
      → is_below deref new k ≡ true
      → Mended (avl_node_height r + 2) (rotate_pivot deref new (node (node_attach deref l new) k r))
  unfolding node_attach rotate_pivot
  left_pivot leaf k r bl br low tall e = absurd (ground arith)
  left_pivot (node a m b) k r bl br low tall e = ground (
    arith,
    ll-Mended (node_attach deref a new) m b k r,
    lr-Mended a m (node_attach deref b new) k r,
  )

  right_pivot :
      (l : Node) (k : Ptr) (r : Node)
      → Balanced (node_attach deref r new)
      → Balanced l
      → avl_node_height r ≤ avl_node_height l + 1
      → avl_node_height (node_attach deref r new) ≡ avl_node_height l + 2
      → is_below deref new k ≡ false
      → Mended (avl_node_height l + 2) (rotate_pivot deref new (node l k (node_attach deref r new)))
  unfolding node_attach rotate_pivot
  right_pivot l k leaf br bl low tall e = absurd (ground arith)
  right_pivot l k (node a m b) br bl low tall e = ground (
    arith,
    rl-Mended l k (node_attach deref a new) m b,
    rr-Mended l k a m (node_attach deref b new),
  )

  -- what the walk down through `t`, with the new node hung in, comes back with
  abbrev Grown : Node → Option (Option Node) → Type 0
  Grown t none = ⊥
  Grown t (some none) =
      Balanced (node_attach deref t new)
      × (avl_node_height t ≤ avl_node_height (node_attach deref t new))
      × (avl_node_height (node_attach deref t new) ≤ avl_node_height t + 1)
  Grown t (some (some u)) = Balanced u × (avl_node_height u ≡ avl_node_height t)

  Grown-left :
      (l : Node) (k : Ptr) (r : Node)
      → Balanced (node l k r)
      → Grown l (rebalance_path deref new (node_attach deref l new))
      → is_below deref new k ≡ true
      → Grown (node l k r) (rebalance_path deref new (node_attach deref (node l k r) new))
  unfolding rebalance_path node_attach
  Grown-left l k r (bl, br, low, high) g e = ground (arith, left_pivot l k r)

  Grown-right :
      (l : Node) (k : Ptr) (r : Node)
      → Balanced (node l k r)
      → Grown r (rebalance_path deref new (node_attach deref r new))
      → is_below deref new k ≡ false
      → Grown (node l k r) (rebalance_path deref new (node_attach deref (node l k r) new))
  unfolding rebalance_path node_attach
  Grown-right l k r (bl, br, low, high) g e = ground (arith, right_pivot l k r)

  rebalance_path-Grown :
      (t : Node) → Balanced t → Grown t (rebalance_path deref new (node_attach deref t new))
  unfolding rebalance_path node_attach
  rebalance_path-Grown leaf bt = ground arith
  rebalance_path-Grown (node l k r) bt = elim (Bool-cases (is_below deref new k)) [
    | inl e ↦ Grown-left l k r bt (rebalance_path-Grown l bt.0) e
    | inr e ↦ Grown-right l k r bt (rebalance_path-Grown r bt.1) e
  ]

  -- what `avl_rebalance` makes of a balanced tree with the new node hung in
  abbrev pub Raised : Node → Option Node → Type 0
  Raised t none = ⊥
  Raised t (some u) =
      Balanced u
      × (avl_node_height t ≤ avl_node_height u)
      × (avl_node_height u ≤ avl_node_height t + 1)

  attach_root-Raised : (t : Node) → Balanced t → Raised t (attach_root deref t new)
  unfolding attach_root
  attach_root-Raised leaf bt = ground arith
  attach_root-Raised (node l k r) bt = ground (arith, rebalance_path-Grown (node l k r) bt)

  attach_root_total :
      (t : Node) → Balanced t → (u : Node) × (attach_root deref t new ≡ some u) × Raised t (some u)
  attach_root_total t bt = go (attach_root deref t new) (attach_root-Raised t bt)
    where
      go : (r : Option Node) → Raised t r → (u : Node) × (r ≡ some u) × Raised t (some u)
      go none h = absurd h
      go (some u) h = (u, refl, h)

  inorder-attach_root :
      (t : Node) {u : Node}
      → Sorted deref (traverse_inorder t)
      → attach_root deref t new ≡ some u
      → traverse_inorder u ≡ insert deref new (traverse_inorder t)
  unfolding attach_root
  inorder-attach_root leaf s e = ground arith
  inorder-attach_root (node l k r) s e =
      inorder-avl_rebalance deref new (node_attach deref (node l k r) new) e
      ∙ inorder-node_attach deref (node l k r) new s

  -- Given memory, `AVLtree_attach` on a height-balanced tree with a sorted in-order sequence
  -- succeeds without a read through NULL. The new tree is height-balanced, at most one level
  -- higher and not lower; its in-order sequence is the old one with the new datum behind all
  -- that are not above it; and the count of nodes is one more, modulo 2 ^ 32.
  pub avltree_attach-Balanced :
      (t : Tree Node)
      → Balanced t.root
      → Sorted deref (traverse_inorder t.root)
      → (u : Tree Node) × (avltree_attach deref true t new ≡ some (exit_success, u))
        × Raised t.root (some u.root)
        × (traverse_inorder u.root ≡ insert deref new (traverse_inorder t.root))
        × (u.num_nodes ≡ increment t.num_nodes)
  unfolding avltree_attach
  avltree_attach-Balanced t bt s =
      let (root, e, raised) = attach_root_total t.root bt in
      (
        record t { num_nodes = increment t.num_nodes; root = root },
        rw e,
        raised,
        inorder-attach_root t.root s e,
        refl,
      )
