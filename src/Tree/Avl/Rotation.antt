-- ===== src/Tree/Avl/Rotation.antt =====
-- The rotations of the height-balanced tree keep the in-order sequence, on every path through
-- `avl_rebalance`.
use morning_projects.Common.{
  ℕ, ◌≡◌, ap, ◌∙◌, Option, none, some, ◌++◌, ◌∷◌, arith, append_assoc, ◌>>=◌, >>=-eq-some, ◌||◌,
  if◌then◌else◌,
}
use morning_projects.Tree.{Ptr, Node, leaf, node, traverse_inorder}
use morning_projects.Tree.Avl.{
  avl_rotation_ll, avl_rotation_rr, avl_rotation_lr, avl_rotation_rl, rotate_pivot, rebalance_path,
  avl_rebalance, pivot_here, left_heavy, right_heavy,
}

pub inorder_ll :
    (t : Node) {u : Node} → avl_rotation_ll t ≡ some u → traverse_inorder u ≡ traverse_inorder t
unfolding avl_rotation_ll
inorder_ll leaf e = cc
inorder_ll (node leaf k r) e = cc
inorder_ll (node (node a m b) k r) e =
    ground
      (arith, append_assoc (traverse_inorder a) (m ∷ traverse_inorder b) (k ∷ traverse_inorder r))

pub inorder_rr :
    (t : Node) {u : Node} → avl_rotation_rr t ≡ some u → traverse_inorder u ≡ traverse_inorder t
unfolding avl_rotation_rr
inorder_rr leaf e = cc
inorder_rr (node l k leaf) e = cc
inorder_rr (node l k (node a m b)) e =
    ground
      (arith, append_assoc (traverse_inorder l) (k ∷ traverse_inorder a) (m ∷ traverse_inorder b))

pub inorder_lr :
    (t : Node) {u : Node} → avl_rotation_lr t ≡ some u → traverse_inorder u ≡ traverse_inorder t
unfolding avl_rotation_lr
inorder_lr leaf e = cc
inorder_lr (node l k r) e =
    let (l', turned, e') = >>=-eq-some (avl_rotation_rr l) _ e in
    inorder_ll (node l' k r) e' ∙ ap (λ x. x ++ (k ∷ traverse_inorder r)) (inorder_rr l turned)

pub inorder_rl :
    (t : Node) {u : Node} → avl_rotation_rl t ≡ some u → traverse_inorder u ≡ traverse_inorder t
unfolding avl_rotation_rl
inorder_rl leaf e = cc
inorder_rl (node l k r) e =
    let (r', turned, e') = >>=-eq-some (avl_rotation_ll r) _ e in
    inorder_rr (node l k r') e' ∙ ap (λ x. traverse_inorder l ++ (k ∷ x)) (inorder_ll r turned)

module _ (deref : Ptr → ℕ) (new : Ptr) where
  inorder-rotate_pivot :
      (t : Node) {u : Node}
      → rotate_pivot deref new t ≡ some u
      → traverse_inorder u ≡ traverse_inorder t
  unfolding rotate_pivot
  inorder-rotate_pivot leaf e = cc
  inorder-rotate_pivot (node leaf k leaf) e = ground arith
  inorder-rotate_pivot (node leaf k (node a m b)) {u} e =
      let t = node leaf k (node a m b) in ground (arith, inorder_rl t {u = u}, inorder_rr t {u = u})
  inorder-rotate_pivot (node (node a m b) k leaf) {u} e =
      let t = node (node a m b) k leaf in ground (arith, inorder_ll t {u = u}, inorder_lr t {u = u})
  inorder-rotate_pivot (node (node a m b) k (node c n d)) {u} e =
      let t = node (node a m b) k (node c n d) in
      ground (
        arith,
        inorder_ll t {u = u},
        inorder_lr t {u = u},
        inorder_rl t {u = u},
        inorder_rr t {u = u},
      )

  -- what a result of `rebalance_path` on `t` has to keep
  abbrev Keeps : Node → Option (Option Node) → Type 0
  Keeps t (some (some u)) = traverse_inorder u ≡ traverse_inorder t
  Keeps t _ = Unit

  pivot_here-Keeps : (t : Node) → Keeps t (pivot_here deref new t)
  pivot_here-Keeps t = go (rotate_pivot deref new t) (λ u e. inorder-rotate_pivot t e)
    where
      go :
          (r : Option Node)
          → ((u : Node) → r ≡ some u → traverse_inorder u ≡ traverse_inorder t)
          → Keeps t
              (if left_heavy t || right_heavy t then (r >>= λ u. some (some u)) else some none)
      go none h = ground arith
      go (some u) h = ground (arith, h u)

  rebalance_path-Keeps : (t : Node) → Keeps t (rebalance_path deref new t)
  unfolding rebalance_path
  rebalance_path-Keeps leaf = tt
  rebalance_path-Keeps (node l k r) =
      ground (arith, rebalance_path-Keeps l, rebalance_path-Keeps r, pivot_here-Keeps (node l k r))

  -- rebalancing never changes the in-order sequence
  pub inorder-avl_rebalance :
      (t : Node) {u : Node}
      → avl_rebalance deref new t ≡ some u
      → traverse_inorder u ≡ traverse_inorder t
  unfolding avl_rebalance
  inorder-avl_rebalance t {u} e = ground (arith, rebalance_path-Keeps t)
