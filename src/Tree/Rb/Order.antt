-- ===== src/Tree/Rb/Order.antt =====
-- `RBtree_attach` and the in-order sequence: a datum that compares equal to one in the tree is
-- dropped, any other goes to its place, whatever the colours.
use morning_projects.Common.{
  ℕ, ◌≡◌, ◌<◌, refl, ◌∙◌, true, false, Option, none, some, List, [], ◌∷◌, ◌++◌, arith, ltb,
  if◌then◌else◌, ◌>>=◌, append_assoc,
}
use morning_projects.Tree.{Ptr, Tree, exit_success, increment}
use morning_projects.Tree.Sorted.{
  Sorted, insert, insert_left, insert_right, contains, contains-append, contains_above,
  contains_below, Sorted-parts, AllLe,
}
use morning_projects.Tree.Rb.{
  Color, red, black, RbNode, leaf, node, rb_inorder, paint, rebalance_left, rebalance_right,
  rb_node_attach, rbtree_attach,
}

-- no fault, and the given in-order sequence
abbrev Keeps : List Ptr → Option RbNode → Type 0
Keeps xs none = ⊥
Keeps xs (some u) = rb_inorder u ≡ xs

inorder-paint : (c : Color) (t : RbNode) → rb_inorder (paint c t) ≡ rb_inorder t
inorder-paint c leaf = refl
inorder-paint c (node d l k r) = refl

rebalance_left-Keeps :
    (c : Color) (l : RbNode) (k : Ptr) (r : RbNode)
    → Keeps (rb_inorder l ++ (k ∷ rb_inorder r)) (rebalance_left c l k r)
unfolding rebalance_left
rebalance_left-Keeps c leaf k r = refl
rebalance_left-Keeps c (node black a m b) k r = refl
rebalance_left-Keeps c (node red a m leaf) k r =
    ground (arith, inorder-paint black r, append_assoc (rb_inorder a) (m ∷ []) (k ∷ rb_inorder r))
rebalance_left-Keeps c (node red a m (node d x p y)) k r = ground (
  arith,
  inorder-paint black r,
  append_assoc (rb_inorder a) (m ∷ (rb_inorder x ++ (p ∷ rb_inorder y))) (k ∷ rb_inorder r),
  append_assoc (rb_inorder x) (p ∷ rb_inorder y) (k ∷ rb_inorder r),
  append_assoc (rb_inorder a) (m ∷ rb_inorder x) (p ∷ (rb_inorder y ++ (k ∷ rb_inorder r))),
)

rebalance_right-Keeps :
    (c : Color) (l : RbNode) (k : Ptr) (r : RbNode)
    → Keeps (rb_inorder l ++ (k ∷ rb_inorder r)) (rebalance_right c l k r)
unfolding rebalance_right
rebalance_right-Keeps c l k leaf = refl
rebalance_right-Keeps c l k (node black a m b) = refl
rebalance_right-Keeps c l k (node red leaf m b) =
    ground (arith, inorder-paint black l, append_assoc (rb_inorder l) (k ∷ []) (m ∷ rb_inorder b))
rebalance_right-Keeps c l k (node red (node d x p y) m b) = ground (
  arith,
  inorder-paint black l,
  append_assoc (rb_inorder l) (k ∷ (rb_inorder x ++ (p ∷ rb_inorder y))) (m ∷ rb_inorder b),
  append_assoc (rb_inorder x) (p ∷ rb_inorder y) (m ∷ rb_inorder b),
  append_assoc (rb_inorder l) (k ∷ rb_inorder x) (p ∷ (rb_inorder y ++ (m ∷ rb_inorder b))),
)

module _ (deref : Ptr → ℕ) where
  -- the sequence with the new datum, or as it was if it has an equal one
  abbrev pub insert_new : Ptr → List Ptr → List Ptr
  insert_new new xs = if contains deref new xs then xs else insert deref new xs

  inorder_below :
      (c : Color) (new : Ptr) (xs : List Ptr) (k : Ptr) (r : RbNode) (d : Option RbNode)
      → Keeps (insert_new new xs) d
      → ltb (deref new) (deref k) ≡ true
      → contains deref new (rb_inorder r) ≡ false
      → Keeps (insert_new new (xs ++ (k ∷ rb_inorder r))) (d >>= λ l'. rebalance_left c l' k r)
  inorder_below c new xs k r none h lt out = h
  inorder_below c new xs k r (some l') h lt out = ground (
    arith,
    rebalance_left-Keeps c l' k r,
    contains-append deref new xs (k ∷ rb_inorder r),
    insert_left deref new xs k (rb_inorder r) lt,
  )

  inorder_above :
      (c : Color) (new : Ptr) (l : RbNode) (k : Ptr) (ys : List Ptr) (d : Option RbNode)
      → Keeps (insert_new new ys) d
      → deref k < deref new
      → contains deref new (rb_inorder l) ≡ false
      → AllLe deref (deref k) (rb_inorder l)
      → Keeps (insert_new new (rb_inorder l ++ (k ∷ ys))) (d >>= λ r'. rebalance_right c l k r')
  inorder_above c new l k ys none h gt out low = h
  inorder_above c new l k ys (some r') h gt out low = ground (
    arith,
    rebalance_right-Keeps c l k r',
    contains-append deref new (rb_inorder l) (k ∷ ys),
    insert_right deref new (rb_inorder l) k ys,
  )

  rb_node_attach-Keeps :
      (fresh : Color) (t : RbNode) (new : Ptr)
      → Sorted deref (rb_inorder t)
      → Keeps (insert_new new (rb_inorder t)) (rb_node_attach deref fresh t new)
  unfolding rb_node_attach
  rb_node_attach-Keeps fresh leaf new s = refl
  rb_node_attach-Keeps fresh (node c l k r) new s =
      let (sl, low, high, sr) = Sorted-parts deref (rb_inorder l) k (rb_inorder r) s in
      ground (
        arith,
        inorder_below c new (rb_inorder l) k r (rb_node_attach deref fresh l new)
            (rb_node_attach-Keeps fresh l new sl),
        inorder_above c new l k (rb_inorder r) (rb_node_attach deref fresh r new)
            (rb_node_attach-Keeps fresh r new sr),
        contains_above deref new (deref k) (rb_inorder r) high,
        contains_below deref new (deref k) (rb_inorder l) low,
        contains-append deref new (rb_inorder l) (k ∷ rb_inorder r),
      )

  Keeps-some :
      (xs : List Ptr) (d : Option RbNode)
      → Keeps xs d
      → (u : RbNode) × (d ≡ some u) × (rb_inorder u ≡ xs)
  Keeps-some xs none h = absurd h
  Keeps-some xs (some u) h = (u, refl, h)

  -- Given memory, and whatever colour that memory holds, `RBtree_attach` on a tree with a sorted
  -- in-order sequence succeeds without a read through NULL. The in-order sequence stays as it was
  -- if it has a datum that compares equal, and receives the new one at its place otherwise; the
  -- count of nodes goes up by one, modulo 2 ^ 32, in both cases.
  pub rbtree_attach_inorder :
      (fresh : Color) (t : Tree RbNode) (new : Ptr)
      → Sorted deref (rb_inorder t.root)
      → (u : Tree RbNode) × (rbtree_attach deref true fresh t new ≡ some (exit_success, u))
        × (rb_inorder u.root ≡ insert_new new (rb_inorder t.root))
        × (u.num_nodes ≡ increment t.num_nodes)
  unfolding rbtree_attach
  rbtree_attach_inorder fresh t new s =
      let (root, e, same) =
        Keeps-some (insert_new new (rb_inorder t.root)) (rb_node_attach deref fresh t.root new)
          (rb_node_attach-Keeps fresh t.root new s) in
      (
        record t { num_nodes = increment t.num_nodes; root = paint black root },
        rw e,
        inorder-paint black root ∙ same,
        refl,
      )
