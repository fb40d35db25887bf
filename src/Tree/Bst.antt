-- ===== src/Tree/Bst.antt =====
-- common/src/tree/tree.c, the unbalanced tree: `node_attach` and `BStree_attach`.
use morning_projects.Common.{
  ℕ, ◌+◌, ◌≡◌, refl, Bool, true, arith, if◌then◌else◌, length, ap, ◌∙◌, ◌==◌, ◌||◌,
}
use morning_projects.Tree.{
  Ptr, Node, leaf, node, Tree, Status, exit_success, exit_failure, increment, is_below,
  traverse_inorder, bstree_lookup,
}
use morning_projects.Tree.Find.{bstree_lookup-contains}
use morning_projects.Tree.Sorted.{
  contains-insert, Sorted, insert, insert_left, insert_right, Sorted-parts, Sorted-insert,
  length-insert,
}

-- `node_attach`, with the test for a NULL child made in the call for that child
unfoldable pub node_attach : (Ptr → ℕ) → Node → Ptr → Node
node_attach deref leaf new = node leaf new leaf
node_attach deref (node l k r) new =
    if is_below deref new k
    then node (node_attach deref l new) k r
    else node l k (node_attach deref r new)

-- `BStree_attach`
unfoldable pub bstree_attach : (Ptr → ℕ) → Bool → Tree Node → Ptr → Status × Tree Node
unfolding node_attach
bstree_attach deref allocated t new =
    if allocated
    then (
      exit_success,
      record t { num_nodes = increment t.num_nodes; root = node_attach deref t.root new },
    )
    else (exit_failure, t)

module _ (deref : Ptr → ℕ) where
  pub inorder-node_attach :
      (t : Node) (new : Ptr)
      → Sorted deref (traverse_inorder t)
      → traverse_inorder (node_attach deref t new) ≡ insert deref new (traverse_inorder t)
  unfolding node_attach
  inorder-node_attach leaf new s = refl
  inorder-node_attach (node l k r) new s =
      let (sl, low, high, sr) = Sorted-parts deref (traverse_inorder l) k (traverse_inorder r) s in
      ground (
        arith,
        inorder-node_attach l new sl,
        inorder-node_attach r new sr,
        insert_left deref new (traverse_inorder l) k (traverse_inorder r),
        insert_right deref new (traverse_inorder l) k (traverse_inorder r),
      )

  -- Given memory, `BStree_attach` on a tree with a sorted in-order sequence succeeds, keeps the
  -- sequence sorted with one datum more, counts one node more modulo 2 ^ 32, and afterwards
  -- `BStree_lookup` finds what it found before and whatever compares equal to the new datum.
  pub bstree_lookup-attach :
      (t : Tree Node) (new q : Ptr)
      → Sorted deref (traverse_inorder t.root)
      → let u = (bstree_attach deref true t new).1 in
        ((bstree_attach deref true t new).0 ≡ exit_success)
        × Sorted deref (traverse_inorder u.root)
        × (length (traverse_inorder u.root) ≡ length (traverse_inorder t.root) + 1)
        × (u.num_nodes ≡ increment t.num_nodes)
        × (bstree_lookup deref u q ≡ ((deref q == deref new) || bstree_lookup deref t q))
  unfolding bstree_attach
  bstree_lookup-attach t new q s =
      let u = (bstree_attach deref true t new).1 in
      let e = inorder-node_attach t.root new s in
      let sorted : Sorted deref (traverse_inorder u.root) =
        rw e (Sorted-insert deref new (traverse_inorder t.root) s) in
      (
        refl,
        sorted,
        ap length e ∙ length-insert deref new (traverse_inorder t.root),
        refl,
        ground (
          arith,
          bstree_lookup-contains deref u q sorted,
          bstree_lookup-contains deref t q s,
          contains-insert deref q new (traverse_inorder t.root),
        ),
      )
