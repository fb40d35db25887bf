-- ===== src/Tree/Find.antt =====
-- What `BStree_lookup`, the traversals and `BStree_destroy` of common/src/tree/tree.c answer.
use morning_projects.Common.{
  ℕ, ◌≡◌, refl, Bool, true, false, Option, none, some, List, [], ◌∷◌, ◌++◌, arith, ◌==◌,
  if◌then◌else◌,
}
use morning_projects.Tree.{
  Ptr, Node, leaf, node, Tree, Status, exit_success, exit_failure, tree_traverse, bstree_destroy,
  lookup, bstree_lookup, traverse_inorder, traverse_preorder, traverse_postorder, destroy_all_nodes,
}
use mathlib.Core.List.{Perm, perm_middle, perm_append_singleton}
use mathlib.Core.List.Perm
use morning_projects.Tree.Sorted.{
  Sorted, contains, contains-append, contains_above, contains_below, Sorted-parts,
}

abbrev pub is_some {ℓ} : {A : Type ℓ} → Option A → Bool
is_some none = false
is_some (some x) = true

module _ (deref : Ptr → ℕ) where
  lookup-contains :
      (t : Node) (q : Ptr) (parent : Option Ptr)
      → Sorted deref (traverse_inorder t)
      → is_some (lookup deref t q parent) ≡ contains deref q (traverse_inorder t)
  unfolding lookup
  lookup-contains leaf q parent s = refl
  lookup-contains (node l k r) q parent s =
      let (sl, low, high, sr) = Sorted-parts deref (traverse_inorder l) k (traverse_inorder r) s in
      ground (
        arith,
        lookup-contains l q (some k) sl,
        lookup-contains r q (some k) sr,
        contains-append deref q (traverse_inorder l) (k ∷ traverse_inorder r),
        contains_above deref q (deref k) (traverse_inorder r) high,
        contains_below deref q (deref k) (traverse_inorder l) low,
      )

  -- On a tree whose in-order traversal is sorted, `BStree_lookup` says true exactly when the
  -- tree holds a datum that compares equal to the one asked for.
  pub bstree_lookup-contains :
      (t : Tree Node) (q : Ptr)
      → Sorted deref (traverse_inorder t.root)
      → bstree_lookup deref t q ≡ contains deref q (traverse_inorder t.root)
  unfolding bstree_lookup
  bstree_lookup-contains t q s = ground (arith, lookup-contains t.root q none s)

perm_rotate : (k : Ptr) (xs ys : List Ptr) → Perm (k ∷ (xs ++ ys)) (xs ++ (k ∷ ys))
perm_rotate k xs ys = Perm.symm (perm_middle xs ys)

preorder-perm : (t : Node) → Perm (traverse_preorder t) (traverse_inorder t)
preorder-perm leaf = Perm.refl []
preorder-perm (node l k r) =
    Perm.trans (Perm.cons k (Perm.append (preorder-perm l) (preorder-perm r)))
      (perm_rotate k (traverse_inorder l) (traverse_inorder r))

postorder-perm : (t : Node) → Perm (traverse_postorder t) (traverse_inorder t)
postorder-perm leaf = Perm.refl []
postorder-perm (node l k r) = Perm.append (postorder-perm l) (
    Perm.trans (Perm.append (postorder-perm r) (Perm.refl (k ∷ [])))
      (perm_append_singleton k (traverse_inorder r)))

destroy_all_nodes-postorder : (t : Node) → destroy_all_nodes true t ≡ traverse_postorder t
unfolding destroy_all_nodes
destroy_all_nodes-postorder leaf = refl
destroy_all_nodes-postorder (node l k r) =
    ground (arith, destroy_all_nodes-postorder l, destroy_all_nodes-postorder r)

destroy_all_nodes_silent : (t : Node) → destroy_all_nodes false t ≡ []
unfolding destroy_all_nodes
destroy_all_nodes_silent leaf = refl
destroy_all_nodes_silent (node l k r) = rw (destroy_all_nodes_silent l, destroy_all_nodes_silent r)

-- one of the three traversals of a tree that is not empty, by the outcome of the three tests
by_method :
    (a b c : Bool) (t : Node)
    → let out : Status × List Ptr =
        if a
        then (exit_success, traverse_inorder t)
        else if b
        then (exit_success, traverse_preorder t)
        else if c
        then (exit_success, traverse_postorder t)
        else (exit_failure, []) in
      out.0 ≡ exit_success → Perm out.1 (traverse_inorder t)
by_method true b c t e = Perm.refl (traverse_inorder t)
by_method false true c t e = preorder-perm t
by_method false false true t e = postorder-perm t
by_method false false false t e = cc

traverse_node :
    (n : ℕ) (h : Bool) (root : Node) (method : ℕ)
    → let t : Tree Node = record { num_nodes = n; root = root; has_remove = h } in
      (tree_traverse t method).0 ≡ exit_success
      → Perm (tree_traverse t method).1 (traverse_inorder root)
unfolding tree_traverse
traverse_node n h leaf method e = Perm.refl []
traverse_node n h (node l k r) method e =
    by_method (method == 1) (method == 2) (method == 3) (node l k r) e

-- A traversal that succeeds, by whichever method, displays the data of the in-order sequence,
-- each as often as it stands there.
pub tree_traverse-perm :
    (t : Tree Node) (method : ℕ)
    → (tree_traverse t method).0 ≡ exit_success
    → Perm (tree_traverse t method).1 (traverse_inorder t.root)
tree_traverse-perm t method e = traverse_node t.num_nodes t.has_remove t.root method e

passed_data :
    (has_remove : Bool) (t : Node)
    → (has_remove ≡ true → Perm (destroy_all_nodes has_remove t) (traverse_inorder t))
      × (has_remove ≡ false → destroy_all_nodes has_remove t ≡ [])
passed_data true t = ((λ e. rw (destroy_all_nodes-postorder t) (postorder-perm t)), (λ e. cc))
passed_data false t = ((λ e. cc), (λ e. destroy_all_nodes_silent t))

-- `BStree_destroy` of a tree that is not empty succeeds and leaves an empty tree of no nodes and
-- no callback; if there was a `remove` callback, it was passed every datum of the tree as often as
-- it stood there, and otherwise nothing.
pub bstree_destroy-perm :
    (t : Tree Node) {l r : Node} {k : Ptr}
    → t.root ≡ node l k r
    → let (status, u, passed) = bstree_destroy t in
      (status ≡ exit_success)
      × (u ≡ record { num_nodes = 0; root = leaf; has_remove = false })
      × ((t.has_remove ≡ true → Perm passed (traverse_inorder t.root))
          × (t.has_remove ≡ false → passed ≡ []))
unfolding bstree_destroy
bstree_destroy-perm t {l} {r} {k} e = rw e (refl, refl, passed_data t.has_remove (node l k r))
