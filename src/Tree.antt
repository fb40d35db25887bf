-- ===== src/Tree.antt =====
-- common/src/tree/tree.c: search trees over data pointers. Here are the types and what the three
-- kinds of tree share: creation, lookup, traversal, destruction. A pointer is a number. What it
-- points to is read by the parameter `deref`: the `int`, counted from INT_MIN, so that the order
-- of numbers is that of ints. No function of tree.c writes through a data pointer.
pub mod Sorted
pub mod Strict
pub mod Find
pub mod Bst
pub mod Avl
pub mod Rb
pub mod Remove
mod Tests
use morning_projects.Common.{
  ℕ, zero, suc, ◌+◌, ◌-◌, ◌%◌, ◌^◌, Bool, true, false, Option, none, some, List, [], ◌∷◌, ◌++◌, ltb,
  ◌==◌, if◌then◌else◌,
}
use Prim.Native.Nat.{compare, Ordering}

abbrev pub Ptr : Type 0
Ptr = ℕ

-- `bstree_node_tag` and `avltree_node_tag`, which have the same fields; a NULL child is `leaf`.
-- Nothing outside a tree points into it, so the tree of nodes is a value.
pub data Node : Type 0 where
  leaf : Node
  node : Node → Ptr → Node → Node

-- `tree_tag`. The callbacks are parameters, but for whether `remove` is NULL.
pub record Tree (N : Type 0) : Type 0 where
  pub num_nodes : ℕ
  pub root : N
  pub has_remove : Bool

pub data Status : Type 0 where
  exit_success : Status
  exit_failure : Status

-- `num_nodes` is a `uint32_t`
abbrev pub increment : ℕ → ℕ
increment n = (n + 1) % 2 ^ 32

-- the `compare` callback of beliketree.c: the order of the two ints
abbrev pub compare_data : (Ptr → ℕ) → Ptr → Ptr → Ordering
compare_data deref key1 key2 = compare (deref key1) (deref key2)

-- `compare(a, b) < 0`
abbrev pub is_below : (Ptr → ℕ) → Ptr → Ptr → Bool
is_below deref key1 key2 = ltb (deref key1) (deref key2)

-- `tree_create`: `allocated` says whether `malloc` returned memory, `empty` is NULL as a node
unfoldable pub tree_create : {N : Type 0} → Bool → N → Bool → Status × Option (Tree N)
tree_create allocated empty has_remove =
    if allocated
    then (exit_success, some (record { num_nodes = 0; root = empty; has_remove = has_remove }))
    else (exit_failure, none)

-- `lookup`: the node found, and `*parent_node`, which is written before each step down
unfoldable pub lookup : (Ptr → ℕ) → Node → Ptr → Option Ptr → Option (Ptr × Option Ptr)
lookup deref leaf q parent = none
lookup deref (node l k r) q parent = elim (compare_data deref q k) [
  | Ordering.lt ↦ lookup deref l q (some k)
  | Ordering.gt ↦ lookup deref r q (some k)
  | Ordering.eq ↦ some (k, parent)
]

-- `BStree_lookup`
unfoldable pub bstree_lookup : (Ptr → ℕ) → Tree Node → Ptr → Bool
unfolding lookup
bstree_lookup deref t q = elim (lookup deref t.root q none) [ none ↦ false | some found ↦ true ]

-- the calls of `display` that the traversals make, in order
abbrev pub traverse_inorder : Node → List Ptr
traverse_inorder leaf = []
traverse_inorder (node l k r) = traverse_inorder l ++ (k ∷ traverse_inorder r)

abbrev pub traverse_preorder : Node → List Ptr
traverse_preorder leaf = []
traverse_preorder (node l k r) = k ∷ (traverse_preorder l ++ traverse_preorder r)

abbrev pub traverse_postorder : Node → List Ptr
traverse_postorder leaf = []
traverse_postorder (node l k r) = traverse_postorder l ++ (traverse_postorder r ++ (k ∷ []))

-- `tree_traverse` with the method's number; an empty tree prints nothing, whatever the method
unfoldable pub tree_traverse : Tree Node → ℕ → Status × List Ptr
tree_traverse t method = elim t.root [
  | leaf ↦ (exit_success, [])
  | node l k r ↦
      if method == 1
      then (exit_success, traverse_inorder (node l k r))
      else if method == 2
      then (exit_success, traverse_preorder (node l k r))
      else if method == 3
      then (exit_success, traverse_postorder (node l k r))
      else (exit_failure, [])
]

-- `destroy_all_nodes`: the data that is passed to `remove`, in order; each node is freed after it
unfoldable pub destroy_all_nodes : Bool → Node → List Ptr
destroy_all_nodes has_remove leaf = []
destroy_all_nodes has_remove (node l k r) =
    destroy_all_nodes has_remove l
    ++ (destroy_all_nodes has_remove r ++ (if has_remove then k ∷ [] else []))

-- `BStree_destroy`: the record is cleared, its callbacks too
unfoldable pub bstree_destroy : Tree Node → Status × Tree Node × List Ptr
bstree_destroy t = elim t.root [
  | leaf ↦ (exit_failure, t, [])
  | node l k r ↦ (
    exit_success,
    record { num_nodes = 0; root = leaf; has_remove = false },
    destroy_all_nodes t.has_remove (node l k r),
  )
]
