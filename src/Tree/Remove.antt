-- ===== src/Tree/Remove.antt =====
-- common/src/tree/tree.c, the unbalanced tree: `BStree_remove` and `retrieve_smallest`. Their writes
-- can leave a node with two parents, or as its own child, so the nodes are cells of a heap. 0 is NULL;
-- `none` is the fault of an access through NULL or to freed memory, or says that the fuel is used
-- up.
pub mod Placed
pub mod Located
pub mod Removal
pub mod Replaced
pub mod Lost
pub mod Outcome
mod Tests
use morning_projects.Common.{
  ℕ, zero, suc, ◌+◌, ◌-◌, ◌%◌, ◌^◌, Bool, true, false, not, Option, none, some, List, [], ◌∷◌, ◌==◌,
  if◌then◌else◌, ◌>>=◌,
}
use Prim.Native.Nat.{Ordering}
use morning_projects.Tree.{Ptr, Status, exit_success, exit_failure, compare_data}

-- `bstree_node_tag`, at its address
pub record TreeCell : Type 0 where
  pub left_child : ℕ
  pub right_child : ℕ
  pub datum : Ptr

abbrev pub NodeHeap : Type 0
NodeHeap = ℕ → Option TreeCell

abbrev pub read_node : NodeHeap → ℕ → Option TreeCell
read_node h zero = none
read_node h (suc a) = h (suc a)

-- the branches of a comparison
abbrev pub by_order {ℓ} : {A : Type ℓ} → Ordering → A → A → A → A
by_order Ordering.lt below above here = below
by_order Ordering.gt below above here = above
by_order Ordering.eq below above here = here

-- a cell is written, and a node is freed
abbrev pub store_node : NodeHeap → ℕ → Option TreeCell → NodeHeap
store_node h a v b = if b == a then v else h b

abbrev pub set_left : NodeHeap → ℕ → ℕ → Option NodeHeap
set_left h a x = read_node h a >>= λ c. some (store_node h a (some (record c { left_child = x })))

abbrev pub set_right : NodeHeap → ℕ → ℕ → Option NodeHeap
set_right h a x = read_node h a >>= λ c. some (store_node h a (some (record c { right_child = x })))

-- `lookup`: the node found, 0 if there is none, and `*parent_node`
unfoldable pub lookup_at : ℕ → (Ptr → ℕ) → NodeHeap → ℕ → Ptr → ℕ → Option (ℕ × ℕ)
lookup_at zero deref h a q parent = none
lookup_at (suc n) deref h zero q parent = some (0, parent)
lookup_at (suc n) deref h (suc a) q parent = h (suc a) >>= λ c.
    by_order (compare_data deref q c.datum) (lookup_at n deref h c.left_child q (suc a))
      (lookup_at n deref h c.right_child q (suc a)) (some (suc a, parent))

-- `retrieve_smallest`: the node found and `*parent_node`
unfoldable pub retrieve_smallest : ℕ → NodeHeap → ℕ → ℕ → Option (ℕ × ℕ)
retrieve_smallest zero h a parent = none
retrieve_smallest (suc n) h a parent = read_node h a >>= λ c. elim c.left_child [
  | zero ↦ some (a, parent)
  | suc l ↦ retrieve_smallest n h (suc l) a
]

-- `tree_tag` with its nodes
pub record HeapTree : Type 0 where
  pub heap : NodeHeap
  pub root : ℕ
  pub num_nodes : ℕ
  pub has_remove : Bool

-- `*position_to_fill = x`, for the node found under its parent
abbrev pub fill_position : HeapTree → ℕ → ℕ → ℕ → Option HeapTree
fill_position t found zero x = some (record t { root = x })
fill_position t found (suc p) x = read_node t.heap (suc p) >>= λ c.
    (if c.left_child == found then set_left t.heap (suc p) x else set_right t.heap (suc p) x)
    >>= λ h. some (record t { heap = h })

-- the candidate, once it stands in the position: its right child goes to the parent that
-- `retrieve_smallest` left, and it takes the children of the node to remove
abbrev pub rebuild : HeapTree → ℕ → ℕ → ℕ → Option NodeHeap
rebuild t found candidate parent = read_node t.heap candidate >>= λ c.
    set_left t.heap parent c.right_child >>= λ h. read_node h found >>= λ f.
    set_left h candidate f.left_child >>= λ g. read_node g candidate >>= λ c'.
    if not (c'.right_child == f.right_child) then set_right g candidate f.right_child else some g

abbrev pub take_smallest : ℕ → HeapTree → ℕ → ℕ → ℕ → Option HeapTree
take_smallest n t found parent right = retrieve_smallest n t.heap right parent >>= λ r.
    fill_position t found parent r.0 >>= λ u.
    rebuild u found r.0 r.1 >>= λ h. some (record u { heap = h })

-- the node is freed and counted out
abbrev pub let_go : HeapTree → ℕ → HeapTree
let_go t found = record t {
  heap = store_node t.heap found none;
  num_nodes = (t.num_nodes + 2 ^ 32 - 1) % 2 ^ 32;
}

-- the data that is passed to `remove`
abbrev pub passed : HeapTree → Ptr → List Ptr
passed t k = if t.has_remove then k ∷ [] else []

-- `BStree_remove` behind its search
abbrev pub remove_found : ℕ → HeapTree → ℕ × ℕ → Option (Status × HeapTree × List Ptr)
remove_found n t (zero, parent) = some (exit_failure, t, [])
remove_found n t (suc a, parent) = read_node t.heap (suc a) >>= λ c.
    (elim c.right_child [
      | zero ↦ fill_position t (suc a) parent c.left_child
      | suc r ↦ take_smallest n t (suc a) parent (suc r)
    ])
    >>= λ u. some (exit_success, let_go u (suc a), passed t c.datum)

-- `BStree_remove`
unfoldable pub bstree_remove :
    ℕ → (Ptr → ℕ) → HeapTree → Ptr → Option (Status × HeapTree × List Ptr)
unfolding lookup_at retrieve_smallest
bstree_remove n deref t q =
    if t.root == 0
    then some (exit_failure, t, [])
    else lookup_at n deref t.heap t.root q 0 >>= λ found. remove_found n t found
