-- ===== src/Tree/Avl/Remove.antt =====
-- `AVLtree_remove`: no read through NULL on any tree, and the in-order sequence loses the datum.
use morning_projects.Common.{
  ℕ, ◌+◌, ◌-◌, ◌%◌, ◌^◌, ◌<◌, ◌≡◌, refl, Bool, true, false, Option, none, some, List, [], ◌∷◌, ◌++◌,
  arith, if◌then◌else◌, append_assoc, append-nil, ◌>>=◌, All, All-right,
}
use mathlib.Core.Option
use morning_projects.Tree.{Ptr, Node, leaf, node, Tree, Status, exit_success, traverse_inorder}
use morning_projects.Tree.Sorted.{contains, contains-append}
use morning_projects.Tree.Strict.{
  Strict, AllLt, AllGt, delete, delete_left, delete_right, delete_above, Strict-parts, contains_gt,
  contains_lt,
}
use morning_projects.Tree.Avl.{
  avl_node_height, avl_rotation_ll, avl_rotation_rr, avl_rotation_lr, avl_rotation_rl,
  avl_rebalance_ex, Removal, predecessor, fill_left, fill_right, free_node, pass_data,
  avltree_remove, avltree_remove_data,
}
use morning_projects.Tree.Avl.Rotation.{inorder_lr, inorder_rl}

-- no fault, and the in-order sequence of `t`
abbrev Keeps : List Ptr → Option Node → Type 0
Keeps xs none = ⊥
Keeps xs (some u) = traverse_inorder u ≡ xs

ll-Keeps :
    (a : Node) (m : Ptr) (b : Node) (k : Ptr) (r : Node)
    → Keeps (traverse_inorder (node (node a m b) k r)) (avl_rotation_ll (node (node a m b) k r))
unfolding avl_rotation_ll
ll-Keeps a m b k r =
    ground
      (arith, append_assoc (traverse_inorder a) (m ∷ traverse_inorder b) (k ∷ traverse_inorder r))

rr-Keeps :
    (l : Node) (k : Ptr) (a : Node) (m : Ptr) (b : Node)
    → Keeps (traverse_inorder (node l k (node a m b))) (avl_rotation_rr (node l k (node a m b)))
unfolding avl_rotation_rr
rr-Keeps l k a m b =
    ground
      (arith, append_assoc (traverse_inorder l) (k ∷ traverse_inorder a) (m ∷ traverse_inorder b))

lr-Keeps :
    (a : Node) (m : Ptr) (b : Node) (k : Ptr) (r : Node)
    → avl_node_height a < avl_node_height b
    → Keeps (traverse_inorder (node (node a m b) k r)) (avl_rotation_lr (node (node a m b) k r))
unfolding avl_rotation_lr
lr-Keeps a m leaf k r h = absurd (omega arith)
lr-Keeps a m (node p n q) k r h =
    inorder_lr (node (node a m (node p n q)) k r) {u = node (node a m p) n (node q k r)} refl

rl-Keeps :
    (l : Node) (k : Ptr) (a : Node) (m : Ptr) (b : Node)
    → avl_node_height b < avl_node_height a
    → Keeps (traverse_inorder (node l k (node a m b))) (avl_rotation_rl (node l k (node a m b)))
unfolding avl_rotation_rl
rl-Keeps l k leaf m b h = absurd (omega arith)
rl-Keeps l k (node p n q) m b h =
    inorder_rl (node l k (node (node p n q) m b)) {u = node (node l k p) n (node q m b)} refl

avl_rebalance_ex-Keeps :
    (l : Node) (k : Ptr) (r : Node)
    → Keeps (traverse_inorder (node l k r)) (avl_rebalance_ex (node l k r))
unfolding avl_rebalance_ex
avl_rebalance_ex-Keeps leaf k leaf = refl
avl_rebalance_ex-Keeps (node a m b) k leaf =
    ground (arith, ll-Keeps a m b k leaf, lr-Keeps a m b k leaf)
avl_rebalance_ex-Keeps leaf k (node a m b) =
    ground (arith, rr-Keeps leaf k a m b, rl-Keeps leaf k a m b)
avl_rebalance_ex-Keeps (node a m b) k (node c n d) =
    let r = node c n d in
    let l = node a m b in
    ground (arith, ll-Keeps a m b k r, lr-Keeps a m b k r, rr-Keeps l k c n d, rl-Keeps l k c n d)

module _ (deref : Ptr → ℕ) where
  -- a datum above `k` goes from the part behind `k`
  delete_last :
      (xs : List Ptr) (k : Ptr) (ys : List Ptr) (p : Ptr)
      → AllLt deref (deref k) xs
      → deref k < deref p
      → delete deref p ys ++ (p ∷ []) ≡ ys
      → delete deref p (xs ++ (k ∷ ys)) ++ (p ∷ []) ≡ xs ++ (k ∷ ys)
  delete_last xs k ys p low above e = ground (
    arith,
    delete_right deref p (deref k) xs (k ∷ ys),
    append_assoc xs (k ∷ delete deref p ys) (p ∷ []),
  )

  All-predecessor :
      (P : Ptr → Type 0) (l : Node) (k : Ptr) (r : Node)
      → All P (traverse_inorder (node l k r))
      → P (predecessor l k r)
  All-predecessor P l k leaf a = (All-right P (traverse_inorder l) (k ∷ []) a).0
  All-predecessor P l k (node c m d) a =
      All-predecessor P c m d
        (All-right P (traverse_inorder l) (k ∷ traverse_inorder (node c m d)) a).1

  -- the predecessor is the last datum
  delete-predecessor :
      (l : Node) (k : Ptr) (r : Node)
      → Strict deref (traverse_inorder (node l k r))
      → delete deref (predecessor l k r) (traverse_inorder (node l k r)) ++ (predecessor l k r ∷ [])
        ≡ traverse_inorder (node l k r)
  delete-predecessor l k leaf s =
      let (sl, low, high, sr) = Strict-parts deref (traverse_inorder l) k [] s in
      ground (
        arith,
        delete_right deref k (deref k) (traverse_inorder l) (k ∷ []),
        append-nil (traverse_inorder l),
      )
  delete-predecessor l k (node a m b) s =
      let right = traverse_inorder (node a m b) in
      let p = predecessor a m b in
      let (sl, low, high, sr) = Strict-parts deref (traverse_inorder l) k right s in
      let above : deref k < deref p = All-predecessor (λ x. deref k < deref x) a m b high in
      delete_last (traverse_inorder l) k right p low above (delete-predecessor a m b sr)

  -- no fault, the in-order sequence less one datum, and the number of nodes freed
  abbrev Removed : List Ptr → Ptr → Option Removal → Type 0
  Removed xs q none = ⊥
  Removed xs q (some d) =
      (traverse_inorder d.subtree ≡ delete deref q xs)
      × (d.freed ≡ (if contains deref q xs then 1 else 0))

  fill_left-Removed :
      (xs : List Ptr) (q k : Ptr) (r : Node) (d : Option Removal)
      → Removed xs q d
      → deref q < deref k
      → AllGt deref (deref k) (traverse_inorder r)
      → Removed (xs ++ (k ∷ traverse_inorder r)) q (fill_left k r d)
  fill_left-Removed xs q k r none h lt above = h
  fill_left-Removed xs q k r (some d) h lt above = ground (
    arith,
    avl_rebalance_ex-Keeps d.subtree k r,
    delete_left deref q xs k (traverse_inorder r),
    contains-append deref q xs (k ∷ traverse_inorder r),
    contains_gt deref q (deref k) (traverse_inorder r),
  )

  fill_right-Removed :
      (ys : List Ptr) (q k : Ptr) (l : Node) (d : Option Removal)
      → Removed ys q d
      → deref k < deref q
      → AllLt deref (deref k) (traverse_inorder l)
      → Removed (traverse_inorder l ++ (k ∷ ys)) q (fill_right l k d)
  fill_right-Removed ys q k l none h lt below = h
  fill_right-Removed ys q k l (some d) h lt below = ground (
    arith,
    avl_rebalance_ex-Keeps l k d.subtree,
    delete_right deref q (deref k) (traverse_inorder l) (k ∷ ys),
    contains-append deref q (traverse_inorder l) (k ∷ ys),
    contains_lt deref q (deref k) (traverse_inorder l),
  )

  -- a node is freed whose datum compares equal to `q`, and nothing equal is left below it
  free_node-Removed :
      (has_remove : Bool) (xs ys : List Ptr) (q k : Ptr) (d : Option Removal)
      → Removed ys q d
      → delete deref q ys ≡ ys
      → contains deref q ys ≡ false
      → delete deref q xs ≡ ys
      → contains deref q xs ≡ true
      → Removed xs q (Option.map (free_node has_remove q k) d)
  free_node-Removed has_remove xs ys q k none h same gone less found = h
  free_node-Removed has_remove xs ys q k (some d) h same gone less found = ground arith

  -- the walk goes on from the only child, where all is above `q`, or all below
  only_right :
      (has_remove : Bool) (q k : Ptr) (a : Node) (m : Ptr) (b : Node)
      → deref q ≡ deref k
      → AllGt deref (deref k) (traverse_inorder (node a m b))
      → Strict deref (traverse_inorder (node a m b))
      → Removed (traverse_inorder a) q (avltree_remove deref has_remove a q)
      → Removed
          (traverse_inorder (node leaf k (node a m b)))
          q
          (avltree_remove deref has_remove (node leaf k (node a m b)) q)
  unfolding avltree_remove
  only_right has_remove q k a m b e above s h =
      let (sa, low, high, sb) = Strict-parts deref (traverse_inorder a) m (traverse_inorder b) s in
      let lt : deref k < deref m =
        (All-right (λ p. deref k < deref p) (traverse_inorder a) (m ∷ traverse_inorder b)
          above).0 in
      ground (
        arith,
        free_node-Removed has_remove (traverse_inorder (node leaf k (node a m b)))
            (traverse_inorder (node a m b)) q k
            (fill_left m b (avltree_remove deref has_remove a q)),
        fill_left-Removed (traverse_inorder a) q m b (avltree_remove deref has_remove a q) h,
        delete_above deref q (deref k) (traverse_inorder (node a m b)),
        contains_gt deref q (deref k) (traverse_inorder (node a m b)),
      )

  only_left :
      (has_remove : Bool) (q k : Ptr) (a : Node) (m : Ptr) (b : Node)
      → deref q ≡ deref k
      → AllLt deref (deref k) (traverse_inorder (node a m b))
      → Strict deref (traverse_inorder (node a m b))
      → Removed (traverse_inorder b) q (avltree_remove deref has_remove b q)
      → Removed
          (traverse_inorder (node (node a m b) k leaf))
          q
          (avltree_remove deref has_remove (node (node a m b) k leaf) q)
  unfolding avltree_remove
  only_left has_remove q k a m b e below s h =
      let xs = traverse_inorder (node a m b) in
      let (sa, low, high, sb) = Strict-parts deref (traverse_inorder a) m (traverse_inorder b) s in
      let lt : deref m < deref k =
        (All-right (λ p. deref p < deref k) (traverse_inorder a) (m ∷ traverse_inorder b)
          below).0 in
      ground (
        arith,
        free_node-Removed has_remove (traverse_inorder (node (node a m b) k leaf)) xs q k
            (fill_right a m (avltree_remove deref has_remove b q)),
        fill_right-Removed (traverse_inorder b) q m a (avltree_remove deref has_remove b q) h,
        delete_right deref q (deref k) xs (k ∷ []),
        delete_right deref q (deref k) xs [],
        append-nil xs,
        contains_lt deref q (deref k) xs,
        contains-append deref q xs (k ∷ []),
      )

  -- the datum taken from the predecessor is removed on the left
  both_children :
      (has_remove : Bool) (q k p : Ptr) (xs : List Ptr) (r : Node) (d : Option Removal)
      → deref q ≡ deref k
      → AllLt deref (deref k) xs
      → AllGt deref (deref k) (traverse_inorder r)
      → Removed xs p d
      → delete deref p xs ++ (p ∷ []) ≡ xs
      → contains deref p xs ≡ true
      → Removed
          (xs ++ (k ∷ traverse_inorder r))
          q
          (Option.map (pass_data has_remove k) (fill_left p r d))
  both_children has_remove q k p xs r none e below above h last here = h
  both_children has_remove q k p xs r (some d) e below above h last here = ground (
    arith,
    avl_rebalance_ex-Keeps d.subtree p r,
    append_assoc (delete deref p xs) (p ∷ []) (traverse_inorder r),
    delete_right deref q (deref k) xs (k ∷ traverse_inorder r),
    contains-append deref q xs (k ∷ traverse_inorder r),
    contains_lt deref q (deref k) xs,
  )

  contains-predecessor :
      (l : Node) (k : Ptr) (r : Node)
      → contains deref (predecessor l k r) (traverse_inorder (node l k r)) ≡ true
  contains-predecessor l k leaf =
      ground (arith, contains-append deref k (traverse_inorder l) (k ∷ []))
  contains-predecessor l k (node a m b) = ground (
    arith,
    contains-predecessor a m b,
    contains-append deref (predecessor a m b) (traverse_inorder l)
        (k ∷ traverse_inorder (node a m b)),
  )

  avltree_remove-Removed :
      (has_remove : Bool) (t : Node) (q : Ptr)
      → Strict deref (traverse_inorder t)
      → Removed (traverse_inorder t) q (avltree_remove deref has_remove t q)
  unfolding avltree_remove
  avltree_remove-Removed has_remove leaf q s = ground arith
  avltree_remove-Removed has_remove (node leaf k leaf) q s = ground (
    arith,
    fill_left-Removed [] q k leaf (avltree_remove deref has_remove leaf q),
    fill_right-Removed [] q k leaf (avltree_remove deref has_remove leaf q),
  )
  avltree_remove-Removed has_remove (node leaf k (node a m b)) q s =
      let r = node a m b in
      ground (
        arith,
        fill_left-Removed [] q k r (avltree_remove deref has_remove leaf q),
        fill_right-Removed (traverse_inorder r) q k leaf (avltree_remove deref has_remove r q)
            (avltree_remove-Removed has_remove (node a m b) q s.1),
        only_right has_remove q k a m b,
        avltree_remove-Removed has_remove a q
            (Strict-parts deref (traverse_inorder a) m (traverse_inorder b) s.1).0,
      )
  avltree_remove-Removed has_remove (node (node a m b) k leaf) q s =
      let l = node a m b in
      let (sl, low, high, sr) = Strict-parts deref (traverse_inorder l) k [] s in
      ground (
        arith,
        fill_left-Removed (traverse_inorder l) q k leaf (avltree_remove deref has_remove l q)
            (avltree_remove-Removed has_remove (node a m b) q sl),
        fill_right-Removed [] q k l (avltree_remove deref has_remove leaf q),
        only_left has_remove q k a m b,
        avltree_remove-Removed has_remove b q
            (Strict-parts deref (traverse_inorder a) m (traverse_inorder b) sl).3,
      )
  avltree_remove-Removed has_remove (node (node a m b) k (node c n d)) q s =
      let l = node a m b in
      let r = node c n d in
      let p = predecessor a m b in
      let (sl, low, high, sr) = Strict-parts deref (traverse_inorder l) k (traverse_inorder r) s in
      ground (
        arith,
        fill_left-Removed (traverse_inorder l) q k r (avltree_remove deref has_remove l q)
            (avltree_remove-Removed has_remove (node a m b) q sl),
        fill_right-Removed (traverse_inorder r) q k l (avltree_remove deref has_remove r q)
            (avltree_remove-Removed has_remove (node c n d) q sr),
        both_children has_remove q k p (traverse_inorder l) r (avltree_remove deref has_remove l p),
        avltree_remove-Removed has_remove (node a m b) p sl,
        delete-predecessor a m b sl,
        contains-predecessor a m b,
      )

  abbrev pub Deleted : Tree Node → Ptr → Option (Status × Tree Node × List Ptr) → Type 0
  Deleted t q none = ⊥
  Deleted t q (some (status, u, passed)) =
      (status ≡ exit_success)
      × (traverse_inorder u.root ≡ delete deref q (traverse_inorder t.root))
      × (u.num_nodes ≡ (
          if contains deref q (traverse_inorder t.root)
          then (t.num_nodes + 2 ^ 32 - 1) % 2 ^ 32
          else t.num_nodes % 2 ^ 32))

  -- On a tree whose in-order sequence is strictly sorted, `AVLtree_remove` makes no read through
  -- NULL and answers success; the new in-order sequence is the old one without the datum that
  -- compares equal, and the count of nodes falls by one, modulo 2 ^ 32, exactly if there was one.
  pub avltree_remove_data-Deleted :
      (t : Tree Node) (q : Ptr)
      → Strict deref (traverse_inorder t.root)
      → Deleted t q (avltree_remove_data deref t q)
  unfolding avltree_remove_data
  avltree_remove_data-Deleted t q s =
      go (avltree_remove deref t.has_remove t.root q)
        (avltree_remove-Removed t.has_remove t.root q s)
    where
      go :
          (d : Option Removal)
          → Removed (traverse_inorder t.root) q d
          → Deleted t q (
              d >>= λ d. some (
                exit_success,
                record t {
                  num_nodes = (t.num_nodes + 2 ^ 32 - d.freed % 2 ^ 32) % 2 ^ 32;
                  root = d.subtree;
                },
                d.passed,
              ))
      go none h = h
      go (some d) h = ground arith
