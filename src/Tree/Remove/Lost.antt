-- ===== src/Tree/Remove/Lost.antt =====
-- common/src/tree/tree.c: what `BStree_remove` makes of the heap where the right child of the node to
-- remove has no left child. `retrieve_smallest` then leaves `parent_node` as `lookup` set it.
use morning_projects.Common.{
  ℕ, zero, suc, ◌+◌, ◌≤◌, ◌<◌, ◌≡◌, refl, ◌∙◌, ap, false, Option, none, some, List, ◌∷◌, ◌==◌,
  arith,
}
use morning_projects.Tree.{Ptr, exit_success}
use morning_projects.Tree.Remove.{
  TreeCell, NodeHeap, HeapTree, store_node, fill_position, rebuild, let_go, passed, remove_found,
  retrieve_smallest,
}
use morning_projects.Tree.Remove.Placed.{
  Placed, leaf, node, address, tree_cell, Lies, Frame, went_left, went_right, parent, LiesAbove,
  hit, count, store_self, store_apart,
}
use morning_projects.Tree.Remove.Removal.{Once, refill, fill_position-refill, other_root, hit_self}

module _ (u : HeapTree) (p a b left right w v : ℕ) (pk k m : Ptr)
    (above : u.heap (suc p) ≡ tree_cell w pk v) (found : u.heap (suc a) ≡ tree_cell left k (suc b))
    (candidate : u.heap (suc b) ≡ tree_cell 0 m right) (ap' : hit a p ≡ 0) (bp : hit b p ≡ 0)
    (ab : hit a b ≡ 0) (differ : (right == suc b) ≡ false) where
  abbrev linked : NodeHeap
  linked = store_node u.heap (suc p) (tree_cell right pk v)

  abbrev adopted : NodeHeap
  adopted = store_node linked (suc b) (tree_cell left m right)

  abbrev looped : NodeHeap
  looped = store_node adopted (suc b) (tree_cell left m (suc b))

  rebuild-looped : rebuild u (suc a) (suc b) (suc p) ≡ some looped
  rebuild-looped =
      let here : linked (suc b) ≡ tree_cell 0 m right = store_apart u.heap p b _ bp ∙ candidate in
      let gone : linked (suc a) ≡ tree_cell left k (suc b) = store_apart u.heap p a _ ap' ∙ found in
      let itself : adopted (suc b) ≡ tree_cell left m right = store_self linked (suc b) _ in
      rw (candidate, above, gone, here, itself, differ) refl

  pub looped_lem :
      hit p b ≡ 0
      → (g : NodeHeap) × (rebuild u (suc a) (suc b) (suc p) ≡ some g)
        × (g (suc b) ≡ tree_cell left m (suc b))
        × (g (suc p) ≡ tree_cell right pk v)
  looped_lem e = (
    looped,
    rebuild-looped,
    store_self adopted (suc b) _,
    store_apart adopted b p _ e ∙ (store_apart linked b p _ e ∙ store_self u.heap (suc p) _),
  )

-- the left child of the cell
abbrev pub left_of : Option TreeCell → Option ℕ
left_of none = none
left_of (some c) = some c.left_child

module _ (t : HeapTree) (l : Placed) (a : ℕ) (k : Ptr) (b : ℕ) (m : Ptr) (y : Placed) where
  abbrev pub right : Placed
  right = node leaf b m y

  smallest_here :
      (fuel : ℕ) (h : NodeHeap) (par : ℕ)
      → 0 < fuel
      → h (suc b) ≡ tree_cell 0 m (address y)
      → retrieve_smallest fuel h (suc b) par ≡ some (suc b, par)
  unfolding retrieve_smallest
  smallest_here zero h par enough e = absurd (omega arith)
  smallest_here (suc fuel) h par enough e = rw e refl

  pub remove_found_root :
      (fuel : ℕ) → 0 < fuel → Lies t.heap (node l a k right) → remove_found fuel t (suc a, 0) ≡ none
  remove_found_root fuel enough lies =
      rw (lies.0, smallest_here fuel t.heap 0 enough lies.2.0, lies.2.0) refl

  -- what is left of the candidate and of the parent at `suc p`
  abbrev pub Looped : ℕ → HeapTree → Type 0
  Looped par u =
      (u.heap (suc b) ≡ tree_cell (address l) m (suc b)) × (left_of (u.heap par) ≡ some (address y))

  lost :
      (fuel p w v : ℕ) (pk : Ptr) (u : HeapTree)
      → 0 < fuel
      → Lies t.heap (node l a k right)
      → fill_position t (suc a) (suc p) (suc b) ≡ some u
      → u.heap (suc p) ≡ tree_cell w pk v
      → ((e : ℕ) → hit e p ≡ 0 → u.heap (suc e) ≡ t.heap (suc e))
      → ((e : ℕ) → hit e p + (hit e a + (hit e b + count e y)) ≤ 1)
      → (u' : HeapTree) × (remove_found fuel t (suc a, suc p) ≡ some (exit_success, u', passed t k))
        × Looped (suc p) u'
  lost fuel p w v pk u enough lies filled above same once =
      let self_p = hit_self p in
      let self_a = hit_self a in
      let self_b = hit_self b in
      let once_p = once p in
      let once_a = once a in
      let once_b = once b in
      let found : u.heap (suc a) ≡ tree_cell (address l) k (suc b) =
        same a (omega (arith, once_a, self_a)) ∙ lies.0 in
      let candidate : u.heap (suc b) ≡ tree_cell 0 m (address y) =
        same b (omega (arith, once_b, self_b)) ∙ lies.2.0 in
      let (g, built, itself, under) =
        looped_lem u p a b (address l) (address y) w v pk k m above found candidate
          (omega (arith, once_a, self_a)) (omega (arith, once_b, self_b))
          (omega (arith, once_a, self_a)) (other_root b y (omega (arith, once_b, self_b)))
          (omega (arith, once_p, self_p)) in
      (
        let_go (record u { heap = g }) (suc a),
        rw (lies.0, smallest_here fuel t.heap (suc p) enough lies.2.0, filled, built) refl,
        (
          store_apart g a b none (omega (arith, once_b, self_b)) ∙ itself,
          ap left_of (store_apart g a p none (omega (arith, once_p, self_p)) ∙ under),
        ),
      )

  -- the node under its parent, in either place
  pub remove_found_lost :
      (fuel : ℕ) (f : Frame) (fs : List Frame)
      → 0 < fuel
      → LiesAbove t.heap (f ∷ fs) (suc a)
      → Lies t.heap (node l a k right)
      → Once (f ∷ fs) (node l a k right)
      → (u : HeapTree) × (remove_found fuel t (suc a, parent (f ∷ fs))
          ≡ some (exit_success, u, passed t k))
        × Looped (parent (f ∷ fs)) u
  remove_found_lost fuel (went_left p pk pr) fs enough above lies once =
      lost fuel p (suc b) (address pr) pk (refill t (went_left p pk pr ∷ fs) (suc b)) enough lies
        (fill_position-refill t a (went_left p pk pr ∷ fs) (suc b)
          (omega (arith, once a, hit_self a)) above)
        (store_self t.heap (suc p) _) (λ e apart. store_apart t.heap p e _ apart)
        (λ e. omega (arith, once e))
  remove_found_lost fuel (went_right pl p pk) fs enough above lies once =
      lost fuel p (address pl) (suc b) pk (refill t (went_right pl p pk ∷ fs) (suc b)) enough lies
        (fill_position-refill t a (went_right pl p pk ∷ fs) (suc b)
          (omega (arith, once a, hit_self a)) above)
        (store_self t.heap (suc p) _) (λ e apart. store_apart t.heap p e _ apart)
        (λ e. omega (arith, once e))
