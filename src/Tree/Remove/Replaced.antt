-- ===== src/Tree/Remove/Replaced.antt =====
-- common/src/tree/tree.c: what `BStree_remove` makes of the heap where the right child of the node to
-- remove has a left child.
use morning_projects.Common.{
  ℕ, zero, suc, ◌+◌, ◌≤◌, ◌<◌, ◌≡◌, refl, sym, ◌∙◌, ap, true, not, none, some, List, [], ◌∷◌, ◌==◌,
  if◌then◌else◌, arith, Bool-cases, inl, inr,
}
use morning_projects.Tree.{Ptr, exit_success}
use morning_projects.Tree.Remove.{
  NodeHeap, HeapTree, store_node, rebuild, let_go, passed, remove_found, retrieve_smallest,
}
use morning_projects.Tree.Remove.Placed.{
  Placed, leaf, node, address, tree_cell, Lies, Frame, went_left, went_right, plug, parent,
  LiesAbove, hit, count, count_path, Lies-plug, store_self, store_apart, Lies-agree,
  LiesAbove-agree, relink, relink_apart, relink-LiesAbove, address-plug, count-plug, size,
}
use morning_projects.Tree.Remove.Located.{smallest, retrieve_smallest-smallest, smallest-Lies}
use morning_projects.Tree.Remove.Removal.{
  Once, Holds, refill, refill_heap, fill_position-refill, refill_root, EndsLeft, smallest-EndsLeft,
  set_left-relink,
}

hit_self : (x : ℕ) → hit x x ≡ 1
hit_self x = ground arith

equal_address : (x y : ℕ) → (x == y) ≡ true → x ≡ y
equal_address x y e = ground arith

address-plug_left :
    (gs : List Frame) (s s' : Placed) → EndsLeft gs → address (plug gs s) ≡ address (plug gs s')
address-plug_left [] s s' e = absurd e
address-plug_left (went_left a k r ∷ gs) s s' e =
    address-plug gs (node s a k r) (node s' a k r) refl
address-plug_left (went_right l a k ∷ gs) s s' e = absurd e

-- the candidate with the children of the node to remove, and the heap as it is elsewhere
module _ (u : HeapTree) (gs : List Frame) (a c right : ℕ) (k ck : Ptr) (l cy : Placed)
    (candidate : u.heap (suc c) ≡ tree_cell 0 ck (address cy)) (above : LiesAbove u.heap gs (suc c))
    (found : u.heap (suc a) ≡ tree_cell (address l) k right) (left : EndsLeft gs)
    (away_c : count_path c gs ≡ 0) (away_a : count_path a gs ≡ 0) (apart : hit a c ≡ 0) where
  abbrev linked : NodeHeap
  linked = relink u.heap gs (address cy)

  abbrev adopted : NodeHeap
  adopted = store_node linked (suc c) (tree_cell (address l) ck (address cy))

  rebuild_steps : rebuild u (suc a) (suc c) (parent gs) ≡ (
      if not (address cy == right)
      then some (store_node adopted (suc c) (tree_cell (address l) ck right))
      else some adopted)
  rebuild_steps =
      let there : linked (suc c) ≡ tree_cell 0 ck (address cy) =
        relink_apart u.heap gs (address cy) c away_c ∙ candidate in
      let gone : linked (suc a) ≡ tree_cell (address l) k right =
        relink_apart u.heap gs (address cy) a away_a ∙ found in
      let itself : adopted (suc c) ≡ tree_cell (address l) ck (address cy) =
        store_self linked (suc c) _ in
      rw (candidate, set_left-relink u.heap gs (address cy) (suc c) left above, gone, there, itself)
        refl

  pub rebuild_lem :
      (g : NodeHeap) × (rebuild u (suc a) (suc c) (parent gs) ≡ some g)
      × (g (suc c) ≡ tree_cell (address l) ck right)
      × ((b : ℕ) → hit b c ≡ 0 → g (suc b) ≡ linked (suc b))
  rebuild_lem = elim (Bool-cases (address cy == right)) [
    | inl same ↦ (
      adopted,
      rebuild_steps ∙ rw same refl,
      store_self linked (suc c) _
          ∙ ap (tree_cell (address l) ck) (equal_address (address cy) right same),
      λ b e. store_apart linked c b _ e,
    )
    | inr differ ↦ (
      store_node adopted (suc c) (tree_cell (address l) ck right),
      rebuild_steps ∙ rw differ refl,
      store_self adopted (suc c) _,
      λ b e. store_apart adopted c b _ e ∙ store_apart linked c b _ e,
    )
  ]

-- The node found, between its left child and a right child that has a left child itself.
module _ (t : HeapTree) (fs : List Frame) (l : Placed) (a : ℕ) (k : Ptr) (x : Placed) (d : ℕ)
    (n : Ptr) (z : Placed) (b : ℕ) (m : Ptr) (y : Placed) (p : LiesAbove t.heap fs (suc a))
    (lies : Lies t.heap (node l a k (node (node x d n z) b m y)))
    (once : Once fs (node l a k (node (node x d n z) b m y))) where
  abbrev pub right : Placed
  right = node (node x d n z) b m y

  abbrev pub spot : List Frame × ℕ × Ptr × Placed
  spot = smallest (node x d n z) b m y []

  -- the right child without its smallest node
  abbrev pub rest : Placed
  rest = plug spot.0 spot.3

  abbrev pub replaced : Placed
  replaced = node l spot.1 spot.2 rest

  pub spot-Lies :
      LiesAbove t.heap spot.0 (suc spot.1)
      × Lies t.heap (node leaf spot.1 spot.2 spot.3)
      × (plug spot.0 (node leaf spot.1 spot.2 spot.3) ≡ right)
  spot-Lies = smallest-Lies t.heap (node x d n z) b m y [] tt lies.2

  -- the addresses of the parts, none of which occurs twice
  apart :
      (e : ℕ)
      → count_path e fs
          + (hit e a + count e l + (count_path e spot.0 + (hit e spot.1 + count e spot.3)))
        ≤ 1
  apart e =
      let split = count-plug e spot.0 (node leaf spot.1 spot.2 spot.3) in
      let same = ap (count e) spot-Lies.2 in omega (arith, once e, split, same)

  smallest_found :
      (fuel : ℕ)
      → size right < fuel
      → retrieve_smallest fuel t.heap (suc b) (parent fs) ≡ some (suc spot.1, parent spot.0)
  unfolding retrieve_smallest
  smallest_found zero enough = absurd (omega arith)
  smallest_found (suc fuel) enough = rw (lies.2.0) (
      retrieve_smallest-smallest t.heap fuel x d n z (went_left b m y ∷ []) (omega (arith, enough))
        lies.2.1)

  -- the heap with the candidate in the position
  abbrev pub moved : HeapTree
  moved = refill t fs (suc spot.1)

  moved_cell : (e : ℕ) → count_path e fs ≡ 0 → moved.heap (suc e) ≡ t.heap (suc e)
  moved_cell e c =
      ap (λ h. h (suc e)) (refill_heap t fs (suc spot.1)) ∙ relink_apart t.heap fs (suc spot.1) e c

  pub rebuilt :
      (g : NodeHeap) × (rebuild moved (suc a) (suc spot.1) (parent spot.0) ≡ some g)
      × (g (suc spot.1) ≡ tree_cell (address l) spot.2 (suc b))
      × ((e : ℕ) → hit e spot.1 ≡ 0 → g (suc e) ≡ relink moved.heap spot.0 (address spot.3) (suc e))
  rebuilt =
      let self_a = hit_self a in
      let self_c = hit_self spot.1 in
      rebuild_lem moved spot.0 a spot.1 (suc b) k spot.2 l spot.3
        (moved_cell spot.1 (omega (arith, apart spot.1, self_c)) ∙ spot-Lies.1.0)
        (LiesAbove-agree t.heap moved.heap spot.0 (suc spot.1)
          (λ e i. moved_cell e (omega (arith, apart e, i))) spot-Lies.0)
        (moved_cell a (omega (arith, apart a, self_a)) ∙ lies.0)
        (smallest-EndsLeft x d n z (went_left b m y ∷ []) tt) (omega (arith, apart spot.1, self_c))
        (omega (arith, apart a, self_a)) (omega (arith, apart a, self_a))

  abbrev pub final : HeapTree
  final = let_go (record moved { heap = rebuilt.0 }) (suc a)

  pub remove_found-replaced :
      (fuel : ℕ)
      → size right < fuel
      → remove_found fuel t (suc a, parent fs) ≡ some (exit_success, final, passed t k)
  remove_found-replaced fuel enough =
      rw
        (
          lies.0,
          smallest_found fuel enough,
          fill_position-refill t a fs (suc spot.1) (omega (arith, apart a, hit_self a)) p,
          rebuilt.1,
        )
        refl

  -- the cells that no write touches
  final_cell :
      (e : ℕ)
      → hit e a ≡ 0
      → hit e spot.1 ≡ 0
      → count_path e spot.0 ≡ 0
      → final.heap (suc e) ≡ moved.heap (suc e)
  final_cell e ea ec eg =
      store_apart rebuilt.0 a e none ea
      ∙ (rebuilt.3 e ec ∙ relink_apart moved.heap spot.0 (address spot.3) e eg)

  pub final-Holds : t.root ≡ address (plug fs (node l a k right)) → Holds final (plug fs replaced)
  final-Holds e =
      let h = t.heap in
      let linked : (x' : ℕ) → moved.heap (suc x') ≡ relink h fs (suc spot.1) (suc x') =
        λ x'. ap (λ g. g (suc x')) (refill_heap t fs (suc spot.1)) in
      let path =
        LiesAbove-agree (relink h fs (suc spot.1)) final.heap fs (suc spot.1)
          (λ x' i.
            final_cell x' (omega (arith, apart x', i)) (omega (arith, apart x', i))
              (omega (arith, apart x', i))
            ∙ linked x')
          (relink-LiesAbove h fs (suc spot.1) (suc a) (λ x'. omega (arith, apart x')) p) in
      let inner =
        LiesAbove-agree (relink moved.heap spot.0 (address spot.3)) final.heap spot.0
          (address spot.3)
          (λ x' i.
            store_apart rebuilt.0 a x' none (omega (arith, apart x', i))
            ∙ rebuilt.3 x' (omega (arith, apart x', i)))
          (relink-LiesAbove moved.heap spot.0 (address spot.3) (suc spot.1)
            (λ x'. omega (arith, apart x'))
            (LiesAbove-agree h moved.heap spot.0 (suc spot.1)
              (λ x' i. moved_cell x' (omega (arith, apart x', i))) spot-Lies.0)) in
      let kept : (s : Placed)
          → ((x' : ℕ) → count x' s ≤ count x' l + count x' spot.3)
          → Lies h s
          → Lies final.heap s =
        λ s part. Lies-agree h final.heap s (λ x' i.
          final_cell x' (omega (arith, apart x', i, part x')) (omega (arith, apart x', i, part x'))
            (omega (arith, apart x', i, part x'))
          ∙ moved_cell x' (omega (arith, apart x', i, part x'))) in
      record {
        root = refill_root t fs (node l a k right) replaced e;
        lies = Lies-plug final.heap fs replaced path (
          store_apart rebuilt.0 a spot.1 none (omega (arith, apart spot.1, hit_self spot.1))
              ∙ (rebuilt.2
                  ∙ ap (tree_cell (address l) spot.2) (
                      sym (ap address spot-Lies.2)
                      ∙ address-plug_left spot.0 (node leaf spot.1 spot.2 spot.3) spot.3
                          (smallest-EndsLeft x d n z (went_left b m y ∷ []) tt))),
          kept l (λ x'. omega arith) lies.1,
          Lies-plug final.heap spot.0 spot.3 inner (kept spot.3 (λ x'. omega arith) spot-Lies.1.2),
        );
      }
