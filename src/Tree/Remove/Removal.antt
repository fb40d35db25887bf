-- ===== src/Tree/Remove/Removal.antt =====
-- common/src/tree/tree.c: what `BStree_remove` makes of the heap once the node is found.
use morning_projects.Common.{
  ℕ, suc, ◌+◌, ◌≤◌, ◌≡◌, refl, ◌∙◌, ap, true, false, none, some, List, [], ◌∷◌, ◌==◌, arith,
}
use morning_projects.Tree.{Ptr, exit_success}
use morning_projects.Tree.Remove.{
  NodeHeap, HeapTree, set_left, fill_position, let_go, passed, remove_found,
}
use morning_projects.Tree.Remove.Placed.{
  Placed, leaf, node, address, Lies, Frame, went_left, went_right, plug, parent, LiesAbove, hit,
  count, count_path, Lies-plug, store_apart, Lies-agree, LiesAbove-agree, relink, relink_apart,
  relink-LiesAbove, address-plug,
}
use morning_projects.Tree.Remove.Located.{smallest}

-- no address occurs twice
abbrev pub Once : List Frame → Placed → Type 0
Once fs t = (x : ℕ) → count_path x fs + count x t ≤ 1

-- the tree lies in the heap, and begins at the root
pub record Holds (t : HeapTree) (s : Placed) : Type 0 where
  pub root : t.root ≡ address s
  pub lies : Lies t.heap s

abbrev pub refill : HeapTree → List Frame → ℕ → HeapTree
refill t [] x = record t { root = x }
refill t (f ∷ fs) x = record t { heap = relink t.heap (f ∷ fs) x }

pub refill_heap :
    (t : HeapTree) (fs : List Frame) (x : ℕ) → (refill t fs x).heap ≡ relink t.heap fs x
refill_heap t [] x = refl
refill_heap t (f ∷ fs) x = refl

pub hit_self : (x : ℕ) → hit x x ≡ 1
hit_self x = ground arith

same_address : (x : ℕ) → (x == x) ≡ true
same_address x = ground arith

-- an address that does not occur in a tree is not that of its root
pub other_root : (a : ℕ) (s : Placed) → count a s ≡ 0 → (address s == suc a) ≡ false
other_root a leaf c = ground arith
other_root a (node l b k r) c = ground arith

pub fill_position-refill :
    (t : HeapTree) (a : ℕ) (fs : List Frame) (x : ℕ)
    → count_path a fs ≡ 0
    → LiesAbove t.heap fs (suc a)
    → fill_position t (suc a) (parent fs) x ≡ some (refill t fs x)
fill_position-refill t a [] x c p = refl
fill_position-refill t a (went_left b k r ∷ fs) x c (e, lr, p) = rw (e, same_address (suc a)) refl
fill_position-refill t a (went_right l b k ∷ fs) x c (e, ll, p) =
    rw (e, other_root a l (omega (arith, c))) refl

pub refill_root :
    (t : HeapTree) (fs : List Frame) (s s' : Placed)
    → t.root ≡ address (plug fs s)
    → (refill t fs (address s')).root ≡ address (plug fs s')
refill_root t [] s s' e = refl
refill_root t (went_left a k r ∷ fs) s s' e =
    e ∙ address-plug fs (node s a k r) (node s' a k r) refl
refill_root t (went_right l a k ∷ fs) s s' e =
    e ∙ address-plug fs (node l a k s) (node l a k s') refl

-- the path ends to the left of its last node
abbrev pub EndsLeft : List Frame → Type 0
EndsLeft [] = ⊥
EndsLeft (went_left a k r ∷ fs) = Unit
EndsLeft (went_right l a k ∷ fs) = ⊥

pub smallest-EndsLeft :
    (l : Placed) (a : ℕ) (k : Ptr) (r : Placed) (fs : List Frame)
    → EndsLeft fs
    → EndsLeft (smallest l a k r fs).0
smallest-EndsLeft leaf a k r fs e = e
smallest-EndsLeft (node x b m y) a k r fs e = smallest-EndsLeft x b m y (went_left a k r ∷ fs) tt

pub set_left-relink :
    (h : NodeHeap) (gs : List Frame) (x y : ℕ)
    → EndsLeft gs
    → LiesAbove h gs y
    → set_left h (parent gs) x ≡ some (relink h gs x)
set_left-relink h [] x y e p = absurd e
set_left-relink h (went_left a k r ∷ fs) x y e (c, lr, p) = rw c refl
set_left-relink h (went_right l a k ∷ fs) x y e p = absurd e

-- The node without right child.
module _ (t : HeapTree) (fs : List Frame) (l : Placed) (a : ℕ) (k : Ptr)
    (p : LiesAbove t.heap fs (suc a)) (lies : Lies t.heap (node l a k leaf))
    (once : Once fs (node l a k leaf)) where
  abbrev pub alone : HeapTree
  alone = let_go (refill t fs (address l)) (suc a)

  pub remove_found-alone :
      (n : ℕ) → remove_found n t (suc a, parent fs) ≡ some (exit_success, alone, passed t k)
  remove_found-alone n =
      rw (lies.0, fill_position-refill t a fs (address l) (omega (arith, once a, hit_self a)) p)
        refl

  pub alone-Holds : t.root ≡ address (plug fs (node l a k leaf)) → Holds alone (plug fs l)
  alone-Holds e = record {
    root = refill_root t fs (node l a k leaf) l e;
    lies =
        let h = t.heap in
        let g = (refill t fs (address l)).heap in
        let linked : (b : ℕ) → g (suc b) ≡ relink h fs (address l) (suc b) =
          λ b. ap (λ x. x (suc b)) (refill_heap t fs (address l)) in
        Lies-plug alone.heap fs l
          (LiesAbove-agree (relink h fs (address l)) alone.heap fs (address l)
            (λ b i. store_apart g a b none (omega (arith, i, once b)) ∙ linked b)
            (relink-LiesAbove h fs (address l) (suc a) (λ b. omega (arith, once b)) p))
          (Lies-agree h alone.heap l
            (λ b i.
              store_apart g a b none (omega (arith, i, once b))
              ∙ (linked b ∙ relink_apart h fs (address l) b (omega (arith, i, once b))))
            lies.1);
  }
