-- ===== src/Tree/Remove/Located.antt =====
-- common/src/tree/tree.c: what `lookup` and `retrieve_smallest` find in a tree that lies in the heap.
use morning_projects.Common.{
  ℕ, zero, suc, ◌<◌, ◌≡◌, refl, sym, ap, subst, Option, none, some, List, ◌∷◌, arith, ◌⊎◌, inl, inr,
}
use Prim.Native.Nat.{Ordering}
use morning_projects.Tree.{Ptr, compare_data}
use morning_projects.Tree.Remove.{NodeHeap, lookup_at, retrieve_smallest, by_order}
use morning_projects.Tree.Remove.Placed.{
  Placed, leaf, node, address, size, Lies, Frame, went_left, went_right, plug, parent, LiesAbove,
}

-- a node with its children, and the path to it
abbrev pub Spot : Type 0
Spot = List Frame × Placed × ℕ × Ptr × Placed

abbrev pub spot_tree : Spot → Placed
spot_tree (fs, l, a, k, r) = node l a k r

pub Ordering-cases : (o : Ordering) → (o ≡ Ordering.lt) ⊎ ((o ≡ Ordering.gt) ⊎ (o ≡ Ordering.eq))
Ordering-cases Ordering.lt = inl refl
Ordering-cases Ordering.gt = inr (inl refl)
Ordering-cases Ordering.eq = inr (inr refl)

module _ (deref : Ptr → ℕ) (q : Ptr) where
  -- where the search of a binary tree ends
  abbrev pub locate : Placed → List Frame → Option Spot
  locate leaf fs = none
  locate (node l a k r) fs =
      by_order (compare_data deref q k) (locate l (went_left a k r ∷ fs))
        (locate r (went_right l a k ∷ fs)) (some (fs, l, a, k, r))

  -- The node found lies in the heap under its path, and makes up the tree with it.
  abbrev pub Found : NodeHeap → Placed → Option Spot → Type 0
  Found h t none = Unit
  Found h t (some (fs, l, a, k, r)) =
      LiesAbove h fs (suc a)
      × Lies h (node l a k r)
      × (plug fs (node l a k r) ≡ t)
      × (compare_data deref q k ≡ Ordering.eq)

  -- what `lookup` answers where the search ends so
  abbrev pub Answers : Option (ℕ × ℕ) → Option Spot → Type 0
  Answers answer none = (p : ℕ) × (answer ≡ some (0, p))
  Answers answer (some (fs, l, a, k, r)) = answer ≡ some (suc a, parent fs)

  module _ (h : NodeHeap) where
    pub locate-Found :
        (t : Placed) (fs : List Frame)
        → LiesAbove h fs (address t)
        → Lies h t
        → Found h (plug fs t) (locate t fs)
    locate-Found leaf fs p l = tt
    locate-Found (node l a k r) fs p (e, ll, lr) =
        let ends = Found h (plug fs (node l a k r)) in
        let left = locate-Found l (went_left a k r ∷ fs) (e, lr, p) ll in
        let right = locate-Found r (went_right l a k ∷ fs) (e, ll, p) lr in
        let turn : Ordering → Option Spot = λ o.
          by_order o (locate l (went_left a k r ∷ fs)) (locate r (went_right l a k ∷ fs))
            (some (fs, l, a, k, r)) in
        elim (Ordering-cases (compare_data deref q k)) [
          | inl lt ↦ subst ends (sym (ap turn lt)) left
          | inr (inl gt) ↦ subst ends (sym (ap turn gt)) right
          | inr (inr eq) ↦ subst ends (sym (ap turn eq)) (p, (e, ll, lr), refl, eq)
        ]

    pub lookup_at-locate :
        (n : ℕ) (t : Placed) (fs : List Frame)
        → size t < n
        → Lies h t
        → Answers (lookup_at n deref h (address t) q (parent fs)) (locate t fs)
    unfolding lookup_at
    lookup_at-locate zero t fs s l = absurd (omega arith)
    lookup_at-locate (suc n) leaf fs s l = (parent fs, refl)
    lookup_at-locate (suc n) (node l a k r) fs s (e, ll, lr) =
        let left = lookup_at-locate n l (went_left a k r ∷ fs) (omega (arith, s)) ll in
        let right = lookup_at-locate n r (went_right l a k ∷ fs) (omega (arith, s)) lr in
        let ends : Ordering → Type 0 = λ o.
          Answers
            (by_order o (lookup_at n deref h (address l) q (suc a))
              (lookup_at n deref h (address r) q (suc a)) (some (suc a, parent fs)))
            (by_order o (locate l (went_left a k r ∷ fs)) (locate r (went_right l a k ∷ fs))
              (some (fs, l, a, k, r))) in
        rw e (elim (Ordering-cases (compare_data deref q k)) [
          | inl lt ↦ subst ends (sym lt) left
          | inr (inl gt) ↦ subst ends (sym gt) right
          | inr (inr eq) ↦ subst ends (sym eq) refl
        ])

-- the path down the left children, and the node at its end, which has no left child
abbrev pub smallest : Placed → ℕ → Ptr → Placed → List Frame → List Frame × ℕ × Ptr × Placed
smallest leaf a k r fs = (fs, a, k, r)
smallest (node x b m y) a k r fs = smallest x b m y (went_left a k r ∷ fs)

module _ (h : NodeHeap) where
  pub retrieve_smallest-smallest :
      (n : ℕ) (l : Placed) (a : ℕ) (k : Ptr) (r : Placed) (fs : List Frame)
      → size l < n
      → Lies h (node l a k r)
      → retrieve_smallest n h (suc a) (parent fs)
        ≡ (let (gs, c, _, _) = smallest l a k r fs in some (suc c, parent gs))
  unfolding retrieve_smallest
  retrieve_smallest-smallest zero l a k r fs s lies = absurd (omega arith)
  retrieve_smallest-smallest (suc n) leaf a k r fs s (e, ll, lr) = rw e refl
  retrieve_smallest-smallest (suc n) (node x b m y) a k r fs s (e, ll, lr) =
      rw e (retrieve_smallest-smallest n x b m y (went_left a k r ∷ fs) (omega (arith, s)) ll)

  pub smallest-Lies :
      (l : Placed) (a : ℕ) (k : Ptr) (r : Placed) (fs : List Frame)
      → LiesAbove h fs (suc a)
      → Lies h (node l a k r)
      → let (gs, c, m, y) = smallest l a k r fs in
        LiesAbove h gs (suc c)
        × Lies h (node leaf c m y)
        × (plug gs (node leaf c m y) ≡ plug fs (node l a k r))
  smallest-Lies leaf a k r fs p lies = (p, lies, refl)
  smallest-Lies (node x b m y) a k r fs p (e, ll, lr) =
      smallest-Lies x b m y (went_left a k r ∷ fs) (e, lr, p) ll
