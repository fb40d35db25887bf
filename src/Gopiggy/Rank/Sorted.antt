-- ===== src/Gopiggy/Rank/Sorted.antt =====
-- gopiggy/Gopiggy.c: the order that `rank_piggy` and `rank_piggy_final` make.
use morning_projects.Common.{
  ℕ, zero, suc, ◌<◌, ◌≤◌, ◌≡◌, refl, Bool, true, false, none, some, List, [], ◌∷◌, ◌==◌, ltb,
  if◌then◌else◌, arith, Bool-cases, inl, inr, ap, ◌∙◌, sym, subst,
}
use mathlib.Core.List.{Perm}
use mathlib.Core.List.Perm
use morning_projects.Gopiggy.{write, max_num_pigs, Piggy}
use morning_projects.Gopiggy.Rank.{
  place_pig, rank_rounds, runs_behind, took_longer, rank_piggy, rank_piggy_final,
}

-- the first members of the array, the last of them first
abbrev pub backwards : (ℕ → ℕ) → ℕ → List ℕ
backwards ranked zero = []
backwards ranked (suc n) = ranked n ∷ backwards ranked n

-- the indices below `n`, the last of them first
abbrev pub indices : ℕ → List ℕ
indices zero = []
indices (suc n) = n ∷ indices n

apart : (n k : ℕ) → suc n ≤ k → (n == k) ≡ false
apart n k h = ground arith

apart' : (k a : ℕ) → k < a → (a == k) ≡ false
apart' k a h = ground arith

same : (k : ℕ) → (k == k) ≡ true
same k = ground arith

module _ (shifts : ℕ → ℕ → Bool) where
  -- no member of the list shifts behind the one that stands behind it in the array, before it here
  abbrev pub InOrder : List ℕ → Type 0
  InOrder [] = Unit
  InOrder (x ∷ []) = Unit
  InOrder (x ∷ y ∷ ys) = (shifts y x ≡ false) × InOrder (y ∷ ys)

  -- the insertion from the end of the array
  abbrev insert : ℕ → List ℕ → List ℕ
  insert i [] = i ∷ []
  insert i (x ∷ xs) = if shifts x i then x ∷ insert i xs else i ∷ x ∷ xs

  insert_perm : (i : ℕ) (xs : List ℕ) → Perm (insert i xs) (i ∷ xs)
  insert_perm i [] = Perm.refl (i ∷ [])
  insert_perm i (x ∷ xs) = elim (Bool-cases (shifts x i)) [
    | inl on ↦ rw on (Perm.trans (Perm.cons x (insert_perm i xs)) (Perm.swap i x xs))
    | inr stop ↦ rw stop (Perm.refl (i ∷ x ∷ xs))
  ]

  backwards-write :
      (ranked : ℕ → ℕ) (k x n : ℕ) → n ≤ k → backwards (write ranked k x) n ≡ backwards ranked n
  backwards-write ranked k x zero h = refl
  backwards-write ranked k x (suc n) h =
      rw (apart n k h, backwards-write ranked k x n (omega arith)) refl

  place_pig_above : (ranked : ℕ → ℕ) (i j a : ℕ) → j < a → place_pig shifts ranked i j a ≡ ranked a
  place_pig_above ranked i zero a h = rw (apart' zero a h) refl
  place_pig_above ranked i (suc j) a h = elim (Bool-cases (shifts (ranked j) i)) [
    | inl on ↦ rw on (
        place_pig_above (write ranked (suc j) (ranked j)) i j a (omega arith)
        ∙ rw (apart' (suc j) a h) refl)
    | inr stop ↦ rw (stop, apart' (suc j) a h) refl
  ]

  place_pig_on :
      (ranked : ℕ → ℕ) (i j : ℕ)
      → shifts (ranked j) i ≡ true
      → place_pig shifts ranked i (suc j) ≡ place_pig shifts (write ranked (suc j) (ranked j)) i j
  place_pig_on ranked i j on = rw on refl

  place_pig_stop :
      (ranked : ℕ → ℕ) (i j : ℕ)
      → shifts (ranked j) i ≡ false
      → place_pig shifts ranked i (suc j) ≡ write ranked (suc j) i
  place_pig_stop ranked i j stop = rw stop refl

  backwards-place_pig :
      (ranked : ℕ → ℕ) (i j : ℕ)
      → backwards (place_pig shifts ranked i j) (suc j) ≡ insert i (backwards ranked j)
  backwards-place_pig ranked i zero = refl
  backwards-place_pig ranked i (suc j) = elim (Bool-cases (shifts (ranked j) i)) [
    | inl on ↦
        let moved = write ranked (suc j) (ranked j) in
        let above : place_pig shifts moved i j (suc j) ≡ ranked j =
          place_pig_above moved i j (suc j) (omega arith) ∙ rw (same (suc j)) refl in
        let below =
          backwards-place_pig moved i j
          ∙ ap (insert i) (backwards-write ranked (suc j) (ranked j) j (omega arith)) in
        ap (λ f. backwards f (suc (suc j))) (place_pig_on ranked i j on)
        ∙ (ap (λ x. x ∷ backwards (place_pig shifts moved i j) (suc j)) above
            ∙ (ap (λ xs. ranked j ∷ xs) below ∙ rw on refl))
    | inr stop ↦
        ap (λ f. backwards f (suc (suc j))) (place_pig_stop ranked i j stop)
        ∙ (ap (λ x. x ∷ backwards (write ranked (suc j) i) (suc j)) (rw (same (suc j)) refl)
            ∙ (ap (λ xs. i ∷ xs) (backwards-write ranked (suc j) i (suc j) (omega arith))
                ∙ rw stop refl))
  ]

  InOrder-insert_head :
      (i x : ℕ) (xs : List ℕ)
      → shifts i x ≡ false
      → InOrder (x ∷ xs)
      → InOrder (insert i xs)
      → InOrder (x ∷ insert i xs)
  InOrder-insert_head i x [] e o p = (e, tt)
  InOrder-insert_head i x (y ∷ ys) e (f, o) p = elim (Bool-cases (shifts y i)) [
    | inl on ↦ rw on (f, rw on at p)
    | inr stop ↦ rw stop (e, rw stop at p)
  ]

  InOrder-tail : (x : ℕ) (xs : List ℕ) → InOrder (x ∷ xs) → InOrder xs
  InOrder-tail x [] o = tt
  InOrder-tail x (y ∷ ys) (e, o) = o

  module _ (asym : (x y : ℕ) → shifts x y ≡ true → shifts y x ≡ false) where
    InOrder-insert : (i : ℕ) (xs : List ℕ) → InOrder xs → InOrder (insert i xs)
    InOrder-insert i [] o = tt
    InOrder-insert i (x ∷ xs) o = elim (Bool-cases (shifts x i)) [
      | inl on ↦
          rw on
            (InOrder-insert_head i x xs (asym x i on) o (InOrder-insert i xs (InOrder-tail x xs o)))
      | inr stop ↦ rw stop (stop, o)
    ]

    rank_rounds_lem :
        (ranked : ℕ → ℕ) (n : ℕ)
        → InOrder (backwards (rank_rounds shifts ranked n) n)
          × Perm (backwards (rank_rounds shifts ranked n) n) (indices n)
    rank_rounds_lem ranked zero = (tt, Perm.refl [])
    rank_rounds_lem ranked (suc n) =
        let (o, p) = rank_rounds_lem ranked n in
        let placed = backwards-place_pig (rank_rounds shifts ranked n) n n in
        (
          subst InOrder (sym placed)
              (InOrder-insert n (backwards (rank_rounds shifts ranked n) n) o),
          subst (λ xs. Perm xs (n ∷ indices n)) (sym placed)
              (Perm.trans (insert_perm n (backwards (rank_rounds shifts ranked n) n))
                (Perm.cons n p)),
        )

ltb_asym : (x y : ℕ) → ltb x y ≡ true → ltb y x ≡ false
ltb_asym x y e = ground arith

-- `rank_piggy` puts the pig in front first and `rank_piggy_final` the fastest: up to MAX_NUM_PIGS, the
-- ranked indices are each pig's once, whatever the array held, and a pig never stands before one that
-- is further on, or that took less time. With more pigs both write behind the end of the array.
pub rank_piggy_lem :
    (pigs : ℕ → Piggy) (n : ℕ) (ranked : ℕ → ℕ)
    → (n ≤ max_num_pigs
        → ((r : ℕ → ℕ) × (rank_piggy pigs n ranked ≡ some r)
            × Perm (backwards r n) (indices n)
            × InOrder (runs_behind pigs) (backwards r n))
          × ((r : ℕ → ℕ) × (rank_piggy_final pigs n ranked ≡ some r)
              × Perm (backwards r n) (indices n)
              × InOrder (took_longer pigs) (backwards r n)))
      × (max_num_pigs < n
          → (rank_piggy pigs n ranked ≡ none) × (rank_piggy_final pigs n ranked ≡ none))
rank_piggy_lem pigs n ranked = (
  λ fits.
      let behind =
        rank_rounds_lem (runs_behind pigs)
          (λ x y. ltb_asym (pigs x).current_position (pigs y).current_position) ranked n in
      let longer =
        rank_rounds_lem (took_longer pigs)
          (λ x y. ltb_asym (pigs y).time_period (pigs x).time_period) ranked n in
      let inside : ltb max_num_pigs n ≡ false = ground arith in
      (
        (rank_rounds (runs_behind pigs) ranked n, rw inside refl, behind.1, behind.0),
        (rank_rounds (took_longer pigs) ranked n, rw inside refl, longer.1, longer.0),
      ),
  λ beyond.
      let outside : ltb max_num_pigs n ≡ true = ground arith in (rw outside refl, rw outside refl),
)
