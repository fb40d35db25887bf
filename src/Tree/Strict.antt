-- ===== src/Tree/Strict.antt =====
-- Strictly sorted lists of data pointers, and the removal of one datum.
use morning_projects.Common.{
  ℕ, ◌≤◌, ◌<◌, ◌≡◌, refl, false, List, [], ◌∷◌, ◌++◌, arith, ◌==◌, if◌then◌else◌, All, All-left,
  All-right, All-imp,
}
use morning_projects.Tree.{Ptr}
use morning_projects.Tree.Sorted.{contains}

module _ (deref : Ptr → ℕ) where
  abbrev pub AllGt : ℕ → List Ptr → Type 0
  AllGt n ps = All (λ p. n < deref p) ps

  abbrev pub AllLt : ℕ → List Ptr → Type 0
  AllLt n ps = All (λ p. deref p < n) ps

  -- every datum is below the later ones
  abbrev pub Strict : List Ptr → Type 0
  Strict [] = Unit
  Strict (p ∷ ps) = AllGt (deref p) ps × Strict ps

  -- the list without its first datum that compares equal to `q`
  abbrev pub delete : Ptr → List Ptr → List Ptr
  delete q [] = []
  delete q (p ∷ ps) = if deref q == deref p then ps else p ∷ delete q ps

  pub Strict-parts :
      (xs : List Ptr) (k : Ptr) (ys : List Ptr)
      → Strict (xs ++ (k ∷ ys))
      → Strict xs × AllLt (deref k) xs × AllGt (deref k) ys × Strict ys
  Strict-parts [] k ys (ge, t) = (tt, tt, ge, t)
  Strict-parts (x ∷ xs) k ys (g, s) =
      let (a, b, c, d) = Strict-parts xs k ys s in
      let high = All-right (λ p. deref x < deref p) xs (k ∷ ys) g in
      ((All-left (λ p. deref x < deref p) xs (k ∷ ys) g, a), (high.0, b), c, d)

  pub AllGt-lower : (m n : ℕ) (xs : List Ptr) → m ≤ n → AllGt n xs → AllGt m xs
  AllGt-lower m n xs h = All-imp (λ p. n < deref p) (λ p. m < deref p) (λ p e. omega arith) xs

  pub AllLt-raise : (m n : ℕ) (xs : List Ptr) → m ≤ n → AllLt m xs → AllLt n xs
  AllLt-raise m n xs h = All-imp (λ p. deref p < m) (λ p. deref p < n) (λ p e. omega arith) xs

  pub delete_above : (q : Ptr) (n : ℕ) (xs : List Ptr) → deref q ≤ n → AllGt n xs → delete q xs ≡ xs
  delete_above q n [] h a = refl
  delete_above q n (x ∷ xs) h (e, a) = ground (arith, delete_above q n xs)

  -- behind smaller data, the removal is made in the rest
  pub delete_right :
      (q : Ptr) (n : ℕ) (xs ys : List Ptr)
      → n ≤ deref q
      → AllLt n xs
      → delete q (xs ++ ys) ≡ xs ++ delete q ys
  delete_right q n [] ys h a = refl
  delete_right q n (x ∷ xs) ys h (e, a) = ground (arith, delete_right q n xs ys)

  -- before greater data, the removal is made in the front
  pub delete_left :
      (q : Ptr) (xs : List Ptr) (k : Ptr) (ys : List Ptr)
      → deref q < deref k
      → AllGt (deref k) ys
      → delete q (xs ++ (k ∷ ys)) ≡ delete q xs ++ (k ∷ ys)
  delete_left q [] k ys h a = ground (arith, delete_above q (deref k) ys)
  delete_left q (x ∷ xs) k ys h a = ground (arith, delete_left q xs k ys)

  All-delete : (P : Ptr → Type 0) (q : Ptr) (xs : List Ptr) → All P xs → All P (delete q xs)
  All-delete P q [] a = tt
  All-delete P q (x ∷ xs) (p, a) = ground (arith, All-delete P q xs)

  pub Strict-delete : (q : Ptr) (xs : List Ptr) → Strict xs → Strict (delete q xs)
  Strict-delete q [] s = tt
  Strict-delete q (x ∷ xs) (g, s) =
      ground (arith, Strict-delete q xs, All-delete (λ p. deref x < deref p) q xs)

  pub contains_gt :
      (q : Ptr) (n : ℕ) (xs : List Ptr) → deref q ≤ n → AllGt n xs → contains deref q xs ≡ false
  contains_gt q n [] h a = refl
  contains_gt q n (x ∷ xs) h (e, a) = ground (arith, contains_gt q n xs)

  pub contains_lt :
      (q : Ptr) (n : ℕ) (xs : List Ptr) → n ≤ deref q → AllLt n xs → contains deref q xs ≡ false
  contains_lt q n [] h a = refl
  contains_lt q n (x ∷ xs) h (e, a) = ground (arith, contains_lt q n xs)

  -- a removed datum is gone
  pub contains-delete :
      (q : Ptr) (xs : List Ptr) → Strict xs → contains deref q (delete q xs) ≡ false
  contains-delete q [] s = refl
  contains-delete q (x ∷ xs) (g, s) =
      ground (arith, contains-delete q xs, contains_gt q (deref x) xs)
