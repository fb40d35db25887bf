-- ===== src/Tree/Sorted.antt =====
-- Sorted lists of data pointers, the abstract view of every tree of tree.c.
use morning_projects.Common.{
  ℕ, ◌+◌, ◌≤◌, ◌<◌, ◌≡◌, refl, Bool, true, false, ◌||◌, List, [], ◌∷◌, ◌++◌, arith, ltb, ◌==◌,
  if◌then◌else◌, All, All-append, All-left, All-right, All-imp, length,
}
use morning_projects.Tree.{Ptr}

module _ (deref : Ptr → ℕ) where
  abbrev pub AllGe : ℕ → List Ptr → Type 0
  AllGe n ps = All (λ p. n ≤ deref p) ps

  abbrev pub AllLe : ℕ → List Ptr → Type 0
  AllLe n ps = All (λ p. deref p ≤ n) ps

  -- no datum is above a later one
  abbrev pub Sorted : List Ptr → Type 0
  Sorted [] = Unit
  Sorted (p ∷ ps) = AllGe (deref p) ps × Sorted ps

  -- what an ordered insertion means: behind every datum that is not above the new one
  abbrev pub insert : Ptr → List Ptr → List Ptr
  insert q [] = q ∷ []
  insert q (p ∷ ps) = if ltb (deref q) (deref p) then q ∷ (p ∷ ps) else p ∷ insert q ps

  -- whether some datum of the list has the value of `q`
  abbrev pub contains : Ptr → List Ptr → Bool
  contains q [] = false
  contains q (p ∷ ps) = (deref q == deref p) || contains q ps

  pub Sorted-append :
      (xs : List Ptr) (k : Ptr) (ys : List Ptr)
      → Sorted xs
      → AllLe (deref k) xs
      → AllGe (deref k) ys
      → Sorted ys
      → Sorted (xs ++ (k ∷ ys))
  Sorted-append [] k ys s le ge t = (ge, t)
  Sorted-append (x ∷ xs) k ys (g, s) (h, le) ge t = (
    All-append _ xs (k ∷ ys) g
        (h, All-imp (λ p. deref k ≤ deref p) (λ p. deref x ≤ deref p) (λ p e. omega arith) ys ge),
    Sorted-append xs k ys s le ge t,
  )

  pub Sorted-parts :
      (xs : List Ptr) (k : Ptr) (ys : List Ptr)
      → Sorted (xs ++ (k ∷ ys))
      → Sorted xs × AllLe (deref k) xs × AllGe (deref k) ys × Sorted ys
  Sorted-parts [] k ys (ge, t) = (tt, tt, ge, t)
  Sorted-parts (x ∷ xs) k ys (g, s) =
      let (a, b, c, d) = Sorted-parts xs k ys s in
      let high = All-right (λ p. deref x ≤ deref p) xs (k ∷ ys) g in
      ((All-left (λ p. deref x ≤ deref p) xs (k ∷ ys) g, a), (high.0, b), c, d)

  pub insert_left :
      (q : Ptr) (xs : List Ptr) (k : Ptr) (ys : List Ptr)
      → ltb (deref q) (deref k) ≡ true
      → insert q (xs ++ (k ∷ ys)) ≡ insert q xs ++ (k ∷ ys)
  insert_left q [] k ys h = ground arith
  insert_left q (x ∷ xs) k ys h = ground (arith, insert_left q xs k ys)

  pub insert_right :
      (q : Ptr) (xs : List Ptr) (k : Ptr) (ys : List Ptr)
      → ltb (deref q) (deref k) ≡ false
      → AllLe (deref k) xs
      → insert q (xs ++ (k ∷ ys)) ≡ xs ++ (k ∷ insert q ys)
  insert_right q [] k ys h le = ground arith
  insert_right q (x ∷ xs) k ys h (e, le) = ground (arith, insert_right q xs k ys)

  pub All-insert :
      (P : Ptr → Type 0) (q : Ptr) (xs : List Ptr) → P q → All P xs → All P (insert q xs)
  All-insert P q [] p a = (p, tt)
  All-insert P q (x ∷ xs) p (e, a) = ground (arith, All-insert P q xs)

  AllGe-lower : (m n : ℕ) (xs : List Ptr) → m ≤ n → AllGe n xs → AllGe m xs
  AllGe-lower m n xs h = All-imp (λ p. n ≤ deref p) (λ p. m ≤ deref p) (λ p e. omega arith) xs

  pub Sorted-insert : (q : Ptr) (xs : List Ptr) → Sorted xs → Sorted (insert q xs)
  Sorted-insert q [] s = (tt, tt)
  Sorted-insert q (x ∷ xs) (g, s) = ground (
    arith,
    Sorted-insert q xs,
    AllGe-lower (deref q) (deref x) xs,
    All-insert (λ p. deref x ≤ deref p) q xs,
  )

  pub length-insert : (q : Ptr) (xs : List Ptr) → length (insert q xs) ≡ length xs + 1
  length-insert q [] = omega arith
  length-insert q (x ∷ xs) = ground (arith, length-insert q xs)

  pub contains-append :
      (q : Ptr) (xs ys : List Ptr) → contains q (xs ++ ys) ≡ (contains q xs || contains q ys)
  contains-append q [] ys = refl
  contains-append q (x ∷ xs) ys = ground (arith, contains-append q xs ys)

  pub contains_above :
      (q : Ptr) (n : ℕ) (xs : List Ptr) → AllGe n xs → deref q < n → contains q xs ≡ false
  contains_above q n [] a h = refl
  contains_above q n (x ∷ xs) (e, a) h = ground (arith, contains_above q n xs)

  pub contains_below :
      (q : Ptr) (n : ℕ) (xs : List Ptr) → AllLe n xs → n < deref q → contains q xs ≡ false
  contains_below q n [] a h = refl
  contains_below q n (x ∷ xs) (e, a) h = ground (arith, contains_below q n xs)

  pub contains-insert :
      (q p : Ptr) (xs : List Ptr)
      → contains q (insert p xs) ≡ ((deref q == deref p) || contains q xs)
  contains-insert q p [] = refl
  contains-insert q p (x ∷ xs) = ground (arith, contains-insert q p xs)
