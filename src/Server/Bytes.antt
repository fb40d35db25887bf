-- ===== src/Server/Bytes.antt =====
-- The string functions that the library server calls: `strcmp`, `strncmp` over the length of its
-- second argument, `strncpy`, `strstr`.
use morning_projects.Common.{
  ◌≤◌, length, ap, ℕ, zero, suc, Bool, true, false, List, [], ◌∷◌, ◌==◌, ◌&&◌, ◌||◌, ◌≡◌, refl,
  arith,
}

abbrev pub Text : Type 0
Text = List ℕ

-- `0 == strcmp(a, b)`
abbrev pub same_text : Text → Text → Bool
same_text [] [] = true
same_text [] (y ∷ ys) = false
same_text (x ∷ xs) [] = false
same_text (x ∷ xs) (y ∷ ys) = (x == y) && same_text xs ys

-- `0 == strncmp(a, b, strlen(b))`
abbrev pub starts_with : Text → Text → Bool
starts_with a [] = true
starts_with [] (y ∷ ys) = false
starts_with (x ∷ xs) (y ∷ ys) = (x == y) && starts_with xs ys

-- the bytes that `strncpy` with this bound copies
abbrev pub take : ℕ → Text → Text
take zero xs = []
take (suc n) [] = []
take (suc n) (x ∷ xs) = x ∷ take n xs

-- `NULL != strstr(a, b)`
abbrev pub contains_text : Text → Text → Bool
contains_text [] b = starts_with [] b
contains_text (x ∷ xs) b = starts_with (x ∷ xs) b || contains_text xs b

pub same_text_refl : (a : Text) → same_text a a ≡ true
same_text_refl [] = refl
same_text_refl (x ∷ xs) = ground (arith, same_text_refl xs)

pub eq-same_text : (a b : Text) → same_text a b ≡ true → a ≡ b
eq-same_text [] [] h = refl
eq-same_text [] (y ∷ ys) h = cc
eq-same_text (x ∷ xs) [] h = cc
eq-same_text (x ∷ xs) (y ∷ ys) h = ground (arith, eq-same_text xs ys)

pub starts_with_refl : (a : Text) → starts_with a a ≡ true
starts_with_refl [] = refl
starts_with_refl (x ∷ xs) = ground (arith, starts_with_refl xs)

pub take_all : (n : ℕ) (xs : Text) → length xs ≤ n → take n xs ≡ xs
take_all zero [] h = refl
take_all zero (x ∷ xs) h = absurd (omega arith)
take_all (suc n) [] h = refl
take_all (suc n) (x ∷ xs) h = ap (λ ys. x ∷ ys) (take_all n xs (omega arith))
