-- ===== src/Server/Maps.antt =====
-- eLibrary/src/server/eLibrary_server_handler.c: `Map_InsertElement` and `Map_RemoveElement`, which
-- keep a set of identifiers in an array whose free slots hold 0.
use morning_projects.Common.{
  ℕ, zero, suc, ◌+◌, Bool, true, false, not, Option, none, some, List, [], ◌∷◌, ◌==◌, if◌then◌else◌,
  length, ◌≡◌, refl, arith, Bool-cases, inl, inr, ap, ◌<◌, ◌⊎◌, ◌++◌, sym, ◌∙◌,
}
use morning_projects.Server.{Status, ok, fail}

-- a free slot is kept when one is kept already
abbrev pub keep_slot : Option ℕ → ℕ → Option ℕ
keep_slot none i = none
keep_slot (some k) i = some i

-- the loop of `Map_InsertElement`: `p_empty_slot` and the index at its end
abbrev pub scan_slots : List ℕ → ℕ → Option ℕ → ℕ → Option ℕ × ℕ
scan_slots [] i slot element = (slot, i)
scan_slots (x ∷ xs) i slot element =
    if not (x == 0)
    then (if element == x then (none, i) else scan_slots xs (i + 1) slot element)
    else scan_slots xs (i + 1) (keep_slot slot i) element

-- the slot is written
abbrev pub set_slot : List ℕ → ℕ → ℕ → List ℕ
set_slot [] i element = []
set_slot (x ∷ xs) zero element = element ∷ xs
set_slot (x ∷ xs) (suc i) element = x ∷ set_slot xs i element

-- `Map_InsertElement` after its loop
abbrev pub fill_slot : List ℕ → ℕ → Option ℕ × ℕ → Status × List ℕ
fill_slot map element (some k, i) = (ok, set_slot map k element)
fill_slot map element (none, i) = if i == length map then (fail, map) else (ok, map)

-- `Map_InsertElement`
unfoldable pub map_insert_element : List ℕ → ℕ → Status × List ℕ
map_insert_element map element = fill_slot map element (scan_slots map 0 none element)

-- the loop of `Map_RemoveElement`: whether it stops before the end, and the array
abbrev pub clear_slot : List ℕ → ℕ → Bool × List ℕ
clear_slot [] element = (false, [])
clear_slot (x ∷ xs) element =
    let (found, ys) = clear_slot xs element in
    if element == x then (true, 0 ∷ xs) else (found, x ∷ ys)

-- `Map_RemoveElement`
unfoldable pub map_remove_element : List ℕ → ℕ → Status × List ℕ
map_remove_element map element =
    let (found, left) = clear_slot map element in if found then (ok, left) else (fail, left)

-- whether the element is in a slot that is not free
abbrev pub has_element : List ℕ → ℕ → Bool
has_element [] element = false
has_element (x ∷ xs) element =
    if x == 0
    then has_element xs element
    else (if element == x then true else has_element xs element)

-- whether a slot holds the element
abbrev pub occurs : ℕ → List ℕ → Bool
occurs element [] = false
occurs element (x ∷ xs) = if element == x then true else occurs element xs

module _ (element : ℕ) where
  -- how the scan and the test go on behind a slot
  behind_slot :
      (x : ℕ) (xs : List ℕ) (i : ℕ) (b : Bool)
      → has_element (x ∷ xs) element ≡ b
      → ((has_element xs element ≡ b)
          × (scan_slots (x ∷ xs) i none element ≡ scan_slots xs (i + 1) none element))
        ⊎ ((b ≡ true) × (scan_slots (x ∷ xs) i none element ≡ (none, i)))
  behind_slot x xs i b e = elim (Bool-cases (x == 0)) [
    | inl free ↦ inl (rw free at e, rw free refl)
    | inr taken ↦ elim (Bool-cases (element == x)) [
      | inl here ↦ inr (sym (rw (taken, here) at e), rw (taken, here) refl)
      | inr there ↦ inl (rw (taken, there) at e, rw (taken, there) refl)
    ]
  ]

  scan_slots_absent :
      (xs : List ℕ) (i : ℕ)
      → has_element xs element ≡ false
      → scan_slots xs i none element ≡ (none, i + length xs)
  scan_slots_absent [] i e = ap (λ k. (none, k)) (omega arith)
  scan_slots_absent (x ∷ xs) i e = elim (behind_slot x xs i false e) [
    | inl (rest, on) ↦ on ∙ (scan_slots_absent xs (i + 1) rest ∙ ap (λ k. (none, k)) (omega arith))
    | inr (clash, on) ↦ cc
  ]

  scan_slots_present :
      (xs : List ℕ) (i : ℕ)
      → has_element xs element ≡ true
      → (k : ℕ) × (scan_slots xs i none element ≡ (none, k)) × (k < i + length xs)
  scan_slots_present [] i e = cc
  scan_slots_present (x ∷ xs) i e = elim (behind_slot x xs i true e) [
    | inl (rest, on) ↦
        let (k, scanned, below) = scan_slots_present xs (i + 1) rest in
        (k, on ∙ scanned, omega arith)
    | inr (_, on) ↦ (i, on, omega arith)
  ]

  clear_slot_behind :
      (before after : List ℕ)
      → occurs element before ≡ false
      → clear_slot (before ++ (element ∷ after)) element ≡ (true, before ++ (0 ∷ after))
  clear_slot_behind [] after e = ground arith
  clear_slot_behind (x ∷ before) after e = elim (Bool-cases (element == x)) [
    | inl here ↦ ground arith
    | inr off ↦ rw (off, clear_slot_behind before after (rw off at e)) refl
  ]

  clear_slot_nowhere :
      (map : List ℕ) → occurs element map ≡ false → clear_slot map element ≡ (false, map)
  clear_slot_nowhere [] e = refl
  clear_slot_nowhere (x ∷ map) e = elim (Bool-cases (element == x)) [
    | inl here ↦ ground arith
    | inr off ↦ rw (off, clear_slot_nowhere map (rw off at e)) refl
  ]

  insert_found :
      (map : List ℕ) (k : ℕ)
      → scan_slots map 0 none element ≡ (none, k)
      → (k == length map) ≡ false
      → map_insert_element map element ≡ (ok, map)
  unfolding map_insert_element
  insert_found map k scanned inside = ap (fill_slot map element) scanned ∙ rw inside refl

  insert_full :
      (map : List ℕ)
      → scan_slots map 0 none element ≡ (none, 0 + length map)
      → map_insert_element map element ≡ (fail, map)
  unfolding map_insert_element
  insert_full map scanned = ap (fill_slot map element) scanned ∙ ground arith

-- `Map_InsertElement` never writes the array, however many slots are free: it succeeds if the element
-- is not 0 and is in the array already, and else answers that the array is full. `Map_RemoveElement`
-- frees the first slot that holds the element, and fails, changing nothing, if there is none.
pub map_insert_element_lem :
    (map : List ℕ) (element : ℕ)
    → (map_insert_element map element ≡ (if has_element map element then ok else fail, map))
      × ((before after : List ℕ)
          → occurs element before ≡ false
          → map_remove_element (before ++ (element ∷ after)) element ≡ (ok, before ++ (0 ∷ after)))
      × (occurs element map ≡ false → map_remove_element map element ≡ (fail, map))
unfolding map_remove_element
map_insert_element_lem map element = (
  elim (Bool-cases (has_element map element)) [
    | inl present ↦
        let (k, scanned, below) = scan_slots_present element map 0 present in
        rw present (insert_found element map k scanned (ground arith))
    | inr absent ↦ rw absent (insert_full element map (scan_slots_absent element map 0 absent))
  ],
  λ before after e. rw (clear_slot_behind element before after e) refl,
  λ e. rw (clear_slot_nowhere element map e) refl,
)
