-- ===== src/Handle/Retrieve.antt =====
-- common/src/common.c: what a sequence of handles retrieves.
use morning_projects.Common.{
  ℕ, ◌+◌, ◌%◌, ◌^◌, ◌≤◌, ◌<◌, ◌≡◌, refl, false, Option, none, some, List, [], ◌∷◌, ltb, ◌==◌,
  length, arith, if◌then◌else◌, ◌>>=◌, ◌∙◌, Bool-cases, inl, inr, lt-ltb,
}
use morning_projects.Handle.{Ptr, max_objects, Handles, handle_create, object_retrieve}

-- one object after another
abbrev pub create_all : Handles → List Ptr → Option (List ℕ × Handles)
create_all s [] = some ([], s)
create_all s (p ∷ ps) = do
  r ← handle_create s p
  rest ← create_all r.1 ps
  some (r.0 ∷ rest.0, rest.1)

-- the handles retrieve these objects
abbrev pub Retrieves : Handles → List ℕ → List Ptr → Type 0
Retrieves s [] [] = Unit
Retrieves s [] (p ∷ ps) = ⊥
Retrieves s (h ∷ hs) [] = ⊥
Retrieves s (h ∷ hs) (p ∷ ps) = (object_retrieve s h ≡ some p) × Retrieves s hs ps

-- the handles below the counter retrieve what they did
abbrev pub Kept : Handles → Handles → Type 0
Kept s u = (h : ℕ) → h < s.counter → object_retrieve u h ≡ object_retrieve s h

next : Handles → Ptr → Handles
next s p = record {
  counter = (s.counter + 1) % 2 ^ 8;
  objects = λ i. if i == s.counter then p else s.objects i;
}

module _ (s : Handles) (p : Ptr) (room : s.counter < max_objects) where
  handle_create_lem : handle_create s p ≡ some (s.counter, next s p)
  unfolding handle_create next
  handle_create_lem = ground arith

  retrieve_new : object_retrieve (next s p) s.counter ≡ some p
  unfolding object_retrieve next
  retrieve_new = ground arith

  retrieve_old : Kept s (next s p)
  unfolding object_retrieve next
  retrieve_old h below = ground arith

  next-counter : (next s p).counter ≡ s.counter + 1
  unfolding next
  next-counter = omega arith

no_room : (s : Handles) (p : Ptr) → ltb s.counter max_objects ≡ false → handle_create s p ≡ none
unfolding handle_create
no_room s p e = rw e refl

-- As long as there are at most 128 objects in all, `COMMON_handle_create` gives each of a sequence
-- a handle, `COMMON_object_retrieve` takes each handle back to its object after the last was made,
-- and the earlier handles retrieve what they did.
pub create_all-Retrieves :
    (s : Handles) (ps : List Ptr)
    → s.counter + length ps ≤ max_objects
    → (hs : List ℕ) × (u : Handles) × (create_all s ps ≡ some (hs, u))
      × Retrieves u hs ps
      × Kept s u
create_all-Retrieves s [] room = ([], s, refl, tt, λ h below. refl)
create_all-Retrieves s (p ∷ ps) room =
    let here : s.counter < max_objects = omega arith in
    let (hs, u, made, all, kept) =
      create_all-Retrieves (next s p) ps (omega (arith, next-counter s p here)) in
    (
      s.counter ∷ hs,
      u,
      rw (handle_create_lem s p here, made) refl,
      (kept s.counter (omega (arith, next-counter s p here)) ∙ retrieve_new s p here, all),
      λ h below. kept h (omega (arith, next-counter s p here)) ∙ retrieve_old s p here h below,
    )

-- With more than 128 objects in all, one of the calls writes outside `p_trees`.
pub create_all_faults :
    (s : Handles) (ps : List Ptr)
    → s.counter ≤ max_objects
    → max_objects < s.counter + length ps
    → create_all s ps ≡ none
create_all_faults s [] small more = absurd (omega arith)
create_all_faults s (p ∷ ps) small more = elim (Bool-cases (ltb s.counter max_objects)) [
  | inl room ↦
      let here : s.counter < max_objects = lt-ltb s.counter max_objects room in
      let rest =
        create_all_faults (next s p) ps (omega (arith, next-counter s p here))
          (omega (arith, next-counter s p here)) in
      rw (handle_create_lem s p here, rest) refl
  | inr none_left ↦ rw (no_room s p none_left) refl
]
