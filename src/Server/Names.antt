-- ===== src/Server/Names.antt =====
-- eLibrary/src/server/eLibrary_server_handler.c: the search of a list for the first object whose name
-- begins with the name asked for, which the loops of `getFrdInfo` and `getBookByName` make, and what
-- an object at the end of the list changes for it.
use morning_projects.Common.{
  ◌≡◌, refl, true, false, Option, none, some, List, [], ◌∷◌, ◌++◌, ◌==◌, if◌then◌else◌, arith, ◌∙◌,
}
use morning_projects.Server.{Ptr}
use morning_projects.Server.Bytes.{Text, starts_with}

abbrev pub first_named : (Ptr → Text) → List Ptr → Text → Option Ptr
first_named names [] name = none
first_named names (p ∷ ps) name =
    if starts_with (names p) name then some p else first_named names ps name

-- the pointer is none of these
abbrev pub Apart : Ptr → List Ptr → Type 0
Apart p [] = Unit
Apart p (q ∷ qs) = ((q == p) ≡ false) × Apart p qs

-- each of `ps` is what the search finds under its own name
abbrev pub FoundByName : (Ptr → Text) → List Ptr → List Ptr → Type 0
FoundByName names listed [] = Unit
FoundByName names listed (p ∷ ps) =
    (first_named names listed (names p) ≡ some p) × FoundByName names listed ps

-- these objects have the same names in both stores
abbrev pub SameNames : (Ptr → Text) → (Ptr → Text) → List Ptr → Type 0
SameNames names names' [] = Unit
SameNames names names' (p ∷ ps) = (names' p ≡ names p) × SameNames names names' ps

module _ (names names' : Ptr → Text) where
  pub first_named-SameNames :
      (ps : List Ptr) (name : Text)
      → SameNames names names' ps
      → first_named names' ps name ≡ first_named names ps name
  first_named-SameNames [] name h = refl
  first_named-SameNames (p ∷ ps) name (e, h) = rw (e, first_named-SameNames ps name h) refl

  first_named_end :
      (ps : List Ptr) (q : Ptr) (name : Text) (p : Ptr)
      → first_named names ps name ≡ some p
      → first_named names (ps ++ (q ∷ [])) name ≡ some p
  first_named_end [] q name p e = cc
  first_named_end (r ∷ ps) q name p e = ground (arith, first_named_end ps q name p)

  pub first_named_new :
      (ps : List Ptr) (q : Ptr) (name : Text)
      → first_named names ps name ≡ none
      → starts_with (names q) name ≡ true
      → first_named names (ps ++ (q ∷ [])) name ≡ some q
  first_named_new [] q name e new = rw new refl
  first_named_new (r ∷ ps) q name e new = ground (arith, first_named_new ps q name)

  pub SameNames-Apart :
      (q : Ptr) (ps : List Ptr)
      → ((p : Ptr) → (p == q) ≡ false → names' p ≡ names p)
      → Apart q ps
      → SameNames names names' ps
  SameNames-Apart q [] same h = tt
  SameNames-Apart q (p ∷ ps) same (e, h) = (same p e, SameNames-Apart q ps same h)

found_step :
    (names names' : Ptr → Text) (listed ps : List Ptr) (q : Ptr)
    → SameNames names names' listed
    → SameNames names names' ps
    → FoundByName names listed ps
    → FoundByName names' (listed ++ (q ∷ [])) ps
found_step names names' listed [] q h k f = tt
found_step names names' listed (p ∷ ps) q h (e, k) (f, fs) = (
  rw e (
      first_named_end names' names' listed q (names p) p
        (first_named-SameNames names names' listed (names p) h ∙ f)),
  found_step names names' listed ps q h k fs,
)

found_end :
    (names : Ptr → Text) (listed ps : List Ptr) (q : Ptr)
    → FoundByName names listed ps
    → first_named names listed (names q) ≡ some q
    → FoundByName names listed (ps ++ (q ∷ []))
found_end names listed [] q f new = (new, tt)
found_end names listed (p ∷ ps) q (f, fs) new = (f, found_end names listed ps q fs new)

-- The object `q` at the end of the list, whose name the search did not find: it is found under its
-- name now, and the others still are under theirs.
pub FoundByName-new :
    (names names' : Ptr → Text) (listed : List Ptr) (q : Ptr) (name : Text)
    → SameNames names names' listed
    → names' q ≡ name
    → first_named names listed name ≡ none
    → first_named names' (listed ++ (q ∷ [])) name ≡ some q
    → FoundByName names listed listed
    → FoundByName names' (listed ++ (q ∷ [])) (listed ++ (q ∷ []))
FoundByName-new names names' listed q name same new free here found =
    found_end names' (listed ++ (q ∷ [])) listed q
      (found_step names names' listed listed q same same found) (rw new here)

-- under the same names the same objects are found
module _ (names names' : Ptr → Text) (same : (p : Ptr) → names' p ≡ names p) where
  pub SameNames-all : (ps : List Ptr) → SameNames names names' ps
  SameNames-all [] = tt
  SameNames-all (p ∷ ps) = (same p, SameNames-all ps)

  pub FoundByName-same :
      (listed ps : List Ptr) → FoundByName names listed ps → FoundByName names' listed ps
  FoundByName-same listed [] f = tt
  FoundByName-same listed (p ∷ ps) (f, fs) = (
    rw (same p) (first_named-SameNames names names' listed (names p) (SameNames-all listed) ∙ f),
    FoundByName-same listed ps fs,
  )
