-- ===== src/Server/Users/Search.antt =====
-- eLibrary/src/server/eLibrary_server_handler.c: when `getUserInfo` returns, and what it finds.
use morning_projects.Common.{
  ℕ, zero, suc, ◌<◌, ◌≡◌, refl, true, false, Option, none, some, List, [], ◌∷◌, length, arith,
  Bool-cases, inl, inr,
}
use morning_projects.Server.{Ptr, User, Library}
use morning_projects.Server.Bytes.{Text, starts_with}
use morning_projects.Server.Users.{email_fits, find_user, get_user_info, get_frd_info}

module _ (users : Ptr → User) (name : Text) (email : Option Text) where
  find_user-none :
      (n : ℕ) (ps : List Ptr)
      → length ps < n
      → get_frd_info users ps name ≡ none
      → find_user n users ps name email ≡ some none
  unfolding find_user
  find_user-none zero ps fuel e = absurd (omega arith)
  find_user-none (suc n) [] fuel e = refl
  find_user-none (suc n) (p ∷ ps) fuel e = ground (arith, find_user-none n ps)

  find_user-some :
      (n : ℕ) (ps : List Ptr) (p : Ptr)
      → length ps < n
      → get_frd_info users ps name ≡ some p
      → email_fits (users p) email ≡ true
      → find_user n users ps name email ≡ some (some p)
  unfolding find_user
  find_user-some zero ps p fuel e fits = absurd (omega arith)
  find_user-some (suc n) [] p fuel e fits = cc
  find_user-some (suc n) (q ∷ ps) p fuel e fits =
      elim (Bool-cases (starts_with (users q).username name)) [
        | inl here ↦ ground arith
        | inr on ↦ rw on (find_user-some n ps p (omega arith) (rw on at e) fits)
      ]

  find_user_loops :
      (n : ℕ) (ps : List Ptr) (p : Ptr)
      → get_frd_info users ps name ≡ some p
      → email_fits (users p) email ≡ false
      → find_user n users ps name email ≡ none
  unfolding find_user
  find_user_loops zero ps p e misses = refl
  find_user_loops (suc n) [] p e misses = cc
  find_user_loops (suc n) (q ∷ ps) p e misses =
      elim (Bool-cases (starts_with (users q).username name)) [
        | inl here ↦ let again = find_user_loops n (q ∷ ps) p e misses in ground (arith, again)
        | inr on ↦ rw on (find_user_loops n ps p (rw on at e) misses)
      ]

-- `getUserInfo`, its lock taken, looks at the first listed user whose name begins with the name
-- asked for. Without one it returns NULL; if the e-mail is NULL or fits, it returns that user; and
-- if the e-mail does not fit, it never returns.
pub get_user_info_lem :
    (l : Library) (name : Text) (email : Option Text) (n : ℕ)
    → length l.listed < n
    → (get_frd_info l.users l.listed name ≡ none → get_user_info n true l name email ≡ some none)
      × ((p : Ptr)
          → get_frd_info l.users l.listed name ≡ some p
          → (email_fits (l.users p) email ≡ true
              → get_user_info n true l name email ≡ some (some p))
            × (email_fits (l.users p) email ≡ false
                → (m : ℕ) → get_user_info m true l name email ≡ none))
unfolding get_user_info
get_user_info_lem l name email n fuel = (
  find_user-none l.users name email n l.listed fuel,
  λ p e. (
    find_user-some l.users name email n l.listed p fuel e,
    λ misses m. find_user_loops l.users name email m l.listed p e misses,
  ),
)
