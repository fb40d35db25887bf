-- ===== src/Server/Users/Register.antt =====
-- eLibrary/src/server/eLibrary_server_handler.c: what `addUser` makes of the list of users.
use morning_projects.Common.{
  ℕ, suc, ◌+◌, ◌-◌, ◌^◌, ◌<◌, ◌≤◌, ◌≡◌, refl, true, false, none, some, List, [], ◌∷◌, ◌++◌, ◌==◌,
  if◌then◌else◌, length, length-append, arith, ap, ◌∙◌, sym, subst,
}
use morning_projects.Server.{
  Ptr, ok, fail, User, Library, set_user, write, write_self, count-length, max_name_length,
}
use morning_projects.Server.Bytes.{take_all, Text, take, starts_with_refl}
use morning_projects.Server.Names.{
  Apart, FoundByName, SameNames, first_named-SameNames, first_named_new, SameNames-Apart,
  FoundByName-new,
}
use morning_projects.Server.Activities.{
  add_user_acty, record_acty, max_acty_length, space_text, joined_text,
}
use morning_projects.Server.Users.{
  email_fits, get_user_info, get_frd_info, AddUser, new_user, enlist, add_user, fits_user,
}
use morning_projects.Server.Users.Search.{get_user_info_lem}

-- the names of the users
abbrev pub usernames : (Ptr → User) → Ptr → Text
usernames users p = (users p).username

-- The users are counted, and each is found under its name.
pub record IsRegistered (l : Library) : Type 0 where
  pub counted : l.num_users ≡ length l.listed
  pub found : FoundByName (usernames l.users) l.listed l.listed

list_end :
    (ps : List Ptr) (n : ℕ) (a : Ptr)
    → n ≡ length ps
    → (if n == 0 then a ∷ [] else ps ++ (a ∷ [])) ≡ ps ++ (a ∷ [])
list_end [] n a e = rw e refl
list_end (p ∷ ps) n a e = rw e (ground arith)

-- memory for all, at this address, and all locks taken
abbrev pub all_well : Ptr → ℕ → AddUser
all_well address max_email_length = record {
  user_memory = true;
  node_memory = true;
  acty_memory = true;
  search_locks = true;
  locks = true;
  address = address;
  max_email_length = max_email_length;
}

module _ (l : Library) (name email date : Text) (a m now : ℕ) where
  -- the library with the new user
  abbrev with_user : Library
  with_user =
      record_acty (enlist (set_user l a (new_user m name email)) a) a
        (take (max_acty_length - 1)
          (date ++ (space_text ++ (take max_name_length name ++ joined_text))))
        now

  enlist_lem : IsRegistered l → with_user.listed ≡ l.listed ++ (a ∷ [])
  enlist_lem reg = list_end l.listed l.num_users a reg.counted

  SameNames-with_user :
      (ps : List Ptr) → Apart a ps → SameNames (usernames l.users) (usernames with_user.users) ps
  SameNames-with_user ps apart =
      SameNames-Apart (usernames l.users) (usernames with_user.users) a ps
        (λ p e. rw (usernames, e) refl) apart

  new_name : length name ≤ max_name_length → (with_user.users a).username ≡ name
  new_name short =
      ap (λ u. u.username) (write_self (write l.users a (new_user m name email)) a _)
      ∙ (ap (λ u. u.username) (write_self l.users a (new_user m name email))
          ∙ take_all max_name_length name short)

  add_user-with_user :
      (n : ℕ)
      → length l.listed < n
      → get_frd_info l.users l.listed name ≡ none
      → fits_user m name email ≡ true
      → add_user n (all_well a m) date now l (some name) (some email) ≡ some (ok, with_user)
  unfolding add_user add_user_acty
  add_user-with_user n fuel free fits =
      rw
        (
          (get_user_info_lem l name (some email) n fuel).0 free,
          fits,
          ap (λ u. u.username) (write_self l.users a (new_user m name email)),
        )
        refl

  with_user-IsRegistered :
      IsRegistered l
      → Apart a l.listed
      → length name ≤ max_name_length
      → get_frd_info l.users l.listed name ≡ none
      → l.num_users + 1 < 2 ^ 32
      → IsRegistered with_user × (get_frd_info with_user.users with_user.listed name ≡ some a)
  with_user-IsRegistered reg apart short free small =
      let names = SameNames-with_user l.listed apart in
      let new = new_name short in
      let here : get_frd_info with_user.users (l.listed ++ (a ∷ [])) name ≡ some a =
        first_named_new (usernames with_user.users) (usernames with_user.users) l.listed a name
          (first_named-SameNames (usernames l.users) (usernames with_user.users) l.listed name names
            ∙ free)
          (rw new (starts_with_refl name)) in
      let ends =
        FoundByName-new (usernames l.users) (usernames with_user.users) l.listed a name names new
          free here reg.found in
      (
        record {
          counted =
              rw (enlist_lem reg, length-append l.listed (a ∷ []))
                (count-length l.num_users (length l.listed) reg.counted small);
          found =
              subst (λ ps. FoundByName (usernames with_user.users) ps ps) (sym (enlist_lem reg))
                ends;
        },
        subst (λ ps. get_frd_info with_user.users ps name ≡ some a) (sym (enlist_lem reg)) here,
      )

-- In a library whose users are counted and found under their names, let no listed name begin with
-- `name`, let the name and the e-mail be shorter than their arrays, the new address be that of no listed
-- user, and the counter not be at its end. Then `addUser`, given memory and locks, succeeds: the users are again counted and found under
-- their names, and `getUserInfo` for the name finds the new user. If a listed name begins with `name`,
-- `addUser` fails and changes nothing when the e-mail fits the first such user, and never returns when
-- it does not.
pub add_user-IsRegistered :
    (l : Library) (name email date : Text) (a m now n : ℕ)
    → IsRegistered l
    → Apart a l.listed
    → length name < max_name_length
    → length email < m
    → l.num_users + 1 < 2 ^ 32
    → suc (length l.listed) < n
    → (get_frd_info l.users l.listed name ≡ none
        → (u : Library) × (add_user n (all_well a m) date now l (some name) (some email)
            ≡ some (ok, u))
          × IsRegistered u
          × (get_user_info n true u name none ≡ some (some a)))
      × ((p : Ptr)
          → get_frd_info l.users l.listed name ≡ some p
          → (email_fits (l.users p) (some email) ≡ true
              → add_user n (all_well a m) date now l (some name) (some email) ≡ some (fail, l))
            × (email_fits (l.users p) (some email) ≡ false
                → (k : ℕ) → add_user k (all_well a m) date now l (some name) (some email) ≡ none))
unfolding add_user
add_user-IsRegistered l name email date a m now n reg apart short short_email small fuel = (
  λ free.
      let (reg', here) =
        with_user-IsRegistered l name email date a m now reg apart (omega arith) free small in
      (
        with_user l name email date a m now,
        add_user-with_user l name email date a m now n (omega arith) free (ground arith),
        reg',
        ((get_user_info_lem (with_user l name email date a m now) name none n (
                rw (enlist_lem l name email date a m now reg, length-append l.listed (a ∷ []))
                  (omega arith))).1
              a here).0
            refl,
      ),
  λ p e.
      let (fits, misses) = (get_user_info_lem l name (some email) n (omega arith)).1 p e in
      (λ h. rw (fits h) refl, λ h k. rw (misses h k) refl),
)
