-- ===== src/Server/Users.antt =====
-- eLibrary/src/server/eLibrary_server_handler.c: the users, `getUserInfo`, `getFrdInfo` and
-- `addUser`.
pub mod Search
pub mod Register
use morning_projects.Common.{
  ℕ, zero, suc, ◌+◌, ◌%◌, ◌^◌, Bool, true, false, not, Option, none, some, List, [], ◌∷◌, ◌++◌,
  ◌==◌, if◌then◌else◌, ◌>>=◌, ltb, length, ◌&&◌,
}
use morning_projects.Server.{
  Ptr, Status, ok, fail, User, Library, set_user, count_up, max_name_length,
}
use morning_projects.Server.Bytes.{Text, starts_with, take}
use morning_projects.Server.Names.{first_named}
use morning_projects.Server.Activities.{add_user_acty, user_create}

-- whether the e-mail, unless it is NULL, is that of the user
abbrev pub email_fits : User → Option Text → Bool
email_fits u none = true
email_fits u (some e) = starts_with u.email e

-- The loop of `getUserInfo`: the user found. At a user of the name with another e-mail, `continue`
-- goes back to the test with the same node; out of fuel the answer is `none`.
unfoldable pub find_user : ℕ → (Ptr → User) → List Ptr → Text → Option Text → Option (Option Ptr)
find_user zero users list name email = none
find_user (suc n) users [] name email = some none
find_user (suc n) users (p ∷ ps) name email =
    let again = find_user n users (p ∷ ps) name email in
    let rest = find_user n users ps name email in
    if starts_with (users p).username name
    then (if email_fits (users p) email then some (some p) else again)
    else rest

-- `getUserInfo`; without the lock it looks at no user
unfoldable pub get_user_info : ℕ → Bool → Library → Text → Option Text → Option (Option Ptr)
unfolding find_user
get_user_info fuel locks l name email =
    if locks then find_user fuel l.users l.listed name email else some none

-- `getFrdInfo`
abbrev pub get_frd_info : (Ptr → User) → List Ptr → Text → Option Ptr
get_frd_info users ps name = first_named (λ p. (users p).username) ps name

-- What `addUser` meets: whether each `malloc` gives memory, whether the lock of `getUserInfo` and
-- its own are taken, where the new user lies, and MAX_EMAIL_LENGTH, which no header defines.
pub record AddUser : Type 0 where
  pub user_memory : Bool
  pub node_memory : Bool
  pub acty_memory : Bool
  pub search_locks : Bool
  pub locks : Bool
  pub address : Ptr
  pub max_email_length : ℕ

-- The name and the e-mail fit their arrays with a terminator. `strncpy` writes none behind a longer one,
-- and what reads the field later runs past its end.
abbrev pub fits_user : ℕ → Text → Text → Bool
fits_user max_email_length name email =
    ltb (length name) max_name_length && ltb (length email) max_email_length

abbrev pub new_user : ℕ → Text → Text → User
new_user max_email_length name email = record {
  username = take max_name_length name;
  email = take max_email_length email;
  friends = [];
  num_frds = 0;
  books = [];
  num_books = 0;
  activity = [];
  num_acty = 0;
  msg_box = record { num_msg = 0; num_unread = 0; msgs = [] };
}

-- the user at the end of the list; with a count of 0 the list is begun anew
abbrev pub enlist : Library → Ptr → Library
enlist l p = record l {
  listed = if l.num_users == 0 then p ∷ [] else l.listed ++ (p ∷ []);
  num_users = count_up l.num_users;
}

-- `addUser`; `none` for an argument stands for NULL. A user that cannot be put into the list is
-- leaked. A name or an e-mail that is left without a terminator is taken for a fault.
unfoldable pub add_user :
    ℕ → AddUser → Text → ℕ → Library → Option Text → Option Text → Option (Status × Library)
unfolding get_user_info add_user_acty
add_user fuel env date now l (some name) (some email) =
    get_user_info fuel env.search_locks l name (some email) >>= λ found. elim found [
      | some p ↦ some (fail, l)
      | none ↦
          if not env.user_memory
          then some (fail, l)
          else if not (fits_user env.max_email_length name email)
          then none
          else let made = set_user l env.address (new_user env.max_email_length name email) in
            if not env.node_memory
            then some (fail, made)
            else if not env.locks
            then some (fail, made)
            else add_user_acty env.acty_memory date now (enlist made env.address) env.address
                user_create []
    ]
add_user fuel env date now l _ _ = some (fail, l)
