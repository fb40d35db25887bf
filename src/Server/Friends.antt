-- ===== src/Server/Friends.antt =====
-- eLibrary/src/server/eLibrary_server_handler.c: the lists of friends, `addFriend`, `rmFriend` and
-- `detechFrdNode`.
pub mod Distinct
pub mod Removal
use morning_projects.Common.{
  ℕ, ◌+◌, ◌-◌, ◌%◌, ◌^◌, Bool, true, false, not, Option, none, some, List, [], ◌∷◌, ◌++◌, ◌==◌,
  if◌then◌else◌, ◌>>=◌,
}
use morning_projects.Server.{Ptr, Status, ok, fail, User, Library, set_user, count_up}
use morning_projects.Server.Bytes.{Text, same_text, starts_with}
use morning_projects.Server.Activities.{add_user_acty, adding_frd}
use morning_projects.Server.Users.{get_frd_info}

-- whether the loop of `addFriend` meets a friend of the name
abbrev pub is_friend : (Ptr → User) → List Ptr → Text → Bool
is_friend users [] name = false
is_friend users (p ∷ ps) name =
    if same_text (users p).username name then true else is_friend users ps name

-- the friend at the end of the host's list
abbrev pub link_friend : Library → Ptr → Ptr → Library
link_friend l host friend =
    let u = l.users host in
    set_user l host
      (record u { friends = u.friends ++ (friend ∷ []); num_frds = count_up u.num_frds })

abbrev pub first_friend : Library → Ptr → Ptr → Library
first_friend l host friend =
    let u = l.users host in
    set_user l host (record u { friends = friend ∷ []; num_frds = count_up u.num_frds })

-- the body of the loop of `addFriend`, which reads the first node before it tests for the end
abbrev pub reads_first {ℓ} : {A : Type ℓ} → List Ptr → Option A → Option A
reads_first [] x = none
reads_first (p ∷ ps) x = x

-- `addFriend`: `memory` for the node and for the entry in the host's history, whose status is not
-- looked at. With a count that is not 0 the first node is read before any test.
unfoldable pub add_friend : Bool × Bool → Text → ℕ → Library → Ptr → Ptr → Option (Status × Library)
unfolding add_user_acty
add_friend (node_memory, acty_memory) date now l host friend =
    let u = l.users host in
    let name = (l.users friend).username in
    if not node_memory
    then some (fail, l)
    else if u.num_frds == 0
    then some (ok, first_friend l host friend)
    else reads_first u.friends (
        if is_friend l.users u.friends name
        then some (ok, l)
        else (add_user_acty acty_memory date now (link_friend l host friend) host adding_frd name
            >>= λ r. some (ok, r.1)))

-- `detechFrdNode`: the list it leaves. The first node takes the whole list with it.
abbrev pub detach_behind : (Ptr → User) → List Ptr → Text → List Ptr
detach_behind users [] name = []
detach_behind users (p ∷ ps) name =
    if starts_with (users p).username name then ps else p ∷ detach_behind users ps name

abbrev pub detach_frd_node : (Ptr → User) → List Ptr → Text → List Ptr
detach_frd_node users [] name = []
detach_frd_node users (p ∷ ps) name =
    if starts_with (users p).username name then [] else p ∷ detach_behind users ps name

-- `rmFriend` after its search
abbrev pub unfriend : Library → Ptr → Text → Option Ptr → Status × Library
unfriend l host name none = (fail, l)
unfriend l host name (some p) =
    let u = l.users host in
    (
      ok,
      set_user l host (record u {
        friends = detach_frd_node l.users u.friends name;
        num_frds = (u.num_frds + 2 ^ 32 - 1) % 2 ^ 32;
      }),
    )

-- `rmFriend`
unfoldable pub rm_friend : Library → Ptr → Text → Status × Library
rm_friend l host name = unfriend l host name (get_frd_info l.users (l.users host).friends name)
