-- ===== src/Server/Commands/Replies.antt =====
-- eLibrary/src/client/eLibrary_client_parse.c: what `add -f`, `rm -f` and `buy` do for a user of the
-- library.
use morning_projects.Common.{
  ◌+◌, ◌^◌, ◌<◌, ◌≡◌, refl, ◌∙◌, ap, Bool, true, Option, none, some, List, [], ◌∷◌, ◌++◌,
  if◌then◌else◌, length, ◌>>=◌,
}
use morning_projects.Server.{Ptr, Library}
use morning_projects.Server.Bytes.{Text, starts_with}
use morning_projects.Server.Users.{get_frd_info}
use morning_projects.Server.Users.Search.{get_user_info_lem}
use morning_projects.Server.Friends.{add_friend, rm_friend}
use morning_projects.Server.Friends.Distinct.{IsCircle, with_friend, add_friend-IsCircle}
use morning_projects.Server.Friends.Removal.{NoneNamed, remaining, rm_friend_lem}
use morning_projects.Server.Brief.{printed, system_error}
use morning_projects.Server.Brief.Usage.{bytes}
use morning_projects.Server.Commands.{
  CmdLine, CommandEnv, find_host, find_target, add_hosted, add_found, say_if_ok, add_friend_evt,
  input_add, rm_book_evt, rm_hosted, input_rm,
}

-- The session of a user who is listed: `getUserInfo` takes its lock, and there is fuel for the list.
pub record IsSession (env : CommandEnv) (l : Library) (user_name : Text) (host : Ptr) : Type 0 where
  pub host_locks : env.host_locks ≡ true
  pub target_locks : env.target_locks ≡ true
  pub fuel : length l.listed < env.fuel
  pub known : get_frd_info l.users l.listed user_name ≡ some host

-- the command with the option `f`, and the one with a name alone
abbrev pub friend_cmd : Text → CmdLine
friend_cmd name = record { option = 102 ∷ []; params = name ∷ [] }

abbrev pub plain_cmd : Text → CmdLine
plain_cmd name = record { option = []; params = name ∷ [] }

abbrev pub error_reply : Bool → Option Text
error_reply memory = if memory then some (printed system_error) else none

module _ (env : CommandEnv) (l : Library) (user_name : Text) (host : Ptr)
    (s : IsSession env l user_name host) where
  pub find_host_lem : find_host env user_name l ≡ some (some host)
  find_host_lem =
      rw s.host_locks (((get_user_info_lem l user_name none env.fuel s.fuel).1 host s.known).0 refl)

  find_target-some :
      (name : Text) (p : Ptr)
      → get_frd_info l.users l.listed name ≡ some p
      → find_target env name l ≡ some (some p)
  find_target-some name p e =
      rw s.target_locks (((get_user_info_lem l name none env.fuel s.fuel).1 p e).0 refl)

  find_target-none :
      (name : Text) → get_frd_info l.users l.listed name ≡ none → find_target env name l ≡ some none
  find_target-none name e = rw s.target_locks ((get_user_info_lem l name none env.fuel s.fuel).0 e)

  add_asked :
      (name : Text) (found : Option Ptr)
      → find_target env name l ≡ some found
      → input_add env user_name l (friend_cmd name) ≡ add_found env host name l found
  unfolding input_add
  add_asked name found e =
      ap (λ o. o >>= λ f. add_hosted env 102 (friend_cmd name) l f) find_host_lem
      ∙ ap (λ o. o >>= λ f. add_found env host name l f) e

  rm_asked :
      (name : Text)
      → input_rm env user_name l (friend_cmd name)
        ≡ say_if_ok env rm_book_evt none (rm_friend l host name)
  unfolding input_rm
  rm_asked name = ap (λ o. o >>= λ f. rm_hosted env 102 name l f) find_host_lem

-- Let the session's user be listed, with friends that are counted, to a count below 2 ^ 32 - 1, and have
-- different names. Where a listed user's name begins with `name`, `add -f`, given memory, puts the first
-- such user at the end of the friends, unless a friend has the same name as that user, and answers that
-- `name` is now a friend; the friends are again counted and have different names. Where no listed user's
-- name begins with `name`, it answers with the system error, or without memory with NULL, and changes
-- nothing.
pub input_add-IsCircle :
    (env : CommandEnv) (l : Library) (user_name name : Text) (host friend : Ptr)
    → IsSession env l user_name host
    → IsCircle l host
    → (l.users host).num_frds + 1 < 2 ^ 32
    → env.friend_memory ≡ (true, true)
    → env.brief_memory ≡ true
    → (get_frd_info l.users l.listed name ≡ some friend
        → (u : Library) × (input_add env user_name l (friend_cmd name)
            ≡ some (some (printed (name ++ bytes " is now your friend.")), u))
          × ((u.users host).friends ≡ with_friend l.users (l.users host).friends friend)
          × IsCircle u host)
      × (get_frd_info l.users l.listed name ≡ none
          → input_add env user_name l (friend_cmd name) ≡ some (error_reply env.reply_memory, l))
input_add-IsCircle env l user_name name host friend s circle small memory brief = (
  λ e.
      let (u, added, list, circle') =
        add_friend-IsCircle env.date env.now l host friend circle small in
      (
        u,
        add_asked env l user_name host s name (some friend)
              (find_target-some env l user_name host s name friend e)
            ∙ (ap
                  (λ m. add_friend m env.date env.now l host friend >>= λ r.
                    say_if_ok env add_friend_evt (some name) r)
                  memory
                ∙ (ap (λ o. o >>= λ r. say_if_ok env add_friend_evt (some name) r) added
                    ∙ rw brief refl)),
        list,
        circle',
      ),
  λ e. add_asked env l user_name host s name none (find_target-none env l user_name host s name e),
)

-- Let the session's user be listed, with friends that are counted. `rm -f` with a name that begins no
-- friend's name changes nothing. If it begins one, and `p` is the first, `p` is taken out when another
-- friend stands before it, and the whole list when `p` is the first of it, with a count of one
-- less. The reply is "System error." each time, or NULL without memory.
pub input_rm-rm_friend :
    (env : CommandEnv) (l : Library) (user_name name : Text) (host : Ptr)
    → IsSession env l user_name host
    → (l.users host).num_frds ≡ length (l.users host).friends
    → (l.users host).num_frds < 2 ^ 32
    → (NoneNamed l.users name (l.users host).friends
        → input_rm env user_name l (friend_cmd name) ≡ some (error_reply env.reply_memory, l))
      × ((before : List Ptr) (p : Ptr) (after : List Ptr)
          → (l.users host).friends ≡ before ++ (p ∷ after)
          → NoneNamed l.users name before
          → starts_with (l.users p).username name ≡ true
          → (u : Library) × (input_rm env user_name l (friend_cmd name)
              ≡ some (error_reply env.brief_memory, u))
            × ((u.users host).friends ≡ remaining before after)
            × ((u.users host).num_frds ≡ length (before ++ after)))
input_rm-rm_friend env l user_name name host s counted small =
    let (nobody, somebody) = rm_friend_lem l host name counted small in
    (
      λ h. rm_asked env l user_name host s name ∙ ap (say_if_ok env rm_book_evt none) (nobody h),
      λ before p after is h named.
          let (removed, list, count) = somebody before p after is h named in
          (
            (rm_friend l host name).1,
            rm_asked env l user_name host s name
                ∙ ap (λ x. say_if_ok env rm_book_evt none (x, (rm_friend l host name).1)) removed,
            list,
            count,
          ),
    )
