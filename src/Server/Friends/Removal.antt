-- ===== src/Server/Friends/Removal.antt =====
-- eLibrary/src/server/eLibrary_server_handler.c: what `rmFriend` and `detechFrdNode` take from the list
-- of friends.
use morning_projects.Common.{
  ℕ, suc, ◌+◌, ◌-◌, ◌%◌, ◌^◌, ◌<◌, ◌≡◌, refl, true, false, none, some, List, [], ◌∷◌, ◌++◌, length,
  arith, ap, sym, subst, ◌∙◌,
}
use morning_projects.Server.{Ptr, ok, fail, User, Library, write_self}
use morning_projects.Server.Bytes.{Text, starts_with}
use morning_projects.Server.Users.{get_frd_info}
use morning_projects.Server.Friends.{detach_behind, detach_frd_node, unfriend, rm_friend}

-- the name of none of these users begins with the name
abbrev pub NoneNamed : (Ptr → User) → Text → List Ptr → Type 0
NoneNamed users name [] = Unit
NoneNamed users name (p ∷ ps) =
    (starts_with (users p).username name ≡ false) × NoneNamed users name ps

-- what is left of the list when the friend between `before` and `after` is taken out
abbrev pub remaining : List Ptr → List Ptr → List Ptr
remaining [] after = []
remaining (b ∷ before) after = b ∷ before ++ after

module _ (users : Ptr → User) (name : Text) where
  NoneNamed-get_frd_info :
      (ps : List Ptr) → NoneNamed users name ps → get_frd_info users ps name ≡ none
  NoneNamed-get_frd_info [] h = refl
  NoneNamed-get_frd_info (p ∷ ps) (e, h) = rw (e, NoneNamed-get_frd_info ps h) refl

  module _ (p : Ptr) (after : List Ptr) (named : starts_with (users p).username name ≡ true) where
    get_frd_info_between :
        (before : List Ptr)
        → NoneNamed users name before
        → get_frd_info users (before ++ (p ∷ after)) name ≡ some p
    get_frd_info_between [] h = rw named refl
    get_frd_info_between (b ∷ before) (e, h) = rw (e, get_frd_info_between before h) refl

    detach_behind_between :
        (before : List Ptr)
        → NoneNamed users name before
        → detach_behind users (before ++ (p ∷ after)) name ≡ before ++ after
    detach_behind_between [] h = rw named refl
    detach_behind_between (b ∷ before) (e, h) = rw (e, detach_behind_between before h) refl

    detach_frd_node_between :
        (before : List Ptr)
        → NoneNamed users name before
        → detach_frd_node users (before ++ (p ∷ after)) name ≡ remaining before after
    detach_frd_node_between [] h = rw named refl
    detach_frd_node_between (b ∷ before) (e, h) = rw (e, detach_behind_between before h) refl

-- `rmFriend` where a friend is found
rm_friend_found :
    (l : Library) (host : Ptr) (name : Text) (p : Ptr) (ps : List Ptr)
    → get_frd_info l.users (l.users host).friends name ≡ some p
    → detach_frd_node l.users (l.users host).friends name ≡ ps
    → ((rm_friend l host name).0 ≡ ok)
      × (((rm_friend l host name).1.users host).friends ≡ ps)
      × (((rm_friend l host name).1.users host).num_frds
          ≡ ((l.users host).num_frds + 2 ^ 32 - 1) % 2 ^ 32)
unfolding rm_friend
rm_friend_found l host name p ps e d =
    let self = write_self l.users host _ in
    subst
      (λ r.
        (r.0 ≡ ok)
        × ((r.1.users host).friends ≡ ps)
        × ((r.1.users host).num_frds ≡ ((l.users host).num_frds + 2 ^ 32 - 1) % 2 ^ 32))
      (sym (ap (unfriend l host name) e))
      (refl, ap (λ u. u.friends) self ∙ d, ap (λ u. u.num_frds) self)

count_down : (n k : ℕ) → n ≡ suc k → n < 2 ^ 32 → (n + 2 ^ 32 - 1) % 2 ^ 32 ≡ k
count_down n k e small = omega arith

length-between :
    (before : List Ptr) (p : Ptr) (after : List Ptr)
    → length (before ++ (p ∷ after)) ≡ suc (length (before ++ after))
length-between [] p after = refl
length-between (b ∷ before) p after = ap suc (length-between before p after)

-- Let the friends of the host be counted. If no friend's name begins with the name given, `rmFriend`
-- fails and changes nothing. If one does, and `p` is the first, it succeeds, counts one friend less,
-- and takes `p` out when another friend stands before it; but when `p` is the first of the list, it
-- takes the whole list away.
pub rm_friend_lem :
    (l : Library) (host : Ptr) (name : Text)
    → (l.users host).num_frds ≡ length (l.users host).friends
    → (l.users host).num_frds < 2 ^ 32
    → (NoneNamed l.users name (l.users host).friends → rm_friend l host name ≡ (fail, l))
      × ((before : List Ptr) (p : Ptr) (after : List Ptr)
          → (l.users host).friends ≡ before ++ (p ∷ after)
          → NoneNamed l.users name before
          → starts_with (l.users p).username name ≡ true
          → ((rm_friend l host name).0 ≡ ok)
            × (((rm_friend l host name).1.users host).friends ≡ remaining before after)
            × (((rm_friend l host name).1.users host).num_frds ≡ length (before ++ after)))
unfolding rm_friend
rm_friend_lem l host name counted small = (
  λ h. ap (unfriend l host name) (NoneNamed-get_frd_info l.users name (l.users host).friends h),
  λ before p after is h named.
      let (status, list, count) =
        rm_friend_found l host name p (remaining before after)
          (rw is (get_frd_info_between l.users name p after named before h))
          (rw is (detach_frd_node_between l.users name p after named before h)) in
      (
        status,
        list,
        count
            ∙ count_down (l.users host).num_frds (length (before ++ after))
                (counted ∙ (ap length is ∙ length-between before p after)) small,
      ),
)
