-- ===== src/Server/Friends/Distinct.antt =====
-- eLibrary/src/server/eLibrary_server_handler.c: what `addFriend` and `rmFriend` make of the list of
-- friends.
use morning_projects.Common.{
  ℕ, ◌+◌, ◌-◌, ◌^◌, ◌<◌, ◌≡◌, ◌⊎◌, refl, true, false, Option, some, List, [], ◌∷◌, ◌++◌, ◌==◌,
  if◌then◌else◌, length, length-append, arith, Bool-cases, inl, inr, ap, subst, sym, ◌∙◌,
}
use morning_projects.Server.{
  Ptr, ok, User, Library, write_self, write_named, count_up, count-length,
}
use morning_projects.Server.Bytes.{Text, take, same_text}
use morning_projects.Server.Activities.{
  add_user_acty, record_acty, max_acty_length, space_text, and_text, friends_now_text,
}
use morning_projects.Server.Friends.{is_friend, reads_first, link_friend, first_friend, add_friend}

-- no two of these users have the same name
abbrev pub DistinctNames : (Ptr → User) → List Ptr → Type 0
DistinctNames users [] = Unit
DistinctNames users (p ∷ ps) =
    (is_friend users ps (users p).username ≡ false) × DistinctNames users ps

-- The friends of the host are counted, and have different names.
pub record IsCircle (l : Library) (host : Ptr) : Type 0 where
  pub counted : (l.users host).num_frds ≡ length (l.users host).friends
  pub distinct : DistinctNames l.users (l.users host).friends

same_text_sym : (a b : Text) → same_text a b ≡ same_text b a
same_text_sym [] [] = refl
same_text_sym [] (y ∷ ys) = refl
same_text_sym (x ∷ xs) [] = refl
same_text_sym (x ∷ xs) (y ∷ ys) = ground (arith, same_text_sym xs ys)

module _ (users users' : Ptr → User)
    (same : (p : Ptr) → (users' p).username ≡ (users p).username) where
  is_friend_same :
      (ps : List Ptr) (name : Text) → is_friend users' ps name ≡ is_friend users ps name
  is_friend_same [] name = refl
  is_friend_same (p ∷ ps) name = rw (same p, is_friend_same ps name) refl

  DistinctNames-same : (ps : List Ptr) → DistinctNames users ps → DistinctNames users' ps
  DistinctNames-same [] d = tt
  DistinctNames-same (p ∷ ps) (e, d) =
      (rw (same p, is_friend_same ps (users p).username) e, DistinctNames-same ps d)

module _ (users : Ptr → User) where
  is_friend_end :
      (ps : List Ptr) (q : Ptr) (name : Text)
      → is_friend users ps name ≡ false
      → is_friend users (ps ++ (q ∷ [])) name ≡ same_text (users q).username name
  is_friend_end [] q name e = ground arith
  is_friend_end (p ∷ ps) q name e = ground (arith, is_friend_end ps q name)

  DistinctNames-end :
      (ps : List Ptr) (q : Ptr)
      → DistinctNames users ps
      → is_friend users ps (users q).username ≡ false
      → DistinctNames users (ps ++ (q ∷ []))
  DistinctNames-end [] q d e = (refl, tt)
  DistinctNames-end (p ∷ ps) q (f, d) e =
      elim (Bool-cases (same_text (users p).username (users q).username)) [
        | inl is ↦ ground arith
        | inr off ↦ (
          is_friend_end ps q (users p).username f
              ∙ (same_text_sym (users q).username (users p).username ∙ off),
          DistinctNames-end ps q d (rw off at e),
        )
      ]

-- the friends, one more
abbrev pub with_friend : (Ptr → User) → List Ptr → Ptr → List Ptr
with_friend users ps q = if is_friend users ps (users q).username then ps else ps ++ (q ∷ [])

reads_first_lem {ℓ} :
    {A : Type ℓ} (ps : List Ptr) (x : Option A) → (ps ≡ [] → ⊥) → reads_first ps x ≡ x
reads_first_lem [] x there = absurd (there refl)
reads_first_lem (p ∷ ps) x there = refl

module _ (date : Text) (now : ℕ) (l : Library) (host friend : Ptr) where
  add_friend_first :
      (l.users host).friends ≡ []
      → (l.users host).num_frds ≡ 0
      → add_friend (true, true) date now l host friend ≡ some (ok, first_friend l host friend)
  unfolding add_friend
  add_friend_first none_yet zero_yet = rw zero_yet refl

  add_friend_known :
      ((l.users host).friends ≡ [] → ⊥)
      → ((l.users host).num_frds == 0) ≡ false
      → is_friend l.users (l.users host).friends (l.users friend).username ≡ true
      → add_friend (true, true) date now l host friend ≡ some (ok, l)
  unfolding add_friend
  add_friend_known there more known =
      rw (more, reads_first_lem (l.users host).friends _ there, known) refl

  -- the host's list with the friend, and the entry in the host's history
  abbrev befriended : Library
  befriended =
      let linked = link_friend l host friend in
      record_acty linked host
        (take (max_acty_length - 1) (
          date
          ++ (space_text
              ++ ((linked.users host).username
                  ++ (and_text ++ ((l.users friend).username ++ friends_now_text))))))
        now

  add_friend_new :
      ((l.users host).friends ≡ [] → ⊥)
      → ((l.users host).num_frds == 0) ≡ false
      → is_friend l.users (l.users host).friends (l.users friend).username ≡ false
      → add_friend (true, true) date now l host friend ≡ some (ok, befriended)
  unfolding add_friend add_user_acty
  add_friend_new there more new =
      rw (more, reads_first_lem (l.users host).friends _ there, new) refl

  befriended_named : (p : Ptr) → (befriended.users p).username ≡ (l.users p).username
  befriended_named p =
      write_named (λ u. u.username) (link_friend l host friend).users host _ refl p
      ∙ write_named (λ u. u.username) l.users host _ refl p

  befriended_self :
      ((befriended.users host).friends ≡ (l.users host).friends ++ (friend ∷ []))
      × ((befriended.users host).num_frds ≡ count_up (l.users host).num_frds)
  befriended_self =
      let step = write_self (link_friend l host friend).users host _ in
      let base = write_self l.users host _ in
      (
        ap (λ u. u.friends) step ∙ ap (λ u. u.friends) base,
        ap (λ u. u.num_frds) step ∙ ap (λ u. u.num_frds) base,
      )

-- the number of the friends is that of the list
empty_counted :
    (ps : List Ptr) (n : ℕ) → n ≡ length ps → (ps ≡ []) ⊎ ((ps ≡ [] → ⊥) × ((n == 0) ≡ false))
empty_counted [] n e = inl refl
empty_counted (p ∷ ps) n e = inr (λ h. cc, ground arith)

count_grown :
    (n : ℕ) (ps : List Ptr) (q : Ptr)
    → n ≡ length ps
    → n + 1 < 2 ^ 32
    → count_up n ≡ length (ps ++ (q ∷ []))
count_grown n ps q e small = rw (length-append ps (q ∷ [])) (count-length n (length ps) e small)

IsCircle-grown :
    (l u : Library) (host friend : Ptr)
    → IsCircle l host
    → (l.users host).num_frds + 1 < 2 ^ 32
    → is_friend l.users (l.users host).friends (l.users friend).username ≡ false
    → ((p : Ptr) → (u.users p).username ≡ (l.users p).username)
    → ((u.users host).friends ≡ (l.users host).friends ++ (friend ∷ []))
      × ((u.users host).num_frds ≡ count_up (l.users host).num_frds)
    → IsCircle u host
IsCircle-grown l u host friend circle small new named (list, count) =
    let ends = DistinctNames-end l.users (l.users host).friends friend circle.distinct new in
    record {
      counted =
          count
          ∙ (count_grown (l.users host).num_frds (l.users host).friends friend circle.counted small
              ∙ ap length (sym list));
      distinct =
          subst (DistinctNames u.users) (sym list) (
            DistinctNames-same l.users u.users named ((l.users host).friends ++ (friend ∷ []))
              ends);
    }

-- Let the friends of the host be counted and have different names, and the counter not be at its end.
-- Then `addFriend`, given memory, succeeds, and they are again counted and have different names: the
-- new friend is put at the end when no friend has its name, and else nothing changes in the list.
pub add_friend-IsCircle :
    (date : Text) (now : ℕ) (l : Library) (host friend : Ptr)
    → IsCircle l host
    → (l.users host).num_frds + 1 < 2 ^ 32
    → (u : Library) × (add_friend (true, true) date now l host friend ≡ some (ok, u))
      × ((u.users host).friends ≡ with_friend l.users (l.users host).friends friend)
      × IsCircle u host
add_friend-IsCircle date now l host friend circle small =
    elim (empty_counted (l.users host).friends (l.users host).num_frds circle.counted) [
      | inl none_yet ↦
          let self = write_self l.users host _ in
          let list = ap (λ u. u.friends) self in
          let new : is_friend l.users (l.users host).friends (l.users friend).username ≡ false =
            rw none_yet refl in
          (
            first_friend l host friend,
            add_friend_first date now l host friend none_yet (circle.counted ∙ ap length none_yet),
            list ∙ sym (rw none_yet refl),
            IsCircle-grown l (first_friend l host friend) host friend circle small new
                (write_named (λ u. u.username) l.users host _ refl)
                (list ∙ sym (rw none_yet refl), ap (λ u. u.num_frds) self),
          )
      | inr (there, more) ↦
          elim (Bool-cases (is_friend l.users (l.users host).friends (l.users friend).username)) [
            | inl known ↦
                (l, add_friend_known date now l host friend there more known, rw known refl, circle)
            | inr new ↦
                let self = befriended_self date now l host friend in
                (
                  befriended date now l host friend,
                  add_friend_new date now l host friend there more new,
                  rw new self.0,
                  IsCircle-grown l (befriended date now l host friend) host friend circle small new
                      (befriended_named date now l host friend) self,
                )
          ]
    ]
