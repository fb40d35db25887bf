-- ===== src/Server/Commands/Handlers.antt =====
-- eLibrary/src/server/eLibrary_server_handler.c: the handlers that the commands call leave the users
-- and their names.
use morning_projects.Common.{
  ℕ, ◌≡◌, refl, ◌++◌, Bool, not, Option, none, some, List, [], ◌∷◌, ◌==◌, if◌then◌else◌, ◌>>=◌, ltb,
  length,
}
use morning_projects.Server.{
  Ptr, ok, User, Acty, Book, Library, set_user, set_book, attached, detached, freed, count_up,
  max_book_name_length, Tail,
}
use morning_projects.Server.Bytes.{Text, starts_with}
use morning_projects.Server.Activities.{
  ActyFilter, add_user_acty, record_acty, acty_text, adding_book, adding_frd, by_buy,
}
use morning_projects.Server.Users.{get_frd_info}
use morning_projects.Server.Friends.{
  add_friend, link_friend, reads_first, is_friend, rm_friend, unfriend,
}
use morning_projects.Server.Books.{
  AddBook, add_book, add_private, add_public, behind_tail, own_list, shelve, set_group, new_book,
  get_book_by_name, rm_book, take_from, one_less, buy_book,
}
use morning_projects.Server.Commands.Yields.{
  Holds, Holds-step, Holds-read, Holds-if, Kept, SameUsers, SameUsers-set_user, SameUsers-books,
}

module _ (l u : Library) (same : SameUsers l u) where
  record_acty-SameUsers :
      (host : Ptr) (text : Text) (now : ℕ) → SameUsers l (record_acty u host text now)
  record_acty-SameUsers host text now =
      let user = u.users host in
      let entry : Acty = record { acty = text; timestamp = now } in
      let x : User = record user {
        activity = user.activity ++ (entry ∷ []);
        num_acty = count_up user.num_acty;
      } in
      SameUsers-books l (set_user u host x) (SameUsers-set_user l u same host x refl) _ refl refl
        refl

  pub add_user_acty-SameUsers :
      (memory : Bool) (date : Text) (now : ℕ) (host : Ptr) (filter : ActyFilter) (name : Text)
      → Holds (Kept l) (add_user_acty memory date now u host filter name)
  unfolding add_user_acty
  add_user_acty-SameUsers memory date now host filter name =
      Holds-read (Kept l) (acty_text date (u.users host).username filter name) _
        (λ text. Holds-if (Kept l) memory _ _ (record_acty-SameUsers host _ now) same)

  unfriend-SameUsers :
      (host : Ptr) (name : Text) (found : Option Ptr) → SameUsers l (unfriend u host name found).1
  unfriend-SameUsers host name none = same
  unfriend-SameUsers host name (some p) = SameUsers-set_user l u same host _ refl

  pub rm_friend-SameUsers : (host : Ptr) (name : Text) → SameUsers l (rm_friend u host name).1
  unfolding rm_friend
  rm_friend-SameUsers host name =
      unfriend-SameUsers host name (get_frd_info u.users (u.users host).friends name)

  pub set_book-SameUsers : (b : Ptr) (k : Book) → SameUsers l (set_book u b k)
  set_book-SameUsers b k = SameUsers-books l u same _ refl refl refl

  set_group-SameUsers : (b : Ptr) (group : Option ℕ) → SameUsers l (set_group u b group)
  set_group-SameUsers b none = same
  set_group-SameUsers b (some g) = set_book-SameUsers b _

  add_private-SameUsers : (owner b : Ptr) → Holds (SameUsers l) (add_private u owner b)
  unfolding add_private
  add_private-SameUsers owner b =
      Holds-read (SameUsers l) (own_list (u.users owner).num_books (u.users owner).books b) _
        (λ books. SameUsers-set_user l u same owner _ refl)

  behind_tail-SameUsers :
      (b : Ptr) (t : Tail) → u.book_tail ≡ t → Holds (SameUsers l) (behind_tail u b)
  behind_tail-SameUsers b attached e = rw e (SameUsers-books l u same _ refl refl refl)
  behind_tail-SameUsers b detached e = rw e (SameUsers-books l u same _ refl refl refl)
  behind_tail-SameUsers b freed e = rw e tt

  add_public-SameUsers : (b : Ptr) → Holds (SameUsers l) (add_public u b)
  unfolding add_public
  add_public-SameUsers b =
      Holds-step (SameUsers l) (SameUsers l)
        (if u.num_books == 0
          then some (record u { book_list = b ∷ []; book_tail = attached })
          else behind_tail u b)
        _
        (Holds-if (SameUsers l) (u.num_books == 0) _ _ (SameUsers-books l u same _ refl refl refl)
          (behind_tail-SameUsers b u.book_tail refl))
        (λ v kept. SameUsers-books l v kept _ refl refl refl)

reads_first-SameUsers {ℓ} :
    {A : Type ℓ} (l : Library) (ps : List Ptr) (m : Option (A × Library))
    → Holds (Kept l) m
    → Holds (Kept l) (reads_first ps m)
reads_first-SameUsers l [] m h = tt
reads_first-SameUsers l (p ∷ ps) m h = h

-- the friend that is added: its name stands only in the history
pub add_friend-SameUsers :
    (memory : Bool × Bool) (date : Text) (now : ℕ) (l u : Library) (host friend : Ptr)
    → SameUsers l u
    → Holds (Kept l) (add_friend memory date now u host friend)
unfolding add_friend
add_friend-SameUsers (node_memory, acty_memory) date now l u host friend same =
    Holds-if (Kept l) (not node_memory) _ _ same (
      Holds-if (Kept l) ((u.users host).num_frds == 0) _ _ (SameUsers-set_user l u same host _ refl)
        (reads_first-SameUsers l (u.users host).friends _ (
          Holds-if (Kept l) (is_friend u.users (u.users host).friends (u.users friend).username) _ _
            same
            (Holds-step (Kept l) (Kept l)
              (add_user_acty acty_memory date now (link_friend u host friend) host adding_frd
                (u.users friend).username)
              _
              (add_user_acty-SameUsers l (link_friend u host friend)
                (SameUsers-set_user l u same host _ refl) acty_memory date now host adding_frd
                (u.users friend).username)
              (λ r kept. kept)))))

module _ (l : Library) where
  shelve-SameUsers :
      (env : AddBook) (u : Library) (owner b : Ptr)
      → SameUsers l u
      → Holds (SameUsers l) (shelve env u owner b)
  unfolding shelve
  shelve-SameUsers env u owner b same =
      Holds-step (SameUsers l) (SameUsers l)
        (if env.private_memory then add_private u owner b else some u) _
        (Holds-if (SameUsers l) env.private_memory _ _ (add_private-SameUsers l u same owner b)
          same)
        (λ v kept.
          Holds-if (SameUsers l) env.public_memory _ _ (add_public-SameUsers l v kept b) kept)

  no_book_memory :
      (u : Library) (described : Bool) (group : Option ℕ)
      → SameUsers l u
      → Holds
          (Kept l)
          (elim group [ some g ↦ none | none ↦ if described then none else some (ok, u) ])
  no_book_memory u described none same = Holds-if (Kept l) described _ _ tt same
  no_book_memory u described (some g) same = tt

  add_new_book-SameUsers :
      (env : AddBook) (date : Text) (now : ℕ) (u : Library) (owner : Ptr) (name : Text)
      (group : Option ℕ)
      → SameUsers l u
      → Holds (Kept l) (
          add_user_acty env.acty_memory date now
            (set_book u env.address (new_book owner name))
            owner
            adding_book
            name
          >>= λ r.
              shelve env r.1 owner env.address >>= λ v. some (ok, set_group v env.address group))
  add_new_book-SameUsers env date now u owner name group same =
      Holds-step (Kept l) (Kept l)
        (add_user_acty env.acty_memory date now (set_book u env.address (new_book owner name)) owner
          adding_book name)
        _
        (add_user_acty-SameUsers l (set_book u env.address (new_book owner name))
          (set_book-SameUsers l u same env.address (new_book owner name)) env.acty_memory date now
          owner adding_book name)
        (λ r kept.
          Holds-step (Kept l) (SameUsers l) (shelve env r.1 owner env.address) _
            (shelve-SameUsers env r.1 owner env.address kept)
            (λ v kept'. set_group-SameUsers l v kept' env.address group))

  add_searched-SameUsers :
      (env : AddBook) (date : Text) (now : ℕ) (u : Library) (owner : Ptr) (name : Text)
      (described : Bool) (group : Option ℕ)
      → SameUsers l u
      → (found : Option Ptr)
      → Holds (Kept l) (elim found [
        | some b ↦ some (ok, set_group u b group)
        | none ↦
            if not env.book_memory
            then (elim group [ some g ↦ none | none ↦ if described then none else some (ok, u) ])
            else if not (ltb (length name) max_book_name_length)
            then none
            else (add_user_acty env.acty_memory date now
                  (set_book u env.address (new_book owner name))
                  owner
                  adding_book
                  name
                >>= λ r. shelve env r.1 owner env.address >>= λ v.
                    some (ok, set_group v env.address group))
      ])
  add_searched-SameUsers env date now u owner name described group same none =
      Holds-if (Kept l) (not env.book_memory) _ _ (no_book_memory u described group same) (
        Holds-if (Kept l) (not (ltb (length name) max_book_name_length)) _ _ tt
          (add_new_book-SameUsers env date now u owner name group same))
  add_searched-SameUsers env date now u owner name described group same (some b) =
      set_group-SameUsers l u same b group

  pub add_book-SameUsers :
      (env : AddBook) (date : Text) (now : ℕ) (u : Library) (owner : Ptr) (name : Text)
      (described : Bool) (group : Option ℕ)
      → SameUsers l u
      → Holds (Kept l) (add_book env date now u owner name described group)
  unfolding add_book
  add_book-SameUsers env date now u owner name described group same =
      Holds-read (Kept l) (get_book_by_name u none name) _
        (add_searched-SameUsers env date now u owner name described group same)

  take_from-SameUsers :
      (u : Library) (host : Ptr) (name : Text) (found : Option Ptr)
      → SameUsers l u
      → Holds (Kept l) (take_from u host name found)
  take_from-SameUsers u host name none same = same
  take_from-SameUsers u host name (some b) same =
      Holds-if (Kept l) (one_less (u.books b).count_collected == 0) _ _ tt
        (SameUsers-set_user l (set_book u b _) (set_book-SameUsers l u same b _) host _ refl)

  pub rm_book-SameUsers :
      (u : Library) (host : Ptr) (name : Text)
      → SameUsers l u
      → Holds (Kept l) (rm_book u host name)
  unfolding rm_book
  rm_book-SameUsers u host name same =
      Holds-read (Kept l) (get_book_by_name u (some host) name) _
        (λ found. take_from-SameUsers u host name found same)

  pub buy_book-SameUsers :
      (memory : Bool × Bool) (date : Text) (now : ℕ) (u : Library) (host b : Ptr)
      → SameUsers l u
      → Holds (Kept l) (buy_book memory date now u host b)
  unfolding buy_book
  buy_book-SameUsers (record_memory, acty_memory) date now u host b same =
      Holds-read (Kept l) (u.books b).owner _ (λ o.
        Holds-if (Kept l) (starts_with (u.users o).username (u.users host).username) _ _ same (
          Holds-if (Kept l) (not record_memory) _ _ (set_book-SameUsers l u same b _) (
            add_user_acty-SameUsers l (set_book u b _) (set_book-SameUsers l u same b _) acty_memory
              date now host by_buy (u.books b).name)))
