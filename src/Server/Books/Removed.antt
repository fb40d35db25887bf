-- ===== src/Server/Books/Removed.antt =====
-- eLibrary/src/server/eLibrary_server_handler.c: what `rmBook` leaves of a book.
use morning_projects.Common.{
  ℕ, ◌≡◌, refl, Bool, false, none, some, List, [], ◌∷◌, ◌==◌, if◌then◌else◌, ap,
}
use morning_projects.Server.{Ptr, ok, User, Book, Library, write_self, write_named}
use morning_projects.Server.Bytes.{Text}
use morning_projects.Server.Books.{
  find_book, get_book_by_name, one_less, disown, take_from, rm_book, wow_book, buy_book,
}

module _ (users users' : Ptr → User) (books books' : Ptr → Book)
    (same : (p : Ptr) → (books' p).name ≡ (books p).name) where
  pub find_book_same :
      (ps : List Ptr) (name : Text)
      → find_book users' books' ps none name ≡ find_book users books ps none name
  find_book_same [] name = refl
  find_book_same (p ∷ ps) name = rw (same p, find_book_same ps name) refl

module _ (l : Library) (b : Ptr) (gone : (l.books b).owner ≡ none) (memory : Bool × Bool)
    (date : Text) (now : ℕ) (host : Ptr) where
  wow_book_gone : wow_book memory date now l host b ≡ none
  unfolding wow_book
  wow_book_gone = rw gone refl

  buy_book_gone : buy_book memory date now l host b ≡ none
  unfolding buy_book
  buy_book_gone = rw gone refl

not_freed :
    (l : Library) (host : Ptr) (name : Text) (b : Ptr)
    → (l.books b).count_collected ≡ 0
    → take_from l host name (some b) ≡ some (ok, disown l host name b)
not_freed l host name b zero_yet =
    let counts : (one_less (l.books b).count_collected == 0) ≡ false = rw zero_yet refl in
    ap (λ c. if c then none else some (ok, disown l host name b)) counts

-- When the host owns a book of the name whose count of collectors is 0, as it is after `addBook`,
-- `rmBook` succeeds, but the book stays in the list of the whole library, where it is found as before,
-- and from then on `wowBook` and `buyBook` of it read through its owner, NULL, whoever calls them.
-- When the host owns none, `rmBook` says that it succeeds, and changes nothing.
pub rm_book_lem :
    (l : Library) (host : Ptr) (name : Text)
    → (get_book_by_name l (some host) name ≡ some none → rm_book l host name ≡ some (ok, l))
      × ((b : Ptr)
          → get_book_by_name l (some host) name ≡ some (some b)
          → (l.books b).count_collected ≡ 0
          → (u : Library) × (rm_book l host name ≡ some (ok, u))
            × (u.book_list ≡ l.book_list)
            × ((other : Text) → get_book_by_name u none other ≡ get_book_by_name l none other)
            × ((memory : Bool × Bool) (date : Text) (now : ℕ) (guest : Ptr)
                → (wow_book memory date now u guest b ≡ none)
                  × (buy_book memory date now u guest b ≡ none)))
unfolding rm_book
rm_book_lem l host name = (
  λ e. rw e refl,
  λ b e zero_yet.
      let u = disown l host name b in
      let gone : (u.books b).owner ≡ none = ap (λ k. k.owner) (write_self l.books b _) in
      (
        u,
        rw e (not_freed l host name b zero_yet),
        refl,
        λ other.
            find_book_same l.users u.users l.books u.books
              (write_named (λ k. k.name) l.books b _ refl) l.book_list other,
        λ memory date now guest. (
          wow_book_gone u b gone memory date now guest,
          buy_book_gone u b gone memory date now guest,
        ),
      ),
)
