-- ===== src/Server/Books/Shelf.antt =====
-- eLibrary/src/server/eLibrary_server_handler.c: what `addBook` makes of the lists of books.
use morning_projects.Common.{ℕ, ◌-◌, ◌≡◌, true, List, [], ◌∷◌, ◌++◌, length}
use morning_projects.Server.{Ptr, Book, attached, Library, count_up, set_user, set_book}
use morning_projects.Server.Bytes.{Text, take}
use morning_projects.Server.Names.{FoundByName}
use morning_projects.Server.Activities.{
  record_acty, max_acty_length, space_text, added_text, quoted_end_text,
}
use morning_projects.Server.Books.{AddBook, new_book}

-- the names of the books
abbrev booknames : (Ptr → Book) → Ptr → Text
booknames books p = (books p).name

-- The books of the whole library are counted, its tail is the last of the list, and each is found
-- under its name.
pub record IsShelf (l : Library) : Type 0 where
  pub counted : l.num_books ≡ length l.book_list
  pub tail : l.book_tail ≡ attached
  pub found : FoundByName (booknames l.books) l.book_list l.book_list

-- the list of the whole library with the book
abbrev listed_with : Library → Ptr → Library
listed_with l b = record l {
  book_list = l.book_list ++ (b ∷ []);
  book_tail = attached;
  num_books = count_up l.num_books;
}

-- memory for all, at this address
abbrev pub all_memory : Ptr → AddBook
all_memory address = record {
  book_memory = true;
  acty_memory = true;
  private_memory = true;
  public_memory = true;
  address = address;
}

-- the list of the owner with the book
abbrev owned : Library → Ptr → List Ptr → Library
owned l owner own =
    set_user l owner
      (record (l.users owner) { books = own; num_books = count_up (l.users owner).num_books })

module _ (l : Library) (owner : Ptr) (name date : Text) (a now : ℕ) (own : List Ptr) where
  -- the book, and the entry in the owner's history
  abbrev entered : Library
  entered =
      record_acty (set_book l a (new_book owner name)) owner
        (take (max_acty_length - 1) (
          date
          ++ (space_text
              ++ ((l.users owner).username ++ (added_text ++ (name ++ quoted_end_text))))))
        now

  abbrev shelved : Library
  shelved = listed_with (owned entered owner own) a
