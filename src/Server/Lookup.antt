-- ===== src/Server/Lookup.antt =====
-- eLibrary/src/server/eLibrary_server_handler.c: `getBookInfo` and `mergeActy`, through which the
-- commands ask for books and for the activities of friends.
use morning_projects.Common.{
  ℕ, zero, suc, Bool, true, false, Option, none, some, List, [], ◌∷◌, ◌>>=◌,
}
use morning_projects.Server.{Ptr, Status, ok, fail, Acty, User, Library}
use morning_projects.Server.Bytes.{Text}
use morning_projects.Server.Books.{get_book_by_name}

-- `BOOK_FILTER`; a filter by user has a pointer to it
pub data BookFilter : Type 0 where
  by_book_name : Text → BookFilter
  by_user : Ptr → BookFilter
  other_filter : BookFilter

-- `SORT_METHOD`
pub data SortMethod : Type 0 where
  by_date by_alfa by_group sort_undef : SortMethod

-- What `getBookInfo` leaves: its status, `*numBooks`, and `*books` as the nodes that can be reached, with
-- the books they point to. `none` is not written.
pub record BooksFound : Type 0 where
  pub status : Status
  pub num_books : Option ℕ
  pub books : Option (List (Option Ptr))

-- the block that `memset` has cleared: its first node has neither book nor next
abbrev pub cleared_block : ℕ → List (Option Ptr)
cleared_block zero = []
cleared_block (suc n) = none ∷ []

-- the three sorts, whose bodies are empty
abbrev pub sorted_block : SortMethod → ℕ → BooksFound
sorted_block sort_undef n = record {
  status = fail;
  num_books = some n;
  books = some (cleared_block n);
}
sorted_block _ n = record { status = ok; num_books = some n; books = some (cleared_block n) }

abbrev pub single_book : Bool → Option Ptr → BooksFound
single_book memory none = record { status = ok; num_books = some 0; books = none }
single_book true (some b) = record { status = ok; num_books = some 1; books = some (some b ∷ []) }
single_book false (some b) = record { status = fail; num_books = some 1; books = some [] }

-- `getBookInfo`: `memory` says whether the nodes are allocated
abbrev pub get_book_info : Bool → Library → BookFilter → SortMethod → Option BooksFound
get_book_info memory l (by_book_name name) sort =
    get_book_by_name l none name >>= λ found. some (single_book memory found)
get_book_info true l (by_user p) sort = some (sorted_block sort (l.users p).num_books)
get_book_info false l (by_user p) sort =
    some (record { status = fail; num_books = some (l.users p).num_books; books = some [] })
get_book_info memory l other_filter sort =
    some (record { status = fail; num_books = none; books = none })

-- `books->book`, where a pointer that was not written, or NULL, cannot be read through
abbrev pub head_book : Option (List (Option Ptr)) → Option Ptr
head_book none = none
head_book (some []) = none
head_book (some (b ∷ bs)) = b

-- The loops of `mergeActy` over `count` activities of a friend. Behind the first copy that is
-- allocated, the next node is read through NULL.
abbrev pub merge_from : List Bool → Status → ℕ → List Acty → Option Status
merge_from memory s zero acts = some s
merge_from memory s (suc n) [] = none
merge_from [] s (suc n) (a ∷ acts) = merge_from [] fail n acts
merge_from (true ∷ memory) s (suc n) (a ∷ acts) = none
merge_from (false ∷ memory) s (suc n) (a ∷ acts) = merge_from memory fail n acts

-- `mergeActy`: the list of friends is read as an array, of which only the first node is one's own.
-- `memory` says of each copy in turn whether it is allocated.
abbrev pub merge_friends : List Bool → (Ptr → User) → ℕ → List Ptr → Option Status
merge_friends memory users zero ps = some ok
merge_friends memory users (suc n) [] = none
merge_friends memory users (suc zero) (p ∷ ps) =
    merge_from memory ok (users p).num_acty (users p).activity
merge_friends memory users (suc (suc n)) (p ∷ ps) = none

abbrev pub merge_acty : List Bool → Library → User → Option Status
merge_acty memory l host = merge_friends memory l.users host.num_frds host.friends
