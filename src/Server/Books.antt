-- ===== src/Server/Books.antt =====
-- eLibrary/src/server/eLibrary_server_handler.c: the books, `getBookByName`, `addBook`, `rmBook`,
-- `detechBookNode`, `wowBook` and `buyBook`.
pub mod Shelf
pub mod Removed
pub mod History
use morning_projects.Common.{
  ℕ, ◌+◌, ◌-◌, ◌%◌, ◌^◌, Bool, true, false, not, Option, none, some, List, [], ◌∷◌, ◌++◌, ◌==◌,
  if◌then◌else◌, ltb, ◌>>=◌, length,
}
use morning_projects.Server.{
  Ptr, Status, ok, fail, User, Book, Tail, attached, detached, freed, Library, write, set_user,
  set_book, count_up, max_book_name_length,
}
use morning_projects.Server.Bytes.{Text, starts_with}
use morning_projects.Server.Activities.{add_user_acty, adding_book, by_wow, by_buy}

-- The loop of `getBookByName`. With a host it stops at a book whose owner's name does not begin
-- with the host's, and reads the owner, which is NULL after `rmBook`.
abbrev pub find_book :
    (Ptr → User) → (Ptr → Book) → List Ptr → Option Ptr → Text → Option (Option Ptr)
find_book users books [] host name = some none
find_book users books (p ∷ ps) none name =
    if starts_with (books p).name name then some (some p) else find_book users books ps none name
find_book users books (p ∷ ps) (some h) name =
    let rest = find_book users books ps (some h) name in
    (books p).owner >>= λ o.
    if starts_with (users o).username (users h).username
    then (if starts_with (books p).name name then some (some p) else rest)
    else some none

-- `getBookByName`; the host `none` stands for NULL, and the books of the whole library
abbrev pub get_book_by_name : Library → Option Ptr → Text → Option (Option Ptr)
get_book_by_name l none name = find_book l.users l.books l.book_list none name
get_book_by_name l (some h) name = find_book l.users l.books (l.users h).books (some h) name

-- What `addBook` meets: whether each `malloc` gives memory, and where the new book lies.
pub record AddBook : Type 0 where
  pub book_memory : Bool
  pub acty_memory : Bool
  pub private_memory : Bool
  pub public_memory : Bool
  pub address : Ptr

abbrev pub new_book : Ptr → Text → Book
new_book owner name = record {
  name = name;
  desp = [];
  group = 0;
  owner = some owner;
  num_wow = 0;
  who_wowed = [];
  num_buy = 0;
  who_buyed = [];
  count_collected = 0;
}

-- the node in the owner's list: behind the first one, whose other followers it replaces
abbrev pub behind_first : List Ptr → Ptr → Option (List Ptr)
behind_first [] b = none
behind_first (p ∷ ps) b = some (p ∷ b ∷ [])

abbrev pub own_list : ℕ → List Ptr → Ptr → Option (List Ptr)
own_list num_books books b = if num_books == 0 then some (b ∷ []) else behind_first books b

unfoldable pub add_private : Library → Ptr → Ptr → Option Library
add_private l owner b =
    let u = l.users owner in
    own_list u.num_books u.books b >>= λ books.
    some (set_user l owner (record u { books = books; num_books = count_up u.num_books }))

-- the node behind the last one of the whole library
abbrev pub behind_tail : Library → Ptr → Option Library
behind_tail l b = elim l.book_tail [
  | attached ↦ some (record l { book_list = l.book_list ++ (b ∷ []) })
  | detached ↦ some l
  | freed ↦ none
]

unfoldable pub add_public : Library → Ptr → Option Library
add_public l b =
    (if l.num_books == 0
      then some (record l { book_list = b ∷ []; book_tail = attached })
      else behind_tail l b)
    >>= λ u. some (record u { num_books = count_up u.num_books })

-- the group, unless it is undefined; the description is compared and not copied
abbrev pub set_group : Library → Ptr → Option ℕ → Library
set_group l b none = l
set_group l b (some g) = set_book l b (record (l.books b) { group = g })

-- the lists that `addBook` puts a new book into, as memory lasts
unfoldable pub shelve : AddBook → Library → Ptr → Ptr → Option Library
unfolding add_private add_public
shelve env l owner b = (if env.private_memory then add_private l owner b else some l) >>= λ u.
    if env.public_memory then add_public u b else some u

-- `addBook` with an owner and a name: `group` is `none` for `book_group_undef`, and `described` says
-- whether there is a description. Without memory for the book, either of them reads through NULL.
unfoldable pub add_book :
    AddBook → Text → ℕ → Library → Ptr → Text → Bool → Option ℕ → Option (Status × Library)
unfolding add_user_acty shelve
add_book env date now l owner name described group = get_book_by_name l none name >>= λ found.
    elim found [
      | some b ↦ some (ok, set_group l b group)
      | none ↦
          if not env.book_memory
          then (elim group [ some g ↦ none | none ↦ if described then none else some (ok, l) ])
          else if not (ltb (length name) max_book_name_length)
          then none
          else (add_user_acty env.acty_memory date now
                (set_book l env.address (new_book owner name)) owner adding_book name
              >>= λ r. shelve env r.1 owner env.address >>= λ u.
                  some (ok, set_group u env.address group))
    ]

-- `detechBookNode`: the list it leaves. The first node takes the whole list with it.
abbrev pub detach_book_behind : (Ptr → Book) → List Ptr → Text → List Ptr
detach_book_behind books [] name = []
detach_book_behind books (p ∷ ps) name =
    if starts_with (books p).name name then ps else p ∷ detach_book_behind books ps name

abbrev pub detach_book_node : (Ptr → Book) → List Ptr → Text → List Ptr
detach_book_node books [] name = []
detach_book_node books (p ∷ ps) name =
    if starts_with (books p).name name then [] else p ∷ detach_book_behind books ps name

-- `--bookFound->countCollected`
abbrev pub one_less : ℕ → ℕ
one_less n = (n + 2 ^ 32 - 1) % 2 ^ 32

-- the book without owner, and out of the host's list
abbrev pub disown : Library → Ptr → Text → Ptr → Library
disown l host name b =
    let u = l.users host in
    let left = set_book l b (record (l.books b) {
      count_collected = one_less (l.books b).count_collected;
      owner = none;
    }) in
    set_user left host (record u {
      books = detach_book_node left.books u.books name;
      num_books = one_less u.num_books;
    })

-- `rmBook` after its search. At a count of 0 the book is freed, and read again in the host's list.
abbrev pub take_from : Library → Ptr → Text → Option Ptr → Option (Status × Library)
take_from l host name none = some (ok, l)
take_from l host name (some b) =
    if one_less (l.books b).count_collected == 0 then none else some (ok, disown l host name b)

-- `rmBook` with a host and a name
unfoldable pub rm_book : Library → Ptr → Text → Option (Status × Library)
rm_book l host name = get_book_by_name l (some host) name >>= λ found. take_from l host name found

-- the record of a user, before the others
abbrev pub wowed : Book → Text → Book
wowed k name = record k { num_wow = count_up k.num_wow; who_wowed = name ∷ k.who_wowed }

abbrev pub bought : Book → Text → Book
bought k name = record k { num_buy = count_up k.num_buy; who_buyed = name ∷ k.who_buyed }

-- `wowBook`: `memory` for the record and for the entry in the host's history
unfoldable pub wow_book : Bool × Bool → Text → ℕ → Library → Ptr → Ptr → Option (Status × Library)
unfolding add_user_acty
wow_book (record_memory, acty_memory) date now l host b =
    let k = l.books b in
    let name = (l.users host).username in
    k.owner >>= λ o.
    if starts_with (l.users o).username name
    then some (fail, l)
    else if not record_memory
    then some (fail, set_book l b (record k { num_wow = count_up k.num_wow }))
    else add_user_acty acty_memory date now (set_book l b (wowed k name)) host by_wow k.name

-- `buyBook`, with the same `memory`
unfoldable pub buy_book : Bool × Bool → Text → ℕ → Library → Ptr → Ptr → Option (Status × Library)
unfolding add_user_acty
buy_book (record_memory, acty_memory) date now l host b =
    let k = l.books b in
    let name = (l.users host).username in
    k.owner >>= λ o.
    if starts_with (l.users o).username name
    then some (fail, l)
    else if not record_memory
    then some (fail, set_book l b (record k { num_buy = count_up k.num_buy }))
    else add_user_acty acty_memory date now (set_book l b (bought k name)) host by_buy k.name
