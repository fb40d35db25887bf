-- ===== src/Server/Books/History.antt =====
-- eLibrary/src/server/eLibrary_server_handler.c: the records that `wowBook` and `buyBook` keep, and
-- what `getBookHty` counts.
use morning_projects.Common.{
  ℕ, ◌+◌, ◌-◌, ◌≡◌, Bool, true, false, Option, some, ◌++◌, ◌==◌, if◌then◌else◌, length,
}
use morning_projects.Server.{Ptr, Status, ok, fail, Book, Library}
use morning_projects.Server.Bytes.{Text, take, starts_with}
use morning_projects.Server.Activities.{
  ActyFilter, get_book_hty, max_acty_length, space_text, quoted_end_text,
}

-- The counters of a book are the numbers of its records.
pub record IsKept (k : Book) : Type 0 where
  pub wows : k.num_wow ≡ length k.who_wowed
  pub buys : k.num_buy ≡ length k.who_buyed

abbrev answer : ℕ → ℕ → Status × Option ℕ
answer counter counted = if counter == counted then (ok, some counter) else (fail, some 0)

-- what `wowBook` or `buyBook` does with a book that it takes for another user's: with memory a record and the count,
-- without memory a count that no history has
abbrev pub KeepsRecord :
    (Bool × Bool → Text → ℕ → Library → Ptr → Ptr → Option (Status × Library))
    → ActyFilter
    → (Book → ℕ)
    → ℕ
    → Library
    → Ptr
    → Ptr
    → Text
    → ℕ
    → Type 0
KeepsRecord act filter count memory l host b date now =
    ((u : Library) × (act (true, true) date now l host b ≡ some (ok, u))
      × IsKept (u.books b)
      × (get_book_hty memory (u.books b) filter ≡ (ok, some (count (l.books b) + 1))))
    × ((u : Library) × (act (false, true) date now l host b ≡ some (fail, u))
        × (get_book_hty memory (u.books b) filter ≡ (fail, some 0)))

module _ (memory : ℕ) (l : Library) (host b o : Ptr) (date : Text) (now : ℕ)
    (owned : (l.books b).owner ≡ some o)
    (other : starts_with (l.users o).username (l.users host).username ≡ false)
    (kept : IsKept (l.books b)) where
  abbrev name : Text
  name = (l.users host).username

  -- the text of the entry in the host's history
  abbrev entry : Text → Text
  entry verb =
      take (max_acty_length - 1)
        (date ++ (space_text ++ (name ++ (verb ++ ((l.books b).name ++ quoted_end_text)))))
