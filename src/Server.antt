-- ===== src/Server.antt =====
-- eLibrary/src/server/eLibrary_server_handler.c and inc/eLibrary_serverTypes.h: what the handlers
-- of the library server keep. A pointer to a `USER_INFO` or a `BOOK_INFO` is a number that the
-- stores `users` and `books` take to the object, so that lists which share an object see the same
-- one; the nodes of the lists, which nothing shares, are lists of such numbers. A text is the list of
-- its bytes before the terminator. `none` is a fault: an access through NULL, to freed memory, past
-- the end of a buffer, or to memory that was never written. What diagnostics
-- print is left out.
pub mod Bytes
pub mod Names
pub mod Messages
pub mod Activities
pub mod Users
pub mod Friends
pub mod Books
pub mod Maps
pub mod Brief
pub mod Commands
pub mod Lookup
pub mod Receiver
pub mod Tests
use Bytes.{Text}
use morning_projects.Common.{
  ℕ, ◌+◌, ◌%◌, ◌^◌, ◌<◌, Bool, true, false, Option, none, some, List, [], ◌∷◌, ◌==◌, if◌then◌else◌,
  ◌≡◌, refl, arith, Bool-cases, inl, inr,
}

abbrev pub Ptr : Type 0
Ptr = ℕ

pub data Status : Type 0 where
  ok fail invalid_param : Status

-- `MSG_DIRECTION`, of which the code names two
pub data Direction : Type 0 where
  receipt_in receipt_out undef : Direction

-- `struct msgContext`
pub record Msg : Type 0 where
  pub io : Direction
  pub unread : Bool
  pub datetime : ℕ
  pub msg : Text

-- `struct msgList`
pub record Contact : Type 0 where
  pub contact : Text
  pub num_msg : ℕ
  pub num_unread : ℕ
  pub contexts : List Msg

-- `MSG_BOX`
pub record MsgBox : Type 0 where
  pub num_msg : ℕ
  pub num_unread : ℕ
  pub msgs : List Contact

-- `struct actyList`
pub record Acty : Type 0 where
  pub acty : Text
  pub timestamp : ℕ

-- `USER_INFO`, with the fields that these handlers use: the header declares none of them but `msgBox`, so
-- their sizes are those that the handlers copy into them
pub record User : Type 0 where
  pub username : Text
  pub email : Text
  pub friends : List Ptr
  pub num_frds : ℕ
  pub books : List Ptr
  pub num_books : ℕ
  pub activity : List Acty
  pub num_acty : ℕ
  pub msg_box : MsgBox

-- `BOOK_INFO`; `owner` is NULL after `rmBook`
pub record Book : Type 0 where
  pub name : Text
  pub desp : Text
  pub group : ℕ
  pub owner : Option Ptr
  pub num_wow : ℕ
  pub who_wowed : List Text
  pub num_buy : ℕ
  pub who_buyed : List Text
  pub count_collected : ℕ

-- a `uint32_t` counter
abbrev pub count_up : ℕ → ℕ
count_up n = (n + 1) % 2 ^ 32

pub count-length : (n k : ℕ) → n ≡ k → n + 1 < 2 ^ 32 → count_up n ≡ k + 1
count-length n k e small = omega arith

-- MAX_NAME_LENGTH, MAX_MSG_LENGTH, MAX_BOOK_NAME_LENGTH
abbrev pub max_name_length : ℕ
max_name_length = 10

abbrev pub max_msg_length : ℕ
max_msg_length = 30

abbrev pub max_book_name_length : ℕ
max_book_name_length = 30

-- What `g_bookTotal.tail` points to: the last node of the list from `head`; a node that is in no
-- list any more but was not freed; or a freed node.
pub data Tail : Type 0 where
  attached detached freed : Tail

-- The globals: `g_userData` with the list of its users, `g_bookTotal` with the list of its books and
-- the slot of `activities` that is written, and the objects. Users are only added at the end, so
-- `listTail` is the end of the list.
pub record Library : Type 0 where
  pub users : Ptr → User
  pub listed : List Ptr
  pub num_users : ℕ
  pub books : Ptr → Book
  pub book_list : List Ptr
  pub book_tail : Tail
  pub num_books : ℕ
  pub recent : Text

-- an object is written
abbrev pub write {ℓ} : {A : Type ℓ} → (Ptr → A) → Ptr → A → Ptr → A
write store p x q = if q == p then x else store q

pub write_self {ℓ} : {A : Type ℓ} (store : Ptr → A) (p : Ptr) (x : A) → write store p x p ≡ x
write_self store p x = ground arith

pub write_apart {ℓ} :
    {A : Type ℓ} (store : Ptr → A) (p : Ptr) (x : A) (q : Ptr)
    → (q == p) ≡ false
    → write store p x q ≡ store q
write_apart store p x q e = rw e refl

same_address : (p q : ℕ) → (p == q) ≡ true → p ≡ q
same_address p q e = ground arith

-- an object is written under the same name
pub write_named {ℓ} :
    {A : Type ℓ} (name : A → Text) (store : Ptr → A) (p : Ptr) (x : A)
    → name x ≡ name (store p)
    → (q : Ptr) → name (write store p x q) ≡ name (store q)
write_named name store p x e q = elim (Bool-cases (q == p)) [
  | inl is ↦ rw (is, same_address q p is) e
  | inr off ↦ rw off refl
]

abbrev pub set_user : Library → Ptr → User → Library
set_user l p u = record l { users = write l.users p u }

abbrev pub set_book : Library → Ptr → Book → Library
set_book l p b = record l { books = write l.books p b }
