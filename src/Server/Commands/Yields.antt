-- ===== src/Server/Commands/Yields.antt =====
-- eLibrary/src/client/eLibrary_client_parse.c: what a step that may fault makes of the library, and
-- the libraries with the users of another one.
use morning_projects.Common.{
  Bool, true, false, Option, none, some, if◌then◌else◌, ◌>>=◌, ◌≡◌, refl, ◌∙◌,
}
use morning_projects.Server.{Ptr, User, Library, set_user, write_named}

-- what the step leaves, if anything, satisfies the predicate
abbrev pub Holds {ℓ κ} : {A : Type ℓ} → (A → Type κ) → Option A → Type κ
Holds P none = Unit
Holds P (some a) = P a

module _ {ℓ κ} {A : Type ℓ} (P : A → Type κ) where
  pub Holds-step {μ ν} :
      {B : Type μ} (Q : B → Type ν) (m : Option B) (f : B → Option A)
      → Holds Q m
      → ((b : B) → Q b → Holds P (f b))
      → Holds P (m >>= f)
  Holds-step Q none f h k = tt
  Holds-step Q (some b) f h k = k b h

  pub Holds-read {μ} :
      {B : Type μ} (m : Option B) (f : B → Option A) → ((b : B) → Holds P (f b)) → Holds P (m >>= f)
  Holds-read none f k = tt
  Holds-read (some b) f k = k b

  pub Holds-if : (b : Bool) (m n : Option A) → Holds P m → Holds P n → Holds P (if b then m else n)
  Holds-if true m n h k = h
  Holds-if false m n h k = k

  -- each branch may use how the test came out
  pub Holds-test :
      (b : Bool) (m n : Option A)
      → (b ≡ true → Holds P m)
      → (b ≡ false → Holds P n)
      → Holds P (if b then m else n)
  Holds-test true m n h k = h refl
  Holds-test false m n h k = k refl

  pub Holds-imp {μ} :
      (Q : A → Type μ) (m : Option A) → Holds P m → ((a : A) → P a → Q a) → Holds Q m
  Holds-imp Q none h f = tt
  Holds-imp Q (some a) h f = f a h

-- `u` lists the users of `l`, under the same names
pub record SameUsers (l u : Library) : Type 0 where
  pub listed : u.listed ≡ l.listed
  pub num_users : u.num_users ≡ l.num_users
  pub names : (p : Ptr) → (u.users p).username ≡ (l.users p).username

-- and so does the library that a step leaves with its result
abbrev pub Kept {ℓ} : {A : Type ℓ} → Library → A × Library → Type 0
Kept l r = SameUsers l r.1

pub SameUsers-refl : (l : Library) → SameUsers l l
SameUsers-refl l = record { listed = refl; num_users = refl; names = λ p. refl }

module _ (l u : Library) (same : SameUsers l u) where
  pub SameUsers-set_user :
      (p : Ptr) (x : User) → x.username ≡ (u.users p).username → SameUsers l (set_user u p x)
  SameUsers-set_user p x e = record {
    listed = same.listed;
    num_users = same.num_users;
    names = λ q. write_named (λ y. y.username) u.users p x e q ∙ same.names q;
  }

  pub SameUsers-trans : (v : Library) → SameUsers u v → SameUsers l v
  SameUsers-trans v next = record {
    listed = next.listed ∙ same.listed;
    num_users = next.num_users ∙ same.num_users;
    names = λ p. next.names p ∙ same.names p;
  }

  -- what stands in the books and the histories of the library is not looked at
  pub SameUsers-books :
      (v : Library)
      → v.listed ≡ u.listed
      → v.num_users ≡ u.num_users
      → v.users ≡ u.users
      → SameUsers l v
  SameUsers-books v listed num_users users = record {
    listed = listed ∙ same.listed;
    num_users = num_users ∙ same.num_users;
    names = λ p. rw users (same.names p);
  }
