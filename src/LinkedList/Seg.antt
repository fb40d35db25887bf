-- ===== src/LinkedList/Seg.antt =====
-- Doubly linked segments of the list of linkit.c, and what a write to an end of one does.
use morning_projects.Common.{
  ℕ, ◌≡◌, ◌≢◌, refl, sym, Bool, true, false, ◌||◌, Option, none, some, List, [], ◌∷◌, ◌++◌, ◌==◌,
  arith, Bool-cases, inl, inr,
}
use morning_projects.LinkedList.{Ptr, null, Cell, cell, Heap, write, load, set_prev, set_next}

-- address and datum of each node, in order
abbrev pub Nodes : Type 0
Nodes = List (Ptr × ℕ)

abbrev pub has : Ptr → Nodes → Bool
has a [] = false
has a ((p, v) ∷ xs) = (a == p) || has a xs

-- Between the nodes `before` and `after` lie `xs`, from `first` to `last`; of no nodes, `first` is
-- `after` and `last` is `before`.
abbrev pub Seg : Heap → Ptr → Ptr → Nodes → Ptr → Ptr → Type 0
Seg h before first [] last after = (first ≡ after) × (last ≡ before)
Seg h before first ((p, v) ∷ xs) last after =
    (first ≡ p)
    × (p ≢ null)
    × (has p xs ≡ false)
    × (q : Ptr) × (h p ≡ some (cell before q v))
    × Seg h p q xs last after

abbrev pub Disjoint : Nodes → Nodes → Type 0
Disjoint xs ys = (a : Ptr) → has a xs ≡ true → has a ys ≡ false

pub has-append : (a : Ptr) (xs ys : Nodes) → has a (xs ++ ys) ≡ (has a xs || has a ys)
has-append a [] ys = refl
has-append a ((p, v) ∷ xs) ys = ground (arith, has-append a xs ys)

-- a segment stays one under a change elsewhere
pub frame :
    (h g : Heap) (b f : Ptr) (xs : Nodes) (l a : Ptr)
    → Seg h b f xs l a
    → ((p : Ptr) → has p xs ≡ true → g p ≡ h p)
    → Seg g b f xs l a
frame h g b f [] l a s same = s
frame h g b f ((p, v) ∷ xs) l a (e, nonnull, out, q, holds, rest) same = (
  e,
  nonnull,
  out,
  q,
  ground (arith, same p),
  frame h g p q xs l a rest λ r i. same r (ground arith),
)

-- so a write to none of its nodes
pub frame-write :
    (h : Heap) (b f : Ptr) (xs : Nodes) (l a p : Ptr) (c : Option Cell)
    → Seg h b f xs l a
    → has p xs ≡ false
    → Seg (write h p c) b f xs l a
frame-write h b f xs l a p c s out = frame h (write h p c) b f xs l a s λ r i. ground arith

-- what a node's address reads
pub load-holds : (h : Heap) (p : Ptr) {c : Cell} → p ≢ null → h p ≡ some c → load h p ≡ some c
load-holds h p nonnull holds = ground arith

pub load-write :
    (h : Heap) (p r : Ptr) {c : Cell} (d : Option Cell)
    → load h p ≡ some c
    → (p == r) ≡ false
    → load (write h r d) p ≡ some c
load-write h p r d loaded apart = ground arith

pub join :
    (h : Heap) (b f : Ptr) (xs : Nodes) (m n : Ptr) (ys : Nodes) (l a : Ptr)
    → Seg h b f xs m n
    → Seg h m n ys l a
    → Disjoint xs ys
    → Seg h b f (xs ++ ys) l a
join h b f [] m n ys l a (e, e') t apart = rw (e, sym e') t
join h b f ((p, v) ∷ xs) m n ys l a (e, nonnull, out, q, holds, rest) t apart = (
  e,
  nonnull,
  ground (arith, has-append p xs ys, apart p),
  q,
  holds,
  join h p q xs m n ys l a rest t λ r i. apart r (ground arith),
)

-- a segment of a list falls into two, and the parts share no node
pub split :
    (h : Heap) (b f : Ptr) (xs ys : Nodes) (l a : Ptr)
    → Seg h b f (xs ++ ys) l a
    → (m : Ptr) × (n : Ptr) × Seg h b f xs m n × Seg h m n ys l a × Disjoint xs ys
split h b f [] ys l a s = (b, f, (refl, refl), s, λ r i. ground arith)
split h b f ((p, v) ∷ xs) ys l a (e, nonnull, out, q, holds, rest) =
    let (m, n, s, t, apart) = split h p q xs ys l a rest in
    (
      m,
      n,
      (e, nonnull, ground (arith, has-append p xs ys), q, holds, s),
      t,
      λ r i. ground (arith, has-append p xs ys, apart r),
    )

-- The last node of a segment that has one is no NULL and one of its nodes.
pub has-last :
    (h : Heap) (b f p : Ptr) (v : ℕ) (xs : Nodes) (l a : Ptr)
    → Seg h b f ((p, v) ∷ xs) l a
    → (l ≢ null) × (has l ((p, v) ∷ xs) ≡ true)
has-last h b f p v [] l a (e, nonnull, out, q, holds, (e1, e2)) = (ground arith, ground arith)
has-last h b f p v ((r, w) ∷ xs) l a (e, nonnull, out, q, holds, rest) =
    let (nn, i) = has-last h p q r w xs l a rest in (nn, ground arith)

-- The node before a segment's first is changed by a write to the `prev` of the first.
pub relink_first :
    (h : Heap) (b f p : Ptr) (v : ℕ) (xs : Nodes) (l a b' : Ptr)
    → Seg h b f ((p, v) ∷ xs) l a
    → (q : Ptr) × (set_prev h f b' ≡ some (write h f (some (cell b' q v))))
      × Seg (write h f (some (cell b' q v))) b' f ((p, v) ∷ xs) l a
relink_first h b f p v xs l a b' (e, nonnull, out, q, holds, rest) = (
  q,
  ground arith,
  (
    e,
    nonnull,
    out,
    q,
    ground arith,
    frame h (write h f (some (cell b' q v))) p q xs l a rest (ground arith),
  ),
)

-- The node behind a segment's last is changed by a write to the `next` of the last.
pub relink_last :
    (h : Heap) (b f p : Ptr) (v : ℕ) (xs : Nodes) (l a a' : Ptr)
    → Seg h b f ((p, v) ∷ xs) l a
    → (c : Cell) × (set_next h l a' ≡ some (write h l (some c)))
      × Seg (write h l (some c)) b f ((p, v) ∷ xs) l a'
relink_last h b f p v [] l a a' (e, nonnull, out, q, holds, (e1, e2)) =
    (cell b a' v, ground arith, (e, nonnull, out, a', ground arith, (refl, e2)))
relink_last h b f p v ((r, w) ∷ xs) l a a' (e, nonnull, out, q, holds, rest) =
    let (c, written, s) = relink_last h p q r w xs l a a' rest in
    let (nn, i) = has-last h p q r w xs l a rest in
    (c, written, (e, nonnull, out, q, ground arith, s))

-- An address that holds no node is none of a segment's.
pub has-free :
    (h : Heap) (b f : Ptr) (xs : Nodes) (l a r : Ptr)
    → Seg h b f xs l a
    → h r ≡ none
    → has r xs ≡ false
has-free h b f [] l a r s free = refl
has-free h b f ((p, v) ∷ xs) l a r (e, nonnull, out, q, holds, rest) free =
    ground (arith, has-free h p q xs l a r rest free)

pub has-first :
    (h : Heap) (b f r w : ℕ) (ys : Nodes) (l a : Ptr)
    → Seg h b f ((r, w) ∷ ys) l a
    → has f ((r, w) ∷ ys) ≡ true
has-first h b f r w ys l a (e, _, _, _, _, _) = ground arith

pub not-has : (xs ys : Nodes) (a : Ptr) → Disjoint xs ys → has a ys ≡ true → has a xs ≡ false
not-has xs ys a apart i = ground (arith, apart a)

pub ne-has : (a b : Ptr) (xs : Nodes) → has a xs ≡ true → has b xs ≡ false → (b == a) ≡ false
ne-has a b xs i o = elim (Bool-cases (b == a)) [ inl same ↦ ground arith | inr apart ↦ apart ]
