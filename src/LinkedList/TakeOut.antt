-- ===== src/LinkedList/TakeOut.antt =====
-- common/src/LinkedList/linkit.c: a node is taken out of the list.
use morning_projects.Common.{
  ℕ, suc, ◌^◌, ◌<◌, ◌≡◌, ◌⊎◌, inl, inr, refl, true, false, none, some, [], ◌∷◌, ◌++◌, ◌==◌, length,
  length-append, arith, if◌then◌else◌, Option, append-nil, Bool-cases,
}
use morning_projects.LinkedList.{
  Ptr, null, Cell, cell, State, count_down, write, load, set_prev, set_next, take_out, Heap,
}
use morning_projects.LinkedList.Seg.{
  Nodes, has, Seg, Disjoint, frame-write, load-holds, load-write, frame, join, split, relink_first,
  relink_last, has-append, has-last,
}
use morning_projects.LinkedList.Insert.{IsList}

count_down_lem : (n : ℕ) → suc n < 2 ^ 31 → count_down (suc n) ≡ n
count_down_lem n h = omega arith

count_taken :
    (n p v : ℕ) (xs ys : Nodes)
    → n ≡ length (xs ++ ((p, v) ∷ ys))
    → length (xs ++ ((p, v) ∷ ys)) < 2 ^ 31
    → count_down n ≡ length (xs ++ ys)
count_taken n p v xs ys e h = omega (arith, length-append xs ys, length-append xs ((p, v) ∷ ys))

bound_taken :
    (p v : ℕ) (xs ys : Nodes) → length (xs ++ ((p, v) ∷ ys)) < 2 ^ 31 → length (xs ++ ys) < 2 ^ 31
bound_taken p v xs ys h = omega (arith, length-append xs ys, length-append xs ((p, v) ∷ ys))

-- The node is out of the list, its memory is given back, and what is left is a list.
abbrev pub TakenOut : Ptr → Nodes → Option State → Type 0
TakenOut p rest r = (u : State) × (r ≡ some u) × IsList u rest × (u.heap p ≡ none)

-- the current element after the node `p`, which `q` follows, is taken out
at-taken :
    (c p v q : ℕ) (xs ys : Nodes)
    → (c ≡ null) ⊎ (has c (xs ++ ((p, v) ∷ ys)) ≡ true)
    → (q ≡ null) ⊎ (has q ys ≡ true)
    → ((if c == p then q else c) ≡ null) ⊎ (has (if c == p then q else c) (xs ++ ys) ≡ true)
at-taken c p v q xs ys h k = elim (Bool-cases (c == p)) [
  | inl hit ↦ rw hit (elim k [ inl e ↦ inl e | inr i ↦ inr (ground (arith, has-append q xs ys)) ])
  | inr miss ↦ rw miss (elim h [
    | inl e ↦ inl e
    | inr i ↦ inr (ground (arith, has-append c xs ys, has-append c xs ((p, v) ∷ ys)))
  ])
]

take_out_sole : (s : State) (p v : ℕ) → IsList s ((p, v) ∷ []) → TakenOut p [] (take_out s p)
unfolding take_out
take_out_sole s p v is =
    let (e, nonnull, out, q, holds, (e1, e2)) = is.chain in
    (
      record {
        heap = write s.heap p none;
        num_nodes = count_down s.num_nodes;
        head = q;
        tail = null;
        current = if s.current == p then q else s.current;
      },
      ground arith,
      record {
        chain = ground arith;
        count = rw is.count refl;
        bound = omega arith;
        at = inl (elim is.at [ inl c ↦ ground arith | inr i ↦ ground arith ]);
      },
      ground arith,
    )

take_out_head :
    (s : State) (p v r w : ℕ) (ys : Nodes)
    → IsList s ((p, v) ∷ (r, w) ∷ ys)
    → TakenOut p ((r, w) ∷ ys) (take_out s p)
unfolding take_out
take_out_head s p v r w ys is =
    let (e, nonnull, out, q, holds, rest) = is.chain in
    let (next, written, seg) = relink_first s.heap p q r w ys s.tail null null rest in
    let h = write s.heap q (some (cell null next w)) in
    (
      record s {
        heap = write h p none;
        num_nodes = count_down s.num_nodes;
        head = q;
        current = if s.current == p then q else s.current;
      },
      ground (arith, written),
      record {
        chain = frame h (write h p none) null q ((r, w) ∷ ys) s.tail null seg (ground arith);
        count = rw is.count (count_down_lem (suc (length ys)) is.bound);
        bound = omega arith;
        at = at-taken s.current p v q [] ((r, w) ∷ ys) is.at (inr (ground arith));
      },
      ground arith,
    )

take_out_last :
    (s : State) (a e : ℕ) (xs : Nodes) (p v : ℕ)
    → IsList s ((a, e) ∷ (xs ++ ((p, v) ∷ [])))
    → TakenOut p ((a, e) ∷ (xs ++ [])) (take_out s p)
unfolding take_out
take_out_last s a e xs p v is =
    let (m, n, left, right, apart) =
      split s.heap null s.head ((a, e) ∷ xs) ((p, v) ∷ []) s.tail null is.chain in
    let (e1, nonnull, out, q, holds, (e2, e3)) = right in
    let (m_ok, m_in) = has-last s.heap null s.head a e xs m n left in
    let (c, written, seg) = relink_last s.heap null s.head a e xs m n null left in
    let h = write s.heap m (some c) in
    let others : has p ((a, e) ∷ xs) ≡ false = ground (arith, apart p) in
    let head_ne : (s.head == p) ≡ false = ground (arith, left, others) in
    (
      record s {
        heap = write h p none;
        num_nodes = count_down s.num_nodes;
        tail = m;
        current = if s.current == p then q else s.current;
      },
      ground (arith, written),
      record {
        chain =
            rw append-nil
              (frame h (write h p none) null s.head ((a, e) ∷ xs) m null seg (ground arith));
        count = count_taken s.num_nodes p v ((a, e) ∷ xs) [] is.count is.bound;
        bound = bound_taken p v ((a, e) ∷ xs) [] is.bound;
        at = at-taken s.current p v q ((a, e) ∷ xs) [] is.at (inl (ground arith));
      },
      ground arith,
    )

not-has-tail : (a p v : ℕ) (ys : Nodes) → has a ((p, v) ∷ ys) ≡ false → has a ys ≡ false
not-has-tail a p v ys out = ground arith

pub ne_of_not_has : (p a v : ℕ) (ys : Nodes) → has a ((p, v) ∷ ys) ≡ false → (p == a) ≡ false
ne_of_not_has p a v ys out = ground arith

write-same : (h : Heap) (p : Ptr) → write h p none p ≡ none
write-same h p = ground arith

module _ (h : Heap) (b f r w : ℕ) (ys : Nodes) (l a : Ptr) where
  ne-first : Seg h b f ((r, w) ∷ ys) l a → has b ((r, w) ∷ ys) ≡ false → (b == f) ≡ false
  ne-first (e, _, _, _, _, _) out = ground arith

  pub first-nonnull : Seg h b f ((r, w) ∷ ys) l a → (f == null) ≡ false
  first-nonnull (e, nonnull, _, _, _, _) = ground arith

  has-first : Seg h b f ((r, w) ∷ ys) l a → has f ((r, w) ∷ ys) ≡ true
  has-first (e, _, _, _, _, _) = ground arith

  first-far :
      (v : ℕ) (xs : Nodes)
      → Seg h b f ((r, w) ∷ ys) l a
      → Disjoint xs ((b, v) ∷ (r, w) ∷ ys)
      → has f xs ≡ false
  first-far v xs (e, _, _, _, _, _) apart = ground (arith, apart f)

pub node-ok :
    (h : Heap) (b f p v : ℕ) (ys : Nodes) (l a : Ptr)
    → Seg h b f ((p, v) ∷ ys) l a
    → (p == null) ≡ false
node-ok h b f p v ys l a (e, nonnull, _, _, _, _) = ground arith

take_out-steps :
    (s : State) (p : Ptr) (c : Cell) (h g : Heap)
    → load s.heap p ≡ some c
    → (s.head == p) ≡ false
    → set_next s.heap c.prev c.next ≡ some h
    → load h p ≡ some c
    → (c.next == null) ≡ false
    → set_prev h c.next c.prev ≡ some g
    → load g p ≡ some c
    → take_out s p
      ≡ some (record s {
        heap = write g p none;
        num_nodes = count_down s.num_nodes;
        current = if s.current == p then c.next else s.current;
      })
unfolding take_out
take_out-steps s p c h g e1 e2 e3 e4 e5 e6 e7 = rw (e1, e2, e3, e4, e6, e5, e7) refl

take_out_inner :
    (s : State) (a e : ℕ) (xs : Nodes) (p v r w : ℕ) (ys : Nodes)
    → IsList s ((a, e) ∷ (xs ++ ((p, v) ∷ (r, w) ∷ ys)))
    → TakenOut p ((a, e) ∷ (xs ++ ((r, w) ∷ ys))) (take_out s p)
take_out_inner s a e xs p v r w ys is =
    let (m, n, left, right, apart) =
      split s.heap null s.head ((a, e) ∷ xs) ((p, v) ∷ (r, w) ∷ ys) s.tail null is.chain in
    let (e1, nonnull, out, q, holds, rest) = right in
    let (m_ok, m_in) = has-last s.heap null s.head a e xs m n left in
    let (c, written, seg) = relink_last s.heap null s.head a e xs m n q left in
    let h = write s.heap m (some c) in
    let others : has p ((a, e) ∷ xs) ≡ false = ground (arith, apart p) in
    let head_ne : (s.head == p) ≡ false = ground (arith, left, others) in
    let m_far : has m ((r, w) ∷ ys) ≡ false = not-has-tail m p v ((r, w) ∷ ys) (apart m m_in) in
    let m_ne : (p == m) ≡ false = ne_of_not_has p m v ((r, w) ∷ ys) (apart m m_in) in
    let kept = frame-write s.heap p q ((r, w) ∷ ys) s.tail null m (some c) rest m_far in
    let (next, written2, seg2) = relink_first h p q r w ys s.tail null m kept in
    let g = write h q (some (cell m next w)) in
    let q_ne : (p == q) ≡ false = ne-first s.heap p q r w ys s.tail null rest out in
    let q_ok : (q == null) ≡ false = first-nonnull s.heap p q r w ys s.tail null rest in
    let q_far : has q ((a, e) ∷ xs) ≡ false =
      first-far s.heap p q r w ys s.tail null v ((a, e) ∷ xs) rest apart in
    let loaded = load-holds s.heap p nonnull holds in
    let loaded1 = load-write s.heap p m (some c) loaded m_ne in
    let loaded2 = load-write h p q (some (cell m next w)) loaded1 q_ne in
    (
      record s {
        heap = write g p none;
        num_nodes = count_down s.num_nodes;
        current = if s.current == p then q else s.current;
      },
      take_out-steps s p (cell m q v) h g loaded head_ne written loaded1 q_ok written2 loaded2,
      record {
        chain =
            join (write g p none) null s.head ((a, e) ∷ xs) m q ((r, w) ∷ ys) s.tail null
              (frame-write g null s.head ((a, e) ∷ xs) m q p none
                (frame-write h null s.head ((a, e) ∷ xs) m q q (some (cell m next w)) seg q_far)
                others)
              (frame-write g m q ((r, w) ∷ ys) s.tail null p none seg2 out)
              (λ b i. not-has-tail b p v ((r, w) ∷ ys) (apart b i));
        count = count_taken s.num_nodes p v ((a, e) ∷ xs) ((r, w) ∷ ys) is.count is.bound;
        bound = bound_taken p v ((a, e) ∷ xs) ((r, w) ∷ ys) is.bound;
        at =
            at-taken s.current p v q ((a, e) ∷ xs) ((r, w) ∷ ys) is.at
              (inr (has-first s.heap p q r w ys s.tail null rest));
      },
      write-same g p,
    )

pub take_out-IsList :
    (s : State) (xs : Nodes) (p v : ℕ) (ys : Nodes)
    → IsList s (xs ++ ((p, v) ∷ ys))
    → TakenOut p (xs ++ ys) (take_out s p)
take_out-IsList s [] p v [] is = take_out_sole s p v is
take_out-IsList s [] p v ((r, w) ∷ ys) is = take_out_head s p v r w ys is
take_out-IsList s ((a, e) ∷ xs) p v [] is = take_out_last s a e xs p v is
take_out-IsList s ((a, e) ∷ xs) p v ((r, w) ∷ ys) is = take_out_inner s a e xs p v r w ys is
