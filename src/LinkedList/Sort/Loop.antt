-- ===== src/LinkedList/Sort/Loop.antt =====
-- common/src/LinkedList/linkit.c: the outer loop of `list_sort`.
use morning_projects.Common.{
  ℕ, zero, suc, ◌+◌, ◌<◌, ◌≡◌, ◌≢◌, inl, inr, refl, Bool, true, false, Option, some, [], ◌∷◌, ◌==◌,
  length, arith, ◌∙◌, ap, Bool-cases,
}
use morning_projects.LinkedList.{Ptr, null, cell, Heap, load}
use morning_projects.LinkedList.Seg.{Nodes, has, Seg, Disjoint, load-holds, ne-has}
use morning_projects.LinkedList.Sort.{sort_condition, place_node, sort_loop}
use morning_projects.LinkedList.Sort.Place.{insert_node}
use morning_projects.LinkedList.Sort.Round.{place_node-Placed, ne_sym, has_cons}

-- the first list, of which only the `next` pointers are read
abbrev pub Rest : Heap → Ptr → Nodes → Type 0
Rest h f [] = f ≡ null
Rest h f ((p, v) ∷ xs) =
    (f ≡ p)
    × (p ≢ null)
    × (has p xs ≡ false)
    × (b : Ptr) × (q : Ptr) × (h p ≡ some (cell b q v))
    × Rest h q xs

Rest-frame :
    (h g : Heap) (f : Ptr) (xs : Nodes)
    → Rest h f xs
    → ((a : Ptr) → has a xs ≡ true → g a ≡ h a)
    → Rest g f xs
Rest-frame h g f [] s same = s
Rest-frame h g f ((p, v) ∷ xs) (e, nonnull, out, b, q, holds, rest) same = (
  e,
  nonnull,
  out,
  b,
  q,
  ground (arith, same p),
  Rest-frame h g q xs rest λ r i. same r (ground arith),
)

pub Rest-Seg : (h : Heap) (b f : Ptr) (xs : Nodes) (l : Ptr) → Seg h b f xs l null → Rest h f xs
Rest-Seg h b f [] l (e, e') = e
Rest-Seg h b f ((p, v) ∷ xs) l (e, nonnull, out, q, holds, rest) =
    (e, nonnull, out, b, q, holds, Rest-Seg h p q xs l rest)

-- the nodes of the first list inserted one by one
abbrev pub insert_all : Bool → Nodes → Nodes → Nodes
insert_all asc [] ys = ys
insert_all asc ((p, v) ∷ xs) ys = insert_all asc xs (insert_node asc p v ys)

pub has-insert_node :
    (a : Ptr) (asc : Bool) (p v : ℕ) (ys : Nodes)
    → has a (insert_node asc p v ys) ≡ has a ((p, v) ∷ ys)
has-insert_node a asc p v [] = refl
has-insert_node a asc p v ((c, w) ∷ ys) = elim (Bool-cases (sort_condition asc w v)) [
  | inl here ↦ rw here refl
  | inr on ↦ rw on (ground (arith, has-insert_node a asc p v ys))
]

pub length-insert_node :
    (asc : Bool) (p v : ℕ) (ys : Nodes) → length (insert_node asc p v ys) ≡ suc (length ys)
length-insert_node asc p v [] = refl
length-insert_node asc p v ((c, w) ∷ ys) = elim (Bool-cases (sort_condition asc w v)) [
  | inl here ↦ rw here refl
  | inr on ↦ rw on (ap suc (length-insert_node asc p v ys))
]

has_self : (p v : ℕ) (xs : Nodes) → has p ((p, v) ∷ xs) ≡ true
has_self p v xs = ground arith

has_behind : (a p v : ℕ) (xs : Nodes) → has a xs ≡ true → has a ((p, v) ∷ xs) ≡ true
has_behind a p v xs i = ground arith

rest_null : (q : Ptr) → q ≡ null → (q == null) ≡ true
rest_null q e = ground arith

rest_ok : (q r : Ptr) → q ≡ r → r ≢ null → (q == null) ≡ false
rest_ok q r e nonnull = ground arith

module _ (rounds n : ℕ) (asc : Bool) (h : Heap) (f head tail b q v : ℕ) (g : Heap)
    (head' tail' : Ptr) (loaded : load h f ≡ some (cell b q v))
    (placed : place_node n asc h head tail f ≡ some (g, head', tail')) where
  last_round :
      (q == null) ≡ true → sort_loop (suc rounds) n asc h f head tail ≡ some (g, head', tail')
  unfolding sort_loop
  last_round e = rw (loaded, placed, e) refl

  next_round :
      {r : Option (Heap × Ptr × Ptr)}
      → (q == null) ≡ false
      → sort_loop rounds n asc g q head' tail' ≡ r
      → sort_loop (suc rounds) n asc h f head tail ≡ r
  unfolding sort_loop
  next_round e again = rw (loaded, placed, e) again

pub sort_loop-Seg :
    (rounds n : ℕ) (asc : Bool) (h : Heap) (f p v : ℕ) (xs : Nodes) (head : Ptr) (ys : Nodes)
    (tail : Ptr)
    → Rest h f ((p, v) ∷ xs)
    → Seg h null head ys tail null
    → Disjoint ((p, v) ∷ xs) ys
    → length xs < rounds
    → suc (length xs) + length ys < n + 1
    → (g : Heap) × (head' : Ptr) × (tail' : Ptr) × (sort_loop rounds n asc h f head tail
        ≡ some (g, head', tail'))
      × Seg g null head' (insert_all asc ((p, v) ∷ xs) ys) tail' null
unfolding sort_loop
sort_loop-Seg zero n asc h f p v xs head ys tail first second apart less fuel = absurd (omega arith)
sort_loop-Seg (suc rounds) n asc h f p v [] head ys tail (e, p_ok, out, b, q, holds, rest) second
      apart less fuel =
    let (g, head', tail', placed, seg, same) =
      place_node-Placed h p b q v p_ok holds n asc head ys tail second (apart p (has_self p v []))
        (omega arith) in
    (
      g,
      head',
      tail',
      last_round rounds n asc h f head tail b q v g head' tail'
          (ap (load h) e ∙ load-holds h p p_ok holds)
          (ap (λ x. place_node n asc h head tail x) e ∙ placed) (rest_null q rest),
      seg,
    )
sort_loop-Seg (suc rounds) n asc h f p v ((r, w) ∷ xs) head ys tail
      (e, p_ok, out, b, q, holds, rest) second apart less fuel =
    let (g, head', tail', placed, seg, same) =
      place_node-Placed h p b q v p_ok holds n asc head ys tail second
        (apart p (has_self p v ((r, w) ∷ xs))) (omega arith) in
    let (next, next_ok, _, _, _, _, _) = rest in
    let kept = Rest-frame h g q ((r, w) ∷ xs) rest λ a i.
      same a (apart a (has_behind a p v ((r, w) ∷ xs) i))
        (ne_sym p a (ne-has a p ((r, w) ∷ xs) i out)) in
    let (g', head2, tail2, again, seg2) =
      sort_loop-Seg rounds n asc g q r w xs head' (insert_node asc p v ys) tail' kept seg
        (λ a i.
          has-insert_node a asc p v ys
          ∙ has_cons a p v ys (ne_sym p a (ne-has a p ((r, w) ∷ xs) i out))
              (apart a (has_behind a p v ((r, w) ∷ xs) i)))
        (omega arith) (omega (arith, length-insert_node asc p v ys)) in
    (
      g',
      head2,
      tail2,
      next_round rounds n asc h f head tail b q v g head' tail'
          (ap (load h) e ∙ load-holds h p p_ok holds)
          (ap (λ x. place_node n asc h head tail x) e ∙ placed) (rest_ok q r next next_ok) again,
      seg2,
    )
