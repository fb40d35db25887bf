-- ===== src/LinkedList/Sort/Place.antt =====
-- common/src/LinkedList/linkit.c: a round of `list_sort`.
use morning_projects.Common.{
  ℕ, zero, suc, ◌<◌, ◌≡◌, ◌≢◌, ◌⊎◌, inl, inr, refl, Bool, false, Option, none, some, [], ◌∷◌, ◌++◌,
  ◌==◌, length, arith, if◌then◌else◌, Bool-cases, ap, ◌∙◌,
}
use morning_projects.LinkedList.{Ptr, null, Cell, cell, Heap, write, load, set_prev, set_next}
use morning_projects.LinkedList.Seg.{
  Nodes, has, Seg, join, relink_first, relink_last, frame-write, has-last, load-holds, ne-has,
  has-first,
}
use morning_projects.LinkedList.Sort.{
  sort_condition, relink, find_place, insert_before, append_node,
}

-- before the first datum that is to come behind it
abbrev pub insert_node : Bool → Ptr → ℕ → Nodes → Nodes
insert_node asc p v [] = (p, v) ∷ []
insert_node asc p v ((c, w) ∷ xs) =
    if sort_condition asc w v then (p, v) ∷ (c, w) ∷ xs else (c, w) ∷ insert_node asc p v xs

-- what the search finds, and where the node goes then
abbrev pub PlaceOf : Bool → Ptr → ℕ → Nodes → Option (Option Ptr) → Type 0
PlaceOf asc p v xs found =
    ((before : Nodes) × (c : Ptr) × (w : ℕ) × (behind : Nodes) × (xs ≡ before ++ ((c, w) ∷ behind))
      × (found ≡ some (some c))
      × (insert_node asc p v xs ≡ before ++ ((p, v) ∷ (c, w) ∷ behind)))
    ⊎ ((found ≡ some none) × (insert_node asc p v xs ≡ xs ++ ((p, v) ∷ [])))

pub find_place-PlaceOf :
    (n : ℕ) (asc : Bool) (h : Heap) (b f : Ptr) (xs : Nodes) (l : Ptr) (p v : ℕ)
    → Seg h b f xs l null
    → length xs < n
    → PlaceOf asc p v xs (find_place n asc h f v)
unfolding find_place
find_place-PlaceOf zero asc h b f xs l p v s fuel = absurd (omega arith)
find_place-PlaceOf (suc n) asc h b f [] l p v (e, e') fuel = inr (ground arith, refl)
find_place-PlaceOf (suc n) asc h b f ((c, w) ∷ xs) l p v (e, nonnull, out, q, holds, rest) fuel =
    elim (Bool-cases (sort_condition asc w v)) [
      | inl here ↦ inl ([], c, w, xs, refl, ground arith, rw here refl)
      | inr on ↦ elim (find_place-PlaceOf n asc h c q xs l p v rest (omega arith)) [
        | inl (before, c', w', behind, e1, e2, e3) ↦ inl (
          (c, w) ∷ before,
          c',
          w',
          behind,
          ap (λ t. (c, w) ∷ t) e1,
          ground arith,
          rw (on, e3) refl,
        )
        | inr (e2, e3) ↦ inr (ground arith, rw (on, e3) refl)
      ]
    ]

pub write-other : (h : Heap) (p a : Ptr) (c : Option Cell) → (a == p) ≡ false → write h p c a ≡ h a
write-other h p a c apart = ground arith

pub first-at :
    (h : Heap) (b f c w : ℕ) (xs : Nodes) (l a : Ptr)
    → Seg h b f ((c, w) ∷ xs) l a
    → Seg h b c ((c, w) ∷ xs) l a
first-at h b f c w xs l a (e, e2, e3, q, e4, e5) = (refl, e2, e3, q, e4, e5)

module _ (h : Heap) (p b q v : ℕ) (p_ok : p ≢ null) (holds : h p ≡ some (cell b q v)) where
  pub relink-holds : (x y : Ptr) → relink h p x y ≡ some (write h p (some (cell x y v)))
  relink-holds x y = ground arith

  pub append_node-Seg :
      (f c w : ℕ) (xs : Nodes) (l : Ptr)
      → Seg h null f ((c, w) ∷ xs) l null
      → has p ((c, w) ∷ xs) ≡ false
      → (g : Heap) × (append_node h l p ≡ some g)
        × Seg g null f ((c, w) ∷ (xs ++ ((p, v) ∷ []))) p null
        × ((a : Ptr) → has a ((c, w) ∷ xs) ≡ false → (a == p) ≡ false → g a ≡ h a)
  unfolding append_node
  append_node-Seg f c w xs l s out =
      let h1 = write h p (some (cell l null v)) in
      let kept = frame-write h null f ((c, w) ∷ xs) l null p (some (cell l null v)) s out in
      let (d, written, seg) = relink_last h1 null f c w xs l null p kept in
      let (l_ok, l_in) = has-last h null f c w xs l null s in
      let l_ne : (p == l) ≡ false = ne-has l p ((c, w) ∷ xs) l_in out in
      (
        write h1 l (some d),
        rw (relink-holds l null) written,
        join (write h1 l (some d)) null f ((c, w) ∷ xs) l p ((p, v) ∷ []) p null seg
            (refl, p_ok, refl, null, ground arith, (refl, refl)) (ground arith),
        λ a o np.
            write-other h1 l a (some d) (ne-has l a ((c, w) ∷ xs) l_in o)
            ∙ write-other h p a (some (cell l null v)) np,
      )

  -- the steps of the insertion, at the head and further on
  head-steps :
      (c w q' : ℕ) (k : Heap)
      → load h c ≡ some (cell null q' w)
      → set_prev (write h p (some (cell null c v))) c p ≡ some k
      → insert_before h c p c ≡ some (k, p)
  unfolding insert_before
  head-steps c w q' k e1 e2 = rw (e1, relink-holds null c, e2) (ground arith)

  pub inner-steps :
      (f c w m q' : ℕ) (k g : Heap)
      → load h c ≡ some (cell m q' w)
      → (c == f) ≡ false
      → load (write h p (some (cell m c v))) c ≡ some (cell m q' w)
      → set_next (write h p (some (cell m c v))) m p ≡ some k
      → set_prev k c p ≡ some g
      → insert_before h f p c ≡ some (g, f)
  unfolding insert_before
  inner-steps f c w m q' k g e1 e2 e3 e4 e5 = rw (e1, relink-holds m c, e2, e3, e4, e5) refl

  pub head-Seg :
      (c w : ℕ) (behind : Nodes) (l : Ptr)
      → Seg h null c ((c, w) ∷ behind) l null
      → has p ((c, w) ∷ behind) ≡ false
      → (g : Heap) × (insert_before h c p c ≡ some (g, p))
        × Seg g null p ((p, v) ∷ (c, w) ∷ behind) l null
        × ((a : Ptr) → has a ((c, w) ∷ behind) ≡ false → (a == p) ≡ false → g a ≡ h a)
  head-Seg c w behind l s out =
      let (e, c_ok, c_out, q', holds_c, rest) = s in
      let h1 = write h p (some (cell null c v)) in
      let kept = frame-write h null c ((c, w) ∷ behind) l null p (some (cell null c v)) s out in
      let (next, written, seg) = relink_first h1 null c c w behind l null p kept in
      let ne : (p == c) ≡ false =
        ne-has c p ((c, w) ∷ behind) (has-first h null c c w behind l null s) out in
      (
        write h1 c (some (cell p next w)),
        head-steps c w q' (write h1 c (some (cell p next w))) (load-holds h c c_ok holds_c) written,
        (refl, p_ok, out, c, write-other h1 c p (some (cell p next w)) ne ∙ ground arith, seg),
        λ a o np.
            write-other h1 c a (some (cell p next w))
              (ne-has c a ((c, w) ∷ behind) (has-first h null c c w behind l null s) o)
            ∙ write-other h p a (some (cell null c v)) np,
      )
