-- ===== src/LinkedList/Sort/Round.antt =====
-- common/src/LinkedList/linkit.c: a round of the outer loop of `list_sort`.
use morning_projects.Common.{
  ℕ, ◌<◌, ◌≡◌, ◌≢◌, inl, inr, refl, Bool, true, false, Option, some, [], ◌∷◌, ◌++◌, ◌==◌, length,
  arith, ◌>>=◌, ◌∙◌, ap, sym,
}
use morning_projects.LinkedList.{Ptr, null, Cell, cell, Heap, write}
use morning_projects.LinkedList.Seg.{
  Nodes, has, Seg, join, split, relink_first, relink_last, frame-write, has-last, has-append,
  load-holds, load-write, ne-has, not-has, has-first,
}
use morning_projects.LinkedList.Sort.{insert_before, place_node}
use morning_projects.LinkedList.Sort.Place.{
  insert_node, find_place-PlaceOf, write-other, first-at, relink-holds, append_node-Seg,
  inner-steps, head-Seg,
}

-- The second list with the node `p` at its place; nothing else is written.
abbrev pub Placed : Heap → Ptr → Nodes → Nodes → Option (Heap × Ptr × Ptr) → Type 0
Placed h p xs ys r =
    (g : Heap) × (head : Ptr) × (tail : Ptr) × (r ≡ some (g, head, tail))
    × Seg g null head ys tail null
    × ((a : Ptr) → has a xs ≡ false → (a == p) ≡ false → g a ≡ h a)

Placed-eq :
    (h : Heap) (p : Ptr) {xs xs' ys ys' : Nodes} {r r' : Option (Heap × Ptr × Ptr)}
    → xs ≡ xs'
    → ys ≡ ys'
    → r ≡ r'
    → Placed h p xs' ys' r'
    → Placed h p xs ys r
Placed-eq h p e1 e2 e3 placed = rw (e1, e2, e3) placed

Seg-eq : (h : Heap) (b f l a : Ptr) {xs ys : Nodes} → xs ≡ ys → Seg h b f xs l a → Seg h b f ys l a
Seg-eq h b f l a e s = rw (sym e) s

has-eq : (p : Ptr) {xs ys : Nodes} → xs ≡ ys → has p xs ≡ false → has p ys ≡ false
has-eq p e o = rw (sym e) o

pub not_left : (a : Ptr) (xs ys : Nodes) → has a (xs ++ ys) ≡ false → has a xs ≡ false
not_left a xs ys o = ground (arith, has-append a xs ys)

pub ne_sym : (a c : ℕ) → (a == c) ≡ false → (c == a) ≡ false
ne_sym a c apart = ground arith

pub first-ok :
    (h : Heap) (b f c w : ℕ) (xs : Nodes) (l a : Ptr)
    → Seg h b f ((c, w) ∷ xs) l a
    → (f == null) ≡ false
first-ok h b f c w xs l a (e, nonnull, _, _, _, _) = ground arith

pub has_cons :
    (a p v : ℕ) (xs : Nodes) → (a == p) ≡ false → has a xs ≡ false → has a ((p, v) ∷ xs) ≡ false
has_cons a p v xs apart o = ground arith

pub write_self : (h : Heap) (p : Ptr) (c : Option Cell) → write h p c p ≡ c
write_self h p c = ground arith

pub not_right : (a : Ptr) (xs ys : Nodes) → has a (xs ++ ys) ≡ false → has a ys ≡ false
not_right a xs ys o = ground (arith, has-append a xs ys)

module _ (h : Heap) (p b q v : ℕ) (p_ok : p ≢ null) (holds : h p ≡ some (cell b q v)) where
  inner-Seg :
      (f a e : ℕ) (before : Nodes) (c w : ℕ) (behind : Nodes) (l : Ptr)
      → Seg h null f ((a, e) ∷ (before ++ ((c, w) ∷ behind))) l null
      → has p ((a, e) ∷ (before ++ ((c, w) ∷ behind))) ≡ false
      → (g : Heap) × (insert_before h f p c ≡ some (g, f))
        × Seg g null f ((a, e) ∷ (before ++ ((p, v) ∷ (c, w) ∷ behind))) l null
        × ((r : Ptr)
            → has r ((a, e) ∷ (before ++ ((c, w) ∷ behind))) ≡ false
            → (r == p) ≡ false
            → g r ≡ h r)
  inner-Seg f a e before c w behind l s out =
      let xs = (a, e) ∷ before in
      let ys = (c, w) ∷ behind in
      let (m, n, left, right0, apart) = split h null f xs ys l null s in
      let right = first-at h m n c w behind l null right0 in
      let (e1, c_ok, c_out, q', holds_c, rest) = right in
      let (m_ok, m_in) = has-last h null f a e before m n left in
      let p_xs : has p xs ≡ false = not_left p xs ys out in
      let p_ys : has p ys ≡ false = not_right p xs ys out in
      let c_in : has c ys ≡ true = has-first h m c c w behind l null right in
      let c_xs : has c xs ≡ false = not-has xs ys c apart c_in in
      let m_ys : has m ys ≡ false = apart m m_in in
      let p_c : (p == c) ≡ false = ne-has c p ys c_in p_ys in
      let c_p : (c == p) ≡ false = ne_sym p c p_c in
      let p_m : (p == m) ≡ false = ne-has m p xs m_in p_xs in
      let c_f : (c == f) ≡ false = ne-has f c xs (has-first h null f a e before m n left) c_xs in
      let h1 = write h p (some (cell m c v)) in
      let left1 = frame-write h null f xs m n p (some (cell m c v)) left p_xs in
      let right1 = frame-write h m c ys l null p (some (cell m c v)) right p_ys in
      let (d, written, left2) = relink_last h1 null f a e before m n p left1 in
      let h2 = write h1 m (some d) in
      let right2 = frame-write h1 m c ys l null m (some d) right1 m_ys in
      let (next, written3, right3) = relink_first h2 m c c w behind l null p right2 in
      let h3 = write h2 c (some (cell p next w)) in
      let left3 = frame-write h2 null f xs m p c (some (cell p next w)) left2 c_xs in
      let loaded = load-holds h c c_ok holds_c in
      (
        h3,
        inner-steps h p b q v p_ok holds f c w m q' h2 h3 loaded c_f
            (load-write h c p (some (cell m c v)) loaded c_p) written written3,
        join h3 null f xs m p ((p, v) ∷ ys) l null left3
            (
              refl,
              p_ok,
              p_ys,
              c,
              write-other h2 c p (some (cell p next w)) p_c
                  ∙ (write-other h1 m p (some d) p_m ∙ write_self h p (some (cell m c v))),
              right3,
            )
            (λ r i. has_cons r p v ys (ne_sym p r (ne-has r p xs i p_xs)) (apart r i)),
        λ r o np.
            write-other h2 c r (some (cell p next w)) (ne-has c r ys c_in (not_right r xs ys o))
            ∙ (write-other h1 m r (some d) (ne-has m r xs m_in (not_left r xs ys o))
                ∙ write-other h p r (some (cell m c v)) np),
      )

  Placed-before :
      (f : Ptr) (before : Nodes) (c w : ℕ) (behind : Nodes) (l : Ptr)
      → Seg h null f (before ++ ((c, w) ∷ behind)) l null
      → has p (before ++ ((c, w) ∷ behind)) ≡ false
      → Placed h p
          (before ++ ((c, w) ∷ behind))
          (before ++ ((p, v) ∷ (c, w) ∷ behind))
          (insert_before h f p c >>= λ r. some (r.0, r.1, l))
  Placed-before f [] c w behind l s out =
      let (e, _, _, _, _, _) = s in
      let (g, steps, seg, same) =
        head-Seg h p b q v p_ok holds c w behind l (first-at h null f c w behind l null s) out in
      (
        g,
        p,
        l,
        ap (λ x. insert_before h x p c >>= λ r. some (r.0, r.1, l)) e ∙ rw steps refl,
        seg,
        same,
      )
  Placed-before f ((a, e) ∷ before) c w behind l s out =
      let (g, steps, seg, same) = inner-Seg f a e before c w behind l s out in
      (g, f, l, rw steps refl, seg, same)

  -- A round with more fuel than the second list has nodes puts the node at its place.
  pub place_node-Placed :
      (n : ℕ) (asc : Bool) (f : Ptr) (xs : Nodes) (l : Ptr)
      → Seg h null f xs l null
      → has p xs ≡ false
      → length xs < n
      → Placed h p xs (insert_node asc p v xs) (place_node n asc h f l p)
  unfolding place_node
  place_node-Placed n asc f [] l (e, e') out fuel = (
    write h p (some (cell null null v)),
    p,
    p,
    rw (e, relink-holds h p b q v p_ok holds null null) refl,
    (refl, p_ok, refl, null, write_self h p (some (cell null null v)), (refl, refl)),
    λ a o np. write-other h p a (some (cell null null v)) np,
  )
  place_node-Placed n asc f ((a, e) ∷ xs) l s out fuel =
      let nonnull : (f == null) ≡ false = first-ok h null f a e xs l null s in
      elim (find_place-PlaceOf n asc h null f ((a, e) ∷ xs) l p v s fuel) [
        | inl (before, c, w, behind, e1, e2, e3) ↦
            Placed-eq h p e1 e3 (rw (nonnull, load-holds h p p_ok holds, e2) refl)
              (Placed-before f before c w behind l (Seg-eq h null f l null e1 s) (has-eq p e1 out))
        | inr (e2, e3) ↦
            let (g, steps, seg, same) = append_node-Seg h p b q v p_ok holds f a e xs l s out in
            (g, f, p, rw (nonnull, load-holds h p p_ok holds, e2, steps) refl, rw e3 seg, same)
      ]
