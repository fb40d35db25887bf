-- ===== src/LinkedList/Prev.antt =====
-- common/src/LinkedList/linkit.c: insertion before the current element.
use morning_projects.Common.{
  ℕ, ◌≡◌, ◌≢◌, refl, true, false, none, some, [], ◌∷◌, ◌++◌, ◌==◌, arith, ◌∙◌,
}
use morning_projects.LinkedList.{
  Ptr, null, cell, State, exit_success, write, load, set_prev, set_next, insert_prev, link_prev,
  Heap,
}
use morning_projects.LinkedList.Seg.{
  Nodes, has, join, split, relink_first, relink_last, has-free, has-last, frame-write, load-holds,
  not-has, ne-has, has-first,
}
use morning_projects.LinkedList.Insert.{IsList}
use morning_projects.LinkedList.Next.{Linked, occupied-mid, ne_of_not_has, ne_of}
use morning_projects.LinkedList.Sort.Place.{write-other, first-at}
use morning_projects.LinkedList.Sort.Round.{ne_sym, has_cons, write_self}

module _ (s : State) (p d m q w : ℕ) (g : Heap) (loaded : load s.heap s.current ≡ some (cell m q w))
    (written : set_prev (write s.heap p (some (cell m s.current d))) s.current p ≡ some g) where
  link_prev_first :
      (s.current == s.head) ≡ true → link_prev s p d ≡ some (record s { heap = g; head = p })
  unfolding link_prev
  link_prev_first e = rw (loaded, written, e) refl

  link_prev_inner :
      (k : Heap)
      → (s.current == s.head) ≡ false
      → set_next g m p ≡ some k
      → link_prev s p d ≡ some (record s { heap = k })
  unfolding link_prev
  link_prev_inner k e e2 = rw (loaded, written, e, e2) refl

insert_prev_lem :
    (s : State) (p d : ℕ) {u : State}
    → (s.num_nodes == 0) ≡ false
    → (s.current == null) ≡ false
    → link_prev s p d ≡ some u
    → insert_prev (some p) s d ≡ some (exit_success, u)
unfolding insert_prev
insert_prev_lem s p d e1 e2 e3 = rw (e1, e2, e3) refl

head_same : (f c : Ptr) → f ≡ c → (c == f) ≡ true
head_same f c e = ground arith

-- Given memory at an address that holds no node, `insert_prev` in a list with a current element
-- succeeds and puts a new node with the datum right before that element, which stays the current
-- one; but it does not count the new node.
pub insert_prev-Linked :
    (s : State) (xs : Nodes) (w : ℕ) (ys : Nodes) (p d : ℕ)
    → IsList s (xs ++ ((s.current, w) ∷ ys))
    → p ≢ null
    → s.heap p ≡ none
    → Linked s (xs ++ ((p, d) ∷ (s.current, w) ∷ ys)) (insert_prev (some p) s d)
insert_prev-Linked s [] w ys p d is p_ok free =
    let zs = (s.current, w) ∷ ys in
    let (at_c, c_ok, out, q, holds, rest) = is.chain in
    let p_out = has-free s.heap null s.head zs s.tail null p is.chain free in
    let seg0 = first-at s.heap null s.head s.current w ys s.tail null is.chain in
    let h1 = write s.heap p (some (cell null s.current d)) in
    let kept =
      frame-write s.heap null s.current zs s.tail null p (some (cell null s.current d)) seg0
        p_out in
    let (next, written, seg) = relink_first h1 null s.current s.current w ys s.tail null p kept in
    let h2 = write h1 s.current (some (cell p next w)) in
    let c_p : (s.current == p) ≡ false = ne_of_not_has p s.current w ys p_out in
    (
      record s { heap = h2; head = p },
      insert_prev_lem s p d (occupied-mid s [] s.current w ys is) (ne_of s.current null c_ok) (
          link_prev_first s p d null q w h2 (load-holds s.heap s.current c_ok holds) written
            (head_same s.head s.current at_c)),
      (
        refl,
        p_ok,
        p_out,
        s.current,
        write-other h1 s.current p (some (cell p next w)) (ne_sym s.current p c_p)
            ∙ write_self s.heap p (some (cell null s.current d)),
        seg,
      ),
      refl,
      refl,
    )
insert_prev-Linked s ((a, e) ∷ before) w ys p d is p_ok free =
    let xs = (a, e) ∷ before in
    let zs = (s.current, w) ∷ ys in
    let c = s.current in
    let (m, n, left, right0, apart) = split s.heap null s.head xs zs s.tail null is.chain in
    let right = first-at s.heap m n c w ys s.tail null right0 in
    let (e1, c_ok, out, q, holds, rest) = right in
    let (m_ok, m_in) = has-last s.heap null s.head a e before m n left in
    let p_xs = has-free s.heap null s.head xs m n p left free in
    let p_zs = has-free s.heap m n zs s.tail null p right0 free in
    let c_xs = not-has xs zs c apart (has-first s.heap m c c w ys s.tail null right) in
    let c_p : (c == p) ≡ false = ne_of_not_has p c w ys p_zs in
    let m_zs : has m zs ≡ false = apart m m_in in
    let p_m : (p == m) ≡ false = ne-has m p xs m_in p_xs in
    let c_f : (c == s.head) ≡ false =
      ne-has s.head c xs (has-first s.heap null s.head a e before m n left) c_xs in
    let h1 = write s.heap p (some (cell m c d)) in
    let right1 = frame-write s.heap m c zs s.tail null p (some (cell m c d)) right p_zs in
    let (next, written, right2) = relink_first h1 m c c w ys s.tail null p right1 in
    let h2 = write h1 c (some (cell p next w)) in
    let left2 =
      frame-write h1 null s.head xs m n c (some (cell p next w))
        (frame-write s.heap null s.head xs m n p (some (cell m c d)) left p_xs) c_xs in
    let (k, written2, left3) = relink_last h2 null s.head a e before m n p left2 in
    let h3 = write h2 m (some k) in
    (
      record s { heap = h3 },
      insert_prev_lem s p d (occupied-mid s xs c w ys is) (ne_of c null c_ok)
          (link_prev_inner s p d m q w h2 (load-holds s.heap c c_ok holds) written h3 c_f written2),
      join h3 null s.head xs m p ((p, d) ∷ zs) s.tail null left3
          (
            refl,
            p_ok,
            p_zs,
            c,
            write-other h2 m p (some k) p_m
                ∙ (write-other h1 c p (some (cell p next w)) (ne_sym c p c_p)
                    ∙ write_self s.heap p (some (cell m c d))),
            frame-write h2 p c zs s.tail null m (some k) right2 m_zs,
          )
          (λ r i. has_cons r p d zs (ne_sym p r (ne-has r p xs i p_xs)) (apart r i)),
      refl,
      refl,
    )
