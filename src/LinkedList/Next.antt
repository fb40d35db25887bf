-- ===== src/LinkedList/Next.antt =====
-- common/src/LinkedList/linkit.c: insertions beside the current element.
use morning_projects.Common.{
  ℕ, ◌≡◌, ◌≢◌, refl, true, false, none, some, [], ◌∷◌, ◌++◌, ◌==◌, Option, arith,
}
use morning_projects.LinkedList.{
  Ptr, null, Cell, cell, State, Status, exit_success, write, load, set_prev, insert_next, link_next,
  Heap,
}
use morning_projects.LinkedList.Seg.{
  Nodes, has, Seg, join, split, relink_first, has-free, has-last, frame-write, load-holds,
  load-write, has-first, not-has, ne-has,
}
use morning_projects.LinkedList.Insert.{Chain, IsList, occupied}

-- The new list has these nodes, in the count and with the current element of the old one.
abbrev pub Linked : State → Nodes → Option (Status × State) → Type 0
Linked s xs r =
    (u : State) × (r ≡ some (exit_success, u))
    × Chain u xs
    × (u.num_nodes ≡ s.num_nodes)
    × (u.current ≡ s.current)

pub Seg-Chain :
    (s : State) (xs : Nodes) (p v : ℕ) (ys : Nodes)
    → Chain s (xs ++ ((p, v) ∷ ys))
    → Seg s.heap null s.head (xs ++ ((p, v) ∷ ys)) s.tail null
Seg-Chain s [] p v ys c = c
Seg-Chain s ((a, e) ∷ xs) p v ys c = c

pub Chain-Seg :
    (s : State) (xs : Nodes) (p v : ℕ) (ys : Nodes)
    → Seg s.heap null s.head (xs ++ ((p, v) ∷ ys)) s.tail null
    → Chain s (xs ++ ((p, v) ∷ ys))
Chain-Seg s [] p v ys c = c
Chain-Seg s ((a, e) ∷ xs) p v ys c = c

link_next_last :
    (s : State) (p d : ℕ) (m : Ptr) (w : ℕ)
    → load s.heap s.current ≡ some (cell m null w)
    → load (write s.heap p (some (cell s.current null d))) s.current ≡ some (cell m null w)
    → (s.current == s.tail) ≡ true
    → link_next s p d
      ≡ some (record s {
        heap = write (write s.heap p (some (cell s.current null d))) s.current (some (cell m p w));
        tail = p;
      })
unfolding link_next
link_next_last s p d m w e1 e2 e3 = rw (e1, e2, e3) refl

link_next_inner :
    (s : State) (p d : ℕ) (m q w : ℕ) (g : Heap)
    → load s.heap s.current ≡ some (cell m q w)
    → load (write s.heap p (some (cell s.current q d))) s.current ≡ some (cell m q w)
    → (s.current == s.tail) ≡ false
    → set_prev
        (write (write s.heap p (some (cell s.current q d))) s.current (some (cell m p w)))
        q
        p
      ≡ some g
    → link_next s p d ≡ some (record s { heap = g })
unfolding link_next
link_next_inner s p d m q w g e1 e2 e3 e4 = rw (e1, e2, e4, e3) refl

insert_next_lem :
    (s : State) (p d : ℕ) {u : State}
    → (s.num_nodes == 0) ≡ false
    → (s.current == null) ≡ false
    → link_next s p d ≡ some u
    → insert_next (some p) s d ≡ some (exit_success, u)
unfolding insert_next
insert_next_lem s p d e1 e2 e3 = rw (e1, e2, e3) refl

pub occupied-mid :
    (s : State) (xs : Nodes) (p v : ℕ) (ys : Nodes)
    → IsList s (xs ++ ((p, v) ∷ ys))
    → (s.num_nodes == 0) ≡ false
occupied-mid s [] p v ys is = occupied s p v ys is
occupied-mid s ((a, e) ∷ xs) p v ys is = occupied s a e (xs ++ ((p, v) ∷ ys)) is

holds_at :
    {o : Option Cell} {m q w q' : ℕ} → q ≡ q' → o ≡ some (cell m q w) → o ≡ some (cell m q' w)
holds_at e h = cc

has_self : (a v : ℕ) (ys : Nodes) → has a ((a, v) ∷ ys) ≡ true
has_self a v ys = ground arith

has-tail : (a p v : ℕ) (ys : Nodes) → has a ((p, v) ∷ ys) ≡ false → has a ys ≡ false
has-tail a p v ys out = ground arith

pub ne_of_not_has : (p a v : ℕ) (ys : Nodes) → has p ((a, v) ∷ ys) ≡ false → (a == p) ≡ false
ne_of_not_has p a v ys out = ground arith

pub ne_of : (a b : ℕ) → a ≢ b → (a == b) ≡ false
ne_of a b h = ground arith

-- the nodes before the current one, and the writes beside it
module _ (h : Heap) (b f : Ptr) (xs : Nodes) (m n c w p d : ℕ) (left : Seg h b f xs m n)
    (at_c : n ≡ c) (c_ok : c ≢ null) (p_ok : p ≢ null) (c_out : has c xs ≡ false)
    (p_out : has p xs ≡ false) (ne : (c == p) ≡ false) where
  next_at_end :
      Seg
        (write (write h p (some (cell c null d))) c (some (cell m p w)))
        b
        f
        (xs ++ ((c, w) ∷ (p, d) ∷ []))
        p
        null
  next_at_end =
      let h1 = write h p (some (cell c null d)) in
      let h2 = write h1 c (some (cell m p w)) in
      join h2 b f xs m n ((c, w) ∷ (p, d) ∷ []) p null
        (frame-write h1 b f xs m n c (some (cell m p w))
          (frame-write h b f xs m n p (some (cell c null d)) left p_out) c_out)
        (
          at_c,
          c_ok,
          ground arith,
          p,
          ground arith,
          (refl, p_ok, refl, null, ground arith, (refl, refl)),
        )
        (λ a i. ground arith)

  next_between :
      (q r z : ℕ) (ys : Nodes) (l : Ptr)
      → Seg h c q ((r, z) ∷ ys) l null
      → has c ((r, z) ∷ ys) ≡ false
      → has p ((r, z) ∷ ys) ≡ false
      → ((a : Ptr) → has a xs ≡ true → has a ((r, z) ∷ ys) ≡ false)
      → (g : Heap) × (set_prev (write (write h p (some (cell c q d))) c (some (cell m p w))) q p
          ≡ some g)
        × Seg g b f (xs ++ ((c, w) ∷ (p, d) ∷ (r, z) ∷ ys)) l null
  next_between q r z ys l right c_far p_far apart =
      let h1 = write h p (some (cell c q d)) in
      let h2 = write h1 c (some (cell m p w)) in
      let kept =
        frame-write h1 c q ((r, z) ∷ ys) l null c (some (cell m p w))
          (frame-write h c q ((r, z) ∷ ys) l null p (some (cell c q d)) right p_far) c_far in
      let (next, written, seg) = relink_first h2 c q r z ys l null p kept in
      let g = write h2 q (some (cell p next z)) in
      let at_q : has q ((r, z) ∷ ys) ≡ true = has-first h c q r z ys l null right in
      let q_out : has q xs ≡ false = not-has xs ((r, z) ∷ ys) q apart at_q in
      let c_q : (c == q) ≡ false = ne-has q c ((r, z) ∷ ys) at_q c_far in
      let p_q : (p == q) ≡ false = ne-has q p ((r, z) ∷ ys) at_q p_far in
      (
        g,
        written,
        join g b f xs m n ((c, w) ∷ (p, d) ∷ (r, z) ∷ ys) l null
            (frame-write h2 b f xs m n q (some (cell p next z))
              (frame-write h1 b f xs m n c (some (cell m p w))
                (frame-write h b f xs m n p (some (cell c q d)) left p_out) c_out)
              q_out)
            (at_c, c_ok, ground arith, p, ground arith, (refl, p_ok, p_far, q, ground arith, seg))
            (λ a i. ground (arith, apart a)),
      )

-- Given memory at an address that holds no node, `insert_next` in a list with a current element
-- succeeds and puts a new node with the datum right behind that element, which stays the current
-- one; but it does not count the new node.
pub insert_next-Linked :
    (s : State) (xs : Nodes) (w : ℕ) (ys : Nodes) (p d : ℕ)
    → IsList s (xs ++ ((s.current, w) ∷ ys))
    → p ≢ null
    → s.heap p ≡ none
    → Linked s (xs ++ ((s.current, w) ∷ (p, d) ∷ ys)) (insert_next (some p) s d)
insert_next-Linked s xs w [] p d is p_ok free =
    let chain = Seg-Chain s xs s.current w [] is.chain in
    let (m, n, left, right, apart) =
      split s.heap null s.head xs ((s.current, w) ∷ []) s.tail null chain in
    let (at_c, c_ok, out, q, holds, (e1, e2)) = right in
    let p_out = has-free s.heap null s.head xs m n p left free in
    let p_far = has-free s.heap m n ((s.current, w) ∷ []) s.tail null p right free in
    let c_out = not-has xs ((s.current, w) ∷ []) s.current apart (ground arith) in
    let ne : (s.current == p) ≡ false = ground arith in
    let nonnull : (s.current == null) ≡ false = ground arith in
    let loaded : load s.heap s.current ≡ some (cell m null w) =
      load-holds s.heap s.current c_ok (holds_at e1 holds) in
    let used : (s.num_nodes == 0) ≡ false = occupied-mid s xs s.current w [] is in
    (
      record s {
        heap = write (write s.heap p (some (cell s.current null d))) s.current (some (cell m p w));
        tail = p;
      },
      insert_next_lem s p d used nonnull (
          link_next_last s p d m w loaded
            (load-write s.heap s.current p (some (cell s.current null d)) loaded ne)
            (ground arith)),
      Chain-Seg
          (record s {
            heap =
                write (write s.heap p (some (cell s.current null d))) s.current (some (cell m p w));
            tail = p;
          })
          xs s.current w ((p, d) ∷ [])
          (next_at_end s.heap null s.head xs m n s.current w p d left at_c c_ok p_ok c_out p_out
            ne),
      refl,
      refl,
    )
insert_next-Linked s xs w ((r, z) ∷ ys) p d is p_ok free =
    let chain = Seg-Chain s xs s.current w ((r, z) ∷ ys) is.chain in
    let (m, n, left, right, apart) =
      split s.heap null s.head xs ((s.current, w) ∷ (r, z) ∷ ys) s.tail null chain in
    let (at_c, c_ok, out, q, holds, rest) = right in
    let p_out = has-free s.heap null s.head xs m n p left free in
    let p_far = has-free s.heap m n ((s.current, w) ∷ (r, z) ∷ ys) s.tail null p right free in
    let c_out =
      not-has xs ((s.current, w) ∷ (r, z) ∷ ys) s.current apart
        (has_self s.current w ((r, z) ∷ ys)) in
    let ne : (s.current == p) ≡ false = ne_of_not_has p s.current w ((r, z) ∷ ys) p_far in
    let nonnull : (s.current == null) ≡ false = ne_of s.current null c_ok in
    let loaded = load-holds s.heap s.current c_ok holds in
    let used : (s.num_nodes == 0) ≡ false = occupied-mid s xs s.current w ((r, z) ∷ ys) is in
    let (tail_ok, tail_in) = has-last s.heap s.current q r z ys s.tail null rest in
    let inner = ne-has s.tail s.current ((r, z) ∷ ys) tail_in out in
    let (g, written, seg) =
      next_between s.heap null s.head xs m n s.current w p d left at_c c_ok p_ok c_out p_out ne q r
        z ys s.tail rest out (has-tail p s.current w ((r, z) ∷ ys) p_far)
        (λ a i. has-tail a s.current w ((r, z) ∷ ys) (apart a i)) in
    (
      record s { heap = g },
      insert_next_lem s p d used nonnull (
          link_next_inner s p d m q w g loaded
            (load-write s.heap s.current p (some (cell s.current q d)) loaded ne) inner written),
      Chain-Seg (record s { heap = g }) xs s.current w ((p, d) ∷ (r, z) ∷ ys) seg,
      refl,
      refl,
    )
