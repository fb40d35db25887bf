-- ===== src/LinkedList/Unlink.antt =====
-- common/src/LinkedList/linkit.c: `data_remove` and `remove_elem` take the same node out of a list,
-- though they tell the last node by different tests.
use morning_projects.Common.{ℕ, ◌≡◌, refl, true, false, some, [], ◌∷◌, ◌++◌, ◌==◌, arith}
use morning_projects.LinkedList.{
  Ptr, null, Cell, cell, Heap, State, load, set_next, take_out, unlink,
}
use morning_projects.LinkedList.Seg.{
  Nodes, has, Seg, split, relink_last, load-holds, load-write, has-last,
}
use morning_projects.LinkedList.Insert.{IsList}
use morning_projects.LinkedList.TakeOut.{TakenOut, take_out-IsList, ne_of_not_has, first-nonnull}

-- of a list's nodes the one at the tail has no next node, and it alone
tail_test :
    (h : Heap) (p : Ptr) (q : Ptr) (ys : Nodes) (l : Ptr)
    → has p ys ≡ false
    → Seg h p q ys l null
    → (p == l) ≡ (q == null)
tail_test h p q [] l out (e, e') = ground arith
tail_test h p q ((r, w) ∷ ys) l out rest =
    let (l_ok, l_in) = has-last h p q r w ys l null rest in
    let q_ok = first-nonnull h p q r w ys l null rest in ground arith

unlink-steps :
    (s : State) (p : Ptr) (c : Cell) (h : Heap)
    → load s.heap p ≡ some c
    → (s.head == p) ≡ false
    → (p == s.head) ≡ false
    → set_next s.heap c.prev c.next ≡ some h
    → load h p ≡ some c
    → (p == s.tail) ≡ (c.next == null)
    → unlink s p ≡ take_out s p
unfolding unlink take_out
unlink-steps s p c h e1 e2 e3 e4 e5 e6 = rw (e1, e2, e3, e4, e5, e6) refl

unlink-take_out :
    (s : State) (xs : Nodes) (p v : ℕ) (ys : Nodes)
    → IsList s (xs ++ ((p, v) ∷ ys))
    → unlink s p ≡ take_out s p
unfolding unlink take_out
unlink-take_out s [] p v ys is =
    let (e, nonnull, out, q, holds, rest) = is.chain in
    let loaded = load-holds s.heap p nonnull holds in
    let at_head : (s.head == p) ≡ true = ground arith in
    let head_at : (p == s.head) ≡ true = ground arith in rw (loaded, at_head, head_at) refl
unlink-take_out s ((a, e) ∷ xs) p v ys is =
    let (m, n, left, right, apart) =
      split s.heap null s.head ((a, e) ∷ xs) ((p, v) ∷ ys) s.tail null is.chain in
    let (e1, nonnull, out, q, holds, rest) = right in
    let (m_ok, m_in) = has-last s.heap null s.head a e xs m n left in
    let (c, written, seg) = relink_last s.heap null s.head a e xs m n q left in
    let others : has p ((a, e) ∷ xs) ≡ false = ground (arith, apart p) in
    let m_ne : (p == m) ≡ false = ne_of_not_has p m v ys (apart m m_in) in
    let loaded = load-holds s.heap p nonnull holds in
    let head_ne : (s.head == p) ≡ false = ground (arith, left, others) in
    let ne_head : (p == s.head) ≡ false = ground (arith, left, others) in
    unlink-steps s p (cell m q v) _ loaded head_ne ne_head written
      (load-write s.heap p m (some c) loaded m_ne) (tail_test s.heap p q ys s.tail out rest)

pub unlink-IsList :
    (s : State) (xs : Nodes) (p v : ℕ) (ys : Nodes)
    → IsList s (xs ++ ((p, v) ∷ ys))
    → TakenOut p (xs ++ ys) (unlink s p)
unlink-IsList s xs p v ys is = rw (unlink-take_out s xs p v ys is) (take_out-IsList s xs p v ys is)
