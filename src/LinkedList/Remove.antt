-- ===== src/LinkedList/Remove.antt =====
-- common/src/LinkedList/linkit.c: `remove_elem` and `data_remove`.
use morning_projects.Common.{
  ℕ, zero, suc, ◌<◌, ◌≡◌, refl, false, none, some, [], ◌∷◌, ◌++◌, ◌==◌, length, arith, ◌>>=◌,
  if◌then◌else◌, Option,
}
use morning_projects.LinkedList.{
  Ptr, null, State, Status, exit_success, exit_failure, take_out, unlink, remove_elem, data_remove,
  search_from, Heap,
}
use morning_projects.LinkedList.Seg.{Nodes, Seg, split}
use morning_projects.LinkedList.Insert.{IsList, occupied}
use morning_projects.LinkedList.Unlink.{unlink-IsList}
use morning_projects.LinkedList.TakeOut.{TakenOut, take_out-IsList, node-ok, first-nonnull}

-- a status with what is left of a node's list
abbrev pub Removed : Ptr → Nodes → Option (Status × State) → Type 0
Removed p rest r = (u : State) × (r ≡ some (exit_success, u)) × IsList u rest × (u.heap p ≡ none)

succeed :
    (p : Ptr) (rest : Nodes) (r : Option State)
    → TakenOut p rest r
    → Removed p rest (r >>= λ u. some (exit_success, u))
succeed p rest r (u, e, is, freed) = (u, rw e refl, is, freed)

node-nonnull :
    (s : State) (xs : Nodes) (p v : ℕ) (ys : Nodes)
    → IsList s (xs ++ ((p, v) ∷ ys))
    → ((p == null) ≡ false) × ((s.num_nodes == 0) ≡ false)
node-nonnull s [] p v ys is =
    (node-ok s.heap null s.head p v ys s.tail null is.chain, occupied s p v ys is)
node-nonnull s ((a, e) ∷ xs) p v ys is =
    let (m, n, left, right, apart) =
      split s.heap null s.head ((a, e) ∷ xs) ((p, v) ∷ ys) s.tail null is.chain in
    (node-ok s.heap m n p v ys s.tail null right, occupied s a e (xs ++ ((p, v) ∷ ys)) is)

-- `remove_elem` of any node of a list succeeds: the list keeps the others in their order, counts
-- them, and its current element is one of them or NULL; the node is given back.
pub remove_elem-IsList :
    (s : State) (xs : Nodes) (p v : ℕ) (ys : Nodes)
    → IsList s (xs ++ ((p, v) ∷ ys))
    → Removed p (xs ++ ys) (remove_elem s p)
unfolding remove_elem
remove_elem-IsList s xs p v ys is =
    let (nonnull, occupied) = node-nonnull s xs p v ys is in
    rw (nonnull, occupied) (succeed p (xs ++ ys) (take_out s p) (take_out-IsList s xs p v ys is))

-- no node of these has the datum
abbrev pub Lacks : ℕ → Nodes → Type 0
Lacks d [] = Unit
Lacks d ((p, v) ∷ xs) = ((v == d) ≡ false) × Lacks d xs

search-hit :
    (h : Heap) (d n : ℕ) (b f : Ptr) (xs : Nodes) (p : Ptr) (ys : Nodes) (l : Ptr)
    → Seg h b f (xs ++ ((p, d) ∷ ys)) l null
    → Lacks d xs
    → length xs < n
    → search_from n h f d ≡ some (some p)
unfolding search_from
search-hit h d zero b f xs p ys l s lacks fuel = absurd (omega arith)
search-hit h d (suc n) b f [] p ys l (e, nonnull, out, q, holds, rest) lacks fuel = ground arith
search-hit h d (suc n) b f ((a, v) ∷ xs) p ys l (e, nonnull, out, q, holds, rest) (miss, lacks)
      fuel =
    let again = search-hit h d n a q xs p ys l rest lacks (omega arith) in ground (arith, again)

search-miss :
    (h : Heap) (d n : ℕ) (b f : Ptr) (xs : Nodes) (l : Ptr)
    → Seg h b f xs l null
    → Lacks d xs
    → length xs < n
    → search_from n h f d ≡ some none
unfolding search_from
search-miss h d zero b f xs l s lacks fuel = absurd (omega arith)
search-miss h d (suc n) b f [] l (e, e') lacks fuel = ground arith
search-miss h d (suc n) b f ((a, v) ∷ xs) l (e, nonnull, out, q, holds, rest) (miss, lacks) fuel =
    let again = search-miss h d n a q xs l rest lacks (omega arith) in ground (arith, again)

head-nonnull :
    (s : State) (xs : Nodes) (p v : ℕ) (ys : Nodes)
    → IsList s (xs ++ ((p, v) ∷ ys))
    → ((s.head == null) ≡ false) × Seg s.heap null s.head (xs ++ ((p, v) ∷ ys)) s.tail null
head-nonnull s [] p v ys is =
    (first-nonnull s.heap null s.head p v ys s.tail null is.chain, is.chain)
head-nonnull s ((a, e) ∷ xs) p v ys is =
    (first-nonnull s.heap null s.head a e (xs ++ ((p, v) ∷ ys)) s.tail null is.chain, is.chain)

data_remove-hit :
    (n : ℕ) (s : State) (d : ℕ) (xs : Nodes) (p : Ptr) (ys : Nodes)
    → IsList s (xs ++ ((p, d) ∷ ys))
    → Lacks d xs
    → length xs < n
    → Removed p (xs ++ ys) (data_remove n s d)
unfolding data_remove
data_remove-hit n s d xs p ys is lacks fuel =
    let (head_ok, chain) = head-nonnull s xs p d ys is in
    rw (head_ok, search-hit s.heap d n null s.head xs p ys s.tail chain lacks fuel)
      (succeed p (xs ++ ys) (unlink s p) (unlink-IsList s xs p d ys is))

data_remove-miss :
    (n : ℕ) (s : State) (d : ℕ) (xs : Nodes)
    → IsList s xs
    → Lacks d xs
    → length xs < n
    → data_remove n s d ≡ some ((if length xs == 0 then exit_failure else exit_success), s)
unfolding data_remove
data_remove-miss n s d [] is lacks fuel = rw is.chain refl
data_remove-miss n s d ((a, v) ∷ xs) is lacks fuel =
    let head_ok = first-nonnull s.heap null s.head a v xs s.tail null is.chain in
    let nothing = search-miss s.heap d n null s.head ((a, v) ∷ xs) s.tail is.chain lacks fuel in
    rw (head_ok, nothing) (ground arith)

-- `data_remove` with more fuel than nodes: of a list that has the datum it takes out the first
-- node with it; a list without it stays as it is, with success if it has nodes and failure if not.
pub data_remove-IsList :
    (n : ℕ) (s : State) (d : ℕ)
    → ((xs : Nodes) (p : Ptr) (ys : Nodes)
        → IsList s (xs ++ ((p, d) ∷ ys))
        → Lacks d xs
        → length xs < n
        → Removed p (xs ++ ys) (data_remove n s d))
      × ((xs : Nodes)
          → IsList s xs
          → Lacks d xs
          → length xs < n
          → data_remove n s d ≡ some ((if length xs == 0 then exit_failure else exit_success), s))
unfolding data_remove
data_remove-IsList n s d = (data_remove-hit n s d, data_remove-miss n s d)
