-- ===== src/LinkedList/Insert.antt =====
-- common/src/LinkedList/linkit.c: the invariant of the list, and insertions at its ends.
use morning_projects.Common.{
  ℕ, ◌+◌, ◌^◌, ◌<◌, ◌≡◌, ◌≢◌, ◌⊎◌, inl, inr, refl, true, false, none, some, [], ◌∷◌, ◌++◌, ◌==◌,
  length, length-append, arith,
}
use morning_projects.LinkedList.{
  null, cell, State, exit_success, count_up, write, insert_head, insert_tail, list_init, Heap,
}
use morning_projects.LinkedList.Seg.{
  Nodes, has, Seg, frame, join, relink_first, relink_last, has-free, has-append, has-last,
}

-- Of an empty list only the head counts: `list_destroy` leaves the tail as it was.
abbrev pub Chain : State → Nodes → Type 0
Chain s [] = s.head ≡ null
Chain s ((p, v) ∷ xs) = Seg s.heap null s.head ((p, v) ∷ xs) s.tail null

-- the list holds these nodes, counts them, and its current element is one of them or NULL
pub record IsList (s : State) (xs : Nodes) : Type 0 where
  pub chain : Chain s xs
  pub count : s.num_nodes ≡ length xs
  pub bound : length xs < 2 ^ 31
  pub at : (s.current ≡ null) ⊎ (has s.current xs ≡ true)

pub list_init-IsList : (h : Heap) → IsList (list_init h).1 []
unfolding list_init
list_init-IsList h = record { chain = refl; count = refl; bound = omega arith; at = inl refl }

pub count_up_lem : (n : ℕ) → n + 1 < 2 ^ 31 → count_up n ≡ n + 1
count_up_lem n h = omega arith

pub occupied :
    (s : State) (p v : ℕ) (xs : Nodes) → IsList s ((p, v) ∷ xs) → (s.num_nodes == 0) ≡ false
occupied s p v xs is = rw is.count (ground arith)

pub at-cons :
    (s : State) (p d : ℕ) (xs : Nodes)
    → IsList s xs
    → (s.current ≡ null) ⊎ (has s.current ((p, d) ∷ xs) ≡ true)
at-cons s p d xs is = elim is.at [ inl e ↦ inl e | inr i ↦ inr (ground arith) ]

pub at-append :
    (s : State) (p d : ℕ) (xs : Nodes)
    → IsList s xs
    → (s.current ≡ null) ⊎ (has s.current (xs ++ ((p, d) ∷ [])) ≡ true)
at-append s p d xs is = elim is.at [
  | inl e ↦ inl e
  | inr i ↦ inr (ground (arith, has-append s.current xs ((p, d) ∷ [])))
]

-- Given memory at an address that holds no node, and with it fewer than 2 ^ 31 nodes, `insert_head`
-- succeeds and puts a new node with the datum before the nodes of the list.
pub insert_head-IsList :
    (s : State) (xs : Nodes) (p d : ℕ)
    → IsList s xs
    → p ≢ null
    → s.heap p ≡ none
    → length xs + 1 < 2 ^ 31
    → (u : State) × (insert_head (some p) s d ≡ some (exit_success, u)) × IsList u ((p, d) ∷ xs)
unfolding insert_head
insert_head-IsList s [] p d is nonnull free small = (
  record {
    heap = write s.heap p (some (cell null null d));
    num_nodes = count_up s.num_nodes;
    head = p;
    tail = p;
    current = p;
  },
  rw is.count refl,
  record {
    chain = (refl, nonnull, refl, null, ground arith, (refl, refl));
    count = ground (arith, is.count);
    bound = omega arith;
    at = inr (ground arith);
  },
)
insert_head-IsList s ((r, w) ∷ xs) p d is nonnull free small =
    let h = write s.heap p (some (cell null s.head d)) in
    let out = has-free s.heap null s.head ((r, w) ∷ xs) s.tail null p is.chain free in
    let moved = frame s.heap h null s.head ((r, w) ∷ xs) s.tail null is.chain (ground arith) in
    let (q, written, seg) = relink_first h null s.head r w xs s.tail null p moved in
    (
      record s {
        heap = write h s.head (some (cell p q w));
        head = p;
        num_nodes = count_up s.num_nodes;
      },
      rw (occupied s r w xs is, written) refl,
      record {
        chain = (refl, nonnull, out, s.head, ground (arith, is.chain), seg);
        count = rw is.count (omega arith);
        bound = omega arith;
        at = at-cons s p d ((r, w) ∷ xs) is;
      },
    )

-- Given memory at an address that holds no node, and with it fewer than 2 ^ 31 nodes, `insert_tail`
-- succeeds and puts a new node with the datum behind the nodes of the list.
pub insert_tail-IsList :
    (s : State) (xs : Nodes) (p d : ℕ)
    → IsList s xs
    → p ≢ null
    → s.heap p ≡ none
    → length xs + 1 < 2 ^ 31
    → (u : State) × (insert_tail (some p) s d ≡ some (exit_success, u))
      × IsList u (xs ++ ((p, d) ∷ []))
unfolding insert_tail
insert_tail-IsList s [] p d is nonnull free small = (
  record {
    heap = write s.heap p (some (cell null null d));
    num_nodes = count_up s.num_nodes;
    head = p;
    tail = p;
    current = p;
  },
  rw is.count refl,
  record {
    chain = (refl, nonnull, refl, null, ground arith, (refl, refl));
    count = ground (arith, is.count);
    bound = omega arith;
    at = inr (ground arith);
  },
)
insert_tail-IsList s ((r, w) ∷ xs) p d is nonnull free small =
    let h = write s.heap p (some (cell s.tail null d)) in
    let out = has-free s.heap null s.head ((r, w) ∷ xs) s.tail null p is.chain free in
    let (tail_ok, tail_in) = has-last s.heap null s.head r w xs s.tail null is.chain in
    let moved = frame s.heap h null s.head ((r, w) ∷ xs) s.tail null is.chain (ground arith) in
    let (c, written, seg) = relink_last h null s.head r w xs s.tail null p moved in
    (
      record s { heap = write h s.tail (some c); tail = p; num_nodes = count_up s.num_nodes },
      rw (occupied s r w xs is, written) refl,
      record {
        chain =
            join (write h s.tail (some c)) null s.head ((r, w) ∷ xs) s.tail p ((p, d) ∷ []) p null
              seg (refl, nonnull, refl, null, ground arith, (refl, refl)) (ground arith);
        count = ground (arith, is.count, length-append xs ((p, d) ∷ []));
        bound = ground (arith, length-append xs ((p, d) ∷ []));
        at = at-append s p d ((r, w) ∷ xs) is;
      },
    )
