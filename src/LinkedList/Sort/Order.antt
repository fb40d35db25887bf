-- ===== src/LinkedList/Sort/Order.antt =====
-- common/src/LinkedList/linkit.c: the order that `list_sort` makes.
use morning_projects.Common.{
  ℕ, suc, ◌+◌, ◌<◌, ◌≡◌, ◌⊎◌, inl, inr, refl, Bool, true, false, some, [], ◌∷◌, ◌++◌, leb, ◌||◌,
  length, arith, if◌then◌else◌, ◌∙◌, sym, Bool-cases, append-nil, Option,
}
use mathlib.Core.List.{Perm, perm_middle}
use mathlib.Core.List.Perm
use morning_projects.LinkedList.{Ptr, null, State, Status, exit_success}
use morning_projects.LinkedList.Seg.{Nodes, has, Seg}
use morning_projects.LinkedList.Insert.{Chain, IsList, occupied}
use morning_projects.LinkedList.Sort.{sort_condition, list_sort}
use morning_projects.LinkedList.Sort.Place.{insert_node}
use morning_projects.LinkedList.Sort.Loop.{
  insert_all, sort_loop-Seg, Rest-Seg, has-insert_node, length-insert_node,
}

-- `v` may stand before each datum of the nodes
abbrev pub Before : Bool → ℕ → Nodes → Type 0
Before asc v [] = Unit
Before asc v ((p, w) ∷ xs) = ((if asc then leb v w else leb w v) ≡ true) × Before asc v xs

-- the data go up, or down
abbrev pub Ordered : Bool → Nodes → Type 0
Ordered asc [] = Unit
Ordered asc ((p, v) ∷ xs) = Before asc v xs × Ordered asc xs

step_up :
    (asc : Bool) (w v : ℕ)
    → sort_condition asc w v ≡ true
    → (if asc then leb v w else leb w v) ≡ true
step_up true w v e = ground arith
step_up false w v e = ground arith

step_down :
    (asc : Bool) (w v : ℕ)
    → sort_condition asc w v ≡ false
    → (if asc then leb w v else leb v w) ≡ true
step_down true w v e = ground arith
step_down false w v e = ground arith

trans_step :
    (asc : Bool) (u v w : ℕ)
    → (if asc then leb u v else leb v u) ≡ true
    → (if asc then leb v w else leb w v) ≡ true
    → (if asc then leb u w else leb w u) ≡ true
trans_step true u v w a b = ground arith
trans_step false u v w a b = ground arith

Before-trans :
    (asc : Bool) (u v : ℕ) (xs : Nodes)
    → (if asc then leb u v else leb v u) ≡ true
    → Before asc v xs
    → Before asc u xs
Before-trans asc u v [] a b = tt
Before-trans asc u v ((p, w) ∷ xs) a (b, c) =
    (trans_step asc u v w a b, Before-trans asc u v xs a c)

Before-insert_node :
    (asc : Bool) (u p v : ℕ) (xs : Nodes)
    → (if asc then leb u v else leb v u) ≡ true
    → Before asc u xs
    → Before asc u (insert_node asc p v xs)
Before-insert_node asc u p v [] a b = (a, tt)
Before-insert_node asc u p v ((c, w) ∷ xs) a (b, d) = elim (Bool-cases (sort_condition asc w v)) [
  | inl here ↦ rw here (a, (b, d))
  | inr on ↦ rw on (b, Before-insert_node asc u p v xs a d)
]

Ordered-insert_node :
    (asc : Bool) (p v : ℕ) (xs : Nodes) → Ordered asc xs → Ordered asc (insert_node asc p v xs)
Ordered-insert_node asc p v [] o = (tt, tt)
Ordered-insert_node asc p v ((c, w) ∷ xs) (b, o) = elim (Bool-cases (sort_condition asc w v)) [
  | inl here ↦
      rw here ((step_up asc w v here, Before-trans asc v w xs (step_up asc w v here) b), (b, o))
  | inr on ↦
      rw on
        (Before-insert_node asc w p v xs (step_down asc w v on) b, Ordered-insert_node asc p v xs o)
]

Ordered-insert_all :
    (asc : Bool) (xs ys : Nodes) → Ordered asc ys → Ordered asc (insert_all asc xs ys)
Ordered-insert_all asc [] ys o = o
Ordered-insert_all asc ((p, v) ∷ xs) ys o =
    Ordered-insert_all asc xs (insert_node asc p v ys) (Ordered-insert_node asc p v ys o)

insert_node-perm : (asc : Bool) (p v : ℕ) (xs : Nodes) → Perm (insert_node asc p v xs) ((p, v) ∷ xs)
insert_node-perm asc p v [] = Perm.refl ((p, v) ∷ [])
insert_node-perm asc p v ((c, w) ∷ xs) = elim (Bool-cases (sort_condition asc w v)) [
  | inl here ↦ rw here (Perm.refl ((p, v) ∷ (c, w) ∷ xs))
  | inr on ↦
      rw on
        (Perm.trans (Perm.cons (c, w) (insert_node-perm asc p v xs)) (Perm.swap (p, v) (c, w) xs))
]

insert_all-perm : (asc : Bool) (xs ys : Nodes) → Perm (insert_all asc xs ys) (xs ++ ys)
insert_all-perm asc [] ys = Perm.refl ys
insert_all-perm asc ((p, v) ∷ xs) ys =
    Perm.trans (insert_all-perm asc xs (insert_node asc p v ys))
      (Perm.trans (Perm.append (Perm.refl xs) (insert_node-perm asc p v ys)) (perm_middle xs ys))

length-insert_all :
    (asc : Bool) (xs ys : Nodes) → length (insert_all asc xs ys) ≡ length xs + length ys
length-insert_all asc [] ys = omega arith
length-insert_all asc ((p, v) ∷ xs) ys =
    omega (arith, length-insert_all asc xs (insert_node asc p v ys), length-insert_node asc p v ys)

has-insert_all :
    (a : Ptr) (asc : Bool) (xs ys : Nodes) → has a (insert_all asc xs ys) ≡ (has a xs || has a ys)
has-insert_all a asc [] ys = refl
has-insert_all a asc ((p, v) ∷ xs) ys =
    ground (arith, has-insert_all a asc xs (insert_node asc p v ys), has-insert_node a asc p v ys)

-- the nodes of a list in the order that `list_sort` gives them
abbrev pub sorted_nodes : Bool → Nodes → Nodes
sorted_nodes asc xs = insert_all asc xs []

at-sorted :
    (c : Ptr) (asc : Bool) (xs : Nodes)
    → (c ≡ null) ⊎ (has c xs ≡ true)
    → (c ≡ null) ⊎ (has c (sorted_nodes asc xs) ≡ true)
at-sorted c asc xs h = elim h [
  | inl e ↦ inl e
  | inr i ↦ inr (ground (arith, has-insert_all c asc xs []))
]

length-sorted : (asc : Bool) (xs : Nodes) → length (sorted_nodes asc xs) ≡ length xs
length-sorted asc xs = omega (arith, length-insert_all asc xs [])

sorted-perm : (asc : Bool) (xs : Nodes) → Perm (sorted_nodes asc xs) xs
sorted-perm asc xs = rw append-nil at (insert_all-perm asc xs [])

Chain-nonempty :
    (s : State) (n : ℕ) (xs : Nodes)
    → length xs ≡ suc n
    → Seg s.heap null s.head xs s.tail null
    → Chain s xs
Chain-nonempty s n [] e seg = absurd (omega (arith, e))
Chain-nonempty s n ((p, v) ∷ xs) e seg = seg

-- What `list_sort` leaves of a list of these nodes.
abbrev pub SortedList : Bool → State → Nodes → Option (Status × State) → Type 0
SortedList asc s xs r =
    (u : State) × (ys : Nodes) × (r ≡ some (exit_success, u))
    × IsList u ys
    × Perm ys xs
    × Ordered asc ys
    × (u.current ≡ s.current)

-- `list_sort` with as much fuel as the list has nodes succeeds: the nodes are the same, linked both
-- ways and counted, their data go up or down as asked, and the current element stays.
pub list_sort-SortedList :
    (fuel : ℕ) (asc : Bool) (s : State) (xs : Nodes)
    → IsList s xs
    → length xs < fuel + 1
    → SortedList asc s xs (list_sort fuel asc s)
unfolding list_sort
list_sort-SortedList fuel asc s [] is enough = (s, [], rw is.count refl, is, Perm.refl [], tt, refl)
list_sort-SortedList fuel asc s ((p, v) ∷ xs) is enough =
    let (h, head, tail, sorted, seg) =
      sort_loop-Seg fuel fuel asc s.heap s.head p v xs null [] null
        (Rest-Seg s.heap null s.head ((p, v) ∷ xs) s.tail is.chain) (refl, refl) (λ a i. refl)
        (omega arith) (omega arith) in
    let u = record s { heap = h; head = head; tail = tail } in
    (
      u,
      sorted_nodes asc ((p, v) ∷ xs),
      rw (occupied s p v xs is, sorted) refl,
      record {
        chain =
            Chain-nonempty u (length xs) (sorted_nodes asc ((p, v) ∷ xs))
              (length-sorted asc ((p, v) ∷ xs)) seg;
        count = is.count ∙ sym (length-sorted asc ((p, v) ∷ xs));
        bound = rw (length-sorted asc ((p, v) ∷ xs)) is.bound;
        at = at-sorted s.current asc ((p, v) ∷ xs) is.at;
      },
      sorted-perm asc ((p, v) ∷ xs),
      Ordered-insert_all asc ((p, v) ∷ xs) [] tt,
      refl,
    )
