-- ===== src/Tree/Rb/Attach.antt =====
-- `RBtree_attach`, where the new node's memory holds the colour red: the red-black invariant is
-- kept, no rotation reads through NULL, and `rb_sanity_check` finds nothing.
use morning_projects.Common.{
  ℕ, ◌+◌, ◌-◌, ◌≤◌, ◌≡◌, refl, Bool, true, false, ◌&&◌, Option, none, some, [], arith,
  if◌then◌else◌, ◌>>=◌,
}
use Prim.Native.Nat.{compare, Ordering}
use morning_projects.Tree.{Ptr, Tree, exit_success, increment}
use morning_projects.Tree.Rb.{
  Color, red, black, RbNode, leaf, node, is_red, paint, rebalance_left, rebalance_right,
  rb_node_attach, rbtree_attach, rb_sanity_check,
}

-- every path to a NULL child passes the same number `n - 1` of black nodes
abbrev pub BlackHeight : ℕ → RbNode → Type 0
BlackHeight n leaf = n ≡ 1
BlackHeight n (node red l k r) = BlackHeight n l × BlackHeight n r
BlackHeight n (node black l k r) = (2 ≤ n) × BlackHeight (n - 1) l × BlackHeight (n - 1) r

-- no red node has a red child
abbrev pub NoRedRed : RbNode → Type 0
NoRedRed leaf = Unit
NoRedRed (node c l k r) =
    NoRedRed l
    × NoRedRed r
    × ((is_red (node c l k r) && is_red l) ≡ false)
    × ((is_red (node c l k r) && is_red r) ≡ false)

-- the same but at the root, where one child of a red node may be red
abbrev NearlyNoRedRed : RbNode → Type 0
NearlyNoRedRed leaf = Unit
NearlyNoRedRed (node c l k r) = NoRedRed l × NoRedRed r × ((is_red l && is_red r) ≡ false)

-- what an insertion below makes of a subtree whose root was red or not
abbrev Attached : ℕ → Bool → Option RbNode → Type 0
Attached n was_red none = ⊥
Attached n true (some u) = BlackHeight n u × NearlyNoRedRed u × (is_red u ≡ true)
Attached n false (some u) = BlackHeight n u × NoRedRed u

-- below a red node
left_of_red :
    (n : ℕ) (l : RbNode) (k : Ptr) (r : RbNode)
    → Attached n false (some l)
    → BlackHeight n r
    → NoRedRed r
    → is_red r ≡ false
    → Attached n true (rebalance_left red l k r)
unfolding rebalance_left
left_of_red n leaf k r a br nr e = ground arith
left_of_red n (node black a m b) k r h br nr e = ground arith
left_of_red n (node red a m b) k r h br nr e = ground arith

right_of_red :
    (n : ℕ) (l : RbNode) (k : Ptr) (r : RbNode)
    → Attached n false (some r)
    → BlackHeight n l
    → NoRedRed l
    → is_red l ≡ false
    → Attached n true (rebalance_right red l k r)
unfolding rebalance_right
right_of_red n l k leaf a br nr e = ground arith
right_of_red n l k (node black a m b) h br nr e = ground arith
right_of_red n l k (node red a m b) h br nr e = ground arith

-- below a black node
left_of_black :
    (n : ℕ) (was_red : Bool) (l : RbNode) (k : Ptr) (r : RbNode)
    → 2 ≤ n
    → Attached (n - 1) was_red (some l)
    → BlackHeight (n - 1) r
    → NoRedRed r
    → Attached n false (rebalance_left black l k r)
unfolding rebalance_left
left_of_black n true leaf k r e h br nr = ground arith
left_of_black n false leaf k r e h br nr = ground arith
left_of_black n true (node black a m b) k r e h br nr = ground arith
left_of_black n false (node black a m b) k r e h br nr = ground arith
left_of_black n true (node red a m leaf) k leaf e h br nr = ground arith
left_of_black n true (node red a m leaf) k (node c p x q) e h br nr = ground arith
left_of_black n true (node red a m (node d s y t)) k leaf e h br nr = ground arith
left_of_black n true (node red a m (node d s y t)) k (node c p x q) e h br nr = ground arith
left_of_black n false (node red a m b) k leaf e h br nr = ground arith
left_of_black n false (node red a m b) k (node c p x q) e h br nr = ground arith

right_of_black :
    (n : ℕ) (was_red : Bool) (l : RbNode) (k : Ptr) (r : RbNode)
    → 2 ≤ n
    → Attached (n - 1) was_red (some r)
    → BlackHeight (n - 1) l
    → NoRedRed l
    → Attached n false (rebalance_right black l k r)
unfolding rebalance_right
right_of_black n true l k leaf e h br nr = ground arith
right_of_black n false l k leaf e h br nr = ground arith
right_of_black n true l k (node black a m b) e h br nr = ground arith
right_of_black n false l k (node black a m b) e h br nr = ground arith
right_of_black n true leaf k (node red leaf m b) e h br nr = ground arith
right_of_black n true (node c p x q) k (node red leaf m b) e h br nr = ground arith
right_of_black n true leaf k (node red (node d s y t) m b) e h br nr = ground arith
right_of_black n true (node c p x q) k (node red (node d s y t) m b) e h br nr = ground arith
right_of_black n false leaf k (node red a m b) e h br nr = ground arith
right_of_black n false (node c p x q) k (node red a m b) e h br nr = ground arith

-- one level up from the child that received the node
up_left :
    (n : ℕ) (c : Color) (l : RbNode) (k : Ptr) (r : RbNode) (d : Option RbNode)
    → BlackHeight n (node c l k r)
    → NoRedRed (node c l k r)
    → Attached (if is_red (node c l k r) then n else n - 1) (is_red l) d
    → Attached n (is_red (node c l k r)) (d >>= λ l'. rebalance_left c l' k r)
up_left n c l k r none bh nr h = absurd h
up_left n red l k r (some l') bh nr h = left_of_red n l' k r (rw nr.2 at h) bh.1 nr.1 nr.3
up_left n black l k r (some l') bh nr h = left_of_black n (is_red l) l' k r bh.0 h bh.2 nr.1

up_right :
    (n : ℕ) (c : Color) (l : RbNode) (k : Ptr) (r : RbNode) (d : Option RbNode)
    → BlackHeight n (node c l k r)
    → NoRedRed (node c l k r)
    → Attached (if is_red (node c l k r) then n else n - 1) (is_red r) d
    → Attached n (is_red (node c l k r)) (d >>= λ r'. rebalance_right c l k r')
up_right n c l k r none bh nr h = absurd h
up_right n red l k r (some r') bh nr h = right_of_red n l k r' (rw nr.3 at h) bh.0 nr.0 nr.2
up_right n black l k r (some r') bh nr h = right_of_black n (is_red r) l k r' bh.0 h bh.1 nr.0

-- `rb_sanity_check` finds the black height and prints nothing
rb_sanity_check-pass :
    (n : ℕ) (t : RbNode) → 1 ≤ n → BlackHeight n t → NoRedRed t → rb_sanity_check t ≡ (n, [])
unfolding rb_sanity_check
rb_sanity_check-pass n leaf h bh nr = ground arith
rb_sanity_check-pass n (node red l k r) h bh nr =
    rw (rb_sanity_check-pass n l h bh.0 nr.0, rb_sanity_check-pass n r h bh.1 nr.1, nr.3)
      (ground arith)
rb_sanity_check-pass n (node black l k r) h bh nr =
    let low : 1 ≤ n - 1 = omega arith in
    rw (rb_sanity_check-pass (n - 1) l low bh.1 nr.0, rb_sanity_check-pass (n - 1) r low bh.2 nr.1)
      (ground arith)

-- what the painted root of an insertion satisfies
abbrev pub Rooted : ℕ → RbNode → Type 0
Rooted n u = BlackHeight n u × NoRedRed u × (is_red u ≡ false)

height_pos : (n : ℕ) (t : RbNode) → BlackHeight n t → 1 ≤ n
height_pos n leaf h = omega arith
height_pos n (node red l k r) h = height_pos n l h.0
height_pos n (node black l k r) h = omega arith

paint-Rooted :
    (n : ℕ) (was_red : Bool) (u : RbNode)
    → Attached n was_red (some u)
    → (m : ℕ) × (n ≤ m) × (m ≤ n + 1) × Rooted m (paint black u)
paint-Rooted n true leaf h = (n, ground arith, ground arith, ground arith)
paint-Rooted n false leaf h = (n, ground arith, ground arith, ground arith)
paint-Rooted n true (node red l k r) h =
    let e : n ≡ n + 1 - 1 = omega arith in
    let one : 1 ≤ n = height_pos n l h.0.0 in
    (
      n + 1,
      omega arith,
      omega arith,
      ((omega arith, rw (← e) h.0.0, rw (← e) h.0.1), (h.1.0, h.1.1, refl, refl), refl),
    )
paint-Rooted n true (node black l k r) h = (n, ground arith, ground arith, ground arith)
paint-Rooted n false (node red l k r) h =
    let e : n ≡ n + 1 - 1 = omega arith in
    let one : 1 ≤ n = height_pos n l h.0.0 in
    (
      n + 1,
      omega arith,
      omega arith,
      ((omega arith, rw (← e) h.0.0, rw (← e) h.0.1), (h.1.0, h.1.1, refl, refl), refl),
    )
paint-Rooted n false (node black l k r) h = (n, ground arith, ground arith, ground arith)

Attached-some :
    (n : ℕ) (was_red : Bool) (d : Option RbNode)
    → Attached n was_red d
    → (u : RbNode) × (d ≡ some u) × Attached n was_red (some u)
Attached-some n was_red none h = absurd h
Attached-some n was_red (some u) h = (u, refl, h)

by_side :
    (n : ℕ) (was_red : Bool) (below above same : Option RbNode) (o : Ordering)
    → Attached n was_red below
    → Attached n was_red above
    → Attached n was_red same
    → Attached n was_red (elim o [ Ordering.lt ↦ below | Ordering.gt ↦ above | Ordering.eq ↦ same ])
by_side n was_red below above same Ordering.lt a b c = a
by_side n was_red below above same Ordering.eq a b c = c
by_side n was_red below above same Ordering.gt a b c = b

kept : (n : ℕ) (t : RbNode) → BlackHeight n t → NoRedRed t → Attached n (is_red t) (some t)
kept n leaf bh nr = (bh, nr)
kept n (node red l k r) bh nr = ground arith
kept n (node black l k r) bh nr = (bh, nr)

module _ (deref : Ptr → ℕ) (new : Ptr) where
  rb_node_attach-Attached :
      (n : ℕ) (t : RbNode)
      → BlackHeight n t
      → NoRedRed t
      → Attached n (is_red t) (rb_node_attach deref red t new)
  unfolding rb_node_attach
  rb_node_attach-Attached n leaf bh nr = ground arith
  rb_node_attach-Attached n (node red l k r) bh nr =
      by_side n true (rb_node_attach deref red l new >>= λ l'. rebalance_left red l' k r)
        (rb_node_attach deref red r new >>= λ r'. rebalance_right red l k r')
        (some (node red l k r)) (compare (deref new) (deref k))
        (up_left n red l k r (rb_node_attach deref red l new) bh nr
          (rb_node_attach-Attached n l bh.0 nr.0))
        (up_right n red l k r (rb_node_attach deref red r new) bh nr
          (rb_node_attach-Attached n r bh.1 nr.1))
        (kept n (node red l k r) bh nr)
  rb_node_attach-Attached n (node black l k r) bh nr =
      by_side n false (rb_node_attach deref red l new >>= λ l'. rebalance_left black l' k r)
        (rb_node_attach deref red r new >>= λ r'. rebalance_right black l k r')
        (some (node black l k r)) (compare (deref new) (deref k))
        (up_left n black l k r (rb_node_attach deref red l new) bh nr
          (rb_node_attach-Attached (n - 1) l bh.1 nr.0))
        (up_right n black l k r (rb_node_attach deref red r new) bh nr
          (rb_node_attach-Attached (n - 1) r bh.2 nr.1))
        (kept n (node black l k r) bh nr)

  -- Given memory, and if that memory holds the colour red, `RBtree_attach` on a red-black tree
  -- (equal black heights, no red node with a red child) succeeds without a read through NULL. The
  -- new tree is red-black with a black root, its black height is the old one or one more, and
  -- `rb_sanity_check` returns that height and prints no warning.
  pub rbtree_attach-Rooted :
      (n : ℕ) (t : Tree RbNode)
      → BlackHeight n t.root
      → NoRedRed t.root
      → (u : Tree RbNode) × (rbtree_attach deref true red t new ≡ some (exit_success, u))
        × ((m : ℕ) × (n ≤ m) × (m ≤ n + 1) × Rooted m u.root × (rb_sanity_check u.root ≡ (m, [])))
  unfolding rbtree_attach
  rbtree_attach-Rooted n t bh nr =
      let (root, e, h) =
        Attached-some n (is_red t.root) (rb_node_attach deref red t.root new)
          (rb_node_attach-Attached n t.root bh nr) in
      let (m, low, high, rooted) = paint-Rooted n (is_red t.root) root h in
      let pos = height_pos m (paint black root) rooted.0 in
      (
        record t { num_nodes = increment t.num_nodes; root = paint black root },
        rw e,
        (m, low, high, rooted, rb_sanity_check-pass m (paint black root) pos rooted.0 rooted.1),
      )
