-- ===== src/LinkedList/Sort.antt =====
-- common/src/LinkedList/linkit.c: `list_sort`, an insertion sort that moves the nodes one by one
-- into a second list. Its loops recur on fuel.
pub mod Place
pub mod Round
pub mod Loop
pub mod Order
use morning_projects.Common.{
  ℕ, zero, suc, Bool, true, false, Option, none, some, ltb, ◌==◌, if◌then◌else◌, ◌>>=◌,
}
use morning_projects.LinkedList.{
  Ptr, null, cell, Heap, State, Status, exit_success, write, load, set_prev, set_next,
}

-- `sort_condition`: the datum of `current` goes behind the one of `node_to_move`
abbrev pub sort_condition : Bool → ℕ → ℕ → Bool
sort_condition is_ascending current moved =
    if is_ascending then ltb moved current else ltb current moved

-- `p->prev = a; p->next = b`
abbrev pub relink : Heap → Ptr → Ptr → Ptr → Option Heap
relink h p a b = load h p >>= λ c. some (write h p (some (cell a b c.value)))

-- the loop over the second list: the node before which to insert
unfoldable pub find_place : ℕ → Bool → Heap → Ptr → ℕ → Option (Option Ptr)
find_place zero is_ascending h current v = none
find_place (suc n) is_ascending h current v =
    let rest = (load h current >>= λ c. find_place n is_ascending h c.next v) in
    if current == null
    then some none
    else (load h current >>= λ c.
        if sort_condition is_ascending c.value v then some (some current) else rest)

-- the insertion before `current`: the heap and `temp_head`
unfoldable pub insert_before : Heap → Ptr → Ptr → Ptr → Option (Heap × Ptr)
insert_before h temp_head p current = do
  c ← load h current
  g ← relink h p c.prev current
  if current == temp_head
      then (set_prev g current p >>= λ k. some (k, p))
      else (load g current >>= λ d.
          (set_next g d.prev p >>= λ k. (set_prev k current p >>= λ m. some (m, temp_head))))

-- the insertion at the end, where no place was found
unfoldable pub append_node : Heap → Ptr → Ptr → Option Heap
append_node h temp_tail p = relink h p temp_tail null >>= λ g. set_next g temp_tail p

-- a round of the outer loop for `node_to_move`: the heap, `temp_head`, `temp_tail`
unfoldable pub place_node : ℕ → Bool → Heap → Ptr → Ptr → Ptr → Option (Heap × Ptr × Ptr)
place_node n is_ascending h temp_head temp_tail p =
    if temp_head == null
    then (relink h p null null >>= λ g. some (g, p, p))
    else (load h p >>= λ c.
        (find_place n is_ascending h temp_head c.value >>= λ found. elim found [
          | none ↦ append_node h temp_tail p >>= λ g. some (g, temp_head, p)
          | some current ↦ insert_before h temp_head p current >>= λ r. some (r.0, r.1, temp_tail)
        ]))

-- the outer loop
unfoldable pub sort_loop : ℕ → ℕ → Bool → Heap → Ptr → Ptr → Ptr → Option (Heap × Ptr × Ptr)
sort_loop zero n is_ascending h p temp_head temp_tail = none
sort_loop (suc rounds) n is_ascending h p temp_head temp_tail = load h p >>= λ c.
    (place_node n is_ascending h temp_head temp_tail p >>= λ r.
    let rest = sort_loop rounds n is_ascending r.0 c.next r.1 r.2 in
    if c.next == null then some r else rest)

-- `list_sort`
unfoldable pub list_sort : ℕ → Bool → State → Option (Status × State)
list_sort fuel is_ascending s =
    if s.num_nodes == 0
    then some (exit_success, s)
    else (sort_loop fuel fuel is_ascending s.heap s.head null null >>= λ r.
        some (exit_success, record s { heap = r.0; head = r.1; tail = r.2 }))
