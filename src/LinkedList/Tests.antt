-- ===== src/LinkedList/Tests.antt =====
-- Runs of the list of common/src/LinkedList/linkit.c.
use morning_projects.Common.{
  ◌≡◌, refl, false, none, some, [], ◌∷◌, ◌==◌, arith, inr, if◌then◌else◌, ◌>>=◌,
}
use morning_projects.LinkedList.{
  cell, Heap, State, exit_success, insert_head, insert_tail, insert_prev, insert_next, remove_elem,
  data_remove, list_display, list_init, link_prev,
}
use morning_projects.LinkedList.Insert.{IsList, insert_head-IsList, insert_tail-IsList}
use morning_projects.LinkedList.Next.{Linked, insert_next-Linked}
use morning_projects.LinkedList.Remove.{Removed, remove_elem-IsList, data_remove-IsList}
use morning_projects.LinkedList.Sort.{list_sort}
use morning_projects.LinkedList.Sort.Order.{SortedList, list_sort-SortedList}

abbrev two_cells : Heap
two_cells a = if a == 1 then some (cell 0 2 5) else if a == 2 then some (cell 1 0 7) else none

abbrev two_nodes : State
two_nodes = record { heap = two_cells; num_nodes = 2; head = 1; tail = 2; current = 1 }

two_nodes-IsList : IsList two_nodes ((1, 5) ∷ (2, 7) ∷ [])
two_nodes-IsList = record {
  chain = (refl, omega arith, refl, 2, refl, (refl, omega arith, refl, 0, refl, (refl, refl)));
  count = refl;
  bound = omega arith;
  at = inr refl;
}

insert_head-IsList_example :
    (u : State) × (insert_head (some 9) two_nodes 4 ≡ some (exit_success, u))
    × IsList u ((9, 4) ∷ (1, 5) ∷ (2, 7) ∷ [])
insert_head-IsList_example =
    insert_head-IsList two_nodes ((1, 5) ∷ (2, 7) ∷ []) 9 4 two_nodes-IsList (omega arith) refl
      (omega arith)

insert_tail-IsList_example :
    (u : State) × (insert_tail (some 9) two_nodes 4 ≡ some (exit_success, u))
    × IsList u ((1, 5) ∷ (2, 7) ∷ (9, 4) ∷ [])
insert_tail-IsList_example =
    insert_tail-IsList two_nodes ((1, 5) ∷ (2, 7) ∷ []) 9 4 two_nodes-IsList (omega arith) refl
      (omega arith)

insert_next-Linked_example :
    Linked two_nodes ((1, 5) ∷ (9, 4) ∷ (2, 7) ∷ []) (insert_next (some 9) two_nodes 4)
insert_next-Linked_example =
    insert_next-Linked two_nodes [] 5 ((2, 7) ∷ []) 9 4 two_nodes-IsList (omega arith) refl

remove_elem-IsList_example : Removed 2 ((1, 5) ∷ []) (remove_elem two_nodes 2)
remove_elem-IsList_example = remove_elem-IsList two_nodes ((1, 5) ∷ []) 2 7 [] two_nodes-IsList

data_remove-IsList_example : Removed 2 ((1, 5) ∷ []) (data_remove 2 two_nodes 7)
data_remove-IsList_example =
    (data_remove-IsList 2 two_nodes 7).0 ((1, 5) ∷ []) 2 [] two_nodes-IsList (refl, tt)
      (omega arith)

list_sort-SortedList_example :
    SortedList false two_nodes ((1, 5) ∷ (2, 7) ∷ []) (list_sort 2 false two_nodes)
list_sort-SortedList_example =
    list_sort-SortedList 2 false two_nodes ((1, 5) ∷ (2, 7) ∷ []) two_nodes-IsList (omega arith)

-- `insert_prev` before the head, and its count
insert_prev_run :
    (insert_prev (some 9) two_nodes 4 >>= λ r. list_display 3 r.1)
    ≡ some (exit_success, 4 ∷ 5 ∷ 7 ∷ [])
unfolding insert_prev link_prev list_display
insert_prev_run = refl

-- a list that `insert_next` began is empty to the other operations
insert_next_run :
    (insert_next (some 9) (list_init two_cells).1 4 >>= λ r. list_display 3 r.1)
    ≡ some (exit_success, [])
unfolding insert_next list_display list_init
insert_next_run = refl
