-- ===== src/LinkedList.antt =====
-- common/src/LinkedList/linkit.c and linkit.h: a doubly linked list of ints with a current element.
-- The nodes lie in a heap; `none` is a fault: a read or write at NULL or at an address that holds
-- no node. Each operation takes what `malloc` returns as a parameter, `none` for NULL. The fields
-- of a new node, which nothing reads meanwhile, are written at once. What the operations print, but
-- for the data of `list_display`, is left out.
pub mod Seg
pub mod Insert
pub mod TakeOut
pub mod Unlink
pub mod Remove
pub mod Next
pub mod Prev
pub mod Whole
pub mod Sort
mod Tests
use morning_projects.Common.{
  ℕ, zero, suc, ◌+◌, ◌-◌, ◌%◌, ◌^◌, Bool, true, false, Option, none, some, List, [], ◌∷◌, ltb, ◌==◌,
  if◌then◌else◌, ◌>>=◌,
}

abbrev pub Ptr : Type 0
Ptr = ℕ

abbrev pub null : Ptr
null = 0

-- `list_node`; its data is an `int`, counted from INT_MIN
pub record Cell : Type 0 where
  pub prev : Ptr
  pub next : Ptr
  pub value : ℕ

abbrev pub cell : Ptr → Ptr → ℕ → Cell
cell p q v = record { prev = p; next = q; value = v }

abbrev pub Heap : Type 0
Heap = Ptr → Option Cell

-- `g_list` and `g_current_elem` with the heap; `num_nodes` is an `int`, modulo 2 ^ 32, which the
-- code only compares with 0
pub record State : Type 0 where
  pub heap : Heap
  pub num_nodes : ℕ
  pub head : Ptr
  pub tail : Ptr
  pub current : Ptr

pub data Status : Type 0 where
  exit_success : Status
  exit_failure : Status

abbrev pub count_up : ℕ → ℕ
count_up n = (n + 1) % 2 ^ 32

abbrev pub count_down : ℕ → ℕ
count_down n = (n + 2 ^ 32 - 1) % 2 ^ 32

abbrev pub write : Heap → Ptr → Option Cell → Heap
write h p c a = if a == p then c else h a

-- `*p`
abbrev pub load : Heap → Ptr → Option Cell
load h p = if p == null then none else h p

-- `p->prev = q`
abbrev pub set_prev : Heap → Ptr → Ptr → Option Heap
set_prev h p q = load h p >>= λ c. some (write h p (some (cell q c.next c.value)))

-- `p->next = q`
abbrev pub set_next : Heap → Ptr → Ptr → Option Heap
set_next h p q = load h p >>= λ c. some (write h p (some (cell c.prev q c.value)))

abbrev pub release : Heap → Ptr → Option Heap
release h p = load h p >>= λ c. some (write h p none)

-- `list_init`: the nodes of an earlier list stay where they are
unfoldable pub list_init : Heap → Status × State
list_init h =
    (exit_success, record { heap = h; num_nodes = 0; head = null; tail = null; current = null })

-- the first node, as `insert_next` and `insert_prev` make it: they do not count it
abbrev pub sole : State → Ptr → ℕ → State
sole s p d = record {
  heap = write s.heap p (some (cell null null d));
  num_nodes = s.num_nodes;
  head = p;
  tail = p;
  current = p;
}

-- `insert_next` and `insert_prev` with the new node at hand, in a list that is not empty
unfoldable pub link_next : State → Ptr → ℕ → Option State
link_next s p d = do
  c ← load s.heap s.current
  h ← set_next (write s.heap p (some (cell s.current c.next d))) s.current p
  if s.current == s.tail
      then some (record s { heap = h; tail = p })
      else (set_prev h c.next p >>= λ g. some (record s { heap = g }))

unfoldable pub link_prev : State → Ptr → ℕ → Option State
link_prev s p d = do
  c ← load s.heap s.current
  h ← set_prev (write s.heap p (some (cell c.prev s.current d))) s.current p
  if s.current == s.head
      then some (record s { heap = h; head = p })
      else (set_next h c.prev p >>= λ g. some (record s { heap = g }))

-- `insert_next`
unfoldable pub insert_next : Option Ptr → State → ℕ → Option (Status × State)
insert_next allocated s d =
    if s.num_nodes == 0
    then elim allocated [ none ↦ some (exit_failure, s) | some p ↦ some (exit_success, sole s p d) ]
    else if s.current == null
    then some (exit_failure, s)
    else elim allocated [
      | none ↦ some (exit_failure, s)
      | some p ↦ link_next s p d >>= λ u. some (exit_success, u)
    ]

-- `insert_prev`
unfoldable pub insert_prev : Option Ptr → State → ℕ → Option (Status × State)
insert_prev allocated s d =
    if s.num_nodes == 0
    then elim allocated [ none ↦ some (exit_failure, s) | some p ↦ some (exit_success, sole s p d) ]
    else if s.current == null
    then some (exit_failure, s)
    else elim allocated [
      | none ↦ some (exit_failure, s)
      | some p ↦ link_prev s p d >>= λ u. some (exit_success, u)
    ]

-- `insert_head`
unfoldable pub insert_head : Option Ptr → State → ℕ → Option (Status × State)
insert_head none s d = some (exit_failure, s)
insert_head (some p) s d =
    if s.num_nodes == 0
    then some (
      exit_success,
      record {
        heap = write s.heap p (some (cell null null d));
        num_nodes = count_up s.num_nodes;
        head = p;
        tail = p;
        current = p;
      },
    )
    else (set_prev (write s.heap p (some (cell null s.head d))) s.head p >>= λ h.
        some (exit_success, record s { heap = h; head = p; num_nodes = count_up s.num_nodes }))

-- `insert_tail`
unfoldable pub insert_tail : Option Ptr → State → ℕ → Option (Status × State)
insert_tail none s d = some (exit_failure, s)
insert_tail (some p) s d =
    if s.num_nodes == 0
    then some (
      exit_success,
      record {
        heap = write s.heap p (some (cell null null d));
        num_nodes = count_up s.num_nodes;
        head = p;
        tail = p;
        current = p;
      },
    )
    else (set_next (write s.heap p (some (cell s.tail null d))) s.tail p >>= λ h.
        some (exit_success, record s { heap = h; tail = p; num_nodes = count_up s.num_nodes }))

-- the current element moves on if it is the one to remove
abbrev pub leave : State → Ptr → Ptr → State
leave s p q = record s { current = if s.current == p then q else s.current }

-- the head is taken out, with `q` behind it
abbrev pub drop_head : State → Ptr → Option State
drop_head s q =
    if q == null
    then some (record s { head = q; tail = null })
    else (set_prev s.heap q null >>= λ h. some (record s { heap = h; head = q }))

-- a node that is not the head is taken out; it is read again after the first write
abbrev pub drop_inner : State → Ptr → Cell → Option State
drop_inner s p c = do
  h ← set_next s.heap c.prev c.next
  c' ← load h p
  if c'.next == null
      then some (record s { heap = h; tail = c'.prev })
      else (set_prev h c'.next c'.prev >>= λ g. some (record s { heap = g }))

-- what `remove_elem` does to a node of the list
unfoldable pub take_out : State → Ptr → Option State
take_out s p = do
  c ← load s.heap p
  let s' = leave s p c.next in
      ((if s'.head == p then drop_head s' c.next else drop_inner s' p c) >>= λ u.
      (release u.heap p >>= λ h. some (record u { heap = h; num_nodes = count_down u.num_nodes })))

-- `remove_elem`
unfoldable pub remove_elem : State → Ptr → Option (Status × State)
remove_elem s p =
    if p == null
    then some (exit_failure, s)
    else if s.num_nodes == 0
    then some (exit_failure, s)
    else (take_out s p >>= λ u. some (exit_success, u))

-- `data_remove` takes out a node that is not the head: it compares its address with the tail
abbrev pub unlink_inner : State → Ptr → Cell → Option State
unlink_inner s p c = do
  h ← set_next s.heap c.prev c.next
  c' ← load h p
  if p == s.tail
      then some (record s { heap = h; tail = c'.prev })
      else (set_prev h c'.next c'.prev >>= λ g. some (record s { heap = g }))

-- what `data_remove` does to the node found
unfoldable pub unlink : State → Ptr → Option State
unlink s p = do
  c ← load s.heap p
  let s' = leave s p c.next in
      ((if p == s'.head then drop_head s' c.next else unlink_inner s' p c) >>= λ u.
      (release u.heap p >>= λ h. some (record u { heap = h; num_nodes = count_down u.num_nodes })))

-- The loop of `data_remove`: the node found, or `none`. Out of fuel it answers like a fault.
unfoldable pub search_from : ℕ → Heap → Ptr → ℕ → Option (Option Ptr)
search_from zero h p d = none
search_from (suc n) h p d =
    let rest = (load h p >>= λ c. search_from n h c.next d) in
    if p == null
    then some none
    else (load h p >>= λ c. if c.value == d then some (some p) else rest)

-- `data_remove`
unfoldable pub data_remove : ℕ → State → ℕ → Option (Status × State)
unfolding search_from
data_remove fuel s d =
    if s.head == null
    then some (exit_failure, s)
    else (search_from fuel s.heap s.head d >>= λ found. elim found [
      | none ↦ some (exit_success, s)
      | some p ↦ unlink s p >>= λ u. some (exit_success, u)
    ])

-- the loop of `list_display`: the data printed
unfoldable pub display_from : ℕ → Heap → Ptr → Option (List ℕ)
display_from zero h p = none
display_from (suc n) h p = load h p >>= λ c.
    let rest = display_from n h c.next in
    if c.next == null then some (c.value ∷ []) else (rest >>= λ ds. some (c.value ∷ ds))

-- `list_display`
unfoldable pub list_display : ℕ → State → Option (Status × List ℕ)
unfolding display_from
list_display fuel s =
    if s.num_nodes == 0
    then some (exit_success, [])
    else (display_from fuel s.heap s.head >>= λ ds. some (exit_success, ds))

-- the loop of `list_destroy`
unfoldable pub destroy_from : ℕ → Heap → Ptr → Option Heap
destroy_from zero h p = none
destroy_from (suc n) h p = do
  c ← load h p
  g ← release h p
  let rest = destroy_from n g c.next in if c.next == null then some g else rest

-- `list_destroy`; the tail is left as it was
unfoldable pub list_destroy : ℕ → State → Option (Status × State)
unfolding destroy_from
list_destroy fuel s =
    if s.num_nodes == 0
    then some (exit_success, record s { num_nodes = 0; current = null })
    else (destroy_from fuel s.heap s.head >>= λ h.
        some (exit_success, record s { heap = h; num_nodes = 0; head = null; current = null }))
