-- ===== src/Pool.antt =====
-- common/src/memman_pool/memman_pool.c and memman_pool.h: a pool of small blocks of memory. A node is
-- its address; the free nodes of a bank, which their own first bytes link, are a list, and the byte in
-- which `mem_alloc` leaves the size of a block is kept by the node's address. A pointer has 4 bytes, as
-- the comments of the code say. `none` is a fault.
pub mod Blocks
pub mod Tests
use morning_projects.Common.{
  ℕ, zero, suc, ◌+◌, ◌-◌, ◌%◌, ◌^◌, Bool, true, false, not, Option, none, some, List, [], ◌∷◌, ltb,
  ◌==◌, if◌then◌else◌, ◌>>=◌,
}

pub data Status : Type 0 where
  ok fail : Status

-- The chunks of a bank: none yet; one; or one whose memory, and with it the links, was never set. There
-- is no second one, since `mem_add_bank` writes it behind the pointer's bytes that it allocates for it.
pub data Chunks : Type 0 where
  no_chunk unfinished : Chunks
  chunk : ℕ → Chunks

-- `mem_bank_t`
pub record Bank : Type 0 where
  pub chunks : Chunks
  pub available : List ℕ

-- `g_mem_pool`, and the sizes in the first bytes of the nodes
pub record Pool : Type 0 where
  pub banks : ℕ → Bank
  pub size_at : ℕ → ℕ

abbrev pub max_mem_allocatable_size : ℕ
max_mem_allocatable_size = 128

abbrev pub num_mem_nodes_per_bank : ℕ
num_mem_nodes_per_bank = 10

abbrev pub write {ℓ} : {A : Type ℓ} → (ℕ → A) → ℕ → A → ℕ → A
write array i x j = if j == i then x else array j

abbrev pub empty_bank : Bank
empty_bank = record { chunks = no_chunk; available = [] }

-- `mem_pool_init`; what stands in memory before is `size_at`
abbrev pub mem_pool_init : (ℕ → ℕ) → Pool
mem_pool_init size_at = record { banks = λ i. empty_bank; size_at = size_at }

-- `mem_list_format`: so many nodes, one every `step` bytes
abbrev pub mem_list_format : ℕ → ℕ → ℕ → List ℕ
mem_list_format head step zero = []
mem_list_format head step (suc n) = head ∷ mem_list_format (head + step) step n

-- what `malloc` gives: whether a chunk's node, a chunk, a block that is too large for the pool
pub record Memory : Type 0 where
  pub node_memory : Bool
  pub chunk_memory : Option ℕ
  pub block_memory : Option ℕ

-- the memory of a new chunk
abbrev pub open_bank : Option ℕ → ℕ → Pool → Status × Pool
open_bank none index p = (
  fail,
  record p { banks = write p.banks index (record (p.banks index) { chunks = unfinished }) },
)
open_bank (some c) index p = (
  ok,
  record p {
    banks =
        write p.banks index
          (record { chunks = chunk c; available = mem_list_format c index num_mem_nodes_per_bank });
  },
)

-- `mem_bank_init`
unfoldable pub mem_bank_init : Memory → ℕ → Pool → Status × Pool
mem_bank_init m index p = if not m.node_memory then (fail, p) else open_bank m.chunk_memory index p

-- `mem_add_bank`
abbrev pub add_chunk : Memory → ℕ → Pool → Chunks → Option (Status × Pool)
add_chunk m index p no_chunk = some (mem_bank_init m index p)
add_chunk m index p unfinished = none
add_chunk m index p (chunk c) = none

unfoldable pub mem_add_bank : Memory → ℕ → Pool → Option (Status × Pool)
mem_add_bank m index p = add_chunk m index p (p.banks index).chunks

-- the first free node, with the size in its first byte; it is read through NULL when there is none
abbrev pub hand_out : ℕ → ℕ → Pool → List ℕ → Option (Option ℕ × Pool)
hand_out size index p [] = none
hand_out size index p (x ∷ xs) = some (
  some (x + 1),
  record {
    banks = write p.banks index (record (p.banks index) { available = xs });
    size_at = write p.size_at x size;
  },
)

-- `mem_alloc` after `mem_add_bank`
abbrev pub refilled : ℕ → ℕ → Status × Pool → Option (Option ℕ × Pool)
refilled size index (ok, p) = hand_out size index p (p.banks index).available
refilled size index (fail, p) = some (none, p)

-- a bank without a free node gets a chunk first
abbrev pub refill : Memory → ℕ → ℕ → Pool → List ℕ → Option (Option ℕ × Pool)
refill m size index p (x ∷ xs) = hand_out size index p (x ∷ xs)
refill m size index p [] = mem_add_bank m index p >>= λ r. refilled size index r

-- the bank of a size
abbrev pub bank_index : ℕ → ℕ
bank_index size = if ltb 4 size then size else 4

-- `mem_alloc`: the address, and the pool; the array has no bank of index 128
unfoldable pub mem_alloc : Memory → ℕ → Pool → Option (Option ℕ × Pool)
mem_alloc m n p =
    let size = (n + 1) % 2 ^ 32 in
    if ltb max_mem_allocatable_size size
    then some (m.block_memory, p)
    else if bank_index size == max_mem_allocatable_size
    then none
    else refill m size (bank_index size) p (p.banks (bank_index size)).available

-- `mem_pool_destroy`, the banks below this index: the memory that is freed, and the pool. The links of
-- a chunk whose memory was not given were never set.
unfoldable pub mem_pool_destroy : ℕ → Pool → Option (List ℕ × Pool)
mem_pool_destroy zero p = some ([], p)
mem_pool_destroy (suc i) p = mem_pool_destroy i p >>= λ r. elim (r.1.banks i).chunks [
  | no_chunk ↦ some r
  | unfinished ↦ none
  | chunk c ↦ some (c ∷ r.0, record r.1 { banks = write r.1.banks i empty_bank })
]

-- `mem_free`, into the bank of the size that stands before the block
unfoldable pub mem_free : ℕ → Pool → Option Pool
mem_free address p =
    let node = address - 1 in
    let index = p.size_at node in
    if ltb index max_mem_allocatable_size
    then (let bank = p.banks index in
        some (record p {
          banks = write p.banks index (record bank { available = node ∷ bank.available });
        }))
    else none
