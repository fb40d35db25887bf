-- ===== src/Pool/Tests.antt =====
-- Runs of common/src/memman_pool/memman_pool.c.
use morning_projects.Common.{◌≡◌, ◌≤◌, ◌<◌, refl, true, none, some, [], ◌∷◌, arith}
use morning_projects.Pool.{Pool, Memory, mem_pool_init, chunk, bank_index, mem_alloc, mem_free}
use morning_projects.Pool.Blocks.{alloc_times, blocks, mem_alloc-blocks, mem_free-mem_alloc}

abbrev memory : Memory
memory = record { node_memory = true; chunk_memory = some 1000; block_memory = none }

mem_alloc-blocks_example :
    (q : Pool) × (alloc_times memory 7 10 (mem_pool_init (λ a. 0)) ≡ some (blocks 1001 8 10, q))
    × (mem_alloc memory 7 q ≡ none)
mem_alloc-blocks_example =
    mem_alloc-blocks memory 7 1000 (mem_pool_init (λ a. 0)) (omega arith) refl refl refl

-- a bank of 4 bytes with two free nodes
abbrev two_free : Pool
two_free = record {
  banks = λ i. record { chunks = chunk 100; available = 100 ∷ 104 ∷ [] };
  size_at = λ a. 0;
}

mem_free-mem_alloc_example :
    (q r : Pool) × (mem_alloc memory 1 two_free ≡ some (some 101, q))
    × (mem_free 101 q ≡ some r)
    × (3 ≤ 1 → (r.banks (bank_index 2)).available ≡ 100 ∷ 104 ∷ [])
    × (1 < 3 → (r.banks (bank_index 2)).available ≡ 104 ∷ [])
mem_free-mem_alloc_example = mem_free-mem_alloc memory 1 100 (104 ∷ []) two_free (omega arith) refl
