-- ===== src/Pool/Blocks.antt =====
-- common/src/memman_pool/memman_pool.c: the blocks that `mem_alloc` gives, and what `mem_free` makes of
-- them.
use morning_projects.Common.{
  ℕ, zero, suc, ◌+◌, ◌-◌, ◌%◌, ◌^◌, ◌<◌, ◌≤◌, ◌≡◌, refl, true, false, Option, none, some, List, [],
  ◌∷◌, ltb, ◌==◌, ◌>>=◌, arith, Bool-cases, inl, inr, ap, ◌∙◌, sym, subst,
}
use morning_projects.Pool.{
  ok, chunk, Pool, Memory, write, empty_bank, mem_list_format, mem_bank_init, mem_add_bank,
  hand_out, add_chunk, refilled, refill, bank_index, mem_alloc, mem_free, max_mem_allocatable_size,
  num_mem_nodes_per_bank,
}

-- the block of the node, and the pool without it
abbrev handed : ℕ → ℕ → Pool → ℕ → List ℕ → Pool
handed size index p x xs = record {
  banks = write p.banks index (record (p.banks index) { available = xs });
  size_at = write p.size_at x size;
}

module _ (m : Memory) (n : ℕ) (small : n ≤ 126) where
  sized : (n + 1) % 2 ^ 32 ≡ n + 1
  sized = omega arith

  inside : ltb max_mem_allocatable_size (n + 1) ≡ false
  inside = ground arith

  has_bank : (bank_index (n + 1) == max_mem_allocatable_size) ≡ false
  has_bank = elim (Bool-cases (ltb 4 (n + 1))) [
    | inl more ↦ rw more (ground arith)
    | inr few ↦ rw few refl
  ]

  mem_alloc-refill :
      (p : Pool)
      → mem_alloc m n p
        ≡ refill m (n + 1) (bank_index (n + 1)) p (p.banks (bank_index (n + 1))).available
  unfolding mem_alloc
  mem_alloc-refill p = rw (sized, inside, has_bank) refl

  mem_alloc-hand_out :
      (p : Pool) (x : ℕ) (xs : List ℕ)
      → (p.banks (bank_index (n + 1))).available ≡ x ∷ xs
      → mem_alloc m n p ≡ some (some (x + 1), handed (n + 1) (bank_index (n + 1)) p x xs)
  mem_alloc-hand_out p x xs e = mem_alloc-refill p ∙ ap (refill m (n + 1) (bank_index (n + 1)) p) e

-- so many calls of `mem_alloc`: the addresses, and the pool
abbrev pub alloc_times : Memory → ℕ → ℕ → Pool → Option (List (Option ℕ) × Pool)
alloc_times m n zero p = some ([], p)
alloc_times m n (suc k) p =
    mem_alloc m n p >>= λ r. alloc_times m n k r.1 >>= λ s. some (r.0 ∷ s.0, s.1)

-- blocks that are `step` bytes from each other
abbrev pub blocks : ℕ → ℕ → ℕ → List (Option ℕ)
blocks address step zero = []
blocks address step (suc k) = some address ∷ blocks (address + step) step k

-- the bank has these free nodes, and its one chunk
record Holds (p : Pool) (index : ℕ) (nodes : List ℕ) : Type 0 where
  available : (p.banks index).available ≡ nodes
  chunked : (c : ℕ) × ((p.banks index).chunks ≡ chunk c)

write_same : {A : Type 0} (f : ℕ → A) (i : ℕ) (x : A) → write f i x i ≡ x
write_same f i x = ground arith

handed-Holds :
    (size index : ℕ) (p : Pool) (x : ℕ) (xs nodes : List ℕ)
    → Holds p index nodes
    → Holds (handed size index p x xs) index xs
handed-Holds size index p x xs nodes h = record {
  available = ap (λ b. b.available) (write_same p.banks index _);
  chunked = (h.chunked.0, ap (λ b. b.chunks) (write_same p.banks index _) ∙ h.chunked.1);
}

module _ (m : Memory) (n : ℕ) (small : n ≤ 126) where
  alloc_times-Holds :
      (k head step : ℕ) (p : Pool)
      → Holds p (bank_index (n + 1)) (mem_list_format head step k)
      → (q : Pool) × (alloc_times m n k p ≡ some (blocks (head + 1) step k, q))
        × Holds q (bank_index (n + 1)) []
  alloc_times-Holds zero head step p h = (p, refl, h)
  alloc_times-Holds (suc k) head step p h =
      let index = bank_index (n + 1) in
      let rest = mem_list_format (head + step) step k in
      let first = mem_alloc-hand_out m n small p head rest h.available in
      let (q, on, done) =
        alloc_times-Holds k (head + step) step (handed (n + 1) index p head rest)
          (handed-Holds (n + 1) index p head rest (head ∷ rest) h) in
      (
        q,
        rw (first, on) (ap (λ a. some (some (head + 1) ∷ blocks a step k, q)) (omega arith)),
        done,
      )

  mem_alloc_exhausted : (p : Pool) → Holds p (bank_index (n + 1)) [] → mem_alloc m n p ≡ none
  unfolding mem_add_bank
  mem_alloc_exhausted p h =
      let index = bank_index (n + 1) in
      mem_alloc-refill m n small p
      ∙ (ap (refill m (n + 1) index p) h.available
          ∙ ap (λ r. r >>= λ s. refilled (n + 1) index s) (ap (add_chunk m index p) h.chunked.1))

  -- the pool with the first chunk of the bank
  abbrev opened : Pool → ℕ → Pool
  opened p c =
      let index = bank_index (n + 1) in
      record p {
        banks = write p.banks index (record {
          chunks = chunk c;
          available = mem_list_format c index num_mem_nodes_per_bank;
        });
      }

  opened-Holds :
      (p : Pool) (c : ℕ)
      → Holds
          (opened p c)
          (bank_index (n + 1))
          (mem_list_format c (bank_index (n + 1)) num_mem_nodes_per_bank)
  opened-Holds p c = record {
    available = ap (λ b. b.available) (write_same p.banks (bank_index (n + 1)) _);
    chunked = (c, ap (λ b. b.chunks) (write_same p.banks (bank_index (n + 1)) _));
  }

  mem_alloc-opened :
      (p : Pool) (c : ℕ)
      → p.banks (bank_index (n + 1)) ≡ empty_bank
      → m.node_memory ≡ true
      → m.chunk_memory ≡ some c
      → mem_alloc m n p ≡ mem_alloc m n (opened p c)
  unfolding mem_add_bank mem_bank_init
  mem_alloc-opened p c new node_ok chunk_ok =
      let index = bank_index (n + 1) in
      let made : mem_bank_init m index p ≡ (ok, opened p c) = rw (node_ok, chunk_ok) refl in
      mem_alloc-refill m n small p
      ∙ (ap (λ b. refill m (n + 1) index p b.available) new
          ∙ (ap (λ b. add_chunk m index p b.chunks >>= λ s. refilled (n + 1) index s) new
              ∙ (ap (refilled (n + 1) index) made
                  ∙ (ap (hand_out (n + 1) index (opened p c)) (opened-Holds p c).available
                      ∙ sym (
                          mem_alloc-refill m n small (opened p c)
                          ∙ ap (refill m (n + 1) index (opened p c))
                              (opened-Holds p c).available)))))

-- From a bank that has no chunk, with memory for one at `c`, `mem_alloc` of a size up to 126 gives ten
-- blocks, which begin behind `c` and stand as many bytes from each other as the bank's index says, that
-- is one more than the size, and at least 4. The eleventh call faults, since a bank can have no second
-- chunk.
pub mem_alloc-blocks :
    (m : Memory) (n c : ℕ) (p : Pool)
    → n ≤ 126
    → p.banks (bank_index (n + 1)) ≡ empty_bank
    → m.node_memory ≡ true
    → m.chunk_memory ≡ some c
    → (q : Pool) × (alloc_times m n 10 p ≡ some (blocks (c + 1) (bank_index (n + 1)) 10, q))
      × (mem_alloc m n q ≡ none)
mem_alloc-blocks m n c p small new node_ok chunk_ok =
    let (q, given, done) =
      alloc_times-Holds m n small 10 c (bank_index (n + 1)) (opened m n small p c)
        (opened-Holds m n small p c) in
    (
      q,
      ap (λ x. x >>= λ r. alloc_times m n 9 r.1 >>= λ s. some (r.0 ∷ s.0, s.1))
            (mem_alloc-opened m n small p c new node_ok chunk_ok)
          ∙ given,
      mem_alloc_exhausted m n small q done,
    )

-- the pool with the node in the bank of this index
abbrev freed : Pool → ℕ → ℕ → Pool
freed p x index = record p {
  banks =
      write p.banks index (record (p.banks index) { available = x ∷ (p.banks index).available });
}

back_one : (x : ℕ) → x + 1 - 1 ≡ x
back_one x = omega arith

mem_free_node :
    (p : Pool) (x index : ℕ)
    → p.size_at x ≡ index
    → ltb index max_mem_allocatable_size ≡ true
    → mem_free (x + 1) p ≡ some (freed p x index)
unfolding mem_free
mem_free_node p x index e inside = rw (back_one x, e, inside) refl

freed_same :
    (p : Pool) (x size index : ℕ)
    → index ≡ size
    → ((freed p x size).banks index).available ≡ x ∷ (p.banks index).available
freed_same p x size index e =
    subst (λ s. ((freed p x s).banks index).available ≡ x ∷ (p.banks index).available) e
      (ap (λ b. b.available) (write_same p.banks index _))

freed_other :
    (p : Pool) (x size index : ℕ)
    → (index == size) ≡ false
    → ((freed p x size).banks index).available ≡ (p.banks index).available
freed_other p x size index e = rw e refl

available-handed :
    (size index : ℕ) (p : Pool) (x : ℕ) (xs : List ℕ)
    → ((handed size index p x xs).banks index).available ≡ xs
available-handed size index p x xs = ap (λ b. b.available) (write_same p.banks index _)

-- A block of up to 126 bytes that comes from a bank with a free node can be freed. If it has at least
-- 3 bytes, the bank has its nodes back as they were. If it has fewer, the bank of 4 bytes that gave the
-- node does not get it back.
pub mem_free-mem_alloc :
    (m : Memory) (n x : ℕ) (xs : List ℕ) (p : Pool)
    → n ≤ 126
    → (p.banks (bank_index (n + 1))).available ≡ x ∷ xs
    → (q r : Pool) × (mem_alloc m n p ≡ some (some (x + 1), q))
      × (mem_free (x + 1) q ≡ some r)
      × (3 ≤ n → (r.banks (bank_index (n + 1))).available ≡ x ∷ xs)
      × (n < 3 → (r.banks (bank_index (n + 1))).available ≡ xs)
mem_free-mem_alloc m n x xs p small e =
    let index = bank_index (n + 1) in
    let q = handed (n + 1) index p x xs in
    (
      q,
      freed q x (n + 1),
      mem_alloc-hand_out m n small p x xs e,
      mem_free_node q x (n + 1) (write_same p.size_at x (n + 1)) (ground arith),
      λ large.
          freed_same q x (n + 1) index (ground arith)
          ∙ ap (λ ys. x ∷ ys) (available-handed (n + 1) index p x xs),
      λ tiny. freed_other q x (n + 1) index (ground arith) ∙ available-handed (n + 1) index p x xs,
    )
