-- ===== src/HashTable/Full.antt =====
-- The hash table without a free bucket, and the count of data under an overwrite.
use morning_projects.Common.{
  ℕ, zero, suc, ◌+◌, ◌%◌, ◌^◌, ◌<◌, ◌≡◌, ◌≢◌, refl, Bool, true, false, Option, none, some, arith,
  ltb-true, ◌==◌,
}
use morning_projects.HashTable.{
  Ptr, null, num_buckets, Table, overwriten, not_found, full, Found, ht_lookup, Location, Answer,
  answer, next_index, note_vacant, note_location, is_duplicate, in_use, max_probes, probe, put,
  ht_insert, ht_find, ht_remove,
}
use morning_projects.HashTable.Keep.{Hit, Hit-bucket}

module _ (hash : Ptr → ℕ) (same : Ptr → Ptr → Bool) (rand : ℕ → ℕ) where
  -- no bucket was never used, and none holds the key
  abbrev pub NoFree : Table → Ptr → Type 0
  NoFree t key =
      (i : ℕ)
      → i < num_buckets
      → (in_use (t.ht i) ≡ true) × (is_duplicate same (t.ht i) key ≡ false)

  probe_exhausted :
      (t : Table) (key : Ptr) (left index count : ℕ) (v : Option ℕ) (l : Location)
      → NoFree t key
      → index < num_buckets
      → ((probe hash same rand t.ht key left index count v l).bucket ≡ none)
        × ((probe hash same rand t.ht key left index count v l).probe_count ≡ count + left)
  unfolding probe
  probe_exhausted t key zero index count v l h small = ground (arith, h index small)
  probe_exhausted t key (suc left) index count v l h small = ground (
    arith,
    h index small,
    probe_exhausted t key left (next_index hash same rand index count) (count + 1)
        (note_vacant (t.ht index) index v) (note_location (t.ht index) index v l) h (omega arith),
  )

  -- Once every bucket is in use or vacated, a key with a hash below NUM_BUCKETS that the table does not
  -- hold is looked for in 2000 probes and then `ht_lookup` returns NULL: `HT_lookup` and `HT_remove`
  -- read through it. `HT_insert` stores nothing: it answers DATABASE_FULL where the table counts as many
  -- data as buckets, and otherwise NOT_FOUND, whether or not a vacated bucket was there to take.
  pub NoFree-faults :
      (t : Table) (key content count : ℕ) (l : Location)
      → NoFree t key
      → hash key < num_buckets
      → ((f : Found) × (ht_lookup hash same rand t key l ≡ some f)
          × (f.bucket ≡ none)
          × (f.probe_count ≡ 2000))
        × (ht_find hash same rand t key l ≡ none)
        × (ht_remove hash same rand t key l ≡ none)
        × (t.num_data ≢ num_buckets
            → (a : Answer) × (ht_insert hash same rand t key content count l ≡ some a)
              × (a.status ≡ not_found)
              × (a.table ≡ t))
        × (t.num_data ≡ num_buckets
            → (a : Answer) × (ht_insert hash same rand t key content count l ≡ some a)
              × (a.status ≡ full)
              × (a.table ≡ t))
  unfolding ht_lookup ht_find ht_remove ht_insert
  NoFree-faults t key content count l h small =
      let (b, n) = probe_exhausted t key max_probes (hash key) 0 none l h small in
      let e = ltb-true (hash key) num_buckets small in
      let f = probe hash same rand t.ht key max_probes (hash key) 0 none l in
      (
        (f, rw e refl, b, n),
        rw (e, b),
        rw (e, b),
        (λ room. (answer not_found t max_probes f.location, rw (e, n) (ground arith), refl, refl)),
        (λ crowded. (answer full t count l, rw crowded refl, refl, refl)),
      )

  -- Storing under a key that the table holds answers OVERWRITEN and raises `num_data`, although
  -- the same buckets hold data as before.
  pub overwrite_counts :
      (t : Table) (key content count : ℕ) (l : Location) (content2 count2 : ℕ)
      (location2 : Location)
      → content ≢ null
      → t.num_data ≢ num_buckets
      → count2 ≢ max_probes
      → Hit hash same rand t key l content2 count2 location2
      → (a : Answer) × (ht_insert hash same rand t key content count l ≡ some a)
        × (a.status ≡ overwriten)
        × (a.table.num_data ≡ (t.num_data + 1) % 2 ^ 32)
        × ((j : ℕ) → ((a.table.ht j).content == null) ≡ ((t.ht j).content == null))
  unfolding ht_insert
  overwrite_counts t key content count l content2 count2 location2 ne room quick hit =
      let (i, small, bucket, n, loc, here, dup) =
        Hit-bucket hash same rand t key l content2 count2 location2 hit in
      let e = ltb-true (hash key) num_buckets small in
      (
        answer overwriten (put t key content i) count2 location2,
        rw (e, n, loc, bucket) (ground arith),
        refl,
        refl,
        λ j. ground arith,
      )
