-- ===== src/HashTable/Insert.antt =====
-- `HT_insert` followed by `HT_lookup` of the same key.
use morning_projects.Common.{
  ℕ, ◌≡◌, ◌≢◌, sym, ap, ◌∙◌, ◌⊎◌, inl, inr, refl, Bool, true, ◌||◌, Option, none, some, arith,
  ltb-true, ◌<◌, >>=-eq-some, ◌==◌, Bool-cases,
}
use morning_projects.HashTable.{
  Ptr, null, num_buckets, Table, ok, overwriten, Location, Found, Answer, max_probes, probe,
  ht_lookup, put, place, ht_insert, ht_find,
}
use morning_projects.HashTable.Probe.{probe_put}

-- what `place` writes to, where it writes
pub written :
    (same : Ptr → Ptr → Bool) (t : Table) (key content : Ptr) (f : Found) {a : Answer}
    → place same t key content f ≡ some a
    → (a.status ≡ ok) ⊎ (a.status ≡ overwriten)
    → (i : ℕ) × (f.bucket ≡ some i)
      × (a.table ≡ put t key content i)
      × (((t.ht i).content == null || ((t.ht i).vacated || same (t.ht i).key key)) ≡ true)
written same t key content f {a} e s = go f.bucket refl
  where
    go :
        (o : Option ℕ)
        → f.bucket ≡ o
        → (i : ℕ) × (f.bucket ≡ some i)
          × (a.table ≡ put t key content i)
          × (((t.ht i).content == null || ((t.ht i).vacated || same (t.ht i).key key)) ≡ true)
    go none q = absurd (ground arith)
    go (some i) q = (i, q, ground arith, ground arith)

module _ (hash : Ptr → ℕ) (same : Ptr → Ptr → Bool) (rand : ℕ → ℕ) where
  pub looked_up :
      (t : Table) (key : Ptr) (l : Location) {f : Found}
      → ht_lookup hash same rand t key l ≡ some f
      → (hash key < num_buckets)
        × (f ≡ probe hash same rand t.ht key max_probes (hash key) 0 none l)
  unfolding ht_lookup
  looked_up t key l e = ground arith

  -- `HT_lookup` finds the data, and leaves the table alone
  abbrev pub Finds : Table → Ptr → Option Answer → Type 0
  Finds t content none = ⊥
  Finds t content (some b) = (b.status ≡ ok) × (b.handed ≡ some content) × (b.table ≡ t)

  find_put :
      (t : Table) (key content : Ptr) (i : ℕ) (l l' : Location)
      → content ≢ null
      → same key key ≡ true
      → hash key < num_buckets
      → (probe hash same rand t.ht key max_probes (hash key) 0 none l).bucket ≡ some i
      → Finds (put t key content i) content (ht_find hash same rand (put t key content i) key l')
  unfolding ht_find
  find_put t key content i l l' ne refl_key small hit =
      let ht' = (put t key content i).ht in
      let found =
        probe_put hash same rand key t.ht ht' i (ground arith) (ground arith) (λ j. ground arith)
          max_probes (hash key) 0 none none l l' (λ e. cc) hit in
      rw (ltb-true (hash key) num_buckets small, found) (ground arith)

  -- Where the callback finds a key equal to itself, data that `HT_insert` stored (status OK or
  -- OVERWRITEN) and that is not NULL is what `HT_lookup` of the key then hands out, with status OK
  -- and the table unchanged, for any hash below the number of buckets and any probe sequence.
  pub ht_find-insert :
      (t : Table) (key content count : ℕ) (l l' : Location) {a : Answer}
      → content ≢ null
      → same key key ≡ true
      → ht_insert hash same rand t key content count l ≡ some a
      → (a.status ≡ ok) ⊎ (a.status ≡ overwriten)
      → Finds a.table content (ht_find hash same rand a.table key l')
  unfolding ht_insert
  ht_find-insert t key content count l l' {a} ne refl_key e s =
      elim (Bool-cases (t.num_data == num_buckets)) [
        | inl is_full ↦ absurd (ground arith)
        | inr room ↦
            let (f, looked, stored) =
              >>=-eq-some (ht_lookup hash same rand t key l) (place same t key content)
                (rw room at e) in
            let (small, is) = looked_up t key l looked in
            let (i, hit, table, taken) = written same t key content f stored s in
            rw table
              (find_put t key content i l l' ne refl_key small (ap (λ g. g.bucket) (sym is) ∙ hit))
      ]
