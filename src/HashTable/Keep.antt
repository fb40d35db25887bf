-- ===== src/HashTable/Keep.antt =====
-- `HT_insert` and `HT_remove` leave the other keys alone.
use morning_projects.Common.{
  ℕ, zero, suc, ◌+◌, ◌≡◌, ◌≢◌, ◌⊎◌, sym, ap, ◌∙◌, inl, inr, Bool, true, false, ◌||◌, Option, none,
  some, arith, ltb-true, ◌<◌, >>=-eq-some, ◌==◌, Bool-cases,
}
use native.Mathlib.Decide.{ℕ_discrete}
use morning_projects.HashTable.{
  Ptr, null, num_buckets, Bucket, Table, ok, overwriten, Location, Answer, answer, next_index,
  note_vacant, note_location, is_duplicate, max_probes, probe, ht_lookup, put, vacate, place,
  ht_insert, ht_find, ht_remove,
}
use morning_projects.HashTable.Probe.{VacantOk, VacantOk-note, SameWay, probe_stays}
use morning_projects.HashTable.Insert.{written, looked_up}

-- What the `compare` callback is asked for: `0 ==` is an equality of keys.
pub record IsEquality (same : Ptr → Ptr → Bool) : Type 0 where
  pub same_sym : (a b : Ptr) → same a b ≡ true → same b a ≡ true
  pub same_trans : (a b c : Ptr) → same a b ≡ true → same b c ≡ true → same a c ≡ true

module _ (hash : Ptr → ℕ) (same : Ptr → Ptr → Bool) (rand : ℕ → ℕ) where
  -- the bucket found is free, vacated, or holds the key
  probe_sound :
      (ht : ℕ → Bucket) (key : Ptr) (left index count : ℕ) (v : Option ℕ) (l : Location) (j : ℕ)
      → VacantOk hash same rand key ht v
      → (probe hash same rand ht key left index count v l).bucket ≡ some j
      → (is_duplicate same (ht j) key || ((ht j).content == null || (ht j).vacated)) ≡ true
  unfolding probe
  probe_sound ht key zero index count none l j vo e = ground arith
  probe_sound ht key zero index count (some v) l j vo e = ground arith
  probe_sound ht key (suc left) index count none l j vo e = ground (
    arith,
    probe_sound ht key left (next_index hash same rand index count) (count + 1)
        (note_vacant (ht index) index none) (note_location (ht index) index none l) j
        (VacantOk-note hash same rand key ht index none vo),
  )
  probe_sound ht key (suc left) index count (some v) l j vo e = ground (
    arith,
    probe_sound ht key left (next_index hash same rand index count) (count + 1) (some v) l j vo,
  )

  -- what `HT_lookup` answers when it finds data
  abbrev pub Hit : Table → Ptr → Location → Ptr → ℕ → Location → Type 0
  Hit t key l content count location =
      ht_find hash same rand t key l
      ≡ some (record (answer ok t count location) { handed = some content })

  -- the bucket behind a successful `HT_lookup`
  pub Hit-bucket :
      (t : Table) (key : Ptr) (l : Location) (content count : ℕ) (location : Location)
      → Hit t key l content count location
      → let f = probe hash same rand t.ht key max_probes (hash key) 0 none l in
        (j : ℕ) × (hash key < num_buckets)
        × (f.bucket ≡ some j)
        × (f.probe_count ≡ count)
        × (f.location ≡ location)
        × ((t.ht j).content ≡ content)
        × (is_duplicate same (t.ht j) key ≡ true)
  unfolding ht_find
  Hit-bucket t key l content count location e =
      let (f, looked, more) = >>=-eq-some (ht_lookup hash same rand t key l) _ e in
      let (j, bucket, last) = >>=-eq-some f.bucket _ more in
      let (small, is) = looked_up hash same rand t key l looked in
      let sound =
        probe_sound t.ht key max_probes (hash key) 0 none l j tt
          (ap (λ g. g.bucket) (sym is) ∙ bucket) in
      (
        j,
        small,
        ap (λ g. g.bucket) (sym is) ∙ bucket,
        ap (λ g. g.probe_count) (sym is) ∙ ground arith,
        ap (λ g. g.location) (sym is) ∙ ground arith,
        ground arith,
        ground arith,
      )

  -- a lookup is not disturbed by a change that leads its key the same way and keeps its data
  keeps :
      (t t' : Table) (key : Ptr) (l l' : Location) (content count : ℕ) (location : Location)
      → SameWay hash same rand key t.ht t'.ht
      → ((j : ℕ) → is_duplicate same (t'.ht j) key ≡ true → t'.ht j ≡ t.ht j)
      → Hit t key l content count location
      → Hit t' key l' content count location
  unfolding ht_find
  keeps t t' key l l' content count location way same_data e =
      let (j, small, bucket, c, loc, data_here, dup) =
        Hit-bucket t key l content count location e in
      let (b, n, p) =
        probe_stays hash same rand key t.ht t'.ht way max_probes (hash key) 0 none none l l' tt
          (rw bucket dup) in
      let dup' = (way j (ground arith)).1 ∙ dup in
      rw (ltb-true (hash key) num_buckets small, b, bucket, n, c, p, loc)
        (ground (arith, same_data j dup'))

  -- a bucket that `HT_insert` may take leads the other keys as before
  insert_way :
      (t : Table) (key content : Ptr) (i : ℕ) (key2 : Ptr)
      → IsEquality same
      → content ≢ null
      → same key key2 ≡ false
      → (((t.ht i).content == null) || ((t.ht i).vacated || same (t.ht i).key key)) ≡ true
      → SameWay hash same rand key2 t.ht (put t key content i).ht
  insert_way t key content i key2 eq ne other taken j used =
      let x = (t.ht i).key in
      elim (ℕ_discrete j i) [
        | yes e ↦ rw e (ground (arith, eq.same_sym x key, eq.same_trans key x key2))
        | no nj ↦ ground arith
      ]

  -- a vacated bucket does so too, if it held the removed key
  remove_way :
      (t : Table) (key : Ptr) (i : ℕ) (key2 : Ptr)
      → IsEquality same
      → same key key2 ≡ false
      → same (t.ht i).key key ≡ true
      → SameWay hash same rand key2 t.ht (vacate t i).ht
  remove_way t key i key2 eq other held j used =
      let x = (t.ht i).key in
      elim (ℕ_discrete j i) [
        | yes e ↦ rw e (ground (arith, eq.same_sym x key, eq.same_trans key x key2))
        | no nj ↦ ground arith
      ]

  -- Where the callback's zero is symmetric and transitive, an insertion of data that is not NULL
  -- (status OK or OVERWRITEN) leaves every lookup of another key that found its data as it was:
  -- the same data, probe count and location.
  pub Hit-insert_other :
      (t : Table) (key content count : ℕ) (l : Location) (key2 : Ptr) (l2 l3 : Location)
      (content2 count2 : ℕ) (location2 : Location) {a : Answer}
      → IsEquality same
      → content ≢ null
      → same key key2 ≡ false
      → ht_insert hash same rand t key content count l ≡ some a
      → (a.status ≡ ok) ⊎ (a.status ≡ overwriten)
      → Hit t key2 l2 content2 count2 location2
      → Hit a.table key2 l3 content2 count2 location2
  unfolding ht_insert
  Hit-insert_other t key content count l key2 l2 l3 content2 count2 location2 {a} eq ne other e s
        hit =
      elim (Bool-cases (t.num_data == num_buckets)) [
        | inl is_full ↦ absurd (ground arith)
        | inr room ↦
            let (f, looked, stored) =
              >>=-eq-some (ht_lookup hash same rand t key l) (place same t key content)
                (rw room at e) in
            let (i, bucket, table, taken) = written same t key content f stored s in
            rw table (
              keeps t (put t key content i) key2 l2 l3 content2 count2 location2
                (insert_way t key content i key2 eq ne other taken) (λ j d. ground arith) hit)
      ]

  -- Where the callback's zero is symmetric and transitive, a removal (status OK) leaves every
  -- lookup of another key that found its data as it was.
  pub Hit-remove_other :
      (t : Table) (key : Ptr) (l : Location) (key2 : Ptr) (l2 l3 : Location) (content2 count2 : ℕ)
      (location2 : Location) {a : Answer}
      → IsEquality same
      → same key key2 ≡ false
      → ht_remove hash same rand t key l ≡ some a
      → a.status ≡ ok
      → Hit t key2 l2 content2 count2 location2
      → Hit a.table key2 l3 content2 count2 location2
  unfolding ht_remove
  Hit-remove_other t key l key2 l2 l3 content2 count2 location2 {a} eq other e s hit =
      let (f, looked, more) = >>=-eq-some (ht_lookup hash same rand t key l) _ e in
      let (i, bucket, last) = >>=-eq-some f.bucket _ more in
      let (small, is) = looked_up hash same rand t key l looked in
      let sound =
        probe_sound t.ht key max_probes (hash key) 0 none l i tt
          (ap (λ g. g.bucket) (sym is) ∙ bucket) in
      let table : a.table ≡ vacate t i = ground arith in
      rw table (
        keeps t (vacate t i) key2 l2 l3 content2 count2 location2
          (remove_way t key i key2 eq other (ground arith)) (λ j d. ground arith) hit)
