-- ===== src/HashTable/Probe.antt =====
-- The loop of `ht_lookup` on two tables that differ in one bucket.
use morning_projects.Common.{
  ℕ, zero, suc, ◌+◌, ◌≡◌, ◌≢◌, Bool, true, false, Option, none, some, arith,
}
use native.Mathlib.Decide.{ℕ_discrete}
use morning_projects.HashTable.{
  Ptr, Bucket, Location, Found, next_index, is_duplicate, in_use, note_vacant, note_location, probe,
}

module _ (hash : Ptr → ℕ) (same : Ptr → Ptr → Bool) (rand : ℕ → ℕ) (key : Ptr) where
  -- whether the bucket found holds a datum of the key
  abbrev pub is_hit : (ℕ → Bucket) → Found → Bool
  is_hit ht f = elim f.bucket [ none ↦ false | some j ↦ is_duplicate same (ht j) key ]

  -- a bucket noted as vacated is vacated
  abbrev pub VacantOk : (ℕ → Bucket) → Option ℕ → Type 0
  VacantOk ht none = Unit
  VacantOk ht (some v) = (ht v).vacated ≡ true

  -- a bucket in use stays in use, and holds the key as before
  abbrev pub SameWay : (ℕ → Bucket) → (ℕ → Bucket) → Type 0
  SameWay ht ht' =
      (i : ℕ)
      → in_use (ht i) ≡ true
      → (in_use (ht' i) ≡ true) × (is_duplicate same (ht' i) key ≡ is_duplicate same (ht i) key)

  pub VacantOk-note :
      (ht : ℕ → Bucket) (index : ℕ) (v : Option ℕ)
      → VacantOk ht v
      → VacantOk ht (note_vacant (ht index) index v)
  VacantOk-note ht index none vo = ground arith
  VacantOk-note ht index (some v) vo = vo

  note-free :
      (ht : ℕ → Bucket) (index b : ℕ) (v : Option ℕ)
      → v ≢ some b
      → index ≢ b
      → note_vacant (ht index) index v ≢ some b
  note-free ht index b none free ne = ground arith
  note-free ht index b (some w) free ne = free

  abbrev pub SamePlace : Found → Found → Type 0
  SamePlace f g =
      (g.bucket ≡ f.bucket) × (g.probe_count ≡ f.probe_count) × (g.location ≡ f.location)

  -- a hit is found again, after as many probes, in a table that leads the key the same way
  pub probe_stays :
      (ht ht' : ℕ → Bucket)
      → SameWay ht ht'
      → (left index count : ℕ) (v v' : Option ℕ) (l l' : Location) → VacantOk ht v
      → is_hit ht (probe hash same rand ht key left index count v l) ≡ true
      → SamePlace
          (probe hash same rand ht key left index count v l)
          (probe hash same rand ht' key left index count v' l')
  unfolding probe
  probe_stays ht ht' way zero index count v v' l l' vo hit = ground (arith, way index)
  probe_stays ht ht' way (suc left) index count v v' l l' vo hit = ground (
    arith,
    way index,
    probe_stays ht ht' way left (next_index hash same rand index count) (count + 1)
        (note_vacant (ht index) index v) (note_vacant (ht' index) index v')
        (note_location (ht index) index v l) (note_location (ht' index) index v' l'),
    VacantOk-note ht index v vo,
  )

  -- Where `b` is the bucket found, and `ht'` is `ht` with the key put there, the key is found there.
  pub probe_put :
      (ht ht' : ℕ → Bucket) (b : ℕ)
      → in_use (ht' b) ≡ true
      → is_duplicate same (ht' b) key ≡ true
      → ((i : ℕ) → i ≢ b → ht' i ≡ ht i)
      → (left index count : ℕ) (v v' : Option ℕ) (l l' : Location) → v ≢ some b
      → (probe hash same rand ht key left index count v l).bucket ≡ some b
      → (probe hash same rand ht' key left index count v' l').bucket ≡ some b
  unfolding probe
  probe_put ht ht' b used dup others zero index count v v' l l' free hit =
      elim (ℕ_discrete index b) [ yes e ↦ rw (e, used, dup) | no ne ↦ absurd (ground arith) ]
  probe_put ht ht' b used dup others (suc left) index count v v' l l' free hit =
      elim (ℕ_discrete index b) [
        | yes e ↦ rw (e, used, dup)
        | no ne ↦ ground (
          arith,
          others index ne,
          probe_put ht ht' b used dup others left (next_index hash same rand index count)
              (count + 1) (note_vacant (ht index) index v) (note_vacant (ht' index) index v')
              (note_location (ht index) index v l) (note_location (ht' index) index v' l'),
          note-free ht index b v free ne,
        )
      ]
