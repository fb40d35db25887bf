-- ===== src/HashTable.antt =====
-- common/src/hashit/hashtable.c and .h, with the hash function of hashit.c: a table of 20 buckets
-- with open addressing. A pointer is a number and NULL is 0. The callbacks are parameters: `hash`,
-- `same` for `0 == compare(key1, key2)`, and `rand`, the values that rand() returns after
-- srand(NUM_BUCKETS/2), which are the same in every call. The load factor, which only the display
-- reads, is left out.
pub mod Probe
pub mod Insert
pub mod Keep
pub mod Full
mod Tests
use morning_projects.Common.{
  ℕ, zero, suc, ◌+◌, ◌-◌, ◌*◌, ◌%◌, ◌^◌, Bool, true, false, ◌&&◌, ◌||◌, not, Option, none, some,
  List, [], ◌∷◌, ltb, ◌==◌, if◌then◌else◌, ◌>>=◌,
}

abbrev pub Ptr : Type 0
Ptr = ℕ

abbrev pub null : Ptr
null = 0

abbrev pub num_buckets : ℕ
num_buckets = 20

-- `ht_bucket_tag`
pub record Bucket : Type 0 where
  pub key : Ptr
  pub content : Ptr
  pub vacated : Bool

-- `hashtable_tag`; the array is read and written below `num_buckets` only
pub record Table : Type 0 where
  pub num_data : ℕ
  pub ht : ℕ → Bucket

pub data Status : Type 0 where
  ok fail not_found overwriten duplicated full : Status

-- an `int32_t` location: a bucket's index, or -1
pub data Location : Type 0 where
  at : ℕ → Location
  minus_one : Location

abbrev pub empty_bucket : Bucket
empty_bucket = record { key = null; content = null; vacated = false }

-- `HT_create`: whether the four callbacks are given and `malloc` succeeds, and what the memory
-- held. Every field is set but `num_data`, which keeps what was there.
unfoldable pub ht_create : Bool → Bool → ℕ → Status × Option Table
ht_create callbacks allocated garbage =
    if not callbacks
    then (fail, none)
    else if allocated
    then (ok, some (record { num_data = garbage; ht = λ i. empty_bucket }))
    else (fail, none)

abbrev pub write : (ℕ → Bucket) → ℕ → Bucket → ℕ → Bucket
write ht i b j = if j == i then b else ht j

-- What `ht_lookup` leaves: the bucket, `none` for NULL; `*p_probe_count`; `*p_location`.
pub record Found : Type 0 where
  pub bucket : Option ℕ
  pub probe_count : ℕ
  pub location : Location

-- the choice behind the loop of `ht_lookup`, where no duplicate was found
abbrev pub settle : Option ℕ → ℕ → ℕ → Location → Found
settle (some v) index count location = record {
  bucket = some v;
  probe_count = count;
  location = location;
}
settle none index count location = record {
  bucket = some index;
  probe_count = count;
  location = at index;
}

-- What a call leaves: its status, the table, `*p_probe_count`, `*p_location`, the data that
-- `HT_lookup` hands out, and the data passed to the `remove` callback.
pub record Answer : Type 0 where
  pub status : Status
  pub table : Table
  pub probe_count : ℕ
  pub location : Location
  pub handed : Option Ptr
  pub removed : Option Ptr

abbrev pub answer : Status → Table → ℕ → Location → Answer
answer status t count location = record {
  status = status;
  table = t;
  probe_count = count;
  location = location;
  handed = none;
  removed = none;
}

-- the duplicate that ends the loop
abbrev pub is_duplicate : (Ptr → Ptr → Bool) → Bucket → Ptr → Bool
is_duplicate same b key = not b.vacated && (not (b.content == null) && same b.key key)

-- the test of the loop
abbrev pub in_use : Bucket → Bool
in_use b = not (b.content == null) || b.vacated

-- `p_vacated_bucket` is the first vacated bucket met, and the location is set with it
abbrev pub note_vacant : Bucket → ℕ → Option ℕ → Option ℕ
note_vacant b index (some v) = some v
note_vacant b index none = if b.vacated then some index else none

abbrev pub note_location : Bucket → ℕ → Option ℕ → Location → Location
note_location b index (some v) location = location
note_location b index none location = if b.vacated then at index else location

abbrev pub max_probes : ℕ
max_probes = 100 * num_buckets

-- the write of `HT_insert` into the bucket found
abbrev pub put : Table → Ptr → Ptr → ℕ → Table
put t key content i = record {
  num_data = (t.num_data + 1) % 2 ^ 32;
  ht = write t.ht i (record { key = key; content = content; vacated = false });
}

-- `HT_insert` behind its call of `ht_lookup`; `none` is a fault at NULL
abbrev pub place : (Ptr → Ptr → Bool) → Table → Ptr → Ptr → Found → Option Answer
place same t key content f =
    if f.probe_count == max_probes
    then some (answer not_found t f.probe_count f.location)
    else (f.bucket >>= λ i.
        if (t.ht i).content == null
        then some (answer ok (put t key content i) f.probe_count f.location)
        else if (t.ht i).vacated || same (t.ht i).key key
        then some (answer overwriten (put t key content i) f.probe_count f.location)
        else some (answer duplicated t f.probe_count f.location))

-- the table with a bucket vacated
abbrev pub vacate : Table → ℕ → Table
vacate t i = record {
  num_data = (t.num_data + 2 ^ 32 - 1) % 2 ^ 32;
  ht = write t.ht i (record { key = null; content = null; vacated = true });
}

module _ (hash : Ptr → ℕ) (same : Ptr → Ptr → Bool) (rand : ℕ → ℕ) where
  -- `index = (index + rand()) % NUM_BUCKETS`, for the probe of that number
  abbrev pub next_index : ℕ → ℕ → ℕ
  next_index index count = ((index + rand count) % 2 ^ 32) % num_buckets

  -- The loop of `ht_lookup`: `left` counts the rounds until `*p_probe_count` is
  -- 100 * NUM_BUCKETS, and `vacant` is `p_vacated_bucket`.
  unfoldable pub probe : (ℕ → Bucket) → Ptr → ℕ → ℕ → ℕ → Option ℕ → Location → Found
  probe ht key zero index count vacant location =
      if not (in_use (ht index))
      then settle vacant index count location
      else if is_duplicate same (ht index) key
      then record { bucket = some index; probe_count = count; location = at index }
      else record {
        bucket = none;
        probe_count = count;
        location = note_location (ht index) index vacant location;
      }
  probe ht key (suc left) index count vacant location =
      let rest =
        probe ht key left (next_index index count) (count + 1) (note_vacant (ht index) index vacant)
          (note_location (ht index) index vacant location) in
      if not (in_use (ht index))
      then settle vacant index count location
      else if is_duplicate same (ht index) key
      then record { bucket = some index; probe_count = count; location = at index }
      else rest

  -- `ht_lookup`; `none` is the read outside the array that a hash of 20 or more makes
  unfoldable pub ht_lookup : Table → Ptr → Location → Option Found
  ht_lookup t key location =
      if ltb (hash key) num_buckets
      then some (probe t.ht key max_probes (hash key) 0 none location)
      else none

  -- `HT_insert`; the probe count and the location stay as they were if the table is full
  unfoldable pub ht_insert : Table → Ptr → Ptr → ℕ → Location → Option Answer
  unfolding ht_lookup
  ht_insert t key content count location =
      if t.num_data == num_buckets
      then some (answer full t count location)
      else (ht_lookup t key location >>= λ f. place same t key content f)

  -- `HT_lookup`
  unfoldable pub ht_find : Table → Ptr → Location → Option Answer
  unfolding ht_lookup
  ht_find t key location = ht_lookup t key location >>= λ f.
      (f.bucket >>= λ i.
      if ((t.ht i).content == null) || (t.ht i).vacated
      then some (answer not_found t f.probe_count minus_one)
      else some (record (answer ok t f.probe_count f.location) { handed = some (t.ht i).content }))

  -- `HT_remove`
  unfoldable pub ht_remove : Table → Ptr → Location → Option Answer
  unfolding ht_lookup
  ht_remove t key location = ht_lookup t key location >>= λ f.
      (f.bucket >>= λ i.
      if ((t.ht i).content == null) || (t.ht i).vacated
      then some (answer not_found t f.probe_count minus_one)
      else some (record (answer ok (vacate t i) f.probe_count f.location) {
        removed = some (t.ht i).content;
      }))

-- `HT_destroy`: the data of the buckets from `i` on, each passed to `remove`
unfoldable pub ht_destroy_from : (ℕ → Bucket) → ℕ → ℕ → List Ptr
ht_destroy_from ht zero i = []
ht_destroy_from ht (suc n) i =
    let rest = ht_destroy_from ht n (i + 1) in
    if (ht i).content == null then rest else (ht i).content ∷ rest

unfoldable pub ht_destroy : Table → List Ptr
unfolding ht_destroy_from
ht_destroy t = ht_destroy_from t.ht num_buckets 0

-- `(uint32_t)str[i]` for a byte of a signed `char`
abbrev pub widen : ℕ → ℕ
widen c = if ltb c 128 then c else c + 2 ^ 32 - 256

-- `time33` of hashit.c, over the bytes of the key
unfoldable pub time33_from : ℕ → List ℕ → ℕ
time33_from h [] = h
time33_from h (c ∷ cs) = time33_from ((h * 33 + widen c) % 2 ^ 32) cs

unfoldable pub time33 : List ℕ → ℕ
unfolding time33_from
time33 str = time33_from 0 str % num_buckets
