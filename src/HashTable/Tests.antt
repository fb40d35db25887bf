-- ===== src/HashTable/Tests.antt =====
-- Runs of the hash table, and the theorems at concrete tables.
use morning_projects.Common.{
  ℕ, ◌+◌, ◌%◌, ◌≡◌, refl, inl, Bool, true, false, Option, some, [], ◌∷◌, arith, ◌==◌, if◌then◌else◌,
}
use morning_projects.HashTable.{
  put, vacate, Ptr, null, Bucket, Table, ok, not_found, Location, at, minus_one, Answer, answer,
  write, empty_bucket, probe, ht_insert, ht_find, ht_remove, time33,
}
use morning_projects.HashTable.Insert.{Finds, ht_find-insert}
use morning_projects.HashTable.Keep.{IsEquality, Hit, Hit-insert_other, Hit-remove_other}
use morning_projects.HashTable.Full.{NoFree, NoFree-faults}

-- keys are the numbers that they are, the sequence of rand() is 7, 8, 9, …
abbrev bucket_of : Ptr → ℕ
bucket_of k = k % 20

abbrev equal : Ptr → Ptr → Bool
equal a b = a == b

abbrev seven_on : ℕ → ℕ
seven_on n = n + 7

abbrev stored : Ptr → Ptr → Bucket
stored k d = record { key = k; content = d; vacated = false }

-- the keys 3 and 23 collide; 23 went to bucket 10
abbrev two_keys : Table
two_keys = record {
  num_data = 2;
  ht = write (write (λ i. empty_bucket) 3 (stored 3 300)) 10 (stored 23 323);
}

equal-IsEquality : IsEquality equal
equal-IsEquality = record {
  same_sym = λ a b h. ground arith;
  same_trans = λ a b c h k. ground arith;
}

lookup_collided :
    ht_find bucket_of equal seven_on two_keys 23 minus_one
    ≡ some (record (answer ok two_keys 1 (at 10)) { handed = some 323 })
unfolding ht_find probe
lookup_collided = refl

hash_of_name : time33 (b'a' ∷ b'b' ∷ []) ≡ 19
unfolding time33
hash_of_name = refl

abbrev find : Table → Ptr → Location → Option Answer
find = ht_find bucket_of equal seven_on

abbrev with_five : Table
with_five = put two_keys 5 500 5

insert_five :
    ht_insert bucket_of equal seven_on two_keys 5 500 9 minus_one
    ≡ some (answer ok with_five 0 (at 5))
unfolding ht_insert probe
insert_five = refl

abbrev without_three : Table
without_three = vacate two_keys 3

remove_three :
    ht_remove bucket_of equal seven_on two_keys 3 minus_one
    ≡ some (record (answer ok without_three 0 (at 3)) { removed = some 300 })
unfolding ht_remove probe
remove_three = refl

ht_find-insert_example :
    Finds bucket_of equal seven_on with_five 500
      (ht_find bucket_of equal seven_on with_five 5 (at 2))
ht_find-insert_example =
    ht_find-insert bucket_of equal seven_on two_keys 5 500 9 minus_one (at 2) (omega arith) refl
      insert_five (inl refl)

Hit-insert_other_example : Hit bucket_of equal seven_on with_five 23 (at 2) 323 1 (at 10)
Hit-insert_other_example =
    Hit-insert_other bucket_of equal seven_on two_keys 5 500 9 minus_one 23 minus_one (at 2) 323 1
      (at 10) equal-IsEquality (omega arith) refl insert_five (inl refl) lookup_collided

Hit-remove_other_example : Hit bucket_of equal seven_on without_three 23 (at 2) 323 1 (at 10)
Hit-remove_other_example =
    Hit-remove_other bucket_of equal seven_on two_keys 3 minus_one 23 minus_one (at 2) 323 1 (at 10)
      equal-IsEquality refl remove_three refl lookup_collided

-- twenty keys were stored and one of them removed
abbrev worn : Table
worn = record {
  num_data = 19;
  ht = λ i.
      if i == 4 then record { key = null; content = null; vacated = true } else stored (i + 100) 1;
}

worn-NoFree : NoFree bucket_of equal seven_on worn 7
worn-NoFree i small = ground arith

NoFree-faults_example :
    (a : Answer) × (ht_insert bucket_of equal seven_on worn 7 700 0 minus_one ≡ some a)
    × (a.status ≡ not_found)
    × (a.table ≡ worn)
NoFree-faults_example =
    (NoFree-faults bucket_of equal seven_on worn 7 700 0 minus_one worn-NoFree (omega arith)).3
      (omega arith)
