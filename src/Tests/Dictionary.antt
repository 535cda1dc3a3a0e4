-- ===== src/Tests/Dictionary.antt =====
-- A string dictionary: runs, and the theorems at concrete inputs.
use ostrichserver.Base.{
  bytes, ltb, ◌∷◌, ℕ, false, List, [], none, some, ◌≡◌, refl, arith, if◌then◌else◌, length,
}
use ostrichserver.Dictionary.Table.{
  bucket, Dictionary, dictionary_init, dictionary_insert, dictionary_value_for_key,
  dictionary_has_key, dictionary_keys_count, dictionary_all_keys, dictionary_remove_value_for_key,
  str_equal, dict_hash,
}
use ostrichserver.Dictionary.Values.{values, values_in, rev_onto, Shaped, init-values}
use ostrichserver.Dictionary.Inserting.{
  IsUnique, newest, insert-values, pushed, value_for_key-insert,
}
use ostrichserver.Dictionary.Removing.{older, value_for_key-remove}

abbrev start : Dictionary ℕ
start = dictionary_init 2

start-Shaped : Shaped start
start-Shaped = (refl, λ i q h. init-values 2 i q)

start-IsUnique : IsUnique start
start-IsUnique = λ q. rw (init-values 2 (dict_hash q 2) q) (omega arith)

-- Unfolded to run the operations.
dictionary_run : Unit {0}
unfolding dictionary_insert dictionary_value_for_key dictionary_has_key dictionary_keys_count
    dictionary_all_keys dictionary_remove_value_for_key values_in
dictionary_run = tt

start_lacks-a : dictionary_value_for_key start (bytes "a") ≡ none
unfolding dictionary_run
start_lacks-a = refl

-- the dictionary with one entry
abbrev one_entry : Dictionary ℕ
one_entry = dictionary_insert start (bytes "a") 1

one_entry_facts :
    Shaped one_entry
    × IsUnique one_entry
    × ((q : List ℕ)
        → dictionary_value_for_key one_entry q
          ≡ (if str_equal q (bytes "a") then some 1 else dictionary_value_for_key start q))
one_entry_facts = value_for_key-insert start (bytes "a") 1 start-Shaped start-IsUnique start_lacks-a

one_entry_lacks-b : dictionary_value_for_key one_entry (bytes "b") ≡ none
unfolding dictionary_run
one_entry_lacks-b = refl

-- Three entries in one slot, two of them under one key.
abbrev three : Dictionary ℕ
three =
    dictionary_insert
      (dictionary_insert (dictionary_insert (dictionary_init 0) (bytes "a") 1) (bytes "a") 2)
      (bytes "b") 3

empty-Shaped : Shaped {V = ℕ} (dictionary_init 0)
empty-Shaped = (refl, λ i q h. init-values 0 i q)

three-Shaped : Shaped three
three-Shaped =
    let one = insert-values (dictionary_init 0) (bytes "a") 1 (bytes "a") empty-Shaped in
    let two = insert-values _ (bytes "a") 2 (bytes "a") one.0 in
    (insert-values _ (bytes "b") 3 (bytes "a") two.0).0

insert-values_example :
    Shaped (dictionary_insert three (bytes "c") 4)
    × (values (dictionary_insert three (bytes "c") 4) (bytes "a") ≡ (
        if ltb 2 (length (bucket three (bytes "c")))
        then rev_onto (pushed three (bytes "c") 4 (bytes "a")) []
        else pushed three (bytes "c") 4 (bytes "a")))
insert-values_example = insert-values three (bytes "c") 4 (bytes "a") three-Shaped

value_for_key-remove_example :
    Shaped (dictionary_remove_value_for_key one_entry (bytes "a"))
    × ((q : List ℕ)
        → dictionary_value_for_key (dictionary_remove_value_for_key one_entry (bytes "a")) q ≡ (
            if str_equal q (bytes "a")
            then newest (older (values one_entry q))
            else dictionary_value_for_key one_entry q))
value_for_key-remove_example = value_for_key-remove one_entry (bytes "a") one_entry_facts.0

-- Two entries under one key, and a rebuild.
abbrev turned : Dictionary ℕ
turned = dictionary_insert three (bytes "c") 4

-- The rebuild makes the older of the two values the one that is found.
turned-finds :
    (turned.i_size ≡ 4)
    × (dictionary_value_for_key turned (bytes "a") ≡ some 1)
    × (dictionary_keys_count turned ≡ 4)
    × (length (dictionary_all_keys turned) ≡ 4)
    × (values turned (bytes "a") ≡ 1 ∷ 2 ∷ [])
unfolding dictionary_run
turned-finds = (refl, refl, refl, refl, refl)

one_entry_denies : dictionary_has_key one_entry (bytes "b") ≡ false
unfolding dictionary_run
one_entry_denies = refl
