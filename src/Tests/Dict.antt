-- ===== src/Tests/Dict.antt =====
-- A dictionary: runs, and the theorems at concrete inputs.
use ostrichserver.Base.{
  [], ◌∷◌, bytes, Bool, true, ℕ, ◌<◌, false, not, ◌&&◌, Option, none, some, ◌≡◌, ◌⊎◌, inl, inr,
  refl, arith, ◌==◌, if◌then◌else◌,
}
use ostrichserver.Dict.Interface.{DictType, RwLock}
use ostrichserver.Dict.Table.{
  Tables, new_tables, empty_table, add_entry, assign_entry, blocked_by, index_in, place, find_entry,
  expand_if_needed, dict_expand, doubling,
}
use ostrichserver.Dict.Ops.{
  waits, fault, returns, ◌>>=◌, dict_create, dict_add, dict_find, dict_replace,
}
use ostrichserver.Dict.Slots.{entries, IsTable, empty_table-IsTable}
use ostrichserver.Dict.Rehash.{dict_rehash}
use ostrichserver.Dict.Release.{dict_release, dict_add_raw, dict_replace_raw}
use ostrichserver.Dict.Hashes.{
  dict_gen_key, dict_casestring_key, dict_int_key, dict_string_key_compare,
}
use ostrichserver.Dict.Moving.{IsMoving}
use ostrichserver.Dict.Rounds.{Kept, dict_rehash-Ends}
use ostrichserver.Dict.Lookup.{IsDict, lookup}
use ostrichserver.Dict.Growth.{IsCalm}
use ostrichserver.Dict.Adding.{add_entry-IsDict}
use ostrichserver.Dict.Locking.{with_lock, add-find, find-add-waits}
use ostrichserver.Dict.Replacing.{Apart, Replaced, dict_replace-branches}

-- A lock that one thread uses.
pub data Held : Type 0 where
  free : Held
  reading : Held
  writing : Held

abbrev take_read : Held → Option Held
take_read free = some reading
take_read reading = some reading
take_read writing = none

abbrev take_write : Held → Option Held
take_write free = some writing
take_write reading = none
take_write writing = none

abbrev pub one_thread : RwLock
one_thread = record {
  Lock = Held;
  unlocked = free;
  rdlock = take_read;
  wrlock = take_write;
  unlock = λ k. free;
  read_locked = reading;
  write_locked = writing;
  rdlock_free = refl;
  wrlock_free = refl;
  unlock_read = refl;
  unlock_write = refl;
  wrlock_read = refl;
  rdlock_write = refl;
  wrlock_write = refl;
}

-- Numbers as keys, each its own hash; two that differ compare with a number other than 0.
abbrev numbers : DictType ℕ ℕ
numbers = record { hash = λ k. k; key_dup = λ k. k; val_dup = λ v. v; cmp = λ a b. not (a == b) }

abbrev fresh : Tables ℕ ℕ
fresh = new_tables

reset-IsTable : IsTable {K = ℕ} {V = ℕ} (record { table = []; size = 0; sizemask = 0; used = 0 })
unfolding entries
reset-IsTable = record { slots = refl; mask = refl; counted = refl }

fresh-IsDict : IsDict fresh
fresh-IsDict = record {
  first = reset-IsTable;
  second = reset-IsTable;
  roomy = λ h. absurd (ground (arith, h));
}

fresh-IsCalm : IsCalm fresh
fresh-IsCalm = (refl, inl refl)

-- Unfolded to run the operations.
dict_run : Unit {0}
unfolding dict_add dict_find dict_replace add_entry assign_entry find_entry place index_in
    blocked_by expand_if_needed dict_expand doubling
dict_run = tt

-- The dictionary with the entry of 7; 23 goes to the same slot.
abbrev one : Tables ℕ ℕ
one = (add_entry numbers fresh 7 70).0

one-finds : (lookup numbers one 7 ≡ some 70) × (lookup numbers one 23 ≡ none) × (one.ht0.used ≡ 1)
unfolding dict_run
one-finds = (refl, refl, refl)

one-IsDict : IsDict one
one-IsDict = add_entry-IsDict numbers fresh 7 70 fresh-IsDict

one-IsCalm : IsCalm one
unfolding dict_run
one-IsCalm = (refl, inr (omega arith))

-- 11 goes to the slot of 7 under the mask 99 and compares with 7 as different, so it is refused.
refused : (add_entry numbers one 11 110).1 ≡ false
unfolding dict_run
refused = refl

add-find_example :
    (dict_add one_thread numbers (with_lock one_thread numbers one free) 8 80
      >>= (λ r. dict_find one_thread numbers r.0 8))
    ≡ returns (
      with_lock one_thread numbers (add_entry numbers one 8 80).0 free,
      (if (add_entry numbers one 8 80).1 && not (not (8 == 8))
          then some 80
          else lookup numbers one 8),
    )
add-find_example = add-find one_thread numbers one 8 8 80 one-IsDict one-IsCalm (λ e. refl)

find-add-waits_example :
    (dict_find one_thread numbers (dict_create one_thread numbers) 7
      >>= (λ r. dict_add one_thread numbers r.0 7 70))
    ≡ waits
find-add-waits_example = find-add-waits one_thread numbers fresh 7 7 70 refl

-- A dictionary with two keys in its one slot.
abbrev paired : Tables ℕ ℕ
paired = record new_tables {
  ht0 = record {
    table = (record { key = 7; val = 70 } ∷ record { key = 11; val = 110 } ∷ []) ∷ [];
    size = 1;
    sizemask = 0;
    used = 2;
  };
}

paired-IsDict : IsDict paired
unfolding entries
paired-IsDict = record {
  first = record { slots = refl; mask = refl; counted = refl };
  second = reset-IsTable;
  roomy = λ h. absurd (ground (arith, h));
}

paired-IsCalm : IsCalm paired
paired-IsCalm = (refl, inr (omega arith))

seven-Apart : Apart numbers 7 11
seven-Apart x equal = ground arith

dict_replace-branches_example :
    (((add_entry numbers paired 7 77).1 ≡ false)
      × (lookup numbers paired 7 ≡ none)
      × (dict_replace one_thread numbers (with_lock one_thread numbers paired free) 7 77 ≡ fault))
    ⊎ ((d' : Tables ℕ ℕ) × (dict_replace one_thread numbers
            (with_lock one_thread numbers paired free)
            7
            77
          ≡ returns (
            with_lock one_thread numbers d' free,
            (if (add_entry numbers paired 7 77).1 then 1 else 0),
          ))
        × Replaced numbers 7 11 77 paired d')
dict_replace-branches_example =
    dict_replace-branches numbers one_thread paired 7 11 77 paired-IsDict paired-IsCalm refl
      seven-Apart

-- The entry found is overwritten, since no second one can be made.
replaced :
    (dict_replace one_thread numbers (with_lock one_thread numbers paired free) 7 77
      >>= (λ r. dict_find one_thread numbers r.0 7 >>= (λ f. returns f.1)))
    ≡ returns (some 77)
unfolding dict_run
replaced = refl

-- No entry is made for 11, and the replacement reads through NULL.
replace-faults :
    dict_replace one_thread numbers (with_lock one_thread numbers one free) 11 110 ≡ fault
unfolding dict_run
replace-faults = refl

-- A dictionary that is rehashing, with two entries in one slot of its old table.
abbrev moving : Tables ℕ ℕ
moving = record {
  ht0 = record {
    table = [] ∷ (record { key = 3; val = 30 } ∷ record { key = 1; val = 10 } ∷ []) ∷ [];
    size = 2;
    sizemask = 1;
    used = 2;
  };
  ht1 = empty_table 4;
  rehashidx = some 0;
}

moving-IsMoving : IsMoving numbers moving 0
unfolding entries
moving-IsMoving = record {
  shape = record {
    first = record { slots = refl; mask = refl; counted = refl };
    second = empty_table-IsTable 4;
    roomy = λ h. (omega arith, omega arith);
  };
  index = refl;
  passed = refl;
}

dict_rehash-Ends_example :
    (d' : Tables ℕ ℕ) × (all_made : Bool) × (dict_rehash one_thread numbers
        (with_lock one_thread numbers moving free)
        3
      ≡ returns (
        with_lock one_thread numbers d' (if all_made then free else writing),
        (if all_made then 1 else 0),
      ))
    × (2 < 3 → all_made ≡ false)
    × Kept numbers moving (d', all_made)
dict_rehash-Ends_example = dict_rehash-Ends one_thread numbers moving 0 3 moving-IsMoving

-- In two rounds the entries are moved, and the second returns with the lock held; then a search waits for
-- ever.
rehash-waits :
    (dict_rehash one_thread numbers (with_lock one_thread numbers moving free) 2
      >>= (λ r. dict_find one_thread numbers r.0 3))
    ≡ waits
unfolding dict_run dict_rehash
rehash-waits = refl

-- After one round a key is found in the new table.
rehash-finds :
    (dict_rehash one_thread numbers (with_lock one_thread numbers moving free) 1
      >>= (λ r. dict_find one_thread numbers r.0 3 >>= (λ f. returns f.1)))
    ≡ returns (some 30)
unfolding dict_run dict_rehash
rehash-finds = refl

-- A release frees every entry of both tables.
released : dict_release moving ≡ record { key = 3; val = 30 } ∷ record { key = 1; val = 10 } ∷ []
unfolding dict_release
released = refl

replaced_raw :
    (dict_replace_raw one_thread numbers 99 (with_lock one_thread numbers one free) 8
      >>= (λ r. returns r.1))
    ≡ returns (some 99)
unfolding dict_run dict_replace_raw dict_add_raw
replaced_raw = refl

-- The hash functions at some keys.
hashes :
    (dict_gen_key (bytes "Host") ≡ 1407970094)
    × (dict_gen_key (bytes "Content") ≡ 2848619840)
    × (dict_casestring_key (bytes "HoSt") ≡ 2090335843)
    × (dict_int_key 7 ≡ 3187339340)
unfolding dict_gen_key dict_casestring_key dict_int_key
hashes = (refl, refl, refl, refl)

-- Keys are compared up to a NUL that both have.
compared :
    (dict_string_key_compare (bytes "host") (bytes "hosT") ≡ true)
    × (dict_string_key_compare (1 ∷ 0 ∷ 2 ∷ []) (1 ∷ 0 ∷ 3 ∷ []) ≡ false)
unfolding dict_string_key_compare
compared = (refl, refl)
