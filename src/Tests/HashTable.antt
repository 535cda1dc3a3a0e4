-- ===== src/Tests/HashTable.antt =====
-- The hash table: runs, and the theorems at concrete inputs.
use ostrichserver.Base.{
  bytes, ℕ, Bool, true, false, ◌&&◌, List, [], ◌∷◌, Option, none, some, ◌≡◌, ◌↔◌, ◌%◌, ◌<◌, refl,
  arith, get_or, set, replicate,
}
use ostrichserver.HashTable.Hash.{hashstring, crypttable}
use ostrichserver.HashTable.Table.{
  Hashtable, unused_item, filled, hashtable_init, hashtable_add, hashtable_isexist,
}
use ostrichserver.HashTable.Adding.{IsHashtable, Adds, hashtable_add-Adds}
use ostrichserver.HashTable.Finding.{IsFullSize}
use ostrichserver.HashTable.Staying.{add_all, AllFound, KeepsFound, add_all-AllFound}
use ostrichserver.HashTable.Outside.{FullBehind, isexist-outside}
use ostrichserver.Headers.Handlers.{Handler, http_headers}
use ostrichserver.Headers.Index.{http_header_hashtable_init}

-- Unfolded to run the functions.
table_run : Unit {0}
unfolding crypttable add_all hashtable_init hashtable_add hashtable_isexist
    http_header_hashtable_init hashstring
table_run = tt

is_there : Option (Option ℕ) → Bool
is_there (some (some pos)) = true
is_there _ = false

all_there : Option (Hashtable Handler) → List (List ℕ × Handler) → Bool
all_there none headers = false
all_there (some h) [] = true
all_there (some h) ((name, header) ∷ headers) =
    is_there (hashtable_isexist h name) && all_there (some h) headers

hashes : hashstring (bytes "Host") 0 ≡ hashstring (bytes "hOST") 0
unfolding table_run
hashes = refl

headers_found : all_there (http_header_hashtable_init true) http_headers ≡ true
unfolding table_run all_there is_there
headers_found = refl

-- as Blizzard's table has it
first_word : get_or crypttable 0 0 ≡ 0x55C636E2
unfolding table_run
first_word = refl

known_hash : hashstring (bytes "(hash table)") 3 ≡ 0xC3AF3770
unfolding table_run
known_hash = refl

abbrev two_buckets : Hashtable ℕ
two_buckets = record { buckets = unused_item ∷ unused_item ∷ []; size = 2 }

abbrev both_used : Hashtable ℕ
both_used = record { buckets = filled (bytes "Host") 7 ∷ filled (bytes "Range") 9 ∷ []; size = 2 }

two_buckets-IsHashtable : IsHashtable two_buckets
two_buckets-IsHashtable = omega arith

both_used-IsHashtable : IsHashtable both_used
both_used-IsHashtable = omega arith

hashtable_add-Adds_example :
    Adds two_buckets (bytes "Host") 7 (hashtable_add two_buckets (bytes "Host") 7)
hashtable_add-Adds_example = hashtable_add-Adds two_buckets (bytes "Host") 7 two_buckets-IsHashtable

-- full, and the search goes on behind the last bucket
no_room : hashtable_add both_used (bytes "Cookie") 1 ≡ some (both_used, false)
unfolding table_run
no_room = refl

runs_outside : hashtable_isexist both_used (bytes "Cookie") ≡ none
unfolding table_run
runs_outside = refl

isexist-outside_example :
    (hashtable_isexist both_used (bytes "Cookie") ≡ none)
    ↔ ((2 < 1024) × FullBehind both_used (bytes "Cookie"))
isexist-outside_example =
    isexist-outside both_used (bytes "Cookie") both_used-IsHashtable (omega arith)

abbrev fresh_table : Hashtable ℕ
fresh_table = record { buckets = replicate 1024 unused_item; size = 1024 }

abbrev place_host : ℕ
place_host = hashstring (bytes "Host") 0 % 1024

abbrev place_range : ℕ
place_range = hashstring (bytes "Range") 0 % 1024

abbrev two_items : List (List ℕ × ℕ)
two_items = (bytes "Host", 7) ∷ (bytes "Range", 9) ∷ []

abbrev filled_table : Hashtable ℕ
filled_table = record {
  buckets =
      set (set (replicate 1024 unused_item) place_host (filled (bytes "Host") 7)) place_range
        (filled (bytes "Range") 9);
  size = 1024;
}

fresh_table-IsFullSize : IsFullSize fresh_table
fresh_table-IsFullSize = (record { buckets = refl; some_buckets = omega arith }, refl)

adds_two : add_all fresh_table two_items ≡ some filled_table
unfolding table_run
adds_two = refl

add_all-AllFound_example : AllFound filled_table two_items × KeepsFound fresh_table filled_table
add_all-AllFound_example =
    add_all-AllFound fresh_table filled_table two_items fresh_table-IsFullSize adds_two
