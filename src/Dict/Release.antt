-- ===== src/Dict/Release.antt =====
-- Emptying a dictionary, and an entry without a value (dict.c).
use ostrichserver.Base.{ℕ, Bool, List, [], ◌∷◌, ◌++◌, Option, none, some, ltb, if◌then◌else◌, take}
use ostrichserver.Dict.Interface.{DictType, RwLock}
use ostrichserver.Dict.Table.{Entry, Dictht, Tables, reset_table, key_index, place}
use ostrichserver.Dict.Rehash.{less_one}
use ostrichserver.Dict.Ops.{Run, returns, ◌>>=◌, Dict, dict_find}

-- `used--` for each entry of a chain
unfoldable pub count_down : {A : Type 0} → List A → ℕ → ℕ
count_down [] used = used
count_down (e ∷ c) used = count_down c (less_one used)

-- the loop of `_dict_clear`: the entries that it frees, in their order
unfoldable pub clear_loop : {A : Type 0} → List (List A) → ℕ → List A
unfolding count_down
clear_loop [] used = []
clear_loop (c ∷ cs) used =
    let rest = clear_loop cs (count_down c used) in if ltb 0 used then c ++ rest else []

module _ {K V : Type 0} where
  -- `_dict_clear`: the table that is left, and the entries whose key and value are freed
  unfoldable pub dict_clear : Dictht K V → Dictht K V × List (Entry K V)
  unfolding clear_loop
  dict_clear h = (reset_table, clear_loop (take h.size h.table) h.used)

  -- `dict_release`: the entries that it frees
  unfoldable pub dict_release : Tables K V → List (Entry K V)
  unfolding dict_clear
  dict_release d = (dict_clear d.ht0).1 ++ (dict_clear d.ht1).1

module _ (l : RwLock) {K V : Type 0} (t : DictType K V) where
  -- `dict_add_raw`; `fresh` is what stands in the value of the block that `os_malloc` gives
  unfoldable pub dict_add_raw : V → Tables K V → K → Tables K V × Bool
  unfolding place
  dict_add_raw fresh d k =
      let r = key_index t d k in place r.0 (record { key = t.key_dup k; val = fresh }) r.1

  -- `dict_replace_raw` behind `dict_find`, which gives the value of the entry that is returned
  unfoldable pub add_unless_found : V → K → Dict l t × Option V → Run (Dict l t × Option V)
  unfolding dict_add_raw
  add_unless_found fresh k (d, some v) = returns (d, some v)
  add_unless_found fresh k (d, none) =
      let r = dict_add_raw fresh d.tables k in
      returns (record d { tables = r.0 }, (if r.1 then some fresh else none))

  -- `dict_replace_raw`
  unfoldable pub dict_replace_raw : V → Dict l t → K → Run (Dict l t × Option V)
  unfolding add_unless_found dict_find
  dict_replace_raw fresh d k = dict_find l t d k >>= add_unless_found fresh k
