-- ===== src/Dict/Table.antt =====
-- The tables of a dictionary, without its lock: sizes, expansion, and the search for a slot.
-- `os_calloc` and `os_malloc` are taken to succeed, as the code takes them to.
use ostrichserver.Base.{
  ℕ, zero, suc, ◌+◌, ◌-◌, ◌*◌, ◌/◌, ◌^◌, ◌%◌, Bool, true, false, not, ◌&&◌, ◌||◌, List, [], ◌∷◌,
  Option, none, some, bit_and, ltb, leb, ◌==◌, if◌then◌else◌, get_or, set, replicate, is_some,
}
use ostrichserver.Dict.Interface.{DictType}

-- `dict_entry`; a chain is the list of its entries from the head on.
pub record Entry (K V : Type 0) : Type 0 where
  pub key : K
  pub val : V

abbrev pub Chain : Type 0 → Type 0 → Type 0
Chain K V = List (Entry K V)

-- `dictht`; a `table` that is NULL has no slot.
pub record Dictht (K V : Type 0) : Type 0 where
  pub table : List (Chain K V)
  pub size : ℕ
  pub sizemask : ℕ
  pub used : ℕ

-- The tables of a `dict` and its `rehashidx`, which is `none` for -1.
pub record Tables (K V : Type 0) : Type 0 where
  pub ht0 : Dictht K V
  pub ht1 : Dictht K V
  pub rehashidx : Option ℕ

abbrev pub dict_ht_size : ℕ
dict_ht_size = 100

abbrev pub dict_resize_ratio : ℕ
dict_resize_ratio = 5

abbrev pub long_max : ℕ
long_max = 2 ^ 63 - 1

-- `_dict_reset`
abbrev pub reset_table : {K V : Type 0} → Dictht K V
reset_table = record { table = []; size = 0; sizemask = 0; used = 0 }

-- `_dict_init`, the tables
abbrev pub new_tables : {K V : Type 0} → Tables K V
new_tables = record { ht0 = reset_table; ht1 = reset_table; rehashidx = none }

-- `for (;;) { if (i >= size) return i; i *= 2; }`
unfoldable pub doubling : ℕ → ℕ → ℕ → Option ℕ
doubling zero size i = none
doubling (suc fuel) size i =
    let rest = doubling fuel size (i * 2) in if leb size i then some i else rest

-- `_dict_next_power`
unfoldable pub next_power : ℕ → Option ℕ
unfolding doubling
next_power size = if leb long_max size then some long_max else doubling 64 size dict_ht_size

-- a `table` that is NULL
abbrev pub is_null : {A : Type 0} → List A → Bool
is_null [] = true
is_null (x ∷ xs) = false

module _ {K V : Type 0} where
  abbrev pub is_rehashing : Tables K V → Bool
  is_rehashing d = is_some d.rehashidx

  -- the new table of `dict_expand`
  abbrev pub empty_table : ℕ → Dictht K V
  empty_table size = record {
    table = replicate size [];
    size = size;
    sizemask = size - 1;
    used = 0;
  }

  -- the part of `dict_expand` behind its guard
  abbrev pub install : Tables K V → ℕ → Tables K V
  install d size =
      if is_null d.ht0.table
      then record d { ht0 = empty_table size }
      else record d { ht1 = empty_table size; rehashidx = some 0 }

  -- `dict_expand`; `none` is `OS_ERR`
  unfoldable pub dict_expand : Tables K V → ℕ → Option (Tables K V)
  unfolding next_power
  dict_expand d size = elim (next_power size) [
    | none ↦ none
    | some real_size ↦
        if is_rehashing d || ltb size d.ht0.used then none else some (install d real_size)
  ]

  -- `_dict_expand_if_needed`
  unfoldable pub expand_if_needed : Tables K V → Option (Tables K V)
  expand_if_needed d =
      if is_rehashing d
      then some d
      else if d.ht0.size == 0
      then dict_expand d dict_ht_size
      else if leb d.ht0.size d.ht0.used && ltb dict_resize_ratio (d.ht0.used / d.ht0.size)
      then dict_expand d (d.ht0.used * 2)
      else some d

  -- `entry->next = ht->table[index]; ht->table[index] = entry; ht->used++`
  abbrev pub push : Dictht K V → ℕ → Entry K V → Dictht K V
  push h i e = record h { table = set h.table i (e ∷ get_or h.table i []); used = h.used + 1 }

  -- the entry goes to the new table while the dictionary is rehashing
  unfoldable pub place : Tables K V → Entry K V → Option ℕ → Tables K V × Bool
  place d e none = (d, false)
  place d e (some i) =
      if is_rehashing d
      then (record d { ht1 = push d.ht1 i e }, true)
      else (record d { ht0 = push d.ht0 i e }, true)

module _ {K V : Type 0} (t : DictType K V) where
  -- `h & ht->sizemask`, where `h` is an unsigned int
  abbrev pub slot : Dictht K V → K → ℕ
  slot h k = bit_and (t.hash k % 2 ^ 32) h.sizemask

  abbrev pub chain_of : Dictht K V → K → Chain K V
  chain_of h k = get_or h.table (slot h k) []

  -- the test in the loop of `_dict_key_index`: some entry compares with a number other than 0
  unfoldable pub blocked_by : K → Chain K V → Bool
  blocked_by k [] = false
  blocked_by k (e ∷ c) = t.cmp k e.key || blocked_by k c

  -- the loop of `_dict_key_index` over the tables `d`, for the new table too when it is rehashing
  unfoldable pub index_in : Tables K V → K → Option ℕ
  index_in d k =
      if blocked_by k (chain_of d.ht0 k)
      then none
      else if not (is_rehashing d)
      then some (slot d.ht0 k)
      else if blocked_by k (chain_of d.ht1 k)
      then none
      else some (slot d.ht1 k)

  -- the first test of `_dict_key_index`, of what `_dict_expand_if_needed` gives
  abbrev pub index_after : Tables K V → K → Option (Tables K V) → Tables K V × Option ℕ
  index_after d k none = (d, none)
  index_after d k (some d') = (d', index_in d' k)

  -- `_dict_key_index`: the tables after an expansion, and the index unless it is -1
  abbrev pub key_index : Tables K V → K → Tables K V × Option ℕ
  key_index d k = index_after d k (expand_if_needed d)

  -- `dict_add_raw` with the value that `dict_add` sets; whether an entry was made
  unfoldable pub add_entry : Tables K V → K → V → Tables K V × Bool
  unfolding place
  add_entry d k v =
      let r = key_index d k in place r.0 (record { key = t.key_dup k; val = t.val_dup v }) r.1

  -- the loop of `dict_find` over one chain
  unfoldable pub find_in : K → Chain K V → Option V
  find_in k [] = none
  find_in k (e ∷ c) = if not (t.cmp k e.key) then some e.val else find_in k c

  -- the loop of `dict_find` over the tables
  unfoldable pub find_entry : Tables K V → K → Option V
  unfolding find_in
  find_entry d k =
      let first = find_in k (chain_of d.ht0 k) in
      if is_some first
      then first
      else if not (is_rehashing d)
      then none
      else find_in k (chain_of d.ht1 k)

  -- `dict_set_val` on the entry that `dict_find` returns; there is none without one
  unfoldable pub assign_in : K → V → Chain K V → Chain K V
  assign_in k v [] = []
  assign_in k v (e ∷ c) =
      if not (t.cmp k e.key) then record e { val = t.val_dup v } ∷ c else e ∷ assign_in k v c

  abbrev pub assign_at : Dictht K V → K → V → Dictht K V
  assign_at h k v = record h { table = set h.table (slot h k) (assign_in k v (chain_of h k)) }

  unfoldable pub assign_entry : Tables K V → K → V → Tables K V
  unfolding assign_in
  assign_entry d k v =
      if is_some (find_in k (chain_of d.ht0 k))
      then record d { ht0 = assign_at d.ht0 k v }
      else record d { ht1 = assign_at d.ht1 k v }
