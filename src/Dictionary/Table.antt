-- ===== src/Dictionary/Table.antt =====
-- arrays.h: `dictionary_t` and its operations. A C string is the list of its bytes before the NUL;
-- a `p_entries` that is NULL has no slot. Allocation is taken to succeed, as most of the code takes it
-- to.
use ostrichserver.Base.{
  ℕ, ◌+◌, ◌-◌, ◌*◌, ◌/◌, ◌%◌, ◌^◌, Bool, true, false, ◌&&◌, List, [], ◌∷◌, ◌++◌, map, Option, none,
  some, bit_xor, ltb, ◌==◌, if◌then◌else◌, get_or, set, replicate, length,
}

-- `dictionary_entry_t`; a chain is the list of its entries from the head on.
pub record DictionaryEntry (V : Type 0) : Type 0 where
  pub psz_key : List ℕ
  pub p_value : V

-- `dictionary_t`
pub record Dictionary (V : Type 0) : Type 0 where
  pub i_size : ℕ
  pub p_entries : List (List (DictionaryEntry V))

-- `strcmp(a, b) == 0`
unfoldable pub str_equal : List ℕ → List ℕ → Bool
str_equal [] [] = true
str_equal [] (y ∷ ys) = false
str_equal (x ∷ xs) [] = false
str_equal (x ∷ xs) (y ∷ ys) = (x == y) && str_equal xs ys

-- a `char`, which has a sign, as a summand of a 64-bit number
abbrev pub char_summand : ℕ → ℕ
char_summand c = if ltb c 128 then c else c + (2 ^ 64 - 256)

-- the body of the loop of `DictHash`
unfoldable pub hash_byte : ℕ → ℕ → ℕ
hash_byte h c =
    let added = (h + char_summand c) % 2 ^ 64 in
    let shifted = (added + added * 2 ^ 10 % 2 ^ 64) % 2 ^ 64 in bit_xor shifted (shifted / 2 ^ 8)

unfoldable pub hash_bytes : ℕ → List ℕ → ℕ
hash_bytes h [] = h
hash_bytes h (c ∷ s) = hash_bytes (hash_byte h c) s

-- `DictHash`
unfoldable pub dict_hash : List ℕ → ℕ → ℕ
unfolding hash_bytes hash_byte
dict_hash s hashsize = hash_bytes 0 s % hashsize

module _ {V : Type 0} where
  -- `dictionary_init`
  abbrev pub dictionary_init : ℕ → Dictionary V
  dictionary_init size = record { i_size = size; p_entries = replicate size [] }

  -- `dictionary_clear`
  abbrev pub dictionary_clear : Dictionary V → Dictionary V
  dictionary_clear d = record { i_size = 0; p_entries = [] }

  abbrev pub no_entries : List (List (DictionaryEntry V)) → Bool
  no_entries [] = true
  no_entries (c ∷ cs) = false

  abbrev pub bucket : Dictionary V → List ℕ → List (DictionaryEntry V)
  bucket d k = get_or d.p_entries (dict_hash k d.i_size) []

  abbrev pub is_bucket_used : List (DictionaryEntry V) → Bool
  is_bucket_used [] = false
  is_bucket_used (e ∷ c) = true

  -- `dictionary_has_key`
  unfoldable pub dictionary_has_key : Dictionary V → List ℕ → Bool
  unfolding dict_hash
  dictionary_has_key d k = if no_entries d.p_entries then false else is_bucket_used (bucket d k)

  -- the loop of `dictionary_value_for_key`
  unfoldable pub value_in : List ℕ → List (DictionaryEntry V) → Option V
  value_in k [] = none
  value_in k (e ∷ c) = if str_equal k e.psz_key then some e.p_value else value_in k c

  -- `dictionary_value_for_key`; `none` is `kIMAXDictionaryNotFound`
  unfoldable pub dictionary_value_for_key : Dictionary V → List ℕ → Option V
  unfolding value_in dict_hash str_equal
  dictionary_value_for_key d k = if no_entries d.p_entries then none else value_in k (bucket d k)

  -- the loops of `dictionary_keys_count`
  unfoldable pub count_chains : List (List (DictionaryEntry V)) → ℕ
  count_chains [] = 0
  count_chains (c ∷ cs) = length c + count_chains cs

  -- `dictionary_keys_count`
  unfoldable pub dictionary_keys_count : Dictionary V → ℕ
  unfolding count_chains
  dictionary_keys_count d = if no_entries d.p_entries then 0 else count_chains d.p_entries

  -- the second loops of `dictionary_all_keys`
  unfoldable pub keys_of : List (List (DictionaryEntry V)) → List (List ℕ)
  keys_of [] = []
  keys_of (c ∷ cs) = map (λ e. e.psz_key) c ++ keys_of cs

  -- `dictionary_all_keys`, without the NULL at the end
  unfoldable pub dictionary_all_keys : Dictionary V → List (List ℕ)
  unfolding keys_of
  dictionary_all_keys d = keys_of d.p_entries

  -- the first step of `__dictionary_insert`
  abbrev pub with_slot : Dictionary V → Dictionary V
  with_slot d = if no_entries d.p_entries then dictionary_init 1 else d

  -- `p_entry->p_next = p_dict->p_entries[i_pos]; p_dict->p_entries[i_pos] = p_entry`
  abbrev pub link : Dictionary V → DictionaryEntry V → Dictionary V
  link d e = record d {
    p_entries = set d.p_entries (dict_hash e.psz_key d.i_size) (e ∷ bucket d e.psz_key);
  }

  -- `__dictionary_insert` without the rebuild
  unfoldable pub insert_entry : Dictionary V → DictionaryEntry V → Dictionary V
  unfolding dict_hash
  insert_entry d e = link (with_slot d) e

  -- the rebuild's loop over a chain
  unfoldable pub insert_chain : Dictionary V → List (DictionaryEntry V) → Dictionary V
  unfolding insert_entry
  insert_chain d [] = d
  insert_chain d (e ∷ c) = insert_chain (insert_entry d e) c

  -- the rebuild's loop over the slots
  unfoldable pub insert_chains : Dictionary V → List (List (DictionaryEntry V)) → Dictionary V
  unfolding insert_chain
  insert_chains d [] = d
  insert_chains d (c ∷ cs) = insert_chains (insert_chain d c) cs

  -- the rebuild
  unfoldable pub rebuild : Dictionary V → Dictionary V
  unfolding insert_chains
  rebuild d = insert_chains (dictionary_init ((d.i_size + 2) * 3 / 2)) d.p_entries

  -- `dictionary_insert`: the chain of the new entry is counted, and more than 3 entries are too many
  unfoldable pub dictionary_insert : Dictionary V → List ℕ → V → Dictionary V
  unfolding insert_entry rebuild
  dictionary_insert d k v =
      let d' = insert_entry d (record { psz_key = k; p_value = v }) in
      if ltb 3 (length (bucket d' k)) then rebuild d' else d'

  -- the loop of `dictionary_remove_value_for_key`
  unfoldable pub remove_in : List ℕ → List (DictionaryEntry V) → List (DictionaryEntry V)
  remove_in k [] = []
  remove_in k (e ∷ c) = if str_equal k e.psz_key then c else e ∷ remove_in k c

  -- `dictionary_remove_value_for_key`
  unfoldable pub dictionary_remove_value_for_key : Dictionary V → List ℕ → Dictionary V
  unfolding remove_in dict_hash str_equal
  dictionary_remove_value_for_key d k = if no_entries d.p_entries then d else record d {
    p_entries = set d.p_entries (dict_hash k d.i_size) (remove_in k (bucket d k));
  }
