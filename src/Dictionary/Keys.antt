-- ===== src/Dictionary/Keys.antt =====
-- The listing of the keys, and the quick test for a key.
use ostrichserver.Base.{
  ℕ, ◌+◌, false, List, [], ◌∷◌, ◌++◌, map, none, ◌≡◌, refl, sym, ◌∙◌, arith, get_or, length,
}
use ostrichserver.Dictionary.Table.{
  DictionaryEntry, Dictionary, dict_hash, value_in, dictionary_value_for_key, dictionary_has_key,
  is_bucket_used, count_chains, dictionary_keys_count, keys_of, dictionary_all_keys,
}
use ostrichserver.Dictionary.Counting.{keys_count-eq}

module _ {V : Type 0} where
  length-keys :
      (c : List (DictionaryEntry V)) (ks : List (List ℕ))
      → length (map (λ e. e.psz_key) c ++ ks) ≡ length c + length ks
  length-keys [] ks = omega arith
  length-keys (e ∷ c) ks = omega (arith, length-keys c ks)

  length-keys_of : (cs : List (List (DictionaryEntry V))) → length (keys_of cs) ≡ count_chains cs
  unfolding keys_of count_chains
  length-keys_of [] = refl
  length-keys_of (c ∷ cs) = omega (arith, length-keys c (keys_of cs), length-keys_of cs)

  -- The listing of `dictionary_all_keys`, without the NULL that ends it, has as many strings as
  -- `dictionary_keys_count` gives, which is what its array is allocated for.
  pub length-dictionary_all_keys :
      (d : Dictionary V) → length (dictionary_all_keys d) ≡ dictionary_keys_count d
  unfolding dictionary_all_keys
  length-dictionary_all_keys d =
      length-keys_of d.p_entries ∙ sym (keys_count-eq d.i_size d.p_entries)

  has_key-at :
      (n : ℕ) (cs : List (List (DictionaryEntry V))) (k : List ℕ)
      → dictionary_has_key (record { i_size = n; p_entries = cs }) k ≡ false
      → dictionary_value_for_key (record { i_size = n; p_entries = cs }) k ≡ none
  unfolding dictionary_has_key dictionary_value_for_key value_in
  has_key-at n [] k e = refl
  has_key-at n (c ∷ cs) k e = unused (get_or (c ∷ cs) (dict_hash k n) []) e
    where
      unused : (b : List (DictionaryEntry V)) → is_bucket_used b ≡ false → value_in k b ≡ none
      unused [] e = refl
      unused (x ∷ xs) e = absurd (ground (arith, e))

  -- `dictionary_has_key` never denies a key that a search finds: where it says no, the search finds
  -- nothing.
  pub has_key-value_for_key :
      (d : Dictionary V) (k : List ℕ)
      → dictionary_has_key d k ≡ false
      → dictionary_value_for_key d k ≡ none
  has_key-value_for_key d k e = has_key-at d.i_size d.p_entries k e
