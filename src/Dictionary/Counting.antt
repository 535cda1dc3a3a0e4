-- ===== src/Dictionary/Counting.antt =====
-- The shape of a dictionary, and how many keys it has after its operations.
use native.Mathlib.Nat.{mod-lt}
use ostrichserver.Base.{
  ℕ, zero, suc, ◌+◌, ◌*◌, ◌/◌, ◌<◌, List, [], ◌∷◌, ◌≡◌, inl, inr, refl, ◌∙◌, arith, ltb, get_or,
  set, replicate, length, length-set, length-replicate, Bool-cases,
}
use ostrichserver.Dictionary.Table.{
  DictionaryEntry, Dictionary, hash_bytes, dict_hash, dictionary_init, bucket, count_chains,
  dictionary_keys_count, with_slot, insert_entry, insert_chain, insert_chains, rebuild,
  dictionary_insert,
}

pub dict_hash-lt : (s : List ℕ) (n : ℕ) → 0 < n → dict_hash s n < n
unfolding dict_hash
dict_hash-lt s n h = mod-lt (hash_bytes 0 s) h

count_chains-replicate : (V : Type 0) (n : ℕ) → count_chains {V = V} (replicate n []) ≡ 0
unfolding count_chains
count_chains-replicate V zero = refl
count_chains-replicate V (suc n) = omega (arith, count_chains-replicate V n)

module _ {V : Type 0} where
  -- The table has as many slots as the size says.
  abbrev pub IsDictionary : Dictionary V → Type 0
  IsDictionary d = length d.p_entries ≡ d.i_size

  count_chains-push :
      (cs : List (List (DictionaryEntry V))) (i : ℕ) (e : DictionaryEntry V)
      → i < length cs
      → count_chains (set cs i (e ∷ get_or cs i [])) ≡ count_chains cs + 1
  unfolding count_chains
  count_chains-push [] i e h = absurd (omega arith)
  count_chains-push (c ∷ cs) zero e h = omega arith
  count_chains-push (c ∷ cs) (suc i) e h = omega (arith, count_chains-push cs i e (omega arith))

  slot-shape :
      (n : ℕ) (cs : List (List (DictionaryEntry V)))
      → length cs ≡ n
      → let d : Dictionary V = record { i_size = n; p_entries = cs } in
        IsDictionary (with_slot d)
        × (0 < (with_slot d).i_size)
        × (count_chains (with_slot d).p_entries ≡ count_chains cs)
  unfolding count_chains
  slot-shape n [] w = (refl, omega arith, refl)
  slot-shape n (c ∷ cs) w = (w, omega (arith, w), refl)

  pub with_slot-shape :
      (d : Dictionary V)
      → IsDictionary d
      → IsDictionary (with_slot d)
        × (0 < (with_slot d).i_size)
        × (count_chains (with_slot d).p_entries ≡ count_chains d.p_entries)
  with_slot-shape d w = slot-shape d.i_size d.p_entries w

  pub keys_count-eq :
      (n : ℕ) (cs : List (List (DictionaryEntry V)))
      → dictionary_keys_count (record { i_size = n; p_entries = cs }) ≡ count_chains cs
  unfolding dictionary_keys_count count_chains
  keys_count-eq n [] = refl
  keys_count-eq n (c ∷ cs) = refl

  -- The dictionary keeps its shape, and has `n` entries.
  abbrev Has : Dictionary V → ℕ → Type 0
  Has d n = IsDictionary d × (count_chains d.p_entries ≡ n)

  insert_entry-Has :
      (d : Dictionary V) (e : DictionaryEntry V) (n : ℕ) → Has d n → Has (insert_entry d e) (n + 1)
  unfolding insert_entry
  insert_entry-Has d e n (w, c) =
      let (w', pos, same) = with_slot-shape d w in
      let d' = with_slot d in
      let i = dict_hash e.psz_key d'.i_size in
      (
        length-set d'.p_entries i (e ∷ bucket d' e.psz_key) ∙ w',
        omega (
          arith,
          c,
          same,
          w',
          count_chains-push d'.p_entries i e
              (omega (arith, w', dict_hash-lt e.psz_key d'.i_size pos)),
        ),
      )

  insert_chain-Has :
      (d : Dictionary V) (c : List (DictionaryEntry V)) (n : ℕ)
      → Has d n
      → Has (insert_chain d c) (n + length c)
  unfolding insert_chain
  insert_chain-Has d [] n h = (h.0, omega (arith, h.1))
  insert_chain-Has d (e ∷ c) n h =
      let r = insert_chain-Has (insert_entry d e) c (n + 1) (insert_entry-Has d e n h) in
      (r.0, omega (arith, r.1))

  insert_chains-Has :
      (d : Dictionary V) (cs : List (List (DictionaryEntry V))) (n : ℕ)
      → Has d n
      → Has (insert_chains d cs) (n + count_chains cs)
  unfolding insert_chains count_chains
  insert_chains-Has d [] n h = (h.0, omega (arith, h.1))
  insert_chains-Has d (c ∷ cs) n h =
      let r = insert_chains-Has (insert_chain d c) cs (n + length c) (insert_chain-Has d c n h) in
      (r.0, omega (arith, r.1))

  rebuild-Has : (d : Dictionary V) (n : ℕ) → Has d n → Has (rebuild d) n
  unfolding rebuild
  rebuild-Has d n h =
      let size = (d.i_size + 2) * 3 / 2 in
      let r =
        insert_chains-Has (dictionary_init size) d.p_entries 0
          (length-replicate size [], count_chains-replicate _ size) in
      (r.0, omega (arith, r.1, h.1))

  insert-Has :
      (d : Dictionary V) (k : List ℕ) (v : V) (n : ℕ)
      → Has d n
      → Has (dictionary_insert d k v) (n + 1)
  unfolding dictionary_insert
  insert-Has d k v n h =
      let d' = insert_entry d (record { psz_key = k; p_value = v }) in
      let h' = insert_entry-Has d (record { psz_key = k; p_value = v }) n h in
      elim (Bool-cases (ltb 3 (length (bucket d' k)))) [
        | inl many ↦ rw many (rebuild-Has d' (n + 1) h')
        | inr few ↦ rw few h'
      ]

  -- `dictionary_insert` keeps the shape of a dictionary and adds exactly one to the number that
  -- `dictionary_keys_count` gives, also where the dictionary had no table before, where it is rebuilt in
  -- a larger one, and where the key was there already.
  pub keys_count-insert :
      (d : Dictionary V) (k : List ℕ) (v : V)
      → IsDictionary d
      → IsDictionary (dictionary_insert d k v)
        × (dictionary_keys_count (dictionary_insert d k v) ≡ dictionary_keys_count d + 1)
  keys_count-insert d k v w =
      let r = insert-Has d k v (count_chains d.p_entries) (w, refl) in
      (
        r.0,
        omega (
          arith,
          r.1,
          keys_count-eq d.i_size d.p_entries,
          keys_count-eq (dictionary_insert d k v).i_size (dictionary_insert d k v).p_entries,
        ),
      )
