-- ===== src/Dictionary/Inserting.antt =====
-- What a search in a dictionary gives after `dictionary_insert`, the rebuild included.
use ostrichserver.Base.{
  ℕ, zero, suc, ◌+◌, ◌*◌, ◌/◌, ◌≤◌, List, [], ◌∷◌, ◌++◌, Option, none, some, ◌≡◌, ◌≢◌, inl, inr,
  refl, sym, ◌∙◌, arith, ltb, true, false, if◌then◌else◌, get_or, length, length-replicate,
  Bool-cases, ap,
}
use ostrichserver.Dictionary.Table.{
  DictionaryEntry, Dictionary, str_equal, dict_hash, dictionary_init, bucket, value_in,
  dictionary_value_for_key, insert_entry, rebuild, dictionary_insert,
}
use ostrichserver.Dictionary.Values.{
  values_in, values, rev_onto, Shaped, init-values, insert_entry-Shaped, insert_entry-values,
  insert_entry-bucket, insert_chains-values, all_in, str_equal_sound,
}

append-nil {ℓ} : {A : Type ℓ} (xs : List A) → xs ++ [] ≡ xs
append-nil [] = refl
append-nil (x ∷ xs) = ap (λ t. x ∷ t) (append-nil xs)

module _ {V : Type 0} where
  all_in-none :
      (q : List ℕ) (cs : List (List (DictionaryEntry V)))
      → ((i : ℕ) → values_in q (get_or cs i []) ≡ [])
      → all_in q cs ≡ []
  unfolding all_in
  all_in-none q [] h = refl
  all_in-none q (c ∷ cs) h = rw (h 0) (all_in-none q cs (λ i. h (suc i)))

  -- When all values under `q` are in one slot, they are the values of that slot.
  all_in-one :
      (q : List ℕ) (cs : List (List (DictionaryEntry V))) (j : ℕ)
      → ((i : ℕ) → i ≢ j → values_in q (get_or cs i []) ≡ [])
      → all_in q cs ≡ values_in q (get_or cs j [])
  unfolding all_in values_in
  all_in-one q [] j h = refl
  all_in-one q (c ∷ cs) zero h =
      rw (all_in-none q cs (λ i. h (suc i) (λ e. omega (arith, e)))) (append-nil (values_in q c))
  all_in-one q (c ∷ cs) (suc j) h =
      rw (h 0 (λ e. omega (arith, e)))
        (all_in-one q cs j (λ i ne. h (suc i) (λ e. ne (omega (arith, e)))))

  rebuild-values :
      (d : Dictionary V) (q : List ℕ)
      → Shaped d
      → Shaped (rebuild d) × (values (rebuild d) q ≡ rev_onto (values d q) [])
  unfolding rebuild
  rebuild-values d q w =
      let size = (d.i_size + 2) * 3 / 2 in
      let (w', run) =
        insert_chains-values (dictionary_init size) d.p_entries q
          (length-replicate size [], λ i q' h. init-values size i q') in
      (
        w',
        run
            ∙ (ap (λ x. rev_onto (all_in q d.p_entries) x) (init-values size (dict_hash q size) q)
                ∙ ap (λ x. rev_onto x [])
                    (all_in-one q d.p_entries (dict_hash q d.i_size) (λ i ne. w.1 i q ne))),
      )

  -- `values` after an insertion
  abbrev pub pushed : Dictionary V → List ℕ → V → List ℕ → List V
  pushed d k v q = if str_equal q k then v ∷ values d q else values d q

  -- An insertion puts the value in front of those under its key and leaves those under other keys. Where
  -- the slot of the key had three entries or more before it, the dictionary is rebuilt, and the values
  -- under each key end up in the opposite order; else they keep their order.
  pub insert-values :
      (d : Dictionary V) (k : List ℕ) (v : V) (q : List ℕ)
      → Shaped d
      → Shaped (dictionary_insert d k v)
        × (values (dictionary_insert d k v) q ≡ (
            if ltb 2 (length (bucket d k)) then rev_onto (pushed d k v q) [] else pushed d k v q))
  unfolding dictionary_insert
  insert-values d k v q w =
      let e : DictionaryEntry V = record { psz_key = k; p_value = v } in
      let d' = insert_entry d e in
      let w' = insert_entry-Shaped d e w in
      let run = insert_entry-values d e q w in
      let grown = insert_entry-bucket d e w in
      elim (Bool-cases (ltb 2 (length (bucket d k)))) [
        | inl many ↦
            let (w₂, turned) = rebuild-values d' q w' in
            let over : ltb 3 (length (bucket d' k)) ≡ true = rw grown (ground arith) in
            rw (over, many) (w₂, turned ∙ ap (λ x. rev_onto x []) run)
        | inr few ↦
            let under : ltb 3 (length (bucket d' k)) ≡ false = rw grown (ground arith) in
            rw (under, few) (w', run)
      ]

  abbrev pub newest : List V → Option V
  newest [] = none
  newest (v ∷ vs) = some v

  value_in-newest :
      (q : List ℕ) (c : List (DictionaryEntry V)) → value_in q c ≡ newest (values_in q c)
  unfolding value_in values_in
  value_in-newest q [] = refl
  value_in-newest q (e ∷ c) = elim (Bool-cases (str_equal q e.psz_key)) [
    | inl same ↦ rw same refl
    | inr other ↦ rw other (value_in-newest q c)
  ]

  value-newest :
      (n : ℕ) (cs : List (List (DictionaryEntry V))) (q : List ℕ)
      → dictionary_value_for_key (record { i_size = n; p_entries = cs }) q
        ≡ newest (values (record { i_size = n; p_entries = cs }) q)
  unfolding dictionary_value_for_key values_in
  value-newest n [] q = refl
  value-newest n (c ∷ cs) q = value_in-newest q (get_or (c ∷ cs) (dict_hash q n) [])

  pub value_for_key-newest :
      (d : Dictionary V) (q : List ℕ) → dictionary_value_for_key d q ≡ newest (values d q)
  value_for_key-newest d q = value-newest d.i_size d.p_entries q

  -- No key has two entries.
  abbrev pub IsUnique : Dictionary V → Type 0
  IsUnique d = (q : List ℕ) → length (values d q) ≤ 1

  turned-single : (xs : List V) → length xs ≤ 1 → rev_onto xs [] ≡ xs
  unfolding rev_onto
  turned-single [] h = refl
  turned-single (x ∷ []) h = refl
  turned-single (x ∷ y ∷ xs) h = absurd (omega (arith, h))

  nothing : (xs : List V) → newest xs ≡ none → xs ≡ []
  nothing [] e = refl
  nothing (x ∷ xs) e = absurd (ground (arith, e))

  -- Where the key is new, at most one value stands under each key after the insertion too.
  pushed-single :
      (d : Dictionary V) (k : List ℕ) (v : V) (q : List ℕ)
      → IsUnique d
      → values d k ≡ []
      → (length (pushed d k v q) ≤ 1)
        × (newest (pushed d k v q) ≡ (if str_equal q k then some v else newest (values d q)))
  pushed-single d k v q u empty = elim (Bool-cases (str_equal q k)) [
    | inl same ↦ rw same (rw (str_equal_sound q k same) (rw empty (omega arith, refl)))
    | inr other ↦ rw other (u q, refl)
  ]

  -- Inserting a new key in a dictionary with its shape in which no key has two entries: afterwards
  -- a search for that key gives the new value and a search for any other key gives what it gave before,
  -- whether or not the dictionary is rebuilt. The dictionary keeps its shape, and no key has two entries.
  pub value_for_key-insert :
      (d : Dictionary V) (k : List ℕ) (v : V)
      → Shaped d
      → IsUnique d
      → dictionary_value_for_key d k ≡ none
      → Shaped (dictionary_insert d k v)
        × IsUnique (dictionary_insert d k v)
        × ((q : List ℕ)
            → dictionary_value_for_key (dictionary_insert d k v) q
              ≡ (if str_equal q k then some v else dictionary_value_for_key d q))
  value_for_key-insert d k v w u absent = (
    (insert-values d k v k w).0,
    λ q. rw (same q) (pushed-single d k v q u empty).0,
    λ q.
        value_for_key-newest (dictionary_insert d k v) q
        ∙ (ap newest (same q)
            ∙ ((pushed-single d k v q u empty).1
                ∙ ap (λ x. if str_equal q k then some v else x) (sym (value_for_key-newest d q)))),
  )
    where
      empty : values d k ≡ []
      empty = nothing (values d k) (sym (value_for_key-newest d k) ∙ absent)

      same : (q : List ℕ) → values (dictionary_insert d k v) q ≡ pushed d k v q
      same q = (insert-values d k v q w).1 ∙ elim (Bool-cases (ltb 2 (length (bucket d k)))) [
        | inl many ↦ rw many (turned-single (pushed d k v q) (pushed-single d k v q u empty).0)
        | inr few ↦ rw few refl
      ]
