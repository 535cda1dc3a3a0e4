-- ===== src/Dictionary/Removing.antt =====
-- What a search in a dictionary gives after `dictionary_remove_value_for_key`.
use native.Mathlib.Decide.{ℕ_discrete}
use ostrichserver.Base.{
  ℕ, ◌<◌, Bool, true, false, List, [], ◌∷◌, ◌≡◌, ◌≢◌, inl, inr, refl, sym, ◌∙◌, arith,
  if◌then◌else◌, get_or, set, length, length-set, Bool-cases, ap,
}
use ostrichserver.Dict.Slots.{get_or-set_self, get_or-set_ne}
use ostrichserver.Dictionary.Table.{
  DictionaryEntry, Dictionary, str_equal, dict_hash, bucket, dictionary_value_for_key, remove_in,
  dictionary_remove_value_for_key,
}
use ostrichserver.Dictionary.Counting.{dict_hash-lt}
use ostrichserver.Dictionary.Values.{values_in, values, Shaped, str_equal_sound}
use ostrichserver.Dictionary.Inserting.{newest, value_for_key-newest}

module _ {V : Type 0} where
  abbrev pub older : List V → List V
  older [] = []
  older (v ∷ vs) = vs

  older-empty : (b : Bool) (xs : List V) → xs ≡ [] → (if b then older xs else xs) ≡ []
  older-empty true xs e = rw e refl
  older-empty false xs e = e

  remove_in-values :
      (k q : List ℕ) (c : List (DictionaryEntry V))
      → values_in q (remove_in k c)
        ≡ (if str_equal q k then older (values_in q c) else values_in q c)
  unfolding remove_in values_in
  remove_in-values k q [] = elim (Bool-cases (str_equal q k)) [
    | inl same ↦ rw same refl
    | inr other ↦ rw other refl
  ]
  remove_in-values k q (e ∷ c) = elim (Bool-cases (str_equal k e.psz_key)) [
    | inl found ↦
        rw (found, sym (str_equal_sound k e.psz_key found))
          (elim (Bool-cases (str_equal q k)) [
            | inl same ↦ rw same refl
            | inr other ↦ rw other refl
          ])
    | inr next ↦ rw next (elim (Bool-cases (str_equal q k)) [
      | inl same ↦
          let away : str_equal q e.psz_key ≡ false = rw (str_equal_sound q k same) next in
          rw (away, remove_in-values k q c) refl
      | inr other ↦ rw other (rw (remove_in-values k q c) (rw other refl))
    ])
  ]

  -- Writing the shortened chain back.
  module _ (d : Dictionary V) (k : List ℕ) (w : Shaped d) (pos : 0 < d.i_size) where
    abbrev cut : Dictionary V
    cut = record d { p_entries = set d.p_entries (dict_hash k d.i_size) (remove_in k (bucket d k)) }

    below : dict_hash k d.i_size < length d.p_entries
    below = omega (arith, w.0, dict_hash-lt k d.i_size pos)

    cut-slot :
        (q : List ℕ) (i : ℕ)
        → dict_hash k d.i_size ≡ i
        → values_in q (get_or cut.p_entries i []) ≡ (
            if str_equal q k
            then older (values_in q (get_or d.p_entries i []))
            else values_in q (get_or d.p_entries i []))
    cut-slot q i here =
        rw
          (
            ← here,
            get_or-set_self d.p_entries (dict_hash k d.i_size) (remove_in k (bucket d k)) [] below,
          )
          (remove_in-values k q (bucket d k))

    cut-values :
        (q : List ℕ) → values cut q ≡ (if str_equal q k then older (values d q) else values d q)
    cut-values q = elim (ℕ_discrete (dict_hash k d.i_size) (dict_hash q d.i_size)) [
      | yes here ↦ cut-slot q (dict_hash q d.i_size) here
      | no away ↦
          rw
            (get_or-set_ne d.p_entries (dict_hash k d.i_size) (dict_hash q d.i_size)
              (remove_in k (bucket d k)) [] away)
            (elim (Bool-cases (str_equal q k)) [
              | inl same ↦ absurd (away (rw (str_equal_sound q k same) refl))
              | inr other ↦ rw other refl
            ])
    ]

    cut-placed :
        (i : ℕ) (q : List ℕ)
        → i ≢ dict_hash q d.i_size
        → values_in q (get_or cut.p_entries i []) ≡ []
    cut-placed i q ne = elim (ℕ_discrete (dict_hash k d.i_size) i) [
      | yes here ↦ cut-slot q i here ∙ older-empty (str_equal q k) _ (w.1 i q ne)
      | no away ↦
          rw (get_or-set_ne d.p_entries (dict_hash k d.i_size) i (remove_in k (bucket d k)) [] away)
            (w.1 i q ne)
    ]

    cut-Shaped : Shaped cut
    cut-Shaped =
        (length-set d.p_entries (dict_hash k d.i_size) (remove_in k (bucket d k)) ∙ w.0, cut-placed)

  remove-at :
      (n : ℕ) (cs : List (List (DictionaryEntry V))) (k : List ℕ)
      → Shaped (record { i_size = n; p_entries = cs })
      → let d : Dictionary V = record { i_size = n; p_entries = cs } in
        Shaped (dictionary_remove_value_for_key d k)
        × ((q : List ℕ)
            → values (dictionary_remove_value_for_key d k) q
              ≡ (if str_equal q k then older (values d q) else values d q))
  unfolding dictionary_remove_value_for_key values_in
  remove-at n [] k w = (w, λ q. sym (older-empty (str_equal q k) [] refl))
  remove-at n (c ∷ cs) k w =
      let d : Dictionary V = record { i_size = n; p_entries = c ∷ cs } in
      let pos : 0 < n = omega (arith, w.0) in (cut-Shaped d k w pos, cut-values d k w pos)

  -- Removing a key from a dictionary with its shape keeps the shape and takes away the newest value under
  -- that key, so that a search for it gives the next older value if there is one; a search for any other
  -- key gives what it gave before.
  pub value_for_key-remove :
      (d : Dictionary V) (k : List ℕ)
      → Shaped d
      → Shaped (dictionary_remove_value_for_key d k)
        × ((q : List ℕ)
            → dictionary_value_for_key (dictionary_remove_value_for_key d k) q ≡ (
                if str_equal q k
                then newest (older (values d q))
                else dictionary_value_for_key d q))
  value_for_key-remove d k w =
      let r = remove-at d.i_size d.p_entries k w in
      (
        r.0,
        λ q.
            value_for_key-newest (dictionary_remove_value_for_key d k) q
            ∙ (ap newest (r.1 q) ∙ elim (Bool-cases (str_equal q k)) [
              | inl same ↦ rw same refl
              | inr other ↦ rw other (sym (value_for_key-newest d q))
            ]),
      )
