-- ===== src/Dictionary/Values.antt =====
-- The values that a dictionary holds under each key, newest first: an abstract view in which every
-- operation has a simple description.
use native.Mathlib.Decide.{ℕ_discrete}
use ostrichserver.Base.{
  ℕ, ◌<◌, true, false, List, [], ◌∷◌, ◌++◌, ◌≡◌, ◌≢◌, inl, inr, refl, sym, ◌∙◌, arith,
  if◌then◌else◌, get_or, replicate, length, length-set, Bool-cases, ap,
}
use ostrichserver.Dict.Slots.{get_or-set_self, get_or-set_ne, get_or-replicate}
use ostrichserver.Dictionary.Table.{
  DictionaryEntry, Dictionary, str_equal, dict_hash, bucket, with_slot, link, insert_entry,
  insert_chain, insert_chains,
}
use ostrichserver.Dictionary.Counting.{IsDictionary, dict_hash-lt, with_slot-shape}

pub str_equal_sound : (a b : List ℕ) → str_equal a b ≡ true → a ≡ b
unfolding str_equal
str_equal_sound [] [] e = refl
str_equal_sound [] (y ∷ ys) e = absurd (ground (arith, e))
str_equal_sound (x ∷ xs) [] e = absurd (ground (arith, e))
str_equal_sound (x ∷ xs) (y ∷ ys) e =
    let head : x ≡ y = ground arith in
    let tail : str_equal xs ys ≡ true = ground arith in rw (head, str_equal_sound xs ys tail) refl

module _ {V : Type 0} where
  -- the values of the entries of a chain with the key `q`
  unfoldable pub values_in : List ℕ → List (DictionaryEntry V) → List V
  values_in q [] = []
  values_in q (e ∷ c) =
      let rest = values_in q c in if str_equal q e.psz_key then e.p_value ∷ rest else rest

  abbrev pub values : Dictionary V → List ℕ → List V
  values d q = values_in q (bucket d q)

  -- `xs`, turned round, in front of `ys`
  unfoldable pub rev_onto : List V → List V → List V
  rev_onto [] ys = ys
  rev_onto (x ∷ xs) ys = rev_onto xs (x ∷ ys)

  rev_onto-append : (xs xs' ys : List V) → rev_onto (xs ++ xs') ys ≡ rev_onto xs' (rev_onto xs ys)
  unfolding rev_onto
  rev_onto-append [] xs' ys = refl
  rev_onto-append (x ∷ xs) xs' ys = rev_onto-append xs xs' (x ∷ ys)

  -- Every entry stands in the slot of its key.
  abbrev pub IsPlaced : Dictionary V → Type 0
  IsPlaced d =
      (i : ℕ) (q : List ℕ) → i ≢ dict_hash q d.i_size → values_in q (get_or d.p_entries i []) ≡ []

  abbrev pub Shaped : Dictionary V → Type 0
  Shaped d = IsDictionary d × IsPlaced d

  pub init-values :
      (n i : ℕ) (q : List ℕ)
      → values_in q (get_or {A = List (DictionaryEntry V)} (replicate n []) i []) ≡ []
  unfolding values_in
  init-values n i q = rw (get_or-replicate {A = List (DictionaryEntry V)} n i []) refl

  slot-values :
      (n : ℕ) (cs : List (List (DictionaryEntry V)))
      → Shaped (record { i_size = n; p_entries = cs })
      → Shaped (with_slot (record { i_size = n; p_entries = cs }))
        × ((q : List ℕ)
            → values (with_slot (record { i_size = n; p_entries = cs })) q
              ≡ values (record { i_size = n; p_entries = cs }) q)
  unfolding values_in
  slot-values n [] w = ((refl, λ i q h. init-values 1 i q), λ q. init-values 1 (dict_hash q 1) q)
  slot-values n (c ∷ cs) w = (w, λ q. refl)

  slot-bucket :
      (n : ℕ) (cs : List (List (DictionaryEntry V))) (k : List ℕ)
      → bucket (with_slot (record { i_size = n; p_entries = cs })) k
        ≡ bucket (record { i_size = n; p_entries = cs }) k
  slot-bucket n [] k = get_or-replicate {A = List (DictionaryEntry V)} 1 (dict_hash k 1) []
  slot-bucket n (c ∷ cs) k = refl

  -- What `link` does to the values, and to the places.
  module _ (d : Dictionary V) (e : DictionaryEntry V) (w : Shaped d) (pos : 0 < d.i_size) where
    below : dict_hash e.psz_key d.i_size < length d.p_entries
    below = omega (arith, w.0, dict_hash-lt e.psz_key d.i_size pos)

    differs :
        (q : List ℕ)
        → dict_hash e.psz_key d.i_size ≢ dict_hash q d.i_size
        → str_equal q e.psz_key ≡ false
    differs q away = elim (Bool-cases (str_equal q e.psz_key)) [
      | inl same ↦ absurd (away (rw (str_equal_sound q e.psz_key same) refl))
      | inr other ↦ other
    ]

    link-values :
        (q : List ℕ)
        → values (link d e) q
          ≡ (if str_equal q e.psz_key then e.p_value ∷ values d q else values d q)
    unfolding values_in
    link-values q = elim (ℕ_discrete (dict_hash e.psz_key d.i_size) (dict_hash q d.i_size)) [
      | yes here ↦
          rw
            (
              ← here,
              get_or-set_self d.p_entries (dict_hash e.psz_key d.i_size) (e ∷ bucket d e.psz_key) []
                  below,
            )
            refl
      | no away ↦
          rw
            (
              get_or-set_ne d.p_entries (dict_hash e.psz_key d.i_size) (dict_hash q d.i_size)
                  (e ∷ bucket d e.psz_key) [] away,
              differs q away,
            )
            refl
    ]

    link-bucket : bucket (link d e) e.psz_key ≡ e ∷ bucket d e.psz_key
    link-bucket =
        get_or-set_self d.p_entries (dict_hash e.psz_key d.i_size) (e ∷ bucket d e.psz_key) [] below

    link-placed :
        (i : ℕ) (q : List ℕ)
        → i ≢ dict_hash q d.i_size
        → values_in q (get_or (link d e).p_entries i []) ≡ []
    unfolding values_in
    link-placed i q ne = elim (ℕ_discrete (dict_hash e.psz_key d.i_size) i) [
      | yes here ↦
          let away : dict_hash e.psz_key d.i_size ≢ dict_hash q d.i_size = λ h. ne (sym here ∙ h) in
          rw
            (
              ← here,
              get_or-set_self d.p_entries (dict_hash e.psz_key d.i_size) (e ∷ bucket d e.psz_key) []
                  below,
              differs q away,
            )
            (w.1 (dict_hash e.psz_key d.i_size) q away)
      | no away ↦
          rw
            (get_or-set_ne d.p_entries (dict_hash e.psz_key d.i_size) i (e ∷ bucket d e.psz_key) []
              away)
            (w.1 i q ne)
    ]

    link-Shaped : Shaped (link d e)
    link-Shaped = (
      length-set d.p_entries (dict_hash e.psz_key d.i_size) (e ∷ bucket d e.psz_key) ∙ w.0,
      link-placed,
    )

  pub insert_entry-Shaped :
      (d : Dictionary V) (e : DictionaryEntry V) → Shaped d → Shaped (insert_entry d e)
  unfolding insert_entry
  insert_entry-Shaped d e w =
      link-Shaped (with_slot d) e (slot-values d.i_size d.p_entries w).0 (with_slot-shape d w.0).1

  pub insert_entry-values :
      (d : Dictionary V) (e : DictionaryEntry V) (q : List ℕ)
      → Shaped d
      → values (insert_entry d e) q
        ≡ (if str_equal q e.psz_key then e.p_value ∷ values d q else values d q)
  unfolding insert_entry
  insert_entry-values d e q w =
      let (w', same) = slot-values d.i_size d.p_entries w in
      link-values (with_slot d) e w' (with_slot-shape d w.0).1 q
      ∙ ap (λ x. if str_equal q e.psz_key then e.p_value ∷ x else x) (same q)

  pub insert_entry-bucket :
      (d : Dictionary V) (e : DictionaryEntry V)
      → Shaped d
      → bucket (insert_entry d e) e.psz_key ≡ e ∷ bucket d e.psz_key
  unfolding insert_entry
  insert_entry-bucket d e w =
      link-bucket (with_slot d) e (slot-values d.i_size d.p_entries w).0 (with_slot-shape d w.0).1
      ∙ ap (λ c. e ∷ c) (slot-bucket d.i_size d.p_entries e.psz_key)

  insert_chain-values :
      (d : Dictionary V) (c : List (DictionaryEntry V)) (q : List ℕ)
      → Shaped d
      → Shaped (insert_chain d c)
        × (values (insert_chain d c) q ≡ rev_onto (values_in q c) (values d q))
  unfolding insert_chain values_in rev_onto
  insert_chain-values d [] q w = (w, refl)
  insert_chain-values d (e ∷ c) q w =
      let (w', run) = insert_chain-values (insert_entry d e) c q (insert_entry-Shaped d e w) in
      (
        w',
        run ∙ elim (Bool-cases (str_equal q e.psz_key)) [
          | inl same ↦ rw (insert_entry-values d e q w) (rw same refl)
          | inr other ↦ rw (insert_entry-values d e q w) (rw other refl)
        ],
      )

  -- the values under `q` in all chains, in the order of the slots
  unfoldable pub all_in : List ℕ → List (List (DictionaryEntry V)) → List V
  all_in q [] = []
  all_in q (c ∷ cs) = values_in q c ++ all_in q cs

  pub insert_chains-values :
      (d : Dictionary V) (cs : List (List (DictionaryEntry V))) (q : List ℕ)
      → Shaped d
      → Shaped (insert_chains d cs)
        × (values (insert_chains d cs) q ≡ rev_onto (all_in q cs) (values d q))
  unfolding insert_chains all_in rev_onto
  insert_chains-values d [] q w = (w, refl)
  insert_chains-values d (c ∷ cs) q w =
      let (w₁, run₁) = insert_chain-values d c q w in
      let (w₂, run₂) = insert_chains-values (insert_chain d c) cs q w₁ in
      (
        w₂,
        run₂
            ∙ (ap (λ x. rev_onto (all_in q cs) x) run₁
                ∙ sym (rev_onto-append (values_in q c) (all_in q cs) (values d q))),
      )
