-- ===== src/Dict/Replacing.antt =====
-- What is found after `dict_replace`.
use native.Mathlib.Decide.{ℕ_discrete}
use ostrichserver.Base.{
  ◌<◌, true, false, not, [], ◌∷◌, Option, none, some, ◌≡◌, ◌⊎◌, inl, inr, refl, sym, ap, ◌∙◌, arith,
  ◌==◌, if◌then◌else◌, is_some, Bool-cases,
}
use ostrichserver.Dict.Interface.{DictType, RwLock}
use ostrichserver.Dict.Table.{
  Chain, Dictht, Tables, is_rehashing, slot, chain_of, place, add_entry, find_in, find_entry,
  assign_in, assign_at, assign_entry,
}
use ostrichserver.Dict.Slots.{get_or-set_self, get_or-set_ne, IsTable}
use ostrichserver.Dict.Lookup.{IsDict, slot-lt, lookup}
use ostrichserver.Dict.Growth.{IsCalm, grown, expand_if_needed-grown}
use ostrichserver.Dict.Adding.{
  add_entry-IsDict, add_entry-pos, lookup-add_entry, grown-calm, index_in-calm,
}
use ostrichserver.Dict.Ops.{fault, returns, dict_replace}
use ostrichserver.Dict.Locking.{with_lock, dict_replace-returns}

module _ {K V : Type 0} (t : DictType K V) where
  -- No entry compares as equal to both keys.
  abbrev pub Apart : K → K → Type 0
  Apart k q = (x : K) → t.cmp k x ≡ false → t.cmp q x ≡ true

  find-assign_self :
      (k : K) (v : V) (c : Chain K V)
      → is_some (find_in t k c) ≡ true
      → find_in t k (assign_in t k v c) ≡ some (t.val_dup v)
  unfolding find_in assign_in
  find-assign_self k v [] found = absurd (ground (arith, found))
  find-assign_self k v (e ∷ c) found = elim (Bool-cases (t.cmp k e.key)) [
    | inl differ ↦ rw (differ, differ) (find-assign_self k v c (rw differ at found))
    | inr equal ↦ rw (equal, equal) refl
  ]

  find-assign_Apart :
      (k q : K) (v : V) (c : Chain K V)
      → Apart k q
      → find_in t q (assign_in t k v c) ≡ find_in t q c
  unfolding find_in assign_in
  find-assign_Apart k q v [] apart = refl
  find-assign_Apart k q v (e ∷ c) apart = elim (Bool-cases (t.cmp k e.key)) [
    | inl differ ↦
        rw differ (
          ap (λ o. if not (t.cmp q e.key) then some e.val else o) (find-assign_Apart k q v c apart))
    | inr equal ↦ rw (equal, apart e.key equal) refl
  ]

  chain_of-assign_self :
      (h : Dictht K V) (k : K) (v : V)
      → IsTable h
      → 0 < h.size
      → chain_of t (assign_at t h k v) k ≡ assign_in t k v (chain_of t h k)
  chain_of-assign_self h k v w pos =
      get_or-set_self h.table (slot t h k) (assign_in t k v (chain_of t h k)) []
        (slot-lt t h k w pos)

  find-assign_at :
      (h : Dictht K V) (k q : K) (v : V)
      → IsTable h
      → 0 < h.size
      → Apart k q
      → find_in t q (chain_of t (assign_at t h k v) q) ≡ find_in t q (chain_of t h q)
  find-assign_at h k q v w pos apart = elim (ℕ_discrete (slot t h k) (slot t h q)) [
    | yes here ↦
        rw
          (
            ← here,
            get_or-set_self h.table (slot t h k) (assign_in t k v (chain_of t h k)) []
                (slot-lt t h k w pos),
          )
          (find-assign_Apart k q v (chain_of t h k) apart)
    | no away ↦
        rw
          (get_or-set_ne h.table (slot t h k) (slot t h q) (assign_in t k v (chain_of t h k)) []
            away)
          refl
  ]

  keep : (o : Option V) → (if is_some o then o else none) ≡ o
  keep none = refl
  keep (some v) = refl

  lookup-calm :
      (d : Tables K V) (q : K)
      → 0 < d.ht0.size
      → is_rehashing d ≡ false
      → lookup t d q ≡ find_in t q (chain_of t d.ht0 q)
  unfolding find_entry
  lookup-calm d q pos calm =
      let there : (d.ht0.size == 0) ≡ false = ground arith in
      rw (there, calm) (keep (find_in t q (chain_of t d.ht0 q)))

  assign_first :
      (d : Tables K V) (k : K) (v : V)
      → is_some (find_in t k (chain_of t d.ht0 k)) ≡ true
      → assign_entry t d k v ≡ record d { ht0 = assign_at t d.ht0 k v }
  unfolding assign_entry
  assign_first d k v found = simp found refl

  -- An overwritten entry is found by its key, and by no key that equals none of its equals.
  lookup-assign_entry :
      (d : Tables K V) (k q : K) (v : V)
      → IsDict d
      → 0 < d.ht0.size
      → is_rehashing d ≡ false
      → is_some (lookup t d k) ≡ true
      → Apart k q
      → (lookup t (assign_entry t d k v) k ≡ some (t.val_dup v))
        × (lookup t (assign_entry t d k v) q ≡ lookup t d q)
  lookup-assign_entry d k q v w pos calm found apart =
      let first : is_some (find_in t k (chain_of t d.ht0 k)) ≡ true =
        rw (lookup-calm d k pos calm) at found in
      let d' = record d { ht0 = assign_at t d.ht0 k v } in
      rw (assign_first d k v first) (
        lookup-calm d' k pos calm
            ∙ ap (find_in t k) (chain_of-assign_self d.ht0 k v w.first pos)
            ∙ find-assign_self k v (chain_of t d.ht0 k) first,
        lookup-calm d' q pos calm
            ∙ find-assign_at d.ht0 k q v w.first pos apart
            ∙ sym (lookup-calm d q pos calm),
      )

  -- Where no entry was made, the tables are still not rehashing.
  refused-calm :
      (d : Tables K V) (k : K) (v : V)
      → IsDict d
      → IsCalm d
      → (add_entry t d k v).1 ≡ false
      → is_rehashing (add_entry t d k v).0 ≡ false
  unfolding add_entry place
  refused-calm d k v w c kept =
      let calm = grown-calm t d c in
      rw (expand_if_needed-grown d w c) (elim (index_in-calm t (grown d) k calm) [
        | inl fails ↦ rw fails calm
        | inr goes ↦ rw goes (rw calm calm)
      ])

  -- The dictionary `d'` finds the new value under `k` and what `d` finds under `q`.
  pub record Replaced (k q : K) (v : V) (d d' : Tables K V) : Type 0 where
    pub new_value : lookup t d' k ≡ some (t.val_dup v)
    pub other_key : lookup t d' q ≡ lookup t d q

  made-Replaced :
      (d : Tables K V) (k q : K) (v : V)
      → IsDict d
      → IsCalm d
      → t.cmp k (t.key_dup k) ≡ false
      → Apart k q
      → (add_entry t d k v).1 ≡ true
      → Replaced k q v d (add_entry t d k v).0
  made-Replaced d k q v w c copy apart made = record {
    new_value = lookup-add_entry t d k k v w c (λ e. refl) ∙ rw (made, copy) refl;
    other_key =
        let differs = apart (t.key_dup k) copy in
        lookup-add_entry t d k q v w c (λ e. absurd (ground (arith, e, differs)))
        ∙ rw (made, differs) refl;
  }

  kept-Replaced :
      (d : Tables K V) (k q : K) (v : V)
      → IsDict d
      → IsCalm d
      → t.cmp k (t.key_dup k) ≡ false
      → Apart k q
      → (add_entry t d k v).1 ≡ false
      → is_some (lookup t d k) ≡ true
      → Replaced k q v d (assign_entry t (add_entry t d k v).0 k v)
  kept-Replaced d k q v w c copy apart kept found =
      let differs = apart (t.key_dup k) copy in
      let same : lookup t (add_entry t d k v).0 k ≡ lookup t d k =
        lookup-add_entry t d k k v w c (λ e. refl) ∙ rw kept refl in
      let (now, other) =
        lookup-assign_entry (add_entry t d k v).0 k q v (add_entry-IsDict t d k v w)
          (add_entry-pos t d k v w c) (refused-calm d k v w c kept) (rw same found) apart in
      record {
        new_value = now;
        other_key =
            other
            ∙ lookup-add_entry t d k q v w c (λ e. absurd (ground (arith, e, differs)))
            ∙ rw kept refl;
      }

  module _ (l : RwLock) where
    open l use {unlocked}

    -- What `dict_replace` does on an unlocked dictionary with its shape that is not rehashing and not about
    -- to, for a key that compares as equal to its own copy, and any other key such that no entry compares as
    -- equal to both. Either no entry is made and none is found under the key, and it reads through NULL; or
    -- it returns, 1 where an entry was made and else 0, with the dictionary unlocked: a search then finds
    -- the new value under the key, and under the other key what it found before. It never waits.
    pub dict_replace-branches :
        (d : Tables K V) (k q : K) (v : V)
        → IsDict d
        → IsCalm d
        → t.cmp k (t.key_dup k) ≡ false
        → Apart k q
        → (((add_entry t d k v).1 ≡ false)
            × (lookup t d k ≡ none)
            × (dict_replace l t (with_lock l t d unlocked) k v ≡ fault))
          ⊎ ((d' : Tables K V) × (dict_replace l t (with_lock l t d unlocked) k v
                ≡ returns (with_lock l t d' unlocked, (if (add_entry t d k v).1 then 1 else 0)))
              × Replaced k q v d d')
    dict_replace-branches d k q v w c copy apart =
        let runs = dict_replace-returns l t d k v w c in
        elim (Bool-cases (add_entry t d k v).1) [
          | inl made ↦ inr (
            (add_entry t d k v).0,
            runs ∙ rw made refl,
            made-Replaced d k q v w c copy apart made,
          )
          | inr kept ↦ elim (Bool-cases (is_some (lookup t d k))) [
            | inl found ↦ inr (
              assign_entry t (add_entry t d k v).0 k v,
              runs ∙ rw (kept, found) refl,
              kept-Replaced d k q v w c copy apart kept found,
            )
            | inr missing ↦ inl (kept, ground (arith, missing), runs ∙ rw (kept, missing) refl)
          ]
        ]
