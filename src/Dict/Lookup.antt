-- ===== src/Dict/Lookup.antt =====
-- What is found after an entry was added.
use native.Mathlib.Decide.{ℕ_discrete}
use ostrichserver.Base.{
  ◌^◌, ◌%◌, ◌<◌, true, false, [], ◌∷◌, Option, none, some, ◌≡◌, inl, inr, arith, ◌==◌,
  if◌then◌else◌, length, Bool-cases,
}
use ostrichserver.Dict.Interface.{DictType}
use ostrichserver.Dict.Table.{
  Entry, Dictht, Tables, is_rehashing, slot, chain_of, push, find_in, find_entry,
}
use ostrichserver.Dict.Slots.{bit_and-le, get_or-set_self, get_or-set_ne, IsTable}

-- Both tables have their shape, and both have slots while the dictionary is rehashing.
pub record IsDict {K V : Type 0} (d : Tables K V) : Type 0 where
  pub first : IsTable d.ht0
  pub second : IsTable d.ht1
  pub roomy : is_rehashing d ≡ true → (0 < d.ht0.size) × (0 < d.ht1.size)

module _ {K V : Type 0} (t : DictType K V) where
  -- The dictionary as a partial function, as `dict_find` reads it.
  abbrev pub lookup : Tables K V → K → Option V
  lookup d q = if d.ht0.size == 0 then none else find_entry t d q

  pub slot-lt : (h : Dictht K V) (k : K) → IsTable h → 0 < h.size → slot t h k < length h.table
  slot-lt h k v pos = omega (arith, bit_and-le (t.hash k % 2 ^ 32) h.sizemask, v.slots, v.mask)

  abbrev pub push_at : Dictht K V → K → Entry K V → Dictht K V
  push_at h k e = push h (slot t h k) e

  -- A new head of the slot of `k` is found by the keys that compare as equal to it.
  pub find-push :
      (h : Dictht K V) (k q : K) (e : Entry K V)
      → IsTable h
      → 0 < h.size
      → (t.cmp q e.key ≡ false → t.hash q ≡ t.hash k)
      → find_in t q (chain_of t (push_at h k e) q)
        ≡ (if t.cmp q e.key then find_in t q (chain_of t h q) else some e.val)
  unfolding find_in
  find-push h k q e v pos same = elim (ℕ_discrete (slot t h k) (slot t h q)) [
    | yes here ↦
        rw
          (← here, get_or-set_self h.table (slot t h k) (e ∷ chain_of t h k) [] (slot-lt h k v pos))
          (ground arith)
    | no away ↦
        rw (get_or-set_ne h.table (slot t h k) (slot t h q) (e ∷ chain_of t h k) [] away)
          (elim (Bool-cases (t.cmp q e.key)) [
            | inl differ ↦ rw differ
            | inr equal ↦ absurd (away (rw (same equal)))
          ])
  ]
