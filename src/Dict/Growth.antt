-- ===== src/Dict/Growth.antt =====
-- How a dictionary grows before it looks for a slot, and that adding keeps its shape.
use native.Mathlib.Nat.{div-lt_iff_lt-mul}
use ostrichserver.Base.{
  ◌^◌, ◌*◌, ◌/◌, leb, ltb, ◌||◌, ℕ, zero, suc, ◌-◌, ◌<◌, false, ◌&&◌, List, [], ◌∷◌, Option, none,
  some, ◌≡◌, ◌⊎◌, inl, inr, refl, sym, arith, ◌==◌, if◌then◌else◌, length, Bool-cases, Option-cases,
}
use ostrichserver.Dict.Table.{
  Chain, Dictht, Tables, is_null, is_rehashing, empty_table, install, dict_expand, expand_if_needed,
  doubling, next_power,
}
use ostrichserver.Dict.Slots.{IsTable, entries, empty_table-IsTable}
use ostrichserver.Dict.Lookup.{IsDict}

doubling-pos : (fuel size i n : ℕ) → 0 < i → doubling fuel size i ≡ some n → 0 < n
unfolding doubling
doubling-pos zero size i n hi e = absurd (ground (arith, e))
doubling-pos (suc fuel) size i n hi e = elim (Bool-cases (leb size i)) [
  | inl stop ↦ ground (arith, rw stop at e)
  | inr more ↦ doubling-pos fuel size (i * 2) n (omega arith) (rw more at e)
]

next_power-pos : (size n : ℕ) → next_power size ≡ some n → 0 < n
unfolding next_power
next_power-pos size n e = elim (Bool-cases (leb (2 ^ 63 - 1) size)) [
  | inl most ↦ ground (arith, rw most at e)
  | inr less ↦ doubling-pos 64 size 100 n (omega arith) (rw less at e)
]

module _ {K V : Type 0} where
  -- No rehash is under way and the table is not so full that one starts.
  abbrev pub IsCalm : Tables K V → Type 0
  IsCalm d = is_rehashing d ≡ false × (d.ht0.size ≡ 0 ⊎ (d.ht0.used < d.ht0.size * 6))

  -- The tables in which a calm dictionary searches for a slot.
  abbrev pub grown : Tables K V → Tables K V
  grown d = if d.ht0.size == 0 then record d { ht0 = empty_table 100 } else d

  length-pos : (cs : List (Chain K V)) → is_null cs ≡ false → 0 < length cs
  length-pos [] e = absurd (ground (arith, e))
  length-pos (c ∷ cs) e = omega arith

  no_slots :
      (cs : List (Chain K V)) (h : Dictht K V)
      → h.table ≡ cs
      → IsTable h
      → h.size ≡ 0
      → (h.table ≡ []) × (h.used ≡ 0)
  unfolding entries
  no_slots [] h e v z = (e, sym (rw e at v.counted))
  no_slots (c ∷ cs) h e v z = absurd (omega (arith, rw e at v.slots))

  pub expand_if_needed-grown :
      (d : Tables K V) → IsDict d → IsCalm d → expand_if_needed d ≡ some (grown d)
  unfolding expand_if_needed dict_expand next_power doubling
  expand_if_needed-grown d v (calm, inl empty) =
      let (null, none_used) = no_slots d.ht0.table d.ht0 refl v.first empty in
      rw calm (rw empty (rw none_used (rw null refl)))
  expand_if_needed-grown d v (calm, inr few) =
      let low : d.ht0.used / d.ht0.size < 6 =
        (div-lt_iff_lt-mul {k = d.ht0.size} {x = d.ht0.used} {y = 6} (omega arith)).1
          (omega arith) in
      ground arith

  install-IsDict :
      (d : Tables K V) (n : ℕ)
      → IsDict d
      → is_rehashing d ≡ false
      → 0 < n
      → IsDict (install d n) × (0 < (install d n).ht0.size)
  install-IsDict d n v calm pos = elim (Bool-cases (is_null d.ht0.table)) [
    | inl null ↦ rw null (
      record {
        first = empty_table-IsTable n;
        second = v.second;
        roomy = λ h. absurd (ground (arith, calm, h));
      },
      pos,
    )
    | inr there ↦
        let size_pos : 0 < d.ht0.size =
          omega (arith, v.first.slots, length-pos d.ht0.table there) in
        rw there (
          record { first = v.first; second = empty_table-IsTable n; roomy = λ h. (size_pos, pos) },
          size_pos,
        )
  ]

  -- What holds of the tables in which a slot is searched.
  abbrev pub Ready : Option (Tables K V) → Type 0
  Ready none = Unit
  Ready (some d) = IsDict d × (0 < d.ht0.size)

  dict_expand-Ready : (d : Tables K V) (size : ℕ) → IsDict d → Ready (dict_expand d size)
  unfolding dict_expand
  dict_expand-Ready d size v = elim (Option-cases (next_power size)) [
    | inl fails ↦ rw (Ready, fails) tt
    | inr (n, e) ↦ elim (Bool-cases (is_rehashing d || ltb size d.ht0.used)) [
      | inl refused ↦ rw (Ready, e) (rw refused tt)
      | inr goes ↦
          rw (Ready, e)
            (rw goes (install-IsDict d n v (ground (arith, goes)) (next_power-pos size n e)))
    ]
  ]

  pub expand_if_needed-Ready : (d : Tables K V) → IsDict d → Ready (expand_if_needed d)
  unfolding expand_if_needed
  expand_if_needed-Ready d v = elim (Bool-cases (is_rehashing d)) [
    | inl busy ↦ rw busy (v, (v.roomy busy).0)
    | inr calm ↦ elim (Bool-cases (d.ht0.size == 0)) [
      | inl empty ↦ rw calm (rw empty (dict_expand-Ready d 100 v))
      | inr some_slots ↦
          elim (Bool-cases (leb d.ht0.size d.ht0.used && ltb 5 (d.ht0.used / d.ht0.size))) [
            | inl full ↦ rw calm (rw some_slots (rw full (dict_expand-Ready d (d.ht0.used * 2) v)))
            | inr wide ↦ rw calm (rw some_slots (rw wide (v, ground arith)))
          ]
    ]
  ]
