-- ===== src/Dict/Adding.antt =====
-- What adding an entry does to the shape of a dictionary and to what is found in it.
use ostrichserver.Base.{
  ◌<◌, Bool, true, false, not, ◌&&◌, [], ◌∷◌, Option, none, some, ◌≡◌, ◌⊎◌, inl, inr, refl, ◌∙◌,
  arith, ◌==◌, if◌then◌else◌, length-set, Bool-cases, subst,
}
use ostrichserver.Dict.Interface.{DictType}
use ostrichserver.Dict.Table.{
  Entry, Chain, Dictht, Tables, is_rehashing, empty_table, expand_if_needed, slot, chain_of,
  index_in, index_after, place, add_entry, find_in, find_entry,
}
use ostrichserver.Dict.Slots.{IsTable, entries-push, get_or-replicate}
use ostrichserver.Dict.Lookup.{IsDict, slot-lt, lookup, push_at, find-push}
use ostrichserver.Dict.Growth.{IsCalm, grown, expand_if_needed-grown, Ready, expand_if_needed-Ready}

module _ {K V : Type 0} (t : DictType K V) where
  pub push-IsTable :
      (h : Dictht K V) (k : K) (e : Entry K V) → IsTable h → 0 < h.size → IsTable (push_at t h k e)
  push-IsTable h k e v pos = record {
    slots = length-set h.table (slot t h k) (e ∷ chain_of t h k) ∙ v.slots;
    mask = v.mask;
    counted = omega (arith, entries-push h.table (slot t h k) e (slot-lt t h k v pos), v.counted);
  }

  -- What `dict_add` makes of the tables in which it searched.
  place-IsDict :
      (d : Tables K V) (k : K) (e : Entry K V)
      → IsDict d
      → 0 < d.ht0.size
      → IsDict (place d e (some (slot t (if is_rehashing d then d.ht1 else d.ht0) k))).0
  unfolding place
  place-IsDict d k e v pos = elim (Bool-cases (is_rehashing d)) [
    | inl busy ↦ rw busy (record {
      first = v.first;
      second = push-IsTable d.ht1 k e v.second (v.roomy busy).1;
      roomy = v.roomy;
    })
    | inr calm ↦
        rw calm (record {
          first = push-IsTable d.ht0 k e v.first pos;
          second = v.second;
          roomy = v.roomy;
        })
  ]

  index_in-cases :
      (d : Tables K V) (k : K)
      → (index_in t d k ≡ none)
        ⊎ (index_in t d k ≡ some (slot t (if is_rehashing d then d.ht1 else d.ht0) k))
  unfolding index_in
  index_in-cases d k = elim (Bool-cases (is_rehashing d)) [
    | inl busy ↦ rw busy (ground arith)
    | inr calm ↦ rw calm (ground arith)
  ]

  place_after :
      (k : K) (v : V) (o : Option (Tables K V)) (d : Tables K V)
      → IsDict d
      → Ready o
      → IsDict
          (place
            (index_after t d k o).0
            (record { key = t.key_dup k; val = t.val_dup v })
            (index_after t d k o).1).0
  unfolding place
  place_after k v none d w r = w
  place_after k v (some d') d w r = elim (index_in-cases d' k) [
    | inl fails ↦ rw fails r.0
    | inr goes ↦
        rw goes (place-IsDict d' k (record { key = t.key_dup k; val = t.val_dup v }) r.0 r.1)
  ]

  -- Adding an entry keeps the shape of a dictionary in every state that it can be in: an empty one is
  -- given its table, a full one begins to rehash, and a rehashing one takes the entry in its new table.
  pub add_entry-IsDict : (d : Tables K V) (k : K) (v : V) → IsDict d → IsDict (add_entry t d k v).0
  unfolding add_entry
  add_entry-IsDict d k v w = place_after k v (expand_if_needed d) d w (expand_if_needed-Ready d w)

  grown-IsDict :
      (d : Tables K V) → IsDict d → IsCalm d → IsDict (grown d) × (0 < (grown d).ht0.size)
  grown-IsDict d w c = subst Ready (expand_if_needed-grown d w c) (expand_if_needed-Ready d w)

  pub grown-calm : (d : Tables K V) → IsCalm d → is_rehashing (grown d) ≡ false
  grown-calm d c = elim (Bool-cases (d.ht0.size == 0)) [
    | inl empty ↦ rw empty c.0
    | inr there ↦ rw there c.0
  ]

  grown_d : (d : Tables K V) → (d.ht0.size == 0) ≡ false → grown d ≡ d
  grown_d d there = rw there refl

  lookup-grown : (d : Tables K V) (q : K) → IsCalm d → lookup t (grown d) q ≡ lookup t d q
  unfolding find_entry find_in
  lookup-grown d q c = elim (Bool-cases (d.ht0.size == 0)) [
    | inl empty ↦
        rw empty
          (rw c.0 (rw (get_or-replicate {A = Chain K V} 100 (slot t (empty_table 100) q) []) refl))
    | inr there ↦ rw (grown_d d there) refl
  ]

  lookup-push :
      (d : Tables K V) (k q : K) (e : Entry K V)
      → IsDict d
      → 0 < d.ht0.size
      → is_rehashing d ≡ false
      → (t.cmp q e.key ≡ false → t.hash q ≡ t.hash k)
      → lookup t (record d { ht0 = push_at t d.ht0 k e }) q
        ≡ (if t.cmp q e.key then lookup t d q else some e.val)
  unfolding find_entry
  lookup-push d k q e w pos calm same =
      let there : d.ht0.size == 0 ≡ false = ground arith in
      rw there (
        rw calm (
          rw (find-push t d.ht0 k q e w.first pos same) (elim (Bool-cases (t.cmp q e.key)) [
            | inl differ ↦ rw differ refl
            | inr equal ↦ rw equal refl
          ])))

  swap_if :
      {x x' : Option V} (y : Option V) (b : Bool)
      → x ≡ x'
      → (if b then x else y) ≡ (if not b then y else x')
  swap_if y true e = e
  swap_if y false e = refl

  pub index_in-calm :
      (d : Tables K V) (k : K)
      → is_rehashing d ≡ false
      → (index_in t d k ≡ none) ⊎ (index_in t d k ≡ some (slot t d.ht0 k))
  unfolding index_in
  index_in-calm d k calm = rw calm (ground arith)

  -- Adding `k` with `v` to a calm dictionary either fails and changes nothing that is found, or makes
  -- exactly the keys that compare as equal to the new entry find `v`, and leaves every other key with
  -- what it found. The keys that compare as equal to the entry are taken to have the hash of `k`.
  pub lookup-add_entry :
      (d : Tables K V) (k q : K) (v : V)
      → IsDict d
      → IsCalm d
      → (t.cmp q (t.key_dup k) ≡ false → t.hash q ≡ t.hash k)
      → lookup t (add_entry t d k v).0 q ≡ (
          if (add_entry t d k v).1 && not (t.cmp q (t.key_dup k))
          then some (t.val_dup v)
          else lookup t d q)
  unfolding add_entry place
  lookup-add_entry d k q v w c same =
      let (w', pos) = grown-IsDict d w c in
      let calm = grown-calm d c in
      rw (expand_if_needed-grown d w c) (elim (index_in-calm (grown d) k calm) [
        | inl fails ↦ rw fails (lookup-grown d q c)
        | inr goes ↦ rw goes (
            rw calm (
              lookup-push (grown d) k q (record { key = t.key_dup k; val = t.val_dup v }) w' pos
                calm same
              ∙ swap_if (some (t.val_dup v)) (t.cmp q (t.key_dup k)) (lookup-grown d q c)))
      ])

  -- A calm dictionary has slots after `dict_add`, whether or not an entry was made.
  pub add_entry-pos :
      (d : Tables K V) (k : K) (v : V) → IsDict d → IsCalm d → 0 < (add_entry t d k v).0.ht0.size
  unfolding add_entry place
  add_entry-pos d k v w c =
      let (w', pos) = grown-IsDict d w c in
      let calm = grown-calm d c in
      rw (expand_if_needed-grown d w c) (elim (index_in-calm (grown d) k calm) [
        | inl fails ↦ rw fails pos
        | inr goes ↦ rw goes (rw calm pos)
      ])
