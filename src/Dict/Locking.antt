-- ===== src/Dict/Locking.antt =====
-- The operations with their lock: what a call on an unlocked dictionary returns.
use ostrichserver.Base.{
  false, not, ◌&&◌, Option, none, some, ◌≡◌, inl, inr, refl, ◌∙◌, arith, ◌==◌, if◌then◌else◌,
  Bool-cases, is_some,
}
use ostrichserver.Dict.Interface.{DictType, RwLock}
use ostrichserver.Dict.Table.{Tables, add_entry, assign_entry}
use ostrichserver.Dict.Ops.{
  waits, fault, returns, ◌>>=◌, Dict, dict_add, dict_find, dict_replace, write_found,
}
use ostrichserver.Dict.Lookup.{IsDict, lookup}
use ostrichserver.Dict.Growth.{IsCalm}
use ostrichserver.Dict.Adding.{lookup-add_entry, add_entry-pos}

module _ (l : RwLock) {K V : Type 0} (t : DictType K V) where
  open l use {Lock, unlocked, rdlock, wrlock, unlock, read_locked, write_locked}

  abbrev pub with_lock : Tables K V → Lock → Dict l t
  with_lock d k = record { tables = d; lock = k }

  pub dict_add-returns :
      (d : Tables K V) (k : K) (v : V)
      → dict_add l t (with_lock d unlocked) k v
        ≡ returns (with_lock (add_entry t d k v).0 unlocked, (add_entry t d k v).1)
  unfolding dict_add
  dict_add-returns d k v = rw l.wrlock_free (rw l.unlock_write refl)

  pub dict_find-returns :
      (d : Tables K V) (q : K)
      → dict_find l t (with_lock d unlocked) q
        ≡ returns (with_lock d (if d.ht0.size == 0 then read_locked else unlocked), lookup t d q)
  unfolding dict_find
  dict_find-returns d q = elim (Bool-cases (d.ht0.size == 0)) [
    | inl empty ↦ rw l.rdlock_free (rw empty refl)
    | inr there ↦ rw l.rdlock_free (rw there (rw l.unlock_read refl))
  ]

  -- On an unlocked dictionary with its shape that is not rehashing and not about to, `dict_add` followed
  -- by `dict_find` waits for nothing and leaves the dictionary unlocked; the search gives the new value
  -- where an entry was made and the key looked for compares as equal to it, and else what it gave before.
  -- Keys that compare as equal to the new entry are taken to have the hash of the key added.
  pub add-find :
      (d : Tables K V) (k q : K) (v : V)
      → IsDict d
      → IsCalm d
      → (t.cmp q (t.key_dup k) ≡ false → t.hash q ≡ t.hash k)
      → (dict_add l t (with_lock d unlocked) k v >>= (λ r. dict_find l t r.0 q))
        ≡ returns (
          with_lock (add_entry t d k v).0 unlocked,
          (if (add_entry t d k v).1 && not (t.cmp q (t.key_dup k))
              then some (t.val_dup v)
              else lookup t d q),
        )
  add-find d k q v w c same =
      let there : ((add_entry t d k v).0.ht0.size == 0) ≡ false =
        ground (arith, add_entry-pos t d k v w c) in
      rw (dict_add-returns d k v) (
        rw (dict_find-returns (add_entry t d k v).0 q)
          (rw (lookup-add_entry t d k q v w c same) (rw there refl)))

  -- A search in an unlocked dictionary that never had an entry keeps the read lock: the `dict_add` that
  -- the same thread calls next waits for ever.
  pub find-add-waits :
      (d : Tables K V) (q k : K) (v : V)
      → d.ht0.size ≡ 0
      → (dict_find l t (with_lock d unlocked) q >>= (λ r. dict_add l t r.0 k v)) ≡ waits
  unfolding dict_add
  find-add-waits d q k v empty = rw (dict_find-returns d q) (rw empty (rw l.wrlock_read refl))

  written :
      (d : Tables K V) (k : K) (v : V) (o : Option V)
      → write_found l t (with_lock d unlocked) k v o
        ≡ (if is_some o then returns (with_lock (assign_entry t d k v) unlocked, 0) else fault)
  unfolding write_found
  written d k v none = refl
  written d k v (some old) = refl

  -- What `dict_replace` does on an unlocked dictionary with its shape that is not rehashing and not about
  -- to. Where an entry is made, it gives 1. Where none is made, it writes the value to the entry that a
  -- search finds and gives 0, and reads through NULL when the search finds none. It never waits.
  pub dict_replace-returns :
      (d : Tables K V) (k : K) (v : V)
      → IsDict d
      → IsCalm d
      → dict_replace l t (with_lock d unlocked) k v ≡ (
          if (add_entry t d k v).1
          then returns (with_lock (add_entry t d k v).0 unlocked, 1)
          else if is_some (lookup t d k)
          then returns (with_lock (assign_entry t (add_entry t d k v).0 k v) unlocked, 0)
          else fault)
  unfolding dict_replace
  dict_replace-returns d k v w c =
      let there : ((add_entry t d k v).0.ht0.size == 0) ≡ false =
        ground (arith, add_entry-pos t d k v w c) in
      elim (Bool-cases (add_entry t d k v).1) [
        | inl made ↦ rw (dict_add-returns d k v) (rw made refl)
        | inr kept ↦
            let same : lookup t (add_entry t d k v).0 k ≡ lookup t d k =
              lookup-add_entry t d k k v w c (λ e. refl) ∙ rw kept refl in
            rw (dict_add-returns d k v) (
              rw kept (
                rw (dict_find-returns (add_entry t d k v).0 k)
                  (rw same (rw there (written (add_entry t d k v).0 k v (lookup t d k))))))
      ]
