-- ===== src/Dict/Rehash.antt =====
-- Moving the entries of a dictionary to its new table, slot by slot (dict.c).
use ostrichserver.Base.{
  ℕ, zero, suc, ◌-◌, ◌^◌, Bool, true, false, List, [], ◌∷◌, Option, none, some, ltb, ◌==◌,
  if◌then◌else◌, get_or, set,
}
use ostrichserver.Dict.Interface.{DictType, RwLock}
use ostrichserver.Dict.Table.{Chain, Tables, reset_table, slot, push}
use ostrichserver.Dict.Ops.{Run, fault, returns, ◌>>=◌, Dict, locked}

-- `used--` of an `unsigned long`
abbrev pub less_one : ℕ → ℕ
less_one zero = 2 ^ 64 - 1
less_one (suc n) = n

abbrev pub behind_head : Option ℕ → Option ℕ
behind_head none = none
behind_head (some i) = some (suc i)

-- `while (table[rehashidx] == NULL) rehashidx++`; `none` if it runs out of the table, from which the
-- code reads on
unfoldable pub next_filled : {A : Type 0} → List (List A) → ℕ → Option ℕ
next_filled [] i = none
next_filled (c ∷ cs) (suc i) = behind_head (next_filled cs i)
next_filled ([] ∷ cs) zero = behind_head (next_filled cs zero)
next_filled ((e ∷ c) ∷ cs) zero = some 0

module _ {K V : Type 0} (t : DictType K V) where
  -- `while (de)`
  unfoldable pub move_chain : Chain K V → Tables K V → Tables K V
  move_chain [] d = d
  move_chain (e ∷ c) d = move_chain c (record d {
    ht0 = record d.ht0 { used = less_one d.ht0.used };
    ht1 = push d.ht1 (slot t d.ht1 e.key) e;
  })

  -- the end of a round: the chain of slot `i` is moved
  abbrev pub clear_slot : ℕ → Tables K V → Tables K V
  clear_slot i d = record d {
    ht0 = record d.ht0 { table = set d.ht0.table i [] };
    rehashidx = some (suc i);
  }

  abbrev pub rehash_slot : ℕ → Tables K V → Tables K V
  rehash_slot i d = clear_slot i (move_chain (get_or d.ht0.table i []) d)

  -- the slot that a round moves; `none` if it lies outside of the table
  abbrev pub slot_from : Tables K V → ℕ → Option ℕ
  slot_from d i = if ltb i d.ht0.size then next_filled d.ht0.table i else none

  -- the new table takes the place of the old one
  abbrev pub finished : Tables K V → Tables K V
  finished d = record { ht0 = d.ht1; ht1 = reset_table; rehashidx = none }

  -- `while (n--)`, with `rehashidx`; whether all rounds were made. It reads outside of the table or
  -- returns.
  unfoldable pub rehash_loop : ℕ → Tables K V → ℕ → Run (Tables K V × Bool)
  unfolding move_chain next_filled
  rehash_loop zero d i = returns (d, true)
  rehash_loop (suc n) d i = elim (d.ht0.used == 0) [
    | true ↦ returns (finished d, false)
    | false ↦ elim (slot_from d i) [
      | none ↦ fault
      | some j ↦ rehash_loop n (rehash_slot j d) (suc j)
    ]
  ]

module _ (l : RwLock) {K V : Type 0} (t : DictType K V) where
  open l use {Lock, wrlock, unlock}

  -- how `dict_rehash` returns: with the lock released only where all rounds were made
  abbrev pub after_rounds : Lock → Tables K V × Bool → Run (Dict l t × ℕ)
  after_rounds held (d, true) = returns (record { tables = d; lock = unlock held }, 1)
  after_rounds held (d, false) = returns (record { tables = d; lock = held }, 0)

  -- `dict_rehash` for an `n` that is not negative
  unfoldable pub dict_rehash : Dict l t → ℕ → Run (Dict l t × ℕ)
  unfolding rehash_loop
  dict_rehash d n = do
    held ← locked l t (wrlock d.lock)
    elim d.tables.rehashidx [
      | none ↦ returns (record d { lock = held }, 0)
      | some i ↦ rehash_loop t n d.tables i >>= after_rounds held
    ]

  -- `_dict_rehash_step` of a dictionary with a number of iterators
  unfoldable pub rehash_step : ℕ → Dict l t → Run (Dict l t)
  unfolding dict_rehash
  rehash_step zero d = dict_rehash d 1 >>= (λ r. returns r.0)
  rehash_step (suc iterators) d = returns d
