-- ===== src/HashTable/Table.antt =====
-- The table and its operations (hashtable.c, hashtable.h).
use ostrichserver.Base.{
  ℕ, zero, suc, ◌+◌, ◌-◌, ◌%◌, ◌^◌, Bool, true, false, ◌&&◌, List, [], ◌∷◌, Option, none, some,
  ◌==◌, if◌then◌else◌, set, replicate,
}
use ostrichserver.HashTable.Hash.{hashstring}

abbrev pub maxhashtablelen : ℕ
maxhashtablelen = 1024

-- `hashitem`; the hashes are `int32_t` fields as their 32 bits, and `data` is `none` before it is set.
pub record Hashitem (V : Type 0) : Type 0 where
  pub nhash_a : ℕ
  pub nhash_b : ℕ
  pub exist : Bool
  pub item : Option V

-- `hashtable`
pub record Hashtable (V : Type 0) : Type 0 where
  pub buckets : List (Hashitem V)
  pub size : ℕ

-- a read of the array `buckets`; `none` lies outside it
abbrev pub bucket_at : {V : Type 0} → List (Hashitem V) → ℕ → Option (Hashitem V)
bucket_at [] i = none
bucket_at (b ∷ bs) zero = some b
bucket_at (b ∷ bs) (suc i) = bucket_at bs i

-- Why a loop over the buckets stops at a bucket: it lies outside the array, it is free, or it is the one
-- looked for.
pub data Stop : Type 0 where
  outside : Stop
  free : ℕ → Stop
  same : ℕ → Stop

-- How such a loop ends: out of fuel, back at its start, or at a bucket.
pub data Probe : Type 0 where
  out_of_fuel : Probe
  round : Probe
  ends : Stop → Probe

-- `while (exist) { ... nhashpos = (nhashpos + 1) % modulus; if (nhashpos == nhashstart) ... }`, where
-- `look` says whether the loop stops at a bucket, and goes on at `none`
unfoldable pub probe : (ℕ → Option Stop) → ℕ → ℕ → ℕ → ℕ → Probe
probe look modulus start zero pos = out_of_fuel
probe look modulus start (suc fuel) pos =
    let next = (pos + 1) % modulus in
    let rest = probe look modulus start fuel next in
    elim (look pos) [ some stop ↦ ends stop | none ↦ if next == start then round else rest ]

-- the result of `hashtable_isexist`: `some none` is -1, and `none` a read outside the array
abbrev pub after_isexist : Probe → Option (Option ℕ)
after_isexist out_of_fuel = none
after_isexist (ends outside) = none
after_isexist (ends (same pos)) = some (some pos)
after_isexist (ends (free pos)) = some none
after_isexist round = some none

module _ {V : Type 0} where
  -- the items of `hashtable_init`
  abbrev pub unused_item : Hashitem V
  unused_item = record { nhash_a = 2 ^ 32 - 1; nhash_b = 2 ^ 32 - 1; exist = false; item = none }

  -- `hashtable_init`, with whether `os_malloc` succeeds; `none` is 0
  unfoldable pub hashtable_init : Bool → ℕ → Option (Hashtable V)
  hashtable_init allocated n =
      if allocated then some (record { buckets = replicate n unused_item; size = n }) else none

  -- the test of the loop in `hashtable_add`
  abbrev pub add_stop : Option (Hashitem V) → ℕ → Option Stop
  add_stop none pos = some outside
  add_stop (some b) pos = if b.exist then none else some (free pos)

  abbrev pub add_look : Hashtable V → ℕ → Option Stop
  add_look h pos = add_stop (bucket_at h.buckets pos) pos

  -- the tests of the loop in `hashtable_isexist`
  abbrev pub exist_stop : ℕ → ℕ → Option (Hashitem V) → ℕ → Option Stop
  exist_stop a b none pos = some outside
  exist_stop a b (some item) pos =
      if item.exist
      then (if (item.nhash_a == a) && (item.nhash_b == b) then some (same pos) else none)
      else some (free pos)

  abbrev pub exist_look : Hashtable V → List ℕ → ℕ → Option Stop
  exist_look h key pos =
      exist_stop (hashstring key 1) (hashstring key 2) (bucket_at h.buckets pos) pos

  -- `nhashstart`
  abbrev pub start_of : Hashtable V → List ℕ → ℕ
  start_of h key = hashstring key 0 % h.size

  -- the item that `hashtable_add` writes
  abbrev pub filled : List ℕ → V → Hashitem V
  filled key v = record {
    nhash_a = hashstring key 1;
    nhash_b = hashstring key 2;
    exist = true;
    item = some v;
  }

  -- How a call of `hashtable_add` ends: a read outside the array, or a result, which is `true` for 1.
  unfoldable pub after_add : Hashtable V → List ℕ → V → Probe → Option (Hashtable V × Bool)
  after_add h key v (ends (free pos)) =
      some (record h { buckets = set h.buckets pos (filled key v) }, true)
  after_add h key v round = some (h, false)
  after_add h key v _ = none

  -- `hashtable_add`
  unfoldable pub hashtable_add : Hashtable V → List ℕ → V → Option (Hashtable V × Bool)
  unfolding probe after_add
  hashtable_add h key v =
      after_add h key v (probe (add_look h) h.size (start_of h key) h.size (start_of h key))

  -- the loop of `hashtable_isexist`, which goes round at MAXHASHTABLELEN
  unfoldable pub isexist_loop : Hashtable V → List ℕ → Probe
  unfolding probe
  isexist_loop h key =
      probe (exist_look h key) maxhashtablelen (start_of h key) maxhashtablelen (start_of h key)

  -- `hashtable_isexist`
  unfoldable pub hashtable_isexist : Hashtable V → List ℕ → Option (Option ℕ)
  unfolding isexist_loop
  hashtable_isexist h key = after_isexist (isexist_loop h key)
