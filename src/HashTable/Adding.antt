-- ===== src/HashTable/Adding.antt =====
-- What `hashtable_add` does, and what `hashtable_isexist` finds afterwards.
use native.Mathlib.Nat.{mod-lt}
use ostrichserver.Base.{
  ℕ, zero, suc, ◌+◌, ◌<◌, Bool, true, false, List, [], ◌∷◌, Option, none, some, ◌≡◌, ◌≢◌, ◌⊎◌, inl,
  inr, refl, arith, ◌==◌, ==_iff, ◌&&◌, length, set, Bool-cases,
}
use ostrichserver.HashTable.Hash.{hashstring}
use ostrichserver.HashTable.Table.{
  Hashitem, Hashtable, bucket_at, free, same, Probe, add_look, exist_look, start_of, filled,
  after_add, hashtable_add,
}
use ostrichserver.Base.Circle.{circle, circle_reaches}
use ostrichserver.HashTable.Walk.{Course, stops, rounds, course_of}

module _ {V : Type 0} where
  -- The array has as many buckets as `size` says, and at least one.
  pub record IsHashtable (h : Hashtable V) : Type 0 where
    pub buckets : length h.buckets ≡ h.size
    pub some_buckets : 0 < h.size

  -- the bucket at `pos` is in use
  abbrev pub Occupied : Hashtable V → ℕ → Type 0
  Occupied h pos = (b : Hashitem V) × (bucket_at h.buckets pos ≡ some b) × (b.exist ≡ true)

  -- the bucket at `pos` is there and not in use
  abbrev pub Unused : Hashtable V → ℕ → Type 0
  Unused h pos = (b : Hashitem V) × (bucket_at h.buckets pos ≡ some b) × (b.exist ≡ false)

  -- the table with an item written to the bucket at `pos`
  abbrev pub with_item : Hashtable V → ℕ → List ℕ → V → Hashtable V
  with_item h pos key v = record h { buckets = set h.buckets pos (filled key v) }

  -- The bucket that a key is given: the first that is free from the bucket of its hash on, going round.
  pub record FirstUnused (h : Hashtable V) (key : List ℕ) (pos : ℕ) : Type 0 where
    pub distance : ℕ
    pub near : distance < h.size
    pub here : circle h.size (start_of h key) distance ≡ pos
    pub unused : Unused h pos
    pub before : (i : ℕ) → i < distance → Occupied h (circle h.size (start_of h key) i)

  bucket_there :
      (bs : List (Hashitem V)) (i : ℕ)
      → i < length bs
      → (b : Hashitem V) × (bucket_at bs i ≡ some b)
  bucket_there [] i h = absurd (omega arith)
  bucket_there (b ∷ bs) zero h = (b, refl)
  bucket_there (b ∷ bs) (suc i) h = bucket_there bs i (omega arith)

  pub bucket_at-set_self :
      (bs : List (Hashitem V)) (i : ℕ) (b new : Hashitem V)
      → bucket_at bs i ≡ some b
      → bucket_at (set bs i new) i ≡ some new
  bucket_at-set_self [] i b new e = cc
  bucket_at-set_self (x ∷ bs) zero b new e = refl
  bucket_at-set_self (x ∷ bs) (suc i) b new e = bucket_at-set_self bs i b new e

  pub bucket_at-set_ne :
      (bs : List (Hashitem V)) (i j : ℕ) (new : Hashitem V)
      → i ≢ j
      → bucket_at (set bs i new) j ≡ bucket_at bs j
  bucket_at-set_ne [] i j new ne = refl
  bucket_at-set_ne (x ∷ bs) zero zero new ne = absurd (ne refl)
  bucket_at-set_ne (x ∷ bs) zero (suc j) new ne = refl
  bucket_at-set_ne (x ∷ bs) (suc i) zero new ne = refl
  bucket_at-set_ne (x ∷ bs) (suc i) (suc j) new ne = bucket_at-set_ne bs i j new (omega arith)

  -- What the two loops make of a bucket that is there.
  add_case :
      (h : Hashtable V) (pos : ℕ)
      → pos < length h.buckets
      → (Occupied h pos × (add_look h pos ≡ none))
        ⊎ (Unused h pos × (add_look h pos ≡ some (free pos)))
  add_case h pos inside =
      let (b, there) = bucket_there h.buckets pos inside in
      elim (Bool-cases b.exist) [
        | inl used ↦ inl ((b, there, used), rw there (rw used refl))
        | inr unused ↦ inr ((b, there, unused), rw there (rw unused refl))
      ]

  pub exist-Unused :
      (h : Hashtable V) (key : List ℕ) (pos : ℕ)
      → Unused h pos
      → exist_look h key pos ≡ some (free pos)
  exist-Unused h key pos (b, there, unused) = rw there (rw unused refl)

  -- The item at `pos` has the hashes of `key`.
  abbrev pub HasHashes : Hashtable V → List ℕ → ℕ → Type 0
  HasHashes h key pos =
      (b : Hashitem V) × (bucket_at h.buckets pos ≡ some b)
      × (b.exist ≡ true)
      × (b.nhash_a ≡ hashstring key 1)
      × (b.nhash_b ≡ hashstring key 2)

  pub exist_hashes :
      (h : Hashtable V) (key : List ℕ) (pos : ℕ)
      → HasHashes h key pos
      → exist_look h key pos ≡ some (same pos)
  exist_hashes h key pos (b, there, used, e, f) = rw there (
      rw used (
        rw
          (
            e,
            f,
            (==_iff (hashstring key 1) (hashstring key 1)).1 refl,
            (==_iff (hashstring key 2) (hashstring key 2)).1 refl,
          )
          refl))

  pub exist-Occupied :
      (h : Hashtable V) (key : List ℕ) (pos : ℕ)
      → Occupied h pos
      → (exist_look h key pos ≡ none)
        ⊎ (HasHashes h key pos × (exist_look h key pos ≡ some (same pos)))
  exist-Occupied h key pos (b, there, used) =
      elim (Bool-cases ((b.nhash_a == hashstring key 1) && (b.nhash_b == hashstring key 2))) [
        | inr other ↦ inl (rw there (rw used (rw other refl)))
        | inl equal ↦ inr (
          (b, there, used, ground (arith, equal), ground (arith, equal)),
          rw there (rw used (rw equal refl)),
        )
      ]

  circle_inside :
      (h : Hashtable V) (start i : ℕ) → IsHashtable h → circle h.size start i < length h.buckets
  circle_inside h start i w = omega (arith, w.buckets, mod-lt (start + i) w.some_buckets)

  pub start-lt : (h : Hashtable V) (key : List ℕ) → IsHashtable h → start_of h key < h.size
  start-lt h key w = mod-lt (hashstring key 0) w.some_buckets

  Occupied-of_pass :
      (h : Hashtable V) (start i : ℕ)
      → IsHashtable h
      → add_look h (circle h.size start i) ≡ none
      → Occupied h (circle h.size start i)
  Occupied-of_pass h start i w e =
      elim (add_case h (circle h.size start i) (circle_inside h start i w)) [
        | inl (used, _) ↦ used
        | inr (_, stop) ↦ cc
      ]

  -- What a call of `hashtable_add` gives.
  abbrev pub Adds : Hashtable V → List ℕ → V → Option (Hashtable V × Bool) → Type 0
  Adds h key v result =
      ((pos : ℕ) × FirstUnused h key pos × (result ≡ some (with_item h pos key v, true)))
      ⊎ (((pos : ℕ) → pos < h.size → Occupied h pos) × (result ≡ some (h, false)))

  Adds-of_course :
      (h : Hashtable V) (key : List ℕ) (v : V) (r : Probe)
      → IsHashtable h
      → Course (add_look h) h.size (start_of h key) 0 r
      → Adds h key v (after_add h key v r)
  unfolding after_add
  Adds-of_course h key v _ w (stops j a lo hi before there) =
      elim (add_case h (circle h.size (start_of h key) j) (circle_inside h (start_of h key) j w)) [
        | inl (_, pass) ↦ cc
        | inr (unused, stop) ↦
            let e : a ≡ free (circle h.size (start_of h key) j) = cc in
            rw e (
              inl (
                circle h.size (start_of h key) j,
                record {
                  distance = j;
                  near = hi;
                  here = refl;
                  unused = unused;
                  before = λ i less.
                      Occupied-of_pass h (start_of h key) i w (before i (omega arith) less);
                },
                refl,
              ))
      ]
  Adds-of_course h key v _ w (rounds before) = inr (
    λ pos inside.
        let (i, less, e) = circle_reaches h.size (start_of h key) pos (start-lt h key w) inside in
        rw e at (Occupied-of_pass h (start_of h key) i w (before i (omega arith) less)),
    refl,
  )

  -- `hashtable_add` reads no bucket outside the array and ends. It returns 1 when some bucket is free, and
  -- has then written the item to the first free one from the bucket of the hash on, going round; it
  -- returns 0 exactly when every bucket is in use, and the table is as it was.
  pub hashtable_add-Adds :
      (h : Hashtable V) (key : List ℕ) (v : V)
      → IsHashtable h
      → Adds h key v (hashtable_add h key v)
  unfolding hashtable_add
  hashtable_add-Adds h key v w =
      Adds-of_course h key v _ w (course_of (add_look h) h.size (start_of h key) (start-lt h key w))
