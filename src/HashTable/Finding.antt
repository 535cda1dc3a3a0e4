-- ===== src/HashTable/Finding.antt =====
-- What `hashtable_isexist` finds after `hashtable_add`, in a table of MAXHASHTABLELEN buckets.
use native.Mathlib.Decide.{ℕ_discrete, dec_lt}
use ostrichserver.Base.{
  ℕ, ◌<◌, List, some, ◌≡◌, inl, inr, refl, sym, subst, ap, ◌∙◌, arith, length-set,
}
use ostrichserver.HashTable.Table.{
  Hashtable, bucket_at, Stop, same, Probe, ends, exist_look, start_of, filled, after_isexist,
  isexist_loop, hashtable_isexist,
}
use ostrichserver.Base.Circle.{circle}
use ostrichserver.HashTable.Walk.{Passes, Course, stops, rounds, course_of, course_ends}
use ostrichserver.HashTable.Adding.{
  IsHashtable, Occupied, Unused, with_item, FirstUnused, HasHashes, bucket_at-set_self,
  bucket_at-set_ne, exist_hashes, exist-Occupied, start-lt,
}

module _ {V : Type 0} where
  -- A table with its shape and MAXHASHTABLELEN buckets.
  abbrev pub IsFullSize : Hashtable V → Type 0
  IsFullSize h = IsHashtable h × (h.size ≡ 1024)

  pub loop_course :
      (h : Hashtable V) (key : List ℕ)
      → IsFullSize h
      → Course (exist_look h key) 1024 (start_of h key) 0 (isexist_loop h key)
  unfolding isexist_loop
  loop_course h key (w, full) =
      course_of (exist_look h key) 1024 (start_of h key) (omega (arith, start-lt h key w))

  pub loop_ends :
      (h : Hashtable V) (key : List ℕ) (j : ℕ) (a : Stop)
      → IsFullSize h
      → j < 1024
      → Passes (exist_look h key) 1024 (start_of h key) 0 j
      → exist_look h key (circle 1024 (start_of h key) j) ≡ some a
      → hashtable_isexist h key ≡ after_isexist (ends a)
  unfolding hashtable_isexist
  loop_ends h key j a full hj before there = ap after_isexist (
      course_ends (exist_look h key) 1024 (start_of h key) _ j a (loop_course h key full) hj before
        there)

  pub with_item-IsFullSize :
      (h : Hashtable V) (pos : ℕ) (key : List ℕ) (v : V)
      → IsFullSize h
      → IsFullSize (with_item h pos key v)
  with_item-IsFullSize h pos key v (w, full) = (
    record {
      buckets = length-set h.buckets pos (filled key v) ∙ w.buckets;
      some_buckets = w.some_buckets;
    },
    full,
  )

  -- An item that is in use stays what it is when another bucket is filled.
  pub used_stays :
      (h : Hashtable V) (pos i : ℕ) (key : List ℕ) (v : V)
      → Unused h pos
      → Occupied h i
      → bucket_at (with_item h pos key v).buckets i ≡ bucket_at h.buckets i
  used_stays h pos i key v (b, there, unused) (c, here, used) =
      bucket_at-set_ne h.buckets pos i (filled key v) (λ e.
        let f : bucket_at h.buckets pos ≡ bucket_at h.buckets i = ap (bucket_at h.buckets) e in cc)

  -- `hashtable_isexist` finds a bucket with the hashes of `key`.
  abbrev pub Found : Hashtable V → List ℕ → Type 0
  Found h key = (pos : ℕ) × (hashtable_isexist h key ≡ some (some pos)) × HasHashes h key pos

  Found-at :
      (h : Hashtable V) (key : List ℕ) (j : ℕ)
      → IsFullSize h
      → j < 1024
      → Passes (exist_look h key) 1024 (start_of h key) 0 j
      → HasHashes h key (circle 1024 (start_of h key) j)
      → Found h key
  Found-at h key j full hj before hashes = (
    circle 1024 (start_of h key) j,
    loop_ends h key j (same (circle 1024 (start_of h key) j)) full hj before
        (exist_hashes h key (circle 1024 (start_of h key) j) hashes),
    hashes,
  )

  -- In a table in which the buckets before the distance `d` are in use and the one there has the hashes
  -- of `key`, the search ends at a bucket with these hashes.
  Found-within :
      (h : Hashtable V) (key : List ℕ) (d : ℕ) (r : Probe)
      → IsFullSize h
      → d < 1024
      → ((i : ℕ) → i < d → Occupied h (circle 1024 (start_of h key) i))
      → HasHashes h key (circle 1024 (start_of h key) d)
      → Course (exist_look h key) 1024 (start_of h key) 0 r
      → Found h key
  Found-within h key d _ full hd used there (rounds before) =
      cc (before d (omega arith) hd, exist_hashes h key (circle 1024 (start_of h key) d) there)
  Found-within h key d _ full hd used there (stops j a lo hi before stop) = elim (dec_lt j d) [
    | yes less ↦ elim (exist-Occupied h key (circle 1024 (start_of h key) j) (used j less)) [
      | inl pass ↦ cc
      | inr (hashes, _) ↦ Found-at h key j full hi before hashes
    ]
    | no more ↦ elim (ℕ_discrete j d) [
      | yes e ↦ Found-at h key d full hd (rw e at before) there
      | no ne ↦ cc (
        before d (omega arith) (omega arith),
        exist_hashes h key (circle 1024 (start_of h key) d) there,
      )
    ]
  ]

  -- A key that has just been added is found.
  pub add-Found :
      (h : Hashtable V) (key : List ℕ) (v : V) (pos : ℕ)
      → IsFullSize h
      → FirstUnused h key pos
      → Found (with_item h pos key v) key
  add-Found h key v pos full u =
      let (b, there, _) = u.unused in
      let at_place : pos ≡ circle 1024 (start_of h key) u.distance =
        sym u.here ∙ ap (λ (n : ℕ). circle n (start_of h key) u.distance) full.1 in
      let full' = with_item-IsFullSize h pos key v full in
      Found-within (with_item h pos key v) key u.distance _ full' (omega (arith, u.near, full.1))
        (λ i less.
          let used =
            subst (λ (n : ℕ). Occupied h (circle n (start_of h key) i)) full.1 (u.before i less) in
          let (c, here, e) = used in
          (c, used_stays h pos (circle 1024 (start_of h key) i) key v u.unused used ∙ here, e))
        (subst (HasHashes (with_item h pos key v) key) at_place
          (filled key v, bucket_at-set_self h.buckets pos b (filled key v) there, refl, refl, refl))
        (loop_course (with_item h pos key v) key full')
