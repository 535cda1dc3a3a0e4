-- ===== src/HashTable/Outside.antt =====
-- When a search leaves the array: `hashtable_isexist` goes round at MAXHASHTABLELEN, whatever `size` is.
use native.Mathlib.Nat.{mod-eq_of_lt, mod-lt}
use native.Mathlib.Decide.{dec_lt}
use ostrichserver.Base.{
  ℕ, zero, suc, ◌+◌, ◌-◌, ◌<◌, ◌≤◌, Bool-cases, List, [], ◌∷◌, none, some, ◌≡◌, ◌↔◌, inl, inr, refl,
  ap, ◌∙◌, arith, length, Option-cases,
}
use ostrichserver.HashTable.Table.{
  Hashitem, Hashtable, bucket_at, maxhashtablelen, outside, free, same, Probe, exist_look, start_of,
  after_isexist, isexist_loop, hashtable_isexist,
}
use ostrichserver.Base.Circle.{circle}
use ostrichserver.HashTable.Walk.{Course, stops, rounds, course_of, course_ends}
use ostrichserver.HashTable.Adding.{
  IsHashtable, Occupied, HasHashes, exist-Occupied, exist_hashes, start-lt,
}
use ostrichserver.HashTable.Staying.{in_use}

bucket_beyond :
    {V : Type 0} (bs : List (Hashitem V)) (i : ℕ) → length bs ≤ i → bucket_at bs i ≡ none
bucket_beyond [] i h = refl
bucket_beyond (b ∷ bs) zero h = absurd (omega arith)
bucket_beyond (b ∷ bs) (suc i) h = bucket_beyond bs i (omega arith)

bucket_within :
    {V : Type 0} (bs : List (Hashitem V)) (i : ℕ) → bucket_at bs i ≡ none → length bs ≤ i
bucket_within [] i h = omega arith
bucket_within (b ∷ bs) zero h = cc
bucket_within (b ∷ bs) (suc i) h = omega (arith, bucket_within bs i h)

circle_near : (start i : ℕ) → start + i < 1024 → circle 1024 start i ≡ start + i
circle_near start i h = mod-eq_of_lt h

module _ {V : Type 0} (h : Hashtable V) (key : List ℕ) where
  -- Every bucket from that of the hash of `key` to the last is in use by items with other hashes.
  abbrev pub FullBehind : Type 0
  FullBehind =
      (pos : ℕ) → start_of h key ≤ pos → pos < h.size → Occupied h pos × ¬ (HasHashes h key pos)

  blocked_of_none :
      (pos : ℕ) → exist_look h key pos ≡ none → Occupied h pos × ¬ (HasHashes h key pos)
  blocked_of_none pos e =
      (in_use h key pos (inl e), λ hashes. cc (e, exist_hashes h key pos hashes))

  none_of_blocked :
      (pos : ℕ) → Occupied h pos × ¬ (HasHashes h key pos) → exist_look h key pos ≡ none
  none_of_blocked pos (used, other) = elim (exist-Occupied h key pos used) [
    | inl pass ↦ pass
    | inr (hashes, _) ↦ absurd (other hashes)
  ]

  look_outside : (pos : ℕ) → IsHashtable h → h.size ≤ pos → exist_look h key pos ≡ some outside
  look_outside pos w beyond = rw (bucket_beyond h.buckets pos (omega (arith, w.buckets))) refl

  outside_of_look : (pos : ℕ) → IsHashtable h → exist_look h key pos ≡ some outside → h.size ≤ pos
  outside_of_look pos w e = elim (Option-cases (bucket_at h.buckets pos)) [
    | inl nothing ↦ omega (arith, w.buckets, bucket_within h.buckets pos nothing)
    | inr (b, there) ↦ elim (Bool-cases b.exist) [
      | inr unused ↦ cc (rw unused at (rw there at e))
      | inl used ↦ elim (exist-Occupied h key pos (b, there, used)) [
        | inl pass ↦ cc
        | inr (_, at_pos) ↦ cc
      ]
    ]
  ]

  outside_of_course :
      (r : Probe)
      → IsHashtable h
      → h.size ≤ 1024
      → Course (exist_look h key) 1024 (start_of h key) 0 r
      → after_isexist r ≡ none
      → (h.size < 1024) × FullBehind
  outside_of_course _ w small (rounds before) e = cc
  outside_of_course _ w small (stops j (free x) lo hi before stop) e = cc
  outside_of_course _ w small (stops j (same x) lo hi before stop) e = cc
  outside_of_course _ w small (stops j outside lo hi before stop) e =
      let start : ℕ = start_of h key in
      let beyond : h.size ≤ circle 1024 start j = outside_of_look (circle 1024 start j) w stop in
      let inside : circle 1024 start j < 1024 = mod-lt (start + j) (omega arith) in
      let near : start < h.size = start-lt h key w in
      let far : h.size ≤ start + j = elim (dec_lt (start + j) 1024) [
        | yes less ↦ omega (arith, circle_near start j less)
        | no more ↦ omega arith
      ] in
      (
        omega arith,
        λ pos from below.
            let here : circle 1024 start (pos - start) ≡ pos =
              circle_near start (pos - start) (omega arith) ∙ omega arith in
            rw here at (
              blocked_of_none (circle 1024 start (pos - start))
                (before (pos - start) (omega arith) (omega arith))),
      )

  -- A search for a key in a table with its shape and at most MAXHASHTABLELEN buckets reads a bucket outside
  -- the array exactly when the table has fewer than MAXHASHTABLELEN buckets and every bucket from that of
  -- the hash of the key to the last one is in use by an item with other hashes. In all other cases it
  -- ends with its result.
  pub isexist-outside :
      IsHashtable h
      → h.size ≤ maxhashtablelen
      → (hashtable_isexist h key ≡ none) ↔ ((h.size < maxhashtablelen) × FullBehind)
  unfolding hashtable_isexist isexist_loop
  isexist-outside w small = (
    λ e. outside_of_course _ w small loop e,
    λ full.
        let behind : ℕ = h.size - start_of h key in
        let last : circle 1024 (start_of h key) behind ≡ h.size =
          circle_near (start_of h key) behind (omega (arith, full.0)) ∙ omega arith in
        ap after_isexist (
          course_ends (exist_look h key) 1024 (start_of h key) _ behind outside loop
            (omega (arith, full.0))
            (λ i from less.
              let here : circle 1024 (start_of h key) i ≡ start_of h key + i =
                circle_near (start_of h key) i (omega (arith, full.0)) in
              rw here (
                none_of_blocked (start_of h key + i)
                  (full.1 (start_of h key + i) (omega arith) (omega arith))))
            (rw last (look_outside h.size w (omega arith)))),
  )
    where
      near : start_of h key < h.size
      near = start-lt h key w

      loop : Course (exist_look h key) 1024 (start_of h key) 0 (isexist_loop h key)
      loop = course_of (exist_look h key) 1024 (start_of h key) (omega (arith, near))
