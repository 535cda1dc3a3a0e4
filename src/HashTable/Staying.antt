-- ===== src/HashTable/Staying.antt =====
-- Adding items one after the other to a table of MAXHASHTABLELEN buckets: what was found stays found.
use ostrichserver.Base.{
  ℕ, Bool, true, false, Bool-cases, List, [], ◌∷◌, Option, none, some, ◌≡◌, ◌⊎◌, inl, inr, refl,
  subst, ap, ◌∙◌,
}
use ostrichserver.HashTable.Hash.{hashstring}
use ostrichserver.HashTable.Table.{
  Hashitem, Hashtable, bucket_at, Stop, outside, free, same, Probe, ends, exist_stop, exist_look,
  start_of, after_isexist, hashtable_add, hashtable_isexist,
}
use ostrichserver.Base.Circle.{circle}
use ostrichserver.HashTable.Walk.{Passes, Course, stops, rounds}
use ostrichserver.HashTable.Adding.{
  Occupied, Unused, with_item, HasHashes, exist-Occupied, hashtable_add-Adds,
}
use ostrichserver.HashTable.Finding.{
  IsFullSize, loop_course, loop_ends, with_item-IsFullSize, used_stays, Found, add-Found,
}

found_stop : (a : Stop) (p : ℕ) → after_isexist (ends a) ≡ some (some p) → a ≡ same p
found_stop outside p e = cc
found_stop (free x) p e = cc
found_stop (same x) p e = cc

module _ {V : Type 0} where
  -- A bucket at which the search goes on or finds the key is in use.
  stop_in_use :
      (a b pos : ℕ) (o : Option (Hashitem V))
      → (exist_stop a b o pos ≡ none) ⊎ ((p : ℕ) × (exist_stop a b o pos ≡ some (same p)))
      → (item : Hashitem V) × (o ≡ some item) × (item.exist ≡ true)
  stop_in_use a b pos none (inl e) = cc
  stop_in_use a b pos none (inr (p, e)) = cc
  stop_in_use a b pos (some item) c = elim (Bool-cases item.exist) [
    | inl used ↦ (item, refl, used)
    | inr unused ↦ absurd (not_passed item unused c)
  ]
    where
      not_passed :
          (item : Hashitem V)
          → item.exist ≡ false
          → (exist_stop a b (some item) pos ≡ none)
            ⊎ ((p : ℕ) × (exist_stop a b (some item) pos ≡ some (same p)))
          → ⊥
      not_passed item unused (inl e) = cc (rw unused at e)
      not_passed item unused (inr (p, e)) = cc (rw unused at e)

  pub in_use :
      (h : Hashtable V) (key : List ℕ) (pos : ℕ)
      → (exist_look h key pos ≡ none) ⊎ ((p : ℕ) × (exist_look h key pos ≡ some (same p)))
      → Occupied h pos
  in_use h key pos c =
      stop_in_use (hashstring key 1) (hashstring key 2) pos (bucket_at h.buckets pos) c

  -- Filling an unused bucket changes nothing for a search at a bucket in use.
  look_stays :
      (h : Hashtable V) (pos i : ℕ) (key q : List ℕ) (v : V)
      → Unused h pos
      → Occupied h i
      → exist_look (with_item h pos key v) q i ≡ exist_look h q i
  look_stays h pos i key q v unused used = rw (used_stays h pos i key v unused used) refl

  stays_of_course :
      (h : Hashtable V) (key q : List ℕ) (v : V) (pos p : ℕ) (r : Probe)
      → IsFullSize h
      → Unused h pos
      → Course (exist_look h q) 1024 (start_of h q) 0 r
      → after_isexist r ≡ some (some p)
      → hashtable_isexist (with_item h pos key v) q ≡ some (some p)
  stays_of_course h key q v pos p _ full unused (rounds before) e = cc
  stays_of_course h key q v pos p _ full unused (stops j a lo hi before stop) e =
      let there : exist_look h q (circle 1024 (start_of h q) j) ≡ some (same p) =
        stop ∙ ap some (found_stop a p e) in
      let before' : Passes (exist_look (with_item h pos key v) q) 1024 (start_of h q) 0 j =
        λ i from less.
          look_stays h pos (circle 1024 (start_of h q) i) key q v unused
            (in_use h q (circle 1024 (start_of h q) i) (inl (before i from less)))
          ∙ before i from less in
      loop_ends (with_item h pos key v) q j (same p) (with_item-IsFullSize h pos key v full) hi
        before'
        (look_stays h pos (circle 1024 (start_of h q) j) key q v unused
            (in_use h q (circle 1024 (start_of h q) j) (inr (p, there)))
          ∙ there)

  -- A key that was found is found at the same bucket after another one was added.
  pub isexist_stays :
      (h : Hashtable V) (key q : List ℕ) (v : V) (pos p : ℕ)
      → IsFullSize h
      → Unused h pos
      → hashtable_isexist h q ≡ some (some p)
      → hashtable_isexist (with_item h pos key v) q ≡ some (some p)
  unfolding hashtable_isexist
  isexist_stays h key q v pos p full unused e =
      unfold hashtable_isexist in
      stays_of_course h key q v pos p _ full unused (loop_course h q full) e

  hashes_of_course :
      (h : Hashtable V) (q : List ℕ) (p : ℕ) (r : Probe)
      → Course (exist_look h q) 1024 (start_of h q) 0 r
      → after_isexist r ≡ some (some p)
      → HasHashes h q p
  hashes_of_course h q p _ (rounds before) e = cc
  hashes_of_course h q p _ (stops j a lo hi before stop) e =
      let x : ℕ = circle 1024 (start_of h q) j in
      let there : exist_look h q x ≡ some (same p) = stop ∙ ap some (found_stop a p e) in
      elim (exist-Occupied h q x (in_use h q x (inr (p, there)))) [
        | inl pass ↦ cc
        | inr (hashes, at_x) ↦ subst (HasHashes h q) (cc) hashes
      ]

  -- The bucket that a search gives has the hashes of the key.
  pub isexist-HasHashes :
      (h : Hashtable V) (q : List ℕ) (p : ℕ)
      → IsFullSize h
      → hashtable_isexist h q ≡ some (some p)
      → HasHashes h q p
  isexist-HasHashes h q p full e =
      unfold hashtable_isexist in hashes_of_course h q p _ (loop_course h q full) e

  abbrev pub add_next :
      Option (Hashtable V × Bool) → (Hashtable V → Option (Hashtable V)) → Option (Hashtable V)
  add_next none f = none
  add_next (some (h, true)) f = f h
  add_next (some (h, false)) f = none

  -- Items added one after the other; `none` if a call reads outside the array or returns 0.
  unfoldable pub add_all : Hashtable V → List (List ℕ × V) → Option (Hashtable V)
  add_all h [] = some h
  add_all h ((key, v) ∷ items) = add_next (hashtable_add h key v) (λ h'. add_all h' items)

  -- every key of the items is found
  abbrev pub AllFound : Hashtable V → List (List ℕ × V) → Type 0
  AllFound h [] = Unit
  AllFound h ((key, v) ∷ items) = Found h key × AllFound h items

  -- What is found in `h` is found in `h'`, at the same bucket.
  abbrev pub KeepsFound : Hashtable V → Hashtable V → Type 0
  KeepsFound h h' =
      (q : List ℕ) (p : ℕ)
      → hashtable_isexist h q ≡ some (some p)
      → hashtable_isexist h' q ≡ some (some p)

  add_all_from :
      (h h' : Hashtable V) (items : List (List ℕ × V))
      → IsFullSize h
      → add_all h items ≡ some h'
      → AllFound h' items × KeepsFound h h' × IsFullSize h'
  unfolding add_all
  add_all_from h h' [] full e =
      let same_table : h ≡ h' = cc in
      (tt, λ q p found. rw (← same_table) found, subst IsFullSize same_table full)
  add_all_from h h' ((key, v) ∷ items) full e = elim (hashtable_add-Adds h key v full.0) [
    | inr (_, no_room) ↦ cc (rw no_room at e)
    | inl (pos, u, added) ↦
        let (rest, keeps, full') =
          add_all_from (with_item h pos key v) h' items (with_item-IsFullSize h pos key v full)
            (rw added at e) in
        let (p, found, _) = add-Found h key v pos full u in
        (
          ((p, keeps key p found, isexist-HasHashes h' key p full' (keeps key p found)), rest),
          λ q p' found'. keeps q p' (isexist_stays h key q v pos p' full u.unused found'),
          full',
        )
  ]

  -- In a table with its shape and MAXHASHTABLELEN buckets, items are added one after the other and every
  -- call of `hashtable_add` returns 1. Then `hashtable_isexist` finds each of the keys, at a bucket with
  -- the two hashes of the key, and every key found before is found at the bucket where it was.
  pub add_all-AllFound :
      (h h' : Hashtable V) (items : List (List ℕ × V))
      → IsFullSize h
      → add_all h items ≡ some h'
      → AllFound h' items × KeepsFound h h'
  add_all-AllFound h h' items full e =
      let (found, keeps, _) = add_all_from h h' items full e in (found, keeps)
