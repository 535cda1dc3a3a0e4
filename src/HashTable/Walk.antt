-- ===== src/HashTable/Walk.antt =====
-- A loop round the buckets: which buckets it looks at before it ends.
use native.Mathlib.Decide.{dec_lt, ℕ_discrete}
use ostrichserver.Base.{
  ℕ, zero, suc, ◌+◌, ◌%◌, ◌<◌, ◌≤◌, true, false, Option, none, some, ◌≡◌, inl, inr, ap, ◌∙◌, arith,
  ◌==◌, ==_iff, Option-cases,
}
use ostrichserver.Base.Circle.{circle, circle_next, circle_back, circle_ne, circle_start}
use ostrichserver.HashTable.Table.{Stop, Probe, round, ends, probe}

module _ (look : ℕ → Option Stop) (m start : ℕ) where
  -- From its place `k` on the loop passes over all places before `j`, or over all that there are.
  abbrev pub Passes : ℕ → ℕ → Type 0
  Passes k j = (i : ℕ) → k ≤ i → i < j → look (circle m start i) ≡ none

  pub data Course : ℕ → Probe → Type 0 where
    stops :
        {k : ℕ} (j : ℕ) (a : Stop)
        → k ≤ j
        → j < m
        → Passes k j
        → look (circle m start j) ≡ some a
        → Course k (ends a)
    rounds : {k : ℕ} → Passes k m → Course k round

  pass : (k j : ℕ) → look (circle m start k) ≡ none → Passes (k + 1) j → Passes k j
  pass k j here later i lo hi = elim (ℕ_discrete i k) [
    | yes e ↦ rw e here
    | no ne ↦ later i (omega arith) hi
  ]

  longer : (k : ℕ) (r : Probe) → look (circle m start k) ≡ none → Course (k + 1) r → Course k r
  longer k r here (stops j a lo hi before there) =
      stops j a (omega arith) hi (pass k j here before) there
  longer k r here (rounds before) = rounds (pass k m here before)

  course_from :
      (fuel k : ℕ)
      → start < m
      → k + fuel ≡ m
      → 0 < fuel
      → Course k (probe look m start fuel (circle m start k))
  unfolding probe
  course_from zero k hs e h = absurd (omega arith)
  course_from (suc fuel) k hs e h = elim (Option-cases (look (circle m start k))) [
    | inr (a, there) ↦
        rw (there, probe)
          (stops k a (omega arith) (omega arith) (λ i lo hi. absurd (omega arith)) there)
    | inl none_there ↦ elim (ℕ_discrete fuel 0) [
      | yes last ↦
          let back : (((circle m start k + 1) % m) == start) ≡ true =
            (==_iff ((circle m start k + 1) % m) start).1 (
              circle_next m start k ∙ ap (circle m start) (omega arith) ∙ circle_back m start hs) in
          rw (none_there, probe)
            (rw back (
              rounds (
                pass k m none_there
                  (λ (i : ℕ) (lo : k + 1 ≤ i) (hi : i < m). absurd (omega arith)))))
      | no more ↦
          let away : (((circle m start k + 1) % m) == start) ≡ false = ground (
            arith,
            circle_next m start k,
            circle_ne m start (k + 1) hs (omega arith) (omega arith),
          ) in
          rw (none_there, probe)
            (rw away (
              rw (circle_next m start k)
                (longer k _ none_there (course_from fuel (k + 1) hs (omega arith) (omega arith)))))
    ]
  ]

  -- The loop over `m` buckets ends, and this is its course.
  pub course_of : start < m → Course 0 (probe look m start m start)
  course_of hs = rw (circle_start m start hs) at (course_from m 0 hs (omega arith) (omega arith))

  -- A bucket at which the loop stops, behind buckets that it passes over, is where it ends.
  pub course_ends :
      (r : Probe) (j : ℕ) (a : Stop)
      → Course 0 r
      → j < m
      → Passes 0 j
      → look (circle m start j) ≡ some a
      → r ≡ ends a
  course_ends _ j a (stops j' a' lo' hi' before' there') hi before there = elim (ℕ_discrete j j') [
    | yes e ↦ cc (ap (λ (n : ℕ). look (circle m start n)) e)
    | no ne ↦ elim (dec_lt j j') [
      | yes less ↦ cc (before' j (omega arith) less)
      | no more ↦ cc (before j' (omega arith) (omega arith))
    ]
  ]
  course_ends _ j a (rounds before') hi before there = cc (before' j (omega arith) hi)
