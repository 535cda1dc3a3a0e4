-- ===== src/EventLoop/Order.antt =====
-- In which order a turn takes the events of its queues, and how often each of them.
use ostrichserver.Base.{
  ℕ, ◌+◌, ◌≤◌, true, false, List, [], ◌∷◌, ◌++◌, ◌≡◌, ◌⊎◌, arith, if◌then◌else◌, inl, inr, length,
  Bool-cases,
}
use ostrichserver.EventLoop.Thread.{Event}
use ostrichserver.EventLoop.Queued.{occurs}

-- Events put in front of a queue one after the other.
abbrev pub put_onto : List ℕ → List ℕ → List ℕ
put_onto [] qs = qs
put_onto (x ∷ xs) qs = put_onto xs (x ∷ qs)

module _ (events : ℕ → Event) where
  -- those that are processed at once
  unfoldable pub prompt : List ℕ → List ℕ
  prompt [] = []
  prompt (x ∷ xs) = let rest = prompt xs in if (events x).idle then rest else x ∷ rest

  -- the postponed queue once the idle ones have been put in front of it
  unfoldable pub postponed_by : List ℕ → List ℕ → List ℕ
  postponed_by [] ys = ys
  postponed_by (x ∷ xs) ys = postponed_by xs (if (events x).idle then x ∷ ys else ys)

  -- a queue once those that are to be done again have been put in front of it
  unfoldable pub again : List ℕ → List ℕ → List ℕ
  again [] qs = qs
  again (y ∷ ys) qs = again ys (if (events y).redo then y ∷ qs else qs)

  -- An event that a turn can process without filing it and without going on for ever: it is idle, or it has
  -- no timeout and is not to be done again.
  abbrev pub Plain : List ℕ → Type 0
  Plain [] = Unit
  Plain (x ∷ xs) =
      (((events x).idle ≡ true)
        ⊎ (((events x).idle ≡ false) × ((events x).timeout ≡ 0) × ((events x).redo ≡ false)))
      × Plain xs

pub occurs-put_onto :
    (e : ℕ) (xs qs : List ℕ) → occurs e (put_onto xs qs) ≡ occurs e xs + occurs e qs
occurs-put_onto e [] qs = omega arith
occurs-put_onto e (x ∷ xs) qs = omega (arith, occurs-put_onto e xs (x ∷ qs))

pub occurs-append : (e : ℕ) (xs ys : List ℕ) → occurs e (xs ++ ys) ≡ occurs e xs + occurs e ys
occurs-append e [] ys = omega arith
occurs-append e (x ∷ xs) ys = omega (arith, occurs-append e xs ys)

module _ (events : ℕ → Event) where
  -- Each event of a queue is processed at once or postponed.
  pub occurs-prompt :
      (e : ℕ) (xs ys : List ℕ)
      → occurs e (prompt events xs) + occurs e (postponed_by events xs ys)
        ≡ occurs e xs + occurs e ys
  unfolding prompt postponed_by
  occurs-prompt e [] ys = omega arith
  occurs-prompt e (x ∷ xs) ys = elim (Bool-cases (events x).idle) [
    | inl lazy ↦ rw lazy (omega (arith, occurs-prompt e xs (x ∷ ys)))
    | inr now ↦ rw now (omega (arith, occurs-prompt e xs ys))
  ]

  -- An event that is to be done again is queued as often as it was processed, any other not at all.
  pub occurs-again :
      (e : ℕ) (ys qs : List ℕ)
      → occurs e (again events ys qs) ≡ (if (events e).redo then occurs e ys else 0) + occurs e qs
  unfolding again
  occurs-again e [] qs = ground arith
  occurs-again e (y ∷ ys) qs =
      ground (arith, occurs-again e ys (if (events y).redo then y ∷ qs else qs))

  pub length-postponed_by :
      (xs ys : List ℕ) → length (postponed_by events xs ys) ≤ length xs + length ys
  unfolding postponed_by
  length-postponed_by [] ys = omega arith
  length-postponed_by (x ∷ xs) ys = elim (Bool-cases (events x).idle) [
    | inl lazy ↦ rw lazy (omega (arith, length-postponed_by xs (x ∷ ys)))
    | inr now ↦ rw now (omega (arith, length-postponed_by xs ys))
  ]
