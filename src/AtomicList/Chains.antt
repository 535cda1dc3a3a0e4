-- ===== src/AtomicList/Chains.antt =====
-- Chains of events in memory, each event in one place.
use ostrichserver.Base.{ℕ, ◌≡◌, ap, ◌∙◌, ◌≢◌, List, [], ◌∷◌, arith}
use ostrichserver.AtomicList.System.{update}

-- Where an event is: not yet in use, held by the producer `i`, on the shared list, taken from it but not
-- yet collected, on the owner's own queue, or processed.
pub data Place : Type 0 where
  fresh : Place
  held : ℕ → Place
  queued : Place
  taken : Place
  local : Place
  done : Place

abbrev pub NotIn : ℕ → List ℕ → Type 0
NotIn e [] = Unit
NotIn e (x ∷ xs) = (e ≢ x) × NotIn e xs

-- From `a` the pointers `next` lead through the distinct events `xs`, all in the place `p`, to NULL.
abbrev pub Chain : (ℕ → ℕ) → (ℕ → Place) → Place → ℕ → List ℕ → Type 0
Chain next place p a [] = a ≡ 0
Chain next place p a (x ∷ xs) =
    (a ≡ x) × (x ≢ 0) × (place x ≡ p) × NotIn x xs × Chain next place p (next x) xs

pub NotIn-elsewhere :
    (next : ℕ → ℕ) (place : ℕ → Place) (p : Place) (a e : ℕ) (xs : List ℕ)
    → Chain next place p a xs
    → place e ≢ p
    → NotIn e xs
NotIn-elsewhere next place p a e [] c h = tt
NotIn-elsewhere next place p a e (x ∷ xs) c h =
    (λ same. h (rw same c.2), NotIn-elsewhere next place p (next x) e xs c.4 h)

pub update_ne : {A : Type 0} (f : ℕ → A) (e : ℕ) (v : A) (x : ℕ) → e ≢ x → update f e v x ≡ f x
update_ne f e v x h = ground arith

pub update_self : {A : Type 0} (f : ℕ → A) (e : ℕ) (v : A) → update f e v e ≡ v
update_self f e v = ground arith

-- A chain survives what happens to an event that is not on it.
pub chain_frame_next :
    (next : ℕ → ℕ) (place : ℕ → Place) (p : Place) (a : ℕ) (xs : List ℕ) (e v : ℕ)
    → NotIn e xs
    → Chain next place p a xs
    → Chain (update next e v) place p a xs
chain_frame_next next place p a [] e v n c = c
chain_frame_next next place p a (x ∷ xs) e v n c = (
  c.0,
  c.1,
  c.2,
  c.3,
  rw (update_ne next e v x n.0) (chain_frame_next next place p (next x) xs e v n.1 c.4),
)

pub chain_frame_place :
    (next : ℕ → ℕ) (place : ℕ → Place) (p q : Place) (a : ℕ) (xs : List ℕ) (e : ℕ)
    → NotIn e xs
    → Chain next place p a xs
    → Chain next (update place e q) p a xs
chain_frame_place next place p q a [] e n c = c
chain_frame_place next place p q a (x ∷ xs) e n c = (
  c.0,
  c.1,
  update_ne place e q x n.0 ∙ c.2,
  c.3,
  chain_frame_place next place p q (next x) xs e n.1 c.4,
)

-- All events of the place `p` go to the place `f p`.
pub chain_map :
    (f : Place → Place) (next : ℕ → ℕ) (place : ℕ → Place) (p : Place) (a : ℕ) (xs : List ℕ)
    → Chain next place p a xs
    → Chain next (λ x. f (place x)) (f p) a xs
chain_map f next place p a [] c = c
chain_map f next place p a (x ∷ xs) c =
    (c.0, c.1, ap f c.2, c.3, chain_map f next place p (next x) xs c.4)
