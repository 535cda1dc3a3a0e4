-- ===== src/Config/Cutting.antt =====
-- What `strtok_r` cuts where a delimiter stands behind a word.
use ostrichserver.Base.{ℕ, true, false, List, [], ◌∷◌, ◌++◌, ◌≡◌, refl, ap}
use ostrichserver.Config.Tokens.{among, delimiters, behind, before, after}

-- No byte of a string is one of the delimiters.
abbrev pub Free : List ℕ → List ℕ → Type 0
Free ds [] = Unit
Free ds (c ∷ s) = (among ds c ≡ false) × Free ds s

module _ (ds : List ℕ) where
  pub before-Free :
      (w s : List ℕ) (d : ℕ) → Free ds w → among ds d ≡ true → before ds (w ++ d ∷ s) ≡ w
  unfolding before
  before-Free [] s d f h = rw h refl
  before-Free (c ∷ w) s d f h = rw f.0 (ap (λ x. c ∷ x) (before-Free w s d f.1 h))

  pub after-Free :
      (w s : List ℕ) (d : ℕ) → Free ds w → among ds d ≡ true → after ds (w ++ d ∷ s) ≡ s
  unfolding after
  after-Free [] s d f h = rw h refl
  after-Free (c ∷ w) s d f h = rw f.0 (after-Free w s d f.1 h)

  pub before-all : (w : List ℕ) → Free ds w → before ds w ≡ w
  unfolding before
  before-all [] f = refl
  before-all (c ∷ w) f = rw f.0 (ap (λ x. c ∷ x) (before-all w f.1))

  pub after-all : (w : List ℕ) → Free ds w → after ds w ≡ []
  unfolding after
  after-all [] f = refl
  after-all (c ∷ w) f = rw f.0 (after-all w f.1)

  pub behind-head : (c : ℕ) (w : List ℕ) → among ds c ≡ false → behind ds (c ∷ w) ≡ c ∷ w
  unfolding behind
  behind-head c w h = rw h refl

  pub delimiters-head : (c : ℕ) (w : List ℕ) → among ds c ≡ false → delimiters ds (c ∷ w) ≡ []
  unfolding delimiters
  delimiters-head c w h = rw h refl

  pub Free-append : (v w : List ℕ) → Free ds v → Free ds w → Free ds (v ++ w)
  Free-append [] w f g = g
  Free-append (c ∷ v) w f g = (f.0, Free-append v w f.1 g)
