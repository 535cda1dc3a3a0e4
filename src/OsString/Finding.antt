-- ===== src/OsString/Finding.antt =====
-- What the searches find: the first place where the word stands.
use ostrichserver.Base.{
  ℕ, zero, suc, ◌+◌, ◌-◌, ◌<◌, ◌≡◌, refl, ap, ◌∙◌, inl, inr, Bool, true, false, ◌&&◌, Option, none,
  some, List, [], ◌∷◌, arith, length, drop, ◌==◌, Bool-cases,
}
use ostrichserver.OsString.Search.{same_start, strstrn_loop, os_strstrn}

-- `w` stands at the start of `s`.
unfoldable pub starts_with : List ℕ → List ℕ → Bool
starts_with [] s = true
starts_with (c ∷ w) [] = false
starts_with (c ∷ w) (x ∷ s) = x == c && starts_with w s

-- No byte is NUL.
abbrev pub IsText : List ℕ → Type 0
IsText [] = Unit
IsText (c ∷ s) = (0 < c) × IsText s

same_start-eq : (s w : List ℕ) → IsText w → same_start s w (length w) ≡ starts_with w s
unfolding same_start starts_with
same_start-eq s [] t = refl
same_start-eq [] (c ∷ w) t = ground arith
same_start-eq (x ∷ s) (c ∷ w) t = ground (arith, same_start-eq s w t.1)

-- `o` is the first place of `w` in `s`, if there is one.
abbrev pub FirstAt : List ℕ → List ℕ → Option ℕ → Type 0
FirstAt w s none = (p : ℕ) → starts_with w (drop p s) ≡ false
FirstAt w s (some p) =
    (starts_with w (drop p s) ≡ true) × ((q : ℕ) → q < p → starts_with w (drop q s) ≡ false)

abbrev shifted : ℕ → Option ℕ → Option ℕ
shifted at none = none
shifted at (some p) = some (at + p)

abbrev later : Option ℕ → Option ℕ
later none = none
later (some p) = some (suc p)

later-FirstAt :
    (w : List ℕ) (x : ℕ) (s : List ℕ) (o : Option ℕ)
    → starts_with w (x ∷ s) ≡ false
    → FirstAt w s o
    → FirstAt w (x ∷ s) (later o)
later-FirstAt w x s none e f =
    λ p. elim p as (λ k. starts_with w (drop k (x ∷ s)) ≡ false) [ zero ↦ e | suc k ↦ f k ]
later-FirstAt w x s (some p) e f = (
  f.0,
  λ q. elim q as (λ k. k < suc p → starts_with w (drop k (x ∷ s)) ≡ false) [
    | zero ↦ λ h. e
    | suc k ↦ λ h. f.1 k (omega arith)
  ],
)

shifted-later : (at : ℕ) (o : Option ℕ) → shifted (at + 1) o ≡ shifted at (later o)
shifted-later at none = refl
shifted-later at (some p) = ap some (omega arith)

nowhere_in_nothing : (c : ℕ) (w : List ℕ) (p : ℕ) → starts_with (c ∷ w) (drop p []) ≡ false
unfolding starts_with
nowhere_in_nothing c w zero = refl
nowhere_in_nothing c w (suc p) = refl

-- the test of the outer loop
pub test-eq :
    (x c : ℕ) (s w : List ℕ)
    → IsText w
    → (x == c && same_start s w (length w)) ≡ starts_with (c ∷ w) (x ∷ s)
unfolding starts_with
test-eq x c s w t = rw (same_start-eq s w t)

strstrn_loop-FirstAt :
    (s : List ℕ) (at c : ℕ) (w : List ℕ)
    → IsText s
    → IsText w
    → (o : Option ℕ) × (strstrn_loop s at c w (length w) ≡ shifted at o) × FirstAt (c ∷ w) s o
unfolding strstrn_loop
strstrn_loop-FirstAt [] at c w ts tw = (none, refl, nowhere_in_nothing c w)
strstrn_loop-FirstAt (x ∷ s) at c w ts tw =
    let not_end : (x == 0) ≡ false = ground arith in
    elim (Bool-cases (starts_with (c ∷ w) (x ∷ s))) [
      | inl here ↦ (
        some 0,
        rw not_end (rw (test-eq x c s w tw) (rw here (ap some (omega arith)))),
        (here, λ q h. absurd (omega (arith, h))),
      )
      | inr away ↦
          let (o, run, found) = strstrn_loop-FirstAt s (at + 1) c w ts.1 tw in
          (
            later o,
            rw not_end (rw (test-eq x c s w tw) (rw away (run ∙ shifted-later at o))),
            later-FirstAt (c ∷ w) x s o away found,
          )
    ]

shifted_zero : (o : Option ℕ) → shifted 0 o ≡ o
shifted_zero none = refl
shifted_zero (some p) = ap some (omega arith)

-- `os_strstrn`, called with the length of its word less one as all its callers do, returns the distance
-- of the first place where the word stands, and NULL exactly when the word stands nowhere. The word is
-- not empty, and no byte of the string or the word is NUL.
pub os_strstrn-FirstAt :
    (s : List ℕ) (c : ℕ) (w : List ℕ)
    → IsText s
    → IsText (c ∷ w)
    → FirstAt (c ∷ w) s (os_strstrn s (c ∷ w) (length (c ∷ w) - 1))
unfolding os_strstrn
os_strstrn-FirstAt s c w ts tw =
    let (o, run, found) = strstrn_loop-FirstAt s 0 c w ts tw.1 in
    let n : length (c ∷ w) - 1 ≡ length w = omega arith in rw n (rw (run ∙ shifted_zero o) found)
