-- ===== src/AtomicList/Progress.antt =====
-- What a thread reaches when it runs alone from any state.
use native.Mathlib.Decide.{ℕ_discrete}
use ostrichserver.Base.{ℕ, suc, ◌≤◌, ◌≡◌, refl, ◌≢◌, ◌⊎◌, inl, inr, [], ◌∷◌, ◌++◌, arith}
use ostrichserver.AtomicList.Word.{al_pointer, al_version, set_pointer_version}
use ostrichserver.AtomicList.System.{
  Pc, idle, loading, linking, swapping, Shared, Produce, load, set_next, swap, swap_fails, update,
}
use ostrichserver.AtomicList.Chains.{update_self}

-- `n` steps of one producer
pub data Produces (i : ℕ) : ℕ → Shared → Shared → Type 0 where
  stop : {s : Shared} → Produces i 0 s s
  more : {n : ℕ} {s t u : Shared} → Produce i s t → Produces i n t u → Produces i (suc n) s u

-- `n` steps of the producer alone put its event on the list and bring it back to idle.
abbrev pub Completes : ℕ → Shared → ℕ → ℕ → Type 0
Completes i s e n =
    (t : Shared) × Produces i n s t × (t.pc i ≡ idle) × (t.pushed ≡ s.pushed ++ e ∷ [])

from_swap : (i : ℕ) (s : Shared) (e w : ℕ) → s.pc i ≡ swapping e w → s.head ≡ w → Completes i s e 1
from_swap i s e w at unchanged = (
  record s {
    head = set_pointer_version e (al_version w);
    pc = update s.pc i idle;
    pushed = s.pushed ++ e ∷ [];
  },
  more (swap e w at unchanged) stop,
  update_self s.pc i idle,
  refl,
)

from_link : (i : ℕ) (s : Shared) (e w : ℕ) → s.pc i ≡ linking e w → s.head ≡ w → Completes i s e 2
from_link i s e w at unchanged =
    let s' = record s {
      next = update s.next e (al_pointer w);
      pc = update s.pc i (swapping e w);
    } in
    let (t, run, ended, done) = from_swap i s' e w (update_self s.pc i (swapping e w)) unchanged in
    (t, more (set_next e w at) run, ended, done)

from_load : (i : ℕ) (s : Shared) (e : ℕ) → s.pc i ≡ loading e → Completes i s e 3
from_load i s e at =
    let s' = record s { pc = update s.pc i (linking e s.head) } in
    let (t, run, ended, done) =
      from_link i s' e s.head (update_self s.pc i (linking e s.head)) refl in
    (t, more (load e at) run, ended, done)

retry : (i : ℕ) (s : Shared) (e w : ℕ) → s.pc i ≡ swapping e w → s.head ≢ w → Completes i s e 4
retry i s e w at changed =
    let s' = record s { pc = update s.pc i (loading e) } in
    let (t, run, ended, done) = from_load i s' e (update_self s.pc i (loading e)) in
    (t, more (swap_fails e w at changed) run, ended, done)

-- The event of a producer that is under way.
abbrev pub Pushing : Pc → ℕ → Type 0
Pushing q e = (q ≡ loading e) ⊎ (((w : ℕ) × (q ≡ linking e w)) ⊎ ((w : ℕ) × (q ≡ swapping e w)))

-- A push always gets through. From any state at all, a producer that is anywhere in `atomic_list_push`
-- and runs without interference ends the call within five steps, its event the last one pushed; a
-- compare-and-swap that fails is tried again at most once.
pub push-Completes :
    (i : ℕ) (s : Shared) (e : ℕ) → Pushing (s.pc i) e → (n : ℕ) × (n ≤ 5) × Completes i s e n
push-Completes i s e (inl at) = (3, omega arith, from_load i s e at)
push-Completes i s e (inr (inl (w, at))) = elim (ℕ_discrete s.head w) [
  | yes same ↦ (2, omega arith, from_link i s e w at same)
  | no changed ↦
      let s' = record s {
        next = update s.next e (al_pointer w);
        pc = update s.pc i (swapping e w);
      } in
      let (t, run, ended, done) = retry i s' e w (update_self s.pc i (swapping e w)) changed in
      (5, omega arith, (t, more (set_next e w at) run, ended, done))
]
push-Completes i s e (inr (inr (w, at))) = elim (ℕ_discrete s.head w) [
  | yes same ↦ (1, omega arith, from_swap i s e w at same)
  | no changed ↦ (4, omega arith, retry i s e w at changed)
]
