-- ===== src/AtomicList/Invariant.antt =====
-- What holds in every state of the threads.
use native.Mathlib.Decide.{ℕ_discrete}
use mathlib.Core.List.{reverse}
use ostrichserver.Base.{ℕ, ◌≡◌, refl, subst, ◌∙◌, ◌≢◌, false, List, [], ◌++◌}
use ostrichserver.AtomicList.Word.{al_pointer, null-pointer, IsAddress}
use ostrichserver.AtomicList.System.{
  Pc, idle, loading, linking, swapping, Taker, working, fetching, emptying, collecting, Shared,
  initial, update,
}
use ostrichserver.AtomicList.Chains.{
  Place, fresh, held, queued, taken, local, Chain, update_self, update_ne,
}

abbrev pub Holds : (ℕ → Place) → ℕ → ℕ → Type 0
Holds place i e = (place e ≡ held i) × IsAddress e

-- What a producer has of its event.
abbrev pub ProducerInv : (ℕ → ℕ) → (ℕ → Place) → ℕ → Pc → Type 0
ProducerInv next place i idle = Unit
ProducerInv next place i (loading e) = Holds place i e
ProducerInv next place i (linking e w) = Holds place i e
ProducerInv next place i (swapping e w) = Holds place i e × (next e ≡ al_pointer w)

-- The events `zs` that the owner has taken and still has to collect, before those in `loc`.
abbrev pub TakerInv : (ℕ → ℕ) → (ℕ → Place) → Taker → List ℕ → List ℕ → Type 0
TakerInv next place working zs loc = zs ≡ []
TakerInv next place fetching zs loc = (zs ≡ []) × (loc ≡ [])
TakerInv next place (emptying w) zs loc = (zs ≡ []) × (loc ≡ [])
TakerInv next place (collecting e) zs loc = Chain next place taken e zs

-- The events on the shared list, those taken and those collected are chains; producers hold their own
-- events; and the events pushed are those processed, then those collected, then those taken, then those
-- on the shared list, each in the order in which they were pushed.
pub record Inv (s : Shared) : Type 0 where
  pub place : ℕ → Place
  pub ext : List ℕ
  pub zs : List ℕ
  pub loc : List ℕ
  pub on_list : Chain s.next place queued (al_pointer s.head) ext
  pub on_link : Chain s.next place local s.link loc
  pub taker : TakerInv s.next place s.taker zs loc
  pub producers : (i : ℕ) → ProducerInv s.next place i (s.pc i)
  pub unused : (e : ℕ) → s.started e ≡ false → place e ≡ fresh
  pub order : s.pushed ≡ s.processed ++ ((reverse zs ++ loc) ++ reverse ext)

pub initial-Inv : Inv initial
initial-Inv = record {
  place = λ e. fresh;
  ext = [];
  zs = [];
  loc = [];
  on_list = null-pointer 0;
  on_link = refl;
  taker = refl;
  producers = λ i. tt;
  unused = λ e h. refl;
  order = refl;
}

-- `next'` and `place'` are as `next` and `place` for the events that the producer `j` holds.
abbrev pub Agree : (ℕ → ℕ) → (ℕ → Place) → (ℕ → ℕ) → (ℕ → Place) → ℕ → Type 0
Agree next place next' place' j =
    (e : ℕ) → place e ≡ held j → (next' e ≡ next e) × (place' e ≡ place e)

pub producer_frame :
    (next : ℕ → ℕ) (place : ℕ → Place) (next' : ℕ → ℕ) (place' : ℕ → Place) (j : ℕ) (q : Pc)
    → Agree next place next' place' j
    → ProducerInv next place j q
    → ProducerInv next' place' j q
producer_frame next place next' place' j idle a h = tt
producer_frame next place next' place' j (loading e) a h = ((a e h.0).1 ∙ h.0, h.1)
producer_frame next place next' place' j (linking e w) a h = ((a e h.0).1 ∙ h.0, h.1)
producer_frame next place next' place' j (swapping e w) a h =
    (((a e h.0.0).1 ∙ h.0.0, h.0.1), (a e h.0.0).0 ∙ h.1)

-- The producer `i` goes on to `q`, and the others keep what they have.
pub producers_update :
    (next : ℕ → ℕ) (place : ℕ → Place) (next' : ℕ → ℕ) (place' : ℕ → Place) (pc : ℕ → Pc) (i : ℕ)
    (q : Pc)
    → ((j : ℕ) → ProducerInv next place j (pc j))
    → ((j : ℕ) → i ≢ j → Agree next place next' place' j)
    → ProducerInv next' place' i q
    → (j : ℕ) → ProducerInv next' place' j (update pc i q j)
producers_update next place next' place' pc i q old agree new j = elim (ℕ_discrete i j) [
  | yes same ↦
      subst (λ k. ProducerInv next' place' k (update pc i q k)) same (rw (update_self pc i q) new)
  | no other ↦
      rw (update_ne pc i q j other)
        (producer_frame next place next' place' j (pc j) (agree j other) (old j))
]

pub Agree-same : (next : ℕ → ℕ) (place : ℕ → Place) (j : ℕ) → Agree next place next place j
Agree-same next place j = λ e h. (refl, refl)
