-- ===== src/AtomicList/Fifo.antt =====
-- What the invariant says of every run.
use mathlib.Core.List.{reverse, append-nil}
use ostrichserver.Base.{ℕ, ◌≡◌, ◌≢◌, sym, ap, subst, ◌∙◌, List, [], ◌∷◌, ◌++◌}
use ostrichserver.AtomicList.Word.{al_pointer}
use ostrichserver.AtomicList.System.{
  Taker, working, fetching, emptying, collecting, Shared, produce, consume, Reach, begin, after,
}
use ostrichserver.AtomicList.Chains.{Place, queued, taken, local, Chain}
use ostrichserver.AtomicList.Invariant.{Inv, initial-Inv, TakerInv}
use ostrichserver.AtomicList.Producing.{Produce-Inv}
use ostrichserver.AtomicList.Consuming.{Consume-Inv, link_empty}

pub Reach-Inv : {s : Shared} → Reach s → Inv s
Reach-Inv begin = initial-Inv
Reach-Inv (after {s} r (produce i p)) = Produce-Inv i s p (Reach-Inv r)
Reach-Inv (after {s} r (consume c)) = Consume-Inv s c (Reach-Inv r)

-- From `a` the pointers `next` lead through the events `xs` to NULL.
abbrev pub Follows : (ℕ → ℕ) → ℕ → List ℕ → Type 0
Follows next a [] = a ≡ 0
Follows next a (x ∷ xs) = (a ≡ x) × (x ≢ 0) × Follows next (next x) xs

-- The events that the owner has taken from the shared list and not collected yet.
abbrev pub Taken : (ℕ → ℕ) → Taker → List ℕ → Type 0
Taken next working xs = xs ≡ []
Taken next fetching xs = xs ≡ []
Taken next (emptying w) xs = xs ≡ []
Taken next (collecting e) xs = Follows next e xs

-- The events that wait, as they stand in memory: on the shared list, on the queue of the owner, and between
-- the two.
pub record Waiting (s : Shared) : Type 0 where
  pub listed : List ℕ
  pub collected : List ℕ
  pub taken : List ℕ
  pub on_list : Follows s.next (al_pointer s.head) listed
  pub on_link : Follows s.next s.link collected
  pub between : Taken s.next s.taker taken

-- in the order in which the owner comes to process them
abbrev pub waiting : {s : Shared} → Waiting s → List ℕ
waiting w = (reverse w.taken ++ w.collected) ++ reverse w.listed

Chain-Follows :
    (next : ℕ → ℕ) (place : ℕ → Place) (p : Place) (a : ℕ) (xs : List ℕ)
    → Chain next place p a xs
    → Follows next a xs
Chain-Follows next place p a [] c = c
Chain-Follows next place p a (x ∷ xs) c = (c.0, c.1, Chain-Follows next place p (next x) xs c.4)

TakerInv-Taken :
    (next : ℕ → ℕ) (place : ℕ → Place) (t : Taker) (zs loc : List ℕ)
    → TakerInv next place t zs loc
    → Taken next t zs
TakerInv-Taken next place working zs loc v = v
TakerInv-Taken next place fetching zs loc v = v.0
TakerInv-Taken next place (emptying w) zs loc v = v.0
TakerInv-Taken next place (collecting e) zs loc v = Chain-Follows next place taken e zs v

Inv-Waiting : {s : Shared} → Inv s → (w : Waiting s) × (s.pushed ≡ s.processed ++ waiting w)
Inv-Waiting {s} v = (
  record {
    listed = v.ext;
    collected = v.loc;
    taken = v.zs;
    on_list = Chain-Follows s.next v.place queued (al_pointer s.head) v.ext v.on_list;
    on_link = Chain-Follows s.next v.place local s.link v.loc v.on_link;
    between = TakerInv-Taken s.next v.place s.taker v.zs v.loc v.taker;
  },
  v.order,
)

-- Whatever the interleaving, what was pushed is what the owner has come to process, followed by what still
-- waits in memory: the events that it has taken from the shared list, turned round, behind them those on
-- its own queue, and behind them those on the shared list, turned round, each found by following the
-- pointers. So no event that was pushed is lost, and none overtakes another.
pub processed_first :
    {s : Shared} → Reach s → (w : Waiting s) × (s.pushed ≡ s.processed ++ waiting w)
processed_first r = Inv-Waiting (Reach-Inv r)

pub Inv-quiet :
    {s : Shared}
    → Inv s
    → s.taker ≡ working
    → s.link ≡ 0
    → al_pointer s.head ≡ 0
    → s.processed ≡ s.pushed
Inv-quiet {s} v at no_link no_list =
    let none_taken : v.zs ≡ [] = subst (λ t. TakerInv s.next v.place t v.zs v.loc) at v.taker in
    let none_local = link_empty s.next v.place local s.link v.loc v.on_link no_link in
    let none_queued =
      link_empty s.next v.place queued (al_pointer s.head) v.ext v.on_list no_list in
    sym (
      v.order
      ∙ (ap (λ z. s.processed ++ ((reverse z ++ v.loc) ++ reverse v.ext)) none_taken
          ∙ (ap (λ z. s.processed ++ (z ++ reverse v.ext)) none_local
              ∙ (ap (λ z. s.processed ++ reverse z) none_queued ∙ append-nil s.processed))))
