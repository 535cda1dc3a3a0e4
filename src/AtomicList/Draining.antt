-- ===== src/AtomicList/Draining.antt =====
-- The owner, running alone, comes to process all events.
use native.Mathlib.Decide.{ℕ_discrete}
use ostrichserver.Base.{ℕ, ◌+◌, ◌≡◌, refl, sym, ap, subst, ◌∙◌, ◌≢◌, List, [], ◌∷◌}
use ostrichserver.AtomicList.Word.{al_pointer, al_version, set_pointer_version, null-pointer}
use ostrichserver.AtomicList.System.{
  Taker, working, fetching, emptying, collecting, Shared, Consume, dequeue, nonempty, fetch, empty,
  collect, collect_end, Reach,
}
use ostrichserver.AtomicList.Chains.{Chain, local, taken}
use ostrichserver.AtomicList.Invariant.{Inv, TakerInv}
use ostrichserver.AtomicList.Consuming.{Consume-Inv, dequeue-Inv, collect-Inv, holding}
use ostrichserver.AtomicList.Fifo.{Reach-Inv, Inv-quiet}

-- any number of steps of the owner
pub data Consumes : Shared → Shared → Type 0 where
  rest : {s : Shared} → Consumes s s
  go_on : {s t u : Shared} → Consume s t → Consumes t u → Consumes s u

Consumes_trans : {s t u : Shared} → Consumes s t → Consumes t u → Consumes s u
Consumes_trans rest d = d
Consumes_trans (go_on c r) d = go_on c (Consumes_trans r d)

-- The owner gets from `s` to a state `t` at its place `k`, and no event was pushed meanwhile.
abbrev Gets : Shared → Taker → Shared → Type 0
Gets s k t = Consumes s t × Inv t × (t.taker ≡ k) × (t.pushed ≡ s.pushed)

-- Its own queue is emptied.
dequeue_all :
    (loc : List ℕ) (s : Shared) (v : Inv s)
    → v.loc ≡ loc
    → s.taker ≡ working
    → (t : Shared) × Gets s working t × (t.link ≡ 0) × (t.head ≡ s.head)
dequeue_all [] s v eq at =
    (s, (rest, v, at, refl), subst (Chain s.next v.place local s.link) eq v.on_link, refl)
dequeue_all (x ∷ loc) s v eq at =
    let c : Chain s.next v.place local s.link (x ∷ loc) =
      subst (Chain s.next v.place local s.link) eq v.on_link in
    let nz : s.link ≢ 0 = λ z. c.1 (sym c.0 ∙ z) in
    let (v', eq') = dequeue-Inv s v x loc eq c (holding s v at) at nz in
    let (t, (run, w, at', same), no_link, head) = dequeue_all loc _ v' eq' at in
    (t, (go_on (dequeue at nz) run, w, at', same), no_link, head)

-- The events that it took are collected.
collect_all :
    (zs : List ℕ) (s : Shared) (e : ℕ) (v : Inv s)
    → v.zs ≡ zs
    → s.taker ≡ collecting e
    → (t : Shared) × Gets s working t × (t.head ≡ s.head)
collect_all [] s e v eq at =
    let c : Chain s.next v.place taken e [] =
      subst (Chain s.next v.place taken e) eq
        (subst (λ t. TakerInv s.next v.place t v.zs v.loc) at v.taker) in
    let ended : s.taker ≡ collecting 0 = at ∙ ap collecting c in
    (
      record s { taker = working },
      (go_on (collect_end ended) rest, Consume-Inv s (collect_end ended) v, refl, refl),
      refl,
    )
collect_all (x ∷ zs) s e v eq at =
    let c : Chain s.next v.place taken e (x ∷ zs) =
      subst (Chain s.next v.place taken e) eq
        (subst (λ t. TakerInv s.next v.place t v.zs v.loc) at v.taker) in
    let nz : e ≢ 0 = λ z. c.1 (sym c.0 ∙ z) in
    let (v', eq') = collect-Inv s e v x zs eq c nz in
    let (t, (run, w, at', same), head) = collect_all zs _ (s.next e) v' eq' refl in
    (t, (go_on (collect e at nz) run, w, at', same), head)

-- From between two rounds the owner takes what is on the shared list and empties its queue.
one_round :
    (s : Shared) (v : Inv s)
    → s.taker ≡ working
    → s.link ≡ 0
    → al_pointer s.head ≢ 0
    → (t : Shared) × Gets s working t × (t.link ≡ 0) × (al_pointer t.head ≡ 0)
one_round s v at no_link some_list =
    let v_1 = Consume-Inv s (nonempty at no_link some_list) v in
    let s_1 = record s { taker = fetching } in
    let v_2 = Consume-Inv s_1 (fetch refl some_list) v_1 in
    let s_2 = record s { taker = emptying s.head } in
    let v_3 = Consume-Inv s_2 (empty s.head refl refl) v_2 in
    let s_3 = record s {
      head = set_pointer_version 0 (al_version s.head + 1);
      taker = collecting (al_pointer s.head);
    } in
    let (t, (run, w, at', same), head) = collect_all v_3.zs s_3 (al_pointer s.head) v_3 refl refl in
    let (u, (run', w', at'', same'), none_left, head') = dequeue_all w.loc t w refl at' in
    (
      u,
      (
        go_on (nonempty at no_link some_list) (
            go_on (fetch refl some_list)
              (go_on (empty s.head refl refl) (Consumes_trans run run'))),
        w',
        at'',
        same' ∙ same,
      ),
      none_left,
      ap al_pointer (head' ∙ head) ∙ null-pointer (al_version s.head + 1),
    )

-- Every event gets its turn. From every state that the threads can reach and in which the owner is at its own
-- queue, the owner running alone comes to a state in which it has processed exactly the events pushed
-- so far, in the order in which they were pushed.
pub owner_drains :
    {s : Shared}
    → Reach s
    → s.taker ≡ working
    → (t : Shared) × Consumes s t × (t.processed ≡ s.pushed) × (t.pushed ≡ s.pushed)
owner_drains {s} r at =
    let v = Reach-Inv r in
    let (t, (run, w, at', same), no_link, head) = dequeue_all v.loc s v refl at in
    elim (ℕ_discrete (al_pointer t.head) 0) [
      | yes no_list ↦ (t, run, Inv-quiet w at' no_link no_list ∙ same, same)
      | no some_list ↦
          let (u, (run', w', at'', same'), no_link', no_list') =
            one_round t w at' no_link some_list in
          (
            u,
            Consumes_trans run run',
            Inv-quiet w' at'' no_link' no_list' ∙ (same' ∙ same),
            same' ∙ same,
          )
    ]
