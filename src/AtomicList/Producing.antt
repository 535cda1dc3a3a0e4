-- ===== src/AtomicList/Producing.antt =====
-- The steps of a producer keep the invariant.
use native.Mathlib.Decide.{ℕ_discrete}
use mathlib.Core.List.{reverse, reverse-cons, append_assoc}
use ostrichserver.Base.{
  ℕ, ◌≡◌, refl, sym, ap, subst, ◌∙◌, ◌≢◌, Bool, true, false, List, [], ◌∷◌, ◌++◌, arith,
}
use ostrichserver.AtomicList.Word.{
  al_pointer, al_version, set_pointer_version, word-parts, IsAddress,
}
use ostrichserver.AtomicList.System.{
  Pc, idle, loading, linking, swapping, Taker, working, fetching, emptying, collecting, Shared,
  Produce, start, load, set_next, swap, swap_fails, update,
}
use ostrichserver.AtomicList.Chains.{
  Place, fresh, held, queued, taken, local, Chain, NotIn-elsewhere, update_self, update_ne,
  chain_frame_next, chain_frame_place,
}
use ostrichserver.AtomicList.Invariant.{
  Inv, Holds, ProducerInv, TakerInv, producers_update, Agree-same,
}

-- The owner keeps what it has when an event that is not in the place `taken` changes.
pub taker_frame_next :
    (next : ℕ → ℕ) (place : ℕ → Place) (t : Taker) (zs loc : List ℕ) (e v : ℕ)
    → place e ≢ taken
    → TakerInv next place t zs loc
    → TakerInv (update next e v) place t zs loc
taker_frame_next next place working zs loc e v h i = i
taker_frame_next next place fetching zs loc e v h i = i
taker_frame_next next place (emptying w) zs loc e v h i = i
taker_frame_next next place (collecting a) zs loc e v h i =
    chain_frame_next next place taken a zs e v (NotIn-elsewhere next place taken a e zs i h) i

pub taker_frame_place :
    (next : ℕ → ℕ) (place : ℕ → Place) (t : Taker) (zs loc : List ℕ) (e : ℕ) (q : Place)
    → place e ≢ taken
    → TakerInv next place t zs loc
    → TakerInv next (update place e q) t zs loc
taker_frame_place next place working zs loc e q h i = i
taker_frame_place next place fetching zs loc e q h i = i
taker_frame_place next place (emptying w) zs loc e q h i = i
taker_frame_place next place (collecting a) zs loc e q h i =
    chain_frame_place next place taken q a zs e (NotIn-elsewhere next place taken a e zs i h) i

-- Only the producer moves on.
pc_only :
    (s : Shared) (i : ℕ) (q : Pc) (v : Inv s)
    → ProducerInv s.next v.place i q
    → Inv (record s { pc = update s.pc i q })
pc_only s i q v new = record {
  place = v.place;
  ext = v.ext;
  zs = v.zs;
  loc = v.loc;
  on_list = v.on_list;
  on_link = v.on_link;
  taker = v.taker;
  producers =
      producers_update s.next v.place s.next v.place s.pc i q v.producers
        (λ j other. Agree-same s.next v.place j) new;
  unused = v.unused;
  order = v.order;
}

-- An event that is in a place of its own gets another place.
moved_elsewhere :
    (next : ℕ → ℕ) (place : ℕ → Place) (p q : Place) (a e : ℕ) (xs : List ℕ)
    → place e ≢ p
    → Chain next place p a xs
    → Chain next (update place e q) p a xs
moved_elsewhere next place p q a e xs h c =
    chain_frame_place next place p q a xs e (NotIn-elsewhere next place p a e xs c h) c

linked_elsewhere :
    (next : ℕ → ℕ) (place : ℕ → Place) (p : Place) (a e v : ℕ) (xs : List ℕ)
    → place e ≢ p
    → Chain next place p a xs
    → Chain (update next e v) place p a xs
linked_elsewhere next place p a e v xs h c =
    chain_frame_next next place p a xs e v (NotIn-elsewhere next place p a e xs c h) c

fresh_not_held : (j : ℕ) → fresh ≢ held j
fresh_not_held j h = cc

held_one : (i j : ℕ) → held i ≡ held j → i ≡ j
held_one i j h = cc

still_unused :
    (s : Shared) (e x : ℕ) (v : Inv s) (q : Place)
    → update s.started e true x ≡ false
    → update v.place e q x ≡ fresh
still_unused s e x v q h = elim (ℕ_discrete e x) [
  | yes same ↦ absurd (ground (arith, same, h))
  | no other ↦
      update_ne v.place e q x other ∙ v.unused x (sym (update_ne s.started e true x other) ∙ h)
]

-- An event in use is not the one that is asked for.
pub moved_unused :
    (started : ℕ → Bool) (place : ℕ → Place) (e : ℕ) (q : Place) (x : ℕ)
    → place e ≢ fresh
    → ((y : ℕ) → started y ≡ false → place y ≡ fresh)
    → started x ≡ false
    → update place e q x ≡ fresh
moved_unused started place e q x in_use unused h = elim (ℕ_discrete e x) [
  | yes same ↦ absurd (in_use (ap place same ∙ unused x h))
  | no other ↦ update_ne place e q x other ∙ unused x h
]

to_the_end :
    (xs ys zs : List ℕ) (e : ℕ)
    → (xs ++ (ys ++ reverse zs)) ++ e ∷ [] ≡ xs ++ (ys ++ reverse (e ∷ zs))
to_the_end xs ys zs e = simp (append_assoc, reverse-cons)

start-Inv :
    (s : Shared) (i e : ℕ) (v : Inv s)
    → IsAddress e
    → s.started e ≡ false
    → Inv (record s { pc = update s.pc i (loading e); started = update s.started e true })
start-Inv s i e v address new =
    let is_fresh = v.unused e new in
    record {
      place = update v.place e (held i);
      ext = v.ext;
      zs = v.zs;
      loc = v.loc;
      on_list =
          moved_elsewhere s.next v.place queued (held i) (al_pointer s.head) e v.ext (λ h. cc)
            v.on_list;
      on_link = moved_elsewhere s.next v.place local (held i) s.link e v.loc (λ h. cc) v.on_link;
      taker = taker_frame_place s.next v.place s.taker v.zs v.loc e (held i) (λ h. cc) v.taker;
      producers =
          producers_update s.next v.place s.next (update v.place e (held i)) s.pc i (loading e)
            v.producers
            (λ j other x h. (
              refl,
              update_ne v.place e (held i) x
                  (λ same. absurd (fresh_not_held j (sym is_fresh ∙ (ap v.place same ∙ h)))),
            ))
            (update_self v.place e (held i), address);
      unused = λ x h. still_unused s e x v (held i) h;
      order = v.order;
    }

set_next-Inv :
    (s : Shared) (i e w : ℕ) (v : Inv s)
    → s.pc i ≡ linking e w
    → Inv (record s { next = update s.next e (al_pointer w); pc = update s.pc i (swapping e w) })
set_next-Inv s i e w v at =
    let mine : Holds v.place i e = subst (ProducerInv s.next v.place i) at (v.producers i) in
    record {
      place = v.place;
      ext = v.ext;
      zs = v.zs;
      loc = v.loc;
      on_list =
          linked_elsewhere s.next v.place queued (al_pointer s.head) e (al_pointer w) v.ext
            (λ h. cc) v.on_list;
      on_link =
          linked_elsewhere s.next v.place local s.link e (al_pointer w) v.loc (λ h. cc) v.on_link;
      taker = taker_frame_next s.next v.place s.taker v.zs v.loc e (al_pointer w) (λ h. cc) v.taker;
      producers =
          producers_update s.next v.place (update s.next e (al_pointer w)) v.place s.pc i
            (swapping e w) v.producers
            (λ j other x h. (
              update_ne s.next e (al_pointer w) x
                  (λ same. other (held_one i j (sym mine.0 ∙ (ap v.place same ∙ h)))),
              refl,
            ))
            (mine, update_self s.next e (al_pointer w));
      unused = v.unused;
      order = v.order;
    }

swap-Inv :
    (s : Shared) (i e w : ℕ) (v : Inv s)
    → s.pc i ≡ swapping e w
    → s.head ≡ w
    → Inv (record s {
      head = set_pointer_version e (al_version w);
      pc = update s.pc i idle;
      pushed = s.pushed ++ e ∷ [];
    })
swap-Inv s i e w v at unchanged =
    let mine : ProducerInv s.next v.place i (swapping e w) =
      subst (ProducerInv s.next v.place i) at (v.producers i) in
    let here = mine.0.0 in
    record {
      place = update v.place e queued;
      ext = e ∷ v.ext;
      zs = v.zs;
      loc = v.loc;
      on_list = (
        (word-parts e (al_version w) mine.0.1.1).0,
        (λ z. omega (arith, mine.0.1.0, z)),
        update_self v.place e queued,
        NotIn-elsewhere s.next v.place queued (al_pointer s.head) e v.ext v.on_list (λ h. cc),
        subst (λ a. Chain s.next (update v.place e queued) queued a v.ext)
            (sym (mine.1 ∙ ap al_pointer (sym unchanged)))
            (moved_elsewhere s.next v.place queued queued (al_pointer s.head) e v.ext (λ h. cc)
              v.on_list),
      );
      on_link = moved_elsewhere s.next v.place local queued s.link e v.loc (λ h. cc) v.on_link;
      taker = taker_frame_place s.next v.place s.taker v.zs v.loc e queued (λ h. cc) v.taker;
      producers =
          producers_update s.next v.place s.next (update v.place e queued) s.pc i idle v.producers
            (λ j other x h. (
              refl,
              update_ne v.place e queued x
                  (λ same. other (held_one i j (sym here ∙ (ap v.place same ∙ h)))),
            ))
            tt;
      unused = λ x h.
          moved_unused s.started v.place e queued x (λ z. absurd (fresh_not_held i (sym z ∙ here)))
            v.unused h;
      order =
          ap (λ l. l ++ e ∷ []) v.order ∙ to_the_end s.processed (reverse v.zs ++ v.loc) v.ext e;
    }

-- Each step of a producer keeps the invariant.
pub Produce-Inv : (i : ℕ) (s : Shared) {t : Shared} → Produce i s t → Inv s → Inv t
Produce-Inv i s (start e at address new) v = start-Inv s i e v address new
Produce-Inv i s (load e at) v =
    pc_only s i (linking e s.head) v (subst (ProducerInv s.next v.place i) at (v.producers i))
Produce-Inv i s (set_next e w at) v = set_next-Inv s i e w v at
Produce-Inv i s (swap e w at unchanged) v = swap-Inv s i e w v at unchanged
Produce-Inv i s (swap_fails e w at changed) v =
    let mine : ProducerInv s.next v.place i (swapping e w) =
      subst (ProducerInv s.next v.place i) at (v.producers i) in
    pc_only s i (loading e) v mine.0
