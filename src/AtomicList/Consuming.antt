-- ===== src/AtomicList/Consuming.antt =====
-- The steps of the owner keep the invariant.
use mathlib.Core.List.{reverse, reverse-cons, append_assoc, append-nil}
use ostrichserver.Base.{ℕ, ◌+◌, ◌≡◌, refl, sym, ap, subst, ◌∙◌, ◌≢◌, List, [], ◌∷◌, ◌++◌}
use ostrichserver.AtomicList.Word.{al_pointer, al_version, set_pointer_version, null-pointer}
use ostrichserver.AtomicList.System.{
  Taker, working, fetching, emptying, collecting, Shared, Consume, dequeue, nonempty, fetch,
  fetch_null, empty, empty_fails, collect, collect_end, update,
}
use ostrichserver.AtomicList.Chains.{
  Place, fresh, held, queued, taken, local, done, Chain, NotIn, NotIn-elsewhere, update_self,
  update_ne, chain_frame_next, chain_frame_place, chain_map,
}
use ostrichserver.AtomicList.Invariant.{Inv, ProducerInv, TakerInv, producer_frame}
use ostrichserver.AtomicList.Producing.{moved_unused}

-- Only the owner moves on.
taker_only :
    (s : Shared) (t : Taker) (v : Inv s)
    → TakerInv s.next v.place t v.zs v.loc
    → Inv (record s { taker = t })
taker_only s t v new = record {
  place = v.place;
  ext = v.ext;
  zs = v.zs;
  loc = v.loc;
  on_list = v.on_list;
  on_link = v.on_link;
  taker = new;
  producers = v.producers;
  unused = v.unused;
  order = v.order;
}

-- A producer keeps what it has when an event that no producer holds changes in memory and in place.
owner_frame :
    (s : Shared) (v : Inv s) (e n : ℕ) (q : Place)
    → ((j : ℕ) → v.place e ≢ held j)
    → (j : ℕ) → ProducerInv (update s.next e n) (update v.place e q) j (s.pc j)
owner_frame s v e n q free j =
    producer_frame s.next v.place (update s.next e n) (update v.place e q) j (s.pc j)
      (λ x h.
        let other : e ≢ x = λ same. free j (ap v.place same ∙ h) in
        (update_ne s.next e n x other, update_ne v.place e q x other))
      (v.producers j)

-- what is linked and placed anew elsewhere
apart :
    (s : Shared) (v : Inv s) (p q : Place) (a e n : ℕ) (xs : List ℕ)
    → NotIn e xs
    → Chain s.next v.place p a xs
    → Chain (update s.next e n) (update v.place e q) p a xs
apart s v p q a e n xs out c =
    chain_frame_next s.next (update v.place e q) p a xs e n out
      (chain_frame_place s.next v.place p q a xs e out c)

pub link_empty :
    (next : ℕ → ℕ) (place : ℕ → Place) (p : Place) (a : ℕ) (xs : List ℕ)
    → Chain next place p a xs
    → a ≡ 0
    → xs ≡ []
link_empty next place p a [] c z = refl
link_empty next place p a (x ∷ xs) c z = absurd (c.1 (sym c.0 ∙ z))

pub holding : (s : Shared) (v : Inv s) → s.taker ≡ working → v.zs ≡ []
holding s v at = subst (λ t. TakerInv s.next v.place t v.zs v.loc) at v.taker

collected :
    (xs zs loc r : List ℕ) (e : ℕ)
    → xs ++ ((reverse (e ∷ zs) ++ loc) ++ r) ≡ xs ++ ((reverse zs ++ (e ∷ loc)) ++ r)
collected xs zs loc r e = simp (reverse-cons, append_assoc)

pub collect-Inv :
    (s : Shared) (e : ℕ) (v : Inv s) (x : ℕ) (zs : List ℕ)
    → v.zs ≡ x ∷ zs
    → Chain s.next v.place taken e (x ∷ zs)
    → e ≢ 0
    → (v' : Inv
        (record s { next = update s.next e s.link; link = e; taker = collecting (s.next e) }))
      × (v'.zs ≡ zs)
collect-Inv s e v x zs eq c nz =
    let same : e ≡ x = c.0 in
    let here : v.place e ≡ taken = ap v.place same ∙ c.2 in
    let out : NotIn e zs = subst (λ y. NotIn y zs) (sym same) c.3 in
    (
      record {
        place = update v.place e local;
        ext = v.ext;
        zs = zs;
        loc = e ∷ v.loc;
        on_list =
            apart s v queued local (al_pointer s.head) e s.link v.ext
              (NotIn-elsewhere s.next v.place queued (al_pointer s.head) e v.ext v.on_list
                (λ h. cc))
              v.on_list;
        on_link = (
          refl,
          nz,
          update_self v.place e local,
          NotIn-elsewhere s.next v.place local s.link e v.loc v.on_link (λ h. cc),
          subst (λ a. Chain (update s.next e s.link) (update v.place e local) local a v.loc)
              (sym (update_self s.next e s.link))
              (apart s v local local s.link e s.link v.loc
                (NotIn-elsewhere s.next v.place local s.link e v.loc v.on_link (λ h. cc))
                v.on_link),
        );
        taker =
            apart s v taken local (s.next e) e s.link zs out
              (subst (λ y. Chain s.next v.place taken (s.next y) zs) (sym same) c.4);
        producers = owner_frame s v e s.link local (λ j h. cc);
        unused = λ y h. moved_unused s.started v.place e local y (λ h2. cc) v.unused h;
        order =
            v.order
            ∙ (ap (λ z. s.processed ++ ((reverse z ++ v.loc) ++ reverse v.ext))
                  (eq ∙ ap (λ y. y ∷ zs) (sym same))
                ∙ collected s.processed zs v.loc (reverse v.ext) e);
      },
      refl,
    )

pub dequeue-Inv :
    (s : Shared) (v : Inv s) (x : ℕ) (loc : List ℕ)
    → v.loc ≡ x ∷ loc
    → Chain s.next v.place local s.link (x ∷ loc)
    → v.zs ≡ []
    → s.taker ≡ working
    → s.link ≢ 0
    → (v' : Inv (record s {
      link = s.next s.link;
      next = update s.next s.link 0;
      processed = s.processed ++ s.link ∷ [];
    }))
      × (v'.loc ≡ loc)
dequeue-Inv s v x loc eq c none_taken at nz =
    let same : s.link ≡ x = c.0 in
    let here : v.place s.link ≡ local = ap v.place same ∙ c.2 in
    let out : NotIn s.link loc = subst (λ y. NotIn y loc) (sym same) c.3 in
    (
      record {
        place = update v.place s.link done;
        ext = v.ext;
        zs = [];
        loc = loc;
        on_list =
            apart s v queued done (al_pointer s.head) s.link 0 v.ext
              (NotIn-elsewhere s.next v.place queued (al_pointer s.head) s.link v.ext v.on_list
                (λ h. cc))
              v.on_list;
        on_link =
            apart s v local done (s.next s.link) s.link 0 loc out
              (subst (λ y. Chain s.next v.place local (s.next y) loc) (sym same) c.4);
        taker =
            subst (λ t. TakerInv (update s.next s.link 0) (update v.place s.link done) t [] loc)
              (sym at) refl;
        producers = owner_frame s v s.link 0 done (λ j h. cc);
        unused = λ y h. moved_unused s.started v.place s.link done y (λ h2. cc) v.unused h;
        order =
            v.order
            ∙ (ap (λ z. s.processed ++ ((reverse z ++ v.loc) ++ reverse v.ext)) none_taken
                ∙ (ap (λ z. s.processed ++ (z ++ reverse v.ext)) (eq ∙ ap (λ y. y ∷ loc) (sym same))
                    ∙ sym (append_assoc s.processed (s.link ∷ []) (loc ++ reverse v.ext))));
      },
      refl,
    )

-- `atomic_list_popall` takes all events of the list.
abbrev take_queued : Place → Place
take_queued fresh = fresh
take_queued (held i) = held i
take_queued queued = taken
take_queued taken = taken
take_queued local = local
take_queued done = done

empty-Inv :
    (s : Shared) (v : Inv s) (w : ℕ)
    → (v.zs ≡ []) × (v.loc ≡ [])
    → s.head ≡ w
    → Inv (record s {
      head = set_pointer_version 0 (al_version w + 1);
      taker = collecting (al_pointer w);
    })
empty-Inv s v w before unchanged = record {
  place = λ x. take_queued (v.place x);
  ext = [];
  zs = v.ext;
  loc = v.loc;
  on_list = null-pointer (al_version w + 1);
  on_link = chain_map take_queued s.next v.place local s.link v.loc v.on_link;
  taker =
      subst (λ h. Chain s.next (λ x. take_queued (v.place x)) taken (al_pointer h) v.ext) unchanged
        (chain_map take_queued s.next v.place queued (al_pointer s.head) v.ext v.on_list);
  producers = λ j.
      producer_frame s.next v.place s.next (λ x. take_queued (v.place x)) j (s.pc j)
        (λ x h. (refl, ap take_queued h ∙ sym h)) (v.producers j);
  unused = λ y h. ap take_queued (v.unused y h);
  order =
      v.order
      ∙ (ap (λ z. s.processed ++ ((reverse z ++ v.loc) ++ reverse v.ext)) before.0
          ∙ (ap (λ z. s.processed ++ (z ++ reverse v.ext)) before.1
              ∙ (ap (λ z. s.processed ++ z) (sym (append-nil (reverse v.ext)))
                  ∙ ap (λ z. s.processed ++ z)
                      (sym (append-nil (reverse v.ext ++ []))
                        ∙ ap (λ z. (reverse v.ext ++ z) ++ []) (sym before.1)))));
}

-- The same for any list of events.
dequeue_any :
    (s : Shared) (v : Inv s) (loc : List ℕ)
    → v.loc ≡ loc
    → Chain s.next v.place local s.link loc
    → v.zs ≡ []
    → s.taker ≡ working
    → s.link ≢ 0
    → Inv (record s {
      link = s.next s.link;
      next = update s.next s.link 0;
      processed = s.processed ++ s.link ∷ [];
    })
dequeue_any s v [] eq c none_taken at nz = absurd (nz c)
dequeue_any s v (x ∷ loc) eq c none_taken at nz = (dequeue-Inv s v x loc eq c none_taken at nz).0

collect_any :
    (s : Shared) (e : ℕ) (v : Inv s) (zs : List ℕ)
    → v.zs ≡ zs
    → Chain s.next v.place taken e zs
    → e ≢ 0
    → Inv (record s { next = update s.next e s.link; link = e; taker = collecting (s.next e) })
collect_any s e v [] eq c nz = absurd (nz c)
collect_any s e v (x ∷ zs) eq c nz = (collect-Inv s e v x zs eq c nz).0

-- Each step of the owner keeps the invariant.
pub Consume-Inv : (s : Shared) {t : Shared} → Consume s t → Inv s → Inv t
Consume-Inv s (dequeue at nz) v = dequeue_any s v v.loc refl v.on_link (holding s v at) at nz
Consume-Inv s (nonempty at z more) v =
    taker_only s fetching v
      (holding s v at, link_empty s.next v.place local s.link v.loc v.on_link z)
Consume-Inv s (fetch at more) v =
    taker_only s (emptying s.head) v (subst (λ t. TakerInv s.next v.place t v.zs v.loc) at v.taker)
Consume-Inv s (fetch_null at none_left) v =
    let before : (v.zs ≡ []) × (v.loc ≡ []) =
      subst (λ t. TakerInv s.next v.place t v.zs v.loc) at v.taker in
    taker_only s (collecting 0) v (subst (λ z. Chain s.next v.place taken 0 z) (sym before.0) refl)
Consume-Inv s (empty w at unchanged) v =
    empty-Inv s v w (subst (λ t. TakerInv s.next v.place t v.zs v.loc) at v.taker) unchanged
Consume-Inv s (empty_fails w at changed) v =
    taker_only s fetching v (subst (λ t. TakerInv s.next v.place t v.zs v.loc) at v.taker)
Consume-Inv s (collect e at nz) v =
    collect_any s e v v.zs refl (subst (λ t. TakerInv s.next v.place t v.zs v.loc) at v.taker) nz
Consume-Inv s (collect_end at) v =
    let c : Chain s.next v.place taken 0 v.zs =
      subst (λ t. TakerInv s.next v.place t v.zs v.loc) at v.taker in
    taker_only s working v (link_empty s.next v.place taken 0 v.zs c refl)
