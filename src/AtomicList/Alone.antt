-- ===== src/AtomicList/Alone.antt =====
-- The operations of the list as one thread performs them when no other interferes, so that the first
-- compare-and-swap succeeds; and the queue that a thread keeps for itself (thread.c).
use ostrichserver.Base.{
  ℕ, ◌+◌, ◌%◌, ◌^◌, ◌<◌, ◌≡◌, refl, ap, ◌∙◌, ◌≢◌, Bool, false, Option, none, some, List, [], ◌∷◌,
  arith, ◌==◌, if◌then◌else◌,
}
use ostrichserver.AtomicList.Word.{
  al_pointer, al_version, set_pointer_version, word-parts, IsAddress,
}
use ostrichserver.AtomicList.System.{update}
use ostrichserver.AtomicList.Chains.{Chain, local, NotIn, chain_frame_next, update_self}

-- `atomiclist`, with the field at `offset` of every element
pub record AtomicQueue : Type 0 where
  pub head : ℕ
  pub next : ℕ → ℕ

-- `atomic_list_init`
abbrev pub atomic_list_init : (ℕ → ℕ) → AtomicQueue
atomic_list_init next = record { head = set_pointer_version 0 0; next = next }

-- `atomic_list_push`, with the pointer that it returns
unfoldable pub atomic_list_push : AtomicQueue → ℕ → AtomicQueue × ℕ
atomic_list_push al e =
    let h = al_pointer al.head in
    (record { head = set_pointer_version e (al_version al.head); next = update al.next e h }, h)

-- `atomic_list_pop`; `none` is NULL
unfoldable pub atomic_list_pop : AtomicQueue → AtomicQueue × Option ℕ
atomic_list_pop al =
    let p = al_pointer al.head in
    if p == 0 then (al, none) else (
      record {
        head = set_pointer_version (al.next p) (al_version al.head + 1);
        next = update al.next p 0;
      },
      some p,
    )

unfoldable pub atomic_list_empty : AtomicQueue → Bool
atomic_list_empty al = al_pointer al.head == 0

unfoldable pub atomic_list_popall : AtomicQueue → AtomicQueue × Option ℕ
atomic_list_popall al =
    let p = al_pointer al.head in
    if p == 0
    then (al, none)
    else (record al { head = set_pointer_version 0 (al_version al.head + 1) }, some p)

-- `thread_event_enqueue`, and whether it wakes the owner
unfoldable pub thread_event_enqueue : AtomicQueue → ℕ → AtomicQueue × Bool
unfolding atomic_list_push
thread_event_enqueue al e = let r = atomic_list_push al e in (r.0, r.1 == 0)

-- `collectqueue` or `postponedqueue`: the link, and `ln.next` of the events
pub record LocalQueue : Type 0 where
  pub link : ℕ
  pub next : ℕ → ℕ

-- `collectqueue_enqueue` and `localq_enqueue`
unfoldable pub localq_enqueue : LocalQueue → ℕ → LocalQueue
localq_enqueue q e = record { link = e; next = update q.next e q.link }

-- `collectqueue_dequeue`, `localq_dequeue` and `thread_localq_dequeue`; `none` is NULL
unfoldable pub localq_dequeue : LocalQueue → LocalQueue × Option ℕ
localq_dequeue q =
    if q.link == 0
    then (q, none)
    else (record { link = q.next q.link; next = update q.next q.link 0 }, some q.link)

-- `thread_localq_enqueue`, whose `lnk` stays NULL
unfoldable pub thread_localq_enqueue : LocalQueue → ℕ → LocalQueue
thread_localq_enqueue q e = record { link = e; next = update q.next e 0 }

-- The queue holds the events `xs`, the next one to be dequeued first.
abbrev pub Queues : LocalQueue → List ℕ → Type 0
Queues q xs = Chain q.next (λ e. local) local q.link xs

abbrev pub first_event : List ℕ → Option ℕ
first_event [] = none
first_event (x ∷ xs) = some x

-- What is left after the first event is taken off again
chain-undo :
    (next : ℕ → ℕ) (a e : ℕ) (xs : List ℕ)
    → Chain next (λ e. local) local a xs
    → NotIn e xs
    → Chain (update (update next e a) e 0) (λ e. local) local (update next e a e) xs
chain-undo next a e xs c out =
    let once = chain_frame_next next (λ e. local) local a xs e a out c in
    let twice = chain_frame_next (update next e a) (λ e. local) local a xs e 0 out once in
    rw (update_self next e a) twice

dequeue-first : (q : LocalQueue) (xs : List ℕ) → Queues q xs → (localq_dequeue q).1 ≡ first_event xs
unfolding localq_dequeue
dequeue-first q [] c = ground arith
dequeue-first q (x ∷ xs) c =
    let nonzero = c.1 in
    let full : (q.link == 0) ≡ false = rw c.0 (ground arith) in rw full (ap some c.0)

-- An event that is not queued yet is put in front by `localq_enqueue`, whereas `thread_localq_enqueue` leaves
-- it as the only one and loses the others; `localq_dequeue` takes the first event off and gives NULL exactly
-- when there is none.
pub localq-Queues :
    (q : LocalQueue) (xs : List ℕ) (e : ℕ)
    → Queues q xs
    → IsAddress e
    → NotIn e xs
    → Queues (localq_enqueue q e) (e ∷ xs)
      × Queues (thread_localq_enqueue q e) (e ∷ [])
      × ((localq_dequeue (localq_enqueue q e)).1 ≡ some e)
      × Queues (localq_dequeue (localq_enqueue q e)).0 xs
      × ((localq_dequeue q).1 ≡ first_event xs)
unfolding localq_enqueue thread_localq_enqueue localq_dequeue
localq-Queues q xs e c address out =
    let nonzero : e ≢ 0 = λ z. omega (arith, address.0, z) in
    let full : (e == 0) ≡ false = ground arith in
    let kept = chain_frame_next q.next (λ e. local) local q.link xs e q.link out c in
    (
      (refl, nonzero, refl, out, rw (update_self q.next e q.link) kept),
      (refl, nonzero, refl, tt, update_self q.next e 0),
      rw full refl,
      rw full (chain-undo q.next q.link e xs c out),
      dequeue-first q xs c,
    )

-- One push undone by one pop: the event comes back, the list has the pointer that it had, and its version is one
-- higher. The owner is woken exactly when the list was empty.
pub pop-push :
    (al : AtomicQueue) (e : ℕ)
    → IsAddress e
    → al_pointer al.head < 2 ^ 47
    → ((atomic_list_pop (atomic_list_push al e).0).1 ≡ some e)
      × (al_pointer (atomic_list_pop (atomic_list_push al e).0).0.head ≡ al_pointer al.head)
      × (al_version (atomic_list_pop (atomic_list_push al e).0).0.head % 2 ^ 16
          ≡ (al_version al.head + 1) % 2 ^ 16)
      × ((thread_event_enqueue al e).1 ≡ atomic_list_empty al)
unfolding atomic_list_pop atomic_list_push thread_event_enqueue atomic_list_empty
pop-push al e address low =
    let v = al_version al.head in
    let parts = word-parts e v address.1 in
    let full : (e == 0) ≡ false = ground arith in
    let again = word-parts (al_pointer al.head) (al_version (set_pointer_version e v) + 1) low in
    let counted : (al_version (set_pointer_version e v) + 1) % 2 ^ 16 ≡ (v + 1) % 2 ^ 16 =
      omega (arith, parts.1) in
    (
      rw parts.0 (rw full refl),
      rw parts.0 (rw full (rw (update_self al.next e (al_pointer al.head)) again.0)),
      rw parts.0 (rw full (rw (update_self al.next e (al_pointer al.head)) (again.1 ∙ counted))),
      refl,
    )
