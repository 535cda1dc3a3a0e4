-- ===== src/TimedQueue/Cycles.antt =====
-- What becomes of the events that are due.
use mathlib.Core.List.{append-nil, append_assoc}
use ostrichserver.Base.{
  ℕ, zero, suc, ◌<◌, List, [], ◌∷◌, ◌++◌, Option, none, some, ◌≡◌, sym, ap, ◌∙◌, arith, length,
}
use ostrichserver.TimedQueue.Queue.{
  TimedQueue, head_of, null_event, ready_loop, priority_queue_process_ready,
}

-- A chain of links from `e` that ends: the events behind `e`.
abbrev pub Chained : (ℕ → Option ℕ) → ℕ → List ℕ → Type 0
Chained link e [] = link e ≡ none
Chained link e (f ∷ fs) = (link e ≡ some f) × Chained link f fs

chain_null :
    (fuel : ℕ) (link : ℕ → Option ℕ) (e : ℕ) (fs processed : List ℕ)
    → length fs < fuel
    → Chained link e fs
    → ready_loop fuel link (some e) processed ≡ null_event (processed ++ fs)
unfolding ready_loop
chain_null zero link e fs processed h c = absurd (omega arith)
chain_null (suc fuel) link e [] processed h c =
    rw (c, ready_loop) (ap null_event (sym (append-nil processed)))
chain_null (suc fuel) link e (f ∷ fs) processed h (c, rest) =
    rw (c, ready_loop)
      (chain_null fuel link f fs (processed ++ f ∷ []) (omega arith) rest
        ∙ ap null_event (append_assoc processed (f ∷ []) fs))

-- `priority_queue_process_ready` on a bucket of the events due: it has those behind the first processed,
-- and then NULL.
pub process_ready-chain :
    (fuel : ℕ) (q : TimedQueue) (e : ℕ) (fs : List ℕ)
    → length fs < fuel
    → head_of q 0 ≡ some e
    → Chained q.link e fs
    → priority_queue_process_ready fuel q ≡ null_event fs
unfolding priority_queue_process_ready
process_ready-chain fuel q e fs h first chain =
    ap (λ (o : Option ℕ). ready_loop fuel q.link o []) first
    ∙ chain_null fuel q.link e fs [] h chain
