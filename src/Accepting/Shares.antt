-- ===== src/Accepting/Shares.antt =====
-- Which connections a thread gets.
use native.Mathlib.Nat.{mod-lt}
use mathlib.Core.List.{append_assoc}
use ostrichserver.Base.{
  ℕ, ◌+◌, ◌-◌, ◌%◌, ◌^◌, ◌<◌, ◌≤◌, Bool, true, false, List, [], ◌∷◌, ◌++◌, some, ◌≡◌, ◌≢◌, refl,
  sym, ap, ◌∙◌, arith, ltb, ◌==◌, if◌then◌else◌, length, length-append,
}
use ostrichserver.Processor.{at_count}
use ostrichserver.EventLoop.Queued.{occurs}
use ostrichserver.EventLoop.Order.{occurs-append}
use ostrichserver.Accepting.Schedule.{Server, enqueue_to, event_schedule, accept_block_loop, ◌>>=◌}

module _ (n t : ℕ) where
  -- The connections that go to thread `t` of `n` when the first goes to thread `c % n`, the last one first.
  unfoldable pub share : ℕ → List ℕ → List ℕ
  share c [] = []
  share c (e ∷ es) = share (c + 1) es ++ (if t == c % n then e ∷ [] else [])

  occurs-mine :
      (c e x : ℕ) → occurs e (if t == c % n then x ∷ [] else []) ≤ (if x == e then 1 else 0)
  occurs-mine c e x = ground arith

  pub occurs-share-le : (e c : ℕ) (es : List ℕ) → occurs e (share c es) ≤ occurs e es
  unfolding share
  occurs-share-le e c [] = omega arith
  occurs-share-le e c (x ∷ es) = omega (
    arith,
    occurs-append e (share (c + 1) es) (if t == c % n then x ∷ [] else []),
    occurs-share-le e (c + 1) es,
    occurs-mine c e x,
  )

  length-mine : (c x : ℕ) → length (if t == c % n then x ∷ [] else []) ≤ 1
  length-mine c x = ground arith

  pub length-share-le : (c : ℕ) (es : List ℕ) → length (share c es) ≤ length es
  unfolding share
  length-share-le c [] = omega arith
  length-share-le c (x ∷ es) = omega (
    arith,
    length-append (share (c + 1) es) (if t == c % n then x ∷ [] else []),
    length-share-le (c + 1) es,
    length-mine c x,
  )

  share-here :
      (e c : ℕ) (es : List ℕ)
      → occurs e es ≡ 0
      → occurs e (share c (e ∷ es)) ≡ (if t == c % n then 1 else 0)
  unfolding share
  share-here e c es out =
      let none_later : occurs e (share (c + 1) es) ≡ 0 =
        omega (arith, occurs-share-le e (c + 1) es) in
      ground (arith, occurs-append e (share (c + 1) es) (if t == c % n then e ∷ [] else []))

  share-skip :
      (e x c : ℕ) (es : List ℕ) → x ≢ e → occurs e (share c (x ∷ es)) ≡ occurs e (share (c + 1) es)
  unfolding share
  share-skip e x c es other =
      ground (arith, occurs-append e (share (c + 1) es) (if t == c % n then x ∷ [] else []))

  -- The connection behind `k` others goes to thread `(c + k) % n` and to no other.
  pub occurs-share :
      (xs : List ℕ) (e c : ℕ) (ys : List ℕ)
      → occurs e (xs ++ e ∷ ys) ≤ 1
      → occurs e (share c (xs ++ e ∷ ys)) ≡ (if t == (c + length xs) % n then 1 else 0)
  occurs-share [] e c ys once =
      let same : c + 0 ≡ c = omega arith in rw same (share-here e c ys (ground arith))
  occurs-share (x ∷ xs) e c ys once =
      let here : 1 ≤ occurs e (e ∷ ys) = ground arith in
      let other : x ≢ e = λ same. ground (arith, occurs-append e xs (e ∷ ys)) in
      let counted : c + 1 + length xs ≡ c + length (x ∷ xs) = omega arith in
      share-skip e x c (xs ++ e ∷ ys) other
      ∙ occurs-share xs e (c + 1) ys (ground arith)
      ∙ ap (λ (k : ℕ). if t == k % n then 1 else 0) counted

-- Every thread has got its share of the connections.
pub record Shared (n c : ℕ) (es : List ℕ) (s s' : Server) : Type 0 where
  pub at_end : s'.processor ≡ at_count n (c + length es)
  pub shares : (t : ℕ) → s'.externals t ≡ share n t c es ++ s.externals t

schedule-one :
    (n c e : ℕ) (externals : ℕ → List ℕ)
    → 0 < n
    → c + 1 < 2 ^ 31
    → event_schedule e (record { processor = at_count n c; externals = externals })
      ≡ some
          (enqueue_to (c % n) e (record { processor = at_count n (c + 1); externals = externals }))
unfolding event_schedule
schedule-one n c e externals pos_n room =
    let small : (c == 2 ^ 31 - 1) ≡ false = ground arith in
    let inside : ltb (c % n) n ≡ true = ground (arith, mod-lt c pos_n) in rw small (rw inside refl)

regroup :
    (b : Bool) (e : ℕ) (xs rest : List ℕ)
    → (xs ++ (if b then e ∷ rest else rest)) ≡ ((xs ++ (if b then e ∷ [] else [])) ++ rest)
regroup true e xs rest = sym (append_assoc xs (e ∷ []) rest)
regroup false e xs rest = sym (append_assoc xs [] rest)

-- As long as the counter of the processor has not come to its end, the loop over `accept` never leaves the
-- array of threads, and each thread gets the connections that are its turn.
pub accept_block_loop-Shared :
    (n c : ℕ) (es : List ℕ) (externals : ℕ → List ℕ)
    → 0 < n
    → c + length es < 2 ^ 31
    → (s' : Server) × (accept_block_loop es
          (record { processor = at_count n c; externals = externals })
        ≡ some s')
      × Shared n c es (record { processor = at_count n c; externals = externals }) s'
unfolding accept_block_loop share
accept_block_loop-Shared n c [] externals pos_n room = (
  record { processor = at_count n c; externals = externals },
  refl,
  record { at_end = ap (at_count n) (omega arith); shares = λ t. refl },
)
accept_block_loop-Shared n c (e ∷ es) externals pos_n room =
    let next =
      enqueue_to (c % n) e (record { processor = at_count n (c + 1); externals = externals }) in
    let (s', run, shared) =
      accept_block_loop-Shared n (c + 1) es next.externals pos_n (omega arith) in
    (
      s',
      ap (λ o. o >>= accept_block_loop es) (schedule-one n c e externals pos_n (omega arith)) ∙ run,
      record {
        at_end = shared.at_end ∙ ap (at_count n) (omega arith);
        shares = λ t. shared.shares t ∙ regroup (t == c % n) e (share n t (c + 1) es) (externals t);
      },
    )
