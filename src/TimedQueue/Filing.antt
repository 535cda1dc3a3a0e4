-- ===== src/TimedQueue/Filing.antt =====
-- The bucket of an event against its range of times.
use native.Mathlib.Nat.{pow-le-pow_right}
use native.Mathlib.Decide.{dec_le, dec_lt}
use Prim.Native.Nat.{min}
use ostrichserver.Base.{
  ℕ, zero, suc, ◌+◌, ◌-◌, ◌*◌, ◌^◌, ◌<◌, ◌≤◌, ◌≡◌, ◌⊎◌, inl, inr, arith, Bool-cases,
}
use ostrichserver.TimedQueue.Buckets.{within, bucket_of, lower_bucket}

-- The bucket `i` is the one of its range: the event is due within the time of bucket `i`, the last one
-- having no end, and not within the time of the bucket below it.
pub record IsBucketOf (timeout now i : ℕ) : Type 0 where
  pub below_ten : i < 10
  pub due : (i ≡ 9) ⊎ (timeout ≤ now + 5 * 2 ^ i)
  pub later : (i ≡ 0) ⊎ (now + 5 * 2 ^ (i - 1) < timeout)

bucket_of-IsBucketOf : (timeout now : ℕ) → IsBucketOf timeout now (bucket_of timeout now)
unfolding bucket_of
bucket_of-IsBucketOf timeout now = ground arith

pow_mono : (a b : ℕ) → a ≤ b → 2 ^ a ≤ 2 ^ b
pow_mono a b h = pow-le-pow_right (omega arith) h

at_most : (timeout now j i : ℕ) → IsBucketOf timeout now i → timeout ≤ now + 5 * 2 ^ j → i ≤ j
at_most timeout now j i v soon = elim (dec_le i j) [
  | yes low ↦ low
  | no high ↦ omega (arith, v.later, pow_mono j (i - 1) (omega arith))
]

above : (timeout now j i : ℕ) → IsBucketOf timeout now i → j < 9 → now + 5 * 2 ^ j < timeout → j < i
above timeout now j i v short far = elim (dec_lt j i) [
  | yes high ↦ high
  | no low ↦ omega (arith, v.due, pow_mono i j (omega arith))
]

lower_bucket-eq-min :
    (timeout now i : ℕ) → i ≤ 9 → lower_bucket timeout now i ≡ min i (bucket_of timeout now)
unfolding lower_bucket
lower_bucket-eq-min timeout now zero h = omega arith
lower_bucket-eq-min timeout now (suc j) h = elim (Bool-cases (within timeout now j)) [
  | inl soon ↦
      let low : bucket_of timeout now ≤ j =
        at_most timeout now j (bucket_of timeout now) (bucket_of-IsBucketOf timeout now)
          (ground (arith, soon)) in
      rw soon (omega (arith, lower_bucket-eq-min timeout now j (omega arith)))
  | inr far ↦
      let high : j < bucket_of timeout now =
        above timeout now j (bucket_of timeout now) (bucket_of-IsBucketOf timeout now) (omega arith)
          (ground (arith, far)) in
      rw far (omega arith)
]

-- `event_priority_enqueue` puts an event into the bucket of its range of times, and the loop of
-- `priority_queue_check`, which starts from the bucket `i` that the event is in, finds the same bucket,
-- or `i` where that is lower.
pub buckets_agree :
    (timeout now : ℕ)
    → IsBucketOf timeout now (bucket_of timeout now)
      × ((i : ℕ) → i ≤ 9 → lower_bucket timeout now i ≡ min i (bucket_of timeout now))
buckets_agree timeout now = (bucket_of-IsBucketOf timeout now, lower_bucket-eq-min timeout now)
