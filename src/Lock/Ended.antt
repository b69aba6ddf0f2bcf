-- ===== src/Lock/Ended.antt =====
-- The wait for the lock ends.
use myminivault.Prelude.{
  ℕ, zero, suc, ◌+◌, ◌≤◌, ◌<◌, ◌≡◌, ◌||◌, ◌==◌, ◌⊎◌, inl, inr, refl, true, Option, some, arith, ltb,
  Bool-cases,
}
use myminivault.Lock.{
  Flock, acquired, busy, refused, Outcome, ran, lock_failed, timed_out, delay_or_default, wait,
  with_file_timeout,
}

Flock-cases : (f : Flock) → (f ≡ acquired) ⊎ (f ≡ refused) ⊎ (f ≡ busy)
Flock-cases acquired = inl refl
Flock-cases refused = inr (inl refl)
Flock-cases busy = inr (inr refl)

-- The attempts from `i` on, from those after `i`.
busy_from :
    (attempt : ℕ → Flock) (i last : ℕ)
    → attempt i ≡ busy
    → ((k : ℕ) → i + 1 ≤ k → k < last → attempt k ≡ busy)
    → (k : ℕ) → i ≤ k
    → k < last
    → attempt k ≡ busy
busy_from attempt i last here after k p q = elim (Bool-cases (k == i)) [
  | inl same ↦ let e : k ≡ i = ground arith in rw e here
  | inr other ↦ after k (ground arith) q
]

module _ (attempt : ℕ → Flock) (now : ℕ → ℕ) (timeout delay deadline : ℕ) where
  -- What stands behind an outcome: the attempts before the last one met a busy lock, and the last one
  -- the lock, another error, or a busy lock with no time left.
  abbrev pub Explains : ℕ → Outcome → Type 0
  Explains last ran = attempt last ≡ acquired
  Explains last lock_failed = attempt last ≡ refused
  Explains last timed_out =
      (attempt last ≡ busy) × ((timeout == 0 || ltb deadline (now last + delay)) ≡ true)

  abbrev pub Ended : ℕ → Option Outcome → Type 0
  Ended first r =
      (outcome : Outcome) × ((last : ℕ) × (r ≡ some outcome)
        × (first ≤ last)
        × ((i : ℕ) → first ≤ i → i < last → attempt i ≡ busy)
        × Explains last outcome)

  -- Each round that sleeps takes the delay off the time that is left.
  pub wait-Ended :
      (fuel i : ℕ)
      → 0 < delay
      → ((k : ℕ) → now k + delay ≤ now (k + 1))
      → 0 < fuel
      → deadline + 1 ≤ now i + fuel
      → Ended i (wait attempt now timeout delay deadline fuel i)
  unfolding wait
  wait-Ended zero i d sleeps more enough = absurd (omega arith)
  wait-Ended (suc fuel) i d sleeps more enough = elim (Flock-cases (attempt i)) [
    | inl got ↦ (ran, (i, ground arith, omega arith, λ k p q. absurd (omega arith), got))
    | inr (inl broken) ↦
        (lock_failed, (i, ground arith, omega arith, λ k p q. absurd (omega arith), broken))
    | inr (inr wait_on) ↦ elim (Bool-cases (timeout == 0 || ltb deadline (now i + delay))) [
      | inl late ↦ (
        timed_out,
        (i, ground arith, omega arith, λ k p q. absurd (omega arith), (wait_on, late)),
      )
      | inr early ↦
          let in_time : now i + delay ≤ deadline = ground arith in
          let (outcome, (last, r, le, before, why)) =
            wait-Ended fuel (i + 1) d sleeps (omega arith) (omega (arith, sleeps i)) in
          (
            outcome,
            (last, ground (arith, r), omega arith, busy_from attempt i last wait_on before, why),
          )
    ]
  ]

-- If the clock is not before the start at the first attempt and each pause lasts at least the delay, the
-- wait for the lock ends within one round more than the timeout has nanoseconds: the function was called
-- after an attempt that got the lock, or the last attempt failed, or met a busy lock with no time for
-- another; and every attempt before the last met a busy lock.
pub with_file_timeout-Ended :
    (attempt : ℕ → Flock) (now : ℕ → ℕ) (timeout retry_delay start : ℕ)
    → start ≤ now 0
    → ((k : ℕ) → now k + delay_or_default retry_delay ≤ now (k + 1))
    → Ended attempt now timeout
        (delay_or_default retry_delay)
        (start + timeout)
        0
        (with_file_timeout attempt now start timeout retry_delay (timeout + 1))
unfolding with_file_timeout delay_or_default
with_file_timeout-Ended attempt now timeout retry_delay start first sleeps =
    wait-Ended attempt now timeout (delay_or_default retry_delay) (start + timeout) (timeout + 1) 0
      (ground arith) sleeps (omega arith) (omega (arith, first))
