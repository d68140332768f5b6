-- ===== src/Tty/Lock/Gets.antt =====
-- `fxlock` comes to an end, and it gets a lock that is given up in time.
use slap.Base.{
  ℕ, zero, suc, ◌+◌, ◌≤◌, ◌<◌, ◌≡◌, refl, true, false, ltb, arith, inl, inr, lt→ltb, ltb→lt, ◌⊎◌,
}
use slap.Base.Int.{ℤ, pos, negsuc}
use slap.Base.Result.{ok, Returns, returns, if-Returns}
use slap.Tty.Lock.{Attempt, locked, busy, refused, lock_loop, fxlock}

abbrev pub limit : ℤ → ℕ
limit (pos timeout) = timeout
limit (negsuc n) = 0

Attempt-cases : (a : Attempt) → (a ≡ locked) ⊎ ((a ≡ refused) ⊎ (a ≡ busy))
Attempt-cases locked = inl refl
Attempt-cases refused = inr (inl refl)
Attempt-cases busy = inr (inr refl)

module _ (attempt : ℕ → Attempt) (clock : ℕ → ℕ) where
  -- The number of the attempt is the time that has passed, or less.
  lock_loop-ends :
      (sleeps : (k : ℕ) → clock k + 1 ≤ clock (k + 1)) (fuel k t1 timeout : ℕ)
      → t1 + k ≤ clock k
      → timeout < fuel + k
      → 0 < fuel
      → Returns (lock_loop attempt clock fuel k t1 timeout) (λ good. Unit {0})
  unfolding lock_loop
  lock_loop-ends sleeps zero k t1 timeout h enough some_ = absurd (omega arith)
  lock_loop-ends sleeps (suc fuel) k t1 timeout h enough some_ = elim (Attempt-cases (attempt k)) [
    | inl e ↦ rw (lock_loop, e) (returns true tt)
    | inr (inl e) ↦ rw (lock_loop, e) (returns false tt)
    | inr (inr e) ↦
        rw (lock_loop, e)
          (if-Returns (ltb (clock (k + 1)) (t1 + timeout))
            (λ early.
              let lt = ltb→lt _ _ early in
              let step = sleeps k in
              lock_loop-ends sleeps fuel (k + 1) t1 timeout (omega arith) (omega arith)
                (omega arith))
            (λ late. returns false tt))
  ]

  -- Once it is known that the clock goes on by a second or more from one attempt to the next,
  -- `fxlock` with a fuel that is more than the timeout ends without a fault.
  pub fxlock-Returns :
      (sleeps : (k : ℕ) → clock k + 1 ≤ clock (k + 1)) (fuel : ℕ) (timeout : ℤ)
      → limit timeout < fuel
      → Returns (fxlock attempt clock fuel timeout) (λ good. Unit {0})
  unfolding fxlock
  fxlock-Returns sleeps fuel (pos timeout) h =
      lock_loop-ends sleeps fuel 0 (clock 0) timeout (omega arith) (omega arith) (omega arith)
  fxlock-Returns sleeps fuel (negsuc n) h =
      lock_loop-ends sleeps fuel 0 (clock 0) 0 (omega arith) (omega arith) (omega arith)

  lock_loop-gets :
      (n fuel k t1 timeout : ℕ)
      → n < fuel
      → ((i : ℕ) → i < n → attempt (k + i) ≡ busy)
      → ((i : ℕ) → i < n → clock (k + i + 1) < t1 + timeout)
      → attempt (k + n) ≡ locked
      → lock_loop attempt clock fuel k t1 timeout ≡ ok true
  unfolding lock_loop
  lock_loop-gets n zero k t1 timeout h b c l = absurd (omega arith)
  lock_loop-gets zero (suc fuel) k t1 timeout h b c l =
      let e : k + 0 ≡ k = omega arith in rw (lock_loop, (rw e at l)) refl
  lock_loop-gets (suc n) (suc fuel) k t1 timeout h b c l =
      let e : k + 0 ≡ k = omega arith in
      let now : attempt k ≡ busy = rw e at (b 0 (omega arith)) in
      let in_time : ltb (clock (k + 1)) (t1 + timeout) ≡ true =
        lt→ltb _ _ (rw e at (c 0 (omega arith))) in
      let s : (i : ℕ) → k + 1 + i ≡ k + suc i = λ i. omega arith in
      rw (lock_loop, now, in_time)
        (lock_loop-gets n fuel (k + 1) t1 timeout (omega arith)
          (λ i lt. rw (s i) (b (suc i) (omega arith))) (λ i lt. rw (s i) (c (suc i) (omega arith)))
          (rw (s n) l))

  -- A lock that another process holds at the first `n` attempts, and no more at the next, is got,
  -- if the time is not up after any of the first `n`.
  pub fxlock-gets :
      (n fuel timeout : ℕ)
      → n < fuel
      → ((i : ℕ) → i < n → attempt i ≡ busy)
      → ((i : ℕ) → i < n → clock (i + 1) < clock 0 + timeout)
      → attempt n ≡ locked
      → fxlock attempt clock fuel (pos timeout) ≡ ok true
  unfolding fxlock
  fxlock-gets n fuel timeout h b c l =
      let z : (i : ℕ) → 0 + i ≡ i = λ i. omega arith in
      lock_loop-gets n fuel 0 (clock 0) timeout h (λ i lt. rw (z i) (b i lt))
        (λ i lt. rw (z i) (c i lt)) (rw (z n) l)
