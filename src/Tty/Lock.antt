-- ===== src/Tty/Lock.antt =====
-- `fxlock` of slap/port.c: an exclusive lock on a file, with a timeout.
pub mod Gets
use slap.Base.{ℕ, zero, suc, ◌+◌, ◌-◌, Bool, true, false, ltb, if◌then◌else◌}
use slap.Base.Int.{ℤ, pos, negsuc}
use slap.Base.Result.{Result, ok, err, out_of_fuel}

-- How `fcntl` with F_SETLK ends: with the lock, with EAGAIN, or with another error.
pub data Attempt : Type 0 where
  locked busy refused : Attempt

-- The `k`-th attempt, and what the `k`-th call of `time` returns.
module _ (attempt : ℕ → Attempt) (clock : ℕ → ℕ) where
  -- The loop, from the `k`-th attempt on; `t1` is the start. A clock that goes back has not reached
  -- the timeout.
  unfoldable pub lock_loop : (fuel k t1 timeout : ℕ) → Result Bool
  lock_loop zero k t1 timeout = err out_of_fuel
  lock_loop (suc fuel) k t1 timeout =
      let again = lock_loop fuel (k + 1) t1 timeout in
      elim (attempt k) [
        | locked ↦ ok true
        | refused ↦ ok false
        | busy ↦ if ltb (clock (k + 1)) (t1 + timeout) then again else ok false
      ]

  unfoldable pub fxlock : (fuel : ℕ) (timeout : ℤ) → Result Bool
  fxlock fuel (pos timeout) = lock_loop fuel 0 (clock 0) timeout
  fxlock fuel (negsuc n) = lock_loop fuel 0 (clock 0) 0
