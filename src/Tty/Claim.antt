-- ===== src/Tty/Claim.antt =====
-- How `connect` of slap/slplus.c and of slap/slpro.c opens and locks the port, before
-- `init_channel`; both do the same.
pub mod Closed
use slap.Base.{ℕ, Bool, not, none, some, List, if◌then◌else◌}
use slap.Base.Int.{pos}
use slap.Base.Result.{Result, ok, err, fatal, ◌>>=◌}
use slap.Base.Text.{ascii, same_text}
use slap.Tty.Lock.{Attempt, fxlock}
use slap.Tty.Open.{Termios, Process, Calls, opentty}

-- The open file, and the modes as they were found.
pub record Claimed : Type 0 where
  pub fd : ℕ
  pub saved : Termios
  pub process : Process

module _ (calls : Calls) (attempt : ℕ → Attempt) (clock : ℕ → ℕ) (fuel : ℕ) where
  -- The lock, for a port that is not standard output.
  unfoldable pub lock_port : (locking : Bool) → Claimed → Result Claimed
  lock_port locking c =
      if locking
      then (fxlock attempt clock fuel (pos 10) >>= λ good. if good then ok c else err fatal)
      else ok c

  -- The access mode is O_RDWR = 2; `is_tty` says that the file is a terminal.
  unfoldable pub claim : (target : List ℕ) (is_tty : Bool) → Process → Result Claimed
  claim target is_tty p =
      let to_stdout = same_text target (ascii "-") in
      opentty calls target 2 p >>= λ (file, q). elim file [
        | none ↦ err fatal
        | some (fd, saved) ↦
            if not is_tty
            then err fatal
            else lock_port (not to_stdout) (record { fd = fd; saved = saved; process = q })
      ]
