-- ===== src/Tty/Claim/Closed.antt =====
-- A port that `connect` of the drivers opens and locks, and that is closed again.
use slap.Base.{
  ℕ, ◌≡◌, ◌⊎◌, inl, inr, refl, Bool, true, false, not, Bool-cases, Option-cases, List, [], ◌∷◌,
  if◌then◌else◌,
}
use slap.Base.Int.{pos}
use slap.Base.Result.{Result, ok, err, fatal, ◌>>=◌, Keeps, Keeps-mono}
use slap.Base.Text.{ascii, same_text}
use slap.Tty.Lock.{Attempt, fxlock}
use slap.Tty.Open.{Process, Calls, open_file, opentty, closetty}
use slap.Tty.Open.Restores.{closetty-open_file}
use slap.Tty.Claim.{Claimed, lock_port, claim}

module _ (calls calls' : Calls) (attempt : ℕ → Attempt) (clock : ℕ → ℕ) (fuel : ℕ) where
  -- The port is closed, and the process is as it was.
  abbrev Restores : Process → Claimed → Type 0
  Restores p c = closetty calls' c.fd c.saved c.process ≡ (true, p)

  -- The lock was got, unless none is wanted.
  abbrev pub IsLocked : (to_stdout : Bool) → Type 0
  IsLocked to_stdout = (to_stdout ≡ true) ⊎ (fxlock attempt clock fuel (pos 10) ≡ ok true)

  lock_port-IsLocked :
      (to_stdout : Bool) (p : Process) (c : Claimed)
      → Restores p c
      → Keeps
          (λ d. IsLocked to_stdout × Restores p d)
          (lock_port calls attempt clock fuel (not to_stdout) c)
  unfolding lock_port
  lock_port-IsLocked true p c h = (inl refl, h)
  lock_port-IsLocked false p c h = go (fxlock attempt clock fuel (pos 10)) refl
    where
      go :
          (r : Result Bool)
          → fxlock attempt clock fuel (pos 10) ≡ r
          → Keeps
              (λ d. IsLocked false × Restores p d)
              (r >>= λ good. if good then ok c else err fatal)
      go (ok true) e = (inr e, h)
      go (ok false) e = tt
      go (err why) e = tt

  -- However the calls end, and whatever the attempts at the lock find: where the opening and the
  -- locking of a port come to an end, the port is a terminal, and it is locked unless it is
  -- standard output; and when it is closed without an error, the process is as it was, with the
  -- same signal mask, no file more, and the modes as they were found.
  pub closetty-claim :
      (target : List ℕ) (is_tty : Bool) (p : Process)
      → calls'.restore ≡ true
      → calls'.close ≡ true
      → Keeps
          (λ c.
            (is_tty ≡ true)
            × IsLocked (same_text target (ascii "-"))
            × (closetty calls' c.fd c.saved c.process ≡ (true, p)))
          (claim calls attempt clock fuel target is_tty p)
  unfolding claim opentty
  closetty-claim [] is_tty p restored closed = tt
  closetty-claim (n ∷ name) is_tty p restored closed =
      let target = n ∷ name in
      let to_stdout = same_text target (ascii "-") in
      let result = open_file calls to_stdout 2 p in
      let P : Claimed → Type 0 = λ c. (is_tty ≡ true) × IsLocked to_stdout × Restores p c in
      elim (Option-cases result.0) [
        | inl e ↦ rw (claim, e) tt
        | inr ((fd, saved), e) ↦
            let c : Claimed = record { fd = fd; saved = saved; process = result.1 } in
            let back = closetty-open_file calls calls' to_stdout 2 fd saved p e restored closed in
            rw (claim, e)
              (elim (Bool-cases is_tty) [
                | inl tty ↦ rw tty (
                    Keeps-mono (λ d. IsLocked to_stdout × Restores p d) _ _
                      (lock_port-IsLocked to_stdout p c back) (λ d (l, r). (refl, l, r)))
                | inr other ↦ rw other tt
              ])
      ]
