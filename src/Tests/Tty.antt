-- ===== src/Tests/Tty.antt =====
-- The routines for the serial port at concrete inputs.
use slap.Base.{ℕ, ◌+◌, ◌≡◌, refl, true, false, ◌==◌, some, [], ◌∷◌, arith, if◌then◌else◌}
use slap.Base.Int.{pos}
use slap.Base.Result.{ok}
use slap.Tty.Baud.{magma_fastbaud_map, baudmap_magma_fast, set_baud_mapping, val2baud, baud2val}
use slap.Tty.Baud.Inverse.{table, val2baud-baud2val}
use slap.Tty.Lock.{Attempt, locked, busy, fxlock}
use slap.Tty.Lock.Gets.{fxlock-gets}
use slap.Tty.Open.{Termios, Process, Calls, opentty, closetty}
use slap.Base.Text.{ascii}
use slap.Base.Result.{Keeps, Returns}
use slap.Tty.Claim.{claim}
use slap.Tty.Claim.Closed.{IsLocked, closetty-claim}
use slap.Tty.Open.Restores.{IsClean, opentty-IsClean}

val2baud-baud2val_example :
    baud2val
      (table (λ v. false) baudmap_magma_fast)
      (val2baud (table (λ v. false) baudmap_magma_fast) 115200)
    ≡ 115200
unfolding set_baud_mapping magma_fastbaud_map
val2baud-baud2val_example = val2baud-baud2val (λ v. false) baudmap_magma_fast 115200 refl

-- Every call succeeds; the file gets the number 3.
abbrev good : Calls
good = record {
  dup = some 3;
  open_ = some 3;
  getfl = some 2;
  setfl = true;
  getattr = true;
  getattr_again = true;
  setattr = true;
  restore = true;
  close = true;
}

abbrev cooked : Termios
cooked = record { brkint = true; rest = 7 }

abbrev shell : Process
shell = record { mask = 14 ∷ []; fds = 0 ∷ 1 ∷ 2 ∷ []; modes = cooked }

-- The name is "-".
opentty-IsClean_example :
    Returns (opentty (record good { setattr = false }) (45 ∷ []) 2 shell) (λ o. IsClean shell o)
opentty-IsClean_example = opentty-IsClean (record good { setattr = false }) 45 [] 2 shell

-- The lock is free at the third attempt.
abbrev third : ℕ → Attempt
third k = if k == 2 then locked else busy

fxlock-gets_example : fxlock third (λ k. k + 100) 11 (pos 10) ≡ ok true
fxlock-gets_example =
    fxlock-gets third (λ k. k + 100) 2 11 10 (omega arith) (λ i lt. ground arith)
      (λ i lt. omega arith) refl

closetty-claim_example :
    Keeps
      (λ c.
        (true ≡ true)
        × IsLocked good good third (λ k. k + 100) 11 false
        × (closetty good c.fd c.saved c.process ≡ (true, shell)))
      (claim good third (λ k. k + 100) 11 (ascii "/dev/ttyS0") true shell)
closetty-claim_example =
    closetty-claim good good third (λ k. k + 100) 11 (ascii "/dev/ttyS0") true shell refl refl
