-- ===== src/Tty/Open/Restores.antt =====
-- The signal mask is given back on every path, and a port that was opened is closed as it was
-- found.
use slap.Base.{
  ℕ, ◌≡◌, refl, subst, Bool, true, false, not, ◌&&◌, ◌==◌, ==_iff, Option-cases, if-both, inl, inr,
  Option, none, some, List, ◌∷◌,
}
use slap.Tty.Open.{
  Termios, Process, Calls, is_accessible, remove, Opened, give_up, set_modes, open_file, opentty,
  closetty,
}
use slap.Base.Result.{Returns, returns}
use slap.Base.Text.{ascii, same_text}

remove-head : (fd : ℕ) (fds : List ℕ) → remove fd (fd ∷ fds) ≡ fds
unfolding remove
remove-head fd fds = let e : (fd == fd) ≡ true = (==_iff fd fd).1 refl in rw e refl

-- What is to hold of the process `q` after opening in `p`: where it failed nothing has changed, and
-- where it did not there is one more open file, the modes before are saved, and BRKINT is off.
abbrev pub After : Process → Option (ℕ × Termios) → Process → Type 0
After p none q = (q.fds ≡ p.fds) × (q.modes ≡ p.modes)
After p (some (fd, saved)) q =
    (q.fds ≡ fd ∷ p.fds) × (saved ≡ p.modes) × (q.modes ≡ record p.modes { brkint = false })

pub record IsClean (p : Process) (o : Opened) : Type 0 where
  pub mask_eq : (o.1).mask ≡ p.mask
  pub after : After p o.0 o.1

abbrev with_file : ℕ → Process → Process
with_file fd p = record p { mask = 2 ∷ p.mask; fds = fd ∷ p.fds }

give_up-IsClean : (fd : ℕ) (p : Process) → IsClean p (give_up p.mask fd (with_file fd p))
unfolding give_up
give_up-IsClean fd p = record { mask_eq = refl; after = (remove-head fd p.fds, refl) }

set_modes-IsClean :
    (calls : Calls) (fd : ℕ) (p : Process) → IsClean p (set_modes calls p.mask fd (with_file fd p))
unfolding set_modes
set_modes-IsClean calls fd p =
    let bad = give_up-IsClean fd p in
    if-both (IsClean p) (not calls.setfl) _ _ bad (
      if-both (IsClean p) (not (calls.getattr && calls.getattr_again)) _ _ bad (
        if-both (IsClean p) (not calls.setattr) _ _ bad
          (record { mask_eq = refl; after = (refl, refl, refl) })))

unopened : (p : Process) → IsClean p (none, p)
unopened p = record { mask_eq = refl; after = (refl, refl) }

open_file-IsClean :
    (calls : Calls) (to_stdout : Bool) (accmode : ℕ) (p : Process)
    → IsClean p (open_file calls to_stdout accmode p)
unfolding open_file
open_file-IsClean calls true accmode p = elim (Option-cases calls.dup) [
  | inl e ↦ rw e (unopened p)
  | inr (fd, e) ↦ rw e (
      if-both (IsClean p) (is_accessible accmode calls.getfl) _ _ (set_modes-IsClean calls fd p)
        (give_up-IsClean fd p))
]
open_file-IsClean calls false accmode p = elim (Option-cases calls.open_) [
  | inl e ↦ rw e (unopened p)
  | inr (fd, e) ↦ rw e (set_modes-IsClean calls fd p)
]

-- For a name that is not empty, and however the system calls end: `opentty` gives back the signal
-- mask; a failure leaves no file open and the modes as they were, and success opens one file, saves
-- the modes, and turns BRKINT off.
pub opentty-IsClean :
    (calls : Calls) (c : ℕ) (cs : List ℕ) (accmode : ℕ) (p : Process)
    → Returns (opentty calls (c ∷ cs) accmode p) (λ o. IsClean p o)
unfolding opentty
opentty-IsClean calls c cs accmode p =
    returns _ (open_file-IsClean calls (same_text (c ∷ cs) (ascii "-")) accmode p)

closes :
    (calls : Calls) (fd : ℕ) (saved : Termios) (p q : Process)
    → q.mask ≡ p.mask
    → q.fds ≡ fd ∷ p.fds
    → saved ≡ p.modes
    → calls.restore ≡ true
    → calls.close ≡ true
    → closetty calls fd saved q ≡ (true, p)
unfolding closetty
closes calls fd saved p q mask fds modes restored closed =
    rw (restored, closed, mask, fds, modes, remove-head fd p.fds)

-- A port that was opened and is closed, both without an error, leaves the process as it was: the
-- same signal mask, no file more, and the modes as they were found.
pub closetty-open_file :
    (calls calls' : Calls) (to_stdout : Bool) (accmode fd : ℕ) (saved : Termios) (p : Process)
    → (open_file calls to_stdout accmode p).0 ≡ some (fd, saved)
    → calls'.restore ≡ true
    → calls'.close ≡ true
    → closetty calls' fd saved (open_file calls to_stdout accmode p).1 ≡ (true, p)
closetty-open_file calls calls' to_stdout accmode fd saved p opened restored closed =
    let q = (open_file calls to_stdout accmode p).1 in
    let c = open_file-IsClean calls to_stdout accmode p in
    let (fds, modes, _) = subst (λ o. After p o q) opened c.after in
    closes calls' fd saved p q c.mask_eq fds modes restored closed
