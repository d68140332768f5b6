-- ===== src/Session.antt =====
-- The table of media, `open_session`, `close_session` and what `handle_signal` does to the session,
-- slap/session.c.
pub mod Fit
use slap.Base.{
  ℕ, Bool, true, false, not, ◌&&◌, ◌==◌, List, [], ◌∷◌, ◌++◌, Option, none, some, if◌then◌else◌,
}
use slap.Base.Text.{ascii, same_text}
use slap.Base.Result.{Result, ok, err, ◌>>=◌}
use slap.Media.{Media}
use slap.Glue.{Drv, Entry, drivers, load_driver}

abbrev medium : List ℕ → (width height : ℕ) → Media
medium name width height = record { name = name; width = width; height = height }

unfoldable pub media : List Media
media =
    medium (ascii "std") 28 89
    ∷ medium (ascii "euro") 36 89
    ∷ medium (ascii "disk") 54 70
    ∷ medium (ascii "ship") 54 101
    ∷ medium (ascii "small") 28 51
    ∷ medium (ascii "strip") 14 87
    ∷ medium (ascii "slide") 38 11
    ∷ medium (ascii "cass") 9 71
    ∷ medium (ascii "leitz") 36 190
    ∷ medium (ascii "large") 51 190
    ∷ []

unfoldable pub find_medium : List ℕ → List Media → Option Media
find_medium name [] = none
find_medium name (m ∷ ms) = if same_text m.name name then some m else find_medium name ms

-- What a session needs of the drivers: an open device is an `Opd`, the arena an `Arena`.
pub record Drivers : Type 1 where
  pub Opd : Type 0
  pub Arena : Type 0
  pub open_entry : Entry → Result (Option Opd)
  pub setmedia : Drv → Opd → Media → (portrait : Bool) → Option (Opd × Arena)

module _ (D : Drivers) where
  open D use {Opd, Arena, open_entry, setmedia}

  -- `SESSION` when it is open.
  pub record Session : Type 0 where
    pub drv : Drv
    pub opd : Opd
    pub arena : Arena

  -- How `open_session` ends: with a session, or in a call of `Error`. `refused` has closed the
  -- device before that.
  pub data Outcome : Type 0 where
    bad_medium : Outcome
    no_printer : Outcome
    refused : (closed : Drv × Opd) → Outcome
    opened : Session → Outcome

  -- `model` is none for a null pointer. The signals are caught before the driver is loaded.
  unfoldable pub open_session :
      (model : Option (List ℕ)) (medium_name : List ℕ) (portrait : Bool) → Result Outcome
  open_session model medium_name portrait = elim (find_medium medium_name media) [
    | none ↦ ok bad_medium
    | some m ↦ (do
      loaded ← load_driver open_entry model drivers
      elim loaded [
        | none ↦ ok no_printer
        | some (drv, opd) ↦ ok (elim (setmedia drv opd m portrait) [
          | none ↦ refused (drv, opd)
          | some (opd', arena) ↦ opened (record { drv = drv; opd = opd'; arena = arena })
        ])
      ])
  ]

  -- What `close_session` and `handle_signal` do.
  pub data Action : Type 0 where
    close_device : Drv × Opd → Action
    free_bitmap : Arena → Action
    default_action raise_again unblock : (sig : ℕ) → Action
    exit_failure : Action

  -- A session that is perhaps not yet open: `opd` and `arena.bm` may be null pointers.
  pub record Parts : Type 0 where
    pub device : Option (Drv × Opd)
    pub arena : Option Arena

  unfoldable pub close_session : Option Parts → List Action
  close_session none = []
  close_session (some s) =
      elim (s.device) [ none ↦ [] | some d ↦ close_device d ∷ [] ]
      ++ elim (s.arena) [ none ↦ [] | some a ↦ free_bitmap a ∷ [] ]

  -- `sigabrt` is the number of SIGABRT, and `known` says whether the first `sigaction` succeeds.
  unfoldable pub handle_signal : (sigabrt : ℕ) (known : Bool) (sig : ℕ) → Option Parts → List Action
  handle_signal sigabrt known sig s =
      close_session s
      ++ (if not (sig == sigabrt) && known
          then default_action sig ∷ raise_again sig ∷ unblock sig ∷ []
          else [])
      ++ (exit_failure ∷ [])
