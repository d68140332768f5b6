-- ===== src/Tty/Open.antt =====
-- `is_readable`, `is_writable`, `opentty` and `closetty` of slap/port.c: what they do to the signal
-- mask, the open files and the modes of the port.
pub mod Restores
use slap.Base.{
  ℕ, ◌/◌, ◌%◌, Bool, true, false, not, ◌&&◌, ◌||◌, ◌==◌, Option, none, some, List, [], ◌∷◌,
  if◌then◌else◌,
}
use slap.Base.Result.{Result, ok, err, assertion}
use slap.Base.Text.{ascii, same_text}

-- `struct termios`: BRKINT, and all the rest.
pub record Termios : Type 0 where
  pub brkint : Bool
  pub rest : ℕ

-- The signals that are blocked, the open files, and the modes of the port.
pub record Process : Type 0 where
  pub mask : List ℕ
  pub fds : List ℕ
  pub modes : Termios

-- How the system calls end, each for the file that is opened: what `dup` and `open` return, what
-- `fcntl` with F_GETFL returns, and whether `fcntl` with F_SETFL, the two calls of `tcgetattr`,
-- `tcsetattr`, and in `closetty` `tcsetattr` and `close` succeed.
pub record Calls : Type 0 where
  pub dup : Option ℕ
  pub open_ : Option ℕ
  pub getfl : Option ℕ
  pub setfl : Bool
  pub getattr : Bool
  pub getattr_again : Bool
  pub setattr : Bool
  pub restore : Bool
  pub close : Bool

-- SIGINT, and the access modes O_RDONLY = 0, O_WRONLY = 1 and O_RDWR = 2.
abbrev pub sigint : ℕ
sigint = 2

-- `om & (O_RDONLY|O_RDWR)`
unfoldable pub is_readable : (getfl : Option ℕ) → Bool
is_readable none = false
is_readable (some om) = not ((om / 2) % 2 == 0)

-- `om & (O_WRONLY|O_RDWR)`
unfoldable pub is_writable : (getfl : Option ℕ) → Bool
is_writable none = false
is_writable (some om) = not (om % 4 == 0)

-- The `switch` on the access mode that is wanted.
unfoldable pub is_accessible : (accmode : ℕ) (getfl : Option ℕ) → Bool
is_accessible accmode getfl =
    if accmode == 0
    then is_readable getfl
    else if accmode == 1
    then is_writable getfl
    else is_readable getfl && is_writable getfl

unfoldable pub remove : ℕ → List ℕ → List ℕ
remove fd [] = []
remove fd (x ∷ xs) = if x == fd then xs else x ∷ remove fd xs

-- The file and the modes that `opentty` saves, or none for -1.
abbrev pub Opened : Type 0
Opened = Option (ℕ × Termios) × Process

-- sigprocmask(SIG_SETMASK, &oldmask, NULL); close(fd); return (-1);
unfoldable pub give_up : (oldmask : List ℕ) (fd : ℕ) → Process → Opened
give_up oldmask fd p = (none, record p { mask = oldmask; fds = remove fd p.fds })

-- `opentty` from the setting of the file-status flags on.
unfoldable pub set_modes : Calls → (oldmask : List ℕ) (fd : ℕ) → Process → Opened
set_modes calls oldmask fd p =
    if not calls.setfl
    then give_up oldmask fd p
    else if not (calls.getattr && calls.getattr_again)
    then give_up oldmask fd p
    else if not calls.setattr
    then give_up oldmask fd p
    else (
      some (fd, p.modes),
      record p { mask = oldmask; modes = record p.modes { brkint = false } },
    )

-- `opentty` after its assertion. `to_stdout` says that the name is "-". When `dup` fails the tests
-- fail as well, on -1.
unfoldable pub open_file : Calls → (to_stdout : Bool) (accmode : ℕ) → Process → Opened
open_file calls to_stdout accmode p =
    let blocked = record p { mask = sigint ∷ p.mask } in
    if to_stdout
    then elim calls.dup [
      | none ↦ (none, p)
      | some fd ↦
          let q = record blocked { fds = fd ∷ p.fds } in
          if is_accessible accmode calls.getfl
          then set_modes calls p.mask fd q
          else give_up p.mask fd q
    ]
    else elim calls.open_ [
      | none ↦ (none, p)
      | some fd ↦ set_modes calls p.mask fd (record blocked { fds = fd ∷ p.fds })
    ]

-- The name is not a null pointer.
unfoldable pub opentty : Calls → (name : List ℕ) (accmode : ℕ) → Process → Result Opened
opentty calls [] accmode p = err assertion
opentty calls (c ∷ cs) accmode p = ok (open_file calls (same_text (c ∷ cs) (ascii "-")) accmode p)

-- Whether it succeeded, and the process afterwards.
unfoldable pub closetty : Calls → (fd : ℕ) (restore : Termios) → Process → Bool × Process
closetty calls fd restore p =
    let oldmask = p.mask in
    let blocked = record p { mask = sigint ∷ p.mask } in
    if not calls.restore
    then (false, record blocked { mask = oldmask })
    else if not calls.close
    then (false, record blocked { mask = oldmask; modes = restore })
    else (true, record blocked { mask = oldmask; modes = restore; fds = remove fd p.fds })
