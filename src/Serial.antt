-- ===== src/Serial.antt =====
-- The serial port that the drivers talk through, and the runs over a driver's state. The system
-- calls and the printer behind them are not the program's: a `Port` says how each call ends.
pub mod Modes
pub mod Traffic
pub mod Safety
pub mod Silence
use slap.Base.{ℕ, Bool, List, [], ◌∷◌, ◌++◌, Option}
use slap.Base.Int.{ℤ}
use slap.Base.Result.{Result, ok, err, Fault}

pub record Port : Type 0 where
  -- what the `k`-th `read` delivers, if it is not an error
  pub reads : ℕ → Option (List ℕ)
  -- whether the `k`-th `write` succeeds
  pub writes : ℕ → Bool
  -- whether the `k`-th change of the port's modes succeeds
  pub sets : ℕ → Bool
  -- what the `k`-th call of `time` returns, in seconds
  pub clock : ℕ → ℕ

-- What the driver does to the port, but for reading it.
pub data Event : Type 0 where
  -- `write` of one byte
  sent : ℕ → Event
  -- `tcdrain`
  drained : Event
  -- `tcflush` with TCOFLUSH, TCIFLUSH, TCIOFLUSH
  flushed_out flushed_in flushed_both : Event
  -- `tcflow` with TCOOFF, TCOON
  hold resume : Event
  -- `tcsetattr` with another read-timeout, in tenths of a second
  timeout_set : ℤ → Event
  -- `cfsetospeed`, `cfsetispeed` and `tcsetattr`
  baud_set : ℕ → Event
  -- `tcsetattr` with the modes of `init_channel`, or with BRKINT added
  modes_set : Event
  -- `tcsendbreak`
  broke : Event
  -- `sleep`
  slept : ℕ → Event
  -- `Warning` or `Notice`
  told : Event
  -- `closetty`
  closed : Event

-- The bytes that were written, the first one first.
unfoldable pub bytes : List Event → List ℕ
bytes [] = []
bytes (sent b ∷ es) = bytes es ++ b ∷ []
bytes (_ ∷ es) = bytes es

-- The bytes that were written, the drains, the sleeps and the rates that were set, in their order.
unfoldable pub wire : List Event → List Event
wire [] = []
wire (sent b ∷ es) = wire es ++ sent b ∷ []
wire (drained ∷ es) = wire es ++ drained ∷ []
wire (slept n ∷ es) = wire es ++ slept n ∷ []
wire (baud_set v ∷ es) = wire es ++ baud_set v ∷ []
wire (_ ∷ es) = wire es

-- A run over the driver's state `S`.
abbrev pub Over : Type 0 → Type 0 → Type 0
Over S A = S → Result (A × S)

infixl 5 ◌>>=◌ ◌>>◌
abbrev pub ◌>>=◌ : {S A B : Type 0} → Over S A → (A → Over S B) → Over S B
(m >>= k) s = elim (m s) [ ok (a, t) ↦ k a t | err why ↦ err why ]

abbrev pub ◌>>◌ : {S B : Type 0} → Over S (Unit {0}) → Over S B → Over S B
m >> k = m >>= λ _. k

abbrev pub give : {S A : Type 0} → A → Over S A
give a s = ok (a, s)

abbrev pub fail : {S A : Type 0} → Fault → Over S A
fail why s = err why

abbrev pub done : {S : Type 0} → Over S (Unit {0})
done s = ok (tt, s)
