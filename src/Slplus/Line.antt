-- ===== src/Slplus/Line.antt =====
-- The state of slap/slplus.c, and the runs over it.
use slap.Base.{ℕ, ◌+◌, Bool, true, false, List, ◌∷◌, none, some, if◌then◌else◌}
use slap.Base.Int.{ℤ}
use slap.Base.Result.{ok, err, fatal}
use slap.Slplus.Map.{Band}
unfoldable pub use slap.Serial.{bytes}
pub use slap.Serial.{
  Port, Event, sent, drained, flushed_out, flushed_in, flushed_both, hold, resume, timeout_set,
  baud_set, modes_set, broke, slept, told, closed, Over, ◌>>=◌, ◌>>◌, give, fail, done,
}

-- `STATE`, with the static `old_timeout` of `recv_bytes`, the numbers of the next calls, and what
-- was done to the port, the latest first. `is_open` says that `fd` is not negative.
pub record State : Type 0 where
  pub is_open : Bool
  pub tof : Bool
  pub bands : List Band
  pub nslices : ℕ
  pub ps : ℕ
  pub old_timeout : ℤ
  pub nreads : ℕ
  pub nwrites : ℕ
  pub nsets : ℕ
  pub nlooks : ℕ
  pub log : List Event

abbrev pub Run : Type 0 → Type 0
Run A = Over State A

abbrev pub emit : Event → Run (Unit {0})
emit e s = ok (tt, record s { log = e ∷ s.log })

abbrev pub get_ps : Run ℕ
get_ps s = ok (s.ps, s)

abbrev pub set_ps : ℕ → Run (Unit {0})
set_ps v s = ok (tt, record s { ps = v })

abbrev pub set_tof : Bool → Run (Unit {0})
set_tof v s = ok (tt, record s { tof = v })

module _ (port : Port) where
  -- `read`; the driver calls `Error` when it fails.
  abbrev pub read_port : Run (List ℕ)
  read_port s = elim (port.reads s.nreads) [
    | none ↦ err fatal
    | some bytes ↦ ok (bytes, record s { nreads = s.nreads + 1 })
  ]

  -- `write` of one byte, and whether it succeeded.
  abbrev pub write_port : ℕ → Run Bool
  write_port b s =
      if port.writes s.nwrites
      then ok (true, record s { nwrites = s.nwrites + 1; log = sent b ∷ s.log })
      else ok (false, record s { nwrites = s.nwrites + 1 })

  -- A change of modes, which ends in `Error` when it fails.
  abbrev pub set_port : Event → Run (Unit {0})
  set_port e s =
      if port.sets s.nsets
      then ok (tt, record s { nsets = s.nsets + 1; log = e ∷ s.log })
      else err fatal

  -- `time`
  abbrev pub now : Run ℕ
  now s = ok (port.clock s.nlooks, record s { nlooks = s.nlooks + 1 })
