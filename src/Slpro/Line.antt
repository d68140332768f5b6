-- ===== src/Slpro/Line.antt =====
-- The state of slap/slpro.c, the system that it is built for, and its access to the serial port.
use slap.Base.{ℕ, ◌+◌, Bool, true, false, List, [], ◌∷◌, Option, none, some, if◌then◌else◌}
use slap.Base.Int.{ℤ}
use slap.Base.Result.{ok, err, fatal, wild_pointer}
use slap.Serial.{Port, Event, sent, Over}
use slap.Tty.Baud.{Baudinfo}
use slap.Slpro.Models.{Model}

-- What the build and the system decide: the table of baud rates in effect, whether CRTSCTS is
-- defined, and whether `tcdrain` is known to return early (__linux__ or TCDRAIN_BROKEN).
pub record Host : Type 0 where
  pub baudmap : List Baudinfo
  pub has_crtscts : Bool
  pub early_drain : Bool

-- `STATE`, with the static `old_timeout` of `recv_bytes`, the numbers of the next calls, and what
-- was done to the port, the latest first. `is_open` says that `fd` is not negative; of the modes in
-- `tm` and of the port's own only CRTSCTS is kept, as `tm_cts` and `port_cts`. A band is the list
-- of its slices.
pub record State : Type 0 where
  pub is_open : Bool
  pub tm_cts : Bool
  pub port_cts : Bool
  pub tof : Bool
  pub margin : ℕ
  pub map : Option (List (List ℕ))
  pub nbands : ℕ
  pub nslices : ℕ
  pub maxbaud : ℕ
  pub m : Option Model
  pub ps : ℕ
  pub old_timeout : ℤ
  pub nreads : ℕ
  pub nwrites : ℕ
  pub nsets : ℕ
  pub nlooks : ℕ
  pub log : List Event

abbrev pub Run : Type 0 → Type 0
Run A = Over State A

abbrev pub emit : Event → Run (Unit {0})
emit e s = ok (tt, record s { log = e ∷ s.log })

abbrev pub get : Run State
get s = ok (s, s)

-- `tcgetattr` into `tm`
abbrev pub get_modes : Run (Unit {0})
get_modes s = ok (tt, record s { tm_cts = s.port_cts })

abbrev pub set_ps : ℕ → Run (Unit {0})
set_ps v s = ok (tt, record s { ps = v })

abbrev pub set_tof : Bool → Run (Unit {0})
set_tof v s = ok (tt, record s { tof = v })

abbrev pub set_model : Option Model → Run (Unit {0})
set_model v s = ok (tt, record s { m = v })

-- `*st->m`
abbrev pub get_model : Run Model
get_model s = elim s.m [ none ↦ err wild_pointer | some model ↦ ok (model, s) ]

abbrev pub close_tty : Run (Unit {0})
close_tty s = ok (tt, record s { is_open = false })

-- The events of a `write` of these bytes, the latest first.
unfoldable pub log_bytes : List ℕ → List Event → List Event
log_bytes [] es = es
log_bytes (b ∷ bs) es = log_bytes bs (sent b ∷ es)

module _ (port : Port) where
  -- `read`; the driver calls `Error` when it fails.
  abbrev pub read_port : Run (List ℕ)
  read_port s = elim (port.reads s.nreads) [
    | none ↦ err fatal
    | some bytes ↦ ok (bytes, record s { nreads = s.nreads + 1 })
  ]

  -- One `write`, and whether it took all the bytes.
  abbrev pub write_port : List ℕ → Run Bool
  write_port bs s =
      if port.writes s.nwrites
      then ok (true, record s { nwrites = s.nwrites + 1; log = log_bytes bs s.log })
      else ok (false, record s { nwrites = s.nwrites + 1 })

  -- `tcsetattr` with the modes in `tm`, and whether it succeeded.
  abbrev pub try_modes : Event → Run Bool
  try_modes e s =
      if port.sets s.nsets
      then ok (true, record s { nsets = s.nsets + 1; port_cts = s.tm_cts; log = e ∷ s.log })
      else ok (false, record s { nsets = s.nsets + 1 })

  -- The same, where the driver calls `Error` when it fails.
  abbrev pub set_port : Event → Run (Unit {0})
  set_port e s =
      if port.sets s.nsets
      then ok (tt, record s { nsets = s.nsets + 1; port_cts = s.tm_cts; log = e ∷ s.log })
      else err fatal

  -- `time`
  abbrev pub now : Run ℕ
  now s = ok (port.clock s.nlooks, record s { nlooks = s.nlooks + 1 })
