-- ===== src/Slpro/Device.antt =====
-- Opening and closing the printer: `set_density`, `set_printer_modes`, `switch_baud`, `connect`,
-- `disconnect`, `opendev` and `closedev` of slap/slpro.c. `use_cts`, `avoid_cts` and `try_cts` are
-- those of slap/port.c, for an open port.
pub mod Flow
pub mod Link
pub mod Silent
use slap.Base.{
  ℕ, Bool, true, false, not, ◌&&◌, ◌||◌, ◌==◌, ltb, List, [], ◌∷◌, Option, none, some,
  if◌then◌else◌,
}
use slap.Base.Bits.{has, without}
use slap.Base.Int.{ℤ, pos, ltb_ℤ, pos_part}
use slap.Base.Result.{Result, ok, err, fatal}
use slap.Media.{Ptype, pt_none, Density, light, demilight, norm, demibold, bold}
use slap.Serial.{
  Port, drained, resume, flushed_in, modes_set, slept, closed, ◌>>=◌, ◌>>◌, give, fail, done,
}
use slap.Tty.Baud.{val2baud}
use slap.Slpro.Line.{
  Host, State, Run, emit, get, get_modes, set_ps, get_model, close_tty, set_port, try_modes,
}
use slap.Slpro.Models.{Model}
use slap.Slpro.Setup.{set_margin}
use slap.Slpro.Status.{idle, garbled, wants_reset, force}
use slap.Slpro.Wait.{set_baud, getmodel, send_byte, wait_for_idle, formfeed, ping}

-- The table `code` of `set_density`.
abbrev pub density_code : Density → ℕ
density_code light = 0xFC
density_code demilight = 0xFE
density_code norm = 0x00
density_code demibold = 0x02
density_code bold = 0x04

-- The rate of `switch_baud`: no more than `maxbaud`, which is 0 for no limit.
unfoldable pub limited : (maxbaud speed : ℕ) → ℕ
limited maxbaud speed = if not (maxbaud == 0) && ltb maxbaud speed then maxbaud else speed

-- The byte that tells the printer the rate.
unfoldable pub speed_code : ℕ → ℕ
speed_code speed =
    if speed == 19200 then 1 else if speed == 38400 then 2 else if speed == 57600 then 3 else 0

-- The system and the printer can do the fast rate with hardware flow-control.
abbrev pub is_fast : Host → Model → Bool
is_fast host model =
    not (val2baud host.baudmap 57600 == 0) && model.can_57600_baud && model.does_rtscts

-- `struct termios` as the port has it, with the flag CRTSCTS set or cleared.
abbrev set_port_cts : Port → Bool → Run Bool
set_port_cts port v s =
    (do
      good ← try_modes port modes_set
      λ t. ok (good, record t { port_cts = if good then v else s.port_cts }))
      s

module _ (host : Host) (port : Port) (fuel : ℕ) where
  unfoldable pub use_cts : Run Bool
  use_cts = if host.has_crtscts then set_port_cts port true else give false

  unfoldable pub avoid_cts : Run Bool
  avoid_cts = if host.has_crtscts then set_port_cts port false else give true

  -- `try_cts` of slap/port.c, from the test of CRTSCTS on, when the flag is not set or cannot be
  -- set again.
  unfoldable pub probe_cts : Run Bool
  probe_cts = do good ← use_cts; _ ← avoid_cts; give (not good)

  unfoldable pub try_cts : Run Bool
  try_cts s =
      if not host.has_crtscts
      then ok (false, s)
      else if not s.port_cts
      then probe_cts s
      else (do good ← set_port_cts port true; if good then give true else probe_cts) s

  unfoldable pub set_density : Density → Run (Unit {0})
  set_density d = do
    send_byte host port fuel 0xE false
    send_byte host port fuel (density_code d) false

  -- Two bytes, blind.
  abbrev send_two : (b c : ℕ) → Run (Unit {0})
  send_two b c = do send_byte host port fuel b true; send_byte host port fuel c true

  unfoldable pub set_printer_modes : Run (Unit {0})
  set_printer_modes = do
    model ← get_model
    if model.will_auto_offline then send_two 0x1E 0x0 else done
    set_density (if model.is_faint then bold else norm)
    if model.has_antibanding then send_two 0x17 0x0 else done
    if model.can_tune_xonxoff
        then (do
          good ← wait_for_idle host port fuel 1
          if good then (do send_two 0x18 32; send_two 0x19 100) else done)
        else done
    set_margin host port fuel

  unfoldable pub switch_baud : ℕ → Run Bool
  switch_baud wanted = do
    emit resume
    send_byte host port fuel 0x3 true
    emit drained
    s ← get
    let speed = limited s.maxbaud wanted
    send_byte host port fuel (speed_code speed) true
    emit drained
    if host.early_drain then emit (slept 1) else done
    set_baud host port fuel speed
    _ ← wait_for_idle host port fuel 1
    give true

  -- `connect` from `init_channel` on, when the port is open and locked (Tty.Claim). `init_channel`
  -- takes the modes of the port, of which CRTSCTS stays as it was, changes the others and sets
  -- them.
  unfoldable pub connect : Run Ptype
  connect = do
    get_modes
    set_port port modes_set
    emit flushed_in
    found ← ping host port fuel
    if not found then give pt_none else (do
      _ ← getmodel host port fuel
      _ ← try_modes port modes_set
      model ← get_model
      fast ← (if is_fast host model then use_cts else give false)
      _ ← switch_baud (if fast then 57600 else 38400)
      set_printer_modes
      _ ← wait_for_idle host port fuel 2
      last ← get_model
      give last.ptype)

  -- What `disconnect` does when the printer is in order.
  unfoldable pub leave : Run (Unit {0})
  leave = do
    t ← get
    if not t.tof then formfeed host port fuel true else done
    emit resume
    s ← get
    set_ps (without idle s.ps)
    send_byte host port fuel 0x1 true
    _ ← wait_for_idle host port fuel 8
    model ← get_model
    _ ← switch_baud model.default_baud
    done

  unfoldable pub disconnect : Run (Unit {0})
  disconnect s =
      if not s.is_open
      then ok (tt, s)
      else (do
        _ ← avoid_cts
        emit resume
        emit drained
        force port fuel
        t ← get
        if has garbled t.ps || wants_reset t.ps then done else leave
        emit closed
        close_tty)
          s

  abbrev is_none : Ptype → Bool
  is_none pt_none = true
  is_none _ = false

  -- The state that `opendev` starts with; MAXNOPS is 54. `clean` says how the port was found.
  abbrev pub new_state : (maxbaudval : ℤ) → (clean : State) → State
  new_state maxbaudval clean = record clean {
    is_open = true;
    tof = true;
    map = none;
    nslices = 54;
    maxbaud = if ltb_ℤ (pos 0) maxbaudval then pos_part maxbaudval else 0;
    m = none;
    ps = 0;
  }

  -- `opendev` for a target: the model found, and the state if there is one.
  unfoldable pub opendev : (maxbaudval : ℤ) → State → Result (Ptype × State)
  opendev maxbaudval clean =
      (do ptype ← connect; if is_none ptype then (do disconnect; give pt_none) else give ptype)
        (new_state maxbaudval clean)

  -- `closedev` of an open device: the map is given back.
  unfoldable pub closedev : Run (Unit {0})
  closedev = do disconnect; λ s. ok (tt, record s { map = none })
