-- ===== src/Slpro/Wait.antt =====
-- Waiting for the printer, sending to it, and its faults: slap/slpro.c from `send_bytes` to
-- `check_fault`, but for the parts of `Slpro.Status`.
pub mod Clear
pub mod Frame
pub mod Kept
pub mod Polled
use slap.Base.{
  ℕ, zero, suc, ◌+◌, Bool, true, false, not, ◌&&◌, ◌==◌, List, [], ◌∷◌, Option, none, some,
  if◌then◌else◌, ltb,
}
use slap.Base.Bits.{has}
use slap.Base.Int.{ℤ, pos}
use slap.Base.Result.{Result, ok, err, fatal, out_of_fuel}
use slap.Media.{slp_pro}
use slap.Serial.{
  Port, drained, flushed_in, flushed_both, baud_set, slept, told, closed, ◌>>=◌, ◌>>◌, give, fail,
  done,
}
use slap.Tty.Baud.{val2baud}
use slap.Slpro.Models.{Model, valid_ptype}
use slap.Slpro.Line.{
  Host, State, Run, emit, get, set_ps, set_tof, set_model, get_model, close_tty, write_port,
  set_port, now,
}
use slap.Slpro.Status.{
  paper_out, comm_err, idle, platen_open, buf_full, ping_ok, wants_reset, is_error, sense, force,
}

-- The rates that `ping` tries.
abbrev pub speeds : List ℕ
speeds = 9600 ∷ 57600 ∷ 38400 ∷ 19200 ∷ []

-- `fuel` bounds the rounds of each loop.
module _ (host : Host) (port : Port) (fuel : ℕ) where
  -- do { Warning(...); } while (sense(st, ...) & bit);
  unfoldable pub warn_loop : (bit : ℕ) (timeout : ℤ) → ℕ → Run (Unit {0})
  warn_loop bit timeout zero = fail out_of_fuel
  warn_loop bit timeout (suc n) = do
    emit told
    s ← sense port fuel timeout
    if has bit s then warn_loop bit timeout n else done

  unfoldable pub check_loaded : Run (Unit {0})
  check_loaded = do
    s ← sense port fuel (pos 0)
    if has paper_out s
        then (do warn_loop paper_out (pos 97) fuel; emit (slept 2); emit told)
        else done

  unfoldable pub check_closed : Run (Unit {0})
  check_closed = do
    s ← sense port fuel (pos 0)
    if has platen_open s
        then (do warn_loop platen_open (pos 91) fuel; emit (slept 2); emit told)
        else done

  -- `send_bytes` with `blind`: a write that fails ends in `Error`.
  unfoldable pub send_blind : List ℕ → Run (Unit {0})
  send_blind bs = do good ← write_port port bs; if good then done else fail fatal

  unfoldable pub set_baud : ℕ → Run (Unit {0})
  set_baud speed = do set_port port (baud_set (val2baud host.baudmap speed)); emit flushed_in

  -- Sets `m`, and returns it.
  unfoldable pub getmodel : Run (Option Model)
  getmodel = do
    set_model none
    send_blind (0x12 ∷ [])
    s ← sense port fuel (pos 5)
    if has comm_err s
        then set_model (valid_ptype slp_pro)
        else (do t ← get; elim t.m [ none ↦ set_model (valid_ptype slp_pro) | some found ↦ done ])
    t ← get
    give t.m

  -- The functions that call each other through `fault`, which is `check_fault`.
  module _ (fault : ℤ → Run ℕ) where
    -- After a `sense` in a loop that waits: the start of the interval, a new one after an error.
    unfoldable pub clear_error : (timeout : ℤ) (t1 : ℕ) → Run ℕ
    clear_error timeout t1 = do
      s ← get
      if is_error s.ps then (do _ ← fault timeout; now port) else give t1

    -- The loop of `wait_for_idle`; `t1` is the start of the interval.
    unfoldable pub idle_loop : (rounds timeout t1 : ℕ) → Run Bool
    idle_loop zero timeout t1 = fail out_of_fuel
    idle_loop (suc rounds) timeout t1 = do
      s ← sense port fuel (pos timeout)
      if has idle s then give true else (do
        start ← clear_error (pos 23) t1
        t ← now port
        if ltb t (start + timeout) then idle_loop rounds timeout start else give false)

    unfoldable pub wait_for_idle_with : ℕ → Run Bool
    wait_for_idle_with timeout = do emit drained; t1 ← now port; idle_loop fuel timeout t1

    -- The loop of `wait_for_ready`.
    unfoldable pub ready_loop : (rounds timeout t1 : ℕ) → Run Bool
    ready_loop zero timeout t1 = fail out_of_fuel
    ready_loop (suc rounds) timeout t1 = do
      s ← sense port fuel (pos 0)
      if not (has buf_full s) then give true else (do
        start ← clear_error (pos 0) t1
        t ← now port
        if ltb t (start + timeout) then ready_loop rounds timeout start else give false)

    unfoldable pub wait_for_ready_with : ℕ → Run Bool
    wait_for_ready_with timeout = do t1 ← now port; ready_loop fuel timeout t1

    unfoldable pub send_bytes_with : List ℕ → Run (Unit {0})
    send_bytes_with bs = do
      good ← wait_for_ready_with 20
      if good then done else fail fatal
      send_blind bs

    -- `formfeed` without `blind`.
    unfoldable pub formfeed_with : Run (Unit {0})
    formfeed_with = do
      send_bytes_with (0xC ∷ [])
      send_bytes_with (0x1 ∷ [])
      set_tof true
      emit drained
      good ← wait_for_idle_with 20
      if good then done else fail fatal

    -- The loop of `ping` over the speeds; whether a ping was answered.
    unfoldable pub ping_at : List ℕ → Run Bool
    ping_at [] = give false
    ping_at (speed ∷ rest) = if val2baud host.baudmap speed == 0 then ping_at rest else (do
      emit flushed_both
      set_baud speed
      force port fuel
      send_blind (0xA5 ∷ [])
      s ← sense port fuel (pos 10)
      if has ping_ok s then give true else ping_at rest)

    unfoldable pub ping_with : Run Bool
    ping_with = do
      found ← ping_at speeds
      if not found
          then give false
          else (do emit flushed_in; set_ps 0; send_blind (0x1 ∷ []); wait_for_idle_with 8)

    unfoldable pub reset_printer_with : Run ℕ
    reset_printer_with = do
      force port fuel
      found ← ping_with
      if found
          then (do m ← getmodel; elim m [ none ↦ fail fatal | some model ↦ done ])
          else fail fatal
      emit flushed_both
      set_ps 0
      send_blind (0xF ∷ [])
      emit drained
      model ← get_model
      if model.default_baud == 57600 && (val2baud host.baudmap 57600 == 0)
          then fail fatal
          else set_baud model.default_baud
      emit flushed_in
      good ← wait_for_idle_with 5
      if good then done else emit told
      t ← get
      give t.ps

    -- What `check_fault` does on a status that asks for a reset; it does not return.
    unfoldable pub shut_down : Run ℕ
    shut_down = do
      _ ← reset_printer_with
      t ← get
      if not t.tof then formfeed_with else done
      emit closed
      close_tty
      fail fatal

  -- `depth` bounds the calls within calls.
  unfoldable pub check_fault_at : (depth : ℕ) → ℤ → Run ℕ
  check_fault_at zero timeout = fail out_of_fuel
  check_fault_at (suc depth) timeout = do
    s ← sense port fuel timeout
    if wants_reset s
        then shut_down (check_fault_at depth)
        else (do check_closed; check_loaded; t ← get; give t.ps)

  unfoldable pub check_fault : ℤ → Run ℕ
  check_fault = check_fault_at fuel

  unfoldable pub wait_for_idle : ℕ → Run Bool
  wait_for_idle = wait_for_idle_with check_fault

  unfoldable pub wait_for_ready : ℕ → Run Bool
  wait_for_ready = wait_for_ready_with check_fault

  unfoldable pub send_bytes : List ℕ → (blind : Bool) → Run (Unit {0})
  send_bytes bs blind = if not blind then send_bytes_with check_fault bs else send_blind bs

  unfoldable pub send_byte : ℕ → (blind : Bool) → Run (Unit {0})
  send_byte b blind = send_bytes (b ∷ []) blind

  unfoldable pub formfeed : (blind : Bool) → Run (Unit {0})
  formfeed blind =
      if not blind
      then formfeed_with check_fault
      else (do send_blind (0xC ∷ []); send_blind (0x1 ∷ []); set_tof true)

  unfoldable pub ping : Run Bool
  ping = ping_with check_fault

  unfoldable pub reset_printer : Run ℕ
  reset_printer = reset_printer_with check_fault
