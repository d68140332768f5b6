-- ===== src/Slplus/Wait.antt =====
-- Waiting for the printer, and its faults: `check_loaded`, `check_fault`, `wait_for_idle`,
-- `wait_for_ready`, `reset_printer`, `send_byte` and `formfeed` of slap/slplus.c.
use slap.Base.{ℕ, zero, suc, ◌+◌, Bool, true, false, not, if◌then◌else◌, ltb}
use slap.Base.Int.{ℤ, pos}
use slap.Base.Result.{ok, fatal, out_of_fuel}
use slap.Slplus.Line.{
  Port, drained, flushed_in, flushed_both, slept, told, closed, Run, ◌>>=◌, ◌>>◌, give, fail, done,
  emit, get_ps, set_ps, set_tof, write_port, now,
}
use slap.Slplus.Status.{has, paper_out, idle, buf_full, wants_reset, is_error, sense, force}

abbrev pub close_tty : Run (Unit {0})
close_tty s = ok (tt, record s { is_open = false })

-- `fuel` bounds the rounds of each loop, and the depth of the calls.
module _ (port : Port) (fuel : ℕ) where
  -- do { Warning(...); } while (sense(st, 97) & STAT_PAPER_OUT);
  unfoldable pub load_loop : ℕ → Run (Unit {0})
  load_loop zero = fail out_of_fuel
  load_loop (suc n) = do
    emit told
    s ← sense port fuel (pos 97)
    if has paper_out s then load_loop n else done

  unfoldable pub check_loaded : Run (Unit {0})
  check_loaded = do
    s ← sense port fuel (pos 0)
    if has paper_out s then (do load_loop fuel; emit (slept 2); emit told) else done

  -- `send_byte` with `blind`: a write that fails ends in `Error`.
  unfoldable pub send_blind : ℕ → Run (Unit {0})
  send_blind b = do good ← write_port port b; if good then done else fail fatal

  module _ (reset : Run ℕ) where
    -- The loop in `check_fault` is entered once at most, since `Error` does not return. `reset`
    -- is `reset_printer`.
    unfoldable pub check_fault_with : ℤ → Run ℕ
    check_fault_with timeout = do
      s ← sense port fuel timeout
      if wants_reset s then (do _ ← reset; emit closed; close_tty; fail fatal) else give s

    -- The loop of `wait_for_idle`; `t1` is the start of the interval.
    unfoldable pub idle_loop : (rounds timeout t1 : ℕ) → Run Bool
    idle_loop zero timeout t1 = fail out_of_fuel
    idle_loop (suc rounds) timeout t1 = do
      s ← sense port fuel (pos timeout)
      if has idle s then give true else (do
        start ←
            (if is_error s
              then (do _ ← check_fault_with (pos 23); check_loaded; now port)
              else give t1)
        t ← now port
        if ltb t (start + timeout) then idle_loop rounds timeout start else give false)

    unfoldable pub wait_for_idle_with : ℕ → Run Bool
    wait_for_idle_with timeout = do emit drained; t1 ← now port; idle_loop fuel timeout t1

    -- The loop of `wait_for_ready`.
    unfoldable pub ready_loop : (rounds timeout t1 : ℕ) → Run Bool
    ready_loop zero timeout t1 = fail out_of_fuel
    ready_loop (suc rounds) timeout t1 = do
      s ← sense port fuel (pos 0)
      if not (has buf_full s) then give true else (do
        start ←
            (if is_error s
              then (do _ ← check_fault_with (pos 0); check_loaded; now port)
              else give t1)
        t ← now port
        if ltb t (start + timeout) then ready_loop rounds timeout start else give false)

  unfoldable pub reset_printer : (depth : ℕ) → Run ℕ
  reset_printer zero = fail out_of_fuel
  reset_printer (suc depth) = do
    force port fuel
    emit flushed_both
    set_ps 0
    send_blind 0xF
    emit drained
    emit flushed_in
    good ← wait_for_idle_with (reset_printer depth) 5
    if good then done else emit told
    get_ps

  unfoldable pub check_fault : ℤ → Run ℕ
  check_fault = check_fault_with (reset_printer fuel)

  unfoldable pub wait_for_idle : ℕ → Run Bool
  wait_for_idle = wait_for_idle_with (reset_printer fuel)

  unfoldable pub wait_for_ready : ℕ → Run Bool
  wait_for_ready timeout = do
    emit drained
    t1 ← now port
    ready_loop (reset_printer fuel) fuel timeout t1

  unfoldable pub send_byte : ℕ → (blind : Bool) → Run (Unit {0})
  send_byte b blind = do
    good ← (if not blind then wait_for_ready 20 else give true)
    if good then send_blind b else fail fatal

  unfoldable pub formfeed : (blind : Bool) → Run (Unit {0})
  formfeed blind = do
    send_byte 0xC blind
    send_byte 0x1 blind
    emit drained
    set_tof true
    good ← (if not blind then wait_for_idle 20 else give true)
    if good then done else fail fatal
