-- ===== src/Slplus/Device.antt =====
-- Opening and closing the printer: `set_density`, `set_baud`, `ping`, `connect`, `disconnect`,
-- `opendev` and `closedev` of slap/slplus.c.
pub mod Silent
use slap.Base.{ℕ, Bool, true, false, not, ◌||◌, ◌==◌, List, [], ◌∷◌, if◌then◌else◌}
use slap.Base.Int.{pos}
use slap.Base.Result.{Result, ok, err}
use slap.Media.{
  Ptype, pt_none, slp, slp_plus, slp_ez30, Density, light, demilight, norm, demibold, bold,
}
use slap.Slplus.Line.{
  Port, State, flushed_in, flushed_both, drained, resume, baud_set, modes_set, broke, closed, Run,
  ◌>>=◌, ◌>>◌, give, done, emit, set_ps, set_port,
}
use slap.Slplus.Status.{has, without, cmd_err, ack, recv_bytes, sense, force}
use slap.Slplus.Wait.{send_blind, send_byte, wait_for_idle, formfeed, close_tty}

-- The table `code` of `set_density`.
abbrev pub density_code : Density → ℕ
density_code light = 0xC4
density_code demilight = 0xC2
density_code norm = 0x80
density_code demibold = 0x82
density_code bold = 0x84

-- Some byte is the reply to a ping.
unfoldable pub answers : List ℕ → Bool
answers [] = false
answers (c ∷ cs) = c == 0x77 || answers cs

-- The model, from the reply to the request for the version; `found` says that a ping was answered.
unfoldable pub model_of : (found : Bool) → List ℕ → Ptype
model_of found [] = pt_none
model_of found (c ∷ cs) =
    if has cmd_err c
    then (if found then slp_plus else slp)
    else if has 0x20 c
    then slp_ez30
    else model_of found cs

abbrev pub is_none : Ptype → Bool
is_none pt_none = true
is_none _ = false

-- The rates 9600 and 19200, in baud.
abbrev pub bauds : List ℕ
bauds = 9600 ∷ 19200 ∷ []

module _ (port : Port) (fuel : ℕ) where
  unfoldable pub set_density : Density → Run (Unit {0})
  set_density d = do send_byte port fuel 0xE false; send_byte port fuel (density_code d) false

  unfoldable pub set_baud : ℕ → Run (Unit {0})
  set_baud rate = do
    set_port port (baud_set rate)
    emit flushed_in
    emit flushed_in
    emit flushed_in
    emit flushed_in
    emit flushed_in
    _ ← wait_for_idle port fuel 1
    done

  -- The loop over the rates; whether a ping was answered.
  unfoldable pub ping_at : List ℕ → Run Bool
  ping_at [] = give false
  ping_at (rate ∷ rates) = do
    emit flushed_both
    set_baud rate
    force port fuel
    send_blind port fuel 0x88
    buf ← recv_bytes port (pos 3)
    if answers buf then give true else ping_at rates

  -- A status byte, by force if need be; whether there was one.
  unfoldable pub poll_status : Run Bool
  poll_status = do
    set_ps ack
    send_blind port fuel 0x1
    s ← sense port fuel (pos 10)
    if has ack s
        then (do
          emit broke
          s' ← sense port fuel (pos 10)
          if has cmd_err s' then (do set_ps (without cmd_err s'); give true) else give false)
        else give true

  unfoldable pub ping : Run Ptype
  ping = do
    found ← ping_at bauds
    if found then done else set_baud 19200
    send_blind port fuel 0x02
    buf ← recv_bytes port (pos 2)
    if is_none (model_of found buf) then give pt_none else (do
      polled ← poll_status
      if polled
          then (do
            ready ← wait_for_idle port fuel 1
            if ready then give (model_of found buf) else give pt_none)
          else give pt_none)

  -- `connect` from `init_channel` on, when the port is open and locked (Tty.Claim). The modes that
  -- `init_channel` sets are not modelled but for their being set.
  unfoldable pub connect : Run Ptype
  connect = do
    set_port port modes_set
    emit flushed_both
    ptype ← ping
    if is_none ptype then give pt_none else (do
      emit modes_set
      send_byte port fuel 0x6 false
      set_density demilight
      _ ← wait_for_idle port fuel 2
      give ptype)

  unfoldable pub disconnect : Run (Unit {0})
  disconnect s =
      if not s.is_open
      then ok (tt, s)
      else (do
        emit resume
        emit drained
        force port fuel
        (λ t. (if not t.tof then formfeed port fuel true else done) t)
        emit resume
        send_byte port fuel 0x1 true
        _ ← wait_for_idle port fuel 4
        emit closed
        close_tty)
          s

  -- The state that `opendev` starts with: `nslices` is MAXNOPS, which the macro expands to
  -- ((USHORT) 3.86 * 28.0) = 84.
  abbrev pub new_state : (clean : State) → State
  new_state clean = record clean { is_open = true; tof = true; bands = []; nslices = 84; ps = 0 }

  -- `opendev` for a target: the model found, and the state if there is one.
  unfoldable pub opendev : State → Result (Ptype × State)
  opendev clean = elim (connect (new_state clean)) [
    | err why ↦ err why
    | ok (ptype, s) ↦
        if is_none ptype
        then (elim (disconnect s) [ err why ↦ err why | ok (_, t) ↦ ok (pt_none, t) ])
        else ok (ptype, s)
  ]

  -- `closedev` of an open device: the map is given back.
  unfoldable pub closedev : Run (Unit {0})
  closedev = do disconnect; λ s. ok (tt, record s { bands = [] })
