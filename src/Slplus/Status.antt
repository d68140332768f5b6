-- ===== src/Slplus/Status.antt =====
-- The status of the printer: the status bits of slap/slplus.c, `recv_bytes`, `sense` and `force`.
pub mod Latest
use slap.Base.{
  ℕ, zero, suc, ◌+◌, ◌-◌, ◌/◌, ◌%◌, Bool, true, false, not, ◌&&◌, ◌||◌, ◌==◌, List, [], ◌∷◌,
  if◌then◌else◌,
}
use slap.Base.Int.{ℤ, pos, ltb_ℤ, eq_ℤ}
use slap.Base.Result.{Result, ok, err, out_of_fuel}
pub use slap.Base.Bits.{has, with_bit, without}
use slap.Slplus.Line.{
  Port, State, Event, drained, flushed_out, hold, resume, timeout_set, Run, ◌>>=◌, ◌>>◌, give, fail,
  done, emit, get_ps, set_ps, read_port, write_port, set_port,
}

abbrev pub paper_out : ℕ
paper_out = 0x1

abbrev pub paper_jam : ℕ
paper_jam = 0x2

abbrev pub hard_err : ℕ
hard_err = 0x4

abbrev pub comm_err : ℕ
comm_err = 0x8

abbrev pub cmd_err : ℕ
cmd_err = 0x10

abbrev pub idle : ℕ
idle = 0x20

abbrev pub buf_full : ℕ
buf_full = 0x40

abbrev pub ack : ℕ
ack = 0x80

-- `s & RESET_STAT_MASK` and `s & ERROR_STAT_MASK`
unfoldable pub wants_reset : ℕ → Bool
wants_reset s = has paper_jam s || has hard_err s || has comm_err s || has cmd_err s

unfoldable pub is_error : ℕ → Bool
is_error s = wants_reset s || has paper_out s

-- Some byte of the buffer has STAT_ACK.
unfoldable pub acked : List ℕ → Bool
acked [] = false
acked (c ∷ cs) = has ack c || acked cs

abbrev pub last_byte : ℕ → List ℕ → ℕ
last_byte c [] = c
last_byte c (d ∷ ds) = last_byte d ds

-- `buf[n-1]` after the loop that gathers STAT_ACK, for the buffer `c ∷ cs`.
unfoldable pub status_of : ℕ → List ℕ → ℕ
status_of c cs = if acked (c ∷ cs) then with_bit ack (last_byte c cs) else last_byte c cs

module _ (port : Port) where
  -- Set another read-timeout, if it is another.
  unfoldable pub set_timeout : ℤ → Run (Unit {0})
  set_timeout timeout s =
      if not (eq_ℤ s.old_timeout timeout)
      then (do
        let t = if ltb_ℤ timeout (pos 0) then pos 0 else timeout
        set_port port (timeout_set t)
        λ r. ok (tt, record r { old_timeout = t }))
          s
      else ok (tt, s)

  unfoldable pub recv_bytes : ℤ → Run (List ℕ)
  recv_bytes timeout = do set_timeout timeout; read_port port

  -- The loop of `sense`: `fuel` reads at most.
  unfoldable pub sense_loop : (fuel : ℕ) → ℤ → Run (Unit {0})
  sense_loop zero timeout = fail out_of_fuel
  sense_loop (suc fuel) timeout = do
    buf ← recv_bytes timeout
    elim buf [
      | [] ↦ done
      | c ∷ cs ↦ do
        set_ps (status_of c cs)
        emit (if has buf_full (status_of c cs) then hold else resume)
        sense_loop fuel (pos 0)
    ]

  unfoldable pub sense : (fuel : ℕ) → ℤ → Run ℕ
  sense fuel timeout = do s ← get_ps; set_ps (without ack s); sense_loop fuel timeout; get_ps

  -- The loop of `force`, for `n` rounds.
  unfoldable pub force_loop : (fuel n : ℕ) → Run (Unit {0})
  force_loop fuel zero = done
  force_loop fuel (suc n) = do
    s ← sense fuel (pos 0)
    if has idle s || has ack s
        then emit flushed_out
        else (do emit resume; _ ← write_port port 0; emit drained; force_loop fuel n)

  unfoldable pub force : (fuel : ℕ) → Run (Unit {0})
  force fuel = do emit flushed_out; (λ s. force_loop fuel (s.nslices + 2) s); emit resume
