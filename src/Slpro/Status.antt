-- ===== src/Slpro/Status.antt =====
-- The status of the printer: the status bits of slap/slpro.c, `recv_bytes`, `sense` and `force`.
pub mod Quiet
pub mod Seen
pub mod View
use slap.Base.{
  ℕ, zero, suc, ◌+◌, ◌-◌, ◌*◌, ◌/◌, ◌%◌, Bool, true, false, not, ◌&&◌, ◌||◌, ◌==◌, List, [], ◌∷◌,
  Option, none, if◌then◌else◌,
}
use slap.Base.Bits.{has, with_bit, without}
use slap.Base.Int.{ℤ, pos, negsuc, ltb_ℤ, eq_ℤ}
use slap.Base.Result.{Result, ok, err, out_of_fuel}
use slap.Serial.{
  Port, drained, flushed_out, hold, resume, timeout_set, ◌>>=◌, ◌>>◌, give, fail, done,
}
use slap.Slpro.Models.{Model, models, find_model_id}
use slap.Slpro.Line.{State, Run, emit, get, set_ps, read_port, write_port, set_port}

abbrev pub paper_out : ℕ
paper_out = 0x1

abbrev pub paper_jam : ℕ
paper_jam = 0x2

abbrev pub hard_err : ℕ
hard_err = 0x4

abbrev pub comm_err : ℕ
comm_err = 0x8

abbrev pub idle : ℕ
idle = 0x10

abbrev pub platen_open : ℕ
platen_open = 0x20

abbrev pub garbled : ℕ
garbled = 0x100

abbrev pub buf_full : ℕ
buf_full = 0x200

abbrev pub checkpoint : ℕ
checkpoint = 0x400

abbrev pub ping_ok : ℕ
ping_ok = 0x800

-- `s & PHYS_STAT_MASK` and `s & ~PHYS_STAT_MASK`: the mask is 0x3F.
abbrev pub physical : ℕ → ℕ
physical s = s % 64

abbrev pub logical : ℕ → ℕ
logical s = s / 64 * 64

-- `s & RESET_STAT_MASK` and `s & ERROR_STAT_MASK`
unfoldable pub wants_reset : ℕ → Bool
wants_reset s = has paper_jam s || has hard_err s || has comm_err s

unfoldable pub is_error : ℕ → Bool
is_error s = wants_reset s || has paper_out s || has garbled s

-- The variables of `sense`: the driver's state, the timeout of the next read, and the last status
-- byte `sb`.
pub record Look : Type 0 where
  pub st : State
  pub timeout : ℤ
  pub sb : ℕ

-- `l->st->ps = v`, and the same where the timeout becomes 0.
abbrev with_ps : ℕ → Look → Look
with_ps v l = record l { st = record l.st { ps = v } }

abbrev answered : ℕ → Look → Look
answered v l = record (with_ps v l) { timeout = pos 0 }

-- The inner `switch` of `sense`, on the high half of the byte.
unfoldable pub see_other : ℕ → Look → Look
see_other s l =
    let p = without garbled l.st.ps in
    if s / 16 == 0xD
    then answered p l
    else if s / 16 == 0xE
    then record (answered p l) {
      st = record l.st { ps = p; m = find_model_id models (s % 32) none };
    }
    else if s / 16 == 0x8
    then answered p l
    else if s / 64 == 1
    then record (answered p l) { sb = s }
    else with_ps (with_bit garbled p) l

-- One round of the loop over the bytes received.
unfoldable pub see_byte : ℕ → Look → Look
see_byte s l =
    if s == 0x11
    then record l { st = record l.st { ps = without buf_full l.st.ps; log = resume ∷ l.st.log } }
    else if s == 0x13
    then record l { st = record l.st { ps = with_bit buf_full l.st.ps; log = hold ∷ l.st.log } }
    else if s == 0xC7
    then answered (without garbled (with_bit checkpoint l.st.ps)) l
    else if s == 0xC9
    then answered (without garbled (with_bit ping_ok l.st.ps)) l
    else see_other s l

unfoldable pub see_bytes : List ℕ → Look → Look
see_bytes [] l = l
see_bytes (b ∷ bs) l = see_bytes bs (see_byte b l)

-- The final status byte is inspected.
unfoldable pub inspect : Look → Look
inspect l =
    if has 0x40 l.sb
    then (let sb = without 0x40 l.sb in
        let new = logical l.st.ps in
        if not (physical sb == sb)
        then record (with_ps (with_bit garbled new + physical sb) l) { sb = sb }
        else record (answered (new + physical sb) l) { sb = sb })
    else l

module _ (port : Port) where
  -- Set another read-timeout, if it is another.
  unfoldable pub set_timeout : ℤ → Run (Unit {0})
  set_timeout timeout s =
      if not (eq_ℤ s.old_timeout timeout)
      then (do
        let t = if ltb_ℤ timeout (pos 0) then pos 0 else timeout
        set_port port (timeout_set t)
        λ r. ok (tt, record r { old_timeout = t }))
          s
      else ok (tt, s)

  unfoldable pub recv_bytes : ℤ → Run (List ℕ)
  recv_bytes timeout = do set_timeout timeout; read_port port

  -- The loop of `sense`: `fuel` reads at most.
  unfoldable pub sense_loop : (fuel : ℕ) → (timeout : ℤ) (sb : ℕ) → Run (Unit {0})
  sense_loop zero timeout sb = fail out_of_fuel
  sense_loop (suc fuel) timeout sb = do
    buf ← recv_bytes timeout
    elim buf [
      | [] ↦ done
      | c ∷ cs ↦ λ s.
          let l = inspect (see_bytes (c ∷ cs) (record { st = s; timeout = timeout; sb = sb })) in
          sense_loop fuel l.timeout l.sb l.st
    ]

  unfoldable pub sense : (fuel : ℕ) → ℤ → Run ℕ
  sense fuel timeout = do
    s ← get
    set_ps (without ping_ok (without checkpoint s.ps))
    sense_loop fuel timeout 0
    t ← get
    give t.ps

  -- The loop of `force`, for `n` rounds.
  unfoldable pub force_loop : (fuel n : ℕ) → Run (Unit {0})
  force_loop fuel zero = done
  force_loop fuel (suc n) = do
    s ← sense fuel (pos 0)
    if has idle s || has garbled s
        then emit flushed_out
        else (do emit resume; _ ← write_port port (0 ∷ []); emit drained; force_loop fuel n)

  unfoldable pub force : (fuel : ℕ) → Run (Unit {0})
  force fuel = do emit flushed_out; s ← get; force_loop fuel (s.nslices + 2); emit resume
