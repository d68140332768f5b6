-- ===== src/Slpro/Status/View.antt =====
-- What a status word of slap/slpro.c says, and what a byte from the printer says.
use slap.Base.{
  ℕ, ◌+◌, ◌/◌, ◌%◌, ◌<◌, ◌≡◌, Bool, true, false, ◌==◌, List, [], ◌∷◌, arith, if◌then◌else◌,
}
use slap.Base.Bits.{has, with_bit, without}
use slap.Slpro.Status.{garbled, buf_full, checkpoint, ping_ok, physical, logical}

-- The status that the driver keeps: the printer's own bits, and whether it wants the computer to
-- hold, has reached a checkpoint, and has answered a ping.
pub record View : Type 0 where
  pub phys : ℕ
  pub full : Bool
  pub check : Bool
  pub ping : Bool

-- What a byte from the printer says.
unfoldable pub see : ℕ → View → View
see b w =
    if b == 0x11
    then record w { full = false }
    else if b == 0x13
    then record w { full = true }
    else if b == 0xC7
    then record w { check = true }
    else if b == 0xC9
    then record w { ping = true }
    else if b / 64 == 1
    then record w { phys = b % 64 }
    else w

unfoldable pub see_all : List ℕ → View → View
see_all [] w = w
see_all (b ∷ bs) w = see_all bs (see b w)

-- The status word `p` says what `w` says.
pub record Shows (p : ℕ) (w : View) : Type 0 where
  pub phys_eq : physical p ≡ w.phys
  pub full_eq : has buf_full p ≡ w.full
  pub check_eq : has checkpoint p ≡ w.check
  pub ping_eq : has ping_ok p ≡ w.ping

-- All that a status word says.
abbrev pub view : ℕ → View
view p = record {
  phys = physical p;
  full = has buf_full p;
  check = has checkpoint p;
  ping = has ping_ok p;
}

-- Changing one logical bit.
pub with_checkpoint : (p : ℕ) → Shows (with_bit checkpoint p) (record (view p) { check = true })
with_checkpoint p = record {
  phys_eq = ground arith;
  full_eq = ground arith;
  check_eq = ground arith;
  ping_eq = ground arith;
}

pub with_ping : (p : ℕ) → Shows (with_bit ping_ok p) (record (view p) { ping = true })
with_ping p = record {
  phys_eq = ground arith;
  full_eq = ground arith;
  check_eq = ground arith;
  ping_eq = ground arith;
}

pub with_full : (p : ℕ) → Shows (with_bit buf_full p) (record (view p) { full = true })
with_full p = record {
  phys_eq = ground arith;
  full_eq = ground arith;
  check_eq = ground arith;
  ping_eq = ground arith;
}

pub without_full : (p : ℕ) → Shows (without buf_full p) (record (view p) { full = false })
without_full p = record {
  phys_eq = ground arith;
  full_eq = ground arith;
  check_eq = ground arith;
  ping_eq = ground arith;
}

pub without-checkpoint : (p : ℕ) → Shows (without checkpoint p) (record (view p) { check = false })
without-checkpoint p = record {
  phys_eq = ground arith;
  full_eq = ground arith;
  check_eq = ground arith;
  ping_eq = ground arith;
}

pub without_ping : (p : ℕ) → Shows (without ping_ok p) (record (view p) { ping = false })
without_ping p = record {
  phys_eq = ground arith;
  full_eq = ground arith;
  check_eq = ground arith;
  ping_eq = ground arith;
}

pub without-garbled : (p : ℕ) → Shows (without garbled p) (view p)
without-garbled p = record {
  phys_eq = ground arith;
  full_eq = ground arith;
  check_eq = ground arith;
  ping_eq = ground arith;
}

pub with_garbled : (p : ℕ) → Shows (with_bit garbled p) (view p)
with_garbled p = record {
  phys_eq = ground arith;
  full_eq = ground arith;
  check_eq = ground arith;
  ping_eq = ground arith;
}

-- The printer's own bits are replaced.
pub with_physical : (p x : ℕ) → x < 64 → Shows (logical p + x) (record (view p) { phys = x })
with_physical p x h = record {
  phys_eq = ground arith;
  full_eq = ground arith;
  check_eq = ground arith;
  ping_eq = ground arith;
}

-- The status word `q` says what `p` said.
