-- ===== src/Slplus/Stream.antt =====
-- The second half of `printlabel` of slap/slplus.c: the bytes that a band is printed with.
pub mod Head
pub mod Sheet
use slap.Base.{
  ℕ, zero, suc, ◌+◌, ◌-◌, ◌*◌, ◌%◌, Bool, List, [], ◌∷◌, ◌++◌, ◌==◌, if◌then◌else◌, ltb, leb, not,
  map, ◌&&◌,
}
use slap.Slplus.Map.{Band}

abbrev pub cmd_print : ℕ
cmd_print = 0x3

abbrev pub cmd_right : ℕ
cmd_right = 0x7

abbrev pub cmd_left : ℕ
cmd_left = 0x8

abbrev pub cmd_home : ℕ
cmd_home = 0xD

-- A conversion to `BYTE`.
abbrev pub to_byte : ℕ → ℕ
to_byte n = n % 256

-- The slices from `slice` on, `n` of them.
unfoldable pub slices_from : (n slice : ℕ) → (ℕ → ℕ) → List ℕ
slices_from zero slice f = []
slices_from (suc n) slice f = f slice ∷ slices_from n (slice + 1) f

-- The position after the move to the start of the zone: on a move to the left the head goes two
-- slices too far and back, where it can.
unfoldable pub start_pos : Band → (pos : ℕ) → ℕ
start_pos b pos = if ltb pos b.min_slice then b.min_slice else b.min_slice - 2

-- The bytes of that move.
unfoldable pub move_bytes : Band → (pos : ℕ) → List ℕ
move_bytes b pos =
    if ltb pos b.min_slice
    then cmd_right ∷ to_byte (b.min_slice - pos) ∷ []
    else cmd_left
      ∷ to_byte (pos - b.min_slice)
      ∷ (if ltb 0 b.min_slice then cmd_left ∷ (if ltb 1 b.min_slice then 2 else 1) ∷ [] else [])

-- The body of `if (b->max)`: the bytes sent, and the next position.
unfoldable pub band_bytes : Band → (pos : ℕ) → List ℕ × ℕ
band_bytes b pos =
    let p = start_pos b pos in
    if not (b.max_slice == 0)
    then (
      move_bytes b pos
          ++ (cmd_print
              ∷ to_byte (b.max_slice + 1 - p)
              ∷ slices_from (b.max_slice + 1 - p) p b.slices),
      (if leb p b.max_slice then b.max_slice + 1 else p),
    )
    else ([], pos)

-- The feed command that follows band `band`.
abbrev pub feed_command : ℕ → ℕ
feed_command band = if band % 2 == 1 then 0xB else 0x9

-- `if ((lastband < st->nbands) && (lastband % 2)) lastband++;`
unfoldable pub last_printed : (lastband nbands : ℕ) → ℕ
last_printed lastband nbands =
    if ltb lastband nbands && (lastband % 2 == 1) then lastband + 1 else lastband
