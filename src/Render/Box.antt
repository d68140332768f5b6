-- ===== src/Render/Box.antt =====
-- `boxit` of slap/render.c.
pub mod Outline
use slap.Base.{
  ℕ, zero, suc, ◌+◌, ◌-◌, ◌%◌, ◌≤◌, ◌<◌, ◌≡◌, refl, Bool, true, false, ◌&&◌, ◌||◌, ◌==◌, leb, ltb,
  arith,
}
use slap.Bitmap.{BitmapLib}

module _ (L : BitmapLib) where
  open L use {Bitmap, height, width, tstb, setb}

  -- A dimension less one, as the `USHORT` that the bitmap routines take.
  abbrev pub last : ℕ → ℕ
  last n = (n + 65535) % 65536

  -- The first loop: `n` columns from `col` on, at the top and at the bottom.
  unfoldable pub box_cols : (n col : ℕ) → Bitmap → Bitmap
  box_cols zero col b = b
  box_cols (suc n) col b = box_cols n (col + 1) (setb (setb b 0 col) (last (height b)) col)

  -- The second loop, which counts `row` down while it is more than 1.
  unfoldable pub box_rows : (row : ℕ) → Bitmap → Bitmap
  box_rows zero b = b
  box_rows (suc zero) b = b
  box_rows (suc (suc k)) b =
      box_rows (suc k) (setb (setb b (suc (suc k)) 0) (suc (suc k)) (last (width b)))

  unfoldable pub boxit : Bitmap → Bitmap
  boxit b = let c = box_cols (width b) 0 b in box_rows (last (height c)) c
