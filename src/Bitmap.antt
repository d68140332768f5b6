-- ===== src/Bitmap.antt =====
-- The bitmap routines of the separate MJS Portable C Library that the sources call: `mbm_buy`,
-- `mbm_clr`, `mbm_setb`, `mbm_tstb`, `mbm_height` and `mbm_width`, as a parameter with the laws
-- that its manual pages mbm_bits, mbm_mem and mbm_size state. Nothing is said of a bit outside
-- the bitmap, where the routines touch other memory.
use slap.Base.{ℕ, ◌<◌, ◌≡◌, Bool, false, ◌&&◌, ◌||◌, ◌==◌}

pub record BitmapLib : Type 1 where
  pub Bitmap : Type 0
  pub height : Bitmap → ℕ
  pub width : Bitmap → ℕ
  pub tstb : Bitmap → ℕ → ℕ → Bool
  pub setb : Bitmap → ℕ → ℕ → Bitmap
  pub clr : Bitmap → Bitmap
  pub buy : ℕ → ℕ → Bitmap
  pub height-setb : (b : Bitmap) (r c : ℕ) → height (setb b r c) ≡ height b
  pub width-setb : (b : Bitmap) (r c : ℕ) → width (setb b r c) ≡ width b
  pub tstb-setb :
      (b : Bitmap) (r c i j : ℕ)
      → r < height b
      → c < width b
      → i < height b
      → j < width b
      → tstb (setb b r c) i j ≡ (i == r && j == c || tstb b i j)
  pub height-clr : (b : Bitmap) → height (clr b) ≡ height b
  pub width-clr : (b : Bitmap) → width (clr b) ≡ width b
  pub tstb-clr : (b : Bitmap) (i j : ℕ) → i < height b → j < width b → tstb (clr b) i j ≡ false
  -- Clearing leaves nothing of the old contents.
  pub clr-ext : (a b : Bitmap) → height a ≡ height b → width a ≡ width b → clr a ≡ clr b
  pub height-buy : (h w : ℕ) → height (buy h w) ≡ h
  pub width-buy : (h w : ℕ) → width (buy h w) ≡ w
  pub tstb-buy : (h w i j : ℕ) → i < h → j < w → tstb (buy h w) i j ≡ false
