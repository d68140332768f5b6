-- ===== src/Slplus/Label/Bands.antt =====
-- What the bytes of the bands, `bands_bytes`, make a printer print.
use slap.Base.{
  ℕ, zero, suc, ◌+◌, ◌-◌, ◌*◌, ◌/◌, ◌%◌, ◌<◌, ◌≡◌, ◌≢◌, refl, ap, ◌∙◌, Bool, true, false, ◌&&◌,
  ◌||◌, List, [], ◌∷◌, ◌==◌, if◌then◌else◌, leb, ltb, arith, Bool-cases, inl, inr, ℕ_discrete,
}
use slap.Slplus.Map.{Band}
use slap.Slplus.Stream.{band_bytes, feed_command}
use slap.Slplus.Stream.Sheet.{
  Sheet, command, sheet_at, sheet_byte, sheet_bytes, sheet_bytes-append, band_prints, IsCounted,
  band-sheet, dot_of, sets,
}
use slap.Slplus.Label.Sent.{bands_bytes}

-- What `n` bands print, from band `j` on at row `y`, the head at `pos` slices from the margin.
unfoldable pub all_prints : (n j pos y : ℕ) → List Band → List (ℕ × ℕ × ℕ) → List (ℕ × ℕ × ℕ)
all_prints zero j pos y bands prints = prints
all_prints (suc n) j pos y [] prints = prints
all_prints (suc n) j pos y (b ∷ bands) prints =
    all_prints n (j + 1) (band_bytes b pos).1 (if j % 2 == 1 then y + 15 else y + 1) bands
      (band_prints b pos 2 y prints)

fed :
    (j at y : ℕ) (prints : List (ℕ × ℕ × ℕ))
    → sheet_byte command (feed_command j) (sheet_at at y prints)
      ≡ sheet_at at (if j % 2 == 1 then y + 15 else y + 1) prints
unfolding sheet_byte
fed j at y prints = elim (Bool-cases (j % 2 == 1)) [ inl e ↦ rw e refl | inr e ↦ rw e refl ]

-- The head and the row afterwards do not matter.
pub record Ends (prints : List (ℕ × ℕ × ℕ)) (s : Sheet) : Type 0 where
  pub at : ℕ
  pub y : ℕ
  pub same : s ≡ sheet_at at y prints

unfoldable pub AllCounted : List Band → Type 0
AllCounted [] = Unit {0}
AllCounted (b ∷ bands) = IsCounted b × AllCounted bands

pub bands-sheet :
    (n j pos y : ℕ) (bands : List Band) (prints : List (ℕ × ℕ × ℕ))
    → AllCounted bands
    → pos < 256
    → Ends
        (all_prints n j pos y bands prints)
        (sheet_bytes (bands_bytes n j pos bands) (sheet_at (2 + pos) y prints))
unfolding all_prints bands_bytes AllCounted sheet_bytes
bands-sheet zero j pos y bands prints all small = record { at = 2 + pos; y = y; same = refl }
bands-sheet (suc n) j pos y [] prints all small = record { at = 2 + pos; y = y; same = refl }
bands-sheet (suc n) j pos y (b ∷ bands) prints all small =
    let p = (band_bytes b pos).1 in
    let (e, small') = band-sheet b pos 2 y prints all.0 small in
    let y' = if j % 2 == 1 then y + 15 else y + 1 in
    let ih = bands-sheet n (j + 1) p y' bands (band_prints b pos 2 y prints) all.1 small' in
    let rest = feed_command j ∷ bands_bytes n (j + 1) p bands in
    record {
      at = ih.at;
      y = ih.y;
      same =
          sheet_bytes-append (band_bytes b pos).0 rest (sheet_at (2 + pos) y prints)
          ∙ ap (sheet_bytes rest) e
          ∙ ap (sheet_bytes (bands_bytes n (j + 1) p bands))
              (fed j (2 + p) y (band_prints b pos 2 y prints))
          ∙ ih.same;
    }

-- The band that a row belongs to, and the place of the row in it.
abbrev pub band_of : ℕ → ℕ
band_of row = row / 16 * 2 + row % 2

abbrev pub place : ℕ → ℕ
place row = row % 16 / 2

pub row_back : (row j : ℕ) → band_of row ≡ j → j / 2 * 16 + j % 2 + place row * 2 ≡ row
row_back row j e = omega arith

off_row :
    (top j byte row : ℕ)
    → band_of row ≢ j
    → (leb (top + (j / 2 * 16 + j % 2)) (top + row)
        && ltb (top + row) (top + (j / 2 * 16 + j % 2) + 16)
        && ((top + row - (top + (j / 2 * 16 + j % 2))) % 2 == 0)
        && dot_of ((top + row - (top + (j / 2 * 16 + j % 2))) / 2) byte)
      ≡ false
off_row top j byte row ne = ground arith

-- A slice at the row of band `j` sets the rows of this band, the paper being fed by `top` rows.
pub sets-row :
    (top j byte row : ℕ)
    → sets (top + (j / 2 * 16 + j % 2)) byte (top + row)
      ≡ (band_of row == j && dot_of (place row) byte)
unfolding sets
sets-row top j byte row = elim (ℕ_discrete (band_of row) j) [
  | yes e ↦
      let away : top + row - (top + (j / 2 * 16 + j % 2)) ≡ place row * 2 = omega arith in
      let low : leb (top + (j / 2 * 16 + j % 2)) (top + row) ≡ true = ground arith in
      let high : ltb (top + row) (top + (j / 2 * 16 + j % 2) + 16) ≡ true = ground arith in
      let even : (place row * 2 % 2 == 0) ≡ true = ground arith in
      let half : place row * 2 / 2 ≡ place row = omega arith in
      let same : (band_of row == j) ≡ true = ground arith in
      rw (low, high, away, even, half, same) refl
  | no ne ↦
      let other : (band_of row == j) ≡ false = ground arith in rw other (off_row top j byte row ne)
]

pub nothing : (p q r : Bool) → (p && q && false || r) ≡ r
nothing p q r = grind arith
