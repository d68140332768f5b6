-- ===== src/Slplus/Label/Paper.antt =====
-- What a printer that is always ready prints of a bitmap.
use slap.Base.{
  Bool, ℕ_discrete, ◌⊎◌, ℕ, suc, ◌+◌, ◌*◌, ◌/◌, ◌%◌, ◌≤◌, ◌<◌, ◌≡◌, refl, ap, ◌∙◌, true, false,
  List, [], ◌∷◌, ◌++◌, leb, ltb, arith, Bool-cases, inl, inr, length,
}
use slap.Base.Result.{Returns, mono}
use slap.Bitmap.{BitmapLib}
use slap.Slplus.Line.{Port, State, bytes}
use slap.Slplus.Map.{map_bands}
use slap.Slplus.Map.Last.{map_bands-last}
use slap.Slplus.Map.{Band}
use slap.Slplus.Stream.{last_printed}
use slap.Slplus.Stream.Sheet.{Sheet, sheet_at, sheet_byte, sheet_bytes, sheet_bytes-append, shown}
use slap.Slplus.Label.{old_slices, printlabel}
use slap.Slplus.Label.Prompt.{IsPrompt, IsBetween}
use slap.Slplus.Label.Sent.{bands_bytes, label_bytes, mapped, printlabel-Sends}
use slap.Slplus.Label.Bands.{all_prints, band_of, nothing, bands-sheet}
use slap.Slplus.Label.Dots.{
  IsBlankFirst, AllDone, map_bands-AllDone, all_prints-shown, AllDone-AllCounted,
}

module _ (L : BitmapLib) (bm : BitmapLib.Bitmap L) where
  -- Every dot of the `n` bands lies in a band up to `last`.
  abbrev IsReached : (n nslices last : ℕ) → Type 0
  IsReached n nslices last =
      (row c : ℕ)
      → row < n * 8
      → c < nslices
      → BitmapLib.tstb L bm row c ≡ true
      → band_of row ≤ last

  label-shown :
      (nslices last at y row c : ℕ) (bands : List Band)
      → AllDone L bm nslices 0 bands
      → nslices ≤ 255
      → IsBlankFirst L bm
      → last_printed last (length bands) < length bands
      → IsReached (length bands) nslices (last_printed last (length bands))
      → row < length bands * 8
      → c < nslices
      → shown
          (Sheet.prints (sheet_bytes (label_bytes last bands) (sheet_at at y [])))
          (y + 16 + row)
          (2 + c)
        ≡ BitmapLib.tstb L bm row c
  unfolding label_bytes sheet_bytes sheet_byte shown
  label-shown nslices last at y row c bands all small blank fits reached low inside =
      let n = last_printed last (length bands) + 1 in
      let end : List ℕ = 0xD ∷ 0xC ∷ 0x1 ∷ [] in
      let middle = bands_bytes n 0 0 bands in
      let r =
        bands-sheet n 0 0 (y + 16) bands [] (AllDone-AllCounted L bm nslices 0 bands small all)
          (omega arith) in
      let e = sheet_bytes-append middle end (sheet_at 2 (y + 16) []) in
      let top : y + 16 ≡ y + 16 + (0 / 2 * 16 + 0 % 2) = omega arith in
      let dots =
        all_prints-shown L bm nslices n 0 0 (y + 16) row c bands [] blank all (omega arith)
          inside in
      ap (λ s. shown (Sheet.prints s) (y + 16 + row) (2 + c)) (e ∙ ap (sheet_bytes end) r.same)
      ∙ ap (λ t. shown (all_prints n 0 0 t bands []) (y + 16 + row) (2 + c)) top
      ∙ dots
      ∙ elim (Bool-cases (BitmapLib.tstb L bm row c)) [
        | inl hit ↦
            let seen : leb 0 (band_of row) ≡ true = ground arith in
            let seen' : ltb (band_of row) (0 + n) ≡ true =
              ground (arith, reached row c low inside hit) in
            rw (seen, seen', hit) refl
        | inr miss ↦ rw miss (nothing (leb 0 (band_of row)) _ false)
      ]

  -- `last` is odd, or the odd band of its pair has no dot.
  abbrev pub IsWholePair : (nslices last : ℕ) → Type 0
  IsWholePair nslices last =
      (last % 2 ≡ 1)
      ⊎ ((row c : ℕ)
          → row / 16 * 2 ≡ last
          → row % 2 ≡ 1
          → c < nslices
          → BitmapLib.tstb L bm row c ≡ false)

  last_printed-le : (last n : ℕ) → last ≤ last_printed last n
  unfolding last_printed
  last_printed-le last n = ground arith

  -- What is printed reaches the last pair with a dot.
  mapped-IsReached :
      (pairs nslices n : ℕ) (old : ℕ → ℕ → ℕ)
      → n ≡ pairs * 2
      → IsWholePair nslices (map_bands L bm pairs 0 nslices old 0).1
      → IsReached n nslices (last_printed (map_bands L bm pairs 0 nslices old 0).1 n)
  mapped-IsReached pairs nslices n old size whole row c low inside hit =
      let last = (map_bands L bm pairs 0 nslices old 0).1 in
      let up = last_printed-le last n in
      let (_, all) = map_bands-last L bm pairs 0 nslices old 0 (omega arith) (omega arith) in
      let pair : row / 16 * 2 ≤ last = all row c inside (omega arith) (omega arith) hit in
      elim whole [
        | inl odd ↦ omega (arith, up, pair, odd)
        | inr blank ↦ elim (ℕ_discrete (row / 16 * 2) last) [
          | no earlier ↦ omega (arith, up, pair, earlier)
          | yes same ↦ elim (ℕ_discrete (row % 2) 1) [
            | no even ↦ omega (arith, up, same)
            | yes odd ↦ absurd (both hit (blank row c same odd inside))
          ]
        ]
      ]
    where
      both : {b : Bool} → b ≡ true → b ≡ false → ⊥
      both t f = cc

-- When the printer is between two labels and idle at every poll, with at most 255 slices, and a
-- fuel of two or more, `printlabel` ends without a fault, provided the first slice of the bitmap
-- has no dot, the last band that it prints is one of the map, and the band where the mapping finds
-- the last dots is odd or the odd band of its pair has no dot. A printer that starts a sheet then
-- has, from 16 rows below on and two slices from the edge, the dots of the bitmap and no others on
-- the rows and slices of the map.
pub printlabel-dots :
    (port : Port) (prompt : IsPrompt port) (m : ℕ) (L : BitmapLib) (bm : BitmapLib.Bitmap L)
    (s : State) (at y row c : ℕ)
    → IsBetween s
    → s.nslices ≤ 255
    → IsBlankFirst L bm
    → last_printed (mapped port prompt m L bm s).1 (length (mapped port prompt m L bm s).0)
      < length (mapped port prompt m L bm s).0
    → IsWholePair L bm s.nslices (mapped port prompt m L bm s).1
    → row < length (mapped port prompt m L bm s).0 * 8
    → c < s.nslices
    → Returns (printlabel port (suc (suc m)) L bm s) (λ (a, t).
      (sent_ : List ℕ) × (bytes t.log ≡ bytes s.log ++ sent_)
      × (shown (Sheet.prints (sheet_bytes sent_ (sheet_at at y []))) (y + 16 + row) (2 + c)
          ≡ BitmapLib.tstb L bm row c)
      × IsBetween t)
printlabel-dots port prompt m L bm s at y row c between small blank fits whole low inside =
    let out = mapped port prompt m L bm s in
    let (all, size) =
      map_bands-AllDone L bm (length s.bands / 2) 0 s.nslices (old_slices s.bands) 0
        (omega arith) in
    let reached =
      mapped-IsReached L bm (length s.bands / 2) s.nslices (length out.0) (old_slices s.bands) size
        whole in
    mono (printlabel-Sends port prompt m L bm s between fits) (λ (a, t) (between', sent_). (
      label_bytes out.1 out.0,
      sent_,
      label-shown L bm s.nslices out.1 at y row c out.0 all small blank fits reached low inside,
      between',
    ))
