-- ===== src/Slplus/Label/Dots.antt =====
-- The prints of the bands are the dots of the bitmap.
use slap.Base.{
  ℕ, zero, suc, ◌+◌, ◌-◌, ◌*◌, ◌/◌, ◌%◌, ◌≤◌, ◌<◌, ◌≡◌, ◌≢◌, refl, ap, subst, ◌∙◌, Bool, true,
  false, ◌&&◌, ◌||◌, List, [], ◌∷◌, ◌==◌, if◌then◌else◌, leb, ltb, arith, Bool-cases, inl, inr,
  length, ℕ_discrete,
}
use slap.Bitmap.{BitmapLib}
use slap.Slplus.Map.{Band, map_pair, map_bands}
use slap.Slplus.Map.Correct.{Done, map_pair-Done}
use slap.Slplus.Stream.{start_pos, band_bytes}
use slap.Slplus.Stream.Head.{start_pos-le}
use slap.Slplus.Stream.Sheet.{band_prints, dot_of, dot_of-bits, shown, shown-strip}
use slap.Slplus.Label.Bands.{all_prints, place, band_of, row_back, sets-row, nothing, AllCounted}

even_row : (band n : ℕ) → band % 2 ≡ 0 → band * 8 + n * 2 ≡ band / 2 * 16 + band % 2 + n * 2
even_row band n even = omega arith

odd_row :
    (band n : ℕ)
    → band % 2 ≡ 0
    → band * 8 + n * 2 + 1 ≡ (band + 1) / 2 * 16 + (band + 1) % 2 + n * 2
odd_row band n even = omega arith

-- The dots of band `j`: every other row of its pair, 8 of them.
module _ (L : BitmapLib) (bm : BitmapLib.Bitmap L) where
  abbrev pub band_dots : (j slice n : ℕ) → Bool
  band_dots j slice n = BitmapLib.tstb L bm (j / 2 * 16 + j % 2 + n * 2) slice

  unfoldable pub AllDone : (nslices j : ℕ) → List Band → Type 0
  AllDone nslices j [] = Unit {0}
  AllDone nslices j (b ∷ bands) =
      Done (band_dots j) nslices nslices b × AllDone nslices (j + 1) bands

  pub map_bands-AllDone :
      (pairs band nslices : ℕ) (old : ℕ → ℕ → ℕ) (last : ℕ)
      → band % 2 ≡ 0
      → AllDone nslices band (map_bands L bm pairs band nslices old last).0
        × (length (map_bands L bm pairs band nslices old last).0 ≡ pairs * 2)
  unfolding map_bands AllDone
  map_bands-AllDone zero band nslices old last even = (tt, omega arith)
  map_bands-AllDone (suc pairs) band nslices old last even =
      let (d, d') = map_pair-Done L bm band nslices (old band) (old (band + 1)) last in
      let p = map_pair L bm band nslices (old band) (old (band + 1)) last in
      let (rest, size) = map_bands-AllDone pairs (band + 2) nslices old p.lastband (omega arith) in
      let next : band + 2 ≡ band + 1 + 1 = omega arith in
      let bands = (map_bands L bm pairs (band + 2) nslices old p.lastband).0 in
      (
        (
          subst (λ (H : ℕ → ℕ → Bool). Done H nslices nslices p.even)
              (λ i slice n. BitmapLib.tstb L bm (even_row band n even i) slice) d,
          (
            subst (λ (H : ℕ → ℕ → Bool). Done H nslices nslices p.odd)
                (λ i slice n. BitmapLib.tstb L bm (odd_row band n even i) slice) d',
            subst (λ k. AllDone nslices k bands) next rest,
          ),
        ),
        omega (arith, size),
      )

  -- The first slice has no dot.
  abbrev pub IsBlankFirst : Type 0
  IsBlankFirst = (row : ℕ) → BitmapLib.tstb L bm row 0 ≡ false

  module _ (nslices j row c : ℕ) (mine : band_of row ≡ j) (inside : c < nslices) where
    dot_here : band_dots j c (place row) ≡ BitmapLib.tstb L bm row c
    dot_here = ap (λ r. BitmapLib.tstb L bm r c) (row_back row j mine)

    dot_sent :
        (b : Band)
        → Done (band_dots j) nslices nslices b
        → dot_of (place row) (b.slices c) ≡ BitmapLib.tstb L bm row c
    dot_sent b d =
        ap (dot_of (place row)) (Done.done d c inside)
        ∙ dot_of-bits (place row) 8 (band_dots j c) (omega arith)
        ∙ dot_here

    dot_covered :
        (b : Band)
        → Done (band_dots j) nslices nslices b
        → BitmapLib.tstb L bm row c ≡ true
        → (b.min_slice ≤ c) × (c ≤ b.max_slice)
    dot_covered b d hit = Done.covers d c (place row) inside (omega arith) (dot_here ∙ hit)

  band-shown :
      (nslices j pos top row c : ℕ) (b : Band) (prints : List (ℕ × ℕ × ℕ))
      → IsBlankFirst
      → Done (band_dots j) nslices nslices b
      → c < nslices
      → shown (band_prints b pos 2 (top + (j / 2 * 16 + j % 2)) prints) (top + row) (2 + c)
        ≡ (band_of row == j && BitmapLib.tstb L bm row c || shown prints (top + row) (2 + c))
  unfolding band_prints
  band-shown nslices j pos top row c b prints blank d inside =
      let st = start_pos b pos in
      let le : st ≤ b.min_slice = start_pos-le b pos in
      let y = top + (j / 2 * 16 + j % 2) in
      let dot = BitmapLib.tstb L bm row c in
      let strip_ = shown-strip y 2 (b.max_slice + 1 - st) st b.slices prints (top + row) c in
      let row_ = sets-row top j (b.slices c) row in
      elim (ℕ_discrete (band_of row) j) [
        | no ne ↦
            let other : (band_of row == j) ≡ false = ground arith in
            rw other (elim (Bool-cases (b.max_slice == 0)) [
              | inl none_ ↦ rw none_ refl
              | inr some_ ↦ rw (some_, strip_, row_, other) (nothing (leb st c) _ _)
            ])
        | yes e ↦
            let same : (band_of row == j) ≡ true = ground arith in
            let sent_ = dot_sent nslices j row c e inside b d in
            elim (Bool-cases dot) [
              | inl hit ↦
                  let (lo, hi) = dot_covered nslices j row c e inside b d hit in
                  let ne : c ≢ 0 = λ z. absurd (first row c z hit) in
                  let some_ : (b.max_slice == 0) ≡ false = ground arith in
                  let from : leb st c ≡ true = ground arith in
                  let to : ltb c (st + (b.max_slice + 1 - st)) ≡ true = ground arith in
                  rw (some_, strip_, row_, same, sent_, from, to, hit) refl
              | inr miss ↦
                  rw (same, miss)
                    (elim (Bool-cases (b.max_slice == 0)) [
                      | inl none_ ↦ rw none_ refl
                      | inr some_ ↦
                          rw (some_, strip_, row_, same, sent_, miss) (nothing (leb st c) _ _)
                    ])
            ]
      ]
    where
      first : (row c : ℕ) → c ≡ 0 → BitmapLib.tstb L bm row c ≡ true → ⊥
      first row c z hit = let e = ap (λ k. BitmapLib.tstb L bm row k) z ∙ blank row in cc

  pub all_prints-shown :
      (nslices n j pos top row c : ℕ) (bands : List Band) (prints : List (ℕ × ℕ × ℕ))
      → IsBlankFirst
      → AllDone nslices j bands
      → n ≤ length bands
      → c < nslices
      → shown (all_prints n j pos (top + (j / 2 * 16 + j % 2)) bands prints) (top + row) (2 + c) ≡ (
          leb j (band_of row) && ltb (band_of row) (j + n) && BitmapLib.tstb L bm row c
          || shown prints (top + row) (2 + c))
  unfolding all_prints AllDone
  all_prints-shown nslices zero j pos top row c bands prints blank all le inside = ground arith
  all_prints-shown nslices (suc n) j pos top row c [] prints blank all le inside =
      absurd (omega arith)
  all_prints-shown nslices (suc n) j pos top row c (b ∷ bands) prints blank all le inside =
      let y = top + (j / 2 * 16 + j % 2) in
      let next : (if j % 2 == 1 then y + 15 else y + 1) ≡ top + ((j + 1) / 2 * 16 + (j + 1) % 2) =
        ground arith in
      let ih =
        all_prints-shown nslices n (j + 1) (band_bytes b pos).1 top row c bands
          (band_prints b pos 2 y prints) blank all.1 (omega arith) inside in
      let here = band-shown nslices j pos top row c b prints blank all.0 inside in
      rw next (ih ∙ rw here (ground arith))

  pub AllDone-AllCounted :
      (nslices j : ℕ) (bands : List Band)
      → nslices ≤ 255
      → AllDone nslices j bands
      → AllCounted bands
  unfolding AllDone AllCounted
  AllDone-AllCounted nslices j [] small all = tt
  AllDone-AllCounted nslices j (b ∷ bands) small (d, all) =
      let rest = AllDone-AllCounted nslices (j + 1) bands small all in
      elim d.tight [
        | inl (lo, hi) ↦ ((λ ne. absurd (ne hi), omega arith), rest)
        | inr (lo, hi, le, ord) ↦ ((λ ne. ord, omega arith), rest)
      ]
