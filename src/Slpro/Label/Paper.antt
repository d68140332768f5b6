-- ===== src/Slpro/Label/Paper.antt =====
-- What a printer of the SLP-Pro family that is always ready prints of a bitmap.
use slap.Base.{
  ℕ, zero, suc, ◌+◌, ◌*◌, ◌%◌, ◌≤◌, ◌<◌, ◌≡◌, refl, ap, ◌∙◌, Bool, true, false, ◌||◌, ◌≢◌, dec_lt,
  Bool-cases, inl, inr, ◌/◌, List, [], ◌∷◌, ◌++◌, map, take, length, length-take, get_or, arith,
  some,
}
use mathlib.Core.List.{append-nil, append_assoc}
use slap.Base.Result.{Returns, mono}
use slap.Bitmap.{BitmapLib}
use slap.Serial.{Port, bytes}
use slap.Slpro.Line.{Host, State}
use slap.Slpro.Map.{column}
use slap.Slpro.Map.Packed.{IsImage, packed, dot, any, any_in}
use slap.Slpro.Models.{Model}
use slap.Slpro.Label.{printlabel}
use slap.Slpro.Label.Prompt.{IsPrompt, IsReady}
use slap.Slpro.Label.Sent.{band_bytes, bands_bytes, label_bytes, printlabel-Label}
use slap.Slpro.Label.Printer.{
  Printer, command, take_byte, take_bytes, flat, firsts, take_bytes-append, band-row, flat-packed,
  map-firsts,
}

get_or-take :
    (n j : ℕ) (bands : List (List ℕ)) → j < n → get_or (take n bands) j [] ≡ get_or bands j []
get_or-take zero j bands lt = absurd (omega arith)
get_or-take (suc n) j [] lt = refl
get_or-take (suc n) zero (b ∷ bands) lt = refl
get_or-take (suc n) (suc j) (b ∷ bands) lt = get_or-take n j bands (omega arith)

or_false : (a b : Bool) → (a || b) ≡ false → (a ≡ false) × (b ≡ false)
or_false true b h = absurd (no_truth h)
  where
    no_truth : true ≢ false
    no_truth e = ground arith
or_false false b h = (refl, h)

none_of : (n : ℕ) (f : ℕ → Bool) → any n f ≡ false → (i : ℕ) → i < n → f i ≡ false
unfolding any
none_of zero f h i lt = absurd (omega arith)
none_of (suc n) f h i lt =
    let (before, here) = or_false (any n f) (f n) h in
    elim (dec_lt i n) [
      | yes p ↦ none_of n f before i p
      | no p ↦ let e : i ≡ n = omega arith in ap f e ∙ here
    ]

plus_zero : (j : ℕ) → 0 + j ≡ j
plus_zero j = omega arith

too_late : (r last : ℕ) → last < r → ¬ (0 + r ≤ last)
too_late r last late le = omega arith

-- Between two labels, with these labels printed.
abbrev pub printed : List (List (List Bool)) → Printer
printed labels = record { mode = command; rows = []; labels = labels }

-- Some bands are as many rows.
bands-rows :
    (nslices n : ℕ) (bands : List (List ℕ)) (rest : List ℕ) (rows : List (List Bool))
    (labels : List (List (List Bool)))
    → nslices < 256
    → n ≤ length bands
    → ((j : ℕ) → j < n → length (get_or bands j []) ≡ nslices)
    → take_bytes
        (bands_bytes nslices n bands ++ rest)
        (record { mode = command; rows = rows; labels = labels })
      ≡ take_bytes rest
          (record { mode = command; rows = rows ++ map flat (take n bands); labels = labels })
unfolding bands_bytes band_bytes
bands-rows nslices zero bands rest rows labels small le wide = rw append-nil refl
bands-rows nslices (suc n) [] rest rows labels small le wide = absurd (omega arith)
bands-rows nslices (suc n) (b ∷ bands) rest rows labels small le wide =
    let p : Printer = record { mode = command; rows = rows; labels = labels } in
    let tail = bands_bytes nslices n bands ++ rest in
    let size : nslices % 256 ≡ length b = omega (arith, wide 0 (omega arith)) in
    ap (λ bs. take_bytes (0x4 ∷ nslices % 256 ∷ bs) p)
      (append_assoc b (bands_bytes nslices n bands) rest)
    ∙ ap (λ k. take_bytes (0x4 ∷ k ∷ b ++ tail) p) size
    ∙ take_bytes-append (0x4 ∷ length b ∷ b) tail p
    ∙ ap (take_bytes tail) (band-row b p refl)
    ∙ bands-rows nslices n bands rest (rows ++ flat b ∷ []) labels small (omega arith)
        (λ j lt. wide (suc j) (omega arith))
    ∙ ap (λ r. take_bytes rest (record { mode = command; rows = r; labels = labels }))
        (append_assoc rows (flat b ∷ []) (map flat (take n bands)))

-- A whole label, from its bytes.
label-rows :
    (nslices last : ℕ) (bands : List (List ℕ)) (labels : List (List (List Bool)))
    → nslices < 256
    → last < length bands
    → ((j : ℕ) → j < length bands → length (get_or bands j []) ≡ nslices)
    → take_bytes (label_bytes nslices last bands) (printed labels)
      ≡ printed (labels ++ ([] ∷ [] ∷ [] ∷ map flat (take (last + 1) bands)) ∷ [])
unfolding label_bytes take_bytes take_byte
label-rows nslices last bands labels small le wide =
    bands-rows nslices (last + 1) bands (0xC ∷ 0x1 ∷ []) ([] ∷ [] ∷ [] ∷ []) labels small
      (omega arith) (λ j lt. wide j (omega arith))

module _ (L : BitmapLib) (bm : BitmapLib.Bitmap L) (slop : Bool) (nslices : ℕ) where
  -- The dots of a row, each taken from its column.
  abbrev pub row : ℕ → List Bool
  row r = firsts (nslices * 8) (λ c. BitmapLib.tstb L bm r (column slop nslices c))

  -- Three blank rows, and the rows up to the last.
  abbrev pub picture : (last : ℕ) → List (List Bool)
  picture last = [] ∷ [] ∷ [] ∷ firsts (last + 1) row

  row-flat :
      (n last : ℕ) (bands : List (List ℕ))
      → IsImage L bm slop nslices n 0 0 bands last
      → (j : ℕ) → j < n
      → flat (get_or bands j []) ≡ row j
  row-flat n last bands image j lt =
      flat-packed (get_or bands j []) (λ c. BitmapLib.tstb L bm j (column slop nslices c))
        (λ k within.
          image.at j k lt (omega (arith, image.wide j lt))
          ∙ ap (λ r. packed 8 (dot L bm slop nslices r k)) (plus_zero j))
      ∙ ap (λ k. firsts (k * 8) (λ c. BitmapLib.tstb L bm j (column slop nslices c)))
          (image.wide j lt)

  -- Where no slice has a dot, no column has.
  no_dots :
      (r m slice : ℕ)
      → any_in L bm slop nslices r m slice ≡ false
      → (k i : ℕ) → k < m
      → i < 8
      → dot L bm slop nslices r (slice + k) i ≡ false
  unfolding any_in
  no_dots r zero slice none_ k i lt within = absurd (omega arith)
  no_dots r (suc m) slice none_ zero i lt within =
      let (here, rest) = or_false (any 8 (dot L bm slop nslices r slice)) _ none_ in
      let e : slice + 0 ≡ slice = omega arith in
      ap (λ k. dot L bm slop nslices r k i) e
      ∙ none_of 8 (dot L bm slop nslices r slice) here i within
  no_dots r (suc m) slice none_ (suc k) i lt within =
      let (here, rest) = or_false (any 8 (dot L bm slop nslices r slice)) _ none_ in
      let e : slice + suc k ≡ slice + 1 + k = omega arith in
      ap (λ k. dot L bm slop nslices r k i) e
      ∙ no_dots r m (slice + 1) rest k i (omega arith) within

  -- No row after the last one printed has a dot.
  abbrev pub IsBlankAfter : (n last : ℕ) → Type 0
  IsBlankAfter n last =
      (r c : ℕ)
      → last < r
      → r < n
      → c < nslices * 8
      → BitmapLib.tstb L bm r (column slop nslices c) ≡ false

  image-last :
      (n last : ℕ) (bands : List (List ℕ))
      → IsImage L bm slop nslices n 0 0 bands last
      → 0 < n
      → last < n
  image-last n last bands image pos_ = elim image.latest [
    | inl none_ ↦ omega arith
    | inr (lo, hi, hit) ↦ omega arith
  ]

  image-blank :
      (n last : ℕ) (bands : List (List ℕ))
      → IsImage L bm slop nslices n 0 0 bands last
      → IsBlankAfter n last
  image-blank n last bands image r c late inside within =
      let same : c ≡ (0 + c / 8) * 8 + c % 8 = omega arith in
      let z : 0 + r ≡ r = omega arith in
      elim (Bool-cases (any_in L bm slop nslices r nslices 0)) [
        | inl hit ↦ absurd (too_late r last late (image.after r inside (rw z hit)))
        | inr none_ ↦
            ap (λ c. BitmapLib.tstb L bm r (column slop nslices c)) same
            ∙ no_dots r nslices 0 none_ (c / 8) (c % 8) (omega arith) (omega arith)
      ]

  image-rows :
      (n last : ℕ) (bands : List (List ℕ))
      → IsImage L bm slop nslices n 0 0 bands last
      → last < n
      → map flat (take (last + 1) bands) ≡ firsts (last + 1) row
  image-rows n last bands image le =
      let size : length (take (last + 1) bands) ≡ last + 1 =
        omega (arith, length-take (last + 1) bands, image.tall) in
      map-firsts (take (last + 1) bands) row (λ j lt.
        ap flat (get_or-take (last + 1) j bands (omega arith))
        ∙ row-flat n last bands image j (omega arith))
      ∙ ap (λ k. firsts k row) size

-- When the printer is between two labels and idle at every poll, with an open device whose map
-- fits the bitmap, fewer than 256 slices, and a fuel of two or more: `printlabel` ends without a
-- fault, and the printer has printed one label more: three blank rows, and of the bitmap the rows
-- up to one after which no row has a dot, each dot where it stands, but for the slop.
pub printlabel-paper :
    (host : Host) (port : Port) (prompt : IsPrompt port) (m : ℕ) (L : BitmapLib)
    (bm : BitmapLib.Bitmap L) (model : Model) (old : List (List ℕ)) (s : State)
    (labels : List (List (List Bool)))
    → IsReady s
    → s.map ≡ some old
    → s.m ≡ some model
    → BitmapLib.width L bm ≡ s.nslices * 8
    → BitmapLib.height L bm ≡ s.nbands
    → 0 < s.nbands
    → s.nslices < 256
    → take_bytes (bytes s.log) (printed []) ≡ printed labels
    → Returns (printlabel host port (suc (suc m)) L bm s) (λ (a, t).
      (last : ℕ) × (last < s.nbands)
      × IsBlankAfter L bm model.has_slop_bug s.nslices s.nbands last
      × (take_bytes (bytes t.log) (printed [])
          ≡ printed (labels ++ picture L bm model.has_slop_bug s.nslices last ∷ []))
      × IsReady t)
printlabel-paper host port prompt m L bm model old s labels ready hm hk hw hh pos_ small start =
    mono (printlabel-Label host port prompt m L bm model old s ready hm hk hw hh pos_)
      (λ (a, t) (bands, last, image, sent_, ready').
        let low = image-last L bm model.has_slop_bug s.nslices s.nbands last bands image pos_ in
        (
          last,
          low,
          image-blank L bm model.has_slop_bug s.nslices s.nbands last bands image,
          ap (λ bs. take_bytes bs (printed [])) sent_
              ∙ take_bytes-append (bytes s.log) (label_bytes s.nslices last bands) (printed [])
              ∙ ap (take_bytes (label_bytes s.nslices last bands)) start
              ∙ label-rows s.nslices last bands labels small (omega (arith, image.tall))
                  (λ j lt. image.wide j (omega (arith, image.tall)))
              ∙ ap (λ rows. printed (labels ++ ([] ∷ [] ∷ [] ∷ rows) ∷ []))
                  (image-rows L bm model.has_slop_bug s.nslices s.nbands last bands image low),
          ready',
        ))
