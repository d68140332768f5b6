-- ===== src/Makefont/Ends.antt =====
-- The loop over the glyphs of a font in slap/makefont.c comes to an end.
use slap.Base.{
  ℕ, zero, suc, ◌+◌, ◌<◌, ◌≤◌, ◌≡◌, ◌≢◌, refl, sym, subst, Bool, true, false, not, ◌&&◌, ◌==◌, ltb,
  List, [], ◌∷◌, some, length, get_or, set, arith, if-both, Option-cases, inl, inr, if◌then◌else◌,
}
use slap.Base.Int.{pos, pos_part, ltb_ℤ, ◌+ℤ◌, ◌-ℤ◌}
use slap.Base.Result.{Fault, Result, ok, err, fatal, wild_pointer, out_of_fuel}
use slap.Base.Text.{same_text}
use slap.Bitmap.{BitmapLib}
use slap.Makefont.{
  File, hash, dash, Metrics, Scanned, Scanner, Slot, import_dot, import_row, import_rows,
  import_bitmap, import_at, import_glyph, import_glyphs, skip_nonexistent, empty_slot,
}

abbrev is_fuel : Fault → Bool
is_fuel out_of_fuel = true
is_fuel _ = false

-- The run ends in a value with the property, or in a fault of the program.
abbrev Ends : {A : Type 0} → (A → Type 0) → Result A → Type 0
Ends P (ok a) = P a
Ends P (err why) = is_fuel why ≡ false

Ends-elim :
    {A B : Type 0} (P : A → Type 0) (Q : B → Type 0) (r : Result A) (k : A → Result B)
    → Ends P r
    → ((a : A) → P a → Ends Q (k a))
    → Ends Q (elim r [ err why ↦ err why | ok a ↦ k a ])
Ends-elim P Q (ok a) k h next = next a h
Ends-elim P Q (err why) k h next = h

no_truth : false ≢ true
no_truth e = ground arith

abbrev Anything : {A : Type 0} → A → Type 0
Anything a = Unit {0}

module _ (L : BitmapLib) where
  open L use {Bitmap, buy}

  import_dot-Ends : (i j c : ℕ) (q : Bitmap) → Ends Anything (import_dot L i j c q)
  unfolding import_dot
  import_dot-Ends i j c q =
      if-both (Ends Anything) (c == hash) _ _ tt (if-both (Ends Anything) (c == dash) _ _ tt refl)

  import_row-Ends :
      (i n j : ℕ) (buf : List ℕ) (q : Bitmap) → Ends Anything (import_row L i n j buf q)
  unfolding import_row
  import_row-Ends i zero j buf q = tt
  import_row-Ends i (suc n) j [] q = refl
  import_row-Ends i (suc n) j (c ∷ buf) q =
      Ends-elim Anything Anything (import_dot L i j c q) _ (import_dot-Ends i j c q)
        (λ b u. import_row-Ends i n (j + 1) buf b)

  -- No more of the file is left than there was.
  abbrev Left : ℕ → Bitmap × File → Type 0
  Left k (b, rest) = length rest ≤ k

  import_rows-Ends :
      (w n i k : ℕ) (file : File) (q : Bitmap)
      → length file ≤ k
      → Ends (Left k) (import_rows L w n i file q)
  unfolding import_rows
  import_rows-Ends w zero i k file q h = h
  import_rows-Ends w (suc n) i k [] q h = refl
  import_rows-Ends w (suc n) i k (buf ∷ rest) q h =
      Ends-elim Anything (Left k) (import_row L i w 0 buf q) _ (import_row-Ends i w 0 buf q)
        (λ b u. import_rows-Ends w n (i + 1) k rest b (omega arith))

  import_bitmap-Ends :
      (h w : ℕ) (file : File) → Ends (Left (length file)) (import_bitmap L h w file)
  unfolding import_bitmap
  import_bitmap-Ends h w file =
      if-both (Ends (Left (length file))) (ltb 0 h && ltb 0 w) _ _
        (import_rows-Ends w h 0 (length file) file (buy h w) (omega arith)) (omega arith)

  length-skip_nonexistent : (file : File) → length (skip_nonexistent file) ≤ length file
  unfolding skip_nonexistent
  length-skip_nonexistent [] = omega arith
  length-skip_nonexistent (buf ∷ rest) =
      if-both (λ file. length file ≤ suc (length rest)) (same_text buf _) rest (buf ∷ rest)
        (omega arith) (omega arith)

  module _ (scan : Scanner)
      (shorter : (m : Metrics) (file : File)
        → length (Scanned.rest (scan.metrics_of m file)) ≤ length file) where
    -- A round after which the loop goes on leaves fewer than `k` buffers.
    abbrev Less : ℕ → Bool × List (Slot L) × File → Type 0
    Less k (found, glyphs, rest) = found ≡ true → length rest < k

    import_at-Ends :
        (glyphs : List (Slot L)) (idx : ℕ) (file : File)
        → Ends (Less (suc (length file))) (import_at L scan glyphs idx file)
    unfolding import_at
    import_at-Ends glyphs idx file =
        let g = get_or glyphs idx (empty_slot L) in
        let s = scan.metrics_of g.metrics file in
        let fewer = shorter g.metrics file in
        let E = Ends (Less (suc (length file))) in
        let less : (rest : File)
            → length rest ≤ length s.rest
            → length (skip_nonexistent rest) < suc (length file) =
          λ rest h. omega (arith, length-skip_nonexistent rest) in
        let m = s.metrics in
        let low = ltb_ℤ (m.ascent +ℤ m.descent) (pos 0) in
        let thin = ltb_ℤ m.rbearing m.lbearing in
        let bitmap =
          import_bitmap L (pos_part (m.ascent +ℤ m.descent)) (pos_part (m.rbearing -ℤ m.lbearing))
            s.rest in
        let store : Bitmap × File → Result (Bool × List (Slot L) × File) = λ (bm, rest).
          ok (true, set glyphs idx (record { metrics = m; bm = some bm }), skip_nonexistent rest) in
        let read : Result (Bool × List (Slot L) × File) = elim bitmap [
          | err why ↦ err why
          | ok a ↦ store a
        ] in
        if-both E (not (s.count == 5))
          (ok (false, set glyphs idx (record g { metrics = m }), s.rest))
          (if low then err fatal else if thin then err fatal else read) (λ e. omega arith)
          (if-both E low (err fatal) (if thin then err fatal else read) refl (
            if-both E thin (err fatal) read refl (
              Ends-elim (Left (length s.rest)) (Less (suc (length file))) bitmap store
                (import_bitmap-Ends _ _ s.rest) (λ (b, rest) h e. less rest h))))

    import_glyph-Ends :
        (glyphs : List (Slot L)) (file : File)
        → Ends (Less (length file)) (import_glyph L scan glyphs file)
    unfolding import_glyph
    import_glyph-Ends glyphs [] = λ e. absurd (no_truth e)
    import_glyph-Ends glyphs (buf ∷ rest) = elim (Option-cases (scan.char_index buf)) [
      | inl e ↦ rw (import_glyph, e) (λ u. omega arith)
      | inr (idx, e) ↦
          rw (import_glyph, e)
            (let E = Ends (Less (suc (length rest))) in
              let next = import_at L scan glyphs (pos_part idx) rest in
              if-both E (ltb_ℤ (pos 255) idx) (err fatal)
                (if ltb_ℤ idx (pos 0) then err wild_pointer else next) refl
                (if-both E (ltb_ℤ idx (pos 0)) (err wild_pointer) next refl
                  (import_at-Ends glyphs (pos_part idx) rest)))
    ]

    import_glyphs-Ends :
        (fuel : ℕ) (glyphs : List (Slot L)) (file : File)
        → length file < fuel
        → Ends Anything (import_glyphs L scan fuel glyphs file)
    unfolding import_glyphs
    import_glyphs-Ends zero glyphs file h = elim h [ ]
    import_glyphs-Ends (suc fuel) glyphs file h =
        Ends-elim (Less (length file)) Anything (import_glyph L scan glyphs file) _
          (import_glyph-Ends glyphs file)
          (λ (found, glyphs', rest) less.
            next found glyphs' rest less (λ small. import_glyphs-Ends fuel glyphs' rest small))
      where
        next :
            (found : Bool) (glyphs' : List (Slot L)) (rest : File)
            → Less (length file) (found, glyphs', rest)
            → (length rest < fuel → Ends Anything (import_glyphs L scan fuel glyphs' rest))
            → Ends Anything
                (elim found [ false ↦ ok glyphs' | true ↦ import_glyphs L scan fuel glyphs' rest ])
        next false glyphs' rest less again = tt
        next true glyphs' rest less again = let fewer = less refl in again (omega arith)

    -- If scanf never adds to the file, the loop over the glyphs does not run out of a fuel that is
    -- more than the number of buffers in the file, whatever the file holds.
    pub import_glyphs_ends :
        (fuel : ℕ) (glyphs : List (Slot L)) (file : File)
        → length file < fuel
        → import_glyphs L scan fuel glyphs file ≢ err out_of_fuel
    import_glyphs_ends fuel glyphs file h e =
        no_truth (sym (subst (Ends Anything) e (import_glyphs-Ends fuel glyphs file h)))
