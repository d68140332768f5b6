-- ===== src/Makefont/Dumped.antt =====
-- What `import_glyph` of slap/makefont.c reads from what `dumpchar` of slap/dumpfont.c prints.
use slap.Base.{
  ℕ, zero, suc, ◌+◌, ◌<◌, ◌≡◌, ◌≢◌, refl, ap, ◌∙◌, subst, Bool, true, false, not, ◌&&◌, ◌||◌, ◌==◌,
  ltb, Bool-cases, inl, inr, List, ◌∷◌, ◌++◌, some, get_or, set, arith, if◌then◌else◌,
}
use slap.Base.Int.{ℤ, pos, pos_part, neg_part, sub_ℕ, ltb_ℤ, ◌+ℤ◌, ◌-ℤ◌}
use slap.Base.Result.{Returns, returns, mono}
use slap.Bitmap.{BitmapLib}
use slap.Makefont.{
  File, hash, dash, Metrics, Scanned, Scanner, Slot, dump_row, dump_rows, dumpchar, import_dot,
  import_row, import_rows, import_bitmap, import_at, import_glyph, skip_nonexistent, empty_slot,
}

module _ (L : BitmapLib) where
  open L use {
    Bitmap, height, width, tstb, setb, buy, height-setb, width-setb, tstb-setb, height-buy,
    width-buy, tstb-buy,
  }

  -- The bitmaps have the same size and the same dots.
  pub record Same (p q : Bitmap) : Type 0 where
    pub same_height : height q ≡ height p
    pub same_width : width q ≡ width p
    pub same_dots : (r c : ℕ) → r < height p → c < width p → tstb q r c ≡ tstb p r c

  -- Before the dot at `i`, `j` in the order of reading.
  abbrev before : (i j r c : ℕ) → Bool
  before i j r c = ltb r i || (r == i && ltb c j)

  -- `q` has the size of `p` and its dots before `i`, `j`.
  record Part (p : Bitmap) (i j : ℕ) (q : Bitmap) : Type 0 where
    tall : height q ≡ height p
    wide : width q ≡ width p
    dots : (r c : ℕ) → r < height p → c < width p → tstb q r c ≡ (before i j r c && tstb p r c)

  -- One dot more, which is set if it is in `p`, and if it is not.
  before_set :
      (i j r c : ℕ) (t : Bool)
      → (r ≡ i → c ≡ j → t ≡ true)
      → (r == i && c == j || before i j r c && t) ≡ (before i (j + 1) r c && t)
  before_set i j r c true h = ground arith
  before_set i j r c false h = ground (arith, h)

  before_left :
      (i j r c : ℕ) (t : Bool)
      → (r ≡ i → c ≡ j → t ≡ false)
      → (before i j r c && t) ≡ (before i (j + 1) r c && t)
  before_left i j r c true h = ground (arith, h)
  before_left i j r c false h = ground arith

  module _ (p : Bitmap) where
    at_dot : (i j r c : ℕ) (v : Bool) → tstb p i j ≡ v → r ≡ i → c ≡ j → tstb p r c ≡ v
    at_dot i j r c v e same same' = rw (same, same') e

    import_dot-Part :
        (i j : ℕ) (q : Bitmap)
        → Part p i j q
        → i < height p
        → j < width p
        → Returns (import_dot L i j (if tstb p i j then hash else dash) q) (Part p i (j + 1))
    unfolding import_dot
    import_dot-Part i j q part inside within = elim (Bool-cases (tstb p i j)) [
      | inl e ↦ rw e (
          returns _ (record {
            tall = ground (arith, height-setb q i j, part.tall);
            wide = ground (arith, width-setb q i j, part.wide);
            dots = λ r c x y.
                tstb-setb q i j r c (rw (part.tall) inside) (rw (part.wide) within)
                  (rw (part.tall) x) (rw (part.wide) y)
                ∙ ap (λ t. r == i && c == j || t) (part.dots r c x y)
                ∙ before_set i j r c (tstb p r c) (at_dot i j r c true e);
          }))
      | inr e ↦ rw e (
          returns _ (record {
            tall = part.tall;
            wide = part.wide;
            dots = λ r c x y.
                part.dots r c x y ∙ before_left i j r c (tstb p r c) (at_dot i j r c false e);
          }))
    ]

    import_row-Part :
        (i n j : ℕ) (q : Bitmap)
        → Part p i j q
        → i < height p
        → j + n ≡ width p
        → Returns (import_row L i n j (dump_row L p i n j) q) (Part p i (width p))
    unfolding import_row dump_row
    import_row-Part i zero j q part inside e =
        let same : j ≡ width p = omega arith in returns _ (subst (λ k. Part p i k q) same part)
    import_row-Part i (suc n) j q part inside e =
        let d = import_dot-Part i j q part inside (omega arith) in
        rw (import_row, d.equals) (import_row-Part i n (j + 1) d.value d.holds inside (omega arith))

    -- The next row begins where this one ends.
    Part-next : (i : ℕ) (q : Bitmap) → Part p i (width p) q → Part p (i + 1) 0 q
    Part-next i q part = record {
      tall = part.tall;
      wide = part.wide;
      dots = λ r c x y. part.dots r c x y ∙ ground arith;
    }

    import_rows-Part :
        (n i : ℕ) (q : Bitmap) (more : File)
        → Part p i 0 q
        → i + n ≡ height p
        → Returns
            (import_rows L (width p) n i (dump_rows L p n i ++ more) q)
            (λ (b, rest). Part p (height p) 0 b × (rest ≡ more))
    unfolding import_rows dump_rows
    import_rows-Part zero i q more part e =
        let same : i ≡ height p = omega arith in
        returns _ (subst (λ k. Part p k 0 q) same part, refl)
    import_rows-Part (suc n) i q more part e =
        let d = import_row-Part i (width p) 0 q part (omega arith) (omega arith) in
        rw (import_rows, d.equals)
          (import_rows-Part n (i + 1) d.value more (Part-next i d.value d.holds) (omega arith))

    Part-start : Part p 0 0 (buy (height p) (width p))
    Part-start = record {
      tall = height-buy (height p) (width p);
      wide = width-buy (height p) (width p);
      dots = λ r c x y. tstb-buy (height p) (width p) r c x y ∙ ground arith;
    }

    Part-Same : (q : Bitmap) → Part p (height p) 0 q → Same p q
    Part-Same q part = record {
      same_height = part.tall;
      same_width = part.wide;
      same_dots = λ r c x y. part.dots r c x y ∙ ground arith;
    }

    no_dot : (r c : ℕ) → r < height p → c < width p → (ltb 0 (height p) && ltb 0 (width p)) ≢ false
    no_dot r c x y = ground arith

    import_bitmap-dumpchar :
        (more : File)
        → Returns
            (import_bitmap L (height p) (width p) (dumpchar L p ++ more))
            (λ (b, rest). Same p b × (rest ≡ more))
    unfolding import_bitmap dumpchar
    import_bitmap-dumpchar more =
        let same : (not (height p == 0) && not (width p == 0))
            ≡ (ltb 0 (height p) && ltb 0 (width p)) =
          ground arith in
        elim (Bool-cases (ltb 0 (height p) && ltb 0 (width p))) [
          | inl e ↦
              rw (same, e)
                (mono
                  (import_rows-Part (height p) 0 (buy (height p) (width p)) more Part-start
                    (omega arith))
                  (λ (b, rest) (part, left). (Part-Same b part, left)))
          | inr e ↦
              rw (same, e)
                (returns _ (
                  record {
                    same_height = height-buy (height p) (width p);
                    same_width = width-buy (height p) (width p);
                    same_dots = λ r c x y. absurd (no_dot r c x y e);
                  },
                  refl,
                ))
        ]

  -- A difference that is a number is not below zero.
  sub_ℕ-pos : (a b w : ℕ) → sub_ℕ a b ≡ pos w → ltb a b ≡ false
  sub_ℕ-pos a b w h = ground arith

  no_less : (a b : ℤ) (w : ℕ) → a -ℤ b ≡ pos w → ltb_ℤ a b ≡ false
  unfolding ◌-ℤ◌
  no_less a b w h =
      ground (arith, sub_ℕ-pos (pos_part a + neg_part b) (neg_part a + pos_part b) w h)

  -- The scan of the metrics and the bitmap after it.
  import_at-dumpchar :
      (scan : Scanner) (glyphs : List (Slot L)) (p : Bitmap) (idx : ℕ) (rest more : File)
      (m : Metrics)
      → scan.metrics_of (Slot.metrics (get_or glyphs idx (empty_slot L))) rest
        ≡ record { count = 5; metrics = m; rest = dumpchar L p ++ more }
      → m.ascent +ℤ m.descent ≡ pos (height p)
      → m.rbearing -ℤ m.lbearing ≡ pos (width p)
      → Returns (import_at L scan glyphs idx rest) (λ (found, after, left).
        (b : Bitmap) × Same p b
        × (found ≡ true)
        × (after ≡ set glyphs idx (record { metrics = m; bm = some b }))
        × (left ≡ skip_nonexistent more))
  unfolding import_at
  import_at-dumpchar scan glyphs p idx rest more m scanned tall wide =
      let d = import_bitmap-dumpchar p more in
      let up : ltb_ℤ (pos (height p)) (pos 0) ≡ false = ground arith in
      rw (scanned, tall, wide, no_less m.rbearing m.lbearing (width p) wide, d.equals, up)
        (returns _ (
          (d.value).0,
          (d.holds).0,
          refl,
          ap (λ s. set glyphs idx (record { metrics = Scanned.metrics s; bm = some ((d.value).0) }))
              scanned,
          ap skip_nonexistent (d.holds).1,
        ))

  -- The glyph `idx`, when the buffer says so and the metrics that follow are those of the bitmap
  -- `p`: from what `dumpchar` prints of it `import_glyph` makes a bitmap of the same size with the
  -- same dots, puts it and the metrics in their place, and leaves what follows in the file, but for
  -- a buffer that says that a character does not exist.
  pub import_glyph-dumpchar :
      (scan : Scanner) (glyphs : List (Slot L)) (p : Bitmap) (idx : ℕ) (buf : List ℕ)
      (rest more : File) (m : Metrics)
      → idx < 256
      → scan.char_index buf ≡ some (pos idx)
      → scan.metrics_of (Slot.metrics (get_or glyphs idx (empty_slot L))) rest
        ≡ record { count = 5; metrics = m; rest = dumpchar L p ++ more }
      → m.ascent +ℤ m.descent ≡ pos (height p)
      → m.rbearing -ℤ m.lbearing ≡ pos (width p)
      → Returns (import_glyph L scan glyphs (buf ∷ rest)) (λ (found, after, left).
        (b : Bitmap) × Same p b
        × (found ≡ true)
        × (after ≡ set glyphs idx (record { metrics = m; bm = some b }))
        × (left ≡ skip_nonexistent more))
  unfolding import_glyph
  import_glyph-dumpchar scan glyphs p idx buf rest more m small is_char scanned tall wide =
      let le : ltb 255 (idx + 0) ≡ false = ground arith in
      let ge : ltb (idx + 0) 0 ≡ false = ground arith in
      rw (import_glyph, is_char, le, ge)
        (import_at-dumpchar scan glyphs p idx rest more m scanned tall wide)
