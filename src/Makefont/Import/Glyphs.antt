-- ===== src/Makefont/Import/Glyphs.antt =====
-- The glyphs that `import` of slap/makefont.c reads: 256, with metrics that a SHORT holds.
use slap.Base.{
  ℕ, zero, suc, ◌≡◌, ◌∙◌, Bool, true, false, not, ◌==◌, List, [], ◌∷◌, some, length, replicate,
  if◌then◌else◌, All, get_or, set, length-set, arith, Option-cases, inl, inr,
}
use slap.Base.Int.{pos, pos_part, ltb_ℤ, ◌+ℤ◌, ◌-ℤ◌}
use slap.Base.Result.{Result, ok, err, fatal, wild_pointer, Keeps, Keeps-if, Keeps-trivial}
use slap.Bitmap.{BitmapLib}
use slap.Font.File.RoundTrip.{HasShorts}
use slap.Render.Glyph.Place.{IsShort}
use slap.Makefont.{
  File, Metrics, Scanned, Scanner, Slot, empty_slot, import_bitmap, import_at, import_glyph,
  import_glyphs, fill_gap, fill_gaps, skip_nonexistent,
}

pub record ShortMetrics (m : Metrics) : Type 0 where
  pub lbearing_short : IsShort m.lbearing
  pub rbearing_short : IsShort m.rbearing
  pub ascent_short : IsShort m.ascent
  pub descent_short : IsShort m.descent
  pub width_short : IsShort m.width

-- `%hd` assigns a SHORT.
abbrev pub ScansShorts : Scanner → Type 0
ScansShorts scan =
    (m : Metrics) (file : File)
    → ShortMetrics m
    → ShortMetrics (Scanned.metrics (Scanner.metrics_of scan m file))

All-get_or :
    {A : Type 0} (P : A → Type 0) (xs : List A) (i : ℕ) (d : A) → All P xs → P d → P (get_or xs i d)
All-get_or P [] i d h k = k
All-get_or P (x ∷ xs) zero d (h, hs) k = h
All-get_or P (x ∷ xs) (suc i) d (h, hs) k = All-get_or P xs i d hs k

All-set :
    {A : Type 0} (P : A → Type 0) (xs : List A) (i : ℕ) (v : A)
    → All P xs
    → P v
    → All P (set xs i v)
All-set P [] i v h k = h
All-set P (x ∷ xs) zero v (h, hs) k = (k, hs)
All-set P (x ∷ xs) (suc i) v (h, hs) k = (h, All-set P xs i v hs k)

pub All-replicate : {A : Type 0} (P : A → Type 0) (n : ℕ) (v : A) → P v → All P (replicate n v)
All-replicate P zero v h = tt
All-replicate P (suc n) v h = (h, All-replicate P n v h)

Keeps-elim :
    {A B : Type 0} (P : A → Type 0) (Q : B → Type 0) (r : Result A) (k : A → Result B)
    → Keeps P r
    → ((a : A) → P a → Keeps Q (k a))
    → Keeps Q (elim r [ err why ↦ err why | ok a ↦ k a ])
Keeps-elim P Q (ok a) k h next = next a h
Keeps-elim P Q (err why) k h next = tt

module _ (L : BitmapLib) (scan : Scanner) (shorts : ScansShorts scan) where
  open L use {Bitmap}

  -- 256 glyphs, with metrics that a `SHORT` holds.
  abbrev pub AreSlots : List (Slot L) → Type 0
  AreSlots glyphs = All (λ (g : Slot L). ShortMetrics g.metrics) glyphs × (length glyphs ≡ 256)

  set-AreSlots :
      (glyphs : List (Slot L)) (idx : ℕ) (g : Slot L)
      → AreSlots glyphs
      → ShortMetrics g.metrics
      → AreSlots (set glyphs idx g)
  set-AreSlots glyphs idx g (all, size) h = (
    All-set (λ (g : Slot L). ShortMetrics g.metrics) glyphs idx g all h,
    length-set glyphs idx g ∙ size,
  )

  abbrev Kept : Bool × List (Slot L) × File → Type 0
  Kept (found, glyphs, rest) = AreSlots glyphs

  pub empty-ShortMetrics : ShortMetrics (Slot.metrics (empty_slot L))
  empty-ShortMetrics = record {
    lbearing_short = omega arith;
    rbearing_short = omega arith;
    ascent_short = omega arith;
    descent_short = omega arith;
    width_short = omega arith;
  }

  import_at-Kept :
      (glyphs : List (Slot L)) (idx : ℕ) (file : File)
      → AreSlots glyphs
      → Keeps Kept (import_at L scan glyphs idx file)
  unfolding import_at
  import_at-Kept glyphs idx file h =
      let old = get_or glyphs idx (empty_slot L) in
      let ok_ = shorts old.metrics file (
        All-get_or (λ (g : Slot L). ShortMetrics g.metrics) glyphs idx (empty_slot L) h.0
          empty-ShortMetrics) in
      let found = scan.metrics_of old.metrics file in
      let m = found.metrics in
      let made : Bitmap × File → Result (Bool × List (Slot L) × File) = λ (bm, rest).
        ok (true, set glyphs idx (record { metrics = m; bm = some bm }), skip_nonexistent rest) in
      let bitmap =
        import_bitmap L (pos_part (m.ascent +ℤ m.descent)) (pos_part (m.rbearing -ℤ m.lbearing))
          found.rest in
      let last : Result (Bool × List (Slot L) × File) = elim bitmap [
        | err why ↦ err why
        | ok a ↦ made a
      ] in
      let wide = if ltb_ℤ m.rbearing m.lbearing then err fatal else last in
      Keeps-if Kept (not (found.count == 5))
        (ok (false, set glyphs idx (record old { metrics = m }), found.rest))
        (if ltb_ℤ (m.ascent +ℤ m.descent) (pos 0) then err fatal else wide)
        (set-AreSlots glyphs idx (record old { metrics = m }) h ok_)
        (Keeps-if Kept (ltb_ℤ (m.ascent +ℤ m.descent) (pos 0)) (err fatal) wide tt (
          Keeps-if Kept (ltb_ℤ m.rbearing m.lbearing) (err fatal) last tt (
            Keeps-elim (λ a. Unit {0}) Kept bitmap made (Keeps-trivial bitmap)
              (λ (bm, rest) u.
                set-AreSlots glyphs idx (record { metrics = m; bm = some bm }) h ok_))))

  import_glyph-Kept :
      (glyphs : List (Slot L)) (file : File)
      → AreSlots glyphs
      → Keeps Kept (import_glyph L scan glyphs file)
  unfolding import_glyph
  import_glyph-Kept glyphs [] h = h
  import_glyph-Kept glyphs (buf ∷ rest) h = elim (Option-cases (scan.char_index buf)) [
    | inl e ↦ rw (import_glyph, e) h
    | inr (idx, e) ↦
        let next = import_at L scan glyphs (pos_part idx) rest in
        rw (import_glyph, e)
          (Keeps-if Kept (ltb_ℤ (pos 255) idx) (err fatal)
            (if ltb_ℤ idx (pos 0) then err wild_pointer else next) tt
            (Keeps-if Kept (ltb_ℤ idx (pos 0)) (err wild_pointer) next tt
              (import_at-Kept glyphs (pos_part idx) rest h)))
  ]

  pub import_glyphs-AreSlots :
      (fuel : ℕ) (glyphs : List (Slot L)) (file : File)
      → AreSlots glyphs
      → Keeps AreSlots (import_glyphs L scan fuel glyphs file)
  unfolding import_glyphs
  import_glyphs-AreSlots zero glyphs file h = tt
  import_glyphs-AreSlots (suc fuel) glyphs file h =
      Keeps-elim Kept AreSlots (import_glyph L scan glyphs file) _ (import_glyph-Kept glyphs file h)
        (λ (found, glyphs', rest) h'.
          next found glyphs' rest h' (import_glyphs-AreSlots fuel glyphs' rest h'))
    where
      next :
          (found : Bool) (glyphs' : List (Slot L)) (rest : File)
          → AreSlots glyphs'
          → Keeps AreSlots (import_glyphs L scan fuel glyphs' rest)
          → Keeps AreSlots
              (elim found [ false ↦ ok glyphs' | true ↦ import_glyphs L scan fuel glyphs' rest ])
      next false glyphs' rest h' more = h'
      next true glyphs' rest h' more = more

  pub fill_gaps-HasShorts :
      (glyphs : List (Slot L))
      → All (λ (g : Slot L). ShortMetrics g.metrics) glyphs
      → All (HasShorts L) (fill_gaps L glyphs)
  unfolding fill_gaps fill_gap
  fill_gaps-HasShorts [] h = tt
  fill_gaps-HasShorts (g ∷ glyphs) (h, hs) = (
    record {
      ascent_short = h.ascent_short;
      descent_short = h.descent_short;
      lbearing_short = h.lbearing_short;
      rbearing_short = h.rbearing_short;
      width_short = h.width_short;
    },
    fill_gaps-HasShorts glyphs hs,
  )
