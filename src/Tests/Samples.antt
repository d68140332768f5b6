-- ===== src/Tests/Samples.antt =====
-- A bitmap library that has the laws, and a font for the tests.
use slap.Base.{
  ℕ, zero, suc, ◌≡◌, refl, Bool, false, ◌&&◌, ◌||◌, ◌==◌, List, [], ◌∷◌, ◌++◌, Option, none, some,
  All, replicate, get_or, length,
}
use slap.Base.Int.{pos, negsuc}
use slap.Bitmap.{BitmapLib}
use slap.Font
use slap.Font.File.{BitmapFiles}
use slap.Font.{Font, no_glyph}
use slap.Render.Glyph.{Arena}

-- A bitmap is its size and the dots that are set.
pub record Dots : Type 0 where
  pub tall : ℕ
  pub wide : ℕ
  pub ink : List (ℕ × ℕ)

abbrev pub is_inked : List (ℕ × ℕ) → ℕ → ℕ → Bool
is_inked [] i j = false
is_inked ((r, c) ∷ ink) i j = i == r && j == c || is_inked ink i j

abbrev pub empty_dots : ℕ → ℕ → Dots
empty_dots h w = record { tall = h; wide = w; ink = [] }

abbrev pub lib : BitmapLib
lib = record {
  Bitmap = Dots;
  height = λ b. b.tall;
  width = λ b. b.wide;
  tstb = λ b i j. is_inked b.ink i j;
  setb = λ b r c. record b { ink = (r, c) ∷ b.ink };
  clr = λ b. empty_dots b.tall b.wide;
  buy = empty_dots;
  height-setb = λ b r c. refl;
  width-setb = λ b r c. refl;
  tstb-setb = λ b r c i j p q x y. refl;
  height-clr = λ b. refl;
  width-clr = λ b. refl;
  tstb-clr = λ b i j p q. refl;
  clr-ext = λ a b p q. rw (p, q) refl;
  height-buy = λ h w. refl;
  width-buy = λ h w. refl;
  tstb-buy = λ h w i j p q. refl;
}

-- The dots of a bitmap in a file: their number, and their rows and columns.
abbrev pub put_ink : List (ℕ × ℕ) → List ℕ
put_ink [] = []
put_ink ((r, c) ∷ ink) = r ∷ c ∷ put_ink ink

abbrev pub get_ink : ℕ → List ℕ → Option (List (ℕ × ℕ) × List ℕ)
get_ink zero file = some ([], file)
get_ink (suc n) [] = none
get_ink (suc n) (r ∷ []) = none
get_ink (suc n) (r ∷ c ∷ file) = elim (get_ink n file) [
  | none ↦ none
  | some (ink, rest) ↦ some ((r, c) ∷ ink, rest)
]

pub get_ink-put :
    (ink : List (ℕ × ℕ)) (rest : List ℕ)
    → get_ink (length ink) (put_ink ink ++ rest) ≡ some (ink, rest)
get_ink-put [] rest = refl
get_ink-put ((r, c) ∷ ink) rest = rw (get_ink-put ink rest) refl

abbrev pub save_dots : Dots → List ℕ
save_dots b = b.tall ∷ b.wide ∷ length b.ink ∷ put_ink b.ink

abbrev pub load_dots : List ℕ → Option (Dots × List ℕ)
load_dots (h ∷ w ∷ n ∷ file) = elim (get_ink n file) [
  | none ↦ none
  | some (ink, rest) ↦ some (record { tall = h; wide = w; ink = ink }, rest)
]
load_dots _ = none

abbrev pub files : BitmapFiles lib
files = record {
  save = save_dots;
  load = load_dots;
  load-save = λ b rest. rw (load_dots, get_ink-put b.ink rest) refl;
}

-- A black block of 3 rows and 2 columns.
abbrev pub block : Dots
block = record {
  tall = 3;
  wide = 2;
  ink = (0, 0) ∷ (0, 1) ∷ (1, 0) ∷ (1, 1) ∷ (2, 0) ∷ (2, 1) ∷ [];
}

abbrev pub block_glyph : Font.Glyph lib
block_glyph = record {
  ascent = pos 2;
  descent = pos 1;
  lbearing = pos 0;
  rbearing = pos 2;
  width = pos 3;
  bm = block;
}

-- The same glyph, drawn two dots to the left of its origin.
abbrev pub hanging_glyph : Font.Glyph lib
hanging_glyph = record {
  ascent = pos 2;
  descent = pos 1;
  lbearing = negsuc 1;
  rbearing = pos 0;
  width = pos 3;
  bm = block;
}

-- The control characters have no glyph, all others have the block.
abbrev pub font : Font lib
font = record {
  name = [];
  ascent = pos 2;
  descent = pos 1;
  dg = 0;
  glyphs = replicate 32 (no_glyph lib) ++ replicate 224 block_glyph;
}

abbrev pub label : Arena lib
label = record { bm = empty_dots 10 20; dirty = false }

pub All-replicate : {A : Type 0} (P : A → Type 0) (n : ℕ) (a : A) → P a → All P (replicate n a)
All-replicate P zero a p = tt
All-replicate P (suc n) a p = (p, All-replicate P n a p)

pub All-get_or :
    {A : Type 0} (P : A → Type 0) (xs : List A) (i : ℕ) (d : A) → All P xs → P d → P (get_or xs i d)
All-get_or P [] i d h p = p
All-get_or P (x ∷ xs) zero d h p = h.0
All-get_or P (x ∷ xs) (suc i) d h p = All-get_or P xs i d h.1 p
