-- ===== src/Makefont/Import/Name.antt =====
-- The name that `import` of slap/makefont.c gives a font is one line.
use slap.Base.{
  ℕ, ◌+◌, ◌≡◌, ◌≢◌, refl, ◌==◌, ltb, List, [], ◌∷◌, ◌++◌, Option, none, some, length, if-both,
  if◌then◌else◌, All, All-append, arith,
}
use slap.Base.Int.{ℤ}
use slap.Base.Result.{ok, err, wild_pointer, ◌>>=◌, Keeps, Keeps-bind, Keeps-if, Keeps-trivial}
use slap.Base.Text.{ascii}
use slap.Render.Glyph.Place.{IsShort}
use slap.Makefont.{File}
use slap.Makefont.Import.{
  Header, Names, store, read_prop, starts_upper, read_props, slant_suffix, full_name, fn_max,
  hyphen,
}

abbrev pub IsLine : List ℕ → Type 0
IsLine text = All (λ c. c ≢ 10) text

-- `%hd` assigns a SHORT, and `%[^\n]` a text without a line's end.
pub record IsHeader (header : Header) : Type 0 where
  pub bounds :
      (a d : ℤ) (file : File)
      → IsShort a
      → IsShort d
      → IsShort (header.max_bounds a d file).0 × IsShort (header.max_bounds a d file).1
  pub family : (buf text : List ℕ) → header.family_name buf ≡ some text → IsLine text
  pub weight : (buf text : List ℕ) → header.weight_name buf ≡ some text → IsLine text

abbrev pub AreLines : Names → Type 0
AreLines names = IsLine names.name × IsLine names.weight

store-IsLine :
    (size : ℕ) (old : List ℕ) (found : Option (List ℕ))
    → IsLine old
    → ((text : List ℕ) → found ≡ some text → IsLine text)
    → Keeps IsLine (store size old found)
unfolding store
store-IsLine size old none h k = h
store-IsLine size old (some text) h k =
    Keeps-if IsLine (ltb (length text) size) (ok text) (err wild_pointer) (k text refl) tt

module _ (header : Header) (sound : IsHeader header) where
  read_prop-AreLines :
      (buf : List ℕ) (names : Names) → AreLines names → Keeps AreLines (read_prop header buf names)
  unfolding read_prop
  read_prop-AreLines buf names h =
      Keeps-bind IsLine AreLines (store (fn_max + 1) names.name (header.family_name buf)) _
        (store-IsLine (fn_max + 1) names.name (header.family_name buf) h.0 (sound.family buf))
        (λ name n.
          Keeps-bind IsLine AreLines (store fn_max names.weight (header.weight_name buf)) _
            (store-IsLine fn_max names.weight (header.weight_name buf) h.1 (sound.weight buf))
            (λ weight w.
              Keeps-bind (λ a. Unit {0}) AreLines (store 2 names.slant (header.slant buf)) _
                (Keeps-trivial _) (λ slant u. (n, w))))

  abbrev pub FirstLines : Names × File → Type 0
  FirstLines (names, rest) = AreLines names

  pub read_props-AreLines :
      (file : File) (names : Names)
      → AreLines names
      → Keeps FirstLines (read_props header file names)
  unfolding read_props
  read_props-AreLines [] names h = h
  read_props-AreLines (buf ∷ rest) names h =
      Keeps-if FirstLines (starts_upper buf)
        (read_prop header buf names >>= λ more. read_props header rest more)
        (ok (names, buf ∷ rest))
        (Keeps-bind AreLines FirstLines (read_prop header buf names) _
          (read_prop-AreLines buf names h) (λ more h'. read_props-AreLines rest more h'))
        h

slant_suffix-IsLine : (slant : List ℕ) → IsLine (slant_suffix slant)
unfolding slant_suffix
slant_suffix-IsLine [] = tt
slant_suffix-IsLine (c ∷ more) =
    if-both IsLine (c == 0x69) (hyphen ∷ ascii "italic") _
      (
        omega arith,
        (
          omega arith,
          (omega arith, (omega arith, (omega arith, (omega arith, (omega arith, tt))))),
        ),
      )
      (if-both IsLine (c == 0x6F) (hyphen ∷ ascii "oblique") []
        (
          omega arith,
          (
            omega arith,
            (
              omega arith,
              (omega arith, (omega arith, (omega arith, (omega arith, (omega arith, tt))))),
            ),
          ),
        )
        tt)

abbrev pub OneLine : Option (List ℕ) → Type 0
OneLine none = Unit {0}
OneLine (some name) = IsLine name

pub full_name-OneLine : (names : Names) → AreLines names → Keeps OneLine (full_name names)
unfolding full_name
full_name-OneLine names (n, w) =
    let weight : List ℕ = if length names.weight == 0 then [] else hyphen ∷ names.weight in
    let wl : IsLine weight =
      if-both IsLine (length names.weight == 0) [] (hyphen ∷ names.weight) tt (omega arith, w) in
    let name = names.name ++ weight ++ slant_suffix names.slant in
    Keeps-if OneLine (length names.name == 0) (ok none) _ tt (
      Keeps-if OneLine (ltb (length name) (fn_max + 1)) (ok (some name)) (err wild_pointer)
        (All-append (λ c. c ≢ 10) (names.name ++ weight) _
          (All-append (λ c. c ≢ 10) names.name weight n wl) (slant_suffix-IsLine names.slant))
        tt)
