-- ===== src/Locate.antt =====
-- The search for the font's file: `try_locate_font` and `locate_font` of slap/slap.c. Texts are
-- lists of bytes; opening a file and reading the font from it is a parameter.
pub mod First
pub mod Paths
use slap.Base.{
  ℕ, zero, suc, ◌+◌, Bool, true, false, ◌==◌, ltb, List, [], ◌∷◌, ◌++◌, Option, none, some,
  if◌then◌else◌, length,
}
use slap.Base.Result.{Result, ok, err, assertion, ◌>>=◌}

-- The bytes of "/", "." and ":".
abbrev pub slash : ℕ
slash = 47

abbrev pub dot : ℕ
dot = 46

abbrev pub colon : ℕ
colon = 58

unfoldable pub is_empty : List ℕ → Bool
is_empty [] = true
is_empty (c ∷ cs) = false

-- `sep`
unfoldable pub separator : (dir : List ℕ) → List ℕ
separator dir = if is_empty dir then [] else slash ∷ []

-- What `sprintf` writes at the first and at the second call.
unfoldable pub suffixed_path : (dir name suffix : List ℕ) → List ℕ
suffixed_path dir name suffix = dir ++ (separator dir ++ (name ++ dot ∷ suffix))

unfoldable pub plain_path : (dir name : List ℕ) → List ℕ
plain_path dir name = separator dir ++ (dir ++ name)

-- `strtok` with ":": the next part, and what is left of it all.
unfoldable pub next_part : List ℕ → List ℕ × List ℕ
next_part [] = ([], [])
next_part (c ∷ cs) =
    let (part, rest) = next_part cs in if c == colon then ([], cs) else (c ∷ part, rest)

-- All parts that are not empty; `fuel` bounds their number.
unfoldable pub parts : (fuel : ℕ) → List ℕ → List (List ℕ)
parts zero p = []
parts (suc fuel) [] = []
parts (suc fuel) (c ∷ cs) =
    let rest = parts fuel (next_part (c ∷ cs)).1 in
    if is_empty (next_part (c ∷ cs)).0 then rest else (next_part (c ∷ cs)).0 ∷ rest

-- A slash at the end is taken off.
unfoldable pub without_slash : List ℕ → List ℕ
without_slash [] = []
without_slash (c ∷ []) = if c == slash then [] else c ∷ []
without_slash (c ∷ d ∷ cs) = c ∷ without_slash (d ∷ cs)

module _ {Font : Type 0} (try_load_font : List ℕ → Option Font) (path_max : ℕ) where
  unfoldable pub try_locate_font : (dir name suffix : List ℕ) → Result (Option Font)
  try_locate_font dir name suffix =
      if is_empty name
      then err assertion
      else if is_empty suffix
      then err assertion
      else if ltb path_max (length dir + length (separator dir) + length name + 1 + length suffix)
      then ok none
      else elim (try_load_font (suffixed_path dir name suffix)) [
        | none ↦ ok (try_load_font (plain_path dir name))
        | some f ↦ ok (some f)
      ]

  -- The loop over the parts of SLAP_FONTPATH.
  unfoldable pub search_dirs : (name suffix : List ℕ) → List (List ℕ) → Result (Option Font)
  search_dirs name suffix [] = ok none
  search_dirs name suffix (d ∷ ds) =
      let rest = search_dirs name suffix ds in
      if ltb path_max (length d)
      then rest
      else (try_locate_font (without_slash d) name suffix >>= λ f. elim f [
        | none ↦ rest
        | some found ↦ ok (some found)
      ])

  -- `font_path` is the value of SLAP_FONTPATH, if it is set.
  unfoldable pub locate_font :
      (font_path : Option (List ℕ)) (name suffix : List ℕ) → Result (Option Font)
  locate_font font_path name suffix = try_locate_font [] name suffix >>= λ f. elim f [
    | some found ↦ ok (some found)
    | none ↦ try_locate_font (dot ∷ []) name suffix >>= λ f. elim f [
      | some found ↦ ok (some found)
      | none ↦ elim font_path [
        | none ↦ ok none
        | some p ↦ search_dirs name suffix (parts (length p) p)
      ]
    ]
  ]
