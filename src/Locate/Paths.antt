-- ===== src/Locate/Paths.antt =====
-- The paths that `locate_font` of slap/slap.c tries, written out without its helpers.
use mathlib.Core.List.{append-nil, append_assoc, reverse, reverse-append, reverse-reverse}
use slap.Base.{
  ℕ, suc, zero, ◌+◌, ◌≤◌, ◌≡◌, refl, ap, sym, ◌∙◌, ◌==◌, ltb, Bool-cases, inl, inr, List, [], ◌∷◌,
  ◌++◌, Option, none, some, if◌then◌else◌, length, length-append, arith,
}
use slap.Locate.{
  slash, dot, colon, is_empty, separator, suffixed_path, plain_path, next_part, parts,
  without_slash,
}

-- The paths of the font in a directory. Without a directory they are "NAME.SUFFIX" and "NAME"; with
-- one they are "DIR/NAME.SUFFIX" and "/DIRNAME", since the second has the slash in front of the
-- directory.
unfoldable pub suffixed : (name suffix dir : List ℕ) → List ℕ
suffixed name suffix [] = name ++ dot ∷ suffix
suffixed name suffix (c ∷ cs) = c ∷ cs ++ slash ∷ (name ++ dot ∷ suffix)

unfoldable pub unsuffixed : (name dir : List ℕ) → List ℕ
unsuffixed name [] = name
unsuffixed name (c ∷ cs) = slash ∷ c ∷ (cs ++ name)

-- The two paths for a directory, and neither if the first is longer than `path_max`.
unfoldable pub paths_in : (path_max : ℕ) (name suffix dir : List ℕ) → List (List ℕ)
paths_in path_max name suffix dir =
    if ltb path_max (length (suffixed name suffix dir))
    then []
    else suffixed name suffix dir ∷ unsuffixed name dir ∷ []

-- A text without the slash at its end, from the reversed text.
unfoldable pub trimmed : List ℕ → List ℕ
trimmed [] = []
trimmed (c ∷ cs) = if c == slash then reverse cs else reverse (c ∷ cs)

-- The paths for the directories of SLAP_FONTPATH; one that is longer than `path_max` has none.
unfoldable pub paths_in_all : (path_max : ℕ) (name suffix : List ℕ) → List (List ℕ) → List (List ℕ)
paths_in_all path_max name suffix [] = []
paths_in_all path_max name suffix (d ∷ ds) =
    (if ltb path_max (length d) then [] else paths_in path_max name suffix (trimmed (reverse d)))
    ++ paths_in_all path_max name suffix ds

unfoldable pub field : List ℕ → List (List ℕ)
field [] = []
field (c ∷ cs) = (c ∷ cs) ∷ []

-- The fields of a text between its colons, but for those that are empty. The text that has been
-- read of the field is the first argument.
unfoldable pub fields : (read p : List ℕ) → List (List ℕ)
fields read [] = field read
fields read (c ∷ cs) =
    let rest = fields [] cs in
    let further = fields (read ++ c ∷ []) cs in if c == colon then field read ++ rest else further

-- The directories of SLAP_FONTPATH.
unfoldable pub dirs_of : Option (List ℕ) → List (List ℕ)
dirs_of none = []
dirs_of (some p) = fields [] p

-- All paths that are tried: with no directory, with the directory ".", and with those of
-- SLAP_FONTPATH.
unfoldable pub all_paths :
    (path_max : ℕ) (font_path : Option (List ℕ)) (name suffix : List ℕ) → List (List ℕ)
all_paths path_max font_path name suffix =
    paths_in path_max name suffix []
    ++ (paths_in path_max name suffix (dot ∷ [])
        ++ paths_in_all path_max name suffix (dirs_of font_path))

module _ (name suffix : List ℕ) where
  pub suffixed_path-suffixed :
      (dir : List ℕ) → suffixed name suffix dir ≡ suffixed_path dir name suffix
  unfolding suffixed suffixed_path separator is_empty
  suffixed_path-suffixed [] = refl
  suffixed_path-suffixed (c ∷ cs) = refl

  pub plain_path-unsuffixed : (dir : List ℕ) → unsuffixed name dir ≡ plain_path dir name
  unfolding unsuffixed plain_path separator is_empty
  plain_path-unsuffixed [] = refl
  plain_path-unsuffixed (c ∷ cs) = refl

  pub length-suffixed :
      (dir : List ℕ)
      → length (suffixed name suffix dir)
        ≡ length dir + length (separator dir) + length name + 1 + length suffix
  unfolding suffixed_path
  length-suffixed dir =
      let a = length-append dir (separator dir ++ (name ++ dot ∷ suffix)) in
      let b = length-append (separator dir) (name ++ dot ∷ suffix) in
      let c = length-append name (dot ∷ suffix) in
      ap length (suffixed_path-suffixed dir) ∙ omega (arith, a, b, c)

without_slash-last :
    (xs : List ℕ) (c : ℕ) → without_slash (xs ++ c ∷ []) ≡ (if c == slash then xs else xs ++ c ∷ [])
unfolding without_slash
without_slash-last [] c = refl
without_slash-last (x ∷ []) c = elim (Bool-cases (c == slash)) [
  | inl e ↦ rw e refl
  | inr e ↦ rw e refl
]
without_slash-last (x ∷ y ∷ ys) c = ap (◌∷◌ x) (without_slash-last (y ∷ ys) c) ∙ push
  where
    push :
        x ∷ (if c == slash then y ∷ ys else y ∷ ys ++ c ∷ [])
        ≡ (if c == slash then x ∷ y ∷ ys else x ∷ y ∷ ys ++ c ∷ [])
    push = elim (Bool-cases (c == slash)) [ inl e ↦ rw e refl | inr e ↦ rw e refl ]

without_slash-reverse : (r : List ℕ) → without_slash (reverse r) ≡ trimmed r
unfolding trimmed without_slash
without_slash-reverse [] = refl
without_slash-reverse (c ∷ cs) = rw (reverse-append (c ∷ []) cs) (without_slash-last (reverse cs) c)

pub without_slash-trimmed : (d : List ℕ) → trimmed (reverse d) ≡ without_slash d
without_slash-trimmed d =
    sym (without_slash-reverse (reverse d)) ∙ ap without_slash (reverse-reverse d)

next_part-shorter : (p : List ℕ) → length (next_part p).1 ≤ length p
unfolding next_part
next_part-shorter [] = omega arith
next_part-shorter (c ∷ cs) = ground (arith, next_part-shorter cs)

next_part-shorter_suc : (c : ℕ) (cs : List ℕ) → length (next_part (c ∷ cs)).1 ≤ length cs
unfolding next_part
next_part-shorter_suc c cs = ground (arith, next_part-shorter cs)

fields-next_part :
    (read p : List ℕ) → fields read p ≡ field (read ++ (next_part p).0) ++ fields [] (next_part p).1
unfolding fields next_part field
fields-next_part read [] = rw (append-nil read) (sym (append-nil (field read)))
fields-next_part read (c ∷ cs) = elim (Bool-cases (c == colon)) [
  | inl e ↦ rw (fields, next_part, e, append-nil read) refl
  | inr e ↦
      rw (fields, next_part, e)
        (fields-next_part (read ++ c ∷ []) cs
          ∙ ap (λ xs. field xs ++ fields [] (next_part cs).1)
              (append_assoc read (c ∷ []) (next_part cs).0))
]

field-if :
    (part : List ℕ) (rest : List (List ℕ))
    → (if is_empty part then rest else part ∷ rest) ≡ field part ++ rest
unfolding field is_empty
field-if [] rest = refl
field-if (c ∷ cs) rest = refl

parts-fields : (fuel : ℕ) (p : List ℕ) → length p ≤ fuel → parts fuel p ≡ fields [] p
unfolding parts fields field
parts-fields zero [] h = refl
parts-fields zero (c ∷ cs) h = absurd (omega arith)
parts-fields (suc fuel) [] h = refl
parts-fields (suc fuel) (c ∷ cs) h =
    let (part, rest) = next_part (c ∷ cs) in
    field-if part (parts fuel rest)
    ∙ ap (λ xs. field part ++ xs)
        (parts-fields fuel rest (omega (arith, next_part-shorter_suc c cs)))
    ∙ sym (fields-next_part [] (c ∷ cs))

pub dirs_of-parts : (p : List ℕ) → dirs_of (some p) ≡ parts (length p) p
unfolding dirs_of
dirs_of-parts p = sym (parts-fields (length p) p (omega arith))
