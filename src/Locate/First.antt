-- ===== src/Locate/First.antt =====
-- The font that is located is the first that can be loaded from a list of paths.
use slap.Base.{ℕ, List, [], ◌∷◌, Option, none, some}
use slap.Base.Result.{Result}

-- The first of the texts that can be loaded.
unfoldable pub first_loaded : {Font : Type 0} → (List ℕ → Option Font) → List (List ℕ) → Option Font
first_loaded load [] = none
first_loaded load (p ∷ ps) = elim (load p) [ none ↦ first_loaded load ps | some f ↦ some f ]

module _ {Font : Type 0} (load : List ℕ → Option Font) where
  abbrev or_else : Option Font → Option Font → Option Font
  or_else none g = g
  or_else (some f) g = some f
