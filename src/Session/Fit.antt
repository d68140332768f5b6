-- ===== src/Session/Fit.antt =====
-- The media of the table on the SLP-1x00 printers.
use slap.Base.{
  ℕ, ◌%◌, ◌≤◌, ◌<◌, ◌≡◌, refl, subst, true, not, ◌==◌, List, [], ◌∷◌, some, All, arith, Bool-cases,
  inl, inr, leb, ◌&&◌, ◌||◌,
}
use slap.Base.Text.{same_text}
use slap.Media.{Media, Geometry}
use slap.Session.{media, find_medium}
use slap.Slplus.Setup.{geometry}

find_medium-All :
    (P : Media → Type 0) (name : List ℕ) (ms : List Media) (m : Media)
    → All P ms
    → find_medium name ms ≡ some m
    → P m
unfolding find_medium
find_medium-All P name [] m h e = cc
find_medium-All P name (x ∷ ms) m (h, hs) e = elim (Bool-cases (same_text x.name name)) [
  | inl t ↦ subst P (some_eq (rw t at e)) h
  | inr t ↦ find_medium-All P name ms m hs (rw t at e)
]
  where
    some_eq : {a b : Media} → some a ≡ some b → a ≡ b
    some_eq q = cc

-- Neither size is out of range for a medium of 28 millimetres.
InRange : Media → Type 0
InRange m = (not (m.width == 28) || (leb 11 m.height && leb m.height 100)) ≡ true

media-InRange : All InRange media
unfolding media InRange
media-InRange = (refl, (refl, (refl, (refl, (refl, (refl, (refl, (refl, (refl, (refl, tt))))))))))

-- Every medium of the table that the SLP-1x00 driver takes is high enough for its margins, so that
-- the conversion of its height is defined; its slices can be counted in a byte, and its rows are
-- whole pairs of bands and fit a `USHORT`.
pub find_medium-geometry :
    (name : List ℕ) (m : Media) (g : Geometry)
    → find_medium name media ≡ some m
    → geometry m ≡ some g
    → (11 ≤ m.height) × (g.width < 255) × (g.height % 16 ≡ 0) × (g.height < 65536)
unfolding geometry InRange
find_medium-geometry name m g e q =
    let r = find_medium-All InRange name media m media-InRange e in ground (arith, r)
