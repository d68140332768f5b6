-- ===== src/Media.antt =====
-- The media and the geometry of slap/slap.h, and the table of media of slap/session.c.
use slap.Base.{ℕ, List}

-- `MEDIA`, the sizes in millimetres; a name is a list of bytes.
pub record Media : Type 0 where
  pub name : List ℕ
  pub width : ℕ
  pub height : ℕ

-- `GEOMETRY`, in pixels.
pub record Geometry : Type 0 where
  pub top : ℕ
  pub bottom : ℕ
  pub left : ℕ
  pub right : ℕ
  pub width : ℕ
  pub height : ℕ

-- `PTYPE`
pub data Ptype : Type 0 where
  pt_none slp_240 slp slp_plus slp_ez30 slp_pro slp_120 slp_220 slp_100 slp_100n slp_200 slp_200n :
      Ptype

-- `DENSITY`
pub data Density : Type 0 where
  light demilight norm demibold bold : Density
