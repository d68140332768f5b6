-- ===== src/Mbmd/Turned.antt =====
-- The arena lies the way the text is to be read.
use slap.Base.{◌+◌, ◌≤◌, ◌≡◌, ◌⊎◌, Bool, true, false}
use slap.Bitmap.{BitmapLib}
use slap.Media.{Media, Geometry}
use slap.Mbmd.{Prepared}

module _ (L : BitmapLib) where
  open L use {buy, height, width, height-buy, width-buy}

  -- `p` is prepared for a label of geometry `g`: the arena stands upright for portrait and lies for
  -- landscape, it has the dots of `g` either way round, and the driver's own bitmap has as many
  -- dots as the arena and the margins together.
  pub record IsOriented (portrait : Bool) (g : Geometry) (p : Prepared L) : Type 0 where
    pub upright : portrait ≡ true → width p.arena.bm ≤ height p.arena.bm
    pub lying : portrait ≡ false → height p.arena.bm ≤ width p.arena.bm
    pub same_dots :
        ((height p.arena.bm ≡ g.height) × (width p.arena.bm ≡ g.width))
        ⊎ ((height p.arena.bm ≡ g.width) × (width p.arena.bm ≡ g.height))
    pub same_label :
        ((height p.bm ≡ g.height + g.top + g.bottom) × (width p.bm ≡ g.width + g.left + g.right))
        ⊎ ((height p.bm ≡ g.width + g.right + g.left) × (width p.bm ≡ g.height + g.top + g.bottom))
