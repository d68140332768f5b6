-- ===== src/Glue.antt =====
-- The table of drivers and `load_driver`, slap/glue.c.
pub mod First
use slap.Base.{
  ℕ, Bool, true, false, not, ◌&&◌, ◌||◌, List, [], ◌∷◌, Option, none, some, if◌then◌else◌,
}
use slap.Base.Text.{ascii, same_text}
use slap.Base.Result.{Result, ok, err, wild_pointer, ◌>>=◌}
use slap.Media.{
  Ptype, slp_240, slp, slp_plus, slp_ez30, slp_pro, slp_120, slp_220, slp_100, slp_200,
}

-- The three drivers that are linked in.
pub data Drv : Type 0 where
  slplus_drv slpro_drv mbm_drv : Drv

-- `DRIVERMAP`
pub record Entry : Type 0 where
  pub name : List ℕ
  pub tentative : Ptype
  pub probe : Bool
  pub drv : Drv
  pub chain : Option Drv

-- An entry for a driver, and one for the bitmap driver before it.
abbrev direct : List ℕ → Ptype → Bool → Drv → Entry
direct name tentative probe drv = record {
  name = name;
  tentative = tentative;
  probe = probe;
  drv = drv;
  chain = none;
}

abbrev chained : List ℕ → Ptype → Drv → Entry
chained name tentative drv = record {
  name = name;
  tentative = tentative;
  probe = false;
  drv = mbm_drv;
  chain = some drv;
}

unfoldable pub drivers : List Entry
drivers =
    direct (ascii "slp") slp true slplus_drv
    ∷ chained (ascii "mbm:slp") slp slplus_drv
    ∷ direct (ascii "slp/plus") slp_plus false slplus_drv
    ∷ chained (ascii "mbm:slp/plus") slp_plus slplus_drv
    ∷ direct (ascii "plus") slp_plus false slplus_drv
    ∷ direct (ascii "slp/ez30") slp_ez30 false slplus_drv
    ∷ chained (ascii "mbm:slp/ez30") slp_ez30 slplus_drv
    ∷ direct (ascii "slp/pro") slp_pro true slpro_drv
    ∷ chained (ascii "mbm:slp/pro") slp_pro slpro_drv
    ∷ direct (ascii "pro") slp_pro true slpro_drv
    ∷ direct (ascii "slp/100") slp_100 false slpro_drv
    ∷ chained (ascii "mbm:slp/100") slp_100 slpro_drv
    ∷ direct (ascii "slp/120") slp_120 false slpro_drv
    ∷ chained (ascii "mbm:slp/120") slp_120 slpro_drv
    ∷ direct (ascii "slp/200") slp_200 false slpro_drv
    ∷ chained (ascii "mbm:slp/200") slp_200 slpro_drv
    ∷ direct (ascii "slp/220") slp_220 false slpro_drv
    ∷ chained (ascii "mbm:slp/220") slp_220 slpro_drv
    ∷ direct (ascii "slp/240") slp_240 false slpro_drv
    ∷ chained (ascii "mbm:slp/240") slp_240 slpro_drv
    ∷ []

-- The test on the name, which calls `strcmp` with a null pointer when there is no name and the
-- entry is not for probing.
unfoldable pub takes : Option (List ℕ) → Entry → Result Bool
takes none e = if e.probe then ok true else err wild_pointer
takes (some name) e = ok (same_text name (ascii "auto") && e.probe || same_text name e.name)

module _ {Opd : Type 0} (open_entry : Entry → Result (Option Opd)) where
  -- `open_entry` is the `open` of the entry's driver, with the entry's members as its arguments.
  unfoldable pub load_driver : Option (List ℕ) → List Entry → Result (Option (Drv × Opd))
  load_driver name [] = ok none
  load_driver name (e ∷ es) = do
    chosen ← takes name e
    opd ← (if chosen then open_entry e else ok none)
    elim opd [ none ↦ load_driver name es | some o ↦ ok (some (e.drv, o)) ]
