-- ===== src/Slpro/Models.antt =====
-- The models of slap/slpro.c, `valid_ptype`, `geometry`, `hres` and `vres`. The dots per millimetre
-- are given in tenths; the margins of all models are whole millimetres.
pub mod Fitting
use slap.Base.{
  ℕ, ◌+◌, ◌-◌, ◌*◌, ◌/◌, ◌%◌, Bool, true, false, Option, none, some, List, [], ◌∷◌, ◌==◌, ltb,
  if◌then◌else◌,
}
use slap.Base.Result.{Result, ok, err, assertion}
use slap.Media.{
  Media, Geometry, Ptype, pt_none, slp_240, slp, slp_plus, slp_ez30, slp_pro, slp_120, slp_220,
  slp_100, slp_100n, slp_200, slp_200n,
}

-- `MARGINS`
pub record Margins : Type 0 where
  pub top : ℕ
  pub bottom : ℕ
  pub left : ℕ
  pub right : ℕ

-- `MODEL`; `maxwidth` in millimetres, `name` is left out.
pub record Model : Type 0 where
  pub ptype : Ptype
  pub model_id : ℕ
  pub maxwidth : ℕ
  pub um : Margins
  pub vpitch : ℕ
  pub hpitch : ℕ
  pub will_auto_offline : Bool
  pub can_tune_xonxoff : Bool
  pub has_slop_bug : Bool
  pub does_rtscts : Bool
  pub is_faint : Bool
  pub can_57600_baud : Bool
  pub has_antibanding : Bool
  pub default_baud : ℕ

abbrev narrow_margins : Margins
narrow_margins = record { top = 4; bottom = 4; left = 2; right = 1 }

abbrev wide_margins : Margins
wide_margins = record { top = 4; bottom = 4; left = 1; right = 2 }

abbrev pub pro_model : Model
pro_model = record {
  ptype = slp_pro;
  model_id = 0x2;
  maxwidth = 54;
  um = wide_margins;
  vpitch = 78;
  hpitch = 80;
  will_auto_offline = false;
  can_tune_xonxoff = false;
  has_slop_bug = false;
  does_rtscts = false;
  is_faint = true;
  can_57600_baud = false;
  has_antibanding = false;
  default_baud = 9600;
}

-- The entries of the table for the models of 28 millimetres, and for the others of 54.
abbrev narrow : Ptype → (model_id default_baud : ℕ) → Model
narrow ptype model_id default_baud = record {
  ptype = ptype;
  model_id = model_id;
  maxwidth = 28;
  um = narrow_margins;
  vpitch = 80;
  hpitch = 80;
  will_auto_offline = true;
  can_tune_xonxoff = true;
  has_slop_bug = true;
  does_rtscts = true;
  is_faint = false;
  can_57600_baud = true;
  has_antibanding = true;
  default_baud = default_baud;
}

abbrev wide : Ptype → (model_id default_baud : ℕ) → Model
wide ptype model_id default_baud = record (narrow ptype model_id default_baud) {
  maxwidth = 54;
  um = wide_margins;
  has_slop_bug = false;
}

-- The table, without the entry that ends it.
unfoldable pub models : List Model
models =
    pro_model
    ∷ narrow slp_120 0x4 9600
    ∷ narrow slp_100 0x6 57600
    ∷ narrow slp_100n 0x8 57600
    ∷ wide slp_220 0x5 9600
    ∷ wide slp_200 0x7 57600
    ∷ wide slp_200n 0x9 57600
    ∷ wide slp_240 0xB 57600
    ∷ []

-- The value of a type of printer in its enumeration, to compare them.
abbrev pub ptype_value : Ptype → ℕ
ptype_value pt_none = 0
ptype_value slp_240 = 1
ptype_value slp = 2
ptype_value slp_plus = 3
ptype_value slp_ez30 = 4
ptype_value slp_pro = 5
ptype_value slp_120 = 6
ptype_value slp_220 = 7
ptype_value slp_100 = 8
ptype_value slp_100n = 9
ptype_value slp_200 = 10
ptype_value slp_200n = 11

unfoldable pub find_ptype : List Model → Ptype → Option Model
find_ptype [] ptype = none
find_ptype (p ∷ ps) ptype =
    if ptype_value p.ptype == ptype_value ptype then some p else find_ptype ps ptype

unfoldable pub valid_ptype : Ptype → Option Model
valid_ptype = find_ptype models

-- The last model of the table with this number, as the loop in `sense` finds it; `m` is what it
-- found before.
unfoldable pub find_model_id : List Model → ℕ → Option Model → Option Model
find_model_id [] number m = m
find_model_id (p ∷ ps) number m =
    find_model_id ps number (if number == p.model_id then some p else m)

-- The sizes in dots. In C the conversion of a negative size is undefined; it is 0 here, for a
-- medium that is no larger than its margins.
unfoldable pub dots : (model : Model) → Media → Geometry
dots model m =
    let top = model.um.top * model.vpitch / 10 in
    let bottom = model.um.bottom * model.vpitch / 10 in
    let right = model.um.right * model.hpitch / 10 in
    let left = model.um.left * model.hpitch / 10 in
    let width = (m.width * model.hpitch - left * 10 - right * 10) / 10 in
    record {
      top = top;
      bottom = bottom;
      left = left;
      right = right + width % 8;
      width = width - width % 8;
      height = (m.height * model.vpitch - top * 10 - bottom * 10) / 10;
    }

-- Nothing if the driver refuses the medium.
unfoldable pub geometry : Ptype → Media → Result (Option Geometry)
geometry ptype m = elim (valid_ptype ptype) [
  | none ↦ err assertion
  | some model ↦ if ltb model.maxwidth m.width then ok none else ok (some (dots model m))
]

-- `opd->ptype` is the argument of both.
unfoldable pub vres : Ptype → Result ℕ
vres ptype = elim (valid_ptype ptype) [ none ↦ err assertion | some model ↦ ok model.vpitch ]

unfoldable pub hres : Ptype → Result ℕ
hres ptype = elim (valid_ptype ptype) [ none ↦ err assertion | some model ↦ ok model.hpitch ]
