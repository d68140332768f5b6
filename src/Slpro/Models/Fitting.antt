-- ===== src/Slpro/Models/Fitting.antt =====
-- What the table of models has in common, and the geometry of a medium.
use slap.Base.{
  ◌+◌, ◌*◌, ◌%◌, ◌≤◌, ◌<◌, ◌≡◌, ◌⊎◌, inl, inr, refl, subst, Option, none, some, arith, ltb,
  Bool-cases,
}
use slap.Base.Result.{Returns, returns}
use slap.Media.{
  Media, Geometry, Ptype, pt_none, slp_240, slp, slp_plus, slp_ez30, slp_pro, slp_120, slp_220,
  slp_100, slp_100n, slp_200, slp_200n,
}
use slap.Slpro.Models.{Model, models, find_ptype, valid_ptype, dots, geometry}

-- All models have eight dots to the millimetre across, and three millimetres of margin at the sides
-- and eight at the ends.
pub record IsRegular (model : Model) : Type 0 where
  pub hpitch_eq : model.hpitch ≡ 80
  pub sides : model.um.left + model.um.right ≡ 3
  pub top_eq : model.um.top ≡ 4
  pub bottom_eq : model.um.bottom ≡ 4
  pub vpitch_eq : (model.vpitch ≡ 78) ⊎ (model.vpitch ≡ 80)
  pub narrow : (model.maxwidth ≡ 28) ⊎ (model.maxwidth ≡ 54)

abbrev IsRegularOrNone : Option Model → Type 0
IsRegularOrNone none = Unit
IsRegularOrNone (some model) = IsRegular model

valid_ptype-IsRegularOrNone : (ptype : Ptype) → IsRegularOrNone (valid_ptype ptype)
unfolding valid_ptype find_ptype models
valid_ptype-IsRegularOrNone pt_none = tt
valid_ptype-IsRegularOrNone slp = tt
valid_ptype-IsRegularOrNone slp_plus = tt
valid_ptype-IsRegularOrNone slp_ez30 = tt
valid_ptype-IsRegularOrNone slp_pro = record {
  hpitch_eq = refl;
  sides = refl;
  top_eq = refl;
  bottom_eq = refl;
  vpitch_eq = inl refl;
  narrow = inr refl;
}
valid_ptype-IsRegularOrNone slp_120 = record {
  hpitch_eq = refl;
  sides = refl;
  top_eq = refl;
  bottom_eq = refl;
  vpitch_eq = inr refl;
  narrow = inl refl;
}
valid_ptype-IsRegularOrNone slp_100 = record {
  hpitch_eq = refl;
  sides = refl;
  top_eq = refl;
  bottom_eq = refl;
  vpitch_eq = inr refl;
  narrow = inl refl;
}
valid_ptype-IsRegularOrNone slp_100n = record {
  hpitch_eq = refl;
  sides = refl;
  top_eq = refl;
  bottom_eq = refl;
  vpitch_eq = inr refl;
  narrow = inl refl;
}
valid_ptype-IsRegularOrNone slp_220 = record {
  hpitch_eq = refl;
  sides = refl;
  top_eq = refl;
  bottom_eq = refl;
  vpitch_eq = inr refl;
  narrow = inr refl;
}
valid_ptype-IsRegularOrNone slp_200 = record {
  hpitch_eq = refl;
  sides = refl;
  top_eq = refl;
  bottom_eq = refl;
  vpitch_eq = inr refl;
  narrow = inr refl;
}
valid_ptype-IsRegularOrNone slp_200n = record {
  hpitch_eq = refl;
  sides = refl;
  top_eq = refl;
  bottom_eq = refl;
  vpitch_eq = inr refl;
  narrow = inr refl;
}
valid_ptype-IsRegularOrNone slp_240 = record {
  hpitch_eq = refl;
  sides = refl;
  top_eq = refl;
  bottom_eq = refl;
  vpitch_eq = inr refl;
  narrow = inr refl;
}

pub valid_ptype-IsRegular :
    (ptype : Ptype) (model : Model) → valid_ptype ptype ≡ some model → IsRegular model
valid_ptype-IsRegular ptype model e = subst IsRegularOrNone e (valid_ptype-IsRegularOrNone ptype)

-- The width is whole slices, and with its margins it is the medium's; what is cut off to make the
-- slices whole is less than a slice, and the right margin has it.
pub record IsFitting (model : Model) (m : Media) (g : Geometry) : Type 0 where
  pub whole : g.width % 8 ≡ 0
  pub all_of_it : g.left + g.width + g.right ≡ m.width * 8
  pub left_eq : g.left ≡ model.um.left * 8
  pub right_low : model.um.right * 8 ≤ g.right
  pub right_high : g.right < model.um.right * 8 + 8
  pub ends : (g.top + g.bottom + g.height) * 10 ≤ m.height * model.vpitch
  pub ends_high : m.height * model.vpitch < (g.top + g.bottom + g.height) * 10 + 10

dots-IsFitting :
    (model : Model) (m : Media)
    → IsRegular model
    → 3 ≤ m.width
    → 8 ≤ m.height
    → IsFitting model m (dots model m)
unfolding dots
dots-IsFitting model m r wide high = record {
  whole = omega arith;
  all_of_it = rw r.hpitch_eq (omega (arith, r.sides));
  left_eq = rw r.hpitch_eq (omega (arith, r.sides));
  right_low = rw r.hpitch_eq (omega (arith, r.sides));
  right_high = rw r.hpitch_eq (omega (arith, r.sides));
  ends = elim r.vpitch_eq [
    | inl e ↦ rw (e, r.top_eq, r.bottom_eq) (omega arith)
    | inr e ↦ rw (e, r.top_eq, r.bottom_eq) (omega arith)
  ];
  ends_high = elim r.vpitch_eq [
    | inl e ↦ rw (e, r.top_eq, r.bottom_eq) (omega arith)
    | inr e ↦ rw (e, r.top_eq, r.bottom_eq) (omega arith)
  ];
}

-- For a printer of the table and a medium of three by eight millimetres or more: a medium that is
-- wider than the printer can take is refused, and for any other the geometry fits it.
pub geometry-IsFitting :
    (ptype : Ptype) (model : Model) (m : Media)
    → valid_ptype ptype ≡ some model
    → 3 ≤ m.width
    → 8 ≤ m.height
    → Returns (geometry ptype m) (λ o.
      ((o ≡ none) × (model.maxwidth < m.width))
      ⊎ ((g : Geometry) × (o ≡ some g) × (m.width ≤ model.maxwidth) × IsFitting model m g))
unfolding geometry
geometry-IsFitting ptype model m e wide high =
    let r = valid_ptype-IsRegular ptype model e in
    elim (Bool-cases (ltb model.maxwidth m.width)) [
      | inl over ↦ rw (geometry, e, over) (returns _ (inl (refl, ground (arith, over))))
      | inr fits ↦
          rw (geometry, e, fits)
            (returns _ (inr (_, refl, ground (arith, fits), dots-IsFitting model m r wide high)))
    ]
