-- ===== src/Slpro/Setup/Whole.antt =====
-- The map, the arena and the margin that `setmedia` of slap/slpro.c makes.
use slap.Base.{
  ℕ, zero, suc, ◌+◌, ◌-◌, ◌*◌, ◌/◌, ◌%◌, ◌≤◌, ◌<◌, ◌≡◌, inl, inr, refl, sym, ◌∙◌, ap, true, false,
  Option, some, List, [], ◌∷◌, ◌++◌, arith, length, replicate, length-replicate, get_or, ◌==◌,
  ==_iff,
}
use mathlib.Core.List.{append_assoc}
use slap.Base.Result.{Returns, returns}
use slap.Bitmap.{BitmapLib}
use slap.Media.{Media, Geometry, Ptype}
use slap.Render.Glyph.{Arena}
use slap.Serial.{Port, bytes, ◌>>=◌, ◌>>◌}
use slap.Slpro.Line.{Host, State, log_bytes}
use slap.Slpro.Models.{Model, valid_ptype}
use slap.Slpro.Models.Fitting.{IsFitting, IsRegular, valid_ptype-IsRegular, geometry-IsFitting}
use slap.Slpro.Setup.{margin_of, set_margin, new_map, setmedia}
use slap.Slpro.Wait.{send_byte, send_bytes, send_blind}

-- The margin that puts the label in the middle of the printer's path.
margin_of-lem :
    (model : Model) (m : Media) (g : Geometry)
    → IsRegular model
    → IsFitting model m g
    → margin_of model (g.width + g.left + g.right) ≡ (model.maxwidth - m.width) / 2 - model.um.left
unfolding margin_of
margin_of-lem model m g r f = rw r.hpitch_eq (omega (arith, f.all_of_it))

get_or-replicate :
    {A : Type 0} (n : ℕ) (a : A) (j : ℕ) (d : A) → j < n → get_or (replicate n a) j d ≡ a
get_or-replicate zero a j d h = absurd (omega arith)
get_or-replicate (suc n) a zero d h = refl
get_or-replicate (suc n) a (suc j) d h = get_or-replicate n a j d (omega arith)

module _ (L : BitmapLib) where
  open L use {height, width, height-buy, width-buy}

  -- The map has a slice for every eight dots of the arena, and the arena is clean.
  pub record IsWhole (a : Arena L) (map : Option (List (List ℕ))) (nbands nslices : ℕ)
      : Type 0 where
    pub bands : List (List ℕ)
    pub map_eq : map ≡ some bands
    pub tall : length bands ≡ nbands
    pub wide : (j : ℕ) → j < nbands → length (get_or bands j []) ≡ nslices
    pub height_eq : height a.bm ≡ nbands
    pub width_eq : width a.bm ≡ nslices * 8

  module _ (host : Host) (port : Port) (fuel : ℕ) (writes_ok : (k : ℕ) → port.writes k ≡ true) where
    set_margin-Returns :
        (s : State)
        → Returns (set_margin host port fuel s) (λ (u, t).
          (t ≡ record s {
            nwrites = s.nwrites + 1 + 1;
            log = log_bytes (s.margin % 256 ∷ []) (log_bytes (0x6 ∷ []) s.log);
          }))
    unfolding set_margin send_byte send_bytes send_blind
    set_margin-Returns s =
        rw (◌>>=◌, ◌>>◌, writes_ok s.nwrites, writes_ok (s.nwrites + 1)) (returns _ refl)

    new_map-Returns :
        (model : Model) (m : Media) (g : Geometry) (s : State)
        → s.m ≡ some model
        → g.width % 8 ≡ 0
        → Returns (new_map host port fuel g s) (λ (u, t).
          (t.map ≡ some (replicate g.height (replicate (g.width / 8) 0)))
          × (t.nbands ≡ g.height)
          × (t.nslices ≡ g.width / 8)
          × (t.margin ≡ margin_of model (g.width + g.left + g.right))
          × (bytes t.log
              ≡ bytes s.log ++ 0x6 ∷ margin_of model (g.width + g.left + g.right) % 256 ∷ []))
    unfolding new_map log_bytes bytes
    new_map-Returns model m g s e whole =
        let margin = margin_of model (g.width + g.left + g.right) in
        let r = set_margin-Returns (record s { margin = margin }) in
        let w : (g.width % 8 == 0) ≡ true = (==_iff _ _).1 whole in
        rw (◌>>=◌, ◌>>◌, e, r.equals, w, r.holds)
          (returns _
            (refl, refl, refl, refl, append_assoc (bytes s.log) (0x6 ∷ []) (margin % 256 ∷ [])))

    -- For an open printer of the table and a medium that it can take, of three by eight millimetres
    -- or more, `setmedia` makes an arena and a map that fit each other and the medium, and it sends
    -- the printer the margin that puts the label in the middle, less the mechanical margin.
    pub setmedia-Whole :
        (ptype : Ptype) (model : Model) (m : Media) (s : State)
        → valid_ptype ptype ≡ some model
        → s.m ≡ some model
        → 3 ≤ m.width
        → m.width ≤ model.maxwidth
        → 8 ≤ m.height
        → Returns (setmedia host port fuel L true ptype m s) (λ (o, t).
          (g : Geometry) × (a : Arena L) × (o ≡ some (g, a))
          × IsFitting model m g
          × IsWhole a t.map t.nbands t.nslices
          × (a.dirty ≡ false)
          × (bytes t.log
              ≡ bytes s.log ++ 0x6 ∷ ((model.maxwidth - m.width) / 2 - model.um.left) ∷ []))
    unfolding setmedia
    setmedia-Whole ptype model m s e k wide fits high =
        let q = geometry-IsFitting ptype model m e wide high in
        elim q.holds [
          | inl (none_, over) ↦ absurd (omega arith)
          | inr (g, some_, fits', f) ↦
              let a : Arena L = record { bm = BitmapLib.buy L g.height g.width; dirty = false } in
              let r = new_map-Returns model m g s k f.whole in
              let (map_eq, nbands, nslices, _, sent) = r.holds in
              let margin = margin_of-lem model m g (valid_ptype-IsRegular ptype model e) f in
              let reg = valid_ptype-IsRegular ptype model e in
              let small : margin_of model (g.width + g.left + g.right) % 256
                  ≡ (model.maxwidth - m.width) / 2 - model.um.left =
                omega (arith, margin, reg.narrow) in
              let is_whole : IsWhole a (r.value).1.map (r.value).1.nbands (r.value).1.nslices =
                record {
                  bands = _;
                  map_eq = map_eq;
                  tall = length-replicate _ _ ∙ sym nbands;
                  wide = λ j h.
                      ap length (
                        get_or-replicate g.height (replicate (g.width / 8) 0) j []
                          (omega (arith, nbands)))
                      ∙ length-replicate _ _
                      ∙ sym nslices;
                  height_eq = height-buy _ _ ∙ sym nbands;
                  width_eq = width-buy _ _ ∙ omega (arith, f.whole, nslices);
                } in
              rw (setmedia, ◌>>=◌, ◌>>◌, q.equals, some_, r.equals)
                (returns _ (
                  g,
                  a,
                  refl,
                  f,
                  is_whole,
                  refl,
                  sent ∙ ap (λ v. bytes s.log ++ 0x6 ∷ v ∷ []) small,
                ))
        ]
