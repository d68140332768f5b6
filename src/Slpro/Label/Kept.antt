-- ===== src/Slpro/Label/Kept.antt =====
-- After printing the map holds the picture, whatever the printer does.
use slap.Base.{
  ℕ, zero, suc, ◌≡◌, ◌∙◌, refl, false, Option, none, Option-cases, inl, inr, List, [], ◌∷◌, some,
  arith,
}
use slap.Base.Int.{pos}
use slap.Base.Result.{err, Keeps, Keeps-if, Keeps-mono, wild_pointer, assertion}
use slap.Bitmap.{BitmapLib}
use slap.Render.Glyph.{Arena}
use slap.Serial.{Port, drained}
use slap.Serial.Safety.{Stays, Stays-bind, Stays-done, Stays-fail}
use slap.Slpro.Label.{feed_blank, print_band, print_bands, print_map, printlabel}
use slap.Slpro.Line.{Host, State, emit, set_tof}
use slap.Slpro.Map.{map_bands}
use slap.Slpro.Models.{Model}
use slap.Slpro.Map.Packed.{IsImage, map_bands-IsImage}
use slap.Slpro.Setup.Whole.{IsWhole}
use slap.Slpro.Wait.{send_byte, check_fault}
use slap.Slpro.Wait.Frame.{IsFramed, Keep, keeping, emit-Keep, set_tof-Keep}
use slap.Slpro.Wait.Kept.{
  send_byte-Keep, send_bytes-Keep, check_fault-Keep, wait_for_idle-Keep, formfeed-Keep,
}

module _ (L : BitmapLib) (a : Arena L) where
  -- The map and the arena fit each other, and the map is the picture that this model prints of the
  -- arena.
  pub record HasPicture (model : Model) (s : State) : Type 0 where
    pub whole : IsWhole L a s.map s.nbands s.nslices
    pub bands : List (List ℕ)
    pub last : ℕ
    pub map_eq : s.map ≡ some bands
    pub image : IsImage L a.bm model.has_slop_bug s.nslices s.nbands 0 0 bands last

  HasPicture-IsFramed : (model : Model) → IsFramed (HasPicture model)
  HasPicture-IsFramed model = record {
    on_ps = λ s x p. same s _ p refl refl refl;
    on_tof = λ s x p. same s _ p refl refl refl;
    on_model = λ s x p. same s _ p refl refl refl;
    on_timeout = λ s x p. same s _ p refl refl refl;
    on_read = λ s x p. same s _ p refl refl refl;
    on_write = λ s x p. same s _ p refl refl refl;
    on_look = λ s x p. same s _ p refl refl refl;
    on_log = λ s x p. same s _ p refl refl refl;
    on_sets = λ s x p. same s _ p refl refl refl;
    on_modes = λ s p. same s _ p refl refl refl;
    on_close = λ s x p. same s _ p refl refl refl;
  }
    where
      same :
          (s t : State)
          → HasPicture model s
          → t.map ≡ s.map
          → t.nbands ≡ s.nbands
          → t.nslices ≡ s.nslices
          → HasPicture model t
      same s t p e b n = record {
        whole = rw (e, b, n) p.whole;
        bands = p.bands;
        last = p.last;
        map_eq = e ∙ p.map_eq;
        image = rw (b, n) p.image;
      }

module _ (host : Host) (port : Port) (fuel : ℕ) where
  module _ (P : State → Type 0) (framed : IsFramed P) where
    feed_blank-Keep : (n : ℕ) → Keep P framed (feed_blank host port fuel n)
    unfolding feed_blank
    feed_blank-Keep zero = Stays-done P
    feed_blank-Keep (suc n) =
        Stays-bind P (send_byte host port fuel 0xA false) _
          (send_byte-Keep P framed host port fuel _ _)
          (λ u. Stays-bind P (set_tof false) _ (set_tof-Keep P framed _) (λ u.
            Stays-bind P (emit drained) _ (emit-Keep P framed _) (λ u.
              Stays-bind P (check_fault host port fuel (pos 2)) _
                (check_fault-Keep P framed host port fuel _) (λ a. feed_blank-Keep n))))

    print_band-Keep :
        (nslices : ℕ) (slices : List ℕ) → Keep P framed (print_band host port fuel nslices slices)
    unfolding print_band
    print_band-Keep nslices slices =
        search (keeping, send_byte-Keep, send_bytes-Keep, check_fault-Keep) depth 30

    print_bands-Keep :
        (nslices n : ℕ) (bands : List (List ℕ))
        → Keep P framed (print_bands host port fuel nslices n bands)
    unfolding print_bands
    print_bands-Keep nslices zero bands = Stays-done P
    print_bands-Keep nslices (suc n) [] = Stays-fail P wild_pointer
    print_bands-Keep nslices (suc n) (b ∷ bands) =
        Stays-bind P (print_band host port fuel nslices b) _ (print_band-Keep nslices b)
          (λ u. print_bands-Keep nslices n bands)

    print_map-Keep :
        (nslices lastband : ℕ) (bands : List (List ℕ))
        → Keep P framed (print_map host port fuel nslices lastband bands)
    unfolding print_map
    print_map-Keep nslices lastband bands =
        search (keeping, feed_blank-Keep, print_bands-Keep, wait_for_idle-Keep, formfeed-Keep) depth
          30

  module _ (L : BitmapLib) (a : Arena L) where
    abbrev Q : Option Model → Unit {0} × State → Type 0
    Q m (u, t) = (model : Model) × (m ≡ some model) × HasPicture L a model t

    -- Whatever the printer and the port do, and however the label looks: where `printlabel` comes
    -- to an end, the map and the arena fit each other as they did before, and the bands of the map
    -- hold the dots of the arena, as the model prints them.
    pub printlabel-IsWhole :
        (s : State)
        → IsWhole L a s.map s.nbands s.nslices
        → Keeps
            (λ (u, t). (model : Model) × (s.m ≡ some model) × HasPicture L a model t)
            (printlabel host port fuel L a.bm s)
    unfolding printlabel
    printlabel-IsWhole s p = elim (Option-cases s.m) [
      | inl e ↦ rw (p.map_eq, e) (Keeps-if (Q none) _ (err wild_pointer) (err assertion) tt tt)
      | inr (model, e) ↦
          let slop = model.has_slop_bug in
          let (bands, last) = map_bands L a.bm slop s.nslices s.nbands 0 0 in
          let image = map_bands-IsImage L a.bm slop s.nslices s.nbands 0 0 (omega arith) in
          let whole : IsWhole L a (some bands) s.nbands s.nslices = record {
            bands = bands;
            map_eq = refl;
            tall = image.tall;
            wide = image.wide;
            height_eq = p.height_eq;
            width_eq = p.width_eq;
          } in
          let pictured : HasPicture L a model (record s { map = some bands }) = record {
            whole = whole;
            bands = bands;
            last = last;
            map_eq = refl;
            image = image;
          } in
          let run =
            print_map-Keep (HasPicture L a model) (HasPicture-IsFramed L a model) s.nslices last
              bands in
          rw (p.map_eq, e)
            (Keeps-if (Q (some model)) _ _ (err assertion)
              (Keeps-mono (λ (u, t). HasPicture L a model t) (Q (some model)) _
                (Stays.run run _ pictured) (λ (u, t) h. (model, refl, h)))
              tt)
    ]
