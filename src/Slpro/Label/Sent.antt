-- ===== src/Slpro/Label/Sent.antt =====
-- What `printlabel` sends to a printer of the SLP-Pro family that is always ready.
use slap.Base.{
  ℕ, zero, suc, ◌+◌, ◌*◌, ◌%◌, ◌≤◌, ◌<◌, ◌≡◌, refl, sym, ◌∙◌, Bool, true, false, List, [], ◌∷◌,
  ◌++◌, arith, length, if◌then◌else◌, some, ==_iff, ◌==◌, replicate, subst, inl, inr,
}
use mathlib.Core.List.{append-nil, append_assoc}
use slap.Base.Bits.{without}
use slap.Base.Int.{ℤ, pos}
use slap.Base.Result.{Returns, returns, mono, fatal}
use slap.Bitmap.{BitmapLib}
use slap.Serial.{Port, bytes, Event, sent, drained, ◌>>=◌, ◌>>◌, done, fail}
use slap.Slpro.Line.{Host, State, Run, set_tof, get, set_ps, log_bytes}
use slap.Slpro.Map.{map_bands}
use slap.Slpro.Map.Packed.{IsImage, map_bands-IsImage}
use slap.Slpro.Models.{Model}
use slap.Slpro.Status.{idle, wants_reset}
use slap.Slpro.Wait.{
  check_loaded, check_closed, send_blind, ready_loop, wait_for_ready_with, send_bytes_with,
  formfeed_with, check_fault_at, check_fault, wait_for_idle, send_bytes, send_byte, formfeed,
}
use slap.Slpro.Label.{feed_blank, print_band, print_bands, print_map, printlabel}
use slap.Slpro.Label.Prompt.{
  IsPrompt, IsReady, Sends, IsAny, Sends-bind, Sends-silent, Sends-give, Sends-emit, sense-Sends,
  now-Sends, wait_for_idle-Sends,
}

-- The command for a band, and those for `n` bands.
unfoldable pub band_bytes : (nslices : ℕ) → List ℕ → List ℕ
band_bytes nslices slices = 0x4 ∷ nslices % 256 ∷ slices

unfoldable pub bands_bytes : (nslices n : ℕ) → List (List ℕ) → List ℕ
bands_bytes nslices zero bands = []
bands_bytes nslices (suc n) [] = []
bands_bytes nslices (suc n) (b ∷ bands) = band_bytes nslices b ++ bands_bytes nslices n bands

-- A whole label: three blank bands, the bands up to `lastband`, and the feed to the next label.
unfoldable pub label_bytes : (nslices lastband : ℕ) → List (List ℕ) → List ℕ
label_bytes nslices lastband bands =
    0xA ∷ 0xA ∷ 0xA ∷ bands_bytes nslices (lastband + 1) bands ++ 0xC ∷ 0x1 ∷ []

bytes-log_bytes : (bs : List ℕ) (es : List Event) → bytes (log_bytes bs es) ≡ bytes es ++ bs
unfolding log_bytes bytes
bytes-log_bytes [] es = sym (append-nil (bytes es))
bytes-log_bytes (b ∷ bs) es = bytes-log_bytes bs (sent b ∷ es) ∙ append_assoc (bytes es) (b ∷ []) bs

module _ (host : Host) (port : Port) (prompt : IsPrompt port) (m : ℕ) where
  abbrev pub fuel : ℕ
  fuel = suc (suc m)

  abbrev Same : List ℕ → Run (Unit {0}) → Type 0
  Same bs r = Sends bs IsAny r

  send_blind-Sends : (bs : List ℕ) → Same bs (send_blind host port fuel bs)
  unfolding send_blind
  send_blind-Sends bs s k =
      rw (◌>>=◌, prompt.writes_ok s.nwrites) (returns _ (tt, k, bytes-log_bytes bs s.log))

  set_tof-Sends : (v : Bool) → Same [] (set_tof v)
  set_tof-Sends v = Sends-silent IsAny (set_tof v) (λ s k. returns _ (tt, k, refl))

  get-Sends : Sends [] (λ (s : State). s.ps < 64) get
  get-Sends = Sends-silent _ get (λ s k. returns _ (k.1, k, refl))

  without-idle-Sends : (v : ℕ) → v < 64 → Same [] (set_ps (without idle v))
  without-idle-Sends v small =
      Sends-silent IsAny (set_ps (without idle v))
        (λ s k. returns _ (tt, (k.0, ground arith), refl))

  check_loaded-Sends : Same [] (check_loaded host port fuel)
  unfolding check_loaded
  check_loaded-Sends =
      Sends-bind [] [] _ IsAny _ _ (sense-Sends port prompt m (pos 0))
        (λ a e. rw e (Sends-give IsAny tt tt))

  check_closed-Sends : Same [] (check_closed host port fuel)
  unfolding check_closed
  check_closed-Sends =
      Sends-bind [] [] _ IsAny _ _ (sense-Sends port prompt m (pos 0))
        (λ a e. rw e (Sends-give IsAny tt tt))

  ready_loop-Sends :
      (fault : ℤ → Run ℕ) (n t t1 : ℕ)
      → Sends [] (λ a. a ≡ true) (ready_loop host port fuel fault (suc n) t t1)
  unfolding ready_loop
  ready_loop-Sends fault n t t1 s b =
      let r = sense-Sends port prompt m (pos 0) s b in
      rw (◌>>=◌, r.equals, (r.holds).0) (returns _ (refl, (r.holds).1, (r.holds).2))

  -- Once it is waited for, the run goes on.
  then_done-Sends :
      (r : Run Bool)
      → Sends [] (λ a. a ≡ true) r
      → Same [] (r >>= λ good. if good then done else fail fatal)
  then_done-Sends r h =
      Sends-bind [] [] (λ a. a ≡ true) IsAny r (λ good. if good then done else fail fatal) h
        (λ a e. rw e (Sends-give IsAny tt tt))

  check_fault-Sends : (t : ℤ) → Sends [] IsAny (check_fault host port fuel t)
  unfolding check_fault check_fault_at wants_reset
  check_fault-Sends t = Sends-bind [] [] _ _ _ _ (sense-Sends port prompt m t) (λ a e. rw e (
      Sends-bind [] [] _ _ _ _ check_closed-Sends (λ u _.
        Sends-bind [] [] _ _ _ _ check_loaded-Sends
          (λ u _. Sends-bind [] [] _ IsAny _ _ get-Sends (λ s _. Sends-give IsAny s.ps tt)))))

  send_bytes-Sends :
      (fault : ℤ → Run ℕ) (bs : List ℕ) → Same bs (send_bytes_with host port fuel fault bs)
  unfolding send_bytes_with wait_for_ready_with
  send_bytes-Sends fault bs =
      Sends-bind [] bs (λ a. a ≡ true) IsAny (wait_for_ready_with host port fuel fault 20) _
        (Sends-bind [] [] _ _ _ _ (now-Sends port prompt)
          (λ t1 _. ready_loop-Sends fault (suc m) 20 t1))
        (λ a e.
          rw e (Sends-bind [] bs _ _ _ _ (Sends-give IsAny tt tt) (λ u _. send_blind-Sends bs)))

  send_byte-Sends : (b : ℕ) → Same (b ∷ []) (send_byte host port fuel b false)
  unfolding send_byte send_bytes
  send_byte-Sends b = send_bytes-Sends (check_fault host port fuel) (b ∷ [])

  feed_blank-Sends : (n : ℕ) → Same (replicate n 0xA) (feed_blank host port fuel n)
  unfolding feed_blank bytes
  feed_blank-Sends zero = Sends-give IsAny tt tt
  feed_blank-Sends (suc n) =
      let rest = replicate n 0xA in
      Sends-bind (0xA ∷ []) rest _ _ _ _ (send_byte-Sends 0xA) (λ u _.
        Sends-bind [] rest _ _ _ _ (set_tof-Sends false) (λ u _.
          Sends-bind [] rest _ _ _ _ (Sends-emit drained (λ es. refl)) (λ u _.
            Sends-bind [] rest _ _ _ _ (check_fault-Sends (pos 2)) (λ u _. feed_blank-Sends n))))

  print_band-Sends :
      (nslices : ℕ) (slices : List ℕ)
      → Same (band_bytes nslices slices) (print_band host port fuel nslices slices)
  unfolding print_band band_bytes send_bytes
  print_band-Sends nslices slices =
      let all : List ℕ = 0x4 ∷ nslices % 256 ∷ slices in
      let fault = check_fault host port fuel in
      let tail : Run (Unit {0}) =
        send_bytes host port fuel slices false
        >> (check_fault host port fuel (pos 0) >>= (λ _. done)) in
      let end : Same (slices ++ []) tail =
        Sends-bind slices [] _ _ _ _ (send_bytes-Sends fault slices) (λ u _.
          Sends-bind [] [] _ IsAny _ _ (check_fault-Sends (pos 0))
            (λ u _. Sends-give IsAny tt tt)) in
      Sends-bind [] all _ _ _ _ get-Sends (λ s small.
        Sends-bind [] all _ _ _ _ (without-idle-Sends s.ps small) (λ u _.
          Sends-bind (0x4 ∷ []) (nslices % 256 ∷ slices) _ _ _ _ (send_byte-Sends 0x4) (λ u _.
            Sends-bind (nslices % 256 ∷ []) slices _ _ _ _ (send_byte-Sends (nslices % 256))
              (λ u _. subst (λ bs. Same bs tail) (append-nil slices) end))))

  print_bands-Sends :
      (nslices n : ℕ) (bands : List (List ℕ))
      → n ≤ length bands
      → Same (bands_bytes nslices n bands) (print_bands host port fuel nslices n bands)
  unfolding print_bands bands_bytes
  print_bands-Sends nslices zero bands h = Sends-give IsAny tt tt
  print_bands-Sends nslices (suc n) [] h = absurd (omega arith)
  print_bands-Sends nslices (suc n) (b ∷ bands) h =
      Sends-bind (band_bytes nslices b) _ _ _ _ _ (print_band-Sends nslices b)
        (λ u _. print_bands-Sends nslices n bands (omega arith))

  formfeed-Sends : Same (0xC ∷ 0x1 ∷ []) (formfeed host port fuel false)
  unfolding formfeed formfeed_with bytes
  formfeed-Sends =
      let fault = check_fault host port fuel in
      Sends-bind (0xC ∷ []) (0x1 ∷ []) _ _ _ _ (send_bytes-Sends fault (0xC ∷ [])) (λ u _.
        Sends-bind (0x1 ∷ []) [] _ _ _ _ (send_bytes-Sends fault (0x1 ∷ [])) (λ u _.
          Sends-bind [] [] _ _ _ _ (set_tof-Sends true) (λ u _.
            Sends-bind [] [] _ _ _ _ (Sends-emit drained (λ es. refl))
              (λ u _. then_done-Sends _ (wait_for_idle-Sends port prompt host m fault 20)))))

  print_map-Sends :
      (nslices lastband : ℕ) (bands : List (List ℕ))
      → lastband < length bands
      → Same (label_bytes nslices lastband bands) (print_map host port fuel nslices lastband bands)
  unfolding print_map label_bytes wait_for_idle
  print_map-Sends nslices lastband bands h =
      let end : List ℕ = 0xC ∷ 0x1 ∷ [] in
      Sends-bind (replicate 3 0xA) (bands_bytes nslices (lastband + 1) bands ++ end) _ _ _ _
        (feed_blank-Sends 3)
        (λ u _.
          Sends-bind (bands_bytes nslices (lastband + 1) bands) end _ _ _ _
            (print_bands-Sends nslices (lastband + 1) bands (omega arith))
            (λ u _.
              Sends-bind [] end _ _ _ _
                (wait_for_idle-Sends port prompt host m (check_fault host port fuel) 8)
                (λ u _. formfeed-Sends)))

  module _ (L : BitmapLib) where
    open L use {height, width}

    -- On an open device whose map fits the bitmap, with a printer that is idle at every poll, and
    -- with a fuel of two or more, `printlabel` ends without a fault. The bands that it made then
    -- hold the dots of the bitmap, and what it has written is the label that has these bands up to
    -- the last one with a dot.
    pub printlabel-Label :
        (bm : BitmapLib.Bitmap L) (model : Model) (old : List (List ℕ)) (s : State)
        → IsReady s
        → s.map ≡ some old
        → s.m ≡ some model
        → width bm ≡ s.nslices * 8
        → height bm ≡ s.nbands
        → 0 < s.nbands
        → Returns (printlabel host port fuel L bm s) (λ (a, t).
          (bands : List (List ℕ)) × (lastband : ℕ) × IsImage L bm model.has_slop_bug s.nslices
            s.nbands 0 0 bands lastband
          × (bytes t.log ≡ bytes s.log ++ label_bytes s.nslices lastband bands)
          × IsReady t)
    unfolding printlabel
    printlabel-Label bm model old s r hm hk hw hh pos_ =
        let image =
          map_bands-IsImage L bm model.has_slop_bug s.nslices s.nbands 0 0 (omega arith) in
        let bands = (map_bands L bm model.has_slop_bug s.nslices s.nbands 0 0).0 in
        let last = (map_bands L bm model.has_slop_bug s.nslices s.nbands 0 0).1 in
        let low : last < length bands = elim image.latest [
          | inl none_ ↦ omega (arith, image.tall)
          | inr (lo, hi, hit) ↦ omega (arith, image.tall)
        ] in
        let w : (s.nslices * 8 == width bm) ≡ true = (==_iff _ _).1 (sym hw) in
        let h : (s.nbands == height bm) ≡ true = (==_iff _ _).1 (sym hh) in
        rw (hm, w, h, hk)
          (mono (print_map-Sends s.nslices last bands low (record s { map = some bands }) r)
            (λ (a, t) (_, e, l). (bands, last, image, l, e)))
