-- ===== src/Slplus/Label/Sent.antt =====
-- What `printlabel` sends to a printer that is always ready.
use slap.Base.{
  ℕ, zero, suc, ◌+◌, ◌/◌, ◌≤◌, ◌<◌, ◌≡◌, refl, sym, Bool, true, false, List, [], ◌∷◌, ◌++◌, arith,
  length, if◌then◌else◌,
}
use mathlib.Core.List.{append-nil}
use slap.Base.Int.{pos}
use slap.Base.Result.{Returns, returns, mono, fatal}
use slap.Bitmap.{BitmapLib}
use slap.Slplus.Map.{Band, map_bands}
use slap.Slplus.Stream.{band_bytes, feed_command, last_printed}
use slap.Slplus.Line.{Port, State, bytes, drained, Run, ◌>>=◌, done, fail, get_ps, set_tof, now}
use slap.Slplus.Status.{idle, wants_reset, without}
use slap.Slplus.Wait.{
  check_loaded, send_blind, check_fault_with, idle_loop, wait_for_idle_with, ready_loop,
  check_fault, wait_for_idle, wait_for_ready, send_byte, formfeed, reset_printer,
}
use slap.Slplus.Label.{send_all, feed, print_bands, print_map, printlabel, old_slices}
use slap.Slplus.Label.Prompt.{
  IsPrompt, IsBetween, Sends, IsAny, Sends-bind, Sends-give, Sends-emit, Sends-set_ps, sense-Sends,
}

-- The bytes for `n` bands from `band` on, with the feed after each.
unfoldable pub bands_bytes : (n band at : ℕ) → List Band → List ℕ
bands_bytes zero band at bands = []
bands_bytes (suc n) band at [] = []
bands_bytes (suc n) band at (b ∷ bands) =
    (band_bytes b at).0 ++ feed_command band ∷ bands_bytes n (band + 1) (band_bytes b at).1 bands

-- A whole label: a feed, the margin of two slices, the bands, and the feed to the next label.
unfoldable pub label_bytes : (lastband : ℕ) → List Band → List ℕ
label_bytes lastband bands =
    0xA ∷ 0xD ∷ 0x7 ∷ 2 ∷ bands_bytes (last_printed lastband (length bands) + 1) 0 0 bands
    ++ 0xD ∷ 0xC ∷ 0x1 ∷ []

module _ (port : Port) (prompt : IsPrompt port) (m : ℕ) where
  abbrev pub fuel : ℕ
  fuel = suc (suc m)

  abbrev pub Same : List ℕ → Run (Unit {0}) → Type 0
  Same bs r = Sends bs IsAny r

  pub check_loaded-Sends : Same [] (check_loaded port fuel)
  unfolding check_loaded
  check_loaded-Sends =
      Sends-bind [] [] _ IsAny _ _ (sense-Sends port prompt m (pos 0))
        (λ a e. rw e (Sends-give IsAny tt tt))

  send_blind-Sends : (b : ℕ) → Same (b ∷ []) (send_blind port fuel b)
  unfolding send_blind bytes
  send_blind-Sends b s k = rw (◌>>=◌, prompt.writes_ok s.nwrites) (returns _ (tt, k, refl))

  now-Sends : Sends [] IsAny (now port)
  now-Sends s k = returns _ (tt, k, sym (append-nil (bytes s.log)))

  get_ps-Sends : Sends [] IsAny get_ps
  get_ps-Sends s k = returns _ (tt, k, sym (append-nil (bytes s.log)))

  pub set_tof-Sends : (v : Bool) → Same [] (set_tof v)
  set_tof-Sends v s k = returns _ (tt, k, sym (append-nil (bytes s.log)))

  ready_loop-Sends :
      (reset : Run ℕ) (n t t1 : ℕ)
      → Sends [] (λ a. a ≡ true) (ready_loop port fuel reset (suc n) t t1)
  unfolding ready_loop
  ready_loop-Sends reset n t t1 s b =
      let r = sense-Sends port prompt m (pos 0) s b in
      rw (◌>>=◌, r.equals, (r.holds).0) (returns _ (refl, (r.holds).1, (r.holds).2))

  idle_loop-Sends :
      (reset : Run ℕ) (n t t1 : ℕ)
      → Sends [] (λ a. a ≡ true) (idle_loop port fuel reset (suc n) t t1)
  unfolding idle_loop
  idle_loop-Sends reset n t t1 s b =
      let r = sense-Sends port prompt m (pos t) s b in
      rw (◌>>=◌, r.equals, (r.holds).0) (returns _ (refl, (r.holds).1, (r.holds).2))

  wait_for_ready-Sends : (t : ℕ) → Sends [] (λ a. a ≡ true) (wait_for_ready port fuel t)
  unfolding wait_for_ready bytes
  wait_for_ready-Sends t = Sends-bind [] [] _ _ _ _ (Sends-emit drained (λ es. refl)) (λ u _.
      Sends-bind [] [] _ _ _ _ now-Sends
        (λ t1 _. ready_loop-Sends (reset_printer port fuel fuel) (suc m) t t1))

  wait_for_idle-Sends : (t : ℕ) → Sends [] (λ a. a ≡ true) (wait_for_idle port fuel t)
  unfolding wait_for_idle wait_for_idle_with bytes
  wait_for_idle-Sends t = Sends-bind [] [] _ _ _ _ (Sends-emit drained (λ es. refl)) (λ u _.
      Sends-bind [] [] _ _ _ _ now-Sends
        (λ t1 _. idle_loop-Sends (reset_printer port fuel fuel) (suc m) t t1))

  check_fault-Sends : Sends [] IsAny (check_fault port fuel (pos 0))
  unfolding check_fault check_fault_with wants_reset
  check_fault-Sends =
      Sends-bind [] [] _ _ _ _ (sense-Sends port prompt m (pos 0))
        (λ a e. rw e (Sends-give IsAny 0x20 tt))

  pub send_byte-Sends : (b : ℕ) → Same (b ∷ []) (send_byte port fuel b false)
  unfolding send_byte
  send_byte-Sends b =
      Sends-bind [] (b ∷ []) _ _ _ _ (wait_for_ready-Sends 20) (λ a e. rw e (send_blind-Sends b))

  pub send_all-Sends : (bs : List ℕ) → Same bs (send_all port fuel bs)
  unfolding send_all
  send_all-Sends [] = Sends-give IsAny tt tt
  send_all-Sends (b ∷ bs) =
      Sends-bind (b ∷ []) bs _ _ _ _ (send_byte-Sends b) (λ a e. send_all-Sends bs)

  pub feed-Sends : (band : ℕ) → Same (feed_command band ∷ []) (feed port fuel band)
  unfolding feed bytes
  feed-Sends band =
      let c = feed_command band ∷ [] in
      Sends-bind [] c _ _ _ _ get_ps-Sends (λ s _.
        Sends-bind [] c _ _ _ _ (Sends-set_ps (without idle s)) (λ u _.
          Sends-bind c [] _ _ _ _ (send_byte-Sends _) (λ u _.
            Sends-bind [] [] _ _ _ _ (Sends-emit drained (λ es. refl)) (λ u _.
              Sends-bind [] [] _ _ _ _ check_fault-Sends (λ u _.
                Sends-bind [] [] _ _ _ _ check_loaded-Sends (λ u _.
                  Sends-bind [] [] (λ a. a ≡ true) IsAny _
                    (λ good. if good then done else fail fatal) (wait_for_idle-Sends 8)
                    (λ a e. rw e (Sends-give IsAny tt tt))))))))

  print_bands-Sends :
      (n band at : ℕ) (bands : List Band)
      → n ≤ length bands
      → Same (bands_bytes n band at bands) (print_bands port fuel n band at bands)
  unfolding print_bands bands_bytes
  print_bands-Sends zero band at bands h = Sends-give IsAny tt tt
  print_bands-Sends (suc n) band at [] h = absurd (omega arith)
  print_bands-Sends (suc n) band at (b ∷ bands) h =
      Sends-bind (band_bytes b at).0 _ _ _ _ _ (send_all-Sends _) (λ u _.
        Sends-bind (feed_command band ∷ []) _ _ _ _ _ (feed-Sends band)
          (λ u _. print_bands-Sends n (band + 1) (band_bytes b at).1 bands (omega arith)))

  formfeed-Sends : Same (0xC ∷ 0x1 ∷ []) (formfeed port fuel false)
  unfolding formfeed bytes
  formfeed-Sends = Sends-bind (0xC ∷ []) (0x1 ∷ []) _ _ _ _ (send_byte-Sends 0xC) (λ u _.
      Sends-bind (0x1 ∷ []) [] _ _ _ _ (send_byte-Sends 0x1) (λ u _.
        Sends-bind [] [] _ _ _ _ (Sends-emit drained (λ es. refl)) (λ u _.
          Sends-bind [] [] _ _ _ _ (set_tof-Sends true) (λ u _.
            Sends-bind [] [] (λ a. a ≡ true) IsAny _ (λ good. if good then done else fail fatal)
              (wait_for_idle-Sends 20) (λ a e. rw e (Sends-give IsAny tt tt))))))

  print_map-Sends :
      (lastband : ℕ) (bands : List Band)
      → last_printed lastband (length bands) < length bands
      → Same (label_bytes lastband bands) (print_map port fuel lastband bands)
  unfolding print_map label_bytes bytes
  print_map-Sends lastband bands h =
      let end : List ℕ = 0xD ∷ 0xC ∷ 0x1 ∷ [] in
      let middle : List ℕ =
        bands_bytes (last_printed lastband (length bands) + 1) 0 0 bands ++ end in
      Sends-bind (0xA ∷ []) (0xD ∷ 0x7 ∷ 2 ∷ middle) _ _ _ _ (send_byte-Sends 0xA) (λ u _.
        Sends-bind [] (0xD ∷ 0x7 ∷ 2 ∷ middle) _ _ _ _ (set_tof-Sends false) (λ u _.
          Sends-bind [] (0xD ∷ 0x7 ∷ 2 ∷ middle) _ _ _ _ (Sends-emit drained (λ es. refl)) (λ u _.
            Sends-bind [] (0xD ∷ 0x7 ∷ 2 ∷ middle) _ _ _ _ check_loaded-Sends (λ u _.
              Sends-bind (0xD ∷ 0x7 ∷ 2 ∷ []) middle _ _ _ _ (send_all-Sends _) (λ u _.
                Sends-bind _ end _ _ _ _ (print_bands-Sends _ 0 0 bands (omega arith)) (λ u _.
                  Sends-bind (0xD ∷ []) (0xC ∷ 0x1 ∷ []) _ _ _ _ (send_byte-Sends 0xD)
                    (λ u _. formfeed-Sends)))))))

  module _ (L : BitmapLib) where
    -- The driver maps the bitmap `bm` to this.
    abbrev pub mapped : BitmapLib.Bitmap L → State → List Band × ℕ
    mapped bm s = map_bands L bm (length s.bands / 2) 0 s.nslices (old_slices s.bands) 0

    -- To a printer that is idle at every poll, with a fuel of two or more, `printlabel` ends
    -- without a fault, and has then written the bytes of the label, no more and no less, and in
    -- their order. The last band that it prints has to be one of the map.
    pub printlabel-Sends :
        (bm : BitmapLib.Bitmap L) (s : State)
        → IsBetween s
        → last_printed (mapped bm s).1 (length (mapped bm s).0) < length (mapped bm s).0
        → Returns (printlabel port fuel L bm s) (λ (a, t).
          IsBetween t × (bytes t.log ≡ bytes s.log ++ label_bytes (mapped bm s).1 (mapped bm s).0))
    unfolding printlabel
    printlabel-Sends bm s b h =
        let bands = (mapped bm s).0 in
        mono (print_map-Sends (mapped bm s).1 bands h (record s { bands = bands }) b)
          (λ (a, t) (_, e, l). (e, l))
