-- ===== src/Slplus/Label/Overrun.antt =====
-- A label that has its last dots in the last band of all.
use slap.Base.{ℕ, zero, suc, ◌+◌, ◌%◌, ◌<◌, ◌≡◌, refl, false, List, [], ◌∷◌, arith, length}
use slap.Base.Result.{err, wild_pointer}
use slap.Bitmap.{BitmapLib}
use slap.Slplus.Map.{Band}
use slap.Slplus.Stream.{band_bytes, last_printed, cmd_home, cmd_right}
use slap.Slplus.Line.{Port, State, bytes, drained, Run, ◌>>=◌, ◌>>◌}
use slap.Slplus.Wait.{send_byte, formfeed}
use slap.Slplus.Label.{print_bands, print_map, printlabel}
use slap.Slplus.Label.Prompt.{IsPrompt, IsBetween, Sends, IsAny, Sends-emit}
use slap.Slplus.Label.Sent.{
  fuel, mapped, check_loaded-Sends, send_byte-Sends, send_all-Sends, feed-Sends, set_tof-Sends,
}

-- The run ends in an access out of bounds.
abbrev IsWild : {A : Type 0} → Run A → Type 0
IsWild m = (s : State) → IsBetween s → m s ≡ err wild_pointer

bind-IsWild :
    {A B : Type 0} (bs : List ℕ) (Q : A → Type 0) (m : Run A) (k : A → Run B)
    → Sends bs Q m
    → ((a : A) → IsWild (k a))
    → IsWild (m >>= k)
bind-IsWild bs Q m k h next s b =
    let r = h s b in rw (◌>>=◌, r.equals) (next (r.value).0 (r.value).1 (r.holds).1)

module _ (port : Port) (prompt : IsPrompt port) (m : ℕ) where
  print_bands-IsWild :
      (n band at : ℕ) (bands : List Band)
      → length bands < n
      → IsWild (print_bands port (fuel port prompt m) n band at bands)
  unfolding print_bands
  print_bands-IsWild zero band at bands h = absurd (omega arith)
  print_bands-IsWild (suc n) band at [] h = λ s b. refl
  print_bands-IsWild (suc n) band at (x ∷ bands) h =
      bind-IsWild _ IsAny _ _ (send_all-Sends port prompt m (band_bytes x at).0) (λ u.
        bind-IsWild _ IsAny _ _ (feed-Sends port prompt m band)
          (λ u. print_bands-IsWild n (band + 1) (band_bytes x at).1 bands (omega arith)))

  then-IsWild :
      (n : ℕ) (bands : List Band) (rest : Run (Unit {0}))
      → length bands < n
      → IsWild (print_bands port (fuel port prompt m) n 0 0 bands >> rest)
  then-IsWild n bands rest h s b = rw (◌>>=◌, print_bands-IsWild n 0 0 bands h s b) refl

  last_printed-over :
      (lastband n : ℕ) → lastband % 2 ≡ 1 → lastband + 1 ≡ n → last_printed lastband n ≡ n
  unfolding last_printed
  last_printed-over lastband n odd last = ground arith

  print_map-IsWild :
      (lastband : ℕ) (bands : List Band)
      → lastband % 2 ≡ 1
      → lastband + 1 ≡ length bands
      → IsWild (print_map port (fuel port prompt m) lastband bands)
  unfolding print_map bytes
  print_map-IsWild lastband bands odd last =
      bind-IsWild _ IsAny _ _ (send_byte-Sends port prompt m 0xA) (λ u.
        bind-IsWild _ IsAny _ _ (set_tof-Sends port prompt m false) (λ u.
          bind-IsWild _ IsAny _ _ (Sends-emit drained (λ es. refl)) (λ u.
            bind-IsWild _ IsAny _ _ (check_loaded-Sends port prompt m) (λ u.
              bind-IsWild _ IsAny _ _ (send_all-Sends port prompt m (cmd_home ∷ cmd_right ∷ 2 ∷ []))
                (λ u.
                  then-IsWild (last_printed lastband (length bands) + 1) bands
                    (send_byte port (fuel port prompt m) cmd_home false
                      >> formfeed port (fuel port prompt m) false)
                    (omega (arith, last_printed-over lastband (length bands) odd last)))))))

  -- On a printer that is idle at every poll, with a fuel of two or more, a label whose last dots
  -- the mapping finds in the last band of the map, an odd one, makes the driver go on to a band
  -- that the map does not have: a read outside the map.
  pub printlabel_overrun :
      (L : BitmapLib) (bm : BitmapLib.Bitmap L) (s : State)
      → IsBetween s
      → (mapped port prompt m L bm s).1 % 2 ≡ 1
      → (mapped port prompt m L bm s).1 + 1 ≡ length (mapped port prompt m L bm s).0
      → printlabel port (fuel port prompt m) L bm s ≡ err wild_pointer
  unfolding printlabel
  printlabel_overrun L bm s b odd last =
      let bands = (mapped port prompt m L bm s).0 in
      print_map-IsWild (mapped port prompt m L bm s).1 bands odd last (record s { bands = bands }) b
