-- ===== src/Slplus/Label.antt =====
-- `printlabel` of slap/slplus.c as a whole.
pub mod Prompt
pub mod Sent
pub mod Overrun
pub mod Bands
pub mod Dots
pub mod Paper
use slap.Base.{
  ℕ, zero, suc, ◌+◌, ◌*◌, ◌/◌, Bool, true, false, List, [], ◌∷◌, ◌++◌, if◌then◌else◌, get_or,
  get_elem?, length, Option, none, some,
}
use slap.Base.Int.{ℤ, pos}
use slap.Base.Result.{Result, ok, err, fatal, wild_pointer}
use slap.Bitmap.{BitmapLib}
use slap.Slplus.Map.{Band, map_bands}
use slap.Slplus.Stream.{band_bytes, feed_command, last_printed, cmd_home, cmd_right}
use slap.Slplus.Line.{
  Port, State, Event, drained, Run, ◌>>=◌, ◌>>◌, give, fail, done, emit, get_ps, set_ps, set_tof,
}
use slap.Slplus.Status.{without, idle}
use slap.Slplus.Wait.{send_byte, check_loaded, check_fault, wait_for_idle, formfeed}

-- A band of the driver's map; the map has no band where this is used.
abbrev no_slices : ℕ → ℕ
no_slices k = 0

unfoldable pub old_slices : List Band → ℕ → ℕ → ℕ
old_slices [] band = no_slices
old_slices (b ∷ bs) zero = b.slices
old_slices (b ∷ bs) (suc band) = old_slices bs band

module _ (port : Port) (fuel : ℕ) where
  unfoldable pub send_all : List ℕ → Run (Unit {0})
  send_all [] = done
  send_all (b ∷ bs) = do send_byte port fuel b false; send_all bs

  -- The end of a round: feed to the next band.
  unfoldable pub feed : (band : ℕ) → Run (Unit {0})
  feed band = do
    s ← get_ps
    set_ps (without idle s)
    send_byte port fuel (feed_command band) false
    emit drained
    _ ← check_fault port fuel (pos 0)
    check_loaded port fuel
    good ← wait_for_idle port fuel 8
    if good then done else fail fatal

  -- The loop over `n` bands from `band` on. A band beyond the map is read out of bounds.
  unfoldable pub print_bands : (n band at : ℕ) → List Band → Run (Unit {0})
  print_bands zero band at bands = done
  print_bands (suc n) band at [] = fail wild_pointer
  print_bands (suc n) band at (b ∷ bands) = do
    send_all (band_bytes b at).0
    feed band
    print_bands n (band + 1) (band_bytes b at).1 bands

  -- The second half, from "printing bitmap" on.
  unfoldable pub print_map : (lastband : ℕ) → List Band → Run (Unit {0})
  print_map lastband bands = do
    send_byte port fuel 0xA false
    set_tof false
    emit drained
    check_loaded port fuel
    send_all (cmd_home ∷ cmd_right ∷ 2 ∷ [])
    print_bands (last_printed lastband (length bands) + 1) 0 0 bands
    send_byte port fuel cmd_home false
    formfeed port fuel false

  module _ (L : BitmapLib) where
    -- `setmedia` makes a map with an even number of bands; with an odd number the loop of the
    -- source would go past its end at the last pair, which is left out here.
    unfoldable pub printlabel : BitmapLib.Bitmap L → Run (Unit {0})
    printlabel bm s =
        let (bands, lastband) =
          map_bands L bm (length s.bands / 2) 0 s.nslices (old_slices s.bands) 0 in
        print_map lastband bands (record s { bands = bands })
