-- ===== src/Slpro/Label.antt =====
-- `printlabel` of slap/slpro.c as a whole.
pub mod Paper
pub mod Printer
pub mod Prompt
pub mod Sent
pub mod Kept
use slap.Base.{
  ℕ, zero, suc, ◌+◌, ◌*◌, ◌%◌, Bool, true, false, not, ◌&&◌, ◌==◌, List, [], ◌∷◌, Option, none,
  some, if◌then◌else◌, length,
}
use slap.Base.Bits.{without}
use slap.Base.Int.{ℤ, pos}
use slap.Base.Result.{Result, ok, err, assertion, wild_pointer}
use slap.Bitmap.{BitmapLib}
use slap.Serial.{Port, drained, ◌>>=◌, ◌>>◌, give, fail, done}
use slap.Slpro.Line.{Host, State, Run, emit, get, set_ps, set_tof, get_model}
use slap.Slpro.Map.{map_bands}
use slap.Slpro.Models.{Model}
use slap.Slpro.Status.{idle}
use slap.Slpro.Wait.{send_byte, send_bytes, check_fault, wait_for_idle, formfeed}

module _ (host : Host) (port : Port) (fuel : ℕ) where
  -- The feeds of blank bands, `n` of them.
  unfoldable pub feed_blank : (n : ℕ) → Run (Unit {0})
  feed_blank zero = done
  feed_blank (suc n) = do
    send_byte host port fuel 0xA false
    set_tof false
    emit drained
    _ ← check_fault host port fuel (pos 2)
    feed_blank n

  -- One band; `nslices` is sent as a byte.
  unfoldable pub print_band : (nslices : ℕ) → (slices : List ℕ) → Run (Unit {0})
  print_band nslices slices = do
    s ← get
    set_ps (without idle s.ps)
    send_byte host port fuel 0x4 false
    send_byte host port fuel (nslices % 256) false
    send_bytes host port fuel slices false
    _ ← check_fault host port fuel (pos 0)
    done

  -- The loop over `n` bands. A band beyond the map is read out of bounds.
  unfoldable pub print_bands : (nslices n : ℕ) → List (List ℕ) → Run (Unit {0})
  print_bands nslices zero bands = done
  print_bands nslices (suc n) [] = fail wild_pointer
  print_bands nslices (suc n) (b ∷ bands) = do print_band nslices b; print_bands nslices n bands

  -- The second half, from "printing bitmap" on.
  unfoldable pub print_map : (nslices lastband : ℕ) → List (List ℕ) → Run (Unit {0})
  print_map nslices lastband bands = do
    feed_blank 3
    print_bands nslices (lastband + 1) bands
    _ ← wait_for_idle host port fuel 8
    formfeed host port fuel false

  module _ (L : BitmapLib) where
    open L use {Bitmap, height, width}

    -- The assertions, the mapping and the printing.
    unfoldable pub printlabel : Bitmap → Run (Unit {0})
    printlabel bm s = elim s.map [
      | none ↦ err assertion
      | some old ↦
          if s.nslices * 8 == width bm && (s.nbands == height bm)
          then elim s.m [
            | none ↦ err wild_pointer
            | some model ↦
                let (bands, lastband) = map_bands L bm model.has_slop_bug s.nslices s.nbands 0 0 in
                print_map s.nslices lastband bands (record s { map = some bands })
          ]
          else err assertion
    ]
