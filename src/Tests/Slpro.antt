-- ===== src/Tests/Slpro.antt =====
-- The driver for the SLP-Pro family at concrete inputs.
use slap.Base.{
  ℕ, zero, suc, length, get_or, ◌+◌, ◌-◌, ◌/◌, ◌%◌, ◌<◌, ◌≡◌, refl, true, false, ◌==◌, ◌||◌, [],
  ◌∷◌, ◌++◌, some, List, arith, if◌then◌else◌,
}
use slap.Base.Bits.{has}
use slap.Base.Int.{pos, negsuc}
use slap.Base.Result.{Keeps, Returns, err, wild_pointer}
use slap.Media.{Media, Geometry, slp_pro}
use slap.Render.Glyph.{Arena}
use slap.Serial.{Port, Event, bytes, wire}
use slap.Slpro.Device.Silent.{opendev_silent}
use slap.Slpro.Device.{opendev}
use slap.Slpro.Device.{connect, switch_baud, limited}
use slap.Slpro.Device.Flow.{connect-cts}
use slap.Slpro.Label.{printlabel}
use slap.Slpro.Label.Kept.{HasPicture, printlabel-IsWhole}
use slap.Slpro.Label.Prompt.{IsPrompt, IsReady}
use slap.Slpro.Label.Sent.{label_bytes, bands_bytes, band_bytes}
use slap.Slpro.Label.Paper.{IsBlankAfter, picture, printed, printlabel-paper}
use slap.Slpro.Label.Printer.{take_bytes}
use slap.Slpro.Device.Link.{follow, ends, told, switch_baud-ends}
use slap.Slpro.Line.{Host, State}
use slap.Slpro.Map.Packed.{IsImage, map_bands-IsImage}
use slap.Slpro.Map.{map_bands}
use slap.Slpro.Models.{Model, pro_model, models, find_ptype, valid_ptype}
use slap.Slpro.Models.Fitting.{IsFitting}
use slap.Slpro.Setup.{setmedia}
use slap.Slpro.Setup.Whole.{IsWhole, setmedia-Whole}
use slap.Slpro.Status.{sense, paper_out}
use slap.Slpro.Status.View.{Shows, see_all, view}
use slap.Slpro.Status.Seen.{joined, sense-Shows}
use slap.Slpro.Wait.{check_fault}
use slap.Slpro.Wait.Clear.{check_fault-IsLoaded}
use slap.Tty.Baud.{generic_map, optional, val2baud, baud2val}
use slap.Tests.Samples.{lib, Dots}

abbrev linux : Host
linux = record { baudmap = generic_map (λ v. true); has_crtscts = true; early_drain = true }

-- A printer that is idle at every poll.
abbrev idle_pro : Port
idle_pro = record {
  reads = λ k. if k % 2 == 0 then some (0x50 ∷ []) else some [];
  writes = λ k. true;
  sets = λ k. true;
  clock = λ k. k;
}

idle_pro-IsPrompt : IsPrompt idle_pro
idle_pro-IsPrompt = record {
  idle_byte = λ k. ground arith;
  then_nothing = λ k. ground arith;
  writes_ok = λ k. refl;
  sets_ok = λ k. refl;
}

-- A map of two bands of one slice.
abbrev small : State
small = record {
  is_open = true;
  tm_cts = false;
  port_cts = false;
  tof = true;
  margin = 0;
  map = some ((0 ∷ []) ∷ (0 ∷ []) ∷ []);
  nbands = 2;
  nslices = 1;
  maxbaud = 0;
  m = some pro_model;
  ps = 0;
  old_timeout = negsuc 48;
  nreads = 0;
  nwrites = 0;
  nsets = 0;
  nlooks = 0;
  log = [];
}

-- Two dots, in the first row.
abbrev two_dots : Dots
two_dots = record { tall = 2; wide = 8; ink = (0, 1) ∷ (0, 7) ∷ [] }

printlabel-paper_example : Returns (printlabel linux idle_pro 2 lib two_dots small) (λ (a, t).
    (last : ℕ) × (last < 2)
    × IsBlankAfter lib two_dots false 1 2 last
    × (take_bytes (bytes t.log) (printed [])
        ≡ printed ([] ++ picture lib two_dots false 1 last ∷ []))
    × IsReady t)
unfolding take_bytes bytes
printlabel-paper_example =
    printlabel-paper linux idle_pro idle_pro-IsPrompt 0 lib two_dots pro_model
      ((0 ∷ []) ∷ (0 ∷ []) ∷ []) small [] ((0, refl), omega arith) refl refl refl refl (omega arith)
      (omega arith) refl

switch_baud-ends_example : Returns (switch_baud linux idle_pro 2 38400 small) (λ (a, t).
    (es : List Event) × (wire t.log ≡ wire [] ++ es)
    × (follow linux.early_drain linux.baudmap es (ends 9600 9600) ≡ ends 38400 38400)
    × IsReady t)
unfolding limited told val2baud baud2val generic_map optional
switch_baud-ends_example =
    switch_baud-ends linux idle_pro idle_pro-IsPrompt 0 38400 9600 38400 small
      ((0, refl), omega arith) refl refl

label_run :
    label_bytes 1 0 ((0x41 ∷ []) ∷ (0 ∷ []) ∷ [])
    ≡ 0xA ∷ 0xA ∷ 0xA ∷ 0x4 ∷ 1 ∷ 0x41 ∷ 0xC ∷ 0x1 ∷ []
unfolding label_bytes bands_bytes band_bytes
label_run = refl

map_bands-IsImage_example :
    IsImage lib two_dots true 1 2 0 0
      (map_bands lib two_dots true 1 2 0 0).0
      (map_bands lib two_dots true 1 2 0 0).1
map_bands-IsImage_example = map_bands-IsImage lib two_dots true 1 2 0 0 (omega arith)

abbrev two_rows : List (List ℕ)
two_rows = (0 ∷ []) ∷ (0 ∷ []) ∷ []

small-wide : (j : ℕ) → j < 2 → length (get_or two_rows j []) ≡ 1
small-wide zero h = refl
small-wide (suc zero) h = refl
small-wide (suc (suc j)) h = absurd (omega arith)

abbrev arena : Arena lib
arena = record { bm = two_dots; dirty = true }

printlabel-IsWhole_example :
    Keeps
      (λ (u, t). (model : Model) × (some pro_model ≡ some model) × HasPicture lib arena model t)
      (printlabel linux idle_pro 2 lib two_dots small)
printlabel-IsWhole_example = printlabel-IsWhole linux idle_pro 2 lib arena small (record {
  bands = (0 ∷ []) ∷ (0 ∷ []) ∷ [];
  map_eq = refl;
  tall = refl;
  wide = small-wide;
  height_eq = refl;
  width_eq = refl;
})

-- A printer that has sent XOFF, then that it is idle and out of labels, and then XON.
abbrev chatty : Port
chatty = record {
  reads =
      λ k. if k == 0 then some (0x13 ∷ 0x51 ∷ []) else if k == 1 then some (0x11 ∷ []) else some [];
  writes = λ k. true;
  sets = λ k. true;
  clock = λ k. k;
}

sense-Shows_example : Returns (sense chatty 3 (pos 5) small) (λ (a, u).
    (a ≡ u.ps)
    × Shows a (
        see_all
          (joined ((0x13, 0x51 ∷ []) ∷ (0x11, []) ∷ []))
          (record (view 0) { check = false; ping = false }))
    × (u.nreads ≡ 0 + 2 + 1))
sense-Shows_example =
    sense-Shows chatty (λ k. refl) ((0x13, 0x51 ∷ []) ∷ (0x11, []) ∷ []) 3 (pos 5) small
      (omega arith) (refl, (refl, refl))

-- A printer that is out of labels at the first three polls.
abbrev refilled : Port
refilled = record {
  reads = λ k.
      if k % 2 == 0
      then (if k == 0 || k == 2 || k == 4 then some (0x51 ∷ []) else some (0x50 ∷ []))
      else some [];
  writes = λ k. true;
  sets = λ k. true;
  clock = λ k. k;
}

check_fault-IsLoaded_example :
    Keeps
      (λ (v, t). (v ≡ t.ps) × (has paper_out v ≡ false))
      (check_fault linux refilled 4 (pos 23) small)
check_fault-IsLoaded_example = check_fault-IsLoaded linux refilled 4 (pos 23) small

connect-cts_example : Keeps (λ (ptype, t). t.port_cts ≡ false) (connect linux chatty 4 small)
connect-cts_example = connect-cts linux chatty 4 small refl

abbrev std : Media
std = record { name = []; width = 28; height = 89 }

setmedia-Whole_example : Returns (setmedia linux idle_pro 2 lib true slp_pro std small) (λ (o, t).
    (g : Geometry) × (a : Arena lib) × (o ≡ some (g, a))
    × IsFitting pro_model std g
    × IsWhole lib a t.map t.nbands t.nslices
    × (a.dirty ≡ false)
    × (bytes t.log ≡ bytes [] ++ 0x6 ∷ ((54 - 28) / 2 - 1) ∷ []))
unfolding valid_ptype find_ptype models
setmedia-Whole_example =
    setmedia-Whole lib linux idle_pro 2 (λ k. refl) slp_pro pro_model std small refl refl
      (omega arith) (omega arith) (omega arith)

-- No printer answers, and every look at the clock finds a second more.
abbrev no_printer : Port
no_printer = record { reads = λ k. some []; writes = λ k. true; sets = λ k. true; clock = λ k. k }

opendev_silent_example : opendev linux no_printer 9 (pos 0) small ≡ err wild_pointer
opendev_silent_example =
    opendev_silent linux no_printer
      (record {
        nothing = λ k. refl;
        writes_ok = λ k. refl;
        sets_ok = λ k. refl;
        goes_on = λ k. omega arith;
      })
      8 (pos 0) small (omega arith)
