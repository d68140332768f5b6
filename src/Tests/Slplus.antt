-- ===== src/Tests/Slplus.antt =====
-- The SLP-1x00 driver at concrete inputs.
use slap.Base.{
  inr, ◌/◌, ◌*◌, false, ℕ, ◌<◌, List, ◌+◌, ◌%◌, ◌≤◌, ◌≡◌, refl, true, false, ◌==◌, [], ◌∷◌, ◌++◌,
  some, arith, replicate, if◌then◌else◌,
}
use slap.Base.Int.{pos, negsuc}
use slap.Base.Result.{Returns}
use slap.Slplus.Device.{opendev}
use slap.Slplus.Device.Silent.{opendev_refused}
use slap.Media.{pt_none, Media, Geometry}
use slap.Slplus.Line.{Port, State, bytes}
use slap.Slplus.Status.{sense}
use slap.Slplus.Status.Latest.{latest, reported, final, any_high, sense-latest}
use slap.Slplus.Label.{printlabel}
use slap.Slplus.Label.Prompt.{IsPrompt, IsBetween}
use slap.Slplus.Label.Sent.{bands_bytes, label_bytes, mapped, printlabel-Sends}
use slap.Slplus.Label.Paper.{printlabel-dots}
use slap.Slplus.Stream.Sheet.{Sheet, sheet_at, sheet_bytes, shown}
use slap.Bitmap.{BitmapLib}
use slap.Slplus.Label.Overrun.{printlabel_overrun}
use slap.Base.Result.{err, wild_pointer}
use slap.Slplus.Setup.{setmedia, raw_height, top_margin}
use slap.Slplus.Setup.Whole.{IsWhole, setmedia-IsWhole}
use slap.Render.Glyph.{Arena}
use slap.Base.Counts.{repeat}
use slap.Slplus.Map.{Band, Pair, mark, map_dot, map_slice, map_pair, map_bands}
use slap.Slplus.Map.Correct.{Done, even_dots, odd_dots, map_pair-Done}
use slap.Slplus.Stream.{last_printed, start_pos, move_bytes, band_bytes, slices_from}
use slap.Tests.Samples.{lib, Dots, block}

abbrev band : Band
band = record { slices = λ k. k + 100; min_slice = 5; max_slice = 7 }

band_bytes_run : band_bytes band 9 ≡ (8 ∷ 4 ∷ 8 ∷ 2 ∷ 3 ∷ 5 ∷ 103 ∷ 104 ∷ 105 ∷ 106 ∷ 107 ∷ [], 8)
unfolding band_bytes move_bytes start_pos slices_from
band_bytes_run = refl

map_pair-Done_example :
    Done (even_dots lib block 0) 2 2 (Pair.even (map_pair lib block 0 2 (λ k. 7) (λ k. 9) 0))
    × Done (odd_dots lib block 0) 2 2 (Pair.odd (map_pair lib block 0 2 (λ k. 7) (λ k. 9) 0))
map_pair-Done_example = map_pair-Done lib block 0 2 (λ k. 7) (λ k. 9) 0

-- A printer that is idle at every poll.
abbrev idle_port : Port
idle_port = record {
  reads = λ k. if k % 2 == 0 then some (0x20 ∷ []) else some [];
  writes = λ k. true;
  sets = λ k. true;
  clock = λ k. k;
}

idle_port-IsPrompt : IsPrompt idle_port
idle_port-IsPrompt = record {
  idle_byte = λ k. ground arith;
  then_nothing = λ k. ground arith;
  writes_ok = λ k. refl;
  sets_ok = λ k. refl;
}

abbrev two_bands : State
two_bands = record {
  is_open = true;
  tof = true;
  bands = replicate 2 (record { slices = λ k. 0; min_slice = 2; max_slice = 0 });
  nslices = 2;
  ps = 0;
  old_timeout = negsuc 48;
  nreads = 0;
  nwrites = 0;
  nsets = 0;
  nlooks = 0;
  log = [];
}

-- One dot, in the second row of the even band.
abbrev dot_label : Dots
dot_label = record { tall = 16; wide = 2; ink = (2, 1) ∷ [] }

printlabel-Sends_example : Returns (printlabel idle_port 2 lib dot_label two_bands) (λ (a, t).
    IsBetween t
    × (bytes t.log
        ≡ bytes []
          ++ label_bytes
              (mapped idle_port idle_port-IsPrompt 0 lib dot_label two_bands).1
              (mapped idle_port idle_port-IsPrompt 0 lib dot_label two_bands).0))
unfolding map_bands map_pair map_slice map_dot mark repeat last_printed
printlabel-Sends_example =
    printlabel-Sends idle_port idle_port-IsPrompt 0 lib dot_label two_bands (0, refl) (omega arith)

dot_label-IsBlankFirst : (row : ℕ) → BitmapLib.tstb lib dot_label row 0 ≡ false
dot_label-IsBlankFirst row = ground arith

printlabel-dots_example : Returns (printlabel idle_port 2 lib dot_label two_bands) (λ (a, t).
    (sent_ : List ℕ) × (bytes t.log ≡ bytes [] ++ sent_)
    × (shown (Sheet.prints (sheet_bytes sent_ (sheet_at 7 3 []))) 21 3 ≡ true)
    × IsBetween t)
unfolding map_bands map_pair map_slice map_dot mark repeat last_printed
printlabel-dots_example =
    printlabel-dots idle_port idle_port-IsPrompt 0 lib dot_label two_bands 7 3 2 1 (0, refl)
      (omega arith) dot_label-IsBlankFirst (omega arith) (inr even_only) (omega arith) (omega arith)
  where
    even_only :
        (row c : ℕ)
        → row / 16 * 2 ≡ 0
        → row % 2 ≡ 1
        → c < 2
        → BitmapLib.tstb lib dot_label row c ≡ false
    even_only row c pair odd inside = ground arith

label_run :
    label_bytes 0 (record { slices = λ k. k; min_slice = 1; max_slice = 1 } ∷ [])
    ≡ 0xA ∷ 0xD ∷ 0x7 ∷ 2 ∷ 0x7 ∷ 1 ∷ 0x3 ∷ 1 ∷ 1 ∷ 0x9 ∷ 0xD ∷ 0xC ∷ 0x1 ∷ []
unfolding label_bytes bands_bytes last_printed band_bytes move_bytes start_pos slices_from
label_run = refl

-- A printer that has sent two status bytes, the first of them with an acknowledgement.
abbrev busy_port : Port
busy_port = record {
  reads = λ k. if k == 0 then some (0xA0 ∷ 0x41 ∷ []) else some [];
  writes = λ k. true;
  sets = λ k. true;
  clock = λ k. k;
}

sense-latest_example : Returns (sense busy_port 2 (pos 3) two_bands) (λ (a, u).
    (a ≡ latest 0 ((0xA0, 0x41 ∷ []) ∷ []))
    × (u.ps ≡ latest 0 ((0xA0, 0x41 ∷ []) ∷ []))
    × (u.nreads ≡ 2))
sense-latest_example =
    sense-latest busy_port (λ k. refl) ((0xA0, 0x41 ∷ []) ∷ []) 2 (pos 3) two_bands (omega arith)
      (refl, refl) ((omega arith, (omega arith, tt)), tt)

latest_run : latest 0 ((0xA0, 0x41 ∷ []) ∷ []) ≡ 0xC1
unfolding latest reported final any_high
latest_run = refl

abbrev std : Media
std = record { name = []; width = 28; height = 89 }

setmedia-IsWhole_example : Returns (setmedia lib true std two_bands) (λ o.
    (g : Geometry) × (a : Arena lib) × (t : State) × (o ≡ some (g, a, t))
    × IsWhole lib a t
    × (raw_height 89 ≤ g.height)
    × (g.height ≤ raw_height 89 + 16)
    × (g.height + g.bottom ≡ raw_height 89 + top_margin))
setmedia-IsWhole_example = setmedia-IsWhole lib std two_bands refl (omega arith)

-- One dot, in the first row of the odd band, which is the last.
abbrev odd_label : Dots
odd_label = record { tall = 16; wide = 2; ink = (1, 1) ∷ [] }

printlabel_overrun_example : printlabel idle_port 2 lib odd_label two_bands ≡ err wild_pointer
unfolding map_bands map_pair map_slice map_dot mark repeat
printlabel_overrun_example =
    printlabel_overrun idle_port idle_port-IsPrompt 0 lib odd_label two_bands (0, refl) refl refl

-- No printer answers, and every look at the clock finds a second more.
abbrev no_printer : Port
no_printer = record { reads = λ k. some []; writes = λ k. true; sets = λ k. true; clock = λ k. k }

opendev_refused_example :
    Returns (opendev no_printer 5 two_bands) (λ (ptype, t). (ptype ≡ pt_none) × (t.is_open ≡ false))
opendev_refused_example =
    opendev_refused no_printer
      (record {
        nothing = λ k. refl;
        writes_ok = λ k. refl;
        sets_ok = λ k. refl;
        goes_on = λ k. omega arith;
      })
      4 two_bands (omega arith)
