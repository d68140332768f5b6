-- ===== src/Tests/Program.antt =====
-- The handling of signals, the search for fonts, and `main` at concrete inputs.
use slap.Base.{
  ℕ, ◌≡◌, refl, true, false, ◌&&◌, ◌==◌, [], ◌∷◌, ◌≢◌, sym, Bool-cases, inl, inr, List, Option,
  none, some, if◌then◌else◌,
}
use slap.Base.Int.{pos}
use slap.Base.Result.{Returns, ok}
use slap.Base.Text.{ascii, same_text}
use slap.Locate.{locate_font, try_locate_font, is_empty, separator}
use slap.Locate.First.{first_loaded}
use slap.Locate.Paths.{
  all_paths, paths_in, paths_in_all, suffixed, unsuffixed, trimmed, field, fields, dirs_of,
}
use slap.Glue.{slplus_drv, load_driver, drivers, takes}
use slap.Program.{Options, World, Done, finished, font_suffix, main}
use slap.Program.Files.{AllPrint, all_labels, unreadable, main-prints}
use slap.Render.Glyph.{Arena}
use slap.Session.{open_session, find_medium, media, close_device, free_bitmap}
use slap.Tests.Render.{text, unboxed_labels}
use slap.Tests.Samples.{lib, font, label}
use slap.Tty.Baud.{baudmap_posix, set_baud_mapping}
use slap.Signals.{State, default, own, sigcatch, deliver, mask_of}
use slap.Signals.Delivery.{effect_of, sigcatch-deliver}

abbrev quiet : State
quiet = record { actions = []; dispositions = λ s. default; masks = λ s. []; blocked = [] }

sigcatch-deliver_example :
    let r = sigcatch true true 15 (own 4) 9 (some (2 ∷ [])) false quiet in
    ((r.1).blocked ≡ [])
    × ((r.1).masks 15 ≡ (if r.0 && (15 == 15) then mask_of (some (2 ∷ [])) else quiet.masks 15))
    × (deliver 15 r.1 ≡ (if r.0 && (15 == 15) then effect_of (own 4) 9 else deliver 15 quiet))
sigcatch-deliver_example = sigcatch-deliver true 15 (own 4) 9 (some (2 ∷ [])) false quiet 15

-- One file has a font, "fonts/a.plus", with the number 1.
abbrev one_font : List ℕ → Option ℕ
one_font p = if same_text p (ascii "fonts/a.plus") then some 1 else none

located_run :
    first_loaded one_font (all_paths 255 (some (ascii "x:fonts/")) (ascii "a") (ascii "plus"))
    ≡ some 1
unfolding first_loaded all_paths paths_in paths_in_all suffixed unsuffixed trimmed field fields
    dirs_of
located_run = refl

-- A system with one printer, one font and one file.
abbrev world : World lib
world = record {
  Opd = ℕ;
  open_entry = λ baudmap target maxbaudval e. ok (some 0);
  setmedia = λ drv opd m portrait. some (1, label);
  hres = λ drv opd. 386;
  defined = λ v. true;
  load_font = λ p. some font;
  path_max = 255;
  font_path = none;
  files = λ name. if same_text name (ascii "a.txt") then some text else none;
  stdin = none;
}

abbrev options : Options
options = record {
  identify = false;
  scheme = baudmap_posix;
  maxbaudval = pos 0;
  numcopies = pos 2;
  face = ascii "areal-10";
  medianame = ascii "std";
  target = ascii "-";
  modelname = ascii "auto";
  portrait = true;
  squeeze = false;
}

abbrev labels : List (Arena lib)
labels = (Returns.value unboxed_labels).0

all-Prints : AllPrint lib world options font label (λ name. labels)
all-Prints name lines e = elim (Bool-cases (same_text name (ascii "a.txt"))) [
  | inl same ↦
      let it : lines ≡ text = some_eq (sym (rw same at e)) in
      rw it ((Returns.value unboxed_labels).1, Returns.equals unboxed_labels)
  | inr other ↦ absurd (no_file (rw other at e))
]
  where
    some_eq : {a b : List (List ℕ)} → some a ≡ some b → a ≡ b
    some_eq q = cc

    no_file : none ≢ some lines
    no_file q = cc

main-prints_example :
    Returns (main lib world [] options (ascii "a.txt" ∷ ascii "b.txt" ∷ [])) (λ ending.
      (d : Done lib world) × (ending
        ≡ finished d (close_device (slplus_drv, 1) ∷ free_bitmap d.arena ∷ []))
      × (d.printed
          ≡ all_labels lib world options font label
              (λ name. labels)
              (ascii "a.txt" ∷ ascii "b.txt" ∷ []))
      × (d.unread
          ≡ unreadable lib world options font label
              (λ name. labels)
              (ascii "a.txt" ∷ ascii "b.txt" ∷ [])))
unfolding set_baud_mapping open_session find_medium media load_driver drivers takes locate_font
    try_locate_font is_empty font_suffix separator
main-prints_example =
    main-prints lib world options font label (λ name. labels) [] (ascii "a.txt")
      (ascii "b.txt" ∷ []) (record { drv = slplus_drv; opd = 1; arena = label }) refl refl refl refl
      refl all-Prints
