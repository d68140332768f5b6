-- ===== src/Program/Files.antt =====
-- What `main` of slap/slap.c prints for its files.
use slap.Base.{
  ℕ, zero, suc, ◌≡◌, refl, ap, ◌∙◌, true, false, List, [], ◌∷◌, ◌++◌, none, some, Option-cases, inl,
  inr,
}
use mathlib.Core.Path.{ap₂}
use slap.Base.Result.{ok, ◌>>=◌, Returns, returns}
use slap.Base.Words.{to_u32}
use slap.Bitmap.{BitmapLib}
use slap.Font.{Font}
use slap.Locate.{locate_font}
use slap.Render.Glyph.{Arena}
use slap.Render.Page.{render1, render}
use slap.Render.Page.Copies.{copies, final_size, render1-eq, render-copies}
use slap.Session.{Session, open_session, close_device, free_bitmap, opened, close_session}
use slap.Tty.Baud.{Baudinfo, set_baud_mapping}
use slap.Program.{
  Options, World, Done, finished, drivers_for, font_suffix, print_files, print_input, print_session,
  main,
}

module _ (L : BitmapLib) where
  open L use {height, width}

  -- The arenas have the same size.
  abbrev SameSize : Arena L → Arena L → Type 0
  SameSize a b = (height b.bm ≡ height a.bm) × (width b.bm ≡ width a.bm)

  module _ (W : World L) (o : Options) (font : Font L) (fresh : Arena L) where
    -- One copy of a file prints these labels on the arena that the session opens with.
    abbrev pub Prints : List (List ℕ) → List (Arena L) → Type 0
    Prints lines labels =
        (b : Arena L) × (render1 L fresh lines font o.portrait o.squeeze false ≡ ok (labels, b))

    -- So do the copies on any arena of its size.
    render-Prints :
        (n : ℕ) (a : Arena L) (lines : List (List ℕ)) (labels : List (Arena L))
        → SameSize fresh a
        → Prints lines labels
        → Returns
            (render L n a lines font o.portrait o.squeeze false)
            (λ (printed, b). SameSize fresh b × (printed ≡ copies L n labels))
    unfolding render
    render-Prints zero a lines labels same (b, e) = returns _ (same, refl)
    render-Prints (suc n) a lines labels same (b, e) =
        let again = render1-eq L a fresh lines font o.portrait o.squeeze false same.0 same.1 ∙ e in
        let all = render-copies L n a b labels lines font o.portrait o.squeeze false again in
        rw all
          (returns _ (final_size L fresh b labels lines font o.portrait o.squeeze false e, refl))

    module _ (labels_of : List ℕ → List (Arena L)) where
      -- What is printed of the files that can be read, and the names of the others.
      unfoldable pub all_labels : List (List ℕ) → List (Arena L)
      all_labels [] = []
      all_labels (name ∷ names) = elim (W.files name) [
        | none ↦ all_labels names
        | some lines ↦ copies L (to_u32 o.numcopies) (labels_of name) ++ all_labels names
      ]

      unfoldable pub unreadable : List (List ℕ) → List (List ℕ)
      unreadable [] = []
      unreadable (name ∷ names) = elim (W.files name) [
        | none ↦ name ∷ unreadable names
        | some lines ↦ unreadable names
      ]

      -- Every file that can be read prints, by itself, its labels.
      abbrev pub AllPrint : Type 0
      AllPrint =
          (name : List ℕ) (lines : List (List ℕ))
          → W.files name ≡ some lines
          → Prints lines (labels_of name)

      print_files-Prints :
          AllPrint
          → (names : List (List ℕ)) (a : Arena L) → SameSize fresh a
          → Returns (print_files L W o font a names) (λ d.
            SameSize fresh d.arena × (d.printed ≡ all_labels names) × (d.unread ≡ unreadable names))
      unfolding print_files all_labels unreadable
      print_files-Prints all [] a same = returns _ (same, refl, refl)
      print_files-Prints all (name ∷ names) a same = elim (Option-cases (W.files name)) [
        | inl e ↦
            let rest = print_files-Prints all names a same in
            rw (print_files, all_labels, unreadable, ◌>>=◌, e, rest.equals)
              (returns _ ((rest.holds).0, (rest.holds).1, ap (λ u. name ∷ u) (rest.holds).2))
        | inr (lines, e) ↦
            let here =
              render-Prints (to_u32 o.numcopies) a lines (labels_of name) same (all name lines e) in
            let rest = print_files-Prints all names (here.value).1 (here.holds).0 in
            rw (print_files, all_labels, unreadable, ◌>>=◌, e, here.equals, rest.equals)
              (returns _ ((rest.holds).0, ap₂ ◌++◌ (here.holds).1 (rest.holds).1, (rest.holds).2))
      ]

      -- When the mapping of rates is known, the session opens, the font is found, and every file
      -- that can be read prints, alone and on a fresh arena, its labels: `main` ends without a
      -- fault; it has printed the labels of the files that can be read, in the order of their names
      -- and as often as copies are asked for, with nothing left over from one file to the next; it
      -- has warned of just the others; and it closes the device and gives back the arena.
      pub main-prints :
          (old : List Baudinfo) (name : List ℕ) (names : List (List ℕ))
          (sd : Session (drivers_for L W (set_baud_mapping W.defined o.scheme old).1 o))
          → o.identify ≡ false
          → (set_baud_mapping W.defined o.scheme old).0 ≡ true
          → open_session
              (drivers_for L W (set_baud_mapping W.defined o.scheme old).1 o)
              (some o.modelname)
              o.medianame
              o.portrait
            ≡ ok (opened sd)
          → locate_font W.load_font W.path_max W.font_path o.face
              (font_suffix L W (W.hres sd.drv sd.opd))
            ≡ ok (some font)
          → sd.arena ≡ fresh
          → AllPrint
          → Returns (main L W old o (name ∷ names)) (λ ending.
            (d : Done L W) × (ending
              ≡ finished d (close_device (sd.drv, sd.opd) ∷ free_bitmap d.arena ∷ []))
            × (d.printed ≡ all_labels (name ∷ names))
            × (d.unread ≡ unreadable (name ∷ names)))
      unfolding main print_session print_input close_session all_labels unreadable
      main-prints old name names sd anon known open_ found start all =
          let same : SameSize fresh sd.arena =
            (ap (λ (a : Arena L). height a.bm) start, ap (λ (a : Arena L). width a.bm) start) in
          let files = print_files-Prints all (name ∷ names) sd.arena same in
          rw (anon, known, open_, ◌>>=◌, found, files.equals)
            (returns _ (files.value, refl, (files.holds).1, (files.holds).2))
