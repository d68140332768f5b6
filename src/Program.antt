-- ===== src/Program.antt =====
-- `main` of slap/slap.c: from the options to the session, the font, and the files that are printed.
pub mod Files
use slap.Base.{
  ℕ, zero, suc, Bool, true, false, not, ltb, List, [], ◌∷◌, ◌++◌, Option, none, some, if◌then◌else◌,
}
use slap.Base.Int.{ℤ}
use slap.Base.Result.{Result, ok, err, ◌>>=◌}
use slap.Base.Text.{ascii}
use slap.Base.Words.{to_u32}
use slap.Bitmap.{BitmapLib}
use slap.Font.{Font}
use slap.Glue.{Drv, Entry}
use slap.Locate.{locate_font}
use slap.Media.{Media}
use slap.Render.Glyph.{Arena}
use slap.Render.Page.{render}
use slap.Session.{
  Drivers, Session, Outcome, bad_medium, no_printer, refused, opened, Action, Parts, open_session,
  close_session,
}
use slap.Tty.Baud.{Baudinfo, BaudMapping, set_baud_mapping}

-- What `getflags` makes of the options. `lp_messages` only changes how messages look.
pub record Options : Type 0 where
  pub identify : Bool
  pub scheme : BaudMapping
  pub maxbaudval : ℤ
  -- a SHORT, which `render` takes as a UINT
  pub numcopies : ℤ
  pub face : List ℕ
  pub medianame : List ℕ
  pub target : List ℕ
  pub modelname : List ℕ
  pub portrait : Bool
  pub squeeze : Bool

module _ (L : BitmapLib) where
  -- The system and the drivers. `hres` is in hundredths of a dot per millimetre; a file that can be
  -- read is given by the buffers that `fgets` delivers, and `stdin` by those from its copy, if
  -- `tmpfile` makes one.
  pub record World : Type 1 where
    pub Opd : Type 0
    pub open_entry :
        (baudmap : List Baudinfo) (target : List ℕ) (maxbaudval : ℤ) → Entry → Result (Option Opd)
    pub setmedia : Drv → Opd → Media → (portrait : Bool) → Option (Opd × Arena L)
    pub hres : Drv → Opd → ℕ
    pub defined : ℕ → Bool
    pub load_font : List ℕ → Option (Font L)
    pub path_max : ℕ
    pub font_path : Option (List ℕ)
    pub files : List ℕ → Option (List (List ℕ))
    pub stdin : Option (List (List ℕ))

  module _ (W : World) where
    open W use {Opd, defined, load_font, path_max, font_path, files, stdin}

    -- The drivers for the options.
    abbrev pub drivers_for : (baudmap : List Baudinfo) → Options → Drivers
    drivers_for baudmap o = record {
      Opd = Opd;
      Arena = Arena L;
      open_entry = W.open_entry baudmap o.target o.maxbaudval;
      setmedia = W.setmedia;
    }

    -- "pro" or "plus", by the horizontal resolution.
    unfoldable pub font_suffix : ℕ → List ℕ
    font_suffix hres = if ltb 700 hres then ascii "pro" else ascii "plus"

    -- The labels that were printed, the files that could not be read, and the arena.
    pub record Done : Type 0 where
      pub printed : List (Arena L)
      pub unread : List (List ℕ)
      pub arena : Arena L

    -- The loop over the files.
    unfoldable pub print_files : Options → Font L → Arena L → List (List ℕ) → Result Done
    print_files o font a [] = ok (record { printed = []; unread = []; arena = a })
    print_files o font a (name ∷ names) = elim (files name) [
      | none ↦ (do
        rest ← print_files o font a names
        ok (record rest { unread = name ∷ rest.unread }))
      | some lines ↦ (do
        (labels, b) ← render L (to_u32 o.numcopies) a lines font o.portrait o.squeeze false
        rest ← print_files o font b names
        ok (record rest { printed = labels ++ rest.printed }))
    ]

    -- The files, or the standard input when none is named.
    unfoldable pub print_input : Options → Font L → Arena L → List (List ℕ) → Result Done
    print_input o font a [] = elim stdin [
      | none ↦ ok (record { printed = []; unread = []; arena = a })
      | some lines ↦ (do
        (labels, b) ← render L (to_u32 o.numcopies) a lines font o.portrait o.squeeze false
        ok (record { printed = labels; unread = []; arena = b }))
    ]
    print_input o font a (name ∷ names) = print_files o font a (name ∷ names)

    -- How `main` ends: after `identity`, in a call of `Error`, or with what was printed and what
    -- `close_session` does.
    pub data Ending (D : Drivers) : Type 0 where
      identified : Ending D
      bad_scheme : Ending D
      no_session : Outcome D → Ending D
      no_font : Session D → Ending D
      finished : Done → List (Action D) → Ending D

    -- What `main` does with an open session, for the files `names`.
    unfoldable pub print_session :
        (baudmap : List Baudinfo) (o : Options)
        → Session (drivers_for baudmap o)
        → List (List ℕ)
        → Result (Ending (drivers_for baudmap o))
    print_session baudmap o sd names = do
      found ← locate_font load_font path_max font_path o.face (font_suffix (W.hres sd.drv sd.opd))
      elim found [
        | none ↦ ok (no_font sd)
        | some font ↦ (do
          d ← print_input o font sd.arena names
          let parts : Parts (drivers_for baudmap o) = record {
            device = some (sd.drv, sd.opd);
            arena = some d.arena;
          }
          ok (finished d (close_session (drivers_for baudmap o) (some parts))))
      ]

    -- `main`, for the files `names`; `old` is the table of rates that is in effect at the start.
    unfoldable pub main :
        (old : List Baudinfo) (o : Options) (names : List (List ℕ))
        → Result (Ending (drivers_for (set_baud_mapping defined o.scheme old).1 o))
    main old o names =
        let (good, baudmap) = set_baud_mapping defined o.scheme old in
        if o.identify then ok identified else if not good then ok bad_scheme else (do
          outcome ← open_session (drivers_for baudmap o) (some o.modelname) o.medianame o.portrait
          elim outcome [
            | bad_medium ↦ ok (no_session bad_medium)
            | no_printer ↦ ok (no_session no_printer)
            | refused closed ↦ ok (no_session (refused closed))
            | opened sd ↦ print_session baudmap o sd names
          ])
