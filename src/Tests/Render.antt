-- ===== src/Tests/Render.antt =====
-- The renderer at concrete inputs.
use slap.Base.{
  ℕ, ◌<◌, ◌≤◌, ◌+◌, ◌-◌, ◌*◌, ◌≡◌, ◌/◌, refl, ◌%◌, true, false, List, [], ◌∷◌, arith, All,
  All-append, replicate,
}
use slap.Base.Int.{◌+ℤ◌, ◌-ℤ◌}
use slap.Base.Result.{ok, err, assertion, Returns}
use slap.Font.{Font, no_glyph, glyph_of}
use slap.Render.Glyph.{Arena, put_glyph, fits, start_col}
use slap.Render.Glyph.Drawn.{Drawn, HasDot}
use slap.Render.Glyph.Place.{IsSound}
use slap.Render.Glyph.Overhang.{put_glyph_overhang}
use slap.Render.Overstrike.{overstrike, overstrike_loop}
use slap.Render.Overstrike.Stack.{erased, overstrike-erased}
use slap.Render.Box.{boxit, box_rows, box_cols}
use slap.Render.Box.Outline.{Marked, outline, boxit-Marked}
use slap.Render.Page.{Job, tab_loop, tab_rounds, render1, render, blank, job, find_spacewidth}
use slap.Render.Page.Tab.{tab_loop-stop}
use slap.Render.Page.Sound.{IsPlain, IsFit}
use slap.Render.Page.Labels.{IsErasable, job_for, render1-labels}
use slap.Render.Page.Copies.{copies, render-copies}
use slap.Tests.Samples.{
  lib, block, block_glyph, hanging_glyph, font, label, All-replicate, All-get_or,
}

block-IsSound : IsSound lib block_glyph
unfolding ◌+ℤ◌ ◌-ℤ◌
block-IsSound = record {
  ascent_short = omega arith;
  descent_short = omega arith;
  lbearing_short = omega arith;
  rbearing_short = omega arith;
  tall = ground arith;
  wide = ground arith;
  bm_height = refl;
  bm_width = refl;
}

overstrike-erased_example : overstrike (65 ∷ 66 ∷ 8 ∷ 67 ∷ []) ≡ erased [] (65 ∷ 66 ∷ 8 ∷ 67 ∷ [])
overstrike-erased_example = overstrike-erased (65 ∷ 66 ∷ 8 ∷ 67 ∷ [])

overstrike_run : overstrike (65 ∷ 66 ∷ 8 ∷ 67 ∷ []) ≡ ok (65 ∷ 67 ∷ [])
unfolding overstrike overstrike_loop
overstrike_run = refl

tab_loop-stop_example :
    let stop = 31 + 3 * (8 - (31 / 3) % 8) in
    (tab_loop tab_rounds 3 31 ≡ ok stop)
    × (31 < stop)
    × (stop ≤ 31 + 3 * 8)
    × (stop % (8 * 3) ≡ 31 % 3)
tab_loop-stop_example = tab_loop-stop 3 31 (omega arith) (omega arith)

put_glyph_overhang_example : put_glyph lib label 5 21 10 20 hanging_glyph ≡ err assertion
unfolding ◌+ℤ◌ ◌-ℤ◌ fits start_col
put_glyph_overhang_example =
    put_glyph_overhang lib hanging_glyph 5 21 10 20 label 0 1 (omega arith) (omega arith) refl
      (omega arith) (omega arith) (omega arith) refl (omega arith)

boxit-Marked_example : Marked lib block (boxit lib block) (outline lib 3 2)
boxit-Marked_example =
    boxit-Marked lib block (omega arith) (omega arith) (omega arith) (omega arith)

block-IsPlain : IsPlain lib 16 block_glyph
block-IsPlain = record {
  sound = block-IsSound;
  lbearing_nonneg = ground arith;
  width_nonneg = ground arith;
  advance = omega arith;
}

no_glyph-IsPlain : IsPlain lib 16 (no_glyph lib)
unfolding ◌+ℤ◌ ◌-ℤ◌
no_glyph-IsPlain = record {
  sound = record {
    ascent_short = omega arith;
    descent_short = omega arith;
    lbearing_short = omega arith;
    rbearing_short = omega arith;
    tall = ground arith;
    wide = ground arith;
    bm_height = refl;
    bm_width = refl;
  };
  lbearing_nonneg = ground arith;
  width_nonneg = ground arith;
  advance = omega arith;
}

glyphs-IsPlain : (c : ℕ) → IsPlain lib 16 (glyph_of lib font c)
glyphs-IsPlain c =
    All-get_or (IsPlain lib 16) (Font.glyphs font) (c % 256) (no_glyph lib)
      (All-append (IsPlain lib 16) (replicate 32 (no_glyph lib)) (replicate 224 block_glyph)
        (All-replicate (IsPlain lib 16) 32 (no_glyph lib) no_glyph-IsPlain)
        (All-replicate (IsPlain lib 16) 224 block_glyph block-IsPlain))
      no_glyph-IsPlain

-- The two lines of a text, one struck over.
abbrev pub text : List (List ℕ)
text = (65 ∷ 66 ∷ 8 ∷ 9 ∷ 67 ∷ 10 ∷ []) ∷ (68 ∷ 12 ∷ []) ∷ []

text-IsErasable : All IsErasable text
unfolding erased
text-IsErasable = ((_, refl), ((_, refl), tt))

abbrev test_job : Job lib
test_job = job_for lib 16 2 1 label font true false true

job-IsFit : IsFit lib 16 2 1 test_job
unfolding job find_spacewidth blank boxit box_rows box_cols
job-IsFit = record {
  ascent_eq = refl;
  descent_eq = refl;
  fits = omega arith;
  height_small = omega arith;
  width_small = omega arith;
  glyphs = glyphs-IsPlain;
  space_pos = omega arith;
  space_step = omega arith;
}

text-labels : Returns (render1 lib label text font true false true) (λ (labels, b).
    All (λ (x : Arena lib). HasDot lib (Job.vheight test_job) (Job.vwidth test_job) x.bm) labels)
text-labels =
    render1-labels lib 16 2 1 label text font true false true job-IsFit text-IsErasable
      (omega arith)

-- The same without a box.
abbrev pub unboxed_job : Job lib
unboxed_job = job_for lib 16 2 1 label font true false false

unboxed_job-IsFit : IsFit lib 16 2 1 unboxed_job
unfolding job find_spacewidth blank
unboxed_job-IsFit = record {
  ascent_eq = refl;
  descent_eq = refl;
  fits = omega arith;
  height_small = omega arith;
  width_small = omega arith;
  glyphs = glyphs-IsPlain;
  space_pos = omega arith;
  space_step = omega arith;
}

pub unboxed_labels : Returns (render1 lib label text font true false false) (λ (labels, b).
    All
      (λ (x : Arena lib). HasDot lib (Job.vheight unboxed_job) (Job.vwidth unboxed_job) x.bm)
      labels)
unboxed_labels =
    render1-labels lib 16 2 1 label text font true false false unboxed_job-IsFit text-IsErasable
      (omega arith)

render1-labels_example : Returns (render1 lib label text font true false true) (λ (labels, b).
    All (λ (x : Arena lib). HasDot lib (Job.vheight test_job) (Job.vwidth test_job) x.bm) labels)
render1-labels_example =
    render1-labels lib 16 2 1 label text font true false true job-IsFit text-IsErasable
      (omega arith)

render-copies_example :
    render lib 3 label text font true false true
    ≡ ok (copies lib 3 (Returns.value text-labels).0, (Returns.value text-labels).1)
render-copies_example =
    render-copies lib 2 label (Returns.value text-labels).1 (Returns.value text-labels).0 text font
      true false true (Returns.equals text-labels)
