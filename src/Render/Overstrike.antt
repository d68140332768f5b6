-- ===== src/Render/Overstrike.antt =====
-- The first loop over a buffer in `render1` of slap/render.c: it takes the backspaces out, in
-- place.
use slap.Base.{
  ℕ, zero, suc, ◌+◌, ◌-◌, ◌≡◌, Bool, true, false, List, [], ◌∷◌, ◌==◌, length, get_or, set, take,
}
use slap.Base.Result.{Result, ok, err, wild_pointer, ◌>>=◌}
pub mod Stack

abbrev pub backspace : ℕ
backspace = 8

-- for (p = q = buf; *p; ++p), with `p` and `q` as indices and `n` bytes left to read. A step of
-- `q` to before the buffer ends the run, since the next byte is written there.
unfoldable pub overstrike_loop : (n p q : ℕ) → List ℕ → Result (List ℕ × ℕ)
overstrike_loop zero p q buf = ok (buf, q)
overstrike_loop (suc n) p q buf = elim (get_or buf p 0 == backspace) [
  | true ↦ elim q [ zero ↦ err wild_pointer | suc q' ↦ overstrike_loop n (p + 1) q' buf ]
  | false ↦ overstrike_loop n (p + 1) (q + 1) (set buf q (get_or buf p 0))
]

-- The text that is left: the terminator is written at `q`.
unfoldable pub overstrike : List ℕ → Result (List ℕ)
overstrike buf = do (out, q) ← overstrike_loop (length buf) 0 0 buf; ok (take q out)
