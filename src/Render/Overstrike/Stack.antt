-- ===== src/Render/Overstrike/Stack.antt =====
-- The in-place loop against a stack that each backspace pops.
use mathlib.Core.List.{reverse, reverse-append}
use slap.Base.{
  ℕ, zero, suc, ◌+◌, ◌≤◌, ◌<◌, ◌≡◌, refl, ap, sym, ◌∙◌, true, false, List, [], ◌∷◌, ◌++◌, ◌==◌,
  length, get_or, set, take, drop, arith, Bool-cases, length-append, length-set, inl, inr,
}
use slap.Base.Result.{Result, ok, err, wild_pointer, ◌>>=◌}
use slap.Render.Overstrike.{backspace, overstrike_loop, overstrike}

-- The text with each backspace taking away the byte before it. The stack holds the bytes that are
-- left so far, the last one on top; a backspace with nothing to take away is an error.
unfoldable pub erased : (stack : List ℕ) → List ℕ → Result (List ℕ)
erased stack [] = ok (reverse stack)
erased stack (c ∷ cs) = elim (c == backspace) [
  | true ↦ elim stack [ [] ↦ err wild_pointer | x ∷ xs ↦ erased xs cs ]
  | false ↦ erased (c ∷ stack) cs
]

get_or-drop :
    (p : ℕ) (buf : List ℕ) {c : ℕ} {cs : List ℕ} → drop p buf ≡ c ∷ cs → get_or buf p 0 ≡ c
get_or-drop zero [] e = cc
get_or-drop zero (x ∷ buf) e = cc
get_or-drop (suc p) [] e = cc
get_or-drop (suc p) (x ∷ buf) e = get_or-drop p buf e

drop-suc :
    (p : ℕ) (buf : List ℕ) {c : ℕ} {cs : List ℕ} → drop p buf ≡ c ∷ cs → drop (suc p) buf ≡ cs
drop-suc zero [] e = cc
drop-suc zero (x ∷ buf) e = cc
drop-suc (suc p) [] e = cc
drop-suc (suc p) (x ∷ buf) e = drop-suc p buf e

take-set :
    (q : ℕ) (buf : List ℕ) (c : ℕ)
    → q < length buf
    → take (suc q) (set buf q c) ≡ take q buf ++ c ∷ []
take-set q [] c h = absurd (omega arith)
take-set zero (x ∷ buf) c h = refl
take-set (suc q) (x ∷ buf) c h = ap (◌∷◌ x) (take-set q buf c (omega arith))

drop-set : (q p : ℕ) (buf : List ℕ) (c : ℕ) → q < p → drop p (set buf q c) ≡ drop p buf
drop-set q zero buf c h = elim h [ ]
drop-set q (suc p) [] c h = refl
drop-set zero (suc p) (x ∷ buf) c h = refl
drop-set (suc q) (suc p) (x ∷ buf) c h = drop-set q p buf c (omega arith)

take-take : (q : ℕ) (buf : List ℕ) → take q (take (suc q) buf) ≡ take q buf
take-take zero buf = refl
take-take (suc q) [] = refl
take-take (suc q) (x ∷ buf) = ap (◌∷◌ x) (take-take q buf)

take-append : (xs : List ℕ) (x : ℕ) → take (length xs) (xs ++ x ∷ []) ≡ xs
take-append [] x = refl
take-append (y ∷ xs) x = ap (◌∷◌ y) (take-append xs x)

length-reverse : (xs : List ℕ) → length (reverse xs) ≡ length xs
length-reverse [] = refl
length-reverse (x ∷ xs) =
    rw (reverse-append (x ∷ []) xs, length-append) (omega (arith, length-reverse xs))

take_pop :
    (q : ℕ) (buf : List ℕ) (x : ℕ) (xs : List ℕ)
    → q ≡ length xs
    → take (suc q) buf ≡ reverse (x ∷ xs)
    → take q buf ≡ reverse xs
take_pop q buf x xs h e =
    let n : length (reverse xs) ≡ q = length-reverse xs ∙ sym h in
    sym (take-take q buf)
    ∙ ap (take q) (e ∙ reverse-append (x ∷ []) xs)
    ∙ ap (λ k. take k (reverse xs ++ x ∷ [])) (sym n)
    ∙ take-append (reverse xs) x

drop-add_one :
    (p : ℕ) (buf : List ℕ) {c : ℕ} {cs : List ℕ} → drop p buf ≡ c ∷ cs → drop (p + 1) buf ≡ cs
drop-add_one p buf d = let e : p + 1 ≡ suc p = omega arith in rw e (drop-suc p buf d)

-- Writing the byte read at `p` to `q` leaves the unread bytes, and adds it to the text.
module _ (p q : ℕ) where
  push_rest :
      (buf : List ℕ) {c : ℕ} {cs : List ℕ}
      → drop p buf ≡ c ∷ cs
      → q ≤ p
      → drop (p + 1) (set buf q c) ≡ cs
  push_rest buf {c} d le = drop-set q (p + 1) buf c (omega arith) ∙ drop-add_one p buf d

  push_length :
      (c : ℕ) (buf : List ℕ) (m : ℕ) → p + suc m ≡ length buf → p + 1 + m ≡ length (set buf q c)
  push_length c buf m len = rw length-set (omega arith)

  push_take :
      (buf stack : List ℕ) (c m : ℕ)
      → take q buf ≡ reverse stack
      → p + suc m ≡ length buf
      → q ≤ p
      → take (q + 1) (set buf q c) ≡ reverse (c ∷ stack)
  push_take buf stack c m t len le =
      let e : q + 1 ≡ suc q = omega arith in
      rw (e, take-set q buf c (omega arith), t, reverse-append (c ∷ []) stack)

-- One round of the loop, and one step of the stack.
module _ {c : ℕ} (n p q : ℕ) (buf : List ℕ) (g : get_or buf p 0 ≡ c) where
  loop_pop :
      (c == backspace) ≡ true
      → overstrike_loop (suc n) p (suc q) buf ≡ overstrike_loop n (p + 1) q buf
  unfolding overstrike_loop
  loop_pop e = ground arith

  loop_push :
      (c == backspace) ≡ false
      → overstrike_loop (suc n) p q buf ≡ overstrike_loop n (p + 1) (q + 1) (set buf q c)
  unfolding overstrike_loop
  loop_push e = ground arith

module _ (c : ℕ) (cs : List ℕ) where
  erased_pop :
      (x : ℕ) (xs : List ℕ) → (c == backspace) ≡ true → erased (x ∷ xs) (c ∷ cs) ≡ erased xs cs
  unfolding erased
  erased_pop x xs e = ground arith

  erased_push :
      (stack : List ℕ) → (c == backspace) ≡ false → erased stack (c ∷ cs) ≡ erased (c ∷ stack) cs
  unfolding erased
  erased_push stack e = ground arith

  both_fail :
      (p : ℕ) (buf : List ℕ)
      → get_or buf p 0 ≡ c
      → (c == backspace) ≡ true
      → (do (out, k) ← overstrike_loop (length (c ∷ cs)) p 0 buf; ok (take k out))
        ≡ erased [] (c ∷ cs)
  unfolding overstrike_loop erased
  both_fail p buf g e = ground arith

overstrike_loop-erased :
    (rest : List ℕ) (p q : ℕ) (buf stack : List ℕ)
    → drop p buf ≡ rest
    → q ≡ length stack
    → q ≤ p
    → p + length rest ≡ length buf
    → take q buf ≡ reverse stack
    → (do (out, k) ← overstrike_loop (length rest) p q buf; ok (take k out)) ≡ erased stack rest
unfolding overstrike_loop erased
overstrike_loop-erased [] p q buf stack d n le len t = ap ok t
overstrike_loop-erased (c ∷ cs) p zero buf (x ∷ xs) d n le len t = absurd (omega arith)
overstrike_loop-erased (c ∷ cs) p (suc q) buf [] d n le len t = absurd (omega arith)
overstrike_loop-erased (c ∷ cs) p zero buf [] d n le len t =
    let g = get_or-drop p buf d in
    elim (Bool-cases (c == backspace)) [
      | inl e ↦ both_fail c cs p buf g e
      | inr e ↦
          rw (loop_push (length cs) p 0 buf g e, erased_push c cs [] e)
            (overstrike_loop-erased cs (p + 1) (0 + 1) (set buf 0 c) (c ∷ [])
              (push_rest p 0 buf d (omega arith)) refl (omega arith) (push_length p 0 c buf _ len)
              (push_take p 0 buf [] c _ t len (omega arith)))
    ]
overstrike_loop-erased (c ∷ cs) p (suc q) buf (x ∷ xs) d n le len t =
    let g = get_or-drop p buf d in
    elim (Bool-cases (c == backspace)) [
      | inl e ↦
          rw (loop_pop (length cs) p q buf g e, erased_pop c cs x xs e)
            (overstrike_loop-erased cs (p + 1) q buf xs (drop-add_one p buf d) (omega arith)
              (omega arith) (omega arith) (take_pop q buf x xs (omega arith) t))
      | inr e ↦
          rw (loop_push (length cs) p (suc q) buf g e, erased_push c cs (x ∷ xs) e)
            (overstrike_loop-erased cs (p + 1) (suc q + 1) (set buf (suc q) c) (c ∷ x ∷ xs)
              (push_rest p (suc q) buf d (omega arith)) (omega arith) (omega arith)
              (push_length p (suc q) c buf _ len)
              (push_take p (suc q) buf (x ∷ xs) c _ t len (omega arith)))
    ]

-- The in-place loop leaves the text with each backspace taking away the byte before it, and runs
-- off the front of the buffer exactly when some backspace has no byte to take away. The comment on
-- the renderer and the manual page say that the next byte is printed over the last one, and that a
-- backspace at the start of a line has no effect.
pub overstrike-erased : (buf : List ℕ) → overstrike buf ≡ erased [] buf
unfolding overstrike
overstrike-erased buf =
    overstrike_loop-erased buf 0 0 buf [] refl refl (omega arith) (omega arith) refl

-- Nothing is added to the text.
pub length-erased :
    (buf stack text : List ℕ) → erased stack buf ≡ ok text → length text ≤ length stack + length buf
unfolding erased
length-erased [] stack text e = omega (arith, length-reverse stack, ap length (ok_eq e))
  where
    ok_eq : {xs ys : List ℕ} → ok xs ≡ ok ys → xs ≡ ys
    ok_eq p = cc
length-erased (c ∷ cs) [] text e = ground (arith, length-erased cs (c ∷ []) text)
length-erased (c ∷ cs) (x ∷ xs) text e =
    ground (arith, length-erased cs xs text, length-erased cs (c ∷ x ∷ xs) text)
