-- ===== src/Tty/Baud/Inverse.antt =====
-- Looking up a baud rate and its symbol, and comparing symbols.
use slap.Base.{
  ℕ, suc, ◌+◌, ◌≡◌, refl, ◌∙◌, ap, Bool, true, false, ◌&&◌, ◌||◌, ◌==◌, ==_iff, ltb, List, [], ◌∷◌,
  some, if◌then◌else◌, get_elem?, arith, Bool-cases, inl, inr, All, ◌≢◌,
}
use slap.Base.Int.{pos, negsuc}
use slap.Tty.Baud.{
  Baudinfo, optional, generic_map, aix4_fastbaud_map, magma_fastbaud_map, BaudMapping, baudmap_none,
  baudmap_posix, baudmap_aix4_fast, baudmap_magma_fast, baudmap_other, set_baud_mapping, val2baud,
  baud2val, index_of, rate_below, baudcmp,
}

-- The rate, or the symbol, is in the table.
abbrev pub has_rate : List Baudinfo → ℕ → Bool
has_rate [] v = false
has_rate (e ∷ es) v = e.rate == v || has_rate es v

abbrev pub has_symbol : List Baudinfo → ℕ → Bool
has_symbol [] b = false
has_symbol (e ∷ es) b = e.symbol == b || has_symbol es b

abbrev AllPlain : List Baudinfo → Type 0
AllPlain t = All (λ e. e.symbol ≡ e.rate) t

optional-AllPlain :
    (defined : ℕ → Bool) (v : ℕ) (t : List Baudinfo) → AllPlain t → AllPlain (optional defined v t)
unfolding optional
optional-AllPlain defined v t h = elim (Bool-cases (defined v)) [
  | inl e ↦ rw e (refl, h)
  | inr e ↦ rw e h
]

AllPlain-val2baud :
    (t : List Baudinfo) (v : ℕ) → AllPlain t → has_rate t v ≡ true → val2baud t v ≡ v
unfolding val2baud
AllPlain-val2baud [] v h k = absurd (ground arith)
AllPlain-val2baud (e ∷ es) v (h, hs) k = ground (arith, AllPlain-val2baud es v hs)

AllPlain-baud2val :
    (t : List Baudinfo) (v : ℕ) → AllPlain t → has_rate t v ≡ true → baud2val t v ≡ v
unfolding baud2val
AllPlain-baud2val [] v h k = absurd (ground arith)
AllPlain-baud2val (e ∷ es) v (h, hs) k = ground (arith, AllPlain-baud2val es v hs)

generic_map-AllPlain : (defined : ℕ → Bool) → AllPlain (generic_map defined)
unfolding generic_map
generic_map-AllPlain defined =
    let o = optional-AllPlain defined in
    (
      refl,
      (
        refl,
        (
          refl,
          (o 57600 _ (
            refl,
            (
              refl,
              (
                refl,
                (
                  refl,
                  (
                    refl,
                    (
                      refl,
                      (
                        refl,
                        (
                          refl,
                          (
                            refl,
                            (
                              refl,
                              (
                                refl,
                                (
                                  refl,
                                  (o 76800 _ (
                                      o 115200 _
                                        (o 153600 _ (o 230400 _ (o 307200 _ (o 460800 _ tt)))))),
                                ),
                              ),
                            ),
                          ),
                        ),
                      ),
                    ),
                  ),
                ),
              ),
            ),
          )),
        ),
      ),
    )

-- The rates of `es` come back from the table `t`.
abbrev all_back : (t es : List Baudinfo) → Bool
all_back t [] = true
all_back t (e ∷ es) = baud2val t (val2baud t e.rate) == e.rate && all_back t es

all_back-lem :
    (t es : List Baudinfo) (v : ℕ)
    → all_back t es ≡ true
    → has_rate es v ≡ true
    → baud2val t (val2baud t v) ≡ v
all_back-lem t [] v h k = absurd (ground arith)
all_back-lem t (e ∷ es) v h k =
    grind (arith, all_back-lem t es v, ==_iff (baud2val t (val2baud t e.rate)) e.rate)

aix4_back : all_back aix4_fastbaud_map aix4_fastbaud_map ≡ true
unfolding aix4_fastbaud_map val2baud baud2val
aix4_back = refl

magma_back : all_back magma_fastbaud_map magma_fastbaud_map ≡ true
unfolding magma_fastbaud_map val2baud baud2val
magma_back = refl

-- The table that a mapping puts into effect, when the generic one was in effect before.
abbrev pub table : (defined : ℕ → Bool) → BaudMapping → List Baudinfo
table defined scheme = (set_baud_mapping defined scheme (generic_map defined)).1

generic_back :
    (defined : ℕ → Bool) (v : ℕ)
    → has_rate (generic_map defined) v ≡ true
    → baud2val (generic_map defined) (val2baud (generic_map defined) v) ≡ v
generic_back defined v h =
    let p = generic_map-AllPlain defined in
    ap (baud2val (generic_map defined)) (AllPlain-val2baud _ v p h) ∙ AllPlain-baud2val _ v p h

-- Whatever mapping is in effect, and whatever symbols the system defines: a rate of the table has a
-- symbol that stands for this rate and no other.
pub val2baud-baud2val :
    (defined : ℕ → Bool) (scheme : BaudMapping) (v : ℕ)
    → has_rate (table defined scheme) v ≡ true
    → baud2val (table defined scheme) (val2baud (table defined scheme) v) ≡ v
unfolding set_baud_mapping
val2baud-baud2val defined baudmap_none v h = generic_back defined v h
val2baud-baud2val defined baudmap_posix v h = generic_back defined v h
val2baud-baud2val defined baudmap_other v h = generic_back defined v h
val2baud-baud2val defined baudmap_aix4_fast v h = all_back-lem _ _ v aix4_back h
val2baud-baud2val defined baudmap_magma_fast v h = all_back-lem _ _ v magma_back h

index_of-found :
    (t : List Baudinfo) (b : ℕ)
    → has_symbol t b ≡ true
    → (e : Baudinfo) × (get_elem? t (index_of t b) ≡ some e)
      × (e.symbol ≡ b)
      × (e.rate ≡ baud2val t b)
unfolding index_of baud2val
index_of-found [] b h = absurd (ground arith)
index_of-found (e ∷ es) b h = elim (Bool-cases (e.symbol == b)) [
  | inl same ↦
      let eq : (b == e.symbol) ≡ true = ground arith in
      rw (same, eq) (e, refl, (==_iff e.symbol b).0 same, refl)
  | inr differ ↦
      let ne : (b == e.symbol) ≡ false = ground arith in
      let r = index_of-found es b (ground arith) in
      let n : index_of es b + 1 ≡ suc (index_of es b) = omega arith in rw (differ, ne, n) r
]

-- The entry where the search of `baudcmp` ends is the symbol's own, so symbols with one index are
-- one.
index_of-injective :
    (t : List Baudinfo) (x y : ℕ)
    → has_symbol t x ≡ true
    → has_symbol t y ≡ true
    → index_of t x ≡ index_of t y
    → x ≡ y
unfolding index_of
index_of-injective [] x y hx hy same = absurd (ground arith)
index_of-injective (e ∷ es) x y hx hy same = ground (arith, index_of-injective es x y)

-- The symbols of a table compare as the rates that they stand for: 0 for the same symbol, else -1
-- or 1.
pub baudcmp-order :
    (t : List Baudinfo) (x y : ℕ)
    → has_symbol t x ≡ true
    → has_symbol t y ≡ true
    → baudcmp t x y
      ≡ (if x == y then pos 0 else if ltb (baud2val t x) (baud2val t y) then negsuc 0 else pos 1)
unfolding baudcmp rate_below
baudcmp-order t x y hx hy =
    let (d, gd, sd, rd) = index_of-found t x hx in
    let (e, ge, se, re) = index_of-found t y hy in
    elim (Bool-cases (x == y)) [
      | inl same ↦
          let eq : x ≡ y = (==_iff x y).0 same in
          let i : (index_of t x == index_of t y) ≡ true = (==_iff _ _).1 (ap (index_of t) eq) in
          rw (same, i)
      | inr differ ↦
          let ne : x ≢ y = ground arith in
          let apart : index_of t x ≢ index_of t y =
            λ same. ne (index_of-injective t x y hx hy same) in
          let i : (index_of t x == index_of t y) ≡ false = ground arith in
          rw (differ, i, gd, ge, rd, re)
    ]
