-- ===== src/Tty/Baud.antt =====
-- The mappings between baud rates and the symbols of termios: the tables of slap/port.c,
-- `set_baud_mapping`, `val2baud`, `baud2val` and `baudcmp`. A symbol is named by the rate in its
-- name, B9600 by 9600, and the names in the tables, which only messages use, are left out.
pub mod Inverse
use slap.Base.{
  ℕ, zero, suc, ◌+◌, Bool, true, false, Option, none, some, List, [], ◌∷◌, ◌==◌, ltb, if◌then◌else◌,
  get_elem?,
}
use slap.Base.Int.{ℤ, pos, negsuc}

-- `BAUDINFO`
pub record Baudinfo : Type 0 where
  pub rate : ℕ
  pub symbol : ℕ

abbrev pub entry : (rate symbol : ℕ) → Baudinfo
entry rate symbol = record { rate = rate; symbol = symbol }

-- A symbol that stands for its own rate.
abbrev pub plain : ℕ → Baudinfo
plain rate = entry rate rate

-- A symbol that not all systems define.
unfoldable pub optional : (defined : ℕ → Bool) → ℕ → List Baudinfo → List Baudinfo
optional defined rate rest = if defined rate then plain rate ∷ rest else rest

-- The table for POSIX, without its last entry, which ends the search.
unfoldable pub generic_map : (defined : ℕ → Bool) → List Baudinfo
generic_map defined =
    plain 9600
    ∷ plain 19200
    ∷ plain 38400
    ∷ optional defined 57600 (
        plain 0
        ∷ plain 50
        ∷ plain 75
        ∷ plain 110
        ∷ plain 134
        ∷ plain 150
        ∷ plain 200
        ∷ plain 300
        ∷ plain 600
        ∷ plain 1200
        ∷ plain 2400
        ∷ plain 4800
        ∷ optional defined 76800 (
            optional defined 115200 (
              optional defined 153600
                (optional defined 230400 (optional defined 307200 (optional defined 460800 []))))))

unfoldable pub aix4_fastbaud_map : List Baudinfo
aix4_fastbaud_map =
    plain 9600
    ∷ plain 19200
    ∷ plain 38400
    ∷ entry 57600 50
    ∷ plain 0
    ∷ plain 75
    ∷ plain 110
    ∷ plain 134
    ∷ plain 150
    ∷ plain 200
    ∷ plain 300
    ∷ plain 600
    ∷ plain 1200
    ∷ plain 2400
    ∷ plain 4800
    ∷ []

unfoldable pub magma_fastbaud_map : List Baudinfo
magma_fastbaud_map =
    plain 9600
    ∷ plain 19200
    ∷ plain 38400
    ∷ entry 57600 75
    ∷ plain 0
    ∷ plain 110
    ∷ plain 150
    ∷ plain 300
    ∷ plain 600
    ∷ plain 4800
    ∷ entry 56000 50
    ∷ entry 64000 134
    ∷ entry 76800 200
    ∷ entry 96000 1200
    ∷ entry 115200 1800
    ∷ entry 128000 2400
    ∷ []

-- `BAUD_MAPPING`, with another number for one that is no value of it.
pub data BaudMapping : Type 0 where
  baudmap_none baudmap_posix baudmap_aix4_fast baudmap_magma_fast baudmap_other : BaudMapping

-- The table in effect afterwards, and whether the mapping is known; `old` is the one before.
unfoldable pub set_baud_mapping :
    (defined : ℕ → Bool) → BaudMapping → (old : List Baudinfo) → Bool × List Baudinfo
set_baud_mapping defined baudmap_magma_fast old = (true, magma_fastbaud_map)
set_baud_mapping defined baudmap_aix4_fast old = (true, aix4_fastbaud_map)
set_baud_mapping defined baudmap_none old = (true, generic_map defined)
set_baud_mapping defined baudmap_posix old = (true, generic_map defined)
set_baud_mapping defined baudmap_other old = (false, old)

unfoldable pub val2baud : (baudmap : List Baudinfo) → ℕ → ℕ
val2baud [] val = 0
val2baud (e ∷ es) val = if e.rate == val then e.symbol else val2baud es val

unfoldable pub baud2val : (baudmap : List Baudinfo) → ℕ → ℕ
baud2val [] b = 0
baud2val (e ∷ es) b = if e.symbol == b then e.rate else baud2val es b

-- The index where the search of `baudcmp` ends: of the first entry with the symbol, or of the
-- entry that ends the table.
unfoldable pub index_of : (baudmap : List Baudinfo) → ℕ → ℕ
index_of [] b = 0
index_of (e ∷ es) b = if b == e.symbol then 0 else index_of es b + 1

-- `baudmap[i].n < baudmap[j].n`, where the entry that ends the table has -1.
unfoldable pub rate_below : Option Baudinfo → Option Baudinfo → Bool
rate_below none none = false
rate_below none (some e) = true
rate_below (some d) none = false
rate_below (some d) (some e) = ltb d.rate e.rate

unfoldable pub baudcmp : (baudmap : List Baudinfo) → (x y : ℕ) → ℤ
baudcmp baudmap x y =
    let i = index_of baudmap x in
    let j = index_of baudmap y in
    if i == j
    then pos 0
    else if rate_below (get_elem? baudmap i) (get_elem? baudmap j)
    then negsuc 0
    else pos 1
