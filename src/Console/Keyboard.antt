-- ===== src/Console/Keyboard.antt =====
-- The keyboard: kbd_proc_data of jos/kern/console.c and its tables.
use cs444_operating_systems.Base.{
  ℕ, zero, suc, ◌+◌, ◌-◌, ◌^◌, Option, none, some, not, ◌&&◌, ◌||◌, List, [], ◌∷◌, ◌==◌, leb, ltb,
  if◌then◌else◌, bit_and, bit_or,
}
use Prim.Native.Nat.{bit_xor}

abbrev pub shift_key : ℕ
shift_key = 1

abbrev pub ctl_key : ℕ
ctl_key = 2

abbrev pub alt_key : ℕ
alt_key = 4

abbrev pub capslock : ℕ
capslock = 8

abbrev pub e0esc : ℕ
e0esc = 64

-- An entry of a table that starts at index `first`; all others are 0.
abbrev pub nth : List ℕ → ℕ → ℕ
nth [] i = 0
nth (x ∷ xs) zero = x
nth (x ∷ xs) (suc i) = nth xs i

abbrev pub table_at : (first : ℕ) → List ℕ → ℕ → ℕ
table_at first xs i = if ltb i first then 0 else nth xs (i - first)

unfoldable pub shiftcode : ℕ → ℕ
shiftcode data' =
    if data' == 0x1D || data' == 0x9D
    then ctl_key
    else if data' == 0x2A || data' == 0x36
    then shift_key
    else if data' == 0x38 || data' == 0xB8
    then alt_key
    else 0

unfoldable pub togglecode : ℕ → ℕ
togglecode data' =
    if data' == 0x3A
    then capslock
    else if data' == 0x45
    then 16
    else if data' == 0x46
    then 32
    else 0

-- The entries of the tables from 0 to 0x53, and from 0x97 on.
abbrev pub normalmap_keys : List ℕ
normalmap_keys =
    0 ∷ 27 ∷ 49 ∷ 50 ∷ 51 ∷ 52 ∷ 53 ∷ 54 ∷ 55 ∷ 56 ∷ 57 ∷ 48 ∷ 45 ∷ 61 ∷ 8 ∷ 9 ∷ 113 ∷ 119 ∷ 101
    ∷ 114 ∷ 116 ∷ 121 ∷ 117 ∷ 105 ∷ 111 ∷ 112 ∷ 91 ∷ 93 ∷ 10 ∷ 0 ∷ 97 ∷ 115 ∷ 100 ∷ 102 ∷ 103 ∷ 104
    ∷ 106 ∷ 107 ∷ 108 ∷ 59 ∷ 39 ∷ 96 ∷ 0 ∷ 92 ∷ 122 ∷ 120 ∷ 99 ∷ 118 ∷ 98 ∷ 110 ∷ 109 ∷ 44 ∷ 46 ∷ 47
    ∷ 0 ∷ 42 ∷ 0 ∷ 32 ∷ 0 ∷ 0 ∷ 0 ∷ 0 ∷ 0 ∷ 0 ∷ 0 ∷ 0 ∷ 0 ∷ 0 ∷ 0 ∷ 0 ∷ 0 ∷ 55 ∷ 56 ∷ 57 ∷ 45 ∷ 52
    ∷ 53 ∷ 54 ∷ 43 ∷ 49 ∷ 50 ∷ 51 ∷ 48 ∷ 46 ∷ []

abbrev pub shiftmap_keys : List ℕ
shiftmap_keys =
    0 ∷ 27 ∷ 33 ∷ 64 ∷ 35 ∷ 36 ∷ 37 ∷ 94 ∷ 38 ∷ 42 ∷ 40 ∷ 41 ∷ 95 ∷ 43 ∷ 8 ∷ 9 ∷ 81 ∷ 87 ∷ 69 ∷ 82
    ∷ 84 ∷ 89 ∷ 85 ∷ 73 ∷ 79 ∷ 80 ∷ 123 ∷ 125 ∷ 10 ∷ 0 ∷ 65 ∷ 83 ∷ 68 ∷ 70 ∷ 71 ∷ 72 ∷ 74 ∷ 75 ∷ 76
    ∷ 58 ∷ 34 ∷ 126 ∷ 0 ∷ 124 ∷ 90 ∷ 88 ∷ 67 ∷ 86 ∷ 66 ∷ 78 ∷ 77 ∷ 60 ∷ 62 ∷ 63 ∷ 0 ∷ 42 ∷ 0 ∷ 32
    ∷ 0 ∷ 0 ∷ 0 ∷ 0 ∷ 0 ∷ 0 ∷ 0 ∷ 0 ∷ 0 ∷ 0 ∷ 0 ∷ 0 ∷ 0 ∷ 55 ∷ 56 ∷ 57 ∷ 45 ∷ 52 ∷ 53 ∷ 54 ∷ 43 ∷ 49
    ∷ 50 ∷ 51 ∷ 48 ∷ 46 ∷ []

abbrev pub ctlmap_keys : List ℕ
ctlmap_keys =
    0 ∷ 0 ∷ 0 ∷ 0 ∷ 0 ∷ 0 ∷ 0 ∷ 0 ∷ 0 ∷ 0 ∷ 0 ∷ 0 ∷ 0 ∷ 0 ∷ 0 ∷ 0 ∷ 17 ∷ 23 ∷ 5 ∷ 18 ∷ 20 ∷ 25 ∷ 21
    ∷ 9 ∷ 15 ∷ 16 ∷ 0 ∷ 0 ∷ 13 ∷ 0 ∷ 1 ∷ 19 ∷ 4 ∷ 6 ∷ 7 ∷ 8 ∷ 10 ∷ 11 ∷ 12 ∷ 0 ∷ 0 ∷ 0 ∷ 0 ∷ 28 ∷ 26
    ∷ 24 ∷ 3 ∷ 22 ∷ 2 ∷ 14 ∷ 13 ∷ 0 ∷ 0 ∷ 239 ∷ []

abbrev pub extended_keys : List ℕ
extended_keys =
    0 ∷ 0 ∷ 0 ∷ 0 ∷ 0 ∷ 10 ∷ 0 ∷ 0 ∷ 0 ∷ 0 ∷ 0 ∷ 0 ∷ 0 ∷ 0 ∷ 0 ∷ 0 ∷ 0 ∷ 0 ∷ 0 ∷ 0 ∷ 0 ∷ 0 ∷ 0 ∷ 0
    ∷ 0 ∷ 0 ∷ 0 ∷ 0 ∷ 0 ∷ 0 ∷ 47 ∷ 0 ∷ 0 ∷ 0 ∷ 0 ∷ 0 ∷ 0 ∷ 0 ∷ 0 ∷ 0 ∷ 0 ∷ 0 ∷ 0 ∷ 0 ∷ 0 ∷ 0 ∷ 0 ∷ 0
    ∷ 224 ∷ 226 ∷ 230 ∷ 0 ∷ 228 ∷ 0 ∷ 229 ∷ 0 ∷ 225 ∷ 227 ∷ 231 ∷ 232 ∷ 233 ∷ []

abbrev pub ctl_extended_keys : List ℕ
ctl_extended_keys =
    224 ∷ 0 ∷ 0 ∷ 0 ∷ 0 ∷ 0 ∷ 0 ∷ 0 ∷ 0 ∷ 0 ∷ 0 ∷ 0 ∷ 0 ∷ 0 ∷ 0 ∷ 0 ∷ 0 ∷ 0 ∷ 0 ∷ 0 ∷ 0 ∷ 0 ∷ 0 ∷ 0
    ∷ 0 ∷ 0 ∷ 0 ∷ 0 ∷ 0 ∷ 0 ∷ 239 ∷ 0 ∷ 0 ∷ 0 ∷ 0 ∷ 0 ∷ 0 ∷ 0 ∷ 0 ∷ 0 ∷ 0 ∷ 0 ∷ 0 ∷ 0 ∷ 0 ∷ 0 ∷ 0
    ∷ 0 ∷ 0 ∷ 226 ∷ 230 ∷ 0 ∷ 228 ∷ 0 ∷ 229 ∷ 0 ∷ 225 ∷ 227 ∷ 231 ∷ 232 ∷ 233 ∷ []

-- normalmap, shiftmap and ctlmap
unfoldable pub normalmap : ℕ → ℕ
normalmap data' =
    if ltb data' 0x97 then table_at 0 normalmap_keys data' else table_at 0x97 extended_keys data'

unfoldable pub shiftmap : ℕ → ℕ
shiftmap data' =
    if ltb data' 0x97 then table_at 0 shiftmap_keys data' else table_at 0x97 extended_keys data'

unfoldable pub ctlmap : ℕ → ℕ
ctlmap data' =
    if ltb data' 0x97 then table_at 0 ctlmap_keys data' else table_at 0x97 ctl_extended_keys data'

-- `charcode[shift & (CTL | SHIFT)][data]`
unfoldable pub charcode : (shift data' : ℕ) → ℕ
charcode shift data' =
    let which = bit_and shift (bit_or ctl_key shift_key) in
    if which == 0 then normalmap data' else if which == 1 then shiftmap data' else ctlmap data'

-- Caps lock changes the case of a letter.
abbrev pub swap_case : ℕ → ℕ
swap_case c =
    if leb b'a' c && leb c b'z' then c - 32 else if leb b'A' c && leb c b'Z' then c + 32 else c

-- `~flags & 0xFFFFFFFF`
abbrev pub complement : ℕ → ℕ
complement flags = 2 ^ 32 - 1 - flags

-- A key that is pressed: the character, and the new `shift`.
unfoldable pub key_pressed : (shift data' : ℕ) → ℕ × ℕ
key_pressed shift data' =
    let shift' = bit_xor (bit_or shift (shiftcode data')) (togglecode data') in
    let c = charcode shift' data' in
    (if bit_and shift' capslock == 0 then c else swap_case c, shift')

-- What a call returns when the status and data ports read as given, `none` for -1, and the new
-- `shift`. Ctrl-Alt-Del, which writes to a reset port, goes on in the same way.
unfoldable pub kbd_proc_data : (shift stat data' : ℕ) → Option ℕ × ℕ
kbd_proc_data shift stat data' =
    if bit_and stat 0x01 == 0 || not (bit_and stat 0x20 == 0)
    then (none, shift)
    else if data' == 0xE0
    then (some 0, bit_or shift e0esc)
    else if not (bit_and data' 0x80 == 0)
    then (
      some 0,
      bit_and shift (
          complement (
            bit_or (shiftcode (if bit_and shift e0esc == 0 then bit_and data' 0x7F else data'))
              e0esc)),
    )
    else let pressed =
        if bit_and shift e0esc == 0
        then key_pressed shift data'
        else key_pressed (bit_and shift (complement e0esc)) (bit_or data' 0x80) in
      (some pressed.0, pressed.1)

-- The calls that cons_intr makes, until one returns -1: their results, the new `shift`, and the
-- reads that are left.
unfoldable pub kbd_calls : ℕ → List (ℕ × ℕ) → List ℕ × ℕ × List (ℕ × ℕ)
kbd_calls shift [] = ([], shift, [])
kbd_calls shift ((stat, data') ∷ rest) =
    let (r, shift') = kbd_proc_data shift stat data' in
    elim r [
      | none ↦ ([], shift', rest)
      | some c ↦ let (cs, last, left) = kbd_calls shift' rest in (c ∷ cs, last, left)
    ]
