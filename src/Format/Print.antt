-- ===== src/Format/Print.antt =====
-- The loops of vprintfmt in jos/lib/printfmt.c, and vsnprintf. The format is in memory at `fmt`. The
-- loops run on fuel, which is enough if it is more than the length of the format and of each string.
use cs444_operating_systems.Base.{
  ℕ, zero, suc, ◌+◌, ◌-◌, ◌*◌, true, false, ◌&&◌, ◌||◌, ◌==◌, leb, ltb, Option, none, some, List,
  [], ◌∷◌, ◌++◌, if◌then◌else◌,
}
use cs444_operating_systems.Format.Convert.{
  Flags, initial_flags, Piece, signed, is_negative, convert,
}

-- The number that starts with the character `ch` in front of `fmt`, and where `fmt` is behind it. It is less
-- than 2 ^ 31: the source has it in an int.
unfoldable pub read_width : (fuel : ℕ) → (ℕ → ℕ) → (ch fmt precision : ℕ) → Option (ℕ × ℕ)
read_width zero m ch fmt precision = none
read_width (suc fuel) m ch fmt precision =
    let next = m fmt in
    let value = precision * 10 + (ch - 48) in
    elim (ltb next 48 || ltb 57 next) [
      | true ↦ some (value, fmt)
      | false ↦ read_width fuel m next (fmt + 1) value
    ]

-- The label `process_precision`.
unfoldable pub process_precision : Option ℕ → Flags → Flags
process_precision precision f =
    if is_negative f.width
    then record f { width = precision; precision = none }
    else record f { precision = precision }

-- What the flag `ch` that is no digit does.
unfoldable pub flag : ℕ → Flags → Option Flags
flag ch f =
    if ch == 45
    then some (record f { padc = 45 })
    else if ch == 48
    then some (record f { padc = 48 })
    else if ch == 46
    then some (if is_negative f.width then record f { width = some 0 } else f)
    else if ch == 35
    then some (record f { altflag = true })
    else if ch == 108
    then some (record f { lflag = f.lflag + 1 })
    else none

-- From the label `reswitch` on.
unfoldable pub reswitch : (fuel : ℕ) → (m w : ℕ → ℕ) → (fmt ap : ℕ) → Flags → Option Piece
reswitch zero m w fmt ap f = none
reswitch (suc fuel) m w fmt ap f = elim (flag (m fmt) f) [
  | some f' ↦ reswitch fuel m w (fmt + 1) ap f'
  | none ↦ elim (leb 49 (m fmt) && leb (m fmt) 57) [
    | true ↦ elim (read_width fuel m (m fmt) (fmt + 1) 0) [
      | none ↦ none
      | some (precision, fmt') ↦ reswitch fuel m w fmt' ap (process_precision (some precision) f)
    ]
    | false ↦ elim (m fmt == 42) [
      | true ↦ reswitch fuel m w (fmt + 1) (ap + 1) (process_precision (signed (w ap)) f)
      | false ↦ convert fuel m w (m fmt) (fmt + 1) ap f
    ]
  ]
]

-- The characters that are printed.
unfoldable pub vprintfmt : (fuel : ℕ) → (m w : ℕ → ℕ) → (fmt ap : ℕ) → Option (List ℕ)
vprintfmt zero m w fmt ap = none
vprintfmt (suc fuel) m w fmt ap = elim (m fmt == 37) [
  | true ↦ elim (reswitch fuel m w (fmt + 1) ap initial_flags) [
    | none ↦ none
    | some piece ↦ elim (vprintfmt fuel m w piece.fmt piece.ap) [
      | none ↦ none
      | some text ↦ some (piece.text ++ text)
    ]
  ]
  | false ↦ elim (m fmt == 0) [
    | true ↦ some []
    | false ↦ elim (vprintfmt fuel m w (fmt + 1) ap) [
      | none ↦ none
      | some text ↦ some (m fmt ∷ text)
    ]
  ]
]
