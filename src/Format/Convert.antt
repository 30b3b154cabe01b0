-- ===== src/Format/Convert.antt =====
-- The conversions of vprintfmt in jos/lib/printfmt.c. An `int` is the bit pattern of 32 bits. The
-- arguments are the words of the caller's stack, and `ap` is the index of the next one.
use Prim.Native.Char.{code}
use Prim.Native.String.{String}
use cs444_operating_systems.Base.{
  ℕ, zero, suc, ◌+◌, ◌-◌, ◌*◌, ◌^◌, Bool, true, false, not, ◌&&◌, ◌||◌, ◌==◌, leb, ltb, Option,
  none, some, List, [], ◌∷◌, ◌++◌, if◌then◌else◌, length,
}
use cs444_operating_systems.Mmu.{u32}
use cs444_operating_systems.Strings.Scan.{strnlen}
use cs444_operating_systems.Format.{repeat, printnum}

-- The state of an escape sequence. A width or a precision is `none` where the source has a negative
-- number.
pub record Flags : Type 0 where
  pub padc : ℕ
  pub width : Option ℕ
  pub precision : Option ℕ
  pub lflag : ℕ
  pub altflag : Bool

abbrev pub initial_flags : Flags
initial_flags = record { padc = 32; width = none; precision = none; lflag = 0; altflag = false }

-- What a conversion prints, and where `fmt` and `ap` are behind it.
pub record Piece : Type 0 where
  pub text : List ℕ
  pub fmt : ℕ
  pub ap : ℕ

-- The characters of a string literal.
abbrev pub codes : String → List ℕ
codes String.[] = []
codes (String.◌∷◌ c s) = code c ∷ codes s

-- The characters of a literal by index, with the 0 behind them.
abbrev pub literal : List ℕ → ℕ → ℕ
literal [] i = 0
literal (x ∷ xs) zero = x
literal (x ∷ xs) (suc i) = literal xs i

-- An `int` where only a negative one is told from the others.
abbrev pub signed : ℕ → Option ℕ
signed x = if ltb x (2 ^ 31) then some x else none

abbrev pub or_zero : Option ℕ → ℕ
or_zero none = 0
or_zero (some n) = n

abbrev pub is_negative : Option ℕ → Bool
is_negative none = true
is_negative (some _) = false

-- The number and the next index.
unfoldable pub getuint : (ℕ → ℕ) → (ap lflag : ℕ) → ℕ × ℕ
getuint w ap lflag = if leb 2 lflag then (w ap + w (ap + 1) * 2 ^ 32, ap + 2) else (w ap, ap + 1)

-- The bit pattern of 64 bits, and the next index.
unfoldable pub getint : (ℕ → ℕ) → (ap lflag : ℕ) → ℕ × ℕ
getint w ap lflag =
    if leb 2 lflag
    then (w ap + w (ap + 1) * 2 ^ 32, ap + 2)
    else if ltb (w ap) (2 ^ 31)
    then (w ap, ap + 1)
    else (w ap + 2 ^ 64 - 2 ^ 32, ap + 1)

-- An entry of the table of pointers, null outside of it.
abbrev pub entry : List (List ℕ) → ℕ → Option (List ℕ)
entry [] i = none
entry (x ∷ xs) zero = some x
entry (x ∷ xs) (suc i) = entry xs i

-- The literals that the entries from 1 on point to.
abbrev pub error_strings : List (List ℕ)
error_strings =
    codes "unspecified error"
    ∷ codes "bad environment"
    ∷ codes "invalid parameter"
    ∷ codes "out of memory"
    ∷ codes "out of environments"
    ∷ codes "segmentation fault"
    ∷ codes "env is not recving"
    ∷ codes "unexpected end of file"
    ∷ []

unfoldable pub error_string : ℕ → Option (List ℕ)
error_string zero = none
error_string (suc n) = entry error_strings n

-- The case 'e', whose calls of printfmt are written out.
unfoldable pub error_text : ℕ → List ℕ
error_text x =
    let err = if ltb x (2 ^ 31) then x else u32 (2 ^ 32 - x) in
    elim (error_string err) [ none ↦ codes "error " ++ printnum 64 err 10 0 32 | some text ↦ text ]

-- The character of a string that is passed to putch: a `char` is signed.
abbrev pub shown : (altflag : Bool) → ℕ → ℕ
shown altflag c =
    let ch = if ltb c 128 then c else c + (2 ^ 32 - 256) in
    if altflag && (ltb ch 32 || ltb 126 ch) then 63 else ch

-- The characters of the string `str` from index `i` on that are printed.
unfoldable pub string_chars :
    (fuel : ℕ) → (ℕ → ℕ) → (i : ℕ) → (precision : Option ℕ) → (altflag : Bool) → Option (List ℕ)
string_chars zero str i precision altflag = none
string_chars (suc fuel) str i precision altflag = elim (str i == 0) [
  | true ↦ some []
  | false ↦ elim precision [
    | none ↦ elim (string_chars fuel str (i + 1) none altflag) [
      | none ↦ none
      | some text ↦ some (shown altflag (str i) ∷ text)
    ]
    | some zero ↦ some []
    | some (suc n) ↦ elim (string_chars fuel str (i + 1) (some n) altflag) [
      | none ↦ none
      | some text ↦ some (shown altflag (str i) ∷ text)
    ]
  ]
]

-- The case 's' for the string `str`.
unfoldable pub string_text : (fuel : ℕ) → (ℕ → ℕ) → Flags → Option (List ℕ)
string_text fuel str f =
    let left = ltb 0 (or_zero f.width) && not (f.padc == 45) in
    let len = strnlen (elim f.precision [ none ↦ 2 ^ 32 - 1 | some n ↦ n ]) 0 str in
    elim (string_chars fuel str 0 f.precision f.altflag) [
      | none ↦ none
      | some text ↦
          if left
          then some (repeat (or_zero f.width - len) f.padc ++ text)
          else some (text ++ repeat (or_zero f.width - length text) 32)
    ]

-- The string that a pointer argument points to.
abbrev pub pointed : (ℕ → ℕ) → ℕ → ℕ → ℕ
pointed m p = if p == 0 then literal (codes "(null)") else λ i. m (p + i)

-- The label `number`.
unfoldable pub number : (num base : ℕ) → Flags → List ℕ
number num base f = printnum 64 num base (or_zero f.width) f.padc

-- The case 'd' for the 64 bits `num`.
unfoldable pub decimal : ℕ → Flags → List ℕ
decimal num f = if ltb num (2 ^ 63) then number num 10 f else 45 ∷ number (2 ^ 64 - num) 10 f

-- The loop of the default case, from the address of the character that has been read.
unfoldable pub walk_back : (ℕ → ℕ) → ℕ → ℕ
walk_back m zero = zero
walk_back m (suc n) = elim (m n == 37) [ true ↦ suc n | false ↦ walk_back m n ]

-- The cases of the switch that end the escape sequence. `ch` is the character in front of `fmt`.
unfoldable pub convert : (fuel : ℕ) → (m w : ℕ → ℕ) → (ch fmt ap : ℕ) → Flags → Option Piece
convert fuel m w ch fmt ap f =
    let (unum, uap) = getuint w ap f.lflag in
    let (snum, sap) = getint w ap f.lflag in
    if ch == 99
    then some (record { text = w ap ∷ []; fmt = fmt; ap = ap + 1 })
    else if ch == 101
    then some (record { text = error_text (w ap); fmt = fmt; ap = ap + 1 })
    else if ch == 115
    then elim (string_text fuel (pointed m (w ap)) f) [
      | none ↦ none
      | some text ↦ some (record { text = text; fmt = fmt; ap = ap + 1 })
    ]
    else if ch == 100
    then some (record { text = decimal snum f; fmt = fmt; ap = sap })
    else if ch == 117
    then some (record { text = number unum 10 f; fmt = fmt; ap = uap })
    else if ch == 111
    then some (record { text = number unum 8 f; fmt = fmt; ap = uap })
    else if ch == 112
    then some (record { text = 48 ∷ 120 ∷ number (w ap) 16 f; fmt = fmt; ap = ap + 1 })
    else if ch == 120
    then some (record { text = number unum 16 f; fmt = fmt; ap = uap })
    else if ch == 37
    then some (record { text = ch ∷ []; fmt = fmt; ap = ap })
    else some (record { text = 37 ∷ []; fmt = walk_back m (fmt - 1); ap = ap })
