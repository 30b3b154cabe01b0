-- ===== src/Examples/Text.antt =====
-- Formatted output of jos/lib/printfmt.c, strings of jos/lib/string.c, the screen of
-- jos/kern/console.c and the stabs of jos/kern/kdebug.c.
use cs444_operating_systems.Base.{
  ℕ, ◌+◌, ◌-◌, ◌*◌, ◌^◌, ◌<◌, ◌≡◌, ◌⊎◌, refl, some, Option, true, false, update, List, [], ◌∷◌,
  ◌||◌, arith, ◌==◌, if◌then◌else◌,
}
use cs444_operating_systems.Errors.{value}
use cs444_operating_systems.Strings.Truncate.{IsString, take}
use cs444_operating_systems.Format.{digit, repeat, printnum}
use cs444_operating_systems.Format.Convert.{getint, decimal, number, convert}
use cs444_operating_systems.Format.Print.{flag, reswitch, vprintfmt}
use cs444_operating_systems.Format.Termination.{AllEnd, vprintfmt_terminates}
use cs444_operating_systems.Format.Signed.{Denotes, vprintfmt-strtol}
use cs444_operating_systems.Format.Buffer.{vsnprintf, vsnprintf_truncates}
use cs444_operating_systems.Format.Cprintf.{concat, low_bytes, AllSmall, vcprintf, vcprintf_prints}
use cs444_operating_systems.Readline.{returned, read_from, readline}
use cs444_operating_systems.Readline.Edit.{Agrees, edited, readline_edits}
use cs444_operating_systems.Console.Screen.{Screen, cons_putc}
use cs444_operating_systems.Console.Screen.Bounds.{Stays, cons_putc-Stays}
use cs444_operating_systems.Stabs.{Stab, earliest, narrow, search_loop, rightmost, stab_binsearch}
use cs444_operating_systems.Stabs.Bracket.{IsLast}

-- `%d` stands at 100, `ab` at 200 and `ac` at 300; all else is 0.
abbrev texts : ℕ → ℕ
texts a =
    if a == 100
    then 37
    else if a == 101
    then 100
    else if a == 200
    then 97
    else if a == 201
    then 98
    else if a == 300
    then 97
    else if a == 301
    then 99
    else 0

-- The argument is -42.
abbrev stack : ℕ → ℕ
stack i = 2 ^ 32 - 42

ab-IsString : IsString texts 200 (97 ∷ 98 ∷ [])
ab-IsString = (refl, omega arith, (refl, omega arith, refl))

ac-IsString : IsString texts 300 (97 ∷ 99 ∷ [])
ac-IsString = (refl, omega arith, (refl, omega arith, refl))

texts-AllEnd : AllEnd 7 texts
texts-AllEnd p = (
  if p == 100 || (p == 200 || p == 300)
      then 2
      else if p == 101 || (p == 201 || p == 301)
      then 1
      else 0,
  ground arith,
  ground arith,
)

printed : vprintfmt 5 texts stack 100 0 ≡ some (45 ∷ 52 ∷ 50 ∷ [])
unfolding vprintfmt reswitch flag convert getint decimal number printnum digit repeat
printed = refl

vprintfmt-strtol_example :
    (xs : List ℕ) × (vprintfmt 2 texts stack 100 0 ≡ some xs) × Denotes (stack 0) xs
vprintfmt-strtol_example =
    vprintfmt-strtol 0 100 0 texts stack refl refl refl (omega arith) (λ e. omega arith)

vprintfmt_terminates_example : (text : List ℕ) × (vprintfmt 11 texts stack 100 0 ≡ some text)
vprintfmt_terminates_example =
    vprintfmt_terminates 7 11 102 100 0 texts stack texts-AllEnd (omega arith) refl (omega arith)
      (omega arith)

vsnprintf_truncates_example :
    (m' : ℕ → ℕ) × (vsnprintf 5 texts stack 400 (2 + 1) 100 0 ≡ some (value 3, m'))
    × IsString m' 400 (take 2 (45 ∷ 52 ∷ 50 ∷ []))
    × ((a : ℕ) → (a < 400) ⊎ (400 + 2 < a) → m' a ≡ texts a)
vsnprintf_truncates_example =
    vsnprintf_truncates 5 texts stack 400 2 100 0 (45 ∷ 52 ∷ 50 ∷ []) printed
      (omega arith, omega arith, (omega arith, omega arith, (omega arith, omega arith, tt)))
      (omega arith) (omega arith)

-- The cursor is in the last row.
abbrev full : Screen
full = record { crt_buf = λ i. i; crt_pos = 1930; color = 0x0100; addr_6845 = 0x3D4; written = [] }

cons_putc-Stays_example : Stays full (cons_putc 9 full)
cons_putc-Stays_example = cons_putc-Stays 9 full (omega arith)

-- Functions at 10, 20 and 30, with other symbols between them.
abbrev symbols : ℕ → Stab
symbols i = record {
  n_strx = 0;
  n_type = if i == 0 then 36 else if i == 2 then 36 else if i == 4 then 36 else 68;
  n_other = 0;
  n_desc = 0;
  n_value = 10 + 5 * i;
}

symbols-IsLast : IsLast symbols 36 0 6 23 2
symbols-IsLast = record {
  sorted = λ i k a b c d e. omega arith;
  clear = λ i a b c. ground arith;
  lower = omega arith;
  upper = omega arith;
  match = refl;
  before = omega arith;
  after = λ i a b c. omega arith;
}

-- The function at 6 is taken for the one that the address 5 is in.
abbrev neighbours : ℕ → Stab
neighbours i = record { n_strx = 0; n_type = 36; n_other = 0; n_desc = 0; n_value = 5 + i }

neighbour_taken :
    stab_binsearch neighbours 36 0 2 5 ≡ some (record { left_next = 2; right_next = 2 })
unfolding stab_binsearch search_loop narrow earliest rightmost
neighbour_taken = refl

vcprintf_prints_example :
    (calls : List (List ℕ)) × (vcprintf 5 texts stack 100 0 (λ i. 0) ≡ some (calls, 3))
    × (concat calls ≡ low_bytes (45 ∷ 52 ∷ 50 ∷ []))
    × AllSmall calls
vcprintf_prints_example = vcprintf_prints 5 texts stack 100 0 (λ i. 0) (45 ∷ 52 ∷ 50 ∷ []) printed

-- `a`, backspace, `b` and Enter.
abbrev keys : List (Option ℕ)
keys = some 97 ∷ some 8 ∷ some 98 ∷ some 13 ∷ some 99 ∷ []

readline_edits_example : Agrees (readline true keys (λ i. 0)) (edited keys [])
readline_edits_example = readline_edits true keys (λ i. 0)

-- Delete on an empty line is taken for a character.
delete_typed :
    readline false (some 127 ∷ some 13 ∷ []) (λ i. 0)
    ≡ returned (record { i = 1; buf = update (update (λ i. 0) 0 127) 1 0; echoed = [] }) []
unfolding readline read_from
delete_typed = refl
