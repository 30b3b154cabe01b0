-- ===== src/Monitor.antt =====
-- The command interpreter of jos/kern/monitor.c, on memory as a function from the address of a byte to
-- the byte. The loops run on fuel.
pub mod Argv
pub mod Mappings
pub mod Run
pub mod Words
use cs444_operating_systems.Base.{
  ℕ, zero, suc, ◌+◌, ◌-◌, Bool, true, false, not, ◌&&◌, ◌==◌, Option, none, some, List, [], ◌∷◌,
  ◌++◌, if◌then◌else◌, length, update,
}
use cs444_operating_systems.Strings.Scan.{strchr, strcmp}

-- The string constant "\t\r\n " at the address 0.
abbrev pub whitespace : ℕ → ℕ
whitespace i =
    if i == 0 then 9 else if i == 1 then 13 else if i == 2 then 10 else if i == 3 then 32 else 0

abbrev pub maxargs : ℕ
maxargs = 16

-- `strchr(WHITESPACE, c)` is not null.
unfoldable pub is_space : ℕ → Bool
is_space c = elim (strchr 5 0 c whitespace) [
  | none ↦ false
  | some p ↦ elim p [ none ↦ false | some s ↦ true ]
]

-- The loop that gobbles whitespace: the memory, and `buf`.
unfoldable pub gobble : (fuel buf : ℕ) → (ℕ → ℕ) → Option ((ℕ → ℕ) × ℕ)
gobble zero buf m = none
gobble (suc fuel) buf m = elim (not (m buf == 0) && is_space (m buf)) [
  | true ↦ gobble fuel (buf + 1) (update m buf 0)
  | false ↦ some (m, buf)
]

-- The loop that scans past an argument: `buf`.
unfoldable pub scan_past : (fuel buf : ℕ) → (ℕ → ℕ) → Option ℕ
scan_past zero buf m = none
scan_past (suc fuel) buf m = elim (not (m buf == 0) && not (is_space (m buf))) [
  | true ↦ scan_past fuel (buf + 1) m
  | false ↦ some buf
]

-- `argv` below `argc`, with a null pointer behind it.
pub data Parsed : Type 0 where
  arguments : (argv : List ℕ) → (ℕ → ℕ) → Parsed
  too_many : Parsed

unfoldable pub parse_args : (fuel buf : ℕ) → (argv : List ℕ) → (ℕ → ℕ) → Option Parsed
parse_args zero buf argv m = none
parse_args (suc fuel) buf argv m = elim (gobble fuel buf m) [
  | none ↦ none
  | some r ↦ elim (r.0 r.1 == 0) [
    | true ↦ some (arguments argv r.0)
    | false ↦ elim (length argv == maxargs - 1) [
      | true ↦ some too_many
      | false ↦ elim (scan_past fuel r.1 r.0) [
        | none ↦ none
        | some b ↦ parse_args fuel b (argv ++ r.1 ∷ []) r.0
      ]
    ]
  ]
]

-- The index of the first command with this name, if there is one. `names` are the addresses of the
-- names that are left in `commands`, and `i` is the index of the first of them.
unfoldable pub find_command :
    (fuel i : ℕ) → (names : List ℕ) → (name : ℕ) → (ℕ → ℕ) → Option (Option ℕ)
find_command fuel i [] name m = some none
find_command fuel i (n ∷ names) name m = elim (strcmp fuel name n m) [
  | none ↦ none
  | some d ↦ elim (d == 0) [ true ↦ some (some i) | false ↦ find_command fuel (suc i) names name m ]
]

-- What runcmd does at its end: it returns 0 after the message about too many arguments, or without
-- a message, or calls the function of a command, or returns 0 after the message about an unknown one.
pub data Invocation : Type 0 where
  refused : Invocation
  blank : Invocation
  call : (i : ℕ) → (argv : List ℕ) → (ℕ → ℕ) → Invocation
  unknown : (name : ℕ) → (ℕ → ℕ) → Invocation

unfoldable pub invoke : (fuel : ℕ) → (names : List ℕ) → Parsed → Option Invocation
invoke fuel names too_many = some refused
invoke fuel names (arguments [] m) = some blank
invoke fuel names (arguments (name ∷ argv) m) = elim (find_command fuel 0 names name m) [
  | none ↦ none
  | some found ↦ elim found [
    | none ↦ some (unknown name m)
    | some i ↦ some (call i (name ∷ argv) m)
  ]
]

unfoldable pub runcmd : (fuel : ℕ) → (names : List ℕ) → (buf : ℕ) → (ℕ → ℕ) → Option Invocation
runcmd fuel names buf m = elim (parse_args fuel buf [] m) [
  | none ↦ none
  | some parsed ↦ invoke fuel names parsed
]
