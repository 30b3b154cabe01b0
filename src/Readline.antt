-- ===== src/Readline.antt =====
-- readline of jos/lib/readline.c. The input is the list of what getchar returns, with `none` for a
-- negative number; at its end getchar waits.
pub mod Edit
use cs444_operating_systems.Base.{
  ℕ, ◌+◌, ◌-◌, ◌%◌, Option, none, some, Bool, ◌&&◌, ◌||◌, ◌==◌, leb, ltb, List, [], ◌∷◌,
  if◌then◌else◌, update,
}

abbrev pub buflen : ℕ
buflen = 1024

-- `i`, `buf`, and what has been echoed, with the last character first.
pub record Line : Type 0 where
  pub i : ℕ
  pub buf : ℕ → ℕ
  pub echoed : List ℕ

pub data Outcome : Type 0 where
  waiting : Outcome
  null : Outcome
  returned : Line → (rest : List (Option ℕ)) → Outcome

abbrev pub echo : Bool → ℕ → Line → Line
echo echoing c s = record s { echoed = if echoing then c ∷ s.echoed else s.echoed }

abbrev pub erases : ℕ → Line → Bool
erases c s = (c == 8 || c == 127) && ltb 0 s.i

abbrev pub types : ℕ → Line → Bool
types c s = leb 32 c && ltb s.i (buflen - 1)

abbrev pub erase : Bool → Line → Line
erase echoing s = let e = echo echoing 8 s in record e { i = s.i - 1 }

abbrev pub type_char : Bool → ℕ → Line → Line
type_char echoing c s =
    let e = echo echoing c s in record e { buf = update s.buf s.i (c % 256); i = s.i + 1 }

abbrev pub finish_line : Bool → Line → Line
finish_line echoing s = let e = echo echoing 10 s in record e { buf = update s.buf s.i 0 }

-- The loop. The first two branches go on with a new state, the last with the old one.
unfoldable pub read_from : (echoing : Bool) → List (Option ℕ) → Line → Outcome
read_from echoing [] s = waiting
read_from echoing (none ∷ cs) s = null
read_from echoing (some c ∷ cs) s =
    let rest =
      read_from echoing cs
        (if erases c s then erase echoing s else if types c s then type_char echoing c s else s) in
    if erases c s
    then rest
    else if types c s
    then rest
    else if c == 10 || c == 13
    then returned (finish_line echoing s) cs
    else rest

-- From the prompt on.
unfoldable pub readline : (echoing : Bool) → List (Option ℕ) → (ℕ → ℕ) → Outcome
readline echoing cs buf = read_from echoing cs (record { i = 0; buf = buf; echoed = [] })
