-- ===== src/Console.antt =====
-- The console input buffer: cons_intr of jos/kern/console.c, and what cons_getc does after it has
-- polled the devices.
pub mod Queue
pub mod Keyboard
pub mod Poll
pub mod Arrival
pub mod Screen
use cs444_operating_systems.Base.{ℕ, ◌+◌, ◌%◌, List, [], ◌∷◌, ◌==◌, if◌then◌else◌, update}

abbrev pub consbufsize : ℕ
consbufsize = 512

-- `buf` holds bytes.
pub record Cons : Type 0 where
  pub buf : ℕ → ℕ
  pub rpos : ℕ
  pub wpos : ℕ

-- `pos++; if (pos == CONSBUFSIZE) pos = 0;`
abbrev pub bump : ℕ → ℕ
bump pos = if pos + 1 == consbufsize then 0 else pos + 1

abbrev pub stash : ℕ → Cons → Cons
stash c s = record s { buf = update s.buf s.wpos (c % 256); wpos = bump s.wpos }

-- The list holds what the calls of `proc` return before one returns -1.
unfoldable pub cons_intr : List ℕ → Cons → Cons
cons_intr [] s = s
cons_intr (c ∷ cs) s = cons_intr cs (if c == 0 then s else stash c s)

-- The character that cons_getc returns.
unfoldable pub next_char : Cons → ℕ × Cons
next_char s = if s.rpos == s.wpos then (0, s) else (s.buf s.rpos, record s { rpos = bump s.rpos })
