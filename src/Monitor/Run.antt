-- ===== src/Monitor/Run.antt =====
-- The command that runcmd of jos/kern/monitor.c calls.
use cs444_operating_systems.Base.{
  ℕ, suc, ◌+◌, ◌<◌, ◌≤◌, ◌≡◌, ◌≢◌, ◌⊎◌, refl, ◌==◌, Option, none, some, List, [], ◌∷◌, length,
  arith, ◌∙◌, ap, sym, Bool-cases, inl, inr,
}
use mathlib.Core.Path.{subst}
use cs444_operating_systems.Strings.Scan.{strcmp}
use cs444_operating_systems.Strings.Compare.{
  Less, shorter, here, later, Compares, AllBytes, strcmp-Compares,
}
use cs444_operating_systems.Strings.Truncate.{IsString}
use cs444_operating_systems.Format.Ends.{Ends, Ends-if, Ends-then, Ends-weaken}
use cs444_operating_systems.Monitor.{
  is_space, Parsed, arguments, too_many, maxargs, parse_args, find_command, Invocation, refused,
  blank, call, unknown, invoke, runcmd,
}
use cs444_operating_systems.Monitor.Words.{split, words}
use cs444_operating_systems.Monitor.Argv.{ArePointers, count, Parses, parse_args-Parses}

-- The index of the first of the names that is `w`, if there is one, counted from `i`.
abbrev pub IsFirst : List ℕ → ℕ → List (List ℕ) → Option ℕ → Type 0
IsFirst w i [] none = Unit
IsFirst w i [] (some j) = ⊥
IsFirst w i (n ∷ ns) none = (w ≢ n) × IsFirst w (suc i) ns none
IsFirst w i (n ∷ ns) (some j) = ((j ≡ i) × (w ≡ n)) ⊎ ((w ≢ n) × IsFirst w (suc i) ns (some j))

tail : List ℕ → List ℕ
tail [] = []
tail (x ∷ xs) = xs

head : List ℕ → ℕ
head [] = 0
head (x ∷ xs) = x

Less-ne : (xs ys : List ℕ) → Less xs ys → xs ≢ ys
unfolding head tail
Less-ne xs ys shorter e = absurd (omega (arith, ap length e))
Less-ne xs ys (here lt) e = absurd (omega (arith, lt, ap head e))
Less-ne xs ys (later l) e = Less-ne _ _ l (ap tail e)

Compares-ne : (d : ℕ) (xs ys : List ℕ) → d ≢ 0 → Compares d xs ys → xs ≢ ys
Compares-ne d xs ys ne (inl (z, e)) = absurd (ne z)
Compares-ne d xs ys ne (inr (inl (neg, l))) = Less-ne xs ys l
Compares-ne d xs ys ne (inr (inr (pos, small, l))) = λ e. Less-ne ys xs l (sym e)

Compares-eq : (d : ℕ) (xs ys : List ℕ) → d ≡ 0 → Compares d xs ys → xs ≡ ys
Compares-eq d xs ys z (inl (z', e)) = e
Compares-eq d xs ys z (inr (inl (neg, l))) = absurd (omega arith)
Compares-eq d xs ys z (inr (inr (pos, small, l))) = absurd (omega arith)

-- The addresses are those of the commands' names.
abbrev pub AreNames : (ℕ → ℕ) → List ℕ → List (List ℕ) → Type 0
AreNames m [] [] = Unit
AreNames m (p ∷ ps) (n ∷ ns) = IsString m p n × AllBytes n × AreNames m ps ns
AreNames m [] (n ∷ ns) = ⊥
AreNames m (p ∷ ps) [] = ⊥

-- The names are outside the buffer from `buf` on.
abbrev pub Apart : (buf n : ℕ) → List ℕ → List (List ℕ) → Type 0
Apart buf n [] ns = Unit
Apart buf n (p ∷ ps) [] = Unit
Apart buf n (p ∷ ps) (w ∷ ws) = ((p + length w < buf) ⊎ (buf + n ≤ p)) × Apart buf n ps ws

IsString-frame :
    (m m' : ℕ → ℕ) (s : ℕ) (xs : List ℕ)
    → ((a : ℕ) → s ≤ a → a ≤ s + length xs → m' a ≡ m a)
    → IsString m s xs
    → IsString m' s xs
IsString-frame m m' s [] same h = same s (omega arith) (omega arith) ∙ h
IsString-frame m m' s (x ∷ xs) same (first, ne, h) = (
  same s (omega arith) (omega arith) ∙ first,
  ne,
  IsString-frame m m' (s + 1) xs (λ a ge le. same a (omega arith) (omega arith)) h,
)

AreNames-frame :
    (m m' : ℕ → ℕ) (buf n : ℕ) (ps : List ℕ) (ns : List (List ℕ))
    → ((a : ℕ) → a < buf → m' a ≡ m a)
    → ((a : ℕ) → buf + n ≤ a → m' a ≡ m a)
    → Apart buf n ps ns
    → AreNames m ps ns
    → AreNames m' ps ns
AreNames-frame m m' buf n [] [] low high out h = tt
AreNames-frame m m' buf n (p ∷ ps) [] low high out h = absurd h
AreNames-frame m m' buf n [] (w ∷ ws) low high out h = absurd h
AreNames-frame m m' buf n (p ∷ ps) (w ∷ ws) low high (inl lt, out) (string, bytes, h) = (
  IsString-frame m m' p w (λ a ge le. low a (omega arith)) string,
  bytes,
  AreNames-frame m m' buf n ps ws low high out h,
)
AreNames-frame m m' buf n (p ∷ ps) (w ∷ ws) low high (inr ge', out) (string, bytes, h) = (
  IsString-frame m m' p w (λ a ge le. high a (omega arith)) string,
  bytes,
  AreNames-frame m m' buf n ps ws low high out h,
)

IsFirst-later :
    (w n : List ℕ) (i : ℕ) (ns : List (List ℕ)) (o : Option ℕ)
    → w ≢ n
    → IsFirst w (suc i) ns o
    → IsFirst w i (n ∷ ns) o
IsFirst-later w n i ns none ne h = (ne, h)
IsFirst-later w n i ns (some j) ne h = inr (ne, h)

find_command-IsFirst :
    (fuel i name : ℕ) (w names : List ℕ) (ns : List (List ℕ)) (m : ℕ → ℕ)
    → AreNames m names ns
    → IsString m name w
    → AllBytes w
    → length w < fuel
    → Ends (IsFirst w i ns) (find_command fuel i names name m)
unfolding find_command
find_command-IsFirst fuel i name w [] [] m h string bytes lt = tt
find_command-IsFirst fuel i name w [] (n ∷ ns) m h string bytes lt = absurd h
find_command-IsFirst fuel i name w (p ∷ names) [] m h string bytes lt = absurd h
find_command-IsFirst fuel i name w (p ∷ names) (n ∷ ns) m (at, bytes', h) string bytes lt =
    let P = IsFirst w i (n ∷ ns) in
    let (d, e, c) = strcmp-Compares fuel name p m w n string at bytes bytes' lt in
    Ends-then P (λ x. Compares x w n) (strcmp fuel name p m) _
      (subst (Ends (λ x. Compares x w n)) (sym e) c)
      (λ x c'.
        Ends-if P (x == 0) _ _ (λ z. inl (refl, Compares-eq x w n (ground (arith, z)) c'))
          (λ z.
            Ends-weaken (IsFirst w (suc i) ns) P _
              (find_command-IsFirst fuel (suc i) name w names ns m h string bytes lt)
              (λ o r. IsFirst-later w n i ns o (Compares-ne x w n (ground (arith, z)) c') r)))

-- A first word of bytes that the fuel is enough for.
abbrev pub FirstFits : ℕ → List (List ℕ) → Type 0
FirstFits fuel [] = Unit
FirstFits fuel (w ∷ ws) = AllBytes w × (length w < fuel)

split-FirstFits :
    (fuel : ℕ) (cs : List ℕ)
    → AllBytes cs
    → length cs < fuel
    → AllBytes (split cs).0 × (length (split cs).0 ≤ length cs) × FirstFits fuel (words cs)
split-FirstFits fuel [] bytes lt = (tt, omega arith, tt)
split-FirstFits fuel (c ∷ cs) (byte, bytes) lt =
    let (all, short, first) = split-FirstFits fuel cs bytes (omega arith) in
    elim (Bool-cases (is_space c)) [
      | inl space ↦ rw space (tt, omega arith, first)
      | inr other ↦
          rw other ((byte, all), omega (arith, short), ((byte, all), omega (arith, short)))
    ]

-- The first word is the name of the command with this index, or of none.
abbrev pub Names : List (List ℕ) → List (List ℕ) → Option ℕ → Type 0
Names [] ns o = ⊥
Names (w ∷ ws) ns o = IsFirst w 0 ns o

-- What runcmd does with a command of these words where the commands have these names.
abbrev pub Runs : List (List ℕ) → List (List ℕ) → Invocation → Type 0
Runs ws ns refused = maxargs ≤ count ws
Runs ws ns blank = ws ≡ []
Runs ws ns (call i argv m) = (count ws < maxargs) × ArePointers m argv ws × Names ws ns (some i)
Runs ws ns (unknown name m) = (count ws < maxargs) × Names ws ns none

found-Runs :
    (name : ℕ) (argv w : List ℕ) (ws ns : List (List ℕ)) (m : ℕ → ℕ)
    → ArePointers m (name ∷ argv) (w ∷ ws)
    → count (w ∷ ws) < maxargs
    → (o : Option ℕ) → IsFirst w 0 ns o
    → Ends
        (Runs (w ∷ ws) ns)
        (elim o [ none ↦ some (unknown name m) | some i ↦ some (call i (name ∷ argv) m) ])
found-Runs name argv w ws ns m h few none r = (few, r)
found-Runs name argv w ws ns m h few (some i) r = (few, h, r)

invoke-Runs :
    (fuel name : ℕ) (argv names : List ℕ) (ws ns : List (List ℕ)) (m : ℕ → ℕ)
    → ArePointers m (name ∷ argv) ws
    → count ws < maxargs
    → AreNames m names ns
    → FirstFits fuel ws
    → Ends (Runs ws ns) (invoke fuel names (arguments (name ∷ argv) m))
unfolding invoke
invoke-Runs fuel name argv names [] ns m h few there fits = absurd h
invoke-Runs fuel name argv names (w ∷ ws) ns m h few there fits =
    Ends-then (Runs (w ∷ ws) ns) (IsFirst w 0 ns) (find_command fuel 0 names name m) _
      (find_command-IsFirst fuel 0 name w names ns m there h.0 fits.0 fits.1)
      (found-Runs name argv w ws ns m h few)

no_pointers : (m : ℕ → ℕ) (ws : List (List ℕ)) → ArePointers m [] ws → ws ≡ []
no_pointers m [] h = refl
no_pointers m (w ∷ ws) h = absurd h

Parses-Runs :
    (fuel buf : ℕ) (cs names : List ℕ) (ns : List (List ℕ)) (m : ℕ → ℕ) (p : Parsed)
    → AllBytes cs
    → length cs < fuel
    → AreNames m names ns
    → Apart buf (length cs) names ns
    → Parses [] cs buf m p
    → Ends (Runs (words cs) ns) (invoke fuel names p)
unfolding invoke
Parses-Runs fuel buf cs names ns m too_many bytes lt there out a = omega (arith, a)
Parses-Runs fuel buf cs names ns m (arguments [] m') bytes lt there out a =
    no_pointers m' (words cs)
      (subst (λ ps. ArePointers m' ps (words cs)) (sym a.appended) a.pointers)
Parses-Runs fuel buf cs names ns m (arguments (name ∷ argv) m') bytes lt there out a =
    let (all, short, first) = split-FirstFits fuel cs bytes lt in
    invoke-Runs fuel name argv names (words cs) ns m'
      (subst (λ ps. ArePointers m' ps (words cs)) (sym a.appended) a.pointers)
      (omega (arith, a.fits)) (AreNames-frame m m' buf (length cs) names ns a.low a.high out there)
      first

-- runcmd on a command. If the command has 16 words or more, it is refused; if it has none, nothing is
-- called. Otherwise the first command whose name is the first word is called, with a pointer to each
-- word, in their order and each ended by a 0; if no command has the name, it is unknown. The
-- hypotheses: the command and the names are strings of bytes, no name overlaps the command, and the
-- fuel is at least two more than the length of the command.
pub runcmd-Runs :
    (fuel buf : ℕ) (cs names : List ℕ) (ns : List (List ℕ)) (m : ℕ → ℕ)
    → IsString m buf cs
    → AllBytes cs
    → length cs + 1 < fuel
    → AreNames m names ns
    → Apart buf (length cs) names ns
    → Ends (Runs (words cs) ns) (runcmd fuel names buf m)
unfolding runcmd
runcmd-Runs fuel buf cs names ns m h bytes lt there out =
    Ends-then (Runs (words cs) ns) (Parses [] cs buf m) (parse_args fuel buf [] m) _
      (parse_args-Parses fuel buf [] cs m h lt (omega arith))
      (λ p a. Parses-Runs fuel buf cs names ns m p bytes (omega arith) there out a)
