-- ===== src/Monitor/Argv.antt =====
-- The parser of runcmd, jos/kern/monitor.c: the arguments are the words of the command.
use cs444_operating_systems.Base.{
  ℕ, zero, suc, ◌+◌, ◌-◌, ◌<◌, ◌≤◌, ◌≡◌, refl, true, false, ◌==◌, Option, none, some, List, [], ◌∷◌,
  ◌++◌, length, arith, ◌∙◌, ap, sym,
}
use mathlib.Core.Path.{subst}
use mathlib.Core.List.{append-nil, append_assoc}
use cs444_operating_systems.Strings.Truncate.{IsString}
use cs444_operating_systems.Format.Ends.{Ends, Ends-if, Ends-then, Ends-weaken}
use cs444_operating_systems.Monitor.{
  is_space, gobble, scan_past, parse_args, Parsed, arguments, too_many, maxargs,
}
use cs444_operating_systems.Monitor.Words.{
  split, words, Boundary, Starts, Gap, gobble-Gap, Word, scan_past-Word, Ends-true, Ends-false,
}

-- The pointers are to strings with these characters.
abbrev pub ArePointers : (ℕ → ℕ) → List ℕ → List (List ℕ) → Type 0
ArePointers m [] [] = Unit
ArePointers m (p ∷ ps) (w ∷ ws) = IsString m p w × ArePointers m ps ws
ArePointers m [] (w ∷ ws) = ⊥
ArePointers m (p ∷ ps) [] = ⊥

abbrev pub count : List (List ℕ) → ℕ
count [] = 0
count (w ∷ ws) = suc (count ws)

-- `argv` is the old arguments and a pointer to each word, and it fits with the null pointer.
pub record Arguments (old cs : List ℕ) (buf : ℕ) (m : ℕ → ℕ) (argv : List ℕ) (m' : ℕ → ℕ)
    : Type 0 where
  pub new : List ℕ
  pub appended : argv ≡ old ++ new
  pub pointers : ArePointers m' new (words cs)
  pub fits : length old + count (words cs) < maxargs
  pub low : (a : ℕ) → a < buf → m' a ≡ m a
  pub high : (a : ℕ) → buf + length cs ≤ a → m' a ≡ m a
  pub ended : Boundary cs → m' buf ≡ 0

-- The parser has read the characters: the words are the next arguments, or there are too many.
abbrev pub Parses : List ℕ → List ℕ → ℕ → (ℕ → ℕ) → Parsed → Type 0
Parses old cs buf m (arguments argv m') = Arguments old cs buf m argv m'
Parses old cs buf m too_many = maxargs ≤ length old + count (words cs)

length-one : (xs : List ℕ) (y : ℕ) → length (xs ++ y ∷ []) ≡ length xs + 1
length-one [] y = refl
length-one (x ∷ xs) y = omega (arith, length-one xs y)

words-Starts :
    (x : ℕ) (xs : List ℕ)
    → is_space x ≡ false
    → words (x ∷ xs) ≡ (split (x ∷ xs)).0 ∷ (split (x ∷ xs)).1
words-Starts x xs e = rw e refl

length-split : (x : ℕ) (xs : List ℕ) → is_space x ≡ false → 0 < length (split (x ∷ xs)).0
length-split x xs e = rw e (omega arith)

-- The first word is an argument, and those behind it are read.
Parses-word :
    (argv cs first left : List ℕ) (buf q b : ℕ) (m m1 : ℕ → ℕ) (p : Parsed)
    → buf < b
    → words cs ≡ first ∷ words left
    → Boundary left
    → ((m' : ℕ → ℕ) → ((a : ℕ) → a < b → m' a ≡ m1 a) → m' b ≡ 0 → IsString m' q first)
    → ((a : ℕ) → a < buf → m1 a ≡ m a)
    → ((a : ℕ) → b ≤ a → m1 a ≡ m a)
    → (Boundary cs → m1 buf ≡ 0)
    → b + length left ≡ buf + length cs
    → Parses (argv ++ q ∷ []) left b m1 p
    → Parses argv cs buf m p
Parses-word argv cs first left buf q b m m1 too_many lt ws boundary word low high ended total a =
    omega (arith, a, length-one argv q, ap count ws)
Parses-word argv cs first left buf q b m m1 (arguments args m') lt ws boundary word low high ended
      total a =
    record {
      new = q ∷ a.new;
      appended = a.appended ∙ append_assoc argv (q ∷ []) a.new;
      pointers =
          subst (ArePointers m' (q ∷ a.new)) (sym ws)
            (word m' a.low (a.ended boundary), a.pointers);
      fits = omega (arith, a.fits, length-one argv q, ap count ws);
      low = λ i l. a.low i (omega arith) ∙ low i l;
      high = λ i l. a.high i (omega (arith, total)) ∙ high i (omega (arith, total));
      ended = λ s. a.low buf lt ∙ ended s;
    }

-- What parse_args does when the whitespace is gobbled.
abbrev next_argument : (fuel : ℕ) → List ℕ → (ℕ → ℕ) × ℕ → Option Parsed
next_argument fuel argv r = elim (r.0 r.1 == 0) [
  | true ↦ some (arguments argv r.0)
  | false ↦ elim (length argv == maxargs - 1) [
    | true ↦ some too_many
    | false ↦ elim (scan_past fuel r.1 r.0) [
      | none ↦ none
      | some b ↦ parse_args fuel b (argv ++ r.1 ∷ []) r.0
    ]
  ]
]

next_argument-Parses :
    (fuel buf : ℕ) (argv cs left : List ℕ) (m : ℕ → ℕ) (r : (ℕ → ℕ) × ℕ)
    → IsString r.0 r.1 left
    → words left ≡ words cs
    → Starts left
    → length left < fuel
    → buf ≤ r.1
    → ((a : ℕ) → a < buf → r.0 a ≡ m a)
    → ((a : ℕ) → r.1 ≤ a → r.0 a ≡ m a)
    → (Boundary cs → r.0 buf ≡ 0)
    → r.1 + length left ≡ buf + length cs
    → length argv < maxargs
    → ((b : ℕ) (left' : List ℕ)
        → IsString r.0 b left'
        → length left' + 1 < fuel
        → length argv + 1 < maxargs
        → Ends (Parses (argv ++ r.1 ∷ []) left' b r.0) (parse_args fuel b (argv ++ r.1 ∷ []) r.0))
    → Ends (Parses argv cs buf m) (next_argument fuel argv r)
unfolding Starts
next_argument-Parses fuel buf argv cs [] m r h same starts lt above low high ended total room rec =
    Ends-true (Parses argv cs buf m) (r.0 r.1 == 0) _ _ (ground (arith, h)) (record {
      new = [];
      appended = sym (append-nil argv);
      pointers = subst (ArePointers r.0 []) same tt;
      fits = omega (arith, ap count same);
      low = low;
      high = λ a l. high a (omega (arith, total));
      ended = ended;
    })
next_argument-Parses fuel buf argv cs (x ∷ xs) m r (here, ne, h) same starts lt above low high ended
      total room rec =
    let P = Parses argv cs buf m in
    let ws = sym same ∙ words-Starts x xs starts in
    Ends-false P (r.0 r.1 == 0) _ _ (ground (arith, here)) (
      Ends-if P (length argv == maxargs - 1) _ _ (λ full. ground (arith, full, ap count ws))
        (λ space.
          Ends-then P (Word r.1 r.0 (x ∷ xs)) (scan_past fuel r.1 r.0) _
            (scan_past-Word fuel r.1 r.0 (x ∷ xs) (here, ne, h) lt)
            (λ b w.
              Ends-weaken (Parses (argv ++ r.1 ∷ []) w.left b r.0) P _
                (rec b w.left w.string (omega (arith, w.size, w.total, length-split x xs starts))
                  (ground (arith, space)))
                (λ p.
                  Parses-word argv cs (split (x ∷ xs)).0 w.left buf r.1 b m r.0 p
                    (omega (arith, w.size, length-split x xs starts))
                    (ws ∙ ap (λ us. (split (x ∷ xs)).0 ∷ us) (sym w.more)) w.boundary w.word low
                    (λ a l. high a (omega (arith, w.size))) ended
                    (omega (arith, w.total, total))))))

-- parse_args reads the command to its end: `argv` gets a pointer to each of its words, in their
-- order, each ended by a 0, or there are 16 words or more. No byte outside the command changes.
pub parse_args-Parses :
    (fuel buf : ℕ) (argv cs : List ℕ) (m : ℕ → ℕ)
    → IsString m buf cs
    → length cs + 1 < fuel
    → length argv < maxargs
    → Ends (Parses argv cs buf m) (parse_args fuel buf argv m)
unfolding parse_args
parse_args-Parses zero buf argv cs m h lt room = absurd (omega arith)
parse_args-Parses (suc fuel) buf argv cs m h lt room =
    Ends-then (Parses argv cs buf m) (Gap buf m cs) (gobble fuel buf m) (next_argument fuel argv)
      (gobble-Gap fuel buf m cs h (omega arith))
      (λ r g.
        next_argument-Parses fuel buf argv cs g.left m r g.string g.same_words g.starts
          (omega (arith, g.total)) g.above g.low g.high g.ended g.total room
          (λ b left h' lt' room'.
            parse_args-Parses fuel b (argv ++ r.1 ∷ []) left r.0 h' lt'
              (omega (arith, length-one argv r.1))))
