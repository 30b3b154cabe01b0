-- ===== src/Monitor/Words.antt =====
-- The arguments of a command, runcmd of jos/kern/monitor.c.
use cs444_operating_systems.Base.{
  ℕ, zero, suc, ◌+◌, ◌<◌, ◌≤◌, ◌≡◌, refl, Bool, true, false, not, ◌&&◌, ◌==◌, Option, List, [], ◌∷◌,
  if◌then◌else◌, length, update, arith, ◌∙◌, Bool-cases, inl, inr,
}
use cs444_operating_systems.Strings.Truncate.{IsString, IsString-update}
use cs444_operating_systems.Format.Ends.{Ends, Ends-weaken}
use cs444_operating_systems.Monitor.{is_space, gobble, scan_past}

abbrev pub joined : List ℕ → List (List ℕ) → List (List ℕ)
joined [] ws = ws
joined (x ∷ xs) ws = (x ∷ xs) ∷ ws

-- What is before the first whitespace, and the words behind it.
abbrev pub split : List ℕ → List ℕ × List (List ℕ)
split [] = ([], [])
split (c ∷ cs) =
    if is_space c then ([], joined (split cs).0 (split cs).1) else (c ∷ (split cs).0, (split cs).1)

-- The longest pieces without whitespace.
abbrev pub words : List ℕ → List (List ℕ)
words cs = joined (split cs).0 (split cs).1

-- The characters do not go on with the word before them.
unfoldable pub Boundary : List ℕ → Type 0
Boundary [] = Unit
Boundary (c ∷ cs) = is_space c ≡ true

unfoldable pub Starts : List ℕ → Type 0
Starts [] = Unit
Starts (c ∷ cs) = is_space c ≡ false

module _ {A : Type 0} (P : A → Type 0) where
  pub Ends-true :
      (b : Bool) (x y : Option A) → b ≡ true → Ends P x → Ends P (elim b [ true ↦ x | false ↦ y ])
  Ends-true true x y e h = h
  Ends-true false x y e h = absurd cc

  pub Ends-false :
      (b : Bool) (x y : Option A) → b ≡ false → Ends P y → Ends P (elim b [ true ↦ x | false ↦ y ])
  Ends-false true x y e h = absurd cc
  Ends-false false x y e h = h

IsString-same :
    (m m' : ℕ → ℕ) (s : ℕ) (xs : List ℕ)
    → ((a : ℕ) → s ≤ a → m' a ≡ m a)
    → IsString m s xs
    → IsString m' s xs
IsString-same m m' s [] same h = same s (omega arith) ∙ h
IsString-same m m' s (x ∷ xs) same (here, ne, h) = (
  same s (omega arith) ∙ here,
  ne,
  IsString-same m m' (s + 1) xs (λ a le. same a (omega arith)) h,
)

pub record Gap (buf : ℕ) (m : ℕ → ℕ) (cs : List ℕ) (r : (ℕ → ℕ) × ℕ) : Type 0 where
  pub left : List ℕ
  pub string : IsString r.0 r.1 left
  pub same_words : words left ≡ words cs
  pub starts : Starts left
  pub total : r.1 + length left ≡ buf + length cs
  pub above : buf ≤ r.1
  pub low : (a : ℕ) → a < buf → r.0 a ≡ m a
  pub high : (a : ℕ) → r.1 ≤ a → r.0 a ≡ m a
  pub ended : Boundary cs → r.0 buf ≡ 0

pub gobble-Gap :
    (fuel buf : ℕ) (m : ℕ → ℕ) (cs : List ℕ)
    → IsString m buf cs
    → length cs < fuel
    → Ends (Gap buf m cs) (gobble fuel buf m)
unfolding gobble Boundary Starts
gobble-Gap zero buf m cs h lt = absurd (omega arith)
gobble-Gap (suc fuel) buf m [] h lt =
    Ends-false (Gap buf m []) (not (m buf == 0) && is_space (m buf)) _ _ (ground (arith, h))
      (record {
        left = [];
        string = h;
        same_words = refl;
        starts = tt;
        total = refl;
        above = omega arith;
        low = λ a l. refl;
        high = λ a l. refl;
        ended = λ b. h;
      })
gobble-Gap (suc fuel) buf m (c ∷ cs) (here, ne, h) lt = elim (Bool-cases (is_space c)) [
  | inl space ↦
      let going : (not (m buf == 0) && is_space (m buf)) ≡ true = ground (arith, here, space) in
      let rec =
        gobble-Gap fuel (buf + 1) (update m buf 0) cs
          (IsString-update m (buf + 1) buf 0 cs (inl (omega arith)) h) (omega arith) in
      Ends-true (Gap buf m (c ∷ cs)) _ _ _ going (
        Ends-weaken (Gap (buf + 1) (update m buf 0) cs) (Gap buf m (c ∷ cs))
          (gobble fuel (buf + 1) (update m buf 0)) rec
          (λ r g. record {
            left = g.left;
            string = g.string;
            same_words = g.same_words ∙ rw space refl;
            starts = g.starts;
            total = omega (arith, g.total);
            above = omega (arith, g.above);
            low = λ a l. g.low a (omega arith) ∙ ground arith;
            high = λ a l. g.high a l ∙ ground (arith, g.above);
            ended = λ b. g.low buf (omega arith) ∙ ground arith;
          }))
  | inr other ↦
      let stop : (not (m buf == 0) && is_space (m buf)) ≡ false = ground (arith, here, other) in
      Ends-false (Gap buf m (c ∷ cs)) _ _ _ stop (record {
        left = c ∷ cs;
        string = (here, ne, h);
        same_words = refl;
        starts = other;
        total = refl;
        above = omega arith;
        low = λ a l. refl;
        high = λ a l. refl;
        ended = λ b. ground (arith, other, b);
      })
]

pub record Word (buf : ℕ) (m : ℕ → ℕ) (cs : List ℕ) (b : ℕ) : Type 0 where
  pub left : List ℕ
  pub string : IsString m b left
  pub boundary : Boundary left
  pub more : words left ≡ (split cs).1
  pub size : b ≡ buf + length (split cs).0
  pub total : b + length left ≡ buf + length cs
  pub word : (m' : ℕ → ℕ) → ((a : ℕ) → a < b → m' a ≡ m a) → m' b ≡ 0 → IsString m' buf (split cs).0

pub scan_past-Word :
    (fuel buf : ℕ) (m : ℕ → ℕ) (cs : List ℕ)
    → IsString m buf cs
    → length cs < fuel
    → Ends (Word buf m cs) (scan_past fuel buf m)
unfolding scan_past Boundary
scan_past-Word zero buf m cs h lt = absurd (omega arith)
scan_past-Word (suc fuel) buf m [] h lt =
    Ends-false (Word buf m []) (not (m buf == 0) && not (is_space (m buf))) _ _ (ground (arith, h))
      (record {
        left = [];
        string = h;
        boundary = tt;
        more = refl;
        size = omega arith;
        total = refl;
        word = λ m' same z. z;
      })
scan_past-Word (suc fuel) buf m (c ∷ cs) (here, ne, h) lt = elim (Bool-cases (is_space c)) [
  | inl space ↦
      let stop : (not (m buf == 0) && not (is_space (m buf))) ≡ false =
        ground (arith, here, space) in
      Ends-false (Word buf m (c ∷ cs)) _ _ _ stop (record {
        left = c ∷ cs;
        string = (here, ne, h);
        boundary = space;
        more = rw space refl;
        size = rw space (omega arith);
        total = refl;
        word = λ m' same z. rw space z;
      })
  | inr other ↦
      let going : (not (m buf == 0) && not (is_space (m buf))) ≡ true =
        ground (arith, here, other) in
      let rec = scan_past-Word fuel (buf + 1) m cs h (omega arith) in
      Ends-true (Word buf m (c ∷ cs)) _ _ _ going (
        Ends-weaken (Word (buf + 1) m cs) (Word buf m (c ∷ cs)) (scan_past fuel (buf + 1) m) rec
          (λ b w. record {
            left = w.left;
            string = w.string;
            boundary = w.boundary;
            more = w.more ∙ rw other refl;
            size = rw other (omega (arith, w.size));
            total = omega (arith, w.total);
            word = λ m' same z.
                rw other (same buf (omega (arith, w.size)) ∙ here, ne, w.word m' same z);
          }))
]
