-- ===== src/Strings/Append.antt =====
-- strlen, strcpy and strcat of jos/lib/string.c.
use cs444_operating_systems.Base.{
  ℕ, zero, suc, ◌+◌, ◌<◌, ◌≡◌, ◌⊎◌, inl, some, List, [], ◌∷◌, ◌++◌, length, arith, update, ◌∙◌,
}
use mathlib.Core.Path.{subst}
use cs444_operating_systems.Strings.Scan.{strlen}
use cs444_operating_systems.Strings.Copy.{strcpy, strcat}
use cs444_operating_systems.Strings.Truncate.{IsString, IsString-update}

strlen-IsString :
    (fuel s : ℕ) (m : ℕ → ℕ) (xs : List ℕ)
    → IsString m s xs
    → length xs < fuel
    → strlen fuel s m ≡ some (length xs)
unfolding strlen
strlen-IsString zero s m xs h lt = absurd (omega arith)
strlen-IsString (suc fuel) s m [] h lt = ground (arith, h)
strlen-IsString (suc fuel) s m (x ∷ xs) (at, ne, h) lt =
    ground (arith, at, ne, strlen-IsString fuel (s + 1) m xs h (omega arith))

-- What is at the destination, and that nothing else is changed.
record Placed (dst n : ℕ) (xs : List ℕ) (m m' : ℕ → ℕ) : Type 0 where
  string : IsString m' dst xs
  rest : (a : ℕ) → (a < dst) ⊎ (dst + n < a) → m' a ≡ m a

strcpy-Placed :
    (fuel dst src : ℕ) (m : ℕ → ℕ) (xs : List ℕ)
    → IsString m src xs
    → (dst + length xs < src) ⊎ (src + length xs < dst)
    → length xs < fuel
    → (m' : ℕ → ℕ) × (strcpy fuel dst src m ≡ some m') × Placed dst (length xs) xs m m'
unfolding strcpy
strcpy-Placed zero dst src m xs h apart lt = absurd (omega arith)
strcpy-Placed (suc fuel) dst src m [] h apart lt = (
  update m dst (m src),
  ground (arith, h),
  record { string = ground (arith, h); rest = λ a out. ground arith },
)
strcpy-Placed (suc fuel) dst src m (x ∷ xs) (at, ne, h) apart lt =
    let (m', e, p) =
      strcpy-Placed fuel (dst + 1) (src + 1) (update m dst (m src)) xs
        (IsString-update m (src + 1) dst (m src) xs (ground arith) h) (ground arith)
        (omega arith) in
    (
      m',
      ground (arith, at, ne, e),
      record {
        string = (p.rest dst (inl (omega arith)) ∙ ground (arith, at), ne, p.string);
        rest = λ a out. p.rest a (ground arith) ∙ ground arith;
      },
    )

IsString-append :
    (s : ℕ) (m m' : ℕ → ℕ) (xs ys : List ℕ)
    → IsString m s xs
    → ((a : ℕ) → a < s + length xs → m' a ≡ m a)
    → IsString m' (s + length xs) ys
    → IsString m' s (xs ++ ys)
IsString-append s m m' [] ys h same next = subst (λ a. IsString m' a ys) (omega arith) next
IsString-append s m m' (x ∷ xs) ys (at, ne, h) same next = (
  same s (omega arith) ∙ at,
  ne,
  IsString-append (s + 1) m m' xs ys h (λ a lt. same a (omega arith))
      (subst (λ a. IsString m' a ys) (omega arith) next),
)

-- strcat leaves both strings behind each other at `dst`, ends, and changes no byte below the end of
-- the first string and none behind the 0 of the result. The hypotheses: the string at `src` does not
-- overlap what is written, and the fuel is more than the lengths of the strings.
pub strcat_appends :
    (fuel dst src : ℕ) (m : ℕ → ℕ) (xs ys : List ℕ)
    → IsString m dst xs
    → IsString m src ys
    → (dst + length xs + length ys < src) ⊎ (src + length ys < dst + length xs)
    → length xs < fuel
    → length ys < fuel
    → (m' : ℕ → ℕ) × (strcat fuel dst src m ≡ some m')
      × IsString m' dst (xs ++ ys)
      × ((a : ℕ) → (a < dst + length xs) ⊎ (dst + length xs + length ys < a) → m' a ≡ m a)
unfolding strcat
strcat_appends fuel dst src m xs ys h1 h2 apart lx ly =
    let (m', e, p) = strcpy-Placed fuel (dst + length xs) src m ys h2 apart ly in
    (
      m',
      ground (arith, strlen-IsString fuel dst m xs h1 lx, e),
      IsString-append dst m m' xs ys h1 (λ a lt. p.rest a (inl lt)) p.string,
      p.rest,
    )
