-- ===== src/Strings/Truncate.antt =====
-- strlcpy of jos/lib/string.c.
use cs444_operating_systems.Base.{
  ℕ, zero, suc, ◌+◌, ◌<◌, ◌≡◌, ◌≢◌, ◌⊎◌, false, List, [], ◌∷◌, arith, ◌==◌, update, length, ◌∙◌,
}
use cs444_operating_systems.Strings.{copy_bounded, strlcpy}

-- From `s` on the memory holds these characters, none of them 0, and then a 0.
abbrev pub IsString : (ℕ → ℕ) → ℕ → List ℕ → Type 0
IsString m s [] = m s ≡ 0
IsString m s (x ∷ xs) = (m s ≡ x) × (x ≢ 0) × IsString m (s + 1) xs

-- The first characters of a list.
abbrev pub take : ℕ → List ℕ → List ℕ
take zero xs = []
take (suc n) [] = []
take (suc n) (x ∷ xs) = x ∷ take n xs

pub IsString-update :
    (m : ℕ → ℕ) (s a v : ℕ) (xs : List ℕ)
    → (a < s) ⊎ (s + length xs < a)
    → IsString m s xs
    → IsString (update m a v) s xs
IsString-update m s a v [] out h = ground arith
IsString-update m s a v (x ∷ xs) out (here, ne, rest) =
    (ground arith, ne, IsString-update m (s + 1) a v xs (ground arith) rest)

-- What the loop of strlcpy leaves.
record Copied (size dst : ℕ) (xs : List ℕ) (m : ℕ → ℕ) (r : (ℕ → ℕ) × ℕ) : Type 0 where
  string : IsString r.0 dst (take size xs)
  ends : r.1 ≡ dst + length (take size xs)
  rest : (a : ℕ) → (a < dst) ⊎ (dst + size < a) → r.0 a ≡ m a

copy_bounded-Copied :
    (size dst src : ℕ) (xs : List ℕ) (m : ℕ → ℕ)
    → IsString m src xs
    → (dst + size < src) ⊎ (src + length xs < dst)
    → Copied size dst xs m (copy_bounded size dst src m)
unfolding copy_bounded
copy_bounded-Copied zero dst src xs m h apart = record {
  string = ground arith;
  ends = omega arith;
  rest = λ a out. ground arith;
}
copy_bounded-Copied (suc size) dst src [] m h apart =
    rw h (record { string = ground arith; ends = omega arith; rest = λ a out. ground arith })
copy_bounded-Copied (suc size) dst src (x ∷ xs) m (here, ne, more) apart =
    let m' = update m dst (m src) in
    let rec =
      copy_bounded-Copied size (dst + 1) (src + 1) xs m'
        (IsString-update m (src + 1) dst (m src) xs (ground arith) more) (ground arith) in
    let going : (m src == 0) ≡ false = ground arith in
    rw going (record {
      string = (rec.rest dst (ground arith) ∙ ground arith, ne, rec.string);
      ends = omega (arith, rec.ends);
      rest = λ a out. rec.rest a (ground arith) ∙ ground arith;
    })

-- strlcpy into a buffer of `size` bytes, at least 1, writes the first `size - 1` characters of the
-- string at `src`, or all of them if there are fewer, and a 0 behind them. It returns how many
-- characters it has written, and changes no byte outside the buffer. The hypothesis: the buffer and
-- the string do not overlap.
pub strlcpy_truncates :
    (dst src size : ℕ) (xs : List ℕ) (m : ℕ → ℕ)
    → IsString m src xs
    → (dst + size < src) ⊎ (src + length xs < dst)
    → let r = strlcpy dst src (suc size) m in
      IsString r.0 dst (take size xs)
      × (r.1 ≡ length (take size xs))
      × ((a : ℕ) → (a < dst) ⊎ (dst + size < a) → r.0 a ≡ m a)
unfolding strlcpy
strlcpy_truncates dst src size xs m h apart =
    let c = copy_bounded-Copied size dst src xs m h apart in
    (c.string, omega (arith, c.ends), c.rest)
