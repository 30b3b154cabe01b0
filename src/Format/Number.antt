-- ===== src/Format/Number.antt =====
-- printnum of jos/lib/printfmt.c and strtol of jos/lib/string.c.
use cs444_operating_systems.Base.{
  ℕ, zero, suc, ◌+◌, ◌-◌, ◌*◌, ◌/◌, ◌%◌, ◌^◌, ◌≤◌, ◌<◌, ◌≡◌, ◌≢◌, ◌⊎◌, inl, inr, refl, false, some,
  List, [], ◌∷◌, ◌++◌, length, arith, ◌∙◌, ap,
}
use mathlib.Core.Path.{subst, sym}
use native.Mathlib.Nat.{pow-zero, pow-suc, mod-lt, div-add-mod', div-lt_iff_lt-mul, mod-eq_of_lt}
use native.Mathlib.Decide.{dec_lt}
use cs444_operating_systems.Strings.Number.{
  skip_blanks, sign, prefix, dig, digits, number_at, strtol,
}
use cs444_operating_systems.Strings.Truncate.{IsString}
use cs444_operating_systems.Format.{digit, repeat, printnum}

dig-digit : (d : ℕ) → d < 16 → dig (digit d) ≡ some d
unfolding dig digit
dig-digit d lt = ground arith

-- The characters of the list lie at `s`.
abbrev At : (ℕ → ℕ) → ℕ → List ℕ → Type 0
At m s [] = Unit
At m s (x ∷ xs) = (m s ≡ x) × At m (s + 1) xs

At-string : (m : ℕ → ℕ) (s : ℕ) (xs : List ℕ) → IsString m s xs → At m s xs
At-string m s [] h = tt
At-string m s (x ∷ xs) (here, ne, h) = (here, At-string m (s + 1) xs h)

string-ends : (m : ℕ → ℕ) (s : ℕ) (xs : List ℕ) → IsString m s xs → m (s + length xs) ≡ 0
string-ends m s [] h = ground arith
string-ends m s (x ∷ xs) (here, ne, h) = ground (arith, string-ends m (s + 1) xs h)

At-snoc :
    (m : ℕ → ℕ) (s c : ℕ) (xs : List ℕ)
    → At m s (xs ++ c ∷ [])
    → At m s xs × (m (s + length xs) ≡ c)
At-snoc m s c [] h = (tt, ground (arith, h.0))
At-snoc m s c (x ∷ xs) (here, rest) =
    let r = At-snoc m (s + 1) c xs rest in ((here, r.0), ground (arith, r.1))

length-snoc : (c : ℕ) (xs : List ℕ) → length (xs ++ c ∷ []) ≡ length xs + 1
length-snoc c [] = refl
length-snoc c (x ∷ xs) = ground (arith, length-snoc c xs)

-- One more digit.
digits-next :
    (fuel s base val d : ℕ) (m : ℕ → ℕ)
    → m s ≡ digit d
    → d < base
    → base ≤ 16
    → val * base + d < 2 ^ 32
    → digits (suc fuel) s base val m ≡ digits fuel (s + 1) base (val * base + d) m
unfolding digits
digits-next fuel s base val d m here lt small fits = ground (arith, here, dig-digit d (omega arith))

digits_end :
    (fuel s base val : ℕ) (m : ℕ → ℕ) → m s ≡ 0 → digits (suc fuel) s base val m ≡ some (val, s)
unfolding digits dig
digits_end fuel s base val m here = ground (arith, here)

repeat_none : (width padc : ℕ) → width ≤ 1 → repeat (width - 1) padc ≡ []
unfolding repeat
repeat_none width padc h = ground arith

printnum_more :
    (k num base width padc : ℕ)
    → base ≤ num
    → printnum (suc k) num base width padc
      ≡ printnum k (num / base) base (width - 1) padc ++ digit (num % base) ∷ []
unfolding printnum
printnum_more k num base width padc h = ground arith

printnum_last :
    (k num base width padc : ℕ)
    → num < base
    → width ≤ 1
    → printnum (suc k) num base width padc ≡ digit (num % base) ∷ []
unfolding printnum
printnum_last k num base width padc h narrow = ground (arith, repeat_none width padc narrow)

-- What `digits` makes of a text at `s` that reads as `num`.
abbrev Reads : (ℕ → ℕ) → (s base num : ℕ) → List ℕ → Type 0
Reads m s base num xs =
    At m s xs
    → (fuel : ℕ) → digits (length xs + fuel) s base 0 m ≡ digits fuel (s + length xs) base num m

Reads-snoc :
    (m : ℕ → ℕ) (s base val d : ℕ) (xs : List ℕ)
    → d < base
    → base ≤ 16
    → val * base + d < 2 ^ 32
    → Reads m s base val xs
    → Reads m s base (val * base + d) (xs ++ digit d ∷ [])
Reads-snoc m s base val d xs lt hi fits r h fuel =
    let (before, at) = At-snoc m s (digit d) xs h in
    rw (length-snoc (digit d) xs) (
      ap (λ n. digits n s base 0 m) (omega arith)
      ∙ r before (suc fuel)
      ∙ digits-next fuel (s + length xs) base val d m at lt hi fits
      ∙ ap (λ n. digits fuel n base (val * base + d) m) (omega arith))

-- The text is the printed number, of at most `k` digits.
printnum-Reads :
    (k num base width padc s : ℕ) (m : ℕ → ℕ)
    → 1 < base
    → base ≤ 16
    → width ≤ 1
    → num < base ^ k
    → num < 2 ^ 32
    → Reads m s base num (printnum k num base width padc)
unfolding printnum
printnum-Reads zero num base width padc s m lo hi narrow lt fits =
    λ h fuel. ground (arith, lt, pow-zero base)
printnum-Reads (suc k) num base width padc s m lo hi narrow lt fits = elim (dec_lt num base) [
  | yes last ↦
      let one = Reads-snoc m s base 0 num [] last hi (omega arith) (λ _ fuel. ground arith) in
      subst (Reads m s base num) (sym (printnum_last k num base width padc last narrow)) (
        subst (λ n. Reads m s base num (digit n ∷ [])) (sym (mod-eq_of_lt last))
          (subst (λ n. Reads m s base n (digit num ∷ [])) (omega arith) one))
  | no more ↦
      let low : num % base < base = mod-lt num (omega arith) in
      let high : num / base < base ^ k =
        (div-lt_iff_lt-mul {k = base} (omega arith)).1 (subst (λ n. num < n) (pow-suc base k) lt) in
      let whole = div-add-mod' num base in
      let rec =
        printnum-Reads k (num / base) base (width - 1) padc s m lo hi (omega arith) high
          (omega (arith, whole)) in
      subst (Reads m s base num) (sym (printnum_more k num base width padc (omega arith))) (
        subst
          (λ n.
            Reads m s base n
              (printnum k (num / base) base (width - 1) padc ++ digit (num % base) ∷ []))
          whole (Reads-snoc m s base (num / base) (num % base) _ low hi (omega (arith, whole)) rec))
]

-- The characters of digits.
abbrev AllDigits : List ℕ → Type 0
AllDigits [] = Unit
AllDigits (x ∷ xs) = ((d : ℕ) × (d < 16) × (x ≡ digit d)) × AllDigits xs

AllDigits-snoc : (d : ℕ) (xs : List ℕ) → d < 16 → AllDigits xs → AllDigits (xs ++ digit d ∷ [])
AllDigits-snoc d [] lt h = ((d, lt, refl), tt)
AllDigits-snoc d (x ∷ xs) lt (first, h) = (first, AllDigits-snoc d xs lt h)

printnum-AllDigits :
    (k num base width padc : ℕ)
    → 1 < base
    → base ≤ 16
    → width ≤ 1
    → AllDigits (printnum k num base width padc)
unfolding printnum
printnum-AllDigits zero num base width padc lo hi narrow = tt
printnum-AllDigits (suc k) num base width padc lo hi narrow =
    let low : num % base < 16 = omega (arith, mod-lt num {m = base} (omega arith)) in
    elim (dec_lt num base) [
      | yes last ↦
          subst AllDigits (sym (printnum_last k num base width padc last narrow))
            ((num % base, low, refl), tt)
      | no more ↦ subst AllDigits (sym (printnum_more k num base width padc (omega arith))) (
          AllDigits-snoc (num % base) _ low
            (printnum-AllDigits k (num / base) base (width - 1) padc lo hi (omega arith)))
    ]

-- A digit or the end of the string.
abbrev IsNumeral : ℕ → Type 0
IsNumeral c = (c ≡ 0) ⊎ ((d : ℕ) × (d < 16) × (c ≡ digit d))

first-IsNumeral :
    (m : ℕ → ℕ) (s : ℕ) (xs : List ℕ) → IsString m s xs → AllDigits xs → IsNumeral (m s)
first-IsNumeral m s [] h all = inl h
first-IsNumeral m s (x ∷ xs) (here, ne, h) ((d, lt, e), all) = inr (d, lt, here ∙ e)

IsNumeral-plain : (c : ℕ) → IsNumeral c → (c ≢ 32) × (c ≢ 9) × (c ≢ 43) × (c ≢ 45) × (c ≢ 120)
unfolding digit
IsNumeral-plain c (inl e) =
    (λ h. omega arith, λ h. omega arith, λ h. omega arith, λ h. omega arith, λ h. omega arith)
IsNumeral-plain c (inr (d, lt, e)) =
    (λ h. ground arith, λ h. ground arith, λ h. ground arith, λ h. ground arith, λ h. ground arith)

second :
    (m : ℕ → ℕ) (s : ℕ) (xs : List ℕ)
    → IsString m s xs
    → AllDigits xs
    → ¬ ((m s ≡ 48) × (m (s + 1) ≡ 120))
second m s [] h all (zero_digit, x_letter) = omega arith
second m s (x ∷ xs) (here, ne, h) (first, all) (zero_digit, x_letter) =
    (IsNumeral-plain (m (s + 1)) (first-IsNumeral m (s + 1) xs h all)).4 x_letter

prefix_none :
    (m : ℕ → ℕ) (s base : ℕ)
    → base ≢ 0
    → ¬ ((m s ≡ 48) × (m (s + 1) ≡ 120))
    → prefix s base m ≡ (s, base)
unfolding prefix
prefix_none m s base ne out = ground arith

pub skip_first :
    (fuel s : ℕ) (m : ℕ → ℕ) → 0 < fuel → m s ≢ 32 → m s ≢ 9 → skip_blanks fuel s m ≡ some s
unfolding skip_blanks
skip_first zero s m pos blank tab = absurd (omega arith)
skip_first (suc fuel) s m pos blank tab = ground arith

sign_none : (s : ℕ) (m : ℕ → ℕ) → m s ≢ 43 → m s ≢ 45 → sign s m ≡ (s, false)
unfolding sign
sign_none s m plus minus = ground arith

number_at-digits :
    (fuel s base val ends : ℕ) (m : ℕ → ℕ)
    → sign s m ≡ (s, false)
    → prefix s base m ≡ (s, base)
    → digits fuel s base 0 m ≡ some (val, ends)
    → number_at fuel s base m ≡ some (val, ends)
unfolding number_at
number_at-digits fuel s base val ends m e1 e2 e3 = ground (arith, e1, e2, e3)

pub strtol_lem :
    (fuel s s1 base : ℕ) (m : ℕ → ℕ)
    → skip_blanks fuel s m ≡ some s1
    → strtol fuel s base m ≡ number_at fuel s1 base m
unfolding strtol
strtol_lem fuel s s1 base m e = ground (arith, e)

-- The digits of a printed number at `s`.
pub digits-printed :
    (k num base width padc fuel s : ℕ) (m : ℕ → ℕ)
    → 1 < base
    → base ≤ 16
    → width ≤ 1
    → num < base ^ k
    → num < 2 ^ 32
    → let xs = printnum k num base width padc in
      IsString m s xs → digits (length xs + suc fuel) s base 0 m ≡ some (num, s + length xs)
digits-printed k num base width padc fuel s m lo hi narrow lt fits h =
    let xs = printnum k num base width padc in
    printnum-Reads k num base width padc s m lo hi narrow lt fits (At-string m s xs h) (suc fuel)
    ∙ digits_end fuel (s + length xs) base num m (string-ends m s xs h)

-- No blank, sign or prefix is in front of it.
pub printed-plain :
    (k num base width padc s : ℕ) (m : ℕ → ℕ)
    → 1 < base
    → base ≤ 16
    → width ≤ 1
    → IsString m s (printnum k num base width padc)
    → (m s ≢ 32) × (m s ≢ 9) × (sign s m ≡ (s, false)) × (prefix s base m ≡ (s, base))
printed-plain k num base width padc s m lo hi narrow h =
    let xs = printnum k num base width padc in
    let all = printnum-AllDigits k num base width padc lo hi narrow in
    let plain = IsNumeral-plain (m s) (first-IsNumeral m s xs h all) in
    (
      plain.0,
      plain.1,
      sign_none s m plain.2 plain.3,
      prefix_none m s base (λ e. omega arith) (second m s xs h all),
    )

-- A number that printnum has printed in base 2 to 16 without padding, and that strtol reads from
-- memory in the same base, is the same number again, and all of the text is read. The hypotheses: the
-- number has at most `k` digits and is below 2 ^ 31, and the fuel is more than the length of the text.
pub strtol-printnum :
    (k num base width padc fuel s : ℕ) (m : ℕ → ℕ)
    → 1 < base
    → base ≤ 16
    → width ≤ 1
    → num < base ^ k
    → num < 2 ^ 31
    → let xs = printnum k num base width padc in
      IsString m s xs → strtol (length xs + suc fuel) s base m ≡ some (num, s + length xs)
strtol-printnum k num base width padc fuel s m lo hi narrow lt fits h =
    let n = length (printnum k num base width padc) in
    let (blank, tab, no_sign, no_prefix) = printed-plain k num base width padc s m lo hi narrow h in
    strtol_lem (n + suc fuel) s s base m (skip_first (n + suc fuel) s m (omega arith) blank tab)
    ∙ number_at-digits (n + suc fuel) s base num (s + n) m no_sign no_prefix
        (digits-printed k num base width padc fuel s m lo hi narrow lt (omega arith) h)
