-- ===== src/Strings/Number.antt =====
-- strtol of jos/lib/string.c. A `long` is the bit pattern of 32 bits. The loops run on fuel, which is
-- enough if it is more than the length of the string.
use cs444_operating_systems.Base.{
  ℕ, zero, suc, ◌+◌, ◌-◌, ◌*◌, ◌^◌, Bool, true, false, ◌&&◌, ◌||◌, ◌==◌, leb, Option, none, some,
  if◌then◌else◌,
}
use cs444_operating_systems.Mmu.{u32}

-- The first address behind blanks and tabs.
unfoldable pub skip_blanks : (fuel s : ℕ) → (ℕ → ℕ) → Option ℕ
skip_blanks zero s m = none
skip_blanks (suc fuel) s m =
    let rest = skip_blanks fuel (s + 1) m in if m s == 32 || m s == 9 then rest else some s

-- Behind a sign, and whether it was a minus.
unfoldable pub sign : ℕ → (ℕ → ℕ) → ℕ × Bool
sign s m = if m s == 43 then (s + 1, false) else if m s == 45 then (s + 1, true) else (s, false)

-- Behind a prefix, and the base.
unfoldable pub prefix : (s base : ℕ) → (ℕ → ℕ) → ℕ × ℕ
prefix s base m =
    if (base == 0 || base == 16) && (m s == 48 && m (s + 1) == 120)
    then (s + 2, 16)
    else if base == 0 && m s == 48
    then (s + 1, 8)
    else if base == 0
    then (s, 10)
    else (s, base)

-- `dig`, where the character is a digit or a letter.
unfoldable pub dig : ℕ → Option ℕ
dig ch =
    if leb 48 ch && leb ch 57
    then some (ch - 48)
    else if leb 97 ch && leb ch 122
    then some (ch - 97 + 10)
    else if leb 65 ch && leb ch 90
    then some (ch - 65 + 10)
    else none

-- The digits from `s` on: the value, and the address behind them.
unfoldable pub digits : (fuel s base val : ℕ) → (ℕ → ℕ) → Option (ℕ × ℕ)
digits zero s base val m = none
digits (suc fuel) s base val m = elim (dig (m s)) [
  | none ↦ some (val, s)
  | some d ↦
      let rest = digits fuel (s + 1) base (u32 (val * base + d)) m in
      if leb base d then some (val, s) else rest
]

-- What strtol does behind the blanks.
unfoldable pub number_at : (fuel s base : ℕ) → (ℕ → ℕ) → Option (ℕ × ℕ)
number_at fuel s base m =
    let (s1, neg) = sign s m in
    let (s2, base1) = prefix s1 base m in
    elim (digits fuel s2 base1 0 m) [
      | none ↦ none
      | some (val, ends) ↦ some ((if neg then u32 (2 ^ 32 - val) else val), ends)
    ]

-- The value, and `*endptr`.
unfoldable pub strtol : (fuel s base : ℕ) → (ℕ → ℕ) → Option (ℕ × ℕ)
strtol fuel s base m = elim (skip_blanks fuel s m) [
  | none ↦ none
  | some s1 ↦ number_at fuel s1 base m
]
