-- ===== src/Strings/Scan.antt =====
-- The scans of jos/lib/string.c. A `char` is signed: where the sign does not matter a character is its
-- byte. A scan without a bound runs on fuel, which is enough if it is more than the length of the
-- string.
use cs444_operating_systems.Base.{
  ℕ, zero, suc, ◌+◌, ◌-◌, ◌%◌, ◌^◌, true, false, not, ◌&&◌, ◌||◌, ◌==◌, Option, none, some,
}
use cs444_operating_systems.Mmu.{u32}

unfoldable pub strlen : (fuel s : ℕ) → (ℕ → ℕ) → Option ℕ
strlen zero s m = none
strlen (suc fuel) s m = elim (m s == 0) [
  | true ↦ some 0
  | false ↦ elim (strlen fuel (s + 1) m) [ none ↦ none | some n ↦ some (suc n) ]
]

unfoldable pub strnlen : (size s : ℕ) → (ℕ → ℕ) → ℕ
strnlen zero s m = 0
strnlen (suc size) s m = elim (m s == 0) [ true ↦ 0 | false ↦ suc (strnlen size (s + 1) m) ]

-- The int `a - b` of two bytes.
abbrev pub difference : ℕ → ℕ → ℕ
difference a b = u32 (a + 2 ^ 32 - b)

unfoldable pub strcmp : (fuel p q : ℕ) → (ℕ → ℕ) → Option ℕ
strcmp zero p q m = none
strcmp (suc fuel) p q m = elim (not (m p == 0) && m p == m q) [
  | true ↦ strcmp fuel (p + 1) (q + 1) m
  | false ↦ some (difference (m p) (m q))
]

unfoldable pub strncmp : (n p q : ℕ) → (ℕ → ℕ) → ℕ
strncmp zero p q m = 0
strncmp (suc n) p q m = elim (not (m p == 0) && m p == m q) [
  | true ↦ strncmp n (p + 1) (q + 1) m
  | false ↦ difference (m p) (m q)
]

-- A null pointer is `some none`.
unfoldable pub strchr : (fuel s c : ℕ) → (ℕ → ℕ) → Option (Option ℕ)
strchr zero s c m = none
strchr (suc fuel) s c m = elim (m s == 0) [
  | true ↦ some none
  | false ↦ elim (m s == c) [ true ↦ some (some s) | false ↦ strchr fuel (s + 1) c m ]
]

unfoldable pub strfind : (fuel s c : ℕ) → (ℕ → ℕ) → Option ℕ
strfind zero s c m = none
strfind (suc fuel) s c m = elim (m s == 0 || m s == c) [
  | true ↦ some s
  | false ↦ strfind fuel (s + 1) c m
]

unfoldable pub memcmp : (n v1 v2 : ℕ) → (ℕ → ℕ) → ℕ
memcmp zero v1 v2 m = 0
memcmp (suc n) v1 v2 m = elim (m v1 == m v2) [
  | true ↦ memcmp n (v1 + 1) (v2 + 1) m
  | false ↦ difference (m v1) (m v2)
]

unfoldable pub memfind : (n s c : ℕ) → (ℕ → ℕ) → ℕ
memfind zero s c m = s
memfind (suc n) s c m = elim (m s == c % 256) [ true ↦ s | false ↦ memfind n (s + 1) c m ]
