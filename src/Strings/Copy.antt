-- ===== src/Strings/Copy.antt =====
-- strcpy, strcat, strncpy and memset of jos/lib/string.c.
use cs444_operating_systems.Base.{
  ℕ, zero, suc, ◌+◌, ◌-◌, ◌*◌, ◌/◌, ◌%◌, ◌^◌, true, false, ◌&&◌, ◌==◌, leb, ltb, Option, none, some,
  if◌then◌else◌, update, bit_and, bit_or,
}
use cs444_operating_systems.Strings.Scan.{strlen}

-- The memory after the call.
unfoldable pub strcpy : (fuel dst src : ℕ) → (ℕ → ℕ) → Option (ℕ → ℕ)
strcpy zero dst src m = none
strcpy (suc fuel) dst src m = elim (m src == 0) [
  | true ↦ some (update m dst (m src))
  | false ↦ strcpy fuel (dst + 1) (src + 1) (update m dst (m src))
]

unfoldable pub strcat : (fuel dst src : ℕ) → (ℕ → ℕ) → Option (ℕ → ℕ)
strcat fuel dst src m = elim (strlen fuel dst m) [
  | none ↦ none
  | some len ↦ strcpy fuel (dst + len) src m
]

unfoldable pub strncpy : (size dst src : ℕ) → (ℕ → ℕ) → ℕ → ℕ
strncpy zero dst src m = m
strncpy (suc size) dst src m =
    strncpy size (dst + 1) (if m src == 0 then src else src + 1) (update m dst (m src))

-- `rep stosb`
unfoldable pub store_bytes : (rounds v c : ℕ) → (ℕ → ℕ) → ℕ → ℕ
store_bytes zero v c m = m
store_bytes (suc rounds) v c m = store_bytes rounds (v + 1) c (update m v (c % 256))

-- `rep stosl`: the bytes of the word, the lowest first.
unfoldable pub store_longs : (rounds v c : ℕ) → (ℕ → ℕ) → ℕ → ℕ
store_longs zero v c m = m
store_longs (suc rounds) v c m =
    store_longs rounds (v + 4) c
      (λ a. if leb v a && ltb a (v + 4) then c / 2 ^ (8 * (a - v)) % 256 else m a)

-- `(c<<24)|(c<<16)|(c<<8)|c`
abbrev pub four_times : ℕ → ℕ
four_times c = bit_or (bit_or (bit_or (c * 2 ^ 24) (c * 2 ^ 16)) (c * 2 ^ 8)) c

unfoldable pub memset : (v c n : ℕ) → (ℕ → ℕ) → ℕ → ℕ
memset v c zero m = m
memset v c (suc n') m =
    if v % 4 == 0 && suc n' % 4 == 0
    then store_longs (suc n' / 4) v (four_times (bit_and c 0xFF)) m
    else store_bytes (suc n') v c m
