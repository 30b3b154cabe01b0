-- ===== src/Strings.antt =====
-- memmove, memcpy and strlcpy of jos/lib/string.c, on memory as a function from the address of a
-- byte to the byte.
pub mod Move
pub mod Number
pub mod Scan
pub mod Copy
pub mod Fill
pub mod Append
pub mod Compare
pub mod Truncate
use cs444_operating_systems.Base.{
  ℕ, zero, suc, ◌+◌, ◌-◌, ◌%◌, ◌/◌, Bool, true, false, ◌&&◌, ◌==◌, leb, ltb, if◌then◌else◌, update,
}
use cs444_operating_systems.Mmu.{u32}

-- One move of `u` bytes from `s` to `d`.
abbrev pub copy_unit : (u d s : ℕ) → (ℕ → ℕ) → ℕ → ℕ
copy_unit u d s m a = if leb d a && ltb a (d + u) then m (s + (a - d)) else m a

-- `cld; rep movs`: `rounds` moves, upwards.
unfoldable pub copy_up : (u rounds d s : ℕ) → (ℕ → ℕ) → ℕ → ℕ
copy_up u zero d s m = m
copy_up u (suc rounds) d s m = copy_up u rounds (d + u) (s + u) (copy_unit u d s m)

-- `std; rep movs`, downwards, where `d` and `s` are the ends of what is left.
unfoldable pub copy_down : (u rounds d s : ℕ) → (ℕ → ℕ) → ℕ → ℕ
copy_down u zero d s m = m
copy_down u (suc rounds) d s m = copy_down u rounds (d - u) (s - u) (copy_unit u (d - u) (s - u) m)

abbrev pub in_words : (s d n : ℕ) → Bool
in_words s d n = s % 4 == 0 && d % 4 == 0 && n % 4 == 0

-- The memory after the call.
unfoldable pub memmove : (dst src n : ℕ) → (ℕ → ℕ) → ℕ → ℕ
memmove dst src n m =
    if ltb src dst && ltb dst (u32 (src + n))
    then if in_words (u32 (src + n)) (u32 (dst + n)) n
      then copy_down 4 (n / 4) (u32 (dst + n)) (u32 (src + n)) m
      else copy_down 1 n (u32 (dst + n)) (u32 (src + n)) m
    else if in_words src dst n
    then copy_up 4 (n / 4) dst src m
    else copy_up 1 n dst src m

unfoldable pub memcpy : (dst src n : ℕ) → (ℕ → ℕ) → ℕ → ℕ
memcpy dst src n m = memmove dst src n m

-- The loop of strlcpy where `--size` is the first number before the test, and the store behind it:
-- the memory, and where `dst` ends.
unfoldable pub copy_bounded : (size dst src : ℕ) → (ℕ → ℕ) → (ℕ → ℕ) × ℕ
copy_bounded zero dst src m = (update m dst 0, dst)
copy_bounded (suc size) dst src m =
    if m src == 0
    then (update m dst 0, dst)
    else copy_bounded size (dst + 1) (src + 1) (update m dst (m src))

-- The memory, and the number that is returned.
unfoldable pub strlcpy : (dst src size : ℕ) → (ℕ → ℕ) → (ℕ → ℕ) × ℕ
strlcpy dst src zero m = (m, 0)
strlcpy dst src (suc size) m = let (m', ends) = copy_bounded size dst src m in (m', ends - dst)
