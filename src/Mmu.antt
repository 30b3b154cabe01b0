-- ===== src/Mmu.antt =====
-- Linear addresses and page table entries: the macros of jos/inc/mmu.h, the rounding macros of
-- jos/inc/types.h and the constants of jos/inc/memlayout.h. Addresses and entries are uint32_t.
pub mod Address
pub mod Rounding
pub mod Entry
use cs444_operating_systems.Base.{ℕ, ◌+◌, ◌-◌, ◌*◌, ◌/◌, ◌%◌, ◌^◌, bit_and, bit_or, Bool, not, ◌==◌}

abbrev pub u32 : ℕ → ℕ
u32 n = n % 2 ^ 32

abbrev pub pgsize : ℕ
pgsize = 4096

abbrev pub ptsize : ℕ
ptsize = pgsize * 1024

abbrev pub kernbase : ℕ
kernbase = 0xF0000000

abbrev pub mmiolim : ℕ
mmiolim = kernbase - ptsize

abbrev pub ulim : ℕ
ulim = mmiolim - ptsize

abbrev pub utop : ℕ
utop = ulim - 3 * ptsize

abbrev pub pte_p : ℕ
pte_p = 0x001

abbrev pub pte_w : ℕ
pte_w = 0x002

abbrev pub pte_u : ℕ
pte_u = 0x004

-- PTE_AVAIL | PTE_P | PTE_W | PTE_U
abbrev pub pte_syscall : ℕ
pte_syscall = bit_or (bit_or (bit_or 0xE00 pte_p) pte_w) pte_u

unfoldable pub pgnum : ℕ → ℕ
pgnum la = la / 2 ^ 12

unfoldable pub pdx : ℕ → ℕ
pdx la = bit_and (la / 2 ^ 22) 0x3FF

unfoldable pub ptx : ℕ → ℕ
ptx la = bit_and (la / 2 ^ 12) 0x3FF

unfoldable pub pgoff : ℕ → ℕ
pgoff la = bit_and la 0xFFF

unfoldable pub pgaddr : (d t o : ℕ) → ℕ
pgaddr d t o = bit_or (bit_or (u32 (d * 2 ^ 22)) (u32 (t * 2 ^ 12))) o

-- `(physaddr_t) pte & ~0xFFF`
unfoldable pub pte_addr : ℕ → ℕ
pte_addr pte = bit_and pte 0xFFFFF000

-- `pte & flag`, read as a truth value
unfoldable pub has_flag : ℕ → ℕ → Bool
has_flag pte flag = not (bit_and pte flag == 0)

unfoldable pub round_down : (a n : ℕ) → ℕ
round_down a n = a - a % n

unfoldable pub round_up : (a n : ℕ) → ℕ
unfolding round_down
round_up a n = round_down (u32 (a + n - 1)) n
