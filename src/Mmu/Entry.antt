-- ===== src/Mmu/Entry.antt =====
-- Page table entries: an address and twelve flag bits (PTE_ADDR and the PTE_ flags of
-- jos/inc/mmu.h).
use cs444_operating_systems.Base.{ℕ, ◌+◌, bit_or, ◌*◌, ◌/◌, ◌%◌, ◌^◌, ◌<◌, ◌≡◌, arith, ◌∙◌, ◌==◌}
use cs444_operating_systems.Base.Bits.{
  bit_and_low_mask, bit_and_high_mask, bit_and-one, bit_or_fields, bit_or_low_field, bit_or-lt,
  bit_or-one,
}
use cs444_operating_systems.Mmu.{pte_addr, has_flag, pte_p, pte_w, pte_u}

pub pte_addr_lem : (pte : ℕ) → pte < 2 ^ 32 → pte_addr pte ≡ pte / 4096 * 4096
unfolding pte_addr
pte_addr_lem pte h =
    bit_and_high_mask 12 pte 0xFFFFF ∙ omega (arith, bit_and_low_mask 20 (pte / 4096))

pub has_flag_p : (pte : ℕ) → has_flag pte pte_p ≡ (pte % 2 == 1)
unfolding has_flag
has_flag_p pte = ground (arith, bit_and-one pte)

-- `addr | perm | PTE_P` for the address of page `q` and flags `perm`.
pub entry-sum :
    (q perm : ℕ)
    → perm < 4096
    → (bit_or (bit_or (q * 4096) perm) pte_p ≡ q * 4096 + bit_or perm pte_p)
      × (bit_or perm pte_p < 4096)
      × (bit_or perm pte_p % 2 ≡ 1)
entry-sum q perm h = (
  rw (bit_or_fields 12 q perm h) (bit_or_low_field 12 q perm pte_p h (omega arith)),
  bit_or-lt 12 perm pte_p h (omega arith),
  bit_or-one perm,
)

-- A new page directory entry: `addr | PTE_P | PTE_U | PTE_W`.
pub dir_entry-sum : (q : ℕ) → bit_or (bit_or (bit_or (q * 4096) pte_p) pte_u) pte_w ≡ q * 4096 + 7
dir_entry-sum q = rw (bit_or_fields 12 q pte_p (omega arith)) (
    rw (bit_or_low_field 12 q 1 4 (omega arith) (omega arith))
      (bit_or_low_field 12 q 5 2 (omega arith) (omega arith)))
