-- ===== src/EntryPgdir.antt =====
-- The page directory and the page table that the kernel starts with, jos/kern/entrypgdir.c.
-- `table` is the address of entry_pgtable, which the linker chooses.
use cs444_operating_systems.Base.{
  ℕ, ◌+◌, ◌-◌, ◌*◌, ◌/◌, ◌%◌, ◌^◌, ◌<◌, ◌≡◌, refl, ◌==◌, if◌then◌else◌, bit_or, arith, Option, none,
  some, Bool, true, false, ◌&&◌, ◌∙◌, ap,
}
use cs444_operating_systems.Base.Bits.{bit_or_fields, bit_or_low_field, bit_and_bit}
use cs444_operating_systems.Mmu.Address.{pdx_lem, ptx_lem, pgoff_lem}
use cs444_operating_systems.Mmu.Entry.{pte_addr_lem, has_flag_p}
use cs444_operating_systems.Mmu.{kernbase, pte_p, pte_w, pdx, ptx, pgoff, pte_addr, has_flag}

unfoldable pub entry_pgdir : (table : ℕ) → ℕ → ℕ
entry_pgdir table i =
    if i == 0
    then table - kernbase + pte_p
    else if i == kernbase / 2 ^ 22
    then table - kernbase + pte_p + pte_w
    else 0

-- Entry `i` of the 1024.
unfoldable pub entry_pgtable : ℕ → ℕ
entry_pgtable i = bit_or (bit_or (i * 0x1000) pte_p) pte_w

-- A translation by the MMU: the physical address, and whether the kernel may write there. Physical
-- memory holds the page table at `table - kernbase`.
unfoldable pub translated : (table va : ℕ) → Option (ℕ × Bool)
translated table va =
    let pde = entry_pgdir table (pdx va) in
    let pte = entry_pgtable (ptx va) in
    if has_flag pde pte_p && (pte_addr pde == table - kernbase && has_flag pte pte_p)
    then some (pte_addr pte + pgoff va, has_flag pde pte_w && has_flag pte pte_w)
    else none

entry_pgtable_sum : (i : ℕ) → entry_pgtable i ≡ i * 4096 + 3
unfolding entry_pgtable
entry_pgtable_sum i =
    rw (bit_or_fields 12 i pte_p (omega arith))
      (bit_or_low_field 12 i 1 2 (omega arith) (omega arith))

has_flag_w : (pte : ℕ) → has_flag pte pte_w ≡ (pte / 2 % 2 == 1)
unfolding has_flag
has_flag_w pte = ground (arith, bit_and_bit 1 pte)

entry_pgdir_low : (q : ℕ) → entry_pgdir (kernbase + q * 4096) 0 ≡ q * 4096 + 1
unfolding entry_pgdir
entry_pgdir_low q = omega arith

entry_pgdir_high : (q : ℕ) → entry_pgdir (kernbase + q * 4096) 960 ≡ q * 4096 + 3
unfolding entry_pgdir
entry_pgdir_high q = omega arith

-- A translation through an entry of the directory that leads to the table.
translated-ok :
    (q va i f : ℕ)
    → q < 65536
    → va < 2 ^ 32
    → pdx va ≡ i
    → f < 4096
    → f % 2 ≡ 1
    → entry_pgdir (kernbase + q * 4096) i ≡ q * 4096 + f
    → translated (kernbase + q * 4096) va ≡ some (va % 2 ^ 22, f / 2 % 2 == 1)
unfolding translated
translated-ok q va i f small lt dir little present entry = ground (
  arith,
  dir,
  entry,
  entry_pgtable_sum (ptx va),
  ptx_lem va,
  pgoff_lem va,
  pte_addr_lem (q * 4096 + f) (omega arith),
  pte_addr_lem (ptx va * 4096 + 3) (omega (arith, ptx_lem va)),
  has_flag_p (q * 4096 + f),
  has_flag_p (ptx va * 4096 + 3),
  has_flag_w (q * 4096 + f),
  has_flag_w (ptx va * 4096 + 3),
)

-- The first 4 MB of linear addresses are translated to themselves, without the right to write; the
-- first 4 MB from KERNBASE on are translated to the same physical addresses, with that right. The
-- hypothesis: the page table is at a page of the first 256 MB of physical memory.
pub entry_pgdir_maps :
    (q pa : ℕ)
    → q < 65536
    → pa < 2 ^ 22
    → (translated (kernbase + q * 4096) pa ≡ some (pa, false))
      × (translated (kernbase + q * 4096) (kernbase + pa) ≡ some (pa, true))
entry_pgdir_maps q pa small lt = (
  translated-ok q pa 0 1 small (omega arith) (omega (arith, pdx_lem pa)) (omega arith) refl
        (entry_pgdir_low q)
      ∙ ap (λ (n : ℕ). some (n, false)) (omega arith),
  translated-ok q (kernbase + pa) 960 3 small (omega arith) (omega (arith, pdx_lem (kernbase + pa)))
        (omega arith) refl (entry_pgdir_high q)
      ∙ ap (λ (n : ℕ). some (n, true)) (omega arith),
)
