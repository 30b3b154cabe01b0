-- ===== src/Pages/Init.antt =====
-- page_init of jos/kern/pmap.c.
pub mod FreeMemory
use cs444_operating_systems.Base.{
  ℕ, zero, suc, ◌+◌, ◌-◌, ◌/◌, ◌^◌, Option, none, some, Bool, true, false, ◌==◌, if◌then◌else◌,
  update,
}
use cs444_operating_systems.Mmu.{u32, pgsize, kernbase, pgnum}
use cs444_operating_systems.Kernel.{Kernel, PageInfo}
use cs444_operating_systems.Kernel.Run.{Cmd, fail, modify}
use cs444_operating_systems.BootAlloc.{boot_alloc}

abbrev pub mpentry_paddr : ℕ
mpentry_paddr = 0x7000

-- `pages[i].pp_ref = 1`
abbrev pub mark_used : ℕ → Kernel → Kernel
mark_used i k = record k { pages = update k.pages i (record (k.pages i) { pp_ref = 1 }) }

abbrev pub put_free : ℕ → Kernel → Kernel
put_free i k = record k {
  pages = update k.pages i (record { pp_link = k.page_free_list; pp_ref = 0 });
  page_free_list = some i;
}

-- A loop over `rounds` pages from `i` on, of which those that are `used` are marked and the others
-- are put on the free list.
unfoldable pub init_pages : (used : ℕ → Bool) → (rounds i : ℕ) → Kernel → Kernel
init_pages used zero i k = k
init_pages used (suc rounds) i k =
    init_pages used rounds (i + 1) (if used i then mark_used i k else put_free i k)

-- The four loops, where `kernel` is the number of pages that the kernel takes.
unfoldable pub init_all : (npages_basemem kernel : ℕ) → Kernel → Kernel
init_all npages_basemem kernel k =
    let k1 = init_pages (λ i. i == pgnum mpentry_paddr) (npages_basemem - 1) 1 (mark_used 0 k) in
    let k2 = init_pages (λ i. true) (256 - 160) 160 k1 in
    let k3 = init_pages (λ i. true) kernel 256 k2 in
    init_pages (λ i. false) (k.npages - (256 + kernel)) (256 + kernel) k3

unfoldable pub page_init : (npages_basemem end nextfree : ℕ) → Cmd (Unit {0})
page_init npages_basemem end nextfree k = elim (boot_alloc end k.npages nextfree 0) [
  | none ↦ fail k
  | some (next, nextfree') ↦
      modify (init_all npages_basemem (u32 (next + 2 ^ 32 - kernbase) / pgsize)) k
]
