-- ===== src/Pgdir.antt =====
-- Two-level page tables: pgdir_walk, page_lookup, page_remove, page_insert, boot_map_region and
-- tlb_invalidate of jos/kern/pmap.c. A `pde_t *` or `pte_t *` is the kernel virtual address.
pub mod Create
pub mod Unmap
pub mod Walk
pub mod Insert
pub mod Remap
pub mod Map
pub mod Region
use cs444_operating_systems.Base.{
  ℕ, zero, suc, ◌+◌, ◌*◌, ◌%◌, ◌^◌, Option, none, some, Bool, true, false, not, ◌||◌, ◌∷◌, ◌==◌,
  ltb, if◌then◌else◌, bit_or,
}
use cs444_operating_systems.Mmu.{u32, pgsize, pdx, ptx, pte_addr, has_flag, pte_p, pte_w, pte_u}
use cs444_operating_systems.Kernel.{Kernel, Env}
use cs444_operating_systems.Kernel.Run.{
  Cmd, pure, fail, out_of_fuel, ◌>>=◌, ◌>>◌, gets, modify, load, store, set_page, when,
}
use cs444_operating_systems.Errors.{Ret, value, error, no_mem}
use cs444_operating_systems.Pages.{
  alloc_zero, inc_ref, kaddr, page2pa, pa2page, page_alloc, page_decref,
}

-- `&table[i]` in a table of 32-bit entries.
abbrev pub entry_at : ℕ → ℕ → ℕ
entry_at table i = table + 4 * i

-- The branch of pgdir_walk that adds a page table.
unfoldable pub add_table : ℕ → ℕ → Cmd (Option ℕ)
add_table pgdir va = do
  new ← page_alloc alloc_zero
  elim new [
    | none ↦ pure none
    | some p ↦ do
      set_page p inc_ref
      store (entry_at pgdir (pdx va)) (bit_or (bit_or (bit_or (page2pa p) pte_p) pte_u) pte_w)
      holder ← kaddr (page2pa p)
      pure (some (entry_at holder (ptx va)))
  ]

unfoldable pub pgdir_walk : ℕ → ℕ → Bool → Cmd (Option ℕ)
pgdir_walk pgdir va create = do
  pde ← load (entry_at pgdir (pdx va))
  if has_flag pde pte_p
      then (do holder ← kaddr (pte_addr pde); pure (some (entry_at holder (ptx va))))
      else if create
      then add_table pgdir va
      else pure none

-- The page, and what is stored through `pte_store`.
unfoldable pub page_lookup : ℕ → ℕ → Cmd (Option (ℕ × ℕ))
page_lookup pgdir va = do
  pp ← pgdir_walk pgdir va false
  elim pp [
    | none ↦ pure none
    | some p ↦ do
      pte ← load p
      if not (has_flag pte pte_p)
          then pure none
          else do page ← pa2page (pte_addr pte); pure (some (page, p))
  ]

-- Is `pgdir` the address space in use?
abbrev pub in_use : ℕ → Kernel → Bool
in_use pgdir k = elim k.curenv [ none ↦ true | some e ↦ (k.envs e).env_pgdir == pgdir ]

unfoldable pub tlb_invalidate : ℕ → ℕ → Cmd (Unit {0})
tlb_invalidate pgdir va = do
  flush ← gets (in_use pgdir)
  when flush (modify λ k. record k { invlpgs = va ∷ k.invlpgs })

unfoldable pub page_remove : ℕ → ℕ → Cmd (Unit {0})
page_remove pgdir va = do
  got ← page_lookup pgdir va
  elim got [
    | none ↦ pure tt
    | some (page, p) ↦ do
      pte ← load p
      when (has_flag pte pte_p) (do page_decref page; store p 0; tlb_invalidate pgdir va)
  ]

unfoldable pub page_insert : (pgdir pp va perm : ℕ) → Cmd Ret
page_insert pgdir pp va perm = do
  found ← pgdir_walk pgdir va true
  elim found [
    | none ↦ pure (error no_mem)
    | some p ↦ do
      set_page pp inc_ref
      pte ← load p
      when (has_flag pte pte_p) (page_remove pgdir va)
      store p (bit_or (bit_or (page2pa pp) perm) pte_p)
      pure (value 0)
  ]

-- The loop of boot_map_region from offset `i` on; `i` is a size_t. The first number bounds the
-- rounds.
unfoldable pub map_from : ℕ → (pgdir va size pa perm i : ℕ) → Cmd (Unit {0})
map_from zero pgdir va size pa perm i = λ k. out_of_fuel
map_from (suc n) pgdir va size pa perm i =
    let next = map_from n pgdir va size pa perm (u32 (i + pgsize)) in
    if ltb i size
    then (do
      result ← pgdir_walk pgdir (u32 (va + i)) true
      elim result [
        | none ↦ fail
        | some p ↦ do store p (bit_or (bit_or (pte_addr (u32 (pa + i))) perm) pte_p); next
      ])
    else pure tt

-- No region has more than 2 ^ 20 pages.
unfoldable pub boot_map_region : (pgdir va size pa perm : ℕ) → Cmd (Unit {0})
boot_map_region pgdir va size pa perm = map_from (2 ^ 20 + 1) pgdir va size pa perm 0
