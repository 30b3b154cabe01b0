-- ===== src/Pages.antt =====
-- Physical pages: page_alloc, page_free and page_decref of jos/kern/pmap.c, and the address
-- conversions of jos/kern/pmap.h. A `struct PageInfo *` is the index of its page.
pub mod DoubleFree
pub mod Free
pub mod Init
pub mod Stack
use cs444_operating_systems.Base.{
  ℕ, ◌+◌, ◌-◌, ◌*◌, ◌%◌, ◌^◌, Option, none, some, Bool, not, ◌||◌, ◌==◌, leb, if◌then◌else◌,
  is_some, update,
}
use cs444_operating_systems.Mmu.{u32, pgsize, kernbase, pgnum, has_flag}
use cs444_operating_systems.Kernel.{Kernel, PageInfo}
use cs444_operating_systems.Kernel.Run.{
  Cmd, pure, fail, ◌>>=◌, ◌>>◌, gets, modify, set_page, zero_words, when,
}

abbrev pub alloc_zero : ℕ
alloc_zero = 1

-- KADDR
unfoldable pub kaddr : ℕ → Cmd ℕ
kaddr pa = do n ← gets λ k. k.npages; if leb n (pgnum pa) then fail else pure (u32 (pa + kernbase))

-- PADDR
unfoldable pub paddr : ℕ → Cmd ℕ
paddr kva = if leb kernbase kva then pure (kva - kernbase) else fail

unfoldable pub page2pa : ℕ → ℕ
page2pa pp = u32 (pp * 2 ^ 12)

unfoldable pub pa2page : ℕ → Cmd ℕ
pa2page pa = do n ← gets λ k. k.npages; if leb n (pgnum pa) then fail else pure (pgnum pa)

unfoldable pub page2kva : ℕ → Cmd ℕ
page2kva pp = kaddr (page2pa pp)

-- `memset(page2kva(pp), '\0', PGSIZE)`
unfoldable pub clear_page : ℕ → Cmd (Unit {0})
clear_page pp = do kva ← page2kva pp; modify λ k. record k { mem = zero_words kva pgsize k.mem }

unfoldable pub take_page : ℕ → ℕ → Cmd (Option ℕ)
take_page alloc_flags pp = do
  when (has_flag alloc_flags alloc_zero) (clear_page pp)
  modify λ k. record k { page_free_list = (k.pages pp).pp_link }
  set_page pp λ i. record i { pp_link = none }
  pure (some pp)

unfoldable pub page_alloc : ℕ → Cmd (Option ℕ)
page_alloc alloc_flags = do
  head ← gets λ k. k.page_free_list
  elim head [ none ↦ pure none | some pp ↦ take_page alloc_flags pp ]

unfoldable pub page_free : ℕ → Cmd (Unit {0})
page_free pp = do
  i ← gets λ k. k.pages pp
  if not (i.pp_ref == 0) || is_some i.pp_link then fail else do
    head ← gets λ k. k.page_free_list
    set_page pp λ i. record i { pp_link = head }
    modify λ k. record k { page_free_list = some pp }

-- `pp_ref` is a uint16_t.
abbrev pub dec_ref : PageInfo → PageInfo
dec_ref i = record i { pp_ref = (i.pp_ref + 2 ^ 16 - 1) % 2 ^ 16 }

abbrev pub inc_ref : PageInfo → PageInfo
inc_ref i = record i { pp_ref = (i.pp_ref + 1) % 2 ^ 16 }

unfoldable pub page_decref : ℕ → Cmd (Unit {0})
page_decref pp = do
  set_page pp dec_ref
  i ← gets λ k. k.pages pp
  if i.pp_ref == 0 then page_free pp else pure tt
