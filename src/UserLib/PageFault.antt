-- ===== src/UserLib/PageFault.antt =====
-- The page fault handler of jos/lib/fork.c. The program reads and writes its memory through the page
-- tables; an access to an address that is not mapped is `fail`.
pub mod Steps
pub mod Fault
pub mod Copy
use cs444_operating_systems.Base.{
  ℕ, ◌+◌, ◌-◌, ◌*◌, ◌/◌, Option, none, some, Bool, not, ◌&&◌, ◌||◌, ◌==◌, leb, ltb, if◌then◌else◌,
  bit_and, bit_or,
}
use cs444_operating_systems.Mmu.{pgsize, ptsize, round_down, pgnum, pte_p, pte_w, pte_u}
use cs444_operating_systems.Kernel.{Kernel}
use cs444_operating_systems.Kernel.Run.{Cmd, pure, fail, ◌>>=◌, ◌>>◌, gets, modify}
use cs444_operating_systems.Pages.{page2kva}
use cs444_operating_systems.Pgdir.{page_lookup}
use cs444_operating_systems.Syscall.{curenv_of, sys_page_alloc, sys_page_map, sys_page_unmap}
use cs444_operating_systems.UserLib.{pte_cow, or_panic, uvpt}

abbrev pub pftemp : ℕ
pftemp = ptsize + ptsize - pgsize

abbrev pub fec_wr : ℕ
fec_wr = 0x2

abbrev pub cow_flags : ℕ
cow_flags = bit_or (bit_or pte_u pte_p) pte_cow

abbrev pub private_perm : ℕ
private_perm = bit_or (bit_or pte_u pte_p) pte_w

-- Where the kernel has the page that the program has at `va`.
unfoldable pub frame_of : ℕ → Cmd ℕ
frame_of va = do
  c ← curenv_of
  pgdir ← gets λ k. (k.envs c).env_pgdir
  found ← page_lookup pgdir va
  elim found [ none ↦ fail | some (p, at) ↦ page2kva p ]

-- The words of a page, written over those of another.
abbrev pub copy_words : (dst src : ℕ) → (ℕ → ℕ) → ℕ → ℕ
copy_words dst src m a = if leb dst a && ltb a (dst + pgsize) then m (src + (a - dst)) else m a

-- `memcpy(dst, src, PGSIZE)` for the addresses of two pages.
unfoldable pub memcpy_page : (dst src : ℕ) → Cmd (Unit {0})
memcpy_page dst src = do
  d ← frame_of dst
  s ← frame_of src
  modify λ k. record k { mem = copy_words d s k.mem }

unfoldable pub pgfault : (fault_va err : ℕ) → Cmd (Unit {0})
pgfault fault_va err = do
  pte ← uvpt (pgnum fault_va)
  let page = round_down fault_va pgsize
  if bit_and err fec_wr == 0 || not (bit_and pte cow_flags == cow_flags) then fail else do
    r ← sys_page_alloc 0 pftemp private_perm
    or_panic r
    memcpy_page pftemp page
    r' ← sys_page_map 0 pftemp 0 page private_perm
    or_panic r'
    r'' ← sys_page_unmap 0 pftemp
    or_panic r''
