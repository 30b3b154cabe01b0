-- ===== src/Monitor/Mappings/Show.antt =====
-- The pages that showmapping of jos/kern/monitor.c lists.
use cs444_operating_systems.Base.{
  ℕ, zero, suc, ◌+◌, ◌-◌, ◌*◌, ◌/◌, ◌%◌, ◌^◌, ◌≤◌, ◌<◌, ◌≡◌, ◌==◌, refl, false, some, List, [], ◌∷◌,
  if◌then◌else◌, arith,
}
use cs444_operating_systems.Mmu.{u32, pgsize, has_flag, pte_w, pte_u}
use cs444_operating_systems.Mmu.Entry.{has_flag_p, pte_addr_lem}
use cs444_operating_systems.Mmu.Rounding.{round_down-div, round_up-div}
use cs444_operating_systems.Base.Bits.{bit_and_bit}
use cs444_operating_systems.Strings.Number.{strtol}
use cs444_operating_systems.Kernel.{Kernel}
use cs444_operating_systems.Kernel.Run.{ok, out_of_fuel}
use cs444_operating_systems.Pgdir.Walk.{pde_of, Reaches, walk_to_table, walk_to_none}
use cs444_operating_systems.Pgdir.Map.{pte_of}
use cs444_operating_systems.Monitor.Mappings.{
  long_at, Shown, maps_to, not_valid, show_page, show_pages, mon_showmapping,
}

-- Each entry of the kernel's page directory that is present names a page, and the tables have words of
-- 32 bits.
pub record IsDirectory (k : Kernel) : Type 0 where
  pub reaches :
      (va : ℕ) → pde_of k.kern_pgdir va k.mem % 2 ≡ 1 → Reaches k.npages k.kern_pgdir va k.mem
  pub word : (va : ℕ) → pte_of k.kern_pgdir va k.mem < 2 ^ 32

-- The line for the page at `va`, from the two words that the processor reads for it.
abbrev pub line_of : Kernel → ℕ → Shown
line_of k va =
    let pte = pte_of k.kern_pgdir va k.mem in
    if pde_of k.kern_pgdir va k.mem % 2 == 1
    then maps_to va (pte / 4096 * 4096) (pte % 2 == 1) (pte / 4 % 2 == 1) (pte / 2 % 2 == 1)
    else not_valid va

-- The lines for `n` pages from `va` on.
abbrev pub lines_of : Kernel → (n va : ℕ) → List Shown
lines_of k zero va = []
lines_of k (suc n) va = line_of k va ∷ lines_of k n (va + 4096)

has_flag_u : (pte : ℕ) → has_flag pte pte_u ≡ (pte / 4 % 2 == 1)
unfolding has_flag
has_flag_u pte = ground (arith, bit_and_bit 2 pte)

has_flag_w : (pte : ℕ) → has_flag pte pte_w ≡ (pte / 2 % 2 == 1)
unfolding has_flag
has_flag_w pte = ground (arith, bit_and_bit 1 pte)

show_page_lem : (k : Kernel) (va : ℕ) → IsDirectory k → show_page va k ≡ ok (line_of k va) k
unfolding show_page
show_page_lem k va d =
    let pte = pte_of k.kern_pgdir va k.mem in
    ground (
      arith,
      walk_to_table k k.kern_pgdir va false,
      walk_to_none k k.kern_pgdir va,
      d.reaches va,
      pte_addr_lem pte (d.word va),
      has_flag_p pte,
      has_flag_u pte,
      has_flag_w pte,
    )

show_pages_lem :
    (k : Kernel) (n fuel va end_va : ℕ)
    → IsDirectory k
    → n < fuel
    → va % 4096 ≡ 0
    → va + n * 4096 ≡ end_va + 4096
    → end_va + 4096 < 2 ^ 32
    → show_pages fuel va end_va k ≡ ok (lines_of k n va) k
unfolding show_pages
show_pages_lem k n zero va end_va d lt al e small = ground arith
show_pages_lem k zero (suc fuel) va end_va d lt al e small = ground arith
show_pages_lem k (suc n) (suc fuel) va end_va d lt al e small =
    ground (arith, show_page_lem k va d, show_pages_lem k n fuel (va + 4096) end_va d)

pub long_at_lem :
    (fuel s v s' : ℕ) (text : ℕ → ℕ) (k : Kernel)
    → strtol fuel s 0 text ≡ some (v, s')
    → long_at fuel s text k ≡ ok v k
unfolding long_at
long_at_lem fuel s v s' text k e = rw e refl

-- showmapping of two numbers, where the last page is below the last one of the address space: it
-- returns, changes nothing and prints a line for each of the `n` pages from ROUNDDOWN of the first to
-- ROUNDUP of the second, both included: the line says that there is no page if the directory has no
-- table for it, and otherwise shows the address and the flags of the entry. The hypotheses: the first number is not
-- above the second, the entries
-- of the directory name pages, the tables have words of 32 bits, and the fuel is enough for the
-- numbers and more than `n`.
pub mon_showmapping_lists :
    (k : Kernel) (fuel first last s s' n : ℕ) (argv text : ℕ → ℕ)
    → IsDirectory k
    → strtol fuel (argv 1) 0 text ≡ some (first, s)
    → strtol fuel (argv 2) 0 text ≡ some (last, s')
    → first ≤ last
    → last + 2 * 4096 ≤ 2 ^ 32
    → n ≡ (last + 4095) / 4096 - first / 4096 + 1
    → n < fuel
    → mon_showmapping fuel 3 argv text k ≡ ok (lines_of k n (first / 4096 * 4096)) k
unfolding mon_showmapping
mon_showmapping_lists k fuel first last s s' n argv text d e e' le small count lt = ground (
  arith,
  long_at_lem fuel (argv 1) first s text k e,
  long_at_lem fuel (argv 2) last s' text k e',
  round_down-div first,
  round_up-div last,
  show_pages_lem k n fuel (first / 4096 * 4096) ((last + 4095) / 4096 * 4096) d,
)

-- To the last page of the address space the loop of showmapping never ends.
show_pages_endless :
    (k : Kernel) (fuel va : ℕ)
    → IsDirectory k
    → va % 4096 ≡ 0
    → va < 2 ^ 32
    → show_pages fuel va (2 ^ 32 - 4096) k ≡ out_of_fuel
unfolding show_pages
show_pages_endless k zero va d al lt = refl
show_pages_endless k (suc fuel) va d al lt =
    ground (arith, show_page_lem k va d, show_pages_endless k fuel (u32 (va + pgsize)) d)
