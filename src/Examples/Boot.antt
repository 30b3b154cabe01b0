-- ===== src/Examples/Boot.antt =====
-- The start of the kernel: page_init of jos/kern/pmap.c and the tables of jos/kern/entrypgdir.c.
use cs444_operating_systems.Base.{ℕ, ◌-◌, ◌/◌, ◌≡◌, refl, none, some, List, arith}
use cs444_operating_systems.Mmu.{kernbase, pgsize}
use cs444_operating_systems.Kernel.{Kernel}
use cs444_operating_systems.Kernel.Run.{ok}
use cs444_operating_systems.BootAlloc.{start_of, boot_alloc}
use cs444_operating_systems.Pages.Free.{has, IsFree}
use cs444_operating_systems.Pages.Init.{page_init}
use cs444_operating_systems.Pages.Init.FreeMemory.{is_available, IsReserved, page_init_frees}
use cs444_operating_systems.Examples.{sample}

-- No page is linked.
abbrev fresh : Kernel
fresh = record sample {
  npages = 600;
  pages = λ p. record { pp_link = none; pp_ref = 0 };
  page_free_list = none;
}

-- The kernel and its first data end at 0x110000.
kernel_end : boot_alloc 0 600 0xF0110000 0 ≡ some (0xF0110000, 0xF0110000)
unfolding boot_alloc start_of
kernel_end = refl

page_init_frees_example :
    (k' : Kernel) × (ps : List ℕ) × (page_init 160 0 0xF0110000 fresh ≡ ok tt k')
    × IsFree k' ps
    × ((p : ℕ) → has p ps ≡ is_available 600 160 ((0xF0110000 - kernbase) / pgsize) p)
    × ((p : ℕ) → IsReserved 160 ((0xF0110000 - kernbase) / pgsize) p → (k'.pages p).pp_ref ≡ 1)
page_init_frees_example =
    page_init_frees fresh 160 0 0xF0110000 0xF0110000 0xF0110000 kernel_end
      (record { little = omega arith; empty = refl; unlinked = λ p. refl }) (omega arith)
      (omega arith) (omega arith)
