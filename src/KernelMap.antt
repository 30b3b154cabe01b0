-- ===== src/KernelMap.antt =====
-- The mappings of the kernel: mem_init_mp and mmio_map_region of jos/kern/pmap.c.
pub mod Stacks
pub mod Devices
use cs444_operating_systems.Base.{ℕ, zero, suc, ◌+◌, ◌-◌, ◌*◌, ◌^◌, bit_or, ltb, if◌then◌else◌}
use cs444_operating_systems.Mmu.{u32, pgsize, kernbase, mmiolim, round_up, pte_p, pte_w}
use cs444_operating_systems.Kernel.{Kernel}
use cs444_operating_systems.Kernel.Run.{Cmd, pure, fail, ◌>>=◌, ◌>>◌, gets}
use cs444_operating_systems.Pages.{paddr}
use cs444_operating_systems.Pgdir.{boot_map_region}

abbrev pub kstksize : ℕ
kstksize = 8 * pgsize

abbrev pub kstkgap : ℕ
kstkgap = 8 * pgsize

-- The loop over the `left` last CPUs. The array of the stacks is at `kstacks`, where the linker puts it.
unfoldable pub map_stacks : (left i kstacks : ℕ) → Cmd (Unit {0})
map_stacks zero i kstacks = pure tt
map_stacks (suc left) i kstacks = do
  pgdir ← gets λ k. k.kern_pgdir
  pa ← paddr (u32 (kstacks + i * kstksize))
  boot_map_region pgdir (u32 (2 ^ 32 + kernbase - i * (kstksize + kstkgap) - kstksize)) kstksize pa
      (bit_or pte_w pte_p)
  map_stacks left (suc i) kstacks

unfoldable pub mem_init_mp : (kstacks : ℕ) → Cmd (Unit {0})
mem_init_mp kstacks = map_stacks 8 0 kstacks

-- `PTE_PCD | PTE_PWT | PTE_W`
abbrev pub device_perm : ℕ
device_perm = bit_or (bit_or 0x010 0x008) pte_w

-- The address of the region, and the new value of the static variable `base`.
unfoldable pub mmio_map_region : (base pa size : ℕ) → Cmd (ℕ × ℕ)
mmio_map_region base pa size =
    let fixed = round_up size pgsize in
    if ltb mmiolim (u32 (base + fixed)) then fail else do
      pgdir ← gets λ k. k.kern_pgdir
      boot_map_region pgdir base fixed pa device_perm
      pure (base, u32 (base + fixed))
