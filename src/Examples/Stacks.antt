-- ===== src/Examples/Stacks.antt =====
-- The mappings of the kernel, jos/kern/pmap.c, on the small machine: page 3 is the kernel's table for
-- the stacks, page 2 the one for devices.
use cs444_operating_systems.Base.{
  ℕ, refl, ◌≤◌, ◌≢◌, ◌+◌, ◌-◌, ◌*◌, ◌/◌, ◌≡◌, ◌<◌, arith, ◌∙◌, ap, ◌==◌, if◌then◌else◌, bit_or,
}
use cs444_operating_systems.Mmu.{round_up, mmiolim, kernbase, pdx, ptx, pte_p, pte_w}
use cs444_operating_systems.Mmu.Address.{pdx_lem, ptx_lem}
use cs444_operating_systems.Kernel.{Kernel}
use cs444_operating_systems.Kernel.Run.{ok, panic}
use cs444_operating_systems.Pgdir.{entry_at}
use cs444_operating_systems.Pgdir.Walk.{pde_of}
use cs444_operating_systems.Pgdir.Map.{pte_of}
use cs444_operating_systems.Pgdir.Region.{page_va, page_slot, page_entry, IsReady}
use cs444_operating_systems.KernelMap.{kstksize, mem_init_mp, device_perm, mmio_map_region}
use cs444_operating_systems.KernelMap.Devices.{mmio_map_region_decides}
use cs444_operating_systems.KernelMap.Stacks.{stacks_va, stack_va, gap_va, mem_init_mp_maps}
use cs444_operating_systems.Examples.{sample}

abbrev kernel_dir : ℕ
kernel_dir = 4 * 4096 + kernbase

abbrev stacked_mem : ℕ → ℕ
stacked_mem a =
    if a == entry_at kernel_dir 959
    then 3 * 4096 + 3
    else if a == entry_at kernel_dir 958
    then 2 * 4096 + 3
    else 0

abbrev stacked : Kernel
stacked = record sample { mem = stacked_mem }

directory_index : (j : ℕ) → j < 128 → pdx (page_va stacks_va j) ≡ 959
directory_index j lt = omega (arith, pdx_lem (page_va stacks_va j))

table_index : (j : ℕ) → j < 128 → ptx (page_va stacks_va j) ≡ 896 + j
table_index j lt = omega (arith, ptx_lem (page_va stacks_va j))

directory_entry :
    (j : ℕ) → j < 128 → pde_of kernel_dir (page_va stacks_va j) stacked_mem ≡ 3 * 4096 + 3
directory_entry j lt = ap (λ (x : ℕ). stacked_mem (entry_at kernel_dir x)) (directory_index j lt)

slot_place :
    (j : ℕ)
    → j < 128
    → page_slot kernel_dir stacks_va j stacked_mem ≡ entry_at (3 * 4096 + kernbase) (896 + j)
slot_place j lt =
    ap (λ (x : ℕ). entry_at (x / 4096 * 4096 + kernbase) (ptx (page_va stacks_va j)))
      (directory_entry j lt)
    ∙ ap (entry_at (3 * 4096 + kernbase)) (table_index j lt)

stacked-IsReady : IsReady stacked kernel_dir stacks_va 128
stacked-IsReady = record {
  reaches = λ j lt. record {
    small = omega arith;
    word = omega (arith, directory_entry j lt);
    present = omega (arith, directory_entry j lt);
    exists = omega (arith, directory_entry j lt);
  };
  spread = λ i j li lj ne. omega (arith, slot_place i li, slot_place j lj);
  off = λ i j li lj. omega (arith, slot_place i li, directory_index j lj);
}

mem_init_mp_maps_example :
    (m : ℕ → ℕ) × (mem_init_mp 0xF0020000 stacked ≡ ok tt (record stacked { mem = m }))
    × ((i j : ℕ)
        → i < 8
        → j < 8
        → pte_of kernel_dir (stack_va i j) m
          ≡ page_entry (0xF0020000 - kernbase + i * kstksize) (bit_or pte_w pte_p) j)
    × ((i j : ℕ)
        → i < 8
        → j < 8
        → pte_of kernel_dir (gap_va i j) m ≡ pte_of kernel_dir (gap_va i j) stacked_mem)
mem_init_mp_maps_example =
    mem_init_mp_maps stacked 0xF0020000 stacked-IsReady (omega arith) (omega arith)

device_index : (j : ℕ) → j < 1 → pdx (page_va 0xEF800000 j) ≡ 958
device_index j lt = omega (arith, pdx_lem (page_va 0xEF800000 j))

device_entry : (j : ℕ) → j < 1 → pde_of kernel_dir (page_va 0xEF800000 j) stacked_mem ≡ 2 * 4096 + 3
device_entry j lt = ap (λ (x : ℕ). stacked_mem (entry_at kernel_dir x)) (device_index j lt)

device_place :
    (j : ℕ)
    → j < 1
    → page_slot kernel_dir 0xEF800000 j stacked_mem ≡ entry_at (2 * 4096 + kernbase) 0
device_place j lt =
    ap (λ (x : ℕ). entry_at (x / 4096 * 4096 + kernbase) (ptx (page_va 0xEF800000 j)))
      (device_entry j lt)
    ∙ ap (entry_at (2 * 4096 + kernbase)) {y = 0} (omega (arith, ptx_lem (page_va 0xEF800000 j)))

device-IsReady : IsReady stacked kernel_dir 0xEF800000 1
device-IsReady = record {
  reaches = λ j lt. record {
    small = omega arith;
    word = omega (arith, device_entry j lt);
    present = omega (arith, device_entry j lt);
    exists = omega (arith, device_entry j lt);
  };
  spread = λ i j li lj ne. absurd (omega arith);
  off = λ i j li lj. omega (arith, device_place i li, device_index j lj);
}

mmio_map_region_decides_example :
    (mmiolim < 0xEF801000 → mmio_map_region 0xEF800000 0xFEE00000 100 stacked ≡ panic)
    × (0xEF801000 ≤ mmiolim
        → (m : ℕ → ℕ) × (mmio_map_region 0xEF800000 0xFEE00000 100 stacked
            ≡ ok (0xEF800000, 0xEF801000) (record stacked { mem = m }))
          × ((j : ℕ)
              → j < 1
              → m (page_slot kernel_dir 0xEF800000 j m) ≡ page_entry 0xFEE00000 device_perm j)
          × ((a : ℕ)
              → ((j : ℕ) → j < 1 → a ≢ page_slot kernel_dir 0xEF800000 j stacked_mem)
              → m a ≡ stacked_mem a))
mmio_map_region_decides_example =
    mmio_map_region_decides stacked 0xEF800000 0xFEE00000 100 1 (unfold round_up in refl)
      (omega arith) device-IsReady
