-- ===== src/Examples/Growth.antt =====
-- region_alloc of jos/kern/env.c on the small machine: two pages behind the one that is mapped.
use cs444_operating_systems.Base.{ℕ, refl, [], ◌∷◌, arith, ◌+◌, ◌*◌, ◌≡◌, ◌<◌, ap, ◌∙◌, ◌/◌}
use cs444_operating_systems.Mmu.{kernbase, pdx, ptx}
use cs444_operating_systems.Mmu.Address.{pdx_lem, ptx_lem}
use cs444_operating_systems.Kernel.{Kernel}
use cs444_operating_systems.Kernel.Run.{ok}
use cs444_operating_systems.Pages.Free.{IsFree}
use cs444_operating_systems.Pgdir.{entry_at}
use cs444_operating_systems.Pgdir.Walk.{pde_of, slot_of}
use cs444_operating_systems.Env.Grow.{region_alloc}
use cs444_operating_systems.Env.Grow.Round.{at_page, HasRoom}
use cs444_operating_systems.Env.Grow.Pages.{left, AreMapped, Keeps}
use cs444_operating_systems.Env.Grow.Region.{region_alloc_maps}
use cs444_operating_systems.Examples.{sample, sample_mem, sample_dir}
use cs444_operating_systems.Examples.Memory.{sample-IsFree}

abbrev region_va : ℕ
region_va = 0x801234 / 4096 * 4096

directory_index : (j : ℕ) → j < 2 → pdx (at_page region_va j) ≡ 2
directory_index j lt = omega (arith, pdx_lem (at_page region_va j))

table_index : (j : ℕ) → j < 2 → ptx (at_page region_va j) ≡ 1 + j
table_index j lt = omega (arith, ptx_lem (at_page region_va j))

directory_entry :
    (j : ℕ) → j < 2 → pde_of sample_dir (at_page region_va j) sample_mem ≡ 6 * 4096 + 7
directory_entry j lt = ap (λ (x : ℕ). sample_mem (entry_at sample_dir x)) (directory_index j lt)

slot_place :
    (j : ℕ)
    → j < 2
    → slot_of sample_dir (at_page region_va j) sample_mem ≡ entry_at (6 * 4096 + kernbase) (1 + j)
slot_place j lt =
    ap (λ (x : ℕ). entry_at (x / 4096 * 4096 + kernbase) (ptx (at_page region_va j)))
      (directory_entry j lt)
    ∙ ap (entry_at (6 * 4096 + kernbase)) (table_index j lt)

region-HasRoom : HasRoom sample 5 sample_dir region_va 2 (10 ∷ 11 ∷ [])
region-HasRoom = record {
  free_list = record { small = v.small; chain = v.chain; unlinked = v.unlinked };
  enough = omega arith;
  dir = record { at = refl; used = refl };
  reaches = λ j lt. record {
    small = omega arith;
    word = omega (arith, directory_entry j lt);
    present = omega (arith, directory_entry j lt);
    exists = omega (arith, directory_entry j lt);
  };
  used = λ j lt. rw (directory_entry j lt) refl;
  empty = λ j lt. rw (slot_place j lt) (ground arith);
  spread = λ i j li lj ne. omega (arith, slot_place i li, slot_place j lj);
  off = λ i j li lj. omega (arith, slot_place i li, directory_index j lj);
}
  where
    v : IsFree sample (10 ∷ 11 ∷ [])
    v = sample-IsFree

region_alloc_maps_example :
    (k' : Kernel) × (region_alloc 1 0x801234 0x1000 sample ≡ ok tt k')
    × AreMapped sample_dir region_va 2 (10 ∷ 11 ∷ []) k'
    × Keeps sample k' sample_dir region_va 2 (10 ∷ 11 ∷ [])
    × IsFree k' (left 2 (10 ∷ 11 ∷ []))
region_alloc_maps_example =
    region_alloc_maps sample 1 0x801234 0x1000 5 2 (10 ∷ 11 ∷ []) region-HasRoom (omega arith)
      (omega arith)
