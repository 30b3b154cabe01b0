-- ===== src/Examples/Tables.antt =====
-- The page tables of jos/kern/pmap.c and jos/kern/env.c on the small machine.
use cs444_operating_systems.Base.{
  ℕ, ◌+◌, ◌*◌, ◌/◌, ◌≡◌, inl, inr, refl, none, some, [], ◌∷◌, arith, bit_or,
}
use native.Mathlib.Decide.{ℕ_discrete}
use cs444_operating_systems.Mmu.{pgsize, pdx, ptx, pte_u, pte_p}
use cs444_operating_systems.Mmu.Address.{pdx_lem}
use cs444_operating_systems.Kernel.{Kernel}
use cs444_operating_systems.Kernel.Run.{ok}
use cs444_operating_systems.Errors.{value}
use cs444_operating_systems.Pages.Free.{IsFree}
use cs444_operating_systems.Pgdir.{entry_at, page_insert, page_lookup, page_remove}
use cs444_operating_systems.Pgdir.Walk.{slot_of, Reaches, HasTable}
use cs444_operating_systems.Pgdir.Create.{Creates, pgdir_walk-Creates}
use cs444_operating_systems.Pgdir.Map.{pte_of, IsMapped}
use cs444_operating_systems.Pgdir.Insert.{Before, unmapped, inserted}
use cs444_operating_systems.Pgdir.Remap.{
  mapping, free_after, page_insert-lookup, page_insert_counts,
}
use cs444_operating_systems.Pgdir.Unmap.{flushes, page_remove_unmaps}
use cs444_operating_systems.UserMem.{user_mem_check}
use cs444_operating_systems.UserMem.Exact.{IsSpace, Checked, user_mem_check_exact}
use cs444_operating_systems.Examples.{sample, sample_dir, sample_mem}
use cs444_operating_systems.Examples.Memory.{sample-IsFree}

-- There is no table for 0xC00000.
pgdir_walk-Creates_example : Creates sample sample_dir 0xC00000 (10 ∷ 11 ∷ [])
pgdir_walk-Creates_example =
    pgdir_walk-Creates sample sample_dir 0xC00000 5 (10 ∷ 11 ∷ []) sample-IsFree
      (record { at = refl; used = refl }) (unfold pdx in refl)

sample-Reaches : Reaches 64 sample_dir 0x800000 sample_mem
sample-Reaches = record {
  small = omega arith;
  word = unfold pdx in omega arith;
  present = unfold pdx in refl;
  exists = unfold pdx in omega arith;
}

pub sample-HasTable : HasTable 64 sample_dir 0x800000 sample_mem
sample-HasTable = record { reaches = sample-Reaches; apart = unfold pdx ptx in omega arith }

pub sample-IsMapped : IsMapped 64 sample_dir 0x800000 7 sample_mem
sample-IsMapped = record {
  table = sample-HasTable;
  word = unfold pdx ptx in omega arith;
  present = unfold pdx ptx in refl;
  page = unfold pdx ptx in refl;
  exists = omega arith;
}

sample-Before : Before sample sample_dir 0x800000 (10 ∷ 11 ∷ []) (some 7)
sample-Before = (sample-IsMapped, omega arith, omega arith, refl)

-- Page 8 takes the place of page 7.
abbrev replaced : Kernel
replaced = inserted sample_dir 8 0x800000 6 (some 7) sample

page_insert-lookup_example :
    (page_insert sample_dir 8 0x800000 6 sample ≡ ok (value 0) replaced)
    × (page_lookup sample_dir 0x800000 replaced
        ≡ ok (some (8, slot_of sample_dir 0x800000 replaced.mem)) replaced)
    × (pte_of sample_dir 0x800000 replaced.mem ≡ 8 * 4096 + bit_or 6 pte_p)
page_insert-lookup_example =
    page_insert-lookup sample sample_dir 8 0x800000 6 (10 ∷ 11 ∷ []) (some 7) sample-HasTable
      sample-IsFree sample-Before (omega arith) (omega arith) (omega arith)

page_insert_counts_example :
    (page_insert sample_dir 8 0x800000 6 sample ≡ ok (value 0) replaced)
    × ((r : ℕ)
        → (replaced.pages r).pp_ref + mapping (some 7) r
          ≡ (sample.pages r).pp_ref + mapping (some 8) r)
    × IsFree replaced (free_after sample 8 (10 ∷ 11 ∷ []) (some 7))
page_insert_counts_example =
    page_insert_counts sample sample_dir 8 0x800000 6 (10 ∷ 11 ∷ []) (some 7) sample-HasTable
      sample-IsFree sample-Before (omega arith) (omega arith) (omega arith) refl

abbrev emptied : Kernel
emptied = unmapped sample_dir 0x800000 (some 7) sample

page_remove_unmaps_example :
    (page_remove sample_dir 0x800000 sample ≡ ok tt emptied)
    × (page_lookup sample_dir 0x800000 emptied ≡ ok none emptied)
    × ((r : ℕ) → (emptied.pages r).pp_ref + mapping (some 7) r ≡ (sample.pages r).pp_ref)
    × IsFree emptied (cs444_operating_systems.Pgdir.Unmap.free_after sample (10 ∷ 11 ∷ []) (some 7))
    × (emptied.invlpgs ≡ flushes sample_dir 0x800000 (some 7) sample)
page_remove_unmaps_example =
    page_remove_unmaps sample sample_dir 0x800000 (10 ∷ 11 ∷ []) (some 7) sample-IsFree
      sample-Before

sample-IsSpace : IsSpace sample sample_dir
sample-IsSpace va = elim (ℕ_discrete (pdx va) 2) [
  | yes two ↦ inr (record {
    small = omega arith;
    word = ground arith;
    present = ground arith;
    exists = ground arith;
  })
  | no other ↦ inl (ground (arith, pdx_lem va))
]

user_mem_check_exact_example :
    Checked sample sample_dir pte_u 0x800010
      (0x800010 / pgsize * pgsize)
      ((0x800010 + 100 + 4095) / pgsize * pgsize)
      (user_mem_check 1 0x800010 100 pte_u sample)
user_mem_check_exact_example =
    user_mem_check_exact sample 1 0x800010 100 pte_u sample-IsSpace (omega arith)
