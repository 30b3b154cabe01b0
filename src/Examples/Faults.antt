-- ===== src/Examples/Faults.antt =====
-- A write to a copy-on-write page, jos/lib/fork.c, on the small machine.
use cs444_operating_systems.Base.{
  ℕ, ◌+◌, ◌*◌, ◌<◌, ◌≡◌, refl, some, [], ◌∷◌, arith, ◌==◌, if◌then◌else◌, bit_or,
}
use cs444_operating_systems.Mmu.{kernbase, pdx, ptx, pte_p}
use cs444_operating_systems.Kernel.{Kernel}
use cs444_operating_systems.Kernel.Run.{ok}
use cs444_operating_systems.Pages.Free.{IsFree}
use cs444_operating_systems.Pgdir.Map.{pte_of, IsMapped}
use cs444_operating_systems.Pgdir.Remap.{mapping}
use cs444_operating_systems.UserLib.PageFault.{private_perm, pgfault}
use cs444_operating_systems.UserLib.PageFault.Fault.{Faults}
use cs444_operating_systems.UserLib.PageFault.Copy.{pgfault_copies}
use cs444_operating_systems.Examples.{sample, sample_mem, sample_dir}
use cs444_operating_systems.Examples.Memory.{sample-IsFree}

-- Page 7 is copy-on-write at 0x800000, and page 8 is the empty table for PFTEMP.
abbrev shared_mem : ℕ → ℕ
shared_mem a =
    if a == sample_dir + 4 * 1
    then 8 * 4096 + 7
    else if a == kernbase + 6 * 4096
    then 7 * 4096 + 0x805
    else sample_mem a

abbrev shared : Kernel
shared = record sample { mem = shared_mem }

shared-Faults : Faults shared 1 0x800004 2 5 10 7 (11 ∷ [])
shared-Faults = record {
  current = refl;
  write = omega arith;
  below = omega arith;
  mapped = record {
    table = record {
      reaches = record {
        small = omega arith;
        word = unfold pdx ptx in omega arith;
        present = unfold pdx ptx in refl;
        exists = unfold pdx ptx in omega arith;
      };
      apart = unfold pdx ptx in omega arith;
    };
    word = unfold pdx ptx in omega arith;
    present = unfold pdx ptx in refl;
    page = unfold pdx ptx in refl;
    exists = omega arith;
  };
  cow = unfold pdx ptx in refl;
  free_list = record {
    small = sample-IsFree.small;
    chain = sample-IsFree.chain;
    unlinked = sample-IsFree.unlinked;
  };
  at_page = record {
    dir = record { at = refl; used = refl };
    table = record {
      reaches = record {
        small = omega arith;
        word = unfold pdx ptx in omega arith;
        present = unfold pdx ptx in refl;
        exists = unfold pdx ptx in omega arith;
      };
      apart = unfold pdx ptx in omega arith;
    };
    used = unfold pdx ptx in refl;
  };
  at_temp = record {
    dir = record { at = refl; used = refl };
    table = record {
      reaches = record {
        small = omega arith;
        word = unfold pdx ptx in omega arith;
        present = unfold pdx ptx in refl;
        exists = unfold pdx ptx in omega arith;
      };
      apart = unfold pdx ptx in omega arith;
    };
    used = unfold pdx ptx in refl;
  };
  empty = unfold pdx ptx in refl;
  used = (omega arith, omega arith, refl);
  slots = unfold pdx ptx in omega arith;
  page_off = unfold pdx ptx in omega arith;
  temp_off = unfold pdx ptx in omega arith;
  own_table = unfold pdx ptx in omega arith;
  temp_table = unfold pdx ptx in omega arith;
}

pgfault_copies_example :
    (k' : Kernel) × (pgfault 0x800004 2 shared ≡ ok tt k')
    × IsMapped 64 sample_dir 0x800000 10 k'.mem
    × (pte_of sample_dir 0x800000 k'.mem ≡ 10 * 4096 + bit_or private_perm pte_p)
    × ((off : ℕ)
        → off < 4096
        → k'.mem (10 * 4096 + kernbase + off) ≡ shared_mem (7 * 4096 + kernbase + off))
    × ((off : ℕ)
        → off < 4096
        → k'.mem (7 * 4096 + kernbase + off) ≡ shared_mem (7 * 4096 + kernbase + off))
    × ((r : ℕ)
        → (k'.pages r).pp_ref + mapping (some 7) r ≡ (shared.pages r).pp_ref + mapping (some 10) r)
    × IsFree k' (7 ∷ 11 ∷ [])
pgfault_copies_example = pgfault_copies shared 1 0x800004 2 5 10 7 (11 ∷ []) shared-Faults
