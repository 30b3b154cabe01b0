-- ===== src/Examples/Calls.antt =====
-- The system calls of jos/kern/syscall.c on pages and environments, on the small machine.
use cs444_operating_systems.Base.{
  ℕ, ◌≡◌, inl, inr, refl, true, false, none, [], ◌∷◌, arith, ◌==◌, if◌then◌else◌,
}
use cs444_operating_systems.Mmu.{pdx, ptx, pgoff}
use cs444_operating_systems.Kernel.{Kernel}
use cs444_operating_systems.Kernel.Run.{ok}
use cs444_operating_systems.Errors.{error, no_mem}
use cs444_operating_systems.Pages.{alloc_zero}
use cs444_operating_systems.Pages.Free.{IsFree, allocated}
use cs444_operating_systems.Pgdir.Walk.{HasTable}
use cs444_operating_systems.Pgdir.Map.{pte_of}
use cs444_operating_systems.Pgdir.Insert.{inserted}
use cs444_operating_systems.Env.{envx}
use cs444_operating_systems.Syscall.{bad_perm, sys_page_alloc, sys_page_map}
use cs444_operating_systems.Syscall.Target.{Targets}
use cs444_operating_systems.Syscall.NewPage.{flags_of}
use cs444_operating_systems.Syscall.Exhausted.{restored, sys_page_alloc_restores}
use cs444_operating_systems.Syscall.Share.{widens, Shares, sys_page_map-Shares}
use cs444_operating_systems.Syscall.Fork.{Forks, sys_exofork_copies}
use cs444_operating_systems.Examples.{sample, sample_dir, sample_mem}
use cs444_operating_systems.Examples.Memory.{sample-IsFree}
use cs444_operating_systems.Examples.Tables.{sample-IsMapped}
use cs444_operating_systems.Examples.Envs.{busy, busy-IsTable}

-- Environment 1 may change itself, which it names by 0, and its child 2.
itself : Targets sample 1 0 true 1
itself = record { current = refl; names = inl (refl, refl) }

child : Targets sample 1 0x1002 true 2
child = record {
  current = refl;
  names = inr (omega arith, (unfold envx in refl, λ e. cc, refl, inr (inr refl)));
}

fine_perm : bad_perm 7 ≡ false
fine_perm = unfold bad_perm in refl

-- The table has no entry for 0x801000.
next-HasTable : HasTable 64 sample_dir 0x801000 sample_mem
next-HasTable = record {
  reaches = record {
    small = omega arith;
    word = unfold pdx in omega arith;
    present = unfold pdx in refl;
    exists = unfold pdx in omega arith;
  };
  apart = unfold pdx ptx in omega arith;
}

abbrev grown : Kernel
grown = inserted sample_dir 10 0x801000 (flags_of 7) none (allocated alloc_zero 10 sample)

-- Only page 10 is free.
abbrev short : Kernel
short = record sample {
  pages = λ p.
      if p == 10
      then record { pp_link = none; pp_ref = 0 }
      else record { pp_link = none; pp_ref = 1 };
}

short-IsFree : IsFree short (10 ∷ [])
short-IsFree = record {
  small = omega arith;
  chain = (refl, omega arith, refl, refl, refl);
  unlinked = λ p out. ground arith;
}

sys_page_alloc_restores_example :
    (sys_page_alloc 0 0xC00000 7 short ≡ ok (error no_mem) (restored 10 short))
    × IsFree (restored 10 short) (10 ∷ [])
    × ((q : ℕ) → ((restored 10 short).pages q).pp_ref ≡ (short.pages q).pp_ref)
sys_page_alloc_restores_example =
    sys_page_alloc_restores short 1 0 1 0xC00000 7 5 10
      (record { current = refl; names = inl (refl, refl) }) (unfold pgoff in refl) fine_perm
      short-IsFree (record { at = refl; used = refl }) (unfold pdx in refl)

-- Environment 1 gives page 7 to its child, at 0x801000.
sys_page_map-Shares_example :
    Shares
      (widens 7 (pte_of sample_dir 0x800000 sample_mem))
      sample
      sample_dir
      7
      0x801000
      7
      (10 ∷ 11 ∷ [])
      none
      (sys_page_map 0 0x800000 0x1002 0x801000 7 sample)
sys_page_map-Shares_example =
    sys_page_map-Shares sample 1 0 1 0x800000 0x1002 2 0x801000 7 7 (10 ∷ 11 ∷ []) none itself child
      (unfold pgoff in refl) (unfold pgoff in refl) fine_perm (omega arith) sample-IsMapped
      next-HasTable sample-IsFree (unfold pdx ptx in refl) (omega arith) refl

sys_exofork_copies_example : Forks busy 1 (0 ∷ []) (10 ∷ 11 ∷ [])
sys_exofork_copies_example =
    sys_exofork_copies busy 1 (0 ∷ []) (10 ∷ 11 ∷ []) refl (λ e. cc) busy-IsTable
      (record {
        small = sample-IsFree.small;
        chain = sample-IsFree.chain;
        unlinked = sample-IsFree.unlinked;
      })
      (λ e lt. ground arith)
