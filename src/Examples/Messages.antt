-- ===== src/Examples/Messages.antt =====
-- Messages, jos/kern/syscall.c, on the small machine.
use cs444_operating_systems.Base.{
  ℕ, ◌+◌, ◌*◌, ◌≡◌, inl, inr, refl, false, none, some, [], ◌∷◌, arith, ◌==◌, if◌then◌else◌, bit_or,
}
use cs444_operating_systems.Mmu.{pdx, ptx, pgoff, has_flag, pte_p}
use cs444_operating_systems.Kernel.{Kernel, runnable, not_runnable}
use cs444_operating_systems.Kernel.Run.{ok}
use cs444_operating_systems.Errors.{value}
use cs444_operating_systems.Pgdir.Map.{pte_of}
use cs444_operating_systems.Pgdir.Insert.{inserted}
use cs444_operating_systems.Pgdir.Remap.{mapping}
use cs444_operating_systems.Env.{envx}
use cs444_operating_systems.Syscall.{bad_perm, sys_ipc_try_send}
use cs444_operating_systems.Syscall.Target.{Targets}
use cs444_operating_systems.Syscall.Message.{told}
use cs444_operating_systems.Syscall.PageMessage.{told_with, sys_ipc_try_send_page}
use cs444_operating_systems.Examples.{sample, sample_env, sample_dir}
use cs444_operating_systems.Examples.Memory.{sample-IsFree}
use cs444_operating_systems.Examples.Tables.{sample-IsMapped}

-- Environment 2 waits for a page at 0x801000.
abbrev waiting : Kernel
waiting = record sample {
  envs = λ e. record (sample_env e) {
    env_status = if e == 2 then not_runnable else (sample_env e).env_status;
    env_ipc_recving = e == 2;
    env_ipc_dstva = 0x801000;
  };
}

waiting-Targets : Targets waiting 1 0x1002 false 2
waiting-Targets = record {
  current = refl;
  names = inr (omega arith, (unfold envx in refl, λ e. cc, refl, inl refl));
}

abbrev informed : Kernel
informed = told 1 2 42 waiting

abbrev supplied : Kernel
supplied = told_with 1 2 42 7 (inserted sample_dir 7 0x801000 7 none waiting)

sys_ipc_try_send_page_example :
    (sys_ipc_try_send 0x1002 42 0x800000 7 waiting ≡ ok (value 0) supplied)
    × (pte_of sample_dir 0x801000 supplied.mem ≡ 7 * 4096 + bit_or 7 pte_p)
    × ((x : ℕ)
        → (supplied.pages x).pp_ref + mapping none x
          ≡ (waiting.pages x).pp_ref + mapping (some 7) x)
    × ((supplied.envs 2).env_ipc_value ≡ 42)
    × ((supplied.envs 2).env_ipc_perm ≡ 7)
    × ((supplied.envs 2).env_status ≡ runnable)
    × ((supplied.envs 2).env_ipc_recving ≡ false)
sys_ipc_try_send_page_example =
    sys_ipc_try_send_page waiting 1 0x1002 2 42 0x800000 7 7 (10 ∷ 11 ∷ []) none waiting-Targets
      refl
      (record {
        below = omega arith;
        aligned = unfold pgoff in refl;
        accepted = unfold bad_perm in refl;
        word = omega arith;
        mapped = sample-IsMapped;
        fits = unfold has_flag pdx ptx in refl;
        asked = omega arith;
      })
      (record {
        reaches = record {
          small = omega arith;
          word = unfold pdx in omega arith;
          present = unfold pdx in refl;
          exists = unfold pdx in omega arith;
        };
        apart = unfold pdx ptx in omega arith;
      })
      (record {
        small = sample-IsFree.small;
        chain = sample-IsFree.chain;
        unlinked = sample-IsFree.unlinked;
      })
      (unfold pdx ptx in refl) (omega arith) refl
