-- ===== src/Examples/Traps.antt =====
-- Traps from user mode, jos/kern/trap.c, on the small machine.
use cs444_operating_systems.Base.{
  ℕ, ◌≡◌, ◌≢◌, ◌⊎◌, some, refl, [], ◌∷◌, arith, ◌==◌, if◌then◌else◌, bit_and, ◌+◌, ◌*◌, ◌%◌, ◌≤◌,
  ◌<◌, inl, inr,
}
use mathlib.Core.Path.{subst, sym}
use native.Mathlib.Decide.{ℕ_discrete}
use cs444_operating_systems.Mmu.{kernbase, pgsize, pdx, ptx}
use cs444_operating_systems.Mmu.Address.{pdx_lem}
use cs444_operating_systems.UserMem.Exact.{IsSpace, Allows}
use cs444_operating_systems.Traps.Fault.{stack_perm, HasUpcall, faulted}
use cs444_operating_systems.Traps.Fault.Stored.{IsStored, HasStack, trap_upcalls}
use cs444_operating_systems.Traps.Sends.{informed, delivered, trap_sends}
use cs444_operating_systems.Kernel.{
  Kernel, Trapframe, EnvStatus, dying, free, running, not_runnable, zero_tf, zero_regs,
}
use cs444_operating_systems.Kernel.Run.{resume}
use cs444_operating_systems.Pages.Free.{IsFree}
use cs444_operating_systems.Env.{envx}
use cs444_operating_systems.Env.FreeList.{IsTable}
use cs444_operating_systems.Spinlock.{unlocked}
use cs444_operating_systems.Switch.Run.{ran}
use cs444_operating_systems.Sched.Yield.{Yields}
use cs444_operating_systems.Syscall.{with_eax}
use cs444_operating_systems.Traps.{uxstacktop, utf_size, trap}
use cs444_operating_systems.Traps.Enter.{IsUser, entered}
use cs444_operating_systems.Traps.Timer.{trap_preempts}
use cs444_operating_systems.Traps.Zombie.{mourned, trap_buries}
use cs444_operating_systems.Examples.{sample, sample_env, sample_dir}
use cs444_operating_systems.Examples.Ends.{bare, bare-IsTable, bare-IsFree}

-- Environment 1 is in user mode.
abbrev outside : Kernel
outside = record sample { kernel_lock = unlocked }

-- A timer interrupt.
abbrev tick : Trapframe
tick = record zero_tf { tf_trapno = 32; tf_cs = 0x1B }

outside-IsUser : (tf : Trapframe) → bit_and tf.tf_cs 3 ≡ 3 → IsUser outside 1 tf
outside-IsUser tf user = record { current = refl; awake = refl; free_lock = refl; user_mode = user }

-- Environment 2 waits for a message, and environment 1 sends it 42.
abbrev posting : Kernel
posting = record outside {
  envs = λ e. record (sample_env e) {
    env_status = if e == 2 then not_runnable else (sample_env e).env_status;
    env_ipc_recving = e == 2;
  };
}

abbrev sends : Trapframe
sends = record zero_tf {
  tf_trapno = 48;
  tf_cs = 0x1B;
  tf_regs = record zero_regs { reg_eax = 11; reg_edx = 0x1002; reg_ecx = 42; reg_ebx = 0xF0000000 };
}

trap_sends_example :
    let k2 = delivered 1 2 sends posting in
    (trap 0 sends posting ≡ resume 1 k2)
    × ((k2.envs 1).env_tf ≡ with_eax 0 sends)
    × ((k2.envs 1).env_status ≡ running)
    × (k2.curenv ≡ some 1)
    × (k2.envs 2 ≡ informed 0x1001 42 (posting.envs 2))
    × ((x : ℕ) → x ≢ 1 → x ≢ 2 → k2.envs x ≡ posting.envs x)
    × (k2.mem ≡ posting.mem)
    × (k2.kernel_lock ≡ unlocked)
trap_sends_example =
    trap_sends posting 1 2 0 sends
      (record { current = refl; awake = refl; free_lock = refl; user_mode = refl }) refl
      (omega arith) (record { trap_number = refl; call_number = refl; no_page = omega arith })
      (record {
        target = record {
          current = refl;
          names = inr (omega arith, (unfold envx in refl, λ e. cc, refl, inl refl));
        };
        other = λ e. omega arith;
        waits = refl;
      })

trap_preempts_example :
    Yields (entered 1 tick outside) (trap 0 tick outside)
    × (((entered 1 tick outside).envs 1).env_tf ≡ tick)
    × ((x : ℕ) → x ≢ 1 → (entered 1 tick outside).envs x ≡ outside.envs x)
trap_preempts_example =
    trap_preempts outside 1 0 tick (outside-IsUser tick refl) refl refl
      (record { spaces = λ e alive. omega arith; kernel_space = omega arith })

-- Environment 1 has been destroyed by another CPU while it was in user mode.
abbrev zombie : Kernel
zombie = record bare {
  envs = λ e. record (bare.envs e) {
    env_status = if e == 0 then free else if e == 1 then dying else EnvStatus.not_runnable;
  };
  kernel_lock = unlocked;
}

trap_buries_example :
    Yields (mourned 1 12 zombie) (trap 0 tick zombie)
    × IsTable (mourned 1 12 zombie) (1 ∷ 0 ∷ [])
    × IsFree (mourned 1 12 zombie) (12 ∷ 10 ∷ 11 ∷ [])
    × (((mourned 1 12 zombie).envs 1).env_status ≡ free)
trap_buries_example =
    trap_buries zombie 1 12 0 tick (0 ∷ []) (10 ∷ 11 ∷ [])
      (record { current = refl; awake = refl; free_lock = refl; user_mode = refl }) refl
      (record {
        index = omega arith;
        taken = refl;
        at = refl;
        exists = omega arith;
        single = refl;
        kept = refl;
        home = omega arith;
      })
      (λ i lt. ground arith) (record { chain = bare-IsTable.chain; all = λ e lt f. ground arith })
      (record {
        small = bare-IsFree.small;
        chain = bare-IsFree.chain;
        unlinked = bare-IsFree.unlinked;
      })
      (record { spaces = λ e alive. omega arith; kernel_space = omega arith })

-- Page 9 is at the top of the exception stack, through the table in page 8; environment 1 has an
-- upcall.
abbrev stack_mem : ℕ → ℕ
stack_mem a =
    if a == kernbase + 5 * 4096 + 4 * 954
    then 8 * 4096 + 7
    else if a == kernbase + 8 * 4096 + 4 * 1023
    then 9 * 4096 + 7
    else 0

abbrev handling : Kernel
handling = record outside {
  mem = stack_mem;
  envs = λ e. record (sample_env e) { env_pgfault_upcall = 0x800020 };
}

-- A fault on the user stack.
abbrev fault : Trapframe
fault = record zero_tf { tf_trapno = 14; tf_cs = 0x1B; tf_esp = 0xEEBFDF00 }

handling-IsSpace : IsSpace handling sample_dir
handling-IsSpace va = elim (ℕ_discrete (pdx va) 954) [
  | yes top ↦ inr (record {
    small = omega arith;
    word = ground arith;
    present = ground arith;
    exists = ground arith;
  })
  | no other ↦ inl (ground (arith, pdx_lem va))
]

top_page : (s : ℕ) → 0xEEBFF000 ≤ s → s < 0xEEC00000 → s % pgsize ≡ 0 → s ≡ 0xEEBFF000
top_page s lo hi aligned = omega arith

top-Allows : Allows handling sample_dir stack_perm 0xEEBFF000
top-Allows = (omega arith, unfold pdx in refl, unfold pdx ptx in refl, unfold pdx ptx in refl)

handling-HasUpcall : HasUpcall handling 1 fault
handling-HasUpcall = record {
  set = λ e. omega arith;
  address_space = handling-IsSpace;
  kernel_address = omega arith;
  room = omega arith;
  writable = λ s lo hi aligned.
      subst (Allows handling sample_dir stack_perm) (sym (top_page s lo hi aligned)) top-Allows;
}

handling-HasStack : HasStack handling 1 9 fault
handling-HasStack = record {
  stack = record {
    page = unfold pdx ptx in refl;
    entry_off = inl (unfold pdx ptx in omega arith);
    directory_off = inl (unfold pdx in omega arith);
  };
  inside = omega arith;
}

trap_upcalls_example :
    let k2 = ran 1 (faulted 1 0x1234 fault (entered 1 fault handling)) in
    let at = 9 * 4096 + kernbase + 0xFCC in
    (trap 0x1234 fault handling ≡ resume 1 k2)
    × ((k2.envs 1).env_tf ≡ record fault { tf_esp = 0xEEBFFFCC; tf_eip = 0x800020 })
    × (0xEEBFFFCC + utf_size ≡ uxstacktop)
    × IsStored k2.mem at 0x1234 fault
    × ((a : ℕ) → (a < at) ⊎ (at + utf_size ≤ a) → k2.mem a ≡ handling.mem a)
    × (k2.kernel_lock ≡ unlocked)
trap_upcalls_example =
    trap_upcalls handling 1 0x1234 9 fault
      (record { current = refl; awake = refl; free_lock = refl; user_mode = refl }) refl refl
      handling-HasUpcall handling-HasStack
