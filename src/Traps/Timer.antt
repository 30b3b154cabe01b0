-- ===== src/Traps/Timer.antt =====
-- A timer interrupt from user mode, through trap of jos/kern/trap.c.
use cs444_operating_systems.Base.{ℕ, ◌+◌, ◌≡◌, ◌≢◌, ◌≤◌, refl, true, false, some, arith, ◌∙◌, ap}
use mathlib.Core.Path.{subst, sym}
use cs444_operating_systems.Mmu.{kernbase}
use cs444_operating_systems.Kernel.{Kernel, Trapframe}
use cs444_operating_systems.Kernel.Run.{and_then}
use cs444_operating_systems.Sched.{is_alive, sched_yield}
use cs444_operating_systems.Sched.RoundRobin.{IsEntered}
use cs444_operating_systems.Sched.Yield.{Yields, sched_yield_chooses}
use cs444_operating_systems.Traps.{
  irq_offset, irq_timer, is_dying, unexpected, trap_dispatch, leave_trap, trap,
}
use cs444_operating_systems.Traps.Enter.{
  IsUser, entered, held-locked_in, trap-entered, Yields-final,
}

-- The page directories in use have kernel addresses.
pub record HasSpaces (k : Kernel) : Type 0 where
  pub spaces : (e : ℕ) → is_alive (k.envs e).env_status ≡ true → kernbase ≤ (k.envs e).env_pgdir
  pub kernel_space : kernbase ≤ k.kern_pgdir

entered-IsEntered : (k : Kernel) (c : ℕ) (tf : Trapframe) → HasSpaces k → IsEntered (entered c tf k)
entered-IsEntered k c tf h = record {
  held = held-locked_in k;
  spaces = λ e alive. ground (arith, h.spaces e);
  kernel_space = h.kernel_space;
}

dispatch-timer :
    (k : Kernel) (c fault_va : ℕ) (tf : Trapframe)
    → tf.tf_trapno ≡ irq_offset + irq_timer
    → trap_dispatch (some c) fault_va tf k ≡ and_then (sched_yield k) (λ _. unexpected tf)
unfolding trap_dispatch
dispatch-timer k c fault_va tf number = rw number refl

-- A timer interrupt from user mode never returns from the kernel: the frame is saved in the current
-- environment, and the CPU goes on as sched_yield decides. The hypotheses: the environment is not
-- dying, the lock is free, and the page directories in use have kernel addresses.
pub trap_preempts :
    (k : Kernel) (c fault_va : ℕ) (tf : Trapframe)
    → IsUser k c tf
    → is_dying (k.envs c).env_status ≡ false
    → tf.tf_trapno ≡ irq_offset + irq_timer
    → HasSpaces k
    → Yields (entered c tf k) (trap fault_va tf k)
      × (((entered c tf k).envs c).env_tf ≡ tf)
      × ((x : ℕ) → x ≢ c → (entered c tf k).envs x ≡ k.envs x)
trap_preempts k c fault_va tf u alive number h =
    let k1 = entered c tf k in
    let y = sched_yield_chooses k1 (entered-IsEntered k c tf h) in
    let path =
      trap-entered k c fault_va tf u alive
      ∙ ap (λ q. and_then q (λ _. leave_trap))
          (dispatch-timer k1 c fault_va tf number
            ∙ Yields-final k1 (sched_yield k1) (λ _. unexpected tf) y)
      ∙ Yields-final k1 (sched_yield k1) (λ _. leave_trap) y in
    (subst (Yields k1) (sym path) y, ground arith, λ x ne. ground arith)
