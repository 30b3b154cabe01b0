-- ===== src/Traps/Calls.antt =====
-- A system call from user mode, through trap of jos/kern/trap.c.
use cs444_operating_systems.Base.{ℕ, ◌≡◌, ◌≢◌, refl, false, some, arith, update, ◌∙◌, ap}
use cs444_operating_systems.Kernel.{Kernel, Trapframe, running}
use cs444_operating_systems.Kernel.Run.{Run, ok, resume, and_then}
use cs444_operating_systems.Errors.{Ret}
use cs444_operating_systems.Spinlock.{unlocked}
use cs444_operating_systems.Switch.{env_run}
use cs444_operating_systems.Switch.Run.{MayRun, ran, env_run-resume}
use cs444_operating_systems.Syscall.{with_eax}
use cs444_operating_systems.Dispatch.{syscall, bits}
use cs444_operating_systems.Traps.{t_syscall, is_dying, trap_dispatch, leave_trap, trap}
use cs444_operating_systems.Traps.Enter.{IsUser, entered, trap-entered}

-- The call that the registers of a frame ask for.
abbrev pub call_of : Trapframe → Kernel → Run Ret
call_of tf =
    syscall tf.tf_regs.reg_eax tf.tf_regs.reg_edx tf.tf_regs.reg_ecx tf.tf_regs.reg_ebx
      tf.tf_regs.reg_edi tf.tf_regs.reg_esi

-- The kernel with the result in the frame of environment `c`.
abbrev pub answered : ℕ → Ret → Kernel → Kernel
answered c r k = record k {
  envs = update k.envs c (record (k.envs c) { env_tf = with_eax (bits r) (k.envs c).env_tf });
}

dispatch-call :
    (k k' : Kernel) (c fault_va : ℕ) (tf : Trapframe) (r : Ret)
    → tf.tf_trapno ≡ t_syscall
    → call_of tf k ≡ ok r k'
    → trap_dispatch (some c) fault_va tf k ≡ ok tt (answered c r k')
unfolding trap_dispatch
dispatch-call k k' c fault_va tf r number done = rw number (rw done refl)

pub leave-run :
    (k : Kernel) (c : ℕ)
    → k.curenv ≡ some c
    → (k.envs c).env_status ≡ running
    → leave_trap k ≡ env_run c k
unfolding leave_trap
leave-run k c cur on = ground (arith, cur, on)

-- The way out of a system call that returns to a caller which is current and running, and that leaves
-- the lock held and the caller's page directory at a kernel address.
pub trap_returns :
    (k k' : Kernel) (c fault_va : ℕ) (tf : Trapframe) (r : Ret)
    → IsUser k c tf
    → is_dying (k.envs c).env_status ≡ false
    → tf.tf_trapno ≡ t_syscall
    → call_of tf (entered c tf k) ≡ ok r k'
    → k'.curenv ≡ some c
    → (k'.envs c).env_status ≡ running
    → MayRun k' c
    → let k2 = ran c (answered c r k') in
      (trap fault_va tf k ≡ resume c k2)
      × ((k2.envs c).env_tf ≡ with_eax (bits r) (k'.envs c).env_tf)
      × ((k2.envs c).env_status ≡ running)
      × (k2.kernel_lock ≡ unlocked)
      × ((x : ℕ) → x ≢ c → k2.envs x ≡ k'.envs x)
trap_returns k k' c fault_va tf r u alive number done cur on may =
    let k1 = answered c r k' in
    let on1 : (k1.envs c).env_status ≡ running = ground arith in
    let may1 : MayRun k1 c = record { held = may.held; space = ground (arith, may.space) } in
    (
      trap-entered k c fault_va tf u alive
          ∙ ap (λ q. and_then q (λ _. leave_trap))
              (dispatch-call (entered c tf k) k' c fault_va tf r number done)
          ∙ leave-run k1 c cur on1
          ∙ env_run-resume k1 c may1,
      ground (arith, cur),
      ground (arith, cur),
      refl,
      λ x ne. ground (arith, cur),
    )
