-- ===== src/Traps/Sends.antt =====
-- A message that a user program sends, from the trap of jos/kern/trap.c to the return to user mode.
use cs444_operating_systems.Base.{
  ℕ, ◌≤◌, ◌≡◌, ◌≢◌, refl, false, true, some, arith, inl, inr, ap, ◌∙◌, sym,
}
use mathlib.Core.Path.{subst}
use cs444_operating_systems.Mmu.{kernbase, utop}
use cs444_operating_systems.Kernel.{Kernel, Env, Trapframe, running, runnable}
use cs444_operating_systems.Kernel.Run.{ok, resume}
use cs444_operating_systems.Errors.{value}
use cs444_operating_systems.Spinlock.{unlocked}
use cs444_operating_systems.Switch.Run.{ran}
use cs444_operating_systems.Syscall.{with_eax}
use cs444_operating_systems.Syscall.Target.{Targets}
use cs444_operating_systems.Syscall.Message.{told, send-ok}
use cs444_operating_systems.Dispatch.{syscall}
use cs444_operating_systems.Traps.{t_syscall, trap}
use cs444_operating_systems.Traps.Enter.{IsUser, entered, held-locked_in}
use cs444_operating_systems.Traps.Calls.{call_of, answered, trap_returns}

-- The frame `tf` asks for sys_ipc_try_send without a page.
pub record IsSend (tf : Trapframe) : Type 0 where
  pub trap_number : tf.tf_trapno ≡ t_syscall
  pub call_number : tf.tf_regs.reg_eax ≡ 11
  pub no_page : utop ≤ tf.tf_regs.reg_ebx

-- Environment `e` waits in sys_ipc_recv, and `envid` names it for `c`.
pub record IsReceiver (k : Kernel) (c envid e : ℕ) : Type 0 where
  pub target : Targets k c envid false e
  pub other : e ≢ c
  pub waits : (k.envs e).env_ipc_recving ≡ true

entered-Targets :
    (k : Kernel) (c envid e : ℕ) (tf : Trapframe)
    → Targets k c envid false e
    → Targets (entered c tf k) c envid false e
entered-Targets k c envid e tf t = record {
  current = t.current;
  names = elim t.names [
    | inl own ↦ inl own
    | inr (nonzero, (at, used, id, allowed)) ↦
        inr (nonzero, (at, ground (arith, used), ground (arith, id), inl refl))
  ];
}

send-done :
    (k : Kernel) (c e : ℕ) (tf : Trapframe)
    → IsSend tf
    → IsReceiver k c tf.tf_regs.reg_edx e
    → call_of tf (entered c tf k) ≡ ok (value 0) (told c e tf.tf_regs.reg_ecx (entered c tf k))
unfolding syscall
send-done k c e tf s r =
    ap
      (λ (n : ℕ).
        syscall n tf.tf_regs.reg_edx tf.tf_regs.reg_ecx tf.tf_regs.reg_ebx tf.tf_regs.reg_edi
          tf.tf_regs.reg_esi (entered c tf k))
      s.call_number
    ∙ send-ok (entered c tf k) c tf.tf_regs.reg_edx e tf.tf_regs.reg_ecx tf.tf_regs.reg_ebx
        tf.tf_regs.reg_edi (entered-Targets k c tf.tf_regs.reg_edx e tf r.target)
        (ground (arith, r.other, r.waits)) s.no_page

-- The receiver with the message.
abbrev pub informed : (from val : ℕ) → Env → Env
informed from val env = record env {
  env_ipc_recving = false;
  env_ipc_from = from;
  env_ipc_value = val;
  env_ipc_perm = 0;
  env_tf = with_eax 0 env.env_tf;
  env_status = runnable;
}

told_receiver :
    (k : Kernel) (c e val : ℕ) → (told c e val k).envs e ≡ informed (k.envs c).env_id val (k.envs e)
told_receiver k c e val = ground arith

told_other : (k : Kernel) (c e val x : ℕ) → x ≢ e → (told c e val k).envs x ≡ k.envs x
told_other k c e val x ne = ground arith

entered_own :
    (k : Kernel) (c : ℕ) (tf : Trapframe)
    → (entered c tf k).envs c ≡ record (k.envs c) { env_tf = tf }
entered_own k c tf = ground arith

entered_other : (k : Kernel) (c x : ℕ) (tf : Trapframe) → x ≢ c → (entered c tf k).envs x ≡ k.envs x
entered_other k c x tf ne = ground arith

-- The kernel when the sender goes on.
abbrev pub delivered : (c e : ℕ) → Trapframe → Kernel → Kernel
delivered c e tf k = ran c (answered c (value 0) (told c e tf.tf_regs.reg_ecx (entered c tf k)))

-- A user program that sends a message with sys_ipc_try_send, without a page, to another environment
-- that waits in sys_ipc_recv: trap ends in user mode in the sender, which is current and running, with 0
-- in %eax and its other registers as they were. The receiver has the value and the sender's id, with
-- permission 0, no longer waits, is runnable, and its system call returns 0. No other environment and
-- no word of memory has changed, and the lock is free again. The hypotheses: the trap came from user mode
-- in an environment that is running, with the lock free, its page directory is at a kernel address,
-- and the id in %edx is that of the receiver.
pub trap_sends :
    (k : Kernel) (c e fault_va : ℕ) (tf : Trapframe)
    → IsUser k c tf
    → (k.envs c).env_status ≡ running
    → kernbase ≤ (k.envs c).env_pgdir
    → IsSend tf
    → IsReceiver k c tf.tf_regs.reg_edx e
    → let k2 = delivered c e tf k in
      (trap fault_va tf k ≡ resume c k2)
      × ((k2.envs c).env_tf ≡ with_eax 0 tf)
      × ((k2.envs c).env_status ≡ running)
      × (k2.curenv ≡ some c)
      × (k2.envs e ≡ informed (k.envs c).env_id tf.tf_regs.reg_ecx (k.envs e))
      × ((x : ℕ) → x ≢ c → x ≢ e → k2.envs x ≡ k.envs x)
      × (k2.mem ≡ k.mem)
      × (k2.kernel_lock ≡ unlocked)
trap_sends k c e fault_va tf u on space s r =
    let k1 = entered c tf k in
    let val = tf.tf_regs.reg_ecx in
    let k' = told c e val k1 in
    let apart : c ≢ e = λ same. r.other (sym same) in
    let own : k'.envs c ≡ record (k.envs c) { env_tf = tf } =
      told_other k1 c e val c apart ∙ entered_own k c tf in
    let got : k'.envs e ≡ informed (k.envs c).env_id val (k.envs e) =
      told_receiver k1 c e val
      ∙ ap (λ (env : Env). informed env.env_id val (k1.envs e)) (entered_own k c tf)
      ∙ ap (informed (k.envs c).env_id val) (entered_other k c e tf r.other) in
    let returns =
      trap_returns k k' c fault_va tf (value 0) u (rw on refl) s.trap_number
        (send-done k c e tf s r) u.current (ap (λ (env : Env). env.env_status) own ∙ on)
        (record {
          held = held-locked_in k;
          space = subst (λ (env : Env). kernbase ≤ env.env_pgdir) (sym own) space;
        }) in
    (
      returns.0,
      returns.1 ∙ ap (λ (env : Env). with_eax 0 env.env_tf) own,
      returns.2,
      refl,
      returns.4 e r.other ∙ got,
      λ x nc ne. returns.4 x nc ∙ told_other k1 c e val x ne ∙ entered_other k c x tf nc,
      refl,
      refl,
    )
