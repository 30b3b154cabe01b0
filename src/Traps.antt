-- ===== src/Traps.antt =====
-- Traps: trap_dispatch, trap and page_fault_handler of jos/kern/trap.c.
pub mod Entries
pub mod Gates
pub mod Enter
pub mod Calls
pub mod Sends
pub mod Timer
pub mod Zombie
pub mod Fault
use cs444_operating_systems.Base.{
  ℕ, ◌+◌, ◌-◌, ◌*◌, ◌/◌, ◌%◌, ◌^◌, Option, none, some, Bool, true, false, not, ◌&&◌, ◌==◌, leb,
  if◌then◌else◌, bit_and, bit_or, List, [], ◌∷◌,
}
use cs444_operating_systems.Mmu.{u32, utop, kernbase, pgsize, pgoff, pte_p, pte_u, pte_w}
use cs444_operating_systems.Kernel.{
  Kernel, Env, EnvStatus, dying, PushRegs, Trapframe, CpuStatus, started, halted,
}
use cs444_operating_systems.Kernel.Run.{
  Cmd, pure, fail, monitor, ◌>>=◌, ◌>>◌, gets, modify, store, set_env, when,
}
use cs444_operating_systems.Errors.{Ret}
use cs444_operating_systems.Spinlock.{lock_kernel}
use cs444_operating_systems.Switch.{is_running, env_run}
use cs444_operating_systems.Sched.{sched_yield}
use cs444_operating_systems.Destroy.{env_free, env_destroy, user_mem_assert}
use cs444_operating_systems.Syscall.{curenv_of, with_eax}
use cs444_operating_systems.Dispatch.{syscall, bits}
use cs444_operating_systems.Pgdir.Map.{pte_of}

abbrev pub uxstacktop : ℕ
uxstacktop = utop

abbrev pub gd_kt : ℕ
gd_kt = 0x08

abbrev pub t_brkpt : ℕ
t_brkpt = 3

abbrev pub t_pgflt : ℕ
t_pgflt = 14

abbrev pub t_syscall : ℕ
t_syscall = 48

abbrev pub irq_offset : ℕ
irq_offset = 32

abbrev pub irq_timer : ℕ
irq_timer = 0

abbrev pub irq_spurious : ℕ
irq_spurious = 7

-- `struct UTrapframe`
pub record UTrapframe : Type 0 where
  pub utf_fault_va : ℕ
  pub utf_err : ℕ
  pub utf_regs : PushRegs
  pub utf_eip : ℕ
  pub utf_eflags : ℕ
  pub utf_esp : ℕ

-- `sizeof(struct UTrapframe)`
abbrev pub utf_size : ℕ
utf_size = 52

-- Its words, in the order in which they lie in memory.
abbrev pub utf_words : UTrapframe → List ℕ
utf_words utf =
    utf.utf_fault_va ∷ utf.utf_err ∷ utf.utf_regs.reg_edi ∷ utf.utf_regs.reg_esi
    ∷ utf.utf_regs.reg_ebp ∷ utf.utf_regs.reg_oesp ∷ utf.utf_regs.reg_ebx ∷ utf.utf_regs.reg_edx
    ∷ utf.utf_regs.reg_ecx ∷ utf.utf_regs.reg_eax ∷ utf.utf_eip ∷ utf.utf_eflags ∷ utf.utf_esp ∷ []

-- The kernel virtual address of the word at `va` of an address space, as the MMU translates it.
abbrev pub translate : (pgdir va : ℕ) → (ℕ → ℕ) → ℕ
translate pgdir va m = pte_of pgdir va m / 4096 * 4096 + kernbase + va % 4096

-- Words stored at aligned addresses of the address space from `va` on.
unfoldable pub store_words : (pgdir va : ℕ) → List ℕ → Cmd (Unit {0})
store_words pgdir va [] = pure tt
store_words pgdir va (w ∷ ws) = do
  at ← gets λ k. translate pgdir va k.mem
  store at w
  store_words pgdir (u32 (va + 4)) ws

abbrev pub is_dying : EnvStatus → Bool
is_dying dying = true
is_dying _ = false

abbrev pub is_halted : CpuStatus → Bool
is_halted halted = true
is_halted _ = false

-- Where the frame goes: below a word of scratch space if the stack is the exception stack already.
abbrev pub frame_at : ℕ → ℕ
frame_at esp =
    if leb (uxstacktop - pgsize) esp && leb esp uxstacktop
    then u32 (esp + 2 ^ 32 - 4 - utf_size)
    else uxstacktop - utf_size

-- The branch of page_fault_handler for an environment `c` with an upcall.
unfoldable pub upcall : (c fault_va : ℕ) → Trapframe → Cmd (Unit {0})
upcall c fault_va tf = do
  set_env c λ env. record env { env_tf = record env.env_tf { tf_esp = frame_at tf.tf_esp } }
  user_mem_assert c (frame_at tf.tf_esp) utf_size (bit_or (bit_or pte_u pte_p) pte_w)
  set_env c λ env. record env { env_tf = record env.env_tf { tf_eip = env.env_pgfault_upcall } }
  env ← gets λ k. k.envs c
  store_words env.env_pgdir (frame_at tf.tf_esp) (
      utf_words (record {
        utf_fault_va = fault_va;
        utf_err = tf.tf_err;
        utf_regs = tf.tf_regs;
        utf_eip = tf.tf_eip;
        utf_eflags = tf.tf_eflags;
        utf_esp = tf.tf_esp;
      }))
  env_run c

-- `tf` is the trap frame, which is the one of the current environment if the trap came from user
-- mode; `fault_va` is the register CR2.
unfoldable pub page_fault_handler : (fault_va : ℕ) → Trapframe → Cmd (Unit {0})
page_fault_handler fault_va tf = if bit_and tf.tf_cs 3 == 0 then fail else do
  c ← curenv_of
  env ← gets λ k. k.envs c
  if not (env.env_pgfault_upcall == 0) then upcall c fault_va tf else env_destroy c

-- The frame on the kernel's stack is lost; the one of the current environment keeps the result.
abbrev pub set_eax : Option ℕ → ℕ → Cmd (Unit {0})
set_eax none r = pure tt
set_eax (some c) r = set_env c λ env. record env { env_tf = with_eax r env.env_tf }

-- The end of trap_dispatch.
unfoldable pub unexpected : Trapframe → Cmd (Unit {0})
unexpected tf = if tf.tf_cs == gd_kt then fail else (curenv_of >>= env_destroy)

-- `owner` is the environment whose trap frame `tf` is, `none` if it lies on the kernel's stack.
unfoldable pub trap_dispatch : (owner : Option ℕ) (fault_va : ℕ) → Trapframe → Cmd (Unit {0})
trap_dispatch owner fault_va tf =
    if tf.tf_trapno == irq_offset + irq_spurious
    then pure tt
    else if tf.tf_trapno == t_pgflt
    then page_fault_handler fault_va tf
    else if tf.tf_trapno == t_brkpt
    then monitor
    else if tf.tf_trapno == t_syscall
    then (do
      r ←
          syscall tf.tf_regs.reg_eax tf.tf_regs.reg_edx tf.tf_regs.reg_ecx tf.tf_regs.reg_ebx
            tf.tf_regs.reg_edi tf.tf_regs.reg_esi
      set_eax owner (bits r))
    else if tf.tf_trapno == irq_offset + irq_timer
    then (sched_yield >> unexpected tf)
    else unexpected tf

-- The part of trap for a trap from user mode: the environment whose frame `tf` becomes.
unfoldable pub enter_from_user : Trapframe → Cmd ℕ
enter_from_user tf = do
  lock_kernel
  c ← curenv_of
  env ← gets λ k. k.envs c
  when (is_dying env.env_status)
      (do env_free c; modify λ k. record k { curenv = none }; sched_yield)
  set_env c λ e. record e { env_tf = tf }
  pure c

-- What trap does when the trap has been dispatched.
unfoldable pub leave_trap : Cmd (Unit {0})
leave_trap = do
  cur ← gets λ k. k.curenv
  elim cur [
    | none ↦ sched_yield
    | some c ↦ do
      env ← gets λ k. k.envs c
      if is_running env.env_status then env_run c else sched_yield
  ]

-- Where no CPU has panicked.
unfoldable pub trap : (fault_va : ℕ) → Trapframe → Cmd (Unit {0})
trap fault_va tf = do
  status ← gets λ k. k.cpu_status
  modify λ k. record k { cpu_status = started }
  when (is_halted status) lock_kernel
  if bit_and tf.tf_cs 3 == 3
      then (do c ← enter_from_user tf; trap_dispatch (some c) fault_va tf)
      else trap_dispatch none fault_va tf
  leave_trap
