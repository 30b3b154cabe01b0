-- ===== src/Kernel.antt =====
-- The state that the kernel's functions share: the globals of jos/kern/pmap.c, jos/kern/env.c and
-- jos/kern/cpu.h, with the structures of jos/inc/memlayout.h, jos/inc/env.h and jos/inc/trap.h.
-- A pointer into `pages` or `envs` is the index, `none` is NULL.
pub mod Run
use cs444_operating_systems.Base.{ℕ, List, Option, none, Bool, ◌^◌}
use cs444_operating_systems.Console.{Cons}

-- The next free page, and the references to this one (uint16_t).
pub record PageInfo : Type 0 where
  pub pp_link : Option ℕ
  pub pp_ref : ℕ

pub record PushRegs : Type 0 where
  pub reg_edi : ℕ
  pub reg_esi : ℕ
  pub reg_ebp : ℕ
  pub reg_oesp : ℕ
  pub reg_ebx : ℕ
  pub reg_edx : ℕ
  pub reg_ecx : ℕ
  pub reg_eax : ℕ

-- Without the padding words.
pub record Trapframe : Type 0 where
  pub tf_regs : PushRegs
  pub tf_es : ℕ
  pub tf_ds : ℕ
  pub tf_trapno : ℕ
  pub tf_err : ℕ
  pub tf_eip : ℕ
  pub tf_cs : ℕ
  pub tf_eflags : ℕ
  pub tf_esp : ℕ
  pub tf_ss : ℕ

pub data EnvStatus : Type 0 where
  free : EnvStatus
  dying : EnvStatus
  runnable : EnvStatus
  running : EnvStatus
  not_runnable : EnvStatus

-- An envid_t is an int32_t: the number is its bit pattern, negative from 2 ^ 31 on.
pub record Env : Type 0 where
  pub env_tf : Trapframe
  pub env_link : Option ℕ
  pub env_id : ℕ
  pub env_parent_id : ℕ
  pub env_type : ℕ
  pub env_status : EnvStatus
  pub env_runs : ℕ
  pub env_cpunum : ℕ
  pub env_pgdir : ℕ
  pub env_pgfault_upcall : ℕ
  pub env_ipc_recving : Bool
  pub env_ipc_dstva : ℕ
  pub env_ipc_value : ℕ
  pub env_ipc_from : ℕ
  pub env_ipc_perm : ℕ

-- `struct spinlock`: is it held, and by which CPU (`none` is NULL).
pub record Spinlock : Type 0 where
  pub locked : Bool
  pub cpu : Option ℕ

pub data CpuStatus : Type 0 where
  unused : CpuStatus
  started : CpuStatus
  halted : CpuStatus

-- What the CPU that runs the kernel sees. `mem` holds the 32-bit words of physical memory, by the
-- kernel virtual address of their first byte; `invlpgs` lists the pages whose TLB entry was
-- flushed, the last one first. `serial_input` holds the bytes that wait in the serial port, and
-- `kbd_input` what the coming reads of the keyboard's status and data ports give.
pub record Kernel : Type 0 where
  pub npages : ℕ
  pub pages : ℕ → PageInfo
  pub page_free_list : Option ℕ
  pub mem : ℕ → ℕ
  pub kern_pgdir : ℕ
  pub envs : ℕ → Env
  pub env_free_list : Option ℕ
  pub curenv : Option ℕ
  pub cpunum : ℕ
  pub cpu_status : CpuStatus
  pub kernel_lock : Spinlock
  pub cr3 : ℕ
  pub invlpgs : List ℕ
  pub user_mem_check_addr : ℕ
  pub cons : Cons
  pub serial_exists : Bool
  pub serial_input : List ℕ
  pub kbd_shift : ℕ
  pub kbd_input : List (ℕ × ℕ)

abbrev pub zero_regs : PushRegs
zero_regs = record {
  reg_edi = 0;
  reg_esi = 0;
  reg_ebp = 0;
  reg_oesp = 0;
  reg_ebx = 0;
  reg_edx = 0;
  reg_ecx = 0;
  reg_eax = 0;
}

abbrev pub zero_tf : Trapframe
zero_tf = record {
  tf_regs = zero_regs;
  tf_es = 0;
  tf_ds = 0;
  tf_trapno = 0;
  tf_err = 0;
  tf_eip = 0;
  tf_cs = 0;
  tf_eflags = 0;
  tf_esp = 0;
  tf_ss = 0;
}
