-- ===== src/Examples.antt =====
-- A small machine, and the theorems at inputs that meet their hypotheses: jos/kern/pmap.c,
-- jos/kern/env.c, jos/kern/sched.c and jos/kern/spinlock.c.
mod Memory
mod Tables
mod Envs
mod Locks
mod Calls
mod Messages
mod Monitor
mod Mappings
mod Ends
mod Boot
mod Bytes
mod Traps
mod Descriptors
mod Text
mod Programs
mod Growth
mod Faults
mod Processors
mod Symbols
mod Stacks
use cs444_operating_systems.Base.{
  ℕ, ◌+◌, ◌*◌, Option, none, some, false, true, [], if◌then◌else◌, ◌==◌,
}
use cs444_operating_systems.Mmu.{kernbase}
use cs444_operating_systems.Kernel.{
  Kernel, PageInfo, Env, EnvStatus, free, runnable, running, zero_tf, started,
}

-- Pages 10 and 11 are free, in this order.
abbrev pub sample_pages : ℕ → PageInfo
sample_pages p =
    if p == 10
    then record { pp_link = some 11; pp_ref = 0 }
    else if p == 11
    then record { pp_link = none; pp_ref = 0 }
    else record { pp_link = none; pp_ref = 1 }

-- Page 5 is a page directory, page 6 its table for 0x800000, where page 7 is mapped. Page 4 is
-- the kernel's page directory.
abbrev pub sample_mem : ℕ → ℕ
sample_mem a =
    if a == kernbase + 5 * 4096 + 4 * 2
    then 6 * 4096 + 7
    else if a == kernbase + 6 * 4096
    then 7 * 4096 + 7
    else 0

abbrev pub sample_dir : ℕ
sample_dir = 5 * 4096 + kernbase

-- Environment 0 is free, and so are those from 3 on; 1 is running, 2 is its runnable child.
abbrev pub sample_env : ℕ → Env
sample_env e = record {
  env_tf = zero_tf;
  env_link = none;
  env_id = if e == 1 then 0x1001 else if e == 2 then 0x1002 else 0;
  env_parent_id = if e == 2 then 0x1001 else 0;
  env_type = 0;
  env_status = if e == 1 then running else if e == 2 then runnable else free;
  env_runs = 0;
  env_cpunum = 0;
  env_pgdir = sample_dir;
  env_pgfault_upcall = 0;
  env_ipc_recving = false;
  env_ipc_dstva = 0;
  env_ipc_value = 0;
  env_ipc_from = 0;
  env_ipc_perm = 0;
}

abbrev pub sample : Kernel
sample = record {
  npages = 64;
  pages = sample_pages;
  page_free_list = some 10;
  mem = sample_mem;
  kern_pgdir = 4 * 4096 + kernbase;
  envs = sample_env;
  env_free_list = some 0;
  curenv = some 1;
  cpunum = 0;
  cpu_status = started;
  kernel_lock = record { locked = true; cpu = some 0 };
  cr3 = 0;
  invlpgs = [];
  user_mem_check_addr = 0;
  cons = record { buf = λ i. 0; rpos = 0; wpos = 0 };
  serial_exists = true;
  serial_input = [];
  kbd_shift = 0;
  kbd_input = [];
}
