-- ===== src/Lib.antt =====
-- JOS, a small multiprocessor operating system kernel for the x86: its memory management, its
-- environments (processes), its big lock and its scheduler.
--
-- The parts, and how they interact. The page allocator (jos/kern/pmap.c) keeps a free list and a
-- reference counter for each physical page. The page tables, in pages from the allocator, map
-- linear addresses to pages and count references to them. Environments (jos/kern/env.c) have a page
-- directory each and are taken from a free list of their own. A CPU in the kernel holds the big
-- lock (jos/kern/spinlock.c); the system calls (jos/kern/syscall.c) run under it. It leaves the
-- kernel by env_run, which the scheduler (jos/kern/sched.c) calls for the environment that it
-- chooses.
--
-- Files. Base: shared names, Boolean tests, arrays as functions, bit operations as arithmetic. Mmu:
-- the macros of jos/inc/mmu.h and jos/inc/types.h. Errors: the codes of jos/inc/error.h. Kernel:
-- the structures and the globals of the kernel as one record, and Kernel/Run the commands on it.
-- BootAlloc: boot_alloc. Pages: page_init, page_alloc, page_free, page_decref and the address
-- conversions of jos/kern/pmap.h. Pgdir: pgdir_walk, page_lookup, page_insert, page_remove,
-- boot_map_region, tlb_invalidate. UserMem: user_mem_check. Env: envid2env, env_init, env_setup_vm,
-- env_alloc, and in Env/Grow region_alloc. Spinlock: the lock as commands, and in Spinlock/System
-- the steps of CPUs that contend for it. Switch: env_run, env_pop_tf. Sched: sched_yield,
-- sched_halt. Syscall: the system calls of jos/kern/syscall.c on environments, pages and messages.
-- Destroy: env_free, env_destroy, user_mem_assert, sys_env_destroy. Dispatch: the system calls by
-- number. Traps: trap, trap_dispatch and page_fault_handler of jos/kern/trap.c, in Traps/Sends a
-- message from the trap to the return, in Traps/Gates trap_init and in Traps/Entries the entry
-- points of jos/kern/trapentry.S. Console: the input buffer of jos/kern/console.c, in
-- Console/Keyboard the keyboard, in Console/Poll cons_getc, and in Console/Screen the output.
-- Strings: jos/lib/string.c. Format: jos/lib/printfmt.c, with the conversions in Format/Convert,
-- the loops in Format/Print, vsnprintf in Format/Buffer, and vcprintf of jos/lib/printf.c in
-- Format/Cprintf. Readline: jos/lib/readline.c. Monitor: runcmd of jos/kern/monitor.c, and in
-- Monitor/Mappings the commands showmapping and setperms. Stabs: the search in the debugging
-- symbols of jos/kern/kdebug.c, and in Stabs/Info debuginfo_eip. KernelMap: mem_init_mp and
-- mmio_map_region of jos/kern/pmap.c. MpConfig: jos/kern/mpconfig.c. UserLib: jos/lib/fork.c,
-- jos/lib/ipc.c and jos/lib/pgfault.c, as programs of the current environment, with the page fault
-- handler of jos/lib/fork.c in UserLib/PageFault. EntryPgdir: jos/kern/entrypgdir.c. Examples: a
-- small machine, and the theorems at inputs that meet their hypotheses. The functions keep the
-- names of the source.
--
-- State. A function of the kernel is a command: it takes the globals and returns how it ends, by
-- returning a value, by a panic, by entering user mode in an environment, by halting the CPU or in
-- the monitor. Physical memory is a function from the kernel virtual address of a 32-bit word to
-- the word; pointers into `pages` and `envs` are indices; other pointers are addresses. Integers
-- are natural numbers with the wrap-around of their width written out. Each function is modelled
-- with the globals to itself, as the big lock grants it; what other CPUs do is modelled for the
-- lock.
--
-- Fuel. The loops over a region of the address space advance by a page each round and have 2 ^ 20 +
-- 1 rounds, since the address space has 2 ^ 20 pages; for user_mem_check, boot_map_region and
-- region_alloc it is proved that this is enough. The loops over a string that ends at a 0 run on
-- fuel that is an argument and have no result without enough of it; more than the length of the
-- string is enough. The loop of showmapping runs on fuel too, since it need not end; where it ends,
-- more than the number of pages is enough. The loop of stab_binsearch meets each entry at most
-- twice. All other loops are structural.
--
-- Not modelled: what the kernel prints about itself, the segment registers, the instructions that
-- save and restore registers, and the values of the TLB, of which only the flushes are recorded.
-- The kernel writes to user memory at addresses that are multiples of 4, through the page table. No
-- CPU has panicked. The assignment of vprintfmt to the colour of the screen is left out. A user
-- program and the kernel have the memory to themselves between two calls of sys_yield. The page
-- fault handler of jos/lib/fork.c reaches user memory through the page tables. Of debuginfo_eip the
-- checks of user memory are left out, and of the monitor the command dumpmem, which reads any
-- virtual address. The acknowledgement of an interrupt to the local APIC, lapic_eoi, is left out of
-- trap_dispatch. Widths and precisions in a format are below 2 ^ 31, and the buffer of vsnprintf
-- overlaps nothing that it prints.
pub mod Base
pub mod Mmu
pub mod Errors
pub mod Kernel
pub mod BootAlloc
pub mod Console
pub mod Destroy
pub mod Dispatch
pub mod EntryPgdir
pub mod Env
pub mod Format
pub mod KernelMap
pub mod Monitor
pub mod MpConfig
pub mod Pages
pub mod Pgdir
pub mod Readline
pub mod Sched
pub mod Spinlock
pub mod Stabs
pub mod Strings
pub mod Switch
pub mod Syscall
pub mod Traps
pub mod UserLib
pub mod UserMem
pub mod Examples
