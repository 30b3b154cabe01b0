-- ===== src/Dispatch.antt =====
-- The system calls by number: syscall of jos/kern/syscall.c, with sys_cputs, sys_cgetc and
-- sys_yield.
use cs444_operating_systems.Base.{ℕ, ◌-◌, ◌^◌, ◌==◌, if◌then◌else◌}
use cs444_operating_systems.Mmu.{u32, pte_p}
use cs444_operating_systems.Kernel.Run.{Cmd, pure, ◌>>=◌, ◌>>◌}
use cs444_operating_systems.Errors.{
  Error, Ret, value, error, unspecified, bad_env, inval, no_mem, no_free_env, segfault,
  ipc_not_recv, eof,
}
use cs444_operating_systems.Console.Poll.{cons_getc}
use cs444_operating_systems.Sched.{sched_yield}
use cs444_operating_systems.Destroy.{user_mem_assert, sys_env_destroy}
use cs444_operating_systems.Syscall.{
  curenv_of, sys_getenvid, sys_exofork, sys_env_set_status, sys_env_set_pgfault_upcall,
  sys_page_alloc, sys_page_map, sys_page_unmap, sys_ipc_try_send, sys_ipc_recv,
}

-- Without the output of the string.
unfoldable pub sys_cputs : (s len : ℕ) → Cmd (Unit {0})
sys_cputs s len = do c ← curenv_of; user_mem_assert c s len pte_p

unfoldable pub sys_cgetc : Cmd Ret
sys_cgetc = do c ← cons_getc; pure (value c)

unfoldable pub sys_yield : Cmd (Unit {0})
sys_yield = sched_yield

-- The cases of the switch, in the order of the numbers. Those for SYS_cputs and SYS_yield fall
-- through to the next case of the source.
unfoldable pub syscall : (syscallno a1 a2 a3 a4 a5 : ℕ) → Cmd Ret
syscall syscallno a1 a2 a3 a4 a5 =
    if syscallno == 0
    then (sys_cputs a1 a2 >> sys_cgetc)
    else if syscallno == 1
    then sys_cgetc
    else if syscallno == 2
    then sys_getenvid
    else if syscallno == 3
    then sys_env_destroy a1
    else if syscallno == 4
    then sys_page_alloc a1 a2 a3
    else if syscallno == 5
    then sys_page_map a1 a2 a3 a4 a5
    else if syscallno == 6
    then sys_page_unmap a1 a2
    else if syscallno == 7
    then sys_exofork
    else if syscallno == 8
    then sys_env_set_status a1 a2
    else if syscallno == 9
    then sys_env_set_pgfault_upcall a1 a2
    else if syscallno == 10
    then (sys_yield >> sys_exofork)
    else if syscallno == 11
    then sys_ipc_try_send a1 a2 a3 a4
    else if syscallno == 12
    then sys_ipc_recv a1
    else pure (error inval)

abbrev pub code : Error → ℕ
code unspecified = 1
code bad_env = 2
code inval = 3
code no_mem = 4
code no_free_env = 5
code segfault = 6
code ipc_not_recv = 7
code eof = 8

-- The int32_t as a bit pattern.
abbrev pub bits : Ret → ℕ
bits (value n) = u32 n
bits (error e) = 2 ^ 32 - code e
