-- ===== src/UserLib.antt =====
-- The user library: jos/lib/ipc.c, jos/lib/pgfault.c and jos/lib/fork.c, as programs of the current
-- environment. A system call is the kernel's function; what the other environments do while the
-- program has yielded is an argument. A panic of the program is `fail`.
pub mod Send
pub mod Frame
pub mod Duplicate
pub mod PageFault
use cs444_operating_systems.Base.{
  ℕ, zero, suc, ◌+◌, ◌-◌, ◌*◌, ◌/◌, ◌%◌, ◌^◌, Option, none, some, Bool, true, false, not, ◌==◌, ltb,
  if◌then◌else◌, bit_and, bit_or,
}
use cs444_operating_systems.Mmu.{
  u32, pgsize, kernbase, utop, pdx, pgnum, has_flag, pte_addr, pte_p, pte_w, pte_u,
}
use cs444_operating_systems.Kernel.{Kernel, Env}
use cs444_operating_systems.Kernel.Run.{
  Cmd, pure, fail, out_of_fuel, ◌>>=◌, ◌>>◌, gets, modify, load, when,
}
use cs444_operating_systems.Errors.{Ret, Error, value, error, inval, ipc_not_recv}
use cs444_operating_systems.Pages.{kaddr}
use cs444_operating_systems.Pgdir.{entry_at}
use cs444_operating_systems.Syscall.{
  curenv_of, sys_exofork, sys_env_set_status, sys_env_set_pgfault_upcall, sys_page_alloc,
  sys_page_map, sys_ipc_try_send,
}

abbrev pub uxstacktop : ℕ
uxstacktop = utop

abbrev pub ustacktop : ℕ
ustacktop = utop - 2 * pgsize

abbrev pub pte_cow : ℕ
pte_cow = 0x800

abbrev pub not_recv : Error → Bool
not_recv ipc_not_recv = true
not_recv _ = false

-- A null pointer stands for no page.
abbrev pub page_or_none : Option ℕ → ℕ
page_or_none none = kernbase
page_or_none (some pg) = pg

-- `if (r < 0) panic(...)`
abbrev pub or_panic : Ret → Cmd (Unit {0})
or_panic (value n) = pure tt
or_panic (error code) = fail

-- The number bounds the rounds; `others` is what happens until sys_yield returns.
unfoldable pub ipc_send :
    ℕ → (others : Kernel → Kernel) → (to_env val : ℕ) → Option ℕ → (perm : ℕ) → Cmd (Unit {0})
ipc_send zero others to_env val pg perm = λ k. out_of_fuel
ipc_send (suc rounds) others to_env val pg perm =
    let again = ipc_send rounds others to_env val pg perm in
    do
      r ← sys_ipc_try_send to_env val (page_or_none pg) perm
      elim r [
        | value n ↦ if n == 0 then pure tt else fail
        | error code ↦ if not_recv code then (do modify others; again) else fail
      ]

-- What ipc_recv returns, and stores in `*from_env_store` and `*perm_store`, if they are not null,
-- when sys_ipc_recv has returned.
pub record Received : Type 0 where
  pub result : Ret
  pub from : ℕ
  pub perm : ℕ

unfoldable pub ipc_received : Ret → (thisenv : Env) → Received
ipc_received (error code) thisenv = record { result = error code; from = 0; perm = 0 }
ipc_received (value n) thisenv = record {
  result = value thisenv.env_ipc_value;
  from = thisenv.env_ipc_from;
  perm = thisenv.env_ipc_perm;
}

-- The loop over the `left` last environments of the table of 1024.
unfoldable pub find_env : (left : ℕ) → (ℕ → Env) → (type : ℕ) → ℕ
find_env zero envs type = 0
find_env (suc left) envs type = elim ((envs (1023 - left)).env_type == type) [
  | true ↦ (envs (1023 - left)).env_id
  | false ↦ find_env left envs type
]

unfoldable pub ipc_find_env : (ℕ → Env) → (type : ℕ) → ℕ
ipc_find_env envs type = find_env 1024 envs type

-- The first registration sets up the exception stack; the result is the new `_pgfault_handler`.
unfoldable pub set_pgfault_handler : (upcall : ℕ) → Option ℕ → (handler : ℕ) → Cmd (Option ℕ)
set_pgfault_handler upcall (some old) handler = pure (some handler)
set_pgfault_handler upcall none handler = do
  r ← sys_page_alloc 0 (uxstacktop - pgsize) (bit_or (bit_or pte_u pte_p) pte_w)
  or_panic r
  r' ← sys_env_set_pgfault_upcall 0 upcall
  or_panic r'
  pure (some handler)

-- `uvpd[i]` and `uvpt[pn]`. Without a page table the second one faults.
unfoldable pub uvpd : ℕ → Cmd ℕ
uvpd i = do c ← curenv_of; pgdir ← gets λ k. (k.envs c).env_pgdir; load (entry_at pgdir i)

unfoldable pub uvpt : ℕ → Cmd ℕ
uvpt pn = do
  pde ← uvpd (pn / 1024)
  if not (has_flag pde pte_p)
      then fail
      else do table ← kaddr (pte_addr pde); load (entry_at table (pn % 1024))

-- Is the page writable or copy-on-write?
abbrev pub copies : ℕ → Bool
copies pte = not (bit_and pte (bit_or pte_w pte_cow) == 0)

abbrev pub copy_perm : ℕ → ℕ
copy_perm pte = if copies pte then bit_or (bit_or pte_u pte_p) pte_cow else bit_or pte_u pte_p

unfoldable pub duppage : (envid pn : ℕ) → Cmd Ret
duppage envid pn = do
  pte ← uvpt pn
  let va = u32 (pn * pgsize)
  r ← sys_page_map 0 va envid va (copy_perm pte)
  elim r [
    | error code ↦ pure (error inval)
    | value n ↦
        if copies pte
        then (do
          r' ← sys_page_map 0 va 0 va (copy_perm pte)
          elim r' [ error code ↦ pure (error inval) | value n' ↦ pure (value 0) ])
        else pure (value 0)
  ]

-- The loop of fork over the addresses from `va` on. The number bounds the rounds.
unfoldable pub dup_from : ℕ → (child va : ℕ) → Cmd (Unit {0})
dup_from zero child va = λ k. out_of_fuel
dup_from (suc rounds) child va =
    let next = dup_from rounds child (va + pgsize) in
    if ltb va ustacktop
    then (do
      pde ← uvpd (pdx va)
      if has_flag pde pte_p
          then (do
            pte ← uvpt (pgnum va)
            if has_flag pte pte_p then (do duppage child (pgnum va); next) else next)
          else next)
    else pure tt

-- fork in the parent, where sys_exofork has returned `child`.
unfoldable pub fork_parent : (child : ℕ) → Cmd ℕ
fork_parent child = do
  dup_from (2 ^ 20) child 0
  r ← sys_page_alloc child (uxstacktop - pgsize) (bit_or (bit_or pte_p pte_u) pte_w)
  or_panic r
  c ← curenv_of
  upcall ← gets λ k. (k.envs c).env_pgfault_upcall
  r' ← sys_env_set_pgfault_upcall child upcall
  or_panic r'
  r'' ← sys_env_set_status child 2
  or_panic r''
  pure child

-- `pgfault` is the address of the handler; the child, for which sys_exofork returns 0, sets
-- `thisenv` and returns 0.
unfoldable pub fork : (upcall : ℕ) → (handler : Option ℕ) → (pgfault : ℕ) → Cmd ℕ
fork upcall handler pgfault = do
  set_pgfault_handler upcall handler pgfault
  r ← sys_exofork
  elim r [ error code ↦ fail | value child ↦ if child == 0 then pure 0 else fork_parent child ]
