-- ===== src/Syscall.antt =====
-- The system calls of jos/kern/syscall.c on environments, pages and messages. A system call is
-- made by the current environment.
pub mod Target
pub mod Message
pub mod Receive
pub mod NewPage
pub mod Flags
pub mod Exhausted
pub mod Share
pub mod Fork
pub mod PageMessage
pub mod Status
use cs444_operating_systems.Base.{
  ℕ, ◌-◌, ◌^◌, Option, none, some, Bool, true, false, not, ◌||◌, ◌&&◌, ◌==◌, leb, ltb,
  if◌then◌else◌, bit_and, bit_or,
}
use cs444_operating_systems.Mmu.{utop, pgoff, has_flag, pte_p, pte_w, pte_u, pte_syscall}
use cs444_operating_systems.Kernel.{
  Kernel, Env, EnvStatus, PushRegs, Trapframe, runnable, not_runnable,
}
use cs444_operating_systems.Kernel.Run.{Cmd, pure, fail, ◌>>=◌, ◌>>◌, gets, modify, load, set_env}
use cs444_operating_systems.Errors.{Ret, value, error, bad_env, inval, no_mem, ipc_not_recv}
use cs444_operating_systems.Pages.{alloc_zero, page_alloc, page_free}
use cs444_operating_systems.Pgdir.{page_insert, page_lookup, page_remove}
use cs444_operating_systems.Env.{curenv_id, envid2env, env_alloc}
use cs444_operating_systems.Sched.{sched_yield}

-- `va >= (void *)UTOP || PGOFF(va) != 0`
abbrev pub bad_va : ℕ → Bool
bad_va va = leb utop va || not (pgoff va == 0)

-- `(perm & (PTE_U | PTE_P)) != (PTE_U | PTE_P) || (perm & ~PTE_SYSCALL) != 0`
unfoldable pub bad_perm : ℕ → Bool
bad_perm perm =
    not (bit_and perm (bit_or pte_u pte_p) == bit_or pte_u pte_p)
    || not (bit_and perm (2 ^ 32 - 1 - pte_syscall) == 0)

-- The current environment, which is dereferenced.
abbrev pub curenv_of : Cmd ℕ
curenv_of = do cur ← gets λ k. k.curenv; elim cur [ none ↦ fail | some c ↦ pure c ]

-- The environment with an id, where an error ends the call with -E_BAD_ENV.
unfoldable pub with_env : ℕ → Bool → (ℕ → Cmd Ret) → Cmd Ret
with_env envid checkperm f = do
  (r, found) ← envid2env envid checkperm
  elim r [ error code ↦ pure (error bad_env) | value n ↦ elim found [ none ↦ fail | some e ↦ f e ] ]

unfoldable pub sys_getenvid : Cmd Ret
sys_getenvid = do id ← curenv_id; pure (value id)

abbrev pub with_eax : ℕ → Trapframe → Trapframe
with_eax n tf = record tf { tf_regs = record tf.tf_regs { reg_eax = n } }

unfoldable pub sys_exofork : Cmd Ret
sys_exofork = do
  id ← curenv_id
  (a, newenv) ← env_alloc id
  elim a [
    | error code ↦ pure (error code)
    | value n ↦ elim newenv [
      | none ↦ fail
      | some e ↦ do
        c ← curenv_of
        tf ← gets λ k. (k.envs c).env_tf
        set_env e λ env. record env { env_status = not_runnable; env_tf = with_eax 0 tf }
        newid ← gets λ k. (k.envs e).env_id
        pure (value newid)
    ]
  ]

-- ENV_RUNNABLE is 2, ENV_NOT_RUNNABLE 4.
abbrev pub status_of : ℕ → Option EnvStatus
status_of status =
    if status == 2 then some runnable else if status == 4 then some not_runnable else none

unfoldable pub sys_env_set_status : (envid status : ℕ) → Cmd Ret
sys_env_set_status envid status = with_env envid true λ e. elim (status_of status) [
  | none ↦ pure (error inval)
  | some s ↦ do set_env e λ env. record env { env_status = s }; pure (value 0)
]

unfoldable pub sys_env_set_pgfault_upcall : (envid func : ℕ) → Cmd Ret
sys_env_set_pgfault_upcall envid func =
    with_env envid true
      λ e. do set_env e λ env. record env { env_pgfault_upcall = func }; pure (value 0)

-- The part of sys_page_alloc behind its tests.
unfoldable pub map_new : (e va perm : ℕ) → Cmd Ret
map_new e va perm = do
  page ← page_alloc alloc_zero
  elim page [
    | none ↦ pure (error no_mem)
    | some p ↦ do
      pgdir ← gets λ k. (k.envs e).env_pgdir
      r ← page_insert pgdir p va (bit_or (bit_or pte_u pte_p) perm)
      elim r [ value n ↦ pure (value 0) | error code ↦ do page_free p; pure (error no_mem) ]
  ]

unfoldable pub sys_page_alloc : (envid va perm : ℕ) → Cmd Ret
sys_page_alloc envid va perm = with_env envid true λ e.
    if bad_va va
    then pure (error inval)
    else if bad_perm perm
    then pure (error inval)
    else map_new e va perm

-- The part of sys_page_map behind the tests of its arguments.
unfoldable pub map_shared : (src srcva dst dstva perm : ℕ) → Cmd Ret
map_shared src srcva dst dstva perm = do
  srcdir ← gets λ k. (k.envs src).env_pgdir
  found ← page_lookup srcdir srcva
  elim found [
    | none ↦ pure (error no_mem)
    | some (p, at) ↦ do
      pte ← load at
      if has_flag perm pte_w && not (has_flag pte pte_w) then pure (error inval) else do
        dstdir ← gets λ k. (k.envs dst).env_pgdir
        r ← page_insert dstdir p dstva perm
        elim r [ value n ↦ pure (value 0) | error code ↦ pure (error no_mem) ]
  ]

unfoldable pub sys_page_map : (srcenvid srcva dstenvid dstva perm : ℕ) → Cmd Ret
sys_page_map srcenvid srcva dstenvid dstva perm = with_env srcenvid true λ src.
    with_env dstenvid true λ dst.
      if bad_va srcva
      then pure (error inval)
      else if bad_va dstva
      then pure (error inval)
      else if bad_perm perm
      then pure (error inval)
      else map_shared src srcva dst dstva perm

unfoldable pub sys_page_unmap : (envid va : ℕ) → Cmd Ret
sys_page_unmap envid va = with_env envid true λ e.
    if bad_va va
    then pure (error inval)
    else do pgdir ← gets λ k. (k.envs e).env_pgdir; page_remove pgdir va; pure (value 0)

-- The part of sys_ipc_try_send that maps the page at `srcva`, below UTOP, into environment `e`.
unfoldable pub send_page : (e srcva perm : ℕ) → Cmd Ret
send_page e srcva perm =
    if not (pgoff srcva == 0)
    then pure (error inval)
    else if bad_perm perm
    then pure (error inval)
    else do
      c ← curenv_of
      srcdir ← gets λ k. (k.envs c).env_pgdir
      found ← page_lookup srcdir srcva
      elim found [
        | none ↦ pure (error inval)
        | some (p, at) ↦ do
          pte ← load at
          env ← gets λ k. k.envs e
          if not (has_flag pte pte_w) && has_flag perm pte_w
              then pure (error inval)
              else if ltb env.env_ipc_dstva utop
              then (do
                r ← page_insert env.env_pgdir p env.env_ipc_dstva perm
                set_env e λ env. record env { env_ipc_perm = perm }
                elim r [ value n ↦ pure (value 0) | error code ↦ pure (error no_mem) ])
              else pure (value 0)
      ]

-- The receiver gets the value, and its sys_ipc_recv returns 0.
abbrev pub received : (from val : ℕ) → Env → Env
received from val env = record env {
  env_ipc_recving = false;
  env_ipc_from = from;
  env_ipc_value = val;
  env_tf = with_eax 0 env.env_tf;
  env_status = runnable;
}

unfoldable pub deliver : (e val : ℕ) → Cmd Ret
deliver e val = do from ← curenv_id; set_env e (received from val); pure (value 0)

unfoldable pub sys_ipc_try_send : (envid val srcva perm : ℕ) → Cmd Ret
sys_ipc_try_send envid val srcva perm = with_env envid false λ e. do
  env ← gets λ k. k.envs e
  if not env.env_ipc_recving
      then pure (error ipc_not_recv)
      else if ltb srcva utop
      then (do
        r ← send_page e srcva perm
        elim r [ error code ↦ pure (error code) | value n ↦ deliver e val ])
      else (do set_env e λ env. record env { env_ipc_perm = 0 }; deliver e val)

unfoldable pub sys_ipc_recv : ℕ → Cmd Ret
sys_ipc_recv dstva = if ltb dstva utop && not (pgoff dstva == 0) then pure (error inval) else do
  c ← curenv_of
  set_env c
      λ env. record env { env_ipc_recving = true; env_ipc_dstva = dstva; env_status = not_runnable }
  sched_yield
  pure (value 0)
