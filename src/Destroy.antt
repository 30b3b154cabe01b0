-- ===== src/Destroy.antt =====
-- The end of an environment: env_free and env_destroy of jos/kern/env.c, and their callers
-- user_mem_assert of jos/kern/pmap.c and sys_env_destroy of jos/kern/syscall.c.
pub mod Bury
pub mod Recycle
use cs444_operating_systems.Base.{
  ℕ, zero, suc, ◌+◌, Option, none, some, Bool, true, false, not, ◌||◌, ◌&&◌, if◌then◌else◌, bit_or,
}
use cs444_operating_systems.Mmu.{utop, pdx, ptx, pgaddr, pte_addr, has_flag, pte_p, pte_u}
use cs444_operating_systems.Kernel.{Kernel, Env, EnvStatus, free, dying}
use cs444_operating_systems.Kernel.Run.{
  Cmd, pure, fail, ◌>>=◌, ◌>>◌, gets, modify, load, store, set_env, when,
}
use cs444_operating_systems.Errors.{Ret, value, error}
use cs444_operating_systems.Pages.{kaddr, paddr, pa2page, page_decref}
use cs444_operating_systems.Pgdir.{entry_at, page_remove}
use cs444_operating_systems.UserMem.{user_mem_check}
use cs444_operating_systems.Env.{is_env, envid2env}
use cs444_operating_systems.Switch.{is_running, load_space}
use cs444_operating_systems.Sched.{sched_yield}

-- `rounds` entries of the table `pt` from `pteno` on are unmapped.
unfoldable pub free_entries : (rounds pgdir pt pdeno pteno : ℕ) → Cmd (Unit {0})
free_entries zero pgdir pt pdeno pteno = pure tt
free_entries (suc rounds) pgdir pt pdeno pteno = do
  pte ← load (entry_at pt pteno)
  when (has_flag pte pte_p) (page_remove pgdir (pgaddr pdeno pteno 0))
  free_entries rounds pgdir pt pdeno (pteno + 1)

-- The table that a directory entry leads to is unmapped and freed.
unfoldable pub free_table : (pgdir pdeno : ℕ) → Cmd (Unit {0})
free_table pgdir pdeno = do
  pde ← load (entry_at pgdir pdeno)
  when (has_flag pde pte_p) (do
    pt ← kaddr (pte_addr pde)
    free_entries (ptx 0xFFFFFFFF + 1) pgdir pt pdeno 0
    store (entry_at pgdir pdeno) 0
    pp ← pa2page (pte_addr pde)
    page_decref pp)

unfoldable pub free_tables : (rounds pgdir pdeno : ℕ) → Cmd (Unit {0})
free_tables zero pgdir pdeno = pure tt
free_tables (suc rounds) pgdir pdeno = do
  free_table pgdir pdeno
  free_tables rounds pgdir (pdeno + 1)

-- The page directory of environment `e` is freed.
unfoldable pub free_directory : ℕ → Cmd (Unit {0})
free_directory e = do
  env ← gets λ k. k.envs e
  pa ← paddr env.env_pgdir
  set_env e λ env. record env { env_pgdir = 0 }
  pp ← pa2page pa
  page_decref pp

unfoldable pub env_free : ℕ → Cmd (Unit {0})
env_free e = do
  cur ← gets λ k. k.curenv
  kernel ← gets λ k. k.kern_pgdir
  when (is_env e cur) (load_space kernel)
  env ← gets λ k. k.envs e
  free_tables (pdx utop) env.env_pgdir 0
  free_directory e
  head ← gets λ k. k.env_free_list
  set_env e λ env. record env { env_status = free; env_link = head }
  modify λ k. record k { env_free_list = some e }

unfoldable pub env_destroy : ℕ → Cmd (Unit {0})
env_destroy e = do
  env ← gets λ k. k.envs e
  cur ← gets λ k. k.curenv
  if is_running env.env_status && not (is_env e cur)
      then (set_env e λ env. record env { env_status = dying })
      else (do
        env_free e
        now ← gets λ k. k.curenv
        when (is_env e now) (do modify λ k. record k { curenv = none }; sched_yield))

unfoldable pub user_mem_assert : (env va len perm : ℕ) → Cmd (Unit {0})
user_mem_assert env va len perm = do
  r ← user_mem_check env va len (bit_or perm pte_u)
  elim r [ value n ↦ pure tt | error code ↦ env_destroy env ]

unfoldable pub sys_env_destroy : ℕ → Cmd Ret
sys_env_destroy envid = do
  (r, found) ← envid2env envid true
  elim r [
    | error code ↦ pure (error code)
    | value n ↦ elim found [ none ↦ fail | some e ↦ do env_destroy e; pure (value 0) ]
  ]
