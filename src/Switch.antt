-- ===== src/Switch.antt =====
-- Entering an environment: env_run and env_pop_tf of jos/kern/env.c.
pub mod Run
use cs444_operating_systems.Base.{
  ℕ, ◌+◌, ◌%◌, ◌^◌, Option, none, some, Bool, true, false, not, ◌&&◌, if◌then◌else◌,
}
use cs444_operating_systems.Kernel.{Kernel, Env, EnvStatus, running, runnable}
use cs444_operating_systems.Kernel.Run.{
  Cmd, fail, resume, ◌>>=◌, ◌>>◌, gets, modify, set_env, when, pure,
}
use cs444_operating_systems.Pages.{paddr}
use cs444_operating_systems.Env.{is_env}
use cs444_operating_systems.Spinlock.{unlock_kernel}

abbrev pub is_running : EnvStatus → Bool
is_running running = true
is_running _ = false

-- `lcr3(PADDR(pgdir))`
unfoldable pub load_space : ℕ → Cmd (Unit {0})
load_space pgdir = do pa ← paddr pgdir; modify λ k. record k { cr3 = pa }

-- The iret leaves the kernel with the registers of the current environment.
unfoldable pub env_pop_tf : Cmd (Unit {0})
env_pop_tf = do
  cur ← gets λ k. k.curenv
  elim cur [
    | none ↦ fail
    | some c ↦ do
      cpu ← gets λ k. k.cpunum
      set_env c λ e. record e { env_cpunum = cpu }
      λ k. resume c k
  ]

-- The current environment, if it is running, may run again later.
unfoldable pub demote : Option ℕ → Cmd (Unit {0})
demote none = pure tt
demote (some c) = do
  env ← gets λ k. k.envs c
  when (is_running env.env_status) (set_env c λ e. record e { env_status = runnable })

unfoldable pub env_run : ℕ → Cmd (Unit {0})
env_run e = do
  cur ← gets λ k. k.curenv
  when (not (is_env e cur)) (do
    demote cur
    modify λ k. record k { curenv = some e }
    set_env e λ env. record env { env_status = running; env_runs = (env.env_runs + 1) % 2 ^ 32 }
    env ← gets λ k. k.envs e
    load_space env.env_pgdir)
  unlock_kernel
  env_pop_tf
