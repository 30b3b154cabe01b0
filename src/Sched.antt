-- ===== src/Sched.antt =====
-- The scheduler: sched_yield and sched_halt of jos/kern/sched.c.
pub mod RoundRobin
pub mod Self
pub mod Yield
use cs444_operating_systems.Base.{
  ℕ, zero, suc, ◌+◌, ◌%◌, Option, none, some, Bool, true, false, ◌||◌, if◌then◌else◌,
}
use cs444_operating_systems.Kernel.{Kernel, Env, EnvStatus, runnable, running, dying, halted}
use cs444_operating_systems.Kernel.Run.{Cmd, pure, halt, monitor, ◌>>=◌, ◌>>◌, gets, modify, when}
use cs444_operating_systems.Env.{nenv, envx}
use cs444_operating_systems.Spinlock.{unlock_kernel}
use cs444_operating_systems.Switch.{is_running, load_space, env_run}

abbrev pub is_runnable : EnvStatus → Bool
is_runnable runnable = true
is_runnable _ = false

-- RUNNABLE, RUNNING or DYING: the system is not idle for good.
abbrev pub is_alive : EnvStatus → Bool
is_alive runnable = true
is_alive running = true
is_alive dying = true
is_alive _ = false

-- Is one of the environments from `i` on alive, looking at `rounds` of them?
unfoldable pub any_alive : (rounds i : ℕ) → (ℕ → Env) → Bool
any_alive zero i envs = false
any_alive (suc rounds) i envs = is_alive (envs i).env_status || any_alive rounds (i + 1) envs

unfoldable pub sched_halt : Cmd (Unit {0})
sched_halt = do
  alive ← gets λ k. any_alive nenv 0 k.envs
  if alive
      then (do
        modify λ k. record k { curenv = none }
        pgdir ← gets λ k. k.kern_pgdir
        load_space pgdir
        modify λ k. record k { cpu_status = halted }
        unlock_kernel
        halt)
      else monitor

-- The loop of sched_yield: the first runnable environment is run.
unfoldable pub run_first : (rounds i : ℕ) → Cmd (Unit {0})
run_first zero i = pure tt
run_first (suc rounds) i =
    let next = run_first rounds (i + 1) in
    do
      env ← gets λ k. k.envs (i % nenv)
      if is_runnable env.env_status then env_run (i % nenv) else next

-- The index at which the loop starts.
abbrev pub first_index : Kernel → ℕ
first_index k = elim k.curenv [ none ↦ 0 | some c ↦ envx (k.envs c).env_id ]

-- `if (curenv && curenv->env_status == ENV_RUNNING) env_run(curenv);`
unfoldable pub run_current : Cmd (Unit {0})
run_current = do
  cur ← gets λ k. k.curenv
  elim cur [
    | none ↦ pure tt
    | some c ↦ do env ← gets λ k. k.envs c; when (is_running env.env_status) (env_run c)
  ]

unfoldable pub sched_yield : Cmd (Unit {0})
sched_yield = do i ← gets first_index; run_first nenv i; run_current; sched_halt
