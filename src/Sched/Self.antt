-- ===== src/Sched/Self.antt =====
-- sched_yield of jos/kern/sched.c where the current environment is marked runnable.
use cs444_operating_systems.Base.{ℕ, ◌%◌, ◌≡◌, some, arith}
use mathlib.Core.Path.{ap, ◌∙◌}
use cs444_operating_systems.Kernel.{Kernel, runnable}
use cs444_operating_systems.Kernel.Run.{resume}
use cs444_operating_systems.Env.{nenv, envx}
use cs444_operating_systems.Env.Ids.{envx_lem}
use cs444_operating_systems.Switch.Run.{ran}
use cs444_operating_systems.Sched.{first_index, sched_yield}
use cs444_operating_systems.Sched.RoundRobin.{IsEntered, run_now}

-- If the current environment is runnable, as it may make itself by sys_env_set_status, sched_yield
-- enters it again, whatever other environments are runnable, and leaves it marked runnable while it
-- runs. The hypotheses: the lock is held, page directories in use have kernel addresses, and the id
-- of the environment names its index.
pub sched_yield_reruns :
    (k : Kernel) (c : ℕ)
    → IsEntered k
    → k.curenv ≡ some c
    → envx (k.envs c).env_id ≡ c
    → (k.envs c).env_status ≡ runnable
    → (sched_yield k ≡ resume c (ran c k)) × (((ran c k).envs c).env_status ≡ runnable)
unfolding sched_yield
sched_yield_reruns k c v cur id now =
    let first : first_index k ≡ c = ground arith in
    let same : c % nenv ≡ c = omega (arith, id, envx_lem (k.envs c).env_id) in
    let now' : (k.envs (c % nenv)).env_status ≡ runnable = rw same now in
    let runs = run_now 1023 k c v now' ∙ ap (λ n. resume n (ran n k)) same in
    (rw (first, runs), ground arith)
