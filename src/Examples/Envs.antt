-- ===== src/Examples/Envs.antt =====
-- Environments and the scheduler of jos/kern/env.c and jos/kern/sched.c on the small machine.
use cs444_operating_systems.Base.{
  ℕ, ◌≡◌, ◌⊎◌, refl, true, none, some, [], ◌∷◌, arith, ◌==◌, if◌then◌else◌,
}
use cs444_operating_systems.Kernel.{Kernel, free, runnable, not_runnable}
use cs444_operating_systems.Kernel.Run.{ok}
use cs444_operating_systems.Errors.{value, error, bad_env}
use cs444_operating_systems.Pages.Free.{has}
use cs444_operating_systems.Env.{envx, envid2env}
use cs444_operating_systems.Env.Lookup.{Names, envid2env_decides}
use cs444_operating_systems.Env.FreeList.{IsTable}
use cs444_operating_systems.Env.Alloc.{Allocs, env_alloc_takes}
use cs444_operating_systems.Spinlock.{holding}
use cs444_operating_systems.Sched.{sched_yield}
use cs444_operating_systems.Sched.RoundRobin.{IsEntered}
use cs444_operating_systems.Sched.Yield.{Yields, sched_yield_chooses}
use cs444_operating_systems.Examples.{sample, sample_env}
use cs444_operating_systems.Examples.Memory.{sample-IsFree}

-- The current environment 1 names its child 2.
envid2env_decides_example :
    (Names sample 1 0x1002 true (envx 0x1002)
      × (envid2env 0x1002 true sample ≡ ok (value 0, some (envx 0x1002)) sample))
    ⊎ (((e : ℕ) → ¬ (Names sample 1 0x1002 true e))
        × (envid2env 0x1002 true sample ≡ ok (error bad_env, none) sample))
envid2env_decides_example = envid2env_decides sample 1 0x1002 true refl (omega arith)

-- Only environment 0 is free.
abbrev pub busy : Kernel
busy = record sample {
  envs = λ e. record (sample_env e) { env_status = if e == 0 then free else not_runnable };
}

pub busy-IsTable : IsTable busy (0 ∷ [])
busy-IsTable = record {
  chain = (refl, omega arith, refl, refl, refl);
  all = λ e lt f. ground arith;
}

env_alloc_takes_example : Allocs busy 0x1001 (0 ∷ []) (10 ∷ 11 ∷ [])
env_alloc_takes_example =
    env_alloc_takes busy 0x1001 (0 ∷ []) (10 ∷ 11 ∷ []) busy-IsTable
      (record { small = v.small; chain = v.chain; unlinked = v.unlinked }) (λ e lt. ground arith)
  where
    v : cs444_operating_systems.Pages.Free.IsFree sample (10 ∷ 11 ∷ [])
    v = sample-IsFree

sample-held : holding sample.kernel_lock 0 ≡ true
unfolding holding
sample-held = refl

pub sample-IsEntered : IsEntered sample
sample-IsEntered = record {
  held = sample-held;
  spaces = λ e alive. omega arith;
  kernel_space = omega arith;
}

sched_yield_chooses_example : Yields sample (sched_yield sample)
sched_yield_chooses_example = sched_yield_chooses sample sample-IsEntered

-- Environment 1 has made itself runnable.
abbrev renewed : Kernel
renewed = record sample {
  envs = λ e. record (sample_env e) {
    env_status = if e == 1 then runnable else (sample_env e).env_status;
  };
}
