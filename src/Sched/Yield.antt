-- ===== src/Sched/Yield.antt =====
-- How sched_yield and sched_halt of jos/kern/sched.c end.
use cs444_operating_systems.Base.{
  ℕ, zero, suc, ◌+◌, ◌-◌, ◌%◌, ◌<◌, ◌≡◌, ◌≢◌, ◌⊎◌, inl, inr, refl, Option, none, some, Bool, true,
  false, arith, Bool-cases,
}
use mathlib.Core.Path.{subst, ◌∙◌}
use cs444_operating_systems.Mmu.{kernbase}
use cs444_operating_systems.Kernel.{Kernel, Env, EnvStatus, running, halted}
use cs444_operating_systems.Kernel.Run.{Run, ok, resume, halt, monitor, when}
use cs444_operating_systems.Env.{nenv}
use cs444_operating_systems.Spinlock.{unlocked}
use cs444_operating_systems.Switch.{is_running, env_run}
use cs444_operating_systems.Switch.Run.{ran, env_run-resume, unlock-ok, space-ok}
use cs444_operating_systems.Sched.{
  is_alive, any_alive, sched_halt, first_index, run_current, sched_yield,
}
use cs444_operating_systems.Sched.RoundRobin.{
  IsEntered, FirstRunnable, NoneRunnable, run_first-cases,
}

-- Is no environment of the table runnable, running or dying?
abbrev pub IsIdle : (rounds i : ℕ) → (ℕ → Env) → Type 0
IsIdle rounds i envs = (c : ℕ) → c < rounds → is_alive (envs (i + c)).env_status ≡ false

any_alive-cases :
    (rounds i : ℕ) (envs : ℕ → Env)
    → ((any_alive rounds i envs ≡ true)
        × ((c : ℕ) × (c < rounds) × (is_alive (envs (i + c)).env_status ≡ true)))
      ⊎ ((any_alive rounds i envs ≡ false) × IsIdle rounds i envs)
unfolding any_alive
any_alive-cases zero i envs = inr (refl, λ c lt. absurd (omega arith))
any_alive-cases (suc rounds) i envs = elim (Bool-cases (is_alive (envs i).env_status)) [
  | inl now ↦ inl (rw now, (0, omega arith, at 0 (omega arith) now))
  | inr later ↦ elim (any_alive-cases rounds (i + 1) envs) [
    | inl (e, (c, lt, alive)) ↦
        inl (rw (later, e), (suc c, omega arith, at (suc c) (omega arith) alive))
    | inr (e, idle) ↦ inr (
      rw (later, e),
      elim [
        | zero ↦ λ lt. at 0 (omega arith) later
        | suc c ↦ λ lt. at (suc c) (omega arith) (idle c (omega arith))
      ],
    )
  ]
]
  where
    at :
        (c : ℕ) {j : ℕ} {b : Bool}
        → j ≡ i + c
        → is_alive (envs j).env_status ≡ b
        → is_alive (envs (i + c)).env_status ≡ b
    at c {b} e h = subst (λ n. is_alive (envs n).env_status ≡ b) e h

-- The kernel after sched_halt has halted the CPU.
abbrev pub halted_cpu : Kernel → Kernel
halted_cpu k = record k {
  curenv = none;
  cr3 = k.kern_pgdir - kernbase;
  cpu_status = halted;
  kernel_lock = unlocked;
}

-- With something alive sched_halt halts the CPU and gives the lock back; else it stays in the
-- monitor.
abbrev pub Halts : Kernel → Run (Unit {0}) → Type 0
Halts k r =
    ((e : ℕ) × (e < nenv) × (is_alive (k.envs e).env_status ≡ true) × (r ≡ halt (halted_cpu k)))
    ⊎ (IsIdle nenv 0 k.envs × (r ≡ monitor k))

halt_alive :
    (k : Kernel) → IsEntered k → any_alive nenv 0 k.envs ≡ true → sched_halt k ≡ halt (halted_cpu k)
unfolding sched_halt
halt_alive k v e = rw e (
    rw (space-ok (record k { curenv = none }) k.kern_pgdir v.kernel_space) (
      rw (
        unlock-ok (record k { curenv = none; cr3 = k.kern_pgdir - kernbase; cpu_status = halted })
          v.held)))

sched_halt-Halts : (k : Kernel) → IsEntered k → Halts k (sched_halt k)
unfolding sched_halt
sched_halt-Halts k v = elim (any_alive-cases nenv 0 k.envs) [
  | inl (e, (c, lt, alive)) ↦ inl (c, lt, alive_at c alive, halt_alive k v e)
  | inr (e, idle) ↦ inr (idle, rw e)
]
  where
    alive_at :
        (c : ℕ)
        → is_alive (k.envs (0 + c)).env_status ≡ true
        → is_alive (k.envs c).env_status ≡ true
    alive_at c h = subst (λ n. is_alive (k.envs n).env_status ≡ true) (omega arith) h

-- The current environment is running.
abbrev pub Current : Kernel → ℕ → Type 0
Current k c = (k.curenv ≡ some c) × ((k.envs c).env_status ≡ running)

current_none : (k : Kernel) → k.curenv ≡ none → run_current k ≡ ok tt k
unfolding run_current
current_none k e = ground arith

current_some :
    (k : Kernel) (c : ℕ)
    → k.curenv ≡ some c
    → run_current k ≡ when (is_running (k.envs c).env_status) (env_run c) k
unfolding run_current
current_some k c e = ground arith

running_of : (s : EnvStatus) → is_running s ≡ true → s ≡ running
running_of s h = ground arith

ne_running_of : (s : EnvStatus) → is_running s ≡ false → s ≢ running
ne_running_of s h = ground arith

RunsCurrent : Kernel → Type 0
RunsCurrent k =
    ((c : ℕ) × Current k c × (run_current k ≡ resume c (ran c k)))
    ⊎ (((c : ℕ) → ¬ (Current k c)) × (run_current k ≡ ok tt k))

run_current-cases : (k : Kernel) → IsEntered k → (cur : Option ℕ) → k.curenv ≡ cur → RunsCurrent k
unfolding RunsCurrent
run_current-cases k v none e = inr (λ c h. cc, current_none k e)
run_current-cases k v (some c) e = elim (Bool-cases (is_running (k.envs c).env_status)) [
  | inl now ↦
      let alive : is_alive (k.envs c).env_status ≡ true = rw (running_of _ now) in
      inl (
        c,
        (e, running_of _ now),
        current_some k c e
            ∙ rw now (env_run-resume k c (record { held = v.held; space = v.spaces c alive })),
      )
  | inr idle ↦ inr (λ x h. ground (arith, ne_running_of _ idle), current_some k c e ∙ rw idle)
]

-- How sched_yield ends.
abbrev pub Yields : Kernel → Run (Unit {0}) → Type 0
Yields k r =
    ((d : ℕ) × (d < nenv)
      × FirstRunnable k (first_index k) d
      × (r ≡ resume ((first_index k + d) % nenv) (ran ((first_index k + d) % nenv) k)))
    ⊎ (NoneRunnable k nenv (first_index k)
        × (((c : ℕ) × Current k c × (r ≡ resume c (ran c k)))
            ⊎ (((c : ℕ) → ¬ (Current k c)) × Halts k r)))

-- sched_yield never returns. It enters the first runnable environment in circular order from the
-- index of the current one on (from 0 if there is none). If none is runnable it goes on with the
-- current environment if that is running; else it halts the CPU, with the lock given back, if some
-- environment is still running or dying, and stays in the monitor if there is none. The hypotheses:
-- the lock is held, and the page directories in use have kernel addresses.
pub sched_yield_chooses : (k : Kernel) → IsEntered k → Yields k (sched_yield k)
unfolding sched_yield RunsCurrent
sched_yield_chooses k v = elim (run_first-cases nenv k (first_index k) v) [
  | inl (d, (lt, first, e)) ↦ inl (d, lt, first, rw e)
  | inr (quiet, e) ↦ inr (
    quiet,
    elim (run_current-cases k v k.curenv refl) [
      | inl (c, cur, f) ↦ inl (c, cur, rw (e, f))
      | inr (idle, f) ↦ inr (idle, rw (e, f) (sched_halt-Halts k v))
    ],
  )
]
