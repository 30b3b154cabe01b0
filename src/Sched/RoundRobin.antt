-- ===== src/Sched/RoundRobin.antt =====
-- Which environment sched_yield of jos/kern/sched.c runs.
use cs444_operating_systems.Base.{
  ℕ, zero, suc, ◌+◌, ◌%◌, ◌≤◌, ◌<◌, ◌≡◌, ◌≢◌, ◌⊎◌, inl, inr, refl, true, false, arith, Bool-cases,
}
use mathlib.Core.Path.{subst, ap, ◌∙◌}
use cs444_operating_systems.Mmu.{kernbase}
use cs444_operating_systems.Kernel.{Kernel, EnvStatus, runnable}
use cs444_operating_systems.Kernel.Run.{ok, resume}
use cs444_operating_systems.Env.{nenv}
use cs444_operating_systems.Spinlock.{holding}
use cs444_operating_systems.Switch.Run.{ran, env_run-resume}
use cs444_operating_systems.Sched.{is_runnable, is_alive, run_first}

-- The kernel is entered with the lock, and the page directory of every environment
-- that can run has a kernel address.
pub record IsEntered (k : Kernel) : Type 0 where
  pub held : holding k.kernel_lock k.cpunum ≡ true
  pub spaces : (e : ℕ) → is_alive (k.envs e).env_status ≡ true → kernbase ≤ (k.envs e).env_pgdir
  pub kernel_space : kernbase ≤ k.kern_pgdir

-- `d` rounds after `i` stands the first runnable environment, going round at 1024.
pub record FirstRunnable (k : Kernel) (i d : ℕ) : Type 0 where
  pub found : (k.envs ((i + d) % nenv)).env_status ≡ runnable
  pub first : (c : ℕ) → c < d → (k.envs ((i + c) % nenv)).env_status ≢ runnable

abbrev pub NoneRunnable : Kernel → (rounds i : ℕ) → Type 0
NoneRunnable k rounds i = (c : ℕ) → c < rounds → (k.envs ((i + c) % nenv)).env_status ≢ runnable

-- `d + 1` rounds from `i` on are `d` rounds from `i + 1` on.
round_shift : (i d : ℕ) → (i + 1 + d) % nenv ≡ (i + suc d) % nenv
round_shift i d = ap (λ (n : ℕ). n % nenv) (omega arith)

NoneRunnable-cons :
    (k : Kernel) (rounds i : ℕ)
    → (k.envs (i % nenv)).env_status ≢ runnable
    → NoneRunnable k rounds (i + 1)
    → NoneRunnable k (suc rounds) i
NoneRunnable-cons k rounds i now later zero lt =
    subst (λ n. (k.envs (n % nenv)).env_status ≢ runnable) (omega arith) now
NoneRunnable-cons k rounds i now later (suc c) lt =
    subst (λ n. (k.envs n).env_status ≢ runnable) (round_shift i c) (later c (omega arith))

-- The loop runs the first runnable environment of its range, or ends with nothing changed.
abbrev pub Runs : Kernel → (rounds i d : ℕ) → Type 0
Runs k rounds i d =
    (d < rounds)
    × FirstRunnable k i d
    × (run_first rounds i k ≡ resume ((i + d) % nenv) (ran ((i + d) % nenv) k))

pub run_now :
    (rounds : ℕ) (k : Kernel) (i : ℕ)
    → IsEntered k
    → (k.envs (i % nenv)).env_status ≡ runnable
    → run_first (suc rounds) i k ≡ resume (i % nenv) (ran (i % nenv) k)
unfolding run_first
run_now rounds k i v now =
    rw now
      (env_run-resume k (i % nenv) (record { held = v.held; space = v.spaces (i % nenv) (rw now) }))

run_later :
    (rounds : ℕ) (k : Kernel) (i : ℕ)
    → is_runnable (k.envs (i % nenv)).env_status ≡ false
    → run_first (suc rounds) i k ≡ run_first rounds (i + 1) k
unfolding run_first
run_later rounds k i later = rw later

runnable_of : (s : EnvStatus) → is_runnable s ≡ true → s ≡ runnable
runnable_of s h = ground arith

ne_runnable_of : (s : EnvStatus) → is_runnable s ≡ false → s ≢ runnable
ne_runnable_of s h = ground arith

Runs-zero :
    (rounds : ℕ) (k : Kernel) (i : ℕ)
    → IsEntered k
    → (k.envs (i % nenv)).env_status ≡ runnable
    → Runs k (suc rounds) i 0
Runs-zero rounds k i v now =
    let same : i + 0 ≡ i = omega arith in
    (
      omega arith,
      record { found = rw same now; first = λ c lt. absurd (omega arith) },
      rw same (run_now rounds k i v now),
    )

Runs-suc :
    (rounds : ℕ) (k : Kernel) (i d : ℕ)
    → is_runnable (k.envs (i % nenv)).env_status ≡ false
    → Runs k rounds (i + 1) d
    → Runs k (suc rounds) i (suc d)
Runs-suc rounds k i d later (lt, f, e) = (
  omega arith,
  record {
    found = subst (λ n. (k.envs n).env_status ≡ runnable) (round_shift i d) f.found;
    first = NoneRunnable-cons k d i (ne_runnable_of _ later) f.first;
  },
  run_later rounds k i later ∙ e ∙ ap (λ n. resume n (ran n k)) (round_shift i d),
)

pub run_first-cases :
    (rounds : ℕ) (k : Kernel) (i : ℕ)
    → IsEntered k
    → ((d : ℕ) × Runs k rounds i d) ⊎ (NoneRunnable k rounds i × (run_first rounds i k ≡ ok tt k))
run_first-cases zero k i v = inr (λ c lt. absurd (omega arith), unfold run_first in refl)
run_first-cases (suc rounds) k i v =
    elim (Bool-cases (is_runnable (k.envs (i % nenv)).env_status)) [
      | inl now ↦ inl (0, Runs-zero rounds k i v (runnable_of _ now))
      | inr later ↦ elim (run_first-cases rounds k (i + 1) v) [
        | inl (d, r) ↦ inl (suc d, Runs-suc rounds k i d later r)
        | inr (quiet, e) ↦ inr (
          NoneRunnable-cons k rounds i (ne_runnable_of _ later) quiet,
          run_later rounds k i later ∙ e,
        )
      ]
    ]
