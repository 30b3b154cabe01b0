-- ===== src/Examples/Locks.antt =====
-- Two CPUs at the lock of jos/kern/spinlock.c: CPU 0 holds it, CPU 1 spins.
use cs444_operating_systems.Base.{ℕ, ◌≡◌, ◌≢◌, ◌⊎◌, refl, true, some, update}
use cs444_operating_systems.Spinlock.{holding}
use cs444_operating_systems.Spinlock.System.{
  outside, spinning, taken, critical, enter, take, sign, System, Step, step, Reach, start, later,
}
use cs444_operating_systems.Spinlock.Exclusion.{owns, mutual_exclusion, no_deadlock}

abbrev contended : System
contended = record {
  lock = record { locked = true; cpu = some 0 };
  pc = update (update (update (update (λ i. outside) 0 spinning) 0 taken) 0 critical) 1 spinning;
}

contended-Reach : Reach contended
unfolding holding
contended-Reach =
    later (later (later (later start (step 0 (enter refl))) (step 0 (take refl))) (step 0 sign))
      (step 1 (enter refl))

mutual_exclusion_example : ◌≡◌ {A = ℕ} 0 0
mutual_exclusion_example = mutual_exclusion contended-Reach 0 0 refl refl

no_deadlock_example :
    (Step contended
      (record { lock = record contended.lock { locked = true }; pc = update contended.pc 1 taken }))
    ⊎ ((j : ℕ) × (j ≢ 1) × (owns (contended.pc j) ≡ true))
no_deadlock_example = no_deadlock contended-Reach 1 refl
