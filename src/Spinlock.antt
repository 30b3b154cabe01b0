-- ===== src/Spinlock.antt =====
-- The big kernel lock: jos/kern/spinlock.c and lock_kernel, unlock_kernel of jos/kern/spinlock.h.
-- The call stack that DEBUG_SPINLOCK records is left out.
pub mod System
pub mod Exclusion
use cs444_operating_systems.Base.{ℕ, Bool, true, false, ◌&&◌, Option, none, some, if◌then◌else◌}
use cs444_operating_systems.Kernel.{Kernel, Spinlock}
use cs444_operating_systems.Kernel.Run.{Cmd, fail, ◌>>=◌, ◌>>◌, gets, modify, out_of_fuel, Run}
use cs444_operating_systems.Env.{is_env}

unfoldable pub holding : Spinlock → ℕ → Bool
holding lk cpu = lk.locked && is_env cpu lk.cpu

abbrev pub unlocked : Spinlock
unlocked = record { locked = false; cpu = none }

-- `spin_lock(&kernel_lock)` where no other CPU takes a step in between: a lock that another CPU
-- holds is never released, so the loop has no end.
unfoldable pub lock_kernel : Cmd (Unit {0})
lock_kernel = do
  lk ← gets λ k. k.kernel_lock
  cpu ← gets λ k. k.cpunum
  if holding lk cpu
      then fail
      else if lk.locked
      then (λ k. out_of_fuel)
      else modify λ k. record k { kernel_lock = record { locked = true; cpu = some cpu } }

-- `spin_unlock(&kernel_lock)`
unfoldable pub unlock_kernel : Cmd (Unit {0})
unlock_kernel = do
  lk ← gets λ k. k.kernel_lock
  cpu ← gets λ k. k.cpunum
  if holding lk cpu then (modify λ k. record k { kernel_lock = unlocked }) else fail
