-- ===== src/Spinlock/System.antt =====
-- CPUs that take and release one spin lock of jos/kern/spinlock.c, interleaved in any order. Each
-- step makes one access to the lock.
use cs444_operating_systems.Base.{ℕ, ◌≡◌, true, false, none, some, update}
use cs444_operating_systems.Kernel.{Spinlock}
use cs444_operating_systems.Spinlock.{holding, unlocked}

-- Where a CPU stands.
pub data Pc : Type 0 where
  outside : Pc
  spinning : Pc  -- in the `while` of spin_lock
  taken : Pc  -- before `lk->cpu = thiscpu`
  critical : Pc  -- spin_lock has returned
  clearing : Pc  -- before `lk->cpu = 0`
  releasing : Pc  -- before the xchg of spin_unlock
  panicked : Pc

-- One step of CPU `i` from one place to another, and what it does to the lock.
pub data Move (i : ℕ) (lk : Spinlock) : Pc → Spinlock → Pc → Type 0 where
  enter : holding lk i ≡ false → Move i lk outside lk spinning
  enter_held : holding lk i ≡ true → Move i lk outside lk panicked
  spin : lk.locked ≡ true → Move i lk spinning lk spinning
  take : lk.locked ≡ false → Move i lk spinning (record lk { locked = true }) taken
  sign : Move i lk taken (record lk { cpu = some i }) critical
  leave : holding lk i ≡ true → Move i lk critical lk clearing
  leave_unheld : holding lk i ≡ false → Move i lk critical lk panicked
  clear : Move i lk clearing (record lk { cpu = none }) releasing
  release : Move i lk releasing (record lk { locked = false }) outside

pub record System : Type 0 where
  pub lock : Spinlock
  pub pc : ℕ → Pc

pub data Step (s : System) : System → Type 0 where
  step :
      (i : ℕ) {lk : Spinlock} {p : Pc}
      → Move i s.lock (s.pc i) lk p
      → Step s (record { lock = lk; pc = update s.pc i p })

-- After `__spin_initlock`, with every CPU outside.
abbrev pub init : System
init = record { lock = unlocked; pc = λ i. outside }

pub data Reach : System → Type 0 where
  start : Reach init
  later : {s t : System} → Reach s → Step s t → Reach t
