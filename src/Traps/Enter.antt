-- ===== src/Traps/Enter.antt =====
-- How trap of jos/kern/trap.c takes over from user mode.
use cs444_operating_systems.Base.{ℕ, ◌≡◌, refl, true, false, some, arith, update, bit_and, inl, inr}
use cs444_operating_systems.Kernel.{Kernel, Trapframe, started}
use cs444_operating_systems.Kernel.Run.{Run, ok, and_then}
use cs444_operating_systems.Spinlock.{holding, lock_kernel, unlocked}
use cs444_operating_systems.Sched.Yield.{Yields}
use cs444_operating_systems.Traps.{
  is_dying, is_halted, enter_from_user, leave_trap, trap_dispatch, trap,
}

-- The CPU runs environment `c` in user mode, with the lock free, and traps with the frame `tf`.
pub record IsUser (k : Kernel) (c : ℕ) (tf : Trapframe) : Type 0 where
  pub current : k.curenv ≡ some c
  pub awake : is_halted k.cpu_status ≡ false
  pub free_lock : k.kernel_lock ≡ unlocked
  pub user_mode : bit_and tf.tf_cs 3 ≡ 3

-- The kernel with the lock, before the frame is stored.
abbrev pub locked_in : Kernel → Kernel
locked_in k = record k {
  cpu_status = started;
  kernel_lock = record { locked = true; cpu = some k.cpunum };
}

-- The kernel when trap dispatches.
abbrev pub entered : ℕ → Trapframe → Kernel → Kernel
entered c tf k =
    let l = locked_in k in record l { envs = update l.envs c (record (l.envs c) { env_tf = tf }) }

pub held-locked_in : (k : Kernel) → holding (locked_in k).kernel_lock k.cpunum ≡ true
unfolding holding
held-locked_in k = ground arith

pub lock-ok :
    (k : Kernel)
    → k.kernel_lock ≡ unlocked
    → lock_kernel k
      ≡ ok tt (record k { kernel_lock = record { locked = true; cpu = some k.cpunum } })
unfolding lock_kernel holding
lock-ok k e = rw e refl

enter-ok :
    (k : Kernel) (c : ℕ) (tf : Trapframe)
    → k.curenv ≡ some c
    → k.kernel_lock ≡ unlocked
    → is_dying (k.envs c).env_status ≡ false
    → enter_from_user tf (record k { cpu_status = started }) ≡ ok c (entered c tf k)
unfolding enter_from_user
enter-ok k c tf cur free alive =
    ground (arith, cur, alive, lock-ok (record k { cpu_status = started }) free)

pub trap-entered :
    (k : Kernel) (c fault_va : ℕ) (tf : Trapframe)
    → IsUser k c tf
    → is_dying (k.envs c).env_status ≡ false
    → trap fault_va tf k
      ≡ and_then (trap_dispatch (some c) fault_va tf (entered c tf k)) (λ _. leave_trap)
unfolding trap
trap-entered k c fault_va tf u alive =
    ground (arith, u.awake, u.user_mode, enter-ok k c tf u.current u.free_lock alive)

-- A run that does not return stays as it is when code follows it.
pub Yields-final :
    (k : Kernel) (r : Run (Unit {0})) (f : Unit {0} → Kernel → Run (Unit {0}))
    → Yields k r
    → and_then r f ≡ r
Yields-final k r f (inl (d, lt, first, e)) = rw e refl
Yields-final k r f (inr (quiet, inl (c, cur, e))) = rw e refl
Yields-final k r f (inr (quiet, inr (idle, inl (e, lt, alive, h)))) = rw h refl
Yields-final k r f (inr (quiet, inr (idle, inr (still, h)))) = rw h refl
