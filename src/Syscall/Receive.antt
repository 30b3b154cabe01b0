-- ===== src/Syscall/Receive.antt =====
-- sys_ipc_recv of jos/kern/syscall.c gives up the CPU.
use cs444_operating_systems.Base.{
  ℕ, ◌+◌, ◌%◌, ◌≡◌, ◌≢◌, ◌≤◌, ◌⊎◌, inl, inr, refl, true, some, arith, update,
}
use mathlib.Core.Path.{ap}
use cs444_operating_systems.Mmu.{utop, pgoff}
use cs444_operating_systems.Kernel.{Kernel, runnable, not_runnable}
use cs444_operating_systems.Kernel.Run.{Run, ok, resume, halt, monitor, and_then}
use cs444_operating_systems.Errors.{Ret, value}
use cs444_operating_systems.Env.{nenv}
use cs444_operating_systems.Switch.Run.{ran}
use cs444_operating_systems.Sched.{first_index, sched_yield}
use cs444_operating_systems.Sched.RoundRobin.{IsEntered}
use cs444_operating_systems.Sched.Yield.{Yields, halted_cpu, sched_yield_chooses}
use cs444_operating_systems.Syscall.{sys_ipc_recv}

-- The kernel when sys_ipc_recv gives up the CPU.
abbrev pub blocked : (c dstva : ℕ) → Kernel → Kernel
blocked c dstva k = record k {
  envs = update k.envs c (record (k.envs c) {
    env_ipc_recving = true;
    env_ipc_dstva = dstva;
    env_status = not_runnable;
  });
}

recv-yield :
    (k : Kernel) (c dstva : ℕ)
    → k.curenv ≡ some c
    → (utop ≤ dstva) ⊎ (pgoff dstva ≡ 0)
    → sys_ipc_recv dstva k ≡ and_then (sched_yield (blocked c dstva k)) (λ _ k'. ok (value 0) k')
unfolding sys_ipc_recv
recv-yield k c dstva cur fine = ground (arith, cur, fine)

IsEntered-blocked : (k : Kernel) (c dstva : ℕ) → IsEntered k → IsEntered (blocked c dstva k)
IsEntered-blocked k c dstva v = record {
  held = v.held;
  spaces = λ e alive. ground (arith, v.spaces e);
  kernel_space = v.kernel_space;
}

-- How a system call ends that gives up the CPU for environment `c`: it enters another environment
-- that is runnable, halts the CPU, or stays in the monitor.
abbrev pub Leaves : Kernel → ℕ → Run Ret → Type 0
Leaves k c r =
    ((e : ℕ) × (e ≢ c) × ((k.envs e).env_status ≡ runnable) × (r ≡ resume e (ran e k)))
    ⊎ (r ≡ halt (halted_cpu k))
    ⊎ (r ≡ monitor k)

leaves :
    (k : Kernel) (c : ℕ) (r : Run (Unit {0}))
    → k.curenv ≡ some c
    → (k.envs c).env_status ≡ not_runnable
    → Yields k r
    → Leaves k c (and_then r (λ _ k'. ok (value 0) k'))
leaves k c r cur off (inl (d, lt, first, e)) = inl (
  (first_index k + d) % nenv,
  λ same. cc (ap (λ x. (k.envs x).env_status) same, first.found, off),
  first.found,
  rw e refl,
)
leaves k c r cur off (inr (quiet, inl (x, now, e))) = absurd (cc (now.0, now.1, cur, off))
leaves k c r cur off (inr (quiet, inr (idle, inl (x, lt, alive, e)))) = inr (inl (rw e refl))
leaves k c r cur off (inr (quiet, inr (idle, inr (still, e)))) = inr (inr (rw e refl))

-- sys_ipc_recv with an address that is aligned or from UTOP on never returns to its caller: the
-- caller is blocked until a send, with the address recorded, and the CPU enters another environment
-- that is runnable, halts, or stays in the monitor if nothing can ever run again. The hypotheses:
-- the lock is held, and the page directories in use have kernel addresses.
pub sys_ipc_recv_blocks :
    (k : Kernel) (c dstva : ℕ)
    → IsEntered k
    → k.curenv ≡ some c
    → (utop ≤ dstva) ⊎ (pgoff dstva ≡ 0)
    → let k' = blocked c dstva k in
      Leaves k' c (sys_ipc_recv dstva k)
      × ((k'.envs c).env_status ≡ not_runnable)
      × ((k'.envs c).env_ipc_recving ≡ true)
      × ((k'.envs c).env_ipc_dstva ≡ dstva)
sys_ipc_recv_blocks k c dstva v cur fine =
    let k' = blocked c dstva k in
    (
      rw (recv-yield k c dstva cur fine) (
          leaves k' c (sched_yield k') cur (ground arith)
            (sched_yield_chooses k' (IsEntered-blocked k c dstva v))),
      ground arith,
      ground arith,
      ground arith,
    )
