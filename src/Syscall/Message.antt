-- ===== src/Syscall/Message.antt =====
-- Messages without a page: sys_ipc_recv and sys_ipc_try_send of jos/kern/syscall.c.
use cs444_operating_systems.Base.{ℕ, ◌≡◌, ◌≢◌, ◌≤◌, inl, inr, refl, true, false, arith, update}
use cs444_operating_systems.Mmu.{utop}
use cs444_operating_systems.Kernel.{Kernel, runnable}
use cs444_operating_systems.Kernel.Run.{ok}
use cs444_operating_systems.Errors.{value, error, ipc_not_recv}
use cs444_operating_systems.Env.{curenv_id}
use cs444_operating_systems.Syscall.{received, deliver, sys_ipc_try_send}
use cs444_operating_systems.Syscall.Target.{Targets, with_env-ok}

-- The kernel after environment `e` has got the value `val` without a page.
abbrev pub told : (c e val : ℕ) → Kernel → Kernel
told c e val k = record k {
  envs =
      update (update k.envs e (record (k.envs e) { env_ipc_perm = 0 })) e
        (received (k.envs c).env_id val (record (k.envs e) { env_ipc_perm = 0 }));
}

pub send-ok :
    (k : Kernel) (c envid e val srcva perm : ℕ)
    → Targets k c envid false e
    → (k.envs e).env_ipc_recving ≡ true
    → utop ≤ srcva
    → sys_ipc_try_send envid val srcva perm k ≡ ok (value 0) (told c e val k)
unfolding sys_ipc_try_send deliver curenv_id
send-ok k c envid e val srcva perm t ready none' =
    rw (with_env-ok k c envid false e _ t) (ground (arith, t.current))

-- An environment that does not receive gets nothing.
pub busy :
    (k : Kernel) (c envid e val srcva perm : ℕ)
    → Targets k c envid false e
    → (k.envs e).env_ipc_recving ≡ false
    → sys_ipc_try_send envid val srcva perm k ≡ ok (error ipc_not_recv) k
unfolding sys_ipc_try_send
busy k c envid e val srcva perm t idle = rw (with_env-ok k c envid false e _ t) (ground arith)

told-Targets :
    (k : Kernel) (c envid e val : ℕ)
    → Targets k c envid false e
    → Targets (told c e val k) c envid false e
told-Targets k c envid e val t = record {
  current = t.current;
  names = elim t.names [
    | inl own ↦ inl own
    | inr (nonzero, (at, used, id, allowed)) ↦
        inr (nonzero, (at, ground arith, ground (arith, id), inl refl))
  ];
}

-- A message without a page to an environment that waits in sys_ipc_recv succeeds: the receiver has
-- the value, the id of the sender and permission 0, is runnable, and its system call returns 0. No
-- other environment changes. From then on it does not receive: every further send to it fails
-- with -E_IPC_NOT_RECV and changes nothing.
pub sys_ipc_try_send_once :
    (k : Kernel) (c envid e val srcva perm : ℕ)
    → Targets k c envid false e
    → (k.envs e).env_ipc_recving ≡ true
    → utop ≤ srcva
    → let k' = told c e val k in
      (sys_ipc_try_send envid val srcva perm k ≡ ok (value 0) k')
      × ((k'.envs e).env_ipc_value ≡ val)
      × ((k'.envs e).env_ipc_from ≡ (k.envs c).env_id)
      × ((k'.envs e).env_ipc_perm ≡ 0)
      × ((k'.envs e).env_status ≡ runnable)
      × ((k'.envs e).env_tf.tf_regs.reg_eax ≡ 0)
      × ((x : ℕ) → x ≢ e → k'.envs x ≡ k.envs x)
      × ((val' srcva' perm' : ℕ)
          → sys_ipc_try_send envid val' srcva' perm' k' ≡ ok (error ipc_not_recv) k')
sys_ipc_try_send_once k c envid e val srcva perm t ready none' = (
  send-ok k c envid e val srcva perm t ready none',
  ground arith,
  ground arith,
  ground arith,
  ground arith,
  ground arith,
  λ x ne. ground arith,
  λ val' srcva' perm'.
      busy (told c e val k) c envid e val' srcva' perm' (told-Targets k c envid e val t)
        (ground arith),
)
