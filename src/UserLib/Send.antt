-- ===== src/UserLib/Send.antt =====
-- ipc_send of jos/lib/ipc.c.
use cs444_operating_systems.Base.{ℕ, zero, suc, ◌<◌, ◌≡◌, true, false, none, arith, Bool, ◌∙◌, refl}
use cs444_operating_systems.Mmu.{kernbase}
use cs444_operating_systems.Kernel.{Kernel}
use cs444_operating_systems.Kernel.Run.{ok}
use cs444_operating_systems.Errors.{value, error, ipc_not_recv}
use cs444_operating_systems.Syscall.{sys_ipc_try_send}
use cs444_operating_systems.Syscall.Target.{Targets}
use cs444_operating_systems.Syscall.Message.{told, busy, send-ok}
use cs444_operating_systems.UserLib.{ipc_send}

-- The kernel after the others have run a number of times.
abbrev pub after : (Kernel → Kernel) → ℕ → Kernel → Kernel
after others zero k = k
after others (suc n) k = after others n (others k)

-- Environment `e` is named by `to_env`, and waits for a message or does not.
pub record Listens (k : Kernel) (c to_env e : ℕ) (ready : Bool) : Type 0 where
  pub target : Targets k c to_env false e
  pub state : (k.envs e).env_ipc_recving ≡ ready

module _ (rounds : ℕ) (others : Kernel → Kernel) (k : Kernel) (to_env val perm : ℕ) where
  try_again :
      sys_ipc_try_send to_env val kernbase perm k ≡ ok (error ipc_not_recv) k
      → ipc_send (suc rounds) others to_env val none perm k
        ≡ ipc_send rounds others to_env val none perm (others k)
  unfolding ipc_send
  try_again e = rw e refl

  done :
      (k' : Kernel)
      → sys_ipc_try_send to_env val kernbase perm k ≡ ok (value 0) k'
      → ipc_send (suc rounds) others to_env val none perm k ≡ ok tt k'
  unfolding ipc_send
  done k' e = rw e refl

-- ipc_send without a page, to an environment that begins to wait for a message when the others have
-- run `n` times, returns, and the message has been delivered exactly then: the kernel is that of one
-- successful sys_ipc_try_send. The attempts before change nothing. More than `n` rounds are enough.
pub ipc_send_delivers :
    (rounds n : ℕ) (others : Kernel → Kernel) (k : Kernel) (c to_env e val perm : ℕ)
    → n < rounds
    → ((i : ℕ) → i < n → Listens (after others i k) c to_env e false)
    → Listens (after others n k) c to_env e true
    → ipc_send rounds others to_env val none perm k ≡ ok tt (told c e val (after others n k))
ipc_send_delivers zero n others k c to_env e val perm lt waits ready = absurd (omega arith)
ipc_send_delivers (suc rounds) zero others k c to_env e val perm lt waits ready =
    done rounds others k to_env val perm _
      (send-ok k c to_env e val kernbase perm ready.target ready.state (omega arith))
ipc_send_delivers (suc rounds) (suc n) others k c to_env e val perm lt waits ready =
    let first = waits 0 (omega arith) in
    try_again rounds others k to_env val perm
      (busy k c to_env e val kernbase perm first.target first.state)
    ∙ ipc_send_delivers rounds n others (others k) c to_env e val perm (omega arith)
        (λ i l. waits (suc i) (omega arith)) ready
