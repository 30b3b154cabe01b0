-- ===== src/Syscall/PageMessage.antt =====
-- Messages with a page: sys_ipc_try_send of jos/kern/syscall.c where the receiver asks for one.
use cs444_operating_systems.Base.{
  ℕ, ◌+◌, ◌*◌, ◌^◌, ◌<◌, ◌≡◌, refl, true, false, not, ◌&&◌, Option, none, some, List, arith, bit_or,
  update, ◌∙◌,
}
use cs444_operating_systems.Mmu.{utop, pgoff, has_flag, pte_p, pte_w}
use cs444_operating_systems.Kernel.{Kernel, runnable}
use cs444_operating_systems.Kernel.Run.{ok}
use cs444_operating_systems.Errors.{value}
use cs444_operating_systems.Env.{curenv_id}
use cs444_operating_systems.Pages.Free.{has, IsFree}
use cs444_operating_systems.Pgdir.{page_insert}
use cs444_operating_systems.Pgdir.Walk.{HasTable}
use cs444_operating_systems.Pgdir.Map.{pte_of, IsMapped, lookup_mapped}
use cs444_operating_systems.Pgdir.Insert.{Before, inserted}
use cs444_operating_systems.Pgdir.Remap.{page_insert-lookup, mapping, page_insert_counts}
use cs444_operating_systems.Syscall.{bad_perm, received, deliver, send_page, sys_ipc_try_send}
use cs444_operating_systems.Syscall.Target.{Targets, with_env-ok}
use cs444_operating_systems.Syscall.Flags.{bad_perm-lt}

-- The kernel `k`, with the page inserted, after environment `e` has got the value and the
-- permissions too.
abbrev pub told_with : (c e val perm : ℕ) → Kernel → Kernel
told_with c e val perm k =
    let noted = update k.envs e (record (k.envs e) { env_ipc_perm = perm }) in
    record k { envs = update noted e (received (noted c).env_id val (noted e)) }

-- The sender `c` offers page `q` at `srcva` with permissions that are accepted and do not widen its
-- own, and the receiver `e` asks for a page below UTOP.
pub record Offers (k : Kernel) (c e srcva perm q : ℕ) : Type 0 where
  pub below : srcva < utop
  pub aligned : pgoff srcva ≡ 0
  pub accepted : bad_perm perm ≡ false
  pub word : perm < 2 ^ 32
  pub mapped : IsMapped k.npages (k.envs c).env_pgdir srcva q k.mem
  pub fits :
      not (has_flag (pte_of (k.envs c).env_pgdir srcva k.mem) pte_w) && has_flag perm pte_w ≡ false
  pub asked : (k.envs e).env_ipc_dstva < utop

abbrev noted : (e perm : ℕ) → Kernel → Kernel
noted e perm k = record k { envs = update k.envs e (record (k.envs e) { env_ipc_perm = perm }) }

send_page-ok :
    (k k' : Kernel) (c e srcva perm q : ℕ)
    → k.curenv ≡ some c
    → Offers k c e srcva perm q
    → page_insert (k.envs e).env_pgdir q (k.envs e).env_ipc_dstva perm k ≡ ok (value 0) k'
    → send_page e srcva perm k ≡ ok (value 0) (noted e perm k')
unfolding send_page
send_page-ok k k' c e srcva perm q cur o ins = ground (
  arith,
  cur,
  o.aligned,
  o.accepted,
  lookup_mapped k (k.envs c).env_pgdir srcva q o.mapped,
  o.fits,
  o.asked,
  ins,
)

deliver-ok :
    (k : Kernel) (c e val : ℕ)
    → k.curenv ≡ some c
    → deliver e val k
      ≡ ok
          (value 0)
          (record k { envs = update k.envs e (received (k.envs c).env_id val (k.envs e)) })
unfolding deliver curenv_id
deliver-ok k c e val cur = ground (arith, cur)

send-ok :
    (k k' : Kernel) (c envid e val srcva perm q : ℕ)
    → Targets k c envid false e
    → (k.envs e).env_ipc_recving ≡ true
    → Offers k c e srcva perm q
    → page_insert (k.envs e).env_pgdir q (k.envs e).env_ipc_dstva perm k ≡ ok (value 0) k'
    → k'.curenv ≡ some c
    → sys_ipc_try_send envid val srcva perm k ≡ ok (value 0) (told_with c e val perm k')
unfolding sys_ipc_try_send
send-ok k k' c envid e val srcva perm q t ready o ins cur = rw (with_env-ok k c envid false e _ t) (
    ground (
      arith,
      ready,
      o.below,
      send_page-ok k k' c e srcva perm q t.current o ins,
      deliver-ok (noted e perm k') c e val,
    ))

inserted-curenv :
    (k : Kernel) (pgdir pp va perm : ℕ) (old : Option ℕ)
    → (inserted pgdir pp va perm old k).curenv ≡ k.curenv
inserted-curenv k pgdir pp va perm none = refl
inserted-curenv k pgdir pp va perm (some q) = ground arith

-- A message with a page to an environment that waits in sys_ipc_recv for one: the page of the sender
-- is mapped at the address that the receiver named, with the permissions of the sender, and has one
-- more reference, while a page that was mapped there has one less. The receiver has the value and
-- the permissions, and is runnable. The hypotheses: the offer is acceptable, the receiver's
-- directory has a table for the address, and the page is not free and its counter does not overflow.
pub sys_ipc_try_send_page :
    (k : Kernel) (c envid e val srcva perm q : ℕ) (ps : List ℕ) (old : Option ℕ)
    → Targets k c envid false e
    → (k.envs e).env_ipc_recving ≡ true
    → Offers k c e srcva perm q
    → HasTable k.npages (k.envs e).env_pgdir (k.envs e).env_ipc_dstva k.mem
    → IsFree k ps
    → Before k (k.envs e).env_pgdir (k.envs e).env_ipc_dstva ps old
    → (k.pages q).pp_ref + 1 < 2 ^ 16
    → has q ps ≡ false
    → let pgdir = (k.envs e).env_pgdir in
      let dstva = (k.envs e).env_ipc_dstva in
      let k' = told_with c e val perm (inserted pgdir q dstva perm old k) in
      (sys_ipc_try_send envid val srcva perm k ≡ ok (value 0) k')
      × (pte_of pgdir dstva k'.mem ≡ q * 4096 + bit_or perm pte_p)
      × ((x : ℕ) → (k'.pages x).pp_ref + mapping old x ≡ (k.pages x).pp_ref + mapping (some q) x)
      × ((k'.envs e).env_ipc_value ≡ val)
      × ((k'.envs e).env_ipc_perm ≡ perm)
      × ((k'.envs e).env_status ≡ runnable)
      × ((k'.envs e).env_ipc_recving ≡ false)
sys_ipc_try_send_page k c envid e val srcva perm q ps old t ready o table v b room out =
    let pgdir = (k.envs e).env_pgdir in
    let dstva = (k.envs e).env_ipc_dstva in
    let small = bad_perm-lt perm o.word o.accepted in
    let look =
      page_insert-lookup k pgdir q dstva perm ps old table v b o.mapped.exists room small in
    let counts =
      page_insert_counts k pgdir q dstva perm ps old table v b o.mapped.exists room small out in
    (
      send-ok k (inserted pgdir q dstva perm old k) c envid e val srcva perm q t ready o look.0
          (inserted-curenv k pgdir q dstva perm old ∙ t.current),
      look.2,
      counts.1,
      ground arith,
      ground arith,
      ground arith,
      ground arith,
    )
