-- ===== src/Traps/Fault.antt =====
-- A page fault from user mode: page_fault_handler of jos/kern/trap.c, through trap.
pub mod Stored
use cs444_operating_systems.Base.{
  ℕ, ◌+◌, ◌-◌, ◌*◌, ◌/◌, ◌^◌, ◌≤◌, ◌≡◌, ◌≢◌, inl, inr, refl, false, ◌&&◌, leb, some, List, [], ◌∷◌,
  arith, if◌then◌else◌, update, bit_and, bit_or, ◌∙◌, ap,
}
use mathlib.Core.Path.{subst}
use cs444_operating_systems.Mmu.{u32, kernbase, pgsize, pte_p, pte_u, pte_w}
use cs444_operating_systems.Kernel.{Kernel, Env, Trapframe}
use cs444_operating_systems.Kernel.Run.{ok, resume, and_then}
use cs444_operating_systems.Spinlock.{unlocked}
use cs444_operating_systems.Switch.{env_run}
use cs444_operating_systems.Switch.Run.{MayRun, ran, env_run-resume}
use cs444_operating_systems.UserMem.Exact.{IsSpace, AllAllowed, user_mem_check_exact}
use cs444_operating_systems.Destroy.{user_mem_assert}
use cs444_operating_systems.Traps.{
  uxstacktop, t_pgflt, UTrapframe, utf_size, utf_words, translate, store_words, is_dying, frame_at,
  upcall, page_fault_handler, trap_dispatch, leave_trap, trap,
}
use cs444_operating_systems.Traps.Enter.{IsUser, locked_in, entered, held-locked_in, trap-entered}

-- The memory after words have been stored at addresses of an address space.
pub written : (pgdir va : ℕ) → List ℕ → (ℕ → ℕ) → ℕ → ℕ
written pgdir va [] m = m
written pgdir va (w ∷ ws) m = written pgdir (u32 (va + 4)) ws (update m (translate pgdir va m) w)

store_words-ok :
    (k : Kernel) (pgdir va : ℕ) (ws : List ℕ)
    → store_words pgdir va ws k ≡ ok tt (record k { mem = written pgdir va ws k.mem })
unfolding store_words written
store_words-ok k pgdir va [] = refl
store_words-ok k pgdir va (w ∷ ws) =
    store_words-ok (record k { mem = update k.mem (translate pgdir va k.mem) w }) pgdir
      (u32 (va + 4)) ws

-- The permissions that the exception stack needs.
abbrev pub stack_perm : ℕ
stack_perm = bit_or (bit_or (bit_or pte_u pte_p) pte_w) pte_u

assert-ok :
    (k : Kernel) (c va : ℕ)
    → IsSpace k (k.envs c).env_pgdir
    → va + utf_size + pgsize ≤ 2 ^ 32
    → AllAllowed k
        (k.envs c).env_pgdir
        stack_perm
        (va / pgsize * pgsize)
        ((va + utf_size + 4095) / pgsize * pgsize)
    → user_mem_assert c va utf_size (bit_or (bit_or pte_u pte_p) pte_w) k ≡ ok tt k
unfolding user_mem_assert
assert-ok k c va space fits all =
    elim (user_mem_check_exact k c va utf_size stack_perm space fits) [
      | inl (e, good) ↦ rw e refl
      | inr (b, e) ↦ absurd (b.bad (all b.page b.from b.to b.aligned))
    ]

-- The record that the user's handler is given.
abbrev pub frame_of : (fault_va : ℕ) → Trapframe → UTrapframe
frame_of fault_va tf = record {
  utf_fault_va = fault_va;
  utf_err = tf.tf_err;
  utf_regs = tf.tf_regs;
  utf_eip = tf.tf_eip;
  utf_eflags = tf.tf_eflags;
  utf_esp = tf.tf_esp;
}

abbrev framed : ℕ → Trapframe → Kernel → Kernel
framed c tf k = record k {
  envs =
      update k.envs c
        (record (k.envs c) { env_tf = record (k.envs c).env_tf { tf_esp = frame_at tf.tf_esp } });
}

abbrev pointed : ℕ → Kernel → Kernel
pointed c k = record k {
  envs = update k.envs c (record (k.envs c) {
    env_tf = record (k.envs c).env_tf { tf_eip = (k.envs c).env_pgfault_upcall };
  });
}

abbrev noted : (c fault_va : ℕ) → Trapframe → Kernel → Kernel
noted c fault_va tf k = record k {
  mem = written (k.envs c).env_pgdir (frame_at tf.tf_esp) (utf_words (frame_of fault_va tf)) k.mem;
}

-- The kernel when the handler resumes the environment.
abbrev pub faulted : (c fault_va : ℕ) → Trapframe → Kernel → Kernel
faulted c fault_va tf k = noted c fault_va tf (pointed c (framed c tf k))

pub mem-faulted :
    (k : Kernel) (c fault_va : ℕ) (tf : Trapframe)
    → (faulted c fault_va tf (entered c tf k)).mem
      ≡ written (k.envs c).env_pgdir (frame_at tf.tf_esp) (utf_words (frame_of fault_va tf)) k.mem
mem-faulted k c fault_va tf =
    let k1 = entered c tf k in
    ap (λ (d : ℕ). written d (frame_at tf.tf_esp) (utf_words (frame_of fault_va tf)) k.mem)
      (let same : ((pointed c (framed c tf k1)).envs c).env_pgdir ≡ (k.envs c).env_pgdir =
          ground arith in
        same)

-- The environment can take a page fault with the frame `tf`: it has an upcall, and may write where the
-- frame goes.
pub record HasUpcall (k : Kernel) (c : ℕ) (tf : Trapframe) : Type 0 where
  pub set : (k.envs c).env_pgfault_upcall ≢ 0
  pub address_space : IsSpace k (k.envs c).env_pgdir
  pub kernel_address : kernbase ≤ (k.envs c).env_pgdir
  pub room : frame_at tf.tf_esp + utf_size + pgsize ≤ 2 ^ 32
  pub writable :
      AllAllowed k
        (k.envs c).env_pgdir
        stack_perm
        (frame_at tf.tf_esp / pgsize * pgsize)
        ((frame_at tf.tf_esp + utf_size + 4095) / pgsize * pgsize)

-- Only the address space and the upcall of the environment matter.
HasUpcall-update :
    (k : Kernel) (c : ℕ) (tf : Trapframe) (env : Env)
    → env.env_pgdir ≡ (k.envs c).env_pgdir
    → env.env_pgfault_upcall ≡ (k.envs c).env_pgfault_upcall
    → HasUpcall k c tf
    → HasUpcall (record k { envs = update k.envs c env }) c tf
HasUpcall-update k c tf env dir up h =
    let k1 : Kernel = record k { envs = update k.envs c env } in
    let same : (k.envs c).env_pgdir ≡ (k1.envs c).env_pgdir = ground (arith, dir) in
    record {
      set = ground (arith, up, h.set);
      address_space = subst (IsSpace k1) same h.address_space;
      kernel_address = ground (arith, dir, h.kernel_address);
      room = h.room;
      writable =
          subst
            (λ d.
              AllAllowed k1 d stack_perm (frame_at tf.tf_esp / pgsize * pgsize)
                ((frame_at tf.tf_esp + utf_size + 4095) / pgsize * pgsize))
            same h.writable;
    }

upcall-ok :
    (k : Kernel) (c fault_va : ℕ) (tf : Trapframe)
    → HasUpcall k c tf
    → upcall c fault_va tf k ≡ env_run c (faulted c fault_va tf k)
unfolding upcall
upcall-ok k c fault_va tf h =
    let k1 = framed c tf k in
    let h1 = HasUpcall-update k c tf _ refl refl h in
    rw (assert-ok k1 c (frame_at tf.tf_esp) h1.address_space h1.room h1.writable) (
      rw
        (store_words-ok (pointed c k1) ((pointed c k1).envs c).env_pgdir (frame_at tf.tf_esp)
          (utf_words (frame_of fault_va tf)))
        refl)

dispatch-fault :
    (k : Kernel) (c fault_va : ℕ) (tf : Trapframe)
    → tf.tf_trapno ≡ t_pgflt
    → bit_and tf.tf_cs 3 ≡ 3
    → k.curenv ≡ some c
    → (k.envs c).env_pgfault_upcall ≢ 0
    → trap_dispatch (some c) fault_va tf k ≡ upcall c fault_va tf k
unfolding trap_dispatch page_fault_handler
dispatch-fault k c fault_va tf number user cur set = ground (arith, number, user, cur, set)

entered-HasUpcall :
    (k : Kernel) (c : ℕ) (tf : Trapframe) → HasUpcall k c tf → HasUpcall (entered c tf k) c tf
entered-HasUpcall k c tf h =
    HasUpcall-update (locked_in k) c tf (record (k.envs c) { env_tf = tf }) refl refl
      (record {
        set = h.set;
        address_space = h.address_space;
        kernel_address = h.kernel_address;
        room = h.room;
        writable = h.writable;
      })

-- How a page fault of an environment with an upcall ends, but for what is stored.
pub trap_resumes :
    (k : Kernel) (c fault_va : ℕ) (tf : Trapframe)
    → IsUser k c tf
    → is_dying (k.envs c).env_status ≡ false
    → tf.tf_trapno ≡ t_pgflt
    → HasUpcall k c tf
    → let k2 = ran c (faulted c fault_va tf (entered c tf k)) in
      let on_stack = leb (uxstacktop - pgsize) tf.tf_esp && leb tf.tf_esp uxstacktop in
      (trap fault_va tf k ≡ resume c k2)
      × ((k2.envs c).env_tf
          ≡ record tf { tf_esp = frame_at tf.tf_esp; tf_eip = (k.envs c).env_pgfault_upcall })
      × (frame_at tf.tf_esp + utf_size ≡ (if on_stack then tf.tf_esp - 4 else uxstacktop))
      × (k2.kernel_lock ≡ unlocked)
trap_resumes k c fault_va tf u alive number h =
    let k1 = entered c tf k in
    let h1 = entered-HasUpcall k c tf h in
    let k2 = faulted c fault_va tf k1 in
    let may : MayRun k2 c = record {
      held = held-locked_in k;
      space = ground (arith, h1.kernel_address);
    } in
    let run =
      dispatch-fault k1 c fault_va tf number u.user_mode u.current h1.set
      ∙ upcall-ok k1 c fault_va tf h1
      ∙ env_run-resume k2 c may in
    (
      trap-entered k c fault_va tf u alive ∙ ap (λ q. and_then q (λ _. leave_trap)) run,
      ground (arith, u.current),
      ground arith,
      refl,
    )
