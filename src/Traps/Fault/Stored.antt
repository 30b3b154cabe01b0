-- ===== src/Traps/Fault/Stored.antt =====
-- The words that page_fault_handler of jos/kern/trap.c stores on the exception stack.
use cs444_operating_systems.Base.{
  ℕ, ◌+◌, ◌-◌, ◌*◌, ◌/◌, ◌%◌, ◌≤◌, ◌<◌, ◌≡◌, ◌≢◌, ◌⊎◌, inl, inr, refl, List, [], ◌∷◌, length, arith,
  update, update_ne, leb, ◌&&◌, if◌then◌else◌, false, ap, ◌∙◌, sym,
}
use mathlib.Core.Path.{subst}
use cs444_operating_systems.Mmu.{u32, kernbase, pgsize, pdx, ptx}
use cs444_operating_systems.Mmu.Address.{pdx_lem, ptx_lem}
use cs444_operating_systems.Kernel.{Kernel, Trapframe}
use cs444_operating_systems.Kernel.Run.{resume}
use cs444_operating_systems.Spinlock.{unlocked}
use cs444_operating_systems.Switch.Run.{ran}
use cs444_operating_systems.Pgdir.{entry_at}
use cs444_operating_systems.Pgdir.Walk.{slot_of}
use cs444_operating_systems.Pgdir.Map.{pte_of}
use cs444_operating_systems.Traps.{
  uxstacktop, t_pgflt, utf_size, utf_words, translate, is_dying, frame_at, trap,
}
use cs444_operating_systems.Traps.Enter.{IsUser, entered}
use cs444_operating_systems.Traps.Fault.{
  frame_of, written, faulted, mem-faulted, HasUpcall, trap_resumes,
}

-- `struct UTrapframe` of jos/inc/trap.h at the address `at`, with what it holds of the fault.
pub record IsStored (m : ℕ → ℕ) (at fault_va : ℕ) (tf : Trapframe) : Type 0 where
  pub address : m at ≡ fault_va
  pub err : m (at + 4) ≡ tf.tf_err
  pub edi : m (at + 8) ≡ tf.tf_regs.reg_edi
  pub esi : m (at + 12) ≡ tf.tf_regs.reg_esi
  pub ebp : m (at + 16) ≡ tf.tf_regs.reg_ebp
  pub oesp : m (at + 20) ≡ tf.tf_regs.reg_oesp
  pub ebx : m (at + 24) ≡ tf.tf_regs.reg_ebx
  pub edx : m (at + 28) ≡ tf.tf_regs.reg_edx
  pub ecx : m (at + 32) ≡ tf.tf_regs.reg_ecx
  pub eax : m (at + 36) ≡ tf.tf_regs.reg_eax
  pub eip : m (at + 40) ≡ tf.tf_eip
  pub eflags : m (at + 44) ≡ tf.tf_eflags
  pub esp : m (at + 48) ≡ tf.tf_esp

-- The page of the exception stack.
abbrev pub stack_page : ℕ
stack_page = uxstacktop - pgsize

abbrev pub Off : (q a : ℕ) → Type 0
Off q a = (a < q * 4096 + kernbase) ⊎ (q * 4096 + kernbase + 4096 ≤ a)

-- The exception stack is mapped to page `q`, which holds no entry on the way to it.
pub record IsStack (pgdir q : ℕ) (m : ℕ → ℕ) : Type 0 where
  pub page : pte_of pgdir stack_page m / 4096 ≡ q
  pub entry_off : Off q (slot_of pgdir stack_page m)
  pub directory_off : Off q (entry_at pgdir (pdx stack_page))

-- Words stored one after the other.
block : (at : ℕ) → List ℕ → (ℕ → ℕ) → ℕ → ℕ
block at [] m = m
block at (w ∷ ws) m = block (at + 4) ws (update m at w)

Off-ne : (q a off : ℕ) → off < 4096 → Off q a → a ≢ q * 4096 + kernbase + off
Off-ne q a off lt (inl l) e = omega arith
Off-ne q a off lt (inr g) e = omega arith

same_page :
    (pgdir off : ℕ) (m : ℕ → ℕ)
    → off < 4096
    → pte_of pgdir (stack_page + off) m ≡ pte_of pgdir stack_page m
same_page pgdir off m lt =
    let d : pdx (stack_page + off) ≡ pdx stack_page =
      omega (arith, pdx_lem (stack_page + off), pdx_lem stack_page) in
    let t : ptx (stack_page + off) ≡ ptx stack_page =
      omega (arith, ptx_lem (stack_page + off), ptx_lem stack_page) in
    ap
      (λ (x : ℕ).
        m (entry_at (m (entry_at pgdir x) / 4096 * 4096 + kernbase) (ptx (stack_page + off))))
      d
    ∙ ap (λ (x : ℕ). m (entry_at (m (entry_at pgdir (pdx stack_page)) / 4096 * 4096 + kernbase) x))
        t

translate-stack :
    (pgdir q off : ℕ) (m : ℕ → ℕ)
    → IsStack pgdir q m
    → off < 4096
    → translate pgdir (stack_page + off) m ≡ q * 4096 + kernbase + off
translate-stack pgdir q off m s lt = omega (arith, same_page pgdir off m lt, s.page)

IsStack-update :
    (pgdir q off w : ℕ) (m : ℕ → ℕ)
    → IsStack pgdir q m
    → off < 4096
    → IsStack pgdir q (update m (q * 4096 + kernbase + off) w)
IsStack-update pgdir q off w m s lt =
    let d = Off-ne q (entry_at pgdir (pdx stack_page)) off lt s.directory_off in
    let e = Off-ne q (slot_of pgdir stack_page m) off lt s.entry_off in
    record {
      page = ground (arith, d, e, s.page);
      entry_off = ground (arith, d, s.entry_off);
      directory_off = s.directory_off;
    }

written-block :
    (pgdir q off : ℕ) (ws : List ℕ) (m : ℕ → ℕ)
    → IsStack pgdir q m
    → off + 4 * length ws ≤ 4096
    → written pgdir (stack_page + off) ws m ≡ block (q * 4096 + kernbase + off) ws m
unfolding written block
written-block pgdir q off [] m s fits = refl
written-block pgdir q off (w ∷ ws) m s fits =
    let at = q * 4096 + kernbase + off in
    let next : u32 (stack_page + off + 4) ≡ stack_page + (off + 4) = omega (arith, fits) in
    let there : translate pgdir (stack_page + off) m ≡ at =
      translate-stack pgdir q off m s (omega (arith, fits)) in
    rw there (
      rw next (
        written-block pgdir q (off + 4) ws (update m at w)
          (IsStack-update pgdir q off w m s (omega (arith, fits))) (omega (arith, fits))
        ∙ ap (λ (a : ℕ). block a ws (update m at w)) (omega arith)))

block-IsStored :
    (at fault_va : ℕ) (tf : Trapframe) (m : ℕ → ℕ)
    → IsStored (block at (utf_words (frame_of fault_va tf)) m) at fault_va tf
unfolding block
block-IsStored at fault_va tf m = record {
  address = ground arith;
  err = ground arith;
  edi = ground arith;
  esi = ground arith;
  ebp = ground arith;
  oesp = ground arith;
  ebx = ground arith;
  edx = ground arith;
  ecx = ground arith;
  eax = ground arith;
  eip = ground arith;
  eflags = ground arith;
  esp = ground arith;
}

block-other :
    (at a : ℕ) (ws : List ℕ) (m : ℕ → ℕ)
    → (a < at) ⊎ (at + 4 * length ws ≤ a)
    → block at ws m a ≡ m a
unfolding block
block-other at a [] m out = refl
block-other at a (w ∷ ws) m (inl lt) =
    block-other (at + 4) a ws (update m at w) (inl (omega arith)) ∙ update_ne m w (omega arith)
block-other at a (w ∷ ws) m (inr le) =
    block-other (at + 4) a ws (update m at w) (inr (omega arith)) ∙ update_ne m w (omega arith)

-- The frame lies on the page of the exception stack, which is mapped to page `q`.
pub record HasStack (k : Kernel) (c q : ℕ) (tf : Trapframe) : Type 0 where
  pub stack : IsStack (k.envs c).env_pgdir q k.mem
  pub inside : stack_page ≤ frame_at tf.tf_esp

-- The kernel virtual address of the frame.
abbrev pub stored_at : (q : ℕ) → Trapframe → ℕ
stored_at q tf = q * 4096 + kernbase + frame_at tf.tf_esp % 4096

faulted-mem :
    (k : Kernel) (c fault_va q : ℕ) (tf : Trapframe)
    → HasStack k c q tf
    → (ran c (faulted c fault_va tf (entered c tf k))).mem
      ≡ block (stored_at q tf) (utf_words (frame_of fault_va tf)) k.mem
faulted-mem k c fault_va q tf h =
    let at = frame_at tf.tf_esp in
    let low : stack_page ≤ at = h.inside in
    let high : at + utf_size ≤ uxstacktop = ground arith in
    let place : stack_page + (at - stack_page) ≡ at = omega (arith, low) in
    let ws = utf_words (frame_of fault_va tf) in
    mem-faulted k c fault_va tf
    ∙ ap (λ (va : ℕ). written (k.envs c).env_pgdir va ws k.mem) (sym place)
    ∙ written-block (k.envs c).env_pgdir q (at - stack_page) ws k.mem h.stack
        (omega (arith, low, high))
    ∙ ap (λ (a : ℕ). block a ws k.mem) (omega (arith, low, high))

-- A page fault of an environment with an upcall: trap ends in user mode in the same environment at
-- the upcall, on the exception stack. On page `q`, to which that stack is mapped, `struct UTrapframe` has
-- been stored with the address of the fault, its error code, the eight registers, %eip, the flags and
-- the stack pointer of the program, each in its place, and no other word of memory has changed. The
-- frame ends at the top of the exception stack, or, if the fault was taken on that stack, a word below
-- its stack pointer. The lock is free again. The hypotheses: the trap came from user mode in an
-- environment that is not dying, with the lock free; its page directory is at a kernel address, and each
-- entry of it is absent or leads to a page that exists; the environment may write where the frame goes,
-- which is on the page of the exception stack; and page `q` holds no entry on the way to it.
pub trap_upcalls :
    (k : Kernel) (c fault_va q : ℕ) (tf : Trapframe)
    → IsUser k c tf
    → is_dying (k.envs c).env_status ≡ false
    → tf.tf_trapno ≡ t_pgflt
    → HasUpcall k c tf
    → HasStack k c q tf
    → let k2 = ran c (faulted c fault_va tf (entered c tf k)) in
      let on_stack = leb (uxstacktop - pgsize) tf.tf_esp && leb tf.tf_esp uxstacktop in
      (trap fault_va tf k ≡ resume c k2)
      × ((k2.envs c).env_tf
          ≡ record tf { tf_esp = frame_at tf.tf_esp; tf_eip = (k.envs c).env_pgfault_upcall })
      × (frame_at tf.tf_esp + utf_size ≡ (if on_stack then tf.tf_esp - 4 else uxstacktop))
      × IsStored k2.mem (stored_at q tf) fault_va tf
      × ((a : ℕ) → (a < stored_at q tf) ⊎ (stored_at q tf + utf_size ≤ a) → k2.mem a ≡ k.mem a)
      × (k2.kernel_lock ≡ unlocked)
trap_upcalls k c fault_va q tf u alive number h s =
    let same = faulted-mem k c fault_va q tf s in
    let (run, frame, top, free) = trap_resumes k c fault_va tf u alive number h in
    (
      run,
      frame,
      top,
      subst (λ (m : ℕ → ℕ). IsStored m (stored_at q tf) fault_va tf) (sym same)
          (block-IsStored (stored_at q tf) fault_va tf k.mem),
      λ a out.
          ap (λ (m : ℕ → ℕ). m a) same
          ∙ block-other (stored_at q tf) a (utf_words (frame_of fault_va tf)) k.mem out,
      free,
    )
