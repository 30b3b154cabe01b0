-- ===== src/Traps/Zombie.antt =====
-- An environment that another CPU has destroyed, when it traps: trap of jos/kern/trap.c.
use cs444_operating_systems.Base.{
  ℕ, ◌≡◌, refl, true, none, some, List, ◌∷◌, arith, inl, inr, ◌∙◌, ap,
}
use mathlib.Core.Path.{subst, sym}
use cs444_operating_systems.Kernel.{Kernel, Trapframe, started, free}
use cs444_operating_systems.Kernel.Run.{Run, ok, pure, set_env, ◌>>◌, and_then}
use cs444_operating_systems.Spinlock.{unlocked}
use cs444_operating_systems.Pages.Free.{IsFree}
use cs444_operating_systems.Env.FreeList.{IsTable}
use cs444_operating_systems.Sched.{sched_yield}
use cs444_operating_systems.Sched.RoundRobin.{IsEntered}
use cs444_operating_systems.Sched.Yield.{Yields, sched_yield_chooses}
use cs444_operating_systems.Destroy.{env_free}
use cs444_operating_systems.Destroy.Bury.{IsBare, buried, homed}
use cs444_operating_systems.Destroy.Recycle.{IsUsed, env_free_recycles}
use cs444_operating_systems.Traps.{is_dying, enter_from_user, trap_dispatch, leave_trap, trap}
use cs444_operating_systems.Traps.Enter.{IsUser, locked_in, held-locked_in, lock-ok, Yields-final}
use cs444_operating_systems.Traps.Timer.{HasSpaces}

-- The kernel when the zombie, with page `d` as its directory, has been freed.
abbrev pub mourned : (c d : ℕ) → Kernel → Kernel
mourned c d k = record (buried c d (homed c (locked_in k))) { curenv = none }

-- What sched_yield does not return to.
abbrev after : (c : ℕ) → Trapframe → Kernel → Run ℕ
after c tf = set_env c (λ e. record e { env_tf = tf }) >> pure c

zombie-enter :
    (k : Kernel) (c d : ℕ) (tf : Trapframe)
    → k.curenv ≡ some c
    → k.kernel_lock ≡ unlocked
    → is_dying (k.envs c).env_status ≡ true
    → env_free c (locked_in k) ≡ ok tt (buried c d (homed c (locked_in k)))
    → enter_from_user tf (record k { cpu_status = started })
      ≡ and_then (sched_yield (mourned c d k)) (λ _. after c tf)
unfolding enter_from_user
zombie-enter k c d tf cur idle_lock gone freed =
    ground (arith, cur, gone, lock-ok (record k { cpu_status = started }) idle_lock, freed)

-- A run that does not return stays as it is when code of two functions follows it.
quits :
    (k : Kernel) (r : Run (Unit {0})) (f : Unit {0} → Kernel → Run ℕ)
    → (g : ℕ → Kernel → Run (Unit {0})) → Yields k r
    → and_then (and_then r f) g ≡ r
quits k r f g (inl (d, lt, first, e)) = rw e refl
quits k r f g (inr (quiet, inl (c, cur, e))) = rw e refl
quits k r f g (inr (quiet, inr (idle, inl (e, lt, alive, h)))) = rw h refl
quits k r f g (inr (quiet, inr (idle, inr (still, h)))) = rw h refl

zombie-trap :
    (k : Kernel) (c d fault_va : ℕ) (tf : Trapframe)
    → IsUser k c tf
    → enter_from_user tf (record k { cpu_status = started })
      ≡ and_then (sched_yield (mourned c d k)) (λ _. after c tf)
    → trap fault_va tf k
      ≡ and_then
          (and_then
            (and_then (sched_yield (mourned c d k)) (λ _. after c tf))
            (λ o. trap_dispatch (some o) fault_va tf))
          (λ _. leave_trap)
unfolding trap
zombie-trap k c d fault_va tf u enter = ground (arith, u.awake, u.user_mode, enter)

mourned-IsEntered : (k : Kernel) (c d : ℕ) → HasSpaces k → IsEntered (mourned c d k)
mourned-IsEntered k c d h = record {
  held = ground (arith, held-locked_in k);
  spaces = λ e alive. ground (arith, h.spaces e);
  kernel_space = ground (arith, h.kernel_space);
}

-- A zombie traps, one whose address space is empty below UTOP: it is freed and is the first
-- environment on the free list, its directory is the first free page, the CPU goes on as sched_yield
-- decides, and the trap itself is not handled. The hypotheses: the trap came from user mode, the lock
-- is free, only the zombie refers to its directory, and the page directories in use have kernel
-- addresses.
pub trap_buries :
    (k : Kernel) (c d fault_va : ℕ) (tf : Trapframe) (es ps : List ℕ)
    → IsUser k c tf
    → is_dying (k.envs c).env_status ≡ true
    → IsUsed k c d es ps
    → IsBare (k.envs c).env_pgdir k.mem
    → IsTable k es
    → IsFree k ps
    → HasSpaces k
    → let k' = mourned c d k in
      Yields k' (trap fault_va tf k)
      × IsTable k' (c ∷ es)
      × IsFree k' (d ∷ ps)
      × ((k'.envs c).env_status ≡ free)
trap_buries k c d fault_va tf es ps u gone used bare t v h =
    let l = locked_in k in
    let used1 : IsUsed l c d es ps = record {
      index = used.index;
      taken = used.taken;
      at = used.at;
      exists = used.exists;
      single = used.single;
      kept = used.kept;
      home = used.home;
    } in
    let t1 : IsTable l es = record { chain = t.chain; all = t.all } in
    let v1 : IsFree l ps = record { small = v.small; chain = v.chain; unlinked = v.unlinked } in
    let r = env_free_recycles l c d es ps used1 bare t1 v1 in
    let m = mourned c d k in
    let y = sched_yield_chooses m (mourned-IsEntered k c d h) in
    let enter = zombie-enter k c d tf u.current u.free_lock gone r.0 in
    let path : trap fault_va tf k ≡ sched_yield m =
      zombie-trap k c d fault_va tf u enter
      ∙ ap (λ q. and_then q (λ _. leave_trap))
          (quits m (sched_yield m) (λ _. after c tf) (λ o. trap_dispatch (some o) fault_va tf) y)
      ∙ Yields-final m (sched_yield m) (λ _. leave_trap) y in
    (
      subst (Yields m) (sym path) y,
      record { chain = r.1.chain; all = r.1.all },
      record { small = r.2.small; chain = r.2.chain; unlinked = r.2.unlinked },
      r.3,
    )
