-- ===== src/Switch/Run.antt =====
-- What env_run of jos/kern/env.c leaves behind.
use cs444_operating_systems.Base.{
  ℕ, ◌+◌, ◌-◌, ◌%◌, ◌^◌, ◌≤◌, ◌≡◌, refl, Option, none, some, true, false, ◌&&◌, ◌==◌, arith,
  if◌then◌else◌, update, Bool-cases, inl, inr, ◌∙◌, ap,
}
use cs444_operating_systems.Mmu.{kernbase}
use cs444_operating_systems.Kernel.{Kernel, Env, EnvStatus, running, runnable}
use cs444_operating_systems.Kernel.Run.{ok, resume, and_then}
use cs444_operating_systems.Pages.{paddr}
use cs444_operating_systems.Env.{is_env}
use cs444_operating_systems.Spinlock.{holding, unlock_kernel, unlocked}
use cs444_operating_systems.Switch.{is_running, load_space, env_pop_tf, demote, env_run}

-- The kernel is entered with the big lock, and a page directory has a kernel address.
pub record MayRun (k : Kernel) (e : ℕ) : Type 0 where
  pub held : holding k.kernel_lock k.cpunum ≡ true
  pub space : kernbase ≤ (k.envs e).env_pgdir

-- The environments after the current one has been put back.
abbrev pub demoted : Option ℕ → (ℕ → Env) → ℕ → Env
demoted none envs = envs
demoted (some c) envs =
    if is_running (envs c).env_status
    then update envs c (record (envs c) { env_status = runnable })
    else envs

abbrev pub promoted : ℕ → (ℕ → Env) → ℕ → Env
promoted e envs =
    update envs e
      (record (envs e) { env_status = running; env_runs = ((envs e).env_runs + 1) % 2 ^ 32 })

-- The environments after env_run, but for env_cpunum.
abbrev pub switched : ℕ → Option ℕ → (ℕ → Env) → ℕ → Env
switched e cur envs = if is_env e cur then envs else promoted e (demoted cur envs)

is_env-eq : (e : ℕ) (cur : Option ℕ) → is_env e cur ≡ true → cur ≡ some e
is_env-eq e none h = cc
is_env-eq e (some c) h = ground arith

-- The kernel after env_run.
abbrev pub ran : ℕ → Kernel → Kernel
ran e k =
    let envs = switched e k.curenv k.envs in
    record k {
      curenv = some e;
      envs = update envs e (record (envs e) { env_cpunum = k.cpunum });
      cr3 = if is_env e k.curenv then k.cr3 else (k.envs e).env_pgdir - kernbase;
      kernel_lock = unlocked;
    }

demote-ok :
    (k : Kernel) (cur : Option ℕ) → demote cur k ≡ ok tt (record k { envs = demoted cur k.envs })
unfolding demote
demote-ok k none = refl
demote-ok k (some c) = ground arith

pub unlock-ok :
    (k : Kernel)
    → holding k.kernel_lock k.cpunum ≡ true
    → unlock_kernel k ≡ ok tt (record k { kernel_lock = unlocked })
unfolding unlock_kernel
unlock-ok k h = rw h

pub space-ok :
    (k : Kernel) (pgdir : ℕ)
    → kernbase ≤ pgdir
    → load_space pgdir k ≡ ok tt (record k { cr3 = pgdir - kernbase })
unfolding load_space paddr
space-ok k pgdir h = ground arith

pop-resume :
    (k : Kernel) (c : ℕ)
    → k.curenv ≡ some c
    → env_pop_tf k
      ≡ resume c (record k { envs = update k.envs c (record (k.envs c) { env_cpunum = k.cpunum }) })
unfolding env_pop_tf
pop-resume k c h = ground arith

-- The kernel when env_run has chosen the environment, before it gives the lock back.
abbrev chosen : ℕ → Kernel → Kernel
chosen e k = record k {
  curenv = some e;
  envs = promoted e (demoted k.curenv k.envs);
  cr3 = (k.envs e).env_pgdir - kernbase;
}

demoted-pgdir :
    (cur : Option ℕ) (envs : ℕ → Env) (e : ℕ)
    → (promoted e (demoted cur envs) e).env_pgdir ≡ (envs e).env_pgdir
demoted-pgdir none envs e = ground arith
demoted-pgdir (some c) envs e = ground arith

-- The kernel that env_run leaves for environment `e`.
abbrev left : ℕ → Kernel → Kernel
left e k = record k {
  kernel_lock = unlocked;
  envs = update k.envs e (record (k.envs e) { env_cpunum = k.cpunum });
}

leave :
    (k : Kernel) (e : ℕ)
    → holding k.kernel_lock k.cpunum ≡ true
    → k.curenv ≡ some e
    → and_then (unlock_kernel k) (λ _. env_pop_tf) ≡ resume e (left e k)
leave k e h cur = rw (unlock-ok k h) (pop-resume (record k { kernel_lock = unlocked }) e cur)

run_same :
    (k : Kernel) (e : ℕ) → MayRun k e → is_env e k.curenv ≡ true → env_run e k ≡ resume e (ran e k)
unfolding env_run
run_same k e m same =
    let cur = is_env-eq e k.curenv same in
    rw same (leave k e m.held cur ∙ ap (λ c. resume e (record (left e k) { curenv = c })) cur)

run_other :
    (k : Kernel) (e : ℕ) → MayRun k e → is_env e k.curenv ≡ false → env_run e k ≡ resume e (ran e k)
unfolding env_run
run_other k e m other =
    let envs = promoted e (demoted k.curenv k.envs) in
    let same = demoted-pgdir k.curenv k.envs e in
    rw other (
      rw (demote-ok k k.curenv) (
        rw (space-ok (record k { envs = envs; curenv = some e }) (envs e).env_pgdir space) (
          leave (record (chosen e k) { cr3 = (envs e).env_pgdir - kernbase }) e m.held refl
          ∙ ap (λ (pgdir : ℕ). resume e (record (left e (chosen e k)) { cr3 = pgdir - kernbase }))
              same)))
  where
    space : kernbase ≤ (promoted e (demoted k.curenv k.envs) e).env_pgdir
    space = rw (demoted-pgdir k.curenv k.envs e) m.space

-- env_run always ends in user mode, in the environment that it is given.
pub env_run-resume : (k : Kernel) (e : ℕ) → MayRun k e → env_run e k ≡ resume e (ran e k)
env_run-resume k e m = elim (Bool-cases (is_env e k.curenv)) [
  | inl same ↦ run_same k e m same
  | inr other ↦ run_other k e m other
]

-- The status of environment `x` after env_run has switched from `c` to `e`.
abbrev pub status_after : Kernel → (c e x : ℕ) → EnvStatus
status_after k c e x =
    if e == c
    then (k.envs x).env_status
    else if x == e
    then running
    else if x == c && is_running (k.envs c).env_status
    then runnable
    else (k.envs x).env_status

-- env_run(e), called with the lock, ends in user mode in `e`: it is the current environment, its
-- address space is loaded if it was not the current one, and the lock is free. If another
-- environment was current, that one becomes runnable if it was running, `e` becomes running, and no
-- other status changes; if `e` was current no status changes, not even that of `e`.
pub env_run_switches :
    (k : Kernel) (c e : ℕ)
    → MayRun k e
    → k.curenv ≡ some c
    → let k' = ran e k in
      (env_run e k ≡ resume e k')
      × (k'.curenv ≡ some e)
      × (k'.kernel_lock ≡ unlocked)
      × (k'.cr3 ≡ (if e == c then k.cr3 else (k.envs e).env_pgdir - kernbase))
      × ((x : ℕ) → (k'.envs x).env_status ≡ status_after k c e x)
env_run_switches k c e m cur = (env_run-resume k e m, refl, refl, ground arith, λ x. ground arith)
