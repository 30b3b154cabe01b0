-- ===== src/Syscall/Fork.antt =====
-- sys_exofork of jos/kern/syscall.c.
use cs444_operating_systems.Base.{ℕ, ◌^◌, ◌<◌, ◌≡◌, ◌≢◌, none, some, List, [], ◌∷◌, arith, update}
use cs444_operating_systems.Kernel.{Kernel, free, not_runnable}
use cs444_operating_systems.Kernel.Run.{ok}
use cs444_operating_systems.Errors.{Ret, value, error, no_mem, no_free_env}
use cs444_operating_systems.Pages.Free.{IsFree}
use cs444_operating_systems.Env.{nenv, envx, curenv_id, env_alloc, next_id}
use cs444_operating_systems.Env.Ids.{next_id_names}
use cs444_operating_systems.Env.FreeList.{IsTable, EnvChain-update}
use cs444_operating_systems.Env.Alloc.{started, env_alloc_takes}
use cs444_operating_systems.Syscall.{with_eax, sys_exofork}

-- The kernel after environment `c` has made environment `e` with page `p`.
abbrev pub forked : (c e p : ℕ) → Kernel → Kernel
forked c e p k =
    let s = started e p (k.envs c).env_id k in
    record s {
      envs =
          update s.envs e (record (s.envs e) {
            env_status = not_runnable;
            env_tf = with_eax 0 (s.envs c).env_tf;
          });
    }

-- What sys_exofork does, by the free environments and the free pages.
abbrev pub Forks : Kernel → ℕ → List ℕ → List ℕ → Type 0
Forks k c [] ps = sys_exofork k ≡ ok (error no_free_env) k
Forks k c (e ∷ es) [] = sys_exofork k ≡ ok (error no_mem) k
Forks k c (e ∷ es) (p ∷ ps) =
    let k' = forked c e p k in
    let id = (k'.envs e).env_id in
    (sys_exofork k ≡ ok (value id) k')
    × (0 < id)
    × (id < 2 ^ 31)
    × (envx id ≡ e)
    × ((k'.envs e).env_status ≡ not_runnable)
    × ((k'.envs e).env_parent_id ≡ (k.envs c).env_id)
    × ((k'.envs e).env_tf ≡ with_eax 0 (k.envs c).env_tf)
    × ((x : ℕ) → x ≢ e → k'.envs x ≡ k.envs x)
    × IsTable k' es
    × IsFree k' ps

exofork-error :
    (k : Kernel) (c : ℕ) (es ps : List ℕ) (code : cs444_operating_systems.Errors.Error)
    → k.curenv ≡ some c
    → env_alloc (k.envs c).env_id k ≡ ok (error code, none) k
    → sys_exofork k ≡ ok (error code) k
unfolding sys_exofork curenv_id
exofork-error k c es ps code cur e = ground (arith, e, cur)

exofork-ok :
    (k : Kernel) (c e p : ℕ)
    → k.curenv ≡ some c
    → env_alloc (k.envs c).env_id k ≡ ok (value 0, some e) (started e p (k.envs c).env_id k)
    → sys_exofork k ≡ ok (value ((forked c e p k).envs e).env_id) (forked c e p k)
unfolding sys_exofork curenv_id
exofork-ok k c e p cur made = ground (arith, made, cur)

-- sys_exofork makes the first free environment a child of the caller with the caller's registers,
-- except that it will see 0 as the result, while the caller gets its id, which is positive and
-- names it. The child is not runnable, no other environment changes, and the rest of both free lists
-- stays free. With no free environment it returns -E_NO_FREE_ENV, else with no free page
-- -E_NO_MEM, and then nothing has changed. The hypotheses: no id in the table is negative, and the
-- caller is not free.
pub sys_exofork_copies :
    (k : Kernel) (c : ℕ) (es ps : List ℕ)
    → k.curenv ≡ some c
    → (k.envs c).env_status ≢ free
    → IsTable k es
    → IsFree k ps
    → ((e : ℕ) → e < nenv → (k.envs e).env_id < 2 ^ 31)
    → Forks k c es ps
sys_exofork_copies k c [] ps cur used t v small =
    exofork-error k c [] ps no_free_env cur (env_alloc_takes k (k.envs c).env_id [] ps t v small)
sys_exofork_copies k c (e ∷ es) [] cur used t v small =
    exofork-error k c (e ∷ es) [] no_mem cur
      (env_alloc_takes k (k.envs c).env_id (e ∷ es) [] t v small)
sys_exofork_copies k c (e ∷ es) (p ∷ ps) cur used t v small =
    let made = env_alloc_takes k (k.envs c).env_id (e ∷ es) (p ∷ ps) t v small in
    let names = next_id_names (k.envs e).env_id e t.chain.1 (small e t.chain.1) in
    let id : ((forked c e p k).envs e).env_id ≡ next_id (k.envs e).env_id e = ground arith in
    (
      exofork-ok k c e p cur made.0,
      rw id names.1,
      rw id names.2,
      rw id names.0,
      ground arith,
      ground arith,
      ground (arith, t.chain.3),
      λ x ne. ground arith,
      record {
        chain =
            EnvChain-update (started e p (k.envs c).env_id k).envs e _ (k.envs e).env_link es
              t.chain.2 made.1.chain;
        all = λ x lt f. ground (arith, made.1.all x);
      },
      record { small = made.2.small; chain = made.2.chain; unlinked = made.2.unlinked },
    )
