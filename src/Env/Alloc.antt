-- ===== src/Env/Alloc.antt =====
-- env_alloc of jos/kern/env.c.
use cs444_operating_systems.Base.{ℕ, ◌^◌, ◌<◌, ◌≡◌, false, none, some, List, [], ◌∷◌, arith, update}
use cs444_operating_systems.Kernel.{Kernel, runnable}
use cs444_operating_systems.Kernel.Run.{ok}
use cs444_operating_systems.Errors.{value, error, no_mem, no_free_env}
use cs444_operating_systems.Pages.Free.{IsFree}
use cs444_operating_systems.Env.{nenv, forbidden, envid2env, next_id, fresh_env, env_alloc}
use cs444_operating_systems.Env.Ids.{next_id_names}
use cs444_operating_systems.Env.FreeList.{IsTable, EnvChain-update}
use cs444_operating_systems.Env.Space.{
  spaced, env_setup_vm-ok, env_setup_vm-exhausted, IsFree-spaced,
}

-- The kernel after env_alloc has taken environment `e` and page `p`.
abbrev pub started : (e p parent_id : ℕ) → Kernel → Kernel
started e p parent_id k =
    let s = spaced e p k in
    record s {
      envs = update s.envs e (fresh_env e parent_id (s.envs e));
      env_free_list = (k.envs e).env_link;
    }

pub env_alloc-ok :
    (k : Kernel) (e p parent_id : ℕ) (ps : List ℕ)
    → k.env_free_list ≡ some e
    → IsFree k (p ∷ ps)
    → env_alloc parent_id k ≡ ok (value 0, some e) (started e p parent_id k)
unfolding env_alloc
env_alloc-ok k e p parent_id ps head v = ground (arith, env_setup_vm-ok k e p ps v)

pub IsTable-started :
    (k : Kernel) (e p parent_id : ℕ) (es : List ℕ)
    → IsTable k (e ∷ es)
    → IsTable (started e p parent_id k) es
IsTable-started k e p parent_id es t = record {
  chain =
      EnvChain-update (spaced e p k).envs e _ (k.envs e).env_link es t.chain.2
        (EnvChain-update k.envs e _ (k.envs e).env_link es t.chain.2 t.chain.4);
  all = λ x lt f. ground (arith, t.all x);
}

finds :
    (k : Kernel) (e p parent_id : ℕ)
    → e < nenv
    → (k.envs e).env_id < 2 ^ 31
    → envid2env (next_id (k.envs e).env_id e) false (started e p parent_id k)
      ≡ ok (value 0, some e) (started e p parent_id k)
unfolding envid2env forbidden
finds k e p parent_id lt small = ground (arith, next_id_names (k.envs e).env_id e lt small)

-- What env_alloc does, by the free environments and the free pages.
abbrev pub Allocs : Kernel → ℕ → List ℕ → List ℕ → Type 0
Allocs k parent_id [] ps = env_alloc parent_id k ≡ ok (error no_free_env, none) k
Allocs k parent_id (e ∷ es) [] = env_alloc parent_id k ≡ ok (error no_mem, none) k
Allocs k parent_id (e ∷ es) (p ∷ ps) =
    let k' = started e p parent_id k in
    (env_alloc parent_id k ≡ ok (value 0, some e) k')
    × IsTable k' es
    × IsFree k' ps
    × ((k'.envs e).env_status ≡ runnable)
    × ((k'.envs e).env_parent_id ≡ parent_id)
    × (envid2env (k'.envs e).env_id false k' ≡ ok (value 0, some e) k')

-- env_alloc takes the first free environment and the first free page: the environment is runnable
-- with the given parent, envid2env finds it by its new id, and the rest of both lists stays free.
-- With no free environment it returns -E_NO_FREE_ENV, else with no free page -E_NO_MEM, and then
-- nothing has changed. The hypothesis on ids: none in the table is negative.
pub env_alloc_takes :
    (k : Kernel) (parent_id : ℕ) (es ps : List ℕ)
    → IsTable k es
    → IsFree k ps
    → ((e : ℕ) → e < nenv → (k.envs e).env_id < 2 ^ 31)
    → Allocs k parent_id es ps
unfolding env_alloc
env_alloc_takes k parent_id [] ps t v small = ground arith
env_alloc_takes k parent_id (e ∷ es) [] t v small = ground (arith, env_setup_vm-exhausted k e v)
env_alloc_takes k parent_id (e ∷ es) (p ∷ ps) t v small =
    let f = IsFree-spaced k e p ps v in
    let id : ((started e p parent_id k).envs e).env_id ≡ next_id (k.envs e).env_id e =
      ground arith in
    (
      env_alloc-ok k e p parent_id ps t.chain.0 v,
      IsTable-started k e p parent_id es t,
      record { small = f.small; chain = f.chain; unlinked = f.unlinked },
      ground arith,
      ground arith,
      rw id (finds k e p parent_id t.chain.1 (small e t.chain.1)),
    )
