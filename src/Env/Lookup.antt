-- ===== src/Env/Lookup.antt =====
-- envid2env of jos/kern/env.c.
use cs444_operating_systems.Base.{
  ℕ, ◌≡◌, ◌≢◌, ◌⊎◌, inl, inr, refl, true, false, not, ◌||◌, ◌&&◌, none, some, Bool, arith,
  Bool-cases, ◌==◌, if◌then◌else◌,
}
use mathlib.Core.Path.{subst}
use cs444_operating_systems.Kernel.{Kernel, free}
use cs444_operating_systems.Kernel.Run.{ok}
use cs444_operating_systems.Errors.{value, error, bad_env}
use cs444_operating_systems.Env.{envx, is_free, curenv_id, forbidden, envid2env}

-- May the environment `c` name environment `e` by `envid`? It is in use under that very id and, if
-- permission is checked, it is `c` itself or a child of it.
abbrev pub Names : Kernel → (c envid : ℕ) → Bool → ℕ → Type 0
Names k c envid checkperm e =
    (e ≡ envx envid)
    × ((k.envs e).env_status ≢ free)
    × ((k.envs e).env_id ≡ envid)
    × ((checkperm ≡ false) ⊎ (e ≡ c) ⊎ ((k.envs e).env_parent_id ≡ (k.envs c).env_id))

abbrev may_name : Kernel → (c envid : ℕ) → Bool → Bool
may_name k c envid checkperm =
    not (is_free (k.envs (envx envid)).env_status)
    && (k.envs (envx envid)).env_id == envid
    && (not checkperm
        || envx envid == c
        || (k.envs (envx envid)).env_parent_id == (k.envs c).env_id)

envid2env_by_test :
    (k : Kernel) (c envid : ℕ) (checkperm : Bool)
    → k.curenv ≡ some c
    → envid ≢ 0
    → envid2env envid checkperm k
      ≡ ok
          (if may_name k c envid checkperm
            then (value 0, some (envx envid))
            else (error bad_env, none))
          k
unfolding envid2env forbidden curenv_id
envid2env_by_test k c envid checkperm cur ne = ground arith

may_name-Names :
    (k : Kernel) (c envid : ℕ) (checkperm : Bool)
    → may_name k c envid checkperm ≡ true
    → Names k c envid checkperm (envx envid)
may_name-Names k c envid checkperm h = (refl, ground arith, ground arith, ground arith)

Names-may_name :
    (k : Kernel) (c envid : ℕ) (checkperm : Bool)
    → Names k c envid checkperm (envx envid)
    → may_name k c envid checkperm ≡ true
Names-may_name k c envid checkperm (_, used, id, allowed) = ground arith

-- For an id that is not 0, envid2env changes nothing and returns 0 with an environment exactly if
-- the current one may name that environment by the id, and -E_BAD_ENV with NULL otherwise.
pub envid2env_decides :
    (k : Kernel) (c envid : ℕ) (checkperm : Bool)
    → k.curenv ≡ some c
    → envid ≢ 0
    → (Names k c envid checkperm (envx envid)
        × (envid2env envid checkperm k ≡ ok (value 0, some (envx envid)) k))
      ⊎ (((e : ℕ) → ¬ (Names k c envid checkperm e))
          × (envid2env envid checkperm k ≡ ok (error bad_env, none) k))
envid2env_decides k c envid checkperm cur ne = elim (Bool-cases (may_name k c envid checkperm)) [
  | inl yes' ↦ inl (may_name-Names k c envid checkperm yes', rw by_test (rw yes'))
  | inr no' ↦ inr (
    λ e n. cc (Names-may_name k c envid checkperm (subst (Names k c envid checkperm) n.0 n)),
    rw by_test (rw no'),
  )
]
  where
    by_test :
        envid2env envid checkperm k
        ≡ ok
            (if may_name k c envid checkperm
              then (value 0, some (envx envid))
              else (error bad_env, none))
            k
    by_test = envid2env_by_test k c envid checkperm cur ne
