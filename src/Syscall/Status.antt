-- ===== src/Syscall/Status.antt =====
-- sys_env_set_status of jos/kern/syscall.c.
use cs444_operating_systems.Base.{
  ℕ, ◌≡◌, ◌≢◌, ◌⊎◌, inl, inr, true, ◌==◌, none, some, arith, if◌then◌else◌, update,
}
use cs444_operating_systems.Kernel.{Kernel, EnvStatus, runnable, not_runnable}
use cs444_operating_systems.Kernel.Run.{Run, ok}
use cs444_operating_systems.Errors.{Ret, value, error, bad_env, inval}
use cs444_operating_systems.Env.{envx, envid2env}
use cs444_operating_systems.Env.Lookup.{Names, envid2env_decides}
use cs444_operating_systems.Syscall.{with_env, sys_env_set_status}

abbrev pub restatused : (e : ℕ) → EnvStatus → Kernel → Kernel
restatused e s k = record k { envs = update k.envs e (record (k.envs e) { env_status = s }) }

-- How the call ends for an environment that the caller may change.
abbrev pub Restatus : Kernel → (e status : ℕ) → Run Ret → Type 0
Restatus k e status r =
    ((status ≡ 2) × (r ≡ ok (value 0) (restatused e runnable k)))
    ⊎ ((status ≡ 4) × (r ≡ ok (value 0) (restatused e not_runnable k)))
    ⊎ ((status ≢ 2) × (status ≢ 4) × (r ≡ ok (error inval) k))

named :
    (k : Kernel) (envid e status : ℕ)
    → envid2env envid true k ≡ ok (value 0, some e) k
    → sys_env_set_status envid status k ≡ (
        if status == 2
        then ok (value 0) (restatused e runnable k)
        else if status == 4
        then ok (value 0) (restatused e not_runnable k)
        else ok (error inval) k)
unfolding sys_env_set_status with_env
named k envid e status found = ground (arith, found)

unnamed :
    (k : Kernel) (envid status : ℕ)
    → envid2env envid true k ≡ ok (error bad_env, none) k
    → sys_env_set_status envid status k ≡ ok (error bad_env) k
unfolding sys_env_set_status with_env
unnamed k envid status lost = ground (arith, lost)

restatus :
    (k : Kernel) (envid e status : ℕ)
    → envid2env envid true k ≡ ok (value 0, some e) k
    → Restatus k e status (sys_env_set_status envid status k)
restatus k envid e status found = ground (arith, named k envid e status found)

-- sys_env_set_status lets a caller change an environment exactly if it is the caller or a child of
-- it, in use under that id: then ENV_RUNNABLE (2) and ENV_NOT_RUNNABLE (4) are set as its status,
-- and every other number gives -E_INVAL with nothing changed. For any other id the call returns
-- -E_BAD_ENV and changes nothing.
pub sys_env_set_status_decides :
    (k : Kernel) (c envid status : ℕ)
    → k.curenv ≡ some c
    → envid ≢ 0
    → (Names k c envid true (envx envid)
        × Restatus k (envx envid) status (sys_env_set_status envid status k))
      ⊎ (((e : ℕ) → ¬ (Names k c envid true e))
          × (sys_env_set_status envid status k ≡ ok (error bad_env) k))
sys_env_set_status_decides k c envid status cur ne =
    elim (envid2env_decides k c envid true cur ne) [
      | inl (names, found) ↦ inl (names, restatus k envid (envx envid) status found)
      | inr (nobody, lost) ↦ inr (nobody, unnamed k envid status lost)
    ]
