-- ===== src/Syscall/Target.antt =====
-- The environment that a system call of jos/kern/syscall.c is about.
use cs444_operating_systems.Base.{ℕ, ◌≡◌, ◌≢◌, ◌⊎◌, inl, inr, Bool, some, arith}
use cs444_operating_systems.Kernel.{Kernel}
use cs444_operating_systems.Kernel.Run.{Cmd, ok}
use cs444_operating_systems.Errors.{Ret, value}
use cs444_operating_systems.Env.{curenv_id, forbidden, envid2env}
use cs444_operating_systems.Env.Lookup.{Names}
use cs444_operating_systems.Syscall.{with_env}

-- The current environment `c` names environment `e`: itself by 0, or any by its id.
pub record Targets (k : Kernel) (c envid : ℕ) (checkperm : Bool) (e : ℕ) : Type 0 where
  pub current : k.curenv ≡ some c
  pub names : ((envid ≡ 0) × (e ≡ c)) ⊎ ((envid ≢ 0) × Names k c envid checkperm e)

pub envid2env-ok :
    (k : Kernel) (c envid : ℕ) (checkperm : Bool) (e : ℕ)
    → Targets k c envid checkperm e
    → envid2env envid checkperm k ≡ ok (value 0, some e) k
unfolding envid2env forbidden curenv_id
envid2env-ok k c envid checkperm e t = elim t.names [
  | inl (zero', same) ↦ ground (arith, t.current)
  | inr (nonzero, (at, used, id, allowed)) ↦ ground (arith, t.current)
]

pub with_env-ok :
    (k : Kernel) (c envid : ℕ) (checkperm : Bool) (e : ℕ) (f : ℕ → Cmd Ret)
    → Targets k c envid checkperm e
    → with_env envid checkperm f k ≡ f e k
unfolding with_env
with_env-ok k c envid checkperm e f t = rw (envid2env-ok k c envid checkperm e t)
