-- ===== src/Env.antt =====
-- The table of environments: envid2env, env_init, env_setup_vm and env_alloc of jos/kern/env.c.
-- A `struct Env *` is the index of the environment.
pub mod Alloc
pub mod Lookup
pub mod FreeList
pub mod Ids
pub mod Space
pub mod Grow
use cs444_operating_systems.Base.{
  ℕ, zero, suc, ◌+◌, ◌-◌, ◌*◌, ◌%◌, ◌^◌, Option, none, some, Bool, true, false, not, ◌||◌, ◌&&◌,
  ◌==◌, leb, if◌then◌else◌, bit_and, bit_or, update,
}
use cs444_operating_systems.Mmu.{u32, utop, ulim, ptsize, pdx, pte_p, pte_u}
use cs444_operating_systems.Kernel.{Kernel, Env, EnvStatus, free, runnable, Trapframe, zero_tf}
use cs444_operating_systems.Kernel.Run.{
  Cmd, pure, fail, ◌>>=◌, ◌>>◌, gets, modify, load, store, set_page, set_env,
}
use cs444_operating_systems.Errors.{Ret, value, error, bad_env, no_mem, no_free_env}
use cs444_operating_systems.Pages.{alloc_zero, inc_ref, paddr, page2kva, page_alloc}
use cs444_operating_systems.Pgdir.{entry_at}

abbrev pub nenv : ℕ
nenv = 1024

unfoldable pub envx : ℕ → ℕ
envx envid = bit_and envid (nenv - 1)

abbrev pub is_free : EnvStatus → Bool
is_free free = true
is_free _ = false

abbrev pub is_env : ℕ → Option ℕ → Bool
is_env e none = false
is_env e (some c) = e == c

-- The value of `curenv->env_id`; a read through NULL faults in the kernel, which panics.
unfoldable pub curenv_id : Cmd ℕ
curenv_id = do
  cur ← gets λ k. k.curenv
  elim cur [ none ↦ fail | some c ↦ gets λ k. (k.envs c).env_id ]

-- `checkperm && e != curenv && e->env_parent_id != curenv->env_id`
unfoldable pub forbidden : Bool → ℕ → Cmd Bool
forbidden checkperm e = do
  cur ← gets λ k. k.curenv
  if checkperm && not (is_env e cur)
      then (do
        id ← curenv_id
        parent ← gets λ k. (k.envs e).env_parent_id
        pure (not (parent == id)))
      else pure false

-- The int that is returned, and what is stored through `env_store`.
unfoldable pub envid2env : ℕ → Bool → Cmd (Ret × Option ℕ)
envid2env envid checkperm = do
  cur ← gets λ k. k.curenv
  if envid == 0 then pure (value 0, cur) else do
    env ← gets λ k. k.envs (envx envid)
    if is_free env.env_status || not (env.env_id == envid) then pure (error bad_env, none) else do
      deny ← forbidden checkperm (envx envid)
      if deny then pure (error bad_env, none) else pure (value 0, some (envx envid))

-- The loop of env_init over the indices below the first argument, the last one first.
unfoldable pub init_below : ℕ → Cmd (Unit {0})
init_below zero = pure tt
init_below (suc i) = do
  head ← gets λ k. k.env_free_list
  set_env i λ e. record e { env_id = 0; env_status = free; env_link = head }
  modify λ k. record k { env_free_list = some i }
  init_below i

-- Without env_init_percpu, which loads segment registers.
unfoldable pub env_init : Cmd (Unit {0})
env_init = do modify λ k. record k { env_free_list = none }; init_below nenv

-- `env_pgdir[x] = kern_pgdir[x]` for `rounds` entries from `x` on.
unfoldable pub copy_entries : ℕ → (pgdir from x : ℕ) → (ℕ → ℕ) → ℕ → ℕ
copy_entries zero pgdir from x m = m
copy_entries (suc rounds) pgdir from x m =
    copy_entries rounds pgdir from (x + 1) (update m (entry_at pgdir x) (m (entry_at from x)))

abbrev pub uvpt : ℕ
uvpt = ulim - ptsize

unfoldable pub env_setup_vm : ℕ → Cmd Ret
env_setup_vm e = do
  p ← page_alloc alloc_zero
  elim p [
    | none ↦ pure (error no_mem)
    | some p ↦ do
      pgdir ← page2kva p
      set_env e λ env. record env { env_pgdir = pgdir }
      set_page p inc_ref
      modify
          λ k. record k { mem = copy_entries (1024 - pdx utop) pgdir k.kern_pgdir (pdx utop) k.mem }
      pa ← paddr pgdir
      store (entry_at pgdir (pdx uvpt)) (bit_or (bit_or pa pte_p) pte_u)
      pure (value 0)
  ]

abbrev pub envgenshift : ℕ
envgenshift = 12

-- Is the int32_t with this bit pattern at most 0?
abbrev pub nonpositive : ℕ → Bool
nonpositive n = n == 0 || leb (2 ^ 31) n

-- The id of environment `e` whose last one was `env_id`.
unfoldable pub next_id : ℕ → ℕ → ℕ
next_id env_id e =
    let generation = bit_and (u32 (env_id + 2 ^ envgenshift)) (2 ^ 32 - nenv) in
    bit_or (if nonpositive generation then 2 ^ envgenshift else generation) e

abbrev pub gd_ut : ℕ
gd_ut = 0x18

abbrev pub gd_ud : ℕ
gd_ud = 0x20

abbrev pub ustacktop : ℕ
ustacktop = utop - 2 * 4096

abbrev pub fl_if : ℕ
fl_if = 0x200

-- The registers of a new environment.
abbrev pub fresh_tf : Trapframe
fresh_tf = record zero_tf {
  tf_ds = bit_or gd_ud 3;
  tf_es = bit_or gd_ud 3;
  tf_ss = bit_or gd_ud 3;
  tf_esp = ustacktop;
  tf_cs = bit_or gd_ut 3;
  tf_eflags = bit_or 0 fl_if;
}

abbrev pub fresh_env : (e parent_id : ℕ) → Env → Env
fresh_env e parent_id env = record env {
  env_id = next_id env.env_id e;
  env_parent_id = parent_id;
  env_type = 0;
  env_status = runnable;
  env_runs = 0;
  env_tf = fresh_tf;
  env_pgfault_upcall = 0;
  env_ipc_recving = false;
}

-- The int that is returned, and what is stored through `newenv_store` (`none` if nothing is).
unfoldable pub env_alloc : ℕ → Cmd (Ret × Option ℕ)
env_alloc parent_id = do
  head ← gets λ k. k.env_free_list
  elim head [
    | none ↦ pure (error no_free_env, none)
    | some e ↦ do
      r ← env_setup_vm e
      elim r [
        | error code ↦ pure (error code, none)
        | value n ↦ do
          set_env e (fresh_env e parent_id)
          modify λ k. record k { env_free_list = (k.envs e).env_link }
          pure (value 0, some e)
      ]
  ]
