-- ===== src/UserMem.antt =====
-- user_mem_check of jos/kern/pmap.c: may a user program access `[va, va + len)`?
pub mod Exact
pub mod Overflow
use cs444_operating_systems.Base.{
  ℕ, zero, suc, ◌+◌, ◌^◌, Option, none, some, Bool, true, false, not, ◌||◌, ◌==◌, leb, ltb,
  if◌then◌else◌, bit_and,
}
use cs444_operating_systems.Mmu.{u32, pgsize, ulim, round_down, round_up, has_flag, pte_p}
use cs444_operating_systems.Kernel.{Kernel, Env}
use cs444_operating_systems.Kernel.Run.{Cmd, pure, out_of_fuel, ◌>>=◌, ◌>>◌, gets, modify}
use cs444_operating_systems.Errors.{Ret, value, error, segfault}
use cs444_operating_systems.Pgdir.{pgdir_walk}

-- `(pp == NULL) || (start_va >= ULIM) || !(*pp & PTE_P) || ((*pp & perm) != perm)`
abbrev pub refuses : Option ℕ → (start perm : ℕ) → (ℕ → ℕ) → Bool
refuses none start perm m = true
refuses (some p) start perm m =
    leb ulim start || not (has_flag (m p) pte_p) || not (bit_and (m p) perm == perm)

-- The loop from `start_va` on. The first number bounds the rounds.
unfoldable pub check_from : ℕ → (pgdir va perm start end : ℕ) → Cmd Ret
check_from zero pgdir va perm start end = λ k. out_of_fuel
check_from (suc n) pgdir va perm start end =
    let next = check_from n pgdir va perm (u32 (start + pgsize)) end in
    if ltb start end
    then (do
      pp ← pgdir_walk pgdir start false
      bad ← gets λ k. refuses pp start perm k.mem
      if bad
          then (do
            modify λ k. record k { user_mem_check_addr = if ltb start va then va else start }
            pure (error segfault))
          else next)
    else pure (value 0)

-- There are at most 2 ^ 20 pages.
unfoldable pub user_mem_check : (env va len perm : ℕ) → Cmd Ret
user_mem_check env va len perm = do
  e ← gets λ k. k.envs env
  check_from (2 ^ 20 + 1) e.env_pgdir va perm (round_down va pgsize)
      (round_up (u32 (va + len)) pgsize)
