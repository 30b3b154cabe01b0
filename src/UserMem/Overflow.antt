-- ===== src/UserMem/Overflow.antt =====
-- user_mem_check of jos/kern/pmap.c on a range that wraps round the end of the address space.
use cs444_operating_systems.Base.{ℕ, ◌+◌, ◌*◌, ◌/◌, ◌^◌, ◌≤◌, ◌<◌, ◌≡◌, arith, suc}
use cs444_operating_systems.Mmu.{u32, pgsize, round_down, round_up}
use cs444_operating_systems.Kernel.{Kernel}
use cs444_operating_systems.Kernel.Run.{ok}
use cs444_operating_systems.Errors.{value}
use cs444_operating_systems.UserMem.{check_from, user_mem_check}

check_none :
    (n : ℕ) (k : Kernel) (pgdir va perm start end : ℕ)
    → end ≤ start
    → check_from (suc n) pgdir va perm start end k ≡ ok (value 0) k
unfolding check_from
check_none n k pgdir va perm start end h = ground arith

-- If `va + len` overflows 32 bits to an address at most that of the page of `va`, user_mem_check
-- returns 0 whatever is mapped there: it tests no page.
pub user_mem_check_wraps :
    (k : Kernel) (env va len perm : ℕ)
    → va < 2 ^ 32
    → len < 2 ^ 32
    → 2 ^ 32 ≤ va + len
    → va + len ≤ 2 ^ 32 + va / pgsize * pgsize
    → user_mem_check env va len perm k ≡ ok (value 0) k
unfolding user_mem_check round_down round_up
user_mem_check_wraps k env va len perm hv hl over back =
    check_none (2 ^ 20) k (k.envs env).env_pgdir va perm (round_down va pgsize)
      (round_up (u32 (va + len)) pgsize) (omega arith)
