-- ===== src/Mmu/Rounding.antt =====
-- ROUNDDOWN and ROUNDUP of jos/inc/types.h.
use cs444_operating_systems.Base.{ℕ, ◌+◌, ◌-◌, ◌*◌, ◌/◌, ◌%◌, ◌^◌, ◌≤◌, ◌<◌, ◌≡◌, arith}
use cs444_operating_systems.Mmu.{pgsize, round_down, round_up}

-- Without overflow ROUNDUP(a, PGSIZE) is the least page boundary from `a` on, and ROUNDDOWN the
-- greatest one up to `a`.
pub round_page :
    (a : ℕ)
    → a + pgsize ≤ 2 ^ 32
    → (a ≤ round_up a pgsize)
      × (round_up a pgsize < a + pgsize)
      × (round_up a pgsize % pgsize ≡ 0)
      × (round_down a pgsize ≤ a)
      × (a < round_down a pgsize + pgsize)
      × (round_down a pgsize % pgsize ≡ 0)
unfolding round_up
round_page a h = omega arith

-- In the last page of the address space ROUNDUP(a, PGSIZE) of an unaligned address wraps to 0.
pub round_up_wraps : (a : ℕ) → a < 2 ^ 32 → 2 ^ 32 - pgsize < a → round_up a pgsize ≡ 0
unfolding round_up
round_up_wraps a h last = omega arith

pub round_down-div : (a : ℕ) → round_down a pgsize ≡ a / pgsize * pgsize
unfolding round_down
round_down-div a = omega arith

pub round_up-div : (a : ℕ) → a + pgsize ≤ 2 ^ 32 → round_up a pgsize ≡ (a + 4095) / pgsize * pgsize
unfolding round_up
round_up-div a h = omega arith
