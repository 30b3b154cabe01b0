-- ===== src/Env/Grow.antt =====
-- region_alloc of jos/kern/env.c.
pub mod Round
pub mod Pages
pub mod Region
use cs444_operating_systems.Base.{ℕ, zero, suc, ◌+◌, ◌^◌, true, false, none, some, ltb, bit_or}
use cs444_operating_systems.Mmu.{u32, pgsize, pte_w, pte_u, round_down, round_up}
use cs444_operating_systems.Kernel.{Kernel}
use cs444_operating_systems.Kernel.Run.{Cmd, pure, fail, out_of_fuel, ◌>>=◌, ◌>>◌, gets}
use cs444_operating_systems.Pages.{alloc_zero, page_alloc}
use cs444_operating_systems.Pgdir.{page_insert}

-- The loop from `y` to `x`. The first number bounds the rounds.
unfoldable pub grow : ℕ → (e y x : ℕ) → Cmd (Unit {0})
grow zero e y x = λ k. out_of_fuel
grow (suc rounds) e y x = elim (ltb y x) [
  | false ↦ pure tt
  | true ↦ do
    new ← page_alloc alloc_zero
    elim new [
      | none ↦ fail
      | some pp ↦ do
        pgdir ← gets λ k. (k.envs e).env_pgdir
        ignored ← page_insert pgdir pp y (bit_or pte_u pte_w)
        grow rounds e (u32 (y + pgsize)) x
    ]
]

unfoldable pub region_alloc : (e va len : ℕ) → Cmd (Unit {0})
region_alloc e va len =
    grow (2 ^ 20 + 1) e (round_down va pgsize) (round_up (u32 (va + len)) pgsize)
