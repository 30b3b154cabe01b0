-- ===== src/Env/Grow/Region.antt =====
-- The loop of region_alloc in jos/kern/env.c.
use cs444_operating_systems.Base.{
  ℕ, zero, suc, ◌+◌, ◌-◌, ◌*◌, ◌/◌, ◌^◌, ◌≤◌, ◌<◌, ◌≡◌, refl, true, List, [], ◌∷◌, ltb, arith, ap,
  ◌∙◌,
}
use cs444_operating_systems.Mmu.{u32, pgsize, round_up}
use cs444_operating_systems.Mmu.Rounding.{round_down-div, round_up-div}
use cs444_operating_systems.Kernel.{Kernel}
use cs444_operating_systems.Kernel.Run.{Run, ok}
use cs444_operating_systems.Pages.{alloc_zero}
use cs444_operating_systems.Pages.Free.{IsFree, page_alloc-some}
use cs444_operating_systems.Env.Grow.{grow, region_alloc}
use cs444_operating_systems.Env.Grow.Round.{HasRoom, grown, insert_grows, HasRoom-grown}
use cs444_operating_systems.Env.Grow.Pages.{
  left, AreMapped, Keeps, head_mapped, head_clear, head_count, Keeps-round,
}

-- What the loop ends with.
record Grows (k : Kernel) (pgdir va n : ℕ) (ps : List ℕ) (r : Run (Unit {0})) : Type 0 where
  final : Kernel
  ends : r ≡ ok tt final
  mapped : AreMapped pgdir va n ps final
  keeps : Keeps k final pgdir va n ps
  free_list : IsFree final (left n ps)

grow_round :
    (k : Kernel) (rounds e va x d n p : ℕ) (ps : List ℕ)
    → (room : HasRoom k d (k.envs e).env_pgdir va (suc n) (p ∷ ps)) → va < x
    → grow (suc rounds) e va x k
      ≡ grow rounds e (u32 (va + 4096)) x (grown k d (k.envs e).env_pgdir va n p ps room)
unfolding grow
grow_round k rounds e va x d n p ps room lt =
    let f = room.free_list in
    let more : ltb va x ≡ true = ground arith in
    rw
      (
        grow,
        more,
        page_alloc-some k alloc_zero p f.small f.chain.0 f.chain.1,
        (insert_grows k d (k.envs e).env_pgdir va n p ps room).0,
      )
      refl

Keeps-refl : (k : Kernel) (pgdir va : ℕ) (ps : List ℕ) → Keeps k k pgdir va 0 ps
Keeps-refl k pgdir va ps = record { words = λ a away ne. refl; counts = λ r out. refl }

loop :
    (k : Kernel) (rounds e va x d n : ℕ) (ps : List ℕ)
    → HasRoom k d (k.envs e).env_pgdir va n ps
    → va + n * 4096 ≡ x
    → x < 2 ^ 32
    → n < rounds
    → Grows k (k.envs e).env_pgdir va n ps (grow rounds e va x k)
unfolding grow
loop k zero e va x d n ps room at fits lt = absurd (omega (arith, lt))
loop k (suc rounds) e va x d zero ps room at fits lt = record {
  final = k;
  ends = ground arith;
  mapped = tt;
  keeps = Keeps-refl k _ va ps;
  free_list = room.free_list;
}
loop k (suc rounds) e va x d (suc n) [] room at fits lt = absurd (omega (arith, room.enough))
loop k (suc rounds) e va x d (suc n) (p ∷ ps) room at fits lt =
    let pgdir = (k.envs e).env_pgdir in
    let g = grown k d pgdir va n p ps room in
    let next : u32 (va + 4096) ≡ va + 4096 = omega arith in
    let r =
      loop g rounds e (va + 4096) x d n ps (HasRoom-grown k d pgdir va n p ps room) (omega arith)
        fits (omega (arith, lt)) in
    record {
      final = r.final;
      ends =
          grow_round k rounds e va x d n p ps room (omega arith)
          ∙ ap (λ (y : ℕ). grow rounds e y x g) next
          ∙ r.ends;
      mapped = (
        head_mapped k d pgdir va n p ps room r.final r.keeps,
        head_clear k d pgdir va n p ps room r.final r.keeps,
        head_count k d pgdir va n p ps room r.final r.keeps,
        r.mapped,
      );
      keeps = Keeps-round k d pgdir va n p ps room r.final r.keeps;
      free_list = r.free_list;
    }

-- region_alloc of a region that ends before the last page of the address space, where enough pages are
-- free: it returns, and the `n` pages from ROUNDDOWN(va) up to ROUNDUP(va + len) are mapped, in order,
-- to the first `n` free pages, for the user to read and write; each of them has one reference, and is
-- cleared, though the comment on region_alloc denies it. The pages
-- behind them on the free list stay free. No other word changes but in free pages and the entries of
-- the region, and no counter of a page that was not free. The hypotheses: for each page of the region
-- the directory has a table in which nothing is mapped there, the directory and the tables are in pages
-- that are not free, and the entries are different words apart from the directory.
pub region_alloc_maps :
    (k : Kernel) (e va len d n : ℕ) (ps : List ℕ)
    → HasRoom k d (k.envs e).env_pgdir (va / 4096 * 4096) n ps
    → va + len + 4096 ≤ 2 ^ 32
    → n ≡ (va + len + 4095) / 4096 - va / 4096
    → (k' : Kernel) × (region_alloc e va len k ≡ ok tt k')
      × AreMapped (k.envs e).env_pgdir (va / 4096 * 4096) n ps k'
      × Keeps k k' (k.envs e).env_pgdir (va / 4096 * 4096) n ps
      × IsFree k' (left n ps)
unfolding region_alloc
region_alloc_maps k e va len d n ps room fits count =
    let end : round_up (u32 (va + len)) pgsize ≡ (va + len + 4095) / 4096 * 4096 =
      ap (λ (a : ℕ). round_up a pgsize) (omega arith) ∙ round_up-div (va + len) fits in
    let r =
      loop k (2 ^ 20 + 1) e (va / 4096 * 4096) ((va + len + 4095) / 4096 * 4096) d n ps room
        (omega arith) (omega arith) (omega arith) in
    (
      r.final,
      ap (λ (y : ℕ). grow (2 ^ 20 + 1) e y (round_up (u32 (va + len)) pgsize) k) (round_down-div va)
          ∙ ap (λ (x : ℕ). grow (2 ^ 20 + 1) e (va / 4096 * 4096) x k) end
          ∙ r.ends,
      r.mapped,
      r.keeps,
      r.free_list,
    )
