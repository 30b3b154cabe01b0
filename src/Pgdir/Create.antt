-- ===== src/Pgdir/Create.antt =====
-- pgdir_walk of jos/kern/pmap.c where the table is missing.
use cs444_operating_systems.Base.{
  ℕ, ◌+◌, ◌*◌, ◌%◌, ◌<◌, ◌≡◌, Bool, true, none, some, List, [], ◌∷◌, arith,
}
use cs444_operating_systems.Mmu.{kernbase, ptx}
use cs444_operating_systems.Mmu.Entry.{has_flag_p}
use cs444_operating_systems.Kernel.{Kernel}
use cs444_operating_systems.Kernel.Run.{ok}
use cs444_operating_systems.Pages.{alloc_zero}
use cs444_operating_systems.Pages.Free.{IsFree}
use cs444_operating_systems.Pages.Stack.{page_alloc_pops}
use cs444_operating_systems.Pgdir.{entry_at, add_table, pgdir_walk}
use cs444_operating_systems.Pgdir.Walk.{
  pde_of, slot_of, IsDir, tabled, walk_to_table, walk_adds_table, HasTable-tabled, IsFree-tabled,
  tabled-zero,
}

pub walk_exhausted :
    (k : Kernel) (pgdir va : ℕ)
    → IsFree k []
    → pde_of pgdir va k.mem % 2 ≡ 0
    → pgdir_walk pgdir va true k ≡ ok none k
unfolding pgdir_walk add_table
walk_exhausted k pgdir va v e =
    ground (arith, has_flag_p (pde_of pgdir va k.mem), page_alloc_pops k alloc_zero [] v)

-- What a walk that may create a table does, by the free list.
abbrev pub Creates : Kernel → ℕ → ℕ → List ℕ → Type 0
Creates k pgdir va [] = pgdir_walk pgdir va true k ≡ ok none k
Creates k pgdir va (p ∷ ps) =
    let k' = tabled pgdir va p k in
    (pgdir_walk pgdir va true k ≡ ok (some (slot_of pgdir va k'.mem)) k')
    × IsFree k' ps
    × ((k'.pages p).pp_ref ≡ 1)
    × ((i : ℕ) → i < 1024 → k'.mem (entry_at (p * 4096 + kernbase) i) ≡ 0)
    × ((create : Bool) → pgdir_walk pgdir va create k' ≡ ok (some (slot_of pgdir va k'.mem)) k')

-- Where the directory has no table for `va`, pgdir_walk with `create` takes the first free page for
-- one: the page has one reference, its 1024 entries are 0, the rest of the free list stays free,
-- and every later walk for `va` ends at the same entry. With no free page it returns NULL and
-- changes nothing. The hypothesis: the page directory itself is not a free page.
pub pgdir_walk-Creates :
    (k : Kernel) (pgdir va d : ℕ) (ps : List ℕ)
    → IsFree k ps
    → IsDir d pgdir ps
    → pde_of pgdir va k.mem % 2 ≡ 0
    → Creates k pgdir va ps
pgdir_walk-Creates k pgdir va d [] v dir e = walk_exhausted k pgdir va v e
pgdir_walk-Creates k pgdir va d (p ∷ ps) v dir e =
    let at : slot_of pgdir va (tabled pgdir va p k).mem ≡ entry_at (p * 4096 + kernbase) (ptx va) =
      ground arith in
    (
      rw at (walk_adds_table k pgdir va p ps v e),
      IsFree-tabled k pgdir va p ps v,
      ground arith,
      λ i lt. tabled-zero k pgdir va d p i ps dir lt,
      λ create.
          walk_to_table (tabled pgdir va p k) pgdir va create
            (HasTable-tabled k pgdir va d p ps v dir).reaches,
    )
