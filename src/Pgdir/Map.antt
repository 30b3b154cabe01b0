-- ===== src/Pgdir/Map.antt =====
-- page_lookup, page_remove and page_insert of jos/kern/pmap.c where the directory has a table.
use cs444_operating_systems.Base.{
  ℕ, ◌*◌, ◌/◌, ◌%◌, ◌^◌, ◌<◌, ◌≡◌, false, none, some, ◌∷◌, arith, if◌then◌else◌, update,
}
use cs444_operating_systems.Mmu.Entry.{pte_addr_lem, has_flag_p}
use cs444_operating_systems.Kernel.{Kernel}
use cs444_operating_systems.Kernel.Run.{ok}
use cs444_operating_systems.Pages.Free.{decreffed, page_decref-ok}
use cs444_operating_systems.Pgdir.{in_use, page_lookup, tlb_invalidate, page_remove}
use cs444_operating_systems.Pgdir.Walk.{slot_of, HasTable, walk_to_table, pa2page-ok}

-- The table entry for `va`.
abbrev pub pte_of : ℕ → ℕ → (ℕ → ℕ) → ℕ
pte_of pgdir va m = m (slot_of pgdir va m)

pub lookup_absent :
    (k : Kernel) (pgdir va : ℕ)
    → HasTable k.npages pgdir va k.mem
    → pte_of pgdir va k.mem % 2 ≡ 0
    → page_lookup pgdir va k ≡ ok none k
unfolding page_lookup
lookup_absent k pgdir va t e =
    ground (arith, walk_to_table k pgdir va false t.reaches, has_flag_p (pte_of pgdir va k.mem))

-- A page is mapped at `va`.
pub record IsMapped (n pgdir va q : ℕ) (m : ℕ → ℕ) : Type 0 where
  pub table : HasTable n pgdir va m
  pub word : pte_of pgdir va m < 2 ^ 32
  pub present : pte_of pgdir va m % 2 ≡ 1
  pub page : pte_of pgdir va m / 4096 ≡ q
  pub exists : q < n

pub lookup_mapped :
    (k : Kernel) (pgdir va q : ℕ)
    → IsMapped k.npages pgdir va q k.mem
    → page_lookup pgdir va k ≡ ok (some (q, slot_of pgdir va k.mem)) k
unfolding page_lookup
lookup_mapped k pgdir va q m = ground (
  arith,
  walk_to_table k pgdir va false m.table.reaches,
  has_flag_p (pte_of pgdir va k.mem),
  pte_addr_lem (pte_of pgdir va k.mem),
  pa2page-ok k (pte_of pgdir va k.mem / 4096 * 4096),
)

-- The kernel after page_remove has dropped the page `q` from the entry at `va`.
abbrev pub removed : (pgdir va q : ℕ) → Kernel → Kernel
removed pgdir va q k =
    let d = decreffed q k in
    record d {
      mem = update d.mem (slot_of pgdir va k.mem) 0;
      invlpgs = if in_use pgdir k then va ∷ d.invlpgs else d.invlpgs;
    }

pub remove_absent :
    (k : Kernel) (pgdir va : ℕ)
    → HasTable k.npages pgdir va k.mem
    → pte_of pgdir va k.mem % 2 ≡ 0
    → page_remove pgdir va k ≡ ok tt k
unfolding page_remove
remove_absent k pgdir va t e = ground (arith, lookup_absent k pgdir va t e)

pub remove_mapped :
    (k : Kernel) (pgdir va q : ℕ)
    → IsMapped k.npages pgdir va q k.mem
    → 0 < (k.pages q).pp_ref
    → (k.pages q).pp_ref < 2 ^ 16
    → (k.pages q).pp_link ≡ none
    → page_remove pgdir va k ≡ ok tt (removed pgdir va q k)
unfolding page_remove tlb_invalidate
remove_mapped k pgdir va q m pos small link = ground (
  arith,
  lookup_mapped k pgdir va q m,
  has_flag_p (pte_of pgdir va k.mem),
  page_decref-ok k q pos small link,
)
