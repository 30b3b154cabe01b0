-- ===== src/Pgdir/Unmap.antt =====
-- page_remove of jos/kern/pmap.c where the directory has a table.
use cs444_operating_systems.Base.{
  ℕ, ◌+◌, ◌%◌, ◌≡◌, ◌⊎◌, inl, inr, refl, Option, none, some, List, ◌∷◌, arith, ◌==◌, if◌then◌else◌,
}
use cs444_operating_systems.Kernel.{Kernel}
use cs444_operating_systems.Kernel.Run.{ok}
use cs444_operating_systems.Pages.Free.{IsFree, decreffed, IsFree-decreffed}
use cs444_operating_systems.Pgdir.{in_use, page_lookup, page_remove}
use cs444_operating_systems.Pgdir.Walk.{pde_of, HasTable, walk_to_none}
use cs444_operating_systems.Pgdir.Map.{pte_of, removed, remove_mapped, remove_absent, lookup_absent}
use cs444_operating_systems.Pgdir.Insert.{Before, unmapped}
use cs444_operating_systems.Pgdir.Remap.{HasTable-write, mapping}

-- The free list after page_remove.
abbrev pub free_after : Kernel → List ℕ → Option ℕ → List ℕ
free_after k ps none = ps
free_after k ps (some q) = if (k.pages q).pp_ref == 1 then q ∷ ps else ps

-- The TLB entry is flushed exactly if something was mapped, in the address space in use.
abbrev pub flushes : (pgdir va : ℕ) → Option ℕ → Kernel → List ℕ
flushes pgdir va none k = k.invlpgs
flushes pgdir va (some q) k = if in_use pgdir k then va ∷ k.invlpgs else k.invlpgs

-- What is mapped at `va` before the call: nothing, with or without a table for it, or a page that has a
-- reference and is not free.
abbrev pub Stands : Kernel → (pgdir va : ℕ) → List ℕ → Option ℕ → Type 0
Stands k pgdir va ps none =
    (pde_of pgdir va k.mem % 2 ≡ 0)
    ⊎ (HasTable k.npages pgdir va k.mem × (pte_of pgdir va k.mem % 2 ≡ 0))
Stands k pgdir va ps (some q) = Before k pgdir va ps (some q)

lookup_tableless :
    (k : Kernel) (pgdir va : ℕ) → pde_of pgdir va k.mem % 2 ≡ 0 → page_lookup pgdir va k ≡ ok none k
unfolding page_lookup
lookup_tableless k pgdir va e = rw (walk_to_none k pgdir va e) refl

remove_tableless :
    (k : Kernel) (pgdir va : ℕ) → pde_of pgdir va k.mem % 2 ≡ 0 → page_remove pgdir va k ≡ ok tt k
unfolding page_remove
remove_tableless k pgdir va e = rw (lookup_tableless k pgdir va e) refl

-- After page_remove nothing is mapped at `va`. The page that was mapped has lost one reference, and
-- joins the free list if it was the last; no other counter changes. If nothing was mapped, with or
-- without a page table for `va`, nothing changes. The TLB entry of `va` is flushed if a page was mapped
-- and the address space is in use. The hypotheses: the free list holds the pages `ps`, a page table for
-- `va` exists and does not hold its own directory entry, and a page that is mapped at `va` exists, has a
-- reference and is not free.
pub page_remove_unmaps :
    (k : Kernel) (pgdir va : ℕ) (ps : List ℕ) (old : Option ℕ)
    → IsFree k ps
    → Stands k pgdir va ps old
    → let k' = unmapped pgdir va old k in
      (page_remove pgdir va k ≡ ok tt k')
      × (page_lookup pgdir va k' ≡ ok none k')
      × ((r : ℕ) → (k'.pages r).pp_ref + mapping old r ≡ (k.pages r).pp_ref)
      × IsFree k' (free_after k ps old)
      × (k'.invlpgs ≡ flushes pgdir va old k)
page_remove_unmaps k pgdir va ps none v (inl e) =
    (remove_tableless k pgdir va e, lookup_tableless k pgdir va e, λ r. omega arith, v, refl)
page_remove_unmaps k pgdir va ps none v (inr (t, b)) =
    (remove_absent k pgdir va t b, lookup_absent k pgdir va t b, λ r. omega arith, v, refl)
page_remove_unmaps k pgdir va ps (some q) v (m, pos, small, out) =
    let t = m.table in
    let k' = removed pgdir va q k in
    let f = IsFree-decreffed k q ps m.exists pos small out v in
    let same : (decreffed q k).mem ≡ k.mem = ground arith in
    let same_n : k'.npages ≡ k.npages = ground arith in
    let w = HasTable-write k.npages pgdir va 0 k.mem t in
    let w' : HasTable k'.npages pgdir va k'.mem = rw (same, same_n) w.0 in
    (
      remove_mapped k pgdir va q m pos small (v.unlinked q out),
      lookup_absent k' pgdir va w' (rw same (ground (arith, w.1))),
      λ r. ground arith,
      record { small = f.small; chain = f.chain; unlinked = f.unlinked },
      ground arith,
    )
