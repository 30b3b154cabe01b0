-- ===== src/Pgdir/Insert.antt =====
-- page_insert of jos/kern/pmap.c where the directory has a table.
use cs444_operating_systems.Base.{
  ℕ, ◌+◌, ◌*◌, ◌%◌, ◌^◌, ◌<◌, ◌≡◌, true, false, Option, none, some, List, arith, update, bit_or,
}
use cs444_operating_systems.Mmu.{pte_p}
use cs444_operating_systems.Mmu.Entry.{has_flag_p, entry-sum}
use cs444_operating_systems.Kernel.{Kernel}
use cs444_operating_systems.Kernel.Run.{ok}
use cs444_operating_systems.Errors.{value}
use cs444_operating_systems.Pages.{inc_ref, page2pa}
use cs444_operating_systems.Pages.Free.{has, IsFree, Chain-update}
use cs444_operating_systems.Pgdir.{page_insert}
use cs444_operating_systems.Pgdir.Walk.{slot_of, HasTable, walk_to_table}
use cs444_operating_systems.Pgdir.Map.{pte_of, IsMapped, removed, remove_mapped}

-- One more reference to `pp`.
abbrev pub bumped : ℕ → Kernel → Kernel
bumped pp k = record k { pages = update k.pages pp (inc_ref (k.pages pp)) }

-- The entry for `va` is written.
abbrev pub written : (pgdir va pte : ℕ) → Kernel → Kernel
written pgdir va pte k = record k { mem = update k.mem (slot_of pgdir va k.mem) pte }

pub IsFree-bumped :
    (k : Kernel) (p : ℕ) (ps : List ℕ) → has p ps ≡ false → IsFree k ps → IsFree (bumped p k) ps
IsFree-bumped k p ps out v = record {
  small = v.small;
  chain = Chain-update k.npages k.pages p _ _ ps out v.chain;
  unlinked = λ q o. ground (arith, v.unlinked q);
}

-- What is mapped at `va` before the call: nothing, or a page with a reference that is not free.
abbrev pub Before : Kernel → (pgdir va : ℕ) → List ℕ → Option ℕ → Type 0
Before k pgdir va ps none = pte_of pgdir va k.mem % 2 ≡ 0
Before k pgdir va ps (some q) =
    IsMapped k.npages pgdir va q k.mem
    × (0 < (k.pages q).pp_ref)
    × ((k.pages q).pp_ref < 2 ^ 16)
    × (has q ps ≡ false)

abbrev pub unmapped : (pgdir va : ℕ) → Option ℕ → Kernel → Kernel
unmapped pgdir va none k = k
unmapped pgdir va (some q) k = removed pgdir va q k

-- The kernel after page_insert.
abbrev pub inserted : (pgdir pp va perm : ℕ) → Option ℕ → Kernel → Kernel
inserted pgdir pp va perm old k = record (unmapped pgdir va old (bumped pp k)) {
  mem =
      update (unmapped pgdir va old (bumped pp k)).mem (slot_of pgdir va k.mem)
        (pp * 4096 + bit_or perm pte_p);
}

pub page_insert-ok :
    (k : Kernel) (pgdir pp va perm : ℕ) (ps : List ℕ) (old : Option ℕ)
    → HasTable k.npages pgdir va k.mem
    → IsFree k ps
    → Before k pgdir va ps old
    → pp < k.npages
    → (k.pages pp).pp_ref + 1 < 2 ^ 16
    → perm < 4096
    → page_insert pgdir pp va perm k ≡ ok (value 0) (inserted pgdir pp va perm old k)
unfolding page_insert page2pa
page_insert-ok k pgdir pp va perm ps none t v b lt room flags = ground (
  arith,
  v.small,
  walk_to_table k pgdir va true t.reaches,
  has_flag_p (pte_of pgdir va k.mem),
  entry-sum pp perm flags,
)
page_insert-ok k pgdir pp va perm ps (some q) t v b lt room flags = ground (
  arith,
  v.small,
  walk_to_table k pgdir va true t.reaches,
  has_flag_p (pte_of pgdir va k.mem),
  entry-sum pp perm flags,
  v.unlinked q,
  remove_mapped (bumped pp k) pgdir va q b.0,
)
