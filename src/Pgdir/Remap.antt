-- ===== src/Pgdir/Remap.antt =====
-- What page_insert and page_remove of jos/kern/pmap.c leave behind: the mapping, the reference
-- counters and the free list.
use cs444_operating_systems.Base.{
  ℕ, ◌+◌, ◌*◌, ◌%◌, ◌^◌, ◌<◌, ◌≡◌, refl, false, Option, none, some, List, ◌∷◌, arith, ◌==◌,
  if◌then◌else◌, update, bit_or,
}
use mathlib.Core.Path.{fun_ext, subst, sym}
use cs444_operating_systems.Mmu.{pte_p}
use cs444_operating_systems.Mmu.Entry.{entry-sum}
use cs444_operating_systems.Kernel.{Kernel}
use cs444_operating_systems.Kernel.Run.{ok}
use cs444_operating_systems.Errors.{value}
use cs444_operating_systems.Pages.Free.{has, IsFree, IsFree-decreffed}
use cs444_operating_systems.Pgdir.{page_insert, page_lookup}
use cs444_operating_systems.Pgdir.Walk.{pde_of, slot_of, HasTable}
use cs444_operating_systems.Pgdir.Map.{pte_of, IsMapped, lookup_mapped}
use cs444_operating_systems.Pgdir.Insert.{bumped, IsFree-bumped, Before, inserted, page_insert-ok}

-- A write to the entry of `va` leaves the way to it as it is.
pub HasTable-write :
    (n pgdir va pte : ℕ) (m : ℕ → ℕ)
    → HasTable n pgdir va m
    → HasTable n pgdir va (update m (slot_of pgdir va m) pte)
      × (slot_of pgdir va (update m (slot_of pgdir va m) pte) ≡ slot_of pgdir va m)
HasTable-write n pgdir va pte m t =
    let same : pde_of pgdir va (update m (slot_of pgdir va m) pte) ≡ pde_of pgdir va m =
      ground arith in
    (
      record {
        reaches = record {
          small = t.small;
          word = ground arith;
          present = ground arith;
          exists = ground arith;
        };
        apart = ground arith;
      },
      ground arith,
    )

-- The memory after page_insert: only the entry of `va` has changed.
pub inserted-mem :
    (k : Kernel) (pgdir pp va perm : ℕ) (ps : List ℕ) (old : Option ℕ) (a : ℕ)
    → Before k pgdir va ps old
    → (inserted pgdir pp va perm old k).mem a
      ≡ update k.mem (slot_of pgdir va k.mem) (pp * 4096 + bit_or perm pte_p) a
inserted-mem k pgdir pp va perm ps none a b = refl
inserted-mem k pgdir pp va perm ps (some q) a b = ground arith

pub inserted-IsMapped :
    (k : Kernel) (pgdir pp va perm : ℕ) (ps : List ℕ) (old : Option ℕ)
    → HasTable k.npages pgdir va k.mem
    → Before k pgdir va ps old
    → pp < k.npages
    → perm < 4096
    → IsMapped k.npages pgdir va pp (inserted pgdir pp va perm old k).mem
      × (pte_of pgdir va (inserted pgdir pp va perm old k).mem ≡ pp * 4096 + bit_or perm pte_p)
inserted-IsMapped k pgdir pp va perm ps old t b lt flags =
    subst
      (λ f. IsMapped k.npages pgdir va pp f × (pte_of pgdir va f ≡ pp * 4096 + bit_or perm pte_p))
      (sym same)
      (
        record {
          table = w.0;
          word = omega (arith, at, e.1, t.small);
          present = omega (arith, at, e.1, e.2);
          page = omega (arith, at, e.1);
          exists = lt;
        },
        at,
      )
  where
    pte : ℕ
    pte = pp * 4096 + bit_or perm pte_p

    m : ℕ → ℕ
    m = update k.mem (slot_of pgdir va k.mem) pte

    same : (inserted pgdir pp va perm old k).mem ≡ m
    same = fun_ext λ a. inserted-mem k pgdir pp va perm ps old a b

    e :
        (bit_or (bit_or (pp * 4096) perm) pte_p ≡ pp * 4096 + bit_or perm pte_p)
        × (bit_or perm pte_p < 4096)
        × (bit_or perm pte_p % 2 ≡ 1)
    e = entry-sum pp perm flags

    w : HasTable k.npages pgdir va m × (slot_of pgdir va m ≡ slot_of pgdir va k.mem)
    w = HasTable-write k.npages pgdir va pte k.mem t

    at : pte_of pgdir va m ≡ pte
    at = ground (arith, w.1)

pub npages-inserted :
    (k : Kernel) (pgdir pp va perm : ℕ) (old : Option ℕ)
    → (inserted pgdir pp va perm old k).npages ≡ k.npages
npages-inserted k pgdir pp va perm none = refl
npages-inserted k pgdir pp va perm (some q) = ground arith

-- Where the directory has a table for `va`, page_insert succeeds whatever is mapped there, and a
-- page_lookup afterwards finds the page `pp`, in an entry with its address and the flags
-- `perm | PTE_P`. The hypotheses: the page exists, its counter does not overflow, `perm` fits the
-- twelve flag bits, and a page mapped at `va` before has a reference and is not free.
pub page_insert-lookup :
    (k : Kernel) (pgdir pp va perm : ℕ) (ps : List ℕ) (old : Option ℕ)
    → HasTable k.npages pgdir va k.mem
    → IsFree k ps
    → Before k pgdir va ps old
    → pp < k.npages
    → (k.pages pp).pp_ref + 1 < 2 ^ 16
    → perm < 4096
    → let k' = inserted pgdir pp va perm old k in
      (page_insert pgdir pp va perm k ≡ ok (value 0) k')
      × (page_lookup pgdir va k' ≡ ok (some (pp, slot_of pgdir va k'.mem)) k')
      × (pte_of pgdir va k'.mem ≡ pp * 4096 + bit_or perm pte_p)
page_insert-lookup k pgdir pp va perm ps old t v b lt room flags =
    let k' = inserted pgdir pp va perm old k in
    let m = inserted-IsMapped k pgdir pp va perm ps old t b lt flags in
    (
      page_insert-ok k pgdir pp va perm ps old t v b lt room flags,
      lookup_mapped k' pgdir va pp (rw (npages-inserted k pgdir pp va perm old) m.0),
      m.1,
    )

-- How many references to page `r` an entry holds that maps `old`.
abbrev pub mapping : Option ℕ → ℕ → ℕ
mapping none r = 0
mapping (some q) r = if r == q then 1 else 0

-- The free list after page_insert of `pp`: the page that was mapped joins it if that was its last
-- reference.
abbrev pub free_after : Kernel → ℕ → List ℕ → Option ℕ → List ℕ
free_after k pp ps none = ps
free_after k pp ps (some q) = if ((bumped pp k).pages q).pp_ref == 1 then q ∷ ps else ps

-- Where the directory has a table for `va`, page_insert succeeds and moves one reference: every page
-- has as many as before, less one for the page that was mapped at `va` and one more for `pp`. A page
-- that loses its last reference joins the free list. So inserting a page where it is mapped already
-- changes no counter, and frees nothing. The hypotheses are those of page_insert-lookup, and that
-- `pp` is not free.
pub page_insert_counts :
    (k : Kernel) (pgdir pp va perm : ℕ) (ps : List ℕ) (old : Option ℕ)
    → HasTable k.npages pgdir va k.mem
    → IsFree k ps
    → Before k pgdir va ps old
    → pp < k.npages
    → (k.pages pp).pp_ref + 1 < 2 ^ 16
    → perm < 4096
    → has pp ps ≡ false
    → let k' = inserted pgdir pp va perm old k in
      (page_insert pgdir pp va perm k ≡ ok (value 0) k')
      × ((r : ℕ) → (k'.pages r).pp_ref + mapping old r ≡ (k.pages r).pp_ref + mapping (some pp) r)
      × IsFree k' (free_after k pp ps old)
page_insert_counts k pgdir pp va perm ps none t v b lt room flags out =
    let f = IsFree-bumped k pp ps out v in
    (
      page_insert-ok k pgdir pp va perm ps none t v b lt room flags,
      λ r. ground arith,
      record { small = f.small; chain = f.chain; unlinked = f.unlinked },
    )
page_insert_counts k pgdir pp va perm ps (some q) t v b lt room flags out =
    let w = IsFree-bumped k pp ps out v in
    let f = IsFree-decreffed (bumped pp k) q ps b.0.exists (ground arith) (ground arith) b.3 w in
    (
      page_insert-ok k pgdir pp va perm ps (some q) t v b lt room flags,
      λ r. ground arith,
      record { small = f.small; chain = f.chain; unlinked = f.unlinked },
    )
