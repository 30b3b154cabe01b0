-- ===== src/Pages/Stack.antt =====
-- page_alloc, page_free and page_decref against a stack of page numbers.
use cs444_operating_systems.Base.{
  ℕ, ◌+◌, ◌^◌, ◌<◌, ◌≡◌, ◌≢◌, false, none, some, List, [], ◌∷◌, arith, ◌==◌, if◌then◌else◌,
}
use cs444_operating_systems.Kernel.{Kernel}
use cs444_operating_systems.Kernel.Run.{ok}
use cs444_operating_systems.Pages.{page_alloc, page_free, page_decref}
use cs444_operating_systems.Pages.Free.{
  has, IsFree, allocated, freed, page_alloc-some, page_free-ok, IsFree-allocated, IsFree-freed,
  decreffed, page_decref-ok, IsFree-decreffed,
}

abbrev pub Allocates : ℕ → Kernel → List ℕ → Type 0
Allocates alloc_flags k [] = page_alloc alloc_flags k ≡ ok none k
Allocates alloc_flags k (p ∷ ps) =
    (page_alloc alloc_flags k ≡ ok (some p) (allocated alloc_flags p k))
    × IsFree (allocated alloc_flags p k) ps
    × ((allocated alloc_flags p k).pages p ≡ record { pp_link = none; pp_ref = 0 })

-- page_alloc takes the first page of the list, and leaves the others on it. The page comes with no
-- reference and no link, and is cleared if ALLOC_ZERO is asked for; no other memory changes.
-- If the list is empty, NULL comes back and nothing changes.
pub page_alloc_pops :
    (k : Kernel) (alloc_flags : ℕ) (ps : List ℕ) → IsFree k ps → Allocates alloc_flags k ps
unfolding page_alloc
page_alloc_pops k alloc_flags [] v = ground arith
page_alloc_pops k alloc_flags (p ∷ ps) v = (
  page_alloc-some k alloc_flags p v.small v.chain.0 v.chain.1,
  IsFree-allocated k alloc_flags p ps v,
  ground arith,
)

-- page_free puts a page with no reference that is not on the list in front of it.
pub page_free_pushes :
    (k : Kernel) (p : ℕ) (ps : List ℕ)
    → p < k.npages
    → has p ps ≡ false
    → (k.pages p).pp_ref ≡ 0
    → IsFree k ps
    → (page_free p k ≡ ok tt (freed p k)) × IsFree (freed p k) (p ∷ ps)
page_free_pushes k p ps lt out ref v =
    (page_free-ok k p ref (v.unlinked p out), IsFree-freed k p ps lt out ref v)

-- page_decref drops one reference of a page that has some: if it was the last one the page goes to
-- the front of the free list, and else the list stays as it is. No other page and no memory
-- changes. The hypotheses: the page is in range and not on the list.
pub page_decref_frees_last :
    (k : Kernel) (p : ℕ) (ps : List ℕ)
    → p < k.npages
    → 0 < (k.pages p).pp_ref
    → (k.pages p).pp_ref < 2 ^ 16
    → has p ps ≡ false
    → IsFree k ps
    → (page_decref p k ≡ ok tt (decreffed p k))
      × (((decreffed p k).pages p).pp_ref + 1 ≡ (k.pages p).pp_ref)
      × IsFree (decreffed p k) (if (k.pages p).pp_ref == 1 then p ∷ ps else ps)
      × ((q : ℕ) → q ≢ p → (decreffed p k).pages q ≡ k.pages q)
      × ((decreffed p k).mem ≡ k.mem)
page_decref_frees_last k p ps lt pos small out v = (
  page_decref-ok k p pos small (v.unlinked p out),
  ground arith,
  IsFree-decreffed k p ps lt pos small out v,
  λ q ne. ground arith,
  ground arith,
)
