-- ===== src/Pages/Free.antt =====
-- The free list of jos/kern/pmap.c as a stack of page numbers: page_alloc pops it, page_free and
-- page_decref push.
use cs444_operating_systems.Base.{
  ℕ, ◌+◌, ◌*◌, ◌^◌, ◌≤◌, ◌<◌, ◌≡◌, refl, Bool, false, ◌||◌, Option, none, some, List, [], ◌∷◌,
  arith, ◌==◌, if◌then◌else◌, update, eq→==, Bool-cases, inl, inr,
}
use cs444_operating_systems.Mmu.{pgsize, kernbase, has_flag, pgnum}
use cs444_operating_systems.Kernel.{Kernel, PageInfo}
use cs444_operating_systems.Kernel.Run.{ok, zero_words}
use cs444_operating_systems.Pages.{
  alloc_zero, kaddr, page2pa, page2kva, clear_page, take_page, page_alloc, page_free, page_decref,
  dec_ref,
}

abbrev pub has : ℕ → List ℕ → Bool
has p [] = false
has p (q ∷ qs) = (p == q) || has p qs

-- From `head` the links lead through the pages of the list, all distinct, unreferenced and in
-- range, to NULL.
abbrev pub Chain : ℕ → (ℕ → PageInfo) → Option ℕ → List ℕ → Type 0
Chain n pages head [] = head ≡ none
Chain n pages head (p ∷ ps) =
    (head ≡ some p)
    × (p < n)
    × (has p ps ≡ false)
    × ((pages p).pp_ref ≡ 0)
    × Chain n pages (pages p).pp_link ps

-- The free list holds the pages `ps`, and only pages on it are linked. There is so little memory
-- that all of it is mapped from KERNBASE on.
pub record IsFree (k : Kernel) (ps : List ℕ) : Type 0 where
  pub small : k.npages ≤ 65536
  pub chain : Chain k.npages k.pages k.page_free_list ps
  pub unlinked : (p : ℕ) → has p ps ≡ false → (k.pages p).pp_link ≡ none

-- A write to a page that is not on the list.
pub Chain-update :
    (n : ℕ) (pages : ℕ → PageInfo) (p : ℕ) (i : PageInfo) (head : Option ℕ) (ps : List ℕ)
    → has p ps ≡ false
    → Chain n pages head ps
    → Chain n (update pages p i) head ps
Chain-update n pages p i head [] out c = c
Chain-update n pages p i head (q ∷ ps) out c =
    ground (arith, Chain-update n pages p i (pages q).pp_link ps)

pub page2kva-ok :
    (k : Kernel) (p : ℕ)
    → k.npages ≤ 65536
    → p < k.npages
    → page2kva p k ≡ ok (p * 4096 + kernbase) k
unfolding page2kva kaddr page2pa pgnum
page2kva-ok k p small lt = ground arith

-- What page_alloc does to the memory: with ALLOC_ZERO the page is cleared, and nothing else is.
abbrev pub alloc_mem : ℕ → ℕ → (ℕ → ℕ) → ℕ → ℕ
alloc_mem alloc_flags p m =
    if has_flag alloc_flags alloc_zero then zero_words (p * 4096 + kernbase) pgsize m else m

-- The kernel after page_alloc has taken page `p` off the list.
abbrev pub allocated : ℕ → ℕ → Kernel → Kernel
allocated alloc_flags p k = record k {
  mem = alloc_mem alloc_flags p k.mem;
  page_free_list = (k.pages p).pp_link;
  pages = update k.pages p (record (k.pages p) { pp_link = none });
}

pub page_alloc-some :
    (k : Kernel) (alloc_flags p : ℕ)
    → k.npages ≤ 65536
    → k.page_free_list ≡ some p
    → p < k.npages
    → page_alloc alloc_flags k ≡ ok (some p) (allocated alloc_flags p k)
unfolding page_alloc take_page clear_page
page_alloc-some k alloc_flags p small e lt = ground (arith, page2kva-ok k p small lt)

-- The kernel after page_free has put page `p` on the list.
abbrev pub freed : ℕ → Kernel → Kernel
freed p k = record k {
  page_free_list = some p;
  pages = update k.pages p (record (k.pages p) { pp_link = k.page_free_list });
}

pub page_free-ok :
    (k : Kernel) (p : ℕ)
    → (k.pages p).pp_ref ≡ 0
    → (k.pages p).pp_link ≡ none
    → page_free p k ≡ ok tt (freed p k)
unfolding page_free
page_free-ok k p ref link = ground arith

pub IsFree-allocated :
    (k : Kernel) (alloc_flags p : ℕ) (ps : List ℕ)
    → IsFree k (p ∷ ps)
    → IsFree (allocated alloc_flags p k) ps
IsFree-allocated k alloc_flags p ps v = record {
  small = v.small;
  chain = Chain-update k.npages k.pages p _ _ ps v.chain.2 v.chain.4;
  unlinked = λ q out. ground (arith, v.unlinked q);
}

pub IsFree-freed :
    (k : Kernel) (p : ℕ) (ps : List ℕ)
    → p < k.npages
    → has p ps ≡ false
    → (k.pages p).pp_ref ≡ 0
    → IsFree k ps
    → IsFree (freed p k) (p ∷ ps)
IsFree-freed k p ps lt out ref v = record {
  small = v.small;
  chain =
      (refl, lt, out, ground arith, rw eq→== (Chain-update k.npages k.pages p _ _ ps out v.chain));
  unlinked = λ q o. ground (arith, v.unlinked q);
}

-- The kernel after the reference counter of `p` has gone down by one.
abbrev pub dropped : ℕ → Kernel → Kernel
dropped p k = record k { pages = update k.pages p (dec_ref (k.pages p)) }

pub IsFree-dropped :
    (k : Kernel) (p : ℕ) (ps : List ℕ) → has p ps ≡ false → IsFree k ps → IsFree (dropped p k) ps
IsFree-dropped k p ps out v = record {
  small = v.small;
  chain = Chain-update k.npages k.pages p _ _ ps out v.chain;
  unlinked = λ q o. ground (arith, v.unlinked q);
}

-- The kernel after page_decref.
abbrev pub decreffed : ℕ → Kernel → Kernel
decreffed p k = if (k.pages p).pp_ref == 1 then freed p (dropped p k) else dropped p k

pub page_decref-ok :
    (k : Kernel) (p : ℕ)
    → 0 < (k.pages p).pp_ref
    → (k.pages p).pp_ref < 2 ^ 16
    → (k.pages p).pp_link ≡ none
    → page_decref p k ≡ ok tt (decreffed p k)
unfolding page_decref page_free
page_decref-ok k p pos small link = ground arith

pub IsFree-decreffed :
    (k : Kernel) (p : ℕ) (ps : List ℕ)
    → p < k.npages
    → 0 < (k.pages p).pp_ref
    → (k.pages p).pp_ref < 2 ^ 16
    → has p ps ≡ false
    → IsFree k ps
    → IsFree (decreffed p k) (if (k.pages p).pp_ref == 1 then p ∷ ps else ps)
IsFree-decreffed k p ps lt pos small out v = elim (Bool-cases ((k.pages p).pp_ref == 1)) [
  | inl e ↦
      let d = IsFree-dropped k p ps out v in
      rw e (IsFree-freed (dropped p k) p ps lt out (ground arith) d)
  | inr e ↦ rw e (IsFree-dropped k p ps out v)
]
