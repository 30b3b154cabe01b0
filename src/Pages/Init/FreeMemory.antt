-- ===== src/Pages/Init/FreeMemory.antt =====
-- Which pages page_init of jos/kern/pmap.c leaves free.
use cs444_operating_systems.Base.{
  ℕ, zero, suc, ◌+◌, ◌^◌, ◌-◌, ◌/◌, ◌≤◌, ◌<◌, ◌≡◌, refl, none, some, Bool, true, false, not, ◌&&◌,
  ◌||◌, ◌==◌, leb, ltb, List, [], ◌∷◌, arith, if◌then◌else◌, eq→==, Bool-cases, inl, inr, ◌∙◌, ◌⊎◌,
  ap,
}
use mathlib.Core.Path.{subst}
use native.Mathlib.Decide.{ℕ_discrete, dec_lt}
use cs444_operating_systems.Mmu.{u32, pgsize, kernbase, pgnum}
use cs444_operating_systems.Kernel.{Kernel, PageInfo}
use cs444_operating_systems.Kernel.Run.{ok}
use cs444_operating_systems.BootAlloc.{boot_alloc}
use cs444_operating_systems.Pages.Free.{has, Chain-update, IsFree}
use cs444_operating_systems.Pages.Init.{mark_used, put_free, init_pages, init_all, page_init}

IsFree-mark_used :
    (k : Kernel) (p : ℕ) (ps : List ℕ) → has p ps ≡ false → IsFree k ps → IsFree (mark_used p k) ps
IsFree-mark_used k p ps out v = record {
  small = v.small;
  chain = Chain-update k.npages k.pages p _ _ ps out v.chain;
  unlinked = λ q o. ground (arith, v.unlinked q);
}

IsFree-put_free :
    (k : Kernel) (p : ℕ) (ps : List ℕ)
    → p < k.npages
    → has p ps ≡ false
    → IsFree k ps
    → IsFree (put_free p k) (p ∷ ps)
IsFree-put_free k p ps lt out v = record {
  small = v.small;
  chain =
      (refl, lt, out, ground arith, rw eq→== (Chain-update k.npages k.pages p _ _ ps out v.chain));
  unlinked = λ q o. ground (arith, v.unlinked q);
}

-- The free list after a loop.
pushed : (used : ℕ → Bool) → (rounds i : ℕ) → List ℕ → List ℕ
pushed used zero i ps = ps
pushed used (suc rounds) i ps = pushed used rounds (i + 1) (if used i then ps else i ∷ ps)

has-pushed :
    (used : ℕ → Bool) (rounds i p : ℕ) (ps : List ℕ)
    → has p (pushed used rounds i ps)
      ≡ (has p ps || (leb i p && (ltb p (i + rounds) && not (used p))))
unfolding pushed
has-pushed used zero i p ps = ground arith
has-pushed used (suc rounds) i p ps = has-pushed used rounds (i + 1) p _ ∙ ground arith

init_pages-IsFree :
    (used : ℕ → Bool) (rounds i : ℕ) (k : Kernel) (ps : List ℕ)
    → ((p : ℕ) → i ≤ p → has p ps ≡ false)
    → i + rounds ≤ k.npages
    → IsFree k ps
    → IsFree (init_pages used rounds i k) (pushed used rounds i ps)
unfolding init_pages pushed
init_pages-IsFree used zero i k ps out fits v = v
init_pages-IsFree used (suc rounds) i k ps out fits v = elim (Bool-cases (used i)) [
  | inl u ↦ rw u (
      init_pages-IsFree used rounds (i + 1) (mark_used i k) ps (λ p le. out p (omega arith))
        (omega arith) (IsFree-mark_used k i ps (out i (omega arith)) v))
  | inr u ↦ rw u (
      init_pages-IsFree used rounds (i + 1) (put_free i k) (i ∷ ps)
        (λ p le. ground (arith, out p (omega arith))) (omega arith)
        (IsFree-put_free k i ps (omega arith) (out i (omega arith)) v))
]

-- The loop leaves the number of pages, and the pages outside of its range.
init_pages_npages :
    (used : ℕ → Bool) (rounds i : ℕ) (k : Kernel) → (init_pages used rounds i k).npages ≡ k.npages
unfolding init_pages
init_pages_npages used zero i k = refl
init_pages_npages used (suc rounds) i k = init_pages_npages used rounds (i + 1) _ ∙ ground arith

init_pages_outside :
    (used : ℕ → Bool) (rounds i p : ℕ) (k : Kernel)
    → (p < i) ⊎ (i + rounds ≤ p)
    → (init_pages used rounds i k).pages p ≡ k.pages p
unfolding init_pages
init_pages_outside used zero i p k out = refl
init_pages_outside used (suc rounds) i p k out =
    init_pages_outside used rounds (i + 1) p _ (ground arith) ∙ ground arith

init_pages_used :
    (used : ℕ → Bool) (rounds i p : ℕ) (k : Kernel)
    → i ≤ p
    → p < i + rounds
    → used p ≡ true
    → ((init_pages used rounds i k).pages p).pp_ref ≡ 1
unfolding init_pages
init_pages_used used zero i p k lo hi u = absurd (omega arith)
init_pages_used used (suc rounds) i p k lo hi u = elim (ℕ_discrete p i) [
  | yes e ↦
      ap (λ (q : PageInfo). q.pp_ref)
        (init_pages_outside used rounds (i + 1) p _ (inl (omega arith)))
      ∙ ground (arith, subst (λ q. used q ≡ true) e u)
  | no ne ↦ init_pages_used used rounds (i + 1) p _ (omega arith) (omega arith) u
]

-- Is page `p` free memory?
abbrev pub is_available : (npages npages_basemem kernel : ℕ) → ℕ → Bool
is_available npages npages_basemem kernel p =
    (leb 1 p && (ltb p npages_basemem && not (p == 7))) || (leb (256 + kernel) p && ltb p npages)

-- No page is free, and there is not too much memory.
pub record IsFresh (k : Kernel) : Type 0 where
  pub little : k.npages ≤ 65536
  pub empty : k.page_free_list ≡ none
  pub unlinked : (p : ℕ) → (k.pages p).pp_link ≡ none

-- The free list after all loops.
abbrev free_list : (npages npages_basemem kernel : ℕ) → List ℕ
free_list npages npages_basemem kernel =
    pushed (λ i. false) (npages - (256 + kernel)) (256 + kernel)
      (pushed (λ i. true) kernel 256
        (pushed (λ i. true) (256 - 160) 160 (pushed (λ i. i == 7) (npages_basemem - 1) 1 [])))

has-free_list :
    (npages npages_basemem kernel p : ℕ)
    → 1 ≤ npages_basemem
    → 256 + kernel ≤ npages
    → has p (free_list npages npages_basemem kernel) ≡ is_available npages npages_basemem kernel p
has-free_list npages npages_basemem kernel p lo fits =
    has-pushed (λ i. false) (npages - (256 + kernel)) (256 + kernel) p _
    ∙ ground (
      arith,
      has-pushed (λ i. true) kernel 256 p
          (pushed (λ i. true) (256 - 160) 160 (pushed (λ i. i == 7) (npages_basemem - 1) 1 [])),
      has-pushed (λ i. true) (256 - 160) 160 p (pushed (λ i. i == 7) (npages_basemem - 1) 1 []),
      has-pushed (λ i. i == 7) (npages_basemem - 1) 1 p [],
    )

-- No page of the list is at `i` or behind it.
ends-before :
    (used : ℕ → Bool) (rounds i : ℕ) (ps : List ℕ)
    → ((p : ℕ) → i ≤ p → has p ps ≡ false)
    → (p : ℕ) → i + rounds ≤ p
    → has p (pushed used rounds i ps) ≡ false
ends-before used rounds i ps out p le =
    has-pushed used rounds i p ps ∙ ground (arith, out p (omega arith))

init_all-IsFree :
    (k : Kernel) (npages_basemem kernel : ℕ)
    → IsFresh k
    → 1 ≤ npages_basemem
    → npages_basemem ≤ 160
    → 256 + kernel ≤ k.npages
    → IsFree (init_all npages_basemem kernel k) (free_list k.npages npages_basemem kernel)
unfolding init_all pgnum
init_all-IsFree k npages_basemem kernel fresh lo hi fits =
    let n1 : 1 + (npages_basemem - 1) ≤ k.npages = omega arith in
    let k0 = mark_used 0 k in
    let v0 : IsFree k0 [] = record {
      small = fresh.little;
      chain = fresh.empty;
      unlinked = λ q o. ground (arith, fresh.unlinked q);
    } in
    let k1 = init_pages (λ i. i == 7) (npages_basemem - 1) 1 k0 in
    let v1 = init_pages-IsFree (λ i. i == 7) (npages_basemem - 1) 1 k0 [] (λ p le. refl) n1 v0 in
    let c1 = init_pages_npages (λ i. i == 7) (npages_basemem - 1) 1 k0 in
    let o1 = ends-before (λ i. i == 7) (npages_basemem - 1) 1 [] (λ p le. refl) in
    let k2 = init_pages (λ i. true) (256 - 160) 160 k1 in
    let v2 =
      init_pages-IsFree (λ i. true) (256 - 160) 160 k1 _ (λ p le. o1 p (omega arith))
        (omega (arith, c1)) v1 in
    let c2 = init_pages_npages (λ i. true) (256 - 160) 160 k1 in
    let o2 = ends-before (λ i. true) (256 - 160) 160 _ (λ p le. o1 p (omega arith)) in
    let k3 = init_pages (λ i. true) kernel 256 k2 in
    let v3 =
      init_pages-IsFree (λ i. true) kernel 256 k2 _ (λ p le. o2 p (omega arith))
        (omega (arith, c1, c2)) v2 in
    let c3 = init_pages_npages (λ i. true) kernel 256 k2 in
    let o3 = ends-before (λ i. true) kernel 256 _ (λ p le. o2 p (omega arith)) in
    init_pages-IsFree (λ i. false) (k.npages - (256 + kernel)) (256 + kernel) k3 _
      (λ p le. o3 p (omega arith)) (omega (arith, c1, c2, c3)) v3

-- A page that is used in a loop, or before it, and outside of the next one.
ref-after :
    (used : ℕ → Bool) (rounds i p : ℕ) (k : Kernel)
    → (p < i) ⊎ (i + rounds ≤ p)
    → (k.pages p).pp_ref ≡ 1
    → ((init_pages used rounds i k).pages p).pp_ref ≡ 1
ref-after used rounds i p k out e =
    ap (λ (q : PageInfo). q.pp_ref) (init_pages_outside used rounds i p k out) ∙ e

-- Page 0, the page of the other CPUs' entry code, the I/O hole and what the kernel takes.
abbrev pub IsReserved : (npages_basemem kernel p : ℕ) → Type 0
IsReserved npages_basemem kernel p =
    (p ≡ 0) ⊎ (((p ≡ 7) × (7 < npages_basemem)) ⊎ ((160 ≤ p) × (p < 256 + kernel)))

init_all_used :
    (k : Kernel) (npages_basemem kernel p : ℕ)
    → npages_basemem ≤ 160
    → IsReserved npages_basemem kernel p
    → ((init_all npages_basemem kernel k).pages p).pp_ref ≡ 1
unfolding init_all pgnum
init_all_used k npages_basemem kernel p hi used =
    ref-after _ _ _ p _ (ground arith) (elim (dec_lt p 256) [
      | no big ↦ init_pages_used _ kernel 256 p _ (omega arith) (ground arith) refl
      | yes low ↦ ref-after _ _ _ p _ (inl low) (elim (dec_lt p 160) [
        | no mid ↦ init_pages_used _ (256 - 160) 160 p _ (omega arith) (omega arith) refl
        | yes base ↦ ref-after _ _ _ p _ (inl base) (elim (ℕ_discrete p 0) [
          | yes e ↦ ref-after _ _ _ p _ (inl (omega arith)) (ground (arith, e))
          | no ne ↦
              init_pages_used _ (npages_basemem - 1) 1 p _ (omega arith) (ground arith)
                (ground arith)
        ])
      ])
    ])

-- page_init with a kernel that takes `kernel` pages, as boot_alloc(0) says, returns with a free list
-- of distinct pages: of the pages in memory they are those of the base memory but 0 and 7, and all
-- from page 256 + kernel on. Page 0, page 7, the I/O hole and the pages of the kernel have a
-- reference. The hypotheses: the base memory ends at the I/O hole or before it, there is memory
-- behind the kernel, and no page is linked or free before.
pub page_init_frees :
    (k : Kernel) (npages_basemem end nextfree next nextfree' : ℕ)
    → boot_alloc end k.npages nextfree 0 ≡ some (next, nextfree')
    → IsFresh k
    → 1 ≤ npages_basemem
    → npages_basemem ≤ 160
    → 256 + u32 (next + 2 ^ 32 - kernbase) / pgsize ≤ k.npages
    → let kernel = u32 (next + 2 ^ 32 - kernbase) / pgsize in
      (k' : Kernel) × (ps : List ℕ) × (page_init npages_basemem end nextfree k ≡ ok tt k')
      × IsFree k' ps
      × ((p : ℕ) → has p ps ≡ is_available k.npages npages_basemem kernel p)
      × ((p : ℕ) → IsReserved npages_basemem kernel p → (k'.pages p).pp_ref ≡ 1)
unfolding page_init
page_init_frees k npages_basemem end nextfree next nextfree' e fresh lo hi fits =
    let kernel = u32 (next + 2 ^ 32 - kernbase) / pgsize in
    (
      init_all npages_basemem kernel k,
      free_list k.npages npages_basemem kernel,
      ground (arith, e),
      init_all-IsFree k npages_basemem kernel fresh lo hi fits,
      λ p. has-free_list k.npages npages_basemem kernel p lo fits,
      λ p used. init_all_used k npages_basemem kernel p hi used,
    )
