-- ===== src/Pages/DoubleFree.antt =====
-- What page_free of jos/kern/pmap.c makes of a page that is on the free list already.
use cs444_operating_systems.Base.{ℕ, ◌≡◌, true, Option, some, List, [], ◌∷◌, ◌++◌, arith, update}
use mathlib.Core.Path.{subst}
use cs444_operating_systems.Kernel.{Kernel, PageInfo}
use cs444_operating_systems.Kernel.Run.{ok, panic}
use cs444_operating_systems.Pages.{page_free}
use cs444_operating_systems.Pages.Free.{has, Chain, IsFree, freed, page_free-ok}

-- What stands at a page of a chain, and behind it.
Chain-at :
    (n : ℕ) (pages : ℕ → PageInfo) (head : Option ℕ) (ps : List ℕ) (p : ℕ) (qs : List ℕ)
    → Chain n pages head (ps ++ p ∷ qs)
    → ((pages p).pp_ref ≡ 0) × Chain n pages (pages p).pp_link qs
Chain-at n pages head [] p qs c = (c.3, c.4)
Chain-at n pages head (x ∷ ps) p qs c = Chain-at n pages (pages x).pp_link ps p qs c.4

has-append : (l : ℕ) (ps : List ℕ) → has l (ps ++ l ∷ []) ≡ true
has-append l [] = ground arith
has-append l (p ∷ ps) = ground (arith, has-append l ps)

-- If the old links lead from `head` through `ps` to `l`, so do the new ones.
Chain-through :
    (n : ℕ) (pages : ℕ → PageInfo) (l : ℕ) (i : PageInfo) (head : Option ℕ) (ps qs : List ℕ)
    → Chain n pages head (ps ++ l ∷ [])
    → Chain n (update pages l i) head qs
    → has l qs ≡ true
Chain-through n pages l i head [] [] c d = cc
Chain-through n pages l i head [] (q ∷ qs) c d = ground arith
Chain-through n pages l i head (p ∷ ps) [] c d = cc
Chain-through n pages l i head (p ∷ ps) (q ∷ qs) c d =
    ground (arith, has-append l ps, Chain-through n pages l i (pages p).pp_link ps qs c.4)

-- page_free panics on a page that is on the free list, if another page follows it there.
pub double_free_panics :
    (k : Kernel) (ps : List ℕ) (p q : ℕ) (qs : List ℕ)
    → IsFree k (ps ++ p ∷ q ∷ qs)
    → page_free p k ≡ panic
unfolding page_free
double_free_panics k ps p q qs v =
    let at = Chain-at k.npages k.pages k.page_free_list ps p (q ∷ qs) v.chain in ground arith

-- The last page of the free list may be freed once more without a panic; after that no list of
-- distinct pages is the free list, since its links have become a circle.
pub last_page_returned_twice :
    (k : Kernel) (ps : List ℕ) (p : ℕ)
    → IsFree k (ps ++ p ∷ [])
    → (page_free p k ≡ ok tt (freed p k)) × ((qs : List ℕ) → ¬ (IsFree (freed p k) qs))
last_page_returned_twice k ps p v =
    let at = Chain-at k.npages k.pages k.page_free_list ps p [] v.chain in
    (page_free-ok k p at.0 at.1, λ qs w. circle qs w.chain)
  where
    link : Option ℕ → ℕ → PageInfo
    link head q = update k.pages p (record (k.pages p) { pp_link = head }) q

    circle : (qs : List ℕ) → Chain k.npages (link k.page_free_list) (some p) qs → ⊥
    circle [] c = cc
    circle (q ∷ qs) c =
        let e : q ≡ p = cc in
        let d : (link k.page_free_list q).pp_link ≡ k.page_free_list = ground arith in
        let rest = subst (λ h. Chain k.npages (link k.page_free_list) h qs) d c.4 in
        let found = Chain-through k.npages k.pages p _ k.page_free_list ps qs v.chain rest in
        ground arith
