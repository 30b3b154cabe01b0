-- ===== src/Pgdir/Walk.antt =====
-- Where pgdir_walk of jos/kern/pmap.c leads.
use cs444_operating_systems.Base.{
  ℕ, ◌+◌, ◌*◌, ◌/◌, ◌%◌, ◌^◌, ◌≤◌, ◌<◌, ◌≡◌, ◌≢◌, Bool, true, false, none, some, List, ◌∷◌, arith,
  update,
}
use cs444_operating_systems.Mmu.{kernbase, pgnum, pdx, ptx, has_flag}
use cs444_operating_systems.Mmu.Address.{ptx_lem, pdx_lem}
use cs444_operating_systems.Mmu.Entry.{pte_addr_lem, has_flag_p, dir_entry-sum}
use cs444_operating_systems.Kernel.{Kernel}
use cs444_operating_systems.Kernel.Run.{ok}
use cs444_operating_systems.Pages.{alloc_zero, inc_ref, kaddr, pa2page, page2pa}
use cs444_operating_systems.Pages.Free.{
  has, IsFree, allocated, Chain-update, page_alloc-some, IsFree-allocated,
}
use cs444_operating_systems.Pgdir.{entry_at, add_table, pgdir_walk}

-- The page directory entry for `va`, and the address of the table entry that it leads to.
abbrev pub pde_of : ℕ → ℕ → (ℕ → ℕ) → ℕ
pde_of pgdir va m = m (entry_at pgdir (pdx va))

abbrev pub slot_of : ℕ → ℕ → (ℕ → ℕ) → ℕ
slot_of pgdir va m = entry_at (pde_of pgdir va m / 4096 * 4096 + kernbase) (ptx va)

-- The directory has a table for `va`, in a page that exists.
pub record Reaches (n pgdir va : ℕ) (m : ℕ → ℕ) : Type 0 where
  pub small : n ≤ 65536
  pub word : pde_of pgdir va m < 2 ^ 32
  pub present : pde_of pgdir va m % 2 ≡ 1
  pub exists : pde_of pgdir va m / 4096 < n

-- The entry in the table is not the directory's own entry, as it is where UVPT maps the directory.
pub record HasTable (n pgdir va : ℕ) (m : ℕ → ℕ) : Type 0 where
  pub reaches : Reaches n pgdir va m
  pub open reaches use *
  pub apart : slot_of pgdir va m ≢ entry_at pgdir (pdx va)

pub kaddr-ok :
    (k : Kernel) (pa : ℕ)
    → k.npages ≤ 65536
    → pa / 4096 < k.npages
    → kaddr pa k ≡ ok (pa + kernbase) k
unfolding kaddr pgnum
kaddr-ok k pa small lt = ground arith

pub pa2page-ok : (k : Kernel) (pa : ℕ) → pa / 4096 < k.npages → pa2page pa k ≡ ok (pa / 4096) k
unfolding pa2page pgnum
pa2page-ok k pa lt = ground arith

pub walk_to_table :
    (k : Kernel) (pgdir va : ℕ) (create : Bool)
    → Reaches k.npages pgdir va k.mem
    → pgdir_walk pgdir va create k ≡ ok (some (slot_of pgdir va k.mem)) k
unfolding pgdir_walk
walk_to_table k pgdir va create t = ground (
  arith,
  has_flag_p (pde_of pgdir va k.mem),
  pte_addr_lem (pde_of pgdir va k.mem),
  kaddr-ok k (pde_of pgdir va k.mem / 4096 * 4096),
)

pub walk_to_none :
    (k : Kernel) (pgdir va : ℕ)
    → pde_of pgdir va k.mem % 2 ≡ 0
    → pgdir_walk pgdir va false k ≡ ok none k
unfolding pgdir_walk
walk_to_none k pgdir va e = ground (arith, has_flag_p (pde_of pgdir va k.mem))

-- The kernel after pgdir_walk has made page `p` the table for `va`.
abbrev pub tabled : ℕ → ℕ → ℕ → Kernel → Kernel
tabled pgdir va p k =
    let a = allocated alloc_zero p k in
    record a {
      pages = update a.pages p (inc_ref (a.pages p));
      mem = update a.mem (entry_at pgdir (pdx va)) (p * 4096 + 7);
    }

pub walk_adds_table :
    (k : Kernel) (pgdir va p : ℕ) (ps : List ℕ)
    → IsFree k (p ∷ ps)
    → pde_of pgdir va k.mem % 2 ≡ 0
    → pgdir_walk pgdir va true k
      ≡ ok (some (entry_at (p * 4096 + kernbase) (ptx va))) (tabled pgdir va p k)
unfolding pgdir_walk add_table page2pa
walk_adds_table k pgdir va p ps v e = ground (
  arith,
  has_flag_p (pde_of pgdir va k.mem),
  page_alloc-some k alloc_zero p v.small v.chain.0 v.chain.1,
  dir_entry-sum p,
  kaddr-ok (tabled pgdir va p k) (p * 4096),
)

-- The page directory fills a page that is not free.
pub record IsDir (d pgdir : ℕ) (ps : List ℕ) : Type 0 where
  pub at : pgdir ≡ d * 4096 + kernbase
  pub used : has d ps ≡ false

pub HasTable-tabled :
    (k : Kernel) (pgdir va d p : ℕ) (ps : List ℕ)
    → IsFree k (p ∷ ps)
    → IsDir d pgdir (p ∷ ps)
    → HasTable k.npages pgdir va (tabled pgdir va p k).mem
HasTable-tabled k pgdir va d p ps v dir =
    let new : pde_of pgdir va (tabled pgdir va p k).mem ≡ p * 4096 + 7 = ground arith in
    let lt = v.chain.1 in
    record {
      reaches = record {
        small = v.small;
        word = omega (arith, new, v.small);
        present = omega (arith, new);
        exists = omega (arith, new);
      };
      apart = omega (arith, new, ptx_lem va, pdx_lem va, ne, dir.at);
    }
  where
    ne : d ≢ p
    ne = ground (arith, dir.used)

pub IsFree-tabled :
    (k : Kernel) (pgdir va p : ℕ) (ps : List ℕ)
    → IsFree k (p ∷ ps)
    → IsFree (tabled pgdir va p k) ps
IsFree-tabled k pgdir va p ps v =
    let a = IsFree-allocated k alloc_zero p ps v in
    record {
      small = a.small;
      chain = Chain-update k.npages (allocated alloc_zero p k).pages p _ _ ps v.chain.2 a.chain;
      unlinked = λ q o. ground (arith, a.unlinked q);
    }

-- Every entry of a new table is 0.
pub tabled-zero :
    (k : Kernel) (pgdir va d p i : ℕ) (ps : List ℕ)
    → IsDir d pgdir (p ∷ ps)
    → i < 1024
    → (tabled pgdir va p k).mem (entry_at (p * 4096 + kernbase) i) ≡ 0
unfolding has_flag
tabled-zero k pgdir va d p i ps dir lt = ground (arith, dir.used, dir.at, pdx_lem va)
