-- ===== src/Syscall/Exhausted.antt =====
-- sys_page_alloc of jos/kern/syscall.c where the last free page is not enough.
use cs444_operating_systems.Base.{ℕ, ◌%◌, ◌≡◌, refl, true, false, [], ◌∷◌, arith, bit_or}
use cs444_operating_systems.Mmu.{has_flag, pte_p, pte_u}
use cs444_operating_systems.Mmu.Address.{pdx_lem}
use cs444_operating_systems.Kernel.{Kernel}
use cs444_operating_systems.Kernel.Run.{ok}
use cs444_operating_systems.Errors.{error, no_mem}
use cs444_operating_systems.Pages.{alloc_zero}
use cs444_operating_systems.Pages.Free.{
  IsFree, allocated, freed, page_alloc-some, page_free-ok, IsFree-allocated, IsFree-freed,
}
use cs444_operating_systems.Pgdir.{page_insert}
use cs444_operating_systems.Pgdir.Walk.{pde_of, IsDir}
use cs444_operating_systems.Pgdir.Create.{walk_exhausted}
use cs444_operating_systems.Syscall.{bad_va, bad_perm, map_new, sys_page_alloc}
use cs444_operating_systems.Syscall.Target.{Targets, with_env-ok}

insert_exhausted :
    (k : Kernel) (pgdir pp va perm : ℕ)
    → IsFree k []
    → pde_of pgdir va k.mem % 2 ≡ 0
    → page_insert pgdir pp va perm k ≡ ok (error no_mem) k
unfolding page_insert
insert_exhausted k pgdir pp va perm v absent = rw (walk_exhausted k pgdir va v absent)

-- The kernel after the page has been taken and given back.
abbrev pub restored : ℕ → Kernel → Kernel
restored p k = freed p (allocated alloc_zero p k)

map_new_exhausted :
    (k : Kernel) (e va perm d p : ℕ)
    → IsFree k (p ∷ [])
    → IsDir d (k.envs e).env_pgdir (p ∷ [])
    → pde_of (k.envs e).env_pgdir va k.mem % 2 ≡ 0
    → map_new e va perm k ≡ ok (error no_mem) (restored p k)
unfolding map_new has_flag
map_new_exhausted k e va perm d p v dir absent =
    let pgdir = (k.envs e).env_pgdir in
    let k1 = allocated alloc_zero p k in
    let same : pde_of pgdir va k1.mem ≡ pde_of pgdir va k.mem =
      ground (arith, dir.at, dir.used, pdx_lem va) in
    rw (page_alloc-some k alloc_zero p v.small v.chain.0 v.chain.1) (
      rw
        (insert_exhausted k1 pgdir p va (bit_or (bit_or pte_u pte_p) perm)
          (IsFree-allocated k alloc_zero p [] v) (rw same absent))
        (rw (page_free-ok k1 p (ground (arith, v.chain.3)) (ground arith)) refl))

-- Where one page is free and the directory has no table for `va`, sys_page_alloc fails with
-- -E_NO_MEM, since the table would need a second page, and gives the page back: it is the free one
-- again, and no reference counter has changed. The hypotheses: the caller names
-- itself by 0, or by its id an environment that it may change, the arguments are accepted, and the page
-- directory is not the free page.
pub sys_page_alloc_restores :
    (k : Kernel) (c envid e va perm d p : ℕ)
    → Targets k c envid true e
    → bad_va va ≡ false
    → bad_perm perm ≡ false
    → IsFree k (p ∷ [])
    → IsDir d (k.envs e).env_pgdir (p ∷ [])
    → pde_of (k.envs e).env_pgdir va k.mem % 2 ≡ 0
    → (sys_page_alloc envid va perm k ≡ ok (error no_mem) (restored p k))
      × IsFree (restored p k) (p ∷ [])
      × ((q : ℕ) → ((restored p k).pages q).pp_ref ≡ (k.pages q).pp_ref)
unfolding sys_page_alloc
sys_page_alloc_restores k c envid e va perm d p t fine ok' v dir absent = (
  rw (with_env-ok k c envid true e _ t)
      (rw (fine, ok') (map_new_exhausted k e va perm d p v dir absent)),
  IsFree-freed (allocated alloc_zero p k) p [] v.chain.1 refl (ground (arith, v.chain.3))
      (IsFree-allocated k alloc_zero p [] v),
  λ q. ground arith,
)
