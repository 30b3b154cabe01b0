-- ===== src/Syscall/NewPage.antt =====
-- sys_page_alloc of jos/kern/syscall.c where there is memory.
use cs444_operating_systems.Base.{
  ℕ, ◌+◌, ◌*◌, ◌/◌, ◌^◌, ◌≤◌, ◌<◌, ◌≡◌, refl, true, false, Option, none, some, List, ◌∷◌, arith,
  update, bit_or, ap, ◌∙◌,
}
use cs444_operating_systems.Base.Bits.{bit_or-lt}
use cs444_operating_systems.Mmu.{kernbase, pgsize, ptx, has_flag, pte_p, pte_u}
use cs444_operating_systems.Mmu.Address.{pdx_lem, ptx_lem}
use cs444_operating_systems.Kernel.{Kernel}
use cs444_operating_systems.Kernel.Run.{ok}
use cs444_operating_systems.Errors.{value}
use cs444_operating_systems.Pages.{alloc_zero}
use cs444_operating_systems.Pages.Free.{has, IsFree, allocated, page_alloc-some, IsFree-allocated}
use cs444_operating_systems.Pgdir.{entry_at, page_insert, page_lookup}
use cs444_operating_systems.Pgdir.Walk.{pde_of, slot_of, HasTable, IsDir}
use cs444_operating_systems.Pgdir.Map.{pte_of}
use cs444_operating_systems.Pgdir.Insert.{Before, inserted}
use cs444_operating_systems.Pgdir.Remap.{
  inserted-mem, mapping, free_after, page_insert-lookup, page_insert_counts,
}
use cs444_operating_systems.Syscall.{bad_va, bad_perm, map_new, sys_page_alloc}
use cs444_operating_systems.Syscall.Target.{Targets, with_env-ok}
use cs444_operating_systems.Syscall.Flags.{bad_perm-lt}

-- The directory and the table for `va` fill pages that are not free.
pub record IsApart (k : Kernel) (d pgdir va : ℕ) (ps : List ℕ) : Type 0 where
  pub dir : IsDir d pgdir ps
  pub table : HasTable k.npages pgdir va k.mem
  pub used : has (pde_of pgdir va k.mem / 4096) ps ≡ false

-- The flags of the new entry.
abbrev pub flags_of : ℕ → ℕ
flags_of perm = bit_or (bit_or pte_u pte_p) perm

module _ (k : Kernel) (d pgdir va p : ℕ) (ps : List ℕ) (a : IsApart k d pgdir va (p ∷ ps)) where
  same_pde : pde_of pgdir va (allocated alloc_zero p k).mem ≡ pde_of pgdir va k.mem
  unfolding has_flag
  same_pde = ground (arith, a.dir.at, a.dir.used, pdx_lem va)

  same_slot : slot_of pgdir va (allocated alloc_zero p k).mem ≡ slot_of pgdir va k.mem
  same_slot = ap (λ (pde : ℕ). entry_at (pde / 4096 * 4096 + kernbase) (ptx va)) same_pde

  same_pte : pte_of pgdir va (allocated alloc_zero p k).mem ≡ pte_of pgdir va k.mem
  unfolding has_flag
  same_pte = ap (allocated alloc_zero p k).mem same_slot ∙ ground (arith, a.used, ptx_lem va)

  HasTable-allocated : HasTable k.npages pgdir va (allocated alloc_zero p k).mem
  HasTable-allocated =
      let t = a.table in
      record {
        reaches = record {
          small = t.small;
          word = rw same_pde t.word;
          present = rw same_pde t.present;
          exists = rw same_pde t.exists;
        };
        apart = rw same_slot t.apart;
      }

  Before-allocated :
      (old : Option ℕ)
      → Before k pgdir va (p ∷ ps) old
      → Before (allocated alloc_zero p k) pgdir va ps old
  Before-allocated none b = rw same_pte b
  Before-allocated (some q) (m, pos, small, out) = (
    record {
      table = HasTable-allocated;
      word = rw same_pte m.word;
      present = rw same_pte m.present;
      page = rw same_pte m.page;
      exists = m.exists;
    },
    ground (arith, out),
    ground (arith, out),
    ground (arith, out),
  )

  new_clear :
      (perm x : ℕ)
      → p * 4096 + kernbase ≤ x
      → x < p * 4096 + kernbase + pgsize
      → update
          (allocated alloc_zero p k).mem
          (slot_of pgdir va (allocated alloc_zero p k).mem)
          (p * 4096 + bit_or (flags_of perm) pte_p)
          x
        ≡ 0
  unfolding has_flag
  new_clear perm x lo hi = ground (arith, same_slot, a.used, ptx_lem va)

map_new-ok :
    (k k' : Kernel) (e va perm p : ℕ) (ps : List ℕ)
    → IsFree k (p ∷ ps)
    → page_insert (k.envs e).env_pgdir p va (flags_of perm) (allocated alloc_zero p k)
      ≡ ok (value 0) k'
    → map_new e va perm k ≡ ok (value 0) k'
unfolding map_new
map_new-ok k k' e va perm p ps v ins =
    rw (page_alloc-some k alloc_zero p v.small v.chain.0 v.chain.1) (rw ins refl)

-- What sys_page_alloc leaves behind: page `p` is mapped at `va`, has one reference, and its bytes
-- are 0.
pub record IsNew (pgdir va perm p : ℕ) (k : Kernel) : Type 0 where
  pub found : page_lookup pgdir va k ≡ ok (some (p, slot_of pgdir va k.mem)) k
  pub entry : pte_of pgdir va k.mem ≡ p * 4096 + bit_or (flags_of perm) pte_p
  pub references : (k.pages p).pp_ref ≡ 1
  pub clear : (x : ℕ) → p * 4096 + kernbase ≤ x → x < p * 4096 + kernbase + pgsize → k.mem x ≡ 0

mapping-other :
    (old : Option ℕ) (k : Kernel) (pgdir va p : ℕ) (ps : List ℕ)
    → Before k pgdir va (p ∷ ps) old
    → mapping old p ≡ 0
mapping-other none k pgdir va p ps b = refl
mapping-other (some q) k pgdir va p ps b = ground (arith, b.3)

-- map_new where there is memory: page `p` is mapped at `va`, cleared, with one reference.
pub map_new_maps :
    (k : Kernel) (e va perm d p : ℕ) (ps : List ℕ) (old : Option ℕ)
    → bad_perm perm ≡ false
    → perm < 2 ^ 32
    → IsFree k (p ∷ ps)
    → IsApart k d (k.envs e).env_pgdir va (p ∷ ps)
    → Before k (k.envs e).env_pgdir va (p ∷ ps) old
    → let k1 = allocated alloc_zero p k in
      let k' = inserted (k.envs e).env_pgdir p va (flags_of perm) old k1 in
      (map_new e va perm k ≡ ok (value 0) k')
      × IsNew (k.envs e).env_pgdir va perm p k'
      × IsFree k' (free_after k1 p ps old)
map_new_maps k e va perm d p ps old ok' word v apart before =
    let look =
      page_insert-lookup k1 pgdir p va (flags_of perm) ps old table v1 before1 v.chain.1
        (ground (arith, v.chain.3)) small in
    let counts =
      page_insert_counts k1 pgdir p va (flags_of perm) ps old table v1 before1 v.chain.1
        (ground (arith, v.chain.3)) small v.chain.2 in
    (
      map_new-ok k _ e va perm p ps v look.0,
      record {
        found = look.1;
        entry = look.2;
        references =
            ground (arith, counts.1 p, mapping-other old k pgdir va p ps before, v.chain.3);
        clear = λ x lo hi.
            inserted-mem k1 pgdir p va (flags_of perm) ps old x before1
            ∙ new_clear k d pgdir va p ps apart perm x lo hi;
      },
      counts.2,
    )
  where
    pgdir : ℕ
    pgdir = (k.envs e).env_pgdir

    k1 : Kernel
    k1 = allocated alloc_zero p k

    v1 : IsFree k1 ps
    v1 = IsFree-allocated k alloc_zero p ps v

    table : HasTable k1.npages pgdir va k1.mem
    table = HasTable-allocated k d pgdir va p ps apart

    before1 : Before k1 pgdir va ps old
    before1 = Before-allocated k d pgdir va p ps apart old before

    small : flags_of perm < 4096
    small = bit_or-lt 12 5 perm (omega arith) (bad_perm-lt perm word ok')

-- sys_page_alloc with an aligned address below UTOP and permissions that are allowed, for an
-- environment that the caller may change and whose directory has a table for `va`, takes the
-- first free page, cleared, and maps it at `va`: the lookup finds it, and it has one reference. A page
-- that was mapped there is removed, and is freed if that was its last reference. The hypotheses:
-- the page directory and the table are not in free pages, nor is the page mapped before.
pub sys_page_alloc_maps :
    (k : Kernel) (c envid e va perm d p : ℕ) (ps : List ℕ) (old : Option ℕ)
    → Targets k c envid true e
    → bad_va va ≡ false
    → bad_perm perm ≡ false
    → perm < 2 ^ 32
    → IsFree k (p ∷ ps)
    → IsApart k d (k.envs e).env_pgdir va (p ∷ ps)
    → Before k (k.envs e).env_pgdir va (p ∷ ps) old
    → let k1 = allocated alloc_zero p k in
      let k' = inserted (k.envs e).env_pgdir p va (flags_of perm) old k1 in
      (sys_page_alloc envid va perm k ≡ ok (value 0) k')
      × IsNew (k.envs e).env_pgdir va perm p k'
      × IsFree k' (free_after k1 p ps old)
unfolding sys_page_alloc
sys_page_alloc_maps k c envid e va perm d p ps old t fine ok' word v apart before =
    let new = map_new_maps k e va perm d p ps old ok' word v apart before in
    (rw (with_env-ok k c envid true e _ t) (rw (fine, ok') new.0), new.1, new.2)
