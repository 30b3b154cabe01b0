-- ===== src/UserLib/Duplicate.antt =====
-- duppage of jos/lib/fork.c.
use cs444_operating_systems.Base.{
  ℕ, ◌+◌, ◌*◌, ◌%◌, ◌^◌, ◌<◌, ◌≡◌, ◌≢◌, refl, true, false, none, some, List, arith, update, bit_or,
  sym, ◌∙◌,
}
use mathlib.Core.Path.{subst, fun_ext}
use cs444_operating_systems.Base.Bits.{bit_and_low_mask, bit_and_bit}
use cs444_operating_systems.Mmu.{u32, utop, pgoff, pgsize, pdx, has_flag, pte_p, pte_w, pte_u}
use cs444_operating_systems.Kernel.{Kernel}
use cs444_operating_systems.Kernel.Run.{ok}
use cs444_operating_systems.Errors.{value}
use cs444_operating_systems.Pages.Free.{has, IsFree}
use cs444_operating_systems.Pgdir.{entry_at, page_insert}
use cs444_operating_systems.Pgdir.Walk.{slot_of, HasTable}
use cs444_operating_systems.Pgdir.Map.{pte_of, IsMapped}
use cs444_operating_systems.Pgdir.Insert.{Before, inserted, page_insert-ok}
use cs444_operating_systems.Pgdir.Remap.{
  HasTable-write, inserted-IsMapped, inserted-mem, mapping, free_after, page_insert_counts,
}
use cs444_operating_systems.Syscall.{bad_va, bad_perm, sys_page_map}
use cs444_operating_systems.Syscall.Target.{Targets, with_env-ok}
use cs444_operating_systems.Syscall.Share.{map_granted, widens}
use cs444_operating_systems.UserLib.Frame.{self-ok, slot_frame, pte_frame, IsMapped-frame, uvpt-ok}
use cs444_operating_systems.UserLib.{pte_cow, copies, copy_perm, duppage}

abbrev pub cow_perm : ℕ
cow_perm = bit_or (bit_or pte_u pte_p) pte_cow

-- The entry is not writable.
not_writable : (q : ℕ) → has_flag (q * 4096 + bit_or cow_perm pte_p) pte_w ≡ false
unfolding has_flag
not_writable q = ground (arith, bit_and_bit 1 (q * 4096 + bit_or cow_perm pte_p))

-- The page `q` is mapped at page `pn` of the current environment `c`, writable or copy-on-write, and
-- nothing is mapped there in `d`, which has a page table for it. Neither entry is an entry of the
-- other's way.
pub record Duplicates (k : Kernel) (c envid d pn q : ℕ) (ps : List ℕ) : Type 0 where
  pub current : k.curenv ≡ some c
  pub target : Targets k c envid true d
  pub below : pn * 4096 < utop
  pub mapped : IsMapped k.npages (k.envs c).env_pgdir (pn * 4096) q k.mem
  pub changes : copies (pte_of (k.envs c).env_pgdir (pn * 4096) k.mem) ≡ true
  pub table : HasTable k.npages (k.envs d).env_pgdir (pn * 4096) k.mem
  pub empty : pte_of (k.envs d).env_pgdir (pn * 4096) k.mem % 2 ≡ 0
  pub free_list : IsFree k ps
  pub used : (0 < (k.pages q).pp_ref) × ((k.pages q).pp_ref + 2 < 2 ^ 16) × (has q ps ≡ false)
  pub slots :
      slot_of (k.envs d).env_pgdir (pn * 4096) k.mem
      ≢ slot_of (k.envs c).env_pgdir (pn * 4096) k.mem
  pub own :
      slot_of (k.envs d).env_pgdir (pn * 4096) k.mem
      ≢ entry_at (k.envs c).env_pgdir (pdx (pn * 4096))
  pub other :
      slot_of (k.envs c).env_pgdir (pn * 4096) k.mem
      ≢ entry_at (k.envs d).env_pgdir (pdx (pn * 4096))

-- The kernel when both have the page copy-on-write.
abbrev given : Kernel → (d pn q : ℕ) → Kernel
given k d pn q = inserted (k.envs d).env_pgdir q (pn * 4096) cow_perm none k

abbrev pub duplicated : Kernel → (c d pn q : ℕ) → Kernel
duplicated k c d pn q =
    inserted (k.envs c).env_pgdir q (pn * 4096) cow_perm (some q) (given k d pn q)

module _ (k : Kernel) (c envid d pn q : ℕ) (ps : List ℕ) (h : Duplicates k c envid d pn q ps) where
  abbrev va : ℕ
  va = pn * 4096

  fine_va : bad_va va ≡ false
  unfolding pgoff
  fine_va = ground (arith, h.below, bit_and_low_mask 12 va)

  fine_perm : bad_perm cow_perm ≡ false
  unfolding bad_perm
  fine_perm = refl

  no_widening : (pte : ℕ) → widens cow_perm pte ≡ false
  unfolding has_flag
  no_widening pte = refl

  first_insert : page_insert (k.envs d).env_pgdir q va cow_perm k ≡ ok (value 0) (given k d pn q)
  first_insert =
      page_insert-ok k (k.envs d).env_pgdir q va cow_perm ps none h.table h.free_list h.empty
        h.mapped.exists (omega (arith, h.used)) (omega arith)

  first_call : sys_page_map 0 va envid va cow_perm k ≡ ok (value 0) (given k d pn q)
  unfolding sys_page_map
  first_call = rw (self-ok k c _ h.current) (
      rw (with_env-ok k c envid true d _ h.target) (
        rw (fine_va, fine_perm)
          (map_granted k (given k d pn q) c va d va cow_perm q h.mapped
            (no_widening (pte_of (k.envs c).env_pgdir va k.mem)) first_insert)))

  abbrev k1 : Kernel
  k1 = given k d pn q

  parent-IsMapped : IsMapped k.npages (k.envs c).env_pgdir va q k1.mem
  parent-IsMapped =
      IsMapped-frame k.npages (k.envs c).env_pgdir va (slot_of (k.envs d).env_pgdir va k.mem)
        (q * 4096 + bit_or cow_perm pte_p) k.mem h.slots h.own q h.mapped

  first_counts :
      (page_insert (k.envs d).env_pgdir q va cow_perm k ≡ ok (value 0) k1)
      × ((r : ℕ) → (k1.pages r).pp_ref + mapping none r ≡ (k.pages r).pp_ref + mapping (some q) r)
      × IsFree k1 ps
  first_counts =
      page_insert_counts k (k.envs d).env_pgdir q va cow_perm ps none h.table h.free_list h.empty
        h.mapped.exists (omega (arith, h.used)) (omega arith) h.used.2

  one : mapping (some q) q ≡ 1
  one = ground arith

  parent-Before : Before k1 (k.envs c).env_pgdir va ps (some q)
  parent-Before = (
    parent-IsMapped,
    omega (arith, one, first_counts.1 q),
    omega (arith, one, first_counts.1 q, h.used),
    h.used.2,
  )

  room : (k1.pages q).pp_ref + 1 < 2 ^ 16
  room = omega (arith, one, first_counts.1 q, h.used)

  second_counts :
      (page_insert (k.envs c).env_pgdir q va cow_perm k1 ≡ ok (value 0) (duplicated k c d pn q))
      × ((r : ℕ)
          → ((duplicated k c d pn q).pages r).pp_ref + mapping (some q) r
            ≡ (k1.pages r).pp_ref + mapping (some q) r)
      × IsFree (duplicated k c d pn q) (free_after k1 q ps (some q))
  second_counts =
      page_insert_counts k1 (k.envs c).env_pgdir q va cow_perm ps (some q) parent-IsMapped.table
        first_counts.2 parent-Before h.mapped.exists room (omega arith) h.used.2

  none_freed : free_after k1 q ps (some q) ≡ ps
  none_freed = ground (arith, one, first_counts.1 q, h.used)

  second_call : sys_page_map 0 va 0 va cow_perm k1 ≡ ok (value 0) (duplicated k c d pn q)
  unfolding sys_page_map
  second_call = rw (self-ok k1 c _ h.current) (
      rw (self-ok k1 c _ h.current) (
        rw (fine_va, fine_perm)
          (map_granted k1 (duplicated k c d pn q) c va c va cow_perm q parent-IsMapped
            (no_widening (pte_of (k.envs c).env_pgdir va k1.mem)) second_counts.0)))

  called : duppage envid pn k ≡ ok (value 0) (duplicated k c d pn q)
  unfolding duppage
  called =
      let small : u32 (pn * pgsize) ≡ va = omega (arith, h.below) in
      let perm : copy_perm (pte_of (k.envs c).env_pgdir va k.mem) ≡ cow_perm = rw h.changes refl in
      rw (uvpt-ok k c pn q h.current (omega (arith, h.below)) h.mapped)
        (rw (small, perm) (rw first_call (rw h.changes (rw (small, second_call) refl))))

  child-IsMapped :
      IsMapped k.npages (k.envs d).env_pgdir va q k1.mem
      × (pte_of (k.envs d).env_pgdir va k1.mem ≡ q * 4096 + bit_or cow_perm pte_p)
  child-IsMapped =
      inserted-IsMapped k (k.envs d).env_pgdir q va cow_perm ps none h.table h.empty h.mapped.exists
        (omega arith)

  -- The second call does not touch the child's entry.
  child_kept :
      IsMapped k.npages (k.envs d).env_pgdir va q (duplicated k c d pn q).mem
      × (pte_of (k.envs d).env_pgdir va (duplicated k c d pn q).mem
          ≡ q * 4096 + bit_or cow_perm pte_p)
  child_kept =
      let cdir = (k.envs d).env_pgdir in
      let pdir = (k.envs c).env_pgdir in
      let pte : ℕ = q * 4096 + bit_or cow_perm pte_p in
      let from : slot_of pdir va k1.mem ≡ slot_of pdir va k.mem =
        slot_frame k.npages pdir va (slot_of cdir va k.mem) pte k.mem h.slots h.own in
      let to : slot_of cdir va k1.mem ≡ slot_of cdir va k.mem =
        (HasTable-write k.npages cdir va pte k.mem h.table).1 in
      let off : slot_of pdir va k1.mem ≢ slot_of cdir va k1.mem =
        λ e. h.slots (sym to ∙ sym e ∙ from) in
      let off' : slot_of pdir va k1.mem ≢ entry_at cdir (pdx va) = λ e. h.other (sym from ∙ e) in
      let same : (duplicated k c d pn q).mem ≡ update k1.mem (slot_of pdir va k1.mem) pte =
        fun_ext λ a. inserted-mem k1 pdir q va cow_perm ps (some q) a parent-Before in
      subst (λ m. IsMapped k.npages cdir va q m × (pte_of cdir va m ≡ pte)) (sym same)
        (
          IsMapped-frame k.npages cdir va (slot_of pdir va k1.mem) pte k1.mem off off' q
              child-IsMapped.0,
          pte_frame k.npages cdir va (slot_of pdir va k1.mem) pte k1.mem off off'
              ∙ child-IsMapped.1,
        )

  parent_kept :
      IsMapped k.npages (k.envs c).env_pgdir va q (duplicated k c d pn q).mem
      × (pte_of (k.envs c).env_pgdir va (duplicated k c d pn q).mem
          ≡ q * 4096 + bit_or cow_perm pte_p)
  parent_kept =
      inserted-IsMapped k1 (k.envs c).env_pgdir q va cow_perm ps (some q) parent-IsMapped.table
        parent-Before h.mapped.exists (omega arith)

-- duppage of a page that is writable or copy-on-write in the caller, into another environment where
-- nothing is mapped at this address: it returns 0, and both environments have the same page there,
-- readable by the user and copy-on-write, and not writable in either. The page has one more
-- reference, no other counter changes, and no page is freed. The hypotheses are those of
-- Duplicates: among them, the page is in use and its counter does not overflow, and the two
-- environments do not share the page table.
pub duppage_protects :
    (k : Kernel) (c envid d pn q : ℕ) (ps : List ℕ)
    → Duplicates k c envid d pn q ps
    → let k' = duplicated k c d pn q in
      let pte = q * 4096 + bit_or cow_perm pte_p in
      (duppage envid pn k ≡ ok (value 0) k')
      × IsMapped k.npages (k.envs c).env_pgdir (pn * 4096) q k'.mem
      × IsMapped k.npages (k.envs d).env_pgdir (pn * 4096) q k'.mem
      × (pte_of (k.envs c).env_pgdir (pn * 4096) k'.mem ≡ pte)
      × (pte_of (k.envs d).env_pgdir (pn * 4096) k'.mem ≡ pte)
      × (has_flag pte pte_w ≡ false)
      × ((r : ℕ) → (k'.pages r).pp_ref ≡ (k.pages r).pp_ref + mapping (some q) r)
      × IsFree k' ps
duppage_protects k c envid d pn q ps h =
    let counts = second_counts k c envid d pn q ps h in
    let first = first_counts k c envid d pn q ps h in
    (
      called k c envid d pn q ps h,
      (parent_kept k c envid d pn q ps h).0,
      (child_kept k c envid d pn q ps h).0,
      (parent_kept k c envid d pn q ps h).1,
      (child_kept k c envid d pn q ps h).1,
      not_writable q,
      λ r. omega (arith, counts.1 r, first.1 r),
      subst (IsFree (duplicated k c d pn q)) (none_freed k c envid d pn q ps h) counts.2,
    )
