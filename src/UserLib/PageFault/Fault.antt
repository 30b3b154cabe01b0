-- ===== src/UserLib/PageFault/Fault.antt =====
-- pgfault of jos/lib/fork.c up to the copy of the page.
use cs444_operating_systems.Base.{
  ℕ, ◌+◌, ◌*◌, ◌/◌, ◌%◌, ◌^◌, ◌≤◌, ◌<◌, ◌≡◌, ◌≢◌, ◌⊎◌, inl, inr, refl, false, none, some, List, ◌∷◌,
  arith, ◌∙◌, ap, sym, update, bit_and, bit_or, update_ne,
}
use mathlib.Core.Path.{subst}
use native.Mathlib.Decide.{dec_lt}
use cs444_operating_systems.Mmu.{kernbase, utop, pdx, ptx, pgoff, has_flag, pte_p}
use cs444_operating_systems.Mmu.Address.{pdx_lem, ptx_lem}
use cs444_operating_systems.Kernel.{Kernel}
use cs444_operating_systems.Kernel.Run.{ok}
use cs444_operating_systems.Errors.{value}
use cs444_operating_systems.Pages.{alloc_zero}
use cs444_operating_systems.Pages.Free.{has, IsFree, allocated}
use cs444_operating_systems.Pgdir.{entry_at, page_insert}
use cs444_operating_systems.Pgdir.Walk.{pde_of, slot_of}
use cs444_operating_systems.Pgdir.Map.{pte_of, IsMapped, removed}
use cs444_operating_systems.Pgdir.Insert.{Before, inserted}
use cs444_operating_systems.Pgdir.Remap.{inserted-IsMapped, mapping, free_after, page_insert_counts}
use cs444_operating_systems.Syscall.{bad_perm, map_new, sys_page_alloc}
use cs444_operating_systems.Syscall.NewPage.{IsApart, IsNew, flags_of, map_new_maps}
use cs444_operating_systems.UserLib.Frame.{self-ok}
use cs444_operating_systems.UserLib.PageFault.{
  pftemp, fec_wr, cow_flags, private_perm, copy_words, memcpy_page,
}
use cs444_operating_systems.UserLib.PageFault.Steps.{
  Agrees, slot_agree, pte_agree, HasTable-agree, IsMapped-agree, memcpy_page-ok,
}

abbrev pub page_of : ℕ → ℕ
page_of fault_va = fault_va / 4096 * 4096

-- A write to a page that is copy-on-write in the current environment `c`: `q` is mapped there, `p` is
-- the first free page, and nothing is mapped at PFTEMP, for which there is a page table. The directory
-- and the tables are in pages that are not free, `q` is none of them, and the entries are different.
pub record Faults (k : Kernel) (c fault_va err d p q : ℕ) (ps : List ℕ) : Type 0 where
  pub current : k.curenv ≡ some c
  pub write : bit_and err fec_wr ≢ 0
  pub below : fault_va < utop
  pub mapped : IsMapped k.npages (k.envs c).env_pgdir (page_of fault_va) q k.mem
  pub cow : bit_and (pte_of (k.envs c).env_pgdir (page_of fault_va) k.mem) cow_flags ≡ cow_flags
  pub free_list : IsFree k (p ∷ ps)
  pub at_page : IsApart k d (k.envs c).env_pgdir (page_of fault_va) (p ∷ ps)
  pub at_temp : IsApart k d (k.envs c).env_pgdir pftemp (p ∷ ps)
  pub empty : pte_of (k.envs c).env_pgdir pftemp k.mem % 2 ≡ 0
  pub used : (0 < (k.pages q).pp_ref) × ((k.pages q).pp_ref < 2 ^ 16) × (has q (p ∷ ps) ≡ false)
  pub slots :
      slot_of (k.envs c).env_pgdir (page_of fault_va) k.mem
      ≢ slot_of (k.envs c).env_pgdir pftemp k.mem
  pub page_off :
      slot_of (k.envs c).env_pgdir (page_of fault_va) k.mem
      ≢ entry_at (k.envs c).env_pgdir (pdx pftemp)
  pub temp_off :
      slot_of (k.envs c).env_pgdir pftemp k.mem
      ≢ entry_at (k.envs c).env_pgdir (pdx (page_of fault_va))
  pub own_table : pde_of (k.envs c).env_pgdir (page_of fault_va) k.mem / 4096 ≢ q
  pub temp_table : pde_of (k.envs c).env_pgdir pftemp k.mem / 4096 ≢ q

pub removed-mem :
    (k : Kernel) (pgdir va q a : ℕ)
    → (removed pgdir va q k).mem a ≡ update k.mem (slot_of pgdir va k.mem) 0 a
removed-mem k pgdir va q a = ground arith

module _ (k : Kernel) (c fault_va err d p q : ℕ) (ps : List ℕ)
    (h : Faults k c fault_va err d p q ps) where
  abbrev pub dir : ℕ
  dir = (k.envs c).env_pgdir

  abbrev pub va : ℕ
  va = page_of fault_va

  abbrev pub frame : ℕ
  frame = p * 4096 + kernbase

  abbrev pub Outside : ℕ → Type 0
  Outside a = (a < frame) ⊎ (frame + 4096 ≤ a)

  abbrev pub ka : Kernel
  ka = allocated alloc_zero p k

  abbrev pub k1 : Kernel
  k1 = inserted dir p pftemp (flags_of private_perm) none ka

  abbrev pub k2 : Kernel
  k2 = record k1 { mem = copy_words frame (q * 4096 + kernbase) k1.mem }

  abbrev pub k3 : Kernel
  k3 = inserted dir p va private_perm (some q) k2

  pub other_page : q ≢ p
  other_page e = ground (arith, h.used.2)

  word-Outside : (t i : ℕ) → t ≢ p → i < 1024 → Outside (t * 4096 + kernbase + 4 * i)
  word-Outside t i ne lt = elim (dec_lt t p) [
    | yes l ↦ inl (omega arith)
    | no g ↦ inr (omega arith)
  ]

  directory-Outside : (v : ℕ) → Outside (entry_at dir (pdx v))
  directory-Outside v =
      let ne : d ≢ p = λ e. ground (arith, h.at_temp.dir.used) in
      subst Outside (omega (arith, h.at_temp.dir.at))
        (word-Outside d (pdx v) ne (omega (arith, pdx_lem v)))

  slot-Outside :
      (v : ℕ) → has (pde_of dir v k.mem / 4096) (p ∷ ps) ≡ false → Outside (slot_of dir v k.mem)
  slot-Outside v out =
      word-Outside (pde_of dir v k.mem / 4096) (ptx v) (λ e. ground (arith, out))
        (omega (arith, ptx_lem v))

  alloc_same : (a : ℕ) → Outside a → ka.mem a ≡ k.mem a
  unfolding has_flag
  alloc_same a out = ground arith

  temp-Agrees : Agrees dir pftemp k.mem ka.mem
  temp-Agrees = record {
    directory = alloc_same _ (directory-Outside pftemp);
    entry = alloc_same _ (slot-Outside pftemp h.at_temp.used);
  }

  temp_slot : slot_of dir pftemp ka.mem ≡ slot_of dir pftemp k.mem
  temp_slot = slot_agree k.npages dir pftemp k.mem ka.mem temp-Agrees

  pub first_same : (a : ℕ) → Outside a → a ≢ slot_of dir pftemp k.mem → k1.mem a ≡ k.mem a
  first_same a out ne =
      update_ne ka.mem (p * 4096 + bit_or (flags_of private_perm) pte_p) (λ e. ne (e ∙ temp_slot))
      ∙ alloc_same a out

  page-Agrees1 : Agrees dir va k.mem k1.mem
  page-Agrees1 = record {
    directory = first_same _ (directory-Outside va) (λ e. h.temp_off (sym e));
    entry = first_same _ (slot-Outside va h.at_page.used) h.slots;
  }

  page-IsMapped1 : IsMapped k.npages dir va q k1.mem
  page-IsMapped1 = IsMapped-agree k.npages dir va k.mem k1.mem page-Agrees1 q h.mapped

  pub new :
      (map_new c pftemp private_perm k ≡ ok (value 0) k1)
      × IsNew dir pftemp private_perm p k1
      × IsFree k1 ps
  new =
      map_new_maps k c pftemp private_perm d p ps none (unfold bad_perm in refl) (omega arith)
        h.free_list h.at_temp h.empty

  temp-IsMapped1 : IsMapped k.npages dir pftemp p k1.mem
  temp-IsMapped1 =
      (inserted-IsMapped ka dir p pftemp (flags_of private_perm) ps none
        (HasTable-agree k.npages dir pftemp k.mem ka.mem temp-Agrees h.at_temp.table)
        (omega (arith, pte_agree k.npages dir pftemp k.mem ka.mem temp-Agrees, h.empty))
        h.free_list.chain.1 (omega arith)).0

  pub first_call : sys_page_alloc 0 pftemp private_perm k ≡ ok (value 0) k1
  unfolding sys_page_alloc pgoff bad_perm
  first_call = rw (self-ok k c _ h.current) new.0

  pub copy_same : (a : ℕ) → Outside a → k2.mem a ≡ k1.mem a
  copy_same a out = ground arith

  pub slot1 : slot_of dir va k1.mem ≡ slot_of dir va k.mem
  slot1 = slot_agree k.npages dir va k.mem k1.mem page-Agrees1

  pub temp_slot1 : slot_of dir pftemp k1.mem ≡ slot_of dir pftemp k.mem
  temp_slot1 =
      ap (λ (pde : ℕ). entry_at (pde / 4096 * 4096 + kernbase) (ptx pftemp))
        (first_same _ (directory-Outside pftemp) (λ e. h.at_temp.table.apart (sym e)))

  pub page-Agrees2 : Agrees dir va k1.mem k2.mem
  page-Agrees2 = record {
    directory = copy_same _ (directory-Outside va);
    entry = copy_same _ (subst Outside (sym slot1) (slot-Outside va h.at_page.used));
  }

  pub temp-Agrees2 : Agrees dir pftemp k1.mem k2.mem
  temp-Agrees2 = record {
    directory = copy_same _ (directory-Outside pftemp);
    entry = copy_same _ (subst Outside (sym temp_slot1) (slot-Outside pftemp h.at_temp.used));
  }

  pub page-IsMapped2 : IsMapped k.npages dir va q k2.mem
  page-IsMapped2 = IsMapped-agree k.npages dir va k1.mem k2.mem page-Agrees2 q page-IsMapped1

  pub temp-IsMapped2 : IsMapped k.npages dir pftemp p k2.mem
  temp-IsMapped2 = IsMapped-agree k.npages dir pftemp k1.mem k2.mem temp-Agrees2 p temp-IsMapped1

  k2-IsFree : IsFree k2 ps
  k2-IsFree = record { small = new.2.small; chain = new.2.chain; unlinked = new.2.unlinked }

  pub copied : memcpy_page pftemp va k1 ≡ ok tt k2
  copied = memcpy_page-ok k1 c pftemp va p q h.current temp-IsMapped1 page-IsMapped1

  pub references_q : (k2.pages q).pp_ref ≡ (k.pages q).pp_ref
  references_q = ground (arith, other_page)

  pub page-Before : Before k2 dir va ps (some q)
  page-Before = (
    page-IsMapped2,
    omega (arith, references_q, h.used),
    omega (arith, references_q, h.used),
    ground (arith, h.used.2),
  )

  pub counts :
      (page_insert dir p va private_perm k2 ≡ ok (value 0) k3)
      × ((r : ℕ)
          → (k3.pages r).pp_ref + mapping (some q) r ≡ (k2.pages r).pp_ref + mapping (some p) r)
      × IsFree k3 (free_after k2 p ps (some q))
  counts =
      page_insert_counts k2 dir p va private_perm ps (some q) page-IsMapped2.table k2-IsFree
        page-Before h.free_list.chain.1 (omega (arith, new.1.references)) (omega arith)
        h.free_list.chain.2
