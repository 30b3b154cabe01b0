-- ===== src/UserLib/PageFault/Copy.antt =====
-- pgfault of jos/lib/fork.c gives the program a copy of its own.
use cs444_operating_systems.Base.{
  ℕ, ◌+◌, ◌*◌, ◌/◌, ◌<◌, ◌≡◌, ◌≢◌, inl, inr, refl, false, none, some, List, ◌∷◌, arith, ◌∙◌, ap,
  sym, bit_and, bit_or, update_ne, ne→==, if◌then◌else◌, ◌==◌,
}
use mathlib.Core.Path.{subst}
use native.Mathlib.Decide.{dec_lt}
use cs444_operating_systems.Mmu.{kernbase, pgsize, ptx, pgoff, pgnum, round_down, has_flag, pte_p}
use cs444_operating_systems.Base.Bits.{bit_and_low_mask, bit_and_bit}
use cs444_operating_systems.Mmu.Address.{ptx_lem}
use cs444_operating_systems.Mmu.Rounding.{round_down-div}
use cs444_operating_systems.Kernel.{Kernel}
use cs444_operating_systems.Kernel.Run.{ok}
use cs444_operating_systems.Errors.{value}
use cs444_operating_systems.Pages.Free.{has, IsFree}
use cs444_operating_systems.Pgdir.{entry_at, page_lookup, page_remove}
use cs444_operating_systems.Pgdir.Walk.{pde_of, slot_of}
use cs444_operating_systems.Pgdir.Map.{pte_of, IsMapped, removed}
use cs444_operating_systems.Pgdir.Insert.{Before}
use cs444_operating_systems.Pgdir.Remap.{
  inserted-mem, inserted-IsMapped, npages-inserted, mapping, free_after,
}
use cs444_operating_systems.Pgdir.Unmap
use cs444_operating_systems.Pgdir.Unmap.{page_remove_unmaps}
use cs444_operating_systems.Syscall.{bad_va, bad_perm, sys_page_map, sys_page_unmap}
use cs444_operating_systems.Syscall.Share.{widens, map_granted}
use cs444_operating_systems.UserLib.Frame.{self-ok, uvpt-ok}
use cs444_operating_systems.UserLib.PageFault.{pftemp, fec_wr, private_perm, pgfault}
use cs444_operating_systems.UserLib.PageFault.Steps.{Agrees, slot_agree, pte_agree, IsMapped-agree}
use cs444_operating_systems.UserLib.PageFault.Fault
use cs444_operating_systems.UserLib.PageFault.Fault.{
  page_of, Faults, removed-mem, other_page, first_same, new, first_call, copy_same, slot1,
  temp_slot1, page-Agrees2, temp-Agrees2, page-IsMapped2, temp-IsMapped2, copied, references_q,
  page-Before, counts,
}

module _ (k : Kernel) (c fault_va err d p q : ℕ) (ps : List ℕ)
    (h : Faults k c fault_va err d p q ps) where
  abbrev dir : ℕ
  dir = Fault.dir k c fault_va err d p q ps h

  abbrev va : ℕ
  va = Fault.va k c fault_va err d p q ps h

  abbrev frame : ℕ
  frame = Fault.frame k c fault_va err d p q ps h

  abbrev Outside : ℕ → Type 0
  Outside = Fault.Outside k c fault_va err d p q ps h

  abbrev k1 : Kernel
  k1 = Fault.k1 k c fault_va err d p q ps h

  abbrev k2 : Kernel
  k2 = Fault.k2 k c fault_va err d p q ps h

  abbrev k3 : Kernel
  k3 = Fault.k3 k c fault_va err d p q ps h

  fine_va : bad_va va ≡ false
  unfolding pgoff
  fine_va = ground (arith, h.below, bit_and_low_mask 12 va)

  no_widening : widens private_perm (pte_of dir pftemp k2.mem) ≡ false
  unfolding has_flag
  no_widening =
      let e : pte_of dir pftemp k2.mem ≡ p * 4096 + 7 =
        pte_agree k.npages dir pftemp k1.mem k2.mem (temp-Agrees2 k c fault_va err d p q ps h)
        ∙ (new k c fault_va err d p q ps h).1.entry in
      rw e (ground (arith, bit_and_bit 1 (p * 4096 + 7)))

  second_call : sys_page_map 0 pftemp 0 va private_perm k2 ≡ ok (value 0) k3
  unfolding sys_page_map pgoff bad_perm
  second_call = rw (self-ok k2 c _ h.current) (
      rw (self-ok k2 c _ h.current) (
        rw fine_va (
          map_granted k2 k3 c pftemp c va private_perm p
            (temp-IsMapped2 k c fault_va err d p q ps h) no_widening
            (counts k c fault_va err d p q ps h).0)))

  slot2 : slot_of dir va k2.mem ≡ slot_of dir va k.mem
  slot2 =
      slot_agree k.npages dir va k1.mem k2.mem (page-Agrees2 k c fault_va err d p q ps h)
      ∙ (slot1 k c fault_va err d p q ps h)

  temp_slot2 : slot_of dir pftemp k2.mem ≡ slot_of dir pftemp k.mem
  temp_slot2 =
      slot_agree k.npages dir pftemp k1.mem k2.mem (temp-Agrees2 k c fault_va err d p q ps h)
      ∙ (temp_slot1 k c fault_va err d p q ps h)

  third_same : (a : ℕ) → a ≢ slot_of dir va k.mem → k3.mem a ≡ k2.mem a
  third_same a ne =
      inserted-mem k2 dir p va private_perm ps (some q) a (page-Before k c fault_va err d p q ps h)
      ∙ update_ne k2.mem (p * 4096 + bit_or private_perm pte_p) (λ e. ne (e ∙ slot2))

  temp-Agrees3 : Agrees dir pftemp k2.mem k3.mem
  temp-Agrees3 = record {
    directory = third_same _ (λ e. h.page_off (sym e));
    entry = third_same _ (λ e. h.slots (sym e ∙ temp_slot2));
  }

  temp-IsMapped3 : IsMapped k.npages dir pftemp p k3.mem
  temp-IsMapped3 =
      IsMapped-agree k.npages dir pftemp k2.mem k3.mem temp-Agrees3 p
        (temp-IsMapped2 k c fault_va err d p q ps h)

  page-IsMapped3 :
      IsMapped k.npages dir va p k3.mem
      × (pte_of dir va k3.mem ≡ p * 4096 + bit_or private_perm pte_p)
  page-IsMapped3 =
      inserted-IsMapped k2 dir p va private_perm ps (some q)
        (page-IsMapped2 k c fault_va err d p q ps h).table (page-Before k c fault_va err d p q ps h)
        h.free_list.chain.1 (omega arith)

  two : (k3.pages p).pp_ref ≡ 2
  two =
      let a : mapping (some q) p ≡ 0 = ground (arith, (other_page k c fault_va err d p q ps h)) in
      let b : mapping (some p) p ≡ 1 = ground arith in
      omega (
        arith,
        (counts k c fault_va err d p q ps h).1 p,
        (new k c fault_va err d p q ps h).1.references,
        a,
        b,
      )

  abbrev qs : List ℕ
  qs = free_after k2 p ps (some q)

  kept : has p qs ≡ false
  kept = ground (arith, (other_page k c fault_va err d p q ps h), h.free_list.chain.2)

  temp-Before : Before k3 dir pftemp qs (some p)
  temp-Before = (
    subst (λ (n : ℕ). IsMapped n dir pftemp p k3.mem)
        (sym (npages-inserted k2 dir p va private_perm (some q))) temp-IsMapped3,
    omega (arith, two),
    omega (arith, two),
    kept,
  )

  abbrev k4 : Kernel
  k4 = removed dir pftemp p k3

  current3 : k3.curenv ≡ some c
  current3 = ground (arith, h.current)

  same_dir : (k3.envs c).env_pgdir ≡ dir
  same_dir = ground arith

  unmapped_temp :
      (page_remove dir pftemp k3 ≡ ok tt k4)
      × (page_lookup dir pftemp k4 ≡ ok none k4)
      × ((r : ℕ) → (k4.pages r).pp_ref + mapping (some p) r ≡ (k3.pages r).pp_ref)
      × IsFree k4 (Unmap.free_after k3 qs (some p))
      × (k4.invlpgs ≡ Unmap.flushes dir pftemp (some p) k3)
  unmapped_temp =
      page_remove_unmaps k3 dir pftemp qs (some p) (counts k c fault_va err d p q ps h).2
        temp-Before

  third_call : sys_page_unmap 0 pftemp k3 ≡ ok (value 0) k4
  unfolding sys_page_unmap pgoff
  third_call = rw (self-ok k3 c _ current3) (rw same_dir (rw unmapped_temp.0 refl))

  temp_slot3 : slot_of dir pftemp k3.mem ≡ slot_of dir pftemp k.mem
  temp_slot3 = slot_agree k.npages dir pftemp k2.mem k3.mem temp-Agrees3 ∙ temp_slot2

  last_same : (a : ℕ) → a ≢ slot_of dir pftemp k.mem → k4.mem a ≡ k3.mem a
  last_same a ne = removed-mem k3 dir pftemp p a ∙ update_ne k3.mem 0 (λ e. ne (e ∙ temp_slot3))

  slot3 : slot_of dir va k3.mem ≡ slot_of dir va k.mem
  slot3 =
      ap (λ (pde : ℕ). entry_at (pde / 4096 * 4096 + kernbase) (ptx va))
        (third_same _ (λ e. h.at_page.table.apart (sym e)))
      ∙ slot2

  page-Agrees4 : Agrees dir va k3.mem k4.mem
  page-Agrees4 = record {
    directory = last_same _ (λ e. h.temp_off (sym e));
    entry = last_same _ (λ e. h.slots (sym slot3 ∙ e));
  }

  page-IsMapped4 :
      IsMapped k.npages dir va p k4.mem
      × (pte_of dir va k4.mem ≡ p * 4096 + bit_or private_perm pte_p)
  page-IsMapped4 = (
    IsMapped-agree k.npages dir va k3.mem k4.mem page-Agrees4 p page-IsMapped3.0,
    pte_agree k.npages dir va k3.mem k4.mem page-Agrees4 ∙ page-IsMapped3.1,
  )

  -- A word of a page is no entry of a table in another page.
  word-ne-slot :
      (t v off : ℕ)
      → pde_of dir v k.mem / 4096 ≢ t
      → off < 4096
      → t * 4096 + kernbase + off ≢ slot_of dir v k.mem
  word-ne-slot t v off ne lt e = ne (omega (arith, ptx_lem v))

  table-ne :
      (v : ℕ) → has (pde_of dir v k.mem / 4096) (p ∷ ps) ≡ false → pde_of dir v k.mem / 4096 ≢ p
  table-ne v out e = ground (arith, out)

  source-Outside : (off : ℕ) → off < 4096 → Outside (q * 4096 + kernbase + off)
  source-Outside off lt = elim (dec_lt q p) [
    | yes l ↦ inl (omega arith)
    | no g ↦ inr (omega (arith, (other_page k c fault_va err d p q ps h)))
  ]

  source_kept :
      (off : ℕ)
      → off < 4096
      → k1.mem (q * 4096 + kernbase + off) ≡ k.mem (q * 4096 + kernbase + off)
  source_kept off lt =
      (first_same k c fault_va err d p q ps h) (q * 4096 + kernbase + off) (source-Outside off lt)
        (word-ne-slot q pftemp off h.temp_table lt)

  contents : (off : ℕ) → off < 4096 → k4.mem (frame + off) ≡ k.mem (q * 4096 + kernbase + off)
  contents off lt =
      last_same (frame + off) (word-ne-slot p pftemp off (table-ne pftemp h.at_temp.used) lt)
      ∙ third_same (frame + off) (word-ne-slot p va off (table-ne va h.at_page.used) lt)
      ∙ ground (arith, source_kept off lt)

  original :
      (off : ℕ)
      → off < 4096
      → k4.mem (q * 4096 + kernbase + off) ≡ k.mem (q * 4096 + kernbase + off)
  original off lt =
      last_same (q * 4096 + kernbase + off) (word-ne-slot q pftemp off h.temp_table lt)
      ∙ third_same (q * 4096 + kernbase + off) (word-ne-slot q va off h.own_table lt)
      ∙ (copy_same k c fault_va err d p q ps h) (q * 4096 + kernbase + off) (source-Outside off lt)
      ∙ source_kept off lt

  first_count : (r : ℕ) → (k1.pages r).pp_ref ≡ (k.pages r).pp_ref + mapping (some p) r
  first_count r = ground (arith, h.free_list.chain.3)

  last_count :
      (r : ℕ) → (k4.pages r).pp_ref + mapping (some q) r ≡ (k.pages r).pp_ref + mapping (some p) r
  last_count r =
      omega (arith, unmapped_temp.2 r, (counts k c fault_va err d p q ps h).1 r, first_count r)

  last-IsFree : IsFree k4 (if (k.pages q).pp_ref == 1 then q ∷ ps else ps)
  last-IsFree =
      subst (IsFree k4)
        (ground (
          arith,
          two,
          (other_page k c fault_va err d p q ps h),
          (references_q k c fault_va err d p q ps h),
        ))
        unmapped_temp.3

  called : pgfault fault_va err k ≡ ok tt k4
  unfolding pgfault
  called =
      let pn : pgnum fault_va ≡ fault_va / 4096 = unfold pgnum in refl in
      let round : round_down fault_va pgsize ≡ va = round_down-div fault_va in
      let write : (bit_and err fec_wr == 0) ≡ false = ne→== h.write in
      rw pn (
        rw (uvpt-ok k c (fault_va / 4096) q h.current (omega (arith, h.below)) h.mapped) (
          rw (write, h.cow, round)
            (rw (first_call k c fault_va err d p q ps h)
              (rw (copied k c fault_va err d p q ps h) (rw second_call (rw third_call refl))))))

-- pgfault on a write to a copy-on-write page: it returns, and the program has the page `p`, the first
-- free one, at this address, writable and not copy-on-write. Its contents are those of the old page
-- `q`, of which no byte has changed. `q` has one reference less and `p` has one, and no other counter
-- changes; if the last reference to `q` is gone, it joins the free list. The hypotheses are those of
-- Faults.
pub pgfault_copies :
    (k : Kernel) (c fault_va err d p q : ℕ) (ps : List ℕ)
    → Faults k c fault_va err d p q ps
    → (k' : Kernel) × (pgfault fault_va err k ≡ ok tt k')
      × IsMapped k.npages (k.envs c).env_pgdir (page_of fault_va) p k'.mem
      × (pte_of (k.envs c).env_pgdir (page_of fault_va) k'.mem
          ≡ p * 4096 + bit_or private_perm pte_p)
      × ((off : ℕ)
          → off < 4096
          → k'.mem (p * 4096 + kernbase + off) ≡ k.mem (q * 4096 + kernbase + off))
      × ((off : ℕ)
          → off < 4096
          → k'.mem (q * 4096 + kernbase + off) ≡ k.mem (q * 4096 + kernbase + off))
      × ((r : ℕ)
          → (k'.pages r).pp_ref + mapping (some q) r ≡ (k.pages r).pp_ref + mapping (some p) r)
      × IsFree k' (if (k.pages q).pp_ref == 1 then q ∷ ps else ps)
pgfault_copies k c fault_va err d p q ps h = (
  k4 k c fault_va err d p q ps h,
  called k c fault_va err d p q ps h,
  (page-IsMapped4 k c fault_va err d p q ps h).0,
  (page-IsMapped4 k c fault_va err d p q ps h).1,
  contents k c fault_va err d p q ps h,
  original k c fault_va err d p q ps h,
  last_count k c fault_va err d p q ps h,
  last-IsFree k c fault_va err d p q ps h,
)
