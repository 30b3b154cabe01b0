-- ===== src/Env/Grow/Round.antt =====
-- One round of the loop of region_alloc in jos/kern/env.c.
use cs444_operating_systems.Base.{
  ℕ, suc, ◌+◌, ◌*◌, ◌/◌, ◌%◌, ◌≤◌, ◌<◌, ◌≡◌, ◌≢◌, ◌⊎◌, inl, inr, false, none, some, List, ◌∷◌,
  length, arith, ap, sym, ◌∙◌, update_ne, bit_or,
}
use mathlib.Core.Path.{subst}
use native.Mathlib.Decide.{dec_lt}
use cs444_operating_systems.Mmu.{kernbase, pdx, ptx, has_flag, pte_w, pte_u}
use cs444_operating_systems.Mmu.Address.{pdx_lem, ptx_lem}
use cs444_operating_systems.Kernel.{Kernel}
use cs444_operating_systems.Kernel.Run.{ok}
use cs444_operating_systems.Errors.{value}
use cs444_operating_systems.Pages.{alloc_zero}
use cs444_operating_systems.Pages.Free.{has, IsFree, allocated, IsFree-allocated}
use cs444_operating_systems.Pgdir.{entry_at, page_insert}
use cs444_operating_systems.Pgdir.Walk.{pde_of, slot_of, Reaches, HasTable, IsDir}
use cs444_operating_systems.Pgdir.Map.{pte_of}
use cs444_operating_systems.Pgdir.Insert.{inserted}
use cs444_operating_systems.Pgdir.Remap.{mapping, page_insert_counts}

-- The address of page `j` of the region.
abbrev pub at_page : (va j : ℕ) → ℕ
at_page va j = va + j * 4096

-- There are tables for the `n` pages from `va` on, with nothing mapped, in pages that are not free.
-- The entries are different words and apart from the directory, and enough of the pages `ps` are free.
pub record HasRoom (k : Kernel) (d pgdir va n : ℕ) (ps : List ℕ) : Type 0 where
  pub free_list : IsFree k ps
  pub enough : n ≤ length ps
  pub dir : IsDir d pgdir ps
  pub reaches : (j : ℕ) → j < n → Reaches k.npages pgdir (at_page va j) k.mem
  pub used : (j : ℕ) → j < n → has (pde_of pgdir (at_page va j) k.mem / 4096) ps ≡ false
  pub empty : (j : ℕ) → j < n → pte_of pgdir (at_page va j) k.mem % 2 ≡ 0
  pub spread :
      (i j : ℕ)
      → i < n
      → j < n
      → i ≢ j
      → slot_of pgdir (at_page va i) k.mem ≢ slot_of pgdir (at_page va j) k.mem
  pub off :
      (i j : ℕ)
      → i < n
      → j < n
      → slot_of pgdir (at_page va i) k.mem ≢ entry_at pgdir (pdx (at_page va j))

-- `a` is no word of page `p`.
abbrev pub Outside : (p a : ℕ) → Type 0
Outside p a = (a < p * 4096 + kernbase) ⊎ (p * 4096 + kernbase + 4096 ≤ a)

pub word-Outside : (p t i : ℕ) → t ≢ p → i < 1024 → Outside p (t * 4096 + kernbase + 4 * i)
word-Outside p t i ne lt = elim (dec_lt t p) [
  | yes l ↦ inl (omega arith)
  | no g ↦ inr (omega arith)
]

module _ (k : Kernel) (d pgdir va n p : ℕ) (ps : List ℕ)
    (room : HasRoom k d pgdir va (suc n) (p ∷ ps)) where
  abbrev pub ka : Kernel
  ka = allocated alloc_zero p k

  abbrev pub grown : Kernel
  grown = inserted pgdir p va (bit_or pte_u pte_w) none ka

  pub at_start : at_page va 0 ≡ va
  at_start = omega arith

  alloc_same : (a : ℕ) → Outside p a → ka.mem a ≡ k.mem a
  unfolding has_flag
  alloc_same a out = ground arith

  pub directory-Outside : (v : ℕ) → Outside p (entry_at pgdir (pdx v))
  directory-Outside v =
      let ne : d ≢ p = λ e. ground (arith, room.dir.used) in
      subst (Outside p) (omega (arith, room.dir.at))
        (word-Outside p d (pdx v) ne (omega (arith, pdx_lem v)))

  pub slot-Outside : (j : ℕ) → j < suc n → Outside p (slot_of pgdir (at_page va j) k.mem)
  slot-Outside j lt =
      word-Outside p (pde_of pgdir (at_page va j) k.mem / 4096) (ptx (at_page va j))
        (λ e. ground (arith, room.used j lt)) (omega (arith, ptx_lem (at_page va j)))

  first_pde : pde_of pgdir va ka.mem ≡ pde_of pgdir va k.mem
  first_pde = alloc_same _ (directory-Outside va)

  pub first_slot : slot_of pgdir va ka.mem ≡ slot_of pgdir va k.mem
  first_slot = ap (λ (pde : ℕ). entry_at (pde / 4096 * 4096 + kernbase) (ptx va)) first_pde

  pub grown_same : (a : ℕ) → Outside p a → a ≢ slot_of pgdir va k.mem → grown.mem a ≡ k.mem a
  grown_same a out ne = update_ne ka.mem _ (λ e. ne (e ∙ first_slot)) ∙ alloc_same a out

  pub grown_pde :
      (j : ℕ)
      → j < suc n
      → pde_of pgdir (at_page va j) grown.mem ≡ pde_of pgdir (at_page va j) k.mem
  grown_pde j lt =
      grown_same _ (directory-Outside (at_page va j)) (λ e.
        room.off 0 j (omega arith) lt (ap (λ (v : ℕ). slot_of pgdir v k.mem) at_start ∙ sym e))

  pub grown_slot :
      (j : ℕ)
      → j < suc n
      → slot_of pgdir (at_page va j) grown.mem ≡ slot_of pgdir (at_page va j) k.mem
  grown_slot j lt =
      ap (λ (pde : ℕ). entry_at (pde / 4096 * 4096 + kernbase) (ptx (at_page va j)))
        (grown_pde j lt)

  pub grown_pte :
      (j : ℕ)
      → 0 < j
      → j < suc n
      → pte_of pgdir (at_page va j) grown.mem ≡ pte_of pgdir (at_page va j) k.mem
  grown_pte j pos lt =
      ap grown.mem (grown_slot j lt)
      ∙ grown_same _ (slot-Outside j lt) (λ e.
        room.spread j 0 lt (omega arith) (omega arith)
          (e ∙ ap (λ (v : ℕ). slot_of pgdir v k.mem) (sym at_start)))

  first-HasTable : HasTable ka.npages pgdir va ka.mem
  first-HasTable =
      let r =
        subst (λ (v : ℕ). Reaches k.npages pgdir v k.mem) at_start (room.reaches 0 (omega arith)) in
      record {
        reaches = record {
          small = r.small;
          word = rw first_pde r.word;
          present = rw first_pde r.present;
          exists = rw first_pde r.exists;
        };
        apart = λ e. room.off 0 0 (omega arith) (omega arith) (
            subst (λ (v : ℕ). slot_of pgdir v k.mem ≡ entry_at pgdir (pdx v)) (sym at_start)
              (sym first_slot ∙ e));
      }

  pub first_Outside : Outside p (slot_of pgdir va k.mem)
  first_Outside =
      subst (λ (v : ℕ). Outside p (slot_of pgdir v k.mem)) at_start (slot-Outside 0 (omega arith))

  first_empty : pte_of pgdir va ka.mem % 2 ≡ 0
  first_empty =
      ap (λ (pte : ℕ). pte % 2) (ap ka.mem first_slot ∙ alloc_same _ first_Outside)
      ∙ subst (λ (v : ℕ). pte_of pgdir v k.mem % 2 ≡ 0) at_start (room.empty 0 (omega arith))

  pub insert_grows :
      (page_insert pgdir p va (bit_or pte_u pte_w) ka ≡ ok (value 0) grown)
      × ((r : ℕ) → (grown.pages r).pp_ref + 0 ≡ (ka.pages r).pp_ref + (mapping (some p) r))
      × IsFree grown ps
  insert_grows =
      page_insert_counts ka pgdir p va (bit_or pte_u pte_w) ps none first-HasTable
        (IsFree-allocated k alloc_zero p ps room.free_list) first_empty room.free_list.chain.1
        (ground (arith, room.free_list.chain.3)) (omega arith) room.free_list.chain.2

  pub shift : (j : ℕ) → at_page va (suc j) ≡ at_page (va + 4096) j
  shift j = omega arith

  pub has_tail : (q : ℕ) → has q (p ∷ ps) ≡ false → has q ps ≡ false
  has_tail q e = ground arith

  pub next_slot :
      (j : ℕ)
      → j < n
      → slot_of pgdir (at_page (va + 4096) j) grown.mem ≡ slot_of pgdir (at_page va (suc j)) k.mem
  next_slot j lt =
      ap (λ (v : ℕ). slot_of pgdir v grown.mem) (sym (shift j)) ∙ grown_slot (suc j) (omega arith)

  next-Reaches : (j : ℕ) → j < n → Reaches k.npages pgdir (at_page va (suc j)) grown.mem
  next-Reaches j lt =
      let r = room.reaches (suc j) (omega arith) in
      let same = grown_pde (suc j) (omega arith) in
      record {
        small = r.small;
        word = rw same r.word;
        present = rw same r.present;
        exists = rw same r.exists;
      }

  pub HasRoom-grown : HasRoom grown d pgdir (va + 4096) n ps
  HasRoom-grown = record {
    free_list = insert_grows.2;
    enough = omega (arith, room.enough);
    dir = record { at = room.dir.at; used = ground (arith, room.dir.used) };
    reaches =
        λ j lt. subst (λ (v : ℕ). Reaches k.npages pgdir v grown.mem) (shift j) (next-Reaches j lt);
    used = λ j lt.
        subst (λ (v : ℕ). has (pde_of pgdir v grown.mem / 4096) ps ≡ false) (shift j)
          (rw (grown_pde (suc j) (omega arith)) (has_tail _ (room.used (suc j) (omega arith))));
    empty = λ j lt.
        subst (λ (v : ℕ). pte_of pgdir v grown.mem % 2 ≡ 0) (shift j)
          (rw (grown_pte (suc j) (omega arith) (omega arith)) (room.empty (suc j) (omega arith)));
    spread = λ i j li lj ne e.
        room.spread (suc i) (suc j) (omega arith) (omega arith) (omega arith)
          (sym (next_slot i li) ∙ e ∙ next_slot j lj);
    off = λ i j li lj e.
        room.off (suc i) (suc j) (omega arith) (omega arith)
          (sym (next_slot i li) ∙ e ∙ ap (λ (v : ℕ). entry_at pgdir (pdx v)) (sym (shift j)));
  }
