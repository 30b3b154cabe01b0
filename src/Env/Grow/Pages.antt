-- ===== src/Env/Grow/Pages.antt =====
-- The pages that region_alloc of jos/kern/env.c maps.
use cs444_operating_systems.Base.{
  ℕ, zero, suc, ◌+◌, ◌*◌, ◌/◌, ◌≤◌, ◌<◌, ◌≡◌, ◌≢◌, inl, inr, false, List, [], ◌∷◌, arith, ap, sym,
  ◌∙◌, update_self,
}
use mathlib.Core.Path.{subst}
use native.Mathlib.Decide.{dec_lt}
use cs444_operating_systems.Mmu.{kernbase, pdx, ptx, has_flag}
use cs444_operating_systems.Mmu.Address.{pdx_lem, ptx_lem}
use cs444_operating_systems.Kernel.{Kernel}
use cs444_operating_systems.Pages.Free.{has}
use cs444_operating_systems.Pgdir.{entry_at}
use cs444_operating_systems.Pgdir.Walk.{pde_of, slot_of}
use cs444_operating_systems.Pgdir.Map.{pte_of}
use cs444_operating_systems.Env.Grow.Round.{
  at_page, HasRoom, Outside, ka, grown, grown_same, grown_pde, slot-Outside, first_slot, at_start,
  first_Outside, next_slot, has_tail, insert_grows,
}

-- The free pages after `n` have been taken.
abbrev pub left : (n : ℕ) → List ℕ → List ℕ
left zero ps = ps
left (suc n) [] = []
left (suc n) (p ∷ ps) = left n ps

-- The first `n` of the pages `ps` are mapped from `va` on for the user to read and write, each with one
-- reference and cleared.
abbrev pub AreMapped : (pgdir va n : ℕ) → List ℕ → Kernel → Type 0
AreMapped pgdir va zero ps k = Unit {0}
AreMapped pgdir va (suc n) [] k = ⊥
AreMapped pgdir va (suc n) (p ∷ ps) k =
    (pte_of pgdir va k.mem ≡ p * 4096 + 7)
    × ((x : ℕ) → p * 4096 + kernbase ≤ x → x < p * 4096 + kernbase + 4096 → k.mem x ≡ 0)
    × ((k.pages p).pp_ref ≡ 1)
    × AreMapped pgdir (va + 4096) n ps k

-- `a` is no word of these pages.
abbrev pub Away : List ℕ → (a : ℕ) → Type 0
Away [] a = Unit {0}
Away (p ∷ ps) a = Outside p a × Away ps a

-- The words apart from the pages `ps` and from the entries of the region are as before, and so are the
-- counters of the other pages.
pub record Keeps (k k' : Kernel) (pgdir va n : ℕ) (ps : List ℕ) : Type 0 where
  pub words :
      (a : ℕ)
      → Away ps a
      → ((j : ℕ) → j < n → a ≢ slot_of pgdir (at_page va j) k.mem)
      → k'.mem a ≡ k.mem a
  pub counts : (r : ℕ) → has r ps ≡ false → (k'.pages r).pp_ref ≡ (k.pages r).pp_ref

page-Away :
    (ps : List ℕ) (t x : ℕ)
    → has t ps ≡ false
    → t * 4096 + kernbase ≤ x
    → x < t * 4096 + kernbase + 4096
    → Away ps x
page-Away [] t x out lo hi = tt
page-Away (p ∷ ps) t x out lo hi = (
  elim (dec_lt t p) [
    | yes l ↦ inl (omega arith)
    | no g ↦ (let ne : t ≢ p = λ e. ground arith in inr (omega arith))
  ],
  page-Away ps t x (ground arith) lo hi,
)

inside : (p a : ℕ) → Outside p a → p * 4096 + kernbase ≤ a → a < p * 4096 + kernbase + 4096 → ⊥
inside p a (inl l) lo hi = omega arith
inside p a (inr g) lo hi = omega arith

module _ (k : Kernel) (d pgdir va n p : ℕ) (ps : List ℕ)
    (room : HasRoom k d pgdir va (suc n) (p ∷ ps)) (k' : Kernel)
    (keeps : Keeps (grown k d pgdir va n p ps room) k' pgdir (va + 4096) n ps) where
  abbrev next : Kernel
  next = grown k d pgdir va n p ps room

  directory-Away : Away ps (entry_at pgdir (pdx va))
  directory-Away =
      page-Away ps d _ (has_tail k d pgdir va n p ps room d room.dir.used)
        (omega (arith, room.dir.at, pdx_lem va)) (omega (arith, room.dir.at, pdx_lem va))

  last_pde : pde_of pgdir va k'.mem ≡ pde_of pgdir va next.mem
  last_pde = keeps.words _ directory-Away (λ j lt e.
      room.off (suc j) 0 (omega arith) (omega arith) (
        sym (next_slot k d pgdir va n p ps room j lt)
        ∙ sym e
        ∙ ap (λ (v : ℕ). entry_at pgdir (pdx v)) (sym (at_start k d pgdir va n p ps room))))

  same_pde : pde_of pgdir va next.mem ≡ pde_of pgdir va k.mem
  same_pde =
      subst (λ (v : ℕ). pde_of pgdir v next.mem ≡ pde_of pgdir v k.mem)
        (at_start k d pgdir va n p ps room) (grown_pde k d pgdir va n p ps room 0 (omega arith))

  last_slot : slot_of pgdir va k'.mem ≡ slot_of pgdir va k.mem
  last_slot =
      ap (λ (pde : ℕ). entry_at (pde / 4096 * 4096 + kernbase) (ptx va)) (last_pde ∙ same_pde)

  table_used : has (pde_of pgdir va k.mem / 4096) (p ∷ ps) ≡ false
  table_used =
      subst (λ (v : ℕ). has (pde_of pgdir v k.mem / 4096) (p ∷ ps) ≡ false)
        (at_start k d pgdir va n p ps room) (room.used 0 (omega arith))

  slot-Away : Away ps (slot_of pgdir va k.mem)
  slot-Away =
      page-Away ps (pde_of pgdir va k.mem / 4096) _ (has_tail k d pgdir va n p ps room _ table_used)
        (omega (arith, ptx_lem va)) (omega (arith, ptx_lem va))

  next_clear : (x : ℕ) → p * 4096 + kernbase ≤ x → x < p * 4096 + kernbase + 4096 → next.mem x ≡ 0
  unfolding has_flag
  next_clear x lo hi =
      ground (arith, first_slot k d pgdir va n p ps room, first_Outside k d pgdir va n p ps room)

  pub head_mapped : pte_of pgdir va k'.mem ≡ p * 4096 + 7
  head_mapped =
      ap k'.mem last_slot
      ∙ keeps.words _ slot-Away (λ j lt e.
        room.spread (suc j) 0 (omega arith) (omega arith) (omega arith) (
          sym (next_slot k d pgdir va n p ps room j lt)
          ∙ sym e
          ∙ ap (λ (v : ℕ). slot_of pgdir v k.mem) (sym (at_start k d pgdir va n p ps room))))
      ∙ ap next.mem (sym (first_slot k d pgdir va n p ps room))
      ∙ update_self (ka k d pgdir va n p ps room).mem _ _

  pub head_clear : (x : ℕ) → p * 4096 + kernbase ≤ x → x < p * 4096 + kernbase + 4096 → k'.mem x ≡ 0
  head_clear x lo hi =
      keeps.words x (page-Away ps p x room.free_list.chain.2 lo hi) (λ j lt e.
        inside p x
          (subst (Outside p) (sym (e ∙ next_slot k d pgdir va n p ps room j lt))
            (slot-Outside k d pgdir va n p ps room (suc j) (omega arith)))
          lo hi)
      ∙ next_clear x lo hi

  pub head_count : (k'.pages p).pp_ref ≡ 1
  head_count =
      keeps.counts p room.free_list.chain.2
      ∙ ground (arith, (insert_grows k d pgdir va n p ps room).1 p, room.free_list.chain.3)

  pub Keeps-round : Keeps k k' pgdir va (suc n) (p ∷ ps)
  Keeps-round = record {
    words = λ a away ne.
        keeps.words a away.1
          (λ j lt e. ne (suc j) (omega arith) (e ∙ next_slot k d pgdir va n p ps room j lt))
        ∙ grown_same k d pgdir va n p ps room a away.0 (λ e.
          ne 0 (omega arith)
            (e ∙ ap (λ (v : ℕ). slot_of pgdir v k.mem) (sym (at_start k d pgdir va n p ps room))));
    counts = λ r out.
        keeps.counts r (has_tail k d pgdir va n p ps room r out)
        ∙ ground (arith, (insert_grows k d pgdir va n p ps room).1 r, out);
  }
