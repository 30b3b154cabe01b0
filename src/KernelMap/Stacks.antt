-- ===== src/KernelMap/Stacks.antt =====
-- The kernel stacks that mem_init_mp of jos/kern/pmap.c maps.
use cs444_operating_systems.Base.{
  ℕ, zero, suc, ◌+◌, ◌-◌, ◌*◌, ◌/◌, ◌^◌, ◌≤◌, ◌<◌, ◌≡◌, ◌≢◌, refl, arith, ap, ◌∙◌, sym, bit_or,
}
use mathlib.Core.Path.{subst}
use native.Mathlib.Decide.{ℕ_discrete}
use cs444_operating_systems.Mmu.{u32, kernbase, pdx, ptx, pte_p, pte_w}
use cs444_operating_systems.Kernel.{Kernel}
use cs444_operating_systems.Kernel.Run.{ok}
use cs444_operating_systems.Pages.{paddr}
use cs444_operating_systems.Pgdir.{entry_at}
use cs444_operating_systems.Pgdir.Walk.{pde_of, slot_of}
use cs444_operating_systems.Pgdir.Map.{pte_of}
use cs444_operating_systems.Pgdir.Region.{
  page_va, page_slot, page_entry, IsReady, boot_map_region_maps,
}
use cs444_operating_systems.KernelMap.{kstksize, kstkgap, map_stacks, mem_init_mp}

-- The stacks and the gaps below them are the last 128 pages before KERNBASE; page `j` of the stack
-- of CPU `i` is this one of them.
abbrev pub stacks_va : ℕ
stacks_va = kernbase - 128 * 4096

abbrev pub stack_page : (i j : ℕ) → ℕ
stack_page i j = 120 - 16 * i + j

-- The physical address of the stack of CPU `i`.
abbrev pub stack_pa : (kstacks i : ℕ) → ℕ
stack_pa kstacks i = kstacks - kernbase + i * kstksize

module _ (k : Kernel) (kstacks : ℕ) (ready : IsReady k k.kern_pgdir stacks_va 128)
    (above : kernbase ≤ kstacks) (fits : kstacks + 8 * kstksize ≤ 2 ^ 32) where
  slot : ℕ → ℕ
  slot g = page_slot k.kern_pgdir stacks_va g k.mem

  -- The stacks of the first `n` CPUs are mapped, and nothing else has changed.
  record Mapped (n : ℕ) (m : ℕ → ℕ) : Type 0 where
    pdes :
        (g : ℕ)
        → g < 128
        → pde_of k.kern_pgdir (page_va stacks_va g) m
          ≡ pde_of k.kern_pgdir (page_va stacks_va g) k.mem
    done :
        (i j : ℕ)
        → i < n
        → j < 8
        → m (slot (stack_page i j)) ≡ page_entry (stack_pa kstacks i) (bit_or pte_w pte_p) j
    rest : (a : ℕ) → ((i j : ℕ) → i < n → j < 8 → a ≢ slot (stack_page i j)) → m a ≡ k.mem a

  abbrev va_of : ℕ → ℕ
  va_of i = stacks_va + (120 - 16 * i) * 4096

  va-page : (i j : ℕ) → i < 8 → j < 8 → page_va (va_of i) j ≡ page_va stacks_va (stack_page i j)
  va-page i j a b = omega arith

  module _ (n : ℕ) (m : ℕ → ℕ) (lt : n < 8) (h : Mapped n m) where
    abbrev now : Kernel
    now = record k { mem = m }

    same-pde :
        (j : ℕ)
        → j < 8
        → pde_of k.kern_pgdir (page_va (va_of n) j) m
          ≡ pde_of k.kern_pgdir (page_va stacks_va (stack_page n j)) k.mem
    same-pde j b =
        ap (λ (x : ℕ). pde_of k.kern_pgdir x m) (va-page n j lt b)
        ∙ h.pdes (stack_page n j) (omega arith)

    same-slot : (j : ℕ) → j < 8 → page_slot k.kern_pgdir (va_of n) j m ≡ slot (stack_page n j)
    unfolding slot
    same-slot j b =
        ap (λ (x : ℕ). slot_of k.kern_pgdir x m) (va-page n j lt b)
        ∙ ap
            (λ (pde : ℕ).
              entry_at (pde / 4096 * 4096 + kernbase) (ptx (page_va stacks_va (stack_page n j))))
            (h.pdes (stack_page n j) (omega arith))

    now-IsReady : IsReady now k.kern_pgdir (va_of n) 8
    unfolding slot
    now-IsReady = record {
      reaches = λ j b.
          let r = ready.reaches (stack_page n j) (omega arith) in
          let e = same-pde j b in
          record {
            small = r.small;
            word = omega (arith, e, r.word);
            present = omega (arith, e, r.present);
            exists = omega (arith, e, r.exists);
          };
      spread = λ i j a b ne e.
          ready.spread (stack_page n i) (stack_page n j) (omega arith) (omega arith) (omega arith)
            (sym (same-slot i a) ∙ e ∙ same-slot j b);
      off = λ i j a b e. ready.off (stack_page n i) (stack_page n j) (omega arith) (omega arith) (
          sym (same-slot i a)
          ∙ e
          ∙ ap (λ (x : ℕ). entry_at k.kern_pgdir (pdx x)) (va-page n j lt b));
    }

    -- What the call for this CPU leaves.
    Mapped-suc :
        (m' : ℕ → ℕ)
        → ((j : ℕ)
            → j < 8
            → m' (page_slot k.kern_pgdir (va_of n) j m)
              ≡ page_entry (stack_pa kstacks n) (bit_or pte_w pte_p) j)
        → ((a : ℕ) → ((j : ℕ) → j < 8 → a ≢ page_slot k.kern_pgdir (va_of n) j m) → m' a ≡ m a)
        → Mapped (suc n) m'
    unfolding slot
    Mapped-suc m' done rest = record {
      pdes = λ g b.
          rest (entry_at k.kern_pgdir (pdx (page_va stacks_va g)))
            (λ j c e. ready.off (stack_page n j) g (omega arith) b (sym (same-slot j c) ∙ sym e))
          ∙ h.pdes g b;
      done = λ i j a b. elim (ℕ_discrete i n) [
        | yes e ↦
            subst
              (λ (x : ℕ).
                m' (slot (stack_page x j)) ≡ page_entry (stack_pa kstacks x) (bit_or pte_w pte_p) j)
              (sym e) (ap m' (sym (same-slot j b)) ∙ done j b)
        | no ne ↦
            rest (slot (stack_page i j)) (λ x c e.
              ready.spread (stack_page i j) (stack_page n x) (omega arith) (omega arith)
                (omega arith) (e ∙ same-slot x c))
            ∙ h.done i j (omega arith) b
      ];
      rest = λ a out.
          rest a (λ j c e. out n j (omega arith) c (e ∙ same-slot j c))
          ∙ h.rest a (λ i j b c. out i j (omega arith) c);
    }

  paddr-ok :
      (k' : Kernel) (i : ℕ)
      → i < 8
      → paddr (u32 (kstacks + i * kstksize)) k' ≡ ok (stack_pa kstacks i) k'
  unfolding paddr
  paddr-ok k' i lt = ground arith

  map_stacks-Mapped :
      (left n : ℕ) (m : ℕ → ℕ)
      → left + n ≡ 8
      → Mapped n m
      → (m' : ℕ → ℕ) × (map_stacks left n kstacks (record k { mem = m })
          ≡ ok tt (record k { mem = m' }))
        × Mapped 8 m'
  unfolding map_stacks
  map_stacks-Mapped zero n m e h = (m, refl, subst (λ (x : ℕ). Mapped x m) (omega arith) h)
  map_stacks-Mapped (suc left) n m e h =
      let lt : n < 8 = omega arith in
      let (m1, call, seen, done, rest) =
        boot_map_region_maps (record k { mem = m }) k.kern_pgdir (va_of n) (stack_pa kstacks n)
          (bit_or pte_w pte_p) 8 (omega arith) (now-IsReady n m lt h) in
      let (m2, more, last) =
        map_stacks-Mapped left (suc n) m1 (omega arith) (Mapped-suc n m lt h m1 done rest) in
      let at : u32 (2 ^ 32 + kernbase - n * (kstksize + kstkgap) - kstksize) ≡ va_of n =
        omega arith in
      (m2, rw (paddr-ok (record k { mem = m }) n lt) (rw at (rw call more)), last)

  -- An entry of the 128 pages stands where it stood.
  slot-now :
      (m : ℕ → ℕ) (h : Mapped 8 m) (g va : ℕ)
      → g < 128
      → va ≡ page_va stacks_va g
      → slot_of k.kern_pgdir va m ≡ slot g
  unfolding slot
  slot-now m h g va lt e =
      ap (λ (x : ℕ). slot_of k.kern_pgdir x m) e
      ∙ ap (λ (pde : ℕ). entry_at (pde / 4096 * 4096 + kernbase) (ptx (page_va stacks_va g)))
          (h.pdes g lt)

  slot-then : (g va : ℕ) → va ≡ page_va stacks_va g → slot_of k.kern_pgdir va k.mem ≡ slot g
  unfolding slot
  slot-then g va e = ap (λ (x : ℕ). slot_of k.kern_pgdir x k.mem) e

  gap_unchanged :
      (m : ℕ → ℕ) (h : Mapped 8 m) (g va : ℕ)
      → g < 128
      → ((i j : ℕ) → i < 8 → j < 8 → g ≢ stack_page i j)
      → va ≡ page_va stacks_va g
      → pte_of k.kern_pgdir va m ≡ pte_of k.kern_pgdir va k.mem
  unfolding slot
  gap_unchanged m h g va lt out e =
      ap m (slot-now m h g va lt e)
      ∙ h.rest (slot g) (λ i j a b. ready.spread g (stack_page i j) lt (omega arith) (out i j a b))
      ∙ ap k.mem (sym (slot-then g va e))

-- The address of page `j` of the stack of CPU `i`, and of the gap below this stack.
abbrev pub stack_va : (i j : ℕ) → ℕ
stack_va i j = kernbase - i * (kstksize + kstkgap) - kstksize + j * 4096

abbrev pub gap_va : (i j : ℕ) → ℕ
gap_va i j = kernbase - i * (kstksize + kstkgap) - kstksize - kstkgap + j * 4096

-- mem_init_mp always returns: each of the 8 pages of the stack of each CPU is mapped to its page of
-- percpu_kstacks, writable, and the entries of the 8 pages below each stack are as before. The hypotheses: the kernel's
-- directory has a page table for these 128 pages, whose entries are different words apart from the
-- directory, and percpu_kstacks is above KERNBASE.
pub mem_init_mp_maps :
    (k : Kernel) (kstacks : ℕ)
    → IsReady k k.kern_pgdir stacks_va 128
    → kernbase ≤ kstacks
    → kstacks + 8 * kstksize ≤ 2 ^ 32
    → (m : ℕ → ℕ) × (mem_init_mp kstacks k ≡ ok tt (record k { mem = m }))
      × ((i j : ℕ)
          → i < 8
          → j < 8
          → pte_of k.kern_pgdir (stack_va i j) m
            ≡ page_entry (kstacks - kernbase + i * kstksize) (bit_or pte_w pte_p) j)
      × ((i j : ℕ)
          → i < 8
          → j < 8
          → pte_of k.kern_pgdir (gap_va i j) m ≡ pte_of k.kern_pgdir (gap_va i j) k.mem)
unfolding mem_init_mp
mem_init_mp_maps k kstacks ready above fits =
    let start : Mapped k kstacks ready above fits 0 k.mem = record {
      pdes = λ g b. refl;
      done = λ i j a b. absurd (omega arith);
      rest = λ a out. refl;
    } in
    let (m, e, h) = map_stacks-Mapped k kstacks ready above fits 8 0 k.mem refl start in
    (
      m,
      e,
      λ i j a b.
          ap m (
            slot-now k kstacks ready above fits m h (stack_page i j) (stack_va i j) (omega arith)
              (omega arith))
          ∙ h.done i j a b,
      λ i j a b.
          gap_unchanged k kstacks ready above fits m h (112 - 16 * i + j) (gap_va i j) (omega arith)
            (λ x y c d e'. omega arith) (omega arith),
    )
