-- ===== src/Pgdir/Region.antt =====
-- boot_map_region of jos/kern/pmap.c where the directory has the tables.
use cs444_operating_systems.Base.{
  ℕ, zero, suc, ◌+◌, ◌*◌, ◌/◌, ◌^◌, ◌≤◌, ◌<◌, ◌≡◌, ◌≢◌, refl, true, some, arith, ltb, update,
  bit_or, ap, ◌∙◌,
}
use native.Mathlib.Decide.{ℕ_discrete, dec_lt}
use cs444_operating_systems.Mmu.{u32, kernbase, pdx, ptx, pte_addr, pte_p}
use cs444_operating_systems.Kernel.{Kernel}
use cs444_operating_systems.Kernel.Run.{Run, ok}
use cs444_operating_systems.Pgdir.{entry_at, pgdir_walk, map_from, boot_map_region}
use cs444_operating_systems.Pgdir.Walk.{pde_of, slot_of, Reaches, walk_to_table}

-- The address of page `j` of the region, the place of its entry, and the entry.
abbrev pub page_va : (va j : ℕ) → ℕ
page_va va j = u32 (va + j * 4096)

abbrev pub page_slot : (pgdir va j : ℕ) → (ℕ → ℕ) → ℕ
page_slot pgdir va j m = slot_of pgdir (page_va va j) m

abbrev pub page_entry : (pa perm j : ℕ) → ℕ
page_entry pa perm j = bit_or (bit_or (pte_addr (u32 (pa + j * 4096))) perm) pte_p

-- The directory has tables for the `n` pages. Their entries are different words, and none of
-- them is an entry of the directory for the region.
pub record IsReady (k : Kernel) (pgdir va n : ℕ) : Type 0 where
  pub reaches : (j : ℕ) → j < n → Reaches k.npages pgdir (page_va va j) k.mem
  pub spread :
      (i j : ℕ) → i < n → j < n → i ≢ j → page_slot pgdir va i k.mem ≢ page_slot pgdir va j k.mem
  pub off :
      (i j : ℕ) → i < n → j < n → page_slot pgdir va i k.mem ≢ entry_at pgdir (pdx (page_va va j))

module _ (k : Kernel) (pgdir va pa perm n : ℕ) (ready : IsReady k pgdir va n) where
  slot : ℕ → ℕ
  slot j = page_slot pgdir va j k.mem

  -- The first `i` pages are mapped, and the directory is as before.
  record Mapped (i : ℕ) (m : ℕ → ℕ) : Type 0 where
    pdes : (j : ℕ) → j < n → pde_of pgdir (page_va va j) m ≡ pde_of pgdir (page_va va j) k.mem
    done : (j : ℕ) → j < i → m (slot j) ≡ page_entry pa perm j
    rest : (a : ℕ) → ((j : ℕ) → j < i → a ≢ slot j) → m a ≡ k.mem a

  Mapped-suc :
      (i : ℕ) (m : ℕ → ℕ)
      → i < n
      → Mapped i m
      → Mapped (suc i) (update m (slot i) (page_entry pa perm i))
  unfolding slot
  Mapped-suc i m lt h = record {
    pdes = λ j small. ground (arith, h.pdes j small, ready.off i j lt small);
    done = λ j below. elim (ℕ_discrete j i) [
      | yes e ↦ ground (arith, ap slot e, ap (page_entry pa perm) e)
      | no ne ↦ ground (arith, h.done j (omega arith), ready.spread j i (omega arith) lt ne)
    ];
    rest = λ a out. ground (arith, out i (omega arith), h.rest a (λ j below. out j (omega arith)));
  }

  walked :
      (i : ℕ) (m : ℕ → ℕ)
      → i < n
      → Mapped i m
      → pgdir_walk pgdir (page_va va i) true (record k { mem = m })
        ≡ ok (some (slot i)) (record k { mem = m })
  unfolding slot
  walked i m lt h =
      let r = ready.reaches i lt in
      let same = h.pdes i lt in
      walk_to_table (record k { mem = m }) pgdir (page_va va i) true
        (record {
          small = r.small;
          word = rw same r.word;
          present = rw same r.present;
          exists = rw same r.exists;
        })
      ∙ ap
          (λ (pde : ℕ).
            ok (some (entry_at (pde / 4096 * 4096 + kernbase) (ptx (page_va va i))))
              (record k { mem = m }))
          same

  -- What the loop ends with.
  record Ended (r : Run (Unit {0})) : Type 0 where
    mem : ℕ → ℕ
    ends : r ≡ ok tt (record k { mem = mem })
    mapped : Mapped n mem

  round :
      (rounds i : ℕ) (m : ℕ → ℕ)
      → n * 4096 < 2 ^ 32
      → i < n
      → Mapped i m
      → map_from (suc rounds) pgdir va (n * 4096) pa perm (i * 4096) (record k { mem = m })
        ≡ map_from rounds pgdir va
            (n * 4096)
            pa
            perm
            (suc i * 4096)
            (record k { mem = update m (slot i) (page_entry pa perm i) })
  unfolding map_from
  round rounds i m fits lt h =
      let more : ltb (i * 4096) (n * 4096) ≡ true = ground arith in
      let next : u32 (i * 4096 + 4096) ≡ suc i * 4096 = omega arith in
      rw more (
        rw (walked i m lt h) (
          ap
            (λ (x : ℕ).
              map_from rounds pgdir va (n * 4096) pa perm x
                (record k { mem = update m (slot i) (page_entry pa perm i) }))
            next))

  loop :
      (rounds i : ℕ) (m : ℕ → ℕ)
      → n * 4096 < 2 ^ 32
      → i ≤ n
      → n < i + rounds
      → Mapped i m
      → Ended (map_from rounds pgdir va (n * 4096) pa perm (i * 4096) (record k { mem = m }))
  unfolding map_from
  loop zero i m fits le enough h = absurd (omega arith)
  loop (suc rounds) i m fits le enough h = elim (dec_lt i n) [
    | yes lt ↦ rw (round rounds i m fits lt h) (
        loop rounds (suc i) (update m (slot i) (page_entry pa perm i)) fits (omega arith)
          (omega arith) (Mapped-suc i m lt h))
    | no ge ↦ record {
      mem = m;
      ends = ground arith;
      mapped = record {
        pdes = h.pdes;
        done = λ j lt. h.done j (omega arith);
        rest = λ a out. h.rest a (λ j lt. out j (omega arith));
      };
    }
  ]

-- boot_map_region always returns, and changes nothing but memory: afterwards the entry of each page
-- of the region holds the address of its physical page, the permissions and PTE_P, and no other word
-- has changed. The hypotheses:
-- the size is `n` pages and below 2 ^ 32, and the directory has tables for them, whose entries for
-- the region are different words apart from the directory.
pub boot_map_region_maps :
    (k : Kernel) (pgdir va pa perm n : ℕ)
    → n * 4096 < 2 ^ 32
    → IsReady k pgdir va n
    → (m : ℕ → ℕ) × (boot_map_region pgdir va (n * 4096) pa perm k ≡ ok tt (record k { mem = m }))
      × ((j : ℕ) → j < n → m (page_slot pgdir va j m) ≡ page_entry pa perm j)
      × ((j : ℕ) → j < n → m (page_slot pgdir va j k.mem) ≡ page_entry pa perm j)
      × ((a : ℕ) → ((j : ℕ) → j < n → a ≢ page_slot pgdir va j k.mem) → m a ≡ k.mem a)
unfolding boot_map_region slot
boot_map_region_maps k pgdir va pa perm n fits ready =
    let start : Mapped k pgdir va pa perm n ready 0 k.mem = record {
      pdes = λ j lt. refl;
      done = λ j lt. absurd (omega arith);
      rest = λ a out. refl;
    } in
    let e =
      loop k pgdir va pa perm n ready (2 ^ 20 + 1) 0 k.mem fits (omega arith) (omega arith) start in
    (
      e.mem,
      e.ends,
      λ j lt.
          ap (λ (pde : ℕ). e.mem (entry_at (pde / 4096 * 4096 + kernbase) (ptx (page_va va j))))
            (e.mapped.pdes j lt)
          ∙ e.mapped.done j lt,
      e.mapped.done,
      e.mapped.rest,
    )
