-- ===== src/UserLib/PageFault/Steps.antt =====
-- The steps of pgfault of jos/lib/fork.c, each with the page tables that it leaves.
use cs444_operating_systems.Base.{ℕ, ◌+◌, ◌*◌, ◌/◌, ◌≡◌, refl, some, arith, ◌∙◌, ap, sym}
use cs444_operating_systems.Mmu.{kernbase, pdx, ptx}
use cs444_operating_systems.Kernel.{Kernel}
use cs444_operating_systems.Kernel.Run.{ok}
use cs444_operating_systems.Pages.Free.{page2kva-ok}
use cs444_operating_systems.Pgdir.{entry_at}
use cs444_operating_systems.Pgdir.Walk.{slot_of, HasTable}
use cs444_operating_systems.Pgdir.Map.{pte_of, IsMapped, lookup_mapped}
use cs444_operating_systems.UserLib.PageFault.{frame_of, copy_words, memcpy_page}

-- The entries on the way to the page at `va` are the same in both memories.
pub record Agrees (pgdir va : ℕ) (m m' : ℕ → ℕ) : Type 0 where
  pub directory : m' (entry_at pgdir (pdx va)) ≡ m (entry_at pgdir (pdx va))
  pub entry : m' (slot_of pgdir va m) ≡ m (slot_of pgdir va m)

module _ (n pgdir va : ℕ) (m m' : ℕ → ℕ) (a : Agrees pgdir va m m') where
  pub slot_agree : slot_of pgdir va m' ≡ slot_of pgdir va m
  slot_agree = ap (λ (pde : ℕ). entry_at (pde / 4096 * 4096 + kernbase) (ptx va)) a.directory

  pub pte_agree : pte_of pgdir va m' ≡ pte_of pgdir va m
  pte_agree = ap m' slot_agree ∙ a.entry

  pub HasTable-agree : HasTable n pgdir va m → HasTable n pgdir va m'
  HasTable-agree t = record {
    reaches = record {
      small = t.small;
      word = omega (arith, a.directory, t.word);
      present = omega (arith, a.directory, t.present);
      exists = omega (arith, a.directory, t.exists);
    };
    apart = λ e. t.apart (sym slot_agree ∙ e);
  }

  pub IsMapped-agree : (q : ℕ) → IsMapped n pgdir va q m → IsMapped n pgdir va q m'
  IsMapped-agree q h = record {
    table = HasTable-agree h.table;
    word = omega (arith, pte_agree, h.word);
    present = omega (arith, pte_agree, h.present);
    page = omega (arith, pte_agree, h.page);
    exists = h.exists;
  }

frame_of-ok :
    (k : Kernel) (c va q : ℕ)
    → k.curenv ≡ some c
    → IsMapped k.npages (k.envs c).env_pgdir va q k.mem
    → frame_of va k ≡ ok (q * 4096 + kernbase) k
unfolding frame_of
frame_of-ok k c va q cur m = ground (
  arith,
  cur,
  lookup_mapped k (k.envs c).env_pgdir va q m,
  page2kva-ok k q m.table.small m.exists,
)

pub memcpy_page-ok :
    (k : Kernel) (c dst src p q : ℕ)
    → k.curenv ≡ some c
    → IsMapped k.npages (k.envs c).env_pgdir dst p k.mem
    → IsMapped k.npages (k.envs c).env_pgdir src q k.mem
    → memcpy_page dst src k
      ≡ ok tt (record k { mem = copy_words (p * 4096 + kernbase) (q * 4096 + kernbase) k.mem })
unfolding memcpy_page
memcpy_page-ok k c dst src p q cur m n =
    rw (frame_of-ok k c dst p cur m) (rw (frame_of-ok k c src q cur n) refl)
