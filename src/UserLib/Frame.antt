-- ===== src/UserLib/Frame.antt =====
-- What fork of jos/lib/fork.c reads of the page tables, and what a write to them keeps.
use cs444_operating_systems.Base.{ℕ, ◌*◌, ◌/◌, ◌%◌, ◌^◌, ◌<◌, ◌≡◌, ◌≢◌, true, some, arith, update}
use cs444_operating_systems.Mmu.Address.{pdx_lem, ptx_lem}
use cs444_operating_systems.Mmu.Entry.{has_flag_p, pte_addr_lem}
use cs444_operating_systems.Mmu.{pdx, ptx}
use cs444_operating_systems.Kernel.{Kernel}
use cs444_operating_systems.Kernel.Run.{Cmd, ok}
use cs444_operating_systems.Errors.{Ret}
use cs444_operating_systems.Pgdir.{entry_at}
use cs444_operating_systems.Pgdir.Walk.{kaddr-ok, pde_of, slot_of}
use cs444_operating_systems.Pgdir.Map.{pte_of, IsMapped}
use cs444_operating_systems.Env.{envid2env}
use cs444_operating_systems.Syscall.{with_env}
use cs444_operating_systems.UserLib.{uvpd, uvpt}

pub self-ok :
    (k : Kernel) (c : ℕ) (f : ℕ → Cmd Ret) → k.curenv ≡ some c → with_env 0 true f k ≡ f c k
unfolding with_env envid2env
self-ok k c f cur = ground (arith, cur)

-- A write elsewhere leaves the entry of `va` and the way to it.
module _ (n pgdir va a v : ℕ) (m : ℕ → ℕ) (off : a ≢ slot_of pgdir va m)
    (off' : a ≢ entry_at pgdir (pdx va)) where
  pub slot_frame : slot_of pgdir va (update m a v) ≡ slot_of pgdir va m
  slot_frame = ground arith

  pub pte_frame : pte_of pgdir va (update m a v) ≡ pte_of pgdir va m
  pte_frame = ground arith

  pub IsMapped-frame : (q : ℕ) → IsMapped n pgdir va q m → IsMapped n pgdir va q (update m a v)
  IsMapped-frame q h = record {
    table = record {
      reaches = record {
        small = h.table.small;
        word = ground (arith, h.table.word);
        present = ground (arith, h.table.present);
        exists = ground (arith, h.table.exists);
      };
      apart = ground (arith, h.table.apart);
    };
    word = ground (arith, pte_frame, h.word);
    present = ground (arith, pte_frame, h.present);
    page = ground (arith, pte_frame, h.page);
    exists = h.exists;
  }

-- The entry that uvpt shows.
pub uvpt-ok :
    (k : Kernel) (c pn q : ℕ)
    → k.curenv ≡ some c
    → pn < 2 ^ 20
    → IsMapped k.npages (k.envs c).env_pgdir (pn * 4096) q k.mem
    → uvpt pn k ≡ ok (pte_of (k.envs c).env_pgdir (pn * 4096) k.mem) k
unfolding uvpt uvpd
uvpt-ok k c pn q cur small m =
    let d : pdx (pn * 4096) ≡ pn / 1024 = omega (arith, pdx_lem (pn * 4096)) in
    let t : ptx (pn * 4096) ≡ pn % 1024 = omega (arith, ptx_lem (pn * 4096)) in
    let pde = pde_of (k.envs c).env_pgdir (pn * 4096) k.mem in
    ground (
      arith,
      d,
      t,
      cur,
      has_flag_p pde,
      pte_addr_lem pde,
      kaddr-ok k (pde / 4096 * 4096),
      m.table.present,
      m.table.word,
      m.table.small,
      m.table.exists,
    )
