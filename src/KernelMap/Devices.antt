-- ===== src/KernelMap/Devices.antt =====
-- mmio_map_region of jos/kern/pmap.c.
use cs444_operating_systems.Base.{ℕ, ◌+◌, ◌*◌, ◌^◌, ◌≤◌, ◌<◌, ◌≡◌, ◌≢◌, arith}
use cs444_operating_systems.Mmu.{u32, pgsize, mmiolim, round_up}
use cs444_operating_systems.Kernel.{Kernel}
use cs444_operating_systems.Kernel.Run.{ok, panic}
use cs444_operating_systems.Pgdir.Region.{page_slot, page_entry, IsReady, boot_map_region_maps}
use cs444_operating_systems.KernelMap.{device_perm, mmio_map_region}

-- mmio_map_region of a size that ROUNDUP makes `n` pages, where the sum of `base` and the size wraps
-- around at 2 ^ 32: if the sum is above MMIOLIM, it panics. Else it returns the old `base`, the new
-- one is the sum, and the pages from the old one on are mapped to the device, uncached and writable;
-- no other word has changed. So a size whose sum wraps around is accepted, and the next region
-- starts below this one. The hypothesis: the kernel's directory has page tables for the region, whose
-- entries are different words apart from the directory.
pub mmio_map_region_decides :
    (k : Kernel) (base pa size n : ℕ)
    → round_up size pgsize ≡ n * 4096
    → n * 4096 < 2 ^ 32
    → IsReady k k.kern_pgdir base n
    → (mmiolim < u32 (base + n * 4096) → mmio_map_region base pa size k ≡ panic)
      × (u32 (base + n * 4096) ≤ mmiolim
          → (m : ℕ → ℕ) × (mmio_map_region base pa size k
              ≡ ok (base, u32 (base + n * 4096)) (record k { mem = m }))
            × ((j : ℕ) → j < n → m (page_slot k.kern_pgdir base j m) ≡ page_entry pa device_perm j)
            × ((a : ℕ)
                → ((j : ℕ) → j < n → a ≢ page_slot k.kern_pgdir base j k.mem)
                → m a ≡ k.mem a))
unfolding mmio_map_region
mmio_map_region_decides k base pa size n e fits ready = (
  λ above. ground (arith, e, above),
  λ below.
      let (m, call, seen, done, rest) =
        boot_map_region_maps k k.kern_pgdir base pa device_perm n fits ready in
      (m, rw e (ground (arith, call, below)), seen, rest),
)
