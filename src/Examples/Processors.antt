-- ===== src/Examples/Processors.antt =====
-- The multiprocessor configuration, jos/kern/mpconfig.c.
use cs444_operating_systems.Base.{
  ℕ, ◌+◌, ◌≡◌, refl, true, false, some, none, List, [], ◌∷◌, arith, ◌==◌, if◌then◌else◌,
}
use cs444_operating_systems.Mmu.{kernbase, pgnum}
use cs444_operating_systems.MpConfig.{
  Cpus, is_mp, mpsearch1, mp_init, mpconfig, mpsearch, scan_mp, kaddr_of, add_bytes, accepts,
}
use cs444_operating_systems.MpConfig.Entries.{processor, device, Indexed, mp_init_counts}

abbrev bytes_of : List (ℕ × ℕ) → ℕ → ℕ
bytes_of [] a = 0
bytes_of ((p, v) ∷ ps) a = if a == kernbase + p then v else bytes_of ps a

-- The extended BIOS data area at 0x1000 has a floating pointer structure, with the table at 0x2000:
-- two processors, the second one with the boot flag, and a bus.
abbrev firmware : ℕ → ℕ
firmware = bytes_of (
    (0x40F, 1)
    ∷ (0x1000, 95)
    ∷ (0x1001, 77)
    ∷ (0x1002, 80)
    ∷ (0x1003, 95)
    ∷ (0x1005, 32)
    ∷ (0x100A, 133)
    ∷ (0x2000, 80)
    ∷ (0x2001, 67)
    ∷ (0x2002, 77)
    ∷ (0x2003, 80)
    ∷ (0x2004, 92)
    ∷ (0x2006, 4)
    ∷ (0x2007, 106)
    ∷ (0x2022, 3)
    ∷ (0x2043, 2)
    ∷ (0x2054, 1)
    ∷ [])

abbrev no_cpus : Cpus
no_cpus = record {
  ismp = false;
  ncpu = 0;
  cpu_id = λ i. 0;
  bootcpu = 0;
  started = none;
  lapicaddr = 0;
  imcr = false;
}

mp_init_counts_example :
    (s' : Cpus) × (mp_init 1024 firmware no_cpus ≡ some s')
    × (s'.ncpu ≡ 2)
    × Indexed s'
    × (s'.bootcpu ≡ 1)
    × (s'.started ≡ some s'.bootcpu)
    × (s'.ismp ≡ true)
unfolding mpconfig mpsearch mpsearch1 scan_mp is_mp kaddr_of pgnum add_bytes accepts
mp_init_counts_example =
    mp_init_counts 1024 (0x1000 + kernbase) (0x2000 + kernbase) (processor 0 ∷ []) (device 1 ∷ []) 2
      firmware no_cpus refl refl (omega arith) (omega arith) tt refl
