-- ===== src/MpConfig.antt =====
-- The search for the multiprocessor configuration, jos/kern/mpconfig.c. Memory is a function from the
-- kernel virtual address of a byte to the byte. A null pointer is `some none`, and `none` is the panic
-- of KADDR at an address behind the memory.
pub mod Search
pub mod Entries
use cs444_operating_systems.Base.{
  ℕ, zero, suc, ◌+◌, ◌-◌, ◌*◌, ◌/◌, ◌%◌, ◌^◌, Bool, true, false, not, ◌&&◌, ◌||◌, ◌==◌, ltb, leb,
  Option, none, some, List, [], ◌∷◌, if◌then◌else◌, update, bit_and,
}
use cs444_operating_systems.Mmu.{u32, kernbase, pgnum}

abbrev pub ncpu_max : ℕ
ncpu_max = 8

unfoldable pub kaddr_of : (npages pa : ℕ) → Option ℕ
kaddr_of npages pa = if leb npages (pgnum pa) then none else some (u32 (pa + kernbase))

-- `memcmp(a, s, n) == 0` for a string constant of `n` characters.
abbrev pub reads : List ℕ → ℕ → (ℕ → ℕ) → Bool
reads [] a m = true
reads (c ∷ s) a m = m a == c && reads s (a + 1) m

-- The loop of `sum`.
unfoldable pub add_bytes : (len a total : ℕ) → (ℕ → ℕ) → ℕ
add_bytes zero a total m = total
add_bytes (suc len) a total m = add_bytes len (a + 1) (total + m a) m

abbrev pub sum : (a len : ℕ) → (ℕ → ℕ) → ℕ
sum a len m = add_bytes len a 0 m % 2 ^ 8

-- Is this a floating pointer structure: "_MP_" and the checksum?
unfoldable pub is_mp : ℕ → (ℕ → ℕ) → Bool
is_mp mp m = reads (95 ∷ 77 ∷ 80 ∷ 95 ∷ []) mp m && sum mp 16 m == 0

-- The loop of mpsearch1, of at most `rounds` rounds.
unfoldable pub scan_mp : (rounds mp end : ℕ) → (ℕ → ℕ) → Option ℕ
scan_mp zero mp end m = none
scan_mp (suc rounds) mp end m = elim (ltb mp end) [
  | false ↦ none
  | true ↦ elim (is_mp mp m) [ true ↦ some mp | false ↦ scan_mp rounds (mp + 16) end m ]
]

unfoldable pub mpsearch1 : (npages a len : ℕ) → (ℕ → ℕ) → Option (Option ℕ)
mpsearch1 npages a len m = elim (kaddr_of npages a) [
  | none ↦ none
  | some mp ↦ elim (kaddr_of npages (u32 (a + len))) [
    | none ↦ none
    | some end ↦ some (scan_mp (len / 16) mp end m)
  ]
]

abbrev pub load16 : ℕ → (ℕ → ℕ) → ℕ
load16 a m = m a + 2 ^ 8 * m (a + 1)

abbrev pub load32 : ℕ → (ℕ → ℕ) → ℕ
load32 a m = load16 a m + 2 ^ 16 * load16 (a + 2) m

-- Where the last call of mpsearch looks if the first has found nothing.
abbrev pub or_rom : ℕ → (ℕ → ℕ) → Option (Option ℕ) → Option (Option ℕ)
or_rom npages m none = none
or_rom npages m (some (some mp)) = some (some mp)
or_rom npages m (some none) = mpsearch1 npages 0xF0000 0x10000 m

unfoldable pub mpsearch : (npages : ℕ) → (ℕ → ℕ) → Option (Option ℕ)
mpsearch npages m = elim (kaddr_of npages 0x400) [
  | none ↦ none
  | some bda ↦
      let p = load16 (bda + 0x0E) m in
      let q = load16 (bda + 0x13) m * 1024 in
      or_rom npages m (
        if not (p == 0)
        then mpsearch1 npages (p * 16) 1024 m
        else mpsearch1 npages (u32 (q + 2 ^ 32 - 1024)) 1024 m)
]

-- The tests of the configuration table at `conf`.
unfoldable pub accepts : ℕ → (ℕ → ℕ) → Bool
accepts conf m =
    let len = load16 (conf + 4) m in
    reads (80 ∷ 67 ∷ 77 ∷ 80 ∷ []) conf m
    && sum conf len m == 0
    && (m (conf + 6) == 1 || m (conf + 6) == 4)
    && (sum (conf + len) (load16 (conf + 40) m) m + m (conf + 42)) % 2 ^ 8 == 0

-- The floating pointer structure and the table.
unfoldable pub mpconfig : (npages : ℕ) → (ℕ → ℕ) → Option (Option (ℕ × ℕ))
mpconfig npages m = elim (mpsearch npages m) [
  | none ↦ none
  | some found ↦ elim found [
    | none ↦ some none
    | some mp ↦
        if load32 (mp + 4) m == 0 || not (m (mp + 11) == 0)
        then some none
        else elim (kaddr_of npages (load32 (mp + 4) m)) [
          | none ↦ none
          | some conf ↦ some (if accepts conf m then some (mp, conf) else none)
        ]
  ]
]

-- The globals that mp_init sets: `cpus` by its `cpu_id`, `bootcpu` as an index into it, and which
-- entry of `cpus` is marked as started.
pub record Cpus : Type 0 where
  pub ismp : Bool
  pub ncpu : ℕ
  pub cpu_id : ℕ → ℕ
  pub bootcpu : ℕ
  pub started : Option ℕ
  pub lapicaddr : ℕ
  pub imcr : Bool

-- The case MPPROC, with the entry's flags.
unfoldable pub add_cpu : ℕ → Cpus → Cpus
add_cpu flags s =
    let s' : Cpus = if bit_and flags 2 == 0 then s else record s { bootcpu = s.ncpu } in
    if ltb s'.ncpu ncpu_max
    then record s' { cpu_id = update s'.cpu_id s'.ncpu s'.ncpu; ncpu = s'.ncpu + 1 }
    else s'

-- The loop over the entries that are left, the next one at `p`.
unfoldable pub parse_entries : (left p : ℕ) → (ℕ → ℕ) → Cpus → Cpus
parse_entries zero p m s = s
parse_entries (suc left) p m s = elim (m p == 0) [
  | true ↦ parse_entries left (p + 20) m (add_cpu (m (p + 3)) s)
  | false ↦ elim (leb (m p) 4) [
    | true ↦ parse_entries left (p + 8) m s
    | false ↦ record s { ismp = false }
  ]
]

abbrev pub conclude : (imcrp : ℕ) → Cpus → Cpus
conclude imcrp s =
    let s' : Cpus = record s { started = some s.bootcpu } in
    if not s.ismp
    then record s' { ncpu = 1; lapicaddr = 0 }
    else if not (imcrp == 0)
    then record s' { imcr = true }
    else s'

unfoldable pub mp_init : (npages : ℕ) → (ℕ → ℕ) → Cpus → Option Cpus
mp_init npages m s = elim (mpconfig npages m) [
  | none ↦ none
  | some found ↦ elim found [
    | none ↦ some (record s { bootcpu = 0 })
    | some (mp, conf) ↦ some (
        conclude (m (mp + 12)) (
          parse_entries (load16 (conf + 34) m) (conf + 44) m
            (record s { bootcpu = 0; ismp = true; lapicaddr = load32 (conf + 36) m })))
  ]
]
