-- ===== src/BootAlloc/Chunks.antt =====
-- Which memory boot_alloc of jos/kern/pmap.c hands out.
use cs444_operating_systems.Base.{ℕ, ◌+◌, ◌^◌, ◌≤◌, ◌<◌, ◌≡◌, ◌≢◌, some, arith}
use cs444_operating_systems.Mmu.{pgsize}
use cs444_operating_systems.Mmu.Rounding.{round_page}
use cs444_operating_systems.BootAlloc.{start_of, boot_alloc}

-- Does a call return `result` and set `nextfree` to `nextfree'`?
abbrev pub Returns : (end npages nextfree n result nextfree' : ℕ) → Type 0
Returns end npages nextfree n result nextfree' =
    boot_alloc end npages nextfree n ≡ some (result, nextfree')

-- A chunk of `n` bytes that boot_alloc returns starts at the first page boundary behind `n` bytes
-- from the old `nextfree`, and the new `nextfree` is the start of the chunk: a boot_alloc(0) after
-- it, by which page_init learns what is in use, returns the chunk itself. The hypotheses:
-- `nextfree` has been set, `n` is not 0, and the addresses do not overflow.
pub chunk_unreserved :
    (end npages nextfree n result nextfree' : ℕ)
    → nextfree ≢ 0
    → nextfree + n + pgsize ≤ 2 ^ 32
    → n ≢ 0
    → Returns end npages nextfree n result nextfree'
    → (nextfree + n ≤ result)
      × (result < nextfree + n + pgsize)
      × (nextfree' ≡ result)
      × Returns end npages nextfree' 0 result nextfree'
unfolding boot_alloc start_of
chunk_unreserved end npages nextfree n result nextfree' ne fits pos e =
    let bounds = round_page (nextfree + n) fits in
    (ground (arith, bounds), ground (arith, bounds), ground arith, ground (arith, bounds))
