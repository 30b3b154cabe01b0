-- ===== src/BootAlloc.antt =====
-- The allocator that mem_init uses before the free list exists: boot_alloc of jos/kern/pmap.c.
-- `end` is the linker's symbol, `nextfree` the static variable (0 is NULL).
pub mod Chunks
use cs444_operating_systems.Base.{
  ℕ, ◌+◌, ◌-◌, ◌*◌, ◌^◌, Option, none, some, ◌==◌, ltb, if◌then◌else◌,
}
use cs444_operating_systems.Mmu.{u32, pgsize, kernbase, round_up}

-- The value of `nextfree` once it has been set.
unfoldable pub start_of : (end nextfree : ℕ) → ℕ
start_of end nextfree = if nextfree == 0 then round_up (u32 (end + 1)) pgsize else nextfree

-- `none` is a panic; else the address that is returned, and the new `nextfree`.
unfoldable pub boot_alloc : (end npages nextfree n : ℕ) → Option (ℕ × ℕ)
boot_alloc end npages nextfree n =
    let next = start_of end nextfree in
    if n == 0
    then some (next, next)
    else let moved = round_up (u32 (next + n)) pgsize in
      if ltb (u32 (npages * pgsize)) (u32 (moved + 2 ^ 32 - kernbase))
      then none
      else some (moved, moved)
