-- ===== src/Examples/Memory.antt =====
-- The page allocator of jos/kern/pmap.c on the small machine.
use cs444_operating_systems.Base.{refl, none, [], ◌∷◌, arith, ◌==◌, if◌then◌else◌}
use cs444_operating_systems.Kernel.{Kernel}
use cs444_operating_systems.Pages.Free.{IsFree}
use cs444_operating_systems.Examples.{sample}

pub sample-IsFree : IsFree sample (10 ∷ 11 ∷ [])
sample-IsFree = record {
  small = omega arith;
  chain = (refl, omega arith, refl, refl, (refl, omega arith, refl, refl, refl));
  unlinked = λ p out. ground arith;
}

-- Page 8 has lost its last reference.
abbrev dropped_8 : Kernel
dropped_8 = record sample {
  pages = λ p. if p == 8 then record { pp_link = none; pp_ref = 0 } else sample.pages p;
}

dropped_8-IsFree : IsFree dropped_8 (10 ∷ 11 ∷ [])
dropped_8-IsFree = record {
  small = omega arith;
  chain = (refl, omega arith, refl, refl, (refl, omega arith, refl, refl, refl));
  unlinked = λ p out. ground arith;
}
