-- ===== src/Examples/Ends.antt =====
-- The end of an environment, jos/kern/env.c, and the input buffer, jos/kern/console.c.
use cs444_operating_systems.Base.{
  ℕ, suc, zero, ◌+◌, ◌*◌, ◌≡◌, refl, some, List, [], ◌∷◌, arith, ◌==◌, if◌then◌else◌, length,
}
use cs444_operating_systems.Mmu.{kernbase}
use cs444_operating_systems.Kernel.{Kernel, free, not_runnable}
use cs444_operating_systems.Kernel.Run.{ok}
use cs444_operating_systems.Errors.{value}
use cs444_operating_systems.Pages.Free.{IsFree}
use cs444_operating_systems.Env.{env_alloc}
use cs444_operating_systems.Env.FreeList.{IsTable}
use cs444_operating_systems.Env.Alloc.{started}
use cs444_operating_systems.Destroy.{env_free}
use cs444_operating_systems.Destroy.Bury.{buried, homed}
use cs444_operating_systems.Destroy.Recycle.{env_alloc-env_free}
use cs444_operating_systems.Console.{Cons}
use cs444_operating_systems.Console.Queue.{Holds, kept}
use cs444_operating_systems.Console.Keyboard.{
  kbd_calls, kbd_proc_data, key_pressed, shiftcode, togglecode, charcode, normalmap,
}
use cs444_operating_systems.Console.Poll.{cons_getc}
use cs444_operating_systems.Console.Arrival.{Gets, cons_getc-Gets}
use cs444_operating_systems.Examples.{sample, sample_env}
use cs444_operating_systems.Examples.Memory.{sample-IsFree}
use cs444_operating_systems.Examples.Envs.{busy, busy-IsTable}

-- Every environment has the empty page 12 as its directory, and only environment 0 is free.
abbrev pub bare : Kernel
bare = record sample {
  envs = λ e. record (sample_env e) {
    env_status = if e == 0 then free else not_runnable;
    env_pgdir = 12 * 4096 + kernbase;
  };
}

pub bare-IsTable : IsTable bare (0 ∷ [])
bare-IsTable = record {
  chain = (refl, omega arith, refl, refl, refl);
  all = λ e lt f. ground arith;
}

pub bare-IsFree : IsFree bare (10 ∷ 11 ∷ [])
bare-IsFree = record {
  small = sample-IsFree.small;
  chain = sample-IsFree.chain;
  unlinked = sample-IsFree.unlinked;
}

env_alloc-env_free_example :
    (env_alloc 0x1001 busy ≡ ok (value 0, some 0) (started 0 10 0x1001 busy))
    × (env_free 0 (started 0 10 0x1001 busy)
        ≡ ok tt (buried 0 10 (homed 0 (started 0 10 0x1001 busy))))
    × IsTable (buried 0 10 (homed 0 (started 0 10 0x1001 busy))) (0 ∷ [])
    × IsFree (buried 0 10 (homed 0 (started 0 10 0x1001 busy))) (10 ∷ 11 ∷ [])
env_alloc-env_free_example =
    env_alloc-env_free busy 0 10 4 0x1001 [] (11 ∷ []) busy-IsTable
      (record {
        small = sample-IsFree.small;
        chain = sample-IsFree.chain;
        unlinked = sample-IsFree.unlinked;
      })
      refl (omega arith)

-- The buffer holds `a` and `b` around its end.
abbrev typed : Cons
typed = record { buf = λ i. if i == 511 then 97 else 98; rpos = 511; wpos = 1 }

typed-Holds : Holds typed (97 ∷ 98 ∷ [])
typed-Holds = record {
  small = omega arith;
  fits = omega arith;
  ends = refl;
  content = (refl, (refl, tt));
}

-- The serial port has a third character, and a key that types `d` was pressed.
abbrev arriving : Kernel
arriving = record sample {
  cons = typed;
  serial_input = 99 ∷ [];
  kbd_shift = 0;
  kbd_input = (1, 32) ∷ [];
}

cons_getc-Gets_example : Gets arriving (97 ∷ 98 ∷ 99 ∷ 100 ∷ []) (cons_getc arriving)
unfolding kbd_calls kbd_proc_data key_pressed shiftcode togglecode charcode normalmap
cons_getc-Gets_example = cons_getc-Gets arriving (97 ∷ 98 ∷ []) typed-Holds refl (omega arith)

-- The same character a number of times.
repeated : ℕ → List ℕ
repeated zero = []
repeated (suc n) = 97 ∷ repeated n

repeated-kept : (n : ℕ) → length (kept (repeated n)) ≡ n
unfolding repeated
repeated-kept zero = refl
repeated-kept (suc n) = ground (arith, repeated-kept n)

abbrev drained : Cons
drained = record { buf = λ i. 0; rpos = 7; wpos = 7 }

drained-Holds : Holds drained []
drained-Holds = record { small = omega arith; fits = omega arith; ends = refl; content = tt }
