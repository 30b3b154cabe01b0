-- ===== src/Console/Poll.antt =====
-- serial_intr, kbd_intr and cons_getc of jos/kern/console.c.
use cs444_operating_systems.Base.{ℕ, []}
use cs444_operating_systems.Kernel.Run.{Cmd, pure, ◌>>=◌, ◌>>◌, gets, modify, when}
use cs444_operating_systems.Console.{cons_intr, next_char}
use cs444_operating_systems.Console.Keyboard.{kbd_calls}

-- The serial port gives the bytes that wait, and then has none.
unfoldable pub serial_intr : Cmd (Unit {0})
serial_intr = do
  exists ← gets λ k. k.serial_exists
  when exists (modify λ k. record k { cons = cons_intr k.serial_input k.cons; serial_input = [] })

unfoldable pub kbd_intr : Cmd (Unit {0})
kbd_intr = modify λ k.
    let (cs, shift, left) = kbd_calls k.kbd_shift k.kbd_input in
    record k { cons = cons_intr cs k.cons; kbd_shift = shift; kbd_input = left }

unfoldable pub cons_getc : Cmd ℕ
cons_getc = do
  serial_intr
  kbd_intr
  (c, cons') ← gets λ k. next_char k.cons
  modify λ k. record k { cons = cons' }
  pure c
