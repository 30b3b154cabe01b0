-- ===== src/Console/Arrival.antt =====
-- cons_getc of jos/kern/console.c: the devices, the input buffer and its reader together.
use cs444_operating_systems.Base.{
  ℕ, ◌+◌, ◌<◌, ◌≡◌, refl, Bool, true, false, List, [], ◌∷◌, ◌++◌, arith, length, ap,
}
use mathlib.Core.Path.{subst, sym}
use cs444_operating_systems.Kernel.{Kernel}
use cs444_operating_systems.Kernel.Run.{Run, Cmd, ok, when}
use cs444_operating_systems.Console.{consbufsize, bump, Cons, cons_intr, next_char}
use cs444_operating_systems.Console.Keyboard.{kbd_calls}
use cs444_operating_systems.Console.Queue.{Holds, kept, Takes, cons_intr_queues, next_char-Takes}
use cs444_operating_systems.Console.Poll.{serial_intr, kbd_intr, cons_getc}

length-append : (xs ys : List ℕ) → length (xs ++ ys) ≡ length xs + length ys
length-append [] ys = omega arith
length-append (x ∷ xs) ys = omega (arith, length-append xs ys)

-- What the keyboard decoder makes of the reads of its ports.
abbrev pub typed : Kernel → List ℕ
typed k = (kbd_calls k.kbd_shift k.kbd_input).0

-- The buffer when both devices have been polled.
abbrev pub polled : Kernel → Cons
polled k = cons_intr (typed k) (cons_intr k.serial_input k.cons)

-- The kernel then, but for the buffer's reader.
abbrev pub after_poll : Kernel → Cons → Kernel
after_poll k s = record k {
  cons = s;
  serial_input = [];
  kbd_shift = (kbd_calls k.kbd_shift k.kbd_input).1;
  kbd_input = (kbd_calls k.kbd_shift k.kbd_input).2;
}

when-true : (b : Bool) (c : Cmd (Unit {0})) (k : Kernel) → b ≡ true → when b c k ≡ c k
when-true true c k e = refl
when-true false c k e = cc

serial_intr-ok :
    (k : Kernel)
    → k.serial_exists ≡ true
    → serial_intr k ≡ ok tt (record k { cons = cons_intr k.serial_input k.cons; serial_input = [] })
unfolding serial_intr
serial_intr-ok k e = when-true k.serial_exists _ k e

cons_getc-next :
    (k : Kernel)
    → k.serial_exists ≡ true
    → cons_getc k ≡ ok (next_char (polled k)).0 (after_poll k (next_char (polled k)).1)
unfolding cons_getc kbd_intr
cons_getc-next k e = rw (serial_intr-ok k e) refl

-- The queue of characters for cons_getc: the oldest is returned, and the others are kept.
abbrev pub Gets : Kernel → List ℕ → Run ℕ → Type 0
Gets k [] r = r ≡ ok 0 (after_poll k (polled k))
Gets k (x ∷ xs) r = (s : Cons) × (r ≡ ok x (after_poll k s)) × Holds s xs

next-Gets :
    (k : Kernel) (xs : List ℕ)
    → Takes (polled k) xs
    → Gets k xs (ok (next_char (polled k)).0 (after_poll k (next_char (polled k)).1))
next-Gets k [] t = ap (λ (r : ℕ × Cons). ok r.0 (after_poll k r.1)) t
next-Gets k (x ∷ xs) t =
    let s : Cons = record (polled k) { rpos = bump (polled k).rpos } in
    (s, ap (λ (r : ℕ × Cons). ok r.0 (after_poll k r.1)) t.0, t.1)

-- cons_getc returns the oldest of the characters that wait, that the serial port has, and that the
-- keyboard's keys make, in this order, and keeps the others for later calls; if there is none it
-- returns 0. The hypotheses: there is a serial port, and at most 511 characters wait in all.
pub cons_getc-Gets :
    (k : Kernel) (xs : List ℕ)
    → Holds k.cons xs
    → k.serial_exists ≡ true
    → length xs + length (kept k.serial_input) + length (kept (typed k)) < consbufsize
    → Gets k (xs ++ kept k.serial_input ++ kept (typed k)) (cons_getc k)
cons_getc-Gets k xs h e room =
    let h1 = cons_intr_queues k.serial_input k.cons xs h (omega arith) in
    let h2 =
      cons_intr_queues (typed k) (cons_intr k.serial_input k.cons) (xs ++ kept k.serial_input) h1
        (omega (arith, length-append xs (kept k.serial_input))) in
    subst (Gets k (xs ++ kept k.serial_input ++ kept (typed k))) (sym (cons_getc-next k e))
      (next-Gets k _ (next_char-Takes (polled k) _ h2))
