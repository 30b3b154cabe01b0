-- ===== src/Console/Screen/Bounds.antt =====
-- cga_putc and cons_putc of jos/kern/console.c stay on the screen.
use cs444_operating_systems.Base.{
  ℕ, ◌+◌, ◌/◌, ◌≤◌, ◌<◌, ◌≡◌, refl, ltb, if◌then◌else◌, bit_and, bit_or, arith, ◌∙◌, ◌*◌,
  Bool-cases, inl, inr,
}
use cs444_operating_systems.Console.Screen.{
  crt_cols, crt_size, Screen, serial_putc, lpt_putc, put_char, scroll, move_cursor, cga_putc_with,
  cons_putc_blank, five_blanks, cga_putc, cons_putc,
}

-- From `s` to `t` the cursor stays on the screen, and no cell outside of it is written.
pub record Stays (s t : Screen) : Type 0 where
  pub on_screen : t.crt_pos < crt_size
  pub outside : (i : ℕ) → crt_size ≤ i → t.crt_buf i ≡ s.crt_buf i

Stays-then : {s t u : Screen} → Stays s t → Stays t u → Stays s u
Stays-then p q = record {
  on_screen = q.on_screen;
  outside = λ i out. q.outside i out ∙ p.outside i out;
}

-- What the switch leaves: the cursor is at most one row below the screen.
record Near (s t : Screen) : Type 0 where
  near : t.crt_pos < crt_size + crt_cols
  outside : (i : ℕ) → crt_size ≤ i → t.crt_buf i ≡ s.crt_buf i

put_char-Near :
    (tab : Screen → Screen) (c : ℕ) (s : Screen)
    → s.crt_pos < crt_size
    → Stays s (tab s)
    → Near s (put_char tab c s)
unfolding put_char
put_char-Near tab c s lt t = record {
  near = ground (arith, t.on_screen);
  outside = λ i out. ground (arith, t.outside i out);
}

scroll-Stays : (s t : Screen) → Near s t → Stays s (move_cursor (scroll t))
unfolding scroll move_cursor
scroll-Stays s t n = record {
  on_screen = ground (arith, n.near);
  outside = λ i out. ground (arith, n.outside i out);
}

with-Stays :
    (tab : Screen → Screen) (c : ℕ) (s : Screen)
    → s.crt_pos < crt_size
    → Stays s (tab s)
    → Stays s (cga_putc_with tab c s)
unfolding cga_putc_with
with-Stays tab c s lt t = scroll-Stays s _ (put_char-Near tab (bit_or c s.color) s lt t)

blank-Stays : (s : Screen) → s.crt_pos < crt_size → Stays s (cons_putc_blank s)
unfolding cons_putc_blank lpt_putc serial_putc
blank-Stays s lt =
    let s1 = lpt_putc 32 (serial_putc 32 s) in
    let r = with-Stays (λ t. t) 32 s1 lt (record { on_screen = lt; outside = λ i out. refl }) in
    record { on_screen = r.on_screen; outside = r.outside }

five-Stays : (s : Screen) → s.crt_pos < crt_size → Stays s (five_blanks s)
five-Stays s lt =
    let r1 = blank-Stays s lt in
    let r2 = Stays-then r1 (blank-Stays _ r1.on_screen) in
    let r3 = Stays-then r2 (blank-Stays _ r2.on_screen) in
    let r4 = Stays-then r3 (blank-Stays _ r3.on_screen) in
    Stays-then r4 (blank-Stays _ r4.on_screen)

-- Output of any character to the console, a tab with its five blanks included, leaves the cursor on
-- the screen and writes no cell behind the screen. The hypothesis: the cursor is on the screen.
pub cons_putc-Stays : (c : ℕ) (s : Screen) → s.crt_pos < crt_size → Stays s (cons_putc c s)
unfolding cons_putc cga_putc lpt_putc serial_putc
cons_putc-Stays c s lt =
    let s1 = lpt_putc c (serial_putc c s) in
    let r = with-Stays five_blanks c s1 lt (five-Stays s1 lt) in
    record { on_screen = r.on_screen; outside = r.outside }

-- The output of a newline, with an attribute that leaves the low byte alone, puts the cursor at the
-- start of the next row and changes no cell; from the last row, it moves every row up by one, clears
-- the last one and puts the cursor at its start. The hypothesis: the cursor is on the screen.
pub cons_putc_newline :
    (s : Screen)
    → s.crt_pos < crt_size
    → bit_and (bit_or 10 s.color) 0xFF ≡ 10
    → let t = cons_putc 10 s in
      if ltb (s.crt_pos / crt_cols) 24
      then ((t.crt_pos ≡ (s.crt_pos / crt_cols + 1) * crt_cols)
          × ((i : ℕ) → t.crt_buf i ≡ s.crt_buf i))
      else ((t.crt_pos ≡ 24 * crt_cols)
          × ((i : ℕ) → i < 24 * crt_cols → t.crt_buf i ≡ s.crt_buf (i + crt_cols))
          × ((i : ℕ) → 24 * crt_cols ≤ i → i < crt_size → t.crt_buf i ≡ 0x0720))
unfolding cons_putc cga_putc cga_putc_with put_char scroll move_cursor lpt_putc serial_putc
cons_putc_newline s lt plain = elim (Bool-cases (ltb (s.crt_pos / crt_cols) 24)) [
  | inl above ↦ rw above (ground (arith, plain), λ i. ground (arith, plain))
  | inr last ↦
      rw last
        (ground (arith, plain), λ i lo. ground (arith, plain), λ i lo hi. ground (arith, plain))
]
