-- ===== src/Console/Screen.antt =====
-- Output to the console: serial_putc, lpt_putc, cga_putc and cons_putc of jos/kern/console.c. The
-- waits for a device are left out: they end after 12,800 rounds at most.
pub mod Bounds
use cs444_operating_systems.Base.{
  ℕ, ◌+◌, ◌-◌, ◌*◌, ◌%◌, ◌/◌, ◌^◌, Bool, true, false, ◌&&◌, ◌==◌, leb, ltb, List, [], ◌∷◌,
  if◌then◌else◌, update, bit_and, bit_or,
}

abbrev pub crt_cols : ℕ
crt_cols = 80

abbrev pub crt_size : ℕ
crt_size = 25 * crt_cols

-- The cells of the screen, the cursor, the attribute, and what has been written to the ports, with
-- the last write first. `crt_pos` and the cells are 16 bits wide.
pub record Screen : Type 0 where
  pub crt_buf : ℕ → ℕ
  pub crt_pos : ℕ
  pub color : ℕ
  pub addr_6845 : ℕ
  pub written : List (ℕ × ℕ)

abbrev pub outb : (port data' : ℕ) → Screen → Screen
outb port data' s = record s { written = (port, data' % 2 ^ 8) ∷ s.written }

abbrev pub com1 : ℕ
com1 = 0x3F8

unfoldable pub serial_putc : ℕ → Screen → Screen
serial_putc c s = outb com1 c s

unfoldable pub lpt_putc : ℕ → Screen → Screen
lpt_putc c s = outb (0x378 + 2) 0x08 (outb (0x378 + 2) 0x0D (outb 0x378 c s))

-- `crt_buf[crt_pos] = v`
abbrev pub put_cell : ℕ → Screen → Screen
put_cell v s = record s { crt_buf = update s.crt_buf s.crt_pos (v % 2 ^ 16) }

abbrev pub move_to : ℕ → Screen → Screen
move_to pos s = record s { crt_pos = pos % 2 ^ 16 }

abbrev pub carriage_return : Screen → Screen
carriage_return s = move_to (s.crt_pos - s.crt_pos % crt_cols) s

-- `(c & ~0xff) | ' '`
abbrev pub blank : ℕ → ℕ
blank c = bit_or (bit_and c 0xFFFFFF00) 32

-- The switch on the character, where `tab` is the case '\t'.
unfoldable pub put_char : (tab : Screen → Screen) → ℕ → Screen → Screen
put_char tab c s =
    if bit_and c 0xFF == 8
    then (if ltb 0 s.crt_pos then put_cell (blank c) (move_to (s.crt_pos - 1) s) else s)
    else if bit_and c 0xFF == 10
    then carriage_return (move_to (s.crt_pos + crt_cols) s)
    else if bit_and c 0xFF == 13
    then carriage_return s
    else if bit_and c 0xFF == 9
    then tab s
    else move_to (s.crt_pos + 1) (put_cell c s)

-- The rows move up by one, and the last is cleared.
unfoldable pub scroll : Screen → Screen
scroll s =
    if leb crt_size s.crt_pos
    then record s {
      crt_buf = λ i.
          if ltb i (crt_size - crt_cols)
          then s.crt_buf (i + crt_cols)
          else if ltb i crt_size
          then 0x0720
          else s.crt_buf i;
      crt_pos = s.crt_pos - crt_cols;
    }
    else s

unfoldable pub move_cursor : Screen → Screen
move_cursor s =
    outb (s.addr_6845 + 1) s.crt_pos
      (outb s.addr_6845 15 (outb (s.addr_6845 + 1) (s.crt_pos / 2 ^ 8) (outb s.addr_6845 14 s)))

unfoldable pub cga_putc_with : (tab : Screen → Screen) → ℕ → Screen → Screen
cga_putc_with tab c s = move_cursor (scroll (put_char tab (bit_or c s.color) s))

-- cons_putc of a blank, which is no tab whatever the attribute is.
unfoldable pub cons_putc_blank : Screen → Screen
cons_putc_blank s = cga_putc_with (λ t. t) 32 (lpt_putc 32 (serial_putc 32 s))

abbrev pub five_blanks : Screen → Screen
five_blanks s =
    cons_putc_blank (cons_putc_blank (cons_putc_blank (cons_putc_blank (cons_putc_blank s))))

unfoldable pub cga_putc : ℕ → Screen → Screen
cga_putc c s = cga_putc_with five_blanks c s

unfoldable pub cons_putc : ℕ → Screen → Screen
cons_putc c s = cga_putc c (lpt_putc c (serial_putc c s))
