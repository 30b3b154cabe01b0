-- ===== src/Format.antt =====
-- Formatted output: printnum of jos/lib/printfmt.c. The result of a function is the list of the
-- characters that it passes to `putch`.
pub mod Number
pub mod Convert
pub mod Cprintf
pub mod Print
pub mod Ends
pub mod Buffer
pub mod Signed
pub mod Termination
use cs444_operating_systems.Base.{
  ℕ, zero, suc, ◌+◌, ◌-◌, ◌*◌, ◌/◌, ◌%◌, ◌^◌, Bool, true, false, ◌&&◌, ◌||◌, ◌==◌, leb, ltb, Option,
  none, some, List, [], ◌∷◌, ◌++◌, if◌then◌else◌,
}

-- `"0123456789abcdef"[d]`
unfoldable pub digit : ℕ → ℕ
digit d = if ltb d 10 then 48 + d else 87 + d

-- `n` times the character `ch`.
unfoldable pub repeat : (n ch : ℕ) → List ℕ
repeat zero ch = []
repeat (suc n) ch = ch ∷ repeat n ch

-- A call for each digit, so 64 units of fuel are enough for an `unsigned long long`. A negative width
-- is 0 here.
unfoldable pub printnum : (fuel num base width padc : ℕ) → List ℕ
printnum zero num base width padc = []
printnum (suc fuel) num base width padc =
    let rest = printnum fuel (num / base) base (width - 1) padc in
    (if leb base num then rest else repeat (width - 1) padc) ++ digit (num % base) ∷ []
