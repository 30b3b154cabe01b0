-- ===== src/Examples/Bytes.antt =====
-- The functions of jos/lib/string.c on a small memory.
use cs444_operating_systems.Base.{
  ℕ, ◌+◌, ◌-◌, ◌≡◌, refl, ◌&&◌, [], ◌∷◌, arith, ◌==◌, leb, ltb, if◌then◌else◌,
}
use cs444_operating_systems.Strings.{memmove}
use cs444_operating_systems.Strings.Move.{memmove_copies}
use cs444_operating_systems.Strings.Truncate.{IsString}

-- `hi` stands at 100.
abbrev greeting : ℕ → ℕ
greeting a = if a == 100 then 104 else if a == 101 then 105 else 0

greeting-IsString : IsString greeting 100 (104 ∷ 105 ∷ [])
greeting-IsString = (refl, omega arith, (refl, omega arith, refl))

-- The regions overlap, and 102 gets the byte of 101.
memmove_copies_example :
    memmove 101 100 3 greeting 102
    ≡ (if leb 101 102 && ltb 102 (101 + 3) then greeting (100 + (102 - 101)) else greeting 102)
memmove_copies_example = memmove_copies 101 100 3 greeting 102 (omega arith) (omega arith)
