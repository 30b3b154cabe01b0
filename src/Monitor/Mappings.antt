-- ===== src/Monitor/Mappings.antt =====
-- The commands showmapping and setperms of jos/kern/monitor.c. The kernel's memory is in its state;
-- the arguments are strings in the memory `text` of bytes. What cprintf prints is a list of lines. The
-- loops run on fuel.
pub mod Show
pub mod Permissions
use cs444_operating_systems.Base.{
  ℕ, zero, suc, ◌+◌, ◌-◌, ◌^◌, Bool, true, false, Option, none, some, List, [], ◌∷◌, ◌==◌, leb,
  if◌then◌else◌, bit_and, bit_or,
}
use cs444_operating_systems.Mmu.{
  u32, pgsize, pte_addr, has_flag, pte_p, pte_w, pte_u, round_down, round_up,
}
use cs444_operating_systems.Strings.Number.{strtol}
use cs444_operating_systems.Strings.Scan.{strcmp}
use cs444_operating_systems.Kernel.{Kernel}
use cs444_operating_systems.Kernel.Run.{
  Cmd, pure, fail, out_of_fuel, ◌>>=◌, ◌>>◌, gets, load, store, when,
}
use cs444_operating_systems.Pgdir.{pgdir_walk}

-- A loop over characters that is given too little fuel.
abbrev pub given : {A : Type 0} → Option A → Cmd A
given none k = out_of_fuel
given (some a) k = pure a k

-- `strtol(s, NULL, 0)`
unfoldable pub long_at : (fuel s : ℕ) → (ℕ → ℕ) → Cmd ℕ
long_at fuel s text = do parsed ← given (strtol fuel s 0 text); pure parsed.0

-- What is printed for one page: the address it maps to and the flags P, U and W, or that there is none.
pub data Shown : Type 0 where
  maps_to : (va pa : ℕ) → (p u w : Bool) → Shown
  not_valid : (va : ℕ) → Shown

unfoldable pub show_page : ℕ → Cmd Shown
show_page va = do
  pgdir ← gets λ k. k.kern_pgdir
  got ← pgdir_walk pgdir va false
  elim got [
    | none ↦ pure (not_valid va)
    | some pte ↦ do
      entry ← load pte
      pure (
          maps_to va (pte_addr entry) (has_flag entry pte_p) (has_flag entry pte_u)
            (has_flag entry pte_w))
  ]

-- The loop over the pages.
unfoldable pub show_pages : (fuel va end_va : ℕ) → Cmd (List Shown)
show_pages zero va end_va = λ k. out_of_fuel
show_pages (suc fuel) va end_va = elim (leb va end_va) [
  | false ↦ pure []
  | true ↦ do
    line ← show_page va
    lines ← show_pages fuel (u32 (va + pgsize)) end_va
    pure (line ∷ lines)
]

-- `argv` is the array, with what is left in it from `argc` on.
-- The heading line, with the two addresses, is left out.
unfoldable pub mon_showmapping : (fuel argc : ℕ) → (argv : ℕ → ℕ) → (ℕ → ℕ) → Cmd (List Shown)
mon_showmapping fuel argc argv text =
    if argc == 3
    then (do
      start ← long_at fuel (argv 1) text
      end ← long_at fuel (argv 2) text
      show_pages fuel (round_down start pgsize) (round_up end pgsize))
    else fail

-- `*pte &= ~0x7`
unfoldable pub clear_flags : ℕ → Cmd (Unit {0})
clear_flags pte = do entry ← load pte; store pte (bit_and entry (2 ^ 32 - 8))

-- `*pte |= flag`
unfoldable pub add_flag : (pte flag : ℕ) → Cmd (Unit {0})
add_flag pte flag = do entry ← load pte; store pte (bit_or entry flag)

-- The loop over the letters, with `i` of the string `s`.
unfoldable pub set_flags : (fuel s i pte : ℕ) → (ℕ → ℕ) → Cmd (Unit {0})
set_flags zero s i pte text = λ k. out_of_fuel
set_flags (suc fuel) s i pte text = elim (text (s + i) == 0) [
  | true ↦ pure tt
  | false ↦ do
    when (text (s + i) == 80) (add_flag pte pte_p)
    when (text (s + i) == 85) (add_flag pte pte_u)
    when (text (s + i) == 87) (add_flag pte pte_w)
    set_flags fuel s (i + 2) pte text
]

-- The string constants "clear" and "set" are at the addresses `clear` and `set`.
unfoldable pub mon_setperms :
    (clear set : ℕ) → (fuel argc : ℕ) → (argv : ℕ → ℕ) → (ℕ → ℕ) → Cmd (Unit {0})
mon_setperms clear set fuel argc argv text = do
  va ← long_at fuel (argv 2) text
  pgdir ← gets λ k. k.kern_pgdir
  got ← pgdir_walk pgdir va false
  if leb argc 1 then fail else elim got [
    | none ↦ fail
    | some pte ↦ do
      clears ← given (strcmp fuel (argv 1) clear text)
      if clears == 0 then clear_flags pte else (do
        sets ← given (strcmp fuel (argv 1) set text)
        if sets == 0 then (do clear_flags pte; set_flags fuel (argv 3) 1 pte text) else pure tt)
  ]
