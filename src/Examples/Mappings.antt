-- ===== src/Examples/Mappings.antt =====
-- The commands showmapping and setperms of jos/kern/monitor.c on the small machine: page 3 is the
-- kernel's table for the first 4 MB, where page 5 is mapped at 0x1000.
use cs444_operating_systems.Base.{
  ℕ, some, refl, [], ◌∷◌, arith, ◌==◌, ◌+◌, ◌*◌, ◌≡◌, if◌then◌else◌, update, ◌%◌,
}
use cs444_operating_systems.Mmu.{kernbase, pdx}
use cs444_operating_systems.Strings.Number.{
  skip_blanks, sign, prefix, dig, digits, number_at, strtol,
}
use cs444_operating_systems.Strings.Scan.{strcmp}
use cs444_operating_systems.Kernel.{Kernel}
use cs444_operating_systems.Kernel.Run.{ok}
use cs444_operating_systems.Pgdir.{entry_at}
use cs444_operating_systems.Pgdir.Walk.{pde_of}
use cs444_operating_systems.Monitor.Mappings.{mon_showmapping, mon_setperms}
use cs444_operating_systems.Monitor.Mappings.Show.{IsDirectory, lines_of, mon_showmapping_lists}
use cs444_operating_systems.Monitor.Mappings.Permissions.{permitted, mon_setperms_sets}
use cs444_operating_systems.Examples.{sample}

abbrev mapped_mem : ℕ → ℕ
mapped_mem a =
    if a == entry_at (4 * 4096 + kernbase) 0
    then 3 * 4096 + 3
    else if a == entry_at (3 * 4096 + kernbase) 1
    then 5 * 4096 + 3
    else 0

abbrev mapped : Kernel
mapped = record sample { mem = mapped_mem }

-- "0x1000" at 10, "8192" at 20, "set" at 30, "[P|U]" at 40, "clear" at 60, "set" at 70.
abbrev typed : ℕ → ℕ
typed =
    let t = update (update (update (λ a. 0) 10 48) 11 120) 12 49 in
    let t = update (update (update t 13 48) 14 48) 15 48 in
    let t = update (update (update (update t 20 56) 21 49) 22 57) 23 50 in
    let t = update (update (update t 30 115) 31 101) 32 116 in
    let t = update (update (update (update (update t 40 91) 41 80) 42 124) 43 85) 44 93 in
    let t = update (update (update (update (update t 60 99) 61 108) 62 101) 63 97) 64 114 in
    update (update (update t 70 115) 71 101) 72 116

abbrev shown_words : ℕ → ℕ
shown_words i = if i == 1 then 10 else if i == 2 then 20 else 0

abbrev permission_words : ℕ → ℕ
permission_words i = if i == 1 then 30 else if i == 2 then 10 else if i == 3 then 40 else 0

mapped-IsDirectory : IsDirectory mapped
mapped-IsDirectory = record { reaches = λ va e. ground arith; word = λ va. ground arith }

hexadecimal : strtol 9 10 0 typed ≡ some (0x1000, 16)
unfolding strtol skip_blanks number_at sign prefix digits dig
hexadecimal = refl

decimal : strtol 9 20 0 typed ≡ some (8192, 24)
unfolding strtol skip_blanks number_at sign prefix digits dig
decimal = refl

mon_showmapping_lists_example :
    mon_showmapping 9 3 shown_words typed mapped ≡ ok (lines_of mapped 2 0x1000) mapped
mon_showmapping_lists_example =
    mon_showmapping_lists mapped 9 0x1000 8192 16 24 2 shown_words typed mapped-IsDirectory
      hexadecimal decimal (omega arith) (omega arith) refl (omega arith)

has_table : pde_of mapped.kern_pgdir 0x1000 mapped_mem % 2 ≡ 1
unfolding pdx
has_table = refl

not_clear : strcmp 9 30 60 typed ≡ some 16
unfolding strcmp
not_clear = refl

is_set : strcmp 9 30 70 typed ≡ some 0
unfolding strcmp
is_set = refl

mon_setperms_sets_example :
    mon_setperms 60 70 9 4 permission_words typed mapped
    ≡ ok tt (permitted 16 0 0x1000 (80 ∷ 85 ∷ []) mapped)
mon_setperms_sets_example =
    mon_setperms_sets mapped 60 70 9 4 0x1000 16 16 0 permission_words typed (80 ∷ 85 ∷ [])
      (mapped-IsDirectory.reaches 0x1000 has_table) (mapped-IsDirectory.word 0x1000) (omega arith)
      hexadecimal not_clear is_set (refl, omega arith, (refl, omega arith, refl)) (omega arith)
