-- ===== src/Examples/Symbols.antt =====
-- An address in a function, debuginfo_eip of jos/kern/kdebug.c.
use cs444_operating_systems.Base.{ℕ, ◌≡◌, refl, true, some, arith, ◌==◌, if◌then◌else◌, inr}
use cs444_operating_systems.Strings.Scan.{strfind}
use cs444_operating_systems.Stabs.{Stab}
use cs444_operating_systems.Stabs.Info.{debuginfo_eip}
use cs444_operating_systems.Stabs.Describe.{Located, debuginfo_eip_locates}

abbrev stab : (strx type desc value : ℕ) → Stab
stab strx type desc value = record {
  n_strx = strx;
  n_type = type;
  n_other = 0;
  n_desc = desc;
  n_value = value;
}

-- A file with two functions, the first with a parameter and two lines, and the end of the file.
abbrev program : ℕ → Stab
program i =
    if i == 1
    then stab 1 0x64 0 100
    else if i == 2
    then stab 5 0x24 0 100
    else if i == 3
    then stab 0 0xa0 0 8
    else if i == 4
    then stab 0 0x44 10 0
    else if i == 5
    then stab 0 0x44 11 9
    else if i == 6
    then stab 1 0x24 0 200
    else if i == 7
    then stab 0 0x64 0 300
    else stab 0 0 0 0

-- The name `a:` at 5.
abbrev names : ℕ → ℕ
names i = if i == 5 then 97 else if i == 6 then 58 else 0

program-Located : Located program 8 names 10 105 1 7 2 6 4 5 1 1 1
unfolding strfind
program-Located = record {
  some_strings = omega arith;
  ended = refl;
  file = record {
    sorted = λ i k a b d x y. ground arith;
    clear = λ i a b x. ground arith;
    lower = omega arith;
    upper = omega arith;
    match = refl;
    before = omega arith;
    after = λ i a b x. ground arith;
  };
  file_next = (omega arith, omega arith, inr refl, λ i a b x. ground arith);
  not_first = omega arith;
  fun = record {
    sorted = λ i k a b d x y. ground arith;
    clear = λ i a b x. ground arith;
    lower = omega arith;
    upper = omega arith;
    match = refl;
    before = omega arith;
    after = λ i a b x. ground arith;
  };
  fun_next = (omega arith, omega arith, inr refl, λ i a b x. ground arith);
  line = record {
    sorted = λ i k a b d x y. ground arith;
    clear = λ i a b x. ground arith;
    lower = omega arith;
    upper = omega arith;
    match = refl;
    before = omega arith;
    after = λ i a b x. ground arith;
  };
  line_next = (omega arith, omega arith, inr refl, λ i a b x. ground arith);
  source = (omega arith, refl, λ k a b. ground arith);
  inside = omega arith;
  parameters = (λ k a b. ground arith, omega arith, inr (omega arith));
  name = refl;
}

debuginfo_eip_locates_example :
    debuginfo_eip program 8 names 10 105
    ≡ some (
      true,
      record {
        eip_file = some 1;
        eip_line = 10;
        eip_fn_name = some 5;
        eip_fn_namelen = 1;
        eip_fn_addr = 100;
        eip_fn_narg = 1;
      },
    )
debuginfo_eip_locates_example =
    debuginfo_eip_locates program 8 names 10 105 1 7 2 6 4 5 1 1 1 program-Located (omega arith)
