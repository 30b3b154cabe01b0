-- ===== src/Stabs/Info.antt =====
-- debuginfo_eip of jos/kern/kdebug.c behind its choice of the tables. `count` is `stab_end - stabs`,
-- `strsize` is `stabstr_end - stabstr`, and a string is its index in the string table, where `none`
-- is the constant "<unknown>".
use cs444_operating_systems.Base.{
  ℕ, zero, suc, ◌+◌, ◌-◌, ◌^◌, Option, none, some, Bool, true, false, not, ◌&&◌, ◌||◌, ◌==◌, leb,
  ltb, if◌then◌else◌,
}
use cs444_operating_systems.Mmu.{u32}
use cs444_operating_systems.Strings.Scan.{strfind}
use cs444_operating_systems.Stabs.{Stab, Region, stab_binsearch}

abbrev pub n_fun : ℕ
n_fun = 0x24

abbrev pub n_sline : ℕ
n_sline = 0x44

abbrev pub n_so : ℕ
n_so = 0x64

abbrev pub n_sol : ℕ
n_sol = 0x84

abbrev pub n_psym : ℕ
n_psym = 0xa0

pub record Eipdebuginfo : Type 0 where
  pub eip_file : Option ℕ
  pub eip_line : ℕ
  pub eip_fn_name : Option ℕ
  pub eip_fn_namelen : ℕ
  pub eip_fn_addr : ℕ
  pub eip_fn_narg : ℕ

abbrev pub unknown_info : ℕ → Eipdebuginfo
unknown_info addr = record {
  eip_file = none;
  eip_line = 0;
  eip_fn_name = none;
  eip_fn_namelen = 9;
  eip_fn_addr = addr;
  eip_fn_narg = 0;
}

-- The stabs of a function, or of its file if there is none, and the address to look for in them.
pub record Scope : Type 0 where
  pub from : ℕ
  pub to : ℕ
  pub offset : ℕ

module _ (stabs : ℕ → Stab) where
  -- Does the stab name a source file?
  abbrev pub is_source : ℕ → Bool
  is_source i =
      (stabs i).n_type == n_sol || (stabs i).n_type == n_so && not ((stabs i).n_value == 0)

  -- The loop back to the stab of a file, over the `rounds` stabs up to `i`.
  unfoldable pub find_source : (rounds i : ℕ) → Option ℕ
  find_source zero i = none
  find_source (suc rounds) i = elim (is_source i) [
    | true ↦ some i
    | false ↦ find_source rounds (i - 1)
  ]

  -- The loop over the parameters, of at most `rounds` stabs from `i` on.
  unfoldable pub count_args : (rounds i : ℕ) → ℕ
  count_args zero i = 0
  count_args (suc rounds) i = elim ((stabs i).n_type == n_psym) [
    | true ↦ suc (count_args rounds (i + 1))
    | false ↦ 0
  ]

module _ (stabs : ℕ → Stab) (count : ℕ) (strtab : ℕ → ℕ) (strsize : ℕ) where
  -- A string of the string table, if the index is inside.
  abbrev pub string_at : ℕ → Option ℕ
  string_at strx = if ltb strx strsize then some strx else none

  -- `strfind(name, ':') - name`
  abbrev pub name_length : Option ℕ → Option ℕ
  name_length none = some 9
  name_length (some name) = elim (strfind strsize name 58 strtab) [
    | none ↦ none
    | some p ↦ some (p - name)
  ]

  -- The stab of the function, where the search has found one.
  abbrev pub found_function : Region → Bool
  found_function r = leb r.left_next r.right_next

  abbrev pub named : Region → (addr : ℕ) → Eipdebuginfo → Eipdebuginfo
  named fun addr info =
      let s : Stab = stabs (fun.left_next - 1) in
      if found_function fun
      then record info { eip_fn_name = string_at s.n_strx; eip_fn_addr = s.n_value }
      else record info { eip_fn_addr = addr }

  abbrev pub scope : (file fun : Region) → (addr : ℕ) → Scope
  scope file fun addr =
      if found_function fun
      then record {
        from = fun.left_next - 1;
        to = fun.right_next;
        offset = u32 (addr + 2 ^ 32 - (stabs (fun.left_next - 1)).n_value);
      }
      else record { from = file.left_next - 1; to = file.right_next; offset = addr }

  -- What follows the search for the line: the result 0 is `true`, and -1 is `false`.
  abbrev pub described : (file fun line : Region) → Eipdebuginfo → Bool × Eipdebuginfo
  described file fun line info =
      let lline = line.left_next - 1 in
      if leb line.left_next line.right_next
      then (
        true,
        record info {
          eip_line = (stabs lline).n_desc;
          eip_file = elim (find_source stabs (line.left_next - (file.left_next - 1)) lline) [
            | none ↦ info.eip_file
            | some i ↦ if ltb (stabs i).n_strx strsize then some (stabs i).n_strx else info.eip_file
          ];
          eip_fn_narg =
              if ltb fun.left_next fun.right_next
              then count_args stabs (fun.right_next - 1 - fun.left_next) fun.left_next
              else info.eip_fn_narg;
        },
      )
      else (false, info)

  -- The search for the line, in the function or in the file.
  unfoldable pub describe_line :
      (file fun : Region) → (addr : ℕ) → Eipdebuginfo → Option (Bool × Eipdebuginfo)
  describe_line file fun addr info = elim (name_length info.eip_fn_name) [
    | none ↦ none
    | some n ↦
        let s = scope file fun addr in
        elim (stab_binsearch stabs n_sline s.from s.to s.offset) [
          | none ↦ none
          | some line ↦ some (described file fun line (record info { eip_fn_namelen = n }))
        ]
  ]

  -- If the first stab of all is a file's, and all files' are above the address, `lfile` is -1, and the
  -- next search reads in front of the table: the model has no result.
  unfoldable pub debuginfo_eip : (addr : ℕ) → Option (Bool × Eipdebuginfo)
  debuginfo_eip addr =
      let info = unknown_info addr in
      if strsize == 0 || not (strtab (strsize - 1) == 0)
      then some (false, info)
      else elim (stab_binsearch stabs n_so 0 count addr) [
        | none ↦ none
        | some file ↦ elim (file.left_next == 0) [
          | true ↦ none
          | false ↦ elim (file.left_next == 1) [
            | true ↦ some (false, info)
            | false ↦ elim (stab_binsearch stabs n_fun (file.left_next - 1) file.right_next addr) [
              | none ↦ none
              | some fun ↦ describe_line file fun addr (named fun addr info)
            ]
          ]
        ]
      ]
