-- ===== src/Stabs/Describe.antt =====
-- What debuginfo_eip of jos/kern/kdebug.c says of an address in a function.
use cs444_operating_systems.Base.{
  ℕ, zero, suc, ◌+◌, ◌-◌, ◌^◌, ◌≤◌, ◌<◌, ◌≡◌, ◌≢◌, ◌⊎◌, inl, inr, some, true, false, ◌==◌, arith,
  ap, ◌∙◌, ne→==,
}
use mathlib.Core.Path.{subst}
use native.Mathlib.Decide.{dec_lt, ℕ_discrete}
use cs444_operating_systems.Mmu.{u32}
use cs444_operating_systems.Stabs.{Stab, Region, stab_binsearch}
use cs444_operating_systems.Stabs.Scan.{Matches, NoMatch}
use cs444_operating_systems.Stabs.Bracket.{IsLast, stab_binsearch-IsLast}
use cs444_operating_systems.Stabs.Info.{
  n_fun, n_sline, n_so, n_psym, Eipdebuginfo, unknown_info, is_source, find_source, count_args,
  string_at, name_length, described, describe_line, debuginfo_eip,
}

-- `n` is the next stab of the type behind `j`, or the end of the region if there is none.
abbrev pub IsNext : (ℕ → Stab) → (type j to n : ℕ) → Type 0
IsNext stabs type j to n =
    (j < n) × (n ≤ to) × ((n ≡ to) ⊎ Matches stabs type n) × NoMatch stabs type (j + 1) n

IsNext-unique :
    (stabs : ℕ → Stab) (type j to n n' : ℕ)
    → IsNext stabs type j to n
    → IsNext stabs type j to n'
    → n ≡ n'
IsNext-unique stabs type j to n n' (a, b, c, d) (a', b', c', d') = elim (dec_lt n n') [
  | yes lt ↦ elim c [ inl e ↦ absurd (omega arith) | inr m ↦ absurd (d' n (omega arith) lt m) ]
  | no ge ↦ elim (dec_lt n' n) [
    | yes lt ↦ elim c' [ inl e ↦ absurd (omega arith) | inr m ↦ absurd (d n' (omega arith) lt m) ]
    | no ge' ↦ omega arith
  ]
]

-- The search, where its result is known.
search-IsNext :
    (stabs : ℕ → Stab) (type from to addr j n : ℕ)
    → IsLast stabs type from to addr j
    → IsNext stabs type j to n
    → addr + 1 < 2 ^ 32
    → stab_binsearch stabs type from to addr ≡ some (record { left_next = j + 1; right_next = n })
search-IsNext stabs type from to addr j n h next small =
    let (n', e, a, b, c, d) = stab_binsearch-IsLast stabs type from to addr j h small in
    let same : n' ≡ n = IsNext-unique stabs type j to n' n (a, b, c, d) next in
    e ∙ ap (λ (x : ℕ). some (record { left_next = j + 1; right_next = x })) same

-- The last stab up to `i` that names a source file is `s`.
abbrev pub IsSource : (ℕ → Stab) → (i s : ℕ) → Type 0
IsSource stabs i s =
    (s ≤ i) × (is_source stabs s ≡ true) × ((k : ℕ) → s < k → k ≤ i → is_source stabs k ≡ false)

-- There are `c` parameters from stab `i` on and before `end`.
abbrev pub AreParameters : (ℕ → Stab) → (i end c : ℕ) → Type 0
AreParameters stabs i end c =
    ((k : ℕ) → i ≤ k → k < i + c → Matches stabs n_psym k)
    × (i + c ≤ end)
    × ((i + c ≡ end) ⊎ (¬ (Matches stabs n_psym (i + c))))

find_source-IsSource :
    (stabs : ℕ → Stab) (rounds i s : ℕ)
    → IsSource stabs i s
    → i < rounds + s
    → find_source stabs rounds i ≡ some s
unfolding find_source
find_source-IsSource stabs zero i s (le, h, none') lt = absurd (omega arith)
find_source-IsSource stabs (suc rounds) i s (le, h, none') lt = elim (ℕ_discrete i s) [
  | yes e ↦ ground (arith, ap (is_source stabs) e, h, e)
  | no ne ↦ ground (
    arith,
    none' i (omega arith) (omega arith),
    find_source-IsSource stabs rounds (i - 1) s (omega arith, h, λ k a b. none' k a (omega arith))
        (omega arith),
  )
]

count_args-AreParameters :
    (stabs : ℕ → Stab) (rounds i c : ℕ)
    → AreParameters stabs i (i + rounds) c
    → count_args stabs rounds i ≡ c
unfolding count_args
count_args-AreParameters stabs zero i c (all, le, stop) = omega arith
count_args-AreParameters stabs (suc rounds) i zero (all, le, stop) = elim stop [
  | inl e ↦ absurd (omega arith)
  | inr ne ↦
      let other : ((stabs i).n_type == n_psym) ≡ false =
        ne→== (subst (λ x. (stabs x).n_type ≢ n_psym) (omega arith) ne) in
      ground (arith, other)
]
count_args-AreParameters stabs (suc rounds) i (suc c) (all, le, stop) =
    let e : i + suc c ≡ i + 1 + c = omega arith in
    let rec = count_args-AreParameters stabs rounds (i + 1) c (
      λ k a b. all k (omega arith) (omega arith),
      omega arith,
      elim stop [
        | inl end ↦ inl (omega arith)
        | inr ne ↦ inr (subst (λ (x : ℕ). ¬ (Matches stabs n_psym x)) e ne)
      ],
    ) in
    ground (arith, all i (omega arith) (omega arith), rec)

-- Stab `f` is the file's, up to `f_end`, `n` the function's, up to `n_end`, `l` the line's, and `s` the
-- last one up to the line that names a source file; there are `c` parameters, and `len` characters
-- before the colon in the function's name.
pub record Located (stabs : ℕ → Stab) (count : ℕ) (strtab : ℕ → ℕ)
    (strsize addr f f_end n n_end l l_end s c len : ℕ) : Type 0 where
  pub some_strings : 0 < strsize
  pub ended : strtab (strsize - 1) ≡ 0
  pub file : IsLast stabs n_so 0 count addr f
  pub file_next : IsNext stabs n_so f count f_end
  pub not_first : 0 < f
  pub fun : IsLast stabs n_fun f f_end addr n
  pub fun_next : IsNext stabs n_fun n f_end n_end
  pub line : IsLast stabs n_sline n n_end (addr - (stabs n).n_value) l
  pub line_next : IsNext stabs n_sline l n_end l_end
  pub source : IsSource stabs l s
  pub inside : f ≤ s
  pub parameters : AreParameters stabs (n + 1) (n_end - 1) c
  pub name :
      name_length stabs count strtab strsize (string_at stabs count strtab strsize (stabs n).n_strx)
      ≡ some len

module _ (stabs : ℕ → Stab) (count : ℕ) (strtab : ℕ → ℕ)
    (strsize addr f f_end n n_end l l_end s c len : ℕ)
    (h : Located stabs count strtab strsize addr f f_end n n_end l l_end s c len)
    (small : addr + 1 < 2 ^ 32) where
  abbrev file_region : Region
  file_region = record { left_next = f + 1; right_next = f_end }

  abbrev fun_region : Region
  fun_region = record { left_next = n + 1; right_next = n_end }

  abbrev line_region : Region
  line_region = record { left_next = l + 1; right_next = l_end }

  -- What is known of the function before the search for the line.
  abbrev fun_info : Eipdebuginfo
  fun_info = record (unknown_info addr) {
    eip_fn_name = string_at stabs count strtab strsize (stabs n).n_strx;
    eip_fn_addr = (stabs n).n_value;
  }

  abbrev pub known : Eipdebuginfo
  known = record {
    eip_file = string_at stabs count strtab strsize (stabs s).n_strx;
    eip_line = (stabs l).n_desc;
    eip_fn_name = string_at stabs count strtab strsize (stabs n).n_strx;
    eip_fn_namelen = len;
    eip_fn_addr = (stabs n).n_value;
    eip_fn_narg = c;
  }

  line-gt : n < l
  line-gt = elim (dec_lt n l) [
    | yes lt ↦ lt
    | no ge ↦
        let e : n ≡ l = omega (arith, h.line.lower) in
        absurd (omega (arith, h.fun.match, ap (λ (x : ℕ). (stabs x).n_type) e, h.line.match))
  ]

  described_lem :
      described stabs count strtab strsize file_region fun_region line_region
        (record fun_info { eip_fn_namelen = len })
      ≡ (true, known)
  described_lem =
      let source =
        find_source-IsSource stabs (l + 1 - f) l s h.source (omega (arith, h.inside, h.source)) in
      let args = count_args-AreParameters stabs (n_end - 1 - (n + 1)) (n + 1) c (
        subst (λ (x : ℕ). AreParameters stabs (n + 1) x c) (omega (arith, line-gt, h.line.upper))
          h.parameters) in
      ground (arith, source, args, line-gt, h.line.upper, h.line_next)

  describe_line_lem :
      describe_line stabs count strtab strsize file_region fun_region addr fun_info
      ≡ some (true, known)
  unfolding describe_line
  describe_line_lem =
      let search =
        search-IsNext stabs n_sline n n_end (addr - (stabs n).n_value) l l_end h.line h.line_next
          (omega arith) in
      let at : u32 (addr + 2 ^ 32 - (stabs n).n_value) ≡ addr - (stabs n).n_value =
        omega (arith, h.fun.before) in
      ground (arith, at, search, h.name, described_lem, h.fun_next)

-- debuginfo_eip of an address in a function: it returns 0, and the information is the name and the
-- start of the function, the name up to its colon, the line number, the nearest file that is named
-- at the line or before it, and the number of parameter stabs that follow the function's. The
-- hypotheses: the string table is not empty and ends with a 0; the stabs of files, those of functions
-- in the file and those of lines in the function are each sorted, one of each is at the address or
-- before it, and none of them is at the address behind it, which stab_binsearch would take for a match;
-- the file's is not the first of all stabs; from its stab on one up to the line's names a source file;
-- the function's name has an end; and the address is not the last one.
pub debuginfo_eip_locates :
    (stabs : ℕ → Stab) (count : ℕ) (strtab : ℕ → ℕ)
    (strsize addr f f_end n n_end l l_end s c len : ℕ)
    → Located stabs count strtab strsize addr f f_end n n_end l l_end s c len
    → addr + 1 < 2 ^ 32
    → debuginfo_eip stabs count strtab strsize addr
      ≡ some (
        true,
        record {
          eip_file = string_at stabs count strtab strsize (stabs s).n_strx;
          eip_line = (stabs l).n_desc;
          eip_fn_name = string_at stabs count strtab strsize (stabs n).n_strx;
          eip_fn_namelen = len;
          eip_fn_addr = (stabs n).n_value;
          eip_fn_narg = c;
        },
      )
unfolding debuginfo_eip
debuginfo_eip_locates stabs count strtab strsize addr f f_end n n_end l l_end s c len h small =
    let file = search-IsNext stabs n_so 0 count addr f f_end h.file h.file_next small in
    let fun = search-IsNext stabs n_fun f f_end addr n n_end h.fun h.fun_next small in
    let line =
      describe_line_lem stabs count strtab strsize addr f f_end n n_end l l_end s c len h small in
    ground (arith, h.some_strings, h.ended, file, h.not_first, fun, h.fun_next, line)
