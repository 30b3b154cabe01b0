-- ===== src/Stabs.antt =====
-- The search in the debugging symbols: stab_binsearch of jos/kern/kdebug.c. Its ints may be -1, so
-- `end`, `right` and the results are one more than the source's `r`, `*region_right`,
-- `*region_left`.
pub mod Scan
pub mod Info
pub mod Describe
pub mod Bracket
use cs444_operating_systems.Base.{
  ℕ, zero, suc, ◌+◌, ◌-◌, ◌*◌, ◌/◌, Option, none, some, Bool, true, false, ◌==◌, leb, ltb,
  if◌then◌else◌,
}
use cs444_operating_systems.Mmu.{u32}

pub record Stab : Type 0 where
  pub n_strx : ℕ
  pub n_type : ℕ
  pub n_other : ℕ
  pub n_desc : ℕ
  pub n_value : ℕ

-- The local variables of the search.
pub record Search : Type 0 where
  pub l : ℕ
  pub end : ℕ
  pub left : ℕ
  pub right : ℕ
  pub addr : ℕ
  pub any_matches : Bool

pub record Region : Type 0 where
  pub left_next : ℕ
  pub right_next : ℕ

module _ (stabs : ℕ → Stab) (type : ℕ) where
  -- `while (m >= l && stabs[m].n_type != type) m--;` over at most `rounds` entries, `none` if m < l.
  unfoldable pub earliest : (rounds m : ℕ) → Option ℕ
  earliest zero m = none
  earliest (suc rounds) m = if (stabs m).n_type == type then some m else earliest rounds (m - 1)

  -- The three outcomes at a stab `m` of the right type.
  abbrev pub judge : (true_m m : ℕ) → Search → Search
  judge true_m m s =
      if ltb (stabs m).n_value s.addr
      then record s { any_matches = true; left = m; l = true_m + 1 }
      else if ltb s.addr (stabs m).n_value
      then record s { any_matches = true; right = m; end = m }
      else record s { any_matches = true; left = m; l = m; addr = u32 (s.addr + 1) }

  -- The body of the loop.
  unfoldable pub narrow : Search → Search
  narrow s =
      let true_m = (s.l + (s.end - 1)) / 2 in
      elim (earliest (true_m + 1 - s.l) true_m) [
        | none ↦ record s { l = true_m + 1 }
        | some m ↦ judge true_m m s
      ]

  -- The loop, where the number bounds the rounds.
  unfoldable pub search_loop : ℕ → Search → Option Search
  search_loop zero s = none
  search_loop (suc rounds) s =
      let rest = search_loop rounds (narrow s) in if leb s.end s.l then some s else rest

  -- The last loop, over at most `rounds` entries; `next` is one more than its `l`.
  unfoldable pub rightmost : (rounds next : ℕ) → ℕ
  rightmost zero next = next
  rightmost (suc rounds) next =
      if (stabs (next - 1)).n_type == type then next else rightmost rounds (next - 1)

  abbrev pub finish : Search → Region
  finish s =
      if s.any_matches
      then record { left_next = rightmost (s.right - (s.left + 1)) s.right; right_next = s.right }
      else record { left_next = s.left + 1; right_next = s.left }

  -- Each entry is met at most twice.
  unfoldable pub stab_binsearch : (left end addr : ℕ) → Option Region
  stab_binsearch left end addr =
      elim (search_loop (2 * (end - left) + 2) (record {
        l = left;
        end = end;
        left = left;
        right = end;
        addr = addr;
        any_matches = false;
      })) [ none ↦ none | some s ↦ some (finish s) ]
