-- ===== src/UserMem/Exact.antt =====
-- user_mem_check of jos/kern/pmap.c finds the first page that may not be accessed.
use cs444_operating_systems.Base.{
  ℕ, zero, suc, ◌+◌, ◌*◌, ◌/◌, ◌%◌, ◌^◌, ◌≤◌, ◌<◌, ◌≡◌, ◌⊎◌, inl, inr, true, false, Option, none,
  some, arith, ltb, if◌then◌else◌, Bool-cases, bit_and,
}
use mathlib.Core.Path.{subst, sym}
use native.Mathlib.Decide.{ℕ_discrete}
use cs444_operating_systems.Mmu.{u32, pgsize, ulim}
use cs444_operating_systems.Mmu.Rounding.{round_down-div, round_up-div}
use cs444_operating_systems.Mmu.Entry.{has_flag_p}
use cs444_operating_systems.Kernel.{Kernel}
use cs444_operating_systems.Kernel.Run.{Run, ok}
use cs444_operating_systems.Errors.{Ret, value, error, segfault}
use cs444_operating_systems.Pgdir.{pgdir_walk}
use cs444_operating_systems.Pgdir.Walk.{pde_of, slot_of, Reaches, walk_to_table, walk_to_none}
use cs444_operating_systems.Pgdir.Map.{pte_of}
use cs444_operating_systems.UserMem.{refuses, check_from, user_mem_check}

-- Each entry of the page directory is absent or leads to a page that exists.
abbrev pub IsSpace : Kernel → ℕ → Type 0
IsSpace k pgdir = (va : ℕ) → (pde_of pgdir va k.mem % 2 ≡ 0) ⊎ Reaches k.npages pgdir va k.mem

-- The page at `va` is below ULIM, and mapped with the permissions `perm`.
abbrev pub Allows : Kernel → (pgdir perm va : ℕ) → Type 0
Allows k pgdir perm va =
    (va < ulim)
    × (pde_of pgdir va k.mem % 2 ≡ 1)
    × (pte_of pgdir va k.mem % 2 ≡ 1)
    × (bit_and (pte_of pgdir va k.mem) perm ≡ perm)

-- One round finds the entry, and refuses it exactly if the page is not allowed.
record Tested (k : Kernel) (pgdir perm va : ℕ) : Type 0 where
  entry : Option ℕ
  walked : pgdir_walk pgdir va false k ≡ ok entry k
  accepts : refuses entry va perm k.mem ≡ false → Allows k pgdir perm va
  rejects : refuses entry va perm k.mem ≡ true → ¬ (Allows k pgdir perm va)

tested : (k : Kernel) (pgdir perm va : ℕ) → IsSpace k pgdir → Tested k pgdir perm va
tested k pgdir perm va space = elim (space va) [
  | inl absent ↦ record {
    entry = none;
    walked = walk_to_none k pgdir va absent;
    accepts = λ e. cc;
    rejects = λ e a. omega arith;
  }
  | inr r ↦ record {
    entry = some (slot_of pgdir va k.mem);
    walked = walk_to_table k pgdir va false r;
    accepts = λ e. ground (arith, has_flag_p (pte_of pgdir va k.mem));
    rejects = λ e a. ground (arith, has_flag_p (pte_of pgdir va k.mem));
  }
]

abbrev pub AllAllowed : Kernel → (pgdir perm from to : ℕ) → Type 0
AllAllowed k pgdir perm from to =
    (s : ℕ) → from ≤ s → s < to → s % pgsize ≡ 0 → Allows k pgdir perm s

-- The first page of `[start, end)` that is not allowed.
pub record FirstBad (k : Kernel) (pgdir perm start end : ℕ) : Type 0 where
  pub page : ℕ
  pub from : start ≤ page
  pub to : page < end
  pub aligned : page % pgsize ≡ 0
  pub bad : ¬ (Allows k pgdir perm page)
  pub first : AllAllowed k pgdir perm start page

abbrev pub Checked : Kernel → (pgdir perm va start end : ℕ) → Run Ret → Type 0
Checked k pgdir perm va start end r =
    (r ≡ ok (value 0) k) × AllAllowed k pgdir perm start end
    ⊎ ((b : FirstBad k pgdir perm start end) × (r
          ≡ ok (error segfault)
              (record k { user_mem_check_addr = if ltb b.page va then va else b.page })))

-- The first page of a range is allowed, and the rest of the range is.
AllAllowed-step :
    (k : Kernel) (pgdir perm start to : ℕ)
    → start % pgsize ≡ 0
    → Allows k pgdir perm start
    → AllAllowed k pgdir perm (start + pgsize) to
    → AllAllowed k pgdir perm start to
AllAllowed-step k pgdir perm start to sa allowed rest s from below aligned =
    elim (ℕ_discrete s start) [
      | yes e ↦ subst (Allows k pgdir perm) (sym e) allowed
      | no ne ↦ rest s (omega arith) below aligned
    ]

Checked-step :
    (k : Kernel) (pgdir va perm start end : ℕ) (r : Run Ret)
    → start % pgsize ≡ 0
    → Allows k pgdir perm start
    → Checked k pgdir perm va (start + pgsize) end r
    → Checked k pgdir perm va start end r
Checked-step k pgdir va perm start end r sa allowed (inl (e, all)) =
    inl (e, AllAllowed-step k pgdir perm start end sa allowed all)
Checked-step k pgdir va perm start end r sa allowed (inr (b, e)) = inr (
  record {
    page = b.page;
    from = omega (arith, b.from);
    to = b.to;
    aligned = b.aligned;
    bad = b.bad;
    first = AllAllowed-step k pgdir perm start b.page sa allowed b.first;
  },
  e,
)

check_from-Checked :
    (n : ℕ) (k : Kernel) (pgdir va perm start end : ℕ)
    → IsSpace k pgdir
    → start % pgsize ≡ 0
    → end % pgsize ≡ 0
    → end < 2 ^ 32
    → 0 < n
    → end < start + n * pgsize
    → Checked k pgdir perm va start end (check_from n pgdir va perm start end k)
unfolding check_from
check_from-Checked zero k pgdir va perm start end space sa ea fits pos fuel = absurd (omega arith)
check_from-Checked (suc n) k pgdir va perm start end space sa ea fits pos fuel =
    elim (Bool-cases (ltb start end)) [
      | inl more ↦
          let lt : start < end = ground arith in
          elim (Bool-cases (refuses entry start perm k.mem)) [
            | inl bad ↦ inr (first_bad more bad, ground (arith, walked))
            | inr good ↦ Checked-step k pgdir va perm start end _ sa (accepts good) (
                subst (Checked k pgdir perm va (start + pgsize) end) (sym (goes_on more good)) (
                  check_from-Checked n k pgdir va perm (start + pgsize) end space (omega arith) ea
                    fits (omega arith) (omega arith)))
          ]
      | inr done ↦ inl (rw done, λ s a b. absurd (ground arith))
    ]
  where
    open (tested k pgdir perm start space) use {entry, walked, accepts, rejects}

    first_bad :
        ltb start end ≡ true
        → refuses entry start perm k.mem ≡ true
        → FirstBad k pgdir perm start end
    first_bad more bad = record {
      page = start;
      from = omega arith;
      to = ground arith;
      aligned = sa;
      bad = rejects bad;
      first = λ s a b. absurd (omega arith);
    }

    goes_on :
        ltb start end ≡ true
        → refuses entry start perm k.mem ≡ false
        → check_from (suc n) pgdir va perm start end k
          ≡ check_from n pgdir va perm (start + pgsize) end k
    goes_on more good =
        let same : u32 (start + pgsize) ≡ start + pgsize = ground arith in ground (arith, walked)

-- user_mem_check always returns. It returns 0 and changes nothing exactly if every page from
-- ROUNDDOWN(va) up to ROUNDUP(va + len) is below ULIM and mapped with the permissions; else it returns
-- -E_FAULT and sets user_mem_check_addr to the start of the first page that is not, or to `va` if that
-- is higher. These are the pages that `[va, va + len)` touches, and for `len` 0 at an address that is
-- not aligned the page of `va`. The hypotheses: the range ends below the last page of the address space, and each page directory
-- entry is absent or leads to a page that exists.
pub user_mem_check_exact :
    (k : Kernel) (env va len perm : ℕ)
    → IsSpace k (k.envs env).env_pgdir
    → va + len + pgsize ≤ 2 ^ 32
    → Checked k
        (k.envs env).env_pgdir
        perm
        va
        (va / pgsize * pgsize)
        ((va + len + 4095) / pgsize * pgsize)
        (user_mem_check env va len perm k)
unfolding user_mem_check
user_mem_check_exact k env va len perm space fits =
    let small : u32 (va + len) ≡ va + len = omega arith in
    rw (round_down-div va, small, round_up-div (va + len) fits)
      (check_from-Checked (2 ^ 20 + 1) k (k.envs env).env_pgdir va perm _ _ space (omega arith)
        (omega arith) (omega arith) (omega arith) (omega arith))
