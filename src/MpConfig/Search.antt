-- ===== src/MpConfig/Search.antt =====
-- mpsearch1 of jos/kern/mpconfig.c.
use cs444_operating_systems.Base.{
  ℕ, zero, suc, ◌+◌, ◌*◌, ◌/◌, ◌%◌, ◌^◌, ◌≤◌, ◌<◌, ◌≡◌, true, false, Option, none, some, arith,
  Bool-cases, inl, inr, ltb, sym,
}
use mathlib.Core.Path.{subst}
use cs444_operating_systems.Mmu.{kernbase, pgnum}
use cs444_operating_systems.MpConfig.{kaddr_of, is_mp, scan_mp, mpsearch1}

-- The first structure on a multiple of 16 bytes from `start` on and before `end`, if there is one.
abbrev pub IsFirstMp : (start end : ℕ) → (ℕ → ℕ) → Option ℕ → Type 0
IsFirstMp start end m none = (i : ℕ) → start + 16 * i < end → is_mp (start + 16 * i) m ≡ false
IsFirstMp start end m (some mp) =
    (i : ℕ) × (mp ≡ start + 16 * i)
    × (mp < end)
    × (is_mp mp m ≡ true)
    × ((j : ℕ) → j < i → is_mp (start + 16 * j) m ≡ false)

step :
    (start : ℕ) (m : ℕ → ℕ) (j : ℕ)
    → is_mp (start + 16 + 16 * j) m ≡ false
    → is_mp (start + 16 * suc j) m ≡ false
step start m j e = subst (λ a. is_mp a m ≡ false) (omega arith) e

IsFirstMp-next :
    (start end : ℕ) (m : ℕ → ℕ) (o : Option ℕ)
    → is_mp start m ≡ false
    → IsFirstMp (start + 16) end m o
    → IsFirstMp start end m o
IsFirstMp-next start end m none e f = λ i.
    elim i as (λ k. start + 16 * k < end → is_mp (start + 16 * k) m ≡ false) [
      | zero ↦ λ lt. subst (λ a. is_mp a m ≡ false) (omega arith) e
      | suc j ↦ λ lt. step start m j (f j (omega arith))
    ]
IsFirstMp-next start end m (some mp) e (i, at, lt, found, before) = (
  suc i,
  omega arith,
  lt,
  found,
  λ j. elim j as (λ k. k < suc i → is_mp (start + 16 * k) m ≡ false) [
    | zero ↦ λ lt'. subst (λ a. is_mp a m ≡ false) (omega arith) e
    | suc k ↦ λ lt'. step start m k (before k (omega arith))
  ],
)

module _ (rounds start end : ℕ) (m : ℕ → ℕ) where
  scan_over : ltb start end ≡ false → scan_mp (suc rounds) start end m ≡ none
  unfolding scan_mp
  scan_over over = ground arith

  scan_here :
      ltb start end ≡ true → is_mp start m ≡ true → scan_mp (suc rounds) start end m ≡ some start
  unfolding scan_mp
  scan_here more found = ground (arith, more, found)

  scan_next :
      ltb start end ≡ true
      → is_mp start m ≡ false
      → scan_mp (suc rounds) start end m ≡ scan_mp rounds (start + 16) end m
  unfolding scan_mp
  scan_next more other = ground (arith, more, other)

scan_mp-IsFirstMp :
    (rounds start end : ℕ) (m : ℕ → ℕ)
    → end ≤ start + 16 * rounds
    → IsFirstMp start end m (scan_mp rounds start end m)
unfolding scan_mp
scan_mp-IsFirstMp zero start end m le = λ i lt. absurd (omega arith)
scan_mp-IsFirstMp (suc rounds) start end m le =
    let P = IsFirstMp start end m in
    elim (Bool-cases (ltb start end)) [
      | inr over ↦ subst P (sym (scan_over rounds start end m over)) (λ i lt. absurd (ground arith))
      | inl more ↦ elim (Bool-cases (is_mp start m)) [
        | inl found ↦
            subst P (sym (scan_here rounds start end m more found))
              (0, omega arith, ground arith, found, λ j lt. absurd (omega arith))
        | inr other ↦ subst P (sym (scan_next rounds start end m more other)) (
            IsFirstMp-next start end m (scan_mp rounds (start + 16) end m) other
              (scan_mp-IsFirstMp rounds (start + 16) end m (omega arith)))
      ]
    ]

-- mpsearch1 on `len` bytes, a multiple of 16, at the physical address `a`, all in the memory that
-- is mapped at KERNBASE: it always returns, and returns the first floating pointer structure on a
-- multiple of 16 bytes from `a` on, with its signature and a sum of 0, or a null pointer if there
-- is none.
pub mpsearch1-IsFirstMp :
    (npages a len : ℕ) (m : ℕ → ℕ)
    → len % 16 ≡ 0
    → (a + len) / 2 ^ 12 < npages
    → a + len + kernbase < 2 ^ 32
    → (o : Option ℕ) × (mpsearch1 npages a len m ≡ some o)
      × IsFirstMp (a + kernbase) (a + len + kernbase) m o
unfolding mpsearch1 kaddr_of pgnum
mpsearch1-IsFirstMp npages a len m whole there small = (
  scan_mp (len / 16) (a + kernbase) (a + len + kernbase) m,
  ground arith,
  scan_mp-IsFirstMp (len / 16) (a + kernbase) (a + len + kernbase) m (omega arith),
)
