-- ===== src/Stabs/Scan.antt =====
-- The two linear scans of stab_binsearch of jos/kern/kdebug.c.
use cs444_operating_systems.Base.{
  ℕ, zero, suc, ◌+◌, ◌-◌, ◌≤◌, ◌<◌, ◌≡◌, ◌⊎◌, Option, none, some, arith, ◌==◌, true, false,
}
use native.Mathlib.Decide.{ℕ_discrete}
use cs444_operating_systems.Stabs.{Stab, earliest, rightmost}

module _ (stabs : ℕ → Stab) (type : ℕ) where
  -- Has the stab the type?
  abbrev pub Matches : ℕ → Type 0
  Matches i = (stabs i).n_type ≡ type

  -- No stab from `lo` on and before `hi` has the type.
  abbrev pub NoMatch : (lo hi : ℕ) → Type 0
  NoMatch lo hi = (i : ℕ) → lo ≤ i → i < hi → ¬ (Matches i)

  -- What the first scan finds in `[l, m]`.
  abbrev pub Found : (l m : ℕ) → Option ℕ → Type 0
  Found l m none = NoMatch l (m + 1)
  Found l m (some i) = (l ≤ i) × (i ≤ m) × Matches i × NoMatch (i + 1) (m + 1)

  NoMatch-snoc : (lo m : ℕ) → NoMatch lo m → ¬ (Matches m) → NoMatch lo (m + 1)
  NoMatch-snoc lo m none' ne i a b h = elim (ℕ_discrete i m) [
    | yes e ↦ ne (cc)
    | no other ↦ none' i a (omega arith) h
  ]

  Found-widen : (l m : ℕ) (o : Option ℕ) → 0 < m → ¬ (Matches m) → Found l (m - 1) o → Found l m o
  Found-widen l m none pos ne h = NoMatch-snoc l m (λ k c d. h k c (omega arith)) ne
  Found-widen l m (some i) pos ne (lo, hi, t, rest) =
      (lo, omega arith, t, NoMatch-snoc (i + 1) m (λ k c d. rest k c (omega arith)) ne)

  pub earliest-Found :
      (rounds l m : ℕ) → l + rounds ≡ m + 1 → Found l m (earliest stabs type rounds m)
  unfolding earliest
  earliest-Found zero l m e = λ i a b t. absurd (omega arith)
  earliest-Found (suc rounds) l m e = elim (ℕ_discrete (stabs m).n_type type) [
    | yes t ↦
        let here : ((stabs m).n_type == type) ≡ true = ground arith in
        rw here (omega arith, omega arith, t, λ i a b h. absurd (omega arith))
    | no ne ↦
        let away : ((stabs m).n_type == type) ≡ false = ground arith in
        rw away (elim (ℕ_discrete rounds 0) [
          | yes last ↦ rw last (λ i a b h. only i a b (omega (arith, last)) ne h)
          | no more ↦
              Found-widen l m (earliest stabs type rounds (m - 1)) (omega arith) ne
                (earliest-Found rounds l (m - 1) (omega arith))
        ])
  ]
    where
      only : (i : ℕ) → l ≤ i → i < m + 1 → l ≡ m → ¬ (Matches m) → ¬ (Matches i)
      only i a b same ne h = let at : i ≡ m = omega arith in ne (rw (← at) h)

  pub rightmost_lem :
      (rounds next left j : ℕ)
      → next ≡ left + 1 + rounds
      → left ≤ j
      → j < next
      → (Matches j) ⊎ (j ≡ left)
      → NoMatch (j + 1) next
      → rightmost stabs type rounds next ≡ j + 1
  unfolding rightmost
  rightmost_lem zero next left j e lo hi at none' = omega arith
  rightmost_lem (suc rounds) next left j e lo hi at none' = ground (
    arith,
    none' (next - 1),
    rightmost_lem rounds (next - 1) left j (omega arith) lo,
    λ (i : ℕ) (a : j + 1 ≤ i) (b : i < next - 1). none' i a (omega arith),
  )
