-- ===== src/Strings/Compare.antt =====
-- strcmp and strncmp of jos/lib/string.c.
use cs444_operating_systems.Base.{
  ℕ, zero, suc, ◌+◌, ◌^◌, ◌≤◌, ◌<◌, ◌≡◌, ◌≢◌, ◌⊎◌, inl, inr, refl, some, List, [], ◌∷◌, length,
  arith, ap,
}
use mathlib.Core.Path.{subst}
use native.Mathlib.Decide.{ℕ_discrete, dec_lt}
use cs444_operating_systems.Strings.Scan.{difference, strcmp}
use cs444_operating_systems.Strings.Truncate.{IsString}

-- The order of a dictionary.
pub data Less : List ℕ → List ℕ → Type 0 where
  shorter : {y : ℕ} {ys : List ℕ} → Less [] (y ∷ ys)
  here : {x y : ℕ} {xs ys : List ℕ} → x < y → Less (x ∷ xs) (y ∷ ys)
  later : {x : ℕ} {xs ys : List ℕ} → Less xs ys → Less (x ∷ xs) (x ∷ ys)

-- The int `d` says how the strings compare.
abbrev pub Compares : ℕ → List ℕ → List ℕ → Type 0
Compares d xs ys =
    ((d ≡ 0) × (xs ≡ ys)) ⊎ (((2 ^ 31 ≤ d) × Less xs ys) ⊎ ((0 < d) × (d < 2 ^ 31) × Less ys xs))

-- All characters are bytes.
abbrev pub AllBytes : List ℕ → Type 0
AllBytes [] = Unit
AllBytes (x ∷ xs) = (x < 256) × AllBytes xs

Compares-later : (d x : ℕ) (xs ys : List ℕ) → Compares d xs ys → Compares d (x ∷ xs) (x ∷ ys)
Compares-later d x xs ys (inl (z, e)) = inl (z, ap (λ zs. x ∷ zs) e)
Compares-later d x xs ys (inr (inl (neg, l))) = inr (inl (neg, later l))
Compares-later d x xs ys (inr (inr (pos, small, l))) = inr (inr (pos, small, later l))

Compares-here :
    (x y : ℕ) (xs ys : List ℕ)
    → x < 256
    → y < 256
    → x ≢ y
    → Compares (difference x y) (x ∷ xs) (y ∷ ys)
Compares-here x y xs ys lx ly ne = elim (dec_lt x y) [
  | yes lt ↦ inr (inl (omega arith, here lt))
  | no ge ↦ inr (inr (omega arith, omega arith, here (omega arith)))
]

-- strcmp of two strings of bytes: the result is 0 if they are equal, negative if the first is less
-- in the order of a dictionary, and positive if the second is. The hypothesis: the fuel is more than
-- the length of the first string.
pub strcmp-Compares :
    (fuel p q : ℕ) (m : ℕ → ℕ) (xs ys : List ℕ)
    → IsString m p xs
    → IsString m q ys
    → AllBytes xs
    → AllBytes ys
    → length xs < fuel
    → (d : ℕ) × (strcmp fuel p q m ≡ some d) × Compares d xs ys
unfolding strcmp
strcmp-Compares zero p q m xs ys hp hq bx by lt = absurd (omega arith)
strcmp-Compares (suc fuel) p q m [] [] hp hq bx by lt = (0, ground arith, inl (refl, refl))
strcmp-Compares (suc fuel) p q m [] (y ∷ ys) hp (eq, ne, hq) bx (ly, by) lt =
    (difference 0 y, ground arith, inr (inl (ground arith, shorter)))
strcmp-Compares (suc fuel) p q m (x ∷ xs) [] (ep, ne, hp) hq (lx, bx) by lt =
    (difference x 0, ground arith, inr (inr (ground arith, ground arith, shorter)))
strcmp-Compares (suc fuel) p q m (x ∷ xs) (y ∷ ys) (ep, nx, hp) (eq, ny, hq) (lx, bx) (ly, by) lt =
    elim (ℕ_discrete x y) [
      | yes same ↦
          let r = strcmp-Compares fuel (p + 1) (q + 1) m xs ys hp hq bx by (omega arith) in
          (
            r.0,
            ground (arith, r.1, ep, eq, same),
            subst (λ z. Compares r.0 (x ∷ xs) (z ∷ ys)) same (Compares-later r.0 x xs ys r.2),
          )
      | no differ ↦ (difference x y, ground arith, Compares-here x y xs ys lx ly differ)
    ]
