-- ===== src/Format/Signed.antt =====
-- The conversion %d of vprintfmt in jos/lib/printfmt.c, and strtol of jos/lib/string.c.
use cs444_operating_systems.Base.{
  ℕ, suc, ◌+◌, ◌-◌, ◌^◌, ◌≤◌, ◌<◌, ◌≡◌, ◌≢◌, refl, false, ltb, some, List, [], ◌∷◌, ◌++◌, length,
  arith, Bool-cases, inl, inr, if◌then◌else◌, ◌∙◌, ap,
}
use mathlib.Core.Path.{subst, sym}
use mathlib.Core.List.{append-nil}
use native.Mathlib.Decide.{dec_lt}
use cs444_operating_systems.Mmu.{u32}
use cs444_operating_systems.Strings.Number.{sign, prefix, digits, number_at, strtol}
use cs444_operating_systems.Strings.Truncate.{IsString}
use cs444_operating_systems.Format.{printnum}
use cs444_operating_systems.Format.Convert.{initial_flags, getint, number, decimal, convert, Piece}
use cs444_operating_systems.Format.Print.{flag, reswitch, vprintfmt}
use cs444_operating_systems.Format.Number.{
  digits-printed, printed-plain, skip_first, strtol_lem, strtol-printnum,
}

-- What strtol makes of the text at the string `xs`.
abbrev pub Denotes : ℕ → List ℕ → Type 0
Denotes x xs =
    (fuel s : ℕ) (m : ℕ → ℕ)
    → IsString m s xs
    → strtol (length xs + suc fuel) s 10 m ≡ some (x, s + length xs)

minus-number_at :
    (fuel s val ends : ℕ) (m : ℕ → ℕ)
    → m s ≡ 45
    → prefix (s + 1) 10 m ≡ (s + 1, 10)
    → digits fuel (s + 1) 10 0 m ≡ some (val, ends)
    → number_at fuel s 10 m ≡ some (u32 (2 ^ 32 - val), ends)
unfolding number_at sign
minus-number_at fuel s val ends m here e2 e3 = ground (arith, here, e2, e3)

minus-Denotes :
    (num : ℕ) → num < 2 ^ 31 → 0 < num → Denotes (2 ^ 32 - num) (45 ∷ printnum 64 num 10 0 32)
minus-Denotes num lt pos fuel s m (here, ne, h) =
    let n = length (printnum 64 num 10 0 32) in
    let (blank, tab, no_sign, no_prefix) =
      printed-plain 64 num 10 0 32 (s + 1) m (omega arith) (omega arith) (omega arith) h in
    strtol_lem (suc n + suc fuel) s s 10 m
      (skip_first (suc n + suc fuel) s m (omega arith) (λ e. omega arith) (λ e. omega arith))
    ∙ minus-number_at (suc n + suc fuel) s num (s + 1 + n) m here no_prefix (
        ap (λ k. digits k (s + 1) 10 0 m) (omega arith)
        ∙ digits-printed 64 num 10 0 32 (suc fuel) (s + 1) m (omega arith) (omega arith)
            (omega arith) (omega arith) (omega arith) h)
    ∙ ground arith

-- The text that %d prints for the bit pattern.
abbrev pub decimal_of : ℕ → List ℕ
decimal_of x = decimal (if ltb x (2 ^ 31) then x else x + 2 ^ 64 - 2 ^ 32) initial_flags

decimal_small : (x : ℕ) → x < 2 ^ 31 → decimal_of x ≡ printnum 64 x 10 0 32
unfolding decimal number
decimal_small x lt = ground arith

high_ltb : (x : ℕ) → 2 ^ 31 ≤ x → ltb x (2 ^ 31) ≡ false
high_ltb x lo = ground arith

wrapped_ltb : (x : ℕ) → 2 ^ 31 ≤ x → x < 2 ^ 32 → ltb (x + 2 ^ 64 - 2 ^ 32) (2 ^ 63) ≡ false
wrapped_ltb x lo lt = ground arith

decimal_big :
    (x : ℕ) → 2 ^ 31 ≤ x → x < 2 ^ 32 → decimal_of x ≡ 45 ∷ printnum 64 (2 ^ 32 - x) 10 0 32
unfolding decimal number
decimal_big x lo lt =
    rw (high_ltb x lo)
      (rw (wrapped_ltb x lo lt) (ap (λ n. 45 ∷ printnum 64 n 10 0 32) (omega arith)))

decimal-Denotes : (x : ℕ) → x < 2 ^ 32 → x ≢ 2 ^ 31 → Denotes x (decimal_of x)
decimal-Denotes x lt ne = elim (dec_lt x (2 ^ 31)) [
  | yes small ↦ subst (Denotes x) (sym (decimal_small x small)) λ fuel s m h.
      strtol-printnum 64 x 10 0 32 fuel s m (omega arith) (omega arith) (omega arith) (omega arith)
        small h
  | no big ↦ subst (Denotes x) (sym (decimal_big x (omega arith) lt)) (
      subst (λ y. Denotes y (45 ∷ printnum 64 (2 ^ 32 - x) 10 0 32)) (omega arith)
        (minus-Denotes (2 ^ 32 - x) (omega arith) (omega arith)))
]

getint_int :
    (w : ℕ → ℕ) (arg : ℕ)
    → getint w arg 0 ≡ ((if ltb (w arg) (2 ^ 31) then w arg else w arg + 2 ^ 64 - 2 ^ 32), arg + 1)
unfolding getint
getint_int w arg = elim (Bool-cases (ltb (w arg) (2 ^ 31))) [
  | inl e ↦ rw e refl
  | inr e ↦ rw e refl
]

convert-d :
    (fuel fmt arg : ℕ) (m w : ℕ → ℕ)
    → convert fuel m w 100 fmt arg initial_flags
      ≡ some (record { text = decimal_of (w arg); fmt = fmt; ap = arg + 1 })
unfolding convert
convert-d fuel fmt arg m w = rw (getint_int w arg) refl

reswitch-d :
    (fuel i arg : ℕ) (m w : ℕ → ℕ)
    → m i ≡ 100
    → reswitch (suc fuel) m w i arg initial_flags
      ≡ some (record { text = decimal_of (w arg); fmt = i + 1; ap = arg + 1 })
unfolding reswitch flag
reswitch-d fuel i arg m w h = ground (arith, h, convert-d fuel (i + 1) arg m w)

vprintfmt_end : (fuel i arg : ℕ) (m w : ℕ → ℕ) → m i ≡ 0 → vprintfmt (suc fuel) m w i arg ≡ some []
unfolding vprintfmt
vprintfmt_end fuel i arg m w h = ground (arith, h)

vprintfmt_escape :
    (fuel i arg : ℕ) (m w : ℕ → ℕ) (piece : Piece) (text : List ℕ)
    → m i ≡ 37
    → reswitch fuel m w (i + 1) arg initial_flags ≡ some piece
    → vprintfmt fuel m w piece.fmt piece.ap ≡ some text
    → vprintfmt (suc fuel) m w i arg ≡ some (piece.text ++ text)
unfolding vprintfmt
vprintfmt_escape fuel i arg m w piece text percent e1 e2 = ground (arith, percent, e1, e2)

-- The format "%d" with any int but the least one prints a text, and strtol in base 10, given that text
-- in memory, returns the int again and reads all of the text. The hypotheses: the format is in memory,
-- and the fuel is at least 2, and for strtol more than the length of the text.
pub vprintfmt-strtol :
    (fuel fmt arg : ℕ) (m w : ℕ → ℕ)
    → m fmt ≡ 37
    → m (fmt + 1) ≡ 100
    → m (fmt + 2) ≡ 0
    → w arg < 2 ^ 32
    → w arg ≢ 2 ^ 31
    → (xs : List ℕ) × (vprintfmt (suc (suc fuel)) m w fmt arg ≡ some xs) × Denotes (w arg) xs
vprintfmt-strtol fuel fmt arg m w percent letter ends lt ne = (
  decimal_of (w arg),
  vprintfmt_escape (suc fuel) fmt arg m w _ [] percent (reswitch-d fuel (fmt + 1) arg m w letter)
        (vprintfmt_end fuel (fmt + 1 + 1) (arg + 1) m w (subst (λ a. m a ≡ 0) (omega arith) ends))
      ∙ ap some (append-nil (decimal_of (w arg))),
  decimal-Denotes (w arg) lt ne,
)
