-- ===== src/Format/Termination.antt =====
-- vprintfmt of jos/lib/printfmt.c comes to an end.
use cs444_operating_systems.Base.{
  ℕ, zero, suc, ◌+◌, ◌-◌, ◌*◌, ◌≤◌, ◌<◌, ◌≡◌, ◌≢◌, refl, Bool, true, false, not, ◌&&◌, ◌||◌, ◌==◌,
  leb, ltb, Option, none, some, List, [], ◌∷◌, if◌then◌else◌, arith, ==→eq,
}
use mathlib.Core.Path.{subst}
use cs444_operating_systems.Format.Ends.{
  Ends, Ends-if, Ends-cond, Ends-weaken, Ends-option, Ends-then,
}
use cs444_operating_systems.Format.Convert.{
  or_zero, Flags, initial_flags, Piece, codes, literal, pointed, string_chars, string_text,
  walk_back, convert,
}
use cs444_operating_systems.Format.Print.{read_width, process_precision, flag, reswitch, vprintfmt}

walk_back-bounds :
    (m : ℕ → ℕ) (b n : ℕ) → m b ≡ 37 → b < n → (b < walk_back m n) × (walk_back m n ≤ n)
unfolding walk_back
walk_back-bounds m b zero at lt = absurd (omega arith)
walk_back-bounds m b (suc n) at lt = ground (arith, at, walk_back-bounds m b n at)

abbrev AnyText : List ℕ → Type 0
AnyText _ = Unit

not_yet : (n i : ℕ) (str : ℕ → ℕ) → str (i + n) ≡ 0 → (str i == 0) ≡ false → n ≢ 0
not_yet n i str at going = λ z. ground (arith, at, z, going)

further :
    (n i : ℕ) (str : ℕ → ℕ) → str (i + n) ≡ 0 → (str i == 0) ≡ false → str (i + 1 + (n - 1)) ≡ 0
further n i str at going = subst (λ a. str a ≡ 0) (omega (arith, not_yet n i str at going)) at

string_chars-Ends :
    (n fuel i : ℕ) (str : ℕ → ℕ) (precision : Option ℕ) (altflag : Bool)
    → str (i + n) ≡ 0
    → n < fuel
    → Ends AnyText (string_chars fuel str i precision altflag)
unfolding string_chars
string_chars-Ends n zero i str precision altflag at lt = absurd (omega arith)
string_chars-Ends n (suc fuel) i str none altflag at lt =
    Ends-if AnyText (str i == 0) _ _ (λ e. tt)
      λ going.
        Ends-then AnyText AnyText _ _
          (string_chars-Ends (n - 1) fuel (i + 1) str none altflag (further n i str at going)
            (omega (arith, not_yet n i str at going)))
          (λ t u. tt)
string_chars-Ends n (suc fuel) i str (some zero) altflag at lt =
    Ends-if AnyText (str i == 0) _ _ (λ e. tt) (λ going. tt)
string_chars-Ends n (suc fuel) i str (some (suc q)) altflag at lt =
    Ends-if AnyText (str i == 0) _ _ (λ e. tt)
      λ going.
        Ends-then AnyText AnyText _ _
          (string_chars-Ends (n - 1) fuel (i + 1) str (some q) altflag (further n i str at going)
            (omega (arith, not_yet n i str at going)))
          (λ t u. tt)

-- Every string ends, within `bound` characters.
abbrev pub AllEnd : (bound : ℕ) → (ℕ → ℕ) → Type 0
AllEnd bound m = (p : ℕ) → (n : ℕ) × (n < bound) × (m (p + n) ≡ 0)

string_text-Ends :
    (bound fuel p : ℕ) (m : ℕ → ℕ) (f : Flags)
    → AllEnd bound m
    → 6 < bound
    → bound < fuel
    → Ends AnyText (string_text fuel (pointed m p) f)
unfolding string_text
string_text-Ends bound fuel p m f all big lt =
    Ends-then AnyText AnyText (string_chars fuel (pointed m p) 0 f.precision f.altflag) _
      (chars (p == 0))
      (λ text u.
        Ends-cond AnyText (ltb 0 (or_zero f.width) && not (f.padc == 45)) _ _ (λ e. tt) (λ e. tt))
  where
    chars :
        (null : Bool)
        → Ends AnyText (
            string_chars fuel
              (if null then literal (codes "(null)") else λ i. m (p + i))
              0
              f.precision
              f.altflag)
    chars true =
        string_chars-Ends 6 fuel 0 (literal (codes "(null)")) f.precision f.altflag refl
          (omega arith)
    chars false =
        let (n, small, at) = all p in
        string_chars-Ends n fuel 0 (λ i. m (p + i)) f.precision f.altflag
          (subst (λ a. m (p + a) ≡ 0) (omega arith) at) (omega arith)

-- Between the start of the escape sequence and the end of the format.
abbrev Within : (b e : ℕ) → Piece → Type 0
Within b e piece = (b < piece.fmt) × (piece.fmt ≤ e)

-- A case of the switch that moves no pointer into the format.
case-Ends :
    (b e i c : ℕ) (m : ℕ → ℕ) (x y : Option Piece)
    → m e ≡ 0
    → b < i
    → i ≤ e
    → c ≢ 0
    → (i < e → Ends (Within b e) x)
    → Ends (Within b e) y
    → Ends (Within b e) (if m i == c then x else y)
case-Ends b e i c m x y over lo hi ne here rest =
    Ends-cond (Within b e) (m i == c) x y (λ h. here (ground (arith, over, ==→eq (m i) c h)))
      (λ h. rest)

convert-Ends :
    (bound fuel b e i ap : ℕ) (m w : ℕ → ℕ) (f : Flags)
    → AllEnd bound m
    → 6 < bound
    → bound < fuel
    → m b ≡ 37
    → m e ≡ 0
    → b < i
    → i ≤ e
    → Ends (Within b e) (convert fuel m w (m i) (i + 1) ap f)
unfolding convert
convert-Ends bound fuel b e i ap m w f all big enough at over lo hi =
    let go = λ (c : ℕ) (ne : c ≢ 0) (x y : Option Piece). case-Ends b e i c m x y over lo hi ne in
    let back = walk_back-bounds m b (i + 1 - 1) at (omega arith) in
    let walked : Ends (Within b e)
        (some (record { text = 37 ∷ []; fmt = walk_back m (i + 1 - 1); ap = ap })) =
      (back.0, omega (arith, back.1)) in
    go 99 (omega arith) _ _ (λ lt. (omega arith, omega arith))
      (go 101 (omega arith) _ _ (λ lt. (omega arith, omega arith))
        (go 115 (omega arith) _ _
          (λ lt.
            Ends-then (Within b e) AnyText _ _
              (string_text-Ends bound fuel (w ap) m f all big enough)
              (λ t u. (omega arith, omega arith)))
          (go 100 (omega arith) _ _ (λ lt. (omega arith, omega arith))
            (go 117 (omega arith) _ _ (λ lt. (omega arith, omega arith))
              (go 111 (omega arith) _ _ (λ lt. (omega arith, omega arith))
                (go 112 (omega arith) _ _ (λ lt. (omega arith, omega arith))
                  (go 120 (omega arith) _ _ (λ lt. (omega arith, omega arith))
                    (go 37 (omega arith) _ _ (λ lt. (omega arith, omega arith)) walked))))))))

-- The number ends behind its first character, and not behind the end of the format.
read_width-Ends :
    (fuel e i value : ℕ) (m : ℕ → ℕ) (ch : ℕ)
    → m e ≡ 0
    → i ≤ e
    → e < i + fuel
    → Ends (λ r. (i ≤ r.1) × (r.1 ≤ e)) (read_width fuel m ch i value)
unfolding read_width
read_width-Ends zero e i value m ch over hi enough = absurd (omega arith)
read_width-Ends (suc fuel) e i value m ch over hi enough =
    Ends-if _ (ltb (m i) 48 || ltb 57 (m i)) _ _ (λ stop. (omega arith, hi))
      λ digit'.
        let inside : i < e = ground (arith, over, digit') in
        Ends-weaken (λ r. (i + 1 ≤ r.1) × (r.1 ≤ e)) (λ r. (i ≤ r.1) × (r.1 ≤ e)) _
          (read_width-Ends fuel e (i + 1) (value * 10 + (ch - 48)) m (m i) over (omega arith)
            (omega arith))
          (λ r h. (omega (arith, h.0), h.1))

flag_char : (ch : ℕ) (f f' : Flags) → flag ch f ≡ some f' → ch ≢ 0
unfolding flag
flag_char ch f f' h = λ z. ground arith

reswitch-Ends :
    (bound fuel b e i ap : ℕ) (m w : ℕ → ℕ) (f : Flags)
    → AllEnd bound m
    → 6 < bound
    → m b ≡ 37
    → m e ≡ 0
    → b < i
    → i ≤ e
    → e + bound + 1 < i + fuel
    → Ends (Within b e) (reswitch fuel m w i ap f)
unfolding reswitch
reswitch-Ends bound zero b e i ap m w f all big at over lo hi enough = absurd (omega arith)
reswitch-Ends bound (suc fuel) b e i ap m w f all big at over lo hi enough =
    Ends-option (Within b e) (flag (m i) f) _ _
      (λ f' is_flag.
        let inside : i < e = ground (arith, over, flag_char (m i) f f' is_flag) in
        reswitch-Ends bound fuel b e (i + 1) ap m w f' all big at over (omega arith) (omega arith)
          (omega arith))
      λ no_flag.
        Ends-if (Within b e) (leb 49 (m i) && leb (m i) 57) _ _
          (λ digit'.
            let inside : i < e = ground (arith, over, digit') in
            Ends-then (Within b e) _ (read_width fuel m (m i) (i + 1) 0) _
              (read_width-Ends fuel e (i + 1) 0 m (m i) over (omega arith) (omega arith))
              λ (precision, fmt') h.
                reswitch-Ends bound fuel b e fmt' ap m w (process_precision (some precision) f) all
                  big at over (omega (arith, h.0)) h.1 (omega (arith, h.0)))
          λ no_digit.
            Ends-if (Within b e) (m i == 42) _ _
              (λ star.
                let inside : i < e = ground (arith, over, star) in
                reswitch-Ends bound fuel b e (i + 1) (ap + 1) m w _ all big at over (omega arith)
                  (omega arith) (omega arith))
              (λ no_star.
                convert-Ends bound fuel b e i ap m w f all big (omega arith) at over lo hi)

vprintfmt-Ends :
    (bound fuel e i ap : ℕ) (m w : ℕ → ℕ)
    → AllEnd bound m
    → 6 < bound
    → m e ≡ 0
    → i ≤ e
    → e + bound + 1 < i + fuel
    → Ends AnyText (vprintfmt fuel m w i ap)
unfolding vprintfmt
vprintfmt-Ends bound zero e i ap m w all big over hi enough = absurd (omega arith)
vprintfmt-Ends bound (suc fuel) e i ap m w all big over hi enough =
    Ends-if AnyText (m i == 37) _ _
      (λ percent.
        let inside : i < e = ground (arith, over, percent) in
        Ends-then AnyText (Within i e) _ _
          (reswitch-Ends bound fuel i e (i + 1) ap m w initial_flags all big
            (==→eq (m i) 37 percent) over (omega arith) (omega arith) (omega arith))
          λ piece h.
            Ends-then AnyText AnyText _ _
              (vprintfmt-Ends bound fuel e piece.fmt piece.ap m w all big over h.1
                (omega (arith, h.0)))
              (λ t u. tt))
      λ plain.
        Ends-if AnyText (m i == 0) _ _ (λ stop. tt)
          λ going.
            let inside : i < e = ground (arith, over, going) in
            Ends-then AnyText AnyText _ _
              (vprintfmt-Ends bound fuel e (i + 1) ap m w all big over (omega arith) (omega arith))
              (λ t u. tt)

Ends-some : (o : Option (List ℕ)) → Ends AnyText o → (text : List ℕ) × (o ≡ some text)
Ends-some none h = absurd h
Ends-some (some text) h = (text, refl)

-- vprintfmt comes to an end for every format, arguments included that are not what the format asks
-- for: fuel of `bound + 2` more than the length of the format is enough. The hypotheses: the format
-- ends at `e`, and from each address on there is a 0 within `bound` bytes, at least 7.
pub vprintfmt_terminates :
    (bound fuel e fmt ap : ℕ) (m w : ℕ → ℕ)
    → AllEnd bound m
    → 6 < bound
    → m e ≡ 0
    → fmt ≤ e
    → e + bound + 1 < fmt + fuel
    → (text : List ℕ) × (vprintfmt fuel m w fmt ap ≡ some text)
vprintfmt_terminates bound fuel e fmt ap m w all big over hi enough =
    Ends-some (vprintfmt fuel m w fmt ap)
      (vprintfmt-Ends bound fuel e fmt ap m w all big over hi enough)
