-- ===== src/Format/Buffer.antt =====
-- sprintputch and vsnprintf of jos/lib/printfmt.c. The buffer is apart from the format and the strings.
use cs444_operating_systems.Base.{
  ℕ, zero, suc, ◌+◌, ◌-◌, ◌%◌, ◌^◌, ◌<◌, ◌≡◌, ◌≢◌, ◌⊎◌, inl, refl, true, false, ◌||◌, ◌==◌, leb,
  ltb, Option, none, some, List, [], ◌∷◌, length, arith, if◌then◌else◌, update, ◌∙◌, ap,
}
use cs444_operating_systems.Errors.{Ret, value, error, inval}
use cs444_operating_systems.Strings.Truncate.{IsString, take}
use cs444_operating_systems.Format.Print.{vprintfmt}

-- `struct sprintbuf`
pub record Sprintbuf : Type 0 where
  pub buf : ℕ
  pub ebuf : ℕ
  pub cnt : ℕ

unfoldable pub sprintputch : ℕ → Sprintbuf → (ℕ → ℕ) → Sprintbuf × (ℕ → ℕ)
sprintputch ch b m =
    if ltb b.buf b.ebuf
    then (record b { cnt = b.cnt + 1; buf = b.buf + 1 }, update m b.buf (ch % 256))
    else (record b { cnt = b.cnt + 1 }, m)

-- The calls of sprintputch by vprintfmt.
unfoldable pub put_all : List ℕ → Sprintbuf → (ℕ → ℕ) → Sprintbuf × (ℕ → ℕ)
put_all [] b m = (b, m)
put_all (ch ∷ chs) b m = let (b', m') = sprintputch ch b m in put_all chs b' m'

-- The result, and the memory. The buffer overlaps neither the format nor a string that is printed.
unfoldable pub vsnprintf : (fuel : ℕ) → (m w : ℕ → ℕ) → (buf n fmt ap : ℕ) → Option (Ret × (ℕ → ℕ))
vsnprintf fuel m w buf n fmt ap =
    if buf == 0 || (n == 0 || leb (2 ^ 31) n)
    then some (error inval, m)
    else elim (vprintfmt fuel m w fmt ap) [
      | none ↦ none
      | some text ↦
          let (b, m') = put_all text (record { buf = buf; ebuf = buf + n - 1; cnt = 0 }) m in
          some (value b.cnt, update m' b.buf 0)
    ]

-- What is in the buffer with room for `k` characters and a 0 when `xs` has been put.
record Filled (k buf cnt : ℕ) (xs : List ℕ) (m : ℕ → ℕ) (r : Sprintbuf × (ℕ → ℕ)) : Type 0 where
  string : IsString (update r.1 r.0.buf 0) buf (take k xs)
  count : r.0.cnt ≡ cnt + length xs
  rest : (a : ℕ) → (a < buf) ⊎ (buf + k < a) → update r.1 r.0.buf 0 a ≡ m a

-- Characters of a string: none is 0.
abbrev pub AllChars : List ℕ → Type 0
AllChars [] = Unit
AllChars (x ∷ xs) = (x ≢ 0) × (x < 256) × AllChars xs

not_below : (a : ℕ) → ltb a (a + 0) ≡ false
not_below a = ground arith

below : (a k : ℕ) → ltb a (a + suc k) ≡ true
below a k = ground arith

whole : (ch : ℕ) → ch < 256 → ch % 256 ≡ ch
whole ch small = omega arith

sprintputch_full :
    (ch buf cnt : ℕ) (m : ℕ → ℕ)
    → sprintputch ch (record { buf = buf; ebuf = buf + 0; cnt = cnt }) m
      ≡ (record { buf = buf; ebuf = buf + 0; cnt = cnt + 1 }, m)
unfolding sprintputch
sprintputch_full ch buf cnt m = rw (not_below buf) refl

sprintputch_room :
    (ch k buf cnt : ℕ) (m : ℕ → ℕ)
    → ch < 256
    → sprintputch ch (record { buf = buf; ebuf = buf + suc k; cnt = cnt }) m
      ≡ (record { buf = buf + 1; ebuf = buf + 1 + k; cnt = cnt + 1 }, update m buf ch)
unfolding sprintputch
sprintputch_room ch k buf cnt m small = rw (below buf k) (
    rw (whole ch small) (
      ap (λ e. (record { buf = buf + 1; ebuf = e; cnt = cnt + 1 }, update m buf ch)) (omega arith)))

put_all-Filled :
    (k buf cnt : ℕ) (xs : List ℕ) (m : ℕ → ℕ)
    → AllChars xs
    → Filled k buf cnt xs m (put_all xs (record { buf = buf; ebuf = buf + k; cnt = cnt }) m)
unfolding put_all
put_all-Filled zero buf cnt [] m chars = record {
  string = ground arith;
  count = omega arith;
  rest = λ a out. ground arith;
}
put_all-Filled (suc k) buf cnt [] m chars = record {
  string = ground arith;
  count = omega arith;
  rest = λ a out. ground arith;
}
put_all-Filled zero buf cnt (x ∷ xs) m (ne, small, chars) = rw (sprintputch_full x buf cnt m) (
    let f = put_all-Filled zero buf (cnt + 1) xs m chars in
    record { string = f.string; count = omega (arith, f.count); rest = f.rest })
put_all-Filled (suc k) buf cnt (x ∷ xs) m (ne, small, chars) =
    rw (sprintputch_room x k buf cnt m small) (
      let f = put_all-Filled k (buf + 1) (cnt + 1) xs (update m buf x) chars in
      record {
        string = (f.rest buf (inl (omega arith)) ∙ ground arith, ne, f.string);
        count = omega (arith, f.count);
        rest = λ a out. f.rest a (ground arith) ∙ ground arith;
      })

accepted :
    (buf k : ℕ)
    → buf ≢ 0
    → k + 1 < 2 ^ 31
    → (buf == 0 || (k + 1 == 0 || leb (2 ^ 31) (k + 1))) ≡ false
accepted buf k ne small = ground arith

last_byte : (buf k : ℕ) → buf + (k + 1) - 1 ≡ buf + k
last_byte buf k = omega arith

-- vsnprintf of a text that the format prints: the buffer of `n` bytes holds the first `n - 1`
-- characters as a string, or all of them if there are fewer, the result is how many characters the
-- text has, also where they do not fit, and no byte outside of the buffer is changed. The hypotheses:
-- the format prints the text, whose characters are bytes but not 0, and the buffer is at a pointer
-- that is not null and has room for a byte.
pub vsnprintf_truncates :
    (fuel : ℕ) (m w : ℕ → ℕ) (buf k fmt ap : ℕ) (xs : List ℕ)
    → vprintfmt fuel m w fmt ap ≡ some xs
    → AllChars xs
    → buf ≢ 0
    → k + 1 < 2 ^ 31
    → (m' : ℕ → ℕ) × (vsnprintf fuel m w buf (k + 1) fmt ap ≡ some (value (length xs), m'))
      × IsString m' buf (take k xs)
      × ((a : ℕ) → (a < buf) ⊎ (buf + k < a) → m' a ≡ m a)
unfolding vsnprintf
vsnprintf_truncates fuel m w buf k fmt arg xs prints chars ne small =
    let r = put_all xs (record { buf = buf; ebuf = buf + k; cnt = 0 }) m in
    let f = put_all-Filled k buf 0 xs m chars in
    (
      update r.1 r.0.buf 0,
      rw (accepted buf k ne small) (
          rw (prints, last_byte buf k)
            (ap (λ n. some (value n, update r.1 r.0.buf 0)) (f.count ∙ omega arith))),
      f.string,
      f.rest,
    )
