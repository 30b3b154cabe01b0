-- ===== src/Format/Cprintf.antt =====
-- putch and vcprintf of jos/lib/printf.c. Each call of sys_cputs is the list of the bytes that it is
-- given.
use cs444_operating_systems.Base.{
  ℕ, zero, suc, ◌+◌, ◌-◌, ◌%◌, ◌≤◌, ◌<◌, ◌≡◌, refl, ◌==◌, Option, none, some, List, [], ◌∷◌, ◌++◌,
  length, arith, if◌then◌else◌, update, ◌∙◌, ap, Bool-cases, inl, inr,
}
use mathlib.Core.Path.{sym}
use mathlib.Core.List.{append-nil, append_assoc}
use cs444_operating_systems.Format.Print.{vprintfmt}

-- `struct printbuf`
pub record Printbuf : Type 0 where
  pub idx : ℕ
  pub cnt : ℕ
  pub buf : ℕ → ℕ

-- The `n` bytes from index `i` on.
unfoldable pub bytes : (ℕ → ℕ) → (i n : ℕ) → List ℕ
bytes buf i zero = []
bytes buf i (suc n) = buf i ∷ bytes buf (i + 1) n

-- The calls, and the buffer.
unfoldable pub putch : ℕ → Printbuf → List (List ℕ) × Printbuf
putch ch b =
    let filled = record b { buf = update b.buf b.idx (ch % 256); idx = b.idx + 1 } in
    if filled.idx == 256 - 1
    then (bytes filled.buf 0 filled.idx ∷ [], record filled { idx = 0; cnt = b.cnt + 1 })
    else ([], record filled { cnt = b.cnt + 1 })

-- The calls of putch by vprintfmt.
unfoldable pub putch_all : List ℕ → Printbuf → List (List ℕ) × Printbuf
putch_all [] b = ([], b)
putch_all (ch ∷ chs) b =
    let first = putch ch b in let rest = putch_all chs first.1 in (first.0 ++ rest.0, rest.1)

-- The calls of sys_cputs, and the result. The buffer is not initialised.
unfoldable pub vcprintf :
    (fuel : ℕ) → (m w : ℕ → ℕ) → (fmt arg : ℕ) → (buf : ℕ → ℕ) → Option (List (List ℕ) × ℕ)
vcprintf fuel m w fmt arg buf = elim (vprintfmt fuel m w fmt arg) [
  | none ↦ none
  | some text ↦
      let (calls, b) = putch_all text (record { idx = 0; cnt = 0; buf = buf }) in
      some (calls ++ bytes b.buf 0 b.idx ∷ [], b.cnt)
]

abbrev pub concat : List (List ℕ) → List ℕ
concat [] = []
concat (xs ∷ xss) = xs ++ concat xss

abbrev pub low_bytes : List ℕ → List ℕ
low_bytes [] = []
low_bytes (x ∷ xs) = x % 256 ∷ low_bytes xs

-- No call is given more than 255 bytes.
abbrev pub AllSmall : List (List ℕ) → Type 0
AllSmall [] = Unit
AllSmall (xs ∷ xss) = (length xs ≤ 255) × AllSmall xss

concat-append : (xss yss : List (List ℕ)) → concat (xss ++ yss) ≡ concat xss ++ concat yss
concat-append [] yss = refl
concat-append (xs ∷ xss) yss =
    ap (λ (zs : List ℕ). xs ++ zs) (concat-append xss yss)
    ∙ sym (append_assoc xs (concat xss) (concat yss))

AllSmall-append : (xss yss : List (List ℕ)) → AllSmall xss → AllSmall yss → AllSmall (xss ++ yss)
AllSmall-append [] yss h1 h2 = h2
AllSmall-append (xs ∷ xss) yss (small, h1) h2 = (small, AllSmall-append xss yss h1 h2)

length-bytes : (buf : ℕ → ℕ) (i n : ℕ) → length (bytes buf i n) ≡ n
unfolding bytes
length-bytes buf i zero = refl
length-bytes buf i (suc n) = ground (arith, length-bytes buf (i + 1) n)

cons-eq : {a b : ℕ} {xs ys : List ℕ} → a ≡ b → xs ≡ ys → a ∷ xs ≡ b ∷ ys
cons-eq {a} {b} {xs} {ys} e1 e2 = ap (λ (c : ℕ). c ∷ xs) e1 ∙ ap (λ (zs : List ℕ). b ∷ zs) e2

bytes-snoc :
    (buf : ℕ → ℕ) (i n v : ℕ) → bytes (update buf (i + n) v) i (n + 1) ≡ bytes buf i n ++ v ∷ []
unfolding bytes
bytes-snoc buf i zero v = cons-eq (ground arith) refl
bytes-snoc buf i (suc n) v =
    ap (λ (k : ℕ). bytes (update buf (i + suc n) v) i k) more
    ∙ cons-eq (ground arith)
        (ap (λ (k : ℕ). bytes (update buf k v) (i + 1) (n + 1)) place ∙ bytes-snoc buf (i + 1) n v)
  where
    more : suc n + 1 ≡ suc (n + 1)
    more = omega arith

    place : i + suc n ≡ i + 1 + n
    place = omega arith

-- What has been given to the calls and is in the buffer afterwards is what was there, and the text.
record Buffered (text : List ℕ) (b : Printbuf) (r : List (List ℕ) × Printbuf) : Type 0 where
  room : r.1.idx < 255
  small : AllSmall r.0
  same : concat r.0 ++ bytes r.1.buf 0 r.1.idx ≡ bytes b.buf 0 b.idx ++ low_bytes text
  count : r.1.cnt ≡ b.cnt + length text

bytes-next : (buf : ℕ → ℕ) (n v : ℕ) → bytes (update buf n v) 0 (n + 1) ≡ bytes buf 0 n ++ v ∷ []
bytes-next buf n v =
    ap (λ (k : ℕ). bytes (update buf k v) 0 (n + 1)) (omega arith) ∙ bytes-snoc buf 0 n v

putch-Buffered : (ch : ℕ) (b : Printbuf) → b.idx < 255 → Buffered (ch ∷ []) b (putch ch b)
unfolding putch bytes
putch-Buffered ch b lt = elim (Bool-cases (b.idx + 1 == 255)) [
  | inl full ↦ rw full (record {
    room = omega arith;
    small = (omega (arith, length-bytes (update b.buf b.idx (ch % 256)) 0 (b.idx + 1)), tt);
    same =
        append-nil (bytes (update b.buf b.idx (ch % 256)) 0 (b.idx + 1) ++ [])
        ∙ append-nil (bytes (update b.buf b.idx (ch % 256)) 0 (b.idx + 1))
        ∙ bytes-next b.buf b.idx (ch % 256);
    count = refl;
  })
  | inr more ↦ rw more (record {
    room = ground arith;
    small = tt;
    same = bytes-next b.buf b.idx (ch % 256);
    count = refl;
  })
]

Buffered-then :
    (ch : ℕ) (chs : List ℕ) (b : Printbuf) (r1 r2 : List (List ℕ) × Printbuf)
    → Buffered (ch ∷ []) b r1
    → Buffered chs r1.1 r2
    → Buffered (ch ∷ chs) b (r1.0 ++ r2.0, r2.1)
Buffered-then ch chs b r1 r2 h1 h2 = record {
  room = h2.room;
  small = AllSmall-append r1.0 r2.0 h1.small h2.small;
  same =
      ap (λ (xs : List ℕ). xs ++ bytes r2.1.buf 0 r2.1.idx) (concat-append r1.0 r2.0)
      ∙ append_assoc (concat r1.0) (concat r2.0) (bytes r2.1.buf 0 r2.1.idx)
      ∙ ap (λ (xs : List ℕ). concat r1.0 ++ xs) h2.same
      ∙ sym (append_assoc (concat r1.0) (bytes r1.1.buf 0 r1.1.idx) (low_bytes chs))
      ∙ ap (λ (xs : List ℕ). xs ++ low_bytes chs) h1.same
      ∙ append_assoc (bytes b.buf 0 b.idx) (ch % 256 ∷ []) (low_bytes chs);
  count = omega (arith, h1.count, h2.count);
}

putch_all-Buffered :
    (text : List ℕ) (b : Printbuf) → b.idx < 255 → Buffered text b (putch_all text b)
unfolding putch_all
putch_all-Buffered [] b lt = record {
  room = lt;
  small = tt;
  same = sym (append-nil (bytes b.buf 0 b.idx));
  count = omega arith;
}
putch_all-Buffered (ch ∷ chs) b lt =
    let h1 = putch-Buffered ch b lt in
    Buffered-then ch chs b (putch ch b) (putch_all chs (putch ch b).1) h1
      (putch_all-Buffered chs (putch ch b).1 h1.room)

-- vcprintf of a text that the format prints gives all of it to sys_cputs, in order, in calls of at most
-- 255 bytes, and returns how many characters it has. The hypothesis: the format prints the text.
pub vcprintf_prints :
    (fuel : ℕ) (m w : ℕ → ℕ) (fmt arg : ℕ) (buf : ℕ → ℕ) (text : List ℕ)
    → vprintfmt fuel m w fmt arg ≡ some text
    → (calls : List (List ℕ)) × (vcprintf fuel m w fmt arg buf ≡ some (calls, length text))
      × (concat calls ≡ low_bytes text)
      × AllSmall calls
unfolding vcprintf bytes
vcprintf_prints fuel m w fmt arg buf text prints =
    let r = putch_all text (record { idx = 0; cnt = 0; buf = buf }) in
    let h = putch_all-Buffered text (record { idx = 0; cnt = 0; buf = buf }) (omega arith) in
    let last = bytes r.1.buf 0 r.1.idx in
    (
      r.0 ++ last ∷ [],
      rw (prints, vcprintf) (ap (λ (n : ℕ). some (r.0 ++ last ∷ [], n)) (h.count ∙ omega arith)),
      concat-append r.0 (last ∷ [])
          ∙ ap (λ (xs : List ℕ). concat r.0 ++ xs) (append-nil last)
          ∙ h.same,
      AllSmall-append r.0 (last ∷ []) h.small
          (omega (arith, h.room, length-bytes r.1.buf 0 r.1.idx), tt),
    )
