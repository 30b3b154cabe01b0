-- ===== src/Strings/Fill.antt =====
-- memset of jos/lib/string.c.
use cs444_operating_systems.Base.{
  ℕ, zero, suc, ◌+◌, ◌-◌, ◌*◌, ◌/◌, ◌%◌, ◌^◌, ◌<◌, ◌≡◌, ◌&&◌, ◌==◌, leb, ltb, arith, if◌then◌else◌,
  update, bit_and, bit_or, ◌∙◌, ap, Bool-cases, inl, inr,
}
use mathlib.Core.Path.{subst, sym}
use cs444_operating_systems.Base.Bits.{bit_or_fields, bit_and_low_mask}
use cs444_operating_systems.Strings.Copy.{store_bytes, store_longs, four_times, memset}

-- A byte is written throughout `[v, v + n)`, and nothing else.
abbrev filled : (v c n : ℕ) → (ℕ → ℕ) → ℕ → ℕ
filled v c n m a = if leb v a && ltb a (v + n) then c else m a

store_bytes_lem :
    (rounds v c : ℕ) (m : ℕ → ℕ) (a : ℕ)
    → store_bytes rounds v c m a ≡ filled v (c % 256) rounds m a
unfolding store_bytes
store_bytes_lem zero v c m a = ground arith
store_bytes_lem (suc rounds) v c m a =
    store_bytes_lem rounds (v + 1) c (update m v (c % 256)) a ∙ ground arith

-- Every byte of the word `w` is `c`.
abbrev HasBytes : (w c : ℕ) → Type 0
HasBytes w c = (i : ℕ) → i < 4 → w / 2 ^ (8 * i) % 256 ≡ c

store_longs_lem :
    (rounds v w c : ℕ) (m : ℕ → ℕ) (a : ℕ)
    → HasBytes w c
    → store_longs rounds v w m a ≡ filled v c (4 * rounds) m a
unfolding store_longs
store_longs_lem zero v w c m a h = ground arith
store_longs_lem (suc rounds) v w c m a h =
    store_longs_lem rounds (v + 4) w c _ a h ∙ elim (Bool-cases (leb v a && ltb a (v + 4))) [
      | inl now ↦ ground (arith, h (a - v))
      | inr other ↦ ground arith
    ]

four_times_sum : (c : ℕ) → c < 256 → four_times c ≡ c * 0x01010101
four_times_sum c lt =
    ap (λ (x : ℕ). bit_or (bit_or x (c * 2 ^ 8)) c)
      (bit_or_fields 24 c (c * 2 ^ 16) (omega arith) ∙ two)
    ∙ ap (λ (x : ℕ). bit_or x c) (bit_or_fields 16 (c * 0x101) (c * 2 ^ 8) (omega arith) ∙ three)
    ∙ bit_or_fields 8 (c * 0x10101) c lt
    ∙ omega arith
  where
    two : c * 2 ^ 24 + c * 2 ^ 16 ≡ c * 0x101 * 2 ^ 16
    two = omega arith

    three : c * 0x101 * 2 ^ 16 + c * 2 ^ 8 ≡ c * 0x10101 * 2 ^ 8
    three = omega arith

four_times-HasBytes : (c : ℕ) → c < 256 → HasBytes (four_times c) c
four_times-HasBytes c lt zero small = rw (four_times_sum c lt) (omega arith)
four_times-HasBytes c lt (suc zero) small = rw (four_times_sum c lt) (omega arith)
four_times-HasBytes c lt (suc (suc zero)) small = rw (four_times_sum c lt) (omega arith)
four_times-HasBytes c lt (suc (suc (suc zero))) small = rw (four_times_sum c lt) (omega arith)
four_times-HasBytes c lt (suc (suc (suc (suc i)))) small = absurd (omega arith)

-- memset writes the low byte of `c` to the `n` bytes from `v` on and changes no other byte, whether it
-- stores bytes or words of four of them.
pub memset_fills :
    (v c n : ℕ) (m : ℕ → ℕ) (a : ℕ)
    → memset v c n m a ≡ (if leb v a && ltb a (v + n) then c % 256 else m a)
unfolding memset
memset_fills v c zero m a = ground arith
memset_fills v c (suc n') m a = elim (Bool-cases (v % 4 == 0 && suc n' % 4 == 0)) [
  | inl words ↦ rw words (
      store_longs_lem (suc n' / 4) v (four_times (bit_and c 0xFF)) (c % 256) m a (
        subst (λ x. HasBytes (four_times x) (c % 256)) (sym (bit_and_low_mask 8 c))
          (four_times-HasBytes (c % 256) (omega arith)))
      ∙ ground arith)
  | inr other ↦ rw other (store_bytes_lem (suc n') v c m a)
]
