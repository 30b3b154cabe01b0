-- ===== src/Strings/Move.antt =====
-- memmove of jos/lib/string.c on regions that may overlap.
use cs444_operating_systems.Base.{
  ℕ, zero, suc, ◌+◌, ◌-◌, ◌*◌, ◌/◌, ◌^◌, ◌≤◌, ◌<◌, ◌≡◌, ◌⊎◌, inl, inr, refl, ◌&&◌, arith, leb, ltb,
  if◌then◌else◌, Bool-cases, ◌∙◌,
}
use cs444_operating_systems.Mmu.{u32}
use cs444_operating_systems.Strings.{copy_unit, copy_up, copy_down, in_words, memmove}

copy_up-moves :
    (u rounds d s len : ℕ) (m : ℕ → ℕ) (a : ℕ)
    → len ≡ rounds * u
    → (d ≤ s) ⊎ (s + len ≤ d)
    → copy_up u rounds d s m a ≡ copy_unit len d s m a
unfolding copy_up
copy_up-moves u zero d s len m a e apart = ground arith
copy_up-moves u (suc rounds) d s len m a e apart =
    let rest : len ≡ rounds * u + u = omega arith in
    ground (arith, copy_up-moves u rounds (d + u) (s + u) (rounds * u) (copy_unit u d s m) a refl)

copy_down-moves :
    (u rounds d s len : ℕ) (m : ℕ → ℕ) (a : ℕ)
    → len ≡ rounds * u
    → s < d
    → copy_down u rounds (d + len) (s + len) m a ≡ copy_unit len d s m a
unfolding copy_down
copy_down-moves u zero d s len m a e lt = ground arith
copy_down-moves u (suc rounds) d s len m a e lt =
    let rest : len ≡ rounds * u + u = omega arith in
    let de : d + len - u ≡ d + rounds * u = omega arith in
    let se : s + len - u ≡ s + rounds * u = omega arith in
    rw (de, se)
      (copy_down-moves u rounds d s (rounds * u) (copy_unit u (d + rounds * u) (s + rounds * u) m) a
          refl lt
        ∙ ground arith)

downwards :
    (d s n : ℕ) (m : ℕ → ℕ) (a : ℕ)
    → s < d
    → (if in_words (s + n) (d + n) n
          then copy_down 4 (n / 4) (d + n) (s + n) m
          else copy_down 1 n (d + n) (s + n) m)
        a
      ≡ copy_unit n d s m a
downwards d s n m a lt = elim (Bool-cases (in_words (s + n) (d + n) n)) [
  | inl words ↦
      let whole : n ≡ n / 4 * 4 = ground arith in
      rw words (copy_down-moves 4 (n / 4) d s n m a whole lt)
  | inr bytes ↦ rw bytes (copy_down-moves 1 n d s n m a (omega arith) lt)
]

upwards :
    (d s n : ℕ) (m : ℕ → ℕ) (a : ℕ)
    → (d ≤ s) ⊎ (s + n ≤ d)
    → (if in_words s d n then copy_up 4 (n / 4) d s m else copy_up 1 n d s m) a
      ≡ copy_unit n d s m a
upwards d s n m a apart = elim (Bool-cases (in_words s d n)) [
  | inl words ↦
      let whole : n ≡ n / 4 * 4 = ground arith in
      rw words (copy_up-moves 4 (n / 4) d s n m a whole apart)
  | inr bytes ↦ rw bytes (copy_up-moves 1 n d s n m a (omega arith) apart)
]

-- memmove copies: afterwards each of the `n` bytes from `dst` on is what stood at its place from
-- `src` on before, and no other byte has changed, however the two regions overlap. The hypotheses:
-- neither region reaches the end of the address space.
pub memmove_copies :
    (dst src n : ℕ) (m : ℕ → ℕ) (a : ℕ)
    → dst + n < 2 ^ 32
    → src + n < 2 ^ 32
    → memmove dst src n m a ≡ (if leb dst a && ltb a (dst + n) then m (src + (a - dst)) else m a)
unfolding memmove
memmove_copies dst src n m a hd hs =
    let us : u32 (src + n) ≡ src + n = omega arith in
    let ud : u32 (dst + n) ≡ dst + n = omega arith in
    rw (us, ud)
      (elim (Bool-cases (ltb src dst && ltb dst (src + n))) [
        | inl over ↦ rw over (downwards dst src n m a (ground arith))
        | inr apart ↦ rw apart (upwards dst src n m a (ground arith))
      ])
