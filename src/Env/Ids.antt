-- ===== src/Env/Ids.antt =====
-- How env_alloc of jos/kern/env.c numbers environments.
use cs444_operating_systems.Base.{
  ℕ, ◌+◌, ◌-◌, ◌*◌, ◌/◌, ◌%◌, ◌^◌, ◌≤◌, ◌<◌, ◌≡◌, ◌≢◌, ◌⊎◌, if◌then◌else◌, arith, Bool-cases, inl,
  inr,
}
use cs444_operating_systems.Base.Bits.{bit_and_low_mask, bit_and_high_mask, bit_or_fields}
use cs444_operating_systems.Mmu.{u32}
use cs444_operating_systems.Env.{nenv, envx, nonpositive, next_id}

pub envx_lem : (envid : ℕ) → envx envid ≡ envid % 1024
unfolding envx
envx_lem envid = bit_and_low_mask 10 envid

-- The generation that is tried first.
abbrev tried : ℕ → ℕ
tried id = (id + 4096) % 2 ^ 32 / 1024 * 1024

next_id-sum :
    (id e : ℕ) → e < nenv → next_id id e ≡ (if nonpositive (tried id) then 4096 else tried id) + e
unfolding next_id
next_id-sum id e lt = ground (
  arith,
  bit_and_high_mask 10 (u32 (id + 4096)) (2 ^ 22 - 1),
  bit_and_low_mask 22 (u32 (id + 4096) / 1024),
  bit_or_fields 10 4 e lt,
  bit_or_fields 10 (u32 (id + 4096) / 1024) e lt,
)

-- The id that env_alloc gives to environment `e` is a positive int32_t, ENVX takes it back to `e`,
-- and it differs from the id that the same environment had before, if that was not negative.
pub next_id_names :
    (id e : ℕ)
    → e < nenv
    → id < 2 ^ 31
    → (envx (next_id id e) ≡ e) × (0 < next_id id e) × (next_id id e < 2 ^ 31) × (next_id id e ≢ id)
next_id_names id e lt small = elim (Bool-cases (nonpositive (tried id))) [
  | inl wrapped ↦
      let sum : next_id id e ≡ 4096 + e = ground (arith, next_id-sum id e lt) in
      let big : (tried id ≡ 0) ⊎ (2 ^ 31 ≤ tried id) = ground arith in
      (
        omega (arith, envx_lem (next_id id e), sum),
        omega (arith, sum),
        omega (arith, sum),
        omega (arith, sum, big),
      )
  | inr fits ↦
      let sum : next_id id e ≡ tried id + e = ground (arith, next_id-sum id e lt) in
      let big : (0 < tried id) × (tried id < 2 ^ 31) = ground arith in
      (
        omega (arith, envx_lem (next_id id e), sum),
        omega (arith, sum, big.0),
        omega (arith, sum, big.1),
        omega (arith, sum),
      )
]
