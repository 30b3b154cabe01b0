-- ===== src/Mmu/Address.antt =====
-- PDX, PTX, PGOFF, PGNUM and PGADDR of jos/inc/mmu.h as arithmetic, and how they fit together.
use cs444_operating_systems.Base.{ℕ, ◌+◌, ◌*◌, ◌/◌, ◌%◌, ◌^◌, ◌<◌, ◌≡◌, bit_or, arith, ◌∙◌, ap}
use cs444_operating_systems.Base.Bits.{bit_and_low_mask, bit_or_fields}
use cs444_operating_systems.Mmu.{pgnum, pdx, ptx, pgoff, pgaddr}

pub pdx_lem : (la : ℕ) → pdx la ≡ la / 2 ^ 22 % 1024
unfolding pdx
pdx_lem la = bit_and_low_mask 10 (la / 2 ^ 22)

pub ptx_lem : (la : ℕ) → ptx la ≡ la / 2 ^ 12 % 1024
unfolding ptx
ptx_lem la = bit_and_low_mask 10 (la / 2 ^ 12)

pub pgoff_lem : (la : ℕ) → pgoff la ≡ la % 4096
unfolding pgoff
pgoff_lem la = bit_and_low_mask 12 la

pub pgaddr-sum :
    (d t o : ℕ) → d < 1024 → t < 1024 → o < 4096 → pgaddr d t o ≡ d * 2 ^ 22 + t * 2 ^ 12 + o
unfolding pgaddr
pgaddr-sum d t o hd ht ho = ground (
  arith,
  bit_or_fields 22 d (t * 2 ^ 12) (omega arith),
  bit_or_fields 12 (d * 2 ^ 10 + t) o (omega arith),
  same,
)
  where
    same : bit_or (d * 2 ^ 22 + t * 2 ^ 12) o ≡ bit_or ((d * 2 ^ 10 + t) * 2 ^ 12) o
    same = ap (λ (x : ℕ). bit_or x o) (omega arith)

-- A linear address is put together again by PGADDR from its directory index, its table index and
-- its offset, and PGNUM is the two indices together.
pub pgaddr-split :
    (la : ℕ)
    → la < 2 ^ 32
    → (pgaddr (pdx la) (ptx la) (pgoff la) ≡ la) × (pgnum la ≡ pdx la * 1024 + ptx la)
unfolding pgnum
pgaddr-split la h = (
  pgaddr-sum (pdx la) (ptx la) (pgoff la) (omega (arith, pdx_lem la)) (omega (arith, ptx_lem la))
        (omega (arith, pgoff_lem la))
      ∙ omega (arith, pdx_lem la, ptx_lem la, pgoff_lem la),
  omega (arith, pdx_lem la, ptx_lem la),
)
