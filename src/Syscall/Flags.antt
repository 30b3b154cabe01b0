-- ===== src/Syscall/Flags.antt =====
-- The permissions that the system calls of jos/kern/syscall.c accept.
use cs444_operating_systems.Base.{ℕ, zero, suc, ◌-◌, ◌/◌, ◌^◌, ◌≡◌, ◌<◌, false, arith, bit_and, ap}
use cs444_operating_systems.Base.Bits.{bit_and_low, bit_and_low_mask}
use cs444_operating_systems.Mmu.{pte_syscall}
use cs444_operating_systems.Syscall.{bad_perm}

-- `a >> k`
abbrev halved : ℕ → ℕ → ℕ
halved zero a = a
halved (suc k) a = halved k (a / 2)

-- No common bit above `k` places.
apart-above : (k a b : ℕ) → bit_and a b ≡ 0 → bit_and (halved k a) (halved k b) ≡ 0
apart-above zero a b h = h
apart-above (suc k) a b h = apart-above k (a / 2) (b / 2) (omega (arith, bit_and_low a b))

-- Permissions that are accepted are twelve bits.
pub bad_perm-lt : (perm : ℕ) → perm < 2 ^ 32 → bad_perm perm ≡ false → perm < 4096
unfolding bad_perm
bad_perm-lt perm small fine =
    let none' : bit_and perm (2 ^ 32 - 1 - pte_syscall) ≡ 0 = ground arith in
    let same : halved 12 perm ≡ perm / 4096 = omega arith in
    let high : bit_and (halved 12 perm) 0xFFFFF ≡ 0 =
      apart-above 12 perm (2 ^ 32 - 1 - pte_syscall) none' in
    omega (arith, ap (λ (x : ℕ). bit_and x 0xFFFFF) same, high, bit_and_low_mask 20 (perm / 4096))
