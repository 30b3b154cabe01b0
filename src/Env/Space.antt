-- ===== src/Env/Space.antt =====
-- env_setup_vm of jos/kern/env.c: the page directory of a new environment.
use cs444_operating_systems.Base.{
  ℕ, zero, suc, ◌+◌, ◌-◌, ◌*◌, ◌≤◌, ◌<◌, ◌≡◌, ◌≢◌, ◌⊎◌, refl, List, [], ◌∷◌, arith, ◌==◌, ltb,
  if◌then◌else◌, update, bit_or,
}
use native.Mathlib.Decide.{ℕ_discrete, dec_lt}
use cs444_operating_systems.Base.Bits.{bit_or_fields, bit_or_low_field}
use cs444_operating_systems.Mmu.{utop, kernbase, pdx, pte_p, pte_u, has_flag}
use cs444_operating_systems.Kernel.{Kernel}
use cs444_operating_systems.Kernel.Run.{ok}
use cs444_operating_systems.Errors.{value, error, no_mem}
use cs444_operating_systems.Pages.{alloc_zero, inc_ref, paddr}
use cs444_operating_systems.Pages.Free.{
  IsFree, allocated, page_alloc-some, page2kva-ok, IsFree-allocated, Chain-update,
}
use cs444_operating_systems.Pages.Stack.{page_alloc_pops}
use cs444_operating_systems.Pgdir.{entry_at}
use cs444_operating_systems.Env.{uvpt, copy_entries, env_setup_vm}

pub pdx-utop : pdx utop ≡ 955
unfolding pdx
pdx-utop = refl

pub pdx-uvpt : pdx uvpt ≡ 957
unfolding pdx
pdx-uvpt = refl

copy_entries_outside :
    (rounds pgdir from x : ℕ) (m : ℕ → ℕ) (a : ℕ)
    → ((i : ℕ) → x ≤ i → i < x + rounds → a ≢ entry_at pgdir i)
    → copy_entries rounds pgdir from x m a ≡ m a
unfolding copy_entries
copy_entries_outside zero pgdir from x m a out = refl
copy_entries_outside (suc rounds) pgdir from x m a out = ground (
  arith,
  copy_entries_outside rounds pgdir from (x + 1) (update m (entry_at pgdir x) (m (entry_at from x)))
      a (λ i lo hi. out i (omega arith) (omega arith)),
  out x (omega arith) (omega arith),
)

-- Two tables do not overlap.
abbrev Apart : ℕ → ℕ → Type 0
Apart s t = (s + 4096 ≤ t) ⊎ (t + 4096 ≤ s)

copy_entries_inside :
    (rounds pgdir from x : ℕ) (m : ℕ → ℕ) (i : ℕ)
    → Apart pgdir from
    → x + rounds ≤ 1024
    → x ≤ i
    → i < x + rounds
    → copy_entries rounds pgdir from x m (entry_at pgdir i) ≡ m (entry_at from i)
unfolding copy_entries
copy_entries_inside zero pgdir from x m i apart small lo hi = absurd (omega arith)
copy_entries_inside (suc rounds) pgdir from x m i apart small lo hi = elim (ℕ_discrete i x) [
  | yes e ↦ ground (
    arith,
    copy_entries_outside rounds pgdir from (x + 1)
        (update m (entry_at pgdir x) (m (entry_at from x))) (entry_at pgdir i)
        (λ j jlo jhi. omega arith),
  )
  | no ne ↦ ground (
    arith,
    copy_entries_inside rounds pgdir from (x + 1)
        (update m (entry_at pgdir x) (m (entry_at from x))) i apart (omega arith) (omega arith)
        (omega arith),
  )
]

-- The kernel after env_setup_vm has given page `p` to environment `e`.
abbrev pub spaced : (e p : ℕ) → Kernel → Kernel
spaced e p k =
    let a = allocated alloc_zero p k in
    let pgdir = p * 4096 + kernbase in
    record a {
      envs = update k.envs e (record (k.envs e) { env_pgdir = pgdir });
      pages = update a.pages p (inc_ref (a.pages p));
      mem =
          update (copy_entries (1024 - pdx utop) pgdir k.kern_pgdir (pdx utop) a.mem)
            (entry_at pgdir (pdx uvpt)) (p * 4096 + 5);
    }

setup-sum : (p : ℕ) → bit_or (bit_or (p * 4096) pte_p) pte_u ≡ p * 4096 + 5
setup-sum p =
    rw (bit_or_fields 12 p pte_p (omega arith))
      (bit_or_low_field 12 p 1 4 (omega arith) (omega arith))

pub env_setup_vm-ok :
    (k : Kernel) (e p : ℕ) (ps : List ℕ)
    → IsFree k (p ∷ ps)
    → env_setup_vm e k ≡ ok (value 0) (spaced e p k)
unfolding env_setup_vm paddr
env_setup_vm-ok k e p ps v = ground (
  arith,
  page_alloc-some k alloc_zero p v.small v.chain.0 v.chain.1,
  page2kva-ok (allocated alloc_zero p k) p v.small v.chain.1,
  setup-sum p,
)

pub env_setup_vm-exhausted :
    (k : Kernel) (e : ℕ) → IsFree k [] → env_setup_vm e k ≡ ok (error no_mem) k
unfolding env_setup_vm
env_setup_vm-exhausted k e v = ground (arith, page_alloc_pops k alloc_zero [] v)

pub IsFree-spaced :
    (k : Kernel) (e p : ℕ) (ps : List ℕ) → IsFree k (p ∷ ps) → IsFree (spaced e p k) ps
IsFree-spaced k e p ps v =
    let a = IsFree-allocated k alloc_zero p ps v in
    record {
      small = a.small;
      chain = Chain-update k.npages (allocated alloc_zero p k).pages p _ _ ps v.chain.2 a.chain;
      unlinked = λ q o. ground (arith, a.unlinked q);
    }

-- The entry `i` of the page directory of a new environment.
abbrev pub initial_entry : Kernel → ℕ → ℕ → ℕ
initial_entry k p i =
    if i == pdx uvpt
    then p * 4096 + 5
    else if ltb i (pdx utop)
    then 0
    else k.mem (entry_at k.kern_pgdir i)

spaced-mem :
    (k : Kernel) (e p q i : ℕ)
    → k.kern_pgdir ≡ q * 4096 + kernbase
    → q ≢ p
    → i < 1024
    → (spaced e p k).mem (entry_at (p * 4096 + kernbase) i) ≡ initial_entry k p i
unfolding has_flag
spaced-mem k e p q i at ne lt = elim (dec_lt i 955) [
  | yes below ↦ ground (
    arith,
    pdx-utop,
    pdx-uvpt,
    copy_entries_outside (1024 - pdx utop) (p * 4096 + kernbase) k.kern_pgdir (pdx utop)
        (allocated alloc_zero p k).mem (entry_at (p * 4096 + kernbase) i)
        (λ j lo hi. omega (arith, pdx-utop)),
  )
  | no above ↦ ground (
    arith,
    pdx-utop,
    pdx-uvpt,
    copy_entries_inside (1024 - pdx utop) (p * 4096 + kernbase) k.kern_pgdir (pdx utop)
        (allocated alloc_zero p k).mem i (omega arith) (omega (arith, pdx-utop))
        (omega (arith, pdx-utop)) (omega (arith, pdx-utop)),
  )
]

-- With a free page env_setup_vm succeeds: the environment's page directory is that page, which then
-- has one reference, and the other free pages stay free. Its entries below UTOP are empty, the one
-- for UVPT maps the directory itself read-only for the user, and the others are those of the
-- kernel's page directory. The hypothesis: the kernel's page directory fills another page.
pub env_setup_vm_layout :
    (k : Kernel) (e p q : ℕ) (ps : List ℕ)
    → IsFree k (p ∷ ps)
    → k.kern_pgdir ≡ q * 4096 + kernbase
    → q ≢ p
    → let k' = spaced e p k in
      (env_setup_vm e k ≡ ok (value 0) k')
      × IsFree k' ps
      × ((k'.envs e).env_pgdir ≡ p * 4096 + kernbase)
      × ((k'.pages p).pp_ref ≡ 1)
      × ((i : ℕ) → i < 1024 → k'.mem (entry_at (p * 4096 + kernbase) i) ≡ initial_entry k p i)
env_setup_vm_layout k e p q ps v at ne = (
  env_setup_vm-ok k e p ps v,
  IsFree-spaced k e p ps v,
  ground arith,
  ground arith,
  λ i lt. spaced-mem k e p q i at ne lt,
)
