-- ===== src/Destroy/Bury.antt =====
-- env_free of jos/kern/env.c where nothing is mapped below UTOP.
use cs444_operating_systems.Base.{
  ℕ, zero, suc, ◌+◌, ◌-◌, ◌*◌, ◌%◌, ◌^◌, ◌≤◌, ◌<◌, ◌≡◌, refl, none, some, arith, if◌then◌else◌,
  update,
}
use cs444_operating_systems.Mmu.{utop, kernbase, pdx}
use cs444_operating_systems.Mmu.Entry.{has_flag_p}
use cs444_operating_systems.Kernel.{Kernel, free}
use cs444_operating_systems.Kernel.Run.{ok, when}
use cs444_operating_systems.Pages.{paddr}
use cs444_operating_systems.Pages.Free.{decreffed, page_decref-ok}
use cs444_operating_systems.Pgdir.{entry_at}
use cs444_operating_systems.Pgdir.Walk.{pa2page-ok}
use cs444_operating_systems.Env.{is_env}
use cs444_operating_systems.Switch.{load_space}
use cs444_operating_systems.Switch.Run.{space-ok}
use cs444_operating_systems.Destroy.{free_table, free_tables, free_directory, env_free}

-- No table below UTOP.
abbrev pub IsBare : ℕ → (ℕ → ℕ) → Type 0
IsBare pgdir m = (i : ℕ) → i < pdx utop → m (entry_at pgdir i) % 2 ≡ 0

free_tables-none :
    (rounds : ℕ) (k : Kernel) (pgdir i : ℕ)
    → ((j : ℕ) → i ≤ j → j < i + rounds → k.mem (entry_at pgdir j) % 2 ≡ 0)
    → free_tables rounds pgdir i k ≡ ok tt k
unfolding free_tables free_table
free_tables-none zero k pgdir i none' = refl
free_tables-none (suc rounds) k pgdir i none' = ground (
  arith,
  has_flag_p (k.mem (entry_at pgdir i)),
  none' i (omega arith) (omega arith),
  free_tables-none rounds k pgdir (i + 1) (λ j lo hi. none' j (omega arith) (omega arith)),
)

-- The kernel after the page directory of `e`, page `d`, has been freed.
abbrev pub undirected : (e d : ℕ) → Kernel → Kernel
undirected e d k =
    decreffed d (record k { envs = update k.envs e (record (k.envs e) { env_pgdir = 0 }) })

free_directory-ok :
    (k : Kernel) (e d : ℕ)
    → (k.envs e).env_pgdir ≡ d * 4096 + kernbase
    → d < k.npages
    → 0 < (k.pages d).pp_ref
    → (k.pages d).pp_ref < 2 ^ 16
    → (k.pages d).pp_link ≡ none
    → free_directory e k ≡ ok tt (undirected e d k)
unfolding free_directory paddr
free_directory-ok k e d at lt pos small link =
    let k1 : Kernel = record k { envs = update k.envs e (record (k.envs e) { env_pgdir = 0 }) } in
    ground (arith, pa2page-ok k1 (d * 4096), page_decref-ok k1 d pos small link)

-- The kernel after env_free, but for cr3.
abbrev pub buried : (e d : ℕ) → Kernel → Kernel
buried e d k =
    let u = undirected e d k in
    record u {
      envs = update u.envs e (record (u.envs e) { env_status = free; env_link = u.env_free_list });
      env_free_list = some e;
    }

-- The kernel after env_free has left the address space of `e`.
abbrev pub homed : ℕ → Kernel → Kernel
homed e k = record k { cr3 = if is_env e k.curenv then k.kern_pgdir - kernbase else k.cr3 }

home-ok :
    (k : Kernel) (e : ℕ)
    → kernbase ≤ k.kern_pgdir
    → when (is_env e k.curenv) (load_space k.kern_pgdir) k ≡ ok tt (homed e k)
home-ok k e high = ground (arith, space-ok k k.kern_pgdir high)

pub env_free-ok :
    (k : Kernel) (e d : ℕ)
    → kernbase ≤ k.kern_pgdir
    → (k.envs e).env_pgdir ≡ d * 4096 + kernbase
    → IsBare (k.envs e).env_pgdir k.mem
    → d < k.npages
    → 0 < (k.pages d).pp_ref
    → (k.pages d).pp_ref < 2 ^ 16
    → (k.pages d).pp_link ≡ none
    → env_free e k ≡ ok tt (buried e d (homed e k))
unfolding env_free
env_free-ok k e d high at bare lt pos small link = rw (home-ok k e high) (
    rw
      (free_tables-none (pdx utop) (homed e k) (k.envs e).env_pgdir 0
        (λ j lo hi. bare j (omega arith)))
      (rw (free_directory-ok (homed e k) e d at lt pos small link) refl))
