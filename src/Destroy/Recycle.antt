-- ===== src/Destroy/Recycle.antt =====
-- env_free of jos/kern/env.c gives back what env_alloc has taken.
use cs444_operating_systems.Base.{
  ℕ, ◌+◌, ◌-◌, ◌*◌, ◌%◌, ◌≤◌, ◌<◌, ◌≡◌, ◌≢◌, refl, true, false, some, List, ◌∷◌, arith, ◌==◌,
  if◌then◌else◌, update, eq→==, ◌∙◌, ap,
}
use mathlib.Core.Path.{subst, sym}
use cs444_operating_systems.Mmu.{kernbase}
use cs444_operating_systems.Kernel.{Kernel, Env, free}
use cs444_operating_systems.Kernel.Run.{ok}
use cs444_operating_systems.Errors.{value}
use cs444_operating_systems.Pages.Free.{has, IsFree, decreffed, IsFree-decreffed}
use cs444_operating_systems.Env.{is_env, nenv, env_alloc}
use cs444_operating_systems.Env.FreeList.{EnvChain, IsTable, EnvChain-update}
use cs444_operating_systems.Env.Space.{pdx-utop, pdx-uvpt, env_setup_vm_layout}
use cs444_operating_systems.Env.Alloc.{started, env_alloc-ok, IsTable-started}
use cs444_operating_systems.Destroy.{env_free}
use cs444_operating_systems.Destroy.Bury.{IsBare, undirected, buried, homed, env_free-ok}

-- Environment `e` is in use, with page `d` as its directory, which only it refers to.
pub record IsUsed (k : Kernel) (e d : ℕ) (es ps : List ℕ) : Type 0 where
  pub index : e < nenv
  pub taken : has e es ≡ false
  pub at : (k.envs e).env_pgdir ≡ d * 4096 + kernbase
  pub exists : d < k.npages
  pub single : (k.pages d).pp_ref ≡ 1
  pub kept : has d ps ≡ false
  pub home : kernbase ≤ k.kern_pgdir

envs-undirected :
    (k : Kernel) (e d : ℕ)
    → (undirected e d k).envs ≡ update k.envs e (record (k.envs e) { env_pgdir = 0 })
envs-undirected k e d = ground arith

-- An environment in front of the chain that its link leads to.
pushed :
    (envs : ℕ → Env) (e : ℕ) (v : Env) (es : List ℕ)
    → has e es ≡ false
    → EnvChain envs v.env_link es
    → EnvChain (update envs e v) (update envs e v e).env_link es
pushed envs e v es out c = rw eq→== (EnvChain-update envs e v v.env_link es out c)

IsTable-buried :
    (k : Kernel) (e d : ℕ) (es : List ℕ)
    → e < nenv
    → has e es ≡ false
    → IsTable k es
    → IsTable (buried e d k) (e ∷ es)
IsTable-buried k e d es lt out t =
    let same : (undirected e d k).env_free_list ≡ k.env_free_list = ground arith in
    let inner : EnvChain (undirected e d k).envs (undirected e d k).env_free_list es =
      subst (λ m. EnvChain m (undirected e d k).env_free_list es) (sym (envs-undirected k e d))
        (subst (λ h. EnvChain (update k.envs e (record (k.envs e) { env_pgdir = 0 })) h es)
          (sym same) (EnvChain-update k.envs e _ k.env_free_list es out t.chain)) in
    record {
      chain = (refl, lt, out, ground arith, pushed (undirected e d k).envs e _ es out inner);
      all = λ x small f. ground (arith, t.all x, envs-undirected k e d);
    }

IsFree-buried :
    (k : Kernel) (e d : ℕ) (ps : List ℕ)
    → d < k.npages
    → (k.pages d).pp_ref ≡ 1
    → has d ps ≡ false
    → IsFree k ps
    → IsFree (buried e d k) (d ∷ ps)
IsFree-buried k e d ps lt single out v =
    let k1 : Kernel = record k { envs = update k.envs e (record (k.envs e) { env_pgdir = 0 }) } in
    let v1 : IsFree k1 ps = record { small = v.small; chain = v.chain; unlinked = v.unlinked } in
    let f = IsFree-decreffed k1 d ps lt (omega arith) (omega arith) out v1 in
    let last : ((k.pages d).pp_ref == 1) ≡ true = rw single refl in
    let f' : IsFree (decreffed d k1) (d ∷ ps) =
      subst (λ b. IsFree (decreffed d k1) (if b then d ∷ ps else ps)) last f in
    record { small = f'.small; chain = f'.chain; unlinked = f'.unlinked }

-- env_free of an environment with nothing mapped below UTOP: the environment is free and the first
-- on the list, its directory is the first free page, and the kernel's address space is in use if the
-- environment was current. The hypothesis: only the environment refers to its directory.
pub env_free_recycles :
    (k : Kernel) (e d : ℕ) (es ps : List ℕ)
    → IsUsed k e d es ps
    → IsBare (k.envs e).env_pgdir k.mem
    → IsTable k es
    → IsFree k ps
    → let k' = buried e d (homed e k) in
      (env_free e k ≡ ok tt k')
      × IsTable k' (e ∷ es)
      × IsFree k' (d ∷ ps)
      × ((k'.envs e).env_status ≡ free)
      × (k'.cr3 ≡ (if is_env e k.curenv then k.kern_pgdir - kernbase else k.cr3))
env_free_recycles k e d es ps u bare t v =
    let h = homed e k in
    let t' : IsTable h es = record { chain = t.chain; all = t.all } in
    let v' : IsFree h ps = record { small = v.small; chain = v.chain; unlinked = v.unlinked } in
    (
      env_free-ok k e d u.home u.at bare u.exists (omega (arith, u.single))
          (omega (arith, u.single)) (v.unlinked d u.kept),
      IsTable-buried h e d es u.index u.taken t',
      IsFree-buried h e d ps u.exists u.single u.kept v',
      ground arith,
      ground arith,
    )

-- env_alloc followed by env_free succeeds and restores both free lists: the same environment and the
-- same page are the first ones again. The hypothesis: the kernel's page directory is not the first
-- free page.
pub env_alloc-env_free :
    (k : Kernel) (e p q parent_id : ℕ) (es ps : List ℕ)
    → IsTable k (e ∷ es)
    → IsFree k (p ∷ ps)
    → k.kern_pgdir ≡ q * 4096 + kernbase
    → q ≢ p
    → let k1 = started e p parent_id k in
      let k2 = buried e p (homed e k1) in
      (env_alloc parent_id k ≡ ok (value 0, some e) k1)
      × (env_free e k1 ≡ ok tt k2)
      × IsTable k2 (e ∷ es)
      × IsFree k2 (p ∷ ps)
env_alloc-env_free k e p q parent_id es ps t v at ne =
    let k1 = started e p parent_id k in
    let layout = env_setup_vm_layout k e p q ps v at ne in
    let v1 : IsFree k1 ps = record {
      small = layout.1.small;
      chain = layout.1.chain;
      unlinked = layout.1.unlinked;
    } in
    let dir : (k1.envs e).env_pgdir ≡ p * 4096 + kernbase = ground arith in
    let bare : IsBare (p * 4096 + kernbase) k1.mem = λ i lt.
      ap (λ (n : ℕ). n % 2) (layout.4 i (omega (arith, pdx-utop)))
      ∙ ground (arith, pdx-utop, pdx-uvpt) in
    let used : IsUsed k1 e p es ps = record {
      index = t.chain.1;
      taken = t.chain.2;
      at = dir;
      exists = v.chain.1;
      single = layout.3;
      kept = v.chain.2;
      home = omega (arith, at);
    } in
    let r =
      env_free_recycles k1 e p es ps used (rw dir bare) (IsTable-started k e p parent_id es t) v1 in
    (env_alloc-ok k e p parent_id ps t.chain.0 v, r.0, r.1, r.2)
