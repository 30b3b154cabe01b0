-- ===== src/Env/FreeList.antt =====
-- The list of free environments of jos/kern/env.c, as env_init makes it and env_alloc pops it.
use cs444_operating_systems.Base.{
  ℕ, zero, suc, ◌+◌, ◌≤◌, ◌<◌, ◌≡◌, refl, true, false, Option, none, some, List, [], ◌∷◌, arith,
  update, eq→==,
}
use mathlib.Core.Path.{subst}
use cs444_operating_systems.Kernel.{Kernel, Env, free}
use cs444_operating_systems.Kernel.Run.{Run, ok}
use cs444_operating_systems.Pages.Free.{has}
use cs444_operating_systems.Env.{nenv, init_below, env_init}

-- From `head` the links lead through the environments of the list, all distinct, in the table and
-- free, to NULL.
abbrev pub EnvChain : (ℕ → Env) → Option ℕ → List ℕ → Type 0
EnvChain envs head [] = head ≡ none
EnvChain envs head (e ∷ es) =
    (head ≡ some e)
    × (e < nenv)
    × (has e es ≡ false)
    × ((envs e).env_status ≡ free)
    × EnvChain envs (envs e).env_link es

-- The list holds exactly the free environments.
pub record IsTable (k : Kernel) (es : List ℕ) : Type 0 where
  pub chain : EnvChain k.envs k.env_free_list es
  pub all : (e : ℕ) → e < nenv → (k.envs e).env_status ≡ free → has e es ≡ true

pub EnvChain-update :
    (envs : ℕ → Env) (e : ℕ) (v : Env) (head : Option ℕ) (es : List ℕ)
    → has e es ≡ false
    → EnvChain envs head es
    → EnvChain (update envs e v) head es
EnvChain-update envs e v head [] out c = c
EnvChain-update envs e v head (x ∷ es) out c =
    ground (arith, EnvChain-update envs e v (envs x).env_link es)

-- `n` indices from `i` on.
unfoldable pub indices : ℕ → ℕ → List ℕ
indices i zero = []
indices i (suc n) = i ∷ indices (suc i) n

has-indices : (e i n : ℕ) → e < i → has e (indices i n) ≡ false
unfolding indices
has-indices e i zero h = refl
has-indices e i (suc n) h = ground (arith, has-indices e (suc i) n)

has-indices_in : (e i n : ℕ) → i ≤ e → e < i + n → has e (indices i n) ≡ true
unfolding indices
has-indices_in e i zero lo hi = absurd (omega arith)
has-indices_in e i (suc n) lo hi = ground (arith, has-indices_in e (suc i) n)

-- The kernel after one round of the loop of env_init.
abbrev cleared : Kernel → ℕ → Kernel
cleared k i = record k {
  envs =
      update k.envs i
        (record (k.envs i) { env_id = 0; env_status = free; env_link = k.env_free_list });
  env_free_list = some i;
}

-- What the loop of env_init has done when it stops, over a table of `t` environments.
record Cleared (t : ℕ) (k : Kernel) (r : Run (Unit {0})) : Type 0 where
  envs : ℕ → Env
  head : Option ℕ
  ends : r ≡ ok tt (record k { envs = envs; env_free_list = head })
  chain : EnvChain envs head (indices 0 t)
  ids : (e : ℕ) → e < t → (envs e).env_id ≡ 0

module _ (t : ℕ) (small : t ≤ nenv) where
  init_below-Cleared :
      (i n : ℕ) (k : Kernel)
      → i + n ≡ t
      → EnvChain k.envs k.env_free_list (indices i n)
      → ((e : ℕ) → i ≤ e → e < t → (k.envs e).env_id ≡ 0)
      → Cleared t k (init_below i k)
  unfolding init_below indices
  init_below-Cleared zero n k sum c z = record {
    envs = k.envs;
    head = k.env_free_list;
    ends = refl;
    chain = subst (λ j. EnvChain k.envs k.env_free_list (indices 0 j)) (omega arith) c;
    ids = λ e lt. z e (omega arith) lt;
  }
  init_below-Cleared (suc i) n k sum c z =
      let out = has-indices i (suc i) n (omega arith) in
      let rest =
        init_below-Cleared i (suc n) (cleared k i) (omega arith)
          (
            refl,
            omega arith,
            out,
            ground arith,
            rw eq→== (EnvChain-update k.envs i _ k.env_free_list (indices (suc i) n) out c),
          )
          (λ e lo hi. ground (arith, z e)) in
      record {
        envs = rest.envs;
        head = rest.head;
        ends = rest.ends;
        chain = rest.chain;
        ids = rest.ids;
      }

-- After env_init the list holds the environments 0 to 1023 in this order, so all of the table, and
-- all of them are free with id 0. Nothing else has changed.
pub env_init-IsTable :
    (k : Kernel)
    → (envs : ℕ → Env) × (head : Option ℕ) × (env_init k
        ≡ ok tt (record k { envs = envs; env_free_list = head }))
      × IsTable (record k { envs = envs; env_free_list = head }) (indices 0 nenv)
      × ((e : ℕ) → e < nenv → (envs e).env_id ≡ 0)
unfolding env_init
env_init-IsTable k = (
  done.envs,
  done.head,
  done.ends,
  record {
    chain = done.chain;
    all = λ e lt free. has-indices_in e 0 nenv (omega arith) (omega arith);
  },
  done.ids,
)
  where
    k' : Kernel
    k' = record k { env_free_list = none }

    none_left : EnvChain k.envs none (indices nenv 0)
    none_left = unfold indices in refl

    done : Cleared nenv k' (init_below nenv k')
    done =
        init_below-Cleared nenv (omega arith) nenv 0 k' (omega arith) none_left
          (λ e lo hi. absurd (omega arith))
