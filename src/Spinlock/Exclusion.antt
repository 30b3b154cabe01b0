-- ===== src/Spinlock/Exclusion.antt =====
-- What every interleaving of the CPUs keeps.
use cs444_operating_systems.Base.{
  ℕ, ◌≡◌, ◌≢◌, ◌⊎◌, inl, inr, refl, Bool, true, false, none, some, arith, Bool-cases, update,
}
use mathlib.Core.Path.{subst, sym}
use cs444_operating_systems.Kernel.{Spinlock}
use cs444_operating_systems.Spinlock.{holding}
use cs444_operating_systems.Spinlock.System.{
  Pc, outside, spinning, taken, critical, clearing, releasing, panicked, Move, enter, enter_held,
  spin, take, sign, leave, leave_unheld, clear, release, System, Step, step, Reach, start, later,
}

-- Between the xchg that takes the lock and the one that gives it back.
abbrev pub owns : Pc → Bool
owns taken = true
owns critical = true
owns clearing = true
owns releasing = true
owns _ = false

-- The lock carries the name of the CPU.
abbrev pub signed : Pc → Bool
signed critical = true
signed clearing = true
signed _ = false

pub record Inv (lk : Spinlock) (pc : ℕ → Pc) : Type 0 where
  pub locks : (i : ℕ) → owns (pc i) ≡ true → lk.locked ≡ true
  pub owner : lk.locked ≡ true → (i : ℕ) × (owns (pc i) ≡ true)
  pub unique : (i j : ℕ) → owns (pc i) ≡ true → owns (pc j) ≡ true → i ≡ j
  pub signs : (i : ℕ) → signed (pc i) ≡ true → lk.cpu ≡ some i
  pub only : (i : ℕ) → lk.cpu ≡ some i → signed (pc i) ≡ true
  pub calm : (i : ℕ) → pc i ≢ panicked

module _ {lk : Spinlock} {pc : ℕ → Pc} (inv : Inv lk pc) (i : ℕ) where
  -- The CPU keeps what it owns, and the lock stays as it is.
  quiet :
      {p p' : Pc}
      → pc i ≡ p
      → owns p ≡ owns p'
      → signed p ≡ signed p'
      → p' ≢ panicked
      → Inv lk (update pc i p')
  quiet e o s c = record {
    locks = λ j h. ground (arith, inv.locks j);
    owner = λ h. let (j, own) = inv.owner h in (j, ground arith);
    unique = λ a b ha hb. ground (arith, inv.unique a b);
    signs = λ j h. ground (arith, inv.signs j);
    only = λ j h. ground (arith, inv.only j);
    calm = λ j h. ground (arith, inv.calm j);
  }

  take-Inv :
      pc i ≡ spinning → lk.locked ≡ false → Inv (record lk { locked = true }) (update pc i taken)
  take-Inv e h = record {
    locks = λ j o. refl;
    owner = λ o. (i, ground arith);
    unique = λ a b ha hb. ground (arith, inv.locks a, inv.locks b);
    signs = λ j s. ground (arith, inv.signs j);
    only = λ j s. ground (arith, inv.only j);
    calm = λ j p. ground (arith, inv.calm j);
  }

  sign-Inv : pc i ≡ taken → Inv (record lk { cpu = some i }) (update pc i critical)
  sign-Inv e = record {
    locks = λ j o. ground (arith, inv.locks i);
    owner = λ o. (i, ground arith);
    unique = λ a b ha hb. ground (arith, inv.unique a b);
    signs = λ j s. ground (arith, inv.unique i j);
    only = λ j s. ground arith;
    calm = λ j p. ground (arith, inv.calm j);
  }

  clear-Inv : pc i ≡ clearing → Inv (record lk { cpu = none }) (update pc i releasing)
  clear-Inv e = record {
    locks = λ j o. ground (arith, inv.locks i);
    owner = λ o. (i, ground arith);
    unique = λ a b ha hb. ground (arith, inv.unique a b);
    signs = λ j s. ground (arith, inv.unique i j);
    only = λ j s. cc;
    calm = λ j p. ground (arith, inv.calm j);
  }

  release-Inv : pc i ≡ releasing → Inv (record lk { locked = false }) (update pc i outside)
  release-Inv e = record {
    locks = λ j o. ground (arith, inv.unique i j);
    owner = λ o. cc;
    unique = λ a b ha hb. ground (arith, inv.unique a b);
    signs = λ j s. ground (arith, inv.signs j);
    only = λ j s. ground (arith, inv.only j);
    calm = λ j p. ground (arith, inv.calm j);
  }

  -- The lock says `holding` for a CPU exactly while it carries its name.
  holding-signed : holding lk i ≡ true → signed (pc i) ≡ true
  unfolding holding
  holding-signed h = ground (arith, inv.only i)

  signed-holding : signed (pc i) ≡ true → holding lk i ≡ true
  unfolding holding
  signed-holding s = ground (arith, inv.signs i, inv.locks i)

  Move-Inv : {p p' : Pc} {lk' : Spinlock} → pc i ≡ p → Move i lk p lk' p' → Inv lk' (update pc i p')
  Move-Inv e (enter h) = quiet e refl refl (λ q. cc)
  Move-Inv e (enter_held h) = cc (holding-signed h)
  Move-Inv e (spin h) = quiet e refl refl (λ q. cc)
  Move-Inv e (take h) = take-Inv e h
  Move-Inv e sign = sign-Inv e
  Move-Inv e (leave h) = quiet e refl refl (λ q. cc)
  Move-Inv e (leave_unheld h) = absurd (ground (arith, signed-holding))
  Move-Inv e clear = clear-Inv e
  Move-Inv e release = release-Inv e

pub Step-Inv : {s t : System} → Step s t → Inv s.lock s.pc → Inv t.lock t.pc
Step-Inv (step i mv) inv = Move-Inv inv i refl mv

pub Reach-Inv : {s : System} → Reach s → Inv s.lock s.pc
Reach-Inv start = record {
  locks = λ i o. cc;
  owner = λ o. cc;
  unique = λ i j oi oj. cc;
  signs = λ i s. cc;
  only = λ i s. cc;
  calm = λ i p. cc;
}
Reach-Inv (later r st) = Step-Inv st (Reach-Inv r)

-- In every state that CPUs can reach by taking and releasing the lock in any order, two of them are
-- never both between the xchg that takes the lock and the one that gives it back.
pub mutual_exclusion :
    {s : System} → Reach s → (i j : ℕ) → owns (s.pc i) ≡ true → owns (s.pc j) ≡ true → i ≡ j
mutual_exclusion r = (Reach-Inv r).unique

-- In such a state no CPU has panicked, neither in spin_lock (it holds the lock already) nor in
-- spin_unlock (it does not hold the lock), and `holding` is true exactly for a CPU that has
-- returned from spin_lock and not yet begun to give the lock back.
pub never_panics :
    {s : System}
    → Reach s
    → (i : ℕ)
    → (s.pc i ≢ panicked)
      × (holding s.lock i ≡ true → signed (s.pc i) ≡ true)
      × (signed (s.pc i) ≡ true → holding s.lock i ≡ true)
never_panics r i = let inv = Reach-Inv r in (inv.calm i, holding-signed inv i, signed-holding inv i)

-- In such a state a CPU that spins can take the lock at once, or another CPU owns it.
pub no_deadlock :
    {s : System}
    → Reach s
    → (i : ℕ) → s.pc i ≡ spinning
    → (Step s (record { lock = record s.lock { locked = true }; pc = update s.pc i taken }))
      ⊎ ((j : ℕ) × (j ≢ i) × (owns (s.pc j) ≡ true))
no_deadlock {s} r i e = elim (Bool-cases s.lock.locked) [
  | inl locked ↦ let (j, own) = (Reach-Inv r).owner locked in inr (j, λ q. ground arith, own)
  | inr open' ↦ inl (
      step i
        (subst (λ p. Move i s.lock p (record s.lock { locked = true }) taken) (sym e) (take open')))
]
