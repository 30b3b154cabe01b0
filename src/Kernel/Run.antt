-- ===== src/Kernel/Run.antt =====
-- How a call of a kernel function ends, and the commands that the functions are made of.
use cs444_operating_systems.Base.{ℕ, ◌+◌, Bool, true, false, ◌&&◌, leb, ltb, if◌then◌else◌, update}
use cs444_operating_systems.Kernel.{Kernel, PageInfo, Env}

-- It returns, or it panics, or it never returns since it enters user mode in an environment, halts
-- the CPU or stays in the kernel monitor. A loop that is given too little fuel ends in the last.
pub data Run (A : Type 0) : Type 0 where
  ok : A → Kernel → Run A
  panic : Run A
  resume : ℕ → Kernel → Run A
  halt : Kernel → Run A
  monitor : Kernel → Run A
  out_of_fuel : Run A

abbrev pub Cmd : Type 0 → Type 0
Cmd A = Kernel → Run A

abbrev pub pure : {A : Type 0} → A → Cmd A
pure = ok

abbrev pub fail : {A : Type 0} → Cmd A
fail _ = panic

module _ {A B : Type 0} where
  abbrev pub and_then : Run A → (A → Cmd B) → Run B
  and_then (ok a k) f = f a k
  and_then panic f = panic
  and_then (resume e k) f = resume e k
  and_then (halt k) f = halt k
  and_then (monitor k) f = monitor k
  and_then out_of_fuel f = out_of_fuel

  infixl 5 ◌>>=◌ ◌>>◌
  abbrev pub ◌>>=◌ : Cmd A → (A → Cmd B) → Cmd B
  m >>= f = λ k. and_then (m k) f

  abbrev pub ◌>>◌ : Cmd A → Cmd B → Cmd B
  m >> n = m >>= λ _. n

-- An expression over the globals.
abbrev pub gets : {A : Type 0} → (Kernel → A) → Cmd A
gets f k = ok (f k) k

-- An assignment to the globals.
abbrev pub modify : (Kernel → Kernel) → Cmd (Unit {0})
modify f k = ok tt (f k)

-- `*p` and `*p = v` for a word at a kernel virtual address.
abbrev pub load : ℕ → Cmd ℕ
load p = gets λ k. k.mem p

abbrev pub store : ℕ → ℕ → Cmd (Unit {0})
store p v = modify λ k. record k { mem = update k.mem p v }

-- The words of `[p, p + n)` set to zero.
abbrev pub zero_words : ℕ → ℕ → (ℕ → ℕ) → ℕ → ℕ
zero_words p n m a = if leb p a && ltb a (p + n) then 0 else m a

abbrev pub set_page : ℕ → (PageInfo → PageInfo) → Cmd (Unit {0})
set_page p f = modify λ k. record k { pages = update k.pages p (f (k.pages p)) }

abbrev pub set_env : ℕ → (Env → Env) → Cmd (Unit {0})
set_env e f = modify λ k. record k { envs = update k.envs e (f (k.envs e)) }

abbrev pub when : Bool → Cmd (Unit {0}) → Cmd (Unit {0})
when true m = m
when false m = pure tt
