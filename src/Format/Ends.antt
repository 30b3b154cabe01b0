-- ===== src/Format/Ends.antt =====
-- Results of the loops of jos/lib/printfmt.c and jos/kern/monitor.c that are there and have a
-- property.
use cs444_operating_systems.Base.{◌≡◌, refl, Bool, true, false, Option, none, some, if◌then◌else◌}

module _ {A : Type 0} where
  -- There is a result, and it has the property.
  abbrev pub Ends : (A → Type 0) → Option A → Type 0
  Ends P none = ⊥
  Ends P (some a) = P a

  pub Ends-if :
      (P : A → Type 0) (b : Bool) (x y : Option A)
      → (b ≡ true → Ends P x)
      → (b ≡ false → Ends P y)
      → Ends P (elim b [ true ↦ x | false ↦ y ])
  Ends-if P true x y h1 h2 = h1 refl
  Ends-if P false x y h1 h2 = h2 refl

  pub Ends-cond :
      (P : A → Type 0) (b : Bool) (x y : Option A)
      → (b ≡ true → Ends P x)
      → (b ≡ false → Ends P y)
      → Ends P (if b then x else y)
  Ends-cond P true x y h1 h2 = h1 refl
  Ends-cond P false x y h1 h2 = h2 refl

  pub Ends-weaken : (P Q : A → Type 0) (o : Option A) → Ends P o → ((a : A) → P a → Q a) → Ends Q o
  Ends-weaken P Q none h f = h
  Ends-weaken P Q (some a) h f = f a h

  pub Ends-option :
      {B : Type 0} (P : A → Type 0) (o : Option B) (f : B → Option A) (y : Option A)
      → ((b : B) → o ≡ some b → Ends P (f b))
      → (o ≡ none → Ends P y)
      → Ends P (elim o [ some b ↦ f b | none ↦ y ])
  Ends-option P none f y h1 h2 = h2 refl
  Ends-option P (some b) f y h1 h2 = h1 b refl

-- A function of the result has a result if its every case has.
pub Ends-then :
    {A B : Type 0} (P : A → Type 0) (Q : B → Type 0) (o : Option B) (f : B → Option A)
    → Ends Q o
    → ((b : B) → Q b → Ends P (f b))
    → Ends P (elim o [ none ↦ none | some b ↦ f b ])
Ends-then P Q none f e h = absurd e
Ends-then P Q (some b) f e h = h b e
