-- ===== src/Base/Try.antt =====
-- A computation of the source that returns or throws, as a value, and what its success tells.
use mathlib.Core.Path.{◌≡◌, refl}
use mathlib.Core.Bool.{Bool, true, false}
use frontend_observability.Base.Tests.{if◌then◌else◌}

pub data Try {ℓ} (E : Type 0) (A : Type ℓ) : Type ℓ where
  done : A → Try E A
  failed : E → Try E A

-- What is done with a result; an error ends the work.
infixl 5 ◌>>=◌
abbrev pub ◌>>=◌ {ℓ κ} : {E : Type 0} {A : Type ℓ} {B : Type κ} → Try E A → (A → Try E B) → Try E B
done a >>= f = f a
failed e >>= f = failed e

module _ {ℓ} {E : Type 0} {A : Type ℓ} where
  pub not_failed : {e : E} {a : A} → failed e ≡ done a → ⊥
  not_failed h = cc

  pub done_injective : {x : Try E A} {a b : A} → x ≡ done a → x ≡ done b → a ≡ b
  done_injective h k = cc

  -- Behind a test that throws.
  pub guard-done :
      (b : Bool) (e : E) {r : Try E A} {a : A}
      → (if b then failed e else r) ≡ done a
      → (b ≡ false) × (r ≡ done a)
  guard-done true e h = absurd (not_failed h)
  guard-done false e h = (refl, h)

pub bind-done {ℓ κ} :
    {E : Type 0} {A : Type ℓ} {B : Type κ} (x : Try E A) {f : A → Try E B} {b : B}
    → (x >>= f) ≡ done b
    → (a : A) × (x ≡ done a) × (f a ≡ done b)
bind-done (done a) h = (a, refl, h)
bind-done (failed e) h = absurd (not_failed h)
