-- ===== src/Base/Effect/Laws.antt =====
-- The laws of sequencing.
use mathlib.Core.Path.{◌≡◌, refl}
use ffi_demo.Base.Effect.{Result, ok, err, Unwind, returns, panics, Exec, continue, ◌>>=◌}

module _ {ℓ} {S A B C : Type ℓ} (f : A → Exec S B) (g : B → Exec S C) where
  continue-bind :
      (r : Unwind (Result A)) (s : S) → (continue r f >>= g) s ≡ continue r (λ a. f a >>= g) s
  continue-bind (returns (ok a)) s = refl
  continue-bind (returns (err e)) s = refl
  continue-bind (panics p) s = refl

  -- what follows a block follows its last step
  pub bind_assoc : (m : Exec S A) (s : S) → (m >>= f >>= g) s ≡ (m >>= λ a. f a >>= g) s
  bind_assoc m s = let (r, s') = m s in continue-bind r s'
