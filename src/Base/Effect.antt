-- ===== src/Base/Effect.antt =====
-- What Rust code can do besides returning: an `anyhow` error as a value, and a panic that unwinds.
-- `Exec S A` is a function over a state `S` with both; what was changed before stays changed.
pub mod Laws
use Prim.Native.String.{String}
use mathlib.Core.List.{List}
use mathlib.Core.Path.{◌≡◌, refl}
use mathlib.Core.Logic.{◌⊎◌, inl, inr}
use Prim.Native.Nat.{ℕ}

-- The payload of a panic, as `downcast_ref::<&'static str>` sees it: `panic!` of a literal, and
-- `panic!` of a formatted message, which is an owned `String`.
pub data Payload : Type 0 where
  static_str owned : String → Payload

-- An `anyhow::Error`: its display, and for `StorageProofsError::FaultySectors` the sectors that a
-- downcast finds.
pub data Error : Type 0 where
  message : String → Error
  faulty_sectors : List ℕ → String → Error

-- `err.to_string()`
abbrev pub display : Error → String
display (message m) = m
display (faulty_sectors _ m) = m

-- `std::result::Result<A, anyhow::Error>`
pub data Result {ℓ} (A : Type ℓ) : Type ℓ where
  ok : A → Result A
  err : Error → Result A

pub Result-cases {ℓ} :
    {A : Type ℓ} (r : Result A) → ((a : A) × (r ≡ ok a)) ⊎ ((e : Error) × (r ≡ err e))
Result-cases (ok a) = inl (a, refl)
Result-cases (err e) = inr (e, refl)

-- How a call ends: it returns, or it unwinds.
pub data Unwind {ℓ} (A : Type ℓ) : Type ℓ where
  returns : A → Unwind A
  panics : Payload → Unwind A

pub Unwind-cases {ℓ} :
    {A : Type ℓ} (u : Unwind A) → ((a : A) × (u ≡ returns a)) ⊎ ((p : Payload) × (u ≡ panics p))
Unwind-cases (returns a) = inl (a, refl)
Unwind-cases (panics p) = inr (p, refl)

abbrev pub Exec {ℓ} : Type ℓ → Type ℓ → Type ℓ
Exec S A = S → Unwind (Result A) × S

module _ {ℓ} {S A : Type ℓ} where
  abbrev pub pure : A → Exec S A
  pure a s = (returns (ok a), s)

  abbrev pub raise : Error → Exec S A
  raise e s = (returns (err e), s)

  abbrev pub panic : Payload → Exec S A
  panic p s = (panics p, s)

  -- A value of type `anyhow::Result`, under `?`.
  abbrev pub lift : Result A → Exec S A
  lift r s = (returns r, s)

module _ {ℓ} {S A B : Type ℓ} where
  abbrev pub continue : Unwind (Result A) → (A → Exec S B) → Exec S B
  continue (returns (ok a)) f s = f a s
  continue (returns (err e)) f s = (returns (err e), s)
  continue (panics p) f s = (panics p, s)

  infixl 10 ◌>>=◌ ◌>>◌
  abbrev pub ◌>>=◌ : Exec S A → (A → Exec S B) → Exec S B
  ◌>>=◌ m f s = let (r, s') = m s in continue r f s'

  abbrev pub ◌>>◌ : Exec S A → Exec S B → Exec S B
  m >> n = m >>= λ _. n
