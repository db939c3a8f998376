-- ===== src/Go.antt =====
-- cgo: the Go side of the bridge, as the Rust side finds it. cgo/registry.go keeps what users register
-- under handles; its lock makes each operation one step. What is registered is a parameter: an `Externs`
-- over a state `U` of its own.
pub mod Handles
pub mod Store
pub mod Chain
pub mod Refines
pub mod Answers
pub mod Batches
use native.Mathlib.Decide.{ℕ_discrete}
use mathlib.Core.Logic.{ite}
use ffi_demo.Base.{ℕ, suc, ◌+◌, ◌%◌, ◌^◌, Bool, Option, none, some, List, [], ◌∷◌}
use ffi_demo.Base.Int.{ℤ}
use ffi_demo.Base.Map.{Map, lookup, insert}

-- How Go code ends: it returns, or it panics and `recover` sees it.
pub data GoEnd {ℓ} (A : Type ℓ) : Type ℓ where
  done : A → GoEnd A
  panicked : GoEnd A

-- An `error` of a store: `blockstore.ErrNotFound`, or any other.
pub data GoError : Type 0 where
  err_not_found other_error : GoError

-- A call of user code, which may change the state `U` and may panic.
abbrev pub GoCall : Type 0 → Type 0 → Type 0
GoCall U A = U → GoEnd A × U

-- `ConsensusFault`
pub record GoFault (Address : Type 0) : Type 0 where
  pub target : Address
  pub epoch : ℤ
  pub fault_type : ℤ

-- The interface `Externs`. A CID is the string of its bytes. `view` returns what it handed to its
-- callback beside its error; `none` in place of a fault is a nil pointer.
pub record Externs (Address U : Type 0) : Type 0 where
  pub get_chain_randomness : ℤ → ℤ → List ℕ → GoCall U (List ℕ × Option GoError)
  pub get_beacon_randomness : ℤ → ℤ → List ℕ → GoCall U (List ℕ × Option GoError)
  pub verify_consensus_fault : List ℕ → List ℕ → List ℕ → GoCall U (Option (GoFault Address) × ℤ)
  pub view : List ℕ → GoCall U (List ℕ × Option GoError)
  pub put : List ℕ → List ℕ → GoCall U (Option GoError)
  pub put_many : List (List ℕ × List ℕ) → GoCall U (Option GoError)
  pub has : List ℕ → GoCall U (Bool × Option GoError)

-- The registry, and the state of the user's code.
pub record GoState (Address U : Type 0) : Type 0 where
  pub registry : Map ℕ (Externs Address U)
  pub next_id : ℕ
  pub user : U

-- `delete` on a map
unfoldable pub delete {ℓ} : {V : Type ℓ} → ℕ → List (ℕ × V) → List (ℕ × V)
delete k [] = []
delete k ((j, v) ∷ m) = ite (ℕ_discrete k j) (delete k m) ((j, v) ∷ delete k m)

module _ {Address U : Type 0} where
  unfoldable pub register : Externs Address U → GoState Address U → ℕ × GoState Address U
  register externs s = (
    s.next_id,
    record s {
      registry = insert ℕ_discrete s.next_id externs s.registry;
      next_id = (s.next_id + 1) % 2 ^ 64;
    },
  )

  unfoldable pub unregister : ℕ → GoState Address U → GoState Address U
  unfolding delete
  unregister handle s = record s { registry = delete handle s.registry }

  -- `Lookup`; `none` is a nil interface
  unfoldable pub lookup_externs : ℕ → GoState Address U → Option (Externs Address U)
  lookup_externs handle s = lookup ℕ_discrete handle s.registry
