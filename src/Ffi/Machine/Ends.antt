-- ===== src/Ffi/Machine/Ends.antt =====
-- The finalizer of an `FVM`.
use ffi_demo.Base.{ℕ, ◌≡◌, ◌≢◌, none, some, arith}
use ffi_demo.Go.{GoState, unregister, lookup_externs}
use ffi_demo.Go.Handles.{unregister_lookup}
use ffi_demo.Fvm.Machine.{InnerFvmMachine}
use ffi_demo.Ffi.Machine.{Fvm, finalize}

module _ {Address U X : Type 0} where
  -- The finalizer of an `FVM` that has its machine takes the externs' handle out of the registry and no
  -- other, leaves the user's state, and does nothing when it runs again.
  pub finalize_once :
      (f : Fvm X) (m : InnerFvmMachine X) (s : GoState Address U) (other : ℕ)
      → f.executor ≡ some m
      → other ≢ f.handle
      → let (f', s') = finalize f s in
        (f'.executor ≡ none)
        × (lookup_externs f.handle s' ≡ none)
        × (lookup_externs other s' ≡ lookup_externs other s)
        × (s'.user ≡ s.user)
        × (finalize f' s' ≡ (f', s'))
  unfolding finalize unregister
  finalize_once f m s other e apart =
      ground (arith, unregister_lookup f.handle s f.handle, unregister_lookup f.handle s other)
