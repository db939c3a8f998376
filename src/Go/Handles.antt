-- ===== src/Go/Handles.antt =====
-- The life of a handle in the registry of cgo/registry.go.
use native.Mathlib.Decide.{ℕ_discrete}
use mathlib.Core.Logic.{ite}
use ffi_demo.Base.{ℕ, suc, ◌+◌, ◌^◌, ◌<◌, ◌≡◌, ◌≢◌, refl, ◌∙◌, none, some, List, [], ◌∷◌, arith}
use ffi_demo.Base.Map.{lookup, lookup-insert}
use ffi_demo.Go.{Externs, GoState, delete, register, unregister, lookup_externs}

-- A call of the package by its users.
pub data Op (Address U : Type 0) : Type 0 where
  registers : Externs Address U → Op Address U
  unregisters : ℕ → Op Address U

lookup-delete :
    {V : Type 0} (k j : ℕ) (m : List (ℕ × V))
    → lookup ℕ_discrete j (delete k m) ≡ ite (ℕ_discrete j k) none (lookup ℕ_discrete j m)
unfolding lookup delete
lookup-delete k j [] = ground arith
lookup-delete k j ((i, w) ∷ m) = ground (arith, lookup-delete k j m)

module _ {Address U : Type 0} where
  pub run_op : Op Address U → GoState Address U → GoState Address U
  run_op (registers x) s = (register x s).1
  run_op (unregisters handle) s = unregister handle s

  pub run_ops : List (Op Address U) → GoState Address U → GoState Address U
  run_ops [] s = s
  run_ops (o ∷ ops) s = run_ops ops (run_op o s)

  -- how many handles the calls use up
  abbrev pub registrations : List (Op Address U) → ℕ
  registrations [] = 0
  registrations (registers x ∷ ops) = suc (registrations ops)
  registrations (unregisters h ∷ ops) = registrations ops

  -- No call unregisters the handle.
  abbrev pub Spares : ℕ → List (Op Address U) → Type 0
  Spares h [] = Unit
  Spares h (registers x ∷ ops) = Spares h ops
  Spares h (unregisters j ∷ ops) = (h ≢ j) × Spares h ops

  register_other :
      (x : Externs Address U) (s : GoState Address U) (h : ℕ)
      → h < s.next_id
      → lookup_externs h (register x s).1 ≡ lookup_externs h s
  unfolding lookup_externs register
  register_other x s h below = ground (arith, lookup-insert ℕ_discrete s.next_id h x s.registry)

  pub registered :
      (x : Externs Address U) (s : GoState Address U)
      → lookup_externs (register x s).0 (register x s).1 ≡ some x
  unfolding lookup_externs register
  registered x s = ground (arith, lookup-insert ℕ_discrete s.next_id s.next_id x s.registry)

  pub unregister_lookup :
      (j : ℕ) (s : GoState Address U) (h : ℕ)
      → lookup_externs h (unregister j s) ≡ ite (ℕ_discrete h j) none (lookup_externs h s)
  unfolding lookup_externs unregister
  unregister_lookup j s h = lookup-delete j h s.registry

  unregister_other :
      (j : ℕ) (s : GoState Address U) (h : ℕ)
      → h ≢ j
      → lookup_externs h (unregister j s) ≡ lookup_externs h s
  unregister_other j s h other = ground (arith, unregister_lookup j s h)

  next_id-register :
      (x : Externs Address U) (s : GoState Address U)
      → s.next_id + 1 < 2 ^ 64
      → (register x s).1.next_id ≡ s.next_id + 1
  unfolding register
  next_id-register x s room = omega arith

  -- A call that does not unregister the handle leaves what is registered under it.
  spared :
      (ops : List (Op Address U)) (s : GoState Address U) (h : ℕ)
      → h < s.next_id
      → s.next_id + registrations ops < 2 ^ 64
      → Spares h ops
      → (lookup_externs h (run_ops ops s) ≡ lookup_externs h s)
        × ((run_ops ops s).next_id ≡ s.next_id + registrations ops)
  unfolding run_ops run_op unregister
  spared [] s h below room spares = (refl, omega arith)
  spared (registers x ∷ ops) s h below room spares =
      let one = next_id-register x s (omega arith) in
      let (found, next) = spared ops (register x s).1 h (omega arith) (omega arith) spares in
      (found ∙ register_other x s h below, omega arith)
  spared (unregisters j ∷ ops) s h below room spares =
      let (found, next) = spared ops (unregister j s) h below room spares.1 in
      (found ∙ unregister_other j s h spares.0, next)

  -- A handle that has been given away and is not in the registry never comes back.
  gone :
      (ops : List (Op Address U)) (s : GoState Address U) (h : ℕ)
      → h < s.next_id
      → s.next_id + registrations ops < 2 ^ 64
      → lookup_externs h s ≡ none
      → lookup_externs h (run_ops ops s) ≡ none
  unfolding run_ops run_op unregister
  gone [] s h below room absent = absent
  gone (registers x ∷ ops) s h below room absent =
      let one = next_id-register x s (omega arith) in
      gone ops (register x s).1 h (omega arith) (omega arith) (register_other x s h below ∙ absent)
  gone (unregisters j ∷ ops) s h below room absent =
      gone ops (unregister j s) h below room (ground (arith, unregister_lookup j s h))

  -- Short of 2^64 registrations, what is registered is found under the handle that `register` returned
  -- until that handle is unregistered, whatever else is registered and unregistered meanwhile; from
  -- then on the handle is never found again.
  pub handle_life :
      (x : Externs Address U) (before after : List (Op Address U)) (s : GoState Address U)
      → s.next_id + registrations before + registrations after + 1 < 2 ^ 64
      → Spares (register x s).0 before
      → let (h, t) = register x s in
        (lookup_externs h (run_ops before t) ≡ some x)
        × (lookup_externs h (run_ops after (unregister h (run_ops before t))) ≡ none)
  unfolding register unregister
  handle_life x before after s room spares =
      let (h, t) = register x s in
      let one = next_id-register x s (omega arith) in
      let (found, next) = spared before t h (omega arith) (omega arith) spares in
      let last = run_ops before t in
      (
        found ∙ registered x s,
        gone after (unregister h last) h (omega arith) (omega arith)
            (ground (arith, unregister_lookup h last h)),
      )
