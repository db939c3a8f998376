-- ===== src/Fvm/Machine/Threads/Live.antt =====
-- How the threads of Fvm/Machine/Threads come to an end.
use native.Mathlib.Decide.{ℕ_discrete}
use mathlib.Core.Path.{subst}
use ffi_demo.Base.{
  ℕ, zero, suc, ◌+◌, ◌*◌, ◌≤◌, ◌<◌, ◌≡◌, ◌⊎◌, inl, inr, refl, ap, Bool, true, false, Option, none,
  some, List, arith,
}
use ffi_demo.Util.World.{World}
use ffi_demo.Fvm.Cgo.{Std}
use ffi_demo.Fvm.Shared.{FvmShared}
use ffi_demo.Fvm.Blockstore.{CidApi}
use ffi_demo.Fvm.Engine.{FvmApi}
use ffi_demo.Fvm.Machine.{Host}
use ffi_demo.Fvm.Machine.Execute.Poison.{Answer, Call}
use ffi_demo.Fvm.Machine.Threads.{
  Phase, idle, called, running, replied, System, update, rejected, Step, calls, rejects, locks,
  unlocks, Steps, stay, more, at_rest,
}
use ffi_demo.Fvm.Machine.Threads.Linear.{Accounted, Explains, threads_linearizable}

module _ {H : Type 0} where
  -- how many steps a thread has before it, at most
  rank : Phase H → ℕ
  rank idle = 3
  rank called = 2
  rank (running h) = 1
  rank (replied reply) = 0

  remaining : ℕ → (ℕ → Phase H) → ℕ
  unfolding rank
  remaining zero f = 0
  remaining (suc n) f = rank (f n) + remaining n f

  remaining_above :
      (n : ℕ) (f : ℕ → Phase H) (i : ℕ) (p : Phase H)
      → n ≤ i
      → remaining n (update f i p) ≡ remaining n f
  unfolding remaining update
  remaining_above zero f i p h = refl
  remaining_above (suc n) f i p h = ground (arith, remaining_above n f i p)

  remaining-update :
      (n : ℕ) (f : ℕ → Phase H) (i : ℕ) (p : Phase H)
      → i < n
      → remaining n (update f i p) + rank (f i) ≡ remaining n f + rank p
  unfolding remaining update
  remaining-update zero f i p h = absurd (omega (arith, h))
  remaining-update (suc n) f i p h =
      ground (arith, remaining-update n f i p, remaining_above n f i p)

  abbrev pub AllReplied : ℕ → (ℕ → Phase H) → Type 0
  AllReplied n f = (i : ℕ) → i < n → (reply : Answer) × (f i ≡ replied reply)

  rank_zero : (p : Phase H) → rank p ≡ 0 → (reply : Answer) × (p ≡ replied reply)
  unfolding rank
  rank_zero idle h = absurd (omega (arith, h))
  rank_zero called h = absurd (omega (arith, h))
  rank_zero (running x) h = absurd (omega (arith, h))
  rank_zero (replied reply) h = (reply, refl)

  replied_or_waiting :
      (n : ℕ) (f : ℕ → Phase H) → AllReplied n f ⊎ ((i : ℕ) × (i < n) × (0 < rank (f i)))
  replied_or_waiting zero f = inl (λ i h. absurd (omega (arith, h)))
  replied_or_waiting (suc n) f = elim (ℕ_discrete (rank (f n)) 0) [
    | no waits ↦ inr (n, omega arith, omega arith)
    | yes none_left ↦ elim (replied_or_waiting n f) [
      | inr (i, below, waits) ↦ inr (i, omega arith, waits)
      | inl all ↦ inl λ i below. elim (ℕ_discrete n i) [
        | yes last ↦
            subst (λ j. (reply : Answer) × (f j ≡ replied reply)) last (rank_zero (f n) none_left)
        | no other ↦ all i (omega arith)
      ]
    ]
  ]

module _ (F : Std) {S : FvmShared} {C : CidApi} {E : Type 0} (api : FvmApi S C E) (call : ℕ → Call)
    (n : ℕ) where
  moved :
      (f : ℕ → Phase (Host E api.Executor)) (i : ℕ) (p q : Phase (Host E api.Executor))
      → i < n
      → f i ≡ p
      → rank q < rank p
      → remaining n (update f i q) < remaining n f
  moved f i p q below h less = omega (arith, remaining-update n f i q below, ap rank h)

  Step-remaining :
      (s t : System (Host E api.Executor))
      → Step F api call n s t
      → remaining n t.phases < remaining n s.phases
  unfolding rank
  Step-remaining s t (calls i below h) = moved s.phases i idle _ below h (omega arith)
  Step-remaining s t (rejects i w below h bad now) = moved s.phases i called _ below h (omega arith)
  Step-remaining s t (locks i below h good free) = moved s.phases i called _ below h (omega arith)
  Step-remaining s t (unlocks i x w below h now) =
      moved s.phases i (running x) _ below h (omega arith)

  Steps-remaining :
      (s : System (Host E api.Executor)) {k : ℕ} (t : System (Host E api.Executor))
      → Steps F api call n s k t
      → k + remaining n t.phases ≤ remaining n s.phases
  Steps-remaining s t stay = omega arith
  Steps-remaining s t (more {t = u} before step) =
      omega (arith, Steps-remaining s u before, Step-remaining u t step)

  remaining_idle : (m : ℕ) → remaining {H = Host E api.Executor} m (λ i. idle) ≡ 3 * m
  unfolding remaining rank
  remaining_idle zero = refl
  remaining_idle (suc m) = omega (arith, remaining_idle m)

  module _ (w0 : World (Host E api.Executor)) (order : List ℕ) (s : System (Host E api.Executor))
      (e : Explains F api call n w0 order s) where
    abbrev CanStep : Type 0
    CanStep = (t : System (Host E api.Executor)) × Step F api call n s t

    unlocks_now : (i : ℕ) (h : Host E api.Executor) → i < n → s.phases i ≡ running h → CanStep
    unlocks_now i h below at = (_, unlocks i h (record w0 { ext = h }) below at refl)

    -- Who has the lock is under it, and can give it back.
    holder-CanStep :
        (j : ℕ) (p : Phase (Host E api.Executor))
        → s.phases j ≡ p
        → Accounted F api call n w0 order (some j) s.host j p
        → CanStep
    holder-CanStep j idle h a = absurd (a.1 refl)
    holder-CanStep j called h a = absurd (a.1 refl)
    holder-CanStep j (running x) h (new, held, found, below) = unlocks_now j x below h
    holder-CanStep j (replied reply) h a = absurd (a.1 refl)

    lock-CanStep :
        (i : ℕ) (o : Option ℕ)
        → i < n
        → s.phases i ≡ called
        → rejected F api (call i) ≡ false
        → s.holder ≡ o
        → CanStep
    lock-CanStep i none below h good free = (_, locks i below h good free)
    lock-CanStep i (some j) below h good held =
        holder-CanStep j (s.phases j) refl
          (subst (λ o. Accounted F api call n w0 order o s.host j (s.phases j)) held (e.each j))

    called-CanStep :
        (i : ℕ) (b : Bool) → i < n → s.phases i ≡ called → rejected F api (call i) ≡ b → CanStep
    called-CanStep i true below h bad = (_, rejects i (record w0 { ext = s.host }) below h bad refl)
    called-CanStep i false below h good = lock-CanStep i s.holder below h good refl

    waiting-CanStep :
        (i : ℕ) (p : Phase (Host E api.Executor)) → i < n → s.phases i ≡ p → 0 < rank p → CanStep
    unfolding rank
    waiting-CanStep i idle below h w = (_, calls i below h)
    waiting-CanStep i called below h w = called-CanStep i (rejected F api (call i)) below h refl
    waiting-CanStep i (running x) below h w = unlocks_now i x below h
    waiting-CanStep i (replied reply) below h w = absurd (omega (arith, w))

  -- The calls of `n` threads on one machine come to an end on every schedule: no run has more than
  -- `3 * n` steps, and a run in which a thread has not come back can be continued, so that no thread
  -- waits for ever for the lock.
  pub threads_progress :
      (w0 : World (Host E api.Executor)) {k : ℕ} (s : System (Host E api.Executor))
      → Steps F api call n (at_rest F api w0.ext) k s
      → (k ≤ 3 * n)
        × (AllReplied n s.phases ⊎ ((t : System (Host E api.Executor)) × Step F api call n s t))
  threads_progress w0 {k = k} s run =
      let (order, later, e, e') = threads_linearizable F api call n w0 s s run stay in
      let spent = Steps-remaining (at_rest F api w0.ext) s run in
      (
        omega (arith, remaining_idle n, spent),
        elim (replied_or_waiting n s.phases) [
          | inl all ↦ inl all
          | inr (i, below, waits) ↦
              inr (waiting-CanStep w0 order s e i (s.phases i) below refl waits)
        ],
      )
