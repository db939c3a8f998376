-- ===== src/Fvm/Machine/Threads/Linear.antt =====
-- The interleavings of the threads against calls made one after the other.
use native.Mathlib.Decide.{ℕ_discrete}
use mathlib.Core.Logic.{ite}
use mathlib.Core.Path.{subst}
use ffi_demo.Base.{
  ℕ, ◌<◌, ◌≡◌, ◌≢◌, refl, sym, ap, ◌∙◌, true, Option, none, some, List, [], ◌∷◌, ◌++◌, append_assoc,
  arith,
}
use ffi_demo.Util.World.{World}
use ffi_demo.Util.Log.{init_log}
use ffi_demo.Fvm.Cgo.{Std}
use ffi_demo.Fvm.Shared.{FvmShared}
use ffi_demo.Fvm.Blockstore.{CidApi}
use ffi_demo.Fvm.Engine.{FvmApi}
use ffi_demo.Fvm.Machine.{Host, with_executor}
use ffi_demo.Fvm.Machine.Execute.{fvm_machine_execute_message, fvm_machine_flush}
use ffi_demo.Fvm.Machine.Execute.Poison.{Answer, Call, execute, flush, run_call}
use ffi_demo.Fvm.Machine.Threads.{
  Phase, idle, called, running, replied, System, update, rejected, Step, calls, rejects, locks,
  unlocks, Steps, stay, more, at_rest,
}

module _ (F : Std) {S : FvmShared} {C : CidApi} {E : Type 0} (api : FvmApi S C E) where
  -- A call answers and acts by the machine and the Go side alone.
  run_call-ext :
      (c : Call) (w w' : World (Host E api.Executor))
      → w.ext ≡ w'.ext
      → ((run_call F api c w).0 ≡ (run_call F api c w').0)
        × ((run_call F api c w).1.ext ≡ (run_call F api c w').1.ext)
  unfolding run_call fvm_machine_execute_message fvm_machine_flush with_executor init_log
  run_call-ext (execute message chain_len kind) w w' h = ground arith
  run_call-ext flush w w' h = ground arith

  run_call-rejected :
      (c : Call) (w : World (Host E api.Executor))
      → rejected F api c ≡ true
      → (run_call F api c w).1.ext ≡ w.ext
  unfolding run_call rejected fvm_machine_execute_message with_executor init_log
  run_call-rejected (execute message chain_len kind) w h = ground arith
  run_call-rejected flush w h = absurd (cc)

module _ {A : Type 0} where
  update_same : (f : ℕ → A) (i : ℕ) (a : A) → update f i a i ≡ a
  unfolding update
  update_same f i a = ground arith

  update_other : (f : ℕ → A) (i j : ℕ) (a : A) → i ≢ j → update f i a j ≡ f j
  unfolding update
  update_other f i j a h = ground arith

module _ (F : Std) {S : FvmShared} {C : CidApi} {E : Type 0} (api : FvmApi S C E) (call : ℕ → Call)
    (n : ℕ) (w0 : World (Host E api.Executor)) where
  -- The calls of these threads one after the other, the last of them first in the list.
  pub replay : List ℕ → World (Host E api.Executor)
  replay [] = w0
  replay (i ∷ earlier) = (run_call F api (call i) (replay earlier)).1

  -- What the call of the thread answers there.
  pub answer : ℕ → List ℕ → Option Answer
  unfolding replay
  answer i [] = none
  answer i (j ∷ earlier) =
      ite (ℕ_discrete i j) (some (run_call F api (call j) (replay earlier)).0) (answer i earlier)

  -- No thread is in the list twice.
  abbrev pub Distinct : List ℕ → Type 0
  Distinct [] = Unit
  Distinct (i ∷ earlier) = (answer i earlier ≡ none) × Distinct earlier

  -- The threads that have come back are in the list, with their answers; the others are not, and the
  -- one under the lock works on the machine as it is.
  abbrev pub Accounted :
      List ℕ → Option ℕ → Host E api.Executor → ℕ → Phase (Host E api.Executor) → Type 0
  Accounted order holder host i idle = (answer i order ≡ none) × (holder ≢ some i)
  Accounted order holder host i called = (answer i order ≡ none) × (holder ≢ some i)
  Accounted order holder host i (running h) =
      (answer i order ≡ none) × (holder ≡ some i) × (h ≡ host) × (i < n)
  Accounted order holder host i (replied reply) = (answer i order ≡ some reply) × (holder ≢ some i)

  -- The order explains the state: the machine and the Go side are as these calls leave them.
  pub record Explains (order : List ℕ) (s : System (Host E api.Executor)) : Type 0 where
    pub host : s.host ≡ (replay order).ext
    pub distinct : Distinct order
    pub each : (i : ℕ) → Accounted order s.holder s.host i (s.phases i)

  -- The order grows by the threads that come back in a step.
  abbrev Grows : List ℕ → System (Host E api.Executor) → Type 0
  Grows order t = (later : List ℕ) × Explains (later ++ order) t

  updated :
      (order : List ℕ) (holder : Option ℕ) (host : Host E api.Executor)
      (phases : ℕ → Phase (Host E api.Executor)) (i : ℕ) (p : Phase (Host E api.Executor))
      → Accounted order holder host i p
      → ((j : ℕ) → i ≢ j → Accounted order holder host j (phases j))
      → (j : ℕ) → Accounted order holder host j (update phases i p j)
  updated order holder host phases i p here others j = elim (ℕ_discrete i j) [
    | yes same ↦
        subst (λ k. Accounted order holder host k (update phases i p k)) same
          (subst (Accounted order holder host i) (sym (update_same phases i p)) here)
    | no other ↦
        subst (Accounted order holder host j) (sym (update_other phases i j p other))
          (others j other)
  ]

  -- What a thread is owed stays when another one is put on the list.
  listed :
      (order : List ℕ) (holder : Option ℕ) (host : Host E api.Executor) (i j : ℕ)
      (p : Phase (Host E api.Executor))
      → i ≢ j
      → Accounted order holder host j p
      → Accounted (i ∷ order) holder host j p
  unfolding answer
  listed order holder host i j idle h a = ground arith
  listed order holder host i j called h a = ground arith
  listed order holder host i j (running x) h a = ground arith
  listed order holder host i j (replied x) h a = ground arith

  -- ... and when another one takes the lock, or gives it back.
  locked :
      (order : List ℕ) (host : Host E api.Executor) (i j : ℕ) (p : Phase (Host E api.Executor))
      → i ≢ j
      → Accounted order none host j p
      → Accounted order (some i) host j p
  locked order host i j idle h a = ground arith
  locked order host i j called h a = ground arith
  locked order host i j (running x) h a = absurd (cc)
  locked order host i j (replied x) h a = ground arith

  unlocked :
      (order : List ℕ) (host host' : Host E api.Executor) (i j : ℕ)
      (p : Phase (Host E api.Executor))
      → i ≢ j
      → Accounted order (some i) host j p
      → Accounted order none host' j p
  unlocked order host host' i j idle h a = ground arith
  unlocked order host host' i j called h a = ground arith
  unlocked order host host' i j (running x) h a = absurd (ground arith)
  unlocked order host host' i j (replied x) h a = ground arith

  listed_here :
      (order : List ℕ) (i : ℕ)
      → answer i (i ∷ order) ≡ some (run_call F api (call i) (replay order)).0
  unfolding answer
  listed_here order i = ground arith

  module _ (order : List ℕ) (s : System (Host E api.Executor)) (e : Explains order s) where
    known :
        (i : ℕ) (p : Phase (Host E api.Executor))
        → s.phases i ≡ p
        → Accounted order s.holder s.host i p
    known i p h = subst (Accounted order s.holder s.host i) h (e.each i)

    under : (o : Option ℕ) (j : ℕ) → s.holder ≡ o → Accounted order o s.host j (s.phases j)
    under o j h = subst (λ x. Accounted order x s.host j (s.phases j)) h (e.each j)

    -- A call that ends on the machine as it is, is the next in the order.
    replies :
        (i : ℕ) (w : World (Host E api.Executor))
        → answer i order ≡ none
        → w.ext ≡ s.host
        → Distinct (i ∷ order)
          × (answer i (i ∷ order) ≡ some (run_call F api (call i) w).0)
          × ((run_call F api (call i) w).1.ext ≡ (replay (i ∷ order)).ext)
    unfolding replay
    replies i w new now =
        let (same, acts) = run_call-ext F api (call i) w (replay order) (now ∙ e.host) in
        ((new, e.distinct), listed_here order i ∙ ap some (sym same), acts)

    Step-Grows : (t : System (Host E api.Executor)) → Step F api call n s t → Grows order t
    Step-Grows t (calls i below h) =
        let each =
          updated order s.holder s.host s.phases i called (known i idle h) (λ j other. e.each j) in
        ([], record { host = e.host; distinct = e.distinct; each = each })
    Step-Grows t (rejects i w below h bad now) =
        let a = known i called h in
        let (distinct, reply, acts) = replies i w a.0 now in
        let reply' = (run_call F api (call i) w).0 in
        let each =
          updated (i ∷ order) s.holder s.host s.phases i (replied reply') (reply, a.1)
            (λ j other. listed order s.holder s.host i j (s.phases j) other (e.each j)) in
        let host = sym (run_call-rejected F api (call i) w bad ∙ now) ∙ acts in
        (i ∷ [], record { host = host; distinct = distinct; each = each })
    Step-Grows t (locks i below h good free) =
        let a = known i called h in
        let each =
          updated order (some i) s.host s.phases i (running s.host) (a.0, refl, refl, below)
            (λ j other. locked order s.host i j (s.phases j) other (under none j free)) in
        ([], record { host = e.host; distinct = e.distinct; each = each })
    Step-Grows t (unlocks i x w below h now) =
        let (new, held, found, small) = known i (running x) h in
        let (distinct, reply, acts) = replies i w new (now ∙ found) in
        let (reply', after) = run_call F api (call i) w in
        let each =
          updated (i ∷ order) none after.ext s.phases i (replied reply')
            (reply, (λ bad. absurd (cc)))
            (λ j other.
              listed order none after.ext i j (s.phases j) other
                (unlocked order s.host after.ext i j (s.phases j) other (under (some i) j held))) in
        (i ∷ [], record { host = acts; distinct = distinct; each = each })

  Steps-Grows :
      (order : List ℕ) (s : System (Host E api.Executor))
      → Explains order s
      → {k : ℕ} (t : System (Host E api.Executor)) → Steps F api call n s k t
      → Grows order t
  Steps-Grows order s e t stay = ([], e)
  Steps-Grows order s e t (more {t = u} before step) =
      let (later, now) = Steps-Grows order s e u before in
      let (latest, e') = Step-Grows (later ++ order) u now t step in
      (latest ++ later, subst (λ o. Explains o t) (sym (append_assoc latest later order)) e')

  rest-Explains : Explains [] (at_rest F api w0.ext)
  unfolding replay answer
  rest-Explains = record { host = refl; distinct = tt; each = λ i. (refl, λ h. absurd (cc)) }

  -- Whatever the threads have done when a state is reached is explained by an order of the calls that
  -- have come back: one after the other, these calls leave the machine and the Go side as they are, and
  -- give each thread the response that it was given. Whatever is done after that state only adds later
  -- calls to the order, so that a call that comes back before another is made comes before it.
  pub threads_linearizable :
      {k l : ℕ} (s t : System (Host E api.Executor))
      → Steps F api call n (at_rest F api w0.ext) k s
      → Steps F api call n s l t
      → (order later : List ℕ) × Explains order s × Explains (later ++ order) t
  threads_linearizable s t first second =
      let (order, e) = Steps-Grows [] (at_rest F api w0.ext) rest-Explains s first in
      let (later, e') = Steps-Grows (order ++ []) s e t second in (order ++ [], later, e, e')
