-- ===== src/Examples/ThreadRuns.antt =====
-- Two threads on one machine: the second gets the lock first.
use native.Mathlib.Decide.{ℕ_discrete}
use ffi_demo.Base.{ℕ, zero, suc, ◌*◌, ◌≤◌, ◌⊎◌, refl, false, none, some, List, [], ◌++◌, arith}
use ffi_demo.Util.World.{World}
use ffi_demo.Fvm.Machine.{Host}
use ffi_demo.Fvm.Machine.Execute.Poison.{Call, execute, flush, run_call}
use ffi_demo.Fvm.Machine.Threads.{
  idle, called, running, replied, System, update, rejected, Step, calls, locks, unlocks, Steps,
  stay, more, at_rest,
}
use ffi_demo.Fvm.Machine.Threads.Linear.{Explains, threads_linearizable}
use ffi_demo.Fvm.Machine.Threads.Live.{AllReplied, threads_progress}
use ffi_demo.Examples.Concrete.{std, api, machine_world}

abbrev call : ℕ → Call
call zero = execute [] 5 0
call (suc i) = flush

abbrev start : World (Host ℕ ℕ)
start = machine_world false

-- Both threads have called, and the second is under the lock.
abbrev contended : System (Host ℕ ℕ)
contended = record {
  holder = some 1;
  host = start.ext;
  phases = update (update (update (λ i. idle) 0 called) 1 called) 1 (running start.ext);
}

contended_run : Steps std api call 2 (at_rest std api start.ext) 3 contended
unfolding update rejected ℕ_discrete
contended_run =
    more (more (more stay (calls 0 (omega arith) refl)) (calls 1 (omega arith) refl))
      (locks 1 (omega arith) refl refl refl)

abbrev flushed : World (Host ℕ ℕ)
flushed = (run_call std api flush start).1

abbrev second_back : System (Host ℕ ℕ)
second_back = record {
  holder = none;
  host = flushed.ext;
  phases = update contended.phases 1 (replied (run_call std api flush start).0);
}

last_step : Steps std api call 2 contended 1 second_back
unfolding update ℕ_discrete
last_step = more stay (unlocks 1 start.ext start (omega arith) refl refl)

threads_linearizable_example :
    (order later : List ℕ) × Explains std api call 2 start order contended
    × Explains std api call 2 start (later ++ order) second_back
threads_linearizable_example =
    threads_linearizable std api call 2 start contended second_back contended_run last_step

threads_progress_example :
    (3 ≤ 3 * 2)
    × (AllReplied 2 contended.phases ⊎ ((t : System (Host ℕ ℕ)) × Step std api call 2 contended t))
threads_progress_example = threads_progress std api call 2 start contended contended_run
