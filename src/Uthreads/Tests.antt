-- ===== src/Uthreads/Tests.antt =====
-- Runs of the scheduler model of ex2/uthreads.cpp at concrete inputs.
use os_huji.Prelude.{
  lookup, insert, remove, ℕ, ◌+◌, ◌*◌, ◌<◌, ◌≡◌, ◌≢◌, ◌⊎◌, refl, subst, none, some, List, [], ◌∷◌,
  ◌++◌, count, contains, true, pos, success, arith,
}
use os_huji.Uthreads.Thread.{
  Priority, red, orange, green, ready, running, entry, Thread, new_thread, deref, update,
}
use os_huji.Uthreads.Table.{next_id_from, get_next_id}
use os_huji.Uthreads.Scheduler.{
  Sched, Os, Run, ok, exits, fault, print_error, add_to_ready, set_time, get_ready, pop_ready,
  run_thread, translate_priority, remove_from_ready, remove_from_block, switch_threads, queue,
}
use os_huji.Uthreads.Api.{
  Control, returns, jumps, time_handler, suspend_rest, load_buf, split_quantum, start_main,
  signals_fail, uthread_init, uthread_spawn, running_id, leave, terminate_self, terminate_other,
  uthread_terminate, suspend_other, uthread_suspend, uthread_resume, uthread_get_total_quantums,
  uthread_get_tid,
}
use os_huji.Uthreads.Invariant.{Inv, Keeps, IsActive, count_running}
use os_huji.Uthreads.Spawn.{boot, started, started-Inv, uthread_init-boot}
use os_huji.Uthreads.Halves.{
  Event, spawns, terminates, suspends, resumes, begins, blocks, ticks, jump, asks_tid, run,
  Undisturbed,
}
use os_huji.Uthreads.Trace.{IsSound, run-Keeps, run_started}
use os_huji.Uthreads.Late.{late_call-faults}
use os_huji.Uthreads.Turns.{TakesTurn, time_handler-TakesTurn}
use os_huji.Uthreads.Calls.{uthread_spawn_lowest, suspend-resume}
use os_huji.Uthreads.Gone.{uthread_terminate_gone}

program : Unit {0}
unfolding new_thread update lookup insert remove next_id_from get_next_id print_error add_to_ready
    set_time get_ready pop_ready run_thread translate_priority remove_from_ready remove_from_block
    switch_threads time_handler suspend_rest load_buf split_quantum start_main signals_fail
    uthread_init uthread_spawn running_id leave terminate_self terminate_other uthread_terminate
    suspend_other uthread_suspend uthread_resume uthread_get_total_quantums uthread_get_tid run
    Undisturbed
program = tt

-- Every system call succeeds.
abbrev os : Os
os = record {
  setitimer = λ t. success;
  sigemptyset = success;
  sigaddset = success;
  sigaction = success;
}

abbrev state_of : Run Sched → Sched
state_of (ok s) = s
state_of (exits n m) = boot
state_of fault = boot

-- The state after some events on a quantum of 100 microseconds.
scenario : List Event → Sched
unfolding program
scenario es = state_of (run os es (started 100))

reached :
    (es : List Event) {s : Sched}
    → Undisturbed os es (started 100)
    → run os es (started 100) ≡ ok s
    → Inv s × IsActive s
reached es und e =
    subst (Keeps (λ s. s)) e (run-Keeps os es (started 100) (started-Inv 100) (0, refl) und)

abbrev one_spawned : List Event
one_spawned = begins (spawns 7 green) ∷ blocks (spawns 7 green) ∷ []

one_spawned-Undisturbed : Undisturbed os one_spawned (started 100)
unfolding program
one_spawned-Undisturbed = (tt, (refl, tt))

one_spawned-runs : run os one_spawned (started 100) ≡ ok (scenario one_spawned)
unfolding scenario
one_spawned-runs = refl

-- Thread 1 suspended itself, was resumed, and has just been given the processor.
abbrev resumed : List Event
resumed =
    begins (spawns 7 green)
    ∷ blocks (spawns 7 green)
    ∷ ticks
    ∷ begins (suspends 1)
    ∷ blocks (suspends 1)
    ∷ asks_tid
    ∷ begins (resumes 1)
    ∷ blocks (resumes 1)
    ∷ ticks
    ∷ []

resumed-Undisturbed : Undisturbed os resumed (started 100)
unfolding program
resumed-Undisturbed = (tt, (refl, (tt, (tt, (refl, (tt, (tt, (refl, (tt, tt)))))))))

one_spawned_reached : Inv (scenario one_spawned) × IsActive (scenario one_spawned)
one_spawned_reached = reached one_spawned one_spawned-Undisturbed one_spawned-runs

abbrev spawned_thread_1 : Thread
spawned_thread_1 = record {
  tid = 1;
  pr = green;
  quantom = 0;
  f = 7;
  state = ready;
  context = entry;
}

abbrev main_thread : Thread
main_thread = record { tid = 0; pr = orange; quantom = 1; f = 0; state = running; context = entry }

run-Keeps_example : Keeps (λ s. s) (run os resumed (started 100))
run-Keeps_example =
    run-Keeps os resumed (started 100) (started-Inv 100) (0, refl) resumed-Undisturbed

run_started_example : IsSound (run os resumed (started 100))
unfolding program
run_started_example = run_started os 100 resumed (omega arith) refl refl refl resumed-Undisturbed

-- Main is about to suspend thread 1 when the timer's signal lets that thread terminate itself.
abbrev meanwhile : List Event
meanwhile = ticks ∷ begins (terminates 1) ∷ blocks (terminates 1) ∷ jump ∷ []

meanwhile-Undisturbed : Undisturbed os meanwhile (scenario one_spawned)
unfolding scenario
meanwhile-Undisturbed = (tt, (tt, (refl, (tt, tt))))

late_call-faults_example :
    run os (begins (suspends 1) ∷ meanwhile ++ blocks (suspends 1) ∷ []) (scenario one_spawned)
    ≡ fault
unfolding scenario
late_call-faults_example =
    late_call-faults os (suspends 1) 1 meanwhile refl one_spawned_reached.0 one_spawned_reached.1
      refl meanwhile-Undisturbed refl refl

uthread_init-boot_example :
    (s : Sched) × (uthread_init os (pos 2_500_000) boot ≡ ok (s, returns success))
    × Inv s
    × IsActive s
    × (s.quantum_counter ≡ 1)
    × (s.timer.tv_sec * 1_000_000 + s.timer.tv_usec ≡ 2_500_000)
    × (s.timer.tv_usec < 1_000_000)
unfolding program
uthread_init-boot_example = uthread_init-boot os 2_500_000 (omega arith) refl refl

time_handler-TakesTurn_example :
    (s' : Sched) × (time_handler os (scenario one_spawned) ≡ ok (s', jumps))
    × TakesTurn 0 main_thread green 1 [] (scenario one_spawned) s'
unfolding scenario
time_handler-TakesTurn_example =
    time_handler-TakesTurn os (scenario one_spawned) 0 main_thread green 1 [] one_spawned_reached.0
      refl refl refl refl (refl, refl)

uthread_spawn_lowest_example :
    (id : ℕ) × (s' : Sched) × (uthread_spawn os 8 red (scenario one_spawned)
      ≡ ok (s', returns (pos id)))
    × (lookup id (scenario one_spawned).threads ≡ none)
    × ((k : ℕ) → k < id → lookup k (scenario one_spawned).threads ≢ none)
    × (lookup id s'.threads ≡ some 2)
    × ((k : ℕ) → k ≢ id → lookup k s'.threads ≡ lookup k (scenario one_spawned).threads)
    × (queue red s' ≡ 2 ∷ [])
    × (deref s'.heap 2 ≡ some (new_thread id red 8 ready))
unfolding scenario
uthread_spawn_lowest_example =
    uthread_spawn_lowest os 8 red (scenario one_spawned) one_spawned_reached.0 one_spawned_reached.1
      (omega arith)

suspend-resume_example :
    (s1 : Sched) × (s2 : Sched) × (uthread_suspend os 1 (scenario one_spawned)
      ≡ ok (s1, returns success))
    × (uthread_resume 1 s1 ≡ ok (s2, returns success))
    × (contains 1 s1.blocked ≡ true)
    × (queue green s1 ≡ [])
    × (queue green s2 ≡ 1 ∷ [])
    × ((k : Priority) → k ≢ green → queue k s2 ≡ queue k (scenario one_spawned))
    × (s2.blocked ≡ (scenario one_spawned).blocked)
    × (s2.threads ≡ (scenario one_spawned).threads)
    × (s2.running ≡ (scenario one_spawned).running)
    × ((c : ℕ) → deref s2.heap c ≡ deref (scenario one_spawned).heap c)
unfolding scenario
suspend-resume_example =
    suspend-resume os 1 1 spawned_thread_1 (scenario one_spawned) one_spawned_reached.0
      one_spawned_reached.1 (omega arith) refl refl refl

after_terminate : Sched
unfolding scenario
after_terminate =
    state_of (run os (begins (terminates 1) ∷ blocks (terminates 1) ∷ []) (scenario one_spawned))

uthread_terminate_gone_example :
    (lookup 1 after_terminate.threads ≡ none)
    × ((k : ℕ) → k ≢ 1 → lookup k after_terminate.threads ≡ lookup k (scenario one_spawned).threads)
    × (count 1 after_terminate.red_q
          + count 1 after_terminate.orange_q
          + count 1 after_terminate.green_q
          + count 1 after_terminate.blocked
          + count_running 1 after_terminate.running
        ≡ 0)
    × ((◌≡◌ {A = Control} (returns success) (returns success))
        ⊎ (◌≡◌ {A = Control} (returns success) jumps))
unfolding after_terminate
uthread_terminate_gone_example =
    uthread_terminate_gone os 1 1 (scenario one_spawned) one_spawned_reached.0 one_spawned_reached.1
      (omega arith) refl refl
