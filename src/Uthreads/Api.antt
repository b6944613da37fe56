-- ===== src/Uthreads/Api.antt =====
-- The library functions of ex2/uthreads.cpp and its signal handler. A function tests its arguments
-- first and blocks the signal of the timer only behind the tests, so each has its body, in which no
-- handler runs, as a definition of its own; Trace lets signals come in between.
use os_huji.Prelude.{
  lookup, insert, remove, ℕ, ◌+◌, ◌/◌, ◌%◌, ℤ, pos, negsuc, success, fail, Option, Bool, true,
  false, not, none, some, [], ◌∷◌, ◌++◌, length, contains, ◌==◌, if◌then◌else◌,
}
use os_huji.Uthreads.Thread.{
  Priority, orange, State, ready, running, block, entry, handler, suspension, new_thread, deref,
  update, alloc, set_state, increase_quantom, save_buf,
}
use os_huji.Uthreads.Table.{get_next_id}
use os_huji.Uthreads.Scheduler.{
  Sched, Timer, Os, Run, ok, exits, fault, ◌>>=◌, or_fault, is_fail, is_zero, print_error,
  not_found_id, suspend_main, wrong_input, signal_action_error, too_many_threads, thread_error,
  sys_error, modify, add_to_ready, set_time, run_thread, remove_from_ready, remove_from_block,
  switch_threads,
}

-- How control leaves a call: it returns a value to its caller, or `loadBuf` jumps to the context of
-- the running thread. `enters` and `user` say where such a jump ends: in `f`, or behind the
-- handler.
pub data Control : Type 0 where
  returns : ℤ → Control
  jumps : Control
  enters : ℕ → Control
  user : Control

abbrev pub Step : Type 0
Step = Run (Sched × Control)

-- `if (!running->saveBuf()) { switchThreads(); running->loadBuf(); }`
unfoldable pub time_handler : Os → Sched → Step
time_handler os s = do
  a ← or_fault s.running
  s1 ← switch_threads os (modify a (save_buf handler) s)
  ok (s1, jumps)

-- The branch of `uthread_suspend` for the running thread, from behind `saveBuf` on.
unfoldable pub suspend_rest : Os → Sched → Step
suspend_rest os s = do
  a ← or_fault s.running
  let s1 = modify a (set_state block) s
  s2 ← run_thread os (record s1 { blocked = s1.blocked ++ a ∷ []; running = none })
  ok (s2, jumps)

-- What `siglongjmp` to the buffer of the running thread does.
unfoldable pub load_buf : Os → Sched → Step
load_buf os s = do
  a ← or_fault s.running
  t ← or_fault (deref s.heap a)
  elim t.context [
    | entry ↦ ok (s, enters t.f)
    | handler ↦ ok (s, user)
    | suspension ↦ suspend_rest os s
  ]

-- The seconds and microseconds of a quantum: MICRO_TO_SECOND is 1000000.
unfoldable pub split_quantum : ℕ → Timer
split_quantum usecs = record { tv_sec = usecs / 1_000_000; tv_usec = usecs % 1_000_000 }

-- The part of `uthread_init` behind the check of its argument and the signal set-up.
unfoldable pub start_main : Os → ℕ → Sched → Step
start_main os usecs s = do
  let (main_th, heap1) = alloc s.heap (new_thread 0 orange 0 ready)
  s1 ← set_time os (record s {
    timer = split_quantum usecs;
    heap = update (update heap1 main_th (set_state running)) main_th increase_quantom;
    threads = insert 0 main_th s.threads;
    running = some main_th;
    quantum_counter = s.quantum_counter + 1;
  })
  ok (s1, returns success)

-- The three calls that set the handler up; each failure ends the process.
unfoldable pub signals_fail : Os → Bool
signals_fail os =
    if is_fail os.sigemptyset
    then true
    else if not (is_zero os.sigaddset)
    then true
    else is_fail os.sigaction

unfoldable pub uthread_init : Os → ℤ → Sched → Step
uthread_init os (negsuc n) s = ok (print_error wrong_input thread_error s, returns fail)
uthread_init os (pos usecs) s =
    if usecs == 0
    then ok (print_error wrong_input thread_error s, returns fail)
    else if signals_fail os
    then exits 1 (print_error signal_action_error sys_error s).cerr
    else start_main os usecs s

-- A call ends in its tests, or goes on to its body behind SIG_BLOCK, which is `none`.
abbrev pub continue : Option Step → Step → Step
continue none r = r
continue (some r) _ = r

abbrev pub spawn_tests : Sched → Option Step
spawn_tests s =
    if length s.threads == 100
    then some (ok (print_error too_many_threads thread_error s, returns fail))
    else none

-- From SIG_BLOCK on.
abbrev pub spawn_body : Os → ℕ → Priority → Sched → Step
spawn_body os f pr s = do
  let tid = get_next_id s.threads
  let (th, heap1) = alloc s.heap (new_thread tid pr f ready)
  let s1 = record s { heap = heap1; threads = insert tid th s.threads }
  s2 ← elim s.running [ none ↦ run_thread os s1 | some _ ↦ add_to_ready (some th) s1 ]
  ok (s2, returns (pos tid))

unfoldable pub uthread_spawn : Os → ℕ → Priority → Sched → Step
uthread_spawn os f pr s = continue (spawn_tests s) (spawn_body os f pr s)

-- `running->getId()`.
unfoldable pub running_id : Sched → Run ℕ
running_id s = do a ← or_fault s.running; t ← or_fault (deref s.heap a); ok t.tid

-- The branch of `uthread_terminate` for the running thread, which is `temp` at `a`: what follows
-- the switch, and the whole.
unfoldable pub leave : ℕ → ℕ → Sched → Step
leave tid a s = do
  (_, s1) ← remove_from_ready tid s
  s2 ← remove_from_block tid s1
  t ← or_fault (deref s2.heap a)
  ok (record s2 { threads = remove t.tid s2.threads }, jumps)

unfoldable pub terminate_self : Os → ℕ → Sched → Step
terminate_self os tid s = do a ← or_fault s.running; s1 ← switch_threads os s; leave tid a s1

abbrev pub is_ready : State → Bool
is_ready ready = true
is_ready running = false
is_ready block = false

-- The branch for any other thread.
unfoldable pub terminate_other : ℕ → Sched → Step
terminate_other tid s = do
  b ← or_fault (lookup tid s.threads)
  t ← or_fault (deref s.heap b)
  if is_ready t.state
      then (do
        (_, s1) ← remove_from_ready tid s
        ok (record s1 { threads = remove tid s1.threads }, returns success))
      else (do
        s1 ← remove_from_block tid s
        ok (record s1 { threads = remove tid s1.threads }, returns success))

abbrev pub terminate_tests : ℕ → Sched → Option Step
terminate_tests tid s = if tid == 0 then some (exits 0 s.cerr) else elim (lookup tid s.threads) [
  | none ↦ some (ok (print_error not_found_id thread_error s, returns fail))
  | some _ ↦ none
]

-- From SIG_BLOCK on: `at` throws on a missing id.
abbrev pub terminate_body : Os → ℕ → Sched → Step
terminate_body os tid s = do
  id ← running_id s
  if tid == id then terminate_self os tid s else terminate_other tid s

unfoldable pub uthread_terminate : Os → ℕ → Sched → Step
uthread_terminate os tid s = continue (terminate_tests tid s) (terminate_body os tid s)

unfoldable pub suspend_other : ℕ → ℕ → Sched → Step
suspend_other tid b s = do
  t ← or_fault (deref s.heap b)
  (res, s1) ← remove_from_ready t.tid s
  if is_fail res
      then ok (s1, returns fail)
      else (let s2 = modify b (set_state block) s1 in
          ok (record s2 { blocked = s2.blocked ++ b ∷ [] }, returns success))

abbrev pub suspend_tests : ℕ → Sched → Option Step
suspend_tests tid s =
    if tid == 0
    then some (ok (print_error suspend_main thread_error s, returns fail))
    else elim (lookup tid s.threads) [
      | none ↦ some (ok (print_error not_found_id thread_error s, returns fail))
      | some _ ↦ none
    ]

-- From SIG_BLOCK on: `_threads[tid]` of a missing id is a new null pointer.
abbrev pub suspend_body : Os → ℕ → Sched → Step
suspend_body os tid s = do
  id ← running_id s
  if tid == id
      then (do a ← or_fault s.running; suspend_rest os (modify a (save_buf suspension) s))
      else (do b ← or_fault (lookup tid s.threads); suspend_other tid b s)

unfoldable pub uthread_suspend : Os → ℕ → Sched → Step
uthread_suspend os tid s = continue (suspend_tests tid s) (suspend_body os tid s)

abbrev pub resume_tests : ℕ → Sched → Option Step
resume_tests tid s = elim (lookup tid s.threads) [
  | none ↦ some (ok (print_error not_found_id thread_error s, returns fail))
  | some b ↦ if contains b s.blocked then none else some (ok (s, returns fail))
]

-- From SIG_BLOCK on: `at` throws on the position behind the end.
abbrev pub resume_body : ℕ → Sched → Step
resume_body tid s = do
  b ← or_fault (lookup tid s.threads)
  if contains b s.blocked
      then (do
        s1 ← add_to_ready (some b) (modify b (set_state ready) s)
        s2 ← remove_from_block tid s1
        ok (s2, returns success))
      else fault

unfoldable pub uthread_resume : ℕ → Sched → Step
uthread_resume tid s = continue (resume_tests tid s) (resume_body tid s)

unfoldable pub uthread_get_tid : Sched → Step
uthread_get_tid s = do id ← running_id s; ok (s, returns (pos id))

unfoldable pub uthread_get_total_quantums : Sched → ℕ
uthread_get_total_quantums s = s.quantum_counter

unfoldable pub uthread_get_quantums : ℕ → Sched → Step
uthread_get_quantums tid s = elim (lookup tid s.threads) [
  | none ↦ ok (print_error not_found_id thread_error s, returns fail)
  | some b ↦ do t ← or_fault (deref s.heap b); ok (s, returns (pos t.quantom))
]
