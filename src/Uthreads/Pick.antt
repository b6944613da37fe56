-- ===== src/Uthreads/Pick.antt =====
-- Which thread runs next: `popReady`, `runThread` and an idle `switchThreads` of ex2/uthreads.cpp in closed
-- form.
use os_huji.Prelude.{
  Table, addresses, ℕ, ◌+◌, ◌≤◌, ◌<◌, ◌≡◌, refl, ◌⊎◌, inl, inr, true, false, none, some, List, [],
  ◌∷◌, length, count, ◌==◌, Bool-cases, arith,
}
use os_huji.Uthreads.Thread.{
  Priority, red, orange, green, ready, running, update, set_state, increase_quantom,
}
use os_huji.Uthreads.Scheduler.{
  Sched, Os, Run, ok, exits, Messages, is_fail, queue, set_queue, modify, set_time, get_ready,
  pop_ready, run_thread, switch_threads, first_thread, pred_size,
}
use os_huji.Uthreads.Invariant.{Inv, running-Standing}

-- The queues before the one that is picked from are empty.
abbrev pub HigherEmpty : Priority → Sched → Type 0
HigherEmpty red s = Unit
HigherEmpty orange s = s.red_q ≡ []
HigherEmpty green s = (s.red_q ≡ []) × (s.orange_q ≡ [])

-- The head of the first queue that is not empty.
pub record Next (s : Sched) : Type 0 where
  pub pr : Priority
  pub address : ℕ
  pub rest : List ℕ
  pub head : queue pr s ≡ address ∷ rest
  pub higher : HigherEmpty pr s

abbrev pub NoneReady : Sched → Type 0
NoneReady s = (s.red_q ≡ []) × (s.orange_q ≡ []) × (s.green_q ≡ [])

pick_from :
    (s : Sched) (r o g : List ℕ)
    → s.red_q ≡ r
    → s.orange_q ≡ o
    → s.green_q ≡ g
    → NoneReady s ⊎ Next s
pick_from s (a ∷ q) o g er eo eg =
    inr (record { pr = red; address = a; rest = q; head = er; higher = tt })
pick_from s [] (a ∷ q) g er eo eg =
    inr (record { pr = orange; address = a; rest = q; head = eo; higher = er })
pick_from s [] [] (a ∷ q) er eo eg =
    inr (record { pr = green; address = a; rest = q; head = eg; higher = (er, eo) })
pick_from s [] [] [] er eo eg = inl (er, eo, eg)

pub ready_cases : (s : Sched) → NoneReady s ⊎ Next s
ready_cases s = pick_from s s.red_q s.orange_q s.green_q refl refl refl

pub pop_ready-Next :
    (s : Sched) (p : Priority) (a : ℕ) (q : List ℕ)
    → 1 < length s.threads
    → queue p s ≡ a ∷ q
    → HigherEmpty p s
    → pop_ready s ≡ ok (some a, set_queue p q s)
unfolding pop_ready get_ready
pop_ready-Next s red a q h e u = ground arith
pop_ready-Next s orange a q h e u = ground arith
pop_ready-Next s green a q h e u = ground arith

pub pop_ready-none : (s : Sched) → 1 < length s.threads → NoneReady s → pop_ready s ≡ ok (none, s)
unfolding pop_ready
pop_ready-none s h u = ground arith

-- `running = tmp; running->setState(RUNNING); running->increaseQuantom(); _quantum_counter++`.
abbrev pub dispatch : ℕ → Sched → Sched
dispatch a s = record s {
  running = some a;
  heap = update (update s.heap a (set_state running)) a increase_quantom;
  quantum_counter = s.quantum_counter + 1;
}

-- The timer of `s` is accepted.
abbrev pub Ticks : Os → Sched → Type 0
Ticks os s = is_fail (os.setitimer s.timer) ≡ false

-- A call that reaches its end in `s'` if the timer of `s` is accepted, and otherwise exits with 1.
abbrev pub Ends {ℓ} : {A : Type ℓ} → Os → Sched → Run A → A → Type ℓ
Ends os s r x =
    (Ticks os s × (r ≡ ok x))
    ⊎ ((is_fail (os.setitimer s.timer) ≡ true) × (m : Messages) × (r ≡ exits 1 m))

first_thread_alone :
    (a : ℕ) (m : Table) → length m ≡ 1 → 0 < count a (addresses m) → first_thread m ≡ some a
first_thread_alone a [] e h = absurd (omega arith)
first_thread_alone a ((k, b) ∷ []) e h = ground arith
first_thread_alone a ((k, b) ∷ (j, c) ∷ m) e h = absurd (omega arith)

pred_size-eq : (n : ℕ) → 1 + n ≤ 100 → pred_size (1 + n) ≡ n
pred_size-eq n h = omega arith

pub run_thread-Next :
    (os : Os) (s : Sched) (p : Priority) (a : ℕ) (q : List ℕ)
    → 1 < length s.threads
    → queue p s ≡ a ∷ q
    → HigherEmpty p s
    → Ends os s (run_thread os s) (dispatch a (set_queue p q s))
unfolding run_thread set_time
run_thread-Next os s red a q h e u = ground (arith, pop_ready-Next s red a q h e u)
run_thread-Next os s orange a q h e u = ground (arith, pop_ready-Next s orange a q h e u)
run_thread-Next os s green a q h e u = ground (arith, pop_ready-Next s green a q h e u)

run_thread_none :
    (os : Os) (s : Sched) (a : ℕ)
    → 1 < length s.threads
    → NoneReady s
    → s.running ≡ some a
    → Ends os s (run_thread os s) (dispatch a s)
unfolding run_thread set_time
run_thread_none os s a h u e = ground (arith, pop_ready-none s h u)

run_thread_alone :
    (os : Os) (s : Sched) (a : ℕ)
    → length s.threads ≡ 1
    → first_thread s.threads ≡ some a
    → Ends os s (run_thread os s) (dispatch a s)
unfolding run_thread pop_ready get_ready set_time
run_thread_alone os s a h e = ground arith

-- Nobody is ready: the running thread goes on, with one more quantum.
pub switch_threads_idle :
    (os : Os) (s : Sched) (a : ℕ)
    → Inv s
    → s.running ≡ some a
    → NoneReady s
    → Ends os s (switch_threads os s) (dispatch a (modify a (set_state ready) s))
unfolding switch_threads
switch_threads_idle os s a v e u =
    let s' : Sched = modify a (set_state ready) s in
    let n : length s.threads ≡ 1 + length s.blocked = ground (arith, v.total) in
    elim (Bool-cases (length s.threads == 1)) [
      | inl one ↦ ground (
        arith,
        run_thread_alone os s' a,
        pred_size-eq (length s.blocked),
        first_thread_alone a s.threads,
        v.small,
        (running-Standing v a e).live,
      )
      | inr more ↦ ground (arith, run_thread_none os s' a, pred_size-eq (length s.blocked), v.small)
    ]
