-- ===== src/Uthreads/Scheduler.antt =====
-- The state of ex2/uthreads.cpp and its internal functions. A null or dangling pointer, an
-- exception of `at` and `ready[pr][0]` of an empty queue are `fault`; `exit` ends the process.
use os_huji.Prelude.{
  Table, lookup, ℕ, ◌+◌, ◌-◌, ◌%◌, ◌^◌, ℤ, success, fail, Bool, true, false, not, Option, none,
  some, List, [], ◌∷◌, ◌++◌, length, erase, contains, ◌==◌, ltb, if◌then◌else◌,
}
use os_huji.Uthreads.Thread.{
  Priority, red, orange, green, ready, running, Thread, Heap, deref, update, set_state,
  increase_quantom,
}

-- The cases of `printError`, and its two prefixes.
pub data ErrorKind : Type 0 where
  not_found_id suspend_main set_time_error wrong_input signal_action_error too_many_threads :
      ErrorKind

pub data Prefix : Type 0 where
  thread_error sys_error : Prefix

abbrev pub Messages : Type 0
Messages = List (Prefix × ErrorKind)

-- `it_value` and `it_interval` of `_timer`, which always agree.
pub record Timer : Type 0 where
  pub tv_sec : ℕ
  pub tv_usec : ℕ

pub record Sched : Type 0 where
  pub heap : Heap
  pub red_q : List ℕ
  pub orange_q : List ℕ
  pub green_q : List ℕ
  pub blocked : List ℕ
  pub running : Option ℕ
  pub threads : Table
  pub quantum_counter : ℕ
  pub timer : Timer
  pub cerr : Messages

-- What the operating system answers: the return codes of the calls that the library makes.
pub record Os : Type 0 where
  pub setitimer : Timer → ℤ
  pub sigemptyset : ℤ
  pub sigaddset : ℤ
  pub sigaction : ℤ

pub data Run {ℓ} (A : Type ℓ) : Type ℓ where
  ok : A → Run A
  exits : ℕ → Messages → Run A
  fault : Run A

infixl 5 ◌>>=◌
abbrev pub ◌>>=◌ {ℓ ℓ'} : {A : Type ℓ} → {B : Type ℓ'} → Run A → (A → Run B) → Run B
ok a >>= k = k a
exits n m >>= k = exits n m
fault >>= k = fault

abbrev pub or_fault {ℓ} : {A : Type ℓ} → Option A → Run A
or_fault none = fault
or_fault (some a) = ok a

abbrev pub is_fail : ℤ → Bool
is_fail (ℤ.pos n) = false
is_fail (ℤ.negsuc n) = n == 0

abbrev pub is_zero : ℤ → Bool
is_zero (ℤ.pos n) = n == 0
is_zero (ℤ.negsuc n) = false

unfoldable pub print_error : ErrorKind → Prefix → Sched → Sched
print_error kind pre s = record s { cerr = s.cerr ++ (pre, kind) ∷ [] }

abbrev pub queue : Priority → Sched → List ℕ
queue red s = s.red_q
queue orange s = s.orange_q
queue green s = s.green_q

abbrev pub set_queue : Priority → List ℕ → Sched → Sched
set_queue red q s = record s { red_q = q }
set_queue orange q s = record s { orange_q = q }
set_queue green q s = record s { green_q = q }

abbrev pub modify : ℕ → (Thread → Thread) → Sched → Sched
modify a g s = record s { heap = update s.heap a g }

-- `addToReady` of a pointer.
unfoldable pub add_to_ready : Option ℕ → Sched → Run Sched
add_to_ready none s = ok s
add_to_ready (some a) s = do
  t ← or_fault (deref s.heap a)
  ok (set_queue t.pr (queue t.pr s ++ a ∷ []) s)

unfoldable pub set_time : Os → Sched → Run Sched
set_time os s =
    if is_fail (os.setitimer s.timer)
    then exits 1 (print_error set_time_error sys_error s).cerr
    else ok s

-- `getReady`: the first of a queue that is not empty, taken out.
unfoldable pub get_ready : Priority → Sched → Run (Option ℕ × Sched)
get_ready p s = elim (queue p s) [ [] ↦ fault | a ∷ q ↦ ok (some a, set_queue p q s) ]

abbrev pub is_empty : List ℕ → Bool
is_empty [] = true
is_empty (x ∷ xs) = false

-- `_threads.begin()->second`.
abbrev pub first_thread : Table → Option ℕ
first_thread [] = none
first_thread ((j, a) ∷ m) = some a

unfoldable pub pop_ready : Sched → Run (Option ℕ × Sched)
pop_ready s =
    if ltb 1 (length s.threads)
    then (if not (is_empty s.red_q)
        then get_ready red s
        else if not (is_empty s.orange_q)
        then get_ready orange s
        else if not (is_empty s.green_q)
        then get_ready green s
        else ok (none, s))
    else ok (first_thread s.threads, s)

-- The new value of `running` in `runThread`.
abbrev pub or_else : Option ℕ → Option ℕ → Option ℕ
or_else none old = old
or_else (some a) old = some a

unfoldable pub run_thread : Os → Sched → Run Sched
run_thread os s = do
  (tmp, s1) ← pop_ready s
  a ← or_fault (or_else tmp s1.running)
  set_time os (record s1 {
    running = some a;
    heap = update (update s1.heap a (set_state running)) a increase_quantom;
    quantum_counter = s1.quantum_counter + 1;
  })

-- The priority of the thread, which is the index of its queue.
unfoldable pub translate_priority : ℕ → Sched → Run Priority
translate_priority tid s = do
  a ← or_fault (lookup tid s.threads)
  t ← or_fault (deref s.heap a)
  ok t.pr

unfoldable pub remove_from_ready : ℕ → Sched → Run (ℤ × Sched)
remove_from_ready tid s = do
  pr ← translate_priority tid s
  a ← or_fault (lookup tid s.threads)
  if contains a (queue pr s)
      then ok (success, set_queue pr (erase a (queue pr s)) s)
      else ok (fail, s)

-- The loop looks the thread up at each entry that it visits, so not at all in an empty vector.
unfoldable pub remove_from_block : ℕ → Sched → Run Sched
remove_from_block tid s = elim s.blocked [
  | [] ↦ ok s
  | b ∷ bs ↦ do a ← or_fault (lookup tid s.threads); ok (record s { blocked = erase a s.blocked })
]

-- `n - 1` on `size_t`.
abbrev pub pred_size : ℕ → ℕ
pred_size n = (n + 2 ^ 64 - 1) % 2 ^ 64

-- `tmp->setState(READY)` unless `tmp` is null.
abbrev pub ready_if : Option ℕ → Sched → Sched
ready_if none s = s
ready_if (some a) s = modify a (set_state ready) s

unfoldable pub switch_threads : Os → Sched → Run Sched
switch_threads os s = do
  let tmp = s.running
  s1 ← run_thread os (ready_if tmp s)
  if not (pred_size (length s1.threads) == length s1.blocked) then add_to_ready tmp s1 else ok s1
