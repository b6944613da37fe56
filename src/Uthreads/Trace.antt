-- ===== src/Uthreads/Trace.antt =====
-- Runs of the library of ex2/uthreads.cpp: calls, timer signals and jumps in any order, which is
-- more than the program's control flow allows.
use os_huji.Prelude.{
  lookup, ℕ, ◌≡◌, ◌<◌, ◌≤◌, pos, success, false, inl, inr, Option-cases, none, some, List, [], ◌∷◌,
  length, subst, arith, refl,
}
use os_huji.Uthreads.Scheduler.{
  Sched, Os, Run, ok, exits, fault, ◌>>=◌, is_fail, not_found_id, thread_error,
}
use os_huji.Uthreads.Api.{
  Step, returns, split_quantum, signals_fail, uthread_init, uthread_get_tid,
  uthread_get_total_quantums, uthread_get_quantums, continue,
}
use os_huji.Uthreads.Halves.{
  Request, spawns, terminates, suspends, resumes, call, tests, body, call-body, Event, begins,
  blocks, ticks, jump, asks_tid, asks_total, asks_quantums, step, run, IsTimely, After, Undisturbed,
}
use os_huji.Uthreads.Store.{sum_quantoms}
use os_huji.Uthreads.Invariant.{Inv, Standing, Keeps, IsActive, keyed-Standing, running-Standing}
use os_huji.Uthreads.Running.{time_handler-Keeps}
use os_huji.Uthreads.Suspend.{load_buf-Keeps}
use os_huji.Uthreads.Blocking.{print_error-Keeps, running_id_lem, uthread_suspend-Keeps}
use os_huji.Uthreads.Resuming.{uthread_resume-Keeps}
use os_huji.Uthreads.Spawn.{boot, uthread_spawn-Keeps, uthread_init-boot}
use os_huji.Uthreads.Terminate.{uthread_terminate-Keeps}

call-Keeps :
    (os : Os) (c : Request) (s : Sched) → Inv s → IsActive s → Keeps (λ r. r.0) (call os c s)
call-Keeps os (spawns f pr) s v act = uthread_spawn-Keeps os f pr s v act
call-Keeps os (terminates tid) s v act = uthread_terminate-Keeps os tid s v act
call-Keeps os (suspends tid) s v act = uthread_suspend-Keeps os tid s v act
call-Keeps os (resumes tid) s v act = uthread_resume-Keeps tid s v act

begins-Keeps :
    (os : Os) (c : Request) (s : Sched)
    → Inv s
    → IsActive s
    → Keeps (λ r. r.0) (continue (tests c s) (ok (s, returns success)))
begins-Keeps os c s v act = elim (Option-cases (tests c s)) [
  | inl e ↦ rw e (v, act)
  | inr (r, e) ↦
      let same : call os c s ≡ r = rw (call-body os c s) (rw e refl) in
      rw e (subst (Keeps (λ x. x.0)) same (call-Keeps os c s v act))
]

body-Keeps :
    (os : Os) (c : Request) (s : Sched)
    → Inv s
    → IsActive s
    → tests c s ≡ none
    → Keeps (λ r. r.0) (body os c s)
body-Keeps os c s v act e =
    let same : call os c s ≡ body os c s = rw (call-body os c s) (rw e refl) in
    subst (Keeps (λ x. x.0)) same (call-Keeps os c s v act)

get_tid_lem :
    {s : Sched} (v : Inv s) (act : IsActive s)
    → let r : Standing s act.0 = running-Standing v act.0 act.1 in
      uthread_get_tid s ≡ ok (s, returns (pos r.thread.tid))
unfolding uthread_get_tid
get_tid_lem {s} v (a, e) =
    let r : Standing s a = running-Standing v a e in
    rw (running_id_lem s a r.thread e r.at_address) refl

get_quantums-Keeps :
    (tid : ℕ) (s : Sched) → Inv s → IsActive s → Keeps (λ r. r.0) (uthread_get_quantums tid s)
unfolding uthread_get_quantums
get_quantums-Keeps tid s v act = elim (Option-cases (lookup tid s.threads)) [
  | inl e ↦ ground (arith, print_error-Keeps not_found_id thread_error s v act)
  | inr (b, e) ↦
      let r : Standing s b = keyed-Standing v b tid e in ground (arith, r.at_address, v, act)
]

step-Keeps :
    (os : Os) (e : Event) (s : Sched)
    → Inv s
    → IsActive s
    → IsTimely e s
    → Keeps (λ r. r.0) (step os e s)
step-Keeps os (begins c) s v act h = begins-Keeps os c s v act
step-Keeps os (blocks c) s v act h = body-Keeps os c s v act h
step-Keeps os ticks s v act h = time_handler-Keeps os s v act
step-Keeps os jump s v act h = load_buf-Keeps os s v act
step-Keeps os asks_tid s v act h = rw (get_tid_lem v act) (v, act)
step-Keeps os asks_total s v act h = (v, act)
step-Keeps os (asks_quantums tid) s v act h = get_quantums-Keeps tid s v act

Keeps-bind :
    (r : Step) (k : Sched → Run Sched) (P : Sched → Type 0)
    → Keeps (λ x. x.0) r
    → After P r
    → ((s : Sched) → Inv s → IsActive s → P s → Keeps (λ s'. s') (k s))
    → Keeps (λ s'. s') (r >>= λ x. k x.0)
Keeps-bind (ok (s, c)) k P v p next = next s v.0 v.1 p
Keeps-bind (exits n m) k P v p next = tt
Keeps-bind fault k P v p next = v

-- From a state that satisfies the invariant with a thread running, no sequence of spawns,
-- terminations, suspensions, resumptions, questions, timer signals and jumps meets a null or
-- dangling pointer, a missing key or an empty queue, if no signal between the tests of a call and
-- its SIG_BLOCK changes the answer of the tests: the sequence exits, or ends in such a state again.
pub run-Keeps :
    (os : Os) (es : List Event) (s : Sched)
    → Inv s
    → IsActive s
    → Undisturbed os es s
    → Keeps (λ s'. s') (run os es s)
unfolding run Undisturbed
run-Keeps os [] s v act h = (v, act)
run-Keeps os (e ∷ es) s v act h =
    Keeps-bind (step os e s) (run os es) (Undisturbed os es) (step-Keeps os e s v act h.0) h.1
      (run-Keeps os es)

abbrev pub IsSound : Run Sched → Type 0
IsSound (ok s) =
    (length s.threads ≤ 100)
    × (sum_quantoms s.heap ≡ uthread_get_total_quantums s)
    × (k : ℕ) × (a : ℕ) × (uthread_get_tid s ≡ ok (s, returns (pos k)))
    × (lookup k s.threads ≡ some a)
IsSound (exits n m) = Unit
IsSound fault = ⊥

sound : (r : Run Sched) → Keeps (λ s. s) r → IsSound r
unfolding uthread_get_total_quantums
sound (ok s) (v, act) =
    let r : Standing s act.0 = running-Standing v act.0 act.1 in
    (v.small, v.quantums, r.thread.tid, act.0, get_tid_lem v act, r.keyed)
sound (exits n m) h = tt
sound fault h = h

-- After a first, successful `uthread_init`, no sequence of the other calls, timer signals and jumps
-- faults, if no signal between the tests of a call and its SIG_BLOCK changes the answer of the
-- tests. If the sequence does not exit, there are at most 100 threads then, the total number of
-- quantums is the sum of the quantums of all threads ever created, and `uthread_get_tid` answers
-- an id of the table.
pub run_started :
    (os : Os) (usecs : ℕ) (es : List Event) {s : Sched}
    → 0 < usecs
    → signals_fail os ≡ false
    → is_fail (os.setitimer (split_quantum usecs)) ≡ false
    → uthread_init os (pos usecs) boot ≡ ok (s, returns success)
    → Undisturbed os es s
    → IsSound (run os es s)
run_started os usecs es {s} h signals timer init und =
    let (s1, started, v, act, _, _, _) = uthread_init-boot os usecs h signals timer in
    let same : s1 ≡ s = cc in
    sound _ (run-Keeps os es s (subst Inv same v) (subst IsActive same act) und)
