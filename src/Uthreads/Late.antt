-- ===== src/Uthreads/Late.antt =====
-- What the unprotected tests of ex2/uthreads.cpp let happen: a thread that is there when a call
-- tests for it may be gone when the call blocks the timer's signal.
use os_huji.Prelude.{lookup, ℕ, ◌≡◌, false, none, List, [], ◌∷◌, ◌++◌, refl, arith, ◌==◌, subst}
use os_huji.Uthreads.Scheduler.{Sched, Os, Run, ok, exits, fault, ◌>>=◌}
use os_huji.Uthreads.Api.{Step, terminate_other}
use os_huji.Uthreads.Halves.{
  Request, spawns, terminates, suspends, resumes, tests, body, Event, begins, blocks, step, run,
  Undisturbed,
}
use os_huji.Uthreads.Invariant.{Inv, Standing, Keeps, IsActive, running-Standing}
use os_huji.Uthreads.Blocking.{running_id_lem}
use os_huji.Uthreads.Trace.{run-Keeps}

-- The thread that a call names.
abbrev pub Names : Request → ℕ → Type 0
Names (spawns f pr) tid = ⊥
Names (terminates t) tid = t ≡ tid
Names (suspends t) tid = t ≡ tid
Names (resumes t) tid = t ≡ tid

running_other :
    {s : Sched} (v : Inv s) (act : IsActive s) (tid : ℕ)
    → lookup tid s.threads ≡ none
    → (tid == (running-Standing v act.0 act.1).thread.tid) ≡ false
running_other {s} v (a, e) tid h =
    let r : Standing s a = running-Standing v a e in ground (arith, r.keyed)

body_missing :
    (os : Os) (c : Request) (tid : ℕ) (s : Sched)
    → Names c tid
    → Inv s
    → IsActive s
    → lookup tid s.threads ≡ none
    → body os c s ≡ fault
unfolding terminate_other
body_missing os (spawns f pr) tid s n v act h = absurd n
body_missing os (terminates t) tid s n v (a, e) h =
    let r : Standing s a = running-Standing v a e in
    let g : lookup t s.threads ≡ none = rw n h in
    rw (running_id_lem s a r.thread e r.at_address)
      (rw (running_other v (a, e) t g) (ground (arith, g)))
body_missing os (suspends t) tid s n v (a, e) h =
    let r : Standing s a = running-Standing v a e in
    let g : lookup t s.threads ≡ none = rw n h in
    rw (running_id_lem s a r.thread e r.at_address)
      (rw (running_other v (a, e) t g) (ground (arith, g)))
body_missing os (resumes t) tid s n v act h =
    let g : lookup t s.threads ≡ none = rw n h in rw g refl

bind_assoc :
    (r : Step) (k l m : Sched → Run Sched)
    → ((s : Sched) → m s ≡ (k s >>= l))
    → (r >>= λ x. m x.0) ≡ ((r >>= λ x. k x.0) >>= l)
bind_assoc (ok (s, c)) k l m h = h s
bind_assoc (exits n t) k l m h = refl
bind_assoc fault k l m h = refl

run-++ :
    (os : Os) (es fs : List Event) (s : Sched) → run os (es ++ fs) s ≡ (run os es s >>= run os fs)
unfolding run
run-++ os [] fs s = refl
run-++ os (e ∷ es) fs s =
    bind_assoc (step os e s) (run os es) (run os fs) (run os (es ++ fs)) (run-++ os es fs)

-- If a call terminates, suspends or resumes a thread that its tests find, and what happens before
-- its SIG_BLOCK removes that thread from the table, the call then faults: `at` throws, or the null
-- pointer that `_threads[tid]` makes is followed.
pub late_call-faults :
    (os : Os) (c : Request) (tid : ℕ) (es : List Event) {s s' : Sched}
    → Names c tid
    → Inv s
    → IsActive s
    → tests c s ≡ none
    → Undisturbed os es s
    → run os es s ≡ ok s'
    → lookup tid s'.threads ≡ none
    → run os (begins c ∷ es ++ blocks c ∷ []) s ≡ fault
unfolding run
late_call-faults os c tid es {s} {s'} n v act t und ran gone =
    let (v', act') : Keeps (λ x. x) (ok s') =
      subst (Keeps (λ x. x)) ran (run-Keeps os es s v act und) in
    rw t (
      rw (run-++ os es (blocks c ∷ []) s)
        (rw ran (rw (body_missing os c tid s' n v' act' gone) refl)))
