-- ===== src/Uthreads/Halves.antt =====
-- The calls of ex2/uthreads.cpp in two halves, the tests and the body behind SIG_BLOCK, and the
-- events of a run, which may come between them.
use os_huji.Prelude.{ℕ, ◌≡◌, pos, success, Option, none, List, [], ◌∷◌, refl}
use os_huji.Uthreads.Thread.{Priority}
use os_huji.Uthreads.Scheduler.{Sched, Os, Run, ok, exits, fault, ◌>>=◌}
use os_huji.Uthreads.Api.{
  Step, returns, time_handler, load_buf, uthread_get_tid, uthread_get_total_quantums,
  uthread_get_quantums, uthread_spawn, continue, spawn_tests, terminate_tests, suspend_tests,
  resume_tests, spawn_body, uthread_terminate, terminate_body, uthread_suspend, suspend_body,
  uthread_resume, resume_body,
}

pub data Request : Type 0 where
  spawns : ℕ → Priority → Request
  terminates suspends resumes : ℕ → Request

abbrev pub call : Os → Request → Sched → Step
call os (spawns f pr) s = uthread_spawn os f pr s
call os (terminates tid) s = uthread_terminate os tid s
call os (suspends tid) s = uthread_suspend os tid s
call os (resumes tid) s = uthread_resume tid s

abbrev pub tests : Request → Sched → Option Step
tests (spawns f pr) s = spawn_tests s
tests (terminates tid) s = terminate_tests tid s
tests (suspends tid) s = suspend_tests tid s
tests (resumes tid) s = resume_tests tid s

abbrev pub body : Os → Request → Sched → Step
body os (spawns f pr) s = spawn_body os f pr s
body os (terminates tid) s = terminate_body os tid s
body os (suspends tid) s = suspend_body os tid s
body os (resumes tid) s = resume_body tid s

-- A call that nothing interrupts is its tests and then its body.
pub call-body :
    (os : Os) (c : Request) (s : Sched) → call os c s ≡ continue (tests c s) (body os c s)
unfolding uthread_spawn uthread_terminate uthread_suspend uthread_resume
call-body os (spawns f pr) s = refl
call-body os (terminates tid) s = refl
call-body os (suspends tid) s = refl
call-body os (resumes tid) s = refl

-- The events: a call runs its tests, a call runs its body, the timer's signal, a jump, and the
-- functions that only look something up.
pub data Event : Type 0 where
  begins blocks : Request → Event
  ticks jump asks_tid asks_total : Event
  asks_quantums : ℕ → Event

abbrev pub step : Os → Event → Sched → Step
step os (begins c) s = continue (tests c s) (ok (s, returns success))
step os (blocks c) s = body os c s
step os ticks s = time_handler os s
step os jump s = load_buf os s
step os asks_tid s = uthread_get_tid s
step os asks_total s = ok (s, returns (pos (uthread_get_total_quantums s)))
step os (asks_quantums tid) s = uthread_get_quantums tid s

unfoldable pub run : Os → List Event → Sched → Run Sched
run os [] s = ok s
run os (e ∷ es) s = do (s', _) ← step os e s; run os es s'

-- A body runs while the tests of its call would still let it.
abbrev pub IsTimely : Event → Sched → Type 0
IsTimely (blocks c) s = tests c s ≡ none
IsTimely _ s = Unit

abbrev pub After : (Sched → Type 0) → Step → Type 0
After P (ok (s, _)) = P s
After P (exits n m) = Unit
After P fault = Unit

-- No signal changes between the tests and the body of a call what the tests have seen.
unfoldable pub Undisturbed : Os → List Event → Sched → Type 0
Undisturbed os [] s = Unit
Undisturbed os (e ∷ es) s = IsTimely e s × After (Undisturbed os es) (step os e s)
