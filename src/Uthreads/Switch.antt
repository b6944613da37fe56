-- ===== src/Uthreads/Switch.antt =====
-- `switchThreads` of ex2/uthreads.cpp in closed form, when somebody is ready.
use os_huji.Prelude.{ℕ, ◌≡◌, ◌≢◌, some, List, [], ◌∷◌, ◌++◌, arith}
use os_huji.Uthreads.Thread.{
  Priority, red, orange, green, ready, running, Thread, Heap, deref, update, set_state,
  increase_quantom,
}
use os_huji.Uthreads.Scheduler.{
  Sched, Os, ok, queue, set_queue, modify, add_to_ready, switch_threads,
}
use os_huji.Uthreads.Store.{deref-update}
use os_huji.Uthreads.Invariant.{Inv}
use os_huji.Uthreads.Pick.{HigherEmpty, dispatch, Ends, run_thread-Next}

-- At the end of the queue of a priority.
abbrev pub queue_up : ℕ → Priority → Sched → Sched
queue_up a pr s = set_queue pr (queue pr s ++ a ∷ []) s

pub add_to_ready_lem :
    (s : Sched) (a : ℕ) (t : Thread)
    → deref s.heap a ≡ some t
    → add_to_ready (some a) s ≡ ok (queue_up a t.pr s)
unfolding add_to_ready
add_to_ready_lem s a t e = ground arith

-- The heads of the queues are other threads than the running one.
pub next-ne-running :
    {s : Sched} (v : Inv s) (a b : ℕ) (p : Priority) (q : List ℕ)
    → s.running ≡ some a
    → queue p s ≡ b ∷ q
    → b ≢ a
next-ne-running {s} v a b red q e h = λ eq. ground (arith, v.fits a)
next-ne-running {s} v a b orange q e h = λ eq. ground (arith, v.fits a)
next-ne-running {s} v a b green q e h = λ eq. ground (arith, v.fits a)

deref-dispatch :
    (s : Sched) (a b : ℕ) (t : Thread)
    → deref s.heap a ≡ some t
    → b ≢ a
    → deref
        (update
          (update (update s.heap a (set_state ready)) b (set_state running))
          b
          increase_quantom)
        a
      ≡ some (set_state ready t)
deref-dispatch s a b t e h =
    let h1 : Heap = update s.heap a (set_state ready) in
    ground (
      arith,
      deref-update s.heap a a (set_state ready),
      deref-update h1 b a (set_state running),
      deref-update (update h1 b (set_state running)) b a increase_quantom,
    )

-- The state in which `switchThreads` leaves the queues when `b` takes over from `a`.
abbrev pub switched : ℕ → Priority → ℕ → Priority → List ℕ → Sched → Sched
switched a pr b p q s = queue_up a pr (dispatch b (set_queue p q (modify a (set_state ready) s)))

pub switch_threads-Next :
    (os : Os) (s : Sched) (a : ℕ) (t : Thread) (p : Priority) (b : ℕ) (q : List ℕ)
    → Inv s
    → s.running ≡ some a
    → deref s.heap a ≡ some t
    → queue p s ≡ b ∷ q
    → HigherEmpty p s
    → Ends os s (switch_threads os s) (switched a t.pr b p q s)
unfolding switch_threads
switch_threads-Next os s a t red b q v e d h u =
    let s' : Sched = modify a (set_state ready) s in
    ground (
      arith,
      v.total,
      v.small,
      run_thread-Next os s' red b q,
      deref-dispatch s a b t d (next-ne-running v a b red q e h),
      add_to_ready_lem (dispatch b (set_queue red q s')) a (set_state ready t),
    )
switch_threads-Next os s a t orange b q v e d h u =
    let s' : Sched = modify a (set_state ready) s in
    ground (
      arith,
      v.total,
      v.small,
      run_thread-Next os s' orange b q,
      deref-dispatch s a b t d (next-ne-running v a b orange q e h),
      add_to_ready_lem (dispatch b (set_queue orange q s')) a (set_state ready t),
    )
switch_threads-Next os s a t green b q v e d h u =
    let s' : Sched = modify a (set_state ready) s in
    ground (
      arith,
      v.total,
      v.small,
      run_thread-Next os s' green b q,
      deref-dispatch s a b t d (next-ne-running v a b green q e h),
      add_to_ready_lem (dispatch b (set_queue green q s')) a (set_state ready t),
    )
