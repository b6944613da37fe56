-- ===== src/Uthreads/Gone.antt =====
-- What is left of a thread after `uthread_terminate` of ex2/uthreads.cpp.
use os_huji.Prelude.{
  lookup, remove, lookup-remove, count-remove, ℕ, ◌+◌, ◌<◌, ◌≡◌, ◌≢◌, refl, ◌⊎◌, inl, none, some,
  subst, count, success, arith,
}
use os_huji.Uthreads.Thread.{State, ready, running, block, Thread, deref}
use os_huji.Uthreads.Scheduler.{Sched, Os, ok, exits, fault}
use os_huji.Uthreads.Api.{
  Step, Control, returns, jumps, terminate_self, terminate_other, uthread_terminate,
}
use os_huji.Uthreads.Invariant.{
  Inv, Standing, Keeps, IsActive, count_running, running-Standing, keyed-tid,
}
use os_huji.Uthreads.Pick.{Next}
use os_huji.Uthreads.Suspend.{main_waits}
use os_huji.Uthreads.Blocking.{running_id_lem}
use os_huji.Uthreads.Lifetime.{thread_at, terminate_ready, terminate_blocked}
use os_huji.Uthreads.Terminate.{terminate_self-Next, uthread_terminate-Keeps}

-- A call that goes on has taken the id out of the table, and returned SUCCESS or jumped.
abbrev Removes : ℕ → Sched → Step → Type 0
Removes tid s (ok (s', c)) =
    (s'.threads ≡ remove tid s.threads) × ((c ≡ returns success) ⊎ (c ≡ jumps))
Removes tid s (exits n m) = Unit
Removes tid s fault = Unit

other-Removes :
    (tid b : ℕ) (s : Sched) (v : Inv s) (found : lookup tid s.threads ≡ some b) (pos_tid : 0 < tid)
    (a : ℕ)
    → s.running ≡ some a
    → b ≢ a
    → Removes tid s (terminate_other tid s)
other-Removes tid b s v found pos_tid a e ne = go r.thread.state refl
  where
    r : Standing s b
    r = thread_at tid b s v found pos_tid

    go : (st : State) → r.thread.state ≡ st → Removes tid s (terminate_other tid s)
    go ready is = rw (terminate_ready tid b s v found pos_tid is) (ground arith, inl refl)
    go block is = rw (terminate_blocked tid b s v found pos_tid is) (refl, inl refl)
    go running is = absurd (ground (arith, r.stands))

self-Removes :
    (os : Os) (s : Sched) (a : ℕ) (v : Inv s)
    → s.running ≡ some a
    → (t : Thread) → deref s.heap a ≡ some t
    → 0 < t.tid
    → Removes t.tid s (terminate_self os t.tid s)
self-Removes os s a v e t d other =
    let n : Next s = main_waits v a e (λ q. ground (arith, keyed-tid v a 0 t, v.main.found)) in
    ground (arith, terminate_self-Next os s a t n.pr n.address n.rest v e d n.head n.higher other)

uthread_terminate-Removes :
    (os : Os) (tid b : ℕ) (s : Sched)
    → Inv s
    → IsActive s
    → 0 < tid
    → lookup tid s.threads ≡ some b
    → Removes tid s (uthread_terminate os tid s)
unfolding uthread_terminate
uthread_terminate-Removes os tid b s v (a, e) pos_tid found =
    let r : Standing s a = running-Standing v a e in
    ground (
      arith,
      running_id_lem s a r.thread e r.at_address,
      self-Removes os s a v e r.thread r.at_address,
      other-Removes tid b s v found pos_tid a e,
      keyed-tid v b tid r.thread found,
      r.at_address,
    )

-- After a termination, while somebody runs, of a thread of the table other than the main one, the
-- caller itself included, its id is free and every other id is as before, its thread stands in no
-- queue and does not run, and the call has returned SUCCESS or jumped to another thread.
pub uthread_terminate_gone :
    (os : Os) (tid b : ℕ) (s : Sched) {s' : Sched} {c : Control}
    → Inv s
    → IsActive s
    → 0 < tid
    → lookup tid s.threads ≡ some b
    → uthread_terminate os tid s ≡ ok (s', c)
    → (lookup tid s'.threads ≡ none)
      × ((k : ℕ) → k ≢ tid → lookup k s'.threads ≡ lookup k s.threads)
      × (count b s'.red_q
            + count b s'.orange_q
            + count b s'.green_q
            + count b s'.blocked
            + count_running b s'.running
          ≡ 0)
      × ((c ≡ returns success) ⊎ (c ≡ jumps))
uthread_terminate_gone os tid b s {s'} {c} v act pos_tid found h =
    let gone : Removes tid s (ok (s', c)) =
      subst (Removes tid s) h (uthread_terminate-Removes os tid b s v act pos_tid found) in
    let kept : Inv s' × IsActive s' =
      subst (Keeps (λ r. r.0)) h (uthread_terminate-Keeps os tid s v act) in
    (
      ground (arith, gone, lookup-remove 0 tid tid s.threads v.sorted),
      (λ k ne. ground (arith, gone, lookup-remove 0 tid k s.threads v.sorted)),
      ground (arith, gone, kept.0.fits b, v.fits b, count-remove tid b b s.threads found),
      gone.1,
    )
