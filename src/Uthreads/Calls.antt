-- ===== src/Uthreads/Calls.antt =====
-- What a caller sees of `uthread_spawn`, `uthread_terminate`, `uthread_suspend` and
-- `uthread_resume` of ex2/uthreads.cpp.
use os_huji.Prelude.{
  lookup, lookup-insert, ℕ, ◌<◌, ◌≡◌, ◌≢◌, true, none, some, [], ◌∷◌, ◌++◌, count, length, contains,
  erase, count-contains, erase-append, count-append, pos, success, arith,
}
use os_huji.Uthreads.Thread.{Priority, ready, block, Thread, new_thread, deref, update, set_state}
use os_huji.Uthreads.Table.{get_next_id}
use os_huji.Uthreads.Scheduler.{Sched, Os, ok, queue}
use os_huji.Uthreads.Api.{returns, uthread_spawn, uthread_suspend, uthread_resume, suspend_other}
use os_huji.Uthreads.Store.{deref-alloc, deref-update}
use os_huji.Uthreads.Ids.{get_next_id_lowest}
use os_huji.Uthreads.Invariant.{
  Inv, Standing, IsActive, running-Standing, keyed-Standing, keyed-tid,
}
use os_huji.Uthreads.Spawn.{spawned, spawned_thread, uthread_spawn_room}
use os_huji.Uthreads.Blocking.{running_id_lem, remove_from_ready_lem, block_ready}
use os_huji.Uthreads.Resuming.{uthread_resume_blocked, unblock}

-- While somebody runs and there are less than 100 threads, a spawn returns an id that nobody has
-- while every smaller one is taken; the new thread is in the table under it, ready, at the end of
-- the queue of its priority, and no other id changes.
pub uthread_spawn_lowest :
    (os : Os) (f : ℕ) (pr : Priority) (s : Sched)
    → Inv s
    → IsActive s
    → length s.threads < 100
    → (id : ℕ) × (s' : Sched) × (uthread_spawn os f pr s ≡ ok (s', returns (pos id)))
      × (lookup id s.threads ≡ none)
      × ((k : ℕ) → k < id → lookup k s.threads ≢ none)
      × (lookup id s'.threads ≡ some (length s.heap))
      × ((k : ℕ) → k ≢ id → lookup k s'.threads ≡ lookup k s.threads)
      × (queue pr s' ≡ queue pr s ++ length s.heap ∷ [])
      × (deref s'.heap (length s.heap) ≡ some (new_thread id pr f ready))
uthread_spawn_lowest os f pr s v act room =
    let id = get_next_id s.threads in
    let lowest = get_next_id_lowest s.threads v.sorted in
    (
      id,
      spawned f pr s,
      uthread_spawn_room os f pr s (omega arith) act,
      lowest.0,
      lowest.1,
      ground (arith, lowest.0, lookup-insert id (length s.heap) id s.threads),
      (λ k ne. ground (arith, lowest.0, lookup-insert id (length s.heap) k s.threads)),
      ground arith,
      unfold new_thread in
          ground (arith, deref-alloc s.heap (spawned_thread f pr s) (length s.heap)),
    )

suspend_ready :
    (os : Os) (tid b : ℕ) (u : Thread) (s : Sched)
    → Inv s
    → IsActive s
    → 0 < tid
    → lookup tid s.threads ≡ some b
    → deref s.heap b ≡ some u
    → u.state ≡ ready
    → uthread_suspend os tid s ≡ ok (block_ready b u.pr s, returns success)
unfolding uthread_suspend suspend_other
suspend_ready os tid b u s v (a, e) pos_tid found at_b is =
    let r : Standing s a = running-Standing v a e in
    let rb : Standing s b = keyed-Standing v b tid found in
    let inside : contains b (queue u.pr s) ≡ true =
      count-contains b (queue u.pr s) (ground (arith, rb.stands, rb.at_address)) in
    ground (
      arith,
      running_id_lem s a r.thread e r.at_address,
      r.keyed,
      r.stands,
      r.at_address,
      keyed-tid v b tid u found at_b,
      remove_from_ready_lem u.tid b u s,
    )

-- While somebody runs, a suspension of a ready thread other than the main one succeeds, and so
-- does a resumption after it. Together they move the thread to the end of its queue: the store,
-- the table, the running thread, the blocked threads and the other queues are as before.
pub suspend-resume :
    (os : Os) (tid b : ℕ) (u : Thread) (s : Sched)
    → Inv s
    → IsActive s
    → 0 < tid
    → lookup tid s.threads ≡ some b
    → deref s.heap b ≡ some u
    → u.state ≡ ready
    → (s1 : Sched) × (s2 : Sched) × (uthread_suspend os tid s ≡ ok (s1, returns success))
      × (uthread_resume tid s1 ≡ ok (s2, returns success))
      × (contains b s1.blocked ≡ true)
      × (queue u.pr s1 ≡ erase b (queue u.pr s))
      × (queue u.pr s2 ≡ erase b (queue u.pr s) ++ b ∷ [])
      × ((k : Priority) → k ≢ u.pr → queue k s2 ≡ queue k s)
      × (s2.blocked ≡ s.blocked)
      × (s2.threads ≡ s.threads)
      × (s2.running ≡ s.running)
      × ((c : ℕ) → deref s2.heap c ≡ deref s.heap c)
suspend-resume os tid b u s v act pos_tid found at_b is =
    let rb : Standing s b = keyed-Standing v b tid found in
    let outside : count b s.blocked ≡ 0 = ground (arith, rb.stands, rb.at_address) in
    let s1 : Sched = block_ready b u.pr s in
    let inside : contains b (s.blocked ++ b ∷ []) ≡ true =
      count-contains b (s.blocked ++ b ∷ []) (ground (arith, count-append b s.blocked (b ∷ []))) in
    let back : erase b (s.blocked ++ b ∷ []) ≡ s.blocked = erase-append b s.blocked outside in
    (
      s1,
      unblock b u.pr s1,
      suspend_ready os tid b u s v act pos_tid found at_b is,
      uthread_resume_blocked tid b (set_state block u) s1 (ground arith)
          (ground (arith, deref-update s.heap b b (set_state block))) inside,
      inside,
      ground arith,
      ground arith,
      (λ k ne. ground arith),
      back,
      ground arith,
      ground arith,
      (λ c. ground (
        arith,
        deref-update s.heap b c (set_state block),
        deref-update (update s.heap b (set_state block)) b c (set_state ready),
      )),
    )
