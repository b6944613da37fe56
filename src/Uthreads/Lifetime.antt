-- ===== src/Uthreads/Lifetime.antt =====
-- `uthread_spawn` and `uthread_terminate` of ex2/uthreads.cpp keep the invariant.
use os_huji.Prelude.{
  lookup, remove, remove-IsFrom, lookup-remove, count-remove, length-remove, ℕ, ◌<◌, ◌≡◌, ◌≢◌, refl,
  true, some, contains, erase, success, count-contains, count-erase-hit, erase_absent, length-erase,
  arith,
}
use os_huji.Uthreads.Thread.{Priority, State, ready, running, block}
use os_huji.Uthreads.Scheduler.{Sched, ok, queue, set_queue}
use os_huji.Uthreads.Api.{returns, jumps, leave, terminate_other}
use os_huji.Uthreads.Invariant.{Inv, Standing, Keeps, keyed-Standing, keyed-tid}
use os_huji.Uthreads.Blocking.{remove_from_ready_lem, remove_from_block_lem}

-- A ready thread leaves its queue and the table.
abbrev pub drop_ready : ℕ → ℕ → Priority → Sched → Sched
drop_ready tid b p s = record (set_queue p (erase b (queue p s)) s) {
  threads = remove tid s.threads;
}

-- A blocked thread leaves the blocked ones and the table.
abbrev pub drop_blocked : ℕ → ℕ → Sched → Sched
drop_blocked tid b s = record s { blocked = erase b s.blocked; threads = remove tid s.threads }

module _ (tid b : ℕ) (s : Sched) (v : Inv s) (found : lookup tid s.threads ≡ some b)
    (other : 0 < tid) where
  abbrev pub thread_at : Standing s b
  thread_at = keyed-Standing v b tid found

  pub drop_ready-Inv : thread_at.thread.state ≡ ready → Inv (drop_ready tid b thread_at.thread.pr s)
  drop_ready-Inv is = record {
    sorted = remove-IsFrom 0 tid s.threads v.sorted;
    small = ground (arith, v.small, length-remove tid b s.threads found);
    owner = λ k c f. ground (arith, v.owner k c, lookup-remove 0 tid k s.threads v.sorted);
    fits = λ c. ground (
      arith,
      v.fits c,
      r.stands,
      r.live,
      r.at_address,
      count-erase-hit b c (queue r.thread.pr s),
      count-remove tid b c s.threads found,
    );
    total = ground (
      arith,
      v.total,
      r.stands,
      length-erase b (queue r.thread.pr s),
      length-remove tid b s.threads found,
    );
    main = record {
      address = v.main.address;
      found = ground (arith, v.main.found, lookup-remove 0 tid 0 s.threads v.sorted);
      unblocked = ground (arith, v.main.unblocked);
      outside = ground (arith, v.main.outside);
    };
    quantums = ground (arith, v.quantums);
  }
    where
      r : Standing s b
      r = thread_at

  drop_blocked-Inv : thread_at.thread.state ≡ block → Inv (drop_blocked tid b s)
  drop_blocked-Inv is = record {
    sorted = remove-IsFrom 0 tid s.threads v.sorted;
    small = ground (arith, v.small, length-remove tid b s.threads found);
    owner = λ k c f. ground (arith, v.owner k c, lookup-remove 0 tid k s.threads v.sorted);
    fits = λ c. ground (
      arith,
      v.fits c,
      r.stands,
      r.live,
      r.at_address,
      count-erase-hit b c s.blocked,
      count-remove tid b c s.threads found,
    );
    total =
        ground
          (arith, v.total, r.stands, length-erase b s.blocked, length-remove tid b s.threads found);
    main = record {
      address = v.main.address;
      found = ground (arith, v.main.found, lookup-remove 0 tid 0 s.threads v.sorted);
      unblocked =
          ground (arith, v.main.unblocked, r.stands, count-erase-hit b v.main.address s.blocked);
      outside = ground (arith, v.main.outside);
    };
    quantums = ground (arith, v.quantums);
  }
    where
      r : Standing s b
      r = thread_at

  pub terminate_ready :
      thread_at.thread.state ≡ ready
      → terminate_other tid s ≡ ok (drop_ready tid b thread_at.thread.pr s, returns success)
  unfolding terminate_other
  terminate_ready is =
      let r : Standing s b = thread_at in
      let inside : contains b (queue r.thread.pr s) ≡ true =
        count-contains b (queue r.thread.pr s) (ground (arith, r.stands)) in
      ground (arith, r.at_address, remove_from_ready_lem tid b r.thread s found)

  pub terminate_blocked :
      thread_at.thread.state ≡ block
      → terminate_other tid s ≡ ok (drop_blocked tid b s, returns success)
  unfolding terminate_other
  terminate_blocked is = ground (arith, thread_at.at_address, remove_from_block_lem tid b s found)

  -- The thread is not the running one, so it is ready or blocked.
  pub terminate_other-Keeps :
      (a : ℕ) → s.running ≡ some a → b ≢ a → Keeps (λ r. r.0) (terminate_other tid s)
  terminate_other-Keeps a e ne = go thread_at.thread.state refl
    where
      go : (st : State) → thread_at.thread.state ≡ st → Keeps (λ r. r.0) (terminate_other tid s)
      go ready is = rw (terminate_ready is) (drop_ready-Inv is, (a, ground arith))
      go block is = rw (terminate_blocked is) (drop_blocked-Inv is, (a, e))
      go running is = absurd (ground (arith, thread_at.stands))

  pub leave_lem :
      thread_at.thread.state ≡ ready
      → leave tid b s ≡ ok (drop_ready tid b thread_at.thread.pr s, jumps)
  unfolding leave
  leave_lem is =
      let r : Standing s b = thread_at in
      let p : Priority = r.thread.pr in
      let s2 : Sched = set_queue p (erase b (queue p s)) s in
      let inside : contains b (queue p s) ≡ true =
        count-contains b (queue p s) (ground (arith, r.stands)) in
      let outside : erase b s.blocked ≡ s.blocked =
        erase_absent b s.blocked (ground (arith, r.stands)) in
      ground (
        arith,
        r.at_address,
        keyed-tid v b tid r.thread found r.at_address,
        remove_from_ready_lem tid b r.thread s found r.at_address,
        remove_from_block_lem tid b s2,
      )
