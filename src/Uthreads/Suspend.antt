-- ===== src/Uthreads/Suspend.antt =====
-- `uthread_suspend` and what a jump into it does, ex2/uthreads.cpp.
use os_huji.Prelude.{
  lookup, ℕ, ◌≡◌, ◌≢◌, refl, ◌⊎◌, inl, inr, none, some, List, [], ◌∷◌, ◌++◌, count-append,
  length-append, arith,
}
use os_huji.Uthreads.Thread.{
  Priority, red, orange, green, block, suspension, entry, handler, Context, set_state,
}
use os_huji.Uthreads.Scheduler.{Sched, Os, queue, set_queue, modify}
use os_huji.Uthreads.Api.{jumps, suspend_rest, load_buf}
use os_huji.Uthreads.Store.{deref-hand_over, sum_quantoms-hand_over}
use os_huji.Uthreads.Invariant.{
  Inv, Standing, Keeps, IsActive, running-Standing, placed-Standing, keyed-Standing,
}
use os_huji.Uthreads.Pick.{
  NoneReady, Next, ready_cases, dispatch, Ends, HigherEmpty, run_thread-Next,
}

-- The running thread blocks, and the head of a queue takes over.
abbrev pub blocking : ℕ → Sched → Sched
blocking a s = record (modify a (set_state block) s) {
  blocked = s.blocked ++ a ∷ [];
  running = none;
}

abbrev pub suspended : ℕ → ℕ → Priority → List ℕ → Sched → Sched
suspended a b p q s = dispatch b (set_queue p q (blocking a s))

-- If the main thread does not run, it is ready, so somebody can take over.
pub main_waits : {s : Sched} (v : Inv s) (a : ℕ) → s.running ≡ some a → a ≢ v.main.address → Next s
main_waits {s} v a e other = pick (ready_cases s)
  where
    standing : Standing s v.main.address
    standing = keyed-Standing v v.main.address 0 v.main.found

    pick : NoneReady s ⊎ Next s → Next s
    pick (inl n) = absurd (ground (arith, standing.stands, standing.live, v.main.unblocked))
    pick (inr n) = n

suspended-Inv :
    (s : Sched) (a : ℕ) (p : Priority) (b : ℕ) (q : List ℕ) (v : Inv s)
    → s.running ≡ some a
    → a ≢ v.main.address
    → queue p s ≡ b ∷ q
    → Inv (suspended a b p q s)
suspended-Inv s a p b q v e other h = record {
  sorted = ground (arith, v.sorted);
  small = ground (arith, v.small);
  owner = λ k c f. ground (arith, v.owner k c, deref-hand_over block a b c s.heap);
  fits = λ c. ground (
    arith,
    v.fits c,
    v.fits a,
    v.fits b,
    standing.stands,
    standing.live,
    deref-hand_over block a b c s.heap,
    count-append c s.blocked (a ∷ []),
  );
  total = ground (arith, v.total, length-append {0} s.blocked (a ∷ []));
  main = record {
    address = m;
    found = ground (arith, v.main.found);
    unblocked = ground (arith, v.main.unblocked, count-append m s.blocked (a ∷ []));
    outside = ground (arith, v.main.outside, deref-hand_over block a b m s.heap);
  };
  quantums =
      ground
        (arith, v.quantums, sum_quantoms-hand_over block a b s.heap next.thread next.at_address);
}
  where
    standing : Standing s a
    standing = running-Standing v a e

    next : Standing s b
    next = placed-Standing v b (ground arith)

    m : ℕ
    m = v.main.address

-- The call of a running thread that is not the main thread hands over to the next ready thread.
pub suspend_rest-Next :
    (os : Os) (s : Sched) (a : ℕ) (p : Priority) (b : ℕ) (q : List ℕ)
    → Inv s
    → s.running ≡ some a
    → queue p s ≡ b ∷ q
    → HigherEmpty p s
    → Ends os s (suspend_rest os s) (suspended a b p q s, jumps)
unfolding suspend_rest
suspend_rest-Next os s a red b q v e h u =
    ground (arith, v.total, run_thread-Next os (blocking a s) red b q)
suspend_rest-Next os s a orange b q v e h u =
    ground (arith, v.total, run_thread-Next os (blocking a s) orange b q)
suspend_rest-Next os s a green b q v e h u =
    ground (arith, v.total, run_thread-Next os (blocking a s) green b q)

pub suspend_rest-Keeps :
    (os : Os) (s : Sched) (a : ℕ)
    → Inv s
    → s.running ≡ some a
    → lookup 0 s.threads ≢ some a
    → Keeps (λ r. r.0) (suspend_rest os s)
suspend_rest-Keeps os s a v e not_main =
    let other : a ≢ v.main.address = λ q. not_main (rw q v.main.found) in
    let n : Next s = main_waits v a e other in
    ground (
      arith,
      suspend_rest-Next os s a n.pr n.address n.rest v e n.head n.higher,
      suspended-Inv s a n.pr n.address n.rest v e other n.head,
    )

-- A jump to the running thread neither faults nor loses the invariant.
pub load_buf-Keeps : (os : Os) (s : Sched) → Inv s → IsActive s → Keeps (λ r. r.0) (load_buf os s)
unfolding load_buf
load_buf-Keeps os s v (a, e) = go r.thread.context refl
  where
    r : Standing s a
    r = running-Standing v a e

    go : (c : Context) → r.thread.context ≡ c → Keeps (λ r. r.0) (load_buf os s)
    go entry h = ground (arith, r.at_address)
    go handler h = ground (arith, r.at_address)
    go suspension h =
        ground (arith, r.at_address, v.main.outside, v.main.found, suspend_rest-Keeps os s a v e)
