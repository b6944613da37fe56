-- ===== src/Uthreads/Running.antt =====
-- `switchThreads` and `timeHandler` of ex2/uthreads.cpp keep the invariant.
use os_huji.Prelude.{
  ℕ, ◌≡◌, ◌≢◌, ◌⊎◌, inl, inr, some, List, [], ◌∷◌, count-append, length-append, arith,
}
use os_huji.Uthreads.Thread.{
  Priority, ready, handler, suspension, Context, Thread, deref, set_state, save_buf,
}
use os_huji.Uthreads.Scheduler.{Sched, Os, queue, modify, switch_threads}
use os_huji.Uthreads.Api.{time_handler}
use os_huji.Uthreads.Store.{
  deref-update, sum_quantoms-update, deref-hand_over, sum_quantoms-hand_over,
}
use os_huji.Uthreads.Invariant.{Inv, Standing, Keeps, IsActive, running-Standing, placed-Standing}
use os_huji.Uthreads.Pick.{NoneReady, Next, ready_cases, dispatch, switch_threads_idle}
use os_huji.Uthreads.Switch.{switched, switch_threads-Next}

idle-Inv :
    (s : Sched) (a : ℕ)
    → Inv s
    → s.running ≡ some a
    → Inv (dispatch a (modify a (set_state ready) s))
idle-Inv s a v e = record {
  sorted = v.sorted;
  small = v.small;
  owner = λ k b h. ground (arith, v.owner k b h, deref-hand_over ready a a b s.heap);
  fits = λ b. ground (
    arith,
    v.fits b,
    standing.at_address,
    standing.stands,
    standing.live,
    deref-hand_over ready a a b s.heap,
  );
  total = ground (arith, v.total);
  main = record {
    address = m;
    found = v.main.found;
    unblocked = v.main.unblocked;
    outside = ground (arith, v.main.outside, deref-hand_over ready a a m s.heap);
  };
  quantums = omega (
    arith,
    v.quantums,
    sum_quantoms-hand_over ready a a s.heap standing.thread standing.at_address,
  );
}
  where
    standing : Standing s a
    standing = running-Standing v a e

    m : ℕ
    m = v.main.address

pub switched-Inv :
    (s : Sched) (a : ℕ) (t : Thread) (p : Priority) (b : ℕ) (q : List ℕ)
    → Inv s
    → s.running ≡ some a
    → deref s.heap a ≡ some t
    → queue p s ≡ b ∷ q
    → Inv (switched a t.pr b p q s)
switched-Inv s a t p b q v e d h = record {
  sorted = ground (arith, v.sorted);
  small = ground (arith, v.small);
  owner = λ k c f. ground (arith, v.owner k c, deref-hand_over ready a b c s.heap);
  fits = λ c. ground (
    arith,
    v.fits c,
    v.fits a,
    v.fits b,
    standing.stands,
    standing.live,
    deref-hand_over ready a b c s.heap,
    count-append c s.red_q (a ∷ []),
    count-append c s.orange_q (a ∷ []),
    count-append c s.green_q (a ∷ []),
    count-append c q (a ∷ []),
  );
  total = ground (
    arith,
    v.total,
    length-append {0} s.red_q (a ∷ []),
    length-append {0} s.orange_q (a ∷ []),
    length-append {0} s.green_q (a ∷ []),
    length-append {0} q (a ∷ []),
  );
  main = record {
    address = m;
    found = ground (arith, v.main.found);
    unblocked = ground (arith, v.main.unblocked);
    outside = ground (arith, v.main.outside, deref-hand_over ready a b m s.heap);
  };
  quantums = ground (
    arith,
    v.quantums,
    sum_quantoms-hand_over ready a b s.heap,
    next.at_address,
    sum_quantoms-hand_over ready a b s.heap next.thread next.at_address,
  );
}
  where
    standing : Standing s a
    standing = running-Standing v a e

    next : Standing s b
    next = placed-Standing v b (ground arith)

    m : ℕ
    m = v.main.address

-- Only `uthread_suspend` may leave the main thread in its own context.
pub save_buf-Inv :
    (c : Context) (s : Sched) (a : ℕ) (t : Thread) (v : Inv s)
    → deref s.heap a ≡ some t
    → (a ≡ v.main.address → c ≢ suspension)
    → Inv (modify a (save_buf c) s)
save_buf-Inv c s a t v e safe = record {
  sorted = v.sorted;
  small = v.small;
  owner = λ k b h. ground (arith, v.owner k b h, deref-update s.heap a b (save_buf c));
  fits = λ b. ground (arith, v.fits b, deref-update s.heap a b (save_buf c));
  total = v.total;
  main = record {
    address = v.main.address;
    found = v.main.found;
    unblocked = v.main.unblocked;
    outside =
        ground (arith, v.main.outside, safe, deref-update s.heap a v.main.address (save_buf c));
  };
  quantums = omega (arith, v.quantums, sum_quantoms-update s.heap a (save_buf c) t e);
}

-- The next state of `switchThreads`, given what `ready_cases` finds.
switch_threads-Keeps :
    (os : Os) (s : Sched) (a : ℕ)
    → Inv s
    → s.running ≡ some a
    → NoneReady s ⊎ Next s
    → Keeps (λ r. r) (switch_threads os s)
switch_threads-Keeps os s a v e (inl none_ready) =
    ground (arith, switch_threads_idle os s a v e none_ready, idle-Inv s a v e)
switch_threads-Keeps os s a v e (inr n) =
    let r : Standing s a = running-Standing v a e in
    ground (
      arith,
      switch_threads-Next os s a r.thread n.pr n.address n.rest v e r.at_address n.head n.higher,
      switched-Inv s a r.thread n.pr n.address n.rest v e r.at_address n.head,
    )

-- The timer's handler neither faults nor loses the invariant.
pub time_handler-Keeps :
    (os : Os) (s : Sched) → Inv s → IsActive s → Keeps (λ r. r.0) (time_handler os s)
unfolding time_handler
time_handler-Keeps os s v (a, e) =
    let r : Standing s a = running-Standing v a e in
    let s1 : Sched = modify a (save_buf handler) s in
    let v1 : Inv s1 = save_buf-Inv handler s a r.thread v r.at_address (λ _ h. cc) in
    ground (arith, switch_threads-Keeps os s1 a v1 e (ready_cases s1))
