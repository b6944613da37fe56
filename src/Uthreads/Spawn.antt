-- ===== src/Uthreads/Spawn.antt =====
-- `uthread_init` and `uthread_spawn` of ex2/uthreads.cpp set the invariant up and keep it.
use os_huji.Prelude.{
  lookup, insert, insert-IsFrom, lookup-insert, count-insert, length-insert, ℕ, zero, suc, ◌+◌, ◌*◌,
  ◌<◌, ◌≡◌, ◌≢◌, refl, inl, inr, false, none, some, [], ◌∷◌, ◌++◌, length, pos, success,
  count-append, length-append, Bool-cases, ◌==◌, arith,
}
use os_huji.Uthreads.Thread.{
  Priority, red, orange, ready, running, entry, Thread, new_thread, deref, update,
}
use os_huji.Uthreads.Table.{get_next_id}
use os_huji.Uthreads.Scheduler.{
  Sched, Os, ok, queue, too_many_threads, thread_error, set_time, is_fail,
}
use os_huji.Uthreads.Api.{
  returns, uthread_init, uthread_spawn, start_main, signals_fail, split_quantum,
}
use os_huji.Uthreads.Store.{deref-alloc, deref-length, sum_quantoms-alloc}
use os_huji.Uthreads.Ids.{get_next_id_lowest}
use os_huji.Uthreads.Invariant.{Inv, Fits, places, Keeps, IsActive}
use os_huji.Uthreads.Switch.{queue_up, add_to_ready_lem}
use os_huji.Uthreads.Blocking.{print_error-Keeps}

-- The thread that a call creates, and the state with it in the store and in the table.
abbrev pub spawned_thread : ℕ → Priority → Sched → Thread
spawned_thread f pr s = record {
  tid = get_next_id s.threads;
  pr = pr;
  quantom = 0;
  f = f;
  state = ready;
  context = entry;
}

abbrev pub spawned : ℕ → Priority → Sched → Sched
spawned f pr s = queue_up (length s.heap) pr (record s {
  heap = s.heap ++ spawned_thread f pr s ∷ [];
  threads = insert (get_next_id s.threads) (length s.heap) s.threads;
})

spawned-Inv :
    (f : ℕ) (pr : Priority) (s : Sched) → Inv s → length s.threads ≢ 100 → Inv (spawned f pr s)
spawned-Inv f pr s v room = record {
  sorted = ground (arith, insert-IsFrom 0 id th s.threads (omega arith) v.sorted);
  small = ground (arith, v.small, length-insert id th s.threads free);
  owner = λ k c e. ground (
    arith,
    v.owner k c,
    lookup-insert id th k s.threads free,
    deref-alloc s.heap t c,
    deref-length s.heap,
  );
  fits = λ c. ground (
    arith,
    v.fits c,
    v.fits th,
    deref-length s.heap,
    deref-alloc s.heap t c,
    count-insert id th c s.threads free,
    count-append c (queue pr s) (th ∷ []),
  );
  total = ground (
    arith,
    v.total,
    length-insert id th s.threads free,
    length-append {0} (queue pr s) (th ∷ []),
  );
  main = record {
    address = v.main.address;
    found = ground (arith, v.main.found, free, lookup-insert id th 0 s.threads free);
    unblocked = ground (arith, v.main.unblocked);
    outside = ground (arith, v.main.outside, deref-alloc s.heap t v.main.address);
  };
  quantums = ground (arith, v.quantums, sum_quantoms-alloc s.heap t);
}
  where
    id : ℕ
    id = get_next_id s.threads

    th : ℕ
    th = length s.heap

    t : Thread
    t = spawned_thread f pr s

    free : lookup id s.threads ≡ none
    free = (get_next_id_lowest s.threads v.sorted).0

-- With room for one more thread, a spawn puts the new thread, under the lowest free id, at the end
-- of the queue of its priority and returns the id.
pub uthread_spawn_room :
    (os : Os) (f : ℕ) (pr : Priority) (s : Sched)
    → length s.threads ≢ 100
    → IsActive s
    → uthread_spawn os f pr s ≡ ok (spawned f pr s, returns (pos (get_next_id s.threads)))
unfolding uthread_spawn new_thread
uthread_spawn_room os f red s room (a, e) = ground (
  arith,
  deref-alloc s.heap (spawned_thread f red s) (length s.heap),
  add_to_ready_lem
      (record s {
        heap = s.heap ++ spawned_thread f red s ∷ [];
        threads = insert (get_next_id s.threads) (length s.heap) s.threads;
      })
      (length s.heap) (spawned_thread f red s),
)
uthread_spawn_room os f pr s room (a, e) = ground (
  arith,
  deref-alloc s.heap (spawned_thread f pr s) (length s.heap),
  add_to_ready_lem
      (record s {
        heap = s.heap ++ spawned_thread f pr s ∷ [];
        threads = insert (get_next_id s.threads) (length s.heap) s.threads;
      })
      (length s.heap) (spawned_thread f pr s),
)

pub uthread_spawn-Keeps :
    (os : Os) (f : ℕ) (pr : Priority) (s : Sched)
    → Inv s
    → IsActive s
    → Keeps (λ r. r.0) (uthread_spawn os f pr s)
unfolding uthread_spawn
uthread_spawn-Keeps os f pr s v (a, e) = elim (Bool-cases (length s.threads == 100)) [
  | inl full ↦ rw (full, uthread_spawn) (print_error-Keeps too_many_threads thread_error s v (a, e))
  | inr room ↦
      rw (uthread_spawn_room os f pr s (ground arith) (a, e))
        (spawned-Inv f pr s v (ground arith), (a, ground arith))
]

-- The state of the library before any call.
abbrev pub boot : Sched
boot = record {
  heap = [];
  red_q = [];
  orange_q = [];
  green_q = [];
  blocked = [];
  running = none;
  threads = [];
  quantum_counter = 0;
  timer = record { tv_sec = 0; tv_usec = 0 };
  cerr = [];
}

abbrev pub started : ℕ → Sched
started usecs = record boot {
  heap = record (new_thread 0 orange 0 ready) { state = running; quantom = 1 } ∷ [];
  running = some 0;
  threads = (0, 0) ∷ [];
  quantum_counter = 1;
  timer = split_quantum usecs;
}

pub started-Inv : (usecs : ℕ) → Inv (started usecs)
unfolding new_thread lookup
started-Inv usecs = record {
  sorted = omega arith;
  small = omega arith;
  owner = λ k c e. ground arith;
  fits = only;
  total = omega arith;
  main = record { address = 0; found = refl; unblocked = refl; outside = λ e. cc };
  quantums = refl;
}
  where
    only : (c : ℕ) → Fits (deref (started usecs).heap c) (places c (started usecs))
    only zero = inr (omega arith)
    only (suc c) = ground arith

-- A first `uthread_init` with a positive quantum, if every system call succeeds, returns SUCCESS:
-- the invariant holds, a thread runs, one quantum has begun, and the timer is set to the quantum,
-- with less than a second in its microseconds.
pub uthread_init-boot :
    (os : Os) (usecs : ℕ)
    → 0 < usecs
    → signals_fail os ≡ false
    → is_fail (os.setitimer (split_quantum usecs)) ≡ false
    → (s : Sched) × (uthread_init os (pos usecs) boot ≡ ok (s, returns success))
      × Inv s
      × IsActive s
      × (s.quantum_counter ≡ 1)
      × (s.timer.tv_sec * 1_000_000 + s.timer.tv_usec ≡ usecs)
      × (s.timer.tv_usec < 1_000_000)
unfolding uthread_init start_main split_quantum set_time insert new_thread update
uthread_init-boot os usecs h signals timer =
    (started usecs, ground arith, started-Inv usecs, (0, refl), refl, omega arith, omega arith)
