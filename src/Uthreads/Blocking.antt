-- ===== src/Uthreads/Blocking.antt =====
-- `uthread_suspend` of ex2/uthreads.cpp keeps the invariant; and the removal of a thread from the
-- queues.
use os_huji.Prelude.{
  lookup, ℕ, ◌<◌, ◌≡◌, ◌≢◌, refl, inl, inr, true, some, [], ◌∷◌, ◌++◌, count, contains, erase,
  success, fail, if◌then◌else◌, contains-count, count-erase-hit, length-erase, count-append,
  length-append, Option-cases, arith,
}
use os_huji.Uthreads.Thread.{Priority, block, suspension, Thread, deref, set_state, save_buf}
use os_huji.Uthreads.Scheduler.{
  Sched, Os, ok, ErrorKind, Prefix, queue, set_queue, modify, print_error, suspend_main,
  not_found_id, thread_error, translate_priority, remove_from_ready, remove_from_block,
}
use os_huji.Uthreads.Api.{suspend_rest, suspend_other, running_id, uthread_suspend}
use os_huji.Uthreads.Store.{deref-update, sum_quantoms-update}
use os_huji.Uthreads.Invariant.{
  Inv, Standing, Keeps, IsActive, running-Standing, keyed-Standing, keyed-tid,
}
use os_huji.Uthreads.Running.{save_buf-Inv}
use os_huji.Uthreads.Suspend.{suspend_rest-Keeps}

pub print_error-Inv : (k : ErrorKind) (p : Prefix) (s : Sched) → Inv s → Inv (print_error k p s)
unfolding print_error
print_error-Inv k p s v = record {
  sorted = v.sorted;
  small = v.small;
  owner = v.owner;
  fits = v.fits;
  total = v.total;
  main = record {
    address = v.main.address;
    found = v.main.found;
    unblocked = v.main.unblocked;
    outside = v.main.outside;
  };
  quantums = v.quantums;
}

pub print_error-Keeps :
    (k : ErrorKind) (p : Prefix) (s : Sched)
    → Inv s
    → IsActive s
    → Inv (print_error k p s) × IsActive (print_error k p s)
unfolding print_error
print_error-Keeps k p s v act = (print_error-Inv k p s v, act)

pub remove_from_ready_lem :
    (tid b : ℕ) (u : Thread) (s : Sched)
    → lookup tid s.threads ≡ some b
    → deref s.heap b ≡ some u
    → remove_from_ready tid s ≡ (
        if contains b (queue u.pr s)
        then ok (success, set_queue u.pr (erase b (queue u.pr s)) s)
        else ok (fail, s))
unfolding remove_from_ready translate_priority
remove_from_ready_lem tid b u s e d = rw (e, remove_from_ready) (rw (d, remove_from_ready) refl)

pub remove_from_block_lem :
    (tid b : ℕ) (s : Sched)
    → lookup tid s.threads ≡ some b
    → remove_from_block tid s ≡ ok (record s { blocked = erase b s.blocked })
unfolding remove_from_block
remove_from_block_lem tid b s e = ground arith

-- A ready thread moves to the end of the blocked ones.
abbrev pub block_ready : ℕ → Priority → Sched → Sched
block_ready b p s = record (modify b (set_state block) (set_queue p (erase b (queue p s)) s)) {
  blocked = s.blocked ++ b ∷ [];
}

block_ready-Inv :
    (s : Sched) (b : ℕ) (u : Thread) (v : Inv s)
    → deref s.heap b ≡ some u
    → b ≢ v.main.address
    → contains b (queue u.pr s) ≡ true
    → Inv (block_ready b u.pr s)
block_ready-Inv s b u v d other h = record {
  sorted = ground (arith, v.sorted);
  small = ground (arith, v.small);
  owner = λ k c f. ground (arith, v.owner k c, deref-update s.heap b c (set_state block));
  fits = λ c. ground (
    arith,
    v.fits c,
    v.fits b,
    count-erase-hit b c (queue u.pr s) inside,
    count-append c s.blocked (b ∷ []),
    deref-update s.heap b c (set_state block),
  );
  total =
      ground (
        arith,
        v.total,
        length-erase b (queue u.pr s) inside,
        length-append {0} s.blocked (b ∷ []),
      );
  main = record {
    address = m;
    found = ground (arith, v.main.found);
    unblocked = ground (arith, v.main.unblocked, count-append m s.blocked (b ∷ []));
    outside = ground (arith, v.main.outside, deref-update s.heap b m (set_state block));
  };
  quantums = ground (arith, v.quantums, sum_quantoms-update s.heap b (set_state block) u);
}
  where
    m : ℕ
    m = v.main.address

    inside : 0 < count b (queue u.pr s)
    inside = contains-count b (queue u.pr s) h

suspend_other-Keeps :
    (tid b : ℕ) (s : Sched) (v : Inv s)
    → IsActive s
    → lookup tid s.threads ≡ some b
    → 0 < tid
    → Keeps (λ r. r.0) (suspend_other tid b s)
unfolding suspend_other
suspend_other-Keeps tid b s v act e pos_tid =
    let r : Standing s b = keyed-Standing v b tid e in
    let id : r.thread.tid ≡ tid = keyed-tid v b tid r.thread e r.at_address in
    ground (
      arith,
      id,
      r.at_address,
      remove_from_ready_lem r.thread.tid b r.thread s r.keyed r.at_address,
      block_ready-Inv s b r.thread v r.at_address,
      keyed-tid v b 0 r.thread,
    )

pub running_id_lem :
    (s : Sched) (a : ℕ) (t : Thread)
    → s.running ≡ some a
    → deref s.heap a ≡ some t
    → running_id s ≡ ok t.tid
unfolding running_id
running_id_lem s a t e d = ground arith

suspend_self-Keeps :
    (os : Os) (s : Sched) (a : ℕ)
    → Inv s
    → s.running ≡ some a
    → lookup 0 s.threads ≢ some a
    → Keeps (λ r. r.0) (suspend_rest os (modify a (save_buf suspension) s))
suspend_self-Keeps os s a v e not_main =
    let r : Standing s a = running-Standing v a e in
    suspend_rest-Keeps os _ a
      (save_buf-Inv suspension s a r.thread v r.at_address (λ q _. not_main (rw q v.main.found))) e
      not_main

-- Suspending keeps the invariant, whichever thread it names.
pub uthread_suspend-Keeps :
    (os : Os) (tid : ℕ) (s : Sched)
    → Inv s
    → IsActive s
    → Keeps (λ r. r.0) (uthread_suspend os tid s)
unfolding uthread_suspend
uthread_suspend-Keeps os tid s v (a, e) =
    let r : Standing s a = running-Standing v a e in
    elim (Option-cases (lookup tid s.threads)) [
      | inl missing ↦ ground (
        arith,
        print_error-Keeps suspend_main thread_error s v (a, e),
        print_error-Keeps not_found_id thread_error s v (a, e),
      )
      | inr (b, found) ↦ ground (
        arith,
        print_error-Keeps suspend_main thread_error s v (a, e),
        running_id_lem s a r.thread e r.at_address,
        suspend_self-Keeps os s a v e,
        keyed-tid v a 0 r.thread,
        r.at_address,
        suspend_other-Keeps tid b s v (a, e) found,
      )
    ]
