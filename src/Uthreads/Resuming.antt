-- ===== src/Uthreads/Resuming.antt =====
-- `uthread_resume` of ex2/uthreads.cpp keeps the invariant.
use os_huji.Prelude.{
  lookup, ℕ, ◌<◌, ◌≡◌, refl, ap, sym, ◌∙◌, subst, false, fail, none, inl, inr, true, Bool-cases,
  some, [], ◌∷◌, count, contains, erase, success, contains-count, count-erase-hit, length-erase,
  count-append, length-append, Option-cases, arith,
}
use os_huji.Uthreads.Thread.{Priority, red, orange, green, ready, Thread, deref, set_state}
use os_huji.Uthreads.Scheduler.{
  Sched, ok, queue, modify, not_found_id, thread_error, remove_from_block,
}
use os_huji.Uthreads.Api.{returns, continue, resume_tests, resume_body, uthread_resume}
use os_huji.Uthreads.Store.{deref-update, sum_quantoms-update}
use os_huji.Uthreads.Invariant.{Inv, Standing, Keeps, IsActive, keyed-Standing}
use os_huji.Uthreads.Switch.{queue_up, add_to_ready_lem}
use os_huji.Uthreads.Blocking.{print_error-Keeps, remove_from_block_lem}

-- A blocked thread moves to the end of its queue.
abbrev pub unblock : ℕ → Priority → Sched → Sched
unblock b p s = record (queue_up b p (modify b (set_state ready) s)) { blocked = erase b s.blocked }

unblock-Inv :
    (s : Sched) (b : ℕ) (u : Thread) (v : Inv s)
    → deref s.heap b ≡ some u
    → 0 < count b s.blocked
    → Inv (unblock b u.pr s)
unblock-Inv s b u v d inside = record {
  sorted = ground (arith, v.sorted);
  small = ground (arith, v.small);
  owner = λ k c f. ground (arith, v.owner k c, deref-update s.heap b c (set_state ready));
  fits = λ c. ground (
    arith,
    v.fits c,
    v.fits b,
    count-erase-hit b c s.blocked inside,
    count-append c (queue u.pr s) (b ∷ []),
    deref-update s.heap b c (set_state ready),
  );
  total =
      ground (
        arith,
        v.total,
        length-erase b s.blocked inside,
        length-append {0} (queue u.pr s) (b ∷ []),
      );
  main = record {
    address = m;
    found = ground (arith, v.main.found);
    unblocked = ground (arith, v.main.unblocked, count-erase-hit b m s.blocked inside);
    outside = ground (arith, v.main.outside, deref-update s.heap b m (set_state ready));
  };
  quantums = ground (arith, v.quantums, sum_quantoms-update s.heap b (set_state ready) u);
}
  where
    m : ℕ
    m = v.main.address

resume_through :
    (tid b : ℕ) (p : Priority) (s : Sched)
    → lookup tid s.threads ≡ some b
    → remove_from_block tid (queue_up b p (modify b (set_state ready) s)) ≡ ok (unblock b p s)
resume_through tid b red s e =
    remove_from_block_lem tid b (queue_up b red (modify b (set_state ready) s)) e
resume_through tid b orange s e =
    remove_from_block_lem tid b (queue_up b orange (modify b (set_state ready) s)) e
resume_through tid b green s e =
    remove_from_block_lem tid b (queue_up b green (modify b (set_state ready) s)) e

resume_tests-in :
    (tid b : ℕ) (s : Sched)
    → lookup tid s.threads ≡ some b
    → contains b s.blocked ≡ true
    → resume_tests tid s ≡ none
resume_tests-in tid b s e inside = rw (e, resume_tests) (rw inside refl)

resume_tests-out :
    (tid b : ℕ) (s : Sched)
    → lookup tid s.threads ≡ some b
    → contains b s.blocked ≡ false
    → resume_tests tid s ≡ some (ok (s, returns fail))
resume_tests-out tid b s e out = rw (e, resume_tests) (rw out refl)

resume_body_blocked :
    (tid b : ℕ) (u : Thread) (s : Sched)
    → lookup tid s.threads ≡ some b
    → deref s.heap b ≡ some u
    → contains b s.blocked ≡ true
    → resume_body tid s ≡ ok (unblock b u.pr s, returns success)
resume_body_blocked tid b u s e d inside =
    let s1 : Sched = modify b (set_state ready) s in
    let d1 : deref s1.heap b ≡ some (set_state ready u) =
      ground (arith, deref-update s.heap b b (set_state ready)) in
    rw (e, resume_body)
      (rw inside (
        rw (add_to_ready_lem s1 b (set_state ready u) d1)
          (rw (resume_through tid b u.pr s e) refl)))

pub uthread_resume_blocked :
    (tid b : ℕ) (u : Thread) (s : Sched)
    → lookup tid s.threads ≡ some b
    → deref s.heap b ≡ some u
    → contains b s.blocked ≡ true
    → uthread_resume tid s ≡ ok (unblock b u.pr s, returns success)
unfolding uthread_resume
uthread_resume_blocked tid b u s e d inside =
    ap (λ o. continue o (resume_body tid s)) (resume_tests-in tid b s e inside)
    ∙ resume_body_blocked tid b u s e d inside

-- Resuming keeps the invariant, whichever thread it names.
pub uthread_resume-Keeps :
    (tid : ℕ) (s : Sched) → Inv s → IsActive s → Keeps (λ r. r.0) (uthread_resume tid s)
unfolding uthread_resume
uthread_resume-Keeps tid s v (a, e) = elim (Option-cases (lookup tid s.threads)) [
  | inl missing ↦ ground (arith, print_error-Keeps not_found_id thread_error s v (a, e))
  | inr (b, found) ↦
      let r : Standing s b = keyed-Standing v b tid found in
      elim (Bool-cases (contains b s.blocked)) [
        | inl inside ↦ rw (uthread_resume_blocked tid b r.thread s found r.at_address inside) (
          unblock-Inv s b r.thread v r.at_address (contains-count b s.blocked inside),
          (a, ground arith),
        )
        | inr out ↦
            subst (λ o. Keeps (λ r. r.0) (continue o (resume_body tid s)))
              (sym (resume_tests-out tid b s found out)) (v, (a, e))
      ]
]
