-- ===== src/Uthreads/Terminate.antt =====
-- `uthread_terminate` of ex2/uthreads.cpp as a whole, for the running thread and for others.
use os_huji.Prelude.{
  lookup, ℕ, ◌<◌, ◌≡◌, inl, inr, some, List, subst, Bool-cases, Option-cases, ◌∷◌, ◌==◌, arith,
}
use os_huji.Uthreads.Thread.{Priority, Thread, ready, deref, set_state}
use os_huji.Uthreads.Scheduler.{Sched, Os, ok, queue, not_found_id, thread_error}
use os_huji.Uthreads.Api.{jumps, leave, terminate_self, uthread_terminate}
use os_huji.Uthreads.Store.{deref-hand_over}
use os_huji.Uthreads.Invariant.{
  Inv, Standing, Keeps, IsActive, running-Standing, keyed-Standing, keyed-tid,
}
use os_huji.Uthreads.Pick.{Next, HigherEmpty, Ends}
use os_huji.Uthreads.Switch.{switched, switch_threads-Next, next-ne-running}
use os_huji.Uthreads.Running.{switched-Inv}
use os_huji.Uthreads.Suspend.{main_waits}
use os_huji.Uthreads.Blocking.{print_error-Keeps, running_id_lem}
use os_huji.Uthreads.Lifetime.{drop_ready, drop_ready-Inv, leave_lem, terminate_other-Keeps}

module _ (os : Os) (s : Sched) (a : ℕ) (t : Thread) (p : Priority) (b : ℕ) (q : List ℕ) (v : Inv s)
    (runs : s.running ≡ some a) (here : deref s.heap a ≡ some t) (next : queue p s ≡ b ∷ q)
    (higher : HigherEmpty p s) (other : 0 < t.tid) where
  abbrev pub after_switch : Sched
  after_switch = switched a t.pr b p q s

  after_switch-Inv : Inv after_switch
  after_switch-Inv = switched-Inv s a t p b q v runs here next

  after_switch-thread : deref after_switch.heap a ≡ some (set_state ready t)
  after_switch-thread =
      ground (arith, next-ne-running v a b p q runs next, deref-hand_over ready a b a s.heap)

  after_switch-keyed : lookup t.tid after_switch.threads ≡ some a
  after_switch-keyed =
      ground (arith, (running-Standing v a runs).keyed, (running-Standing v a runs).at_address)

  after_switch-running : after_switch.running ≡ some b
  after_switch-running = ground arith

  leave-after_switch : leave t.tid a after_switch ≡ ok (drop_ready t.tid a t.pr after_switch, jumps)
  leave-after_switch =
      let r : Standing after_switch a =
        keyed-Standing after_switch-Inv a t.tid after_switch-keyed in
      ground (
        arith,
        after_switch-thread,
        r.at_address,
        leave_lem t.tid a after_switch after_switch-Inv after_switch-keyed other,
      )

  -- The thread that terminates itself is gone, and the next one is jumped to.
  pub terminate_self-Next :
      Ends os s (terminate_self os t.tid s) (drop_ready t.tid a t.pr after_switch, jumps)
  unfolding terminate_self
  terminate_self-Next =
      ground (arith, switch_threads-Next os s a t p b q v runs here next higher, leave-after_switch)

  left-Keeps :
      Inv (drop_ready t.tid a t.pr after_switch) × IsActive (drop_ready t.tid a t.pr after_switch)
  left-Keeps =
      let r : Standing after_switch a =
        keyed-Standing after_switch-Inv a t.tid after_switch-keyed in
      let w : Inv (drop_ready t.tid a r.thread.pr after_switch) =
        drop_ready-Inv t.tid a after_switch after_switch-Inv after_switch-keyed other
          (ground (arith, after_switch-thread, r.at_address)) in
      let e : r.thread.pr ≡ t.pr = ground (arith, after_switch-thread, r.at_address) in
      (
        subst (λ x. Inv (drop_ready t.tid a x after_switch)) e w,
        (b, ground (arith, after_switch-running)),
      )

  terminate_self-Keeps : Keeps (λ r. r.0) (terminate_self os t.tid s)
  terminate_self-Keeps = ground (arith, terminate_self-Next, left-Keeps)

terminate_running-Keeps :
    (os : Os) (s : Sched) (a : ℕ)
    → Inv s
    → s.running ≡ some a
    → (t : Thread) → deref s.heap a ≡ some t
    → 0 < t.tid
    → Keeps (λ r. r.0) (terminate_self os t.tid s)
terminate_running-Keeps os s a v e t d other =
    let n : Next s = main_waits v a e (λ q. ground (arith, keyed-tid v a 0 t, v.main.found)) in
    terminate_self-Keeps os s a t n.pr n.address n.rest v e d n.head n.higher other

-- Terminating keeps the invariant, whichever thread it names. Terminating the main thread exits.
pub uthread_terminate-Keeps :
    (os : Os) (tid : ℕ) (s : Sched)
    → Inv s
    → IsActive s
    → Keeps (λ r. r.0) (uthread_terminate os tid s)
unfolding uthread_terminate
uthread_terminate-Keeps os tid s v (a, e) = elim (Bool-cases (tid == 0)) [
  | inl main ↦ rw (main, uthread_terminate) tt
  | inr not_main ↦
      rw (not_main, uthread_terminate)
        (elim (Option-cases (lookup tid s.threads)) [
          | inl missing ↦ rw missing (print_error-Keeps not_found_id thread_error s v (a, e))
          | inr (b, found) ↦
              let r : Standing s a = running-Standing v a e in
              rw found (
                rw (running_id_lem s a r.thread e r.at_address) (
                  ground (
                    arith,
                    terminate_running-Keeps os s a v e r.thread r.at_address,
                    terminate_other-Keeps tid b s v found (ground arith) a e,
                    keyed-tid v b tid r.thread found,
                    r.at_address,
                  )))
        ])
]
