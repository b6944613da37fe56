-- ===== src/Uthreads/Turns.antt =====
-- Who runs after a quantum, and what becomes of a thread that suspended itself: `timeHandler`,
-- `switchThreads` and `uthread_suspend` of ex2/uthreads.cpp.
use os_huji.Prelude.{ℕ, ◌+◌, ◌≡◌, ◌≢◌, refl, some, List, [], ◌∷◌, ◌++◌, arith}
use mathlib.Core.List.{append-nil}
use os_huji.Uthreads.Thread.{
  Priority, red, orange, green, ready, running, handler, Thread, deref, set_state, save_buf,
}
use os_huji.Uthreads.Scheduler.{Sched, Os, ok, queue, modify}
use os_huji.Uthreads.Api.{jumps, time_handler}
use os_huji.Uthreads.Store.{deref-update, deref-hand_over}
use os_huji.Uthreads.Invariant.{Inv}
use os_huji.Uthreads.Pick.{NoneReady, HigherEmpty, Ticks, dispatch, switch_threads_idle}
use os_huji.Uthreads.Switch.{switched, switch_threads-Next, next-ne-running}
use os_huji.Uthreads.Running.{save_buf-Inv}

-- What a queue holds after the thread of priority `pr` at `a` has made room for the head of the
-- queue of `p`, whose rest is `q`.
abbrev rest_of : Priority → List ℕ → Priority → Sched → List ℕ
rest_of red q red s = q
rest_of red q orange s = s.orange_q
rest_of red q green s = s.green_q
rest_of orange q red s = s.red_q
rest_of orange q orange s = q
rest_of orange q green s = s.green_q
rest_of green q red s = s.red_q
rest_of green q orange s = s.orange_q
rest_of green q green s = q

abbrev joined : Priority → Priority → ℕ → List ℕ
joined red red a = a ∷ []
joined red _ a = []
joined orange orange a = a ∷ []
joined orange _ a = []
joined green green a = a ∷ []
joined green _ a = []

-- `t`, at `a`, has made room for `b`, the head of the queue of `p`.
pub record TakesTurn (a : ℕ) (t : Thread) (p : Priority) (b : ℕ) (q : List ℕ) (s s' : Sched)
    : Type 0 where
  pub runs : s'.running ≡ some b
  pub queues : (k : Priority) → queue k s' ≡ rest_of p q k s ++ joined t.pr k a
  pub blocked : s'.blocked ≡ s.blocked
  pub threads : s'.threads ≡ s.threads
  pub counted : s'.quantum_counter ≡ s.quantum_counter + 1
  pub left : deref s'.heap a ≡ some (record t { state = ready; context = handler })
  pub came :
      (u : Thread)
      → deref s.heap b ≡ some u
      → deref s'.heap b ≡ some (record u { state = running; quantom = u.quantom + 1 })
  pub others : (c : ℕ) → c ≢ a → c ≢ b → deref s'.heap c ≡ deref s.heap c

module _ (s : Sched) (a : ℕ) (t : Thread) (p : Priority) (b : ℕ) (q : List ℕ) (v : Inv s)
    (runs : s.running ≡ some a) (here : deref s.heap a ≡ some t) (next : queue p s ≡ b ∷ q) where
  abbrev saved : Sched
  saved = modify a (save_buf handler) s

  switched-queues :
      (k : Priority) → queue k (switched a t.pr b p q saved) ≡ rest_of p q k s ++ joined t.pr k a
  switched-queues k = ground (arith, append-nil (rest_of p q k s))

  switched-TakesTurn : TakesTurn a t p b q s (switched a t.pr b p q saved)
  switched-TakesTurn = record {
    runs = ground arith;
    queues = switched-queues;
    blocked = ground arith;
    threads = ground arith;
    counted = ground arith;
    left = ground (
      arith,
      ne,
      deref-update s.heap a a (save_buf handler),
      deref-hand_over ready a b a saved.heap,
    );
    came = λ u d. ground (
      arith,
      ne,
      deref-update s.heap a b (save_buf handler),
      deref-hand_over ready a b b saved.heap,
    );
    others = λ c f g.
        ground (
          arith,
          deref-update s.heap a c (save_buf handler),
          deref-hand_over ready a b c saved.heap,
        );
  }
    where
      ne : b ≢ a
      ne = next-ne-running v a b p q runs next

-- When the quantum of a thread ends, somebody is ready and the timer can be set, the head of the
-- first queue that is not empty runs next, whatever the priority of the thread that ran. That one
-- becomes ready at the end of its own queue, to continue behind its handler; the next one is
-- charged a quantum. Nothing else moves.
pub time_handler-TakesTurn :
    (os : Os) (s : Sched) (a : ℕ) (t : Thread) (p : Priority) (b : ℕ) (q : List ℕ)
    → Inv s
    → Ticks os s
    → s.running ≡ some a
    → deref s.heap a ≡ some t
    → queue p s ≡ b ∷ q
    → HigherEmpty p s
    → (s' : Sched) × (time_handler os s ≡ ok (s', jumps)) × TakesTurn a t p b q s s'
unfolding time_handler
time_handler-TakesTurn os s a t p b q v timer e d h u =
    let s1 : Sched = modify a (save_buf handler) s in
    let v1 : Inv s1 = save_buf-Inv handler s a t v d (λ _ h. cc) in
    (
      switched a t.pr b p q s1,
      ground (
        arith,
        deref-update s.heap a a (save_buf handler),
        switch_threads-Next os s1 a (save_buf handler t) p b q v1 e,
      ),
      switched-TakesTurn s a t p b q v e d h,
    )

-- When nobody is ready, the running thread goes on with a new quantum and stays where it is.
pub time_handler_alone :
    (os : Os) (s : Sched) (a : ℕ) (t : Thread)
    → Inv s
    → Ticks os s
    → s.running ≡ some a
    → deref s.heap a ≡ some t
    → NoneReady s
    → (s' : Sched) × (time_handler os s ≡ ok (s', jumps))
      × (s'.running ≡ some a)
      × NoneReady s'
      × (s'.blocked ≡ s.blocked)
      × (deref s'.heap a
          ≡ some (record t { state = running; quantom = t.quantom + 1; context = handler }))
unfolding time_handler
time_handler_alone os s a t v timer e d u =
    let s1 : Sched = modify a (save_buf handler) s in
    let v1 : Inv s1 = save_buf-Inv handler s a t v d (λ _ h. cc) in
    (
      dispatch a (modify a (set_state ready) s1),
      ground (arith, switch_threads_idle os s1 a v1 e u),
      refl,
      u,
      refl,
      ground
          (arith, deref-update s.heap a a (save_buf handler), deref-hand_over ready a a a s1.heap),
    )
