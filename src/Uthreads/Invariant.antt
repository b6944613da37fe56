-- ===== src/Uthreads/Invariant.antt =====
-- The invariant of the scheduler of ex2/uthreads.cpp between two calls: every thread of the table
-- stands in exactly one place, the one that its state and its priority name.
use os_huji.Prelude.{
  addresses, lookup, IsSorted, count_of_lookup, key_of, ℕ, ◌+◌, ◌≤◌, ◌<◌, ◌≡◌, ◌≢◌, refl, ◌⊎◌, inl,
  inr, Option, none, some, length, count, hit, arith, subst,
}
use os_huji.Uthreads.Thread.{
  Priority, red, orange, green, State, ready, running, block, suspension, Thread, deref,
}
use os_huji.Uthreads.Scheduler.{Sched, Run, ok, exits, fault}
use os_huji.Uthreads.Store.{sum_quantoms}

-- How often an address stands in the table, in each queue, and as the running thread.
pub record Places : Type 0 where
  pub live : ℕ
  pub in_red : ℕ
  pub in_orange : ℕ
  pub in_green : ℕ
  pub in_blocked : ℕ
  pub in_running : ℕ

abbrev pub count_running : ℕ → Option ℕ → ℕ
count_running a none = 0
count_running a (some b) = hit a b

abbrev pub length_running : Option ℕ → ℕ
length_running none = 0
length_running (some b) = 1

abbrev pub places : ℕ → Sched → Places
places a s = record {
  live = count a (addresses s.threads);
  in_red = count a s.red_q;
  in_orange = count a s.orange_q;
  in_green = count a s.green_q;
  in_blocked = count a s.blocked;
  in_running = count_running a s.running;
}

abbrev pub Only : ℕ → ℕ → ℕ → ℕ → ℕ → Places → Type 0
Only r o g b n p =
    (p.in_red ≡ r) × (p.in_orange ≡ o) × (p.in_green ≡ g) × (p.in_blocked ≡ b) × (p.in_running ≡ n)

abbrev pub Queued : Priority → Places → Type 0
Queued red p = Only 1 0 0 0 0 p
Queued orange p = Only 0 1 0 0 0 p
Queued green p = Only 0 0 1 0 0 p

abbrev pub Stands : State → Priority → Places → Type 0
Stands ready pr p = Queued pr p
Stands running pr p = Only 0 0 0 0 1 p
Stands block pr p = Only 0 0 0 1 0 p

-- A thread that is not in the table, or no thread at all, stands nowhere.
abbrev pub Fits : Option Thread → Places → Type 0
Fits none p = (p.live ≡ 0) × Only 0 0 0 0 0 p
Fits (some t) p = ((p.live ≡ 0) × Only 0 0 0 0 0 p) ⊎ ((p.live ≡ 1) × Stands t.state t.pr p)

abbrev pub Owns : ℕ → Option Thread → Type 0
Owns k none = ⊥
Owns k (some t) = t.tid ≡ k

abbrev pub IsOutside : Option Thread → Type 0
IsOutside none = Unit
IsOutside (some t) = t.context ≢ suspension

-- The main thread is in the table, never blocked, and never continues inside `uthread_suspend`.
pub record MainIsFree (s : Sched) : Type 0 where
  pub address : ℕ
  pub found : lookup 0 s.threads ≡ some address
  pub unblocked : count address s.blocked ≡ 0
  pub outside : IsOutside (deref s.heap address)

pub record Inv (s : Sched) : Type 0 where
  pub sorted : IsSorted s.threads
  pub small : length s.threads ≤ 100
  pub owner : (k a : ℕ) → lookup k s.threads ≡ some a → Owns k (deref s.heap a)
  pub fits : (a : ℕ) → Fits (deref s.heap a) (places a s)
  pub total :
      length s.threads
      ≡ length_running s.running
        + length s.red_q
        + length s.orange_q
        + length s.green_q
        + length s.blocked
  pub main : MainIsFree s
  pub quantums : sum_quantoms s.heap ≡ s.quantum_counter

-- Somebody runs.
abbrev pub IsActive : Sched → Type 0
IsActive s = (a : ℕ) × (s.running ≡ some a)

-- A call may end the process, never faults, and otherwise keeps the invariant.
abbrev pub Keeps {ℓ} : {A : Type ℓ} → (A → Sched) → Run A → Type 0
Keeps state (ok r) = Inv (state r) × IsActive (state r)
Keeps state (exits n m) = Unit
Keeps state fault = ⊥

-- A thread that stands somewhere is in the store and in the table, under its own id.
pub record Standing (s : Sched) (a : ℕ) : Type 0 where
  pub thread : Thread
  pub at_address : deref s.heap a ≡ some thread
  pub live : count a (addresses s.threads) ≡ 1
  pub stands : Stands thread.state thread.pr (places a s)
  pub keyed : lookup thread.tid s.threads ≡ some a

Fits-Stands : (t : Thread) (p : Places) → Fits (some t) p → 0 < p.live → Stands t.state t.pr p
Fits-Stands t p (inl f) h = absurd (omega arith)
Fits-Stands t p (inr f) h = f.1

Fits-live :
    (o : Option Thread) (p : Places)
    → Fits o p
    → 0 < p.in_red + p.in_orange + p.in_green + p.in_blocked + p.in_running
    → 0 < p.live
Fits-live none p f h = absurd (omega arith)
Fits-live (some t) p (inl f) h = absurd (omega arith)
Fits-live (some t) p (inr f) h = omega arith

Fits-once : (o : Option Thread) (p : Places) → Fits o p → p.live ≤ 1
Fits-once none p f = omega arith
Fits-once (some t) p (inl f) = omega arith
Fits-once (some t) p (inr f) = omega arith

module _ {s : Sched} (v : Inv s) (a : ℕ) where
  keyed_of_live :
      (t : Thread)
      → deref s.heap a ≡ some t
      → 0 < count a (addresses s.threads)
      → lookup t.tid s.threads ≡ some a
  keyed_of_live t e h =
      let (k, found) = key_of a 0 s.threads v.sorted h in ground (arith, v.owner k a found)

  live-at :
      (o : Option Thread) → deref s.heap a ≡ o → 0 < count a (addresses s.threads) → Standing s a
  live-at none e h = absurd (ground (arith, v.fits a))
  live-at (some t) e h = record {
    thread = t;
    at_address = e;
    live = omega (arith, Fits-once (deref s.heap a) (places a s) (v.fits a));
    stands = Fits-Stands t (places a s) (subst (λ o. Fits o (places a s)) e (v.fits a)) h;
    keyed = keyed_of_live t e h;
  }

  pub live-Standing : 0 < count a (addresses s.threads) → Standing s a
  live-Standing h = live-at (deref s.heap a) refl h

  -- Whatever stands in a queue, is blocked or runs is in the table.
  pub placed-Standing :
      0
        < count a s.red_q
          + count a s.orange_q
          + count a s.green_q
          + count a s.blocked
          + count_running a s.running
      → Standing s a
  placed-Standing h = live-Standing (Fits-live (deref s.heap a) (places a s) (v.fits a) h)

  pub running-Standing : s.running ≡ some a → Standing s a
  running-Standing e = placed-Standing (ground arith)

  pub keyed-Standing : (k : ℕ) → lookup k s.threads ≡ some a → Standing s a
  keyed-Standing k e = live-Standing (count_of_lookup k a s.threads e)

  pub keyed-tid :
      (k : ℕ) (t : Thread) → lookup k s.threads ≡ some a → deref s.heap a ≡ some t → t.tid ≡ k
  keyed-tid k t e d = ground (arith, v.owner k a e)
