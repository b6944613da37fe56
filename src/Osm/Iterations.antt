-- ===== src/Osm/Iterations.antt =====
-- How often the loops of ex1/osm.cpp do their work, and which number `measureTimes` reports.
use os_huji.Prelude.{
  ℕ, zero, suc, ◌+◌, ◌-◌, ◌*◌, ◌%◌, ◌^◌, ◌<◌, ◌≤◌, ◌≡◌, refl, Option, some, List, ◌∷◌, pos, arith,
}
use os_huji.Prelude.Numbers.{Text}
use os_huji.Osm.Measure.{
  Measured, functions, traps, operations, Time, Machine, some_work, gettimeofday, loop_rounds,
  repeat, elapsed, osm_time, measure_times,
}

some_work-add :
    (w : Measured) (a b : ℕ) (m : Machine) → some_work w a (some_work w b m) ≡ some_work w (b + a) m
some_work-add functions a b m = ground arith
some_work-add traps a b m = ground arith
some_work-add operations a b m = ground arith

some_work-none : (w : Measured) (m : Machine) → some_work w 0 m ≡ m
some_work-none functions m = ground arith
some_work-none traps m = ground arith
some_work-none operations m = ground arith

repeat-some_work : (w : Measured) (k : ℕ) (m : Machine) → repeat w k m ≡ some_work w (k * 5) m
unfolding repeat
repeat-some_work w zero m = ground (arith, some_work-none w m)
repeat-some_work w (suc k) m = ground (
  arith,
  repeat-some_work w k (some_work w 5 m),
  some_work-add w 1 1 m,
  some_work-add w 1 2 m,
  some_work-add w 1 3 m,
  some_work-add w 1 4 m,
  some_work-add w (k * 5) 5 m,
)

keeps_clock :
    (w : Measured) (n : ℕ) (a : Time) (ts : List (Option Time)) (m : Machine)
    → gettimeofday (some_work w n (record m { clock = some a ∷ ts }))
      ≡ (some a, some_work w n (record m { clock = ts }))
keeps_clock functions n a ts m = refl
keeps_clock traps n a ts m = refl
keeps_clock operations n a ts m = refl

-- A loop between two readings of the clock.
osm_time-reads :
    (w : Measured) (n : ℕ) (b a : Time) (ts : List (Option Time)) (m : Machine)
    → 0 < n
    → m.clock ≡ some b ∷ some a ∷ ts
    → osm_time w n m ≡ (
      some (record { nanoseconds = elapsed b a; iterations = n }),
      some_work w (loop_rounds n * 5) (record m { clock = ts }),
    )
unfolding osm_time
osm_time-reads w n b a ts m more clock = ground (
  arith,
  more,
  clock,
  repeat-some_work w (loop_rounds n) (record m { clock = some a ∷ ts }),
  keeps_clock w (loop_rounds n * 5) a ts m,
)

rounds_between : (n : ℕ) → (n ≤ loop_rounds n * 5) × (loop_rounds n * 5 < n + 5)
rounds_between n = ground arith

-- For a number of iterations above 0 and below 2^31-5, and a clock whose six readings succeed,
-- `measureTimes` does each kind of work k times, where k is the least multiple of 5 that is not
-- below the number, reports k, and gives as times what passed between the two readings around each
-- loop, for one of the iterations asked for, not of the k that were done.
pub measure_times_counts :
    (host : Option Text) (n : ℕ) (t1 t2 t3 t4 t5 t6 : Time) (ts : List (Option Time)) (m : Machine)
    → 0 < n
    → n < 2 ^ 31 - 5
    → m.clock ≡ some t1 ∷ some t2 ∷ some t3 ∷ some t4 ∷ some t5 ∷ some t6 ∷ ts
    → (k : ℕ) × (n ≤ k)
      × (k < n + 5)
      × (k % 5 ≡ 0)
      × ((measure_times host n m).0.number_of_iterations ≡ pos k)
      × ((measure_times host n m).1 ≡ record {
        clock = ts;
        functions_done = m.functions_done + k;
        traps_done = m.traps_done + k;
        operations_done = m.operations_done + k;
      })
      × ((measure_times host n m).0.function_time_nano_second
          ≡ some (record { nanoseconds = elapsed t1 t2; iterations = n }))
      × ((measure_times host n m).0.instruction_time_nano_second
          ≡ some (record { nanoseconds = elapsed t3 t4; iterations = n }))
      × ((measure_times host n m).0.trap_time_nano_second
          ≡ some (record { nanoseconds = elapsed t5 t6; iterations = n }))
unfolding measure_times
measure_times_counts host n t1 t2 t3 t4 t5 t6 ts m more fits clock =
    let k = loop_rounds n * 5 in
    let m1 =
      some_work functions k (record m { clock = some t3 ∷ some t4 ∷ some t5 ∷ some t6 ∷ ts }) in
    let m2 = some_work operations k (record m1 { clock = some t5 ∷ some t6 ∷ ts }) in
    let a =
      osm_time-reads functions n t1 t2 (some t3 ∷ some t4 ∷ some t5 ∷ some t6 ∷ ts) m more clock in
    let b = osm_time-reads operations n t3 t4 (some t5 ∷ some t6 ∷ ts) m1 more refl in
    let c = osm_time-reads traps n t5 t6 ts m2 more refl in
    let (low, high) = rounds_between n in
    (
      k,
      low,
      high,
      omega arith,
      ground (arith, fits, high),
      rw (a, b, c) refl,
      rw a refl,
      rw (a, b) refl,
      rw (a, b, c) refl,
    )
