-- ===== src/Osm/Tests.antt =====
-- A run of `measureTimes` of ex1/osm.cpp.
use os_huji.Prelude.{ℕ, ◌+◌, ◌%◌, ◌<◌, ◌≤◌, ◌≡◌, refl, Option, none, some, [], ◌∷◌, pos, arith}
use os_huji.Osm.Measure.{Time, Machine, measure_times}
use os_huji.Osm.Iterations.{measure_times_counts}

abbrev at : ℕ → Option Time
at n = some (record { tv_sec = n; tv_usec = n })

abbrev idle : Machine
idle = record {
  clock = at 1 ∷ at 2 ∷ at 2 ∷ at 3 ∷ at 3 ∷ at 5 ∷ [];
  functions_done = 0;
  traps_done = 0;
  operations_done = 0;
}

measure_times_counts_example :
    (k : ℕ) × (7 ≤ k)
    × (k < 7 + 5)
    × (k % 5 ≡ 0)
    × ((measure_times none 7 idle).0.number_of_iterations ≡ pos k)
    × ((measure_times none 7 idle).1 ≡ record {
      clock = [];
      functions_done = 0 + k;
      traps_done = 0 + k;
      operations_done = 0 + k;
    })
    × ((measure_times none 7 idle).0.function_time_nano_second
        ≡ some (record { nanoseconds = pos 1000001000; iterations = 7 }))
    × ((measure_times none 7 idle).0.instruction_time_nano_second
        ≡ some (record { nanoseconds = pos 1000001000; iterations = 7 }))
    × ((measure_times none 7 idle).0.trap_time_nano_second
        ≡ some (record { nanoseconds = pos 2000002000; iterations = 7 }))
measure_times_counts_example =
    measure_times_counts none 7 (record { tv_sec = 1; tv_usec = 1 })
      (record { tv_sec = 2; tv_usec = 2 }) (record { tv_sec = 2; tv_usec = 2 })
      (record { tv_sec = 3; tv_usec = 3 }) (record { tv_sec = 3; tv_usec = 3 })
      (record { tv_sec = 5; tv_usec = 5 }) [] idle (omega arith) (omega arith) refl
