-- ===== src/Osm/Measure.antt =====
-- The functions of ex1/osm.cpp. A `double` is an exact fraction, and the work of a loop is counted.
use os_huji.Prelude.{
  ℕ, zero, suc, ◌+◌, ◌-◌, ◌*◌, ◌/◌, ◌%◌, ◌^◌, Bool, true, false, Option, none, some, List, [], ◌∷◌,
  ltb, leb, ◌==◌, if◌then◌else◌, ℤ, pos, negsuc, success,
}
use os_huji.Prelude.Numbers.{minus, signed32, Text}

-- What a loop does five times in each round.
pub data Measured : Type 0 where
  functions traps operations : Measured

-- What `gettimeofday` reads.
pub record Time : Type 0 where
  pub tv_sec : ℕ
  pub tv_usec : ℕ

-- What the calls of `gettimeofday` are going to return, and how often each kind of work was done.
pub record Machine : Type 0 where
  pub clock : List (Option Time)
  pub functions_done : ℕ
  pub traps_done : ℕ
  pub operations_done : ℕ

unfoldable pub osm_init : ℤ
osm_init = success

abbrev pub some_work : Measured → ℕ → Machine → Machine
some_work functions n m = record m { functions_done = m.functions_done + n }
some_work traps n m = record m { traps_done = m.traps_done + n }
some_work operations n m = record m { operations_done = m.operations_done + n }

-- A clock without readings fails.
abbrev pub gettimeofday : Machine → Option Time × Machine
gettimeofday m = elim m.clock [ [] ↦ (none, m) | t ∷ ts ↦ (t, record m { clock = ts }) ]

-- A number of nanoseconds over a number of iterations.
pub record Fraction : Type 0 where
  pub nanoseconds : ℤ
  pub iterations : ℕ

-- OSM_DEFAULT_ITER for 0.
abbrev pub chosen : ℕ → ℕ
chosen n = if n == 0 then 50000 else n

-- LP_UNRLNG is 5.
abbrev pub loop_rounds : ℕ → ℕ
loop_rounds n = n / 5 + (if n % 5 == 0 then 0 else 1)

unfoldable pub repeat : Measured → ℕ → Machine → Machine
repeat w zero m = m
repeat w (suc k) m =
    repeat w k (some_work w 1 (some_work w 1 (some_work w 1 (some_work w 1 (some_work w 1 m)))))

abbrev pub difference : ℕ → ℕ → ℤ
difference a b = if leb b a then pos (a - b) else minus (b - a)

-- Seconds times 10^9 and microseconds times 10^3 of the `timersub` of the two times; the second that
-- `timersub` may carry over cancels out.
abbrev pub elapsed : Time → Time → ℤ
elapsed before after =
    difference (after.tv_sec * 10 ^ 9 + after.tv_usec * 10 ^ 3)
      (before.tv_sec * 10 ^ 9 + before.tv_usec * 10 ^ 3)

-- The body that `osm_function_time`, `osm_syscall_time` and `osm_operation_time` share; `none` is
-- FAILURE.
unfoldable pub osm_time : Measured → ℕ → Machine → Option Fraction × Machine
osm_time w osm_iterations m =
    let n = chosen osm_iterations in
    let (before, m1) = gettimeofday m in
    elim before [
      | none ↦ (none, m1)
      | some b ↦
          let (after, m2) = gettimeofday (repeat w (loop_rounds n) m1) in
          elim after [
            | none ↦ (none, m2)
            | some a ↦ (some (record { nanoseconds = elapsed b a; iterations = n }), m2)
          ]
    ]

-- -1 is also a time of -1 nanosecond for each iteration.
abbrev pub is_failure : Option Fraction → Bool
is_failure none = true
is_failure (some f) = elim f.nanoseconds [ pos n ↦ false | negsuc n ↦ n + 1 == f.iterations ]

-- A ratio is FAILURE, an `int`, or the conversion of an infinity or of no number to `int`.
pub data Ratio : Type 0 where
  no_ratio undefined_ratio : Ratio
  whole : ℤ → Ratio

-- A `double` that is cut to an `int`.
abbrev pub in_int : ℤ → Ratio
in_int (pos n) = if ltb n (2 ^ 31) then whole (pos n) else undefined_ratio
in_int (negsuc n) = if ltb n (2 ^ 31) then whole (negsuc n) else undefined_ratio

-- The quotient of two fractions with the same number of iterations.
abbrev pub cut : ℤ → ℤ → Ratio
cut a (pos zero) = undefined_ratio
cut (pos a) (pos (suc b)) = in_int (pos (a / suc b))
cut (pos a) (negsuc b) = in_int (minus (a / suc b))
cut (negsuc a) (pos (suc b)) = in_int (minus (suc a / suc b))
cut (negsuc a) (negsuc b) = in_int (pos (suc a / suc b))

abbrev pub nanoseconds_of : Option Fraction → ℤ
nanoseconds_of none = pos 0
nanoseconds_of (some f) = f.nanoseconds

unfoldable pub ratio : Option Fraction → Option Fraction → Ratio
ratio f instruction =
    if is_failure instruction
    then no_ratio
    else if is_failure f
    then no_ratio
    else cut (nanoseconds_of f) (nanoseconds_of instruction)

pub record TimeMeasurmentStructure : Type 0 where
  pub machine_name : Text
  pub number_of_iterations : ℤ
  pub instruction_time_nano_second : Option Fraction
  pub function_time_nano_second : Option Fraction
  pub trap_time_nano_second : Option Fraction
  pub function_instruction_ratio : Ratio
  pub trap_instruction_ratio : Ratio

-- The name is empty if `gethostname` fails; the number is an `unsigned int` that is put into an `int`.
unfoldable pub measure_times : Option Text → ℕ → Machine → TimeMeasurmentStructure × Machine
measure_times host osm_iterations m =
    let (function_time, m1) = osm_time functions osm_iterations m in
    let (instruction_time, m2) = osm_time operations osm_iterations m1 in
    let (trap_time, m3) = osm_time traps osm_iterations m2 in
    (
      record {
        machine_name = elim host [ none ↦ [] | some name ↦ name ];
        number_of_iterations = signed32 (loop_rounds osm_iterations * 5 % 2 ^ 32);
        instruction_time_nano_second = instruction_time;
        function_time_nano_second = function_time;
        trap_time_nano_second = trap_time;
        function_instruction_ratio = ratio function_time instruction_time;
        trap_instruction_ratio = ratio trap_time instruction_time;
      },
      m3,
    )
