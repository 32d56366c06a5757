-- ===== src/Tests/Statistics.antt =====
-- src/meta.rs: bounds at concrete inputs.
use parquet_interop.Prelude.{
  ℕ, ◌≡◌, refl, true, false, Option, none, some, List, [], ◌∷◌, map, arith, set,
}
use parquet_interop.Prelude.Int.{ℤ, pos, null_of}
use parquet_interop.Native.{int_ops}
use parquet_interop.Types.{
  DataType, timestamp, date32, duration, microsecond, nanosecond, ns_per, kd, kp, kn,
}
use parquet_interop.Read.Patch.{shift}
use parquet_interop.Meta.Stats.{
  int_half, long_half, day2000, ns2000, ValueStats, pick, Elements, Cell, int, long, null_cell,
  Statistics, stat_int32, stat_int64, put_null, put_stat, set_bounds,
}
use parquet_interop.Meta.Stats.Bounds.{put_stat-eq-shift}
use parquet_interop.Meta.Stats.Columns.{bound, set_stats, set_bounds_lem}

abbrev no_elements : Elements
no_elements = record {
  F32 = Unit;
  F64 = Unit;
  Sym = ℕ;
  Bytes = ℕ;
  nan32 = tt;
  nan64 = tt;
  empty = 0;
  intern = λ b. b;
}

abbrev days : ValueStats ℤ
days = record {
  min_opt = some (pos 20_000);
  max_opt = some (pos 20_001);
  min_is_exact = true;
  max_is_exact = false;
}

abbrev times : ValueStats ℤ
times = record {
  min_opt = some (pos 1_700_000_000_000_000);
  max_opt = none;
  min_is_exact = true;
  max_is_exact = true;
}

abbrev cells : List (Cell no_elements)
cells = long (pos 0) ∷ long (pos 1) ∷ []

put_stat-eq-shift_example :
    (put_stat no_elements kd date32 (put_null no_elements kd cells 1) 1 (stat_int32 days) false
      ≡ set cells 1
          (int (shift (int_ops int_half) (null_of int_half) (pos day2000) (pos 1) (pos 20_000))))
    × (put_stat no_elements kp
          (timestamp microsecond)
          (put_null no_elements kp cells 1)
          1
          (stat_int64 times)
          false
        ≡ set cells 1 (
            long (
              shift
                (int_ops long_half)
                (null_of long_half)
                (pos ns2000)
                (pos (ns_per microsecond))
                (pos 1_700_000_000_000_000))))
    × (put_stat no_elements kn
          (duration microsecond)
          (put_null no_elements kn cells 1)
          1
          (stat_int64 times)
          false
        ≡ set cells 1 (
            long (
              shift
                (int_ops long_half)
                (null_of long_half)
                (pos 0)
                (pos (ns_per microsecond))
                (pos 1_700_000_000_000_000))))
put_stat-eq-shift_example =
    put_stat-eq-shift no_elements microsecond days times false (pos 20_000)
      (pos 1_700_000_000_000_000) cells 1 day (omega arith, omega arith) time
      (omega arith, omega arith)
  where
    day : pick days false ≡ some (pos 20_000)
    day = unfold pick in refl

    time : pick times false ≡ some (pos 1_700_000_000_000_000)
    time = unfold pick in refl

-- Two files with other units of time; the second has a row group without statistics.
abbrev two_files : List (DataType × List (Option (Statistics no_elements)))
two_files =
    (timestamp microsecond, some (stat_int64 times) ∷ [])
    ∷ (timestamp nanosecond, none ∷ some (stat_int64 times) ∷ [])
    ∷ []

abbrev three_cells : List (Cell no_elements)
three_cells = long (pos 0) ∷ long (pos 0) ∷ long (pos 0) ∷ []

abbrev time_null : Cell no_elements
time_null = long (null_of long_half)

set_bounds_lem_example : set_bounds no_elements kp two_files (0, (three_cells, three_cells)) ≡ (
  map (bound no_elements kp time_null false) (set_stats no_elements kp two_files),
  map (bound no_elements kp time_null true) (set_stats no_elements kp two_files),
)
set_bounds_lem_example =
    set_bounds_lem no_elements kp time_null null two_files three_cells three_cells refl refl
  where
    null : null_cell no_elements kp ≡ some time_null
    null = unfold null_cell in refl
