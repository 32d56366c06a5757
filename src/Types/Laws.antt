-- ===== src/Types/Laws.antt =====
-- Facts of the type maps: what is written reads back, and a raw decode has the vector's width.
use Prim.Native.String.{String}
use parquet_interop.Prelude.{ℕ, ◌<◌, ◌≤◌, ◌≡◌, refl, Bool, some, arith, ok, ◌==◌, if◌then◌else◌}
use parquet_interop.Types.{
  kp, kz, ki, kj, ke, kf, kt, kd, kn, width, millisecond, DataType, PhysType, l_type_of, Raw,
  raw_i32, raw_i64, raw_f32, raw_f64, raw_of, arrow_type,
}

-- Bytes of an element as the page decoder writes it.
abbrev pub raw_width : Raw → ℕ
raw_width raw_i32 = 4
raw_width (raw_i64 m) = 8
raw_width raw_f32 = 4
raw_width raw_f64 = 8

-- Whatever tag the writer accepts, in either spelling of symbols, the column reads back as a
-- vector of the same tag; but a datetime reads back as a timestamp.
pub l_type_of-arrow_type :
    (show_type : DataType → String) (show : ℕ → String) (t : ℕ) (sym_dict : Bool) (dt : DataType)
    → arrow_type show t sym_dict ≡ ok dt
    → l_type_of show_type dt ≡ ok (if t == kz then kp else t)
unfolding arrow_type l_type_of
l_type_of-arrow_type show_type show t sym_dict dt e = ground arith

-- The units that a raw decode multiplies by: those of time, and 1.
abbrev pub IsUnit : Raw → Type 0
IsUnit (raw_i64 m) = (0 < m) × (m ≤ 1_000_000_000)
IsUnit _ = Unit

-- A column that decodes straight into the host's vector has a host type whose elements are exactly
-- as wide as those that the decoder writes, and its unit is at least 1 and at most that of a second.
pub raw_of-width :
    (show : DataType → String) (dt : DataType) (pt : PhysType) (r : Raw)
    → raw_of dt pt ≡ some r
    → (lt : ℕ) × (l_type_of show dt ≡ ok lt) × (width lt ≡ raw_width r) × IsUnit r
unfolding raw_of l_type_of width
raw_of-width show DataType.int32 PhysType.phys_int32 r e = (ki, refl, ground arith, ground arith)
raw_of-width show DataType.date32 PhysType.phys_int32 r e = (kd, refl, ground arith, ground arith)
raw_of-width show (DataType.time32 millisecond) PhysType.phys_int32 r e =
    (kt, refl, ground arith, ground arith)
raw_of-width show DataType.int64 PhysType.phys_int64 r e = (kj, refl, ground arith, ground arith)
raw_of-width show (DataType.timestamp u) PhysType.phys_int64 r e =
    (kp, refl, ground arith, ground arith)
raw_of-width show (DataType.duration u) PhysType.phys_int64 r e =
    (kn, refl, ground arith, ground arith)
raw_of-width show DataType.float32 PhysType.phys_float r e = (ke, refl, ground arith, ground arith)
raw_of-width show DataType.float64 PhysType.phys_double r e = (kf, refl, ground arith, ground arith)
raw_of-width show dt pt r e = cc
