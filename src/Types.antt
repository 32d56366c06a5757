-- ===== src/Types.antt =====
-- The column types of the two sides and the maps between them: the host's type tags and storage
-- widths (src/ffi.rs), the Arrow types that a column may have, and what each is read or written as
-- (`l_type_of`, `ns_per` and `raw_of` of src/read.rs, `arrow_type` of src/write.rs).
pub mod Laws
use Prim.Native.String.{String, ◌++◌ as str_append}
use parquet_interop.Prelude.{
  ℕ, ◌^◌, Bool, true, false, Option, none, some, List, [], ◌∷◌, get_elem?, get_or, ◌==◌, ◌||◌,
  if◌then◌else◌, Result, ok, err,
}

-- Type tags of the host.
abbrev pub kb : ℕ
kb = 1

abbrev pub kg : ℕ
kg = 4

abbrev pub kh : ℕ
kh = 5

abbrev pub ki : ℕ
ki = 6

abbrev pub kj : ℕ
kj = 7

abbrev pub ke : ℕ
ke = 8

abbrev pub kf : ℕ
kf = 9

abbrev pub ks : ℕ
ks = 11

abbrev pub kp : ℕ
kp = 12

abbrev pub kd : ℕ
kd = 14

abbrev pub kz : ℕ
kz = 15

abbrev pub kn : ℕ
kn = 16

abbrev pub kt : ℕ
kt = 19

-- Storage bytes of an element, by tag; 8 for a tag that the table does not have.
unfoldable pub width : ℕ → ℕ
width t =
    get_or (8 ∷ 1 ∷ 16 ∷ 0 ∷ 1 ∷ 2 ∷ 4 ∷ 8 ∷ 4 ∷ 8 ∷ 1 ∷ 8 ∷ 8 ∷ 4 ∷ 4 ∷ 8 ∷ 8 ∷ 4 ∷ 4 ∷ 4 ∷ []) t 8

pub data TimeUnit : Type 0 where
  second millisecond microsecond nanosecond : TimeUnit

-- Arrow's `DataType`: the cases that the program names. Of a timestamp the time zone is left out,
-- which the program drops; `other` carries the text that the type is shown as.
pub data DataType : Type 0 where
  boolean int8 uint8 int16 uint16 int32 uint32 int64 uint64 float32 float64 : DataType
  utf8 large_utf8 utf8_view : DataType
  dictionary : DataType → DataType → DataType
  timestamp : TimeUnit → DataType
  date32 : DataType
  time32 : TimeUnit → DataType
  duration : TimeUnit → DataType
  other : String → DataType

-- Parquet's physical types.
pub data PhysType : Type 0 where
  phys_boolean phys_int32 phys_int64 phys_int96 phys_float phys_double : PhysType
  phys_byte_array phys_fixed_len_byte_array : PhysType

-- `show` is the text of a type, by the library's `Display`.
module _ (show : DataType → String) where
  not_yet : DataType → Result ℕ
  not_yet dt = err (str_append "nyi: column type " (show dt))

  -- `ok` is the tag of the vector that a column of the type is read into.
  unfoldable pub l_type_of : DataType → Result ℕ
  unfolding not_yet
  l_type_of boolean = ok kb
  l_type_of int8 = ok kg
  l_type_of uint8 = ok kg
  l_type_of int16 = ok kh
  l_type_of int32 = ok ki
  l_type_of int64 = ok kj
  l_type_of float32 = ok ke
  l_type_of float64 = ok kf
  l_type_of utf8 = ok ks
  l_type_of large_utf8 = ok ks
  l_type_of utf8_view = ok ks
  l_type_of (dictionary k v) = elim (l_type_of v) [
    | ok t ↦ if t == ks then ok ks else not_yet (dictionary k v)
    | err _ ↦ not_yet (dictionary k v)
  ]
  l_type_of (timestamp u) = ok kp
  l_type_of date32 = ok kd
  l_type_of (time32 millisecond) = ok kt
  l_type_of (duration u) = ok kn
  l_type_of dt = not_yet dt

unfoldable pub ns_per : TimeUnit → ℕ
ns_per second = 1_000_000_000
ns_per millisecond = 1_000_000
ns_per microsecond = 1_000
ns_per nanosecond = 1

-- How a column decodes straight into the host's vector: the width that the decoder uses, and the
-- nanoseconds of a unit.
pub data Raw : Type 0 where
  raw_i32 : Raw
  raw_i64 : ℕ → Raw
  raw_f32 raw_f64 : Raw

unfoldable pub raw_of : DataType → PhysType → Option Raw
unfolding ns_per
raw_of int32 phys_int32 = some raw_i32
raw_of date32 phys_int32 = some raw_i32
raw_of (time32 millisecond) phys_int32 = some raw_i32
raw_of int64 phys_int64 = some (raw_i64 1)
raw_of (timestamp u) phys_int64 = some (raw_i64 (ns_per u))
raw_of (duration u) phys_int64 = some (raw_i64 (ns_per u))
raw_of float32 phys_float = some raw_f32
raw_of float64 phys_double = some raw_f64
raw_of _ _ = none

-- The Arrow type that a vector of tag `t` is written as; `sym_dict` picks the spelling of symbols.
-- `show` is the text of a number.
unfoldable pub arrow_type : (ℕ → String) → ℕ → Bool → Result DataType
arrow_type show t sym_dict =
    if t == kb
    then ok boolean
    else if t == kg
    then ok uint8
    else if t == kh
    then ok int16
    else if t == ki
    then ok int32
    else if t == kj
    then ok int64
    else if t == ke
    then ok float32
    else if t == kf
    then ok float64
    else if t == ks
    then ok (if sym_dict then dictionary int32 utf8 else utf8)
    else if t == kd
    then ok date32
    else if t == kt
    then ok (time32 millisecond)
    else if t == kp || t == kz
    then ok (timestamp nanosecond)
    else if t == kn
    then ok (duration nanosecond)
    else if t == 0
    then err "nyi: list column"
    else err (str_append "nyi: column type " (show t))
