-- ===== src/Meta/Stats.antt =====
-- src/meta.rs, the statistics of `pq_meta`: the bounds of each row group in the host's types
-- (`stats_of`, `put_null`, `pick`, `to_ns`, `put_stat`).
pub mod Bounds
pub mod Columns
use Prim.Native.Nat.{max}
use parquet_interop.Prelude.{
  ℕ, zero, suc, ◌-◌, ◌+◌, ◌%◌, ◌^◌, Bool, true, false, Option, none, some, List, [], ◌∷◌, ◌==◌,
  if◌then◌else◌, set,
}
use parquet_interop.Prelude.Int.{ℤ, pos, negsuc, ◌-ℤ◌, ◌*ℤ◌, fits, bits_of, wrap, null_of}
use parquet_interop.Types.{
  TimeUnit, DataType, timestamp, duration, ns_per, kb, kg, kh, ki, kj, ke, kf, ks, kp, kd, kt, kn,
}

-- Option's `and_then`
infixl 5 ◌>>=◌
abbrev pub ◌>>=◌ {ℓ κ} : {A : Type ℓ} {B : Type κ} → Option A → (A → Option B) → Option B
none >>= f = none
some a >>= f = f a

abbrev pub int_half : ℕ
int_half = 2 ^ 31

abbrev pub long_half : ℕ
long_half = 2 ^ 63

-- Days and nanoseconds from 1970 to 2000.
abbrev pub day2000 : ℕ
day2000 = 10_957

abbrev pub ns2000 : ℕ
ns2000 = 946_684_800_000_000_000

unfoldable pub checked_sub : ℕ → ℤ → ℕ → Option ℤ
checked_sub half a b = if fits half (a -ℤ pos b) then some (a -ℤ pos b) else none

-- `v.checked_mul(ns_per(u))` for the types that have a unit.
unfoldable pub to_ns : DataType → ℤ → Option ℤ
unfolding ns_per
to_ns (timestamp u) v =
    if fits long_half (v *ℤ pos (ns_per u)) then some (v *ℤ pos (ns_per u)) else none
to_ns (duration u) v =
    if fits long_half (v *ℤ pos (ns_per u)) then some (v *ℤ pos (ns_per u)) else none
to_ns _ v = none

-- The parquet crate's `ValueStatistics`: the bounds that are there, and whether each is exact.
pub record ValueStats {ℓ} (V : Type ℓ) : Type ℓ where
  pub min_opt : Option V
  pub max_opt : Option V
  pub min_is_exact : Bool
  pub max_is_exact : Bool

unfoldable pub pick {ℓ} : {V : Type ℓ} → ValueStats V → Bool → Option V
pick s true = if s.max_is_exact then s.max_opt else none
pick s false = if s.min_is_exact then s.min_opt else none

-- The host's elements: floats with their not-a-number, and the symbol of a text.
pub record Elements : Type 1 where
  pub F32 : Type 0
  pub F64 : Type 0
  pub Sym : Type 0
  pub Bytes : Type 0
  pub nan32 : F32
  pub nan64 : F64
  pub empty : Sym
  pub intern : Bytes → Sym

module _ (e : Elements) where
  open e use {F32, F64, Sym, Bytes, nan32, nan64, empty, intern}

  -- An element of a host vector, by its machine type.
  pub data Cell : Type 0 where
    byte : ℕ → Cell
    short : ℤ → Cell
    int : ℤ → Cell
    long : ℤ → Cell
    real : F32 → Cell
    float : F64 → Cell
    symbol : Sym → Cell

  -- `Statistics`, by the physical type; an INT96 or a fixed-length byte array is `stat_other`.
  pub data Statistics : Type 0 where
    stat_boolean : ValueStats Bool → Statistics
    stat_int32 : ValueStats ℤ → Statistics
    stat_int64 : ValueStats ℤ → Statistics
    stat_float : ValueStats F32 → Statistics
    stat_double : ValueStats F64 → Statistics
    stat_byte_array : ValueStats Bytes → Statistics
    stat_other : Statistics

  -- The null of a type: none for a tag without a column type, where nothing is written.
  unfoldable pub null_cell : ℕ → Option Cell
  null_cell lt =
      if lt == kb
      then some (byte 0)
      else if lt == kg
      then some (byte 0)
      else if lt == kh
      then some (short (null_of (2 ^ 15)))
      else if lt == ki
      then some (int (null_of int_half))
      else if lt == kd
      then some (int (null_of int_half))
      else if lt == kt
      then some (int (null_of int_half))
      else if lt == kj
      then some (long (null_of long_half))
      else if lt == kp
      then some (long (null_of long_half))
      else if lt == kn
      then some (long (null_of long_half))
      else if lt == ke
      then some (real nan32)
      else if lt == kf
      then some (float nan64)
      else if lt == ks
      then some (symbol empty)
      else none

  -- A write of an element, if there is one to write.
  abbrev pub put : Option Cell → List Cell → ℕ → List Cell
  put none col g = col
  put (some c) col g = set col g c

  unfoldable pub put_null : ℕ → List Cell → ℕ → List Cell
  unfolding null_cell
  put_null lt col g = put (null_cell lt) col g

  abbrev pub bit : Bool → ℕ
  bit true = 1
  bit false = 0

  -- The element that `put_stat` writes, if any: the arms of its match, by the physical type.
  unfoldable pub stat_cell : ℕ → DataType → Statistics → Bool → Option Cell
  unfolding pick checked_sub to_ns
  stat_cell lt dt (stat_boolean s) hi =
      if lt == kb then (do v ← pick s hi; some (byte (bit v))) else none
  stat_cell lt dt (stat_int32 s) hi =
      if lt == kg
      then (do v ← pick s hi; some (byte (bits_of (2 ^ 31) v % 2 ^ 8)))
      else if lt == kh
      then (do v ← pick s hi; some (short (wrap (2 ^ 15) v)))
      else if lt == ki
      then (do v ← pick s hi; some (int v))
      else if lt == kt
      then (do v ← pick s hi; some (int v))
      else if lt == kd
      then (do v ← pick s hi; d ← checked_sub int_half v day2000; some (int d))
      else none
  stat_cell lt dt (stat_int64 s) hi =
      if lt == kj
      then (do v ← pick s hi; some (long v))
      else if lt == kp
      then (do v ← pick s hi; w ← to_ns dt v; t ← checked_sub long_half w ns2000; some (long t))
      else if lt == kn
      then (do v ← pick s hi; t ← to_ns dt v; some (long t))
      else none
  stat_cell lt dt (stat_float s) hi = if lt == ke then (do v ← pick s hi; some (real v)) else none
  stat_cell lt dt (stat_double s) hi = if lt == kf then (do v ← pick s hi; some (float v)) else none
  stat_cell lt dt (stat_byte_array s) hi =
      if lt == ks then (do v ← pick s hi; some (symbol (intern v))) else none
  stat_cell lt dt stat_other hi = none

  unfoldable pub put_stat : ℕ → DataType → List Cell → ℕ → Statistics → Bool → List Cell
  unfolding stat_cell
  put_stat lt dt col g st hi = put (stat_cell lt dt st hi) col g

  -- One row group of `stats_of`: its two bounds, null first.
  unfoldable pub put_bounds :
      ℕ → DataType → ℕ → Option Statistics → List Cell × List Cell → List Cell × List Cell
  unfolding put_null put_stat
  put_bounds lt dt g none (mn, mx) = (put_null lt mn g, put_null lt mx g)
  put_bounds lt dt g (some st) (mn, mx) =
      (put_stat lt dt (put_null lt mn g) g st false, put_stat lt dt (put_null lt mx g) g st true)

  -- The row groups of a file, whose column has type `dt`, and the files of the set.
  unfoldable pub file_bounds :
      ℕ
      → DataType
      → ℕ
      → List (Option Statistics)
      → List Cell × List Cell
      → ℕ × (List Cell × List Cell)
  unfolding put_bounds
  file_bounds lt dt g [] cols = (g, cols)
  file_bounds lt dt g (st ∷ sts) cols = file_bounds lt dt (g + 1) sts (put_bounds lt dt g st cols)

  unfoldable pub set_bounds :
      ℕ
      → List (DataType × List (Option Statistics))
      → ℕ × (List Cell × List Cell)
      → List Cell × List Cell
  unfolding file_bounds
  set_bounds lt [] (g, cols) = cols
  set_bounds lt ((dt, sts) ∷ files) (g, cols) = set_bounds lt files (file_bounds lt dt g sts cols)
