-- ===== src/Read/Symbols.antt =====
-- src/read.rs, `SymCache`: interned symbols by their bytes (`get`) and by dictionary
-- (`dict_table`), and the two ways to fill a symbol column.
pub mod Lookup
pub mod Columns
use Prim.Native.Nat.{bit_and, bit_xor}
use parquet_interop.Prelude.{
  ℕ, zero, suc, ◌+◌, ◌-◌, ◌*◌, ◌/◌, ◌%◌, ◌^◌, Bool, true, false, not, ◌&&◌, Option, none, some,
  List, [], ◌∷◌, ◌++◌, map, ltb, leb, ◌==◌, if◌then◌else◌, length, get_elem?, set, get_or,
  replicate, Result, ok, err, ◌>>=◌,
}
use parquet_interop.Read.Nulls.{BitChunks}
use parquet_interop.Read.Fill.{null_rows}
use parquet_interop.Mru.{position, to_front, push_front}

abbrev pub Bytes : Type 0
Bytes = List ℕ

-- The host's intern table, as a function of the bytes: `sn` answers the same permanent pointer for
-- the same bytes. `read p n` are the `n` bytes at the pointer `p`.
pub record Host : Type 1 where
  pub Ptr : Type 0
  pub intern : Bytes → Ptr
  pub read : Ptr → ℕ → Bytes

-- `u64::from_le_bytes`
abbrev pub le_value : Bytes → ℕ
le_value [] = 0
le_value (b ∷ bs) = b + 256 * le_value bs

abbrev pub hash_mul : ℕ
hash_mul = 0x517c_c1b7_2722_0a95

-- `(h ^ w).wrapping_mul(M)`
abbrev pub mix : ℕ → ℕ → ℕ
mix h w = bit_xor h w * hash_mul % 2 ^ 64

-- The loop of `fxh`, eight bytes a round, and the zero-padded tail behind it.
unfoldable pub hash_loop : ℕ → Bytes → ℕ
hash_loop h (b0 ∷ b1 ∷ b2 ∷ b3 ∷ b4 ∷ b5 ∷ b6 ∷ b7 ∷ rest) =
    hash_loop (mix h (le_value (b0 ∷ b1 ∷ b2 ∷ b3 ∷ b4 ∷ b5 ∷ b6 ∷ b7 ∷ []))) rest
hash_loop h [] = h
hash_loop h tail = mix h (le_value tail)

unfoldable pub fxh : Bytes → ℕ
unfolding hash_loop
fxh b = let h = hash_loop (length b % 2 ^ 64) b in bit_xor h (h / 2 ^ 29)

abbrev pub slot_count : ℕ
slot_count = 2 ^ 12

abbrev pub long : ℕ
long = 2 ^ 12

unfoldable pub bytes_eq : Bytes → Bytes → Bool
bytes_eq [] [] = true
bytes_eq (x ∷ xs) (y ∷ ys) = x == y && bytes_eq xs ys
bytes_eq _ _ = false

abbrev pub dict_max : ℕ
dict_max = 4

-- `utf8_of` reads a dictionary array as strings, none for a null; `ptr` is the address that
-- `Arc::ptr_eq` compares.
pub record Arrays : Type 1 where
  pub ArrayRef : Type 0
  pub ptr : ArrayRef → ℕ
  pub utf8_of : ArrayRef → Result (List (Option Bytes))

module _ (host : Host) where
  open host use {Ptr, intern, read}

  -- An empty slot has no `sym`: the null pointer.
  pub record Slot : Type 0 where
    pub tag : ℕ
    pub len : ℕ
    pub sym : Option Ptr

  abbrev pub empty_slot : Slot
  empty_slot = record { tag = 0; len = 0; sym = none }

  -- The symbol that a slot answers for bytes `b`: tag and length are compared first, then the
  -- interned bytes.
  unfoldable pub slot_sym : Slot → Option Ptr → ℕ → Bytes → Option Ptr
  slot_sym s none tag b = none
  slot_sym s (some p) tag b =
      if s.tag == tag && s.len == length b && bytes_eq (read p (length b)) b then some p else none

  module _ (arrays : Arrays) where
    open arrays use {ArrayRef, ptr, utf8_of}

    pub record SymCache : Type 0 where
      pub slots : List Slot
      pub dicts : List (ArrayRef × List Ptr)
      pub luts : List (ArrayRef × Option (List ℕ))

    unfoldable pub new : SymCache
    new = record { slots = replicate slot_count empty_slot; dicts = []; luts = [] }

    -- A slot that does not answer takes the symbol that is interned now.
    unfoldable pub get_answer : SymCache → Bytes → ℕ → ℕ → Option Ptr → Ptr × SymCache
    get_answer c b tag i (some p) = (p, c)
    get_answer c b tag i none = (
      intern b,
      record c {
        slots =
            set c.slots i (record { tag = tag; len = length b % 2 ^ 32; sym = some (intern b) });
      },
    )

    -- A slot past the end is a panic.
    unfoldable pub get_slot : SymCache → Bytes → ℕ → ℕ → Option Slot → Result (Ptr × SymCache)
    unfolding get_answer slot_sym
    get_slot c b tag i none = err "index out of bounds"
    get_slot c b tag i (some s) = ok (get_answer c b tag i (slot_sym s s.sym tag b))

    unfoldable pub get : SymCache → Bytes → Result (Ptr × SymCache)
    unfolding fxh get_slot
    get c b =
        if leb long (length b)
        then ok (intern b, c)
        else let h = fxh b in
          let i = bit_and h (slot_count - 1) in get_slot c b (h / 2 ^ 32) i (get_elem? c.slots i)

    -- The symbols of a list of strings, in order; `empty` for a null.
    unfoldable pub get_all : SymCache → Ptr → List (Option Bytes) → Result (List Ptr × SymCache)
    unfolding get
    get_all c empty [] = ok ([], c)
    get_all c empty (none ∷ vs) = do (t, c') ← get_all c empty vs; ok (empty ∷ t, c')
    get_all c empty (some b ∷ vs) = do
      (p, c') ← get c b
      (t, c'') ← get_all c' empty vs
      ok (p ∷ t, c'')

    -- The table of a dictionary that is not among those kept.
    unfoldable pub dict_miss : SymCache → ArrayRef → Ptr → Result (List Ptr × SymCache)
    unfolding get_all push_front
    dict_miss c vals empty = do
      sa ← utf8_of vals
      (t, c') ← get_all c empty sa
      ok (t, record c' { dicts = push_front dict_max (vals, t) c'.dicts })

    -- The table of the entry that came to the front.
    unfoldable pub dict_hit : SymCache → List (ArrayRef × List Ptr) → Result (List Ptr × SymCache)
    dict_hit c [] = err "index out of bounds"
    dict_hit c (e ∷ rest) = ok (e.1, record c { dicts = e ∷ rest })

    unfoldable pub dict_found : SymCache → ArrayRef → Ptr → Option ℕ → Result (List Ptr × SymCache)
    unfolding dict_miss dict_hit to_front
    dict_found c vals empty none = dict_miss c vals empty
    dict_found c vals empty (some i) = dict_hit c (to_front i c.dicts)

    unfoldable pub dict_table : SymCache → ArrayRef → Ptr → Result (List Ptr × SymCache)
    unfolding dict_found position
    dict_table c vals empty = dict_found c vals empty (position (λ e. ptr e.0 == ptr vals) c.dicts)

    -- `DictionaryArray`: a key for each row, as an index.
    pub record DictArray : Type 0 where
      pub keys : List ℕ
      pub nulls : Option BitChunks
      pub dict_values : ArrayRef

    -- The first loop of `fill_sym_dict`; a key out of range reads as the empty symbol.
    unfoldable pub gather : List Ptr → Ptr → ℕ → List ℕ → List Ptr → List Ptr
    gather tbl empty i [] dst = dst
    gather tbl empty i (k ∷ ks) dst = gather tbl empty (i + 1) ks (set dst i (get_or tbl k empty))

    unfoldable pub fill_sym_dict :
        DictArray → List Ptr → ℕ → SymCache → Result (List Ptr × SymCache)
    unfolding get dict_table gather null_rows
    fill_sym_dict a dst off sy = do
      (empty, sy1) ← get sy []
      (tbl, sy2) ← dict_table sy1 a.dict_values empty
      ok (null_rows empty a.nulls off (gather tbl empty off a.keys dst), sy2)

    -- The loop of `fill_sym_plain`.
    unfoldable pub fill_strings :
        Ptr → List (Option Bytes) → ℕ → List Ptr → SymCache → Result (List Ptr × SymCache)
    unfolding get
    fill_strings empty [] i dst sy = ok (dst, sy)
    fill_strings empty (none ∷ rest) i dst sy = fill_strings empty rest (i + 1) (set dst i empty) sy
    fill_strings empty (some b ∷ rest) i dst sy = do
      (p, sy') ← get sy b
      fill_strings empty rest (i + 1) (set dst i p) sy'

    unfoldable pub fill_sym_plain :
        ArrayRef → List Ptr → ℕ → SymCache → Result (List Ptr × SymCache)
    unfolding get fill_strings
    fill_sym_plain arr dst off sy = do
      a ← utf8_of arr
      (empty, sy') ← get sy []
      fill_strings empty a off dst sy'
