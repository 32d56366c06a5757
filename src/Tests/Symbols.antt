-- ===== src/Tests/Symbols.antt =====
-- src/read.rs: symbol columns with a host that interns a text as itself.
use parquet_interop.Prelude.{
  ℕ, ◌≡◌, refl, Option, none, some, List, [], ◌∷◌, arith, length, take, take-length, ok,
}
use parquet_interop.Prelude.Bits.{bits}
use parquet_interop.Read.Fill.Rows.{end, null, value, Stands}
use parquet_interop.Read.Symbols.{
  Bytes, Host, Arrays, SymCache, new, get, dict_table, DictArray, fill_sym_dict, fill_sym_plain,
}
use parquet_interop.Read.Symbols.Lookup.{IsSound, Gives, new-IsSound, get-intern, dict_table-symbol}
use parquet_interop.Read.Symbols.Columns.{fill_sym_plain-symbol, fill_sym_dict-symbol}

abbrev texts_host : Host
texts_host = record { Ptr = Bytes; intern = λ b. b; read = λ p n. take n p }

texts_host_reads : (b : Bytes) → take (length b) b ≡ b
texts_host_reads b = take-length b (length b) (omega arith)

-- One dictionary array: ab, a null, and the empty text.
abbrev values : List (Option Bytes)
values = some (97 ∷ 98 ∷ []) ∷ none ∷ some [] ∷ []

abbrev one_array : Arrays
one_array = record { ArrayRef = Unit; ptr = λ a. 0; utf8_of = λ a. ok values }

one_array_ptr : (a b : Unit {0}) → ◌≡◌ {A = ℕ} 0 0 → a ≡ b
one_array_ptr a b h = refl

abbrev cache : SymCache texts_host one_array
cache = new texts_host one_array

cache-IsSound : IsSound texts_host one_array cache
cache-IsSound = new-IsSound texts_host one_array

get-intern_example :
    Gives texts_host one_array (get texts_host one_array cache (97 ∷ 98 ∷ [])) (97 ∷ 98 ∷ [])
get-intern_example =
    get-intern texts_host one_array texts_host_reads cache (97 ∷ 98 ∷ []) cache-IsSound

dict_table-symbol_example :
    Gives texts_host one_array
      (dict_table texts_host one_array cache tt [])
      ((97 ∷ 98 ∷ []) ∷ [] ∷ [] ∷ [])
dict_table-symbol_example =
    dict_table-symbol texts_host one_array texts_host_reads one_array_ptr cache tt values
      cache-IsSound refl

abbrev host_vector : List Bytes
host_vector = (112 ∷ []) ∷ [] ∷ [] ∷ [] ∷ (113 ∷ []) ∷ []

fill_sym_plain-symbol_example :
    Gives texts_host one_array
      (fill_sym_plain texts_host one_array tt host_vector 1 cache)
      ((112 ∷ []) ∷ (97 ∷ 98 ∷ []) ∷ [] ∷ [] ∷ (113 ∷ []) ∷ [])
fill_sym_plain-symbol_example =
    fill_sym_plain-symbol texts_host one_array texts_host_reads tt values host_vector 1 cache refl
      (omega arith) cache-IsSound

-- The keys 0, a null row, and 9, which is out of range.
abbrev keys : List (Option ℕ)
keys = some 0 ∷ none ∷ some 9 ∷ []

abbrev keyed : DictArray texts_host one_array
keyed = record {
  keys = 0 ∷ 7 ∷ 9 ∷ [];
  nulls = some (record { words = []; remainder_len = 3; remainder_bits = 5 });
  dict_values = tt;
}

keyed-Stands : Stands keys keyed.keys keyed.nulls
unfolding bits
keyed-Stands = (
  record { full = tt; partial_len = omega arith; partial = omega arith },
  value 0 (null 7 (value 9 end)),
)

fill_sym_dict-symbol_example :
    Gives texts_host one_array
      (fill_sym_dict texts_host one_array keyed host_vector 1 cache)
      ((112 ∷ []) ∷ (97 ∷ 98 ∷ []) ∷ [] ∷ [] ∷ (113 ∷ []) ∷ [])
fill_sym_dict-symbol_example =
    fill_sym_dict-symbol texts_host one_array texts_host_reads one_array_ptr keyed keys values
      host_vector 1 cache keyed-Stands refl (omega arith) cache-IsSound
