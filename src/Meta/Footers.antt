-- ===== src/Meta/Footers.antt =====
-- src/meta.rs: the footer of a file, with the symbol dictionary hint (`dict_hint`), and the cache
-- of parsed footers (`Key`, `FOOTERS`, `load`).
pub mod Cache
pub mod Coherent
pub mod Hint
pub mod Loads
use Prim.Native.String.{String, ◌++◌ as str_append}
use text.Mathlib.Text.{◌==◌ as str_eq}
use parquet_interop.Prelude.{
  ℕ, ◌^◌, Bool, true, false, ◌&&◌, ◌||◌, Option, none, some, List, [], ◌∷◌, map, ◌==◌,
  if◌then◌else◌, take, drop, length, Result, ok, err, ◌>>=◌,
}
use parquet_interop.Prelude.Int.{ℤ, pos, ◌+ℤ◌, eqb_ℤ, wrap}
use parquet_interop.Types.{DataType, utf8, large_utf8, utf8_view, dictionary, int32}
use parquet_interop.Mru.{position, to_front, push_front}
use parquet_interop.Meta.Leaf.{leaf_map}

-- Arrow's `Field` and `Schema`.
pub record Field : Type 0 where
  pub name : String
  pub data_type : DataType
  pub nullable : Bool
  pub metadata : List (String × String)

pub record Schema : Type 0 where
  pub fields : List Field
  pub metadata : List (String × String)

unfoldable pub is_string : DataType → Bool
is_string utf8 = true
is_string large_utf8 = true
is_string utf8_view = true
is_string _ = false

-- The closure of `dict_hint`: a string field as a dictionary, with all else kept.
unfoldable pub hint_field : Field → Field
hint_field f = if is_string f.data_type then record f { data_type = dictionary int32 utf8 } else f

unfoldable pub any_string : List Field → Bool
any_string [] = false
any_string (f ∷ fs) = is_string f.data_type || any_string fs

unfoldable pub dict_hint : Schema → Option Schema
dict_hint s =
    if any_string s.fields then some (record s { fields = map hint_field s.fields }) else none

-- What the file system says that a file is.
pub record Key : Type 0 where
  pub path : String
  pub dev : ℕ
  pub ino : ℕ
  pub size : ℕ
  pub mtime_sec : ℤ
  pub mtime_nsec : ℤ

unfoldable pub key_eq : Key → Key → Bool
key_eq a b =
    str_eq a.path b.path
    && a.dev == b.dev
    && a.ino == b.ino
    && a.size == b.size
    && eqb_ℤ a.mtime_sec b.mtime_sec
    && eqb_ℤ a.mtime_nsec b.mtime_nsec

-- `iter().sum::<i64>()`
unfoldable pub sum_from : ℤ → List ℤ → ℤ
sum_from acc [] = acc
sum_from acc (x ∷ xs) = sum_from (wrap (2 ^ 63) (acc +ℤ x)) xs

abbrev pub sum_i64 : List ℤ → ℤ
sum_i64 = sum_from (pos 0)

-- The parquet crate's footers, and what it answers for a file's content.
pub record FooterLib : Type 1 where
  pub File : Type 0
  pub Md : Type 0
  pub load_md : File → Result Md
  pub try_new : Md → Schema → Option Md
  pub schema : Md → Schema
  pub row_groups : Md → List ℤ
  pub declared : Md → ℤ
  pub root_of : Md → ℕ → ℕ
  pub columns : Md → ℕ

abbrev pub footers_max : ℕ
footers_max = 32

module _ (lib : FooterLib) where
  open lib use {File, Md, load_md, try_new, schema, row_groups, declared, root_of, columns}

  pub record Src : Type 0 where
    pub path : String
    pub orig : String
    pub md : Md
    pub rg_rows : List ℤ
    pub leaf : List (Option ℕ)

  -- A parsed footer, as the cache holds it.
  abbrev pub Footer : Type 0
  Footer = Md × List ℤ

  abbrev pub Footers : Type 0
  Footers = List (Key × Footer)

  -- The closure `mk`.
  unfoldable pub make_src : String → String → Footer → Src
  make_src orig path (md, rg_rows) = record {
    path = path;
    orig = orig;
    md = md;
    rg_rows = rg_rows;
    leaf = leaf_map (root_of md) (length (schema md).fields) (columns md);
  }

  -- The first part under the lock: a hit comes to the front.
  unfoldable pub find_footer : Key → Footers → Option Footer × Footers
  find_footer key c = elim (position (λ e. key_eq e.0 key) c) [
    | none ↦ (none, c)
    | some i ↦ elim (to_front i c) [ [] ↦ (none, []) | e ∷ rest ↦ (some e.1, e ∷ rest) ]
  ]

  -- The hint is taken if the library takes it.
  unfoldable pub apply_hint : Md → Md
  apply_hint base = elim (dict_hint (schema base)) [
    | none ↦ base
    | some h ↦ elim (try_new base h) [ none ↦ base | some md ↦ md ]
  ]

  -- The footer of a file's content. Row counts that disagree are refused.
  unfoldable pub parse_footer : String → String → File → Result Footer
  parse_footer who path f = do
    base ← load_md f
    let md = apply_hint base
    let rg_rows = row_groups md
    if eqb_ℤ (declared md) (sum_i64 rg_rows)
        then ok (md, rg_rows)
        else err (str_append who (str_append ": " (str_append path ": row counts disagree")))

  -- The second part under the lock: another thread may have stored the same file meanwhile.
  unfoldable pub store_footer : Key → Footer → Footers → Footers
  store_footer key footer c = elim (position (λ e. key_eq e.0 key) c) [
    | some _ ↦ c
    | none ↦ push_front footers_max (key, footer) c
  ]
