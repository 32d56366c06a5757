-- ===== src/Entry.antt =====
-- src/lib.rs: the arguments of the entry points, and the two that read (`pq_read`, `pq_rg`).
pub mod Options
pub mod Windows
use Prim.Native.String.{String, [] as empty_text, ◌∷◌ as text_cons, ◌++◌ as str_append}
use Prim.Native.Char.{Char, code}
use text.Mathlib.Text.{◌==◌ as str_eq}
use parquet_interop.Prelude.{
  ℕ, zero, suc, ◌+◌, ◌-◌, ◌%◌, ◌^◌, Bool, true, false, not, ◌&&◌, ◌||◌, Option, none, some, List,
  [], ◌∷◌, map, ◌==◌, if◌then◌else◌, get_elem?, take, Result, ok, err, ◌>>=◌,
}
use parquet_interop.Prelude.Int.{ℤ, pos, negsuc, ◌-ℤ◌, ltb_ℤ, eqb_ℤ, bits_of}
use parquet_interop.Types.{kb, kh, ki, kj, ks}
use parquet_interop.Host.{kjl, Heap, vtag, va, vt, vn, kt, kjv, atom_i64, kn}

-- The type of a dictionary.
abbrev pub xd : ℕ
xd = 99

-- The elements of heap objects, by payload address and in the view that the type asks for, and the
-- text of a symbol, none if it is not UTF-8.
pub record Objects : Type 0 where
  pub values : ℕ → List ℕ
  pub symbols : ℕ → List ℕ
  pub longs : ℕ → List ℤ
  pub ints : ℕ → List ℤ
  pub shorts : ℕ → List ℤ
  pub bytes : ℕ → List ℕ
  pub text : ℕ → Option String

abbrev pub says : String → String → String
says who what = str_append who (str_append ": " what)

unfoldable pub is_empty : String → Bool
is_empty empty_text = true
is_empty (text_cons c s) = false

-- `starts_with(':')`
unfoldable pub is_hsym : String → Bool
is_hsym empty_text = false
is_hsym (text_cons c s) = code c == 58

-- `strip_prefix(':').unwrap_or(s)`
unfoldable pub path_of : String → String
path_of empty_text = empty_text
path_of (text_cons c s) = if code c == 58 then s else text_cons c s

-- A read past an object's elements is a fault.
abbrev pub at {ℓ} : {A : Type ℓ} → List A → ℕ → Result A
at xs i = elim (get_elem? xs i) [ none ↦ err "index out of bounds" | some x ↦ ok x ]

pub data Val : Type 0 where
  sym_val : ℕ → Val
  int_val : ℤ → Val
  bool_val : Bool → Val
  bad_val : ℤ → Val

pub record RdOpts : Type 0 where
  pub codes : Bool

-- The reader behind the entry points: `open`, `n_rg`, `select` and `read`.
pub record Reader : Type 1 where
  pub Opened : Type 0
  pub Selected : Type 0
  pub open_files : List (String × String) → String → Result Opened
  pub groups : Opened → ℕ
  pub select_columns : Opened → Option (List String) → String → Result Selected
  pub read_groups : Opened → Selected → ℕ → ℕ → Bool → String → Result ℕ

-- `lo as usize` of a number that is not negative.
abbrev pub as_usize : ℤ → ℕ
as_usize (pos n) = n
as_usize (negsuc n) = 2 ^ 64 - 1 - n

-- The length of the range from 0 to a number.
abbrev pub as_count : ℤ → ℕ
as_count (pos n) = n
as_count (negsuc n) = 0

-- The bounds test of `pq_rg` on a set of `n` row groups.
abbrev pub is_outside : ℤ → ℤ → ℕ → Bool
is_outside lo hi n = ltb_ℤ lo (pos 0) || ltb_ℤ hi lo || ltb_ℤ (pos n) hi

module _ (heap : Heap) (objects : Objects) where
  open objects use {values, symbols, longs, ints, shorts, bytes, text}

  unfoldable pub ptr_str : String → ℕ → Result String
  ptr_str who p = elim (text p) [ none ↦ err (says who "symbol utf8") | some s ↦ ok s ]

  -- The elements of a list from number `i` on, with `todo` to go.
  unfoldable pub sym_atoms : String → String → List ℕ → ℕ → ℕ → Result (List String)
  unfolding ptr_str
  sym_atoms who what es i zero = ok []
  sym_atoms who what es i (suc todo) = do
    e ← at es i
    let rest = sym_atoms who what es (i + 1) todo
    if eqb_ℤ (kt heap e) (pos 0 -ℤ pos ks)
        then (do s ← ptr_str who (va e); ss ← rest; ok (s ∷ ss))
        else err (says who (str_append "expected " what))

  -- The elements of a symbol vector from number `i` on, with `todo` to go.
  unfoldable pub sym_texts : String → List ℕ → ℕ → ℕ → Result (List String)
  unfolding ptr_str
  sym_texts who ps i zero = ok []
  sym_texts who ps i (suc todo) = do
    p ← at ps i
    s ← ptr_str who p
    ss ← sym_texts who ps (i + 1) todo
    ok (s ∷ ss)

  -- The texts of a symbol atom, of a symbol vector, or of a list of symbol atoms.
  unfoldable pub syms_of : String → String → ℕ → Result (List String)
  unfolding sym_atoms sym_texts
  syms_of who what x =
      if eqb_ℤ (kt heap x) (pos 0 -ℤ pos ks)
      then (do s ← ptr_str who (va x); ok (s ∷ []))
      else if eqb_ℤ (kt heap x) (pos ks)
      then sym_texts who (symbols (va x)) 0 (as_count (kn heap x))
      else if eqb_ℤ (kt heap x) (pos 0)
      then sym_atoms who what (values (va x)) 0 (as_count (kn heap x))
      else err (says who (str_append "expected " what))

  unfoldable pub files_of : String → ℕ → Result (List (String × String))
  unfolding syms_of
  files_of who x = do names ← syms_of who "symbol path" x; ok (map (λ s. (s, path_of s)) names)

  unfoldable pub collapsed_pair : String → ℕ → Result Bool
  unfolding ptr_str
  collapsed_pair who x = do
    p ← at (symbols (va x)) 0
    a ← ptr_str who p
    q ← at (symbols (va x)) 1
    b ← ptr_str who q
    ok (is_empty b || is_hsym a && not (is_hsym b))

  abbrev pub all_empty : List String → Bool
  all_empty [] = true
  all_empty (s ∷ ss) = is_empty s && all_empty ss

  unfoldable pub cols_of : String → ℕ → Result (Option (List String))
  unfolding syms_of
  cols_of who x = do
    names ← syms_of who "column symbol" x
    ok (if all_empty names then none else some names)

  unfoldable pub long_of : String → ℕ → Result ℤ
  long_of who x = elim (atom_i64 heap x) [ none ↦ err (says who "expected long") | some v ↦ ok v ]

  unfoldable pub atom_val : ℕ → Val
  atom_val x =
      let t = vtag x in
      if t == ks
      then sym_val (va x)
      else if t == kb
      then bool_val (not (bits_of (2 ^ 63) (kjv heap x) % 2 ^ 8 == 0))
      else if t == kjl || t == kj || t == ki || t == kh
      then elim (atom_i64 heap x) [ none ↦ bad_val (pos 0 -ℤ pos t) | some v ↦ int_val v ]
      else if t == 0
      then bad_val (vt heap x)
      else bad_val (pos 0 -ℤ pos t)

  -- Element `i` of a dictionary's values, by their type.
  unfoldable pub val_at : ℕ → ℕ → Result Val
  unfolding atom_val
  val_at vals i =
      let t = vt heap vals in
      if eqb_ℤ t (pos 0)
      then (do x ← at (values (va vals)) i; ok (atom_val x))
      else if eqb_ℤ t (pos ks)
      then (do p ← at (symbols (va vals)) i; ok (sym_val p))
      else if eqb_ℤ t (pos kj)
      then (do v ← at (longs (va vals)) i; ok (int_val v))
      else if eqb_ℤ t (pos ki)
      then (do v ← at (ints (va vals)) i; ok (int_val v))
      else if eqb_ℤ t (pos kh)
      then (do v ← at (shorts (va vals)) i; ok (int_val v))
      else if eqb_ℤ t (pos kb)
      then (do v ← at (bytes (va vals)) i; ok (bool_val (not (v == 0))))
      else ok (bad_val t)

  -- One key of the options, with its value.
  unfoldable pub opt_key : String → String → Val → RdOpts → Result RdOpts
  opt_key who k (bool_val v) o =
      if str_eq k "codes" || str_eq k "sym"
      then ok (record { codes = v })
      else err (says who (str_append "unknown opt `" (str_append k "`")))
  opt_key who k _ o =
      if str_eq k "codes" || str_eq k "sym"
      then err (says who (str_append "opt `" (str_append k " wants a boolean")))
      else err (says who (str_append "unknown opt `" (str_append k "`")))

  -- The keys from number `i` on, with `todo` to go.
  unfoldable pub opt_keys : String → List ℕ → ℕ → ℕ → ℕ → RdOpts → Result RdOpts
  unfolding ptr_str val_at opt_key
  opt_keys who keys vals i zero o = ok o
  opt_keys who keys vals i (suc todo) o = do
    key ← at keys i
    k ← ptr_str who key
    v ← val_at vals i
    next ← opt_key who k v o
    opt_keys who keys vals (i + 1) todo next

  unfoldable pub rd_opts : String → Option ℕ → Result RdOpts
  unfolding opt_keys
  rd_opts who none = ok (record { codes = false })
  rd_opts who (some x) =
      if eqb_ℤ (kt heap x) (pos xd)
      then (do
        keys ← at (values (va x)) 0
        vals ← at (values (va x)) 1
        if not (eqb_ℤ (vn heap keys) (pos 0)) && not (eqb_ℤ (vt heap keys) (pos ks))
            then err (says who "opts keys must be symbols")
            else opt_keys who (symbols (va keys)) vals 0 (as_usize (vn heap keys))
                (record { codes = false }))
      else err (says who "opts must be a dict")

  -- `show` is the text of a number.
  module _ (reader : Reader) (show : ℤ → String) where
    open reader use {Opened, Selected, open_files, groups, select_columns, read_groups}

    -- The last part of `pq_rg`: the window has to be one of row groups.
    unfoldable pub read_window : Opened → Selected → ℤ → ℤ → Bool → String → Result ℕ
    read_window set sel lo hi codes who =
        if is_outside lo hi (groups set)
        then err (
            says who (
              str_append "[" (
                str_append (show lo) (
                  str_append "," (
                    str_append (show hi)
                      (str_append ") of " (str_append (show (pos (groups set))) " row groups")))))))
        else read_groups set sel (as_usize lo) (as_usize hi) codes who

    -- Four arguments in a list, or five with options.
    unfoldable pub is_rg_bad : ℕ → Bool
    is_rg_bad x =
        let n = kn heap x in
        not (eqb_ℤ (kt heap x) (pos 0)) || not (eqb_ℤ n (pos 4)) && not (eqb_ℤ n (pos 5))

    unfoldable pub rg_opts : ℕ → Result RdOpts
    unfolding rd_opts
    rg_opts x =
        if eqb_ℤ (kn heap x) (pos 5)
        then (do o ← at (values (va x)) 4; rd_opts "pq_rg" (some o))
        else rd_opts "pq_rg" none

    unfoldable pub rg_run : ℕ → RdOpts → Result ℕ
    unfolding files_of cols_of long_of read_window
    rg_run x opt = do
      f ← at (values (va x)) 0
      files ← files_of "pq_rg" f
      set ← open_files files "pq_rg"
      c ← at (values (va x)) 1
      want ← cols_of "pq_rg" c
      sel ← select_columns set want "pq_rg"
      l ← at (values (va x)) 2
      lo ← long_of "pq_rg" l
      h ← at (values (va x)) 3
      hi ← long_of "pq_rg" h
      read_window set sel lo hi opt.codes "pq_rg"

    unfoldable pub pq_rg : ℕ → Result ℕ
    unfolding is_rg_bad rg_opts rg_run
    pq_rg x =
        if is_rg_bad x
        then err "pq_rg: (files;cols;lo;hi) or (files;cols;lo;hi;opts) expected"
        else (do opt ← rg_opts x; rg_run x opt)

    -- The files and the columns of `pq_read`: a list of the two, a pair that q collapsed into a
    -- symbol vector, or files alone.
    unfoldable pub read_args : ℕ → Bool → Result (List (String × String) × Option (List String))
    unfolding files_of cols_of collapsed_pair ptr_str
    read_args x gen =
        if gen
        then (do
          f ← at (values (va x)) 0
          files ← files_of "pq_read" f
          c ← at (values (va x)) 1
          want ← cols_of "pq_read" c
          ok (files, want))
        else (do
          pair ←
              if eqb_ℤ (kt heap x) (pos ks) && eqb_ℤ (kn heap x) (pos 2)
              then collapsed_pair "pq_read" x
              else ok false
          if pair
              then (do
                q ← at (symbols (va x)) 1
                col ← ptr_str "pq_read" q
                p ← at (symbols (va x)) 0
                file ← ptr_str "pq_read" p
                ok ((file, path_of file) ∷ [], if is_empty col then none else some (col ∷ [])))
              else (do files ← files_of "pq_read" x; ok (files, none)))

    unfoldable pub pq_read : ℕ → Result ℕ
    unfolding rd_opts read_args
    pq_read x =
        let n = kn heap x in
        let gen = eqb_ℤ (kt heap x) (pos 0) && (eqb_ℤ n (pos 2) || eqb_ℤ n (pos 3)) in
        do
          opt ←
              if gen && eqb_ℤ n (pos 3)
              then (do o ← at (values (va x)) 2; rd_opts "pq_read" (some o))
              else rd_opts "pq_read" none
          (files, want) ← read_args x gen
          set ← open_files files "pq_read"
          sel ← select_columns set want "pq_read"
          read_groups set sel 0 (groups set) opt.codes "pq_read"
