-- ===== src/Read/Symbols/Columns.antt =====
-- src/read.rs, `fill_sym_dict` and `fill_sym_plain`: the two ways to fill a symbol column.
use mathlib.Core.Path.{ap₂}
use native.Mathlib.Nat.{add-zero}
use parquet_interop.Prelude.{
  ℕ, zero, suc, ◌+◌, ◌≤◌, ◌≡◌, refl, sym, ap, ◌∙◌, Option, none, some, List, [], ◌∷◌, ◌++◌, map,
  arith, length, length-set, set, get_or, take, drop, take-append-drop, set_step, length-take_of_le,
  ok,
}
use parquet_interop.Read.Fill.{null_rows}
use parquet_interop.Read.Fill.Rows.{Stands, Stands-length, read_row, null_rows_lem}
use parquet_interop.Read.Symbols.{
  Bytes, Host, Arrays, SymCache, DictArray, gather, fill_sym_dict, fill_strings, fill_sym_plain,
}
use parquet_interop.Read.Symbols.Lookup.{symbol, IsSound, Gives, get-intern, dict_table-symbol}

module _ (host : Host) (arrays : Arrays) where
  open host use {Ptr, intern, read}
  open arrays use {ArrayRef, ptr, utf8_of}

  gather_lem :
      (tbl : List Ptr) (empty : Ptr) (off : ℕ) (ks : List ℕ) (dst : List Ptr)
      → off + length ks ≤ length dst
      → gather host arrays tbl empty off ks dst
        ≡ take off dst ++ (map (λ k. get_or tbl k empty) ks ++ drop (off + length ks) dst)
  unfolding gather
  gather_lem tbl empty off [] dst fit = rw add-zero (sym (take-append-drop off dst))
  gather_lem tbl empty off (k ∷ ks) dst fit =
      gather_lem tbl empty (off + 1) ks (set dst off (get_or tbl k empty))
        (omega (arith, length-set dst off (get_or tbl k empty)))
      ∙ (set_step dst off (length ks) (get_or tbl k empty) (map (λ k. get_or tbl k empty) ks)
          (omega arith))

  get_or-symbol :
      (values : List (Option Bytes)) (k : ℕ)
      → get_or (map (symbol host) values) k (intern []) ≡ symbol host (get_or values k none)
  get_or-symbol [] k = refl
  get_or-symbol (v ∷ vs) zero = refl
  get_or-symbol (v ∷ vs) (suc k) = get_or-symbol vs k

  keys_value :
      (values : List (Option Bytes)) (ks : List ℕ)
      → map (λ k. get_or (map (symbol host) values) k (intern [])) ks
        ≡ map (λ k. symbol host (get_or values k none)) ks
  keys_value values [] = refl
  keys_value values (k ∷ ks) = ap₂ ◌∷◌ (get_or-symbol values k) (keys_value values ks)

  -- The loop over the keys and the null patch behind it.
  fill_keys :
      (a : DictArray host arrays) (rows : List (Option ℕ)) (values : List (Option Bytes))
      (dst : List Ptr) (off : ℕ)
      → Stands rows a.keys a.nulls
      → off + length rows ≤ length dst
      → null_rows
          (intern [])
          a.nulls
          off
          (gather host arrays (map (symbol host) values) (intern []) off a.keys dst)
        ≡ take off dst
          ++ (map (read_row (intern []) (λ k. symbol host (get_or values k none))) rows
              ++ drop (off + length rows) dst)
  fill_keys a rows values dst off stands fit =
      let pre = take off dst in
      let here : length pre ≡ off = length-take_of_le off dst (omega arith) in
      let count = Stands-length rows a.keys a.nulls stands in
      let value = λ (k : ℕ). symbol host (get_or values k none) in
      ap (null_rows (intern []) a.nulls off) (
        gather_lem (map (symbol host) values) (intern []) off a.keys dst (omega arith)
        ∙ ap (λ ws. pre ++ (ws ++ drop (off + length a.keys) dst)) (keys_value values a.keys))
      ∙ ap
          (λ n.
            null_rows (intern []) a.nulls n
              (pre ++ (map value a.keys ++ drop (off + length a.keys) dst)))
          (sym here)
      ∙ null_rows_lem (intern []) a.nulls rows value pre a.keys (drop (off + length a.keys) dst)
          stands
      ∙ ap (λ n. pre ++ (map (read_row (intern []) value) rows ++ drop (off + n) dst)) (sym count)

  module _ (reads : (b : Bytes) → read (intern b) (length b) ≡ b) where
    fill_strings_lem :
        (rows : List (Option Bytes)) (off : ℕ) (dst : List Ptr) (c : SymCache host arrays)
        → off + length rows ≤ length dst
        → IsSound host arrays c
        → Gives host arrays
            (fill_strings host arrays (intern []) rows off dst c)
            (take off dst ++ (map (symbol host) rows ++ drop (off + length rows) dst))
    unfolding fill_strings
    fill_strings_lem [] off dst c fit h =
        (c, ap (λ d. ok (d, c)) (rw add-zero (sym (take-append-drop off dst))), h)
    fill_strings_lem (none ∷ rows) off dst c fit h =
        let (c', eq, sound) =
          fill_strings_lem rows (off + 1) (set dst off (intern [])) c
            (omega (arith, length-set dst off (intern []))) h in
        (
          c',
          eq
              ∙ ap (λ d. ok (d, c'))
                  ((set_step dst off (length rows) (intern []) (map (symbol host) rows)
                    (omega arith))),
          sound,
        )
    fill_strings_lem (some b ∷ rows) off dst c fit h =
        let (c1, got, sound1) = get-intern host arrays reads c b h in
        let (c', eq, sound) =
          fill_strings_lem rows (off + 1) (set dst off (intern b)) c1
            (omega (arith, length-set dst off (intern b))) sound1 in
        (
          c',
          rw (got, fill_strings)
              (eq
                ∙ ap (λ d. ok (d, c'))
                    ((set_step dst off (length rows) (intern b) (map (symbol host) rows)
                      (omega arith)))),
          sound,
        )

    -- `fill_sym_plain` writes the symbol of every row's string, the empty symbol for a null row,
    -- and keeps the rows before and behind the batch. Interned bytes are taken to be read back
    -- unchanged; the cache is sound before and after.
    pub fill_sym_plain-symbol :
        (arr : ArrayRef) (rows : List (Option Bytes)) (dst : List Ptr) (off : ℕ)
        (c : SymCache host arrays)
        → utf8_of arr ≡ ok rows
        → off + length rows ≤ length dst
        → IsSound host arrays c
        → Gives host arrays
            (fill_sym_plain host arrays arr dst off c)
            (take off dst ++ (map (symbol host) rows ++ drop (off + length rows) dst))
    unfolding fill_sym_plain
    fill_sym_plain-symbol arr rows dst off c read_as fit h =
        let (c1, got, sound1) = get-intern host arrays reads c [] h in
        let (c2, eq, sound2) = fill_strings_lem rows off dst c1 fit sound1 in
        (c2, rw (read_as, got, eq), sound2)

    module _ (same_ptr : (a b : ArrayRef) → ptr a ≡ ptr b → a ≡ b) where
      -- `fill_sym_dict` writes the symbol of the string that every row's key stands for, the empty
      -- symbol for a null row, a null value and a key out of range, and keeps the rows before and
      -- behind the batch. Interned bytes are taken to be read back unchanged, and arrays that are
      -- alive at one address to be the same; the cache is sound before and after.
      pub fill_sym_dict-symbol :
          (a : DictArray host arrays) (rows : List (Option ℕ)) (values : List (Option Bytes))
          (dst : List Ptr) (off : ℕ) (c : SymCache host arrays)
          → Stands rows a.keys a.nulls
          → utf8_of a.dict_values ≡ ok values
          → off + length rows ≤ length dst
          → IsSound host arrays c
          → Gives host arrays (fill_sym_dict host arrays a dst off c) (
              take off dst
              ++ (map (read_row (intern []) (λ k. symbol host (get_or values k none))) rows
                  ++ drop (off + length rows) dst))
      unfolding fill_sym_dict
      fill_sym_dict-symbol a rows values dst off c stands read_as fit h =
          let (c1, got, sound1) = get-intern host arrays reads c [] h in
          let (c2, tbl, sound2) =
            dict_table-symbol host arrays reads same_ptr c1 a.dict_values values sound1 read_as in
          (
            c2,
            rw (got, tbl) (ap (λ d. ok (d, c2)) (fill_keys a rows values dst off stands fit)),
            sound2,
          )
