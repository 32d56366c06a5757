-- ===== src/Entry/Windows.antt =====
-- src/lib.rs: what `pq_rg` reads.
use Prim.Native.String.{String}
use parquet_interop.Prelude.{
  ℕ, ◌≤◌, ◌≡◌, ◌⊎◌, refl, ap, ◌∙◌, true, false, inl, inr, Option, none, some, List, arith,
  Bool-cases, ok, ◌>>=◌, bind_ok,
}
use parquet_interop.Prelude.Int.{ℤ, pos, negsuc, eqb_ℤ}
use parquet_interop.Host.{Heap, va, kt, kn}
use parquet_interop.Entry.{
  Objects, at, files_of, cols_of, long_of, RdOpts, rd_opts, Reader, as_usize, read_window,
  is_outside, is_rg_bad, rg_opts, rg_run, pq_rg,
}
use parquet_interop.Entry.Options.{passed, eqb→eq, IsOpts, rd_opts-IsOpts}

range_lem :
    (lo hi : ℤ) (n : ℕ)
    → is_outside lo hi n ≡ false
    → (lo ≡ pos (as_usize lo))
      × (hi ≡ pos (as_usize hi))
      × (as_usize lo ≤ as_usize hi)
      × (as_usize hi ≤ n)
range_lem (pos a) (pos b) n h = (refl, refl, ground arith, ground arith)
range_lem (pos a) (negsuc b) n h = ground arith
range_lem (negsuc a) hi n h = ground arith

module _ (heap : Heap) (objects : Objects) where
  module _ (reader : Reader) (show : ℤ → String) where
    open reader use {Opened, Selected, open_files, groups, select_columns, read_groups}

    -- The options of `pq_rg`: the fifth of five arguments, or none.
    abbrev pub OptsOf : ℕ → RdOpts → Type 0
    OptsOf x opt =
        ((kn heap x ≡ pos 4) × IsOpts heap objects "pq_rg" none opt)
        ⊎ ((kn heap x ≡ pos 5)
            × ((o : ℕ) × (at (objects.values (va x)) 4 ≡ ok o)
                × IsOpts heap objects "pq_rg" (some o) opt))

    -- An answer `r` that was read from the files, the columns, the window and with the options that
    -- the argument list `x` names.
    pub record IsWindow (x r : ℕ) : Type 0 where
      pub f : ℕ
      pub c : ℕ
      pub l : ℕ
      pub t : ℕ
      pub g0 : ℕ
      pub g1 : ℕ
      pub files : List (String × String)
      pub want : Option (List String)
      pub set : Opened
      pub sel : Selected
      pub opt : RdOpts
      pub is_list : kt heap x ≡ pos 0
      pub first : at (objects.values (va x)) 0 ≡ ok f
      pub second : at (objects.values (va x)) 1 ≡ ok c
      pub third : at (objects.values (va x)) 2 ≡ ok l
      pub fourth : at (objects.values (va x)) 3 ≡ ok t
      pub named : files_of heap objects "pq_rg" f ≡ ok files
      pub wanted : cols_of heap objects "pq_rg" c ≡ ok want
      pub low : long_of heap objects "pq_rg" l ≡ ok (pos g0)
      pub high : long_of heap objects "pq_rg" t ≡ ok (pos g1)
      pub opts : OptsOf x opt
      pub opened : open_files files "pq_rg" ≡ ok set
      pub selected : select_columns set want "pq_rg" ≡ ok sel
      pub order : g0 ≤ g1
      pub last : g1 ≤ groups set
      pub read : read_groups set sel g0 g1 opt.codes "pq_rg" ≡ ok r

    is_rg_bad_lem :
        (x : ℕ)
        → is_rg_bad heap objects reader show x ≡ false
        → (kt heap x ≡ pos 0) × ((kn heap x ≡ pos 4) ⊎ (kn heap x ≡ pos 5))
    unfolding is_rg_bad
    is_rg_bad_lem x h =
        let list : eqb_ℤ (kt heap x) (pos 0) ≡ true = ground (arith, h) in
        (
          eqb→eq (kt heap x) (pos 0) list,
          elim (Bool-cases (eqb_ℤ (kn heap x) (pos 4))) [
            | inl four ↦ inl (eqb→eq (kn heap x) (pos 4) four)
            | inr other ↦ inr (eqb→eq (kn heap x) (pos 5) (ground (arith, h, other)))
          ],
        )

    rg_opts_lem :
        (x : ℕ) (opt : RdOpts)
        → (kn heap x ≡ pos 4) ⊎ (kn heap x ≡ pos 5)
        → rg_opts heap objects reader show x ≡ ok opt
        → OptsOf x opt
    unfolding rg_opts
    rg_opts_lem x opt (inl four) h =
        inl (four, (rd_opts-IsOpts heap objects "pq_rg" none opt).0 (rw four at h))
    rg_opts_lem x opt (inr five) h =
        let given : (at (objects.values (va x)) 4 >>= (λ o. rd_opts heap objects "pq_rg" (some o)))
            ≡ ok opt =
          rw five at h in
        let (o, there, h1) = bind_ok (at (objects.values (va x)) 4) _ given in
        inr (five, (o, there, (rd_opts-IsOpts heap objects "pq_rg" (some o) opt).0 h1))

    -- Whatever `pq_rg` answers to a list is read with the options of its fifth element, if it has
    -- five and not four, from the files of its first, from the columns of its second, and from the
    -- row groups between the numbers of its third and fourth, which lie in order within the files'.
    pub pq_rg-IsWindow : (x r : ℕ) → pq_rg heap objects reader show x ≡ ok r → IsWindow x r
    unfolding pq_rg rg_run read_window
    pq_rg-IsWindow x r h =
        let run = rg_run heap objects reader show x in
        let chain = rg_opts heap objects reader show x >>= run in
        let item = λ (i : ℕ). at (objects.values (va x)) i in
        let (shape, h0) = passed (is_rg_bad heap objects reader show x) chain _ r h in
        let (opt, opts, h1) = bind_ok (rg_opts heap objects reader show x) run h0 in
        let (f, first, h2) = bind_ok (item 0) _ h1 in
        let (files, named, h3) = bind_ok (files_of heap objects "pq_rg" f) _ h2 in
        let (set, opened, h4) = bind_ok (open_files files "pq_rg") _ h3 in
        let (c, second, h5) = bind_ok (item 1) _ h4 in
        let (want, wanted, h6) = bind_ok (cols_of heap objects "pq_rg" c) _ h5 in
        let (sel, selected, h7) = bind_ok (select_columns set want "pq_rg") _ h6 in
        let (l, third, h8) = bind_ok (item 2) _ h7 in
        let (lo, low, h9) = bind_ok (long_of heap objects "pq_rg" l) _ h8 in
        let (t, fourth, h10) = bind_ok (item 3) _ h9 in
        let (hi, high, h11) = bind_ok (long_of heap objects "pq_rg" t) _ h10 in
        let (inside, done) =
          passed (is_outside lo hi (groups set))
            (read_groups set sel (as_usize lo) (as_usize hi) opt.codes "pq_rg") _ r h11 in
        let (lo_eq, hi_eq, order, last) = range_lem lo hi (groups set) inside in
        let (list, four_or_five) = is_rg_bad_lem x shape in
        record {
          f = f;
          c = c;
          l = l;
          t = t;
          g0 = as_usize lo;
          g1 = as_usize hi;
          files = files;
          want = want;
          set = set;
          sel = sel;
          opt = opt;
          is_list = list;
          first = first;
          second = second;
          third = third;
          fourth = fourth;
          named = named;
          wanted = wanted;
          low = low ∙ ap ok lo_eq;
          high = high ∙ ap ok hi_eq;
          opts = rg_opts_lem x opt four_or_five opts;
          opened = opened;
          selected = selected;
          order = order;
          last = last;
          read = done;
        }
