-- ===== src/Entry/Options.antt =====
-- src/lib.rs: which options `rd_opts` accepts.
use Prim.Native.String.{String}
use text.Mathlib.Text.{◌==◌ as str_eq}
use mathlib.Core.Path.{subst}
use parquet_interop.Prelude.{
  ℕ, zero, suc, ◌+◌, ◌≡◌, ◌⊎◌, ◌↔◌, refl, sym, ap, ◌∙◌, Bool, true, false, not, ◌&&◌, ◌||◌, inl,
  inr, Option, none, some, List, arith, Bool-cases, if◌then◌else◌, Result, ok, err, ◌>>=◌, ok_inj,
  bind_ok,
}
use parquet_interop.Prelude.Int.{ℤ, pos, negsuc, eqb_ℤ, eq_of_parts}
use parquet_interop.Types.{ks}
use parquet_interop.Host.{Heap, va, vn, vt, kt}
use parquet_interop.Entry.{
  Objects, Val, sym_val, int_val, bool_val, bad_val, ptr_str, at, val_at, RdOpts, opt_key, opt_keys,
  rd_opts, as_usize, xd, says,
}

pub passed {ℓ} :
    {A : Type ℓ} (guard : Bool) (m : Result A) (message : String) (a : A)
    → (if guard then err message else m) ≡ ok a
    → (guard ≡ false) × (m ≡ ok a)
passed true m message a h = cc
passed false m message a h = (refl, h)

pub eqb→eq : (n m : ℤ) → eqb_ℤ n m ≡ true → n ≡ m
eqb→eq n m h = ground (arith, h, eq_of_parts n m)

eqb_refl : (n m : ℤ) → n ≡ m → eqb_ℤ n m ≡ true
eqb_refl (pos a) m h = rw (sym h) (ground arith)
eqb_refl (negsuc a) m h = rw (sym h) (ground arith)

-- The test of the keys' type.
keys_right :
    (n t : ℤ)
    → (not (eqb_ℤ n (pos 0)) && not (eqb_ℤ t (pos ks))) ≡ false
    → (n ≡ pos 0) ⊎ (t ≡ pos ks)
keys_right n t h = elim (Bool-cases (eqb_ℤ n (pos 0))) [
  | inl empty ↦ inl (eqb→eq n (pos 0) empty)
  | inr more ↦ elim (Bool-cases (eqb_ℤ t (pos ks))) [
    | inl symbols ↦ inr (eqb→eq t (pos ks) symbols)
    | inr other ↦ cc (rw (more, other) at h)
  ]
]

keys_accepted :
    (n t : ℤ)
    → (n ≡ pos 0) ⊎ (t ≡ pos ks)
    → (not (eqb_ℤ n (pos 0)) && not (eqb_ℤ t (pos ks))) ≡ false
keys_accepted n t (inl empty) = rw (eqb_refl n (pos 0) empty) refl
keys_accepted n t (inr symbols) = rw (eqb_refl t (pos ks) symbols) (ground arith)

module _ (heap : Heap) (objects : Objects) where
  -- The `todo` keys from number `i` on are known ones with Boolean values, the last of which is the
  -- answer.
  pub AreOpts : String → List ℕ → ℕ → ℕ → ℕ → RdOpts → RdOpts → Type 0
  AreOpts who keys vals i zero o r = o ≡ r
  AreOpts who keys vals i (suc todo) o r =
      (key : ℕ) × (k : String) × (v : Bool) × (at keys i ≡ ok key)
      × (ptr_str heap objects who key ≡ ok k)
      × ((str_eq k "codes" || str_eq k "sym") ≡ true)
      × (val_at heap objects vals i ≡ ok (bool_val v))
      × AreOpts who keys vals (i + 1) todo (record { codes = v }) r

  -- A dict with as many symbols as its keys' count says, all of them known and with Boolean values.
  pub record IsOptsDict (who : String) (x : ℕ) (r : RdOpts) : Type 0 where
    pub is_dict : kt heap x ≡ pos xd
    pub keys : ℕ
    pub vals : ℕ
    pub keys_there : at (objects.values (va x)) 0 ≡ ok keys
    pub vals_there : at (objects.values (va x)) 1 ≡ ok vals
    pub are_symbols : (vn heap keys ≡ pos 0) ⊎ (vt heap keys ≡ pos ks)
    pub are_opts :
        AreOpts who
          (objects.symbols (va keys))
          vals
          0
          (as_usize (vn heap keys))
          (record { codes = false })
          r

  -- No options are the defaults.
  abbrev pub IsOpts : String → Option ℕ → RdOpts → Type 0
  IsOpts who none r = r ≡ record { codes = false }
  IsOpts who (some x) r = IsOptsDict who x r

  opt_key_lem :
      (who k : String) (v : Val) (o next : RdOpts)
      → opt_key heap objects who k v o ≡ ok next
      → (b : Bool) × (v ≡ bool_val b)
        × ((str_eq k "codes" || str_eq k "sym") ≡ true)
        × (next ≡ record { codes = b })
  unfolding opt_key
  opt_key_lem who k (bool_val b) o next h = elim (Bool-cases (str_eq k "codes" || str_eq k "sym")) [
    | inl is_known ↦ (b, refl, is_known, sym (ok_inj (rw is_known at h)))
    | inr unknown ↦ cc (rw unknown at h)
  ]
  opt_key_lem who k (sym_val p) o next h = ground arith
  opt_key_lem who k (int_val n) o next h = ground arith
  opt_key_lem who k (bad_val t) o next h = ground arith

  opt_key-known :
      (who k : String) (v : Bool) (o : RdOpts)
      → (str_eq k "codes" || str_eq k "sym") ≡ true
      → opt_key heap objects who k (bool_val v) o ≡ ok (record { codes = v })
  unfolding opt_key
  opt_key-known who k v o is_known = rw is_known refl

  opt_keys→AreOpts :
      (who : String) (keys : List ℕ) (vals i todo : ℕ) (o r : RdOpts)
      → opt_keys heap objects who keys vals i todo o ≡ ok r
      → AreOpts who keys vals i todo o r
  unfolding opt_keys AreOpts
  opt_keys→AreOpts who keys vals i zero o r h = ok_inj h
  opt_keys→AreOpts who keys vals i (suc todo) o r h =
      let (key, there, h0) = bind_ok (at keys i) _ h in
      let (k, named, h1) = bind_ok (ptr_str heap objects who key) _ h0 in
      let (v, valued, h2) = bind_ok (val_at heap objects vals i) _ h1 in
      let (next, taken, h3) = bind_ok (opt_key heap objects who k v o) _ h2 in
      let (b, is_bool, is_known, same) = opt_key_lem who k v o next taken in
      (
        key,
        k,
        b,
        there,
        named,
        is_known,
        valued ∙ ap ok is_bool,
        subst (λ o'. AreOpts who keys vals (i + 1) todo o' r) same
            (opt_keys→AreOpts who keys vals (i + 1) todo next r h3),
      )

  AreOpts→opt_keys :
      (who : String) (keys : List ℕ) (vals i todo : ℕ) (o r : RdOpts)
      → AreOpts who keys vals i todo o r
      → opt_keys heap objects who keys vals i todo o ≡ ok r
  unfolding opt_keys AreOpts
  AreOpts→opt_keys who keys vals i zero o r h = ap ok h
  AreOpts→opt_keys who keys vals i (suc todo) o r
        (key, k, v, there, named, is_known, valued, rest) =
      rw (there, named, valued, opt_key-known who k v o is_known)
        (AreOpts→opt_keys who keys vals (i + 1) todo (record { codes = v }) r rest)

  -- What follows the test that the argument is a dict.
  abbrev dict_rest : String → ℕ → Result RdOpts
  dict_rest who x = at (objects.values (va x)) 0 >>= λ keys.
      at (objects.values (va x)) 1 >>= λ vals.
      if not (eqb_ℤ (vn heap keys) (pos 0)) && not (eqb_ℤ (vt heap keys) (pos ks))
      then err (says who "opts keys must be symbols")
      else opt_keys heap objects who (objects.symbols (va keys)) vals 0 (as_usize (vn heap keys))
          (record { codes = false })

  rd_opts→IsOptsDict :
      (who : String) (x : ℕ) (r : RdOpts)
      → rd_opts heap objects who (some x) ≡ ok r
      → IsOptsDict who x r
  unfolding rd_opts
  rd_opts→IsOptsDict who x r h = elim (Bool-cases (eqb_ℤ (kt heap x) (pos xd))) [
    | inr other ↦ cc (rw other at h)
    | inl dict ↦
        let h0 : dict_rest who x ≡ ok r = rw dict at h in
        let (keys, keys_there, h1) = bind_ok (at (objects.values (va x)) 0) _ h0 in
        let (vals, vals_there, h2) = bind_ok (at (objects.values (va x)) 1) _ h1 in
        let (right, taken) = passed _ _ _ r h2 in
        record {
          is_dict = eqb→eq (kt heap x) (pos xd) dict;
          keys = keys;
          vals = vals;
          keys_there = keys_there;
          vals_there = vals_there;
          are_symbols = keys_right (vn heap keys) (vt heap keys) right;
          are_opts = opt_keys→AreOpts who (objects.symbols (va keys)) vals 0 _ _ r taken;
        }
  ]

  IsOptsDict→rd_opts :
      (who : String) (x : ℕ) (r : RdOpts)
      → IsOptsDict who x r
      → rd_opts heap objects who (some x) ≡ ok r
  unfolding rd_opts
  IsOptsDict→rd_opts who x r d =
      rw
        (
          eqb_refl (kt heap x) (pos xd) d.is_dict,
          d.keys_there,
          d.vals_there,
          keys_accepted (vn heap d.keys) (vt heap d.keys) d.are_symbols,
        )
        (AreOpts→opt_keys who (objects.symbols (va d.keys)) d.vals 0 _ _ r d.are_opts)

  -- `rd_opts` answers options in these cases and no others: the defaults for no argument, and for a
  -- dict whose keys are a symbol vector, or empty, and are as many as its count says, each `codes`
  -- or `sym` with a Boolean of that number in the values, the last Boolean.
  pub rd_opts-IsOpts :
      (who : String) (x : Option ℕ) (r : RdOpts)
      → (rd_opts heap objects who x ≡ ok r) ↔ IsOpts who x r
  unfolding rd_opts
  rd_opts-IsOpts who none r = ((λ h. sym (ok_inj h)), (λ h. ap ok (sym h)))
  rd_opts-IsOpts who (some x) r = (rd_opts→IsOptsDict who x r, IsOptsDict→rd_opts who x r)
