-- ===== src/Read/Patch/Spread.antt =====
-- src/read.rs, `patch`: the backward pass in place gives every row its own value.
use parquet_interop.Prelude.{
  ℕ, zero, suc, ◌≤◌, ◌<◌, ◌≡◌, ◌≢◌, refl, sym, ap, ◌∙◌, Option, none, some, List, [], ◌∷◌, ◌++◌,
  map, append-nil, append_assoc, arith, true, length, get_elem?, set, take, drop, get_elem?_total,
  take-suc, take-set, drop-set, take_split, take-length, length-set, length-snoc, take-append-drop,
  ltb, le→leb, Bool-cases, inl, inr,
}
use mathlib.Core.List.{map-append}
use parquet_interop.Native.{NativeOps}
use parquet_interop.Read.Patch.{shift, spread, shift_all, patch}

module _ {ℓ} {T : Type ℓ} where
  -- The values of a column's rows, without the nulls: what the page decoder packs.
  abbrev pub packed : List (Option T) → List T
  packed [] = []
  packed (none ∷ rows) = packed rows
  packed (some v ∷ rows) = v ∷ packed rows

  -- The definition levels `dl` tell the rows with a value from the null ones.
  abbrev pub Levels : ℕ → List (Option T) → List ℕ → Type 0
  Levels maxdef [] dl = Unit
  Levels maxdef (r ∷ rows) [] = ⊥
  Levels maxdef (none ∷ rows) (l ∷ dl) = (l ≢ maxdef) × Levels maxdef rows dl
  Levels maxdef (some v ∷ rows) (l ∷ dl) = (l ≡ maxdef) × Levels maxdef rows dl

  packed-append : (xs ys : List (Option T)) → packed (xs ++ ys) ≡ packed xs ++ packed ys
  packed-append [] ys = refl
  packed-append (none ∷ xs) ys = packed-append xs ys
  packed-append (some v ∷ xs) ys = ap (◌∷◌ v) (packed-append xs ys)

  pub length-packed-le : (rows : List (Option T)) → length (packed rows) ≤ length rows
  length-packed-le [] = omega arith
  length-packed-le (none ∷ rows) = omega (arith, length-packed-le rows)
  length-packed-le (some v ∷ rows) = omega (arith, length-packed-le rows)

  length-packed-take-le : (i : ℕ) (rows : List (Option T)) → length (packed (take i rows)) ≤ i
  length-packed-take-le zero rows = omega arith
  length-packed-take-le (suc i) [] = omega arith
  length-packed-take-le (suc i) (none ∷ rows) = omega (arith, length-packed-take-le i rows)
  length-packed-take-le (suc i) (some v ∷ rows) = omega (arith, length-packed-take-le i rows)

  Levels-some :
      (maxdef : ℕ) (rows : List (Option T)) (dl : List ℕ) (i : ℕ) (v : T)
      → Levels maxdef rows dl
      → get_elem? rows i ≡ some (some v)
      → get_elem? dl i ≡ some maxdef
  Levels-some maxdef [] dl i v h e = cc
  Levels-some maxdef (r ∷ rows) [] i v h e = absurd h
  Levels-some maxdef (none ∷ rows) (l ∷ dl) zero v h e = cc
  Levels-some maxdef (some w ∷ rows) (l ∷ dl) zero v h e = ap some h.0
  Levels-some maxdef (none ∷ rows) (l ∷ dl) (suc i) v h e = Levels-some maxdef rows dl i v h.1 e
  Levels-some maxdef (some w ∷ rows) (l ∷ dl) (suc i) v h e = Levels-some maxdef rows dl i v h.1 e

  Levels-none :
      (maxdef : ℕ) (rows : List (Option T)) (dl : List ℕ) (i : ℕ)
      → Levels maxdef rows dl
      → get_elem? rows i ≡ some none
      → (l : ℕ) × (get_elem? dl i ≡ some l) × (l ≢ maxdef)
  Levels-none maxdef [] dl i h e = cc
  Levels-none maxdef (r ∷ rows) [] i h e = absurd h
  Levels-none maxdef (none ∷ rows) (l ∷ dl) zero h e = (l, refl, h.0)
  Levels-none maxdef (some w ∷ rows) (l ∷ dl) zero h e = cc
  Levels-none maxdef (none ∷ rows) (l ∷ dl) (suc i) h e = Levels-none maxdef rows dl i h.1 e
  Levels-none maxdef (some w ∷ rows) (l ∷ dl) (suc i) h e = Levels-none maxdef rows dl i h.1 e

  pub Levels-length :
      (maxdef : ℕ) (rows : List (Option T)) (dl : List ℕ)
      → Levels maxdef rows dl
      → length rows ≤ length dl
  Levels-length maxdef [] dl h = omega arith
  Levels-length maxdef (r ∷ rows) [] h = absurd h
  Levels-length maxdef (none ∷ rows) (l ∷ dl) h = omega (arith, Levels-length maxdef rows dl h.1)
  Levels-length maxdef (some w ∷ rows) (l ∷ dl) h = omega (arith, Levels-length maxdef rows dl h.1)

module _ {ℓ} {T : Type ℓ} (o : NativeOps T) (nullv sh mul : T) where
  -- What a row reads as in the host vector.
  abbrev pub row_value : Option T → T
  row_value none = nullv
  row_value (some v) = shift o nullv sh mul v

  spread_null :
      (dl : List ℕ) (maxdef i vp : ℕ) (d : List T) (l : ℕ)
      → get_elem? dl i ≡ some l
      → l ≢ maxdef
      → spread o nullv sh mul dl maxdef (suc i) vp d
        ≡ spread o nullv sh mul dl maxdef i vp (set d i nullv)
  unfolding spread
  spread_null dl maxdef i vp d l at other = ground arith

  spread-some :
      (dl : List ℕ) (maxdef i vp : ℕ) (d : List T) (v : T)
      → get_elem? dl i ≡ some maxdef
      → get_elem? d vp ≡ some v
      → spread o nullv sh mul dl maxdef (suc i) (suc vp) d
        ≡ spread o nullv sh mul dl maxdef i vp (set d i (shift o nullv sh mul v))
  unfolding spread
  spread-some dl maxdef i vp d v at src = ground arith

  tail_step :
      {i : ℕ} (pre : List (Option T)) (r : Option T) (d : List T) (w : T)
      → i < length d
      → row_value r ≡ w
      → some (map row_value pre ++ drop i (set d i w))
        ≡ some (map row_value (pre ++ (r ∷ [])) ++ drop (suc i) d)
  tail_step {i} pre r d w fit e = rw (drop-set d i w fit, map-append, append_assoc, e)

  module _ (maxdef : ℕ) (rows : List (Option T)) (dl : List ℕ)
      (levels : Levels maxdef rows dl) where
    Spreads : ℕ → List (Option T) → List T → Type ℓ
    Spreads i pre d =
        spread o nullv sh mul dl maxdef i (length (packed pre)) d
        ≡ some (map row_value pre ++ drop i d)

    -- Row `i` is done, and the rows before it by induction.
    row_step :
        (i : ℕ) (d : List T) (r : Option T)
        → get_elem? rows i ≡ some r
        → i < length d
        → length (packed (take i rows)) ≤ i
        → take (length (packed (take i rows ++ (r ∷ [])))) d ≡ packed (take i rows ++ (r ∷ []))
        → ((w : T)
            → take (length (packed (take i rows))) (set d i w) ≡ packed (take i rows)
            → Spreads i (take i rows) (set d i w))
        → Spreads (suc i) (take i rows ++ (r ∷ [])) d
    unfolding Spreads
    row_step i d none at fit below e ih =
        let same = packed-append (take i rows) (none ∷ []) ∙ append-nil (packed (take i rows)) in
        let (l, level, other) = Levels-none maxdef rows dl i levels at in
        rw same (
          spread_null dl maxdef i (length (packed (take i rows))) d l level other
          ∙ ih nullv (take-set d _ i nullv below ∙ rw same at e)
          ∙ tail_step (take i rows) none d nullv fit refl)
    row_step i d (some v) at fit below e ih =
        let same = packed-append (take i rows) (some v ∷ []) in
        let count = length-snoc (packed (take i rows)) v in
        let (kept, src) = take_split (packed (take i rows)) d v (rw (same, count) at e) in
        let w = shift o nullv sh mul v in
        rw (same, count)
          (spread-some dl maxdef i _ d v (Levels-some maxdef rows dl i v levels at) src
            ∙ ih w (take-set d _ i w below ∙ kept)
            ∙ tail_step (take i rows) (some v) d w fit refl)

    pub spread_rows :
        (i : ℕ) (d : List T)
        → i ≤ length rows
        → length rows ≤ length d
        → take (length (packed (take i rows))) d ≡ packed (take i rows)
        → spread o nullv sh mul dl maxdef i (length (packed (take i rows))) d
          ≡ some (map row_value (take i rows) ++ drop i d)
    unfolding spread Spreads
    spread_rows zero d le fit e = refl
    spread_rows (suc i) d le fit e =
        let (r, at) = get_elem?_total rows i le in
        let split : take (suc i) rows ≡ take i rows ++ (r ∷ []) = take-suc rows i at in
        rw split (
          row_step i d r at (omega arith) (length-packed-take-le i rows) (rw split at e) (λ w kept.
            spread_rows i (set d i w) (omega arith) (omega (arith, length-set d i w)) kept))

  map-shift_trivial :
      (xs : List T)
      → o.is_zero sh ≡ true
      → o.is_eq mul o.one ≡ true
      → map (shift o nullv sh mul) xs ≡ xs
  unfolding shift
  map-shift_trivial [] zero_sh one_mul = refl
  map-shift_trivial (x ∷ xs) zero_sh one_mul = ground (arith, map-shift_trivial xs zero_sh one_mul)

  -- The pass that moves nothing applies `shift` to each of the first `n` elements.
  pub shift_all_lem :
      (n : ℕ) (d : List T)
      → shift_all o nullv sh mul n d ≡ map (shift o nullv sh mul) (take n d) ++ drop n d
  unfolding shift_all
  shift_all_lem n d = elim (Bool-cases (o.is_zero sh)) [
    | inr shifts ↦ rw shifts
    | inl still ↦ elim (Bool-cases (o.is_eq mul o.one)) [
      | inr scales ↦ rw (still, scales)
      | inl same ↦
          rw (still, same, map-shift_trivial (take n d) still same) (sym (take-append-drop n d))
    ]
  ]

  rows_full :
      (rows : List (Option T))
      → length (packed rows) ≡ length rows
      → map row_value rows ≡ map (shift o nullv sh mul) (packed rows)
  rows_full [] e = refl
  rows_full (none ∷ rows) e = absurd (omega (arith, length-packed-le rows))
  rows_full (some v ∷ rows) e = ap (◌∷◌ (shift o nullv sh mul v)) (rows_full rows (omega arith))

  -- On the packed values of a column's rows and levels that tell which rows have one, `patch`
  -- never faults and leaves every row's own value at its place: null for a null row, and the
  -- value scaled and shifted for any other. What stands behind the rows is not touched.
  pub patch_rows :
      (maxdef : ℕ) (rows : List (Option T)) (dl : List ℕ) (d : List T)
      → Levels maxdef rows dl
      → length rows ≤ length d
      → take (length (packed rows)) d ≡ packed rows
      → patch o nullv sh mul d (length rows) (length (packed rows)) (some dl) maxdef
        ≡ some (map row_value rows ++ drop (length rows) d)
  unfolding patch
  patch_rows maxdef rows dl d levels fit front =
      elim (Bool-cases (ltb (length (packed rows)) (length rows))) [
        | inl some_null ↦
            rw (some_null, le→leb _ _ (Levels-length maxdef rows dl levels))
              (rw (take-length rows (length rows) (omega arith)) at (
                spread_rows maxdef rows dl levels (length rows) d (omega arith) fit
                  (rw (take-length rows (length rows) (omega arith)) front)))
        | inr no_null ↦
            let count : length (packed rows) ≡ length rows =
              ground (arith, length-packed-le rows) in
            rw (no_null, shift_all_lem, rows_full rows count)
              (ap (λ xs. some (map (shift o nullv sh mul) xs ++ drop (length rows) d))
                (rw count at front))
      ]
