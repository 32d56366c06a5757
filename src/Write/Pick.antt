-- ===== src/Write/Pick.antt =====
-- src/write.rs, `probe`, `pick_int` and `pick`: the encoding of a column from a sample of it.
pub mod Sorted
use parquet_interop.Prelude.{
  ℕ, zero, suc, ◌-◌, ◌*◌, ◌/◌, ◌^◌, Bool, true, false, ◌&&◌, ◌||◌, Option, none, some, List, [],
  ◌∷◌, ltb, ◌==◌, if◌then◌else◌, length, get_elem?, min, max,
}
use parquet_interop.Prelude.Int.{ℤ, leb_ℤ, eqb_ℤ, null_of}
use parquet_interop.Types.{kb, kg, kh, ki, kj, ke, kf, ks, kp, kd, kz, kn, kt}

pub data Enc : Type 0 where
  plain delta dict rle : Enc

abbrev pub sample_max : ℕ
sample_max = 8192

abbrev pub dict_card : ℕ
dict_card = 65536

abbrev not_null : ℕ → ℤ → Option ℤ
not_null half x = if eqb_ℤ x (null_of half) then none else some x

-- The element `x` of a vector of type `t`, without the null of its width.
unfoldable pub probe : ℕ → ℤ → Option ℤ
probe t x =
    if t == kg
    then some x
    else if t == kh
    then not_null (2 ^ 15) x
    else if t == ki || t == kd || t == kt
    then not_null (2 ^ 31) x
    else if t == kj || t == kp || t == kn
    then not_null (2 ^ 63) x
    else none

abbrev push : Option ℤ → List ℤ → List ℤ
push none v = v
push (some x) v = x ∷ v

-- `for i in 0..m`, with `k` rounds left. `none` is a read past the end of the vector.
unfoldable pub sample : List ℤ → ℕ → ℕ → ℕ → ℕ → Option (List ℤ)
sample col t step i zero = some []
sample col t step i (suc k) = elim (get_elem? col (i * step)) [
  | none ↦ none
  | some x ↦ elim (sample col t step (suc i) k) [ none ↦ none | some v ↦ some (push (probe t x) v) ]
]

-- `v.windows(2).all`
abbrev pub windows_all : (ℤ → ℤ → Bool) → List ℤ → Bool
windows_all test [] = true
windows_all test (x ∷ []) = true
windows_all test (x ∷ y ∷ v) = test x y && windows_all test (y ∷ v)

abbrev pub contains : ℤ → List ℤ → Bool
contains x [] = false
contains x (y ∷ v) = eqb_ℤ x y || contains x v

-- The length of the `HashSet` of `v`.
unfoldable pub distinct : List ℤ → ℕ
distinct [] = 0
distinct (x ∷ v) = if contains x v then distinct v else suc (distinct v)

unfoldable pub cardinality : ℕ → ℕ → List ℤ → ℕ
unfolding distinct
cardinality m n v =
    let s = length v in
    let d = distinct v in if m == n then d else if d == s then 2 ^ 64 - 1 else s * s / (2 * (s - d))

unfoldable pub choose : ℕ → ℕ → Bool → List ℤ → Enc
unfolding cardinality
choose m n dictionary v =
    if ltb (length v) 2
    then plain
    else if windows_all (λ a b. leb_ℤ a b) v || windows_all (λ a b. leb_ℤ b a) v
    then delta
    else if ltb (cardinality m n v) dict_card
    then if dictionary then dict else delta
    else plain

-- `n` is the number of rows.
unfoldable pub pick_int : List ℤ → ℕ → ℕ → Bool → Option Enc
unfolding sample choose
pick_int col t n dictionary =
    let m = min sample_max n in
    let step = max (n / m) 1 in
    let found : Option Enc = elim (sample col t step 0 m) [
      | none ↦ none
      | some v ↦ some (choose m n dictionary v)
    ] in
    if ltb n 2 then some plain else found

unfoldable pub pick : List ℤ → ℕ → ℕ → Bool → Option Enc
unfolding pick_int
pick col t n dictionary =
    if t == kb
    then some rle
    else if t == ke || t == kf
    then some plain
    else if t == ks
    then if dictionary then some dict else some plain
    else if t == kz
    then some plain
    else pick_int col t n dictionary
