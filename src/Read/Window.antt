-- ===== src/Read/Window.antt =====
-- src/read.rs, the layout of a read: the row groups of the window and the rows they land at
-- (`read`), the column parts (`split`), and the tasks that the workers claim.
pub mod Loop
pub mod Layout
pub mod Search
pub mod Parts
pub mod Tasks
use parquet_interop.Prelude.{
  ℕ, zero, suc, ◌+◌, ◌-◌, ◌*◌, ◌/◌, ◌%◌, ◌^◌, min, max, Bool, true, false, not, ◌&&◌, Option, none,
  some, List, [], ◌∷◌, ◌++◌, map, ltb, leb, ◌==◌, if◌then◌else◌, length, get_or, take, drop, Result,
  ok, err, ◌>>=◌,
}
use parquet_interop.Prelude.Int.{ℤ, pos, negsuc}
use parquet_interop.Mru.{position}

-- Row group `group` of file `file`, whose `rows` rows land at row `off`.
pub record Rg : Type 0 where
  pub file : ℕ
  pub group : ℕ
  pub off : ℕ
  pub rows : ℕ

-- What the loop carries: the row groups so far, the total (a usize) and the global number.
pub record Window : Type 0 where
  pub rgs : List Rg
  pub total : ℕ
  pub number : ℕ

-- `g >= g0 && g < g1 && rows > 0`, and what is done then.
unfoldable pub window_group : ℕ → ℕ → ℕ → ℕ → ℤ → Window → Window
window_group g0 g1 f i (negsuc n) w = record w { number = w.number + 1 }
window_group g0 g1 f i (pos rows) w =
    if leb g0 w.number && ltb w.number g1 && ltb 0 rows
    then record {
      rgs = w.rgs ++ (record { file = f; group = i; off = w.total; rows = rows } ∷ []);
      total = (w.total + rows) % 2 ^ 64;
      number = w.number + 1;
    }
    else record w { number = w.number + 1 }

unfoldable pub window_file : ℕ → ℕ → ℕ → ℕ → List ℤ → Window → Window
unfolding window_group
window_file g0 g1 f i [] w = w
window_file g0 g1 f i (r ∷ rs) w = window_file g0 g1 f (i + 1) rs (window_group g0 g1 f i r w)

unfoldable pub window_files : ℕ → ℕ → ℕ → List (List ℤ) → Window → Window
unfolding window_file
window_files g0 g1 f [] w = w
window_files g0 g1 f (s ∷ ss) w = window_files g0 g1 (f + 1) ss (window_file g0 g1 f 0 s w)

-- The row groups `[g0, g1)` of a set, given the row counts of each of its files.
unfoldable pub window : List (List ℤ) → ℕ → ℕ → Window
unfolding window_files
window srcs g0 g1 = window_files g0 g1 0 srcs (record { rgs = []; total = 0; number = 0 })

-- The result positions of one part: those decoded straight into the host's vectors, and those
-- that go through a batch, with the column of the batch that each is.
pub record Part : Type 0 where
  pub raw : List ℕ
  pub outs : List ℕ
  pub bat : List ℕ

-- `sort_unstable` on file columns.
abbrev pub insert : ℕ → List ℕ → List ℕ
insert x [] = x ∷ []
insert x (y ∷ ys) = if leb x y then x ∷ y ∷ ys else y ∷ insert x ys

unfoldable pub sort : List ℕ → List ℕ
sort [] = []
sort (x ∷ xs) = insert x (sort xs)

-- `unwrap` of a search
abbrev pub unwrap : Option ℕ → Result ℕ
unwrap none = err "called `unwrap` on an `Err` value"
unwrap (some i) = ok i

-- `binary_search(c).unwrap()` for each wanted column.
unfoldable pub search_each : List ℕ → List ℕ → Result (List ℕ)
unfolding position
search_each srt [] = ok []
search_each srt (c ∷ cs) = do
  i ← unwrap (position (λ x. x == c) srt)
  rest ← search_each srt cs
  ok (i ∷ rest)

-- The result positions from `p` on that pass a test on the columns.
unfoldable pub positions {ℓ} : {A : Type ℓ} → (A → Bool) → ℕ → List A → List ℕ
positions test p [] = []
positions test p (x ∷ xs) =
    if test x then p ∷ positions test (p + 1) xs else positions test (p + 1) xs

abbrev pub is_some {ℓ} : {A : Type ℓ} → Option A → Bool
is_some none = false
is_some (some x) = true

-- `xs[a..b]`
abbrev pub slice {ℓ} : {A : Type ℓ} → ℕ → ℕ → List A → List A
slice a b xs = take (b - a) (drop a xs)

-- The part of the positions `outs`; the column of result position `p` is `out[p]`.
unfoldable pub batch_part : List ℕ → List ℕ → Result Part
unfolding search_each sort
batch_part out outs = do
  let want = map (λ p. get_or out p 0) outs
  bat ← search_each (sort want) want
  ok (record { raw = []; outs = outs; bat = bat })

abbrev pub raw_part : ℕ → Part
raw_part p = record { raw = p ∷ []; outs = []; bat = [] }

-- The loop over `j`, with `todo` rounds left; an empty part is not pushed.
unfoldable pub split_loop : List ℕ → List ℕ → ℕ → ℕ → ℕ → Result (List Part)
unfolding batch_part
split_loop out arw k j zero = ok []
split_loop out arw k j (suc todo) = do
  let n = length arw
  let outs = slice (j * n / k) ((j + 1) * n / k) arw
  rest ← split_loop out arw k (j + 1) todo
  if length outs == 0 then ok rest else (do part ← batch_part out outs; ok (part ∷ rest))

-- `k.clamp(1, n)`
abbrev pub clamp : ℕ → ℕ → ℕ → ℕ
clamp lo hi k = min hi (max lo k)

-- The parts of a selection: `out` gives the file column of each result position, `raw` what is
-- known of its zero-copy decode.
unfoldable pub split {ℓ} : {A : Type ℓ} → List ℕ → List (Option A) → ℕ → Result (List Part)
unfolding split_loop positions
split out raw k =
    let parts = map raw_part (positions is_some 0 raw) in
    let arw = positions (λ r. not (is_some r)) 0 raw in
    let k = clamp 1 (length arw) k in
    if length arw == 0 then ok parts else (do rest ← split_loop out arw k 0 k; ok (parts ++ rest))

-- A unit of work: part `part` of the row group `rg`.
pub record Task : Type 0 where
  pub rg : Rg
  pub part : ℕ

abbrev pub tasks_of : Rg → ℕ → ℕ → List Task
tasks_of rg p zero = []
tasks_of rg p (suc todo) = record { rg = rg; part = p } ∷ tasks_of rg (p + 1) todo

-- The tasks of a window, `n` parts for each of its row groups.
unfoldable pub tasks : List Rg → ℕ → List Task
tasks [] n = []
tasks (rg ∷ rgs) n = tasks_of rg 0 n ++ tasks rgs n
