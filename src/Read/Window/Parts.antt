-- ===== src/Read/Window/Parts.antt =====
-- src/read.rs, `split`: every result position is in exactly one part, and each part's batch holds
-- the columns that its positions want.
use parquet_interop.Prelude.{ℕ, ◌≡◌, ◌⊎◌, List, [], ◌∷◌, ◌++◌, map, get_or, Result, ok}
use parquet_interop.Mru.Laws.{All}
use parquet_interop.Read.Window.{Part, sort}

-- The file columns of result positions.
abbrev pub columns : List ℕ → List ℕ → List ℕ
columns out ps = map (λ p. get_or out p 0) ps

module _ (out : List ℕ) where
  -- A part is either zero-copy or a batch, and column `bat[i]` of the batch, whose columns are in
  -- file order, is the one that position `outs[i]` wants.
  pub record IsPart (part : Part) : Type 0 where
    pub one_kind : (part.raw ≡ []) ⊎ (part.outs ≡ [])
    pub wanted :
        map (λ i. get_or (sort (columns out part.outs)) i 0) part.bat ≡ columns out part.outs

  -- The positions of all parts, part by part.
  abbrev pub all_raw : List Part → List ℕ
  all_raw [] = []
  all_raw (p ∷ ps) = p.raw ++ all_raw ps

  abbrev pub all_outs : List Part → List ℕ
  all_outs [] = []
  all_outs (p ∷ ps) = p.outs ++ all_outs ps

  record Loop (r : Result (List Part)) (left : List ℕ) : Type 0 where
    parts : List Part
    done : r ≡ ok parts
    raws : all_raw parts ≡ []
    outs : all_outs parts ≡ left
    each : All IsPart parts
