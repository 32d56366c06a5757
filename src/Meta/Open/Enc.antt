-- ===== src/Meta/Open/Enc.antt =====
-- src/meta.rs: `enc_of` speaks for every chunk of a column.
use mathlib.Core.Path.{subst}
use parquet_interop.Prelude.{
  ℕ, zero, suc, ◌+◌, ◌≤◌, ◌<◌, ◌≡◌, ◌↔◌, Bool, true, ◌&&◌, inl, inr, List, [], ◌∷◌, arith, ltb,
  ltb→lt, lt→ltb, ◌==◌, length, Bool-cases,
}
use parquet_interop.Mru.Laws.{All}
use parquet_interop.Meta.Footers.{FooterLib, Src}
use parquet_interop.Meta.Open.{n_rg, chunk_dict, enc_groups, enc_files, enc_of}

module _ (lib : FooterLib) (dict_offset : lib.Md → ℕ → ℕ → Bool) (c : ℕ) where
  -- Every row group of a file has a dictionary page for column `c`.
  abbrev pub AllDict : Src lib → Type 0
  AllDict s = (g : ℕ) → g < length s.rg_rows → chunk_dict lib dict_offset s g c ≡ true

  both : (a b : Bool) → (a && b) ≡ true → (a ≡ true) × (b ≡ true)
  both a b h = ground arith

  enc_groups_lem :
      (s : Src lib) (g left : ℕ) (all : Bool)
      → (enc_groups lib dict_offset c s g left all ≡ true) ↔ (
          (all ≡ true) × ((k : ℕ) → g ≤ k → k < g + left → chunk_dict lib dict_offset s k c ≡ true))
  unfolding enc_groups
  enc_groups_lem s g zero all = (λ h. (h, λ k lo hi. absurd (omega arith)), λ h. h.0)
  enc_groups_lem s g (suc left) all =
      let rest = enc_groups_lem s (g + 1) left (all && chunk_dict lib dict_offset s g c) in
      (
        λ h.
            let (here, later) = rest.0 h in
            let (before, this) = both all (chunk_dict lib dict_offset s g c) here in
            (
              before,
              λ k lo hi. elim (Bool-cases (g == k)) [
                | inl first ↦
                    let same : g ≡ k = ground arith in
                    subst (λ j. chunk_dict lib dict_offset s j c ≡ true) same this
                | inr further ↦ later k (ground arith) (omega arith)
              ],
            ),
        λ h.
            let before = h.0 in
            let this = h.1 g (omega arith) (omega arith) in
            rest.1 (ground arith, λ k lo hi. h.1 k (omega arith) (omega arith)),
      )

  enc_files_lem :
      (ss : List (Src lib)) (all : Bool)
      → (enc_files lib dict_offset c ss all ≡ true) ↔ ((all ≡ true) × All AllDict ss)
  unfolding enc_files
  enc_files_lem [] all = (λ h. (h, tt), λ h. h.0)
  enc_files_lem (s ∷ ss) all =
      let rest = enc_files_lem ss (enc_groups lib dict_offset c s 0 (length s.rg_rows) all) in
      let file = enc_groups_lem s 0 (length s.rg_rows) all in
      (
        λ h.
            let (here, later) = rest.0 h in
            let (before, groups) = file.0 here in
            (before, (λ g lt. groups g (omega arith) (omega arith), later)),
        λ h. rest.1 (file.1 (h.0, λ k lo hi. h.1.0 k (omega arith)), h.1.1),
      )

  -- `enc_of` answers 1b for a column exactly if the set has a row group and every row group of every
  -- file has a dictionary page for the column.
  pub enc_of_lem :
      (srcs : List (Src lib))
      → (enc_of lib dict_offset srcs c ≡ true) ↔ ((0 < n_rg lib srcs) × All AllDict srcs)
  unfolding enc_of
  enc_of_lem srcs =
      let files = enc_files_lem srcs (ltb 0 (n_rg lib srcs)) in
      (
        λ h. let (any, all) = files.0 h in (ltb→lt 0 (n_rg lib srcs) any, all),
        λ h. files.1 (lt→ltb 0 (n_rg lib srcs) h.0, h.1),
      )
