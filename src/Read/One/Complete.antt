-- ===== src/Read/One/Complete.antt =====
-- src/read.rs, `one`: the rows that a task which succeeds has handed to the decoders.
use parquet_interop.Prelude.{
  ℕ, ◌+◌, ◌-◌, ◌≤◌, ◌≡◌, refl, sym, ap, ◌∙◌, arith, some, List, [], ◌∷◌, length, ◌==◌,
  if◌then◌else◌, Result, ok, err, true, false, Bool-cases, Option-cases, inl, inr,
}
use parquet_interop.Read.Window.{Part}
use parquet_interop.Read.One.{
  Source, Log, then_log, delivered, raw_loop, batch_loop, arrow_cols, one,
}
use parquet_interop.Read.One.Tiles.{tiled, count, then_log_ok, one_call, chain-tiled}
use parquet_interop.Read.One.Batches.{batch_loop-skips, batch_loop-takes, batch_loop-grows}

module _ (src : Source) where
  -- The check behind the batches: it calls nothing, and passes at the right row only.
  abbrev checked : ℕ → ℕ → ℕ → Log (Unit {0})
  checked off rows end = ([], if end - off == rows then ok tt else err src.wrong_rows)

  checked_lem : (off rows end : ℕ) → off ≤ end → (checked off rows end).1 ≡ ok tt → end ≡ off + rows
  checked_lem off rows end grown = elim (Bool-cases (end - off == rows)) [
    | inl right ↦ λ h. ground (arith, right, grown)
    | inr wrong ↦ rw wrong (λ h. cc)
  ]

  arrow_cols-takes :
      (p : ℕ) (part : Part) (off rows : ℕ)
      → (arrow_cols src part off rows).1 ≡ ok tt
      → count p part.outs ≡ 1
      → tiled p off (arrow_cols src part off rows).0 ≡ some (off + rows)
  unfolding arrow_cols tiled
  arrow_cols-takes p part off rows h once =
      chain-tiled p off off (off + rows) ([], src.built)
        (λ ready. then_log (batch_loop src part off src.batches) (checked off rows)) tt h refl
        (λ ready e rest.
          let c = then_log_ok (batch_loop src part off src.batches) (checked off rows) tt rest in
          chain-tiled p off c.value (off + rows) (batch_loop src part off src.batches)
            (checked off rows) tt rest
            (batch_loop-takes src p part off c.value src.batches c.first once)
            (λ end found passed. ap some (
              checked_lem off rows c.value
                (batch_loop-grows src part off c.value src.batches c.first) c.second)))

  arrow_cols-skips :
      (p at : ℕ) (part : Part) (off rows : ℕ)
      → (arrow_cols src part off rows).1 ≡ ok tt
      → count p part.outs ≡ 0
      → tiled p at (arrow_cols src part off rows).0 ≡ some at
  unfolding arrow_cols tiled
  arrow_cols-skips p at part off rows h none_there =
      chain-tiled p at at at ([], src.built)
        (λ ready. then_log (batch_loop src part off src.batches) (checked off rows)) tt h refl
        (λ ready e rest.
          let c = then_log_ok (batch_loop src part off src.batches) (checked off rows) tt rest in
          chain-tiled p at at at (batch_loop src part off src.batches) (checked off rows) tt rest
            (batch_loop-skips src p at part off c.value src.batches c.first none_there)
            (λ end found passed. refl))

  -- What follows a zero-copy column that delivered `n` rows.
  abbrev raw_next : ℕ → ℕ → List ℕ → ℕ → Log (Unit {0})
  raw_next off rows qs n = if n == rows then raw_loop src off rows qs else ([], err src.wrong_rows)

  raw_next_lem :
      (off rows : ℕ) (qs : List ℕ) (n : ℕ)
      → (raw_next off rows qs n).1 ≡ ok tt
      → (n ≡ rows) × (raw_next off rows qs n ≡ raw_loop src off rows qs)
  raw_next_lem off rows qs n = elim (Bool-cases (n == rows)) [
    | inl right ↦ λ h. (ground (arith, right), rw right refl)
    | inr wrong ↦ rw wrong (λ h. cc)
  ]

  -- A zero-copy column of another output.
  delivered-skips :
      (p q at off n : ℕ) (m : Result ℕ)
      → m ≡ ok n
      → (q == p) ≡ false
      → tiled p at (delivered q off m).0 ≡ some at
  unfolding tiled delivered
  delivered-skips p q at off n m h other = rw (h, delivered, other, tiled) refl

  delivered-takes :
      (p q off n : ℕ) (m : Result ℕ)
      → m ≡ ok n
      → (q == p) ≡ true
      → tiled p off (delivered q off m).0 ≡ some (off + n)
  unfolding delivered
  delivered-takes p q off n m h mine =
      rw (h, delivered) (one_call p q off n ∙ ap some (rw mine refl))

  delivered_ok : (q off n : ℕ) (m : Result ℕ) → (delivered q off m).1 ≡ ok n → m ≡ ok n
  unfolding delivered
  delivered_ok q off n (ok k) h = h
  delivered_ok q off n (err e) h = cc

  raw_loop-skips :
      (p at off rows : ℕ) (ps : List ℕ)
      → (raw_loop src off rows ps).1 ≡ ok tt
      → count p ps ≡ 0
      → tiled p at (raw_loop src off rows ps).0 ≡ some at
  unfolding raw_loop tiled
  raw_loop-skips p at off rows [] = λ h none_there. refl
  raw_loop-skips p at off rows (q ∷ qs) = elim (Option-cases (src.leaf q)) [
    | inl absent ↦ rw (absent, raw_loop) (λ h none_there. cc)
    | inr (leaf, found) ↦
        rw (found, raw_loop)
          (λ h none_there.
            let first = delivered q off (src.raw_col q leaf) in
            let c = then_log_ok first (raw_next off rows qs) tt h in
            let gave = delivered_ok q off c.value (src.raw_col q leaf) c.first in
            chain-tiled p at at at first (raw_next off rows qs) tt h
              (delivered-skips p q at off c.value (src.raw_col q leaf) gave
                (ground (arith, none_there)))
              (λ n e rest.
                let same = (raw_next_lem off rows qs n rest).1 in
                ap (λ l. tiled p at l.0) same
                ∙ raw_loop-skips p at off rows qs (ap (λ l. l.1) (sym same) ∙ rest)
                    (ground (arith, none_there))))
  ]

  raw_loop-takes :
      (p off rows : ℕ) (ps : List ℕ)
      → (raw_loop src off rows ps).1 ≡ ok tt
      → count p ps ≡ 1
      → tiled p off (raw_loop src off rows ps).0 ≡ some (off + rows)
  unfolding raw_loop
  raw_loop-takes p off rows [] = λ h once. absurd (omega arith)
  raw_loop-takes p off rows (q ∷ qs) = elim (Option-cases (src.leaf q)) [
    | inl absent ↦ rw (absent, raw_loop) (λ h once. cc)
    | inr (leaf, found) ↦
        rw (found, raw_loop)
          (λ h once.
            let first = delivered q off (src.raw_col q leaf) in
            let c = then_log_ok first (raw_next off rows qs) tt h in
            let gave = delivered_ok q off c.value (src.raw_col q leaf) c.first in
            elim (Bool-cases (q == p)) [
              | inl mine ↦
                  chain-tiled p off (off + rows) (off + rows) first (raw_next off rows qs) tt h
                    (delivered-takes p q off c.value (src.raw_col q leaf) gave mine
                      ∙ ap (λ n. some (off + n)) (raw_next_lem off rows qs c.value c.second).0)
                    (λ n e rest.
                      let same = (raw_next_lem off rows qs n rest).1 in
                      ap (λ l. tiled p (off + rows) l.0) same
                      ∙ raw_loop-skips p (off + rows) off rows qs (ap (λ l. l.1) (sym same) ∙ rest)
                          (ground (arith, once, mine)))
              | inr other ↦
                  chain-tiled p off off (off + rows) first (raw_next off rows qs) tt h
                    (delivered-skips p q off off c.value (src.raw_col q leaf) gave other)
                    (λ n e rest.
                      let same = (raw_next_lem off rows qs n rest).1 in
                      ap (λ l. tiled p off l.0) same
                      ∙ raw_loop-takes p off rows qs (ap (λ l. l.1) (sym same) ∙ rest)
                          (ground (arith, once, other)))
            ])
  ]

  -- Behind the zero-copy columns of a part.
  abbrev one_rest : Part → ℕ → ℕ → Unit {0} → Log (Unit {0})
  one_rest part off rows done =
      if length part.outs == 0 then ([], ok tt) else arrow_cols src part off rows

  no_outs : (p : ℕ) (qs : List ℕ) → (length qs == 0) ≡ true → count p qs ≡ 0
  no_outs p [] h = refl
  no_outs p (q ∷ qs) h = absurd (ground (arith, h))

  one_rest-skips :
      (p at : ℕ) (part : Part) (off rows : ℕ)
      → (one_rest part off rows tt).1 ≡ ok tt
      → count p part.outs ≡ 0
      → tiled p at (one_rest part off rows tt).0 ≡ some at
  unfolding tiled
  one_rest-skips p at part off rows = elim (Bool-cases (length part.outs == 0)) [
    | inl nothing ↦ rw nothing (λ h none_there. refl)
    | inr more ↦ rw more (λ h none_there. arrow_cols-skips p at part off rows h none_there)
  ]

  one_rest-takes :
      (p : ℕ) (part : Part) (off rows : ℕ)
      → (one_rest part off rows tt).1 ≡ ok tt
      → count p part.outs ≡ 1
      → tiled p off (one_rest part off rows tt).0 ≡ some (off + rows)
  one_rest-takes p part off rows = elim (Bool-cases (length part.outs == 0)) [
    | inl nothing ↦ λ h once. absurd (omega (arith, once, no_outs p part.outs nothing))
    | inr more ↦ rw more (λ h once. arrow_cols-takes p part off rows h once)
  ]

  -- The zero-copy columns and the rest of a part.
  columns-tiled :
      (p : ℕ) (part : Part) (off rows : ℕ)
      → (then_log (raw_loop src off rows part.raw) (one_rest part off rows)).1 ≡ ok tt
      → count p part.raw + count p part.outs ≡ 1
      → tiled p off (then_log (raw_loop src off rows part.raw) (one_rest part off rows)).0
        ≡ some (off + rows)
  columns-tiled p part off rows h once =
      let c = then_log_ok (raw_loop src off rows part.raw) (one_rest part off rows) tt h in
      elim (Bool-cases (count p part.raw == 0)) [
        | inl arrow ↦
            chain-tiled p off off (off + rows) (raw_loop src off rows part.raw)
              (one_rest part off rows) tt h
              (raw_loop-skips p off off rows part.raw c.first (ground (arith, arrow)))
              (λ done e rest. one_rest-takes p part off rows rest (ground (arith, arrow, once)))
        | inr raw ↦
            chain-tiled p off (off + rows) (off + rows) (raw_loop src off rows part.raw)
              (one_rest part off rows) tt h
              (raw_loop-takes p off rows part.raw c.first (ground (arith, raw, once)))
              (λ done e rest.
                one_rest-skips p (off + rows) part off rows rest (ground (arith, raw, once)))
      ]

  -- What `one` does with the file.
  abbrev with_file : Part → ℕ → ℕ → Log (Unit {0})
  with_file part off rows =
      if length part.raw == 0
      then arrow_cols src part off rows
      else then_log ([], src.cloned)
          (λ copy. then_log (raw_loop src off rows part.raw) (one_rest part off rows))

  with_file-tiled :
      (p : ℕ) (part : Part) (off rows : ℕ)
      → (with_file part off rows).1 ≡ ok tt
      → count p part.raw + count p part.outs ≡ 1
      → tiled p off (with_file part off rows).0 ≡ some (off + rows)
  unfolding tiled
  with_file-tiled p part off rows = elim (Bool-cases (length part.raw == 0)) [
    | inl no_raw ↦ rw no_raw (λ h once.
        arrow_cols-takes p part off rows h (omega (arith, once, no_outs p part.raw no_raw)))
    | inr raw ↦ rw raw (λ h once.
        chain-tiled p off off (off + rows) ([], src.cloned)
          (λ copy. then_log (raw_loop src off rows part.raw) (one_rest part off rows)) tt h refl
          (λ copy e rest. columns-tiled p part off rows rest once))
  ]

  -- In a task that succeeds, the decoders have delivered exactly its rows of every column that
  -- stands once in its part, from the first to the last and without a gap or an overlap: a zero-copy
  -- column as many as `raw_col` answers, any other as many as the batches have.
  pub one-tiled :
      (p : ℕ) (part : Part) (off rows : ℕ)
      → (one src part off rows).1 ≡ ok tt
      → count p part.raw + count p part.outs ≡ 1
      → tiled p off (one src part off rows).0 ≡ some (off + rows)
  unfolding one tiled
  one-tiled p part off rows h once =
      chain-tiled p off off (off + rows) ([], src.opened) (λ file. with_file part off rows) tt h
        refl (λ file e rest. with_file-tiled p part off rows rest once)
