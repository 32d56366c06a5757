-- ===== src/Read/One/Batches.antt =====
-- src/read.rs, `one`: the batches of a row group fill each of their columns one after the other.
use parquet_interop.Prelude.{
  ℕ, ◌+◌, ◌≤◌, ◌≡◌, refl, ap, ◌∙◌, arith, some, List, [], ◌∷◌, ◌==◌, Result, ok, err, false,
  Bool-cases, inl, inr, ok_inj,
}
use parquet_interop.Read.Window.{Part}
use parquet_interop.Read.One.{Source, copy_loop, batch_loop}
use parquet_interop.Read.One.Tiles.{tiled, count, then_log_ok, one_call, chain-tiled}

module _ (src : Source) where
  -- A batch does not touch a column that it does not have.
  copy_loop-skips :
      (p at off n : ℕ) (ps bat : List ℕ)
      → (copy_loop src off n ps bat).1 ≡ ok tt
      → count p ps ≡ 0
      → tiled p at (copy_loop src off n ps bat).0 ≡ some at
  unfolding copy_loop tiled
  copy_loop-skips p at off n [] bat h none_there = refl
  copy_loop-skips p at off n (q ∷ qs) [] h none_there = cc
  copy_loop-skips p at off n (q ∷ qs) (b ∷ bs) h none_there =
      let other : (q == p) ≡ false = ground (arith, none_there) in
      chain-tiled p at at at (record { out = q; from = off; rows = n } ∷ [], src.copied q b off)
        (λ done. copy_loop src off n qs bs) tt h (rw (other, tiled) refl)
        (λ done e rest. copy_loop-skips p at off n qs bs rest (omega (arith, none_there)))

  -- A batch takes a column that it has once.
  copy_loop-takes :
      (p off n : ℕ) (ps bat : List ℕ)
      → (copy_loop src off n ps bat).1 ≡ ok tt
      → count p ps ≡ 1
      → tiled p off (copy_loop src off n ps bat).0 ≡ some (off + n)
  unfolding copy_loop
  copy_loop-takes p off n [] bat h once = absurd (omega arith)
  copy_loop-takes p off n (q ∷ qs) [] h once = cc
  copy_loop-takes p off n (q ∷ qs) (b ∷ bs) h once = elim (Bool-cases (q == p)) [
    | inl same ↦
        chain-tiled p off (off + n) (off + n)
          (record { out = q; from = off; rows = n } ∷ [], src.copied q b off)
          (λ done. copy_loop src off n qs bs) tt h (one_call p q off n ∙ ap some (rw same refl))
          (λ done e rest. copy_loop-skips p (off + n) off n qs bs rest (ground (arith, once, same)))
    | inr other ↦
        chain-tiled p off off (off + n)
          (record { out = q; from = off; rows = n } ∷ [], src.copied q b off)
          (λ done. copy_loop src off n qs bs) tt h
          (one_call p q off n ∙ ap some (rw other (omega arith)))
          (λ done e rest. copy_loop-takes p off n qs bs rest (ground (arith, once, other)))
  ]

  pub batch_loop-skips :
      (p at : ℕ) (part : Part) (off end : ℕ) (batches : List (Result ℕ))
      → (batch_loop src part off batches).1 ≡ ok end
      → count p part.outs ≡ 0
      → tiled p at (batch_loop src part off batches).0 ≡ some at
  unfolding batch_loop tiled
  batch_loop-skips p at part off end [] h none_there = refl
  batch_loop-skips p at part off end (err e ∷ batches) h none_there = cc
  batch_loop-skips p at part off end (ok n ∷ batches) h none_there =
      let c =
        then_log_ok (copy_loop src off n part.outs part.bat)
          (λ done. batch_loop src part (off + n) batches) end h in
      chain-tiled p at at at (copy_loop src off n part.outs part.bat)
        (λ done. batch_loop src part (off + n) batches) end h
        (copy_loop-skips p at off n part.outs part.bat c.first none_there)
        (λ done e rest. batch_loop-skips p at part (off + n) end batches rest none_there)

  pub batch_loop-takes :
      (p : ℕ) (part : Part) (off end : ℕ) (batches : List (Result ℕ))
      → (batch_loop src part off batches).1 ≡ ok end
      → count p part.outs ≡ 1
      → tiled p off (batch_loop src part off batches).0 ≡ some end
  unfolding batch_loop tiled
  batch_loop-takes p part off end [] h once = ap some (ok_inj h)
  batch_loop-takes p part off end (err e ∷ batches) h once = cc
  batch_loop-takes p part off end (ok n ∷ batches) h once =
      let c =
        then_log_ok (copy_loop src off n part.outs part.bat)
          (λ done. batch_loop src part (off + n) batches) end h in
      chain-tiled p off (off + n) end (copy_loop src off n part.outs part.bat)
        (λ done. batch_loop src part (off + n) batches) end h
        (copy_loop-takes p off n part.outs part.bat c.first once)
        (λ done e rest. batch_loop-takes p part (off + n) end batches rest once)

  pub batch_loop-grows :
      (part : Part) (off end : ℕ) (batches : List (Result ℕ))
      → (batch_loop src part off batches).1 ≡ ok end
      → off ≤ end
  unfolding batch_loop
  batch_loop-grows part off end [] h = omega (arith, ok_inj h)
  batch_loop-grows part off end (err e ∷ batches) h = cc
  batch_loop-grows part off end (ok n ∷ batches) h =
      let c =
        then_log_ok (copy_loop src off n part.outs part.bat)
          (λ done. batch_loop src part (off + n) batches) end h in
      omega (arith, batch_loop-grows part (off + n) end batches c.second)
