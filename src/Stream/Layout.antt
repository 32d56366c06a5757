-- ===== src/Stream/Layout.antt =====
-- src/stream.rs: a column file has the layout that the host loads.
use parquet_interop.Prelude.{
  ℕ, zero, suc, ◌+◌, ◌%◌, ◌^◌, ◌≤◌, ◌≡◌, refl, sym, ap, ◌∙◌, arith, Bool, true, false, List, [],
  ◌∷◌, ◌++◌, append-nil, append_assoc, length, length-append, replicate, drop, take-length, ◌==◌,
  Bool-cases, inl, inr,
}
use parquet_interop.Types.{ks}
use parquet_interop.Read.Symbols.{Bytes}
use parquet_interop.Stream.{
  le_bytes, File, create, seek, write_all, hdr_fixed, hdr_syms, patch_count, Chunk, symbols,
  elements, append_symbols, append_chunk, append_chunks, column_file,
}

-- The bytes of the chunks, one after the other.
abbrev pub texts : List Bytes → Bytes
texts [] = []
texts (s ∷ ss) = (s ++ (0 ∷ [])) ++ texts ss

abbrev pub payload : List Chunk → Bytes
payload [] = []
payload (symbols ss ∷ cs) = texts ss ++ payload cs
payload (elements b ∷ cs) = b ++ payload cs

-- A file that is written at its end.
abbrev at_end : Bytes → File
at_end b = record { bytes = b; place = length b }

drop-past : (xs : Bytes) (n : ℕ) → length xs ≤ n → drop n xs ≡ []
drop-past [] zero h = refl
drop-past [] (suc n) h = refl
drop-past (x ∷ xs) zero h = absurd (omega arith)
drop-past (x ∷ xs) (suc n) h = drop-past xs n (omega arith)

write_all-at_end : (b c : Bytes) → write_all c (at_end b) ≡ at_end (b ++ c)
unfolding write_all
write_all-at_end b c =
    rw
      (
        take-length b (length b) (omega arith),
        drop-past b (length b + length c) (omega arith),
        append-nil,
        length-append,
      )
      refl

append_symbols-at_end :
    (ss : List Bytes) (b : Bytes) → append_symbols ss (at_end b) ≡ at_end (b ++ texts ss)
unfolding append_symbols
append_symbols-at_end [] b = ap at_end (sym (append-nil b))
append_symbols-at_end (s ∷ ss) b =
    ap (append_symbols ss) (write_all-at_end b (s ++ (0 ∷ [])))
    ∙ append_symbols-at_end ss (b ++ (s ++ (0 ∷ [])))
    ∙ ap at_end (append_assoc b (s ++ (0 ∷ [])) (texts ss))

append_chunks-at_end :
    (cs : List Chunk) (b : Bytes) → append_chunks cs (at_end b) ≡ at_end (b ++ payload cs)
unfolding append_chunks append_chunk
append_chunks-at_end [] b = ap at_end (sym (append-nil b))
append_chunks-at_end (symbols ss ∷ cs) b =
    ap (append_chunks cs) (append_symbols-at_end ss b)
    ∙ append_chunks-at_end cs (b ++ texts ss)
    ∙ ap at_end (append_assoc b (texts ss) (payload cs))
append_chunks-at_end (elements c ∷ cs) b =
    ap (append_chunks cs) (write_all-at_end b c)
    ∙ append_chunks-at_end cs (b ++ c)
    ∙ ap at_end (append_assoc b c (payload cs))

-- The layout of a column file of `n` elements.
abbrev pub layout : Bool → ℕ → ℕ → Bytes → Bytes
layout true lt n body = 0xff ∷ 0x01 ∷ (le_bytes 2 ks ++ (le_bytes 4 (n % 2 ^ 32) ++ body))
layout false lt n body =
    replicate 4 0
    ++ (le_bytes 2 lt ++ (replicate 2 0 ++ (le_bytes 8 (n % 2 ^ 64) ++ (replicate 16 0 ++ body))))

-- The file of a column has its header, with the type and the count that was patched in, and behind
-- it the bytes of all chunks, in order.
pub column_file-layout :
    (lt : ℕ) (chunks : List Chunk) (total : ℕ)
    → column_file lt chunks total ≡ layout (lt == ks) lt total (payload chunks)
unfolding column_file hdr_syms hdr_fixed create patch_count seek write_all
column_file-layout lt chunks total = elim (Bool-cases (lt == ks)) [
  | inl sym_col ↦
      rw (sym_col, column_file)
        (ap (λ f. (patch_count true total f).bytes)
          (append_chunks-at_end chunks (hdr_syms 0 create).bytes))
  | inr fixed ↦
      rw (fixed, column_file)
        (ap (λ f. (patch_count false total f).bytes)
          (append_chunks-at_end chunks (hdr_fixed lt create).bytes))
]
