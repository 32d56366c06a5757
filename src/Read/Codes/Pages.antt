-- ===== src/Read/Codes/Pages.antt =====
-- src/read.rs, `dict_page`: the entries of a dictionary page as spans.
use Prim.Native.String.{String}
use mathlib.Core.Path.{ap₂, subst}
use native.Mathlib.Nat.{mod-eq_of_lt}
use parquet_interop.Prelude.{
  ℕ, zero, suc, ◌+◌, ◌%◌, ◌^◌, ◌≤◌, ◌<◌, ◌≡◌, refl, sym, ap, ◌∙◌, arith, true, ◌&&◌, List, [], ◌∷◌,
  ◌++◌, map, append_assoc, leb, length, length-append, take, drop, take-append_length, drop_prefix,
  drop-append_length, Bool-cases, inl, inr, ok, ok_inj, bind_ok,
}
use parquet_interop.Mru.Laws.{All}
use parquet_interop.Read.Symbols.{Bytes, le_value}
use parquet_interop.Read.Codes.{slice, page_spans, le_bytes8}

-- The layout of a dictionary page of texts: each behind its length in four bytes.
abbrev pub page_of : List Bytes → Bytes
page_of [] = []
page_of (b ∷ bs) = le_bytes8 4 (length b) ++ (b ++ page_of bs)

le_value-le_bytes8 :
    (n : ℕ) (rest : Bytes) → n < 2 ^ 32 → le_value (take 4 (le_bytes8 4 n ++ rest)) ≡ n
le_value-le_bytes8 n rest h = omega arith

-- One entry is read at its place, and the rest behind it.
page_spans_step :
    (short : String) (buf : Bytes) (left i n : ℕ) (spans : List (ℕ × ℕ))
    → le_value (take 4 (drop i buf)) ≡ n
    → i + 4 + n ≤ length buf
    → length buf < 2 ^ 32
    → page_spans short buf left (i + (4 + n)) ≡ ok spans
    → page_spans short buf (suc left) i ≡ ok ((i + 4, n) ∷ spans)
unfolding page_spans
page_spans_step short buf left i n spans is fit small rest =
    let head : leb (i + 4) (length buf) ≡ true = ground arith in
    let body : leb (i + 4 + n) (length buf) ≡ true = ground arith in
    let place : (i + 4) % 2 ^ 32 ≡ i + 4 = mod-eq_of_lt (omega arith) in
    let size : n % 2 ^ 32 ≡ n = mod-eq_of_lt (omega arith) in
    rw (page_spans, is, head, body, rest) (ap (λ span. ok (span ∷ spans)) (rw (place, size)))

-- Where the first entry of a page stands behind `pre`.
record FirstEntry (buf pre e more post : Bytes) : Type 0 where
  word : drop (length pre) buf ≡ le_bytes8 4 (length e) ++ ((e ++ more) ++ post)
  text : slice buf (length pre + 4, length e) ≡ e
  fit : length pre + 4 + length e ≤ length buf
  next : buf ≡ (pre ++ (le_bytes8 4 (length e) ++ e)) ++ (more ++ post)
  place : length (pre ++ (le_bytes8 4 (length e) ++ e)) ≡ length pre + (4 + length e)

first_entry :
    (buf pre e more post : Bytes)
    → buf ≡ pre ++ ((le_bytes8 4 (length e) ++ (e ++ more)) ++ post)
    → FirstEntry buf pre e more post
first_entry buf pre e more post is = record {
  word = rw is (drop_prefix pre _);
  text = rw (is, drop-append_length, append_assoc, take-append_length);
  fit = rw (is, length-append, append_assoc, length-append e) (omega arith);
  next =
      is
      ∙ ap (λ w. pre ++ (le_bytes8 4 (length e) ++ w)) (append_assoc e more post)
      ∙ sym (append_assoc pre (le_bytes8 4 (length e) ++ e) (more ++ post));
  place = omega (arith, length-append pre (le_bytes8 4 (length e) ++ e));
}

-- Behind any bytes and before any others, the page of some texts is cut into exactly those texts,
-- where the buffer has fewer than 2 ^ 32 bytes.
pub page_spans-page_of :
    (short : String) (pre : Bytes) (es : List Bytes) (post : Bytes) (buf : Bytes)
    → buf ≡ pre ++ (page_of es ++ post)
    → length buf < 2 ^ 32
    → (spans : List (ℕ × ℕ)) × (page_spans short buf (length es) (length pre) ≡ ok spans)
      × (map (slice buf) spans ≡ es)
unfolding page_spans
page_spans-page_of short pre [] post buf is small = ([], refl, refl)
page_spans-page_of short pre (e ∷ es) post buf is small =
    let f = first_entry buf pre e (page_of es) post is in
    let (spans, rest, right) =
      page_spans-page_of short (pre ++ (le_bytes8 4 (length e) ++ e)) es post buf f.next small in
    let n = length e in
    (
      (length pre + 4, n) ∷ spans,
      page_spans_step short buf (length es) (length pre) n spans
          (ap (λ w. le_value (take 4 w)) f.word
            ∙ le_value-le_bytes8 n ((e ++ page_of es) ++ post) (omega (arith, f.fit)))
          f.fit small (ap (page_spans short buf (length es)) (sym f.place) ∙ rest),
      ap₂ ◌∷◌ f.text right,
    )

-- An entry lies within the page.
abbrev pub IsWithin : Bytes → ℕ × ℕ → Type 0
IsWithin buf (o, n) = o + n ≤ length buf

fits_span :
    (i n size : ℕ)
    → (leb (i + 4) size && leb (i + 4 + n) size) ≡ true
    → (i + 4) % 2 ^ 32 + n % 2 ^ 32 ≤ size
fits_span i n size h = let fit : i + 4 + n ≤ size = ground (arith, h) in omega arith

-- What is read of a page that is accepted lies within it, so no slice of it panics, and as many
-- entries are read as the page declares.
pub page_spans-IsWithin :
    (short : String) (buf : Bytes) (left i : ℕ) (spans : List (ℕ × ℕ))
    → page_spans short buf left i ≡ ok spans
    → All (IsWithin buf) spans × (length spans ≡ left)
unfolding page_spans
page_spans-IsWithin short buf zero i spans =
    λ got. subst (λ s. All (IsWithin buf) s × (length s ≡ 0)) (ok_inj got) (tt, refl)
page_spans-IsWithin short buf (suc left) i spans =
    let n = le_value (take 4 (drop i buf)) in
    elim (Bool-cases (leb (i + 4) (length buf) && leb (i + 4 + n) (length buf))) [
      | inr cut ↦ rw (cut, page_spans) (λ got. cc)
      | inl whole ↦
          rw (whole, page_spans)
            (λ got.
              let (rest, is, all) = bind_ok (page_spans short buf left (i + (4 + n))) _ got in
              let fit : (i + 4) % 2 ^ 32 + n % 2 ^ 32 ≤ length buf =
                fits_span i n (length buf) whole in
              let h = page_spans-IsWithin short buf left (i + (4 + n)) rest is in
              subst (λ s. All (IsWithin buf) s × (length s ≡ suc left)) (ok_inj all)
                ((fit, h.0), ap suc h.1))
    ]
