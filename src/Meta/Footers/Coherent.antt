-- ===== src/Meta/Footers/Coherent.antt =====
-- src/meta.rs, `load`: what the cache of footers is behind a look and behind a store.
use Prim.Native.String.{String}
use text.Mathlib.TextEquality.{eq_iff}
use parquet_interop.Prelude.{
  ℕ, ◌≤◌, ◌≡◌, ◌≢◌, true, false, none, some, [], ◌∷◌, arith, inl, inr, length, Option-cases, ok,
  bind_ok, Bool-cases,
}
use parquet_interop.Prelude.Int.{eq_of_parts, eqb_ℤ}
use parquet_interop.Mru.{position, to_front, push_front}
use parquet_interop.Mru.Laws.{
  All, All-take, Pairwise, Pairwise-take, Hit, position-none, length-push_front-le,
}
use parquet_interop.Meta.Footers.{
  Key, key_eq, FooterLib, Footer, Footers, footers_max, find_footer, parse_footer, apply_hint,
  sum_i64, store_footer,
}

pub key_eq→eq : (a b : Key) → key_eq a b ≡ true → a ≡ b
unfolding key_eq
key_eq→eq a b h = ground (
  arith,
  eq_iff a.path b.path,
  eq_of_parts a.mtime_sec b.mtime_sec,
  eq_of_parts a.mtime_nsec b.mtime_nsec,
)

key_eq_refl : (a : Key) → key_eq a a ≡ true
unfolding key_eq
key_eq_refl a = ground (arith, eq_iff a.path a.path)

module _ (lib : FooterLib) where
  -- Who asks is only in the error.
  pub parse_any :
      (who other path : String) (f : lib.File) (footer : Footer lib)
      → parse_footer lib who path f ≡ ok footer
      → parse_footer lib other path f ≡ ok footer
  unfolding parse_footer
  parse_any who other path f footer h =
      let (base, loaded, h1) = bind_ok (lib.load_md f) _ h in
      let md = apply_hint lib base in
      let agree = eqb_ℤ (lib.declared md) (sum_i64 (lib.row_groups md)) in
      elim (Bool-cases agree) [
        | inl same ↦ rw loaded (rw same (rw same at h1))
        | inr differ ↦ cc (rw differ at h1)
      ]

module _ (lib : FooterLib) (content : Key → lib.File) where
  -- A cached entry is the parse of the file that its key identifies.
  abbrev pub IsParsed : Key × Footer lib → Type 0
  IsParsed e = (who : String) → parse_footer lib who e.0.path (content e.0) ≡ ok e.1

  -- Two entries are of different files.
  abbrev pub Apart : Key × Footer lib → Key × Footer lib → Type 0
  Apart a b = a.0 ≢ b.0

  pub record IsCoherent (c : Footers lib) : Type 0 where
    pub parsed : All IsParsed c
    pub small : length c ≤ footers_max
    pub distinct : Pairwise Apart c

  missing :
      (key : Key) (c : Footers lib) (footer : Footer lib)
      → All (λ e. key_eq e.0 key ≡ false) c
      → All (Apart (key, footer)) c
  missing key [] footer h = tt
  missing key (e ∷ c) footer h = (λ same. cc (key_eq_refl key, h.0, same), missing key c footer h.1)

  pub store-IsCoherent :
      (key : Key) (footer : Footer lib) (c : Footers lib)
      → IsParsed (key, footer)
      → IsCoherent c
      → IsCoherent (store_footer lib key footer c)
  unfolding store_footer push_front
  store-IsCoherent key footer c parsed h = elim (Option-cases (position (λ e. key_eq e.0 key) c)) [
    | inr (i, at) ↦ rw (at, store_footer) h
    | inl miss ↦
        rw (miss, store_footer)
          (record {
            parsed = (parsed, All-take IsParsed 31 c h.parsed);
            small = length-push_front-le footers_max (key, footer) c (omega arith);
            distinct = (
              All-take (Apart (key, footer)) 31 c (missing key c footer (position-none _ c miss)),
              Pairwise-take Apart 31 c h.distinct,
            );
          })
  ]

  pub find-Hit :
      (key : Key) (c : Footers lib) (i : ℕ)
      → position (λ e. key_eq e.0 key) c ≡ some i
      → (hit : Hit (λ e. key_eq e.0 key) c i)
      → find_footer lib key c ≡ (some hit.entry.1, to_front i c)
  unfolding find_footer
  find-Hit key c i at hit = rw (at, find_footer, hit.moved)

  pub find_miss :
      (key : Key) (c : Footers lib)
      → position (λ e. key_eq e.0 key) c ≡ none
      → find_footer lib key c ≡ (none, c)
  unfolding find_footer
  find_miss key c miss = rw (miss, find_footer)
