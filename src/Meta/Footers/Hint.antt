-- ===== src/Meta/Footers/Hint.antt =====
-- src/meta.rs, `dict_hint`: the hint changes how strings are delivered, and nothing else.
use Prim.Native.String.{String}
use parquet_interop.Prelude.{
  ◌≡◌, refl, sym, Bool, true, false, some, List, [], ◌∷◌, map, arith, Bool-cases, inl, inr, ok,
}
use mathlib.Core.Path.{ap₂}
use parquet_interop.Types.{DataType, utf8, l_type_of, ks}
use parquet_interop.Meta.Footers.{Field, Schema, is_string, hint_field, any_string, dict_hint}

-- What the parquet crate compares of a supplied schema's field, besides the type.
abbrev pub kept : Field → String × Bool × List (String × String)
kept f = (f.name, f.nullable, f.metadata)

module _ (show : DataType → String) where
  string_type : (dt : DataType) → is_string dt ≡ true → l_type_of show dt ≡ ok ks
  unfolding is_string l_type_of
  string_type utf8 e = refl
  string_type dt e = ground arith

  hint_field_lem :
      (f : Field)
      → (kept (hint_field f) ≡ kept f)
        × (l_type_of show (hint_field f).data_type ≡ l_type_of show f.data_type)
        × (is_string (hint_field f).data_type ≡ false)
  unfolding hint_field
  hint_field_lem f = elim (Bool-cases (is_string f.data_type)) [
    | inl string ↦
        rw (string, hint_field)
          (refl, unfold l_type_of in sym (string_type f.data_type string), unfold is_string in refl)
    | inr plain ↦ rw (plain, hint_field) (refl, refl, plain)
  ]

  hint_fields :
      (fs : List Field)
      → (map kept (map hint_field fs) ≡ map kept fs)
        × (map (λ f. l_type_of show f.data_type) (map hint_field fs)
            ≡ map (λ f. l_type_of show f.data_type) fs)
        × (any_string (map hint_field fs) ≡ false)
  unfolding any_string
  hint_fields [] = (refl, refl, refl)
  hint_fields (f ∷ fs) =
      let (a, b, c) = hint_field_lem f in
      let (as', bs, cs) = hint_fields fs in (ap₂ ◌∷◌ a as', ap₂ ◌∷◌ b bs, rw (c, cs))

  -- A supplied schema keeps every name, nullability and metadata, and the schema's own metadata;
  -- no column reads as another host type than before; and no plain string column is left in it.
  pub dict_hint_lem :
      (s h : Schema)
      → dict_hint s ≡ some h
      → (map kept h.fields ≡ map kept s.fields)
        × (h.metadata ≡ s.metadata)
        × (map (λ f. l_type_of show f.data_type) h.fields
            ≡ map (λ f. l_type_of show f.data_type) s.fields)
        × (any_string h.fields ≡ false)
  unfolding dict_hint
  dict_hint_lem s h e = elim (Bool-cases (any_string s.fields)) [
    | inr strings_free ↦ cc (rw (strings_free, dict_hint) at e)
    | inl strings ↦
        let same : record s { fields = map hint_field s.fields } ≡ h = ground arith in
        let (kept_same, types_same, plain) = hint_fields s.fields in
        rw (← same) (kept_same, refl, types_same, plain)
  ]
