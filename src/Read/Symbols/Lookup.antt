-- ===== src/Read/Symbols/Lookup.antt =====
-- src/read.rs, `SymCache`: the cache never changes a symbol, and a dictionary's table holds the
-- symbol of each of its values.
use Prim.Native.Nat.{bit_and}
use mathlib.Core.Path.{subst}
use parquet_interop.Prelude.{
  ℕ, ◌-◌, ◌/◌, ◌%◌, ◌^◌, ◌≤◌, ◌<◌, ◌≡◌, refl, sym, ap, ◌∙◌, true, inl, inr, Option, none, some,
  List, [], ◌∷◌, ◌++◌, map, arith, length, length-set, length-replicate, get_elem?, get_elem?_total,
  Bool-cases, Option-cases, leb, ◌==◌, Result, ok, ok_inj,
}
use parquet_interop.Prelude.Bits.{bit_and-le-right}
use parquet_interop.Mru.{position, push_front}
use parquet_interop.Mru.Laws.{
  All, All-take, All-get_elem?, All-set, All-replicate, Hit-All, Hit-length, position-Hit,
  length-push_front-le,
}
use parquet_interop.Read.Symbols.{
  Bytes, Host, fxh, slot_count, long, Slot, empty_slot, bytes_eq, dict_max, Arrays, SymCache, new,
  slot_sym, get_answer, get_slot, get, get_all, dict_miss, dict_hit, dict_found, dict_table,
}

pub bytes_eq→eq : (a b : Bytes) → bytes_eq a b ≡ true → a ≡ b
unfolding bytes_eq
bytes_eq→eq [] [] h = refl
bytes_eq→eq [] (y ∷ ys) h = cc
bytes_eq→eq (x ∷ xs) [] h = cc
bytes_eq→eq (x ∷ xs) (y ∷ ys) h = ground (arith, bytes_eq→eq xs ys)

module _ (host : Host) where
  open host use {Ptr, intern, read}

  -- The symbol of a value of a dictionary or of a row.
  abbrev pub symbol : Option Bytes → Ptr
  symbol none = intern []
  symbol (some b) = intern b

  -- A full slot holds a symbol and its length.
  abbrev pub IsSlot : Slot host → Type 0
  IsSlot s = (p : Ptr) → s.sym ≡ some p → (b : Bytes) × (p ≡ intern b) × (s.len ≡ length b)

  module _ (arrays : Arrays) where
    open arrays use {ArrayRef, ptr, utf8_of}

    -- A kept table is that of its dictionary.
    abbrev pub IsTable : ArrayRef × List Ptr → Type 0
    IsTable e =
        (values : List (Option Bytes)) × (utf8_of e.0 ≡ ok values) × (e.1 ≡ map symbol values)

    pub record IsSound (c : SymCache host arrays) : Type 0 where
      pub full_size : length c.slots ≡ slot_count
      pub right_slots : All IsSlot c.slots
      pub right_tables : All IsTable c.dicts
      pub few_tables : length c.dicts ≤ dict_max

    pub new-IsSound : IsSound (new host arrays)
    unfolding new
    new-IsSound = record {
      full_size = length-replicate slot_count (empty_slot host);
      right_slots = All-replicate IsSlot slot_count (empty_slot host) (λ p h. cc);
      right_tables = tt;
      few_tables = omega arith;
    }

    -- An operation that answers `p` and leaves a sound cache.
    abbrev pub Gives {ℓ} : {A : Type ℓ} → Result (A × SymCache host arrays) → A → Type ℓ
    Gives r p = (c' : SymCache host arrays) × (r ≡ ok (p, c')) × IsSound c'

    module _ (reads : (b : Bytes) → read (intern b) (length b) ≡ b) where
      hit_right :
          (s : Slot host) (p q : Ptr) (tag : ℕ) (b : Bytes)
          → IsSlot s
          → s.sym ≡ some p
          → slot_sym host s (some p) tag b ≡ some q
          → q ≡ intern b
      unfolding slot_sym
      hit_right s p q tag b slot held h =
          let (b0, is, len) = slot p held in
          let same : p ≡ q = ground arith in
          let len_eq : s.len ≡ length b = ground arith in
          let bytes : bytes_eq (read p (length b)) b ≡ true = ground arith in
          let kept : read p (length b) ≡ b0 = rw (is, ← len_eq, len) (reads b0) in
          sym same ∙ is ∙ ap intern (sym kept ∙ bytes_eq→eq _ _ bytes)

      answer_right :
          (c : SymCache host arrays) (b : Bytes) (tag i : ℕ) (s : Slot host)
          → length b < long
          → IsSound c
          → IsSlot s
          → ((get_answer host arrays c b tag i (slot_sym host s s.sym tag b)).0 ≡ intern b)
            × IsSound (get_answer host arrays c b tag i (slot_sym host s s.sym tag b)).1
      unfolding get_answer slot_sym
      answer_right c b tag i s short h slot = go s.sym refl (slot_sym host s s.sym tag b) refl
        where
          filled : IsSlot (record { tag = tag; len = length b % 2 ^ 32; sym = some (intern b) })
          filled p held = (b, ground arith, omega arith)

          go :
              (held : Option Ptr)
              → s.sym ≡ held
              → (r : Option Ptr) → slot_sym host s held tag b ≡ r
              → ((get_answer host arrays c b tag i r).0 ≡ intern b)
                × IsSound (get_answer host arrays c b tag i r).1
          go held is none miss = (
            refl,
            record {
              full_size = length-set c.slots i _ ∙ h.full_size;
              right_slots = All-set IsSlot c.slots i _ h.right_slots filled;
              right_tables = h.right_tables;
              few_tables = h.few_tables;
            },
          )
          go none is (some q) hit = cc
          go (some p) is (some q) hit = (hit_right s p q tag b slot is hit, h)

      slot_right :
          (c : SymCache host arrays) (b : Bytes) (tag i : ℕ)
          → length b < long
          → i < slot_count
          → IsSound c
          → Gives (get_slot host arrays c b tag i (get_elem? c.slots i)) (intern b)
      unfolding get_slot
      slot_right c b tag i short inside h =
          let (s, at) = get_elem?_total c.slots i (omega (arith, h.full_size)) in
          let answer =
            answer_right c b tag i s short h (All-get_elem? IsSlot c.slots i at h.right_slots) in
          let c' = (get_answer host arrays c b tag i (slot_sym host s s.sym tag b)).1 in
          (c', rw (at, get_slot) (ap (λ p. ok (p, c')) answer.0), answer.1)

      -- `get` answers the symbol of the bytes, whatever sound cache it meets, and leaves a sound
      -- one: each full slot holds a symbol and its length, each kept table is that of its
      -- dictionary, and there are at most four. Interned bytes are taken to be read back unchanged.
      pub get-intern :
          (c : SymCache host arrays) (b : Bytes)
          → IsSound c
          → Gives (get host arrays c b) (intern b)
      unfolding get get_slot
      get-intern c b h = elim (Bool-cases (leb long (length b))) [
        | inl is_long ↦ (c, rw (is_long, get), h)
        | inr short ↦
            let (c', eq, sound) =
              slot_right c b (fxh b / 2 ^ 32) (bit_and (fxh b) (slot_count - 1)) (ground arith)
                (omega (arith, bit_and-le-right (fxh b) (slot_count - 1))) h in
            (c', rw (short, get) eq, sound)
      ]

      get_all-symbol :
          (c : SymCache host arrays) (values : List (Option Bytes))
          → IsSound c
          → Gives (get_all host arrays c (intern []) values) (map symbol values)
      unfolding get_all
      get_all-symbol c [] h = (c, refl, h)
      get_all-symbol c (none ∷ vs) h =
          let (c', eq, sound) = get_all-symbol c vs h in (c', rw (eq, get_all), sound)
      get_all-symbol c (some b ∷ vs) h =
          let (c1, eq1, sound1) = get-intern c b h in
          let (c2, eq2, sound2) = get_all-symbol c1 vs sound1 in
          (c2, rw (eq1, get_all, eq2), sound2)

      module _ (same_ptr : (a b : ArrayRef) → ptr a ≡ ptr b → a ≡ b) where
        -- `dict_table` answers the symbol of each value of the dictionary, the empty one for a
        -- null, whatever sound cache it meets, and leaves a sound one. Interned bytes are taken to
        -- be read back unchanged, and arrays that are alive at one address to be the same.
        pub dict_table-symbol :
            (c : SymCache host arrays) (vals : ArrayRef) (values : List (Option Bytes))
            → IsSound c
            → utf8_of vals ≡ ok values
            → Gives (dict_table host arrays c vals (intern [])) (map symbol values)
        unfolding dict_table dict_found dict_miss
        dict_table-symbol c vals values h read_as =
            elim (Option-cases (position (λ e. ptr e.0 == ptr vals) c.dicts)) [
              | inl miss ↦
                  let (c', eq, sound) = get_all-symbol c values h in
                  (
                    record c' { dicts = push_front dict_max (vals, map symbol values) c'.dicts },
                    rw (miss, dict_found, dict_miss, read_as, eq),
                    record {
                      full_size = sound.full_size;
                      right_slots = sound.right_slots;
                      right_tables =
                          ((values, read_as, refl), All-take IsTable 3 c'.dicts sound.right_tables);
                      few_tables =
                          length-push_front-le dict_max (vals, map symbol values) c'.dicts
                            (omega arith);
                    },
                  )
              | inr (i, at) ↦
                  let test = λ (e : ArrayRef × List Ptr). ptr e.0 == ptr vals in
                  let hit = position-Hit test c.dicts i at in
                  let all = Hit-All IsTable test c.dicts i hit h.right_tables in
                  let same = same_ptr hit.entry.0 vals (ground (arith, hit.found)) in
                  let (kept, of_kept, table) = all.0 in
                  let values_eq : kept ≡ values =
                    ok_inj (sym of_kept ∙ ap utf8_of same ∙ read_as) in
                  let c' : SymCache host arrays = record c {
                    dicts = hit.entry ∷ (hit.before ++ hit.behind);
                  } in
                  (
                    c',
                    rw (at, dict_found, hit.moved, dict_hit)
                        (ap (λ t. ok (t, c')) (table ∙ ap (map symbol) values_eq)),
                    record {
                      full_size = h.full_size;
                      right_slots = h.right_slots;
                      right_tables = subst (All IsTable) hit.moved all.1;
                      few_tables =
                          subst (λ xs. length xs ≤ dict_max) hit.moved
                            (omega (arith, h.few_tables, Hit-length test c.dicts i hit));
                    },
                  )
            ]
