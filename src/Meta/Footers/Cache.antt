-- ===== src/Meta/Footers/Cache.antt =====
-- src/meta.rs, `load`: the footer cache never changes an answer, and stays small, whatever calls
-- run at a time.
use Prim.Native.String.{String}
use mathlib.Core.Path.{subst}
use mathlib.Core.Option.{some_inj}
use parquet_interop.Prelude.{
  ℕ, ◌<◌, ◌≡◌, refl, sym, true, false, Option, none, List, some, [], ◌∷◌, arith, inl, inr,
  Option-cases, Result, ok, err, Bool,
}
use parquet_interop.Prelude.Crew.{Each, Each-change}
use parquet_interop.Mru.{position, to_front}
use parquet_interop.Mru.Laws.{Hit-Pairwise, Hit, Hit-All, Hit-length, position-Hit}
use parquet_interop.Meta.Footers.{
  Key, key_eq, FooterLib, Src, Footer, Footers, make_src, find_footer, parse_footer,
}
use parquet_interop.Meta.Footers.Loads.{
  Request, Loader, looking, parsing, storing, back, looked, checked, load_step, Process, Reach,
  begin, next, call, move,
}
use parquet_interop.Meta.Footers.Coherent.{
  key_eq→eq, parse_any, IsParsed, Apart, IsCoherent, store-IsCoherent, find-Hit, find_miss,
}

module _ (lib : FooterLib) (content : Key → lib.File) where
  -- What a call answers without a cache.
  pub fresh : Request → Result (Src lib)
  fresh q = elim (parse_footer lib q.who q.key.path (content q.key)) [
    | err e ↦ err e
    | ok footer ↦ ok (make_src lib q.orig q.key.path footer)
  ]

  -- What a call has to be at each of its stages.
  abbrev pub Answers : Request → Loader lib content → Type 0
  Answers q looking = Unit
  Answers q parsing = Unit
  Answers q (storing footer) = IsParsed lib content (q.key, footer)
  Answers q (back r) = r ≡ fresh q

  -- A call and the cache behind a step of it.
  record Moved (q : Request) (l : Loader lib content) (c : Footers lib) : Type 0 where
    same : Answers q l
    coherent : IsCoherent lib content c

  fresh_of :
      (q : Request) (footer : Footer lib)
      → IsParsed lib content (q.key, footer)
      → ok (make_src lib q.orig q.key.path footer) ≡ fresh q
  unfolding fresh
  fresh_of q footer parsed = rw (parsed q.who, fresh)

  fresh_failed :
      (q : Request) (e : String)
      → parse_footer lib q.who q.key.path (content q.key) ≡ err e
      → err e ≡ fresh q
  unfolding fresh
  fresh_failed q e failed = rw (failed, fresh)

  parse-Moved :
      (q : Request) (c : Footers lib)
      → IsCoherent lib content c
      → Moved q (checked lib content (parse_footer lib q.who q.key.path (content q.key))) c
  unfolding checked
  parse-Moved q c h = go (parse_footer lib q.who q.key.path (content q.key)) refl
    where
      go :
          (r : Result (Footer lib))
          → parse_footer lib q.who q.key.path (content q.key) ≡ r
          → Moved q (checked lib content r) c
      go (err e) failed = record { same = fresh_failed q e failed; coherent = h }
      go (ok footer) parsed = record {
        same = λ who. parse_any lib q.who who q.key.path (content q.key) footer parsed;
        coherent = h;
      }

  Hit-Moved :
      (q : Request) (c : Footers lib) (i : ℕ)
      → IsCoherent lib content c
      → (hit : Hit (λ e. key_eq e.0 q.key) c i)
      → Moved q (back (ok (make_src lib q.orig q.key.path hit.entry.1))) (to_front i c)
  Hit-Moved q c i h hit =
      let all = Hit-All (IsParsed lib content) (λ e. key_eq e.0 q.key) c i hit h.parsed in
      record {
        same = fresh_of q hit.entry.1 (
            subst (λ k. IsParsed lib content (k, hit.entry.1))
              (key_eq→eq hit.entry.0 q.key hit.found) all.0);
        coherent = record {
          parsed = all.1;
          small = rw (Hit-length (λ e. key_eq e.0 q.key) c i hit) h.small;
          distinct =
              Hit-Pairwise (Apart lib content) (λ e. key_eq e.0 q.key) c i
                (λ x y apart same. apart (sym same)) hit h.distinct;
        };
      }

  look-Moved :
      (q : Request) (c : Footers lib)
      → IsCoherent lib content c
      → let r = looked lib content q (find_footer lib q.key c) in Moved q r.0 r.1
  unfolding looked
  look-Moved q c h = elim (Option-cases (position (λ e. key_eq e.0 q.key) c)) [
    | inr (i, at) ↦
        let hit = position-Hit (λ e. key_eq e.0 q.key) c i at in
        rw (find-Hit lib content q.key c i at hit) (Hit-Moved q c i h hit)
    | inl miss ↦ rw (find_miss lib content q.key c miss) (record { same = tt; coherent = h })
  ]

  became :
      (q : Request) (a b : Loader lib content × Footers lib)
      → some a ≡ some b
      → Moved q a.0 a.1
      → Moved q b.0 b.1
  became q a b same m = subst (λ r. Moved q r.0 r.1) (some_inj.0 same) m

  step-Moved :
      (q : Request) (locked : Bool) (l l' : Loader lib content) (c c' : Footers lib)
      → load_step lib content q locked l c ≡ some (l', c')
      → Answers q l
      → IsCoherent lib content c
      → Moved q l' c'
  unfolding load_step
  step-Moved q true looking l' c c' step good h = became q _ (l', c') step (look-Moved q c h)
  step-Moved q false looking l' c c' step good h =
      became q (parsing, c) (l', c') step (record { same = tt; coherent = h })
  step-Moved q locked parsing l' c c' step good h = became q _ (l', c') step (parse-Moved q c h)
  step-Moved q true (storing footer) l' c c' step good h =
      became q _ (l', c') step
        (record {
          same = fresh_of q footer good;
          coherent = store-IsCoherent lib content q.key footer c good h;
        })
  step-Moved q false (storing footer) l' c c' step good h =
      became q _ (l', c') step (record { same = fresh_of q footer good; coherent = h })
  step-Moved q locked (back r) l' c c' step good h = cc

  -- The steps that a call has left, at most.
  abbrev pub left : Loader lib content → ℕ
  left looking = 3
  left parsing = 2
  left (storing footer) = 1
  left (back r) = 0

  pub record Nears (q : Request) (locked : Bool) (l : Loader lib content) (c : Footers lib)
      : Type 0 where
    pub after : Loader lib content
    pub cache : Footers lib
    pub step : load_step lib content q locked l c ≡ some (after, cache)
    pub nearer : left after < left l

  -- A call that is not back has a step, and fewer left behind it.
  abbrev pub Advances : Request → Loader lib content → Footers lib → Type 0
  Advances q (back r) c = Unit
  Advances q l c = (locked : Bool) → Nears q locked l c

  near :
      (q : Request) (locked : Bool) (l : Loader lib content) (c : Footers lib)
      → (r : Loader lib content × Footers lib) → load_step lib content q locked l c ≡ some r
      → left r.0 < left l
      → Nears q locked l c
  near q locked l c r step less = record { after = r.0; cache = r.1; step = step; nearer = less }

  looked_left :
      (q : Request) (r : Option (Footer lib) × Footers lib) → left (looked lib content q r).0 < 3
  unfolding looked
  looked_left q (some footer, c) = omega arith
  looked_left q (none, c) = omega arith

  checked_left : (r : Result (Footer lib)) → left (checked lib content r) < 2
  unfolding checked
  checked_left (err e) = omega arith
  checked_left (ok footer) = omega arith

  load-Advances : (q : Request) (l : Loader lib content) (c : Footers lib) → Advances q l c
  unfolding load_step
  load-Advances q looking c = λ locked. from_look locked
    where
      from_look : (locked : Bool) → Nears q locked looking c
      from_look true = near q true looking c _ refl (looked_left q _)
      from_look false = near q false looking c (parsing, c) refl (omega arith)
  load-Advances q parsing c = λ locked. near q locked parsing c _ refl (checked_left _)
  load-Advances q (storing footer) c =
      λ locked. near q locked (storing footer) c _ refl (omega arith)
  load-Advances q (back r) c = tt

  each_load :
      (c : Footers lib) (xs : List (Request × Loader lib content))
      → Each (λ a. Advances a.0 a.1 c) xs
  each_load c [] = tt
  each_load c ((q, l) ∷ xs) = (load-Advances q l c, each_load c xs)

  fresh-Reach :
      (s : Process lib content)
      → Reach lib content s
      → IsCoherent lib content s.footers × Each (λ a. Answers a.0 a.1) s.loads
  fresh-Reach s begin = (record { parsed = tt; small = omega arith; distinct = tt }, tt)
  fresh-Reach t (next {s} r (call q same loads)) =
      let (coherent, good) = fresh-Reach s r in
      (
        subst (IsCoherent lib content) (sym same) coherent,
        subst (Each (λ a. Answers a.0 a.1)) (sym loads) (tt, good),
      )
  fresh-Reach t (next {s} r (move q locked l l' step change)) =
      let (coherent, good) = fresh-Reach s r in
      let (mine, others) = Each-change (λ a. Answers a.0 a.1) change good in
      let m = step-Moved q locked l l' s.footers t.footers step mine coherent in
      (m.coherent, others m.same)

  -- Whatever calls there were and are, and however they interleave: the cache is coherent, that is,
  -- every entry is the parse of its file, no file has two, and there are at most 32; a call that is
  -- back answers what it would without a cache, and one that is about to store holds the parse of
  -- its file; and a call that is not back has a step, be the lock poisoned or not, behind which it
  -- has fewer left. The content of a file is taken to be fixed by its path, device, inode, size and
  -- mtime.
  pub load-fresh :
      (s : Process lib content)
      → Reach lib content s
      → IsCoherent lib content s.footers
        × Each (λ a. Answers a.0 a.1) s.loads
        × Each (λ a. Advances a.0 a.1 s.footers) s.loads
  load-fresh s r =
      let (coherent, good) = fresh-Reach s r in (coherent, good, each_load s.footers s.loads)
