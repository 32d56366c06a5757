-- ===== src/Write/Queue/Claims.antt =====
-- src/write.rs, the lock section of `worker` that claims a task: tasks are handed out in the order of
-- their numbers, each with its own writer, and no writer is ever missing.
use Prim.Native.String.{String}
use native.Mathlib.Nat.{
  mul-add-div_right, mul-add-mod_self_right, mod-eq_of_lt, div-eq_of_lt, suc-mul,
}
use parquet_interop.Prelude.{
  ℕ, zero, suc, ◌+◌, ◌*◌, ◌/◌, ◌%◌, ◌≤◌, ◌<◌, ◌≡◌, refl, ap, ◌∙◌, ◌⊎◌, inl, inr, Bool, true, false,
  ◌||◌, Option, none, some, List, [], ◌∷◌, ◌++◌, map, ltb, leb, ◌==◌, arith, if◌then◌else◌, length,
  get_elem?, get_elem?_total, drop, replicate, Bool-cases, ==_iff, Result, ok, err,
}
use parquet_interop.Write.Queue.{
  Q, Claim, leaves, waits, no_writers, lost, claimed, is_some, insert, remove, take_at, take_writer,
  hand_out, claim,
}
use parquet_interop.Write.Queue.Threads.{Job}

pub quotient : (g n c : ℕ) → c < n → (g * n + c) / n ≡ g
quotient g n c h = mul-add-div_right (omega arith) g c ∙ rw (div-eq_of_lt h) (omega arith)

pub remainder : (g n c : ℕ) → c < n → (g * n + c) % n ≡ c
remainder g n c h = mul-add-mod_self_right g n c ∙ mod-eq_of_lt h

module _ {ℓ} {W : Type ℓ} where
  -- A row group's writers once the first `c` are taken.
  abbrev pub taken : ℕ → List W → List (Option W)
  taken c ws = replicate c none ++ map some (drop c ws)

  take_at_lem :
      (c : ℕ) (ws : List W) {w : W}
      → get_elem? ws c ≡ some w
      → take_at c (taken c ws) ≡ (some w, taken (suc c) ws)
  unfolding take_at
  take_at_lem c [] h = cc
  take_at_lem zero (x ∷ ws) h = ap (λ o. (o, none ∷ map some ws)) h
  take_at_lem (suc c) (x ∷ ws) h = rw (take_at_lem c ws h)

  take_writer_lem :
      (g c : ℕ) (ws : List W) {w : W}
      → get_elem? ws c ≡ some w
      → take_writer g c ((g, taken c ws) ∷ []) ≡ (some w, (g, taken (suc c) ws) ∷ [])
  unfolding take_writer
  take_writer_lem g c ws h =
      let same : (g == g) ≡ true = ground arith in rw (take_writer, same, take_at_lem c ws h)

module _ {ℓ κ} {W : Type ℓ} {C : Type κ} (job : Job W C) where
  -- Task `i` is column `c` of row group `g`, whose writer is `w`.
  abbrev pub IsTask : ℕ → ℕ → ℕ → W → Type ℓ
  IsTask i g c w = (i ≡ g * job.nc + c) × (c < job.nc) × (get_elem? job.columns c ≡ some w)

  abbrev pub writers_at : ℕ → ℕ → List (ℕ × List (Option W))
  writers_at g zero = []
  writers_at g (suc c) = (g, taken (suc c) job.columns) ∷ []

  -- The writers kept are those of the row group that is being handed out, less the columns that are.
  pub record WritersOk (i : ℕ) (wr : List (ℕ × List (Option W))) : Type ℓ where
    pub g : ℕ
    pub c : ℕ
    pub place : i ≡ g * job.nc + c
    pub column : c < job.nc
    pub kept : wr ≡ writers_at g c

  pub data ClaimCase (q : Q W C) (r : Claim W × Q W C) : Type (ℓ ⊔ κ) where
    left : (is_some q.err ≡ true) ⊎ (job.nrg * job.nc ≤ q.next) → r ≡ (leaves, q) → ClaimCase q r
    slept :
        is_some q.err ≡ false
        → q.next < job.nrg * job.nc
        → q.head + job.window ≤ q.next
        → r ≡ (waits, q)
        → ClaimCase q r
    refused : (e : String) → r ≡ (no_writers e, q) → ClaimCase q r
    got :
        (g c : ℕ) (w : W) (wr : List (ℕ × List (Option W)))
        → is_some q.err ≡ false
        → q.next < job.nrg * job.nc
        → q.next < q.head + job.window
        → IsTask q.next g c w
        → WritersOk (q.next + 1) wr
        → r ≡ (claimed q.next g c w, record q { next = q.next + 1; wr = wr })
        → ClaimCase q r

  module _ (whole : length job.columns ≡ job.nc) (q : Q W C) where
    hand_out_lem :
        (q : Q W C) (i g c : ℕ) (w : W)
        → c < job.nc
        → get_elem? job.columns c ≡ some w
        → q.wr ≡ (g, taken c job.columns) ∷ []
        → hand_out job.nc i g c q ≡ (
          claimed i g c w,
          record q { next = i + 1; wr = if c + 1 == job.nc then [] else writers_at g (suc c) },
        )
    unfolding hand_out
    hand_out_lem q i g c w column found kept =
        ap (λ m. hand_out_from i g c m)
          (ap (take_writer g c) kept ∙ take_writer_lem g c job.columns found)
        ∙ (let same : (g == g) ≡ true = ground arith in rw same)
      where
        hand_out_from : ℕ → ℕ → ℕ → Option W × List (ℕ × List (Option W)) → Claim W × Q W C
        hand_out_from i g c (found, wr) =
            let wr' = if c + 1 == job.nc then remove g wr else wr in
            let q' = record q { next = i + 1; wr = wr' } in
            elim found [ none ↦ (lost, q') | some w ↦ (claimed i g c w, q') ]

    advanced :
        (g c : ℕ)
        → q.next ≡ g * job.nc + c
        → c < job.nc
        → WritersOk (q.next + 1) (if c + 1 == job.nc then [] else writers_at g (suc c))
    advanced g c place column = elim (Bool-cases (c + 1 == job.nc)) [
      | inl last ↦ record {
        g = suc g;
        c = 0;
        place = omega (arith, place, suc-mul g job.nc, (==_iff (c + 1) job.nc).0 last);
        column = omega arith;
        kept = rw last;
      }
      | inr more ↦ record {
        g = g;
        c = suc c;
        place = omega (arith, place);
        column = ground arith;
        kept = rw more;
      }
    ]

    handed :
        (g c : ℕ) (wr : List (ℕ × List (Option W)))
        → is_some q.err ≡ false
        → q.next < job.nrg * job.nc
        → q.next < q.head + job.window
        → q.next ≡ g * job.nc + c
        → c < job.nc
        → wr ≡ (g, taken c job.columns) ∷ []
        → ClaimCase q (hand_out job.nc q.next g c (record q { wr = wr }))
    handed g c wr fine more room place column kept =
        let w = get_elem?_total job.columns c (omega (arith, whole)) in
        got g c w.0 (if c + 1 == job.nc then [] else writers_at g (suc c)) fine more room
          (place, column, w.1) (advanced g c place column)
          (hand_out_lem (record q { wr = wr }) q.next g c w.0 column w.1 kept)

    or_cases : (b : Bool) (n m : ℕ) → (b || leb n m) ≡ true → (b ≡ true) ⊎ (n ≤ m)
    or_cases true n m h = inl refl
    or_cases false n m h = inr (ground (arith, h))

    or_false : (b : Bool) (n m : ℕ) → (b || leb n m) ≡ false → (b ≡ false) × (m < n)
    or_false true n m h = cc
    or_false false n m h = (refl, ground (arith, h))

    divided : (g c : ℕ) → q.next ≡ g * job.nc + c → c < job.nc → q.next / job.nc ≡ g
    divided g c place column = ap (λ n. n / job.nc) place ∙ quotient g job.nc c column

    reduced : (g c : ℕ) → q.next ≡ g * job.nc + c → c < job.nc → q.next % job.nc ≡ c
    reduced g c place column = ap (λ n. n % job.nc) place ∙ remainder g job.nc c column

    hands :
        (answer : Result (List W)) (g c : ℕ)
        → (is_some q.err || leb (job.nrg * job.nc) q.next) ≡ false
        → ltb q.next (q.head + job.window) ≡ true
        → (answer ≡ ok job.columns) ⊎ ((e : String) × (answer ≡ err e))
        → q.next ≡ g * job.nc + c
        → c < job.nc
        → q.wr ≡ writers_at g c
        → ClaimCase q (claim job.nc (job.nrg * job.nc) job.window answer q)
    unfolding claim
    hands answer g zero go room (inl whole) place column kept =
        let fine = or_false (is_some q.err) (job.nrg * job.nc) q.next go in
        let first : (q.next % job.nc == 0) ≡ true = ap (λ n. n == 0) (reduced g 0 place column) in
        rw (claim, go, room, first, whole, reduced g 0 place column, divided g 0 place column)
          (handed g 0 (insert g (map some job.columns) q.wr) fine.0 fine.1 (ground (arith, room))
            place column (ap (λ m. (g, map some job.columns) ∷ remove g m) kept))
    hands answer g zero go room (inr (e, broken)) place column kept =
        refused e (rw (claim, go, room, ap (λ n. n == 0) (reduced g 0 place column), broken))
    hands answer g (suc c) go room from place column kept =
        let fine = or_false (is_some q.err) (job.nrg * job.nc) q.next go in
        let later : (q.next % job.nc == 0) ≡ false =
          ground (arith, reduced g (suc c) place column) in
        rw (claim, go, room, later, reduced g (suc c) place column, divided g (suc c) place column)
          (handed g (suc c) q.wr fine.0 fine.1 (ground (arith, room)) place column kept)

    pub claim_lem :
        (answer : Result (List W))
        → (answer ≡ ok job.columns) ⊎ ((e : String) × (answer ≡ err e))
        → WritersOk q.next q.wr
        → ClaimCase q (claim job.nc (job.nrg * job.nc) job.window answer q)
    unfolding claim
    claim_lem answer from h = elim (Bool-cases (is_some q.err || leb (job.nrg * job.nc) q.next)) [
      | inl stop ↦ left (or_cases (is_some q.err) (job.nrg * job.nc) q.next stop) (rw (claim, stop))
      | inr go ↦ elim (Bool-cases (ltb q.next (q.head + job.window))) [
        | inl room ↦ hands answer h.g h.c go room from h.place h.column h.kept
        | inr full ↦
            let fine = or_false (is_some q.err) (job.nrg * job.nc) q.next go in
            slept fine.0 fine.1 (ground (arith, full)) (rw (claim, go, full))
      ]
    ]
