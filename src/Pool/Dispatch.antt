-- ===== src/Pool/Dispatch.antt =====
-- src/pool.rs: the start of the pool and each dispatch make the invariant hold, so it holds of every
-- state that is reached.
use mathlib.Core.Path.{subst}
use parquet_interop.Prelude.{
  ℕ, zero, suc, ◌+◌, ◌%◌, ◌≤◌, ◌<◌, ◌^◌, ◌≡◌, refl, sym, ap, arith, Bool, true, false, ◌&&◌, some,
  List, [], ◌∷◌, map, ◌==◌, leb, ltb, if◌then◌else◌, Bool-cases, inl, inr,
}
use parquet_interop.Prelude.Crew.{total, Each}
use parquet_interop.Pool.{
  Board, idle_board, Worker, unborn, looking, parked, running, finishing, flag, lend, rouse, route,
  Route, alone, fresh, pooled,
}
use parquet_interop.Pool.Threads.{
  Pool, crew, new_pool, Dispatch, lent, Reach, here, next, stray, again,
}
use parquet_interop.Pool.Invariant.{
  due, owes, owes_at, one, is_at, below, born, WorkerOk, CallerOk, Inv,
}
use parquet_interop.Pool.Steps.{Step-Inv, Spurious-Inv}

crew_size : Route → ℕ
crew_size (pooled m) = m
crew_size alone = 0
crew_size fresh = 0

route_lem :
    (ready size n m : ℕ) (busy : Bool)
    → route false ready busy size n ≡ pooled m
    → (m ≤ n) × (n ≤ ready)
unfolding route crew_size
route_lem ready size n m true = elim (Bool-cases (n == 0)) [
  | inl nobody ↦ rw (nobody, route) (λ step. cc)
  | inr some_ask ↦ elim (Bool-cases (leb n ready)) [
    | inr few ↦ rw (some_ask, few, route) (λ step. cc)
    | inl enough ↦ rw (some_ask, enough, route) (λ step. cc)
  ]
]
route_lem ready size n m false = elim (Bool-cases (n == 0)) [
  | inl nobody ↦ rw (nobody, route) (λ step. cc)
  | inr some_ask ↦ elim (Bool-cases (leb n ready)) [
    | inr few ↦ rw (some_ask, few, route) (λ step. cc)
    | inl enough ↦
        rw (some_ask, enough, route)
          (λ step.
            let taken : (if leb n size then n else size) ≡ m = ap crew_size step in
            (ground (arith, taken), ground (arith, enough)))
  ]
]

slot_due :
    (i idx m debt rest seats : ℕ)
    → debt ≡ flag (ltb idx m)
    → rest ≡ (if ltb i m then seats else 0)
    → (if idx == i then debt else 0) + rest ≡ (if ltb i m then flag (idx == i) + seats else 0)
slot_due i idx m debt rest seats h more = elim (Bool-cases (idx == i)) [
  | inl same ↦ let here : idx ≡ i = ground (arith, same) in ground (arith, h, more, same, here)
  | inr other ↦ ground (arith, more, other)
]

module _ {J : Type 0} where
  -- A worker that owed nothing is due for the new job, and has not seen it.
  due_new :
      (b : Board J) (m g idx seen : ℕ)
      → seen ≤ b.gen
      → b.gen < g
      → due g m idx seen ≡ flag (ltb idx m)
  due_new b m g idx seen old new = let unseen : (g == seen) ≡ false = ground arith in rw unseen refl

  record Roused (b : Board J) (j : J) (m g : ℕ) (ws : List (ℕ × Worker J)) : Type 0 where
    all_ok :
        Each
          (WorkerOk (record { job = some j; gen = g; want = m; left = m; panics = 0 }))
          (map (λ w. (w.0, rouse w.1)) ws)
    all_due : total (owes g m) (map (λ w. (w.0, rouse w.1)) ws) ≡ total (below m) ws
    each_due :
        (i : ℕ)
        → total (owes_at i g m) (map (λ w. (w.0, rouse w.1)) ws)
          ≡ (if ltb i m then total (is_at i) ws else 0)
    same_seats : (i : ℕ) → total (is_at i) (map (λ w. (w.0, rouse w.1)) ws) ≡ total (is_at i) ws
    same_crews : (p : ℕ) → total (below p) (map (λ w. (w.0, rouse w.1)) ws) ≡ total (below p) ws
    same_size : total one (map (λ w. (w.0, rouse w.1)) ws) ≡ total one ws
    same_born : total born (map (λ w. (w.0, rouse w.1)) ws) ≡ total born ws

  Roused-cons :
      (b : Board J) (j : J) (m g idx : ℕ) (w : Worker J) (ws : List (ℕ × Worker J))
      → owes g m (idx, rouse w) ≡ flag (ltb idx m)
      → born (idx, rouse w) ≡ born (idx, w)
      → WorkerOk (record { job = some j; gen = g; want = m; left = m; panics = 0 }) (idx, rouse w)
      → Roused b j m g ws
      → Roused b j m g ((idx, w) ∷ ws)
  Roused-cons b j m g idx w ws debt birth ok rest = record {
    all_ok = (ok, rest.all_ok);
    all_due = omega (arith, debt, rest.all_due);
    each_due = λ i. slot_due i idx m _ _ _ debt (rest.each_due i);
    same_seats = λ i. omega (arith, rest.same_seats i);
    same_crews = λ p. omega (arith, rest.same_crews p);
    same_size = omega (arith, rest.same_size);
    same_born = omega (arith, birth, rest.same_born);
  }

  rouse_all :
      (b : Board J) (j : J) (m g : ℕ) (ws : List (ℕ × Worker J))
      → total (owes b.gen b.want) ws ≡ 0
      → Each (WorkerOk b) ws
      → b.gen < g
      → Roused b j m g ws
  rouse_all b j m g [] settled ok new = record {
    all_ok = tt;
    all_due = refl;
    each_due = λ i. ground arith;
    same_seats = λ i. refl;
    same_crews = λ p. refl;
    same_size = refl;
    same_born = refl;
  }
  rouse_all b j m g ((idx, unborn) ∷ ws) settled ok new =
      Roused-cons b j m g idx unborn ws (due_new b m g idx 0 (omega arith) new) refl tt
        (rouse_all b j m g ws (omega arith) ok.1 new)
  rouse_all b j m g ((idx, looking seen) ∷ ws) settled ok new =
      Roused-cons b j m g idx (looking seen) ws (due_new b m g idx seen ok.0 new) refl
        (omega (arith, ok.0)) (rouse_all b j m g ws (omega arith) ok.1 new)
  rouse_all b j m g ((idx, parked seen) ∷ ws) settled ok new =
      let old : seen ≤ b.gen = omega (arith, ok.0) in
      Roused-cons b j m g idx (parked seen) ws (due_new b m g idx seen old new) refl
        (omega (arith, old)) (rouse_all b j m g ws (omega arith) ok.1 new)
  rouse_all b j m g ((idx, running seen i) ∷ ws) settled ok new = absurd (omega arith)
  rouse_all b j m g ((idx, finishing seen bad) ∷ ws) settled ok new = absurd (omega arith)

  born-le : (ws : List (ℕ × Worker J)) → total born ws ≤ total one ws
  born-le [] = omega arith
  born-le ((idx, unborn) ∷ ws) = omega (arith, born-le ws)
  born-le ((idx, looking seen) ∷ ws) = omega (arith, born-le ws)
  born-le ((idx, parked seen) ∷ ws) = omega (arith, born-le ws)
  born-le ((idx, running seen j) ∷ ws) = omega (arith, born-le ws)
  born-le ((idx, finishing seen bad) ∷ ws) = omega (arith, born-le ws)

-- The threads of a new pool, numbered from `i` on.
record NewCrew (J : Type 0) (i n : ℕ) : Type 0 where
  all_ok : Each (WorkerOk {J = J} idle_board) (crew i n)
  none_due : total (owes {J = J} 0 0) (crew i n) ≡ 0
  no_slots : (p : ℕ) → total (owes_at {J = J} p 0 0) (crew i n) ≡ 0
  seat : (p : ℕ) → total (is_at {J = J} p) (crew i n) ≡ (if leb i p && ltb p (i + n) then 1 else 0)
  count :
      (m : ℕ)
      → total (below {J = J} m) (crew i n) + i
        ≡ (if leb m i then i else if leb m (i + n) then m else i + n)
  size : total (one {J = J}) (crew i n) ≡ n
  unready : total (born {J = J}) (crew i n) ≡ 0

new_crew : (J : Type 0) (i n : ℕ) → NewCrew J i n
unfolding idle_board
new_crew J i zero = record {
  all_ok = tt;
  none_due = refl;
  no_slots = λ p. refl;
  seat = λ p. ground arith;
  count = λ m. ground arith;
  size = refl;
  unready = refl;
}
new_crew J i (suc n) =
    let rest = new_crew J (i + 1) n in
    record {
      all_ok = (tt, rest.all_ok);
      none_due = omega (arith, rest.none_due);
      no_slots = λ p. ground (arith, rest.no_slots p);
      seat = λ p. ground (arith, rest.seat p);
      count = λ m. ground (arith, rest.count m);
      size = omega (arith, rest.size);
      unready = omega (arith, rest.unready);
    }

module _ {J V : Type 0} (n : ℕ) where
  new_pool-Inv : Inv J V n 0 (new_pool n)
  unfolding idle_board
  new_pool-Inv =
      let c = new_crew J 0 n in
      record {
        dispatched = refl;
        workers_ok = c.all_ok;
        caller_ok = refl;
        owed = sym c.none_due;
        tally = refl;
        in_range = omega arith;
        counted = refl;
        slots = λ i below_n. ground (arith, c.no_slots i);
        seats = λ i below_n. ground (arith, c.seat i);
        crews = λ m most. ground (arith, c.count m);
        whole = c.size;
        awake = sym c.unready;
      }

  Dispatch-Inv :
      (size k : ℕ) (s t : Pool J V)
      → suc k < 2 ^ 64
      → Dispatch size s t
      → Inv J V n k s
      → Inv J V n (suc k) t
  unfolding lend
  Dispatch-Inv size k s t few (lent j a m rests asked let_in) h =
      let settled : s.board.left ≡ 0 = subst (CallerOk s.board) rests h.caller_ok in
      let (most, there) = route_lem s.ready size a m s.spoilt let_in in
      let crew_le = born-le s.workers in
      let enough : m ≤ n = omega (arith, most, there, h.awake, h.whole, crew_le) in
      let later : (s.board.gen + 1) % 2 ^ 64 ≡ suc k = omega (arith, h.dispatched, few) in
      let r =
        rouse_all s.board j m ((s.board.gen + 1) % 2 ^ 64) s.workers
          (omega (arith, h.owed, settled)) h.workers_ok (omega (arith, later, h.dispatched)) in
      record {
        dispatched = later;
        workers_ok = r.all_ok;
        caller_ok = refl;
        owed = omega (arith, r.all_due, h.crews m enough);
        tally = omega arith;
        in_range = omega (arith, most, asked);
        counted = refl;
        slots = λ i below_n. ground (arith, r.each_due i, h.seats i below_n);
        seats = λ i below_n. omega (arith, r.same_seats i, h.seats i below_n);
        crews = λ p most. omega (arith, r.same_crews p, h.crews p most);
        whole = omega (arith, r.same_size, h.whole);
        awake = omega (arith, r.same_born, h.awake);
      }

  pub Reach-Inv : (size k : ℕ) (s : Pool J V) → k < 2 ^ 64 → Reach size n k s → Inv J V n k s
  Reach-Inv size k s few here = new_pool-Inv
  Reach-Inv size k s few (next {s = before} reached step) =
      Step-Inv n k before s step (Reach-Inv size k before few reached)
  Reach-Inv size k s few (stray {s = before} reached step) =
      Spurious-Inv n k before s step (Reach-Inv size k before few reached)
  Reach-Inv size (suc k) s few (again {s = before} reached step) =
      Dispatch-Inv size k before s few step (Reach-Inv size k before (omega arith) reached)
