-- ===== src/Write/Queue/Live.antt =====
-- src/write.rs, the wake-ups of `worker` and `master`: the invariant that keeps a thread from
-- sleeping on when no other thread will wake it.
pub mod Workers
pub mod Masters
pub mod Steps
use Prim.Native.String.{String}
use parquet_interop.Prelude.{
  ℕ, zero, suc, ◌+◌, ◌*◌, ◌≤◌, ◌<◌, ◌≡◌, refl, sym, ap, ◌∙◌, Option, none, some, List, [], ◌∷◌,
  ◌++◌, map, arith, ◌==◌, if◌then◌else◌, true, false, ◌≢◌, Bool-cases, inl, inr,
}
use parquet_interop.Write.Queue.{Q, is_some, lookup, insert, remove}
use parquet_interop.Write.Queue.Threads.{
  Job, Worker, Master, opening, appending, closing, releasing, claiming, parked, encoding, failing,
  alarming, calling, gone, waiting, looking, stopping, warning, ended, Change, at, total, is_parked,
  rouse_worker, rouse_master,
}

module _ {ℓ} {W : Type ℓ} where
  -- Workers by where they are, as numbers to add up.
  abbrev pub is_active : Worker W → ℕ
  is_active claiming = 1
  is_active (encoding i g c w) = 1
  is_active (failing e) = 1
  is_active w = 0

  abbrev pub is_failing : Worker W → ℕ
  is_failing (failing e) = 1
  is_failing w = 0

  abbrev pub is_alarming : Worker W → ℕ
  is_alarming alarming = 1
  is_alarming w = 0

  abbrev pub is_calling : Worker W → ℕ
  is_calling calling = 1
  is_calling w = 0

  abbrev pub is_gone : Worker W → ℕ
  is_gone gone = 1
  is_gone w = 0

  abbrev pub encodes : ℕ → Worker W → ℕ
  encodes j (encoding i g c w) = if j == i then 1 else 0
  encodes j w = 0

  abbrev pub one : Worker W → ℕ
  one w = 1

abbrev pub flag {ℓ} : {A : Type ℓ} → Option A → ℕ
flag none = 0
flag (some a) = 1

module _ {κ} {C : Type κ} where
  abbrev pub is_ended : Master C → ℕ
  is_ended (ended r) = 1
  is_ended m = 0

  abbrev pub is_warning : Master C → ℕ
  is_warning (warning e) = 1
  is_warning m = 0

  abbrev pub stock : ℕ → List (ℕ × C) → ℕ
  stock j done = flag (lookup j done)

module _ {ℓ} {W : Type ℓ} where
  pub rouse-parked : (ws : List (Worker W)) → total is_parked (map rouse_worker ws) ≡ 0
  rouse-parked [] = refl
  rouse-parked (w ∷ ws) = ground (arith, rouse-parked ws)

  pub rouse-active :
      (ws : List (Worker W))
      → total is_active (map rouse_worker ws) ≡ total is_active ws + total is_parked ws
  rouse-active [] = refl
  rouse-active (w ∷ ws) = ground (arith, rouse-active ws)

  -- Every other count is kept.
  pub rouse-other :
      (f : Worker W → ℕ)
      → f claiming ≡ f parked
      → (ws : List (Worker W)) → total f (map rouse_worker ws) ≡ total f ws
  rouse-other f h [] = refl
  rouse-other f h (parked ∷ ws) = omega (arith, h, rouse-other f h ws)
  rouse-other f h (claiming ∷ ws) = omega (arith, rouse-other f h ws)
  rouse-other f h (encoding i g c w ∷ ws) = omega (arith, rouse-other f h ws)
  rouse-other f h (failing e ∷ ws) = omega (arith, rouse-other f h ws)
  rouse-other f h (alarming ∷ ws) = omega (arith, rouse-other f h ws)
  rouse-other f h (calling ∷ ws) = omega (arith, rouse-other f h ws)
  rouse-other f h (gone ∷ ws) = omega (arith, rouse-other f h ws)

module _ {ℓ κ} {W : Type ℓ} {C : Type κ} (job : Job W C) (n : ℕ) where
  pub record Live (q : Q W C) (ws : List (Worker W)) (m : Master C) : Type (ℓ ⊔ κ) where
    -- the workers are `n`, as they were
    pub crew : total one ws ≡ n
    pub consumed : q.head ≤ q.next
    -- what is done or worked on was handed out
    pub handed : (j : ℕ) → 0 < stock j q.done + total (encodes j) ws → j < q.next
    -- a task that was handed out is worked on or done, unless a worker failed
    pub held :
        (j : ℕ)
        → q.head ≤ j
        → j < q.next
        → 0 < stock j q.done + total (encodes j) ws + total is_failing ws + flag q.err
    -- a worker sleeps only while the window is full up to the workers that are awake, or until a
    -- failure is announced
    pub sleeping :
        0 < total is_parked ws
        → total is_alarming ws + is_warning m ≡ 0
        → (flag q.err + is_ended m ≡ 0)
          × (q.next < job.nrg * job.nc → q.head + job.window ≤ q.next + total is_active ws)
    -- the master sleeps only while its chunk is not done, or until a failure is announced
    pub expecting :
        (g c : ℕ)
        → m ≡ waiting g c
        → (stock (g * job.nc + c) q.done ≡ 0)
          × (total is_alarming ws + total is_calling ws ≡ 0 → flag q.err ≡ 0)
    -- a thread is back only after the last task or a failure
    pub returned : 0 < total is_gone ws + is_ended m → flag q.err ≡ 0 → job.nrg * job.nc ≤ q.next
    pub announced : 0 < total is_alarming ws + total is_calling ws + is_warning m → 0 < flag q.err

module _ {κ} {C : Type κ} where
  pub rouse-ended : (m : Master C) → is_ended (rouse_master m) ≡ is_ended m
  rouse-ended m = ground arith

  pub rouse-warning : (m : Master C) → is_warning (rouse_master m) ≡ is_warning m
  rouse-warning m = ground arith

  pub rouse-awake : (m : Master C) (g c : ℕ) → rouse_master m ≢ waiting g c
  rouse-awake (opening g') g c e = cc
  rouse-awake (looking g' c') g c e = cc
  rouse-awake (waiting g' c') g c e = cc
  rouse-awake (appending g' c' x) g c e = cc
  rouse-awake (closing g') g c e = cc
  rouse-awake releasing g c e = cc
  rouse-awake (stopping s) g c e = cc
  rouse-awake (warning s) g c e = cc
  rouse-awake (ended r) g c e = cc

  pub stock-remove :
      (i j : ℕ) (done : List (ℕ × C)) → (j == i) ≡ false → stock j (remove i done) ≡ stock j done
  stock-remove i j [] other = refl
  stock-remove i j ((k, x) ∷ done) other = elim (Bool-cases (i == k)) [
    | inl same ↦
        let apart : (j == k) ≡ false = ground (arith, same, other) in
        rw (same, apart) (stock-remove i j done other)
    | inr differs ↦ rw differs (elim (Bool-cases (j == k)) [
      | inl found ↦ rw found
      | inr missed ↦ rw missed (stock-remove i j done other)
    ])
  ]

  pub stock-removed : (i : ℕ) (done : List (ℕ × C)) → stock i (remove i done) ≡ 0
  stock-removed i [] = refl
  stock-removed i ((k, x) ∷ done) = elim (Bool-cases (i == k)) [
    | inl same ↦ rw same (stock-removed i done)
    | inr differs ↦ rw (differs, differs) (stock-removed i done)
  ]

  pub stock-remove-le : (i j : ℕ) (done : List (ℕ × C)) → stock j (remove i done) ≤ stock j done
  stock-remove-le i j done = elim (Bool-cases (j == i)) [
    | inl same ↦
        let e : j ≡ i = ground (arith, same) in
        let gone : stock j (remove i done) ≡ 0 =
          ap (λ k. stock k (remove i done)) e ∙ stock-removed i done in
        omega (arith, gone)
    | inr other ↦ omega (arith, stock-remove i j done other)
  ]

  pub stock-insert :
      (i j : ℕ) (x : C) (done : List (ℕ × C))
      → stock j (insert i x done) ≡ (if j == i then 1 else stock j done)
  stock-insert i j x done = elim (Bool-cases (j == i)) [
    | inl same ↦ rw same
    | inr other ↦ rw other (stock-remove i j done other)
  ]
