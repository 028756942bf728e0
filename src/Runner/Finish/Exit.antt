-- ===== src/Runner/Finish/Exit.antt =====
-- The aggregate exit code of quant_data/operations/job_runner.py: zero exactly for a clean run, and
-- otherwise the first code of the precedence that a step has.
use quant_data_infra.Prelude.{
  ℕ, suc, ◌≤◌, ◌≡◌, ◌≢◌, ◌↔◌, refl, Bool, true, false, ◌||◌, List, [], ◌∷◌, ◌==◌, any, arith,
  if◌then◌else◌, All, if_cases, ap, Bool-cases, inl, inr,
}
use quant_data_infra.Receipts.{StepRunReceipt, is_exit_code}
use quant_data_infra.Runner.Finish.{exit_precedence, first_present, aggregate_exit}

abbrev has_code : ℕ → List StepRunReceipt → Bool
has_code c receipts = any (λ r. r.exit_code == c) receipts

-- Where a code stands in a list of codes; the length, if it is not there.
pub position : ℕ → List ℕ → ℕ
position c [] = 0
position c (d ∷ ds) = if d == c then 0 else suc (position c ds)

position-head : (d n : ℕ) (ds : List ℕ) → position d (d ∷ ds) ≤ n
unfolding position
position-head d n ds = ground arith

position-tail :
    (d c f : ℕ) (ds : List ℕ)
    → d ≢ c
    → position f ds ≤ position c ds
    → position f (d ∷ ds) ≤ position c (d ∷ ds)
unfolding position
position-tail d c f ds n h = ground arith

first_present-first :
    (codes : List ℕ) (c : ℕ) (receipts : List StepRunReceipt)
    → has_code c receipts ≡ true
    → position (first_present codes receipts) codes ≤ position c codes
unfolding first_present
first_present-first [] c receipts h = unfold position in omega arith
first_present-first (d ∷ ds) c receipts h =
    if_cases (λ f. position f (d ∷ ds) ≤ position c (d ∷ ds)) (has_code d receipts)
      (λ there. position-head d (position c (d ∷ ds)) ds)
      (λ absent.
        position-tail d c (first_present ds receipts) ds
          (λ e. cc (absent, h, ap (λ k. has_code k receipts) e))
          (first_present-first ds c receipts h))

first_present-present :
    (codes : List ℕ) (receipts : List StepRunReceipt)
    → first_present codes receipts ≢ 0
    → has_code (first_present codes receipts) receipts ≡ true
unfolding first_present
first_present-present [] receipts h = absurd (h refl)
first_present-present (d ∷ ds) receipts h = elim (Bool-cases (has_code d receipts)) [
  | inl there ↦ rw (there, there)
  | inr absent ↦ rw absent (first_present-present ds receipts (λ z. h (rw absent z)))
]

-- A nonzero aggregate exit code is the code of a step, and no step has a code that stands before it
-- in the precedence 74, 78, 64, 124, 70, 75, 69.
pub aggregate_exit-first :
    (receipts : List StepRunReceipt)
    → aggregate_exit receipts ≢ 0
    → (any (λ r. r.exit_code == aggregate_exit receipts) receipts ≡ true)
      × ((c : ℕ)
          → any (λ r. r.exit_code == c) receipts ≡ true
          → position (aggregate_exit receipts) exit_precedence ≤ position c exit_precedence)
unfolding aggregate_exit
aggregate_exit-first receipts h = (
  first_present-present exit_precedence receipts h,
  λ c. first_present-first exit_precedence c receipts,
)

AllZero : List StepRunReceipt → Type 0
AllZero = All (λ r. r.exit_code ≡ 0)

-- The codes of the precedence that no receipt has.
abbrev NoneOf : List ℕ → List StepRunReceipt → Type 0
NoneOf codes receipts = All (λ c. has_code c receipts ≡ false) codes

abbrev NonZero : List ℕ → Type 0
NonZero = All (λ c. c ≢ 0)

first_present-NoneOf :
    (codes : List ℕ) (receipts : List StepRunReceipt)
    → NonZero codes
    → first_present codes receipts ≡ 0
    → NoneOf codes receipts
unfolding first_present
first_present-NoneOf [] receipts n h = tt
first_present-NoneOf (d ∷ ds) receipts n h = elim (Bool-cases (has_code d receipts)) [
  | inl there ↦ absurd (n.0 (rw there at h))
  | inr absent ↦ (absent, first_present-NoneOf ds receipts n.1 (rw absent at h))
]

NoneOf-tail :
    (codes : List ℕ) (r : StepRunReceipt) (rs : List StepRunReceipt)
    → NoneOf codes (r ∷ rs)
    → NoneOf codes rs × All (λ c. (r.exit_code == c) ≡ false) codes
NoneOf-tail [] r rs h = (tt, tt)
NoneOf-tail (c ∷ cs) r rs h =
    let (rest, here) = NoneOf-tail cs r rs h.1 in
    let (a, b) = neither (r.exit_code == c) (has_code c rs) h.0 in ((b, rest), (a, here))
  where
    neither : (a b : Bool) → (a || b) ≡ false → (a ≡ false) × (b ≡ false)
    neither a b k = ground arith

only_zero : (n : ℕ) → is_exit_code n ≡ true → All (λ c. (n == c) ≡ false) exit_precedence → n ≡ 0
unfolding is_exit_code
only_zero n h k = ground arith

zeros :
    (receipts : List StepRunReceipt)
    → All (λ r. is_exit_code r.exit_code ≡ true) receipts
    → NoneOf exit_precedence receipts
    → All (λ r. r.exit_code ≡ 0) receipts
zeros [] known none_of = tt
zeros (r ∷ rs) known none_of =
    let (rest, here) = NoneOf-tail exit_precedence r rs none_of in
    (only_zero r.exit_code known.0 here, zeros rs known.1 rest)

absent :
    (c : ℕ) (receipts : List StepRunReceipt)
    → c ≢ 0
    → All (λ r. r.exit_code ≡ 0) receipts
    → has_code c receipts ≡ false
absent c [] n z = refl
absent c (r ∷ rs) n z = ground (arith, absent c rs n z.1)

first_present-zero :
    (codes : List ℕ) (receipts : List StepRunReceipt)
    → NonZero codes
    → All (λ r. r.exit_code ≡ 0) receipts
    → first_present codes receipts ≡ 0
unfolding first_present
first_present-zero [] receipts n z = refl
first_present-zero (d ∷ ds) receipts n z =
    rw (absent d receipts n.0 z) (first_present-zero ds receipts n.1 z)

-- The aggregate exit code of receipts with known exit codes is zero exactly if every one is zero.
pub aggregate_exit-zero :
    (receipts : List StepRunReceipt)
    → All (λ r. is_exit_code r.exit_code ≡ true) receipts
    → (aggregate_exit receipts ≡ 0) ↔ All (λ r. r.exit_code ≡ 0) receipts
unfolding aggregate_exit
aggregate_exit-zero receipts known = (
  λ z. zeros receipts known (first_present-NoneOf exit_precedence receipts nonzero z),
  λ z. first_present-zero exit_precedence receipts nonzero z,
)
  where
    nonzero : NonZero exit_precedence
    nonzero = omega arith
