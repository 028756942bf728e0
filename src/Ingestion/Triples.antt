-- ===== src/Ingestion/Triples.antt =====
-- How the statements of quant_data/ingestion.py are reasoned about: what holds of the connection before
-- a call, after its return and after its exception.
use quant_data_infra.Prelude.{◌≡◌, refl, Bool, true, false, ◌||◌, List, if◌then◌else◌, arith}
use quant_data_infra.Errors.{Failure, Result, ok, err}
use quant_data_infra.Exec.{Run, ◌>>=◌, pure, raise, lift, resume}
use quant_data_infra.Ingestion.Store.{
  Tables, Connection, next_fault, outcome_of, statement, query, begin, commit, rollback,
}

or-false : (a b : Bool) → (a || b) ≡ false → b ≡ false
or-false a b h = ground arith

module _ {Content : Type 0} where
  -- `Q` of what was returned and the connection, or `E` of the connection after an exception
  abbrev pub Ends {ℓ} :
      {A : Type ℓ}
      → (A → Connection Content → Type 0)
      → (Connection Content → Type 0)
      → Result A × Connection Content
      → Type 0
  Ends Q E (ok a, c) = Q a c
  Ends Q E (err e, c) = E c

  pub record Does {ℓ} {A : Type ℓ} (P : Connection Content → Type 0)
      (Q : A → Connection Content → Type 0) (E : Connection Content → Type 0)
      (m : Run (Connection Content) A) : Type 0 where
    pub at : (c : Connection Content) → P c → Ends Q E (m c)

  module _ {ℓ} {A : Type ℓ} (P : Connection Content → Type 0) (Q : A → Connection Content → Type 0)
      (E : Connection Content → Type 0) where
    pub Does-pure : (a : A) → ((c : Connection Content) → P c → Q a c) → Does P Q E (pure a)
    unfolding pure
    Does-pure a h = record { at = h }

    pub Does-raise : (e : Failure) → ((c : Connection Content) → P c → E c) → Does P Q E (raise e)
    unfolding raise
    Does-raise e h = record { at = h }

    pub Does-lift :
        (r : Result A)
        → ((a : A) (c : Connection Content) → r ≡ ok a → P c → Q a c)
        → ((c : Connection Content) → P c → E c)
        → Does P Q E (lift r)
    unfolding lift
    Does-lift (ok a) h k = record { at = λ c. h a c refl }
    Does-lift (err e) h k = record { at = k }

    Ends-resume {κ} :
        {B : Type κ} (R : B → Connection Content → Type 0) (r : Result B × Connection Content)
        (f : B → Run (Connection Content) A)
        → Ends R E r
        → ((b : B) → Does (R b) Q E (f b))
        → Ends Q E (resume r.0 f r.1)
    Ends-resume R (ok b, c) f h k = (k b).at c h
    Ends-resume R (err e, c) f h k = h

    pub Does-bind {κ} :
        {B : Type κ} (R : B → Connection Content → Type 0) (m : Run (Connection Content) B)
        (f : B → Run (Connection Content) A)
        → Does P R E m
        → ((b : B) → Does (R b) Q E (f b))
        → Does P Q E (m >>= f)
    unfolding ◌>>=◌
    Does-bind R m f h k = record { at = λ c p. Ends-resume R (m c) f (h.at c p) k }

    pub Does-if :
        (b : Bool) (m n : Run (Connection Content) A)
        → (b ≡ true → Does P Q E m)
        → (b ≡ false → Does P Q E n)
        → Does P Q E (if b then m else n)
    Does-if true m n h k = h refl
    Does-if false m n h k = k refl

    outcome-Ends :
        (b : Bool) (a : A) (before after : Connection Content)
        → E before
        → (b ≡ false → Q a after)
        → Ends Q E (outcome_of b a before after)
    unfolding outcome_of
    outcome-Ends true a before after e q = e
    outcome-Ends false a before after e q = q refl

    pub Does-query :
        (select : Tables Content → A)
        → ((c : Connection Content) (rest : List Bool) → P c → E (record c { faults = rest }))
        → ((c : Connection Content) (rest : List Bool)
            → P c
            → Q (select c.working) (record c { faults = rest }))
        → Does P Q E (query select)
    unfolding query
    Does-query select e q = record {
      at = λ c p.
          outcome-Ends (next_fault c.faults).0 (select c.working)
            (record c { faults = (next_fault c.faults).1 })
            (record c { faults = (next_fault c.faults).1 }) (e c (next_fault c.faults).1 p)
            (λ _. q c (next_fault c.faults).1 p);
    }

  module _ (P : Connection Content → Type 0) (Q : Unit {0} → Connection Content → Type 0)
      (E : Connection Content → Type 0) where
    pub Does-statement :
        (refuses : Tables Content → Bool) (change : Tables Content → Tables Content)
        → ((c : Connection Content) (rest : List Bool) → P c → E (record c { faults = rest }))
        → ((c : Connection Content) (rest : List Bool)
            → P c
            → refuses c.working ≡ false
            → Q tt (record c { faults = rest; working = change c.working }))
        → Does P Q E (statement refuses change)
    unfolding statement
    Does-statement refuses change e q = record {
      at = λ c p.
          outcome-Ends P Q E ((next_fault c.faults).0 || refuses c.working) tt
            (record c { faults = (next_fault c.faults).1 })
            (record c { faults = (next_fault c.faults).1; working = change c.working })
            (e c (next_fault c.faults).1 p)
            (λ h.
              q c (next_fault c.faults).1 p
                (or-false (next_fault c.faults).0 (refuses c.working) h));
    }

    pub Does-begin :
        ((c : Connection Content) (rest : List Bool) → P c → E (record c { faults = rest }))
        → ((c : Connection Content) (rest : List Bool)
            → P c
            → Q tt (record c { faults = rest; working = c.committed; in_transaction = true }))
        → Does P Q E begin
    unfolding begin
    Does-begin e q = record {
      at = λ c p.
          outcome-Ends P Q E (next_fault c.faults).0 tt
            (record c { faults = (next_fault c.faults).1 })
            (record c {
              faults = (next_fault c.faults).1;
              working = c.committed;
              in_transaction = true;
            })
            (e c (next_fault c.faults).1 p) (λ _. q c (next_fault c.faults).1 p);
    }

    pub Does-commit :
        ((c : Connection Content) (rest : List Bool) → P c → E (record c { faults = rest }))
        → ((c : Connection Content) (rest : List Bool)
            → P c
            → Q tt (record c { faults = rest; committed = c.working; in_transaction = false }))
        → Does P Q E commit
    unfolding commit
    Does-commit e q = record {
      at = λ c p.
          outcome-Ends P Q E (next_fault c.faults).0 tt
            (record c { faults = (next_fault c.faults).1 })
            (record c {
              faults = (next_fault c.faults).1;
              committed = c.working;
              in_transaction = false;
            })
            (e c (next_fault c.faults).1 p) (λ _. q c (next_fault c.faults).1 p);
    }

    pub Does-rollback :
        ((c : Connection Content) (rest : List Bool)
          → P c
          → E (record c { faults = rest; working = c.committed; in_transaction = false }))
        → ((c : Connection Content) (rest : List Bool)
            → P c
            → Q tt (record c { faults = rest; working = c.committed; in_transaction = false }))
        → Does P Q E rollback
    unfolding rollback
    Does-rollback e q = record {
      at = λ c p.
          outcome-Ends P Q E (next_fault c.faults).0 tt
            (record c {
              faults = (next_fault c.faults).1;
              working = c.committed;
              in_transaction = false;
            })
            (record c {
              faults = (next_fault c.faults).1;
              working = c.committed;
              in_transaction = false;
            })
            (e c (next_fault c.faults).1 p) (λ _. q c (next_fault c.faults).1 p);
    }

  pub Does-imply {ℓ} :
      {A : Type ℓ} {P P' : Connection Content → Type 0} {Q Q' : A → Connection Content → Type 0}
      {E E' : Connection Content → Type 0} (m : Run (Connection Content) A)
      → ((c : Connection Content) → P' c → P c)
      → ((a : A) (c : Connection Content) → Q a c → Q' a c)
      → ((c : Connection Content) → E c → E' c)
      → Does P Q E m
      → Does P' Q' E' m
  Does-imply {A} {P} {P'} {Q} {Q'} {E} {E'} m f g k h = record {
    at = λ c p. implied (m c) (h.at c (f c p));
  }
    where
      implied : (x : Result A × Connection Content) → Ends Q E x → Ends Q' E' x
      implied (ok a, c) p = g a c p
      implied (err e, c) p = k c p
