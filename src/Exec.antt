-- ===== src/Exec.antt =====
-- Code with effects that may raise. The world `W` is whatever the program reads and changes outside
-- its own values: clocks, executors, locks. It comes back beside an exception too.
use quant_data_infra.Prelude.{◌≡◌, refl}
use quant_data_infra.Errors.{Ensures, Failure, Result, ok, err}

abbrev pub Run {ℓ} : Type 0 → Type ℓ → Type ℓ
Run W A = W → Result A × W

trivial {κ} : {B : Type κ} (r : Result B) → Ensures (λ _. Unit {0}) r
trivial (ok b) = tt
trivial (err e) = tt

module _ {W : Type 0} where
  abbrev pub resume {ℓ κ} : {A : Type ℓ} {B : Type κ} → Result A → (A → Run W B) → Run W B
  resume (ok a) f w = f a w
  resume (err e) f w = (err e, w)

  infixl 5 ◌>>=◌ ◌>>◌
  unfoldable pub ◌>>=◌ {ℓ κ} : {A : Type ℓ} {B : Type κ} → Run W A → (A → Run W B) → Run W B
  ◌>>=◌ m f w = let (r, w') = m w in resume r f w'

  abbrev pub ◌>>◌ {ℓ κ} : {A : Type ℓ} {B : Type κ} → Run W A → Run W B → Run W B
  m >> n = m >>= λ _. n

  unfoldable pub pure {ℓ} : {A : Type ℓ} → A → Run W A
  pure a w = (ok a, w)

  unfoldable pub raise {ℓ} : {A : Type ℓ} → Failure → Run W A
  raise e w = (err e, w)

  unfoldable pub lift {ℓ} : {A : Type ℓ} → Result A → Run W A
  lift r w = (r, w)

  -- What is returned, if nothing is raised, satisfies `P`, in every world.
  pub record Post {ℓ} {A : Type ℓ} (P : A → Type 0) (m : Run W A) : Type 0 where
    pub at : (w : W) → Ensures P (m w).0

  module _ {ℓ} {A : Type ℓ} (P : A → Type 0) where
    pub Post-pure : (a : A) → P a → Post P (pure a)
    unfolding pure
    Post-pure a h = record { at = λ w. h }

    pub Post-raise : (e : Failure) → Post P (raise e)
    unfolding raise
    Post-raise e = record { at = λ w. tt }

    pub Post-lift : (r : Result A) → Ensures P r → Post P (lift r)
    unfolding lift
    Post-lift r h = record { at = λ w. h }

    Ensures-resume {κ} :
        {B : Type κ} (Q : B → Type 0) (r : Result B) (f : B → Run W A) (w : W)
        → Ensures Q r
        → ((b : B) → Q b → Post P (f b))
        → Ensures P (resume r f w).0
    Ensures-resume Q (ok b) f w h k = (k b h).at w
    Ensures-resume Q (err e) f w h k = tt

    pub Post-bind {κ} :
        {B : Type κ} (Q : B → Type 0) (m : Run W B) (f : B → Run W A)
        → Post Q m
        → ((b : B) → Q b → Post P (f b))
        → Post P (m >>= f)
    unfolding ◌>>=◌
    Post-bind Q m f h k = record { at = λ w. Ensures-resume Q (m w).0 f (m w).1 (h.at w) k }

    -- Where nothing is asked of the first action.
    pub Post-skip {κ} :
        {B : Type κ} (m : Run W B) (f : B → Run W A) → ((b : B) → Post P (f b)) → Post P (m >>= f)
    unfolding ◌>>=◌
    Post-skip m f k = record {
      at = λ w. Ensures-resume (λ _. Unit {0}) (m w).0 f (m w).1 (trivial (m w).0) (λ b _. k b);
    }

    -- Of a result that is known; the rest may use what it is.
    pub Post-bind-lift {κ} :
        {B : Type κ} (r : Result B) (f : B → Run W A)
        → ((b : B) → r ≡ ok b → Post P (f b))
        → Post P (lift r >>= f)
    unfolding ◌>>=◌ lift
    Post-bind-lift (ok b) f h = record { at = (h b refl).at }
    Post-bind-lift (err e) f h = record { at = λ w. tt }

  pub Post-weaken {ℓ} :
      {A : Type ℓ} (P Q : A → Type 0) (m : Run W A) → ((a : A) → P a → Q a) → Post P m → Post Q m
  Post-weaken {A} P Q m f h = record { at = λ w. weaken (m w).0 (h.at w) }
    where
      weaken : (r : Result A) → Ensures P r → Ensures Q r
      weaken (ok a) k = f a k
      weaken (err e) k = tt

-- The bundle for tests that run effects.
unfoldable pub exec_rules : Unit {0}
unfolding ◌>>=◌ pure raise lift
exec_rules = tt
