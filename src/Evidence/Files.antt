-- ===== src/Evidence/Files.antt =====
-- What the publication of one file in quant_data/operations/job_receipts.py does to the files.
use quant_data_infra.Prelude.{
  String, Bool, true, false, Option, none, some, List, [], is_some, if◌then◌else◌, ◌≡◌, refl, sym,
  ap, ◌∙◌, arith, eq_iff,
}
use quant_data_infra.Errors.{Result, ok, err, conflict_error, os_error, raise_if}
use quant_data_infra.Exec.{Run, ◌>>=◌, lift, resume}
use quant_data_infra.Evidence.{
  Area, area_eq, File, final, staged, same_file, Disk, put, os_call, change, discard, next_fault,
  refuse_existing, stage, link, settle_link, finish_link, after_stage, protected, publish_bytes,
  preflight_target,
}

-- No published file differs, and clean-up calls that do not fail still do not.
pub record Kept (d d' : Disk) : Type 0 where
  pub finals : (a : Area) (n : String) → d'.content (final a n) ≡ d.content (final a n)
  pub clean : d.cleanup_faults ≡ [] → d'.cleanup_faults ≡ []

pub Kept-refl : (d : Disk) → Kept d d
Kept-refl d = record { finals = λ a n. refl; clean = λ h. h }

pub Kept-trans : (d e f : Disk) → Kept d e → Kept e f → Kept d f
Kept-trans d e f h k = record {
  finals = λ a n. k.finals a n ∙ h.finals a n;
  clean = λ c. k.clean (h.clean c);
}

-- What one way of ending leaves: an error has changed no published file, if the clean-up worked.
abbrev pub Ends {ℓ} : {A : Type ℓ} → (Disk → Disk → Type 0) → Disk → Result A × Disk → Type 0
Ends Q d (ok a, d') = Q d d'
Ends Q d (err e, d') = d.cleanup_faults ≡ [] → Kept d d'

-- `m` either ends in `Q` or changes no published file.
pub record Atomic {ℓ} {A : Type ℓ} (Q : Disk → Disk → Type 0) (m : Run Disk A) : Type 0 where
  pub at : (d : Disk) → Ends Q d (m d)

pub Follows : (Disk → Disk → Type 0) → Type 0
Follows Q = (d e f : Disk) → Kept d e → Q e f → Q d f

module _ (Q : Disk → Disk → Type 0) (follows : (d e f : Disk) → Kept d e → Q e f → Q d f) where
  Ends-after {ℓ} :
      {A : Type ℓ} (d e : Disk) (r : Result A × Disk) → Kept d e → Ends Q e r → Ends Q d r
  Ends-after d e (ok a, f) h k = follows d e f h k
  Ends-after d e (err x, f) h k = λ c. Kept-trans d e f h (k (h.clean c))

  Ends-resume {ℓ κ} :
      {A : Type ℓ} {B : Type κ} (d : Disk) (r : Result A × Disk) (f : A → Run Disk B)
      → Ends Kept d r
      → ((a : A) → Atomic Q (f a))
      → Ends Q d (resume r.0 f r.1)
  Ends-resume d (ok a, e) f h k = Ends-after d e (f a e) h ((k a).at e)
  Ends-resume d (err x, e) f h k = h

  pub Atomic-bind {ℓ κ} :
      {A : Type ℓ} {B : Type κ} (m : Run Disk A) (f : A → Run Disk B)
      → Atomic Kept m
      → ((a : A) → Atomic Q (f a))
      → Atomic Q (m >>= f)
  unfolding ◌>>=◌
  Atomic-bind m f h k = record { at = λ d. Ends-resume d (m d) f (h.at d) k }

pub Atomic-lift {ℓ} : {A : Type ℓ} (r : Result A) → Atomic Kept (lift {W = Disk} r)
unfolding lift
Atomic-lift (ok a) = record { at = Kept-refl }
Atomic-lift (err e) = record { at = λ d c. Kept-refl d }

called :
    (d : Disk) (failing : Bool) (rest : List Bool)
    → Ends {0} {A = Unit {0}} Kept d
        (if failing then err os_error else ok tt, record d { faults = rest })
called d true rest = λ c. record { finals = λ a n. refl; clean = λ h. h }
called d false rest = record { finals = λ a n. refl; clean = λ h. h }

Atomic-os_call : Atomic Kept os_call
unfolding os_call
Atomic-os_call = record { at = λ d. called d (next_fault d.faults).0 (next_fault d.faults).1 }

refused : (d : Disk) (b : Bool) → Ends {0} {A = Unit {0}} Kept d (raise_if b conflict_error, d)
refused d true = λ c. Kept-refl d
refused d false = Kept-refl d

Atomic-refuse : (f : File) → Atomic Kept (refuse_existing f)
unfolding refuse_existing
Atomic-refuse f = record { at = λ d. refused d (is_some (d.content f)) }

Kept-put : (a : Area) (n : String) (o : Option String) (d : Disk) → Kept d (put (staged a n) o d)
unfolding put same_file
Kept-put a n o d = record { finals = λ b m. refl; clean = λ h. h }

Atomic-change : (a : Area) (n : String) (o : Option String) → Atomic Kept (change (staged a n) o)
unfolding change
Atomic-change a n o = record { at = Kept-put a n o }

abbrev keep : (d e f : Disk) → Kept d e → Kept e f → Kept d f
keep = Kept-trans

Atomic-stage : (a : Area) (n p : String) → Atomic Kept (stage a n p)
unfolding stage
Atomic-stage a n p = Atomic-bind Kept keep _ _ (Atomic-refuse (staged a n)) λ _.
    Atomic-bind Kept keep _ _ Atomic-os_call λ _.
      Atomic-bind Kept keep _ _ (Atomic-change a n (some ""))
        λ _. Atomic-bind Kept keep _ _ Atomic-os_call λ _. Atomic-change a n (some p)

-- The file is new, holds the payload, and no other published file differs.
pub record Written (a : Area) (n p : String) (d d' : Disk) : Type 0 where
  pub fresh : d.content (final a n) ≡ none
  pub finals :
      (b : Area) (m : String)
      → d'.content (final b m)
        ≡ (if same_file (final a n) (final b m) then some p else d.content (final b m))
  pub clean : d.cleanup_faults ≡ [] → d'.cleanup_faults ≡ []

module _ (a : Area) (n p : String) where
  pub Written-after : (d e f : Disk) → Kept d e → Written a n p e f → Written a n p d f
  Written-after d e f h k = record {
    fresh = sym (h.finals a n) ∙ k.fresh;
    finals = λ b m.
        k.finals b m
        ∙ ap (λ o. if same_file (final a n) (final b m) then some p else o) (h.finals b m);
    clean = λ c. k.clean (h.clean c);
  }

  pub Written-before : (d e f : Disk) → Written a n p d e → Kept e f → Written a n p d f
  Written-before d e f h k = record {
    fresh = h.fresh;
    finals = λ b m. k.finals b m ∙ h.finals b m;
    clean = λ c. k.clean (h.clean c);
  }

same-area : (a b : Area) → area_eq a b ≡ true → a ≡ b
unfolding area_eq
same-area a b h = ground arith

pub same-file :
    (a b : Area) (n m : String) → same_file (final a n) (final b m) ≡ true → (a ≡ b) × (n ≡ m)
unfolding same_file
same-file a b n m h = (same-area a b (ground arith), (eq_iff n m).0 (ground arith))

-- Removing a file that was new brings back what was there.
pub Written-discard :
    (a : Area) (n p : String) (d d' : Disk)
    → Written a n p d d'
    → d.cleanup_faults ≡ []
    → Kept d (discard (final a n) d')
unfolding discard put
Written-discard a n p d d' h c = rw (h.clean c) (record {
  finals = λ b m. restored b m (same_file (final a n) (final b m)) refl;
  clean = λ _. refl;
})
  where
    restored :
        (b : Area) (m : String) (same : Bool)
        → same_file (final a n) (final b m) ≡ same
        → (if same_file (final a n) (final b m) then none else d'.content (final b m))
          ≡ d.content (final b m)
    restored b m true e =
        let (area_is, name_is) = same-file a b n m e in
        rw e (
          sym h.fresh
          ∙ (ap (λ x. d.content (final x n)) area_is ∙ ap (λ x. d.content (final b x)) name_is))
    restored b m false e = rw e (rw (h.finals b m) (rw e refl))

pub Kept-discard_staged : (a : Area) (n : String) (d : Disk) → Kept d (discard (staged a n) d)
unfolding discard put same_file
Kept-discard_staged a n d = removed (next_fault d.cleanup_faults).0
  where
    removed :
        (failing : Bool)
        → Kept d (
            if failing
            then record d { cleanup_faults = (next_fault d.cleanup_faults).1 }
            else put
                (staged a n)
                none
                (record d { cleanup_faults = (next_fault d.cleanup_faults).1 }))
    removed true = record { finals = λ b m. refl; clean = λ c. rw c refl }
    removed false = record { finals = λ b m. refl; clean = λ c. rw c refl }

Atomic-settle_link : (a : Area) (n : String) → Atomic Kept (settle_link a n)
unfolding settle_link
Atomic-settle_link a n = Atomic-bind Kept keep _ _ Atomic-os_call λ _.
    Atomic-bind Kept keep _ _ (Atomic-change a n none)
      λ _. Atomic-bind Kept keep _ _ Atomic-os_call λ _. Atomic-os_call

module _ (a : Area) (n p : String) where
  -- A file that was absent, once it is put.
  Written-put :
      (d : Disk) → d.content (final a n) ≡ none → Written a n p d (put (final a n) (some p) d)
  unfolding put
  Written-put d h = record { fresh = h; finals = λ b m. refl; clean = λ c. c }

  linked :
      (d : Disk)
      → d.content (final a n) ≡ none
      → Ends (Written a n p) d ((os_call >>= λ _. change (final a n) (some p)) d)
  unfolding os_call change ◌>>=◌
  linked d h = either (next_fault d.faults).0
    where
      either :
          (failing : Bool)
          → Ends {0} {A = Unit {0}} (Written a n p) d (
              resume {0, 0} {W = Disk}
                (if failing then err os_error else ok tt)
                (λ _ e. (ok tt, put (final a n) (some p) e))
                (record d { faults = (next_fault d.faults).1 }))
      either true = λ c. record { finals = λ b m. refl; clean = λ k. k }
      either false =
          Written-after a n p d _ _ (record { finals = λ b m. refl; clean = λ k. k })
            (Written-put _ h)

  Atomic-link : Atomic (Written a n p) (link a n p)
  unfolding link ◌>>=◌ refuse_existing
  Atomic-link = record { at = λ d. either d (d.content (final a n)) refl }
    where
      either :
          (d : Disk) (o : Option String)
          → d.content (final a n) ≡ o
          → Ends (Written a n p) d (link a n p d)
      either d none e = rw e (linked d e)
      either d (some x) e = rw e (λ c. Kept-refl d)

  Ends-finish_link :
      (d d' : Disk) (r : Result (Unit {0}) × Disk)
      → Written a n p d d'
      → Ends Kept d' r
      → Ends (Written a n p) d (finish_link a n r)
  unfolding finish_link
  Ends-finish_link d d' (ok u, e) h k = Written-before a n p d d' e h k
  Ends-finish_link d d' (err x, e) h k = λ c.
      Kept-trans d _ _ (Written-discard a n p d e (Written-before a n p d d' e h (k (h.clean c))) c)
        (Kept-discard_staged a n _)

  Ends-after_stage :
      (d : Disk) (r : Result (Unit {0}) × Disk)
      → Ends (Written a n p) d r
      → Ends (Written a n p) d (after_stage a n r)
  unfolding after_stage
  Ends-after_stage d (ok u, e) h = Ends-finish_link d e _ h ((Atomic-settle_link a n).at e)
  Ends-after_stage d (err x, e) h = λ c. Kept-trans d e _ (h c) (Kept-discard_staged a n e)

  Atomic-protected : Atomic (Written a n p) (protected a n p)
  unfolding protected
  Atomic-protected = record {
    at = λ d. Ends-after_stage d _ (
        (Atomic-bind (Written a n p) (Written-after a n p) (stage a n p) (λ _. link a n p)
            (Atomic-stage a n p) (λ _. Atomic-link)).at
          d);
  }

  -- The publication of one file writes it anew, or changes no published file.
  pub Atomic-publish_bytes : (dry_run : Bool) → Atomic (Written a n p) (publish_bytes dry_run a n p)
  unfolding publish_bytes
  Atomic-publish_bytes dry_run = Atomic-bind _ (Written-after a n p) _ _ (Atomic-lift _) λ _.
      Atomic-bind _ (Written-after a n p) _ _ (Atomic-lift _) λ _.
        Atomic-bind _ (Written-after a n p) _ _ Atomic-os_call λ _.
          Atomic-bind _ (Written-after a n p) _ _ (Atomic-refuse (final a n)) λ _. Atomic-protected

pub Atomic-preflight_target :
    (dry_run : Bool) (a : Area) (n : String) → Atomic Kept (preflight_target dry_run a n)
unfolding preflight_target
Atomic-preflight_target dry_run a n = record { at = λ d. checked d _ }
  where
    checked : (d : Disk) (r : Result (Unit {0})) → Ends {0} {A = Unit {0}} Kept d (r, d)
    checked d (ok u) = Kept-refl d
    checked d (err e) = λ c. Kept-refl d
