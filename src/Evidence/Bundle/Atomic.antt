-- ===== src/Evidence/Bundle/Atomic.antt =====
-- The evidence of a run in quant_data/operations/job_receipts.py is published as a whole or not at all.
use quant_data_infra.Prelude.{
  String, Bool, true, false, Option, none, some, List, [], ◌≡◌, refl, sym, ap, ◌∙◌, str_refl,
  is_some, not, ◌&&◌,
}
use mathlib.Core.Path.{subst}
use quant_data_infra.Errors.{Failure, Result, ok, err, >>=-eq-ok, raise_if, validation_error}
use quant_data_infra.Errors
use quant_data_infra.Text.{is_period, require_matching-eq, validate_marker_period}
use quant_data_infra.Receipts.Steps.{require_sha256-eq}
use quant_data_infra.Receipts.JobReceipt.{JobRunReceipt}
use quant_data_infra.Exec.{Run, ◌>>=◌, ◌>>◌, pure, lift, resume}
use quant_data_infra.Evidence.{Area, logs, receipts, markers, final, same_file, area_eq, Disk}
use quant_data_infra.Evidence.Files.{
  Kept, Kept-refl, Kept-trans, Ends, Atomic, Atomic-bind, Written, Written-before, Written-discard,
  Atomic-publish_bytes, Atomic-preflight_target, same-file,
}
use quant_data_infra.Evidence.Bundle.Events.{validate_log_events-eq}
use quant_data_infra.Evidence.Bundle.{
  Document, log_of, receipt_of, marker_of, LogEvent, json_name, marker_name, publish_document,
  publish_log, publish_receipt, publish_monthly_success_marker, preflight_marker,
  preflight_job_evidence, undone, undo, publish_after_log, publish_bundle, publish_job_evidence,
  validate_log_events, earns_marker,
}

Atomic-bind-lift {ℓ κ} :
    {A : Type ℓ} {B : Type κ} (Q : Disk → Disk → Type 0) (r : Result A) (f : A → Run Disk B)
    → ((a : A) → r ≡ ok a → Atomic Q (f a))
    → Atomic Q (lift r >>= f)
unfolding ◌>>=◌ lift
Atomic-bind-lift Q (ok a) f h = record { at = λ d. (h a refl).at d }
Atomic-bind-lift Q (err e) f h = record { at = λ d c. Kept-refl d }

after_guards :
    {A : Type 0} (m : Result (Unit {0})) (v : Result A) {a : A} → Errors.◌>>◌ m v ≡ ok a → v ≡ ok a
after_guards m v h = (>>=-eq-ok m (λ _. v) h).2

-- A new file holds the encoding of a document that `Is`, and no other published file differs.
abbrev Stored :
    (Document → Result String) → Area → String → (Document → Type 0) → Disk → Disk → Type 0
Stored strict_payload a n Is d d' =
    (document : Document) × Is document
    × (p : String) × (strict_payload document ≡ ok p)
    × Written a n p d d'

-- One change and then another.
abbrev Then : (Disk → Disk → Type 0) → (Disk → Disk → Type 0) → Disk → Disk → Type 0
Then P Q d f = (e : Disk) × P d e × Q e f

module _ (a : Area) (n p : String) (Q : Disk → Disk → Type 0) where
  Ends-undone :
      (d e : Disk) (r : Result (Unit {0}) × Disk)
      → Written a n p d e
      → Ends Q e r
      → Ends (Then (Written a n p) Q) d (undone (final a n) r)
  unfolding undone
  Ends-undone d e (ok u, f) h k = (e, h, k)
  Ends-undone d e (err x, f) h k =
      λ c. Written-discard a n p d f (Written-before a n p d e f h (k (h.clean c))) c

module _ (dry_run : Bool) (strict_payload : Document → Result String) (a : Area) (n : String)
    (Is : Document → Type 0) (Q : Disk → Disk → Type 0) where
  Ends-guarded :
      (d : Disk) (r : Result (Unit {0}) × Disk) (rest : Run Disk (Unit {0}))
      → Ends (Stored strict_payload a n Is) d r
      → Atomic Q rest
      → Ends
          (Then (Stored strict_payload a n Is) Q)
          d
          (resume r.0 (λ _. undo dry_run strict_payload (final a n) rest) r.1)
  unfolding undo
  Ends-guarded d (ok u, e) rest (document, is, p, encoded, h) k =
      carry (undone (final a n) (rest e)) (Ends-undone a n p Q d e (rest e) h (k.at e))
    where
      carry :
          (r : Result (Unit {0}) × Disk)
          → Ends (Then (Written a n p) Q) d r
          → Ends (Then (Stored strict_payload a n Is) Q) d r
      carry (ok u, f) (m, w, q) = (m, (document, is, p, encoded, w), q)
      carry (err x, f) w = w
  Ends-guarded d (err x, e) rest h k = h

  -- If what follows fails, the file is removed again.
  Atomic-guarded :
      (m rest : Run Disk (Unit {0}))
      → Atomic (Stored strict_payload a n Is) m
      → Atomic Q rest
      → Atomic
          (Then (Stored strict_payload a n Is) Q)
          (m >> undo dry_run strict_payload (final a n) rest)
  unfolding ◌>>=◌
  Atomic-guarded m rest h k = record { at = λ d. Ends-guarded d (m d) rest (h.at d) k }

  Atomic-publish_document :
      (document : Document)
      → Is document
      → Atomic (Stored strict_payload a n Is) (publish_document dry_run strict_payload a n document)
  unfolding publish_document
  Atomic-publish_document document is = Atomic-bind-lift _ (strict_payload document) _ λ p encoded.
      record { at = λ d. stored p encoded d _ ((Atomic-publish_bytes a n p dry_run).at d) }
    where
      stored :
          (p : String)
          → strict_payload document ≡ ok p
          → (d : Disk) (r : Result (Unit {0}) × Disk) → Ends (Written a n p) d r
          → Ends (Stored strict_payload a n Is) d r
      stored p encoded d (ok u, e) h = (document, is, p, encoded, h)
      stored p encoded d (err x, e) h = h

Written-holds :
    (a : Area) (n p : String) (d e : Disk) → Written a n p d e → e.content (final a n) ≡ some p
unfolding same_file area_eq
Written-holds logs n p d e h = h.finals logs n ∙ rw (str_refl n) refl
Written-holds receipts n p d e h = h.finals receipts n ∙ rw (str_refl n) refl
Written-holds markers n p d e h = h.finals markers n ∙ rw (str_refl n) refl

-- A file that was there is there with the same content.
abbrev Lasting : Disk → Disk → Type 0
Lasting d e =
    (b : Area) (m x : String) → d.content (final b m) ≡ some x → e.content (final b m) ≡ some x

Written-Lasting : (a : Area) (n p : String) (d e : Disk) → Written a n p d e → Lasting d e
Written-Lasting a n p d e h b m x k = either (same_file (final a n) (final b m)) refl
  where
    either :
        (same : Bool) → same_file (final a n) (final b m) ≡ same → e.content (final b m) ≡ some x
    either false s = h.finals b m ∙ rw s k
    either true s =
        let (area_is, name_is) = same-file a b n m s in
        let there =
          ap (λ y. d.content (final y n)) area_is ∙ ap (λ y. d.content (final b y)) name_is in
        absurd (cc (there, h.fresh, k))

-- The marker, if the run has a period, and the receipt are on the disk, and what was published before
-- is as it was.
record IsCommitted (strict_payload : Document → Result String) (r : JobRunReceipt)
    (period : Option String) (d e : Disk) : Type 0 where
  receipt_written :
      (p : String) × (strict_payload (receipt_of r) ≡ ok p)
      × (e.content (final receipts (json_name r.run_id)) ≡ some p)
  marker_written :
      (q : String)
      → period ≡ some q
      → (p : String) × (strict_payload (marker_of q r) ≡ ok p)
        × (e.content (final markers (marker_name q)) ≡ some p)
  lasting : Lasting d e

-- So is the log, of the run's own events.
pub record IsPublished (strict_payload : Document → Result String) (r : JobRunReceipt)
    (events : List LogEvent) (period : Option String) (d e : Disk) : Type 0 where
  pub receipt_written :
      (p : String) × (strict_payload (receipt_of r) ≡ ok p)
      × (e.content (final receipts (json_name r.run_id)) ≡ some p)
  pub log_written :
      (p : String) × (strict_payload (log_of events) ≡ ok p)
      × (e.content (final logs (json_name r.run_id)) ≡ some p)
  pub marker_written :
      (q : String)
      → period ≡ some q
      → (p : String) × (strict_payload (marker_of q r) ≡ ok p)
        × (e.content (final markers (marker_name q)) ≡ some p)
  pub lasting : Lasting d e

Atomic-weaken {ℓ} :
    {A : Type ℓ} (P Q : Disk → Disk → Type 0) (m : Run Disk A)
    → ((d e : Disk) → P d e → Q d e)
    → Atomic P m
    → Atomic Q m
Atomic-weaken {A = A} P Q m f h = record { at = λ d. weak d (m d) (h.at d) }
  where
    weak : (d : Disk) (r : Result A × Disk) → Ends P d r → Ends Q d r
    weak d (ok a, e) k = f d e k
    weak d (err x, e) k = k

validate_marker_period-eq : (s t : String) → validate_marker_period s ≡ ok t → t ≡ s
unfolding validate_marker_period
validate_marker_period-eq s t h = (require_matching-eq is_period s t 7 h).0

module _ (dry_run : Bool) (strict_payload : Document → Result String) (r : JobRunReceipt) where
  abbrev ReceiptStored : Disk → Disk → Type 0
  ReceiptStored = Stored strict_payload receipts (json_name r.run_id) (λ x. x ≡ receipt_of r)

  abbrev MarkerStored : String → Disk → Disk → Type 0
  MarkerStored q = Stored strict_payload markers (marker_name q) (λ x. x ≡ marker_of q r)

  abbrev LogStored : List LogEvent → Disk → Disk → Type 0
  LogStored events = Stored strict_payload logs (json_name r.run_id) (λ x. x ≡ log_of events)

  receipt-Atomic : Atomic ReceiptStored (publish_receipt dry_run strict_payload r)
  unfolding publish_receipt
  receipt-Atomic = Atomic-publish_document dry_run strict_payload _ _ _ (λ _ _. Unit {0}) _ refl

  marker-Atomic :
      (q : String)
      → Atomic (MarkerStored q) (publish_monthly_success_marker dry_run strict_payload r q)
  unfolding publish_monthly_success_marker
  marker-Atomic q = Atomic-bind-lift _ _ _ λ _ _. Atomic-bind-lift _ _ _ λ _ _.
      Atomic-bind-lift _ _ _ λ p period_ok.
        subst
          (λ n.
            Atomic (Stored strict_payload markers (marker_name n) (λ x. x ≡ marker_of n r))
              (publish_document dry_run strict_payload markers (marker_name p) (marker_of p r)))
          (validate_marker_period-eq q p period_ok)
          (Atomic-publish_document dry_run strict_payload _ _ _ (λ _ _. Unit {0}) _ refl)

  log-Atomic :
      (events : List LogEvent)
      → Atomic (LogStored events) (publish_log dry_run strict_payload r.run_id events)
  unfolding publish_log
  log-Atomic events = Atomic-bind-lift _ _ _ λ id id_ok. Atomic-bind-lift _ _ _ λ es es_ok.
      subst
        (λ n.
          Atomic (Stored strict_payload logs (json_name n) (λ x. x ≡ log_of events))
            (publish_document dry_run strict_payload logs (json_name id) (log_of es)))
        (require_sha256-eq r.run_id id id_ok)
        (Atomic-publish_document dry_run strict_payload _ _ _ (λ _ _. Unit {0}) _
          (ap log_of (validate_log_events-eq events es es_ok)))

  receipt_of_stored :
      (d e : Disk)
      → ReceiptStored d e
      → (p : String) × (strict_payload (receipt_of r) ≡ ok p)
        × (e.content (final receipts (json_name r.run_id)) ≡ some p)
  receipt_of_stored d e (x, is, p, encoded, w) =
      (p, ap strict_payload (sym is) ∙ encoded, Written-holds _ _ _ d e w)

  Stored-Lasting :
      (a : Area) (n : String) (Is : Document → Type 0) (d e : Disk)
      → Stored strict_payload a n Is d e
      → Lasting d e
  Stored-Lasting a n Is d e (x, is, p, encoded, w) = Written-Lasting a n p d e w

  IsCommitted-receipt : (d e : Disk) → ReceiptStored d e → IsCommitted strict_payload r none d e
  IsCommitted-receipt d e h = record {
    receipt_written = receipt_of_stored d e h;
    marker_written = λ q k. absurd (cc k);
    lasting = Stored-Lasting _ _ _ d e h;
  }

  IsCommitted-both :
      (q : String) (d e : Disk)
      → Then (MarkerStored q) ReceiptStored d e
      → IsCommitted strict_payload r (some q) d e
  IsCommitted-both q d e (m, (x, is, p, encoded, w), h) = record {
    receipt_written = receipt_of_stored m e h;
    marker_written = λ q' k.
        subst
          (λ y.
            (p' : String) × (strict_payload (marker_of y r) ≡ ok p')
            × (e.content (final markers (marker_name y)) ≡ some p'))
          (cc k)
          (
            p,
            ap strict_payload (sym is) ∙ encoded,
            Stored-Lasting _ _ _ m e h _ _ _ (Written-holds _ _ _ d m w),
          );
    lasting = λ b n x' k. Stored-Lasting _ _ _ m e h b n x' (Written-Lasting _ _ _ d m w b n x' k);
  }

  after_log-Atomic :
      (period : Option String)
      → Atomic
          (IsCommitted strict_payload r period)
          (publish_after_log dry_run strict_payload r period)
  unfolding publish_after_log
  after_log-Atomic none = Atomic-weaken ReceiptStored _ _ IsCommitted-receipt receipt-Atomic
  after_log-Atomic (some q) =
      Atomic-weaken (Then (MarkerStored q) ReceiptStored) _ _ (IsCommitted-both q) (
        Atomic-guarded dry_run strict_payload markers (marker_name q) _ ReceiptStored _ _
          (marker-Atomic q) receipt-Atomic)

  IsPublished-all :
      (events : List LogEvent) (period : Option String) (d e : Disk)
      → Then (LogStored events) (IsCommitted strict_payload r period) d e
      → IsPublished strict_payload r events period d e
  IsPublished-all events period d e (m, (x, is, p, encoded, w), h) = record {
    receipt_written = h.receipt_written;
    log_written =
        (p, ap strict_payload (sym is) ∙ encoded, h.lasting _ _ _ (Written-holds _ _ _ d m w));
    marker_written = h.marker_written;
    lasting = λ b n x' k. h.lasting b n x' (Written-Lasting _ _ _ d m w b n x' k);
  }

  bundle-Atomic :
      (events : List LogEvent) (period : Option String)
      → Atomic
          (IsPublished strict_payload r events period)
          (publish_bundle dry_run strict_payload r events period)
  unfolding publish_bundle
  bundle-Atomic events period =
      Atomic-weaken (Then (LogStored events) (IsCommitted strict_payload r period)) _ _
        (IsPublished-all events period)
        (Atomic-guarded dry_run strict_payload logs (json_name r.run_id) _ _ _ _ (log-Atomic events)
          (after_log-Atomic period))

  preflight_marker-Atomic :
      (job : String) (period : Option String)
      → Atomic Kept (preflight_marker dry_run strict_payload job period)
  unfolding preflight_marker pure
  preflight_marker-Atomic job none = record { at = Kept-refl }
  preflight_marker-Atomic job (some p) =
      Atomic-bind-lift _ _ _
        λ _ _. Atomic-bind-lift _ _ _ λ q _. Atomic-preflight_target dry_run _ _

  preflight-Atomic :
      (run_id job_id : String) (period : Option String)
      → Atomic Kept (preflight_job_evidence dry_run strict_payload run_id job_id period)
  unfolding preflight_job_evidence
  preflight-Atomic run_id job_id period = Atomic-bind-lift _ _ _ λ id _.
      Atomic-bind-lift _ _ _ λ job _.
        Atomic-bind Kept Kept-trans _ _ (Atomic-preflight_target dry_run _ _) λ _.
          Atomic-bind Kept Kept-trans _ _ (Atomic-preflight_target dry_run _ _)
            λ _. preflight_marker-Atomic job period

  Lasting-after :
      (events : List LogEvent) (period : Option String) (d e f : Disk)
      → Kept d e
      → IsPublished strict_payload r events period e f
      → IsPublished strict_payload r events period d f
  Lasting-after events period d e f k h = record {
    receipt_written = h.receipt_written;
    log_written = h.log_written;
    marker_written = h.marker_written;
    lasting = λ b m x there. h.lasting b m x (k.finals b m ∙ there);
  }

  evidence-Atomic :
      (events : List LogEvent) (period : Option String)
      → Atomic
          (IsPublished strict_payload r events period)
          (publish_job_evidence dry_run strict_payload r events period)
  unfolding publish_job_evidence
  evidence-Atomic events period = Atomic-bind-lift _ _ _ λ normalized checked.
      Atomic-bind-lift _ _ _ λ _ _. Atomic-bind-lift _ _ _ λ _ _.
        Atomic-bind _ (Lasting-after events period) _ _ (preflight-Atomic r.run_id r.job_id period)
          λ _.
            subst
              (λ es.
                Atomic (IsPublished strict_payload r es period)
                  (publish_bundle dry_run strict_payload r normalized period))
              (validate_log_events-eq events normalized (
                after_guards
                  (Errors.◌>>◌ (raise_if (earns_marker r && not (is_some period)) validation_error)
                    (raise_if (not (earns_marker r) && is_some period) validation_error))
                  (validate_log_events events) checked))
              (bundle-Atomic normalized period)

  -- If the publication of a run's evidence returns, the log of its events, the receipt, and the marker if there is a
  -- period for it, are on the disk as they were encoded, and no file that was published before has
  -- changed, whichever calls of the system may fail.
  pub publish_job_evidence-IsPublished :
      (events : List LogEvent) (period : Option String) (d e : Disk)
      → publish_job_evidence dry_run strict_payload r events period d ≡ (ok tt, e)
      → IsPublished strict_payload r events period d e
  publish_job_evidence-IsPublished events period d e h =
      subst (Ends (IsPublished strict_payload r events period) d) h
        ((evidence-Atomic events period).at d)

  -- If it raises, and no call that cleans up fails, every published file is as it was before.
  pub publish_job_evidence_raised :
      (events : List LogEvent) (period : Option String) (d e : Disk) (x : Failure)
      → d.cleanup_faults ≡ []
      → publish_job_evidence dry_run strict_payload r events period d ≡ (err x, e)
      → (a : Area) (n : String) → e.content (final a n) ≡ d.content (final a n)
  publish_job_evidence_raised events period d e x c h a n =
      (subst (Ends (IsPublished strict_payload r events period) d) h
          ((evidence-Atomic events period).at d) c).finals
        a n
