-- ===== src/Schema/Decided.antt =====
-- `validate_schema` of quant_data/schema.py decides whether a value conforms to a declaration.
use quant_data_infra.Prelude.{
  ℕ, suc, ◌<◌, ◌≡◌, ◌≢◌, refl, sym, ◌↔◌, ◌⊎◌, inl, inr, String, Bool, true, false, not, ◌||◌,
  Option, none, some, List, [], ◌∷◌, any, mem, All, length, is_empty, str_eq, if_cases, true_of_not,
  Bool-cases, arith,
}
use mathlib.Core.Path.{subst}
use quant_data_infra.Errors.{Result, ok, err, validation_error, resource_limit_error, raise_if}
use quant_data_infra.Exec.{◌>>◌}
use quant_data_infra.Text.{codes}
use quant_data_infra.Temporal.{parse}
use quant_data_infra.Schema.{
  Number, whole, fraction, Json, null, boolean, number, text, array, object, Items, no_items, item,
  Fields, no_fields, field, Rules, Schema, declaration, Properties, any_items, items_of, number_lt,
  find_field, json_eq, matches_type,
}
use quant_data_infra.Schema.Visit.{
  Issue, Segment, key, index, Do, below, find_property, is_supported, listed, types_of, is_other,
  is_unlisted, is_over, is_under, is_below, is_above, count_items, add_if, guarded, add_missing,
  add_unknown, visit_text, visit_number, visit_present, visit, visit_items, visit_fields, verdict,
  validate_schema,
}
use quant_data_infra.Schema.Issues.{
  Ends, Says, Says-pure, Says-iff, Says-both, Says-if, Says-limit, Says-add, Says-add_if,
}
use quant_data_infra.Schema.Conformance.{
  Fits, TextFits, NumberFits, CountFits, AllDeclared, Present, Declared, Conforms, AllConform,
  FieldsConform,
}
use quant_data_infra.Schema.Checks.{
  optional, any-typed, supported-types, types-supported, under_limit, over_limit, dated-test,
  present, kind-listed,
}

module _ (most : ℕ) (positive : 0 < most) where
  guarded-Says :
      {P : Type 0} (v : Json) (r : Rules) (pointer : List Segment) (kinds : List String) (body : Do)
      → (Fits v r → (any (λ k. mem k (types_of r)) kinds ≡ true) ⊎ P)
      → Says P body
      → Says (Fits v r × P) (guarded most v r pointer kinds body)
  unfolding guarded is_other is_unlisted
  guarded-Says {P} v r pointer kinds body reached h =
      if_cases (Says (Fits v r × P)) (not (is_supported r.types))
        (λ e.
          Says-add most positive pointer "schema" (λ g. unsupported e (types-supported v r g.0).0))
        (λ e.
          if_cases (Says (Fits v r × P)) (not (any (matches_type v) (types_of r)))
            (λ k.
              Says-add most positive pointer "type"
                (λ g. unsupported k (types-supported v r g.0).1))
            (λ k. Says-iff _ (to e k) from (
              Says-both _ _
                (Says-add_if most positive (is_other v r.fixed) pointer "const"
                  (optional (is_other v) (λ c. json_eq v c ≡ true) r.fixed refl
                    (λ c. (true_of_not (json_eq v c), not_of_true (json_eq v c)))).0
                  (optional (is_other v) (λ c. json_eq v c ≡ true) r.fixed refl
                    (λ c. (true_of_not (json_eq v c), not_of_true (json_eq v c)))).1)
                (Says-both _ _
                  (Says-add_if most positive (is_unlisted v r.choices) pointer "enum"
                    (optional (is_unlisted v) (λ cs. any (json_eq v) cs ≡ true) r.choices refl
                      (λ cs.
                        (true_of_not (any (json_eq v) cs), not_of_true (any (json_eq v) cs)))).0
                    (optional (is_unlisted v) (λ cs. any (json_eq v) cs ≡ true) r.choices refl
                      (λ cs.
                        (true_of_not (any (json_eq v) cs), not_of_true (any (json_eq v) cs)))).1)
                  (Says-if (any (λ k. mem k (types_of r)) kinds) body h)))))
    where
      unsupported : {b : Bool} → not b ≡ true → b ≡ true → ⊥
      unsupported {b} p q = ground arith

      not_of_true : (b : Bool) → b ≡ true → not b ≡ false
      not_of_true b p = ground arith

      Checked : Type 0
      Checked =
          ((c : Json) → r.fixed ≡ some c → json_eq v c ≡ true)
          × (((cs : List Json) → r.choices ≡ some cs → any (json_eq v) cs ≡ true)
              × (any (λ k. mem k (types_of r)) kinds ≡ true → P))

      fits :
          not (is_supported r.types) ≡ false
          → not (any (matches_type v) (types_of r)) ≡ false
          → Checked
          → Fits v r
      fits e k c =
          let (ts, d, known) = supported-types r.types (true_of_not (is_supported r.types) e) in
          record {
            types = ts;
            declared = d;
            known = known;
            typed = any-typed v ts (
                subst (λ o. any (matches_type v) (listed o) ≡ true) d
                  (true_of_not (any (matches_type v) (types_of r)) k));
            fixed = c.0;
            chosen = c.1.0;
          }

      to :
          not (is_supported r.types) ≡ false
          → not (any (matches_type v) (types_of r)) ≡ false
          → Checked
          → Fits v r × P
      to e k c = let f = fits e k c in (f, elim (reached f) [ inl b ↦ c.1.1 b | inr p ↦ p ])

      from : Fits v r × P → Checked
      from g = (g.0.fixed, (g.0.chosen, λ _. g.1))

  text-Says :
      (s : String) (r : Rules) (pointer : List Segment)
      → Says (TextFits s r) (visit_text most s r pointer)
  unfolding visit_text
  text-Says s r pointer =
      Says-iff _ (λ p. record { not_short = p.0; not_long = p.1.0; dated = p.1.1 })
        (λ f. (f.not_short, (f.not_long, f.dated)))
        (Says-both _ _
          (Says-add_if most positive _ pointer "min_length"
            (under_limit (length (codes s)) r.min_length).0
            (under_limit (length (codes s)) r.min_length).1)
          (Says-both _ _
            (Says-add_if most positive _ pointer "max_length"
              (over_limit (length (codes s)) r.max_length).0
              (over_limit (length (codes s)) r.max_length).1)
            (Says-add_if most positive _ pointer "format" (dated-test r.is_date (parse s)).0
              (dated-test r.is_date (parse s)).1)))

  number-Says :
      (n : Number) (r : Rules) (pointer : List Segment)
      → Says (NumberFits n r) (visit_number most n r pointer)
  unfolding visit_number is_below is_above
  number-Says n r pointer =
      Says-iff _ (λ p. record { not_small = p.1.0; not_large = p.1.1 })
        (λ f. (tt, (f.not_small, f.not_large)))
        (Says-both _ _ (Says-limit n) (
          Says-both _ _
            (Says-add_if most positive _ pointer "minimum"
              (optional (is_below n) (λ m. number_lt n m ≡ false) r.minimum refl
                (λ m. ((λ h. h), (λ h. h)))).0
              (optional (is_below n) (λ m. number_lt n m ≡ false) r.minimum refl
                (λ m. ((λ h. h), (λ h. h)))).1)
            (Says-add_if most positive _ pointer "maximum"
              (optional (is_above n) (λ m. number_lt m n ≡ false) r.maximum refl
                (λ m. ((λ h. h), (λ h. h)))).0
              (optional (is_above n) (λ m. number_lt m n ≡ false) r.maximum refl
                (λ m. ((λ h. h), (λ h. h)))).1)))

  missing-Says :
      (fs : Fields) (pointer : List Segment) (names : List String)
      → Says (All (Present fs) names) (add_missing most fs pointer names)
  unfolding add_missing
  missing-Says fs pointer [] = Says-pure tt
  missing-Says fs pointer (name ∷ rest) =
      Says-both _ _
        (Says-add_if most positive _ _ "required" (present (find_field name fs)).0
          (present (find_field name fs)).1)
        (missing-Says fs pointer rest)

  unknown-Says :
      (ps : Properties) (pointer : List Segment) (fs : Fields)
      → Says (AllDeclared fs ps) (add_unknown most ps pointer fs)
  unfolding add_unknown AllDeclared
  unknown-Says ps pointer no_fields = Says-pure tt
  unknown-Says ps pointer (field name v rest) =
      Says-both _ _
        (Says-add_if most positive _ _ "additional_properties" (present (find_property name ps)).0
          (present (find_property name ps)).1)
        (unknown-Says ps pointer rest)

  count-Says :
      {P : Type 0} (n : ℕ) (r : Rules) (pointer : List Segment) (rest : Do)
      → Says P rest
      → Says (CountFits n r × P) (do
        add_if most (is_over n r.max_items) pointer "max_items"
        add_if most (is_under n r.min_items) pointer "min_items"
        rest)
  count-Says n r pointer rest h =
      Says-iff _ (λ p. (record { not_many = p.0; not_few = p.1.0 }, p.1.1))
        (λ f. (f.0.not_many, (f.0.not_few, f.1)))
        (Says-both _ _
          (Says-add_if most positive _ pointer "max_items" (over_limit n r.max_items).0
            (over_limit n r.max_items).1)
          (Says-both _ _
            (Says-add_if most positive _ pointer "min_items" (under_limit n r.min_items).0
              (under_limit n r.min_items).1)
            h))

  few-Says :
      (n : ℕ) (r : Rules) (pointer : List Segment)
      → Says (CountFits n r) (
          add_if most (is_over n r.max_items) pointer "max_items"
          >> add_if most (is_under n r.min_items) pointer "min_items")
  few-Says n r pointer =
      Says-iff _ (λ p. record { not_many = p.0; not_few = p.1 }) (λ f. (f.not_many, f.not_few))
        (Says-both _ _
          (Says-add_if most positive _ pointer "max_items" (over_limit n r.max_items).0
            (over_limit n r.max_items).1)
          (Says-add_if most positive _ pointer "min_items" (under_limit n r.min_items).0
            (under_limit n r.min_items).1))

  alone : {A : Type 0} (m : Do) → Says (A × Unit {0}) m → Says A m
  alone m h = Says-iff m (λ p. p.0) (λ a. (a, tt)) h

  one_kind :
      {P : Type 0} (v : Json) (r : Rules) (k : String)
      → ((t : String) → matches_type v t ≡ true → str_eq t k ≡ true)
      → Fits v r
      → (any (λ k. mem k (types_of r)) (k ∷ []) ≡ true) ⊎ P
  one_kind v r k h f =
      let listed = kind-listed v r f k (h f.typed.0 f.typed.2) in inl (ground (arith, listed))

  number_kind :
      {P : Type 0} (n : Number) (r : Rules)
      → Fits (number n) r
      → (any (λ k. mem k (types_of r)) ("integer" ∷ "number" ∷ []) ≡ true) ⊎ P
  unfolding matches_type
  number_kind (fraction d) r f =
      let listed = kind-listed (number (fraction d)) r f "number" f.typed.2 in
      inl (ground (arith, listed))
  number_kind (whole i) r f = elim (Bool-cases (str_eq f.typed.0 "integer")) [
    | inl e ↦
        let listed = kind-listed (number (whole i)) r f "integer" e in inl (ground (arith, listed))
    | inr e ↦
        let as_number = second (str_eq f.typed.0 "integer") _ e f.typed.2 in
        let listed = kind-listed (number (whole i)) r f "number" as_number in
        inl (ground (arith, listed))
  ]
    where
      second : (a b : Bool) → a ≡ false → (a || b) ≡ true → b ≡ true
      second a b h k = ground arith

  present-Says :
      (v : Json) (pointer : List Segment)
      → ((s : Schema) (p : List Segment) → Says (Conforms v s) (visit most v s p))
      → (o : Option Schema)
      → Says (Declared (Conforms v) o) (visit_present most (λ s. visit most v s pointer) o)
  unfolding visit_present
  present-Says v pointer h none = Says-pure tt
  present-Says v pointer h (some s) = h s pointer

  mutual
    unfolding visit visit_items visit_fields visit_present Conforms AllConform FieldsConform
        matches_type

    visit-Says :
        (v : Json) (s : Schema) (pointer : List Segment)
        → Says (Conforms v s) (visit most v s pointer)
    visit-Says null (declaration r ps is) pointer =
        alone _ (guarded-Says null r pointer [] _ (λ f. inr tt) (Says-pure tt))
    visit-Says (boolean b) (declaration r ps is) pointer =
        alone _ (guarded-Says (boolean b) r pointer [] _ (λ f. inr tt) (Says-pure tt))
    visit-Says (number n) (declaration r ps is) pointer =
        guarded-Says (number n) r pointer ("integer" ∷ "number" ∷ []) _ (number_kind n r)
          (number-Says n r pointer)
    visit-Says (text s) (declaration r ps is) pointer =
        guarded-Says (text s) r pointer ("string" ∷ []) _ (one_kind (text s) r "string" (λ t h. h))
          (text-Says s r pointer)
    visit-Says (array xs) (declaration r ps any_items) pointer =
        guarded-Says (array xs) r pointer ("array" ∷ []) _
          (one_kind (array xs) r "array" (λ t h. h)) (few-Says (count_items xs) r pointer)
    visit-Says (array xs) (declaration r ps (items_of s)) pointer =
        guarded-Says (array xs) r pointer ("array" ∷ []) _
          (one_kind (array xs) r "array" (λ t h. h))
          (count-Says (count_items xs) r pointer _ (visit_items-Says xs s pointer 0))
    visit-Says (object fs) (declaration r ps is) pointer =
        guarded-Says (object fs) r pointer ("object" ∷ []) _
          (one_kind (object fs) r "object" (λ t h. h))
          (Says-both _ _ (missing-Says fs pointer r.required) (
            Says-both _ _ (Says-if r.is_closed _ (unknown-Says ps pointer fs))
              (visit_fields-Says fs ps pointer)))

    visit_items-Says :
        (xs : Items) (s : Schema) (pointer : List Segment) (n : ℕ)
        → Says (AllConform xs s) (visit_items most xs s pointer n)
    visit_items-Says no_items s pointer n = Says-pure tt
    visit_items-Says (item v rest) s pointer n =
        Says-both _ _ (visit-Says v s (below pointer (index n)))
          (visit_items-Says rest s pointer (suc n))

    visit_fields-Says :
        (fs : Fields) (ps : Properties) (pointer : List Segment)
        → Says (FieldsConform fs ps) (visit_fields most fs ps pointer)
    visit_fields-Says no_fields ps pointer = Says-pure tt
    visit_fields-Says (field name v rest) ps pointer =
        Says-both _ _
          (present-Says v (below pointer (key name)) (visit-Says v) (find_property name ps))
          (visit_fields-Says rest ps pointer)

  -- Unless a number over the limit is met, a value is accepted exactly if it conforms to the
  -- declaration, if at least one issue may be reported.
  pub validate_schema-Conforms :
      (v : Json) (s : Schema)
      → validate_schema most v s ≢ err resource_limit_error
      → (validate_schema most v s ≡ ok tt) ↔ Conforms v s
  unfolding validate_schema verdict
  validate_schema-Conforms v s within =
      decided (visit most v s [] []) ((visit-Says v s []).at []) within
    where
      accepted : (b : Bool) → raise_if (not b) validation_error ≡ ok tt → b ≡ true
      accepted true h = refl
      accepted false h = cc

      decided :
          (x : Result (Unit {0}) × List Issue)
          → Ends (Conforms v s) [] x
          → verdict most x ≢ err resource_limit_error
          → (verdict most x ≡ ok tt) ↔ Conforms v s
      decided (ok u, t) h n = (
        λ e. (h.0 (accepted (is_empty t) e)).1,
        λ c. subst (λ b. raise_if (not b) validation_error ≡ ok tt) (sym (h.1 (refl, c))) refl,
      )
      decided (err e, t) h n = absurd (
          n (
            subst (λ x. ◌≡◌ {A = Result (Unit {0})} (err x) (err resource_limit_error)) (sym h)
              refl))
