-- ===== src/Stores/Order.antt =====
-- The order in which quant_data/stores.py takes the locks of a set.
use mathlib.Core.Path.{subst}
use text.Mathlib.TextEquality.{Char-path}
use quant_data_infra.Prelude.{
  ℕ, ◌≡◌, refl, sym, ap, ◌∙◌, inl, inr, String, Bool, true, false, not, ◌||◌, List, [], ◌∷◌, map,
  any, mem, All, arith, str_eq, eq_iff, Bool-cases, true_of_not,
}
use quant_data_infra.Errors.{
  ok, validation_error, conflict_error, raise_if-eq-ok, ok-injective, >>=-eq-ok,
}
use quant_data_infra.Text.{codes}
use quant_data_infra.Receipts.{Role, role_eq, is_unique}
use quant_data_infra.Stores.{
  Paths, StoreMap, Identity, identity, codes_lt, uri_lt, insert_identity, sort_identities,
  ordered_identities, distinct_set, fresh_roles, role_in, validate_distinct,
}

codes_lt_irrefl : (xs : List ℕ) → codes_lt xs xs ≡ false
unfolding codes_lt
codes_lt_irrefl [] = refl
codes_lt_irrefl (x ∷ xs) = ground (arith, codes_lt_irrefl xs)

codes_lt_trans :
    (xs ys zs : List ℕ) → codes_lt xs ys ≡ true → codes_lt ys zs ≡ true → codes_lt xs zs ≡ true
unfolding codes_lt
codes_lt_trans [] [] [] h k = h
codes_lt_trans [] (y ∷ ys) [] h k = k
codes_lt_trans [] ys (z ∷ zs) h k = refl
codes_lt_trans (x ∷ xs) [] zs h k = cc
codes_lt_trans (x ∷ xs) (y ∷ ys) [] h k = cc
codes_lt_trans (x ∷ xs) (y ∷ ys) (z ∷ zs) h k = ground (arith, codes_lt_trans xs ys zs)

codes_lt_total : (xs ys : List ℕ) → codes_lt xs ys ≡ false → codes_lt ys xs ≡ false → xs ≡ ys
unfolding codes_lt
codes_lt_total [] [] h k = refl
codes_lt_total [] (y ∷ ys) h k = absurd (cc h)
codes_lt_total (x ∷ xs) [] h k = absurd (cc k)
codes_lt_total (x ∷ xs) (y ∷ ys) h k = ground (arith, codes_lt_total xs ys)

codes-injective : (s t : String) → codes s ≡ codes t → s ≡ t
codes-injective String.[] String.[] h = refl
codes-injective String.[] (String.◌∷◌ d t) h = absurd (cc h)
codes-injective (String.◌∷◌ c s) String.[] h = absurd (cc h)
codes-injective (String.◌∷◌ c s) (String.◌∷◌ d t) h =
    cc (Char-path c d (cc h), codes-injective s t (cc h))

-- The strict order of identities, by URI.
pub Precedes : Identity → Identity → Type 0
Precedes a b = uri_lt a b ≡ true

pub Precedes-irrefl : (a : Identity) → ¬ (Precedes a a)
unfolding Precedes uri_lt
Precedes-irrefl a h = cc (h, codes_lt_irrefl (codes a.uri))

pub Precedes-trans : (a b c : Identity) → Precedes a b → Precedes b c → Precedes a c
unfolding Precedes uri_lt
Precedes-trans a b c h k = codes_lt_trans (codes a.uri) (codes b.uri) (codes c.uri) h k

-- Each element precedes all that follow it.
abbrev pub IsOrdered : List Identity → Type 0
IsOrdered [] = Unit
IsOrdered (x ∷ xs) = All (Precedes x) xs × IsOrdered xs

-- A sorted list may repeat a URI.
abbrev NotAfter : Identity → Identity → Type 0
NotAfter a b = uri_lt b a ≡ false

same_codes : (a b : Identity) → uri_lt a b ≡ false → uri_lt b a ≡ false → codes a.uri ≡ codes b.uri
unfolding uri_lt
same_codes a b h k = codes_lt_total (codes a.uri) (codes b.uri) h k

uri_lt_asym : (a b : Identity) → uri_lt a b ≡ true → uri_lt b a ≡ false
uri_lt_asym a b h = elim (Bool-cases (uri_lt b a)) [
  | inl back ↦ absurd (Precedes-irrefl a (unfold Precedes in Precedes-trans a b a h back))
  | inr e ↦ e
]

NotAfter-trans : (a b c : Identity) → NotAfter a b → NotAfter b c → NotAfter a c
unfolding uri_lt Precedes
NotAfter-trans a b c h k = elim (Bool-cases (uri_lt c a)) [
  | inr e ↦ e
  | inl c_a ↦ elim (Bool-cases (uri_lt a b)) [
    | inl a_b ↦ cc (k, Precedes-trans c a b c_a a_b)
    | inr a_b ↦ cc (same_codes a b a_b h, k)
  ]
]

abbrev IsSorted : List Identity → Type 0
IsSorted [] = Unit
IsSorted (x ∷ xs) = All (NotAfter x) xs × IsSorted xs

All-weaken :
    {P Q : Identity → Type 0} (xs : List Identity)
    → ((x : Identity) → P x → Q x)
    → All P xs
    → All Q xs
All-weaken [] f h = tt
All-weaken (x ∷ xs) f h = (f x h.0, All-weaken xs f h.1)

All-insert :
    (P : Identity → Type 0) (x : Identity) (ys : List Identity)
    → P x
    → All P ys
    → All P (insert_identity x ys)
unfolding insert_identity
All-insert P x [] p h = (p, tt)
All-insert P x (y ∷ ys) p h = elim (Bool-cases (uri_lt y x)) [
  | inl lt ↦ rw lt (h.0, All-insert P x ys p h.1)
  | inr ge ↦ rw ge (p, h)
]

insert-IsSorted :
    (x : Identity) (ys : List Identity) → IsSorted ys → IsSorted (insert_identity x ys)
unfolding insert_identity
insert-IsSorted x [] h = (tt, tt)
insert-IsSorted x (y ∷ ys) h = elim (Bool-cases (uri_lt y x)) [
  | inl lt ↦ rw lt (All-insert (NotAfter y) x ys (uri_lt_asym y x lt) h.0, insert-IsSorted x ys h.1)
  | inr ge ↦ rw ge ((ge, All-weaken ys (λ z k. NotAfter-trans x y z ge k) h.0), h)
]

sort-IsSorted : (xs : List Identity) → IsSorted (sort_identities xs)
unfolding sort_identities
sort-IsSorted [] = tt
sort-IsSorted (x ∷ xs) = insert-IsSorted x (sort_identities xs) (sort-IsSorted xs)

abbrev uri_of : Identity → String
uri_of i = i.uri

strict_head :
    (x : Identity) (ys : List Identity)
    → All (NotAfter x) ys
    → mem x.uri (map uri_of ys) ≡ false
    → All (Precedes x) ys
unfolding Precedes
strict_head x [] h k = tt
strict_head x (y ∷ ys) h k = (either, strict_head x ys h.1 (ground arith))
  where
    differ : str_eq y.uri x.uri ≡ false
    differ = ground arith

    either : uri_lt x y ≡ true
    either = elim (Bool-cases (uri_lt x y)) [
      | inl lt ↦ lt
      | inr ge ↦
          let same = codes-injective y.uri x.uri (sym (same_codes x y ge h.0)) in
          absurd (cc ((eq_iff y.uri x.uri).1 same, differ))
    ]

sorted-IsOrdered :
    (xs : List Identity) → IsSorted xs → is_unique (map uri_of xs) ≡ true → IsOrdered xs
unfolding is_unique
sorted-IsOrdered [] h k = tt
sorted-IsOrdered (x ∷ xs) h k =
    (strict_head x xs h.0 (ground arith), sorted-IsOrdered xs h.1 (ground arith))

any-insert :
    (p : Identity → Bool) (x : Identity) (ys : List Identity)
    → any p (insert_identity x ys) ≡ (p x || any p ys)
unfolding insert_identity
any-insert p x [] = refl
any-insert p x (y ∷ ys) = elim (Bool-cases (uri_lt y x)) [
  | inl lt ↦ rw (lt, any-insert p x ys) (ground arith)
  | inr ge ↦ rw ge refl
]

any-sort : (p : Identity → Bool) (xs : List Identity) → any p (sort_identities xs) ≡ any p xs
unfolding sort_identities
any-sort p [] = refl
any-sort p (x ∷ xs) = any-insert p x (sort_identities xs) ∙ ap (λ b. p x || b) (any-sort p xs)

role_eq-eq : (r x : Role) → role_eq r x ≡ true → r ≡ x
unfolding role_eq
role_eq-eq r x h = ground arith

old_role :
    (r x : Role) (seen : List Role) (b : Bool)
    → any (role_eq x) seen ≡ true
    → (b || any (role_eq r) seen) ≡ (role_eq r x || (b || any (role_eq r) seen))
old_role r x seen b h = elim (Bool-cases (role_eq r x)) [
  | inl same ↦
      rw same
        (ground (arith, subst (λ y. any (role_eq y) seen ≡ true) (sym (role_eq-eq r x same)) h))
  | inr differ ↦ rw differ refl
]

-- Nothing is lost or added when repeated roles are dropped.
any-fresh_roles :
    (r : Role) (seen rs : List Role)
    → (role_in r (fresh_roles seen rs) || role_in r seen) ≡ (role_in r rs || role_in r seen)
unfolding fresh_roles role_in
any-fresh_roles r seen [] = refl
any-fresh_roles r seen (x ∷ rs) = elim (Bool-cases (any (role_eq x) seen)) [
  | inl old ↦
      let ih : (any (role_eq r) (fresh_roles seen rs) || any (role_eq r) seen)
          ≡ (any (role_eq r) rs || any (role_eq r) seen) =
        any-fresh_roles r seen rs in
      rw old (ih ∙ (old_role r x seen (any (role_eq r) rs) old ∙ ground arith))
  | inr new ↦
      let ih : (any (role_eq r) (fresh_roles (x ∷ seen) rs)
            || (role_eq r x || any (role_eq r) seen))
          ≡ (any (role_eq r) rs || (role_eq r x || any (role_eq r) seen)) =
        any-fresh_roles r (x ∷ seen) rs in
      rw new (ground (arith, ih))
]

any-identities :
    (paths : Paths) (m : StoreMap) (r : Role) (rs : List Role)
    → any (λ i. role_eq r i.role) (map (identity paths m) rs) ≡ any (role_eq r) rs
unfolding identity
any-identities paths m r [] = refl
any-identities paths m r (x ∷ rs) = ap (λ b. role_eq r x || b) (any-identities paths m r rs)

-- A lock set as it is taken: in strict order of URI, and for exactly the roles that were asked for.
pub record IsLockSet (roles : List Role) (ids : List Identity) : Type 0 where
  pub ordered : IsOrdered ids
  pub complete : (r : Role) → any (λ i. role_eq r i.role) ids ≡ any (role_eq r) roles

distinct_set-eq :
    (xs ids : List Identity)
    → distinct_set xs ≡ ok ids
    → (ids ≡ xs) × (is_unique (map uri_of xs) ≡ true)
unfolding distinct_set
distinct_set-eq xs ids h =
    let (fails, last) = raise_if-eq-ok (not (is_unique (map uri_of xs))) conflict_error (ok xs) h in
    (sym (ok-injective last), true_of_not _ fails)

-- The identities of a lock set come in strict order of their URIs, whatever the order and the
-- repetitions of the roles, and there is one for exactly the roles that were asked for.
pub ordered_identities-IsLockSet :
    (paths : Paths) (m : StoreMap) (roles : List Role) (ids : List Identity)
    → ordered_identities paths m roles ≡ ok ids
    → IsLockSet roles ids
unfolding ordered_identities role_in
ordered_identities-IsLockSet paths m roles ids h =
    let (_, h₁) = raise_if-eq-ok _ validation_error _ h in
    let (_, _, h₂) = >>=-eq-ok (validate_distinct paths m) _ h₁ in
    let (same, distinct) = distinct_set-eq _ ids h₂ in
    record {
      ordered = subst IsOrdered (sym same) (sorted-IsOrdered _ (sort-IsSorted _) distinct);
      complete = λ r.
          ap (any (λ i. role_eq r i.role)) same
          ∙ (any-sort (λ i. role_eq r i.role) _ ∙ (any-identities paths m r _ ∙ complete r));
    }
  where
    bare : (b c : Bool) → (b || false) ≡ (c || false) → b ≡ c
    bare b c e = ground arith

    complete : (r : Role) → any (role_eq r) (fresh_roles [] roles) ≡ any (role_eq r) roles
    complete r = bare _ _ (any-fresh_roles r [] roles)
