-- ===== src/Stores.antt =====
-- quant_data/stores.py: the four store paths, and the write locks that a session holds on them.
pub mod Session
pub mod Order
use quant_data_infra.Prelude.{
  ℕ, ◌+◌, String, Bool, true, false, not, ◌&&◌, ◌||◌, Option, none, some, List, [], ◌∷◌, map, any,
  all, is_empty, ltb, ◌==◌, str_eq, if◌then◌else◌,
}
use quant_data_infra.Errors.{
  Result, ok, err, validation_error, conflict_error, raise_if, ◌>>=◌, ◌>>◌,
}
use quant_data_infra.Text.{codes, strip, is_blank}
use quant_data_infra.Receipts.{Role, market, macro, company, news, role_eq, is_unique}

-- What the code asks of `pathlib`, `os.path` and the file system, and the two names of a path.
pub record Paths : Type 0 where
  pub expanduser : String → String
  pub is_absolute : String → Bool
  pub resolve : String → String
  pub is_broad : String → Bool
  pub exists : String → Bool
  pub is_file : String → Bool
  pub normal : String → String
  pub same_file : String → String → Bool
  pub canonical_uri : String → String
  pub lock_digest : String → String

pub record StoreMap : Type 0 where
  pub market_path : String
  pub macro_path : String
  pub company_path : String
  pub news_path : String

pub record Identity : Type 0 where
  pub role : Role
  pub path : String
  pub uri : String
  pub lock_key : String

abbrev pub store_roles : List Role
store_roles = market ∷ macro ∷ company ∷ news ∷ []

-- `StoreMap.path`
unfoldable pub path_of : StoreMap → Role → String
path_of m market = m.market_path
path_of m macro = m.macro_path
path_of m company = m.company_path
path_of m news = m.news_path

-- `dict.fromkeys` keeps the first of each.
role_in : Role → List Role → Bool
role_in r rs = any (role_eq r) rs

fresh_roles : List Role → List Role → List Role
fresh_roles seen [] = []
fresh_roles seen (r ∷ rs) =
    let rest = fresh_roles (if role_in r seen then seen else r ∷ seen) rs in
    if role_in r seen then rest else r ∷ rest

module _ (paths : Paths) where
  -- `_coerce_path`
  pub coerce_path : String → Result String
  coerce_path value =
      let supplied = paths.expanduser value in
      let resolved = paths.resolve supplied in
      do
        raise_if (is_blank (strip value)) validation_error
        raise_if (not (paths.is_absolute supplied)) validation_error
        raise_if (paths.is_broad resolved) validation_error
        raise_if (paths.exists resolved && not (paths.is_file resolved)) validation_error
        ok resolved

  -- The second loop of `validate_distinct`: no two existing paths are one file.
  one_file : String → List String → Bool
  one_file left rights = any (λ right. paths.exists right && paths.same_file left right) rights

  shared_file : List String → Bool
  shared_file [] = false
  shared_file (left ∷ rights) = (paths.exists left && one_file left rights) || shared_file rights

  -- `validate_distinct`
  pub validate_distinct : StoreMap → Result (Unit {0})
  validate_distinct m =
      let items = map (path_of m) store_roles in
      do
        raise_if (not (is_unique (map paths.normal items))) conflict_error
        raise_if (shared_file items) conflict_error

  -- `StoreMap.four_explicit`, whose `__post_init__` coerces the coerced paths again.
  pub store_map : String → String → String → String → Result StoreMap
  store_map a b c d = do
    a' ← coerce_path a
    b' ← coerce_path b
    c' ← coerce_path c
    d' ← coerce_path d
    market_path ← coerce_path a'
    macro_path ← coerce_path b'
    company_path ← coerce_path c'
    news_path ← coerce_path d'
    let m : StoreMap = record {
      market_path = market_path;
      macro_path = macro_path;
      company_path = company_path;
      news_path = news_path;
    }
    validate_distinct m
    ok m

  -- `physical_lock_key`, of the digest of the URI
  pub identity : StoreMap → Role → Identity
  identity m r =
      let uri = paths.canonical_uri (path_of m r) in
      record { role = r; path = path_of m r; uri = uri; lock_key = paths.lock_digest uri }

-- The order of texts, by code points.
unfoldable pub codes_lt : List ℕ → List ℕ → Bool
codes_lt [] [] = false
codes_lt [] (y ∷ ys) = true
codes_lt (x ∷ xs) [] = false
codes_lt (x ∷ xs) (y ∷ ys) = ltb x y || ((x == y) && codes_lt xs ys)

unfoldable pub uri_lt : Identity → Identity → Bool
unfolding codes_lt
uri_lt a b = codes_lt (codes a.uri) (codes b.uri)

-- `sorted` by URI, which is stable.
insert_identity : Identity → List Identity → List Identity
insert_identity x [] = x ∷ []
insert_identity x (y ∷ ys) =
    let rest = insert_identity x ys in if uri_lt y x then y ∷ rest else x ∷ y ∷ ys

sort_identities : List Identity → List Identity
sort_identities [] = []
sort_identities (x ∷ xs) = insert_identity x (sort_identities xs)

distinct_set : List Identity → Result (List Identity)
distinct_set identities = do
  raise_if (not (is_unique (map (λ i. i.uri) identities))) conflict_error
  ok identities

-- `_ordered_write_lock_identities`
pub ordered_identities : Paths → StoreMap → List Role → Result (List Identity)
ordered_identities paths m roles =
    let wanted = fresh_roles [] roles in
    let identities = sort_identities (map (identity paths m) wanted) in
    do
      raise_if (is_empty wanted) validation_error
      validate_distinct paths m
      distinct_set identities

-- The bundle for tests that run this module.
unfoldable pub store_rules : Unit {0}
unfolding path_of role_in fresh_roles coerce_path one_file shared_file validate_distinct store_map
    identity codes_lt uri_lt insert_identity sort_identities distinct_set ordered_identities
store_rules = tt
