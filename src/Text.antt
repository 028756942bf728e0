-- ===== src/Text.antt =====
-- The text rules of quant_data/operations/job_receipts.py and job_retry.py: `str.strip`, the regular
-- expressions for identifiers, digests and periods, and the rules of a receipt-safe message.
use Prim.Native.Char.{code}
use quant_data_infra.Prelude.{
  map, ◌≡◌, ap, ℕ, ◌+◌, ◌-◌, arith, String, refl, Bool, true, false, not, ◌&&◌, ◌||◌, List, [], ◌∷◌,
  ltb, leb, ◌==◌, any, all, length, str_eq, if◌then◌else◌,
}
use quant_data_infra.Errors.{
  >>=-eq-ok, raise_if-eq-ok, ok-injective, Result, ok, err, validation_error, raise_if, ◌>>=◌, ◌>>◌,
}

-- The code points of a text.
abbrev pub codes : String → List ℕ
codes String.[] = []
codes (String.◌∷◌ c s) = code c ∷ codes s

-- `str.isspace` of one character, which is what `str.strip` removes.
unfoldable pub is_space : ℕ → Bool
is_space c =
    (leb 9 c && leb c 13)
    || (leb 28 c && leb c 32)
    || (c == 0x85)
    || (c == 0xa0)
    || (c == 0x1680)
    || (leb 0x2000 c && leb c 0x200a)
    || (c == 0x2028)
    || (c == 0x2029)
    || (c == 0x202f)
    || (c == 0x205f)
    || (c == 0x3000)

unfoldable pub left_strip : String → String
unfolding is_space
left_strip String.[] = String.[]
left_strip (String.◌∷◌ c s) =
    let rest = left_strip s in if is_space (code c) then rest else String.◌∷◌ c s

abbrev pub is_blank : String → Bool
is_blank String.[] = true
is_blank (String.◌∷◌ c s) = false

unfoldable pub right_strip : String → String
unfolding is_space
right_strip String.[] = String.[]
right_strip (String.◌∷◌ c s) =
    let rest = right_strip s in
    if is_blank rest && is_space (code c) then String.[] else String.◌∷◌ c rest

unfoldable pub strip : String → String
unfolding left_strip right_strip
strip s = right_strip (left_strip s)

is_lower : ℕ → Bool
is_lower c = leb b'a' c && leb c b'z'

is_digit : ℕ → Bool
is_digit c = leb b'0' c && leb c b'9'

is_hex : ℕ → Bool
unfolding is_digit
is_hex c = is_digit c || (leb b'a' c && leb c b'f')

is_alnum : ℕ → Bool
unfolding is_lower is_digit
is_alnum c = is_lower c || is_digit c

-- `[._-]`
is_separator : ℕ → Bool
is_separator c = (c == b'.') || (c == b'_') || (c == b'-')

-- After the first letter; the flag says that a separator still waits for its letter or digit.
identifier_rest : Bool → List ℕ → Bool
unfolding is_alnum is_separator
identifier_rest waiting [] = not waiting
identifier_rest waiting (c ∷ cs) =
    (is_alnum c || (is_separator c && not waiting)) && identifier_rest (not (is_alnum c)) cs

-- `_IDENTIFIER_RE.fullmatch`
unfoldable pub is_identifier : List ℕ → Bool
unfolding identifier_rest is_lower
is_identifier [] = false
is_identifier (c ∷ cs) = is_lower c && identifier_rest false cs

-- `_SHA256_RE.fullmatch`
unfoldable pub is_digest : List ℕ → Bool
unfolding is_hex
is_digest cs = (length cs == 64) && all is_hex cs

-- `_KEY_PREFIX_RE.fullmatch`
unfoldable pub is_key_prefix : List ℕ → Bool
unfolding is_hex
is_key_prefix cs = (length cs == 12) && all is_hex cs

-- `_LOCK_ALIAS_RE.fullmatch`
unfoldable pub is_lock_alias : String → Bool
is_lock_alias s =
    str_eq s "store-1" || str_eq s "store-2" || str_eq s "store-3" || str_eq s "store-4"

is_month : ℕ → ℕ → Bool
unfolding is_digit
is_month a b =
    ((a == b'0') && leb b'1' b && leb b b'9') || ((a == b'1') && leb b'0' b && leb b b'2')

-- `_PERIOD_RE.fullmatch`
unfoldable pub is_period : List ℕ → Bool
unfolding is_digit is_month
is_period (a ∷ b ∷ c ∷ d ∷ dash ∷ m ∷ n ∷ []) =
    is_digit a && is_digit b && is_digit c && is_digit d && (dash == b'-') && is_month m n
is_period _ = false

-- Where the reading of a number of a semantic version stands.
pub data Numeral : Type 0 where
  unread leading_zero digits : Numeral

-- The rest of a semantic version, with the number of dots that are still to come.
semver_from : ℕ → Numeral → List ℕ → Bool
unfolding is_digit
semver_from dots unread [] = false
semver_from dots leading_zero [] = dots == 0
semver_from dots digits [] = dots == 0
semver_from dots unread (c ∷ cs) =
    is_digit c && semver_from dots (if c == b'0' then leading_zero else digits) cs
semver_from dots leading_zero (c ∷ cs) =
    (c == b'.') && ltb 0 dots && semver_from (dots - 1) unread cs
semver_from dots digits (c ∷ cs) =
    (is_digit c || ((c == b'.') && ltb 0 dots))
    && semver_from (if is_digit c then dots else dots - 1) (if is_digit c then digits else unread)
        cs

-- `_SEMVER_RE.fullmatch`
unfoldable pub is_semver : List ℕ → Bool
unfolding semver_from
is_semver = semver_from 2 unread

-- `re.IGNORECASE` over ASCII text.
unfoldable pub to_lower : ℕ → ℕ
to_lower c = if leb b'A' c && leb c b'Z' then c + 32 else c

pub is_prefix : List ℕ → List ℕ → Bool
is_prefix [] ys = true
is_prefix (x ∷ xs) [] = false
is_prefix (x ∷ xs) (y ∷ ys) = (x == y) && is_prefix xs ys

-- `[A-Za-z0-9_]`, of a lower-case character
is_word : ℕ → Bool
unfolding is_alnum
is_word c = is_alnum c || (c == b'_')

ends_word : List ℕ → Bool
unfolding is_word
ends_word [] = true
ends_word (c ∷ cs) = not (is_word c)

-- The keyword stands here, and no word character follows it.
keyword_here : List ℕ → List ℕ → Bool
unfolding ends_word
keyword_here [] ys = ends_word ys
keyword_here (x ∷ xs) [] = false
keyword_here (x ∷ xs) (y ∷ ys) = (x == y) && keyword_here xs ys

abbrev schemes : List String
schemes = "://" ∷ "http:" ∷ "https:" ∷ "ftp:" ∷ "file:" ∷ "data:" ∷ "mailto:" ∷ []

-- `api[ _-]?key` and `private[ _-]?key` are written out.
abbrev keywords : List String
keywords =
    "password" ∷ "passwd" ∷ "secret" ∷ "token" ∷ "apikey" ∷ "api key" ∷ "api_key" ∷ "api-key"
    ∷ "authorization" ∷ "bearer" ∷ "cookie" ∷ "credential" ∷ "privatekey" ∷ "private key"
    ∷ "private_key" ∷ "private-key" ∷ "select" ∷ "insert" ∷ "update" ∷ "delete" ∷ "drop" ∷ "alter"
    ∷ "create" ∷ "pragma" ∷ "attach" ∷ "detach" ∷ "vacuum" ∷ "sqlite_master" ∷ "from" ∷ "where"
    ∷ "join" ∷ []

-- The search from one position on; the flag says that a word character stands before it.
forbidden_from : Bool → List ℕ → Bool
unfolding is_prefix keyword_here is_word
forbidden_from inside [] = false
forbidden_from inside (c ∷ cs) =
    any (λ s. is_prefix (codes s) (c ∷ cs)) schemes
    || (not inside && any (λ s. keyword_here (codes s) (c ∷ cs)) keywords)
    || forbidden_from (is_word c) cs

-- `_FORBIDDEN_TEXT_RE.search` and `_SAFE_MESSAGE_RE.search`, which are one expression.
unfoldable pub is_forbidden : List ℕ → Bool
unfolding forbidden_from to_lower
is_forbidden cs = forbidden_from false (map to_lower cs)

is_printable : ℕ → Bool
is_printable c = leb 32 c && ltb c 127

is_path_character : ℕ → Bool
is_path_character c =
    (c == b'/') || (c == b'\\') || (c == b'{') || (c == b'}') || (c == b'[') || (c == b']')

-- What both message rules ask of a text beyond its length.
unfoldable pub is_safe : List ℕ → Bool
unfolding is_printable is_path_character is_forbidden
is_safe cs = all is_printable cs && not (any is_path_character cs) && not (is_forbidden cs)

-- `_require_text`
unfoldable pub require_text : String → ℕ → Result String
unfolding strip
require_text value maximum =
    if is_blank value || not (str_eq value (strip value)) || ltb maximum (length (codes value))
    then err validation_error
    else ok value

-- `_require_text` and a further test of the code points, which each of the next four makes.
unfoldable pub require_matching : (List ℕ → Bool) → String → ℕ → Result String
require_matching test value maximum = do
  text ← require_text value maximum
  raise_if (not (test (codes text))) validation_error
  ok text

-- `_require_identifier`
unfoldable pub require_identifier : String → ℕ → Result String
require_identifier value maximum = require_matching is_identifier value maximum

-- `_require_sha256`
unfoldable pub require_sha256 : String → Result String
require_sha256 value = require_matching is_digest value 64

-- `_require_safe_message`
unfoldable pub require_safe_message : String → Result String
require_safe_message value = require_matching is_safe value 160

-- `validate_marker_period`
unfoldable pub validate_marker_period : String → Result String
validate_marker_period value = require_matching is_period value 7

require_text-eq : (s t : String) (n : ℕ) → require_text s n ≡ ok t → t ≡ s
unfolding require_text
require_text-eq s t n h = ground arith

-- A text that passes is unchanged and passes the test; a text that fits and passes the test is
-- returned.
pub require_matching-eq :
    (test : List ℕ → Bool) (s t : String) (n : ℕ)
    → require_matching test s n ≡ ok t
    → (t ≡ s) × (test (codes s) ≡ true)
unfolding require_matching
require_matching-eq test s t n h =
    let (u, u_ok, rest) = >>=-eq-ok (require_text s n) _ h in
    let (holds, last) = raise_if-eq-ok (not (test (codes u))) _ _ rest in
    let same = require_text-eq s u n u_ok in
    let kept = ok-injective last in
    (cc (kept, same), matched (test (codes s)) (cc (holds, ap (λ w. not (test (codes w))) same)))
  where
    matched : (b : Bool) → not b ≡ false → b ≡ true
    matched b k = ground arith

-- `_safe_message` of job_retry.py strips the text first.
unfoldable pub safe_message : String → Result String
unfolding strip is_safe
safe_message value =
    let text = strip value in
    if is_blank text || ltb 160 (length (codes text)) || not (is_safe (codes text))
    then err validation_error
    else ok text

-- The bundle for tests that run the text rules.
unfoldable pub text_rules : Unit {0}
unfolding require_matching require_text strip is_identifier is_digest is_safe is_period safe_message
    require_identifier require_sha256 require_safe_message validate_marker_period is_lock_alias
    is_key_prefix is_semver
text_rules = tt

safe_examples :
    (safe_message " step failed " ≡ ok "step failed")
    × (safe_message "read From disk" ≡ err validation_error)
    × (safe_message "fromage" ≡ ok "fromage")
    × (require_safe_message "API-Key" ≡ err validation_error)
    × (require_identifier "dependency_blocked" 96 ≡ ok "dependency_blocked")
    × (require_identifier "a__b" 96 ≡ err validation_error)
    × (validate_marker_period "2026-13" ≡ err validation_error)
unfolding text_rules
safe_examples = (refl, refl, refl, refl, refl, refl, refl)
