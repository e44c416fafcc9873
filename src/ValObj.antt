-- ===== src/ValObj.antt =====
-- core/valObj/valobj.go and core/consts: the value objects. A Go string is a `String`: `len` counts
-- its bytes and a `range` loop runs over its characters. A time is a count of nanoseconds.
pub mod Laws
use Prim.Native.Char.{Char, code}
use cbtraining.Base.{
  ℕ, String, len, count, Bool, true, not, ◌&&◌, ◌||◌, Option, ltb, leb, ◌==◌, str_eq, if◌then◌else◌,
}
use cbtraining.Errors.{
  Result, ok, err, ◌>>=◌, ◌>>◌, fail_if, or_fail, metadata_not_valid,
  metadata_updated_before_created, currency_invalid_length, currency_invalid_characters,
  contry_of_residence_invalid_length, end_to_end_identification_invalid_format, not_valid_role,
  not_valid_status,
}

pub data Role : Type 0 where
  debtor creditor : Role

-- `string(role)`
abbrev pub role_string : Role → String
role_string debtor = "debtor"
role_string creditor = "creditor"

unfoldable pub val_role : String → Result Role
val_role s =
    if str_eq s "debtor"
    then ok debtor
    else if str_eq s "creditor"
    then ok creditor
    else err not_valid_role

pub record Metadata : Type 0 where
  pub created_at : ℕ
  pub updated_at : ℕ

-- `unmarshal` is `json.Unmarshal` into a `Metadata`.
unfoldable pub new_metadata : (String → Option Metadata) → String → Result Metadata
new_metadata unmarshal input = do
  mt ← or_fail (unmarshal input) metadata_not_valid
  fail_if (ltb mt.updated_at mt.created_at) metadata_updated_before_created
  ok mt

-- The clock is read twice.
unfoldable pub new_metadata_now : ℕ → ℕ → Metadata
new_metadata_now now later = record { created_at = now; updated_at = later }

unfoldable pub touch : ℕ → Metadata → Metadata
touch now m = record { created_at = m.created_at; updated_at = now }

pub data Status : Type 0 where
  pending processing completed failed : Status

-- `string(status)`
abbrev pub status_string : Status → String
status_string pending = "pending"
status_string processing = "processing"
status_string completed = "completed"
status_string failed = "failed"

unfoldable pub val_status : String → Result Status
val_status st =
    if str_eq st "pending"
    then ok pending
    else if str_eq st "processing"
    then ok processing
    else if str_eq st "completed"
    then ok processing
    else if str_eq st "failed"
    then ok processing
    else err not_valid_status

pub record Currency : Type 0 where
  pub currency : String

is_upper : Char → Bool
is_upper r = leb b'A' (code r) && leb (code r) b'Z'

-- A loop over the characters that stops at the first one that fails.
unfoldable pub all_chars : (Char → Bool) → String → Bool
all_chars p String.[] = true
all_chars p (String.◌∷◌ r s) = p r && all_chars p s

unfoldable pub parse_currency : String → Result Currency
unfolding all_chars is_upper
parse_currency s = do
  fail_if (not (len s == 3)) currency_invalid_length
  fail_if (not (all_chars is_upper s)) currency_invalid_characters
  ok (record { currency = s })

pub record EndToEndIdentification : Type 0 where
  pub identification : String

-- `[a-zA-Z0-9.]`
unfoldable pub is_end_to_end_char : Char → Bool
is_end_to_end_char r =
    (leb b'a' (code r) && leb (code r) b'z')
    || (leb b'A' (code r) && leb (code r) b'Z')
    || (leb b'0' (code r) && leb (code r) b'9')
    || (code r == b'.')

-- `regexp.MustCompile("^[a-zA-Z0-9.]{1,35}$").MatchString`
end_to_end_identification_regex : String → Bool
unfolding all_chars is_end_to_end_char
end_to_end_identification_regex s =
    leb 1 (count s) && leb (count s) 35 && all_chars is_end_to_end_char s

unfoldable pub parse_end_to_end_identification : String → Result EndToEndIdentification
unfolding end_to_end_identification_regex
parse_end_to_end_identification s = do
  fail_if (not (end_to_end_identification_regex s)) end_to_end_identification_invalid_format
  ok (record { identification = s })

pub record CountryOfResidence : Type 0 where
  pub country_code : String

unfoldable pub parse_country_of_residence : String → Result CountryOfResidence
parse_country_of_residence s = do
  fail_if (not (len s == 2)) contry_of_residence_invalid_length
  ok (record { country_code = s })
