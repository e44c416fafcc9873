-- ===== src/ValObj/Laws.antt =====
-- What the parsers of core/valObj/valobj.go accept, and what they make of it.
use Prim.Native.Char.{Char, code}
use cbtraining.Base.{
  ap, sym, ◌∙◌, ℕ, String, len, count, ◌≡◌, refl, ◌≤◌, ◌↔◌, ◌⊎◌, inl, inr, Bool, true, arith,
  eq_iff, str_eq, Bool-cases,
}
use cbtraining.Errors.{ok}
use cbtraining.ValObj.{
  Role, debtor, creditor, role_string, val_role, Status, pending, processing, completed, failed,
  status_string, val_status, Currency, is_upper, all_chars, parse_currency, EndToEndIdentification,
  is_end_to_end_char, parse_end_to_end_identification, CountryOfResidence,
  parse_country_of_residence,
}

-- A role that is written out is read back.
pub val_role-role_string : (r : Role) → val_role (role_string r) ≡ ok r
unfolding val_role
val_role-role_string debtor = refl
val_role-role_string creditor = refl

-- What a stored status is taken for when it is read back.
abbrev pub as_recovered : Status → Status
as_recovered pending = pending
as_recovered processing = processing
as_recovered completed = processing
as_recovered failed = processing

pub val_status-status_string : (st : Status) → val_status (status_string st) ≡ ok (as_recovered st)
unfolding val_status
val_status-status_string pending = refl
val_status-status_string processing = refl
val_status-status_string completed = refl
val_status-status_string failed = refl

-- Nothing else is a status.
pub val_status-eq-ok :
    (s : String) (st : Status)
    → val_status s ≡ ok st
    → (k : Status) × (s ≡ status_string k) × (st ≡ as_recovered k)
unfolding val_status
val_status-eq-ok s st h = elim (Bool-cases (str_eq s "pending")) [
  | inl a ↦ (pending, (eq_iff s "pending").0 a, ground arith)
  | inr a ↦ elim (Bool-cases (str_eq s "processing")) [
    | inl b ↦ (processing, (eq_iff s "processing").0 b, ground arith)
    | inr b ↦ elim (Bool-cases (str_eq s "completed")) [
      | inl c ↦ (completed, (eq_iff s "completed").0 c, ground arith)
      | inr c ↦ elim (Bool-cases (str_eq s "failed")) [
        | inl d ↦ (failed, (eq_iff s "failed").0 d, ground arith)
        | inr d ↦ absurd (ground arith)
      ]
    ]
  ]
]

-- A predicate on the code of every character of a text.
abbrev pub EveryChar : (ℕ → Type 0) → String → Type 0
EveryChar P String.[] = Unit
EveryChar P (String.◌∷◌ r s) = P (code r) × EveryChar P s

module _ (P : ℕ → Type 0) (p : Char → Bool) (iff : (r : Char) → (p r ≡ true) ↔ P (code r)) where
  pub all_chars_sound : (s : String) → all_chars p s ≡ true → EveryChar P s
  unfolding all_chars
  all_chars_sound String.[] h = tt
  all_chars_sound (String.◌∷◌ r s) h = ((iff r).0 (ground arith), all_chars_sound s (ground arith))

  all_chars_complete : (s : String) → EveryChar P s → all_chars p s ≡ true
  unfolding all_chars
  all_chars_complete String.[] h = refl
  all_chars_complete (String.◌∷◌ r s) h = ground (arith, (iff r).1 h.0, all_chars_complete s h.1)

abbrev pub IsUpperLetter : ℕ → Type 0
IsUpperLetter c = (b'A' ≤ c) × (c ≤ b'Z')

is_upper_iff : (r : Char) → (is_upper r ≡ true) ↔ IsUpperLetter (code r)
unfolding is_upper
is_upper_iff r = (λ h. ground arith, λ h. ground arith)

abbrev pub IsCurrencyCode : String → Type 0
IsCurrencyCode s = (len s ≡ 3) × EveryChar IsUpperLetter s

pub parse_currency_sound :
    (s : String) {c : Currency} → parse_currency s ≡ ok c → IsCurrencyCode s × (c.currency ≡ s)
unfolding parse_currency
parse_currency_sound s h = (
  (ground arith, all_chars_sound IsUpperLetter is_upper is_upper_iff s (ground arith)),
  ground arith,
)

pub parse_currency_complete :
    (s : String) → IsCurrencyCode s → parse_currency s ≡ ok (record { currency = s })
unfolding parse_currency
parse_currency_complete s h =
    ground (arith, all_chars_complete IsUpperLetter is_upper is_upper_iff s h.1)

-- A letter or a digit of ASCII, or the dot.
abbrev pub IsEndToEndChar : ℕ → Type 0
IsEndToEndChar c =
    ((b'a' ≤ c) × (c ≤ b'z')) ⊎ ((b'A' ≤ c) × (c ≤ b'Z')) ⊎ ((b'0' ≤ c) × (c ≤ b'9')) ⊎ (c ≡ b'.')

pub is_end_to_end_char_iff : (r : Char) → (is_end_to_end_char r ≡ true) ↔ IsEndToEndChar (code r)
unfolding is_end_to_end_char
is_end_to_end_char_iff r = (λ h. ground arith, λ h. ground arith)

abbrev pub IsEndToEndId : String → Type 0
IsEndToEndId s = (1 ≤ count s) × (count s ≤ 35) × EveryChar IsEndToEndChar s

pub parse_end_to_end_identification_sound :
    (s : String) {e : EndToEndIdentification}
    → parse_end_to_end_identification s ≡ ok e
    → IsEndToEndId s × (e.identification ≡ s)
unfolding parse_end_to_end_identification
parse_end_to_end_identification_sound s h = (
  (
    ground arith,
    ground arith,
    all_chars_sound IsEndToEndChar is_end_to_end_char is_end_to_end_char_iff s (ground arith),
  ),
  ground arith,
)

pub parse_end_to_end_identification_complete :
    (s : String)
    → IsEndToEndId s
    → parse_end_to_end_identification s ≡ ok (record { identification = s })
unfolding parse_end_to_end_identification
parse_end_to_end_identification_complete s h =
    ground
      (arith, all_chars_complete IsEndToEndChar is_end_to_end_char is_end_to_end_char_iff s h.2)

pub parse_country_of_residence_sound :
    (s : String) {c : CountryOfResidence}
    → parse_country_of_residence s ≡ ok c
    → (len s ≡ 2) × (c.country_code ≡ s)
unfolding parse_country_of_residence
parse_country_of_residence_sound s h = ground arith

pub val_role_sound : (s : String) {r : Role} → val_role s ≡ ok r → s ≡ role_string r
unfolding val_role
val_role_sound s {r = debtor} h = ground (arith, eq_iff s "debtor", eq_iff s "creditor")
val_role_sound s {r = creditor} h = ground (arith, eq_iff s "debtor", eq_iff s "creditor")

-- `ParseCurrency` accepts exactly the texts of three upper-case ASCII letters, unchanged.
pub parse_currency-ok :
    (s : String) (c : Currency) → (parse_currency s ≡ ok c) ↔ (IsCurrencyCode s × (c.currency ≡ s))
parse_currency-ok s c = (
  λ h. parse_currency_sound s h,
  λ (v, e). parse_currency_complete s v ∙ ap (λ x. ok (record { currency = x })) (sym e),
)

-- `ParseEndToEndIdentification` accepts exactly the texts of 1 to 35 ASCII letters, digits and dots,
-- unchanged.
pub parse_end_to_end_identification-ok :
    (s : String) (e : EndToEndIdentification)
    → (parse_end_to_end_identification s ≡ ok e) ↔ (IsEndToEndId s × (e.identification ≡ s))
parse_end_to_end_identification-ok s e = (
  λ h. parse_end_to_end_identification_sound s h,
  λ (v, q).
      parse_end_to_end_identification_complete s v
      ∙ ap (λ x. ok (record { identification = x })) (sym q),
)

-- `ValStatus` accepts exactly the four texts of a status, and takes the texts of `Completed` and
-- `Failed` for `Processing`.
pub val_status-ok :
    (s : String) (st : Status)
    → (val_status s ≡ ok st) ↔ ((k : Status) × (s ≡ status_string k) × (st ≡ as_recovered k))
val_status-ok s st = (
  val_status-eq-ok s st,
  λ (k, e, f). ap val_status e ∙ val_status-status_string k ∙ ap ok (sym f),
)
