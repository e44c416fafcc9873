-- ===== src/Errors.antt =====
-- core/coreErrors/coreErr.go: the sentinel errors, and the outcome of a fallible call. An error
-- that wraps a sentinel by `%w` is that sentinel, and an error of a library is `external`. A nil
-- dereference or an index out of range is a `panic`.
use cbtraining.Base.{◌≡◌, refl, subst, ◌⊎◌, inl, inr, Option, none, some, Bool, if◌then◌else◌}

pub data Error : Type 0 where
  metadata_not_valid metadata_updated_before_created : Error
  currency_invalid_length currency_invalid_characters : Error
  contry_of_residence_invalid_length : Error
  end_to_end_identification_invalid_format : Error
  not_valid_role not_valid_status : Error
  iban_invalid_length bic_invalid_length : Error
  infrastructure payment_not_found : Error
  dispatcher_shuting failed_to_recover_panding : Error
  external : Error

pub data Result {ℓ} (A : Type ℓ) : Type ℓ where
  ok : A → Result A
  err : Error → Result A
  panic : Result A

infixl 5 ◌>>=◌
-- An error or a panic ends the rest.
abbrev pub ◌>>=◌ {ℓ κ} : {A : Type ℓ} {B : Type κ} → Result A → (A → Result B) → Result B
panic >>= next = panic
err why >>= next = err why
ok value >>= next = next value

infixl 5 ◌>>◌
abbrev pub ◌>>◌ {κ} : {C : Type κ} → Result (Unit {0}) → Result C → Result C
first >> second = first >>= λ _. second

-- `if bad { return e }`
abbrev pub fail_if : Bool → Error → Result (Unit {0})
fail_if bad e = if bad then err e else ok tt

abbrev pub or_fail {ℓ} : {A : Type ℓ} → Option A → Error → Result A
or_fail none e = err e
or_fail (some a) e = ok a

-- `*p`
abbrev pub deref {ℓ} : {A : Type ℓ} → Option A → Result A
deref none = panic
deref (some a) = ok a

-- The value holds `P`, if there is one.
abbrev pub OkWith {ℓ κ} : {A : Type ℓ} → (A → Type κ) → Result A → Type κ
OkWith P (ok a) = P a
OkWith P (err e) = Unit
OkWith P panic = Unit

pub OkWith-eq-ok {ℓ κ} :
    {A : Type ℓ} (P : A → Type κ) (m : Result A) {a : A} → OkWith P m → m ≡ ok a → P a
OkWith-eq-ok P (ok a) h e = subst P (cc) h
OkWith-eq-ok P (err x) h e = cc
OkWith-eq-ok P panic h e = cc

pub Result-cases {ℓ} :
    {A : Type ℓ} (m : Result A)
    → ((a : A) × (m ≡ ok a)) ⊎ (((e : Error) × (m ≡ err e)) ⊎ (m ≡ panic))
Result-cases (ok a) = inl (a, refl)
Result-cases (err e) = inr (inl (e, refl))
Result-cases panic = inr (inr refl)
