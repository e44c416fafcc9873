-- ===== src/Entity/Validity.antt =====
-- What holds of every transaction that is built from a request: the checks of core/entity together.
use cbtraining.Base.{ℕ, String, len, ◌≡◌, ◌≤◌, ◌⊎◌, arith, some, inl, inr, slice}
use cbtraining.Errors.{OkWith, OkWith-eq-ok, ok, Result-cases}
use cbtraining.ValObj.{
  role_string, val_role, pending, parse_currency, parse_country_of_residence,
  parse_end_to_end_identification,
}
use cbtraining.ValObj.Laws.{
  IsCurrencyCode, IsEndToEndId, val_role_sound, parse_currency_sound,
  parse_end_to_end_identification_sound,
}
use cbtraining.Ports.{PaymentPartyDto, PaymentAccountDto, PaymentRequest}
use cbtraining.Entity.{
  Libs, PaymentParty, PaymentAccount, PaymentTx, new_payment_party_from_dto, new_pa_from_dto,
  new_payment_tx_from_dto, new_payment_party, new_payment_account, gen_txid,
}

pub record IsValidParty (pp : PaymentParty) : Type 0 where
  pub bic_length : (len pp.bic ≡ 8) ⊎ (len pp.bic ≡ 11)
  pub country_length : len pp.contry_of_residence.country_code ≡ 2

pub record IsValidAccount (pa : PaymentAccount) : Type 0 where
  pub iban_min : 15 ≤ len pa.iban
  pub iban_max : len pa.iban ≤ 34
  pub code : IsCurrencyCode pa.acc_curency.currency
  pub party : IsValidParty pa.payment_party

pub record IsValidTx {D : Type 0} (tx : PaymentTx D) : Type 0 where
  pub code : IsCurrencyCode tx.currency.currency
  pub end_to_end : IsEndToEndId tx.end_to_end_identification.identification
  pub debtor : IsValidAccount tx.debtor_pacc
  pub creditor : IsValidAccount tx.creditor_pacc

currency_OkWith : (s : String) → OkWith (λ c. IsCurrencyCode c.currency) (parse_currency s)
unfolding parse_currency
currency_OkWith s = ground (arith, parse_currency_sound s {c = record { currency = s }})

party_OkWith : (dto : PaymentPartyDto) → OkWith IsValidParty (new_payment_party_from_dto dto)
unfolding new_payment_party_from_dto parse_country_of_residence
party_OkWith dto = ground arith

account_OkWith :
    (dto : PaymentAccountDto) (party : PaymentPartyDto)
    → OkWith IsValidAccount (new_pa_from_dto dto party)
unfolding new_pa_from_dto
account_OkWith dto party = ground (arith, party_OkWith party, currency_OkWith dto.acc_curency)

end_to_end_OkWith :
    (s : String) → OkWith (λ e. IsEndToEndId e.identification) (parse_end_to_end_identification s)
unfolding parse_end_to_end_identification
end_to_end_OkWith s =
    ground (arith, parse_end_to_end_identification_sound s {e = record { identification = s }})

module _ (L : Libs) where
  open L use {Decimal}

  pub tx_OkWith :
      (uuid : String) (now later : ℕ) (req : PaymentRequest)
      → OkWith IsValidTx (new_payment_tx_from_dto L uuid now later req)
  unfolding new_payment_tx_from_dto
  tx_OkWith uuid now later req = grind (arith, account_OkWith, currency_OkWith, end_to_end_OkWith)

-- A party and an account with every field of those of the request.
pub record IsPartyOf (dto : PaymentPartyDto) (pp : PaymentParty) : Type 0 where
  pub bic : pp.bic ≡ dto.bic
  pub role : dto.role ≡ role_string pp.role
  pub country : pp.contry_of_residence.country_code ≡ dto.contry_of_residence
  pub name : pp.name ≡ dto.name

pub record IsAccountOf (dto : PaymentAccountDto) (party : PaymentPartyDto) (pa : PaymentAccount)
    : Type 0 where
  pub iban : pa.iban ≡ dto.iban
  pub currency : pa.acc_curency.currency ≡ dto.acc_curency
  pub party_of : IsPartyOf party pa.payment_party

-- What a transaction takes over from its request, the random UUID and the clock: all of its fields.
pub record IsBuiltFrom (L : Libs) (uuid : String) (now later : ℕ) (req : PaymentRequest)
    (tx : PaymentTx L.Decimal) : Type 0 where
  pub txid : tx.txid ≡ slice uuid 0 34
  pub amount : L.new_from_string req.amount ≡ some tx.amount
  pub status : tx.status ≡ pending
  pub currency : tx.currency.currency ≡ req.currency
  pub end_to_end : tx.end_to_end_identification.identification ≡ req.end_to_end_identification
  pub transaction_type : tx.transaction_type ≡ req.transaction_type
  pub created : tx.metadata.created_at ≡ now
  pub updated : tx.metadata.updated_at ≡ later
  pub debtor :
      (a : PaymentAccountDto) × (p : PaymentPartyDto) × (req.debtor_pacc ≡ some a)
      × (req.debtor ≡ some p)
      × IsAccountOf a p tx.debtor_pacc
  pub creditor :
      (a : PaymentAccountDto) × (p : PaymentPartyDto) × (req.creditor_pacc ≡ some a)
      × (req.creditor ≡ some p)
      × IsAccountOf a p tx.creditor_pacc

role_OkWith : (s : String) → OkWith (λ r. s ≡ role_string r) (val_role s)
role_OkWith s = elim (Result-cases (val_role s)) [
  | inl (r, e) ↦ rw e (val_role_sound s e)
  | inr (inl (x, e)) ↦ rw e tt
  | inr (inr e) ↦ rw e tt
]

built_party_OkWith :
    (dto : PaymentPartyDto) → OkWith (IsPartyOf dto) (new_payment_party_from_dto dto)
unfolding new_payment_party_from_dto parse_country_of_residence new_payment_party
built_party_OkWith dto = ground (arith, role_OkWith dto.role)

built_account_OkWith :
    (dto : PaymentAccountDto) (party : PaymentPartyDto)
    → OkWith (IsAccountOf dto party) (new_pa_from_dto dto party)
unfolding new_pa_from_dto parse_currency new_payment_account
built_account_OkWith dto party = ground (arith, built_party_OkWith party)

module _ (L : Libs) where
  open L use {Decimal}

  pub tx_IsBuiltFrom :
      (uuid : String) (now later : ℕ) (req : PaymentRequest)
      → OkWith (IsBuiltFrom L uuid now later req) (new_payment_tx_from_dto L uuid now later req)
  unfolding new_payment_tx_from_dto parse_currency parse_end_to_end_identification gen_txid
  tx_IsBuiltFrom uuid now later req = grind (arith, built_account_OkWith)

  -- A transaction that `NewPaymentTXFromDTO` builds from a request satisfies every check of the value
  -- objects, on both of its accounts. Its currency, identification, type and amount, and the IBAN, the
  -- currency, the BIC, the role, the country and the name of each of its two accounts are those of the
  -- request, which has both accounts and both parties; its status is `pending`, its TXID the first 34
  -- bytes of the UUID, and its metadata has the two times of the clock.
  pub new_payment_tx_from_dto_sound :
      (uuid : String) (now later : ℕ) (req : PaymentRequest) (tx : PaymentTx Decimal)
      → new_payment_tx_from_dto L uuid now later req ≡ ok tx
      → IsValidTx tx × IsBuiltFrom L uuid now later req tx
  new_payment_tx_from_dto_sound uuid now later req tx h =
      let built = new_payment_tx_from_dto L uuid now later req in
      (
        OkWith-eq-ok IsValidTx built (tx_OkWith L uuid now later req) h,
        OkWith-eq-ok (IsBuiltFrom L uuid now later req) built (tx_IsBuiltFrom uuid now later req) h,
      )
