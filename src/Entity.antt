-- ===== src/Entity.antt =====
-- core/entity: parties, accounts and payment transactions, built from requests and from records.
pub mod Validity
pub mod Recovery
use cbtraining.Base.{
  ℕ, String, len, slice, Option, some, Bool, not, ◌&&◌, ◌||◌, ltb, ◌==◌, if◌then◌else◌,
}
use cbtraining.Errors.{
  Result, ok, panic, ◌>>=◌, ◌>>◌, fail_if, or_fail, deref, iban_invalid_length, bic_invalid_length,
  external,
}
use cbtraining.ValObj.{
  Role, role_string, val_role, Metadata, new_metadata, new_metadata_now, Status, pending,
  status_string, val_status, Currency, parse_currency, EndToEndIdentification,
  parse_end_to_end_identification, CountryOfResidence, parse_country_of_residence,
}
use cbtraining.Ports.{
  PaymentPartyDto, PaymentAccountDto, PaymentRequest, PartyRecord, PaRecord, TxRecord, TxRequest,
}

-- What is called of decimal and of encoding/json.
pub record Libs : Type 1 where
  pub Decimal : Type 0
  pub new_from_string : String → Option Decimal
  pub decimal_string : Decimal → String
  pub unmarshal_metadata : String → Option Metadata
  pub marshal_metadata : Metadata → String
  pub marshal_times : ℕ → ℕ → String  -- the map that `GetTXByID` builds of two times
  pub marshal_request : TxRequest Decimal → String  -- the map that `ProcessTX` builds
  pub payload_txid : String → Option String  -- the field `txid` of a payload

pub record PaymentParty : Type 0 where
  pub bic : String
  pub role : Role
  pub contry_of_residence : CountryOfResidence
  pub name : String

unfoldable pub validate_bic : String → Result (Unit {0})
validate_bic bic = fail_if (not (len bic == 8) && not (len bic == 11)) bic_invalid_length

unfoldable pub new_payment_party : String → Role → CountryOfResidence → String → Result PaymentParty
unfolding validate_bic
new_payment_party bic role cor name = do
  validate_bic bic
  ok (record { bic = bic; role = role; contry_of_residence = cor; name = name })

unfoldable pub new_payment_party_from_dto : PaymentPartyDto → Result PaymentParty
unfolding new_payment_party
new_payment_party_from_dto dto = do
  cor ← parse_country_of_residence dto.contry_of_residence
  role ← val_role dto.role
  new_payment_party dto.bic role cor dto.name

unfoldable pub to_party_record : PaymentParty → PartyRecord
to_party_record pp = record {
  bic = pp.bic;
  role = role_string pp.role;
  contry_of_residence = pp.contry_of_residence.country_code;
  name = pp.name;
}

unfoldable pub recover_pp_from_rec : PartyRecord → Result PaymentParty
unfolding new_payment_party
recover_pp_from_rec ppr = do
  cor ← parse_country_of_residence ppr.contry_of_residence
  role ← val_role ppr.role
  new_payment_party ppr.bic role cor ppr.name

pub record PaymentAccount : Type 0 where
  pub iban : String
  pub acc_curency : Currency
  pub payment_party : PaymentParty

unfoldable pub validate_iban : String → Result (Unit {0})
validate_iban iban = fail_if (ltb (len iban) 15 || ltb 34 (len iban)) iban_invalid_length

unfoldable pub new_payment_account : String → Currency → PaymentParty → Result PaymentAccount
unfolding validate_iban
new_payment_account iban currency pp = do
  validate_iban iban
  ok (record { iban = iban; acc_curency = currency; payment_party = pp })

unfoldable pub new_pa_from_dto : PaymentAccountDto → PaymentPartyDto → Result PaymentAccount
unfolding new_payment_account
new_pa_from_dto pa pp_dto = do
  cur ← parse_currency pa.acc_curency
  pp ← new_payment_party_from_dto pp_dto
  new_payment_account pa.iban cur pp

unfoldable pub recover_pa_from_rec : PaRecord → PartyRecord → Result PaymentAccount
unfolding new_payment_account
recover_pa_from_rec pa pp_rec = do
  cur ← parse_currency pa.acc_curency
  pp ← recover_pp_from_rec pp_rec
  new_payment_account pa.iban cur pp

unfoldable pub to_pa_record : PaymentAccount → PaRecord
unfolding to_party_record
to_pa_record pa = record {
  iban = pa.iban;
  acc_curency = pa.acc_curency.currency;
  party = some (to_party_record pa.payment_party);
}

pub record PaymentTx (D : Type 0) : Type 0 where
  pub txid : String
  pub status : Status
  pub amount : D
  pub currency : Currency
  pub end_to_end_identification : EndToEndIdentification
  pub transaction_type : String
  pub debtor_pacc : PaymentAccount
  pub creditor_pacc : PaymentAccount
  pub metadata : Metadata

-- `uuid` is the text of a random UUID.
unfoldable pub gen_txid : String → Result String
gen_txid uuid = if ltb (len uuid) 34 then panic else ok (slice uuid 0 34)

unfoldable pub cred_iban : {D : Type 0} → PaymentTx D → String
cred_iban tx = tx.creditor_pacc.iban

unfoldable pub deb_iban : {D : Type 0} → PaymentTx D → String
deb_iban tx = tx.debtor_pacc.iban

module _ (L : Libs) where
  open L use {Decimal, new_from_string, decimal_string, unmarshal_metadata}

  unfoldable pub new_payment_tx_from_dto :
      String → ℕ → ℕ → PaymentRequest → Result (PaymentTx Decimal)
  unfolding new_metadata_now
  new_payment_tx_from_dto uuid now later req = do
    am ← or_fail (new_from_string req.amount) external
    cur ← parse_currency req.currency
    ete_id ← parse_end_to_end_identification req.end_to_end_identification
    cred_pacc ← deref req.creditor_pacc
    cred ← deref req.creditor
    cred_pa ← new_pa_from_dto cred_pacc cred
    deb_pacc ← deref req.debtor_pacc
    deb ← deref req.debtor
    deb_pa ← new_pa_from_dto deb_pacc deb
    txid ← gen_txid uuid
    ok (record {
      txid = txid;
      status = pending;
      amount = am;
      currency = cur;
      end_to_end_identification = ete_id;
      transaction_type = req.transaction_type;
      debtor_pacc = deb_pa;
      creditor_pacc = cred_pa;
      metadata = new_metadata_now now later;
    })

  unfoldable pub recover_payment_tx_from_rec : TxRecord → Result (PaymentTx Decimal)
  recover_payment_tx_from_rec rec = do
    st ← val_status rec.status
    am ← or_fail (new_from_string rec.amount) external
    cur ← parse_currency rec.currency
    ete_id ← parse_end_to_end_identification rec.end_to_end_identification
    cred_pacc ← deref rec.creditor_pacc
    cred ← deref cred_pacc.party
    cred_pa ← recover_pa_from_rec cred_pacc cred
    deb_pacc ← deref rec.debtor_pacc
    deb ← deref deb_pacc.party
    deb_pa ← recover_pa_from_rec deb_pacc deb
    md ← new_metadata unmarshal_metadata rec.metadata
    ok (record {
      txid = rec.txid;
      status = st;
      amount = am;
      currency = cur;
      end_to_end_identification = ete_id;
      transaction_type = rec.transaction_type;
      debtor_pacc = deb_pa;
      creditor_pacc = cred_pa;
      metadata = md;
    })

  -- The metadata stays empty.
  unfoldable pub to_record : PaymentTx Decimal → TxRecord
  unfolding to_pa_record
  to_record tx = record {
    txid = tx.txid;
    status = status_string tx.status;
    amount = decimal_string tx.amount;
    currency = tx.currency.currency;
    end_to_end_identification = tx.end_to_end_identification.identification;
    transaction_type = tx.transaction_type;
    debtor_pacc = some (to_pa_record tx.debtor_pacc);
    creditor_pacc = some (to_pa_record tx.creditor_pacc);
    metadata = "";
  }

-- Here too the metadata stays empty.
unfoldable pub to_tx_request : {D : Type 0} → PaymentTx D → TxRequest D
to_tx_request tx = record {
  txid = tx.txid;
  status = status_string tx.status;
  amount = tx.amount;
  currency = tx.currency.currency;
  end_to_end_identification = tx.end_to_end_identification.identification;
  transaction_type = tx.transaction_type;
  debtor_iban = tx.debtor_pacc.iban;
  creditor_iban = tx.creditor_pacc.iban;
  metadata = "";
}
