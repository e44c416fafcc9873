-- ===== src/Ports.antt =====
-- ports/inports and ports/outports: the data that crosses the ports. A pointer is an `Option`, and
-- `D` is the `Decimal` of github.com/shopspring/decimal.
use cbtraining.Base.{String, Option}

pub record PaymentPartyDto : Type 0 where
  pub bic : String
  pub role : String
  pub contry_of_residence : String
  pub name : String

pub record PaymentAccountDto : Type 0 where
  pub iban : String
  pub acc_curency : String

pub record PaymentRequest : Type 0 where
  pub amount : String
  pub currency : String
  pub end_to_end_identification : String
  pub transaction_type : String
  pub debtor : Option PaymentPartyDto
  pub debtor_pacc : Option PaymentAccountDto
  pub creditor : Option PaymentPartyDto
  pub creditor_pacc : Option PaymentAccountDto

pub record PaymentResult : Type 0 where
  pub txid : String
  pub result : String
  pub metadata : String

pub record TxConfirmation : Type 0 where
  pub txid : String
  pub status : String
  pub metadata : String

pub record PaymentInfo : Type 0 where
  pub txid : String
  pub status : String
  pub creditor_account : Option PaymentAccountDto
  pub debtor_account : Option PaymentAccountDto
  pub metadata : String

pub record PartyRecord : Type 0 where
  pub bic : String
  pub role : String
  pub contry_of_residence : String
  pub name : String

pub record PaRecord : Type 0 where
  pub iban : String
  pub acc_curency : String
  pub party : Option PartyRecord

pub record TxRecord : Type 0 where
  pub txid : String
  pub status : String
  pub amount : String
  pub currency : String
  pub end_to_end_identification : String
  pub transaction_type : String
  pub debtor_pacc : Option PaRecord
  pub creditor_pacc : Option PaRecord
  pub metadata : String

pub record TxRequest (D : Type 0) : Type 0 where
  pub txid : String
  pub status : String
  pub amount : D
  pub currency : String
  pub end_to_end_identification : String
  pub transaction_type : String
  pub debtor_iban : String
  pub creditor_iban : String
  pub metadata : String
