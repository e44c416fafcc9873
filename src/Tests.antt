-- ===== src/Tests.antt =====
-- Concrete requests, libraries and servers, and the theorems applied to them.
pub mod Dispatching
pub mod Merging
pub mod Storing
pub mod Serving
pub mod Checking
pub mod Building
pub mod Trials
pub mod Starting
pub mod Travelling
use cbtraining.Base.{
  if◌then◌else◌, str_eq, ℕ, zero, String, Option, none, some, Bool, true, false, List, [], ◌∷◌,
}
use cbtraining.ValObj.{Metadata, debtor, creditor, Status, processing}
use cbtraining.Ports.{PaymentPartyDto, PaymentAccountDto, PaymentRequest, TxRequest}
use cbtraining.Entity.{Libs, PaymentTx}
use cbtraining.Postgres.{Server, Tables, HistoryRow, OutboxRow, PendingRow, no_rows}

abbrev pub sample_metadata : Metadata
sample_metadata = record { created_at = 1; updated_at = 2 }

-- A decimal that is its text, and metadata that are always the same.
abbrev pub sample_libs : Libs
sample_libs = record {
  Decimal = String;
  new_from_string = λ s. some s;
  decimal_string = λ d. d;
  unmarshal_metadata = λ s. if str_eq s "" then none else some sample_metadata;
  marshal_metadata = λ m. "{}";
  marshal_times = λ a b. "{}";
  marshal_request = λ p. p.txid;
  payload_txid = λ s. some s;
}

-- A server that stores every value as it is.
abbrev pub sample_server : Server
sample_server = record { cast = λ c s. some s; stamp = λ at. at; json_times = λ a b. "{}" }

abbrev pub sample_uuid : String
sample_uuid = "123e4567-e89b-12d3-a456-426614174000"

abbrev pub sample_party : String → PaymentPartyDto
sample_party role = record { bic = "DEUTDEFF"; role = role; contry_of_residence = "DE"; name = "A" }

abbrev pub sample_account : String → PaymentAccountDto
sample_account iban = record { iban = iban; acc_curency = "EUR" }

abbrev pub sample_request : PaymentRequest
sample_request = record {
  amount = "10.50";
  currency = "EUR";
  end_to_end_identification = "E2E.1";
  transaction_type = "transfer";
  debtor = some (sample_party "debtor");
  debtor_pacc = some (sample_account "DE00000000000001");
  creditor = some (sample_party "creditor");
  creditor_pacc = some (sample_account "DE00000000000002");
}

-- A payment of one account to another.
abbrev pub sample_tx : String → String → PaymentTx String
sample_tx from to = record {
  txid = "123e4567-e89b-12d3-a456-4266141740";
  status = Status.pending;
  amount = "10.50";
  currency = record { currency = "EUR" };
  end_to_end_identification = record { identification = "E2E.1" };
  transaction_type = "transfer";
  debtor_pacc = record {
    iban = from;
    acc_curency = record { currency = "EUR" };
    payment_party = record {
      bic = "DEUTDEFF";
      role = debtor;
      contry_of_residence = record { country_code = "DE" };
      name = "A";
    };
  };
  creditor_pacc = record {
    iban = to;
    acc_curency = record { currency = "EUR" };
    payment_party = record {
      bic = "DEUTDEFF";
      role = creditor;
      contry_of_residence = record { country_code = "DE" };
      name = "A";
    };
  };
  metadata = sample_metadata;
}

abbrev pub first_tx : PaymentTx String
first_tx = sample_tx "DE00000000000001" "DE00000000000002"

abbrev pub sample_tx_request : TxRequest String
sample_tx_request = record {
  txid = "t1";
  status = "pending";
  amount = "10.50";
  currency = "EUR";
  end_to_end_identification = "E2E.1";
  transaction_type = "transfer";
  debtor_iban = "DE00000000000001";
  creditor_iban = "DE00000000000002";
  metadata = "";
}

abbrev pub never : ℕ → Bool
never n = false

abbrev pub sample_history : HistoryRow
sample_history = record {
  txid = "t1";
  status = "processing";
  amount = "10.50";
  currency = "EUR";
  end_to_end_id = "E2E.1";
  transaction_type = "transfer";
  debtor_account_id = "DE00000000000001";
  creditor_account_id = "DE00000000000002";
  created_at = 1;
  updated_at = 1;
}

abbrev pub sample_outbox : OutboxRow
sample_outbox = record {
  txid = "t2";
  topic = "payment.processing.request";
  payload = "t2";
  created_at = 1;
  sent_at = none;
}

abbrev pub sample_tables : Tables
sample_tables = record no_rows {
  tx_history = sample_history ∷ [];
  pending = record { txid = "t1"; created_at = 1 } ∷ [];
  outbox = sample_outbox ∷ [];
}
