-- ===== src/Mocks.antt =====
-- core/testhelpers/mocks.go: the processor, the stores and the logger of the tests. Every method runs under
-- the mutex of its mock.
pub mod Laws
use cbtraining.Base.{
  ℕ, ◌+◌, zero, String, List, [], ◌∷◌, ◌++◌, Option, none, some, Bool, true, false, str_eq,
  if◌then◌else◌, length,
}
use cbtraining.Errors.{Result, ok, err, Error, external}
use cbtraining.Ports.{TxRecord, TxRequest}
use cbtraining.Checks.{ProcessRecord}

-- `ProcessTX` of the processor starts at `start` and is over at `stop`. The duration and the status of a
-- record are not kept.
unfoldable pub process_record : {D : Type 0} → ℕ → ℕ → TxRequest D → ProcessRecord
process_record start stop req = record {
  ete = req.end_to_end_identification;
  start_time = start;
  end_time = stop;
  debtor_iban = req.debtor_iban;
  creditor_iban = req.creditor_iban;
}

-- `cut` says that the context is done before the delay is over.
unfoldable pub mock_process_tx :
    {D : Type 0}
    → Bool
    → ℕ
    → ℕ
    → TxRequest D
    → List ProcessRecord
    → Result (Unit {0}) × List ProcessRecord
unfolding process_record
mock_process_tx true start stop req processed = (err external, processed)
mock_process_tx false start stop req processed =
    (ok tt, processed ++ process_record start stop req ∷ [])

abbrev pub get_processed_count : List ProcessRecord → ℕ
get_processed_count processed = length processed

-- The errors that the store is set to return, and the map of the payments.
pub record MockPaymentRepo : Type 0 where
  pub payments : List (String × TxRecord)
  pub insert_err : Option Error
  pub query_err : Option Error

abbrev pub new_mock_payment_repo : MockPaymentRepo
new_mock_payment_repo = record { payments = []; insert_err = none; query_err = none }

-- `payments[k] = tx`
unfoldable pub put : String → TxRecord → List (String × TxRecord) → List (String × TxRecord)
put k tx [] = (k, tx) ∷ []
put k tx ((j, old) ∷ rest) =
    let more = put k tx rest in if str_eq j k then (k, tx) ∷ rest else (j, old) ∷ more

unfoldable pub payment_at : String → List (String × TxRecord) → Option TxRecord
payment_at k [] = none
payment_at k ((j, tx) ∷ rest) = if str_eq j k then some tx else payment_at k rest

unfoldable pub mock_insert_tx : TxRecord → MockPaymentRepo → Result (Unit {0}) × MockPaymentRepo
mock_insert_tx tx m = elim m.insert_err [
  | some e ↦ (err e, m)
  | none ↦ (ok tt, record m { payments = put tx.txid tx m.payments })
]

-- The record and the error: a record that is found comes with one.
unfoldable pub mock_get_tx_by_id : String → MockPaymentRepo → Option TxRecord × Option Error
mock_get_tx_by_id txid m = elim m.query_err [
  | some e ↦ (none, some e)
  | none ↦ elim (payment_at txid m.payments) [
    | some tx ↦ (some tx, some external)
    | none ↦ (none, none)
  ]
]

unfoldable pub mock_persist_process_result :
    String → String → MockPaymentRepo → Result (Unit {0}) × MockPaymentRepo
mock_persist_process_result txid result m = elim m.insert_err [
  | some e ↦ (err e, m)
  | none ↦ elim (payment_at txid m.payments) [
    | none ↦ (err external, m)
    | some tx ↦ (ok tt, record m { payments = put txid (record tx { status = result }) m.payments })
  ]
]

unfoldable pub get_all_payments : List (String × TxRecord) → List TxRecord
get_all_payments [] = []
get_all_payments ((k, tx) ∷ rest) = tx ∷ get_all_payments rest

-- `LoadPendingPayments` of the store of pending payments.
abbrev pub mock_load_pending_payments : Result (List TxRecord)
mock_load_pending_payments = ok []

pub data Level : Type 0 where
  info error warn debug : Level

-- The fields of an entry are of zap.
pub record LogEntry : Type 0 where
  pub level : Level
  pub message : String
  pub timestamp : ℕ

unfoldable pub log_at : Level → ℕ → String → List LogEntry → List LogEntry
log_at level now msg entries =
    entries ++ record { level = level; message = msg; timestamp = now } ∷ []

unfoldable pub is_error : Level → ℕ
is_error error = 1
is_error _ = 0

unfoldable pub get_error_count : List LogEntry → ℕ
unfolding is_error
get_error_count [] = zero
get_error_count (e ∷ rest) = is_error e.level + get_error_count rest
