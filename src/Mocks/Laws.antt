-- ===== src/Mocks/Laws.antt =====
-- The store and the logger of core/testhelpers/mocks.go, as a map and as a count.
use cbtraining.Base.{
  ℕ, ◌+◌, String, ◌≡◌, ◌≢◌, arith, List, [], ◌∷◌, none, some, str_eq, eq_iff, eq_refl, Bool-cases,
  inl, inr,
}
use cbtraining.Errors.{external}
use cbtraining.Ports.{TxRecord}
use cbtraining.Mocks.{
  MockPaymentRepo, put, payment_at, mock_insert_tx, mock_get_tx_by_id, mock_persist_process_result,
  LogEntry, Level, log_at, get_error_count, is_error,
}

-- What is put is there, and nothing else changes.
payment_at-put :
    (k j : String) (tx : TxRecord) (m : List (String × TxRecord))
    → (payment_at k (put k tx m) ≡ some tx) × ((j ≢ k) → payment_at j (put k tx m) ≡ payment_at j m)
unfolding payment_at put
payment_at-put k j tx [] = (ground (arith, eq_refl k), λ d. ground (arith, eq_iff k j))
payment_at-put k j tx ((i, old) ∷ rest) =
    let (there, others) = payment_at-put k j tx rest in
    elim (Bool-cases (str_eq i k)) [
      | inl e ↦ (ground (arith, eq_refl k), λ d. ground (arith, eq_iff i k, eq_iff k j, eq_iff i j))
      | inr e ↦ (ground (arith, there), λ d. ground (arith, others d))
    ]

-- A store that is set to no error returns a payment that was inserted and persisted, with the result as
-- its status, together with an error.
pub mock_persist_process_result-there :
    (tx : TxRecord) (result : String) (m : MockPaymentRepo)
    → m.insert_err ≡ none
    → m.query_err ≡ none
    → mock_get_tx_by_id tx.txid
        (mock_persist_process_result tx.txid result (mock_insert_tx tx m).1).1
      ≡ (some (record tx { status = result }), some external)
unfolding mock_insert_tx mock_get_tx_by_id mock_persist_process_result
mock_persist_process_result-there tx result m i q =
    let one : List (String × TxRecord) = put tx.txid tx m.payments in
    let tx' : TxRecord = record tx { status = result } in
    let there : payment_at tx.txid one ≡ some tx = (payment_at-put tx.txid "" tx m.payments).0 in
    let again : payment_at tx.txid (put tx.txid tx' one) ≡ some tx' =
      (payment_at-put tx.txid "" tx' one).0 in
    ground (arith, there, again)

-- `GetErrorCount` counts the calls of `Error`.
pub get_error_count-log_at :
    (level : Level) (now : ℕ) (msg : String) (entries : List LogEntry)
    → get_error_count (log_at level now msg entries) ≡ get_error_count entries + is_error level
unfolding get_error_count log_at is_error
get_error_count-log_at level now msg [] = ground arith
get_error_count-log_at level now msg (e ∷ rest) =
    ground (arith, get_error_count-log_at level now msg rest)
