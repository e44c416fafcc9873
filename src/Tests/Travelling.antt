-- ===== src/Tests/Travelling.antt =====
-- The way of the first payment.
use cbtraining.Ports.{PaymentInfo, TxRecord}
use cbtraining.Errors.{infrastructure, payment_not_found, Result, ok, err, external}
use cbtraining.Postgres.{HistoryRow, Tables, PendingRow, no_rows}
use cbtraining.Postgres.Stored.{history_of}
use cbtraining.Manager.{get_payment_info, payment_cmd, submit, hand_over, confirm}
use cbtraining.Manager.Info.{Told, get_payment_info-Told}
use cbtraining.Postgres.Consistent.{no_rows-Consistent}
use cbtraining.Postgres.Loaded.{AllShown, IsOldestFirst, load_pending_payments-AllShown}
use cbtraining.Journey.Tracked.{Tracked, after_calls-Tracked, handed_over_once}
use cbtraining.Journey.Constraints.{
  Call, inserts, processes, persists, marks, after_calls, after_calls-Consistent,
}
use cbtraining.Base.{none, false, true, ℕ, sum, ◌⊎◌, String, List, [], ◌∷◌, some, ◌≡◌, refl, arith}
use cbtraining.Postgres.Repo.{
  load_pending_payments, insert_tx, insert_tx_body, process_tx, process_tx_body,
}
use cbtraining.Entity.{
  to_record, to_pa_record, to_party_record, to_tx_request, new_payment_tx_from_dto, new_pa_from_dto,
  new_payment_party_from_dto, new_payment_account, new_payment_party, validate_bic, validate_iban,
  gen_txid,
}
use cbtraining.ValObj.{
  parse_currency, parse_end_to_end_identification, parse_country_of_residence, val_role,
  new_metadata_now,
}
use cbtraining.Postgres.Sql.{
  find_by, insert_party, insert_account, add_account, insert_history, insert_pending, is_known,
  is_role, is_status, cast_history, update_status, update_rows, set_status, insert_outbox,
  delete_pending, delete_by,
}
use cbtraining.Outbox.{unsent_rows, is_unsent}
use cbtraining.Outbox.Run.{run_worker}
use cbtraining.Stub.{result_of}
use cbtraining.Journey.Handed.{Documented}
use cbtraining.Journey.Answered.{Answered, confirmed-Answered}
use cbtraining.Tests.{sample_server, sample_libs, sample_request, first_tx, never}
use cbtraining.Tests.Serving.{world, first_confirmation, first_confirmed, one_tick, tick-IsHealthy}
use cbtraining.Tests.Building.{
  sample_settings, sample_attempt, write_txid, read_completed, sample_round,
}

abbrev stored : Tables
stored = (payment_cmd sample_server sample_libs world sample_request no_rows).stored

abbrev handed : Result (Unit {0}) × Tables
handed = process_tx sample_server sample_libs never 5 (to_tx_request first_tx) stored

first_added :
    (payment_cmd sample_server sample_libs world sample_request no_rows).added ≡ first_tx ∷ []
unfolding payment_cmd submit hand_over confirm insert_tx insert_tx_body insert_party insert_account
    add_account insert_history insert_pending is_known find_by is_role is_status to_record
    to_pa_record to_party_record new_payment_tx_from_dto new_pa_from_dto new_payment_party_from_dto
    new_payment_account new_payment_party validate_bic validate_iban gen_txid parse_currency
    parse_end_to_end_identification parse_country_of_residence val_role new_metadata_now
    cast_history
first_added = refl

sample-Documented : Documented sample_server sample_libs (λ s. some s) write_txid read_completed
sample-Documented = record {
  txid_kept = λ s. λ v. λ e. ground arith;
  status_kept = λ st. λ f. refl;
  request_read = λ p. λ v. λ e. (ground arith, ground arith);
}

confirmed-Answered_example :
    let sent = run_worker sample_server sample_libs 10 one_tick handed.1 in
    Answered sample_server sample_libs
      (λ s. some s)
      write_txid
      read_completed
      sample-Documented
      first_confirmation.txid
      stored
      sent.0
      sent.1
      sample_settings
      sample_attempt
      sample_round
      4
      []
      never
unfolding payment_cmd submit hand_over confirm insert_tx insert_tx_body insert_party insert_account
    add_account insert_history insert_pending is_known find_by is_role is_status to_record
    to_pa_record to_party_record new_payment_tx_from_dto new_pa_from_dto new_payment_party_from_dto
    new_payment_account new_payment_party validate_bic validate_iban gen_txid parse_currency
    parse_end_to_end_identification parse_country_of_residence val_role new_metadata_now
    cast_history to_tx_request process_tx process_tx_body update_status update_rows set_status
    insert_outbox delete_pending delete_by unsent_rows is_unsent result_of
confirmed-Answered_example =
    confirmed-Answered sample_server sample_libs (λ s. some s) write_txid read_completed
      sample-Documented world sample_request no_rows first_confirmation first_tx never never 5 10
      one_tick sample_settings sample_attempt sample_round 4 [] no_rows-Consistent first_confirmed
      first_added refl (tick-IsHealthy, tt) tt (omega arith) (omega arith) refl refl refl refl

-- A payment is stored, handed over, published and marked; then comes its result.
abbrev first_calls : List (Call String)
first_calls =
    inserts never 3 (to_record sample_libs first_tx)
    ∷ processes never 5 (to_tx_request first_tx)
    ∷ marks never 6 (first_tx.txid ∷ [])
    ∷ persists never 7 first_tx.txid "completed"
    ∷ []

after_calls-Tracked_example : Tracked (after_calls sample_server sample_libs first_calls no_rows)
after_calls-Tracked_example =
    after_calls-Tracked sample_server sample_libs (λ s. λ v. λ e. ground arith) first_calls no_rows
      tt

-- The first payment is published and marked, and gets its result.
abbrev later_calls : List (Call String)
later_calls = marks never 6 (first_tx.txid ∷ []) ∷ persists never 7 first_tx.txid "completed" ∷ []

first_handed : handed.0 ≡ ok tt
unfolding payment_cmd submit hand_over confirm insert_tx insert_tx_body insert_party insert_account
    add_account insert_history insert_pending is_known find_by is_role is_status to_record
    to_pa_record to_party_record new_payment_tx_from_dto new_pa_from_dto new_payment_party_from_dto
    new_payment_account new_payment_party validate_bic validate_iban gen_txid parse_currency
    parse_end_to_end_identification parse_country_of_residence val_role new_metadata_now
    cast_history to_tx_request process_tx process_tx_body update_status update_rows set_status
    insert_outbox delete_pending delete_by
first_handed = refl

handed_over_once_example :
    let u = after_calls sample_server sample_libs later_calls handed.1 in
    process_tx sample_server sample_libs never 8 (to_tx_request first_tx) u ≡ (err external, u)
handed_over_once_example =
    handed_over_once sample_server sample_libs never never 5 8 (to_tx_request first_tx) stored
      later_calls first_handed

abbrev one_waits : Tables
one_waits =
    after_calls sample_server sample_libs (inserts never 3 (to_record sample_libs first_tx) ∷ [])
      no_rows

load_pending_payments-AllShown_example :
    (load_pending_payments sample_server never one_waits ≡ err external × never 0 ≡ true)
    ⊎ ((rows : List PendingRow) × (records : List TxRecord) × (load_pending_payments sample_server
            never one_waits
          ≡ ok records)
        × AllShown one_waits rows records
        × IsOldestFirst rows
        × ((w : PendingRow → ℕ) → sum w rows ≡ sum w one_waits.pending))
load_pending_payments-AllShown_example =
    load_pending_payments-AllShown sample_server never one_waits (
      after_calls-Consistent sample_server sample_libs
        (inserts never 3 (to_record sample_libs first_tx) ∷ []) no_rows no_rows-Consistent)

abbrev asked : Result PaymentInfo
asked = get_payment_info sample_libs never first_tx.txid one_waits

get_payment_info-Told_example :
    ((never 0 ≡ true) × (asked ≡ err infrastructure))
    ⊎ (((never 0 ≡ false)
          × (history_of first_tx.txid one_waits.tx_history ≡ none)
          × (asked ≡ err payment_not_found))
        ⊎ ((row : HistoryRow) × (i : PaymentInfo) × (history_of first_tx.txid one_waits.tx_history
              ≡ some row)
            × (asked ≡ ok i)
            × Told sample_libs row i))
get_payment_info-Told_example = get_payment_info-Told sample_libs never first_tx.txid one_waits (
    after_calls-Consistent sample_server sample_libs
      (inserts never 3 (to_record sample_libs first_tx) ∷ []) no_rows no_rows-Consistent)
