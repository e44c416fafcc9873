-- ===== src/Tests/Serving.antt =====
-- Rounds of the outbox worker and of the consumer, the handlers, and an environment.
use mathlib.Core.List.{Memᴰ}
use cbtraining.Base.{
  String, ◌≡◌, refl, ◌≢◌, List, [], ◌∷◌, Option, some, none, ◌⊎◌, ◌↔◌, Bool, true, false, ℕ, All,
  arith,
}
use cbtraining.Errors.{Result, ok, panic}
use cbtraining.ValObj.{
  parse_currency, parse_end_to_end_identification, parse_country_of_residence, val_role,
  new_metadata_now,
}
use cbtraining.Ports.{TxConfirmation, PaymentRequest, PaymentResult}
use cbtraining.Entity.{
  PaymentTx, to_record, to_pa_record, to_party_record, new_payment_tx_from_dto, new_pa_from_dto,
  new_payment_party_from_dto, new_payment_account, new_payment_party, validate_bic, validate_iban,
  gen_txid,
}
use cbtraining.Postgres.{Tables, no_rows}
use cbtraining.Postgres.Sql.{
  find_by, insert_party, insert_account, add_account, insert_history, insert_pending, is_known,
  is_role, cast_history, update_status, update_rows, set_status, is_status,
}
use cbtraining.Postgres.Repo.{insert_tx, insert_tx_body, persist_process_result, persist}
use cbtraining.Manager.{World, submit, hand_over, confirm, payment_cmd, store_payment_result}
use cbtraining.Manager.Confirmed.{Accepted, payment_cmd-Accepted}
use cbtraining.Postgres.Insert.{Recorded, insert_tx-Recorded}
use cbtraining.Manager.Laws.{Dispatched}
use cbtraining.Outbox.{unsent_rows, is_unsent}
use cbtraining.Outbox.Producer.{KafkaMessage}
use cbtraining.Outbox.Run.{
  Alike, Tick, Signal, ticked, run_worker, by_txid, Delivered, Sent, run_worker-Sent,
}
use cbtraining.Outbox.Drain.{IsHealthy, IsReadable, run_worker_delivers}
use cbtraining.Http.{confirmation, respond, Response, create_payment}
use cbtraining.Http.Laws.{create_payment-codes}
use cbtraining.Consumer.{Round, message, run_consumer, next_round, handle, stored, commit}
use cbtraining.Consumer.Laws.{Kept, run_consumer-Kept}
use cbtraining.Config.{Environment, load, IsGiven, load-panic}
use cbtraining.Tests.{
  first_tx, sample_libs, sample_server, sample_request, sample_uuid, never, sample_tables,
  sample_outbox,
}

abbrev pub sends : KafkaMessage → Bool
sends m = true

abbrev pub unlocked : String → Bool
unlocked k = false

abbrev pub tick : Tick
tick = record { added = []; lost = never; locked = unlocked; now = 7; write = sends }

abbrev pub one_tick : List Signal
one_tick = ticked tick ∷ []

alike : Alike "t2" sample_outbox sample_outbox
alike = λ e. (refl, refl)

run_worker-Sent_example :
    Sent sample_server sample_libs 10 "t2" sample_outbox
      (run_worker sample_server sample_libs 10 one_tick sample_tables)
unfolding find_by
run_worker-Sent_example =
    run_worker-Sent sample_server sample_libs 10 one_tick sample_tables "t2" sample_outbox
      (alike, tt) (tt, tt) refl

pub tick-IsHealthy : IsHealthy sample_server sample_libs tick
tick-IsHealthy = record {
  quiet = refl;
  fetches = refl;
  marks = refl;
  unlocked_rows = refl;
  sends = λ m. refl;
}

sample_tables-IsReadable : All (IsReadable sample_server sample_libs) (Tables.outbox sample_tables)
sample_tables-IsReadable = (λ e. ground arith, tt)

run_worker_delivers_example :
    let after = run_worker sample_server sample_libs 10 one_tick sample_tables in
    (at : ℕ) × (find_by by_txid "t2" after.0.outbox
      ≡ some (record sample_outbox { sent_at = some at }))
    × Delivered sample_server sample_libs 10 "payment.processing.request" "t2" after.1
unfolding find_by unsent_rows is_unsent
run_worker_delivers_example =
    run_worker_delivers sample_server sample_libs 10 one_tick sample_tables "t2" sample_outbox
      (tick-IsHealthy, tt) sample_tables-IsReadable (alike, tt) (omega arith) refl refl

abbrev pub world : World String
world = record {
  lost = never;
  uuid = sample_uuid;
  now = 1;
  later = 2;
  insert_time = 3;
  touch_time = 4;
  add = λ tx. ok tt;
}

abbrev pub first_confirmation : TxConfirmation
first_confirmation = record {
  txid = "123e4567-e89b-12d3-a456-4266141740";
  status = "pending";
  metadata = "{}";
}

pub first_confirmed :
    (payment_cmd sample_server sample_libs world sample_request no_rows).answer
    ≡ ok first_confirmation
unfolding payment_cmd submit hand_over confirm insert_tx insert_tx_body insert_party insert_account
    add_account insert_history insert_pending is_known find_by is_role is_status to_record
    to_pa_record to_party_record new_payment_tx_from_dto new_pa_from_dto new_payment_party_from_dto
    new_payment_account new_payment_party validate_bic validate_iban gen_txid parse_currency
    parse_end_to_end_identification parse_country_of_residence val_role new_metadata_now
    cast_history
first_confirmed = refl

payment_cmd-Accepted_example :
    Accepted sample_server sample_libs world no_rows first_confirmation
      (payment_cmd sample_server sample_libs world sample_request no_rows)
payment_cmd-Accepted_example =
    payment_cmd-Accepted sample_server sample_libs world sample_request no_rows first_confirmation
      first_confirmed

abbrev inserted : Result (Unit {0}) × Tables
inserted = insert_tx sample_server never 3 (to_record sample_libs first_tx) no_rows

insert_tx-Recorded_example :
    ((inserted.0 ≡ ok tt)
      × Recorded sample_server (to_record sample_libs first_tx) no_rows inserted.1)
    ⊎ ((inserted.0 ≢ ok tt) × (inserted.1 ≡ no_rows))
insert_tx-Recorded_example =
    insert_tx-Recorded sample_server never 3 (to_record sample_libs first_tx) no_rows

abbrev created : Response
created = record {
  code = 201;
  body =
      confirmation (record {
        txid = "123e4567-e89b-12d3-a456-4266141740";
        status = "pending";
        metadata = "{}";
      });
}

created_first :
    (create_payment sample_server sample_libs world (some sample_request) no_rows).answer
    ≡ ok created
unfolding create_payment payment_cmd submit hand_over confirm insert_tx insert_tx_body insert_party
    insert_account add_account insert_history insert_pending is_known find_by is_role is_status
    to_record to_pa_record to_party_record new_payment_tx_from_dto new_pa_from_dto
    new_payment_party_from_dto new_payment_account new_payment_party validate_bic validate_iban
    gen_txid parse_currency parse_end_to_end_identification parse_country_of_residence val_role
    new_metadata_now cast_history respond
created_first = refl

create_payment-codes_example :
    (created.code ≡ 201
      → (req : PaymentRequest) × (tx : PaymentTx String) × (some sample_request ≡ some req)
        × Dispatched sample_server sample_libs world no_rows tx
            (payment_cmd sample_server sample_libs world req no_rows))
    × (created.code ≡ 400 → some sample_request ≡ none)
create_payment-codes_example =
    create_payment-codes sample_server sample_libs world (some sample_request) no_rows created
      created_first

-- A payload that is the TXID of a completed payment.
abbrev completes : String → Option PaymentResult
completes s = some (record { txid = s; result = "completed"; metadata = "" })

-- The result of a payment that is not there, and then one of a payment that is.
abbrev two_rounds : List Round
two_rounds =
    record { fetched = message 4 "t9"; lost = never; now = 7; commits = true }
    ∷ record { fetched = message 5 "t1"; lost = never; now = 8; commits = true }
    ∷ []

-- The offset after the one that was passed over is committed.
passes_over :
    (run_consumer sample_server sample_libs completes two_rounds sample_tables []).1 ≡ 5 ∷ []
unfolding run_consumer next_round handle stored commit store_payment_result persist_process_result
    persist update_status update_rows set_status is_status
passes_over = refl

run_consumer-Kept_example :
    Memᴰ 4 (run_consumer sample_server sample_libs completes two_rounds sample_tables []).1
    ↔ Kept sample_server sample_libs completes 4 two_rounds sample_tables []
run_consumer-Kept_example =
    run_consumer-Kept sample_server sample_libs completes two_rounds sample_tables 4

-- Every variable has the value "1".
abbrev environment : Environment
environment = record {
  lookup_env = λ key. some "1";
  atoi = λ s. none;
  parse_bool = λ s. none;
  parse_duration = λ s. none;
}

load-panic_example : (load environment ≢ panic) ↔ (
    IsGiven environment "DB_HOST"
    × IsGiven environment "DB_USER"
    × IsGiven environment "DB_PASS"
    × IsGiven environment "DB_NAME"
    × (IsGiven environment "SERVER_KAFKA_HOST" ⊎ IsGiven environment "KAFKA_HOST"))
load-panic_example = load-panic environment
