-- ===== src/Tests/Storing.antt =====
-- A request that is built, stored and recovered, and payments that are processed.
use cbtraining.Base.{String, ◌≡◌, refl, ◌≢◌, arith, [], ◌∷◌, ◌⊎◌, All}
use cbtraining.Errors.{metadata_not_valid, Result, ok, err, panic, external}
use cbtraining.ValObj.{
  completed, parse_currency, parse_end_to_end_identification, val_status, processing, val_role,
  parse_country_of_residence, new_metadata_now, new_metadata,
}
use cbtraining.Entity.{
  PaymentTx, new_payment_tx_from_dto, new_pa_from_dto, new_payment_party_from_dto,
  new_payment_account, new_payment_party, validate_bic, validate_iban, gen_txid,
  recover_payment_tx_from_rec, to_record, recover_pa_from_rec, recover_pp_from_rec,
}
use cbtraining.Entity.Validity.{IsValidTx, IsBuiltFrom, new_payment_tx_from_dto_sound}
use cbtraining.Entity.Recovery.{recover_payment_tx_from_rec-to_record}
use cbtraining.Postgres.{AccountRow, Tables, no_rows}
use cbtraining.Postgres.Sql.{find_by}
use cbtraining.Postgres.Repo.{
  insert_tx, process_tx, persist_process_result, join_all, sort_pending, join_txid, join,
  account_of, party_of, party_record, tx_record,
}
use cbtraining.Postgres.Registry.{Keeps, insert_tx-Keeps}
use cbtraining.Postgres.Process.{Handed, process_tx_atomic}
use cbtraining.Postgres.Stored.{Updated, history_of, persist_process_result-Updated}
use cbtraining.Manager.{World, payment_cmd}
use cbtraining.Manager.Laws.{Refused, Dispatched, payment_cmd-cases, loaded}
use cbtraining.Tests.{
  sample_libs, sample_server, sample_request, sample_uuid, sample_metadata, first_tx, never,
  sample_tables, sample_tx_request,
}

built : new_payment_tx_from_dto sample_libs sample_uuid 1 2 sample_request ≡ ok first_tx
unfolding new_payment_tx_from_dto new_pa_from_dto new_payment_party_from_dto new_payment_account
    new_payment_party validate_bic validate_iban gen_txid parse_currency
    parse_end_to_end_identification parse_country_of_residence val_role new_metadata_now
built = refl

new_payment_tx_from_dto_sound_example :
    IsValidTx first_tx × IsBuiltFrom sample_libs sample_uuid 1 2 sample_request first_tx
new_payment_tx_from_dto_sound_example =
    new_payment_tx_from_dto_sound sample_libs sample_uuid 1 2 sample_request first_tx built

first_valid : IsValidTx first_tx
first_valid =
    (new_payment_tx_from_dto_sound sample_libs sample_uuid 1 2 sample_request first_tx built).0

recover_payment_tx_from_rec-to_record_example :
    (recover_payment_tx_from_rec sample_libs
        (to_record sample_libs (record first_tx { status = completed }))
      ≡ err metadata_not_valid)
    × (recover_payment_tx_from_rec sample_libs
          (record (to_record sample_libs (record first_tx { status = completed })) {
            metadata = "{}";
          })
        ≡ ok (record first_tx { status = processing }))
recover_payment_tx_from_rec-to_record_example =
    recover_payment_tx_from_rec-to_record sample_libs (record first_tx { status = completed }) "{}"
      sample_metadata
      (record {
        code = first_valid.code;
        end_to_end = first_valid.end_to_end;
        debtor = first_valid.debtor;
        creditor = first_valid.creditor;
      })
      refl refl (omega arith) refl

process_tx_atomic_example :
    (process_tx sample_server sample_libs never 3 sample_tx_request sample_tables
      ≡ (err external, sample_tables))
    ⊎ (((process_tx sample_server sample_libs never 3 sample_tx_request sample_tables).0 ≡ ok tt)
        × Handed sample_server sample_libs 3 sample_tx_request sample_tables
            (process_tx sample_server sample_libs never 3 sample_tx_request sample_tables).1)
process_tx_atomic_example =
    process_tx_atomic sample_server sample_libs never 3 sample_tx_request sample_tables

abbrev answered : Result (Unit {0}) × Tables
answered = persist_process_result sample_server never 5 "t1" "completed" sample_tables

persist_process_result-Updated_example :
    ((answered.0 ≡ ok tt)
      × Updated sample_server "t1" "completed" 5 sample_tables.tx_history answered.1.tx_history
      × ((j : String)
          → j ≢ "t1"
          → history_of j answered.1.tx_history ≡ history_of j sample_tables.tx_history))
    ⊎ ((answered.0 ≡ err external) × (answered.1.tx_history ≡ sample_tables.tx_history))
persist_process_result-Updated_example =
    persist_process_result-Updated sample_server never 5 "t1" "completed" sample_tables

abbrev pub world : World String
world = record {
  lost = never;
  uuid = sample_uuid;
  now = 1;
  later = 2;
  insert_time = 3;
  touch_time = 4;
  add = λ tx. ok tt;
}

payment_cmd-cases_example :
    (Refused sample_server sample_libs no_rows
      (payment_cmd sample_server sample_libs world sample_request no_rows))
    ⊎ ((tx : PaymentTx String) × Dispatched sample_server sample_libs world no_rows tx
          (payment_cmd sample_server sample_libs world sample_request no_rows))
payment_cmd-cases_example = payment_cmd-cases sample_server sample_libs world sample_request no_rows

abbrev pub sample_account_row : String → AccountRow
sample_account_row iban = record { iban = iban; account_currency = "EUR"; party_bic = "DEUTDEFF" }

-- The same payment with its accounts and its party.
abbrev pub stored_tables : Tables
stored_tables = record sample_tables {
  party_registry =
      record { bic = "DEUTDEFF"; role = "debtor"; country_of_residence = "DE"; name = "A" } ∷ [];
  pa_registry = sample_account_row "DE00000000000001" ∷ sample_account_row "DE00000000000002" ∷ [];
}

pub stored_can_be_read :
    All
      (λ r. recover_payment_tx_from_rec sample_libs r ≢ panic)
      (loaded sample_server sample_libs stored_tables)
unfolding recover_payment_tx_from_rec join_all sort_pending join_txid join account_of party_of
    party_record tx_record find_by recover_pa_from_rec recover_pp_from_rec val_status val_role
    parse_currency parse_end_to_end_identification parse_country_of_residence new_metadata
    new_payment_account new_payment_party validate_bic validate_iban
stored_can_be_read = (λ e. ground arith, tt)

insert_tx-Keeps_example :
    Keeps stored_tables
      (insert_tx sample_server never 3 (to_record sample_libs first_tx) stored_tables).1
insert_tx-Keeps_example =
    insert_tx-Keeps sample_server never 3 (to_record sample_libs first_tx) stored_tables
