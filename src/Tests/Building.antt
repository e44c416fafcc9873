-- ===== src/Tests/Building.antt =====
-- Builders of payments on one fixed sequence of random numbers, and one message through the stub.
use cbtraining.Base.{Bool, String, ◌≡◌, refl, arith, Option, some, []}
use cbtraining.Errors.{ok}
use cbtraining.Ports.{PaymentResult}
use cbtraining.Entity.{PaymentTx, new_payment_tx_from_dto}
use cbtraining.Postgres.Sql.{find_by}
use cbtraining.Postgres.Stored.{history_of}
use cbtraining.Outbox.{Message}
use cbtraining.Consumer.{Round, message, commit, handle}
use cbtraining.Builders.{build}
use cbtraining.Builders.Random.{Source}
use cbtraining.Builders.Laws.{IsBetween, builder_between, build_accepted}
use cbtraining.Stub.{Settings, Attempt, Incoming, Done, result_of, process}
use cbtraining.Stub.Laws.{IsFinal, reply_stored}
use cbtraining.Tests.{sample_libs, sample_server, sample_uuid, sample_tables, sample_history, never}

abbrev counting_source : Source
counting_source = record { number = λ k. k; uuid = λ k. sample_uuid; clock = λ k. k }

build_accepted_example :
    (tx : PaymentTx String) × (new_payment_tx_from_dto sample_libs sample_uuid 1 2 (
        build (builder_between sample_libs counting_source 7 "DE00000000000001" "DE00000000000002"))
      ≡ ok tx)
    × IsBetween sample_libs "DE00000000000001" "DE00000000000002" tx
build_accepted_example =
    build_accepted sample_libs counting_source 7 "DE00000000000001" "DE00000000000002" sample_uuid 1
      2 "300.00" (omega arith, omega arith) (omega arith, omega arith) refl (omega arith)

abbrev pub sample_settings : Settings
sample_settings = record {
  topic_resp = "payment.processing.response";
  delay_min = 2;
  delay_max = 7;
}

abbrev pub sample_attempt : Attempt
sample_attempt = record { number = 9; fails = Bool.false; writes = Bool.true; commits = Bool.true }

abbrev sample_incoming : Incoming
sample_incoming = record { key = "t1"; value = "t1" }

abbrev pub write_txid : PaymentResult → String
write_txid pr = pr.txid

abbrev pub read_completed : String → Option PaymentResult
read_completed s = some (record { txid = s; result = "completed"; metadata = "" })

abbrev pub sample_round : Round
sample_round = record { fetched = message 4 "t1"; lost = never; now = 9; commits = Bool.true }

reply_stored_example :
    (d : Done) × (reply : Message) × (process
        (λ s. some s)
        write_txid
        sample_settings
        sample_attempt
        sample_incoming
      ≡ ok d)
    × (d.reply ≡ some reply)
    × (let after =
          handle sample_server sample_libs read_completed sample_round 4
            (read_completed reply.value)
            sample_tables
            [] in
        (after.1 ≡ commit sample_server sample_libs read_completed Bool.true 4 [])
        × (st : String) × IsFinal st
        × (history_of "t1" after.0.tx_history
            ≡ some (record sample_history { status = st; updated_at = 9 })))
unfolding result_of find_by
reply_stored_example =
    reply_stored (λ s. some s) write_txid sample_server sample_libs read_completed sample_settings
      sample_attempt sample_incoming "t1" sample_round 4 sample_tables [] sample_history refl
      (omega arith) refl refl (λ st f. refl) refl refl
