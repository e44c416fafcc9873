-- ===== src/Tests/Trials.antt =====
-- A run of the dispatcher with the processor of the tests: one worker and one payment, a step at a time.
use cbtraining.Base.{String, ◌==◌, if◌then◌else◌, false, List, String, ◌≡◌, refl, arith, [], ◌∷◌}
use cbtraining.Errors.{ok}
use cbtraining.Dispatcher.{
  Dispatcher, new_dispatcher, new_group, processing, calling, want_slot, has_slot, sending,
  counting, returned,
}
use cbtraining.Dispatcher.Add.{advance, enter, reenter, send, connect}
use cbtraining.Dispatcher.Worker.{first, handles, work, apply, nothing}
use cbtraining.Dispatcher.System.{called, added, worked}
use cbtraining.Dispatcher.Runs.{opened}
use cbtraining.Dispatcher.Routes.{meets}
use cbtraining.Tests.{first_tx}
use cbtraining.Entity.{cred_iban, to_tx_request, deb_iban}
use cbtraining.Trial.{Condition, Trial-map, IsCalm, Trial, starts, goes, entered, records_after}
use cbtraining.Trial.Safe.{checked_run_safe}
use cbtraining.Trial.Pressure.{PaysTo, pressure_safe}
use cbtraining.Mocks.{process_record, mock_process_tx}
use cbtraining.Checks.{last_with, ProcessRecord, build_conflict_graph, check_safety}

abbrev pub receiver : String
receiver = "DE00000000000002"

-- No call meets two groups, and every payment is to one account.
abbrev Both : Condition String 1
Both s t f = IsCalm 1 s t f × PaysTo receiver 1 s t f

-- The first payment is in the hands of the worker.
abbrev pub handling : Dispatcher String
handling = record (opened first_tx) {
  groups = record new_group { worker = processing first_tx } ∷ [];
  calls = counting first_tx 0 ∷ [];
  accepted = first_tx ∷ [];
}

handling-Both : Trial 1 Both handling 6 (λ i. if i == 0 then 6 else 0) []
unfolding advance enter reenter send connect work apply meets entered records_after cred_iban
handling-Both =
    let s1 : Trial 1 Both (record new_dispatcher { calls = calling first_tx ∷ [] }) 1 (λ i. 0) [] =
      goes starts (called first_tx refl) (refl, refl) 1 (omega arith) false in
    let s2 : Trial 1 Both (record new_dispatcher { calls = want_slot first_tx ∷ [] }) 2 (λ i. 0)
        [] =
      goes s1
        (added 0 first (calling first_tx) (want_slot first_tx)
          (record new_dispatcher { calls = calling first_tx ∷ [] }) refl refl refl)
        (refl, tt) 2 (omega arith) false in
    let s3 : Trial 1 Both (record new_dispatcher { calls = has_slot first_tx ∷ []; semaphore = 1 })
        3 (λ i. 0) [] =
      goes s2
        (added 0 first (want_slot first_tx) (has_slot first_tx)
          (record new_dispatcher { calls = want_slot first_tx ∷ []; semaphore = 1 }) refl refl refl)
        (refl, tt) 3 (omega arith) false in
    let s4 : Trial 1 Both (opened first_tx) 4 (λ i. 0) [] =
      goes s3
        (added 0 first (has_slot first_tx) (sending first_tx 0)
          (record (opened first_tx) { calls = has_slot first_tx ∷ [] }) refl refl refl)
        (refl, tt) 4 (omega arith) false in
    let s5 : Trial 1 Both
        (record (opened first_tx) {
          calls = counting first_tx 0 ∷ [];
          accepted = first_tx ∷ [];
          groups = record new_group { ch = first_tx ∷ [] } ∷ [];
        })
        5 (λ i. 0) [] =
      goes s4
        (added 0 first (sending first_tx 0) (counting first_tx 0)
          (record (opened first_tx) {
            accepted = first_tx ∷ [];
            groups = record new_group { ch = first_tx ∷ [] } ∷ [];
          })
          refl refl refl)
        (refl, tt) 5 (omega arith) false in
    goes s5
      (worked 0 first (record new_group { ch = first_tx ∷ [] })
        (record new_group { worker = processing first_tx }) nothing refl refl refl)
      (refl, tt) 6 (omega arith) false

-- The payment is counted, and `ProcessTX` returns.
abbrev counted_in : Dispatcher String
counted_in = record handling {
  calls = returned (ok tt) ∷ [];
  groups = record new_group { worker = processing first_tx; wg = 1 } ∷ [];
}

abbrev handled_it : Dispatcher String
handled_it = record counted_in { handled = first_tx ∷ []; groups = new_group ∷ [] }

abbrev one_record : List ProcessRecord
one_record =
    record {
      ete = "E2E.1";
      start_time = 6;
      end_time = 8;
      debtor_iban = "DE00000000000001";
      creditor_iban = "DE00000000000002";
    }
    ∷ []

handled_it-Both :
    Trial 1 Both handled_it 8 (λ i. if i == 0 then 8 else if i == 0 then 6 else 0) one_record
unfolding advance work apply meets entered records_after mock_process_tx process_record
    to_tx_request cred_iban deb_iban
handled_it-Both =
    let s7 : Trial 1 Both counted_in 7 (λ i. if i == 0 then 6 else 0) [] =
      goes handling-Both
        (added 0 first (counting first_tx 0) (returned (ok tt))
          (record counted_in { calls = counting first_tx 0 ∷ [] }) refl refl refl)
        (refl, tt) 7 (omega arith) false in
    goes s7
      (worked 0 first (record new_group { worker = processing first_tx; wg = 1 }) new_group
        (handles first_tx) refl refl refl)
      (refl, tt) 8 (omega arith) false

pub handling-Trial : Trial 1 (IsCalm 1) handling 6 (λ i. if i == 0 then 6 else 0) []
handling-Trial = Trial-map Both (IsCalm 1) (λ s t f p. p.0) handling-Both

checked_run_safe_example : check_safety (build_conflict_graph one_record) ≡ ok []
unfolding last_with
checked_run_safe_example =
    checked_run_safe (Trial-map Both (IsCalm 1) (λ s t f p. p.0) handled_it-Both) (refl, tt)

pressure_safe_example : check_safety (build_conflict_graph one_record) ≡ ok []
unfolding last_with
pressure_safe_example =
    pressure_safe receiver (Trial-map Both (PaysTo receiver 1) (λ s t f p. p.1) handled_it-Both)
      (refl, tt)
