-- ===== src/Manager.antt =====
-- core/PaymentManagerService.go without `add` and `runWorker`, and core/PaymentAuditService.go. What
-- `add` answers is given: `Dispatcher` has its steps, and `Postgres` what the workers do to the tables.
pub mod Laws
pub mod Confirmed
pub mod Info
use cbtraining.Base.{ℕ, String, Bool, List, [], ◌∷◌, Option, none, some}
use cbtraining.Errors.{Result, ok, err, panic, ◌>>=◌, deref, infrastructure, payment_not_found}
use cbtraining.ValObj.{pending, status_string, touch}
use cbtraining.Ports.{
  PaymentAccountDto, PaymentRequest, PaymentResult, TxConfirmation, PaymentInfo, PaRecord, TxRecord,
}
use cbtraining.Entity.{
  Libs, PaymentTx, new_payment_tx_from_dto, recover_payment_tx_from_rec, to_record,
}
use cbtraining.Postgres.{Tables, Server}
use cbtraining.Postgres.Repo.{
  insert_tx, persist_process_result, get_tx_by_id, load_pending_payments,
}

-- What one call of the service reads from outside: the clock, the source of UUIDs, the server and
-- `add`.
pub record World (D : Type 0) : Type 0 where
  pub lost : ℕ → Bool  -- the statements that fail
  pub uuid : String
  pub now : ℕ
  pub later : ℕ
  pub insert_time : ℕ
  pub touch_time : ℕ
  pub add : PaymentTx D → Result (Unit {0})

-- A call's answer, and the payments that it gave to `add`, in order. `stored` is what the call's own
-- statements have made of the tables before the first of these calls of `add`. It is not what the tables
-- are when the call returns: a worker can run `ProcessTX` on the payment before `add` comes back.
pub record Outcome (D : Type 0) (A : Type 0) : Type 0 where
  pub answer : Result A
  pub stored : Tables
  pub added : List (PaymentTx D)

module _ (pg : Server) (L : Libs) where
  open L use {Decimal, marshal_metadata}

  unfoldable pub confirm :
      World Decimal → PaymentTx Decimal → Result (Unit {0}) → Result TxConfirmation
  confirm w tx (ok u) = ok (record {
    txid = tx.txid;
    status = status_string pending;
    metadata = marshal_metadata (touch w.touch_time tx.metadata);
  })
  confirm w tx (err e) = err e
  confirm w tx panic = panic

  -- After `InsertTX`.
  unfoldable pub hand_over :
      World Decimal
      → PaymentTx Decimal
      → Result (Unit {0}) × Tables
      → Outcome Decimal TxConfirmation
  unfolding confirm
  hand_over w tx (ok u, t) = record {
    answer = confirm w tx (w.add tx);
    stored = t;
    added = tx ∷ [];
  }
  hand_over w tx (err e, t) = record { answer = err infrastructure; stored = t; added = [] }
  hand_over w tx (panic, t) = record { answer = panic; stored = t; added = [] }

  unfoldable pub submit :
      World Decimal → Tables → Result (PaymentTx Decimal) → Outcome Decimal TxConfirmation
  unfolding hand_over
  submit w t (ok tx) = hand_over w tx (insert_tx pg w.lost w.insert_time (to_record L tx) t)
  submit w t (err e) = record { answer = err e; stored = t; added = [] }
  submit w t panic = record { answer = panic; stored = t; added = [] }

  unfoldable pub payment_cmd :
      World Decimal → PaymentRequest → Tables → Outcome Decimal TxConfirmation
  unfolding submit
  payment_cmd w req t = submit w t (new_payment_tx_from_dto L w.uuid w.now w.later req)

  -- After `add`, whose error is only logged.
  unfoldable pub go_on :
      PaymentTx Decimal
      → Result (Unit {0})
      → Result (Unit {0}) × List (PaymentTx Decimal)
      → Result (Unit {0}) × List (PaymentTx Decimal)
  go_on tx (ok u) (res, more) = (res, tx ∷ more)
  go_on tx (err e) (res, more) = (res, tx ∷ more)
  go_on tx panic (res, more) = (panic, tx ∷ [])

  -- A record that cannot be recovered is passed over.
  unfoldable pub recover_all :
      World Decimal → List TxRecord → Result (Unit {0}) × List (PaymentTx Decimal)
  unfolding go_on
  recover_all w [] = (ok tt, [])
  recover_all w (r ∷ rest) =
      let later = recover_all w rest in
      elim (recover_payment_tx_from_rec L r) [
        | ok tx ↦ go_on tx (w.add tx) later
        | err e ↦ later
        | panic ↦ (panic, [])
      ]

  recover_loaded : World Decimal → Tables → Result (List TxRecord) → Outcome Decimal (Unit {0})
  unfolding recover_all
  recover_loaded w t (ok records) =
      let (res, added) = recover_all w records in record { answer = res; stored = t; added = added }
  recover_loaded w t (err e) = record { answer = err infrastructure; stored = t; added = [] }
  recover_loaded w t panic = record { answer = panic; stored = t; added = [] }

  unfoldable pub panding_recovery : World Decimal → Tables → Outcome Decimal (Unit {0})
  unfolding recover_loaded
  panding_recovery w t = recover_loaded w t (load_pending_payments pg w.lost t)

  unfoldable pub as_infrastructure : Result (Unit {0}) × Tables → Result (Unit {0}) × Tables
  as_infrastructure (ok u, t) = (ok u, t)
  as_infrastructure (err e, t) = (err infrastructure, t)
  as_infrastructure (panic, t) = (panic, t)

  unfoldable pub store_payment_result :
      (ℕ → Bool) → ℕ → PaymentResult → Tables → Result (Unit {0}) × Tables
  unfolding as_infrastructure
  store_payment_result lost now r t =
      as_infrastructure (persist_process_result pg lost now r.txid r.result t)

account_dto : PaRecord → PaymentAccountDto
account_dto a = record { iban = a.iban; acc_curency = a.acc_curency }

unfoldable pub payment_info : TxRecord → Result PaymentInfo
unfolding account_dto
payment_info r = do
  c ← deref r.creditor_pacc
  d ← deref r.debtor_pacc
  ok (record {
    txid = r.txid;
    status = r.status;
    creditor_account = some (account_dto c);
    debtor_account = some (account_dto d);
    metadata = r.metadata;
  })

unfoldable pub found : Result (Option TxRecord) → Result PaymentInfo
unfolding payment_info
found (ok none) = err payment_not_found
found (ok (some r)) = payment_info r
found (err e) = err infrastructure
found panic = panic

unfoldable pub get_payment_info : Libs → (ℕ → Bool) → String → Tables → Result PaymentInfo
unfolding found
get_payment_info L lost txid t = found (get_tx_by_id L lost txid t)
