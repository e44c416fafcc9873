-- ===== src/Journey/Settled.antt =====
-- One payment from `PaymentCMD` to its final status: nothing of other payments comes between its steps.
use cbtraining.Base.{
  ℕ, ◌*◌, ◌≤◌, String, List, [], ◌∷◌, Option, some, true, false, ◌≡◌, arith, All, length, Bool, ◌∙◌,
  ap, sym, subst,
}
use cbtraining.Errors.{ok}
use cbtraining.Ports.{PaymentRequest, PaymentResult, TxConfirmation}
use cbtraining.Entity.{Libs, PaymentTx, to_record, to_tx_request}
use cbtraining.Postgres.{HistoryRow, Tables, Server}
use cbtraining.Postgres.Repo.{process_tx}
use cbtraining.Postgres.Stored.{history_of}
use cbtraining.Postgres.Process.{process_tx-Handed}
use cbtraining.Manager.{World, payment_cmd}
use cbtraining.Manager.Confirmed.{payment_cmd-Accepted}
use cbtraining.Outbox.Marks.{unsent}
use cbtraining.Outbox.Run.{Signal, run_worker}
use cbtraining.Outbox.Drain.{IsReadable, IsHealthySignal}
use cbtraining.Consumer.{Round}
use cbtraining.Stub.{Settings, Attempt, result_of}
use cbtraining.Journey.Handed.{Documented, Ends, Handed-Ends}

module _ (pg : Server) (L : Libs) (read_txid : String → Option String)
    (marshal : PaymentResult → String) (unmarshal : String → Option PaymentResult) where
  open pg use {cast}
  open L use {Decimal}

  module _ (doc : Documented pg L read_txid marshal unmarshal) where
    recorded_row :
        (w : World Decimal) (req : PaymentRequest) (t : Tables) (c : TxConfirmation)
        (tx : PaymentTx Decimal)
        → (payment_cmd pg L w req t).answer ≡ ok c
        → (payment_cmd pg L w req t).added ≡ tx ∷ []
        → (c.txid ≡ tx.txid)
          × (row : HistoryRow) × (history_of tx.txid (payment_cmd pg L w req t).stored.tx_history
              ≡ some row)
    unfolding to_record
    recorded_row w req t c tx e once =
        let a = payment_cmd-Accepted pg L w req t c e in
        let same : a.tx ≡ tx = ground (arith, a.added) in
        let k : a.recorded.row.txid ≡ a.tx.txid =
          doc.txid_kept a.tx.txid a.recorded.row.txid a.recorded.keyed in
        let key : a.recorded.row.txid ≡ tx.txid = k ∙ ap (λ (x : PaymentTx Decimal). x.txid) same in
        (
          a.same_txid ∙ ap (λ (x : PaymentTx Decimal). x.txid) same,
          a.recorded.row,
          ap (λ j. history_of j (payment_cmd pg L w req t).stored.tx_history) (sym key)
              ∙ a.recorded.found,
        )

    -- A confirmed payment gets its final status. If `PaymentCMD` has answered with a confirmation, the
    -- worker's `ProcessTX` on its payment succeeds, as many rounds of the outbox worker, in which nothing
    -- fails and no other transaction adds or locks a row, follow as batches hold the unsent rows, whose
    -- payloads can be read, the stub writes its answer, and the consumer reads it back as it was written
    -- and its statement does not fail, then the payment of the confirmation ends with the status `completed` or `failed`, the rest of its row but the time as `PaymentCMD` has
    -- stored it, and does not wait in `pending`. Nothing of other payments comes between these steps.
    pub confirmed_settles :
        (w : World Decimal) (req : PaymentRequest) (t : Tables) (c : TxConfirmation)
        (tx : PaymentTx Decimal) (lost : ℕ → Bool) (now batch : ℕ) (signals : List Signal)
        (s : Settings) (a : Attempt) (r : Round) (offset : ℕ) (offsets : List ℕ)
        → (payment_cmd pg L w req t).answer ≡ ok c
        → (payment_cmd pg L w req t).added ≡ tx ∷ []
        → (process_tx pg L lost now (to_tx_request tx) (payment_cmd pg L w req t).stored).0 ≡ ok tt
        → All (IsHealthySignal pg L) signals
        → All (IsReadable pg L) (payment_cmd pg L w req t).stored.outbox
        → length (
            unsent
              (process_tx pg L lost now
                (to_tx_request tx)
                (payment_cmd pg L w req t).stored).1.outbox)
          ≤ length signals * batch
        → s.delay_min ≤ s.delay_max
        → a.writes ≡ true
        → r.lost 0 ≡ false
        → unmarshal (marshal (result_of a.fails tx.txid)) ≡ some (result_of a.fails tx.txid)
        → let stored = (payment_cmd pg L w req t).stored in
          let handed = (process_tx pg L lost now (to_tx_request tx) stored).1 in
          let sent = run_worker pg L batch signals handed in
          Ends pg L read_txid marshal unmarshal c.txid stored sent.0 sent.1 s a r offset offsets
    unfolding to_tx_request
    confirmed_settles w req t c tx lost now batch signals s a r offset offsets e once done healthy
          readable enough d out l back =
        let stored = (payment_cmd pg L w req t).stored in
        let handed = (process_tx pg L lost now (to_tx_request tx) stored).1 in
        let sent = run_worker pg L batch signals handed in
        let (key, row, known) = recorded_row w req t c tx e once in
        subst
          (λ k. Ends pg L read_txid marshal unmarshal k stored sent.0 sent.1 s a r offset offsets)
          (sym key)
          (Handed-Ends pg L read_txid marshal unmarshal doc now (to_tx_request tx) stored handed row
            batch signals s a r offset offsets
            (process_tx-Handed pg L lost now (to_tx_request tx) stored done) known healthy readable
            enough d out l back)
