-- ===== src/Journey/Answered.antt =====
-- What `GetPaymentInfo` of core/PaymentAuditService.go tells at the end of a payment's way.
use cbtraining.Base.{
  ℕ, ◌*◌, ◌≤◌, String, List, [], ◌∷◌, ◌++◌, Option, none, some, true, false, Bool, ◌≡◌, All, length,
  ◌∙◌, ap, sym, subst, append-nil,
}
use cbtraining.Errors.{Result, ok, err, panic}
use cbtraining.Ports.{PaymentRequest, PaymentResult, TxConfirmation, PaymentInfo}
use cbtraining.Entity.{Libs, PaymentTx, to_tx_request}
use cbtraining.Postgres.{OutboxRow, Tables, Server}
use cbtraining.Postgres.Repo.{process_tx}
use cbtraining.Postgres.Consistent.{Consistent}
use cbtraining.Manager.{
  World, payment_cmd, submit, hand_over, store_payment_result, as_infrastructure, get_payment_info,
}
use cbtraining.Manager.Info.{known_payment-Told}
use cbtraining.Outbox.{Message, after_fetch, run_once}
use cbtraining.Outbox.Producer.{send}
use cbtraining.Outbox.Marks.{unsent}
use cbtraining.Outbox.Run.{Signal, Tick, context_done, ticked, commit_events, tick_once, run_worker}
use cbtraining.Outbox.Drain.{IsReadable, IsHealthySignal}
use cbtraining.Consumer.{Round, handle, stored}
use cbtraining.Stub.{Settings, Attempt, result_of}
use cbtraining.Journey.Settled.{confirmed_settles}
use cbtraining.Journey.Handed.{Documented, Ends}
use cbtraining.Journey.Constraints.{
  insert_tx-Consistent, process_tx-Consistent, persist-Consistent, mark_sent-Consistent,
}

module _ (pg : Server) (L : Libs) where
  open L use {Decimal}

  as_infrastructure-Consistent :
      (m : Result (Unit {0}) × Tables) → Consistent m.1 → Consistent (as_infrastructure pg L m).1
  unfolding as_infrastructure
  as_infrastructure-Consistent (ok u, t) v = v
  as_infrastructure-Consistent (err e, t) v = v
  as_infrastructure-Consistent (panic, t) v = v

  stored-Consistent :
      (unmarshal : String → Option PaymentResult) (r : Round) (offset : ℕ)
      (m : Result (Unit {0}) × Tables) (offsets : List ℕ)
      → Consistent m.1
      → Consistent (stored pg L unmarshal r offset m offsets).0
  unfolding stored
  stored-Consistent unmarshal r offset (ok u, t) offsets v = v
  stored-Consistent unmarshal r offset (err e, t) offsets v = v
  stored-Consistent unmarshal r offset (panic, t) offsets v = v

  handle-Consistent :
      (unmarshal : String → Option PaymentResult) (r : Round) (offset : ℕ)
      (read : Option PaymentResult) (t : Tables) (offsets : List ℕ)
      → Consistent t
      → Consistent (handle pg L unmarshal r offset read t offsets).0
  unfolding handle store_payment_result
  handle-Consistent unmarshal r offset none t offsets v = v
  handle-Consistent unmarshal r offset (some pr) t offsets v =
      stored-Consistent unmarshal r offset _ offsets (
        as_infrastructure-Consistent _ (persist-Consistent pg L r.lost r.now pr.txid pr.result t v))

  after_fetch-Consistent :
      (sends : Message → Bool) (lost : ℕ → Bool) (now : ℕ) (t : Tables)
      (fetched : Result (List OutboxRow))
      → Consistent t
      → Consistent (after_fetch pg L sends lost now t fetched).0
  unfolding after_fetch
  after_fetch-Consistent sends lost now t (ok events) v = mark_sent-Consistent pg L lost now _ t v
  after_fetch-Consistent sends lost now t (err e) v = v
  after_fetch-Consistent sends lost now t panic v = v

  tick_once-Consistent :
      (batch : ℕ) (k : Tick) (t : Tables)
      → k.added ≡ []
      → Consistent t
      → Consistent (tick_once pg L batch k t).0
  unfolding tick_once run_once commit_events
  tick_once-Consistent batch k t e v =
      after_fetch-Consistent (send k.write) k.lost k.now (commit_events k.added t) _ (
        subst (λ (rows : List OutboxRow). Consistent (record t { outbox = rows }))
          (sym (ap (λ (rows : List OutboxRow). t.outbox ++ rows) e ∙ append-nil t.outbox)) v)

  run_worker-Consistent :
      (batch : ℕ) (signals : List Signal) (t : Tables)
      → All (IsHealthySignal pg L) signals
      → Consistent t
      → Consistent (run_worker pg L batch signals t).0
  unfolding run_worker
  run_worker-Consistent batch [] t h v = v
  run_worker-Consistent batch (context_done ∷ rest) t h v = v
  run_worker-Consistent batch (ticked k ∷ rest) t h v =
      run_worker-Consistent batch rest (tick_once pg L batch k t).0 h.1
        (tick_once-Consistent batch k t h.0.quiet v)

  hand_over-Consistent :
      (w : World Decimal) (tx : PaymentTx Decimal) (m : Result (Unit {0}) × Tables)
      → Consistent m.1
      → Consistent (hand_over pg L w tx m).stored
  unfolding hand_over
  hand_over-Consistent w tx (ok u, t) v = v
  hand_over-Consistent w tx (err e, t) v = v
  hand_over-Consistent w tx (panic, t) v = v

  submit-Consistent :
      (w : World Decimal) (t : Tables) (built : Result (PaymentTx Decimal))
      → Consistent t
      → Consistent (submit pg L w t built).stored
  unfolding submit
  submit-Consistent w t (ok tx) v =
      hand_over-Consistent w tx _ (insert_tx-Consistent pg L w.lost w.insert_time _ t v)
  submit-Consistent w t (err e) v = v
  submit-Consistent w t panic v = v

  payment_cmd-Consistent :
      (w : World Decimal) (req : PaymentRequest) (t : Tables)
      → Consistent t
      → Consistent (payment_cmd pg L w req t).stored
  unfolding payment_cmd
  payment_cmd-Consistent w req t v = submit-Consistent w t _ v

module _ (pg : Server) (L : Libs) (read_txid : String → Option String)
    (marshal : PaymentResult → String) (unmarshal : String → Option PaymentResult)
    (doc : Documented pg L read_txid marshal unmarshal) where
  open L use {Decimal}

  -- The payment ends, and `GetPaymentInfo` then tells its final status.
  abbrev pub Answered :
      String
      → Tables
      → Tables
      → List Message
      → Settings
      → Attempt
      → Round
      → ℕ
      → List ℕ
      → (ℕ → Bool)
      → Type 0
  Answered k t t' taken s a r offset offsets lost =
      (e : Ends pg L read_txid marshal unmarshal k t t' taken s a r offset offsets)
      × (i : PaymentInfo) × (get_payment_info L lost k
            (handle pg L unmarshal r offset (unmarshal e.reply.value) t' offsets).0
          ≡ ok i)
      × (i.status ≡ e.final)

  -- A confirmed payment gets its final status, and the client can read it. Take tables that keep the
  -- constraints. If `PaymentCMD` has answered with a confirmation, the worker's `ProcessTX` on its
  -- payment succeeds, as many rounds of the outbox worker, in which nothing fails and no other
  -- transaction adds or locks a row, follow as batches hold the unsent rows, whose payloads can be read,
  -- the stub writes its answer, and the consumer reads it back as it was written and its statement does
  -- not fail, then the payment of the confirmation ends with the status `completed` or `failed`, the rest of its row but the time as `PaymentCMD` has stored
  -- it, does not wait in `pending`, and `GetPaymentInfo`, if its query does not fail, answers with this
  -- status. Nothing of other payments comes between these steps.
  pub confirmed-Answered :
      (w : World Decimal) (req : PaymentRequest) (t : Tables) (c : TxConfirmation)
      (tx : PaymentTx Decimal) (lost lost' : ℕ → Bool) (now batch : ℕ) (signals : List Signal)
      (s : Settings) (a : Attempt) (r : Round) (offset : ℕ) (offsets : List ℕ)
      → Consistent t
      → (payment_cmd pg L w req t).answer ≡ ok c
      → (payment_cmd pg L w req t).added ≡ tx ∷ []
      → (process_tx pg L lost now (to_tx_request tx) (payment_cmd pg L w req t).stored).0 ≡ ok tt
      → All (IsHealthySignal pg L) signals
      → All (IsReadable pg L) (payment_cmd pg L w req t).stored.outbox
      → length (
          unsent
            (process_tx pg L lost now
              (to_tx_request tx)
              (payment_cmd pg L w req t).stored).1.outbox)
        ≤ length signals * batch
      → s.delay_min ≤ s.delay_max
      → a.writes ≡ true
      → r.lost 0 ≡ false
      → unmarshal (marshal (result_of a.fails tx.txid)) ≡ some (result_of a.fails tx.txid)
      → lost' 0 ≡ false
      → let stored = (payment_cmd pg L w req t).stored in
        let handed = (process_tx pg L lost now (to_tx_request tx) stored).1 in
        let sent = run_worker pg L batch signals handed in
        Answered c.txid stored sent.0 sent.1 s a r offset offsets lost'
  confirmed-Answered w req t c tx lost lost' now batch signals s a r offset offsets v e once done
        healthy readable enough d out l back live =
      let stored = (payment_cmd pg L w req t).stored in
      let handed = (process_tx pg L lost now (to_tx_request tx) stored).1 in
      let sent = run_worker pg L batch signals handed in
      let ends =
        confirmed_settles pg L read_txid marshal unmarshal doc w req t c tx lost now batch signals s
          a r offset offsets e once done healthy readable enough d out l back in
      let kept =
        handle-Consistent pg L unmarshal r offset (unmarshal ends.reply.value) sent.0 offsets (
          run_worker-Consistent pg L batch signals handed healthy (
            process_tx-Consistent pg L lost now (to_tx_request tx) stored
              (payment_cmd-Consistent pg L w req t v))) in
      let (i, answered, told) = known_payment-Told L lost' c.txid _ _ kept live ends.settled in
      (ends, i, answered, told.same_status)
