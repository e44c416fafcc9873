-- ===== src/Manager/Confirmed.antt =====
-- The confirmation of `PaymentCMD` in core/PaymentManagerService.go.
use cbtraining.Base.{◌≡◌, refl, arith, ap, subst, [], ◌∷◌, inl, inr}
use cbtraining.Errors.{Result, ok, err, panic}
use cbtraining.Ports.{PaymentRequest, TxConfirmation}
use cbtraining.Entity.{Libs, PaymentTx, to_record, new_payment_tx_from_dto}
use cbtraining.Entity.Validity.{IsValidTx}
use cbtraining.Postgres.{Tables, Server}
use cbtraining.Postgres.Repo.{insert_tx}
use cbtraining.Postgres.Insert.{Recorded, insert_tx-Recorded}
use cbtraining.Manager.{World, Outcome, payment_cmd, submit, hand_over, confirm}
use cbtraining.Manager.Laws.{payment_cmd-cases}

module _ (pg : Server) (L : Libs) where
  open L use {Decimal}

  confirm-ok :
      (w : World Decimal) (tx : PaymentTx Decimal) (m : Result (Unit {0})) {c : TxConfirmation}
      → confirm pg L w tx m ≡ ok c
      → (m ≡ ok tt) × (c.txid ≡ tx.txid) × (c.status ≡ "pending")
  unfolding confirm
  confirm-ok w tx (ok tt) h = (refl, ground arith, ground arith)
  confirm-ok w tx (err e) h = absurd (ground arith)
  confirm-ok w tx panic h = absurd (ground arith)

  hand_over-confirm :
      (w : World Decimal) (tx tx' : PaymentTx Decimal) (m : Result (Unit {0}) × Tables)
      {c : TxConfirmation}
      → (hand_over pg L w tx m).answer ≡ ok c
      → (hand_over pg L w tx m).added ≡ tx' ∷ []
      → (w.add tx' ≡ ok tt) × (c.txid ≡ tx'.txid) × (c.status ≡ "pending")
  unfolding hand_over
  hand_over-confirm w tx tx' (ok u, t) {c} h e =
      let same : tx ≡ tx' = ground arith in
      subst
        (λ (x : PaymentTx Decimal). (w.add x ≡ ok tt) × (c.txid ≡ x.txid) × (c.status ≡ "pending"))
        same (confirm-ok w tx (w.add tx) h)
  hand_over-confirm w tx tx' (err x, t) h e = absurd (ground arith)
  hand_over-confirm w tx tx' (panic, t) h e = absurd (ground arith)

  submit-confirm :
      (w : World Decimal) (t : Tables) (tx' : PaymentTx Decimal)
      (built : Result (PaymentTx Decimal)) {c : TxConfirmation}
      → (submit pg L w t built).answer ≡ ok c
      → (submit pg L w t built).added ≡ tx' ∷ []
      → (w.add tx' ≡ ok tt) × (c.txid ≡ tx'.txid) × (c.status ≡ "pending")
  unfolding submit
  submit-confirm w t tx' (ok tx) h e = hand_over-confirm w tx tx' _ h e
  submit-confirm w t tx' (err x) h e = absurd (ground arith)
  submit-confirm w t tx' panic h e = absurd (ground arith)

  -- Behind a confirmation stands one valid payment with the TXID of the confirmation and the status
  -- `pending`: when it was given to `add` it was new in the history and among the pending payments, and
  -- `add` has taken it.
  pub record Accepted (w : World Decimal) (t : Tables) (c : TxConfirmation)
      (o : Outcome Decimal TxConfirmation) : Type 0 where
    pub tx : PaymentTx Decimal
    pub same_txid : c.txid ≡ tx.txid
    pub is_pending : c.status ≡ "pending"
    pub valid : IsValidTx tx
    pub recorded : Recorded pg (to_record L tx) t o.stored
    pub added : o.added ≡ tx ∷ []
    pub taken : w.add tx ≡ ok tt

  insert_ok-Recorded :
      (w : World Decimal) (tx : PaymentTx Decimal) (t t' : Tables)
      → insert_tx pg w.lost w.insert_time (to_record L tx) t ≡ (ok tt, t')
      → Recorded pg (to_record L tx) t t'
  insert_ok-Recorded w tx t t' e =
      elim (insert_tx-Recorded pg w.lost w.insert_time (to_record L tx) t) [
        | inl (o, r) ↦
            subst (λ (x : Result (Unit {0}) × Tables). Recorded pg (to_record L tx) t x.1) e r
        | inr (not_ok, u) ↦ absurd (not_ok (ap (λ (x : Result (Unit {0}) × Tables). x.0) e))
      ]

  -- If `PaymentCMD` answers with a confirmation, then the payment of the confirmation is a valid one,
  -- it was not in the history before `InsertTX`, `InsertTX` had put it into the history and among the
  -- pending payments when it was given to `add`, and `add` has taken it, and no other. Nothing is said
  -- of what the workers do to its rows before `PaymentCMD` returns.
  pub payment_cmd-Accepted :
      (w : World Decimal) (req : PaymentRequest) (t : Tables) (c : TxConfirmation)
      → (payment_cmd pg L w req t).answer ≡ ok c
      → Accepted w t c (payment_cmd pg L w req t)
  unfolding payment_cmd
  payment_cmd-Accepted w req t c h = elim (payment_cmd-cases pg L w req t) [
    | inl refused ↦ absurd (refused.not_ok c h)
    | inr (tx, d) ↦
        let (taken, same, st) =
          submit-confirm w t tx (new_payment_tx_from_dto L w.uuid w.now w.later req) h d.once in
        record {
          tx = tx;
          same_txid = same;
          is_pending = st;
          valid = d.valid;
          recorded = insert_ok-Recorded w tx t _ d.stored;
          added = d.once;
          taken = taken;
        }
  ]
