-- ===== src/Manager/Laws.antt =====
-- The calls of core/PaymentManagerService.go and core/PaymentAuditService.go, with the tables and `add`.
use cbtraining.Base.{
  ◌↔◌, ap, All, ℕ, String, List, [], ◌∷◌, none, ◌≡◌, ◌≢◌, refl, arith, Bool, true, false, ◌⊎◌, inl,
  inr,
}
use cbtraining.Errors.{Result-cases, infrastructure, Result, ok, err, panic, payment_not_found}
use cbtraining.Ports.{PaymentRequest, TxConfirmation, TxRecord}
use cbtraining.Entity.{Libs, PaymentTx, recover_payment_tx_from_rec, to_record}
use cbtraining.Entity.Validity.{IsValidTx, new_payment_tx_from_dto_sound}
use cbtraining.Postgres.{Tables, Server}
use cbtraining.Postgres.Repo.{
  transact, insert_tx, insert_tx_body, get_tx_by_id, load_pending_payments, join_all, sort_pending,
  join_txid, join, tx_record,
}
use cbtraining.Manager.{
  go_on, World, Outcome, payment_cmd, submit, hand_over, recover_all, panding_recovery,
  get_payment_info, found, payment_info,
}

module _ (pg : Server) (L : Libs) where
  open L use {Decimal}

  -- What a call that gave a payment to `add` has done before.
  pub record Dispatched (w : World Decimal) (t : Tables) (tx : PaymentTx Decimal)
      (o : Outcome Decimal TxConfirmation) : Type 0 where
    pub once : o.added ≡ tx ∷ []
    pub valid : IsValidTx tx
    pub stored : insert_tx pg w.lost w.insert_time (to_record L tx) t ≡ (ok tt, o.stored)

  -- What a call that gave up before has done.
  pub record Refused (t : Tables) (o : Outcome Decimal TxConfirmation) : Type 0 where
    pub none_added : o.added ≡ []
    pub untouched : o.stored ≡ t
    pub not_ok : (c : TxConfirmation) → o.answer ≢ ok c

  hand_over-cases :
      (w : World Decimal) (t : Tables) (tx : PaymentTx Decimal) (body : Result Tables)
      → IsValidTx tx
      → insert_tx_body pg w.lost w.insert_time (to_record L tx) t ≡ body
      → (Refused t (hand_over pg L w tx (transact t body)))
        ⊎ (Dispatched w t tx (hand_over pg L w tx (transact t body)))
  unfolding hand_over insert_tx
  hand_over-cases w t tx (ok t') v h =
      inr (record { once = refl; valid = v; stored = ap (transact t) h })
  hand_over-cases w t tx (err e) v h =
      inl (record { none_added = refl; untouched = refl; not_ok = ground arith })
  hand_over-cases w t tx panic v h =
      inl (record { none_added = refl; untouched = refl; not_ok = ground arith })

  submit-cases :
      (w : World Decimal) (t : Tables) (built : Result (PaymentTx Decimal))
      → ((tx : PaymentTx Decimal) → built ≡ ok tx → IsValidTx tx)
      → (Refused t (submit pg L w t built))
        ⊎ ((tx : PaymentTx Decimal) × Dispatched w t tx (submit pg L w t built))
  unfolding submit insert_tx
  submit-cases w t (ok tx) valid = elim (hand_over-cases w t tx _ (valid tx refl) refl) [
    | inl r ↦ inl r
    | inr d ↦ inr (tx, d)
  ]
  submit-cases w t (err e) valid =
      inl (record { none_added = refl; untouched = refl; not_ok = ground arith })
  submit-cases w t panic valid =
      inl (record { none_added = refl; untouched = refl; not_ok = ground arith })

  -- Whatever the request: `PaymentCMD` answers no confirmation, leaves the tables alone and gives
  -- nothing to `add`, or it has stored the one payment that it gives to `add`, a valid one, in a
  -- transaction that succeeded.
  pub payment_cmd-cases :
      (w : World Decimal) (req : PaymentRequest) (t : Tables)
      → (Refused t (payment_cmd pg L w req t))
        ⊎ ((tx : PaymentTx Decimal) × Dispatched w t tx (payment_cmd pg L w req t))
  unfolding payment_cmd
  payment_cmd-cases w req t =
      submit-cases w t _ (λ tx h. (new_payment_tx_from_dto_sound L w.uuid w.now w.later req tx h).0)

  -- `add` answered without a panic.
  abbrev pub Survives : World Decimal → Type 0
  Survives w = (tx : PaymentTx Decimal) → w.add tx ≢ panic

  -- The records that the recovery can read, in order.
  abbrev pub readable : List TxRecord → List (PaymentTx Decimal)
  readable [] = []
  readable (r ∷ rest) =
      let more = readable rest in
      elim (recover_payment_tx_from_rec L r) [ ok tx ↦ tx ∷ more | _ ↦ more ]

  go_on-ok :
      (tx : PaymentTx Decimal) (m : Result (Unit {0}))
      (later : Result (Unit {0}) × List (PaymentTx Decimal)) (more : List (PaymentTx Decimal))
      → m ≢ panic
      → later ≡ (ok tt, more)
      → go_on pg L tx m later ≡ (ok tt, tx ∷ more)
  unfolding go_on
  go_on-ok tx (ok u) later more h e =
      ap (λ (p : Result (Unit {0}) × List (PaymentTx Decimal)). (p.0, tx ∷ p.1)) e
  go_on-ok tx (err x) later more h e =
      ap (λ (p : Result (Unit {0}) × List (PaymentTx Decimal)). (p.0, tx ∷ p.1)) e
  go_on-ok tx panic later more h e = absurd (h refl)

  recover_all-readable :
      (w : World Decimal) (records : List TxRecord)
      → Survives w
      → All (λ r. recover_payment_tx_from_rec L r ≢ panic) records
      → recover_all pg L w records ≡ (ok tt, readable records)
  unfolding recover_all
  recover_all-readable w [] h k = refl
  recover_all-readable w (r ∷ rest) h k =
      let more = recover_all-readable w rest h k.1 in
      elim (Result-cases (recover_payment_tx_from_rec L r)) [
        | inl (tx, e) ↦
            rw (e, recover_all, readable) (go_on-ok tx (w.add tx) _ (readable rest) (h tx) more)
        | inr (inl (x, e)) ↦ rw (e, recover_all, readable) more
        | inr (inr e) ↦ absurd (k.0 e)
      ]

  -- What the records of the pending payments are when the query succeeds.
  abbrev pub loaded : Tables → List TxRecord
  loaded t = join_all pg t (sort_pending t.pending)

  -- If the query succeeds and neither `add` nor a record causes a panic, the recovery ends without an
  -- error, leaves the tables alone, and gives to `add` every pending payment that can be read, once
  -- and in the order of the query, whatever `add` answers on the way.
  pub panding_recovery-readable :
      (w : World Decimal) (t : Tables)
      → w.lost 0 ≡ false
      → Survives w
      → All (λ r. recover_payment_tx_from_rec L r ≢ panic) (loaded t)
      → panding_recovery pg L w t
        ≡ record { answer = ok tt; stored = t; added = readable (loaded t) }
  unfolding panding_recovery load_pending_payments
  panding_recovery-readable w t h s k = rw (h, recover_all-readable w (loaded t) s k) refl

-- `GetPaymentInfo` never panics. It says that the payment is not found exactly where the
-- query finds none, and reports the infrastructure exactly where the query fails.
pub get_payment_info-cases :
    (L : Libs) (lost : ℕ → Bool) (txid : String) (t : Tables)
    → (get_payment_info L lost txid t ≢ panic)
      × ((get_payment_info L lost txid t ≡ err payment_not_found)
          ↔ (get_tx_by_id L lost txid t ≡ ok none))
      × ((get_payment_info L lost txid t ≡ err infrastructure) ↔ (lost 0 ≡ true))
unfolding get_payment_info found payment_info get_tx_by_id join_txid join tx_record
get_payment_info-cases L lost txid t =
    (ground arith, (ground arith, ground arith), (ground arith, ground arith))
