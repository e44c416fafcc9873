-- ===== src/Manager/Info.antt =====
-- `GetPaymentInfo` of core/PaymentAuditService.go on tables that keep the constraints.
use cbtraining.Base.{
  ℕ, String, ◌≡◌, ◌⊎◌, inl, inr, refl, Bool, true, false, none, some, Bool-cases, Option-cases,
}
use cbtraining.Errors.{ok, err, infrastructure, payment_not_found}
use cbtraining.Ports.{PaymentAccountDto, PaymentInfo}
use cbtraining.Entity.{Libs}
use cbtraining.Postgres.{HistoryRow, Tables}
use cbtraining.Postgres.Repo.{get_tx_by_id, join_txid, join, tx_record}
use cbtraining.Postgres.Pairs.{found-All}
use cbtraining.Postgres.Stored.{history_of}
use cbtraining.Postgres.Consistent.{txid_of, IsBooked, Consistent}
use cbtraining.Postgres.Loaded.{account_of-some}
use cbtraining.Manager.{payment_info, found, get_payment_info}

-- What the answer says of a row of the history.
pub record Told (L : Libs) (row : HistoryRow) (i : PaymentInfo) : Type 0 where
  pub creditor : PaymentAccountDto
  pub debtor : PaymentAccountDto
  pub same_txid : i.txid ≡ row.txid
  pub same_status : i.status ≡ row.status
  pub to : i.creditor_account ≡ some creditor
  pub to_iban : creditor.iban ≡ row.creditor_account_id
  pub from : i.debtor_account ≡ some debtor
  pub from_iban : debtor.iban ≡ row.debtor_account_id
  pub times : i.metadata ≡ L.marshal_times row.created_at row.updated_at

pub known_payment-Told :
    (L : Libs) (lost : ℕ → Bool) (txid : String) (t : Tables) (row : HistoryRow)
    → Consistent t
    → lost 0 ≡ false
    → history_of txid t.tx_history ≡ some row
    → (i : PaymentInfo) × (get_payment_info L lost txid t ≡ ok i) × Told L row i
unfolding get_payment_info found payment_info get_tx_by_id join_txid join tx_record
known_payment-Told L lost txid t row v l e =
    let b = found-All txid_of (IsBooked t.pa_registry) txid t.tx_history row e v.booked in
    let (d, f, same_d) = account_of-some t row.debtor_account_id v b.0 in
    let (c, g, same_c) = account_of-some t row.creditor_account_id v b.1 in
    (
      record {
        txid = row.txid;
        status = row.status;
        creditor_account = some (record { iban = c.iban; acc_curency = c.acc_curency });
        debtor_account = some (record { iban = d.iban; acc_curency = d.acc_curency });
        metadata = L.marshal_times row.created_at row.updated_at;
      },
      rw (l, get_payment_info, get_tx_by_id, e, join_txid, f, g, join) refl,
      record {
        creditor = record { iban = c.iban; acc_curency = c.acc_curency };
        debtor = record { iban = d.iban; acc_curency = d.acc_curency };
        same_txid = refl;
        same_status = refl;
        to = refl;
        to_iban = same_c;
        from = refl;
        from_iban = same_d;
        times = refl;
      },
    )

-- On tables that keep the constraints, `GetPaymentInfo` reports the infrastructure if the query fails,
-- says that the payment is not found if the history does not have it, and otherwise answers with what
-- the history has: the TXID, the status, both accounts and the two times. There is no other case.
pub get_payment_info-Told :
    (L : Libs) (lost : ℕ → Bool) (txid : String) (t : Tables)
    → Consistent t
    → ((lost 0 ≡ true) × (get_payment_info L lost txid t ≡ err infrastructure))
      ⊎ (((lost 0 ≡ false)
            × (history_of txid t.tx_history ≡ none)
            × (get_payment_info L lost txid t ≡ err payment_not_found))
          ⊎ ((row : HistoryRow) × (i : PaymentInfo) × (history_of txid t.tx_history ≡ some row)
              × (get_payment_info L lost txid t ≡ ok i)
              × Told L row i))
unfolding get_payment_info found get_tx_by_id join_txid
get_payment_info-Told L lost txid t v = elim (Bool-cases (lost 0)) [
  | inl l ↦ inl (l, rw (l, get_payment_info, get_tx_by_id) refl)
  | inr l ↦ elim (Option-cases (history_of txid t.tx_history)) [
    | inl e ↦ inr (inl (l, e, rw (l, get_payment_info, get_tx_by_id, e, join_txid) refl))
    | inr (row, e) ↦
        let (i, answered, told) = known_payment-Told L lost txid t row v l e in
        inr (inr (row, i, e, answered, told))
  ]
]
