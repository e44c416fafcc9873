-- ===== src/Postgres/Repo.antt =====
-- adapters/secondary/postgres/peymentRepo.go and paymentAuditRepo.go. `lost n` says that statement
-- number `n` of the call, `Begin` and `Commit` among them, fails for want of the server; a commit that
-- is reported as failed has not taken effect.
use cbtraining.Base.{
  ℕ, String, Bool, true, false, Option, none, some, List, [], ◌∷◌, leb, if◌then◌else◌,
}
use cbtraining.Errors.{Result, ok, err, panic, ◌>>=◌, ◌>>◌, or_fail, deref, external}
use cbtraining.Ports.{PartyRecord, PaRecord, TxRecord, TxRequest}
use cbtraining.Entity.{Libs}
use cbtraining.Postgres.{PartyRow, AccountRow, HistoryRow, PendingRow, Tables, Server}
use cbtraining.Postgres.Sql.{
  find_by, insert_party, insert_account, insert_history, insert_pending, insert_outbox,
  update_status, delete_pending,
}

-- One statement of a call.
abbrev pub exec {ℓ} : {A : Type ℓ} → (ℕ → Bool) → ℕ → Option A → Result A
exec lost n statement = if lost n then err external else or_fail statement external

-- The end of a transaction: the tables are new after a commit, and old after a rollback.
abbrev pub transact : Tables → Result Tables → Result (Unit {0}) × Tables
transact t (ok t') = (ok tt, t')
transact t (err e) = (err e, t)
transact t panic = (panic, t)

abbrev pub party_row : PartyRecord → PartyRow
party_row p = record {
  bic = p.bic;
  role = p.role;
  country_of_residence = p.contry_of_residence;
  name = p.name;
}

abbrev pub account_row : PaRecord → String → AccountRow
account_row a party_bic = record {
  iban = a.iban;
  account_currency = a.acc_curency;
  party_bic = party_bic;
}

abbrev pub history_row : TxRecord → PaRecord → PaRecord → ℕ → HistoryRow
history_row p debtor creditor now = record {
  txid = p.txid;
  status = p.status;
  amount = p.amount;
  currency = p.currency;
  end_to_end_id = p.end_to_end_identification;
  transaction_type = p.transaction_type;
  debtor_account_id = debtor.iban;
  creditor_account_id = creditor.iban;
  created_at = now;
  updated_at = now;
}

module _ (pg : Server) where
  unfoldable pub insert_tx_body : (ℕ → Bool) → ℕ → TxRecord → Tables → Result Tables
  insert_tx_body lost now p t = do
    exec lost 0 (some tt)
    debtor ← deref p.debtor_pacc
    debtor_party ← deref debtor.party
    t1 ← exec lost 1 (insert_party pg (party_row debtor_party) t)
    creditor ← deref p.creditor_pacc
    creditor_party ← deref creditor.party
    t2 ← exec lost 2 (insert_party pg (party_row creditor_party) t1)
    t3 ← exec lost 3 (insert_account pg (account_row debtor debtor_party.bic) t2)
    t4 ← exec lost 4 (insert_account pg (account_row creditor creditor_party.bic) t3)
    t5 ← exec lost 5 (insert_history pg (history_row p debtor creditor now) t4)
    t6 ← exec lost 6 (insert_pending pg (record { txid = p.txid; created_at = now }) t5)
    exec lost 7 (some tt)
    ok t6

  unfoldable pub insert_tx : (ℕ → Bool) → ℕ → TxRecord → Tables → Result (Unit {0}) × Tables
  unfolding insert_tx_body
  insert_tx lost now p t = transact t (insert_tx_body lost now p t)

  unfoldable pub process_tx_body :
      (L : Libs) → (ℕ → Bool) → ℕ → TxRequest (Libs.Decimal L) → Tables → Result Tables
  process_tx_body L lost now p t = do
    exec lost 0 (some tt)
    (t1, affected) ← exec lost 1 (update_status pg p.txid "processing" now t)
    t2 ← exec lost 2 (some (delete_pending p.txid t1))
    t3 ← exec lost 3 (
        insert_outbox pg
          (record {
            txid = p.txid;
            topic = "payment.processing.request";
            payload = L.marshal_request p;
            created_at = now;
            sent_at = none;
          })
          t2)
    exec lost 4 (some tt)
    ok t3

  unfoldable pub process_tx :
      (L : Libs) → (ℕ → Bool) → ℕ → TxRequest (Libs.Decimal L) → Tables → Result (Unit {0}) × Tables
  unfolding process_tx_body
  process_tx L lost now p t = transact t (process_tx_body L lost now p t)

  unfoldable pub persist : Bool → Tables → Result (Unit {0}) × Tables
  persist true t = (ok tt, t)
  persist false t = (err external, t)

  -- One statement with no transaction around it. `now` is the server's.
  unfoldable pub persist_process_result :
      (ℕ → Bool) → ℕ → String → String → Tables → Result (Unit {0}) × Tables
  unfolding persist
  persist_process_result lost now txid result t =
      elim (exec lost 0 (update_status pg txid result now t)) [
        | ok (t', affected) ↦ persist affected t'
        | err e ↦ (err e, t)
        | panic ↦ (panic, t)
      ]

unfoldable pub party_record : PartyRow → PartyRecord
party_record p = record {
  bic = p.bic;
  role = p.role;
  contry_of_residence = p.country_of_residence;
  name = p.name;
}

-- JOIN party_registry ON bic = party_bic
unfoldable pub party_of : AccountRow → Tables → Option PaRecord
unfolding party_record
party_of a t = elim (find_by (λ (r : PartyRow). r.bic) a.party_bic t.party_registry) [
  | none ↦ none
  | some p ↦
      some
        (record { iban = a.iban; acc_curency = a.account_currency; party = some (party_record p) })
]

-- JOIN pa_registry ON iban, and its party
unfoldable pub account_of : String → Tables → Option PaRecord
unfolding party_of
account_of i t = elim (find_by (λ (r : AccountRow). r.iban) i t.pa_registry) [
  | none ↦ none
  | some a ↦ party_of a t
]

unfoldable pub tx_record : HistoryRow → String → String → PaRecord → PaRecord → TxRecord
tx_record h transaction_type metadata debtor creditor = record {
  txid = h.txid;
  status = h.status;
  amount = h.amount;
  currency = h.currency;
  end_to_end_identification = h.end_to_end_id;
  transaction_type = transaction_type;
  debtor_pacc = some debtor;
  creditor_pacc = some creditor;
  metadata = metadata;
}

-- The row of the join for one row of tx_history. The keys make it one at most.
unfoldable pub join :
    (HistoryRow → String) → (HistoryRow → String) → Tables → HistoryRow → Option TxRecord
unfolding tx_record account_of
join type_of times t h = elim (account_of h.debtor_account_id t) [
  | none ↦ none
  | some d ↦ elim (account_of h.creditor_account_id t) [
    | none ↦ none
    | some c ↦ some (tx_record h (type_of h) (times h) d c)
  ]
]

unfoldable pub join_txid :
    (HistoryRow → String) → (HistoryRow → String) → Tables → String → Option TxRecord
unfolding join
join_txid type_of times t id = elim (find_by (λ (r : HistoryRow). r.txid) id t.tx_history) [
  | none ↦ none
  | some h ↦ join type_of times t h
]

-- The query names no transaction type, and the field stays empty.
unfoldable pub get_tx_by_id : Libs → (ℕ → Bool) → String → Tables → Result (Option TxRecord)
unfolding join_txid
get_tx_by_id L lost id t =
    exec lost 0 (some (join_txid (λ h. "") (λ h. L.marshal_times h.created_at h.updated_at) t id))

-- ORDER BY created_at ASC; the order of equal times is left to the server.
unfoldable pub insert_sorted : PendingRow → List PendingRow → List PendingRow
insert_sorted p [] = p ∷ []
insert_sorted p (q ∷ qs) =
    if leb p.created_at q.created_at then p ∷ q ∷ qs else q ∷ insert_sorted p qs

unfoldable pub sort_pending : List PendingRow → List PendingRow
unfolding insert_sorted
sort_pending [] = []
sort_pending (p ∷ ps) = insert_sorted p (sort_pending ps)

unfoldable pub join_all : Server → Tables → List PendingRow → List TxRecord
unfolding join_txid
join_all pg t [] = []
join_all pg t (p ∷ ps) =
    elim (join_txid (λ h. h.transaction_type) (λ h. pg.json_times h.created_at h.updated_at) t
      p.txid) [ none ↦ join_all pg t ps | some r ↦ r ∷ join_all pg t ps ]

unfoldable pub load_pending_payments : Server → (ℕ → Bool) → Tables → Result (List TxRecord)
unfolding join_all sort_pending
load_pending_payments pg lost t = exec lost 0 (some (join_all pg t (sort_pending t.pending)))
