-- ===== src/Postgres/Insert.antt =====
-- `InsertTX` of adapters/secondary/postgres/peymentRepo.go: the history and the pending payments after it.
use cbtraining.Base.{
  ℕ, ◌≡◌, refl, Bool, none, some, List, [], ◌∷◌, ◌++◌, arith, subst, ◌≢◌, ◌∙◌, Option-cases, inl,
  inr, ◌⊎◌,
}
use cbtraining.Errors.{Result-cases, ok}
use cbtraining.Ports.{TxRecord}
use cbtraining.Postgres.{PartyRow, AccountRow, HistoryRow, PendingRow, Tables, Server, txid, status}
use cbtraining.Postgres.Sql.{
  find_by, is_known, insert_party, insert_account, insert_history, insert_pending, cast_history,
  cast_party, cast_account, add_account,
}
use cbtraining.Postgres.Repo.{insert_tx, insert_tx_body, party_row, account_row, history_row}
use cbtraining.Postgres.Stages.{added-find_by, Stages, insert_tx_body-Stages}

module _ (pg : Server) where
  open pg use {cast}

  module _ (row : HistoryRow) {r : HistoryRow} where
    pub cast_history-key :
        cast_history pg row ≡ some r
        → (cast txid row.txid ≡ some r.txid) × (cast status row.status ≡ some r.status)
    unfolding cast_history
    cast_history-key h = (ground arith, ground arith)

  pub insert_history-step :
      (row : HistoryRow) (t : Tables) {t' : Tables}
      → insert_history pg row t ≡ some t'
      → (r : HistoryRow) × (cast_history pg row ≡ some r)
        × (find_by (λ (x : HistoryRow). x.txid) r.txid t.tx_history ≡ none)
        × (t'.tx_history ≡ t.tx_history ++ r ∷ [])
  unfolding insert_history is_known
  insert_history-step row t h = elim (Option-cases (cast_history pg row)) [
    | inl e ↦ absurd (ground arith)
    | inr (r, e) ↦ (r, e, ground arith, ground arith)
  ]

  pub insert_pending-step :
      (row : PendingRow) (t : Tables) {t' : Tables}
      → insert_pending pg row t ≡ some t'
      → (q : PendingRow) × (cast txid row.txid ≡ some q.txid)
        × (find_by (λ (x : PendingRow). x.txid) q.txid t.pending ≡ none)
        × (t'.pending ≡ t.pending ++ q ∷ [])
        × (t'.tx_history ≡ t.tx_history)
  unfolding insert_pending is_known
  insert_pending-step row t h = elim (Option-cases (cast txid row.txid)) [
    | inl e ↦ absurd (ground arith)
    | inr (i, e) ↦ (
      record { txid = i; created_at = pg.stamp row.created_at },
      e,
      ground arith,
      ground arith,
      ground arith,
    )
  ]

  insert_party-history :
      (row : PartyRow) (t : Tables) {t' : Tables}
      → insert_party pg row t ≡ some t'
      → t'.tx_history ≡ t.tx_history
  unfolding insert_party
  insert_party-history row t h = elim (Option-cases (cast_party pg row)) [
    | inl e ↦ absurd (ground arith)
    | inr (r, e) ↦ ground arith
  ]

  insert_account-history :
      (row : AccountRow) (t : Tables) {t' : Tables}
      → insert_account pg row t ≡ some t'
      → t'.tx_history ≡ t.tx_history
  unfolding insert_account add_account
  insert_account-history row t h = elim (Option-cases (cast_account pg row)) [
    | inl e ↦ absurd (ground arith)
    | inr (r, e) ↦ ground arith
  ]

  -- A payment that was not in the history, and is there and pending now, with the stored form of its
  -- status.
  pub record Recorded (p : TxRecord) (t t' : Tables) : Type 0 where
    pub row : HistoryRow
    pub queued : PendingRow
    pub keyed : cast txid p.txid ≡ some row.txid
    pub status_kept : cast status p.status ≡ some row.status
    pub new : find_by (λ (x : HistoryRow). x.txid) row.txid t.tx_history ≡ none
    pub found : find_by (λ (x : HistoryRow). x.txid) row.txid t'.tx_history ≡ some row
    pub waiting : find_by (λ (x : PendingRow). x.txid) row.txid t'.pending ≡ some queued

  pub before_history :
      (now : ℕ) (p : TxRecord) (t : Tables) {t' : Tables} (g : Stages pg now p t t')
      → g.t4.tx_history ≡ t.tx_history
  before_history now p t g =
      insert_account-history (account_row g.creditor g.creditor_party.bic) g.t3 g.second_account
      ∙ insert_account-history (account_row g.debtor g.debtor_party.bic) g.t2 g.first_account
      ∙ insert_party-history (party_row g.creditor_party) g.t1 g.second_party
      ∙ insert_party-history (party_row g.debtor_party) t g.first_party

  Stages-Recorded :
      (now : ℕ) (p : TxRecord) (t : Tables) {t' : Tables} → Stages pg now p t t' → Recorded p t t'
  Stages-Recorded now p t {t'} g =
      let (r, cast_row, fresh, appended) =
        insert_history-step (history_row p g.debtor g.creditor now) g.t4 g.history in
      let (key, st) = cast_history-key (history_row p g.debtor g.creditor now) cast_row in
      let (q, qkey, qfresh, qappended, same) =
        insert_pending-step (record { txid = p.txid; created_at = now }) g.t5 g.pending in
      let one_key : q.txid ≡ r.txid = ground (arith, key, qkey) in
      record {
        row = r;
        queued = q;
        keyed = key;
        status_kept = st;
        new =
            subst
              (λ (rows : List HistoryRow). find_by (λ (x : HistoryRow). x.txid) r.txid rows ≡ none)
              (before_history now p t g) fresh;
        found =
            added-find_by (λ (x : HistoryRow). x.txid) g.t4.tx_history t'.tx_history r fresh
              (same ∙ appended);
        waiting =
            subst (λ k. find_by (λ (x : PendingRow). x.txid) k t'.pending ≡ some q) one_key
              (added-find_by (λ (x : PendingRow). x.txid) g.t5.pending t'.pending q qfresh
                qappended);
      }

  -- Whatever statements fail, `InsertTX` reports no error exactly in the case that it has recorded the
  -- payment, which was not in the history before, in the history and among the pending payments, and
  -- otherwise it leaves every table as it was.
  pub insert_tx-Recorded :
      (lost : ℕ → Bool) (now : ℕ) (p : TxRecord) (t : Tables)
      → (((insert_tx pg lost now p t).0 ≡ ok tt) × Recorded p t (insert_tx pg lost now p t).1)
        ⊎ (((insert_tx pg lost now p t).0 ≢ ok tt) × ((insert_tx pg lost now p t).1 ≡ t))
  unfolding insert_tx
  insert_tx-Recorded lost now p t = elim (Result-cases (insert_tx_body pg lost now p t)) [
    | inl (t', e) ↦
        rw (e, insert_tx)
          (inl (refl, Stages-Recorded now p t (insert_tx_body-Stages pg lost now p t e)))
    | inr (inl (x, e)) ↦ rw (e, insert_tx) (inr (ground arith, refl))
    | inr (inr e) ↦ rw (e, insert_tx) (inr (ground arith, refl))
  ]
