-- ===== src/Postgres/Process.antt =====
-- `ProcessTX` of adapters/secondary/postgres/peymentRepo.go: the outbox and the pending payments after it.
use cbtraining.Base.{
  true, false, List, subst, sym, ℕ, String, ◌≡◌, refl, Bool, none, some, [], ◌∷◌, ◌++◌, arith, ap,
  ◌∙◌, ◌⊎◌, inl, inr, Option-cases,
}
use cbtraining.Errors.{ok, err, external}
use cbtraining.Ports.{TxRequest}
use cbtraining.Entity.{Libs}
use cbtraining.Postgres.Stored.{Updated, history_of, update_rows-Updated, update_rows-miss}
use cbtraining.Postgres.{HistoryRow, PendingRow, OutboxRow, Tables, Server, txid, topic, payload}
use cbtraining.Postgres.Sql.{
  find_by, is_known, delete_by, insert_outbox, update_status, delete_pending,
}
use cbtraining.Postgres.Repo.{process_tx}
use cbtraining.Postgres.Keys.{find_by-delete_by}

module _ (pg : Server) (L : Libs) where
  open pg use {cast}
  open L use {Decimal}

  -- The row of a payment in the history has the status `processing`, if there is one.
  abbrev pub Moved : String → ℕ → List HistoryRow → List HistoryRow → Type 0
  Moved k now rows rows' =
      Updated pg k "processing" now rows rows' ⊎ ((rows' ≡ rows) × (history_of k rows ≡ none))

  -- What a successful `ProcessTX` has done.
  pub record Handed (now : ℕ) (p : TxRequest Decimal) (t t' : Tables) : Type 0 where
    pub row : OutboxRow
    pub appended : t'.outbox ≡ t.outbox ++ row ∷ []
    pub unsent : row.sent_at ≡ none
    pub keyed : cast txid p.txid ≡ some row.txid
    pub written : cast payload (L.marshal_request p) ≡ some row.payload
    pub addressed : cast topic "payment.processing.request" ≡ some row.topic
    pub moved : Moved p.txid now t.tx_history t'.tx_history
    pub fresh : find_by (λ (r : OutboxRow). r.txid) row.txid t.outbox ≡ none
    pub dequeued : t'.pending ≡ delete_by (λ (r : PendingRow). r.txid) p.txid t.pending

  -- What a successful insert into the outbox has done.
  pub record Inserted (row : OutboxRow) (t t' : Tables) : Type 0 where
    pub stored : OutboxRow
    pub appended : t'.outbox ≡ t.outbox ++ stored ∷ []
    pub keyed : cast txid row.txid ≡ some stored.txid
    pub sent : stored.sent_at ≡ row.sent_at
    pub written : cast payload row.payload ≡ some stored.payload
    pub addressed : cast topic row.topic ≡ some stored.topic
    pub history : t'.tx_history ≡ t.tx_history
    pub fresh : find_by (λ (r : OutboxRow). r.txid) stored.txid t.outbox ≡ none
    pub pending : t'.pending ≡ t.pending

  pub insert_outbox-Inserted :
      (row : OutboxRow) (t : Tables) {t' : Tables}
      → insert_outbox pg row t ≡ some t'
      → Inserted row t t'
  unfolding insert_outbox is_known
  insert_outbox-Inserted row t h = elim (Option-cases (cast txid row.txid)) [
    | inl e ↦ absurd (ground arith)
    | inr (i, ei) ↦ elim (Option-cases (cast topic row.topic)) [
      | inl e ↦ absurd (ground arith)
      | inr (o, eo) ↦ elim (Option-cases (cast payload row.payload)) [
        | inl e ↦ absurd (ground arith)
        | inr (p, ep) ↦ record {
          stored = record {
            txid = i;
            topic = o;
            payload = p;
            created_at = pg.stamp row.created_at;
            sent_at = row.sent_at;
          };
          appended = ground arith;
          keyed = ei;
          sent = refl;
          written = ep;
          addressed = eo;
          history = ground arith;
          fresh = ground arith;
          pending = ground arith;
        }
      ]
    ]
  ]

  pub update_status-rest :
      (k st : String) (at : ℕ) (t : Tables) {t' : Tables} {hit : Bool}
      → update_status pg k st at t ≡ some (t', hit)
      → (t'.pending ≡ t.pending) × (t'.outbox ≡ t.outbox)
  unfolding update_status
  update_status-rest k st at t h = ground arith

  update_status-Moved :
      (k : String) (at : ℕ) (t t' : Tables) (hit : Bool)
      → update_status pg k "processing" at t ≡ some (t', hit)
      → Moved k at t.tx_history t'.tx_history
  unfolding update_status
  update_status-Moved k at t t' true h =
      inl (update_rows-Updated pg k "processing" at t.tx_history t'.tx_history (ground arith))
  update_status-Moved k at t t' false h =
      inr (update_rows-miss pg k "processing" at t.tx_history t'.tx_history (ground arith))

  pub request_row : ℕ → TxRequest Decimal → OutboxRow
  request_row now p = record {
    txid = p.txid;
    topic = "payment.processing.request";
    payload = L.marshal_request p;
    created_at = now;
    sent_at = none;
  }

  -- The statements that a successful call has run.
  pub process_tx_ok :
      (lost : ℕ → Bool) (now : ℕ) (p : TxRequest Decimal) (t : Tables)
      → (process_tx pg L lost now p t).0 ≡ ok tt
      → (u : Tables) × (hit : Bool) × (update_status pg p.txid "processing" now t ≡ some (u, hit))
        × (insert_outbox pg (request_row now p) (delete_pending p.txid u)
            ≡ some (process_tx pg L lost now p t).1)
  unfolding process_tx request_row
  process_tx_ok lost now p t h = elim (Option-cases (update_status pg p.txid "processing" now t)) [
    | inl e ↦ absurd (ground arith)
    | inr ((u, hit), e) ↦ (u, hit, e, ground arith)
  ]

  pub process_tx-Handed :
      (lost : ℕ → Bool) (now : ℕ) (p : TxRequest Decimal) (t : Tables)
      → (process_tx pg L lost now p t).0 ≡ ok tt
      → Handed now p t (process_tx pg L lost now p t).1
  unfolding delete_pending request_row
  process_tx-Handed lost now p t h =
      let (u, hit, moved, e) = process_tx_ok lost now p t h in
      let (ep, eo) = update_status-rest p.txid "processing" now t moved in
      let m = update_status-Moved p.txid now t u hit moved in
      let r : Inserted (request_row now p) (delete_pending p.txid u)
          (process_tx pg L lost now p t).1 =
        insert_outbox-Inserted (request_row now p) (delete_pending p.txid u) e in
      record {
        row = r.stored;
        appended = ground (arith, r.appended);
        unsent = r.sent;
        keyed = r.keyed;
        written = r.written;
        addressed = r.addressed;
        moved =
            subst (λ (rows : List HistoryRow). Moved p.txid now t.tx_history rows) (sym r.history)
              m;
        fresh = ground (arith, r.fresh);
        dequeued = ground (arith, r.pending);
      }

  pub process_tx_cases :
      (lost : ℕ → Bool) (now : ℕ) (p : TxRequest Decimal) (t : Tables)
      → ((process_tx pg L lost now p t).0 ≡ ok tt)
        ⊎ (process_tx pg L lost now p t ≡ (err external, t))
  unfolding process_tx insert_outbox
  process_tx_cases lost now p t = ground arith

  -- Whatever statements fail, `ProcessTX` has either done all of its work or none: it reports an error
  -- and leaves every table as it was, or it has appended one unsent row with the request to the outbox,
  -- under a key that the outbox did not have, has deleted the payment from `pending`, and has set its
  -- row in the history, if there is one, to `processing`.
  pub process_tx_atomic :
      (lost : ℕ → Bool) (now : ℕ) (p : TxRequest Decimal) (t : Tables)
      → (process_tx pg L lost now p t ≡ (err external, t))
        ⊎ (((process_tx pg L lost now p t).0 ≡ ok tt)
            × Handed now p t (process_tx pg L lost now p t).1)
  process_tx_atomic lost now p t = elim (process_tx_cases lost now p t) [
    | inl done ↦ inr (done, process_tx-Handed lost now p t done)
    | inr failed ↦ inl failed
  ]

  -- After a successful `ProcessTX` the payment is not in `pending`, so that a restart does not load it.
  pub process_tx_dequeues :
      (lost : ℕ → Bool) (now : ℕ) (p : TxRequest Decimal) (t : Tables)
      → (process_tx pg L lost now p t).0 ≡ ok tt
      → find_by (λ (r : PendingRow). r.txid) p.txid (process_tx pg L lost now p t).1.pending ≡ none
  process_tx_dequeues lost now p t h =
      ap (find_by (λ (r : PendingRow). r.txid) p.txid) (process_tx-Handed lost now p t h).dequeued
      ∙ find_by-delete_by (λ (r : PendingRow). r.txid) p.txid t.pending
