-- ===== src/Journey/Handed.antt =====
-- One payment from `ProcessTX` to its final status: nothing of other payments comes between its steps.
use mathlib.Core.List.{Memᴰ}
use cbtraining.Base.{
  ℕ, ◌*◌, ◌≤◌, String, List, [], ◌∷◌, Option, none, some, true, false, ◌≡◌, refl, arith, All,
  All-append, length, ◌≢◌, ◌∙◌, ap, sym, subst, inl, inr,
}
use cbtraining.Errors.{ok}
use cbtraining.Ports.{PaymentResult, TxRequest}
use cbtraining.Entity.{Libs}
use cbtraining.Postgres.{HistoryRow, PendingRow, Tables, Server, txid, status, payload}
use cbtraining.Postgres.Sql.{find_by}
use cbtraining.Postgres.Keys.{find_by-append, find_by-one, find_by-delete_by}
use cbtraining.Postgres.Stored.{history_of}
use cbtraining.Postgres.Process.{Handed}
use cbtraining.Outbox.{Message}
use cbtraining.Outbox.Marks.{unsent}
use cbtraining.Outbox.Run.{Signal, run_worker, by_txid, Alike}
use cbtraining.Outbox.Drain.{IsReadable, IsHealthySignal, run_worker_delivers}
use cbtraining.Consumer.{Round, handle}
use cbtraining.Stub.{Settings, Attempt, Incoming, Done, process, result_of}
use cbtraining.Stub.Laws.{IsFinal, reply_stored}
use cbtraining.Journey.{run_worker-SameRest, handle-pending, absent-Alike}

module _ (pg : Server) (L : Libs) (read_txid : String → Option String)
    (marshal : PaymentResult → String) (unmarshal : String → Option PaymentResult) where
  open pg use {cast}
  open L use {Decimal}

  -- What the database and JSON do: a key and a final status are stored as they are, and the TXID can
  -- be read from a stored request by either side.
  pub record Documented : Type 0 where
    pub txid_kept : (s v : String) → cast txid s ≡ some v → v ≡ s
    pub status_kept : (st : String) → IsFinal st → cast status st ≡ some st
    pub request_read :
        (p : TxRequest Decimal) (v : String)
        → cast payload (L.marshal_request p) ≡ some v
        → (L.payload_txid v ≡ some p.txid) × (read_txid v ≡ some p.txid)

  abbrev pub as_read : Message → Incoming
  as_read m = record { key = m.key; value = m.value }

  -- A message that Kafka has taken makes the stub write an answer, with which the consumer gives the
  -- payment `k` of `t` a final status; nothing else in its row but the time is changed, and it does not
  -- wait any more.
  pub record Ends (k : String) (t t' : Tables) (taken : List Message) (s : Settings) (a : Attempt)
      (r : Round) (offset : ℕ) (offsets : List ℕ) : Type 0 where
    pub request : Message
    pub among : Memᴰ request taken
    pub outcome : Done
    pub reply : Message
    pub answered : process read_txid marshal s a (as_read request) ≡ ok outcome
    pub written : outcome.reply ≡ some reply
    pub row : HistoryRow
    pub final : String
    pub is_final : IsFinal final
    pub recorded : history_of k t.tx_history ≡ some row
    pub settled :
        history_of k
          (handle pg L unmarshal r offset (unmarshal reply.value) t' offsets).0.tx_history
        ≡ some (record row { status = final; updated_at = pg.stamp r.now })
    pub dequeued :
        find_by
          (λ (x : PendingRow). x.txid)
          k
          (handle pg L unmarshal r offset (unmarshal reply.value) t' offsets).0.pending
        ≡ none

  processing_row :
      (now : ℕ) (p : TxRequest Decimal) (t t' : Tables) (row : HistoryRow)
      → Handed pg L now p t t'
      → history_of p.txid t.tx_history ≡ some row
      → (value : String) × (at : ℕ) × (history_of p.txid t'.tx_history
          ≡ some (record row { status = value; updated_at = at }))
  processing_row now p t t' row h known = elim h.moved [
    | inl u ↦
        let there : u.old ≡ row = ground (arith, u.found) in
        (
          u.value,
          pg.stamp now,
          u.now_there
              ∙ ap
                  (λ (o : HistoryRow).
                    some (record o { status = u.value; updated_at = pg.stamp now }))
                  there,
        )
    | inr (same, absent) ↦ absurd (ground arith)
  ]

  queued_row :
      (now : ℕ) (p : TxRequest Decimal) (t t' : Tables) (h : Handed pg L now p t t')
      → find_by by_txid h.row.txid t'.outbox ≡ some h.row
  queued_row now p t t' h =
      ap (find_by by_txid h.row.txid) h.appended
      ∙ find_by-append by_txid h.row.txid t.outbox h.row h.fresh
      ∙ find_by-one by_txid h.row

  module _ (doc : Documented) where
    queued-IsReadable :
        (now : ℕ) (p : TxRequest Decimal) (t t' : Tables)
        → Handed pg L now p t t'
        → All (IsReadable pg L) t.outbox
        → All (IsReadable pg L) t'.outbox
    queued-IsReadable now p t t' h q =
        let mine : L.payload_txid h.row.payload ≢ none =
          λ e. absurd (ground (arith, (doc.request_read p h.row.payload h.written).0)) in
        subst (λ rows. All (IsReadable pg L) rows) (sym h.appended)
          (All-append (IsReadable pg L) t.outbox (h.row ∷ []) q (mine, tt))

    queued-Alike :
        (now : ℕ) (p : TxRequest Decimal) (t t' : Tables) (h : Handed pg L now p t t')
        → All (Alike h.row.txid h.row) t'.outbox
    queued-Alike now p t t' h =
        subst (λ rows. All (Alike h.row.txid h.row) rows) (sym h.appended)
          (All-append (Alike h.row.txid h.row) t.outbox (h.row ∷ [])
            (absent-Alike h.row.txid h.row t.outbox h.fresh) (λ e. (refl, refl), tt))

    -- From `ProcessTX` on.
    pub Handed-Ends :
        (now : ℕ) (p : TxRequest Decimal) (t t' : Tables) (row : HistoryRow) (batch : ℕ)
        (signals : List Signal) (s : Settings) (a : Attempt) (r : Round) (offset : ℕ)
        (offsets : List ℕ)
        → Handed pg L now p t t'
        → history_of p.txid t.tx_history ≡ some row
        → All (IsHealthySignal pg L) signals
        → All (IsReadable pg L) t.outbox
        → length (unsent t'.outbox) ≤ length signals * batch
        → s.delay_min ≤ s.delay_max
        → a.writes ≡ true
        → r.lost 0 ≡ false
        → unmarshal (marshal (result_of a.fails p.txid)) ≡ some (result_of a.fails p.txid)
        → let sent = run_worker pg L batch signals t' in
          Ends p.txid t sent.0 sent.1 s a r offset offsets
    Handed-Ends now p t t' row batch signals s a r offset offsets h known healthy readable enough d
          w l back =
        let sent = run_worker pg L batch signals t' in
        let (marked_at, marked, out) =
          run_worker_delivers pg L batch signals t' h.row.txid h.row healthy
            (queued-IsReadable now p t t' h readable) (queued-Alike now p t t' h) enough
            (queued_row now p t t' h) h.unsent in
        let (value, at, moved) = processing_row now p t t' row h known in
        let (history, pending) = run_worker-SameRest pg L batch signals t' in
        let request : Message = record {
          topic = h.row.topic;
          key = out.key;
          value = h.row.payload;
        } in
        let (outcome, reply, answered, written, (committed, final, is_final, settled)) =
          reply_stored read_txid marshal pg L unmarshal s a (as_read request) p.txid r offset sent.0
            offsets (record row { status = value; updated_at = at })
            (doc.request_read p h.row.payload h.written).1 d w back doc.status_kept l
            (ap (history_of p.txid) history ∙ moved) in
        record {
          request = request;
          among = out.among;
          outcome = outcome;
          reply = reply;
          answered = answered;
          written = written;
          row = row;
          final = final;
          is_final = is_final;
          recorded = known;
          settled = settled;
          dequeued =
              ap (find_by (λ (x : PendingRow). x.txid) p.txid) (
                handle-pending pg L unmarshal r offset (unmarshal reply.value) sent.0 offsets
                ∙ pending
                ∙ h.dequeued)
              ∙ find_by-delete_by (λ (x : PendingRow). x.txid) p.txid t.pending;
        }
