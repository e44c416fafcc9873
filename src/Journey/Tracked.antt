-- ===== src/Journey/Tracked.antt =====
-- The hand-over of payments from adapters/secondary/postgres to the outbox, over any sequence of calls: no
-- payment of the history is lost on the way, and none is handed over twice.
use cbtraining.Base.{
  ℕ, String, ◌≡◌, refl, Bool, true, none, some, List, [], ◌∷◌, ◌++◌, arith, All, All-map,
  All-append, Bool-cases, inl, inr, ◌⊎◌, subst, sym, ap, ◌∙◌, str_eq, eq_iff,
}
use cbtraining.Errors.{Result, Result-cases, ok, err, external}
use cbtraining.Ports.{TxRecord, TxRequest}
use cbtraining.Entity.{Libs}
use cbtraining.Postgres.{HistoryRow, PendingRow, OutboxRow, Tables, Server, txid}
use cbtraining.Postgres.Sql.{find_by, is_known}
use cbtraining.Postgres.Repo.{
  insert_tx, insert_tx_body, process_tx, persist_process_result, history_row,
}
use cbtraining.Postgres.Pairs.{Pairs, Pairs-All, known-append, known-found}
use cbtraining.Postgres.Consistent.{waiting_of, event_of}
use cbtraining.Postgres.Consistent.Statements.{IsRevised}
use cbtraining.Postgres.Stages.{Stages, insert_tx_body-Stages}
use cbtraining.Postgres.Insert.{
  insert_history-step, insert_pending-step, before_history, cast_history-key,
}
use cbtraining.Postgres.Process.{Handed, process_tx-Handed, process_tx_cases}
use cbtraining.Outbox.{mark_sent}
use cbtraining.Journey.Constraints.{
  Call, inserts, processes, persists, marks, after_call, after_calls,
}
use cbtraining.Journey.Queues.{
  known-last, known-delete_by_ne, Stages-queues, process_tx-revises, persist-queues,
  mark_sent-queues,
}

-- A payment waits in `pending`, or has its event in the outbox.
abbrev pub IsTracked : Tables → String → Type 0
IsTracked t k = (is_known waiting_of k t.pending ≡ true) ⊎ (is_known event_of k t.outbox ≡ true)

abbrev pub Tracked : Tables → Type 0
Tracked t = All (λ (h : HistoryRow). IsTracked t h.txid) t.tx_history

-- Nothing is taken out of the outbox.
abbrev KeepsEvents : Tables → Tables → Type 0
KeepsEvents t t' =
    (k : String) → is_known event_of k t.outbox ≡ true → is_known event_of k t'.outbox ≡ true

-- The history grows or its rows are changed in place; what was tracked still is.
revised-Tracked :
    (t t' : Tables)
    → Pairs IsRevised t.tx_history t'.tx_history
    → ((k : String) → IsTracked t k → IsTracked t' k)
    → Tracked t
    → Tracked t'
revised-Tracked t t' pairs more v =
    Pairs-All IsRevised (λ (h : HistoryRow). IsTracked t' h.txid) t.tx_history t'.tx_history
      (λ x y s b. subst (IsTracked t') (sym s.0) b) pairs
      (All-map (λ (h : HistoryRow). IsTracked t h.txid) (λ (h : HistoryRow). IsTracked t' h.txid)
        t.tx_history (λ h. more h.txid) v)

module _ (pg : Server) (L : Libs) where
  open pg use {cast}
  open L use {Decimal}

  -- The history after `InsertTX`, with a row that waits.
  Stages-Tracked :
      (now : ℕ) (p : TxRecord) (t t' : Tables) → Stages pg now p t t' → Tracked t → Tracked t'
  Stages-Tracked now p t t' g v =
      let (before, events) = Stages-queues pg L now p t t' g in
      let (r, cast_row, fresh, appended) =
        insert_history-step pg (history_row p g.debtor g.creditor now) g.t4 g.history in
      let (key, st) = cast_history-key pg (history_row p g.debtor g.creditor now) cast_row in
      let (q, qkey, qfresh, queued, same) =
        insert_pending-step pg (record { txid = p.txid; created_at = now }) g.t5 g.pending in
      let one_key : q.txid ≡ r.txid = ground (arith, key, qkey) in
      let rows : t'.tx_history ≡ t.tx_history ++ r ∷ [] =
        same
        ∙ appended
        ∙ ap (λ (xs : List HistoryRow). xs ++ r ∷ []) (before_history pg now p t g) in
      let waiting : t'.pending ≡ t.pending ++ q ∷ [] =
        queued ∙ ap (λ (xs : List PendingRow). xs ++ q ∷ []) before in
      let keeps : (k : String) → IsTracked t k → IsTracked t' k = λ k x. elim x [
        | inl w ↦ inl (
            subst (λ (xs : List PendingRow). is_known waiting_of k xs ≡ true) (sym waiting)
              (known-append waiting_of k t.pending q w))
        | inr o ↦
            inr (subst (λ (xs : List OutboxRow). is_known event_of k xs ≡ true) (sym events) o)
      ] in
      let mine : IsTracked t' r.txid = inl (
        subst (λ (xs : List PendingRow). is_known waiting_of r.txid xs ≡ true) (sym waiting)
          (subst (λ k. is_known waiting_of k (t.pending ++ q ∷ []) ≡ true) one_key
            (known-last waiting_of t.pending q))) in
      let P = λ (h : HistoryRow). IsTracked t' h.txid in
      subst (All P) (sym rows) (
        All-append P t.tx_history (r ∷ [])
          (All-map (λ (h : HistoryRow). IsTracked t h.txid) P t.tx_history (λ h. keeps h.txid) v)
          (mine, tt))

  insert_tx-Tracked :
      (lost : ℕ → Bool) (now : ℕ) (p : TxRecord) (t : Tables)
      → (Tracked t → Tracked (insert_tx pg lost now p t).1)
        × ((insert_tx pg lost now p t).1.outbox ≡ t.outbox)
  unfolding insert_tx
  insert_tx-Tracked lost now p t = elim (Result-cases (insert_tx_body pg lost now p t)) [
    | inl (t', e) ↦
        let g = insert_tx_body-Stages pg lost now p t e in
        rw (e, insert_tx) ((Stages-Tracked now p t t' g, (Stages-queues pg L now p t t' g).1))
    | inr (inl (x, e)) ↦ rw (e, insert_tx) ((λ v. v, refl))
    | inr (inr e) ↦ rw (e, insert_tx) ((λ v. v, refl))
  ]

  Handed-KeepsEvents :
      (now : ℕ) (p : TxRequest Decimal) (t t' : Tables) → Handed pg L now p t t' → KeepsEvents t t'
  Handed-KeepsEvents now p t t' h k x =
      subst (λ (xs : List OutboxRow). is_known event_of k xs ≡ true) (sym h.appended)
        (known-append event_of k t.outbox h.row x)

  Handed-event :
      (now : ℕ) (p : TxRequest Decimal) (t t' : Tables) (h : Handed pg L now p t t')
      → is_known event_of h.row.txid t'.outbox ≡ true
  Handed-event now p t t' h =
      subst (λ (xs : List OutboxRow). is_known event_of h.row.txid xs ≡ true) (sym h.appended)
        (known-last event_of t.outbox h.row)

  after_call-KeepsEvents : (c : Call Decimal) (t : Tables) → KeepsEvents t (after_call pg L c t)
  after_call-KeepsEvents (inserts lost now p) t k x =
      subst (λ (xs : List OutboxRow). is_known event_of k xs ≡ true)
        (sym (insert_tx-Tracked lost now p t).1) x
  after_call-KeepsEvents (processes lost now p) t k x = elim (process_tx_cases pg L lost now p t) [
    | inl done ↦
        Handed-KeepsEvents now p t (process_tx pg L lost now p t).1
          (process_tx-Handed pg L lost now p t done) k x
    | inr failed ↦
        subst (λ (y : Result (Unit {0}) × Tables). is_known event_of k y.1.outbox ≡ true)
          (sym failed) x
  ]
  after_call-KeepsEvents (persists lost now j result) t k x =
      subst (λ (xs : List OutboxRow). is_known event_of k xs ≡ true)
        (sym (persist-queues pg L lost now j result t).2) x
  after_call-KeepsEvents (marks lost now ids) t k x = (mark_sent-queues pg L lost now ids t).2 k ∙ x

  after_calls-KeepsEvents :
      (calls : List (Call Decimal)) (t : Tables) → KeepsEvents t (after_calls pg L calls t)
  after_calls-KeepsEvents [] t k x = x
  after_calls-KeepsEvents (c ∷ rest) t k x =
      after_calls-KeepsEvents rest (after_call pg L c t) k (after_call-KeepsEvents c t k x)

  -- A payment is handed over once: after a successful `ProcessTX`, and any sequence of calls of
  -- InsertTX, ProcessTX, PersistProcessResult and MarkSent after it, whatever statements fail in them,
  -- a further `ProcessTX` on the same request reports an error and changes nothing, whatever statements
  -- fail in it.
  pub handed_over_once :
      (lost lost' : ℕ → Bool) (now later : ℕ) (p : TxRequest Decimal) (t : Tables)
      (calls : List (Call Decimal))
      → (process_tx pg L lost now p t).0 ≡ ok tt
      → let u = after_calls pg L calls (process_tx pg L lost now p t).1 in
        process_tx pg L lost' later p u ≡ (err external, u)
  handed_over_once lost lost' now later p t calls done =
      let t' = (process_tx pg L lost now p t).1 in
      let u = after_calls pg L calls t' in
      let h = process_tx-Handed pg L lost now p t done in
      let (x, there) =
        known-found event_of h.row.txid u.outbox
          (after_calls-KeepsEvents calls t' h.row.txid (Handed-event now p t t' h)) in
      elim (process_tx_cases pg L lost' later p u) [
        | inr failed ↦ failed
        | inl again ↦
            let b = process_tx-Handed pg L lost' later p u again in
            let same : h.row.txid ≡ b.row.txid = ground (arith, h.keyed, b.keyed) in
            let miss : find_by event_of h.row.txid u.outbox ≡ none =
              ap (λ k. find_by event_of k u.outbox) same ∙ b.fresh in
            absurd (ground arith)
      ]

  -- What a key is stored as is the key itself.
  module _ (txid_kept : (s v : String) → cast txid s ≡ some v → v ≡ s) where
    process_tx-Tracked :
        (lost : ℕ → Bool) (now : ℕ) (p : TxRequest Decimal) (t : Tables)
        → Tracked t
        → Tracked (process_tx pg L lost now p t).1
    process_tx-Tracked lost now p t v = elim (process_tx_cases pg L lost now p t) [
      | inr failed ↦ subst (λ (x : Result (Unit {0}) × Tables). Tracked x.1) (sym failed) v
      | inl done ↦
          let t' = (process_tx pg L lost now p t).1 in
          let h = process_tx-Handed pg L lost now p t done in
          let own : h.row.txid ≡ p.txid = txid_kept p.txid h.row.txid h.keyed in
          let keeps : (k : String) → IsTracked t k → IsTracked t' k = λ k x.
            elim (Bool-cases (str_eq k p.txid)) [
              | inl same ↦
                  let key : h.row.txid ≡ k = own ∙ sym ((eq_iff k p.txid).0 same) in
                  inr (
                    subst (λ j. is_known event_of j t'.outbox ≡ true) key
                      (Handed-event now p t t' h))
              | inr other ↦ elim x [
                | inr o ↦ inr (Handed-KeepsEvents now p t t' h k o)
                | inl w ↦ inl (
                    subst (λ (xs : List PendingRow). is_known waiting_of k xs ≡ true)
                      (sym h.dequeued)
                      (known-delete_by_ne waiting_of k p.txid t.pending
                        (ground (arith, eq_iff k p.txid)) w))
              ]
            ] in
          revised-Tracked t t' (process_tx-revises pg L lost now p t done) keeps v
    ]

    after_call-Tracked : (c : Call Decimal) (t : Tables) → Tracked t → Tracked (after_call pg L c t)
    after_call-Tracked (inserts lost now p) t v = (insert_tx-Tracked lost now p t).0 v
    after_call-Tracked (processes lost now p) t v = process_tx-Tracked lost now p t v
    after_call-Tracked (persists lost now j result) t v =
        let t' = (persist_process_result pg lost now j result t).1 in
        let (rows, waiting, events) = persist-queues pg L lost now j result t in
        revised-Tracked t t' rows
          (λ k x. elim x [
            | inl w ↦ inl (ap (λ (xs : List PendingRow). is_known waiting_of k xs) waiting ∙ w)
            | inr o ↦ inr (ap (λ (xs : List OutboxRow). is_known event_of k xs) events ∙ o)
          ])
          v
    after_call-Tracked (marks lost now ids) t v =
        let t' = (mark_sent pg lost now ids t).1 in
        let (rows, waiting, events) = mark_sent-queues pg L lost now ids t in
        subst (All (λ (h : HistoryRow). IsTracked t' h.txid)) (sym rows) (
          All-map (λ (h : HistoryRow). IsTracked t h.txid) (λ (h : HistoryRow). IsTracked t' h.txid)
            t.tx_history
            (λ h x. elim x [
              | inl w ↦
                  inl (ap (λ (xs : List PendingRow). is_known waiting_of h.txid xs) waiting ∙ w)
              | inr o ↦ inr (events h.txid ∙ o)
            ])
            v)

    -- No payment is lost between the tables: if the database stores a key as it is, every sequence of
    -- calls of InsertTX, ProcessTX, PersistProcessResult and MarkSent, whatever statements fail, keeps
    -- that each payment of the history waits in `pending`, from where a restart loads it, or has its
    -- event in the outbox.
    pub after_calls-Tracked :
        (calls : List (Call Decimal)) (t : Tables) → Tracked t → Tracked (after_calls pg L calls t)
    after_calls-Tracked [] t v = v
    after_calls-Tracked (c ∷ rest) t v =
        after_calls-Tracked rest (after_call pg L c t) (after_call-Tracked c t v)
