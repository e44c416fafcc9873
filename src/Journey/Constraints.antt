-- ===== src/Journey/Constraints.antt =====
-- The operations of adapters/secondary on the tables, in any order: they keep the constraints of
-- migrations.
use cbtraining.Base.{
  ℕ, String, ◌≡◌, refl, Bool, true, false, List, [], ◌∷◌, Option-cases, Bool-cases, inl, inr, subst,
  sym,
}
use cbtraining.Errors.{Result, Result-cases}
use cbtraining.Ports.{TxRecord, TxRequest}
use cbtraining.Entity.{Libs}
use cbtraining.Postgres.{OutboxRow, Tables, Server}
use cbtraining.Postgres.Sql.{update_status, delete_pending}
use cbtraining.Postgres.Process.{request_row, process_tx_ok, process_tx_cases}
use cbtraining.Postgres.Repo.{
  insert_tx, insert_tx_body, process_tx, persist_process_result, persist,
}
use cbtraining.Postgres.Pairs.{Pairs, Pairs-Unique}
use cbtraining.Postgres.Consistent.{
  event_of, Consistent, set_events-Consistent, delete_pending-Consistent,
}
use cbtraining.Postgres.Consistent.Statements.{
  insert_party-Consistent, insert_account-Consistent, insert_history-Consistent,
  insert_pending-Consistent, insert_outbox-Consistent, update_status-Consistent,
}
use cbtraining.Postgres.Stages.{Stages, insert_tx_body-Stages}
use cbtraining.Outbox.{contains, mark_rows, mark_sent}

-- A row keeps its key.
abbrev pub SameKey : OutboxRow → OutboxRow → Type 0
SameKey r r' = r'.txid ≡ r.txid

pub mark_rows-Pairs :
    (ids : List String) (now : ℕ) (rows : List OutboxRow)
    → Pairs SameKey rows (mark_rows ids now rows)
unfolding mark_rows
mark_rows-Pairs ids now [] = tt
mark_rows-Pairs ids now (r ∷ rest) = elim (Bool-cases (contains r.txid ids)) [
  | inl e ↦ rw (e, mark_rows) ((refl, mark_rows-Pairs ids now rest))
  | inr e ↦ rw (e, mark_rows) ((refl, mark_rows-Pairs ids now rest))
]

module _ (pg : Server) (L : Libs) where
  open L use {Decimal}

  pub mark_sent-Consistent :
      (lost : ℕ → Bool) (now : ℕ) (ids : List String) (t : Tables)
      → Consistent t
      → Consistent (mark_sent pg lost now ids t).1
  unfolding mark_sent
  mark_sent-Consistent lost now [] t v = v
  mark_sent-Consistent lost now (i ∷ ids) t v = elim (Bool-cases (lost 1)) [
    | inl e ↦ rw (e, mark_sent) v
    | inr e ↦
        let rows : List OutboxRow = mark_rows (i ∷ ids) (pg.stamp now) t.outbox in
        rw (e, mark_sent)
          (set_events-Consistent t rows v (
            Pairs-Unique SameKey event_of (λ x. λ y. λ s. s) t.outbox rows
              (mark_rows-Pairs (i ∷ ids) (pg.stamp now) t.outbox) v.events))
  ]

  Stages-Consistent :
      (now : ℕ) (p : TxRecord) (t t' : Tables) → Stages pg now p t t' → Consistent t → Consistent t'
  Stages-Consistent now p t t' g v = insert_pending-Consistent pg _ g.t5 g.pending (
      insert_history-Consistent pg _ g.t4 g.history (
        insert_account-Consistent pg _ g.t3 g.second_account (
          insert_account-Consistent pg _ g.t2 g.first_account (
            insert_party-Consistent pg _ g.t1 g.second_party
              (insert_party-Consistent pg _ t g.first_party v)))))

  pub insert_tx-Consistent :
      (lost : ℕ → Bool) (now : ℕ) (p : TxRecord) (t : Tables)
      → Consistent t
      → Consistent (insert_tx pg lost now p t).1
  unfolding insert_tx
  insert_tx-Consistent lost now p t v = elim (Result-cases (insert_tx_body pg lost now p t)) [
    | inl (t', e) ↦
        rw (e, insert_tx) (Stages-Consistent now p t t' (insert_tx_body-Stages pg lost now p t e) v)
    | inr (inl (x, e)) ↦ rw (e, insert_tx) v
    | inr (inr e) ↦ rw (e, insert_tx) v
  ]

  pub process_tx-Consistent :
      (lost : ℕ → Bool) (now : ℕ) (p : TxRequest Decimal) (t : Tables)
      → Consistent t
      → Consistent (process_tx pg L lost now p t).1
  process_tx-Consistent lost now p t v = elim (process_tx_cases pg L lost now p t) [
    | inl done ↦
        let (u, hit, moved, inserted) = process_tx_ok pg L lost now p t done in
        insert_outbox-Consistent pg (request_row pg L now p) (delete_pending p.txid u) inserted (
          delete_pending-Consistent p.txid u
            (update_status-Consistent pg p.txid "processing" now t {hit = hit} moved v))
    | inr failed ↦ subst (λ (x : Result (Unit {0}) × Tables). Consistent x.1) (sym failed) v
  ]

  pub persist-Consistent :
      (lost : ℕ → Bool) (now : ℕ) (k result : String) (t : Tables)
      → Consistent t
      → Consistent (persist_process_result pg lost now k result t).1
  unfolding persist_process_result persist
  persist-Consistent lost now k result t v = elim (Bool-cases (lost 0)) [
    | inl e ↦ rw (e, persist_process_result) v
    | inr e ↦ elim (Option-cases (update_status pg k result now t)) [
      | inl f ↦ rw (e, f, persist_process_result) v
      | inr ((u, true), f) ↦
          rw (e, f, persist_process_result)
            (update_status-Consistent pg k result now t {hit = true} f v)
      | inr ((u, false), f) ↦
          rw (e, f, persist_process_result)
            (update_status-Consistent pg k result now t {hit = false} f v)
    ]
  ]

-- A call of an adapter that writes, with the statements that fail in it and the time of the server.
pub data Call (D : Type 0) : Type 0 where
  inserts : (ℕ → Bool) → ℕ → TxRecord → Call D
  processes : (ℕ → Bool) → ℕ → TxRequest D → Call D
  persists : (ℕ → Bool) → ℕ → String → String → Call D
  marks : (ℕ → Bool) → ℕ → List String → Call D

module _ (pg : Server) (L : Libs) where
  open L use {Decimal}

  abbrev pub after_call : Call Decimal → Tables → Tables
  after_call (inserts lost now p) t = (insert_tx pg lost now p t).1
  after_call (processes lost now p) t = (process_tx pg L lost now p t).1
  after_call (persists lost now k result) t = (persist_process_result pg lost now k result t).1
  after_call (marks lost now ids) t = (mark_sent pg lost now ids t).1

  abbrev pub after_calls : List (Call Decimal) → Tables → Tables
  after_calls [] t = t
  after_calls (c ∷ rest) t = after_calls rest (after_call c t)

  after_call-Consistent :
      (c : Call Decimal) (t : Tables) → Consistent t → Consistent (after_call c t)
  after_call-Consistent (inserts lost now p) t v = insert_tx-Consistent pg L lost now p t v
  after_call-Consistent (processes lost now p) t v = process_tx-Consistent pg L lost now p t v
  after_call-Consistent (persists lost now k result) t v =
      persist-Consistent pg L lost now k result t v
  after_call-Consistent (marks lost now ids) t v = mark_sent-Consistent pg L lost now ids t v

  -- Every sequence of InsertTX, ProcessTX, PersistProcessResult and MarkSent, whatever statements fail,
  -- keeps the constraints of the migrations: the keys of the five tables and the end-to-end
  -- identifications of the history are unique, every account has its party, every payment of the
  -- history has both accounts and one of the four statuses, every party has one of the two roles, and
  -- every pending payment is in the history.
  pub after_calls-Consistent :
      (calls : List (Call Decimal)) (t : Tables) → Consistent t → Consistent (after_calls calls t)
  after_calls-Consistent [] t v = v
  after_calls-Consistent (c ∷ rest) t v =
      after_calls-Consistent rest (after_call c t) (after_call-Consistent c t v)
