-- ===== src/Journey/Queues.antt =====
-- What each call of adapters/secondary does to the queues `pending` and `outbox`, and to the keys of the
-- history.
use cbtraining.Base.{
  ℕ, String, ◌≡◌, ◌≢◌, refl, Bool, true, false, some, List, [], ◌∷◌, ◌++◌, arith, Option-cases,
  Bool-cases, inl, inr, subst, sym, ◌∙◌,
}
use cbtraining.Errors.{ok}
use cbtraining.Ports.{TxRecord, TxRequest}
use cbtraining.Entity.{Libs}
use cbtraining.Postgres.{PartyRow, AccountRow, HistoryRow, PendingRow, Tables, Server, txid}
use cbtraining.Postgres.Sql.{
  find_by, is_known, insert_party, insert_account, add_account, insert_history, insert_pending,
  cast_party, cast_account, cast_history, update_status, delete_pending, delete_by,
}
use cbtraining.Postgres.Repo.{process_tx, persist_process_result, persist}
use cbtraining.Postgres.Keys.{find_by-append, find_by-one, find_by-delete_by_ne}
use cbtraining.Postgres.Pairs.{Pairs, Pairs-is_known, known-append}
use cbtraining.Postgres.Consistent.{event_of}
use cbtraining.Postgres.Consistent.Statements.{IsRevised, update_rows-Pairs}
use cbtraining.Postgres.Stages.{Stages}
use cbtraining.Postgres.Process.{
  process_tx_ok, update_status-rest, request_row, insert_outbox-Inserted,
}
use cbtraining.Outbox.{mark_rows, mark_sent}
use cbtraining.Journey.Constraints.{SameKey, mark_rows-Pairs}

pub known-last {ℓ} :
    {A : Type ℓ} (key : A → String) (xs : List A) (x : A)
    → is_known key (key x) (xs ++ x ∷ []) ≡ true
unfolding is_known
known-last key xs x = elim (Option-cases (find_by key (key x) xs)) [
  | inl e ↦ ground (arith, find_by-append key (key x) xs x e, find_by-one key x)
  | inr (y, e) ↦ known-append key (key x) xs x (ground arith)
]

pub known-delete_by_ne {ℓ} :
    {A : Type ℓ} (key : A → String) (j k : String) (xs : List A)
    → j ≢ k
    → is_known key j xs ≡ true
    → is_known key j (delete_by key k xs) ≡ true
unfolding is_known
known-delete_by_ne key j k xs ne h = ground (arith, find_by-delete_by_ne key j k xs ne)

same_rows : (rows : List HistoryRow) → Pairs IsRevised rows rows
same_rows [] = tt
same_rows (r ∷ rest) = ((refl, refl, refl, refl, λ s. s), same_rows rest)

module _ (pg : Server) (L : Libs) where
  open pg use {cast}
  open L use {Decimal}

  insert_party-queues :
      (row : PartyRow) (t : Tables) {t' : Tables}
      → insert_party pg row t ≡ some t'
      → (t'.pending ≡ t.pending) × (t'.outbox ≡ t.outbox)
  unfolding insert_party
  insert_party-queues row t h = elim (Option-cases (cast_party pg row)) [
    | inl e ↦ absurd (ground arith)
    | inr (r, e) ↦ ground arith
  ]

  insert_account-queues :
      (row : AccountRow) (t : Tables) {t' : Tables}
      → insert_account pg row t ≡ some t'
      → (t'.pending ≡ t.pending) × (t'.outbox ≡ t.outbox)
  unfolding insert_account add_account
  insert_account-queues row t h = elim (Option-cases (cast_account pg row)) [
    | inl e ↦ absurd (ground arith)
    | inr (r, e) ↦ ground arith
  ]

  insert_history-queues :
      (row : HistoryRow) (t : Tables) {t' : Tables}
      → insert_history pg row t ≡ some t'
      → (t'.pending ≡ t.pending) × (t'.outbox ≡ t.outbox)
  unfolding insert_history
  insert_history-queues row t h = elim (Option-cases (cast_history pg row)) [
    | inl e ↦ absurd (ground arith)
    | inr (r, e) ↦ ground arith
  ]

  insert_pending-events :
      (row : PendingRow) (t : Tables) {t' : Tables}
      → insert_pending pg row t ≡ some t'
      → t'.outbox ≡ t.outbox
  unfolding insert_pending
  insert_pending-events row t h = elim (Option-cases (cast txid row.txid)) [
    | inl e ↦ absurd (ground arith)
    | inr (i, e) ↦ ground arith
  ]

  pub Stages-queues :
      (now : ℕ) (p : TxRecord) (t t' : Tables) (g : Stages pg now p t t')
      → (g.t5.pending ≡ t.pending) × (t'.outbox ≡ t.outbox)
  Stages-queues now p t t' g =
      let (p1, o1) = insert_party-queues _ t g.first_party in
      let (p2, o2) = insert_party-queues _ g.t1 g.second_party in
      let (p3, o3) = insert_account-queues _ g.t2 g.first_account in
      let (p4, o4) = insert_account-queues _ g.t3 g.second_account in
      let (p5, o5) = insert_history-queues _ g.t4 g.history in
      let o6 = insert_pending-events _ g.t5 g.pending in
      (p5 ∙ p4 ∙ p3 ∙ p2 ∙ p1, o6 ∙ o5 ∙ o4 ∙ o3 ∙ o2 ∙ o1)

  update_status-revises :
      (k st : String) (at : ℕ) (t : Tables) {t' : Tables} {hit : Bool}
      → update_status pg k st at t ≡ some (t', hit)
      → Pairs IsRevised t.tx_history t'.tx_history
  unfolding update_status
  update_status-revises k st at t {t'} {hit} h =
      update_rows-Pairs pg k st at t.tx_history {rows' = t'.tx_history} {hit = hit} (ground arith)

  changed_rows :
      (k st : String) (at : ℕ) (t u : Tables) (hit : Bool)
      → update_status pg k st at t ≡ some (u, hit)
      → Pairs IsRevised t.tx_history u.tx_history × (u.pending ≡ t.pending) × (u.outbox ≡ t.outbox)
  changed_rows k st at t u hit h =
      let (p, o) = update_status-rest pg L k st at t {hit = hit} h in
      (update_status-revises k st at t {hit = hit} h, p, o)

  pub process_tx-revises :
      (lost : ℕ → Bool) (now : ℕ) (p : TxRequest Decimal) (t : Tables)
      → (process_tx pg L lost now p t).0 ≡ ok tt
      → Pairs IsRevised t.tx_history (process_tx pg L lost now p t).1.tx_history
  unfolding delete_pending
  process_tx-revises lost now p t done =
      let (u, hit, moved, inserted) = process_tx_ok pg L lost now p t done in
      let r =
        insert_outbox-Inserted pg L (request_row pg L now p) (delete_pending p.txid u) inserted in
      subst (Pairs IsRevised t.tx_history) {x = u.tx_history}
        {y = (process_tx pg L lost now p t).1.tx_history} (sym r.history)
        (update_status-revises p.txid "processing" now t {hit = hit} moved)

  pub persist-queues :
      (lost : ℕ → Bool) (now : ℕ) (k result : String) (t : Tables)
      → let t' = (persist_process_result pg lost now k result t).1 in
        Pairs IsRevised t.tx_history t'.tx_history
        × (t'.pending ≡ t.pending)
        × (t'.outbox ≡ t.outbox)
  unfolding persist_process_result persist
  persist-queues lost now k result t = elim (Bool-cases (lost 0)) [
    | inl e ↦ rw (e, persist_process_result) ((same_rows t.tx_history, refl, refl))
    | inr e ↦ elim (Option-cases (update_status pg k result now t)) [
      | inl f ↦ rw (e, f, persist_process_result) ((same_rows t.tx_history, refl, refl))
      | inr ((u, true), f) ↦
          rw (e, f, persist_process_result) (changed_rows k result now t u true f)
      | inr ((u, false), f) ↦
          rw (e, f, persist_process_result) (changed_rows k result now t u false f)
    ]
  ]

  pub mark_sent-queues :
      (lost : ℕ → Bool) (now : ℕ) (ids : List String) (t : Tables)
      → let t' = (mark_sent pg lost now ids t).1 in
        (t'.tx_history ≡ t.tx_history)
        × (t'.pending ≡ t.pending)
        × ((k : String) → is_known event_of k t'.outbox ≡ is_known event_of k t.outbox)
  unfolding mark_sent
  mark_sent-queues lost now [] t = (refl, refl, λ k. refl)
  mark_sent-queues lost now (i ∷ ids) t = elim (Bool-cases (lost 1)) [
    | inl e ↦ rw (e, mark_sent) ((refl, refl, λ k. refl))
    | inr e ↦
        rw (e, mark_sent)
          ((
            refl,
            refl,
            λ k.
                Pairs-is_known SameKey event_of (λ x y s. s) k t.outbox
                  (mark_rows (i ∷ ids) (pg.stamp now) t.outbox)
                  (mark_rows-Pairs (i ∷ ids) (pg.stamp now) t.outbox),
          ))
  ]
