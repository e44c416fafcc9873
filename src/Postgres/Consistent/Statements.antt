-- ===== src/Postgres/Consistent/Statements.antt =====
-- Each statement of adapters/secondary keeps the constraints.
use cbtraining.Base.{
  ℕ, String, ◌≡◌, refl, Bool, true, some, List, [], ◌∷◌, ◌++◌, arith, All-map, ◌∙◌, str_eq,
  Option-cases, Bool-cases, inl, inr, subst, sym,
}
use cbtraining.Postgres.{
  PartyRow, AccountRow, HistoryRow, PendingRow, OutboxRow, Tables, Server, txid, topic, payload,
  status,
}
use cbtraining.Postgres.Sql.{
  is_known, is_role, is_status, insert_party, insert_account, add_account, insert_history,
  insert_pending, insert_outbox, cast_party, cast_account, cast_history, set_status, update_rows,
  update_status,
}
use cbtraining.Postgres.Pairs.{Pairs, Pairs-is_known, Pairs-Unique, Pairs-All}
use cbtraining.Postgres.Consistent.{
  bic_of, iban_of, txid_of, end_to_end_of, event_of, IsBooked, IsRecorded, Consistent, new-Unique,
  add_party-Consistent, add_row-Consistent, add_payment-Consistent, add_waiting-Consistent,
  set_events-Consistent,
}

-- A row is as before, or has another allowed status and time.
abbrev pub IsRevised : HistoryRow → HistoryRow → Type 0
IsRevised r r' =
    (r'.txid ≡ r.txid)
    × (r'.end_to_end_id ≡ r.end_to_end_id)
    × (r'.debtor_account_id ≡ r.debtor_account_id)
    × (r'.creditor_account_id ≡ r.creditor_account_id)
    × (is_status r.status ≡ true → is_status r'.status ≡ true)

module _ (pg : Server) where
  open pg use {cast}

  cast_party-role :
      (row : PartyRow) {r : PartyRow} → cast_party pg row ≡ some r → is_role r.role ≡ true
  unfolding cast_party
  cast_party-role row h = ground arith

  pub insert_party-Consistent :
      (row : PartyRow) (t : Tables) {t' : Tables}
      → insert_party pg row t ≡ some t'
      → Consistent t
      → Consistent t'
  unfolding insert_party
  insert_party-Consistent row t {t'} h v = elim (Option-cases (cast_party pg row)) [
    | inl e ↦ absurd (ground arith)
    | inr (r, e) ↦ elim (Bool-cases (is_known bic_of r.bic t.party_registry)) [
      | inl known ↦ subst Consistent {x = t} {y = t'} (ground arith) v
      | inr new ↦
          subst Consistent {x = record t { party_registry = t.party_registry ++ r ∷ [] }} {y = t'}
            (ground arith) (add_party-Consistent t r v new (cast_party-role row e))
    ]
  ]

  pub insert_account-Consistent :
      (row : AccountRow) (t : Tables) {t' : Tables}
      → insert_account pg row t ≡ some t'
      → Consistent t
      → Consistent t'
  unfolding insert_account add_account
  insert_account-Consistent row t {t'} h v = elim (Option-cases (cast_account pg row)) [
    | inl e ↦ absurd (ground arith)
    | inr (r, e) ↦ elim (Bool-cases (is_known iban_of r.iban t.pa_registry)) [
      | inl known ↦ subst Consistent {x = t} {y = t'} (ground arith) v
      | inr new ↦
          subst Consistent {x = record t { pa_registry = t.pa_registry ++ r ∷ [] }} {y = t'}
            (ground arith) (add_row-Consistent t r v new (ground arith))
    ]
  ]

  cast_history-status :
      (row : HistoryRow) {r : HistoryRow} → cast_history pg row ≡ some r → is_status r.status ≡ true
  unfolding cast_history
  cast_history-status row h = ground arith

  pub insert_history-Consistent :
      (row : HistoryRow) (t : Tables) {t' : Tables}
      → insert_history pg row t ≡ some t'
      → Consistent t
      → Consistent t'
  unfolding insert_history
  insert_history-Consistent row t {t'} h v = elim (Option-cases (cast_history pg row)) [
    | inl e ↦ absurd (ground arith)
    | inr (r, e) ↦
        subst Consistent {x = record t { tx_history = t.tx_history ++ r ∷ [] }} {y = t'}
          (ground arith)
          (add_payment-Consistent t r v (ground arith) (ground arith)
            (ground arith, ground arith, cast_history-status row e))
  ]

  pub insert_pending-Consistent :
      (row : PendingRow) (t : Tables) {t' : Tables}
      → insert_pending pg row t ≡ some t'
      → Consistent t
      → Consistent t'
  unfolding insert_pending
  insert_pending-Consistent row t {t'} h v = elim (Option-cases (cast txid row.txid)) [
    | inl e ↦ absurd (ground arith)
    | inr (i, e) ↦
        let r : PendingRow = record { txid = i; created_at = pg.stamp row.created_at } in
        subst Consistent {x = record t { pending = t.pending ++ r ∷ [] }} {y = t'} (ground arith)
          (add_waiting-Consistent t r v (ground arith) (ground arith))
  ]

  pub insert_outbox-Consistent :
      (row : OutboxRow) (t : Tables) {t' : Tables}
      → insert_outbox pg row t ≡ some t'
      → Consistent t
      → Consistent t'
  unfolding insert_outbox
  insert_outbox-Consistent row t {t'} h v = elim (Option-cases (cast txid row.txid)) [
    | inl e ↦ absurd (ground arith)
    | inr (i, ei) ↦ elim (Option-cases (cast topic row.topic)) [
      | inl e ↦ absurd (ground arith)
      | inr (o, eo) ↦ elim (Option-cases (cast payload row.payload)) [
        | inl e ↦ absurd (ground arith)
        | inr (p, ep) ↦
            let r : OutboxRow = record {
              txid = i;
              topic = o;
              payload = p;
              created_at = pg.stamp row.created_at;
              sent_at = row.sent_at;
            } in
            subst Consistent {x = record t { outbox = t.outbox ++ r ∷ [] }} {y = t'} (ground arith)
              (set_events-Consistent t (t.outbox ++ r ∷ []) v
                (new-Unique event_of t.outbox r v.events (ground arith)))
      ]
    ]
  ]

  pub update_rows-Pairs :
      (k st : String) (at : ℕ) (rows : List HistoryRow) {rows' : List HistoryRow} {hit : Bool}
      → update_rows pg k st at rows ≡ some (rows', hit)
      → Pairs IsRevised rows rows'
  unfolding update_rows set_status
  update_rows-Pairs k st at [] h = ground arith
  update_rows-Pairs k st at (r ∷ rest) {rows'} {hit} h =
      elim (Option-cases (update_rows pg k st at rest)) [
        | inl e ↦ absurd (ground arith)
        | inr ((rest', hit'), e) ↦
            let more = update_rows-Pairs k st at rest {rows' = rest'} {hit = hit'} e in
            elim (Bool-cases (str_eq r.txid k)) [
              | inr other ↦
                  subst (Pairs IsRevised (r ∷ rest)) {x = r ∷ rest'} {y = rows'} (ground arith)
                    ((refl, refl, refl, refl, λ s. s), more)
              | inl same ↦ elim (Option-cases (cast status st)) [
                | inl f ↦ absurd (ground arith)
                | inr (s, f) ↦
                    subst (Pairs IsRevised (r ∷ rest))
                      {x = record r { status = s; updated_at = pg.stamp at } ∷ rest'} {y = rows'}
                      (ground arith) ((refl, refl, refl, refl, λ x. ground arith), more)
              ]
            ]
      ]

  revise-Consistent :
      (t : Tables) (rows : List HistoryRow)
      → Consistent t
      → Pairs IsRevised t.tx_history rows
      → Consistent (record t { tx_history = rows })
  revise-Consistent t rows v h = record {
    parties = v.parties;
    roles = v.roles;
    accounts = v.accounts;
    payments = Pairs-Unique IsRevised txid_of (λ x. λ y. λ s. s.0) t.tx_history rows h v.payments;
    identifications =
        Pairs-Unique IsRevised end_to_end_of (λ x. λ y. λ s. s.1) t.tx_history rows h
          v.identifications;
    waiting = v.waiting;
    events = v.events;
    owned = v.owned;
    booked =
        Pairs-All IsRevised (IsBooked t.pa_registry) t.tx_history rows
          (λ x. λ y. λ s. λ b. (
            subst (λ i. is_known iban_of i t.pa_registry ≡ true) (sym s.2) b.0,
            subst (λ i. is_known iban_of i t.pa_registry ≡ true) (sym s.3) b.1,
            s.4 b.2,
          ))
          h v.booked;
    recorded =
        All-map (IsRecorded t.tx_history) (IsRecorded rows) t.pending
          (λ p. λ k.
            Pairs-is_known IsRevised txid_of (λ x. λ y. λ s. s.0) p.txid t.tx_history rows h ∙ k)
          v.recorded;
  }

  pub update_status-Consistent :
      (k st : String) (at : ℕ) (t : Tables) {t' : Tables} {hit : Bool}
      → update_status pg k st at t ≡ some (t', hit)
      → Consistent t
      → Consistent t'
  unfolding update_status
  update_status-Consistent k st at t {t'} h v =
      elim (Option-cases (update_rows pg k st at t.tx_history)) [
        | inl e ↦ absurd (ground arith)
        | inr ((rows, hit'), e) ↦
            subst Consistent {x = record t { tx_history = rows }} {y = t'} (ground arith) (
              revise-Consistent t rows v
                (update_rows-Pairs k st at t.tx_history {rows' = rows} {hit = hit'} e))
      ]
