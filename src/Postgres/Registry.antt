-- ===== src/Postgres/Registry.antt =====
-- `InsertTX` of adapters/secondary/postgres/peymentRepo.go and the rows of party_registry and pa_registry.
use cbtraining.Base.{
  ℕ, String, ◌≡◌, Bool, Option, some, List, [], ◌∷◌, ◌++◌, arith, Option-cases, Bool-cases, inl,
  inr, subst, sym,
}
use cbtraining.Errors.{Result-cases}
use cbtraining.Ports.{TxRecord}
use cbtraining.Postgres.{PartyRow, AccountRow, HistoryRow, PendingRow, Tables, Server}
use cbtraining.Postgres.Sql.{
  find_by, is_known, insert_party, insert_account, insert_history, insert_pending, cast_party,
  cast_account, add_account, cast_history,
}
use cbtraining.Postgres.Repo.{insert_tx, insert_tx_body, party_row, account_row, history_row}
use cbtraining.Postgres.Keys.{find_by-append_old}
use cbtraining.Postgres.Stages.{Stages, insert_tx_body-Stages}

abbrev pub party_with : String → Tables → Option PartyRow
party_with b t = find_by (λ (x : PartyRow). x.bic) b t.party_registry

abbrev pub account_with : String → Tables → Option AccountRow
account_with i t = find_by (λ (x : AccountRow). x.iban) i t.pa_registry

-- The rows of `t` are rows of `t'`, unchanged.
pub record Keeps (t t' : Tables) : Type 0 where
  pub parties : (b : String) (r : PartyRow) → party_with b t ≡ some r → party_with b t' ≡ some r
  pub accounts :
      (i : String) (r : AccountRow) → account_with i t ≡ some r → account_with i t' ≡ some r

Keeps-refl : (t : Tables) → Keeps t t
Keeps-refl t = record { parties = λ b r h. h; accounts = λ i r h. h }

Keeps-trans : {t u v : Tables} → Keeps t u → Keeps u v → Keeps t v
Keeps-trans f g = record {
  parties = λ b r h. g.parties b r (f.parties b r h);
  accounts = λ i r h. g.accounts i r (f.accounts i r h);
}

Keeps-same :
    (t t' : Tables)
    → t'.party_registry ≡ t.party_registry
    → t'.pa_registry ≡ t.pa_registry
    → Keeps t t'
Keeps-same t t' p a = record {
  parties = λ b r h.
      subst (λ (rows : List PartyRow). find_by (λ (x : PartyRow). x.bic) b rows ≡ some r) (sym p) h;
  accounts = λ i r h.
      subst (λ (rows : List AccountRow). find_by (λ (x : AccountRow). x.iban) i rows ≡ some r)
        (sym a) h;
}

module _ (pg : Server) where
  insert_party-Keeps :
      (row : PartyRow) (t : Tables) {t' : Tables} → insert_party pg row t ≡ some t' → Keeps t t'
  unfolding insert_party
  insert_party-Keeps row t {t'} h = elim (Option-cases (cast_party pg row)) [
    | inl e ↦ absurd (ground arith)
    | inr (r, e) ↦ elim (Bool-cases (is_known (λ (x : PartyRow). x.bic) r.bic t.party_registry)) [
      | inl known ↦ Keeps-same t t' (ground arith) (ground arith)
      | inr new ↦
          subst (Keeps t) {x = record t { party_registry = t.party_registry ++ r ∷ [] }} {y = t'}
            (ground arith)
            (record {
              parties =
                  λ b x f. find_by-append_old (λ (y : PartyRow). y.bic) b t.party_registry r x f;
              accounts = λ i x f. f;
            })
    ]
  ]

  insert_account-Keeps :
      (row : AccountRow) (t : Tables) {t' : Tables} → insert_account pg row t ≡ some t' → Keeps t t'
  unfolding insert_account add_account
  insert_account-Keeps row t {t'} h = elim (Option-cases (cast_account pg row)) [
    | inl e ↦ absurd (ground arith)
    | inr (r, e) ↦ elim (Bool-cases (is_known (λ (x : AccountRow). x.iban) r.iban t.pa_registry)) [
      | inl known ↦ Keeps-same t t' (ground arith) (ground arith)
      | inr new ↦
          subst (Keeps t) {x = record t { pa_registry = t.pa_registry ++ r ∷ [] }} {y = t'}
            (ground arith)
            (record {
              parties = λ b x f. f;
              accounts =
                  λ i x f. find_by-append_old (λ (y : AccountRow). y.iban) i t.pa_registry r x f;
            })
    ]
  ]

  insert_history-Keeps :
      (row : HistoryRow) (t : Tables) {t' : Tables} → insert_history pg row t ≡ some t' → Keeps t t'
  unfolding insert_history
  insert_history-Keeps row t {t'} h = elim (Option-cases (cast_history pg row)) [
    | inl e ↦ absurd (ground arith)
    | inr (r, e) ↦ Keeps-same t t' (ground arith) (ground arith)
  ]

  insert_pending-Keeps :
      (row : PendingRow) (t : Tables) {t' : Tables} → insert_pending pg row t ≡ some t' → Keeps t t'
  unfolding insert_pending
  insert_pending-Keeps row t {t'} h = Keeps-same t t' (ground arith) (ground arith)

  Stages-Keeps :
      (now : ℕ) (p : TxRecord) (t : Tables) {t' : Tables} → Stages pg now p t t' → Keeps t t'
  Stages-Keeps now p t g =
      Keeps-trans (insert_party-Keeps (party_row g.debtor_party) t g.first_party) (
        Keeps-trans (insert_party-Keeps (party_row g.creditor_party) g.t1 g.second_party) (
          Keeps-trans
            (insert_account-Keeps (account_row g.debtor g.debtor_party.bic) g.t2 g.first_account)
            (Keeps-trans
              (insert_account-Keeps (account_row g.creditor g.creditor_party.bic) g.t3
                g.second_account)
              (Keeps-trans
                (insert_history-Keeps (history_row p g.debtor g.creditor now) g.t4 g.history)
                (insert_pending-Keeps (record { txid = p.txid; created_at = now }) g.t5
                  g.pending)))))

  -- `InsertTX` never changes a party or an account that is known: whatever the payment says of it, and
  -- whether the call succeeds or not, the row of its BIC or IBAN stays as it was first stored.
  pub insert_tx-Keeps :
      (lost : ℕ → Bool) (now : ℕ) (p : TxRecord) (t : Tables)
      → Keeps t (insert_tx pg lost now p t).1
  unfolding insert_tx
  insert_tx-Keeps lost now p t = elim (Result-cases (insert_tx_body pg lost now p t)) [
    | inl (t', e) ↦
        rw (e, insert_tx) (Stages-Keeps now p t (insert_tx_body-Stages pg lost now p t e))
    | inr (inl (x, e)) ↦ rw (e, insert_tx) (Keeps-refl t)
    | inr (inr e) ↦ rw (e, insert_tx) (Keeps-refl t)
  ]
