-- ===== src/Postgres/Consistent.antt =====
-- The constraints of migrations, and the statements of adapters/secondary that keep them.
pub mod Statements
use cbtraining.Base.{
  ℕ, String, ◌≡◌, refl, Bool, true, false, none, some, List, [], ◌∷◌, ◌++◌, arith, All, All-map,
  All-append, Option-cases, Bool-cases, inl, inr, subst, sym,
}
use cbtraining.Postgres.{
  PartyRow, AccountRow, HistoryRow, PendingRow, OutboxRow, Tables, Server, no_rows,
}
use cbtraining.Postgres.Sql.{
  find_by, is_known, is_status, is_role, insert_party, insert_account, add_account, insert_history,
  insert_pending, insert_outbox, cast_party, cast_account, cast_history, delete_pending, delete_by,
}
use cbtraining.Postgres.Keys.{Unique, append-Unique, delete_by-Unique, delete_by-All}
use cbtraining.Postgres.Pairs.{known-append, unknown-absent}

abbrev pub bic_of : PartyRow → String
bic_of r = r.bic

abbrev pub iban_of : AccountRow → String
iban_of r = r.iban

abbrev pub txid_of : HistoryRow → String
txid_of r = r.txid

abbrev pub end_to_end_of : HistoryRow → String
end_to_end_of r = r.end_to_end_id

abbrev pub waiting_of : PendingRow → String
waiting_of r = r.txid

abbrev pub event_of : OutboxRow → String
event_of r = r.txid

-- The references of the rows, and the check of a status.
abbrev pub IsOwned : List PartyRow → AccountRow → Type 0
IsOwned parties a = is_known bic_of a.party_bic parties ≡ true

abbrev pub IsBooked : List AccountRow → HistoryRow → Type 0
IsBooked accounts h =
    (is_known iban_of h.debtor_account_id accounts ≡ true)
    × (is_known iban_of h.creditor_account_id accounts ≡ true)
    × (is_status h.status ≡ true)

abbrev pub IsRecorded : List HistoryRow → PendingRow → Type 0
IsRecorded history p = is_known txid_of p.txid history ≡ true

-- The check of a role.
abbrev pub IsAllowed : PartyRow → Type 0
IsAllowed r = is_role r.role ≡ true

-- Every constraint of the migrations: the keys are unique, what a row refers to is there, and the roles
-- and statuses are allowed ones.
pub record Consistent (t : Tables) : Type 0 where
  pub parties : Unique bic_of t.party_registry
  pub roles : All IsAllowed t.party_registry
  pub accounts : Unique iban_of t.pa_registry
  pub payments : Unique txid_of t.tx_history
  pub identifications : Unique end_to_end_of t.tx_history
  pub waiting : Unique waiting_of t.pending
  pub events : Unique event_of t.outbox
  pub owned : All (IsOwned t.party_registry) t.pa_registry
  pub booked : All (IsBooked t.pa_registry) t.tx_history
  pub recorded : All (IsRecorded t.tx_history) t.pending

pub no_rows-Consistent : Consistent no_rows
no_rows-Consistent = record {
  parties = tt;
  roles = tt;
  accounts = tt;
  payments = tt;
  identifications = tt;
  waiting = tt;
  events = tt;
  owned = tt;
  booked = tt;
  recorded = tt;
}

-- A row with a new key.
pub new-Unique {ℓ} :
    {A : Type ℓ} (key : A → String) (xs : List A) (x : A)
    → Unique key xs
    → is_known key (key x) xs ≡ false
    → Unique key (xs ++ x ∷ [])
new-Unique key xs x u h = append-Unique key xs x u (unknown-absent key (key x) xs h)

pub add_party-Consistent :
    (t : Tables) (r : PartyRow)
    → Consistent t
    → is_known bic_of r.bic t.party_registry ≡ false
    → IsAllowed r
    → Consistent (record t { party_registry = t.party_registry ++ r ∷ [] })
add_party-Consistent t r v h o = record {
  parties = new-Unique bic_of t.party_registry r v.parties h;
  roles = All-append IsAllowed t.party_registry (r ∷ []) v.roles (o, tt);
  accounts = v.accounts;
  payments = v.payments;
  identifications = v.identifications;
  waiting = v.waiting;
  events = v.events;
  owned =
      All-map (IsOwned t.party_registry) (IsOwned (t.party_registry ++ r ∷ [])) t.pa_registry
        (λ a. known-append bic_of a.party_bic t.party_registry r) v.owned;
  booked = v.booked;
  recorded = v.recorded;
}

pub add_row-Consistent :
    (t : Tables) (r : AccountRow)
    → Consistent t
    → is_known iban_of r.iban t.pa_registry ≡ false
    → IsOwned t.party_registry r
    → Consistent (record t { pa_registry = t.pa_registry ++ r ∷ [] })
add_row-Consistent t r v h o = record {
  parties = v.parties;
  roles = v.roles;
  accounts = new-Unique iban_of t.pa_registry r v.accounts h;
  payments = v.payments;
  identifications = v.identifications;
  waiting = v.waiting;
  events = v.events;
  owned = All-append (IsOwned t.party_registry) t.pa_registry (r ∷ []) v.owned (o, tt);
  booked =
      All-map (IsBooked t.pa_registry) (IsBooked (t.pa_registry ++ r ∷ [])) t.tx_history
        (λ x. λ b. (
          known-append iban_of x.debtor_account_id t.pa_registry r b.0,
          known-append iban_of x.creditor_account_id t.pa_registry r b.1,
          b.2,
        ))
        v.booked;
  recorded = v.recorded;
}

pub add_payment-Consistent :
    (t : Tables) (r : HistoryRow)
    → Consistent t
    → is_known txid_of r.txid t.tx_history ≡ false
    → is_known end_to_end_of r.end_to_end_id t.tx_history ≡ false
    → IsBooked t.pa_registry r
    → Consistent (record t { tx_history = t.tx_history ++ r ∷ [] })
add_payment-Consistent t r v h e b = record {
  parties = v.parties;
  roles = v.roles;
  accounts = v.accounts;
  payments = new-Unique txid_of t.tx_history r v.payments h;
  identifications = new-Unique end_to_end_of t.tx_history r v.identifications e;
  waiting = v.waiting;
  events = v.events;
  owned = v.owned;
  booked = All-append (IsBooked t.pa_registry) t.tx_history (r ∷ []) v.booked (b, tt);
  recorded =
      All-map (IsRecorded t.tx_history) (IsRecorded (t.tx_history ++ r ∷ [])) t.pending
        (λ p. known-append txid_of p.txid t.tx_history r) v.recorded;
}

pub add_waiting-Consistent :
    (t : Tables) (r : PendingRow)
    → Consistent t
    → is_known waiting_of r.txid t.pending ≡ false
    → IsRecorded t.tx_history r
    → Consistent (record t { pending = t.pending ++ r ∷ [] })
add_waiting-Consistent t r v h k = record {
  parties = v.parties;
  roles = v.roles;
  accounts = v.accounts;
  payments = v.payments;
  identifications = v.identifications;
  waiting = new-Unique waiting_of t.pending r v.waiting h;
  events = v.events;
  owned = v.owned;
  booked = v.booked;
  recorded = All-append (IsRecorded t.tx_history) t.pending (r ∷ []) v.recorded (k, tt);
}

-- Changes of rows in place, of the outbox and of the pending payments.
pub set_events-Consistent :
    (t : Tables) (rows : List OutboxRow)
    → Consistent t
    → Unique event_of rows
    → Consistent (record t { outbox = rows })
set_events-Consistent t rows v u = record {
  parties = v.parties;
  roles = v.roles;
  accounts = v.accounts;
  payments = v.payments;
  identifications = v.identifications;
  waiting = v.waiting;
  events = u;
  owned = v.owned;
  booked = v.booked;
  recorded = v.recorded;
}

pub delete_pending-Consistent :
    (k : String) (t : Tables) → Consistent t → Consistent (delete_pending k t)
unfolding delete_pending
delete_pending-Consistent k t v = record {
  parties = v.parties;
  roles = v.roles;
  accounts = v.accounts;
  payments = v.payments;
  identifications = v.identifications;
  waiting = delete_by-Unique waiting_of k t.pending v.waiting;
  events = v.events;
  owned = v.owned;
  booked = v.booked;
  recorded = delete_by-All waiting_of (IsRecorded t.tx_history) k t.pending v.recorded;
}
