-- ===== src/Postgres/Sql.antt =====
-- The SQL statements of the adapters, with the constraints of the migrations. `none` is an error of
-- the statement, which leaves no trace.
use cbtraining.Base.{
  ℕ, String, Bool, true, false, ◌||◌, not, Option, none, some, List, [], ◌∷◌, ◌++◌, str_eq,
  if◌then◌else◌,
}
use cbtraining.Postgres.{
  PartyRow, AccountRow, HistoryRow, PendingRow, OutboxRow, Tables, Server, bic, role,
  country_of_residence, name, iban, account_currency, party_bic, txid, status, amount, currency,
  end_to_end_id, transaction_type, debtor_account_id, creditor_account_id, topic, payload,
}

infixl 5 ◌>>=◌
abbrev pub ◌>>=◌ {ℓ κ} : {A : Type ℓ} {B : Type κ} → Option A → (A → Option B) → Option B
none >>= f = none
some a >>= f = f a

-- A constraint: the statement fails where the test does.
abbrev pub check : Bool → Option (Unit {0})
check true = some tt
check false = none

abbrev pub ◌>>◌ {ℓ} : {B : Type ℓ} → Option (Unit {0}) → Option B → Option B
m >> k = m >>= λ _. k

infixl 5 ◌>>◌
-- The first row with a key.
unfoldable pub find_by {ℓ} : {A : Type ℓ} → (A → String) → String → List A → Option A
find_by key k [] = none
find_by key k (x ∷ xs) = if str_eq (key x) k then some x else find_by key k xs

unfoldable pub is_known {ℓ} : {A : Type ℓ} → (A → String) → String → List A → Bool
is_known key k xs = elim (find_by key k xs) [ none ↦ false | some x ↦ true ]

unfoldable pub is_role : String → Bool
is_role s = str_eq s "debtor" || str_eq s "creditor"

unfoldable pub is_status : String → Bool
is_status s =
    str_eq s "pending" || (str_eq s "processing" || (str_eq s "completed" || str_eq s "failed"))

module _ (pg : Server) where
  open pg use {cast}

  unfoldable pub cast_party : PartyRow → Option PartyRow
  cast_party r = do
    b ← cast bic r.bic
    ro ← cast role r.role
    c ← cast country_of_residence r.country_of_residence
    n ← cast name r.name
    check (is_role ro)
    some (record { bic = b; role = ro; country_of_residence = c; name = n })

  -- INSERT INTO party_registry … ON CONFLICT (bic) DO NOTHING
  unfoldable pub insert_party : PartyRow → Tables → Option Tables
  unfolding cast_party
  insert_party row t = do
    r ← cast_party row
    some (
        if is_known (λ (x : PartyRow). x.bic) r.bic t.party_registry
        then t
        else record t { party_registry = t.party_registry ++ r ∷ [] })

  unfoldable pub cast_account : AccountRow → Option AccountRow
  cast_account r = do
    i ← cast iban r.iban
    c ← cast account_currency r.account_currency
    b ← cast party_bic r.party_bic
    some (record { iban = i; account_currency = c; party_bic = b })

  unfoldable pub add_account : AccountRow → Tables → Option Tables
  add_account r t = do
    check (is_known (λ (x : PartyRow). x.bic) r.party_bic t.party_registry)
    some (record t { pa_registry = t.pa_registry ++ r ∷ [] })

  -- INSERT INTO pa_registry … ON CONFLICT (iban) DO NOTHING
  unfoldable pub insert_account : AccountRow → Tables → Option Tables
  unfolding cast_account add_account
  insert_account row t = do
    r ← cast_account row
    if is_known (λ (x : AccountRow). x.iban) r.iban t.pa_registry then some t else add_account r t

  unfoldable pub cast_history : HistoryRow → Option HistoryRow
  cast_history r = do
    i ← cast txid r.txid
    s ← cast status r.status
    a ← cast amount r.amount
    c ← cast currency r.currency
    e ← cast end_to_end_id r.end_to_end_id
    y ← cast transaction_type r.transaction_type
    d ← cast debtor_account_id r.debtor_account_id
    k ← cast creditor_account_id r.creditor_account_id
    check (is_status s)
    some (record {
      txid = i;
      status = s;
      amount = a;
      currency = c;
      end_to_end_id = e;
      transaction_type = y;
      debtor_account_id = d;
      creditor_account_id = k;
      created_at = pg.stamp r.created_at;
      updated_at = pg.stamp r.updated_at;
    })

  -- INSERT INTO tx_history
  unfoldable pub insert_history : HistoryRow → Tables → Option Tables
  unfolding cast_history
  insert_history row t = do
    r ← cast_history row
    check (not (is_known (λ (x : HistoryRow). x.txid) r.txid t.tx_history))
    check (not (is_known (λ (x : HistoryRow). x.end_to_end_id) r.end_to_end_id t.tx_history))
    check (is_known (λ (x : AccountRow). x.iban) r.debtor_account_id t.pa_registry)
    check (is_known (λ (x : AccountRow). x.iban) r.creditor_account_id t.pa_registry)
    some (record t { tx_history = t.tx_history ++ r ∷ [] })

  -- INSERT INTO pending
  unfoldable pub insert_pending : PendingRow → Tables → Option Tables
  insert_pending row t = do
    i ← cast txid row.txid
    check (not (is_known (λ (x : PendingRow). x.txid) i t.pending))
    check (is_known (λ (x : HistoryRow). x.txid) i t.tx_history)
    some (record t {
      pending = t.pending ++ record { txid = i; created_at = pg.stamp row.created_at } ∷ [];
    })

  -- INSERT INTO outbox
  unfoldable pub insert_outbox : OutboxRow → Tables → Option Tables
  insert_outbox row t = do
    i ← cast txid row.txid
    o ← cast topic row.topic
    p ← cast payload row.payload
    check (not (is_known (λ (x : OutboxRow). x.txid) i t.outbox))
    some (record t {
      outbox =
          t.outbox
          ++ record {
            txid = i;
            topic = o;
            payload = p;
            created_at = pg.stamp row.created_at;
            sent_at = row.sent_at;
          }
            ∷ [];
    })

  unfoldable pub set_status : String → ℕ → HistoryRow → Option HistoryRow
  set_status st at r = do
    s ← cast status st
    check (is_status s)
    some (record r { status = s; updated_at = pg.stamp at })

  -- The rows after the update, and whether one was affected.
  unfoldable pub update_rows :
      String → String → ℕ → List HistoryRow → Option (List HistoryRow × Bool)
  unfolding set_status
  update_rows k st at [] = some ([], false)
  update_rows k st at (r ∷ rs) =
      if str_eq r.txid k
      then (do r' ← set_status st at r; (rs', hit) ← update_rows k st at rs; some (r' ∷ rs', true))
      else (do (rs', hit) ← update_rows k st at rs; some (r ∷ rs', hit))

  -- UPDATE tx_history SET status, updated_at WHERE txid
  unfoldable pub update_status : String → String → ℕ → Tables → Option (Tables × Bool)
  unfolding update_rows
  update_status k st at t = do
    (rows, hit) ← update_rows k st at t.tx_history
    some (record t { tx_history = rows }, hit)

-- The rows without those of a key.
unfoldable pub delete_by {ℓ} : {A : Type ℓ} → (A → String) → String → List A → List A
delete_by key k [] = []
delete_by key k (x ∷ xs) = if str_eq (key x) k then delete_by key k xs else x ∷ delete_by key k xs

-- DELETE FROM pending WHERE txid
unfoldable pub delete_pending : String → Tables → Tables
delete_pending k t = record t { pending = delete_by (λ (x : PendingRow). x.txid) k t.pending }
