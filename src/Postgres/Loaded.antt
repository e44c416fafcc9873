-- ===== src/Postgres/Loaded.antt =====
-- `LoadPendingPayments` of adapters/secondary/postgres/peymentRepo.go on tables that keep the constraints.
use cbtraining.Base.{
  ◌+◌, ◌≤◌, ◌⊎◌, sum, All-map, ℕ, String, ◌≡◌, refl, Bool, true, some, List, [], ◌∷◌, arith, All,
  leb, Bool-cases, inl, inr,
}
use cbtraining.Errors.{ok, err, external}
use cbtraining.Ports.{PaRecord, TxRecord}
use cbtraining.Postgres.{HistoryRow, PendingRow, Tables, Server}
use cbtraining.Postgres.Sql.{is_known}
use cbtraining.Postgres.Repo.{
  party_of, party_record, account_of, tx_record, join, join_txid, join_all, insert_sorted,
  sort_pending, load_pending_payments,
}
use cbtraining.Postgres.Keys.{find_by-key}
use cbtraining.Postgres.Pairs.{known-found, found-All}
use cbtraining.Postgres.Stored.{history_of}
use cbtraining.Postgres.Consistent.{
  bic_of, iban_of, txid_of, IsOwned, IsBooked, IsRecorded, Consistent,
}

-- The record of a payment shows what the history has of it, with both of its accounts.
pub record Shown (t : Tables) (p : PendingRow) (r : TxRecord) : Type 0 where
  pub row : HistoryRow
  pub debtor : PaRecord
  pub creditor : PaRecord
  pub recorded : history_of p.txid t.tx_history ≡ some row
  pub same_txid : r.txid ≡ p.txid
  pub same_status : r.status ≡ row.status
  pub same_amount : r.amount ≡ row.amount
  pub from : r.debtor_pacc ≡ some debtor
  pub from_iban : debtor.iban ≡ row.debtor_account_id
  pub to : r.creditor_pacc ≡ some creditor
  pub to_iban : creditor.iban ≡ row.creditor_account_id

-- A record for each pending payment, in order.
abbrev pub AllShown : Tables → List PendingRow → List TxRecord → Type 0
AllShown t [] [] = Unit
AllShown t (p ∷ ps) (r ∷ rs) = Shown t p r × AllShown t ps rs
AllShown t _ _ = ⊥

pub account_of-some :
    (t : Tables) (i : String)
    → Consistent t
    → is_known iban_of i t.pa_registry ≡ true
    → (a : PaRecord) × (account_of i t ≡ some a) × (a.iban ≡ i)
unfolding account_of party_of
account_of-some t i v k =
    let (a, e) = known-found iban_of i t.pa_registry k in
    let own : IsOwned t.party_registry a =
      found-All iban_of (IsOwned t.party_registry) i t.pa_registry a e v.owned in
    let (p, f) = known-found bic_of a.party_bic t.party_registry own in
    (
      record { iban = a.iban; acc_curency = a.account_currency; party = some (party_record p) },
      rw (e, f, account_of, party_of) refl,
      find_by-key iban_of i t.pa_registry a e,
    )

module _ (pg : Server) where
  join_txid-Shown :
      (t : Tables) (type_of times : HistoryRow → String) (p : PendingRow)
      → Consistent t
      → IsRecorded t.tx_history p
      → (r : TxRecord) × (join_txid type_of times t p.txid ≡ some r) × Shown t p r
  unfolding join_txid join tx_record
  join_txid-Shown t type_of times p v k =
      let (h, e) = known-found txid_of p.txid t.tx_history k in
      let b = found-All txid_of (IsBooked t.pa_registry) p.txid t.tx_history h e v.booked in
      let (d, f, same_d) = account_of-some t h.debtor_account_id v b.0 in
      let (c, g, same_c) = account_of-some t h.creditor_account_id v b.1 in
      (
        tx_record h (type_of h) (times h) d c,
        rw (e, f, g, join_txid, join) refl,
        record {
          row = h;
          debtor = d;
          creditor = c;
          recorded = e;
          same_txid = find_by-key txid_of p.txid t.tx_history h e;
          same_status = refl;
          same_amount = refl;
          from = refl;
          from_iban = same_d;
          to = refl;
          to_iban = same_c;
        },
      )

  join_all-Shown :
      (t : Tables) (ps : List PendingRow)
      → Consistent t
      → All (IsRecorded t.tx_history) ps
      → AllShown t ps (join_all pg t ps)
  unfolding join_all
  join_all-Shown t [] v k = tt
  join_all-Shown t (p ∷ ps) v k =
      let (r, e, s) =
        join_txid-Shown t (λ h. h.transaction_type) (λ h. pg.json_times h.created_at h.updated_at) p
          v k.0 in
      rw (e, join_all) (s, join_all-Shown t ps v k.1)

insert_sorted-All :
    (P : PendingRow → Type 0) (p : PendingRow) (ps : List PendingRow)
    → P p
    → All P ps
    → All P (insert_sorted p ps)
unfolding insert_sorted
insert_sorted-All P p [] h k = (h, tt)
insert_sorted-All P p (q ∷ qs) h k = elim (Bool-cases (leb p.created_at q.created_at)) [
  | inl e ↦ rw (e, insert_sorted) ((h, k))
  | inr e ↦ rw (e, insert_sorted) ((k.0, insert_sorted-All P p qs h k.1))
]

sort_pending-All :
    (P : PendingRow → Type 0) (ps : List PendingRow) → All P ps → All P (sort_pending ps)
unfolding sort_pending
sort_pending-All P [] h = tt
sort_pending-All P (p ∷ ps) h =
    insert_sorted-All P p (sort_pending ps) h.0 (sort_pending-All P ps h.1)

-- No later row is older.
abbrev pub IsOldestFirst : List PendingRow → Type 0
IsOldestFirst [] = Unit
IsOldestFirst (p ∷ ps) = All (λ q. p.created_at ≤ q.created_at) ps × IsOldestFirst ps

insert_sorted-IsOldestFirst :
    (p : PendingRow) (ps : List PendingRow) → IsOldestFirst ps → IsOldestFirst (insert_sorted p ps)
unfolding insert_sorted
insert_sorted-IsOldestFirst p [] h = (tt, tt)
insert_sorted-IsOldestFirst p (q ∷ qs) h = elim (Bool-cases (leb p.created_at q.created_at)) [
  | inl e ↦
      let first : p.created_at ≤ q.created_at = ground arith in
      rw (e, insert_sorted)
        ((
          (
            first,
            All-map (λ x. q.created_at ≤ x.created_at) (λ x. p.created_at ≤ x.created_at) qs
                (λ x. λ l. omega arith) h.0,
          ),
          h,
        ))
  | inr e ↦
      let first : q.created_at ≤ p.created_at = ground arith in
      rw (e, insert_sorted)
        ((
          insert_sorted-All (λ x. q.created_at ≤ x.created_at) p qs first h.0,
          insert_sorted-IsOldestFirst p qs h.1,
        ))
]

sort_pending-IsOldestFirst : (ps : List PendingRow) → IsOldestFirst (sort_pending ps)
unfolding sort_pending
sort_pending-IsOldestFirst [] = tt
sort_pending-IsOldestFirst (p ∷ ps) =
    insert_sorted-IsOldestFirst p (sort_pending ps) (sort_pending-IsOldestFirst ps)

sum-insert_sorted :
    (w : PendingRow → ℕ) (p : PendingRow) (ps : List PendingRow)
    → sum w (insert_sorted p ps) ≡ w p + sum w ps
unfolding insert_sorted
sum-insert_sorted w p [] = omega arith
sum-insert_sorted w p (q ∷ qs) = ground (arith, sum-insert_sorted w p qs)

sum-sort_pending : (w : PendingRow → ℕ) (ps : List PendingRow) → sum w (sort_pending ps) ≡ sum w ps
unfolding sort_pending
sum-sort_pending w [] = refl
sum-sort_pending w (p ∷ ps) =
    ground (arith, sum-insert_sorted w p (sort_pending ps), sum-sort_pending w ps)

-- On tables that keep the constraints, `LoadPendingPayments` fails exactly if its query does, and
-- returns otherwise a record for each pending payment, none dropped by the join: the pending rows are
-- taken the oldest first, all of them and no other, as every way to weigh them shows, and the record
-- shows the TXID, the status, the amount and both accounts that the history has of the payment.
pub load_pending_payments-AllShown :
    (pg : Server) (lost : ℕ → Bool) (t : Tables)
    → Consistent t
    → (load_pending_payments pg lost t ≡ err external × lost 0 ≡ true)
      ⊎ ((rows : List PendingRow) × (records : List TxRecord) × (load_pending_payments pg lost t
            ≡ ok records)
          × AllShown t rows records
          × IsOldestFirst rows
          × ((w : PendingRow → ℕ) → sum w rows ≡ sum w t.pending))
unfolding load_pending_payments
load_pending_payments-AllShown pg lost t v = elim (Bool-cases (lost 0)) [
  | inl e ↦ inl (rw (e, load_pending_payments) refl, e)
  | inr e ↦ inr (
    sort_pending t.pending,
    join_all pg t (sort_pending t.pending),
    rw (e, load_pending_payments) refl,
    join_all-Shown pg t (sort_pending t.pending) v
        (sort_pending-All (IsRecorded t.tx_history) t.pending v.recorded),
    sort_pending-IsOldestFirst t.pending,
    λ w. sum-sort_pending w t.pending,
  )
]
