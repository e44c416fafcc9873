-- ===== src/Postgres/Stages.antt =====
-- The statements of `InsertTX` of adapters/secondary/postgres/peymentRepo.go, with the tables between
-- them.
use cbtraining.Base.{
  ℕ, String, ◌≡◌, refl, Bool, Option, none, some, List, [], ◌∷◌, ◌++◌, arith, ap, ◌∙◌,
}
use cbtraining.Errors.{Result, ok, err, panic, ◌>>=◌, deref}
use cbtraining.Ports.{TxRecord, PaRecord, PartyRecord}
use cbtraining.Postgres.{Tables, Server}
use cbtraining.Postgres.Sql.{find_by, insert_party, insert_account, insert_history, insert_pending}
use cbtraining.Postgres.Repo.{insert_tx_body, exec, party_row, account_row, history_row}
use cbtraining.Postgres.Keys.{find_by-append, find_by-one}

-- Both parts of a chain that succeeded.
pub ok_of_bind {ℓ κ} :
    {A : Type ℓ} {B : Type κ} (m : Result A) (next : A → Result B) {b : B}
    → (m >>= next) ≡ ok b
    → (a : A) × (m ≡ ok a) × (next a ≡ ok b)
ok_of_bind panic next e = absurd (ground arith)
ok_of_bind (err why) next e = absurd (ground arith)
ok_of_bind (ok a) next e = (a, refl, e)

-- A new row is found under its key.
pub added-find_by {ℓ} :
    {A : Type ℓ} (key : A → String) (xs ys : List A) (x : A)
    → find_by key (key x) xs ≡ none
    → ys ≡ xs ++ x ∷ []
    → find_by key (key x) ys ≡ some x
added-find_by key xs ys x fresh e =
    ap (find_by key (key x)) e ∙ find_by-append key (key x) xs x fresh ∙ find_by-one key x

exec-eq-ok :
    {A : Type 0} (lost : ℕ → Bool) (n : ℕ) (o : Option A) {a : A}
    → exec lost n o ≡ ok a
    → o ≡ some a
exec-eq-ok lost n none h = absurd (ground arith)
exec-eq-ok lost n (some x) h = ground arith

deref-eq-ok : {A : Type 0} (o : Option A) {a : A} → deref o ≡ ok a → o ≡ some a
deref-eq-ok none h = absurd (ground arith)
deref-eq-ok (some x) h = ground arith

module _ (pg : Server) where
  open pg use {cast}

  -- The statements of a successful call, with the tables between them.
  pub record Stages (now : ℕ) (p : TxRecord) (t t' : Tables) : Type 0 where
    pub debtor : PaRecord
    pub debtor_party : PartyRecord
    pub creditor : PaRecord
    pub creditor_party : PartyRecord
    pub debtor_given : p.debtor_pacc ≡ some debtor
    pub debtor_party_given : debtor.party ≡ some debtor_party
    pub creditor_given : p.creditor_pacc ≡ some creditor
    pub creditor_party_given : creditor.party ≡ some creditor_party
    pub t1 : Tables
    pub t2 : Tables
    pub t3 : Tables
    pub t4 : Tables
    pub t5 : Tables
    pub first_party : insert_party pg (party_row debtor_party) t ≡ some t1
    pub second_party : insert_party pg (party_row creditor_party) t1 ≡ some t2
    pub first_account : insert_account pg (account_row debtor debtor_party.bic) t2 ≡ some t3
    pub second_account : insert_account pg (account_row creditor creditor_party.bic) t3 ≡ some t4
    pub history : insert_history pg (history_row p debtor creditor now) t4 ≡ some t5
    pub pending : insert_pending pg (record { txid = p.txid; created_at = now }) t5 ≡ some t'

  pub insert_tx_body-Stages :
      (lost : ℕ → Bool) (now : ℕ) (p : TxRecord) (t : Tables) {t' : Tables}
      → insert_tx_body pg lost now p t ≡ ok t'
      → Stages now p t t'
  unfolding insert_tx_body
  insert_tx_body-Stages lost now p t h =
      let (_, _, h0) = ok_of_bind (exec lost 0 (some tt)) _ h in
      let (debtor, e1, h1) = ok_of_bind (deref p.debtor_pacc) _ h0 in
      let (debtor_party, e2, h2) = ok_of_bind (deref debtor.party) _ h1 in
      let (t1, e3, h3) =
        ok_of_bind (exec lost 1 (insert_party pg (party_row debtor_party) t)) _ h2 in
      let (creditor, e4, h4) = ok_of_bind (deref p.creditor_pacc) _ h3 in
      let (creditor_party, e5, h5) = ok_of_bind (deref creditor.party) _ h4 in
      let (t2, e6, h6) =
        ok_of_bind (exec lost 2 (insert_party pg (party_row creditor_party) t1)) _ h5 in
      let (t3, e7, h7) =
        ok_of_bind (exec lost 3 (insert_account pg (account_row debtor debtor_party.bic) t2)) _
          h6 in
      let (t4, e8, h8) =
        ok_of_bind (exec lost 4 (insert_account pg (account_row creditor creditor_party.bic) t3)) _
          h7 in
      let (t5, e9, h9) =
        ok_of_bind (exec lost 5 (insert_history pg (history_row p debtor creditor now) t4)) _ h8 in
      let (t6, e10, h10) =
        ok_of_bind (exec lost 6 (insert_pending pg (record { txid = p.txid; created_at = now }) t5))
          _ h9 in
      let (_, _, h11) = ok_of_bind (exec lost 7 (some tt)) _ h10 in
      record {
        debtor = debtor;
        debtor_party = debtor_party;
        creditor = creditor;
        creditor_party = creditor_party;
        debtor_given = deref-eq-ok p.debtor_pacc e1;
        debtor_party_given = deref-eq-ok debtor.party e2;
        creditor_given = deref-eq-ok p.creditor_pacc e4;
        creditor_party_given = deref-eq-ok creditor.party e5;
        t1 = t1;
        t2 = t2;
        t3 = t3;
        t4 = t4;
        t5 = t5;
        first_party = exec-eq-ok lost 1 _ e3;
        second_party = exec-eq-ok lost 2 _ e6;
        first_account = exec-eq-ok lost 3 _ e7;
        second_account = exec-eq-ok lost 4 _ e8;
        history = exec-eq-ok lost 5 _ e9;
        pending = exec-eq-ok lost 6 _ (e10 ∙ h11);
      }
