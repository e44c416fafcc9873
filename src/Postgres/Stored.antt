-- ===== src/Postgres/Stored.antt =====
-- `PersistProcessResult` of adapters/secondary/postgres/peymentRepo.go: the history after it.
use cbtraining.Base.{
  ℕ, String, ◌≡◌, ◌≢◌, refl, Bool, true, false, Option, none, some, List, [], ◌∷◌, arith, str_eq,
  eq_iff, ◌⊎◌, inl, inr, Option-cases, Bool-cases,
}
use cbtraining.Errors.{ok, err, external}
use cbtraining.Postgres.{HistoryRow, Tables, Server, status}
use cbtraining.Postgres.Sql.{find_by, is_status, set_status, update_rows, update_status}
use cbtraining.Postgres.Repo.{persist, persist_process_result}

abbrev pub history_of : String → List HistoryRow → Option HistoryRow
history_of k rows = find_by (λ (x : HistoryRow). x.txid) k rows

module _ (pg : Server) where
  open pg use {cast}

  -- A row before and after its status is set.
  pub record Updated (k st : String) (at : ℕ) (rows rows' : List HistoryRow) : Type 0 where
    pub old : HistoryRow
    pub value : String
    pub found : history_of k rows ≡ some old
    pub stored : cast status st ≡ some value
    pub allowed : is_status value ≡ true
    pub now_there :
        history_of k rows' ≡ some (record old { status = value; updated_at = pg.stamp at })

  changed : String → ℕ → HistoryRow → HistoryRow
  changed value at r = record r { status = value; updated_at = pg.stamp at }

  set_status-some :
      (st : String) (at : ℕ) (r r' : HistoryRow)
      → set_status pg st at r ≡ some r'
      → (value : String) × (cast status st ≡ some value)
        × (is_status value ≡ true)
        × (r' ≡ changed value at r)
  unfolding set_status changed
  set_status-some st at r r' h = elim (Option-cases (cast status st)) [
    | inl e ↦ absurd (ground arith)
    | inr (value, e) ↦ (value, e, ground arith, ground arith)
  ]

  -- The first row of an update that succeeded.
  data First (k st : String) (at : ℕ) (r : HistoryRow) (rest rows' : List HistoryRow) (hit : Bool)
      : Type 0 where
    matched :
        (rest' : List HistoryRow) (value : String) (hit' : Bool)
        → r.txid ≡ k
        → cast status st ≡ some value
        → is_status value ≡ true
        → rows' ≡ changed value at r ∷ rest'
        → update_rows pg k st at rest ≡ some (rest', hit')
        → First k st at r rest rows' hit
    passed :
        (rest' : List HistoryRow)
        → r.txid ≢ k
        → rows' ≡ r ∷ rest'
        → update_rows pg k st at rest ≡ some (rest', hit)
        → First k st at r rest rows' hit

  update_rows-First :
      (k st : String) (at : ℕ) (r : HistoryRow) (rest rows' : List HistoryRow) (hit : Bool)
      → update_rows pg k st at (r ∷ rest) ≡ some (rows', hit)
      → First k st at r rest rows' hit
  unfolding update_rows
  update_rows-First k st at r rest rows' hit h = elim (Option-cases (update_rows pg k st at rest)) [
    | inl e ↦ absurd (ground arith)
    | inr ((rest', hit'), e) ↦ elim (Bool-cases (str_eq r.txid k)) [
      | inr ne ↦ passed rest' (ground (arith, eq_iff r.txid k)) (ground arith) (ground arith)
      | inl same ↦ elim (Option-cases (set_status pg st at r)) [
        | inl f ↦ absurd (ground arith)
        | inr (r', f) ↦
            let (value, c, s, u) = set_status-some st at r r' f in
            matched rest' value hit' (ground (arith, eq_iff r.txid k)) c s (ground arith) e
      ]
    ]
  ]

  update_rows-other :
      (j k st : String) (at : ℕ) (rows rows' : List HistoryRow) (hit : Bool)
      → j ≢ k
      → update_rows pg k st at rows ≡ some (rows', hit)
      → history_of j rows' ≡ history_of j rows
  unfolding update_rows find_by changed
  update_rows-other j k st at [] rows' hit d h = ground arith
  update_rows-other j k st at (r ∷ rest) rows' hit d h =
      elim (update_rows-First k st at r rest rows' hit h) [
        | matched rest' value hit' e c s u below ↦
            ground (arith, eq_iff r.txid j, update_rows-other j k st at rest rest' hit' d below)
        | passed rest' e u below ↦
            ground (arith, update_rows-other j k st at rest rest' hit d below)
      ]

  pub update_rows-Updated :
      (k st : String) (at : ℕ) (rows rows' : List HistoryRow)
      → update_rows pg k st at rows ≡ some (rows', true)
      → Updated k st at rows rows'
  unfolding update_rows find_by changed
  update_rows-Updated k st at [] rows' h = absurd (ground arith)
  update_rows-Updated k st at (r ∷ rest) rows' h =
      elim (update_rows-First k st at r rest rows' true h) [
        | matched rest' value hit' e c s u below ↦ record {
          old = r;
          value = value;
          found = ground (arith, eq_iff r.txid k);
          stored = c;
          allowed = s;
          now_there = ground (arith, eq_iff r.txid k);
        }
        | passed rest' e u below ↦
            let more = update_rows-Updated k st at rest rest' below in
            record {
              old = more.old;
              value = more.value;
              found = ground (arith, eq_iff r.txid k, more.found);
              stored = more.stored;
              allowed = more.allowed;
              now_there = ground (arith, eq_iff r.txid k, more.now_there);
            }
      ]

  pub update_rows-miss :
      (k st : String) (at : ℕ) (rows rows' : List HistoryRow)
      → update_rows pg k st at rows ≡ some (rows', false)
      → (rows' ≡ rows) × (history_of k rows ≡ none)
  unfolding update_rows find_by
  update_rows-miss k st at [] rows' h = (ground arith, refl)
  update_rows-miss k st at (r ∷ rest) rows' h = elim (Option-cases (update_rows pg k st at rest)) [
    | inl e ↦ absurd (ground arith)
    | inr ((rest', hit'), e) ↦ ground (arith, update_rows-miss k st at rest rest')
  ]

  -- If a result is persisted without an error, the payment was in the history and is there now with
  -- that result as its status, an allowed one, and a new time of its update, the rest of its row as
  -- before; the rows of all other payments are as before. With an error no row is changed.
  pub persist_process_result-Updated :
      (lost : ℕ → Bool) (now : ℕ) (k result : String) (t : Tables)
      → let after = persist_process_result pg lost now k result t in
        ((after.0 ≡ ok tt)
          × Updated k result now t.tx_history after.1.tx_history
          × ((j : String) → j ≢ k → history_of j after.1.tx_history ≡ history_of j t.tx_history))
        ⊎ ((after.0 ≡ err external) × (after.1.tx_history ≡ t.tx_history))
  unfolding persist_process_result persist update_status
  persist_process_result-Updated lost now k result t = elim (Bool-cases (lost 0)) [
    | inl e ↦ rw (e, persist_process_result) (inr (refl, refl))
    | inr e ↦ elim (Option-cases (update_rows pg k result now t.tx_history)) [
      | inl f ↦ rw (e, f, persist_process_result, update_status) (inr (refl, refl))
      | inr ((rows', true), f) ↦
          rw (e, f, persist_process_result, update_status)
            (inl (
              refl,
              update_rows-Updated k result now t.tx_history rows' f,
              λ j d. update_rows-other j k result now t.tx_history rows' true d f,
            ))
      | inr ((rows', false), f) ↦
          rw (e, f, persist_process_result, update_status)
            (inr (refl, (update_rows-miss k result now t.tx_history rows' f).0))
    ]
  ]

  update_rows-hit :
      (k st : String) (at : ℕ) (rows : List HistoryRow) {row : HistoryRow}
      → cast status st ≡ some st
      → is_status st ≡ true
      → (rows' : List HistoryRow) × (hit : Bool) × (update_rows pg k st at rows ≡ some (rows', hit))
        × (history_of k rows ≡ some row → hit ≡ true)
  unfolding update_rows set_status find_by changed
  update_rows-hit k st at [] c h = ([], false, refl, λ e. absurd (ground arith))
  update_rows-hit k st at (r ∷ rest) {row} c h =
      let (rows', hit, e, found) = update_rows-hit k st at rest {row = row} c h in
      elim (Bool-cases (str_eq r.txid k)) [
        | inl same ↦ (changed st at r ∷ rows', true, rw (same, c, h, e) refl, λ f. refl)
        | inr other ↦ (r ∷ rows', hit, rw (other, e) refl, λ f. found (ground arith))
      ]

  -- A result that is an allowed status, and that the server keeps as it is, is persisted for a payment
  -- in the history, if the statement does not fail.
  pub persist_process_result-done :
      (lost : ℕ → Bool) (now : ℕ) (k result : String) (t : Tables) (row : HistoryRow)
      → lost 0 ≡ false
      → cast status result ≡ some result
      → is_status result ≡ true
      → history_of k t.tx_history ≡ some row
      → (persist_process_result pg lost now k result t).0 ≡ ok tt
  unfolding persist_process_result persist update_status
  persist_process_result-done lost now k result t row l c h f =
      let (rows', hit, e, found) = update_rows-hit k result now t.tx_history {row = row} c h in
      rw (l, e, found f, persist_process_result, update_status) refl
