-- ===== src/Outbox/Marks.antt =====
-- What the query and the update of adapters/secondary/outbox/outbox.go do to the number of unsent rows.
use cbtraining.Base.{
  ℕ, zero, suc, ◌+◌, ◌≤◌, String, Bool, true, false, if◌then◌else◌, List, [], ◌∷◌, ◌≡◌, ◌⊎◌, inl,
  inr, arith, eq_refl, refl, length, sum,
}
use cbtraining.Postgres.{OutboxRow}
use cbtraining.Outbox.{
  is_unsent, unsent_rows, insert_event, sort_events, limit, contains, mark_rows,
}

abbrev pub unlocked : String → Bool
unlocked k = false

abbrev pub unsent : List OutboxRow → List OutboxRow
unsent rows = unsent_rows unlocked rows

-- A weight of rows under the clauses of the query.
module _ (w : OutboxRow → ℕ) where
  pub sum-insert_event :
      (r : OutboxRow) (rows : List OutboxRow) → sum w (insert_event r rows) ≡ w r + sum w rows
  unfolding insert_event
  sum-insert_event r [] = omega arith
  sum-insert_event r (q ∷ qs) = ground (arith, sum-insert_event r qs)

  pub sum-sort_events : (rows : List OutboxRow) → sum w (sort_events rows) ≡ sum w rows
  unfolding sort_events
  sum-sort_events [] = refl
  sum-sort_events (r ∷ rest) =
      ground (arith, sum-insert_event r (sort_events rest), sum-sort_events rest)

  pub sum-limit-le : (n : ℕ) (rows : List OutboxRow) → sum w (limit n rows) ≤ sum w rows
  unfolding limit
  sum-limit-le zero rows = omega arith
  sum-limit-le (suc n) [] = omega arith
  sum-limit-le (suc n) (r ∷ rest) = ground (arith, sum-limit-le n rest)

pub length-insert_event :
    (r : OutboxRow) (rows : List OutboxRow) → length (insert_event r rows) ≡ suc (length rows)
unfolding insert_event
length-insert_event r [] = refl
length-insert_event r (q ∷ qs) = ground (arith, length-insert_event r qs)

pub length-sort_events : (rows : List OutboxRow) → length (sort_events rows) ≡ length rows
unfolding sort_events
length-sort_events [] = refl
length-sort_events (r ∷ rest) =
    ground (arith, length-insert_event r (sort_events rest), length-sort_events rest)

pub length-limit :
    (n : ℕ) (rows : List OutboxRow)
    → (length (limit n rows) ≡ n) ⊎ (length (limit n rows) ≡ length rows)
unfolding limit
length-limit zero rows = inl refl
length-limit (suc n) [] = inr refl
length-limit (suc n) (r ∷ rest) = ground (arith, length-limit n rest)

-- 1 for a row whose TXID is one of `ids`.
abbrev pub listed : List String → OutboxRow → ℕ
listed ids r = if contains r.txid ids then 1 else 0

pub unsent-mark_rows :
    (ids : List String) (now : ℕ) (rows : List OutboxRow)
    → length (unsent (mark_rows ids now rows)) + sum (listed ids) (unsent rows)
      ≡ length (unsent rows)
unfolding mark_rows unsent_rows is_unsent
unsent-mark_rows ids now [] = refl
unsent-mark_rows ids now (r ∷ rest) = ground (arith, unsent-mark_rows ids now rest)

abbrev pub txids : List OutboxRow → List String
txids [] = []
txids (r ∷ rest) = r.txid ∷ txids rest

pub listed-all :
    (ids : List String) (rows : List OutboxRow)
    → ((k : String) → contains k (txids rows) ≡ true → contains k ids ≡ true)
    → sum (listed ids) rows ≡ length rows
unfolding contains
listed-all ids [] h = refl
listed-all ids (r ∷ rest) h =
    ground (arith, eq_refl r.txid, h r.txid, listed-all ids rest (λ k. λ e. h k (ground arith)))

pub mark_rows-nil : (now : ℕ) (rows : List OutboxRow) → mark_rows [] now rows ≡ rows
unfolding mark_rows contains
mark_rows-nil now [] = refl
mark_rows-nil now (r ∷ rest) = ground (arith, mark_rows-nil now rest)
