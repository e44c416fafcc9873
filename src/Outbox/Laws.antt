-- ===== src/Outbox/Laws.antt =====
-- One round of adapters/secondary/outbox/outboxWorker.go.
use mathlib.Core.List.{Memᴰ}
use cbtraining.Base.{
  ℕ, zero, suc, ◌≤◌, String, Bool, true, List, [], ◌∷◌, some, str_eq, eq_iff, length, All, ◌≡◌,
  refl, arith, Bool-cases, Option-cases, ◌⊎◌, inl, inr,
}
use cbtraining.Entity.{Libs}
use cbtraining.Postgres.{OutboxRow, Tables, Server}
use cbtraining.Postgres.Sql.{find_by}
use cbtraining.Outbox.{
  unsent_rows, insert_event, sort_events, limit, fetch_unsent, contains, mark_rows, mark_sent,
  Message, message_of, publish, after_fetch, run_once,
}

-- What holds of every row.
module _ (P : OutboxRow → Type 0) where
  pub insert_event-All :
      (r : OutboxRow) (rows : List OutboxRow) → P r → All P rows → All P (insert_event r rows)
  unfolding insert_event
  insert_event-All r [] p h = (p, tt)
  insert_event-All r (q ∷ qs) p h = ground (arith, insert_event-All r qs)

  pub sort_events-All : (rows : List OutboxRow) → All P rows → All P (sort_events rows)
  unfolding sort_events
  sort_events-All [] h = tt
  sort_events-All (r ∷ rest) h =
      insert_event-All r (sort_events rest) h.0 (sort_events-All rest h.1)

  pub limit-All : (n : ℕ) (rows : List OutboxRow) → All P rows → All P (limit n rows)
  unfolding limit
  limit-All zero rows h = tt
  limit-All (suc n) [] h = tt
  limit-All (suc n) (r ∷ rest) h = (h.0, limit-All n rest h.1)

unsent_rows-All :
    (P : OutboxRow → Type 0) (locked : String → Bool) (rows : List OutboxRow)
    → All P rows
    → All P (unsent_rows locked rows)
unfolding unsent_rows
unsent_rows-All P locked [] h = tt
unsent_rows-All P locked (r ∷ rest) h = ground (arith, unsent_rows-All P locked rest)

limit-length : (n : ℕ) (rows : List OutboxRow) → length (limit n rows) ≤ n
unfolding limit
limit-length zero rows = omega arith
limit-length (suc n) [] = omega arith
limit-length (suc n) (r ∷ rest) = ground (arith, limit-length n rest)

find_by-mark_rows :
    (ids : List String) (now : ℕ) (k : String) (rows : List OutboxRow) (r : OutboxRow)
    → find_by (λ (x : OutboxRow). x.txid) k rows ≡ some r
    → (find_by (λ (x : OutboxRow). x.txid) k (mark_rows ids now rows) ≡ some r)
      ⊎ ((find_by (λ (x : OutboxRow). x.txid) k (mark_rows ids now rows)
            ≡ some (record r { sent_at = some now }))
          × (contains k ids ≡ true))
unfolding find_by mark_rows
find_by-mark_rows ids now k [] r h = absurd (ground arith)
find_by-mark_rows ids now k (x ∷ rows) r h =
    grind (arith, find_by-mark_rows ids now k rows r, eq_iff x.txid k)

module _ (L : Libs) (send : Message → Bool) where
  -- Kafka has taken the message of an event with the TXID `k`, of which `P` holds.
  pub record Acknowledged (P : OutboxRow → Type 0) (k : String) (taken : List Message)
      : Type 0 where
    pub event : OutboxRow
    pub key : String
    pub of : event.txid ≡ k
    pub holds : P event
    pub decoded : L.payload_txid event.payload ≡ some key
    pub accepted : send (message_of L send event key) ≡ true
    pub delivered : Memᴰ (message_of L send event key) taken

  publish-length : (rows : List OutboxRow) → length (publish L send rows).1 ≤ length rows
  unfolding publish
  publish-length [] = omega arith
  publish-length (e ∷ rest) = ground (arith, publish-length rest)

  more :
      {P : OutboxRow → Type 0} {k : String} {taken : List Message} (m : Message)
      → Acknowledged P k taken
      → Acknowledged P k (m ∷ taken)
  more m a = record {
    event = a.event;
    key = a.key;
    of = a.of;
    holds = a.holds;
    decoded = a.decoded;
    accepted = a.accepted;
    delivered = Memᴰ.tail a.delivered;
  }

  publish-Acknowledged :
      (P : OutboxRow → Type 0) (k : String) (rows : List OutboxRow)
      → All P rows
      → contains k (publish L send rows).0 ≡ true
      → Acknowledged P k (publish L send rows).1
  unfolding publish contains
  publish-Acknowledged P k [] u h = absurd (ground arith)
  publish-Acknowledged P k (e ∷ rest) u h =
      let later = publish-Acknowledged P k rest u.1 in
      elim (Option-cases (L.payload_txid e.payload)) [
        | inl x ↦ rw (x, publish) (later (ground arith))
        | inr (key, x) ↦ elim (Bool-cases (send (message_of L send e key))) [
          | inl y ↦ elim (Bool-cases (str_eq e.txid k)) [
            | inl z ↦
                rw (x, y, publish)
                  (record {
                    event = e;
                    key = key;
                    of = ground (arith, eq_iff e.txid k);
                    holds = u.0;
                    decoded = x;
                    accepted = y;
                    delivered = Memᴰ.head refl;
                  })
            | inr z ↦ rw (x, y, publish) (more _ (later (ground arith)))
          ]
          | inr y ↦ rw (x, y, publish) (later (ground arith))
        ]
      ]

batch_events : (String → Bool) → ℕ → Tables → List OutboxRow
batch_events locked batch t = limit batch (sort_events (unsent_rows locked t.outbox))

batch_events-All :
    (P : OutboxRow → Type 0) (locked : String → Bool) (batch : ℕ) (t : Tables)
    → All P t.outbox
    → All P (batch_events locked batch t)
unfolding batch_events
batch_events-All P locked batch t h =
    limit-All P batch _ (sort_events-All P _ (unsent_rows-All P locked t.outbox h))

mark_rows-All :
    (P : OutboxRow → Type 0) (ids : List String) (now : ℕ) (rows : List OutboxRow)
    → ((x : OutboxRow) (at : ℕ) → P x → P (record x { sent_at = some at }))
    → All P rows
    → All P (mark_rows ids now rows)
unfolding mark_rows
mark_rows-All P ids now [] m h = tt
mark_rows-All P ids now (r ∷ rest) m h = elim (Bool-cases (contains r.txid ids)) [
  | inl e ↦ rw (e, mark_rows) ((m r now h.0, mark_rows-All P ids now rest m h.1))
  | inr e ↦ rw (e, mark_rows) ((h.0, mark_rows-All P ids now rest m h.1))
]

module _ (pg : Server) (L : Libs) (send : Message → Bool) where
  -- A round gives at most `batch` messages to Kafka.
  pub run_once-batch :
      (lost : ℕ → Bool) (locked : String → Bool) (batch now : ℕ) (t : Tables)
      → length (run_once pg L send lost locked batch now t).1 ≤ batch
  unfolding run_once after_fetch fetch_unsent batch_events
  run_once-batch lost locked batch now t = elim (Bool-cases (lost 0)) [
    | inl e ↦ rw (e, run_once, fetch_unsent) (omega arith)
    | inr e ↦
        rw (e, run_once, fetch_unsent)
          (ground (
            arith,
            publish-length L send (batch_events locked batch t),
            limit-length batch (sort_events (unsent_rows locked t.outbox)),
          ))
  ]

  mark_sent-cases :
      (lost : ℕ → Bool) (now : ℕ) (ids : List String) (t : Tables) (k : String) (r : OutboxRow)
      → find_by (λ (x : OutboxRow). x.txid) k t.outbox ≡ some r
      → let after = (mark_sent pg lost now ids t).1.outbox in
        (find_by (λ (x : OutboxRow). x.txid) k after ≡ some r)
        ⊎ ((find_by (λ (x : OutboxRow). x.txid) k after
              ≡ some (record r { sent_at = some (pg.stamp now) }))
            × (contains k ids ≡ true))
  unfolding mark_sent
  mark_sent-cases lost now [] t k r h = inl h
  mark_sent-cases lost now (i ∷ ids) t k r h =
      ground (arith, find_by-mark_rows (i ∷ ids) (pg.stamp now) k t.outbox r h)

  mark_sent-All :
      (P : OutboxRow → Type 0) (lost : ℕ → Bool) (now : ℕ) (ids : List String) (t : Tables)
      → ((x : OutboxRow) (at : ℕ) → P x → P (record x { sent_at = some at }))
      → All P t.outbox
      → All P (mark_sent pg lost now ids t).1.outbox
  unfolding mark_sent
  mark_sent-All P lost now [] t m h = h
  mark_sent-All P lost now (i ∷ ids) t m h = elim (Bool-cases (lost 1)) [
    | inl e ↦ rw (e, mark_sent) h
    | inr e ↦ rw (e, mark_sent) (mark_rows-All P (i ∷ ids) (pg.stamp now) t.outbox m h)
  ]

  -- What holds of a row whether it is sent or not holds of the rows after a round.
  pub run_once-All :
      (P : OutboxRow → Type 0) (lost : ℕ → Bool) (locked : String → Bool) (batch now : ℕ)
      (t : Tables)
      → ((x : OutboxRow) (at : ℕ) → P x → P (record x { sent_at = some at }))
      → All P t.outbox
      → All P (run_once pg L send lost locked batch now t).0.outbox
  unfolding run_once after_fetch fetch_unsent batch_events
  run_once-All P lost locked batch now t m h = elim (Bool-cases (lost 0)) [
    | inl e ↦ rw (e, run_once, fetch_unsent) h
    | inr e ↦
        rw (e, run_once, fetch_unsent)
          (mark_sent-All P lost now (publish L send (batch_events locked batch t)).0 t m h)
  ]

  -- A row of the outbox is as before after a round, or it is marked with the time of the round and the
  -- message of an event with its TXID, of which `P` holds as of every row, is among those that Kafka
  -- took.
  pub run_once-Acknowledged :
      (P : OutboxRow → Type 0) (lost : ℕ → Bool) (locked : String → Bool) (batch now : ℕ)
      (t : Tables) (k : String) (r : OutboxRow)
      → All P t.outbox
      → find_by (λ (x : OutboxRow). x.txid) k t.outbox ≡ some r
      → let after = run_once pg L send lost locked batch now t in
        (find_by (λ (x : OutboxRow). x.txid) k after.0.outbox ≡ some r)
        ⊎ ((find_by (λ (x : OutboxRow). x.txid) k after.0.outbox
              ≡ some (record r { sent_at = some (pg.stamp now) }))
            × Acknowledged L send P k after.1)
  unfolding run_once after_fetch fetch_unsent batch_events
  run_once-Acknowledged P lost locked batch now t k r q h =
      let events = batch_events locked batch t in
      elim (Bool-cases (lost 0)) [
        | inl e ↦ rw (e, run_once, fetch_unsent) (inl h)
        | inr e ↦
            rw (e, run_once, fetch_unsent)
              (elim (mark_sent-cases lost now (publish L send events).0 t k r h) [
                | inl same ↦ inl same
                | inr (changed, known) ↦ inr (
                  changed,
                  publish-Acknowledged L send P k events (batch_events-All P locked batch t q)
                      known,
                )
              ])
      ]
