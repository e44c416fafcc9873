-- ===== src/Outbox/Run.antt =====
-- `Run` of adapters/secondary/outbox/outboxWorker.go: rounds at each tick, until the context is done.
use cbtraining.Base.{
  refl, All, All-append, subst, ℕ, String, Bool, List, [], ◌∷◌, ◌++◌, some, ◌≡◌, ◌⊎◌, inl, inr,
  arith,
}
use mathlib.Core.List.{Memᴰ}
use cbtraining.Entity.{Libs}
use cbtraining.Postgres.{OutboxRow, Tables, Server}
use cbtraining.Postgres.Sql.{find_by}
use cbtraining.Outbox.{Message, message_of, run_once}
use cbtraining.Outbox.Producer.{KafkaMessage, send}
use cbtraining.Outbox.Laws.{Acknowledged, run_once-Acknowledged, run_once-All}

-- A tick, with how the server, other transactions and Kafka behave up to the next one.
pub record Tick : Type 0 where
  pub added : List OutboxRow  -- the events that other transactions have committed before it
  pub lost : ℕ → Bool
  pub locked : String → Bool
  pub now : ℕ
  pub write : KafkaMessage → Bool  -- `WriteMessages`

-- The case that the `select` takes.
pub data Signal : Type 0 where
  context_done : Signal
  ticked : Tick → Signal

unfoldable pub commit_events : List OutboxRow → Tables → Tables
commit_events added t = record t { outbox = t.outbox ++ added }

module _ (pg : Server) (L : Libs) (batch : ℕ) where
  unfoldable pub tick_once : Tick → Tables → Tables × List Message
  unfolding commit_events
  tick_once k t = run_once pg L (send k.write) k.lost k.locked batch k.now (commit_events k.added t)

  -- The tables after the signals, and the messages that Kafka has taken, the first one first.
  unfoldable pub run_worker : List Signal → Tables → Tables × List Message
  unfolding tick_once
  run_worker [] t = (t, [])
  run_worker (context_done ∷ rest) t = (t, [])
  run_worker (ticked k ∷ rest) t =
      let once = tick_once k t in let more = run_worker rest once.0 in (more.0, once.1 ++ more.1)

abbrev pub by_txid : OutboxRow → String
by_txid r = r.txid

Memᴰ-append_left {ℓ} : {A : Type ℓ} (x : A) (xs ys : List A) → Memᴰ x xs → Memᴰ x (xs ++ ys)
Memᴰ-append_left x [] ys m = elim m [ ]
Memᴰ-append_left x (y ∷ xs) ys (Memᴰ.head e) = Memᴰ.head e
Memᴰ-append_left x (y ∷ xs) ys (Memᴰ.tail m) = Memᴰ.tail (Memᴰ-append_left x xs ys m)

Memᴰ-append_right {ℓ} : {A : Type ℓ} (x : A) (xs ys : List A) → Memᴰ x ys → Memᴰ x (xs ++ ys)
Memᴰ-append_right x [] ys m = m
Memᴰ-append_right x (y ∷ xs) ys m = Memᴰ.tail (Memᴰ-append_right x xs ys m)

find_by-append :
    (k : String) (xs ys : List OutboxRow) (r : OutboxRow)
    → find_by by_txid k xs ≡ some r
    → find_by by_txid k (xs ++ ys) ≡ some r
unfolding find_by
find_by-append k [] ys r h = absurd (ground arith)
find_by-append k (x ∷ xs) ys r h = ground (arith, find_by-append k xs ys r)

-- A row with the TXID `i`, which is the key of the table, has the topic and the payload of `r`.
abbrev pub Alike : String → OutboxRow → OutboxRow → Type 0
Alike i r x = x.txid ≡ i → (x.topic ≡ r.topic) × (x.payload ≡ r.payload)

-- The rows that other transactions add are alike.
abbrev pub AddsAlike : String → OutboxRow → Signal → Type 0
AddsAlike i r context_done = Unit
AddsAlike i r (ticked k) = All (Alike i r) k.added

module _ (pg : Server) (L : Libs) (batch : ℕ) where
  -- The message for a topic and a payload, with the key that is read from it, is among the messages.
  pub record Delivered (topic payload : String) (taken : List Message) : Type 0 where
    pub key : String
    pub decoded : L.payload_txid payload ≡ some key
    pub among : Memᴰ (record { topic = topic; key = key; value = payload }) taken

  -- The row `r` is as before, or it is marked and its message is delivered.
  abbrev pub Sent : String → OutboxRow → Tables × List Message → Type 0
  Sent i r after =
      (find_by by_txid i after.0.outbox ≡ some r)
      ⊎ ((at : ℕ) × (find_by by_txid i after.0.outbox ≡ some (record r { sent_at = some at }))
          × Delivered r.topic r.payload after.1)

  Acknowledged-Delivered :
      (i : String) (r : OutboxRow) (sends : Message → Bool) (taken : List Message)
      → Acknowledged L sends (Alike i r) i taken
      → Delivered r.topic r.payload taken
  unfolding message_of
  Acknowledged-Delivered i r sends taken a =
      let (t, p) = a.holds a.of in
      record {
        key = a.key;
        decoded = ground (arith, a.decoded);
        among =
            subst (λ (m : Message). Memᴰ m taken)
              {x = record { topic = a.event.topic; key = a.key; value = a.event.payload }}
              {y = record { topic = r.topic; key = a.key; value = r.payload }} (rw (t, p) refl)
              a.delivered;
      }

  tick_once-Sent :
      (k : Tick) (t : Tables) (i : String) (r : OutboxRow)
      → All (Alike i r) t.outbox
      → All (Alike i r) k.added
      → find_by by_txid i t.outbox ≡ some r
      → Sent i r (tick_once pg L batch k t)
  unfolding tick_once commit_events
  tick_once-Sent k t i r q n h =
      let rows = All-append (Alike i r) t.outbox k.added q n in
      elim (run_once-Acknowledged pg L (send k.write) (Alike i r) k.lost k.locked batch k.now
        (commit_events k.added t) i r rows (find_by-append i t.outbox k.added r h)) [
          | inl same ↦ inl same
          | inr (changed, a) ↦
              inr (pg.stamp k.now, changed, Acknowledged-Delivered i r (send k.write) _ a)
        ]

  tick_once-Alike :
      (k : Tick) (t : Tables) (i : String) (r : OutboxRow)
      → All (Alike i r) t.outbox
      → All (Alike i r) k.added
      → All (Alike i r) (tick_once pg L batch k t).0.outbox
  unfolding tick_once commit_events
  tick_once-Alike k t i r q n =
      run_once-All pg L (send k.write) (Alike i r) k.lost k.locked batch k.now
        (commit_events k.added t) (λ x. λ at. λ h. h) (All-append (Alike i r) t.outbox k.added q n)

  before :
      {topic payload : String} {ys : List Message} (xs : List Message)
      → Delivered topic payload ys
      → Delivered topic payload (xs ++ ys)
  before {ys} xs d = record {
    key = d.key;
    decoded = d.decoded;
    among = Memᴰ-append_right _ xs ys d.among;
  }

  after :
      {topic payload : String} {xs : List Message} (ys : List Message)
      → Delivered topic payload xs
      → Delivered topic payload (xs ++ ys)
  after {xs} ys d = record {
    key = d.key;
    decoded = d.decoded;
    among = Memᴰ-append_left _ xs ys d.among;
  }

  -- Where the rows of the outbox and those that are added with the TXID of a row `r` have its topic and
  -- payload, whatever the server, Kafka and other transactions do between and in the rounds of the
  -- worker: at each time the row is as it was before the run, or it is marked as sent, its payload can
  -- be read, and its message is among those that Kafka has taken in the run.
  pub run_worker-Sent :
      (signals : List Signal) (t : Tables) (i : String) (r : OutboxRow)
      → All (Alike i r) t.outbox
      → All (AddsAlike i r) signals
      → find_by by_txid i t.outbox ≡ some r
      → Sent i r (run_worker pg L batch signals t)
  unfolding run_worker
  run_worker-Sent [] t i r q n h = inl h
  run_worker-Sent (context_done ∷ rest) t i r q n h = inl h
  run_worker-Sent (ticked k ∷ rest) t i r q n h =
      let once = tick_once pg L batch k t in
      let more = run_worker pg L batch rest once.0 in
      let rows = tick_once-Alike k t i r q n.0 in
      elim (tick_once-Sent k t i r q n.0 h) [
        | inl same ↦ elim (run_worker-Sent rest once.0 i r rows n.1 same) [
          | inl unsent ↦ inl unsent
          | inr (at, marked, d) ↦ inr (at, marked, before once.1 d)
        ]
        | inr (at, marked, d) ↦
            elim (run_worker-Sent rest once.0 i (record r { sent_at = some at }) rows n.1 marked) [
              | inl kept ↦ inr (at, kept, after more.1 d)
              | inr (later, marked_again, d') ↦ inr (later, marked_again, before once.1 d')
            ]
      ]
