-- ===== src/Outbox.antt =====
-- adapters/secondary/outbox: the store of events, and one round of the worker that publishes them.
pub mod Producer
pub mod Laws
pub mod Run
pub mod Marks
pub mod Drain
use cbtraining.Base.{
  ℕ, zero, suc, String, Bool, true, false, not, ◌&&◌, ◌||◌, List, [], ◌∷◌, Option, none, some, leb,
  str_eq, if◌then◌else◌,
}
use cbtraining.Errors.{Result, ok, err, panic, external}
use cbtraining.Entity.{Libs}
use cbtraining.Postgres.{OutboxRow, Tables, Server}
use cbtraining.Postgres.Repo.{exec}

unfoldable pub is_unsent : Option ℕ → Bool
is_unsent none = true
is_unsent (some at) = false

-- WHERE sent_at IS NULL … SKIP LOCKED
unfoldable pub unsent_rows : (String → Bool) → List OutboxRow → List OutboxRow
unfolding is_unsent
unsent_rows locked [] = []
unsent_rows locked (r ∷ rest) =
    let more = unsent_rows locked rest in
    if is_unsent r.sent_at && not (locked r.txid) then r ∷ more else more

-- ORDER BY created_at ASC; the order of equal times is left to the server.
unfoldable pub insert_event : OutboxRow → List OutboxRow → List OutboxRow
insert_event r [] = r ∷ []
insert_event r (q ∷ qs) =
    let more = insert_event r qs in if leb r.created_at q.created_at then r ∷ q ∷ qs else q ∷ more

unfoldable pub sort_events : List OutboxRow → List OutboxRow
unfolding insert_event
sort_events [] = []
sort_events (r ∷ rest) = insert_event r (sort_events rest)

-- LIMIT
unfoldable pub limit : ℕ → List OutboxRow → List OutboxRow
limit zero rows = []
limit (suc n) [] = []
limit (suc n) (r ∷ rest) = r ∷ limit n rest

unfoldable pub fetch_unsent : (ℕ → Bool) → (String → Bool) → ℕ → Tables → Result (List OutboxRow)
unfolding unsent_rows sort_events limit
fetch_unsent lost locked batch t =
    exec lost 0 (some (limit batch (sort_events (unsent_rows locked t.outbox))))

unfoldable pub contains : String → List String → Bool
contains k [] = false
contains k (x ∷ xs) = str_eq x k || contains k xs

-- SET sent_at = NOW() WHERE txid = ANY
unfoldable pub mark_rows : List String → ℕ → List OutboxRow → List OutboxRow
unfolding contains
mark_rows ids now [] = []
mark_rows ids now (r ∷ rest) =
    let more = mark_rows ids now rest in
    if contains r.txid ids then record r { sent_at = some now } ∷ more else r ∷ more

module _ (pg : Server) where
  -- No statement is sent for an empty list.
  unfoldable pub mark_sent : (ℕ → Bool) → ℕ → List String → Tables → Result (Unit {0}) × Tables
  unfolding mark_rows
  mark_sent lost now [] t = (ok tt, t)
  mark_sent lost now (i ∷ ids) t =
      if lost 1
      then (err external, t)
      else (ok tt, record t { outbox = mark_rows (i ∷ ids) (pg.stamp now) t.outbox })

-- kfproducer.Message
pub record Message : Type 0 where
  pub topic : String
  pub key : String
  pub value : String

module _ (L : Libs) (send : Message → Bool) where
  open L use {payload_txid}

  unfoldable pub message_of : OutboxRow → String → Message
  message_of e key = record { topic = e.topic; key = key; value = e.payload }

  -- The TXIDs of the events whose `Send` succeeded, and the messages that it took.
  unfoldable pub publish : List OutboxRow → List String × List Message
  unfolding message_of
  publish [] = ([], [])
  publish (e ∷ rest) =
      let later = publish rest in
      elim (payload_txid e.payload) [
        | none ↦ later
        | some key ↦
            if send (message_of e key)
            then (e.txid ∷ later.0, message_of e key ∷ later.1)
            else later
      ]

-- `runOnce`: the tables after it, and the messages that Kafka has taken.
module _ (pg : Server) (L : Libs) (send : Message → Bool) where
  unfoldable pub after_fetch :
      (ℕ → Bool) → ℕ → Tables → Result (List OutboxRow) → Tables × List Message
  unfolding publish mark_sent
  after_fetch lost now t (ok events) =
      let (ids, messages) = publish L send events in ((mark_sent pg lost now ids t).1, messages)
  after_fetch lost now t (err e) = (t, [])
  after_fetch lost now t panic = (t, [])

  unfoldable pub run_once : (ℕ → Bool) → (String → Bool) → ℕ → ℕ → Tables → Tables × List Message
  unfolding after_fetch fetch_unsent
  run_once lost locked batch now t = after_fetch lost now t (fetch_unsent lost locked batch t)
