-- ===== src/Outbox/Drain.antt =====
-- Rounds of adapters/secondary/outbox/outboxWorker.go in which nothing fails, and no other transaction
-- adds or locks a row.
use cbtraining.Base.{
  ℕ, ◌+◌, ◌*◌, ◌≤◌, String, Bool, true, false, List, [], ◌∷◌, none, some, ◌≡◌, ◌≢◌, ◌⊎◌, inl, inr,
  arith, Option-cases, Bool-cases, refl, length, All, ◌∙◌, ap, append-nil, sym, subst,
}
use cbtraining.Entity.{Libs}
use cbtraining.Postgres.{OutboxRow, Tables, Server}
use cbtraining.Postgres.Sql.{find_by}
use cbtraining.Outbox.{
  is_unsent, unsent_rows, sort_events, limit, fetch_unsent, contains, mark_rows, mark_sent, Message,
  message_of, publish, after_fetch, run_once,
}
use cbtraining.Outbox.Producer.{KafkaMessage, send}
use cbtraining.Outbox.Laws.{sort_events-All, limit-All}
use cbtraining.Outbox.Run.{
  Alike, AddsAlike, Tick, Signal, context_done, ticked, commit_events, tick_once, run_worker,
  by_txid, Delivered, run_worker-Sent,
}
use cbtraining.Outbox.Marks.{
  unlocked, unsent, sum-sort_events, sum-limit-le, length-sort_events, length-limit, listed,
  unsent-mark_rows, txids, listed-all, mark_rows-nil,
}

module _ (pg : Server) (L : Libs) where
  -- The payload can be read.
  abbrev pub IsReadable : OutboxRow → Type 0
  IsReadable r = L.payload_txid r.payload ≢ none

  -- No other transaction adds or locks a row, the statements succeed, and Kafka takes each message.
  pub record IsHealthy (k : Tick) : Type 0 where
    pub quiet : k.added ≡ []
    pub fetches : k.lost 0 ≡ false
    pub marks : k.lost 1 ≡ false
    pub unlocked_rows : k.locked ≡ unlocked
    pub sends : (m : KafkaMessage) → k.write m ≡ true

  abbrev pub IsHealthySignal : Signal → Type 0
  IsHealthySignal context_done = ⊥
  IsHealthySignal (ticked k) = IsHealthy k

  publish-txids :
      (sends : Message → Bool) (rows : List OutboxRow)
      → ((m : Message) → sends m ≡ true)
      → All IsReadable rows
      → (publish L sends rows).0 ≡ txids rows
  unfolding publish
  publish-txids sends [] s q = refl
  publish-txids sends (e ∷ rest) s q = elim (Option-cases (L.payload_txid e.payload)) [
    | inl x ↦ absurd (q.0 x)
    | inr (key, x) ↦ ground (arith, s (message_of L sends e key), publish-txids sends rest s q.1)
  ]

  unsent_rows-IsReadable :
      (rows : List OutboxRow) → All IsReadable rows → All IsReadable (unsent rows)
  unfolding unsent_rows
  unsent_rows-IsReadable [] q = tt
  unsent_rows-IsReadable (r ∷ rest) q = ground (arith, unsent_rows-IsReadable rest)

  mark_rows-IsReadable :
      (ids : List String) (now : ℕ) (rows : List OutboxRow)
      → All IsReadable rows
      → All IsReadable (mark_rows ids now rows)
  unfolding mark_rows
  mark_rows-IsReadable ids now [] q = tt
  mark_rows-IsReadable ids now (r ∷ rest) q = elim (Bool-cases (contains r.txid ids)) [
    | inl e ↦ rw (e, mark_rows) ((q.0, mark_rows-IsReadable ids now rest q.1))
    | inr e ↦ rw (e, mark_rows) ((q.0, mark_rows-IsReadable ids now rest q.1))
  ]

  mark_sent-outbox :
      (lost : ℕ → Bool) (now : ℕ) (ids : List String) (t : Tables)
      → lost 1 ≡ false
      → (mark_sent pg lost now ids t).1.outbox ≡ mark_rows ids (pg.stamp now) t.outbox
  unfolding mark_sent
  mark_sent-outbox lost now [] t h = ground (arith, mark_rows-nil (pg.stamp now) t.outbox)
  mark_sent-outbox lost now (i ∷ ids) t h = ground arith

  events : ℕ → Tables → List OutboxRow
  events batch t = limit batch (sort_events (unsent t.outbox))

  run_once-outbox :
      (sends : Message → Bool) (lost : ℕ → Bool) (batch now : ℕ) (t : Tables)
      → ((m : Message) → sends m ≡ true)
      → lost 0 ≡ false
      → lost 1 ≡ false
      → All IsReadable t.outbox
      → (run_once pg L sends lost unlocked batch now t).0.outbox
        ≡ mark_rows (txids (events batch t)) (pg.stamp now) t.outbox
  unfolding run_once after_fetch fetch_unsent events
  run_once-outbox sends lost batch now t s f m q =
      let readable : All IsReadable (events batch t) =
        limit-All IsReadable batch _
          (sort_events-All IsReadable _ (unsent_rows-IsReadable t.outbox q)) in
      rw (f, run_once, fetch_unsent)
        (mark_sent-outbox lost now (publish L sends (events batch t)).0 t m
          ∙ ap (λ (ids : List String). mark_rows ids (pg.stamp now) t.outbox)
              (publish-txids sends (events batch t) s readable))

  commit_nothing : (t : Tables) → commit_events [] t ≡ t
  unfolding commit_events
  commit_nothing t =
      ap (λ (rows : List OutboxRow). record t { outbox = rows }) (append-nil t.outbox)

  tick_once-outbox :
      (batch : ℕ) (k : Tick) (t : Tables)
      → IsHealthy k
      → All IsReadable t.outbox
      → (tick_once pg L batch k t).0.outbox
        ≡ mark_rows (txids (events batch t)) (pg.stamp k.now) t.outbox
  unfolding tick_once send
  tick_once-outbox batch k t h q =
      let once =
        run_once-outbox (send k.write) k.lost batch k.now t (λ m. h.sends _) h.fetches h.marks q in
      subst
        (λ (u : Tables).
          (run_once pg L (send k.write) k.lost k.locked batch k.now u).0.outbox
          ≡ mark_rows (txids (events batch t)) (pg.stamp k.now) t.outbox)
        {x = t} {y = commit_events k.added t}
        (sym (ap (λ (rows : List OutboxRow). commit_events rows t) h.quiet ∙ commit_nothing t))
        (subst
          (λ (locked : String → Bool).
            (run_once pg L (send k.write) k.lost locked batch k.now t).0.outbox
            ≡ mark_rows (txids (events batch t)) (pg.stamp k.now) t.outbox)
          {x = unlocked} {y = k.locked} (sym h.unlocked_rows) once)

  -- A round takes a whole batch off the unsent rows, or all of them.
  mark_rows-events :
      (batch now : ℕ) (t : Tables)
      → let left = length (unsent (mark_rows (txids (events batch t)) now t.outbox)) in
        (left + batch ≤ length (unsent t.outbox)) ⊎ (left ≡ 0)
  unfolding events
  mark_rows-events batch now t =
      let ids = txids (events batch t) in
      ground (
        arith,
        unsent-mark_rows ids now t.outbox,
        sum-sort_events (listed ids) (unsent t.outbox),
        sum-limit-le (listed ids) batch (sort_events (unsent t.outbox)),
        listed-all ids (events batch t) (λ k. λ e. e),
        length-limit batch (sort_events (unsent t.outbox)),
        length-sort_events (unsent t.outbox),
      )

  tick_once-left :
      (batch : ℕ) (k : Tick) (t : Tables)
      → IsHealthy k
      → All IsReadable t.outbox
      → let left = length (unsent (tick_once pg L batch k t).0.outbox) in
        (left + batch ≤ length (unsent t.outbox)) ⊎ (left ≡ 0)
  tick_once-left batch k t h q =
      rw (tick_once-outbox batch k t h q) (mark_rows-events batch (pg.stamp k.now) t)

  tick_once-IsReadable :
      (batch : ℕ) (k : Tick) (t : Tables)
      → IsHealthy k
      → All IsReadable t.outbox
      → All IsReadable (tick_once pg L batch k t).0.outbox
  tick_once-IsReadable batch k t h q =
      rw (tick_once-outbox batch k t h q)
        (mark_rows-IsReadable (txids (events batch t)) (pg.stamp k.now) t.outbox q)

  run_worker-left :
      (batch : ℕ) (signals : List Signal) (t : Tables)
      → All IsHealthySignal signals
      → All IsReadable t.outbox
      → length (unsent t.outbox) ≤ length signals * batch
      → length (unsent (run_worker pg L batch signals t).0.outbox) ≡ 0
  unfolding run_worker
  run_worker-left batch [] t h q l = omega arith
  run_worker-left batch (context_done ∷ rest) t h q l = absurd h.0
  run_worker-left batch (ticked k ∷ rest) t h q l =
      let once = tick_once pg L batch k t in
      run_worker-left batch rest once.0 h.1 (tick_once-IsReadable batch k t h.0 q)
        (ground (arith, tick_once-left batch k t h.0 q))

  find_by-unsent :
      (i : String) (rows : List OutboxRow) (r : OutboxRow)
      → find_by by_txid i rows ≡ some r
      → r.sent_at ≡ none
      → length (unsent rows) ≢ 0
  unfolding find_by unsent_rows is_unsent
  find_by-unsent i [] r h e = absurd (ground arith)
  find_by-unsent i (x ∷ rows) r h e = ground (arith, find_by-unsent i rows r)

  healthy-AddsAlike :
      (signals : List Signal) (i : String) (r : OutboxRow)
      → All IsHealthySignal signals
      → All (AddsAlike i r) signals
  healthy-AddsAlike [] i r h = tt
  healthy-AddsAlike (context_done ∷ rest) i r h = absurd h.0
  healthy-AddsAlike (ticked k ∷ rest) i r h = (
    subst (λ (rows : List OutboxRow). All (Alike i r) rows) (sym h.0.quiet) tt,
    healthy-AddsAlike rest i r h.1,
  )

  -- The outbox is emptied: if the payloads of its rows can be read, then after as many rounds as batches
  -- hold the unsent rows, in which no statement and no write to Kafka fails and no other transaction adds
  -- or locks a row, a row that was not sent, whose TXID stands only with its topic and payload, is marked
  -- as sent, and its message is among those that Kafka has taken.
  pub run_worker_delivers :
      (batch : ℕ) (signals : List Signal) (t : Tables) (i : String) (r : OutboxRow)
      → All IsHealthySignal signals
      → All IsReadable t.outbox
      → All (Alike i r) t.outbox
      → length (unsent t.outbox) ≤ length signals * batch
      → find_by by_txid i t.outbox ≡ some r
      → r.sent_at ≡ none
      → let after = run_worker pg L batch signals t in
        (at : ℕ) × (find_by by_txid i after.0.outbox ≡ some (record r { sent_at = some at }))
        × Delivered pg L batch r.topic r.payload after.1
  run_worker_delivers batch signals t i r h q own l f e =
      elim (run_worker-Sent pg L batch signals t i r own (healthy-AddsAlike signals i r h) f) [
        | inl same ↦ absurd (
            find_by-unsent i (run_worker pg L batch signals t).0.outbox r same e
              (run_worker-left batch signals t h q l))
        | inr x ↦ x
      ]
