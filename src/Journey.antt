-- ===== src/Journey.antt =====
-- The way of one payment through the parts: core/PaymentManagerService.go, adapters/secondary,
-- ProcessService/main.go and adapters/primary/kafka. The tables that each part leaves alone.
pub mod Handed
pub mod Settled
pub mod Constraints
pub mod Queues
pub mod Tracked
pub mod Answered
use cbtraining.Base.{
  ℕ, String, Bool, Bool-cases, List, [], ◌∷◌, ◌++◌, Option, none, some, ◌≡◌, ◌≢◌, refl, arith, All,
  str_eq, eq_iff, ◌∙◌, inl, inr, Option-cases,
}
use cbtraining.Errors.{Result, ok, err, panic}
use cbtraining.Ports.{PaymentResult}
use cbtraining.Entity.{Libs}
use cbtraining.Postgres.{OutboxRow, Tables, Server}
use cbtraining.Postgres.Sql.{find_by, update_status}
use cbtraining.Postgres.Repo.{persist_process_result, persist}
use cbtraining.Manager.{store_payment_result, as_infrastructure}
use cbtraining.Outbox.{Message, fetch_unsent, mark_sent, publish, after_fetch, run_once}
use cbtraining.Outbox.Run.{
  Signal, Tick, context_done, ticked, commit_events, tick_once, run_worker, by_txid, Alike,
}
use cbtraining.Consumer.{Round, stored, handle}

-- The outbox worker changes no table but its own.
abbrev pub SameRest : Tables → Tables → Type 0
SameRest t t' = (t'.tx_history ≡ t.tx_history) × (t'.pending ≡ t.pending)

module _ (pg : Server) (L : Libs) where
  mark_sent-SameRest :
      (lost : ℕ → Bool) (now : ℕ) (ids : List String) (t : Tables)
      → SameRest t (mark_sent pg lost now ids t).1
  unfolding mark_sent
  mark_sent-SameRest lost now [] t = (refl, refl)
  mark_sent-SameRest lost now (i ∷ ids) t = (ground arith, ground arith)

  tick_once-SameRest : (batch : ℕ) (k : Tick) (t : Tables) → SameRest t (tick_once pg L batch k t).0
  unfolding tick_once commit_events run_once after_fetch fetch_unsent
  tick_once-SameRest batch k t = elim (Bool-cases (k.lost 0)) [
    | inl e ↦ rw (e, tick_once, run_once, fetch_unsent) (refl, refl)
    | inr e ↦
        rw (e, tick_once, run_once, fetch_unsent)
          (mark_sent-SameRest k.lost k.now _ (commit_events k.added t))
  ]

  pub run_worker-SameRest :
      (batch : ℕ) (signals : List Signal) (t : Tables)
      → SameRest t (run_worker pg L batch signals t).0
  unfolding run_worker
  run_worker-SameRest batch [] t = (refl, refl)
  run_worker-SameRest batch (context_done ∷ rest) t = (refl, refl)
  run_worker-SameRest batch (ticked k ∷ rest) t =
      let (h, p) = tick_once-SameRest batch k t in
      let (h', p') = run_worker-SameRest batch rest (tick_once pg L batch k t).0 in (h' ∙ h, p' ∙ p)

  -- The consumer does not touch the pending payments.
  pub handle-pending :
      (unmarshal : String → Option PaymentResult) (r : Round) (offset : ℕ)
      (read : Option PaymentResult) (t : Tables) (offsets : List ℕ)
      → (handle pg L unmarshal r offset read t offsets).0.pending ≡ t.pending
  unfolding handle stored store_payment_result as_infrastructure persist_process_result persist
      update_status
  handle-pending unmarshal r offset none t offsets = refl
  handle-pending unmarshal r offset (some pr) t offsets = ground arith

-- Where no row has the TXID.
pub absent-Alike :
    (i : String) (r : OutboxRow) (rows : List OutboxRow)
    → find_by by_txid i rows ≡ none
    → All (Alike i r) rows
unfolding find_by
absent-Alike i r [] h = tt
absent-Alike i r (x ∷ rows) h =
    (λ e. absurd (ground (arith, eq_iff x.txid i)), absent-Alike i r rows (ground arith))
