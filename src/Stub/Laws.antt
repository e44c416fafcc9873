-- ===== src/Stub/Laws.antt =====
-- What a goroutine of ProcessService/main.go does, and what the consumer of the service makes of its
-- answer.
use Prim.Native.Nat.{◌%◌}
use native.Mathlib.Nat.{mod-lt}
use cbtraining.Base.{
  ℕ, ◌+◌, ◌-◌, ◌≤◌, ◌<◌, ◌≡◌, ◌⊎◌, inl, inr, refl, arith, String, List, Bool, true, false, Option,
  none, some, Bool-cases, ltb, ap, sym, ◌∙◌,
}
use cbtraining.Errors.{Result, ok, err, panic}
use cbtraining.Ports.{PaymentResult}
use cbtraining.Entity.{Libs}
use cbtraining.Postgres.{HistoryRow, Tables, Server, status}
use cbtraining.Postgres.Sql.{is_status}
use cbtraining.Postgres.Repo.{persist_process_result}
use cbtraining.Postgres.Stored.{
  history_of, persist_process_result-Updated, persist_process_result-done,
}
use cbtraining.Manager.{store_payment_result, as_infrastructure}
use cbtraining.Outbox.{Message}
use cbtraining.Consumer.{Round, commit, stored, handle}
use cbtraining.Stub.{
  Settings, Attempt, Incoming, Done, result_of, delay, write_reply, answer, process,
}

-- The final statuses of a payment.
abbrev pub IsFinal : String → Type 0
IsFinal s = (s ≡ "completed") ⊎ (s ≡ "failed")

result_of-IsFinal : (fails : Bool) (txid : String) → IsFinal (result_of fails txid).result
unfolding result_of
result_of-IsFinal true txid = inr refl
result_of-IsFinal false txid = inl refl

IsFinal-is_status : (s : String) → IsFinal s → is_status s ≡ true
unfolding is_status
IsFinal-is_status s (inl e) = rw e refl
IsFinal-is_status s (inr e) = rw e refl

result_of-txid : (fails : Bool) (txid : String) → (result_of fails txid).txid ≡ txid
unfolding result_of
result_of-txid true txid = refl
result_of-txid false txid = refl

-- `CommitMessages` comes after `WriteMessages`, for the payment of the message, after a delay in
-- the bounds.
pub record Handled (marshal : PaymentResult → String) (s : Settings) (a : Attempt) (m : Incoming)
    (txid : String) (d : Done) : Type 0 where
  pub least : s.delay_min ≤ d.slept
  pub most : d.slept ≤ s.delay_max
  pub replied :
      (a.writes ≡ true)
      → d.reply
        ≡ some
            (record { topic = s.topic_resp; key = m.key; value = marshal (result_of a.fails txid) })
  pub silent : (a.writes ≡ false) → (d.reply ≡ none) × (d.committed ≡ false)

module _ (read_txid : String → Option String) (marshal : PaymentResult → String) where
  answer-Handled :
      (s : Settings) (a : Attempt) (m : Incoming) (txid : String) (slept : ℕ)
      → s.delay_min ≤ slept
      → slept ≤ s.delay_max
      → Handled marshal s a m txid (answer read_txid marshal s a m txid slept)
  unfolding answer write_reply
  answer-Handled s a m txid slept l h = elim (Bool-cases a.writes) [
    | inl e ↦ rw e (record { least = l; most = h; replied = λ q. refl; silent = λ q. absurd (cc) })
    | inr e ↦
        rw e
          (record { least = l; most = h; replied = λ q. absurd (cc); silent = λ q. (refl, refl) })
  ]

  pub process-Handled :
      (s : Settings) (a : Attempt) (m : Incoming) (txid : String)
      → read_txid m.value ≡ some txid
      → s.delay_min ≤ s.delay_max
      → (d : Done) × (process read_txid marshal s a m ≡ ok d) × Handled marshal s a m txid d
  unfolding process delay write_reply
  process-Handled s a m txid e l =
      let slept : ℕ = s.delay_min + a.number % (s.delay_max - s.delay_min + 1) in
      let below : a.number % (s.delay_max - s.delay_min + 1) < s.delay_max - s.delay_min + 1 =
        mod-lt a.number (omega arith) in
      let fits : ltb s.delay_max s.delay_min ≡ false = ground arith in
      (
        answer read_txid marshal s a m txid slept,
        rw (e, fits, process, delay) refl,
        answer-Handled s a m txid slept (omega arith) (omega arith),
      )

  module _ (pg : Server) (L : Libs) (unmarshal : String → Option PaymentResult) where
    open pg use {cast}

    stored_ok :
        (r : Round) (offset : ℕ) (p : Result (Unit {0}) × Tables) (offsets : List ℕ)
        → p.0 ≡ ok tt
        → stored pg L unmarshal r offset (as_infrastructure pg L p) offsets
          ≡ (p.1, commit pg L unmarshal r.commits offset offsets)
    unfolding stored as_infrastructure
    stored_ok r offset (ok tt, t) offsets e = refl
    stored_ok r offset (err x, t) offsets e = absurd (cc)
    stored_ok r offset (panic, t) offsets e = absurd (cc)

    -- The consumer stores a final status of a payment in the history.
    IsFinal-stored :
        (r : Round) (offset : ℕ) (t : Tables) (offsets : List ℕ) (pr : PaymentResult)
        (row : HistoryRow)
        → cast status pr.result ≡ some pr.result
        → is_status pr.result ≡ true
        → r.lost 0 ≡ false
        → history_of pr.txid t.tx_history ≡ some row
        → let after = handle pg L unmarshal r offset (some pr) t offsets in
          (after.1 ≡ commit pg L unmarshal r.commits offset offsets)
          × (history_of pr.txid after.0.tx_history
              ≡ some (record row { status = pr.result; updated_at = pg.stamp r.now }))
    unfolding handle store_payment_result
    IsFinal-stored r offset t offsets pr row c st live known =
        let p : Result (Unit {0}) × Tables =
          persist_process_result pg r.lost r.now pr.txid pr.result t in
        let done : p.0 ≡ ok tt =
          persist_process_result-done pg r.lost r.now pr.txid pr.result t row live c st known in
        let kept : stored pg L unmarshal r offset (as_infrastructure pg L p) offsets
            ≡ (p.1, commit pg L unmarshal r.commits offset offsets) =
          stored_ok r offset p offsets done in
        elim (persist_process_result-Updated pg r.lost r.now pr.txid pr.result t) [
          | inl (o, u, others) ↦
              let same : u.value ≡ pr.result = ground (arith, u.stored) in
              let there : u.old ≡ row = ground (arith, u.found) in
              (
                ap (λ x. x.1) kept,
                ap (λ x. history_of pr.txid x.0.tx_history) kept
                    ∙ u.now_there
                    ∙ rw (same, there) refl,
              )
          | inr (o, same) ↦ absurd (ground arith)
        ]

    -- Whatever the random numbers, the message that a goroutine of the stub writes for a payment in the
    -- history is one that the consumer stores: it commits the offset if its own commit succeeds, and
    -- the payment then has one of the two final statuses. For a server that keeps the texts of these
    -- statuses, a consumer that reads back the result that the stub has written, and a statement that does not fail.
    pub reply_stored :
        (s : Settings) (a : Attempt) (m : Incoming) (txid : String) (r : Round) (offset : ℕ)
        (t : Tables) (offsets : List ℕ) (row : HistoryRow)
        → read_txid m.value ≡ some txid
        → s.delay_min ≤ s.delay_max
        → a.writes ≡ true
        → unmarshal (marshal (result_of a.fails txid)) ≡ some (result_of a.fails txid)
        → ((st : String) → IsFinal st → cast status st ≡ some st)
        → r.lost 0 ≡ false
        → history_of txid t.tx_history ≡ some row
        → (d : Done) × (reply : Message) × (process read_txid marshal s a m ≡ ok d)
          × (d.reply ≡ some reply)
          × (let after = handle pg L unmarshal r offset (unmarshal reply.value) t offsets in
              (after.1 ≡ commit pg L unmarshal r.commits offset offsets)
              × (st : String) × IsFinal st
              × (history_of txid after.0.tx_history
                  ≡ some (record row { status = st; updated_at = pg.stamp r.now })))
    reply_stored s a m txid r offset t offsets row e l w back keeps live known =
        let pr : PaymentResult = result_of a.fails txid in
        let (d, done, v) = process-Handled s a m txid e l in
        let final : IsFinal pr.result = result_of-IsFinal a.fails txid in
        let mine : pr.txid ≡ txid = result_of-txid a.fails txid in
        let (committed, there) =
          IsFinal-stored r offset t offsets pr row (keeps pr.result final)
            (IsFinal-is_status pr.result final) live
            (ap (λ k. history_of k t.tx_history) mine ∙ known) in
        (
          d,
          record { topic = s.topic_resp; key = m.key; value = marshal pr },
          done,
          v.replied w,
          rw back (
            committed,
            pr.result,
            final,
            ap (λ k. history_of k (handle pg L unmarshal r offset (some pr) t offsets).0.tx_history)
                  (sym mine)
                ∙ there,
          ),
        )
