-- ===== src/Consumer.antt =====
-- adapters/primary/kafka/consumer.go: the loop of the consumer, over what the reader returns.
pub mod Commits
pub mod Laws
use cbtraining.Base.{ℕ, String, Bool, true, false, List, [], ◌∷◌, Option, none, some}
use cbtraining.Errors.{Result, ok, err, panic}
use cbtraining.Ports.{PaymentResult}
use cbtraining.Entity.{Libs}
use cbtraining.Postgres.{Tables, Server}
use cbtraining.Manager.{store_payment_result}

-- What `FetchMessage` returns.
pub data Fetched : Type 0 where
  context_done : Fetched  -- an error, and `ctx.Err` is not nil
  read_error : Fetched
  message : ℕ → String → Fetched  -- an offset and a value

-- A round of the loop: what it reads, and how the server and the broker behave in it.
pub record Round : Type 0 where
  pub fetched : Fetched
  pub lost : ℕ → Bool
  pub now : ℕ
  pub commits : Bool  -- `CommitMessages` succeeds

module _ (pg : Server) (L : Libs) (unmarshal : String → Option PaymentResult) where
  -- `CommitMessages`, whose error is only logged
  unfoldable pub commit : Bool → ℕ → List ℕ → List ℕ
  commit true offset offsets = offset ∷ offsets
  commit false offset offsets = offsets

  -- The offset is committed after the result is stored.
  unfoldable pub stored : Round → ℕ → Result (Unit {0}) × Tables → List ℕ → Tables × List ℕ
  unfolding commit
  stored r offset (ok u, t) offsets = (t, commit r.commits offset offsets)
  stored r offset (err e, t) offsets = (t, offsets)
  stored r offset (panic, t) offsets = (t, offsets)

  unfoldable pub handle : Round → ℕ → Option PaymentResult → Tables → List ℕ → Tables × List ℕ
  unfolding stored
  handle r offset none t offsets = (t, offsets)
  handle r offset (some pr) t offsets =
      stored r offset (store_payment_result pg L r.lost r.now pr t) offsets

  -- What a round leaves behind, or `none` where the loop ends.
  unfoldable pub next_round : Fetched → Round → Tables → List ℕ → Option (Tables × List ℕ)
  unfolding handle
  next_round context_done r t offsets = none
  next_round read_error r t offsets = some (t, offsets)
  next_round (message offset value) r t offsets = some (handle r offset (unmarshal value) t offsets)

  -- The tables and the committed offsets, the last one first, after the rounds.
  unfoldable pub run_consumer : List Round → Tables → List ℕ → Tables × List ℕ
  unfolding next_round
  run_consumer [] t offsets = (t, offsets)
  run_consumer (r ∷ rest) t offsets = elim (next_round r.fetched r t offsets) [
    | none ↦ (t, offsets)
    | some (t', offsets') ↦ run_consumer rest t' offsets'
  ]
