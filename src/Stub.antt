-- ===== src/Stub.antt =====
-- ProcessService/main.go: the stand-in for the external service that processes payments. A message is
-- handled in a goroutine of its own; here is what one of them does.
pub mod Laws
use Prim.Native.Nat.{◌%◌}
use cbtraining.Base.{
  List, [], ◌∷◌, ℕ, ◌+◌, ◌-◌, String, Bool, true, false, Option, none, some, ltb, if◌then◌else◌,
  str_eq,
}
use cbtraining.Errors.{Result, ok, panic}
use cbtraining.Ports.{PaymentResult}
use cbtraining.Outbox.{Message}

-- The flags; the delays are not negative.
pub record Settings : Type 0 where
  pub topic_resp : String
  pub delay_min : ℕ
  pub delay_max : ℕ

-- What the goroutine meets: the random numbers, and whether its two calls of Kafka succeed.
pub record Attempt : Type 0 where
  pub number : ℕ  -- what `Intn` reduces
  pub fails : Bool  -- `rand.Float64() < failureRate`
  pub writes : Bool
  pub commits : Bool

pub record Incoming : Type 0 where
  pub key : String
  pub value : String

-- What the goroutine has done: the seconds that it slept, the message that it wrote, and whether it
-- committed the offset of its own message.
pub record Done : Type 0 where
  pub slept : ℕ
  pub reply : Option Message
  pub committed : Bool

unfoldable pub result_of : Bool → String → PaymentResult
result_of true txid = record {
  txid = txid;
  result = "failed";
  metadata = "simulated processing failure";
}
result_of false txid = record { txid = txid; result = "completed"; metadata = "" }

-- `rand.Intn` panics for a number that is not positive.
unfoldable pub delay : Settings → ℕ → Result ℕ
delay s number =
    if ltb s.delay_max s.delay_min
    then panic
    else ok (s.delay_min + number % (s.delay_max - s.delay_min + 1))

-- After `WriteMessages`.
unfoldable pub write_reply : Attempt → ℕ → Message → Done
write_reply a slept m =
    if a.writes
    then record { slept = slept; reply = some m; committed = a.commits }
    else record { slept = slept; reply = none; committed = false }

-- `read_txid` is what `json.Unmarshal` finds for the TXID of a `TXRequest`.
module _ (read_txid : String → Option String) (marshal : PaymentResult → String) where
  unfoldable pub answer : Settings → Attempt → Incoming → String → ℕ → Done
  unfolding write_reply result_of
  answer s a m txid slept =
      write_reply a slept
        (record { topic = s.topic_resp; key = m.key; value = marshal (result_of a.fails txid) })

  after_delay : Settings → Attempt → Incoming → String → Result ℕ → Result Done
  unfolding answer
  after_delay s a m txid (ok slept) = ok (answer s a m txid slept)
  after_delay s a m txid _ = panic

  unfoldable pub process : Settings → Attempt → Incoming → Result Done
  unfolding after_delay delay
  process s a m = elim (read_txid m.value) [
    | none ↦ ok (record { slept = 0; reply = none; committed = false })
    | some txid ↦ after_delay s a m txid (delay s a.number)
  ]

-- What `FetchMessage` returns.
pub data Fetch : Type 0 where
  shut : Fetch  -- an error, and `ctx.Err` is not nil
  not_read : Fetch
  got : Incoming → Fetch

-- The loop: the messages that goroutines are started for.
unfoldable pub listen : List Fetch → List Incoming
listen [] = []
listen (shut ∷ rest) = []
listen (not_read ∷ rest) = listen rest
listen (got m ∷ rest) = m ∷ listen rest
