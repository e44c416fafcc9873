-- ===== src/Dispatcher.antt =====
-- core/entity/dispather.go and core/entity/paymentGroup.go: the dispatcher with its groups, and where
-- each goroutine stands. A group's pointer is its place in `groups`.
pub mod Add
pub mod Worker
pub mod System
pub mod Moves
pub mod Ready
pub mod Shape
pub mod Mutex
pub mod Lost
pub mod Accepted
pub mod Runs
pub mod Routes
pub mod Routing
pub mod Calm
pub mod Exclusion
pub mod Overlap
pub mod Reentry
pub mod Line
pub mod Ends
pub mod Sends
pub mod Order
pub mod Apart
pub mod Measure
pub mod Descent
pub mod CallDescent
pub mod Termination
pub mod Cancelled
pub mod Shutdown
pub mod Starved
pub mod Partition
pub mod Slots
pub mod Conservation
use cbtraining.Base.{ℕ, String, List, [], Option, none, Bool, true, false}
use cbtraining.Entity.{PaymentTx}
use cbtraining.Errors.{Result}

-- Where the goroutine `runWorker(g)` stands.
pub data WorkerAt (D : Type 0) : Type 0 where
  selecting : WorkerAt D  -- the outer `select`
  processing : PaymentTx D → WorkerAt D  -- in `ProcessTX`, called from the outer loop
  deciding : WorkerAt D  -- `GrCtx` is done, before `Merging.Load`
  draining : WorkerAt D  -- the inner `select`
  drain_processing : PaymentTx D → WorkerAt D  -- in `ProcessTX`, called from the inner loop
  leaving : WorkerAt D  -- before the deferred `<-Semaphore`
  released : WorkerAt D  -- before the deferred `Wg.Done`
  stopped : WorkerAt D

pub record Group (D : Type 0) : Type 0 where
  pub ch : List (PaymentTx D)  -- the buffer, oldest first
  pub cancelled : Bool  -- `WorkerCancelSig` was called
  pub merging : Bool
  pub drain_ready : Bool  -- the channel `DrainReady` is closed
  pub wg : ℕ  -- the counter of `Wg`
  pub awaited : Bool  -- the goroutine of `NewGroup` is still in `Wg.Wait`
  pub worker : WorkerAt D

-- Where a call `add(tx)` stands.
pub data CallAt (D : Type 0) : Type 0 where
  calling : PaymentTx D → CallAt D  -- before `Mu.Lock`
  want_slot : PaymentTx D → CallAt D  -- the `select` on the semaphore
  has_slot : PaymentTx D → CallAt D  -- before the second `Mu.Lock`
  awaiting : PaymentTx D → ℕ → ℕ → CallAt D  -- the `select` on `gB.DrainReady`
  relocking : PaymentTx D → ℕ → ℕ → CallAt D  -- before `Mu.Lock` of the drain
  moving_next : PaymentTx D → ℕ → ℕ → CallAt D  -- the `select` of the drain, `Mu` held
  moving : PaymentTx D → ℕ → ℕ → PaymentTx D → CallAt D  -- `gA.Ch <- pending`, `Mu` held
  sending : PaymentTx D → ℕ → CallAt D  -- the last `select`
  counting : PaymentTx D → ℕ → CallAt D  -- before `g.Wg.Add(1)`
  returned : Result (Unit {0}) → CallAt D

-- `accepted` and `handled` are not in the code: they record what was sent to a channel by the last
-- `select` of `add`, and what `ProcessTX` has returned from.
pub record Dispatcher (D : Type 0) : Type 0 where
  pub iban_to_group : String → Option ℕ
  pub semaphore : ℕ  -- the tokens in the channel
  pub root_done : Bool  -- `RootCtx` is cancelled
  pub wg : ℕ  -- the counter of `Wg`
  pub mu : Option ℕ  -- the call that holds `Mu` from one step to the next
  pub groups : List (Group D)
  pub calls : List (CallAt D)
  pub panicked : Bool  -- a counter went below zero: the process is gone
  pub accepted : List (PaymentTx D)
  pub handled : List (PaymentTx D)

-- consts.ChanBuffer
abbrev pub chan_buffer : ℕ
chan_buffer = 100

-- With its worker started, as `add` does in the same critical section.
abbrev pub new_group : {D : Type 0} → Group D
new_group = record {
  ch = [];
  cancelled = false;
  merging = false;
  drain_ready = false;
  wg = 0;
  awaited = true;
  worker = selecting;
}

abbrev pub new_dispatcher : {D : Type 0} → Dispatcher D
new_dispatcher = record {
  iban_to_group = λ _. none;
  semaphore = 0;
  root_done = false;
  wg = 0;
  mu = none;
  groups = [];
  calls = [];
  panicked = false;
  accepted = [];
  handled = [];
}
