-- ===== src/Service.antt =====
-- cmd/server/main.go: how the service starts and ends, as what `main` does in order. The goroutines
-- that it starts are in Outbox, Consumer, Http and Dispatcher. Once the service listens, a signal arrives
-- and `Wg.Wait` returns.
pub mod Startup
use cbtraining.Base.{
  ℕ, zero, suc, ℤ, pos, negsuc, String, Bool, true, false, List, [], ◌∷◌, ◌++◌, if◌then◌else◌,
}
use cbtraining.Errors.{Result, ok, err, panic}
use cbtraining.Entity.{Libs, PaymentTx}
use cbtraining.Postgres.{Tables, Server}
use cbtraining.Manager.{World, Outcome, panding_recovery}
use cbtraining.Config.{Environment, Config, dsn, load}

pub data Event (D : Type 0) : Type 0 where
  opens_pool : String → Event D
  pings : Event D
  starts_outbox : ℤ → ℤ → Event D  -- the size of a batch, and the interval
  starts_consumer : String → String → Event D  -- a topic and a group
  gives : PaymentTx D → Event D  -- the recovery calls `add`
  listens : String → Event D
  stops_http : Event D
  closes_reader : Event D
  cancels_root : Event D
  waits_workers : Event D  -- `Shutdown` of the service
  closes_writer : Event D
  closes_pool : Event D

pub data Exit : Type 0 where
  returned : Exit
  exited : Exit  -- `os.Exit(1)`
  panicked : Exit
  stuck : Exit  -- a call of `add` in the recovery does not return

abbrev pub Run : Type 0 → Type 0
Run D = List (Event D) × Exit

-- What the libraries answer.
pub record Outside (D : Type 0) : Type 0 where
  pub env : Environment
  pub opens : String → Bool  -- `pgxpool.New`
  pub answers : Bool  -- `Ping`
  pub world : World D
  pub blocks : PaymentTx D → Bool  -- `add` does not come back: its answer in `world` is not used
  pub reader : String → String → Bool  -- `kafka.NewReader` takes the topic and the group
  pub ahead : ℕ  -- what `main` still does before the panic of another goroutine ends the process

-- `make(chan struct{}, maxWorkers)` panics on a negative size.
unfoldable pub new_payment_manager_service : ℤ → Result (Unit {0})
new_payment_manager_service (pos n) = ok tt
new_payment_manager_service (negsuc n) = panic

module _ {D : Type 0} where
  unfoldable pub after : List (Event D) → Run D → Run D
  after before (more, exit) = (before ++ more, exit)

  -- The deferred calls, the last one first, without that of the reader.
  unfoldable pub deferred : List (Event D)
  deferred = closes_writer ∷ closes_pool ∷ cancels_root ∷ []

  -- From the start of the HTTP server, with the signal and the shutdown.
  unfoldable pub serve : Config → Run D
  unfolding deferred
  serve c = (
    listens c.http.addr
        ∷ stops_http
        ∷ closes_reader
        ∷ cancels_root
        ∷ waits_workers
        ∷ closes_reader
        ∷ deferred,
    returned,
  )

  -- The first so many events.
  unfoldable pub first_of : ℕ → List (Event D) → List (Event D)
  first_of zero events = []
  first_of (suc n) [] = []
  first_of (suc n) (e ∷ rest) = e ∷ first_of n rest

  -- The goroutine of the outbox worker panics in `time.NewTicker` on an interval that is not positive.
  unfoldable pub ticking : ℤ → ℕ → Run D → Run D
  unfolding first_of
  ticking (pos (suc n)) ahead run = run
  ticking i ahead (events, exit) = (first_of ahead events, panicked)

  -- An error of the recovery is only logged.
  unfoldable pub recovered : Config → Result (Unit {0}) → Run D
  unfolding serve deferred
  recovered c (ok u) = serve c
  recovered c (err e) = serve c
  recovered c panic = (closes_reader ∷ deferred, panicked)

  -- The calls of `add` in the recovery, one after the other, and what follows the last of them.
  unfoldable pub give_all : (PaymentTx D → Bool) → List (PaymentTx D) → Run D → Run D
  unfolding after
  give_all blocks [] next = next
  give_all blocks (tx ∷ rest) next =
      if blocks tx
      then (gives tx ∷ [], stuck)
      else after (gives tx ∷ []) (give_all blocks rest next)

module _ (pg : Server) (L : Libs) (o : Outside L.Decimal) where
  open L use {Decimal}

  -- After `go outboxWorker.Run`.
  unfoldable pub recover_and_serve : Tables → Config → Run Decimal
  unfolding after give_all recovered
  recover_and_serve t c =
      let recovery = panding_recovery pg L o.world t in
      after (starts_consumer c.kafka.response_topic c.kafka.consumer_group ∷ [])
        (give_all o.blocks recovery.added (recovered c recovery.answer))

  unfoldable pub start_workers : Tables → Config → Run Decimal
  unfolding after ticking recover_and_serve deferred
  start_workers t c =
      if o.reader c.kafka.response_topic c.kafka.consumer_group
      then after (starts_outbox c.outbox.batch_size c.outbox.interval ∷ [])
          (ticking c.outbox.interval o.ahead (recover_and_serve t c))
      else (deferred, panicked)

  unfoldable pub build_services : Tables → Config → Run Decimal
  unfolding start_workers new_payment_manager_service deferred
  build_services t c = elim (new_payment_manager_service c.max_workers) [
    | ok u ↦ start_workers t c
    | err e ↦ ([], exited)
    | panic ↦ (deferred, panicked)
  ]

  -- `os.Exit` runs no deferred call.
  unfoldable pub connect_db : Tables → Config → Run Decimal
  unfolding after build_services
  connect_db t c =
      if o.opens (dsn c.db)
      then (if o.answers
          then after (opens_pool (dsn c.db) ∷ pings ∷ []) (build_services t c)
          else (opens_pool (dsn c.db) ∷ pings ∷ [], exited))
      else (opens_pool (dsn c.db) ∷ [], exited)

  unfoldable pub main : Tables → Run Decimal
  unfolding connect_db
  main t = elim (load o.env) [
    | ok c ↦ connect_db t c
    | err e ↦ ([], panicked)
    | panic ↦ ([], panicked)
  ]
