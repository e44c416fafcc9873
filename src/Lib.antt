-- ===== src/Lib.antt =====
-- A payment instruction service: it takes payments over HTTP, stores them, sorts them into groups that
-- are meant to keep two payments that share an account from being processed together, hands them over
-- to Kafka by an outbox, and stores the results that come back.
--
-- Parts and files:
--   ValObj, Errors    core/valObj, core/consts, core/coreErrors: the value objects and the errors
--   Ports             ports: the data that crosses the ports
--   Entity            core/entity/payment{Tx,Account,Party}.go: built from requests and records
--   Dispatcher        core/entity/dispather.go, core/entity/paymentGroup.go, and `add` and `runWorker` of
--                     core/PaymentManagerService.go
--   Manager           the rest of core/PaymentManagerService.go, and core/PaymentAuditService.go
--   Postgres          adapters/secondary/postgres and migrations: tables, statements, transactions
--   Outbox            adapters/secondary/outbox and adapters/secondary/kafka: the rounds of the worker, its
--                     loop, and the producer
--   Http, Consumer    adapters/primary: the handlers and the loop of the Kafka consumer
--   Config            cmd/server/config: the environment
--   Service, Migrate  cmd/server/main.go and cmd/migrate: the two commands
--   Checks            core/testhelpers/utils.go: the checks and assertions on recorded payments, and the timeline
--   Builders, Mocks   core/testhelpers/builders.go, core/testhelpers/mocks.go: random payments for the tests;
--                     the processor, the stores and the logger of the tests
--   Trial             core/infrastructure_test.go: the dispatcher with the processor of the tests
--   Stub              ProcessService: the stand-in for the external service
--   Journey           one payment from the request to its final status, through all of these
--   Base, Tests       shared helpers; concrete data, with the theorems applied to it
-- `Http.create_payment` calls `Manager.payment_cmd`, which builds a transaction (`Entity`), stores it
-- (`Postgres.Repo.insert_tx`) and gives it to `add`. A worker of the dispatcher calls `ProcessTX`
-- (`Postgres.Repo.process_tx`), which fills the outbox; `Outbox.Run.run_worker` publishes it in rounds, and
-- `Consumer.run_consumer` stores the results by `Manager.store_payment_result`.
--
-- The dispatcher is a step relation. Its state is a record with the map from IBANs to groups, the tokens
-- of the semaphore, the counters of the wait groups, the groups with their channels and workers, and the
-- calls of `add`. A call and a worker stand at a point of their code (`CallAt`, `WorkerAt`), and one step
-- moves one of them, with every choice of a `select`, in any order. What `add` does between `Mu.Lock` and
-- `Mu.Unlock` without blocking is one step: all of it is under the mutex, and the workers read of it only
-- `Merging`, which is stored before the group is cancelled. The drain of a merge can block under the
-- mutex; there the state names the call that holds it. `ProcessTX` of a worker is the step in which it
-- returns: what it does to the tables is in Postgres. `Shutdown` waits for the counter `wg` of the state,
-- after the step `cancels`. `g.Wg.Wait` of `NewGroup` returns at a moment at which the counter is zero; the
-- window in which Go has woken that goroutine and the counter is raised again is not modelled.
--
-- The rounds of the outbox worker are given the rows that other transactions add, the failing of
-- statements and the answers of Kafka, round by round.
--
-- `Trial` gives every step of a run a time, and lets `ProcessTX` be the mock of the tests, which leaves a
-- record of when it was entered and when it returned; the checks of `Checks` are then about these records.
--
-- A fallible call is a `Result`, with a `panic` for a nil dereference. Times are numbers of nanoseconds,
-- and a Go string is a text whose `len` counts bytes. Loops are over lists or numbers; the one loop that
-- waits for a length, in `genIBAN`, has as many rounds of fuel as the length that it waits for, and each
-- round adds a byte. math/rand, the UUIDs and the clock of the builders are one given sequence.
-- The channel of a group is a list of at most 100 payments (`ChanBuffer`).
--
-- Code outside the repository is a parameter: decimals and JSON (`Entity.Libs`), the casts and times of
-- PostgreSQL (`Postgres.Server`), the failing of statements (`lost`), `WriteMessages` of the Kafka client,
-- the reading of a message, and the environment. A commit that is reported as failed has not taken effect.
--
-- `Service.main` reads the configuration, starts the workers and the recovery
-- (`Manager.panding_recovery`), opens the HTTP server, and after a signal waits for the dispatcher: it is
-- the list of what it has done, for a run in which a signal arrives and the wait ends. A call of `add` in
-- the recovery that does not come back ends the list, as do the panic of `kafka.NewReader` and that of
-- `time.NewTicker` in the goroutine of the outbox worker.
--
-- What a call of `Manager` answers comes with the tables as its own statements have left them when it
-- gives its first payment to `add`: the workers run beside it, and can have changed them by its return.
--
-- `Journey` puts the parts together. The constraints of the migrations are one invariant of the tables
-- (`Postgres.Consistent`); `Journey.Constraints` and `Journey.Tracked` are about every sequence of the
-- calls that write. What PostgreSQL and JSON do with a key, a status and a request on the way is a record
-- of hypotheses (`Journey.Handed.Documented`).
--
-- Not modelled: the logger, the router, the load generator of the tests (Test/main.go, with a copy of the
-- builders), and the generated docs. They are input and output around libraries, or tests.
pub mod Base
pub mod Errors
pub mod ValObj
pub mod Ports
pub mod Entity
pub mod Dispatcher
pub mod Postgres
pub mod Manager
pub mod Outbox
pub mod Http
pub mod Consumer
pub mod Config
pub mod Checks
pub mod Mocks
pub mod Trial
pub mod Builders
pub mod Stub
pub mod Service
pub mod Migrate
pub mod Journey
pub mod Tests
