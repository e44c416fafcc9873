-- ===== src/Dispatcher/Worker.antt =====
-- `runWorker` of core/PaymentManagerService.go, and the goroutine of `NewGroup`.
use cbtraining.Base.{
  ◌-◌, List, [], ◌∷◌, Option, none, some, Bool, true, false, ◌||◌, ◌&&◌, ◌==◌, if◌then◌else◌,
}
use cbtraining.Entity.{PaymentTx}
use cbtraining.Dispatcher.{
  WorkerAt, selecting, processing, deciding, draining, drain_processing, leaving, released, stopped,
  Group, Dispatcher,
}

-- Which ready case a `select` takes: the one that stands first in the code, or the other.
pub data Choice : Type 0 where
  first second : Choice

-- What a step of the worker does to the dispatcher.
pub data Effect (D : Type 0) : Type 0 where
  nothing : Effect D
  handles : PaymentTx D → Effect D  -- `ProcessTX` has returned
  negative : PaymentTx D → Effect D  -- it has returned, and `g.Wg.Done` is at zero
  release_slot : Effect D  -- `<-Semaphore`
  wg_done : Effect D  -- `Dispatcher.Wg.Done`

module _ {D : Type 0} where
  receive : List (PaymentTx D) → Group D → (PaymentTx D → WorkerAt D) → Option (Group D × Effect D)
  receive [] g at = none
  receive (tx ∷ rest) g at = some (record g { ch = rest; worker = at tx }, nothing)

  -- `ProcessTX` returns, with an error or not, and `g.Wg.Done` follows.
  finish : PaymentTx D → WorkerAt D → Group D → Group D × Effect D
  finish tx next g =
      if g.wg == 0
      then (record g { worker = next }, negative tx)
      else (record g { wg = g.wg - 1; worker = next }, handles tx)

  drain_next : List (PaymentTx D) → Group D → Group D × Effect D
  drain_next [] g = (record g { worker = leaving }, nothing)
  drain_next (tx ∷ rest) g = (record g { ch = rest; worker = drain_processing tx }, nothing)

  -- One step of the worker of `g`; `none` where it blocks.
  work_at : WorkerAt D → Choice → Bool → Group D → Option (Group D × Effect D)
  unfolding receive finish drain_next
  work_at selecting first root_done g = receive g.ch g processing
  work_at selecting second root_done g =
      if root_done || g.cancelled then some (record g { worker = deciding }, nothing) else none
  work_at (processing tx) c root_done g = some (finish tx selecting g)
  work_at deciding c root_done g =
      if g.merging
      then some (record g { drain_ready = true; worker = leaving }, nothing)
      else some (record g { worker = draining }, nothing)
  work_at draining c root_done g = some (drain_next g.ch g)
  work_at (drain_processing tx) c root_done g = some (finish tx draining g)
  work_at leaving c root_done g = some (record g { worker = released }, release_slot)
  work_at released c root_done g = some (record g { worker = stopped }, wg_done)
  work_at stopped c root_done g = none

  unfoldable pub work : Choice → Bool → Group D → Option (Group D × Effect D)
  unfolding work_at
  work c root_done g = work_at g.worker c root_done g

  -- The goroutine of `NewGroup`: `g.Wg.Wait()` returns at zero, and the group is cancelled. It is one
  -- step, taken at a moment at which the counter is at zero. Go wakes the goroutine once zero was
  -- reached, and panics if the counter is raised before it runs: this window is not modelled.
  unfoldable pub await : Group D → Option (Group D)
  await g =
      if g.awaited && (g.wg == 0)
      then some (record g { awaited = false; cancelled = true })
      else none

  -- A receive from the empty semaphore blocks, and `Done` at zero is a panic.
  unfoldable pub apply : Effect D → Dispatcher D → Option (Dispatcher D)
  apply nothing s = some s
  apply (handles tx) s = some (record s { handled = tx ∷ s.handled })
  apply (negative tx) s = some (record s { handled = tx ∷ s.handled; panicked = true })
  apply release_slot s =
      if s.semaphore == 0 then none else some (record s { semaphore = s.semaphore - 1 })
  apply wg_done s =
      if s.wg == 0 then some (record s { panicked = true }) else some (record s { wg = s.wg - 1 })
