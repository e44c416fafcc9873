-- ===== src/Trial.antt =====
-- The dispatcher of core/PaymentManagerService.go with the processor of core/testhelpers/mocks.go, as
-- core/infrastructure_test.go runs them: every step has a time, and `ProcessTX` leaves a record.
pub mod Watch
pub mod Steps
pub mod Safe
pub mod Pressed
pub mod Pressure
use cbtraining.Base.{ℕ, ◌≤◌, ◌≡◌, List, [], ◌∷◌, Bool, false, ◌==◌, if◌then◌else◌}
use cbtraining.Entity.{PaymentTx, to_tx_request}
use cbtraining.Dispatcher.{Dispatcher, new_dispatcher}
use cbtraining.Dispatcher.Worker.{Effect, handles, negative, nothing, release_slot, wg_done}
use cbtraining.Dispatcher.System.{Fired, called, added, worked, awaited, cancelled}
use cbtraining.Dispatcher.Routes.{meets}
use cbtraining.Checks.{ProcessRecord}
use cbtraining.Mocks.{mock_process_tx}

-- A condition on the steps of a run.
abbrev pub Condition : Type 0 → ℕ → Type 1
Condition D max_worker = (s t : Dispatcher D) → Fired max_worker s t → Type 0

module _ {D : Type 0} where
  -- `since` has the time at which the worker of each group entered `ProcessTX`: the time of its last step,
  -- since the step that receives a payment enters it.
  unfoldable pub entered :
      {max_worker : ℕ} {s t : Dispatcher D} → Fired max_worker s t → ℕ → (ℕ → ℕ) → ℕ → ℕ
  entered (worked j c g g' e p w h) now since i = if i == j then now else since i
  entered _ now since i = since i

  -- A payment that is handled was in `ProcessTX` from `start` to `now`.
  unfoldable pub recorded : Bool → ℕ → ℕ → Effect D → List ProcessRecord → List ProcessRecord
  recorded cut start now (handles tx) records =
      (mock_process_tx cut start now (to_tx_request tx) records).1
  recorded cut start now (negative tx) records =
      (mock_process_tx cut start now (to_tx_request tx) records).1
  recorded cut start now _ records = records

  unfoldable pub records_after :
      {max_worker : ℕ} {s t : Dispatcher D}
      → Fired max_worker s t
      → Bool
      → ℕ
      → (ℕ → ℕ)
      → List ProcessRecord
      → List ProcessRecord
  unfolding recorded
  records_after (worked j c g g' e p w h) cut now since records =
      recorded cut (since j) now e records
  records_after _ cut now since records = records

  -- No call of `add` meets two different groups.
  abbrev pub IsCalm : (max_worker : ℕ) → Condition D max_worker
  IsCalm max_worker s t f = meets f ≡ false

  -- Runs of such steps, with a clock that does not go back. A `ProcessTX` whose context is done can end
  -- without a record.
  pub data Trial (max_worker : ℕ) (P : Condition D max_worker)
      : Dispatcher D → ℕ → (ℕ → ℕ) → List ProcessRecord → Type 0 where
    starts : Trial max_worker P new_dispatcher 0 (λ j. 0) []
    goes :
        {s t : Dispatcher D} {now : ℕ} {since : ℕ → ℕ} {records : List ProcessRecord}
        → Trial max_worker P s now since records
        → (f : Fired max_worker s t) → P s t f
        → (later : ℕ) → now ≤ later
        → (cut : Bool)
        → Trial max_worker P t later
            (entered f later since)
            (records_after f cut later since records)

  -- The same run under a weaker condition.
  pub Trial-map :
      {max_worker : ℕ} (P Q : Condition D max_worker) {now : ℕ} {s : Dispatcher D} {since : ℕ → ℕ}
      {records : List ProcessRecord}
      → ((s t : Dispatcher D) (f : Fired max_worker s t) → P s t f → Q s t f)
      → Trial max_worker P s now since records
      → Trial max_worker Q s now since records
  Trial-map P Q h starts = starts
  Trial-map P Q h (goes {s} {t} r f p later l cut) =
      goes (Trial-map P Q h r) f (h s t f p) later l cut
