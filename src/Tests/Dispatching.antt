-- ===== src/Tests/Dispatching.antt =====
-- Short runs of the dispatcher: one worker, payments between two accounts.
use cbtraining.Base.{
  false, ◌++◌, sum, ◌+◌, ◌*◌, String, ◌<◌, zero, ◌≡◌, refl, arith, [], ◌∷◌, some, length, ◌≤◌, inl,
  true, List, ◌⊎◌,
}
use cbtraining.Errors.{ok, err, dispatcher_shuting}
use cbtraining.Dispatcher.{Dispatcher, stopped, returned, new_group, new_dispatcher, want_slot}
use cbtraining.Dispatcher.Add.{advance, send, enter}
use cbtraining.Dispatcher.Worker.{work, await, apply, first, second}
use cbtraining.Dispatcher.System.{
  run, step, Reachable, Reach, Action, adds, works, cancels, next, calls, here,
}
use cbtraining.Dispatcher.Runs.{
  opened, finished_first, opened-Reachable, finished, finished-Reachable, early_done_panics,
  Uncounted, second_payment_lost,
}
use cbtraining.Dispatcher.Slots.{Slots, Reachable-Slots}
use cbtraining.Dispatcher.Conservation.{Conserved, Reachable-Conserved}
use cbtraining.Dispatcher.Exclusion.{calm_exclusive}
use cbtraining.Dispatcher.Calm.{Calm}
use cbtraining.Dispatcher.Lost.{Stays}
use cbtraining.Dispatcher.Shutdown.{IsOver, GoesOn, shutdown_settles}
use cbtraining.Trial.Safe.{Trial-Calm}
use cbtraining.Tests.{first_tx}
use cbtraining.Tests.Trials.{handling, handling-Trial}
use cbtraining.Entity.{cred_iban}
use cbtraining.Dispatcher.Line.{line}
use cbtraining.Dispatcher.Order.{past, calm_order}
use cbtraining.Dispatcher.Starved.{Starved, Reachable-Starved}
use cbtraining.Dispatcher.Termination.{goes_on, steps_bounded}

one_slot : 0 < 1
one_slot = omega arith

Reachable-Slots_example : Slots 1 (opened first_tx)
Reachable-Slots_example = Reachable-Slots (opened-Reachable 1 first_tx one_slot)

Reachable-Conserved_example : Conserved (λ tx. 1) (finished first_tx)
Reachable-Conserved_example = Reachable-Conserved (λ tx. 1) (finished-Reachable 1 first_tx one_slot)

early_done_panics_example :
    (s : Dispatcher String) × Reachable 1 s
    × Uncounted first_tx s
    × (t : Dispatcher String) × (step 1 (works 0 first) s ≡ some t)
    × (t.handled ≡ first_tx ∷ [])
    × (t.panicked ≡ true)
early_done_panics_example = early_done_panics 1 first_tx one_slot

second_payment_lost_example :
    (t : Dispatcher String) × Reachable 1 t
    × (t.calls ≡ returned (ok tt) ∷ returned (ok tt) ∷ [])
    × (t.accepted ≡ first_tx ∷ first_tx ∷ [])
    × (t.handled ≡ first_tx ∷ [])
    × (t.root_done ≡ false)
    × ((u : Dispatcher String) → Reach 1 t u → Stays 0 (first_tx ∷ []) u)
second_payment_lost_example = second_payment_lost 1 first_tx first_tx one_slot refl refl

handling-Calm : Calm 1 handling
handling-Calm = Trial-Calm handling-Trial

calm_exclusive_example : (zero ≡ 0) × (first_tx ≡ first_tx)
calm_exclusive_example =
    calm_exclusive handling-Calm 0 0 first_tx first_tx refl refl (inl refl) (inl refl) (inl refl)

calm_order_example :
    past (cred_iban first_tx) handling.accepted
    ≡ past (cred_iban first_tx) handling.handled ++ line (cred_iban first_tx) handling.groups
calm_order_example = calm_order (cred_iban first_tx) handling-Calm

steps_bounded_example :
    sum (goes_on {D = String}) finished_first
    ≤ 207 * length (Dispatcher.groups (opened first_tx))
      + 210 * length (Dispatcher.calls (opened first_tx))
      + 200
unfolding run step advance send work await apply
steps_bounded_example =
    steps_bounded 1 finished_first (opened first_tx) {t = finished first_tx}
      (opened-Reachable 1 first_tx one_slot)
      (tt, (tt, (tt, (tt, (tt, (tt, (tt, (tt, (tt, (tt, tt)))))))))) refl

abbrev closing : Dispatcher String
closing = record (opened first_tx) { root_done = true }

closing-Reachable : Reachable 1 closing
unfolding step
closing-Reachable = next cancels (opened-Reachable 1 first_tx one_slot) refl

-- The call gives up, and the worker leaves.
abbrev closes : List (Action String)
closes =
    adds 0 second
    ∷ works 0 second
    ∷ works 0 first
    ∷ works 0 first
    ∷ works 0 first
    ∷ works 0 first
    ∷ []

abbrev closed : Dispatcher String
closed = record closing {
  semaphore = 0;
  wg = 0;
  groups = record new_group { worker = stopped } ∷ [];
  calls = returned (err dispatcher_shuting) ∷ [];
}

shutdown_settles_example : IsOver closed ⊎ GoesOn 1 closes closing closed
unfolding run step advance send work await apply
shutdown_settles_example =
    shutdown_settles 1 closes closing {t = closed} closing-Reachable refl
      (tt, (tt, (tt, (tt, (tt, (tt, tt)))))) refl

-- A call of `add` that waits for a slot where there is none.
abbrev slotless : Dispatcher String
slotless = record new_dispatcher { calls = want_slot first_tx ∷ [] }

slotless-Reachable : Reachable 0 slotless
unfolding step advance enter
slotless-Reachable = next (adds 0 first) (next (calls first_tx) here refl) refl

Reachable-Starved_example : Starved slotless
Reachable-Starved_example = Reachable-Starved slotless-Reachable
