-- ===== src/Dispatcher/Runs.antt =====
-- Interleavings of `add`, `runWorker` and the goroutine of `NewGroup`, for every payment of a kind.
use cbtraining.Base.{
  ℕ, ◌<◌, ◌≡◌, refl, List, [], ◌∷◌, none, some, true, false, arith, eq_refl, get_elem?, subst,
  Option-cases, inl, inr,
}
use cbtraining.Errors.{ok}
use cbtraining.Entity.{PaymentTx, cred_iban, deb_iban}
use cbtraining.Dispatcher.{
  Dispatcher, new_dispatcher, Group, stopped, returned, sending, new_group, processing, counting,
}
use cbtraining.Dispatcher.Worker.{first, second, work, await, apply}
use cbtraining.Dispatcher.Add.{advance, enter, reenter, send, connect, assign}
use cbtraining.Dispatcher.System.{
  Action, calls, adds, works, waits, step, run, Reach, Reachable, here, next,
}
use cbtraining.Dispatcher.Lost.{Stays}
use cbtraining.Dispatcher.Accepted.{Trap, accepted_for_ever, Reach-trans}

module _ {D : Type 0} where
  pub run-Reach :
      (max_worker : ℕ) (sched : List (Action D)) {s t u : Dispatcher D}
      → Reach max_worker s t
      → run max_worker sched t ≡ some u
      → Reach max_worker s u
  unfolding run
  run-Reach max_worker [] {s} {t} {u} r e = subst (Reach max_worker s) {x = t} {y = u} (cc) r
  run-Reach max_worker (a ∷ rest) {t = t} r e = elim (Option-cases (step max_worker a t)) [
    | inl none_left ↦ absurd (ground arith)
    | inr (v, f) ↦ run-Reach max_worker rest (next a r f) (ground arith)
  ]

  -- A first call of `add`, up to its last `select`.
  abbrev opens : PaymentTx D → List (Action D)
  opens tx = calls tx ∷ adds 0 first ∷ adds 0 first ∷ adds 0 first ∷ []

  abbrev pub opened : PaymentTx D → Dispatcher D
  opened tx = record new_dispatcher {
    iban_to_group = assign (cred_iban tx) 0 (assign (deb_iban tx) 0 (λ _. none));
    semaphore = 1;
    wg = 1;
    groups = new_group ∷ [];
    calls = sending tx 0 ∷ [];
  }

  run-opens :
      (max_worker : ℕ) (tx : PaymentTx D)
      → 0 < max_worker
      → run max_worker (opens tx) new_dispatcher ≡ some (opened tx)
  unfolding run step advance enter reenter connect
  run-opens max_worker tx h = ground arith

  pub opened-Reachable :
      (max_worker : ℕ) (tx : PaymentTx D) → 0 < max_worker → Reachable max_worker (opened tx)
  opened-Reachable max_worker tx h =
      run-Reach max_worker (opens tx) here (run-opens max_worker tx h)

  -- The call has sent the payment, and the worker has received it, before the call counts it.
  abbrev received_first : List (Action D)
  received_first = adds 0 first ∷ works 0 first ∷ []

  -- A worker is handling `tx`, which was accepted, while the counter of its group is at zero: the call
  -- of `add` stands before `g.Wg.Add(1)`.
  pub record Uncounted (tx : PaymentTx D) (s : Dispatcher D) : Type 0 where
    pub group : Group D
    pub at : get_elem? s.groups 0 ≡ some group
    pub handling : group.worker ≡ processing tx
    pub at_zero : group.wg ≡ 0
    pub call : s.calls ≡ counting tx 0 ∷ []
    pub accepted : s.accepted ≡ tx ∷ []
    pub serving : s.root_done ≡ false
    pub running : s.panicked ≡ false

  -- With at least one slot, a service that has just started can reach, on its first payment, whatever
  -- it is, a state in which the worker is handling the payment and the counter of the group is at
  -- zero; the next step of that worker, in which `ProcessTX` returns and `g.Wg.Done` is called, panics.
  pub early_done_panics :
      (max_worker : ℕ) (tx : PaymentTx D)
      → 0 < max_worker
      → (s : Dispatcher D) × Reachable max_worker s
        × Uncounted tx s
        × (t : Dispatcher D) × (step max_worker (works 0 first) s ≡ some t)
        × (t.handled ≡ tx ∷ [])
        × (t.panicked ≡ true)
  unfolding run step advance send work apply
  early_done_panics max_worker tx h = (
    _,
    run-Reach max_worker received_first (opened-Reachable max_worker tx h) refl,
    record {
      group = _;
      at = refl;
      handling = refl;
      at_zero = refl;
      call = refl;
      accepted = refl;
      serving = refl;
      running = refl;
    },
    _,
    refl,
    refl,
    refl,
  )

  -- The goroutine of `NewGroup` finds the counter at zero and cancels the group; the payment is sent,
  -- counted, drained and handled, and the worker leaves.
  abbrev pub finished_first : List (Action D)
  finished_first =
      waits 0
      ∷ adds 0 first
      ∷ adds 0 first
      ∷ works 0 second
      ∷ works 0 first
      ∷ works 0 first
      ∷ works 0 first
      ∷ works 0 first
      ∷ works 0 first
      ∷ works 0 first
      ∷ []

  abbrev pub finished_group : Group D
  finished_group = record new_group { cancelled = true; awaited = false; worker = stopped }

  abbrev pub finished : PaymentTx D → Dispatcher D
  finished tx = record (opened tx) {
    semaphore = 0;
    wg = 0;
    groups = finished_group ∷ [];
    calls = returned (ok tt) ∷ [];
    accepted = tx ∷ [];
    handled = tx ∷ [];
  }

  pub finished-Reachable :
      (max_worker : ℕ) (tx : PaymentTx D) → 0 < max_worker → Reachable max_worker (finished tx)
  unfolding run step advance send work await apply
  finished-Reachable max_worker tx h =
      run-Reach max_worker finished_first (opened-Reachable max_worker tx h) refl

  pub finished-Trap :
      (tx tx' : PaymentTx D)
      → cred_iban tx' ≡ cred_iban tx
      → deb_iban tx' ≡ deb_iban tx
      → Trap 0 finished_group tx' (finished tx)
  unfolding assign
  finished-Trap tx tx' c d = record {
    at = refl;
    dead = record { gone = refl; silent = refl };
    room = omega arith;
    creditor = rw (c, eq_refl (cred_iban tx)) refl;
    debtor = ground (arith, eq_refl (deb_iban tx));
    serving = refl;
    running = refl;
    free = refl;
  }

  -- With at least one slot, two payments between the same accounts can both be accepted without an
  -- error while the root context is live, so that the first one is handled and the second one never:
  -- it stays in the channel of the group that the first one left, in every continuation.
  pub second_payment_lost :
      (max_worker : ℕ) (tx tx' : PaymentTx D)
      → 0 < max_worker
      → cred_iban tx' ≡ cred_iban tx
      → deb_iban tx' ≡ deb_iban tx
      → (t : Dispatcher D) × Reachable max_worker t
        × (t.calls ≡ returned (ok tt) ∷ returned (ok tt) ∷ [])
        × (t.accepted ≡ tx' ∷ tx ∷ [])
        × (t.handled ≡ tx ∷ [])
        × (t.root_done ≡ false)
        × ((u : Dispatcher D) → Reach max_worker t u → Stays 0 (tx' ∷ []) u)
  second_payment_lost max_worker tx tx' h c d =
      let r : Reachable max_worker (finished tx) = finished-Reachable max_worker tx h in
      let (t, w, e, a, done, live, stays) =
        accepted_for_ever tx' (finished tx) r (finished-Trap tx tx' c d) in
      (t, Reach-trans r w, e, a, done, live, stays)
