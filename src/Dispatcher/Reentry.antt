-- ===== src/Dispatcher/Reentry.antt =====
-- A run of core/PaymentManagerService.go in which a call of `add` comes back with a slot and finds that
-- its two accounts have come to belong to two groups.
use cbtraining.Base.{
  ℕ, ◌<◌, String, ◌≡◌, refl, List, [], ◌∷◌, Option, some, none, false, arith, get_elem?, inl, inr,
  ap, ◌∙◌,
}
use cbtraining.Errors.{ok}
use cbtraining.Entity.{PaymentTx, cred_iban, deb_iban}
use cbtraining.Dispatcher.{
  Dispatcher, new_dispatcher, Group, processing, returned, sending, counting, has_slot, new_group,
}
use cbtraining.Dispatcher.Worker.{first, work, apply}
use cbtraining.Dispatcher.Add.{advance, enter, reenter, route, reroute, join, send, connect, assign}
use cbtraining.Dispatcher.System.{Action, calls, adds, works, step, run, Reachable, here}
use cbtraining.Dispatcher.Runs.{run-Reach}
use cbtraining.Dispatcher.Exclusion.{Handles, SharesAccount}
use cbtraining.Dispatcher.Overlap.{Separate, two_classes, two_classes-at, fresh_accounts}

module _ {D : Type 0} where
  -- A call that has a slot, and the first group, which another call has opened meanwhile.
  abbrev slot_and_group : PaymentTx D → PaymentTx D → Dispatcher D
  slot_and_group between tx = record new_dispatcher {
    iban_to_group = assign (cred_iban tx) 0 (assign (deb_iban tx) 0 (λ _. none));
    semaphore = 2;
    wg = 1;
    groups = new_group ∷ [];
    calls = has_slot between ∷ sending tx 0 ∷ [];
  }

  abbrev takes_slot : PaymentTx D → PaymentTx D → List (Action D)
  takes_slot between tx =
      calls between
      ∷ adds 0 first
      ∷ adds 0 first
      ∷ calls tx
      ∷ adds 1 first
      ∷ adds 1 first
      ∷ adds 1 first
      ∷ []

  run-takes_slot :
      (max_worker : ℕ) (between tx : PaymentTx D)
      → 2 < max_worker
      → run max_worker (takes_slot between tx) new_dispatcher ≡ some (slot_and_group between tx)
  unfolding run step advance enter reenter connect
  run-takes_slot max_worker between tx h = ground arith

  -- Another call has opened the second group, whose worker is handling its payment.
  abbrev slot_and_groups :
      (String → Option ℕ) → PaymentTx D → PaymentTx D → PaymentTx D → Dispatcher D
  slot_and_groups m between tx old = record (slot_and_group between tx) {
    iban_to_group = m;
    semaphore = 3;
    wg = 2;
    groups = new_group ∷ record new_group { wg = 1; worker = processing old } ∷ [];
    calls = has_slot between ∷ sending tx 0 ∷ returned (ok tt) ∷ [];
    accepted = old ∷ [];
  }

  abbrev opens_second : PaymentTx D → List (Action D)
  opens_second old =
      calls old
      ∷ adds 2 first
      ∷ adds 2 first
      ∷ adds 2 first
      ∷ adds 2 first
      ∷ adds 2 first
      ∷ works 1 first
      ∷ []

  run-opens_second :
      (max_worker : ℕ) (m : String → Option ℕ) (between tx old : PaymentTx D)
      → 2 < max_worker
      → m (cred_iban old) ≡ none
      → m (deb_iban old) ≡ none
      → run max_worker (opens_second old) (record (slot_and_group between tx) { iban_to_group = m })
        ≡ some
            (slot_and_groups (assign (cred_iban old) 1 (assign (deb_iban old) 1 m)) between tx old)
  unfolding run step advance enter reenter route connect send work apply
  run-opens_second max_worker m between tx old h c d = ground arith

  abbrev crossed : (String → Option ℕ) → PaymentTx D → PaymentTx D → PaymentTx D → Dispatcher D
  crossed m between tx old = record (slot_and_groups m between tx old) {
    iban_to_group = assign (cred_iban between) 0 (assign (deb_iban between) 0 m);
    semaphore = 2;
    groups =
        record new_group { worker = processing between }
        ∷ record new_group { wg = 1; worker = processing old }
        ∷ [];
    calls = counting between 0 ∷ sending tx 0 ∷ returned (ok tt) ∷ [];
    accepted = between ∷ old ∷ [];
  }

  run-crosses :
      (max_worker : ℕ) (m : String → Option ℕ) (between tx old : PaymentTx D)
      → m (cred_iban between) ≡ some 0
      → run max_worker
          (adds 0 first ∷ adds 0 first ∷ works 0 first ∷ [])
          (slot_and_groups m between tx old)
        ≡ some (crossed m between tx old)
  unfolding run step advance reenter reroute join connect send work apply
  run-crosses max_worker m between tx old c = ground arith

  -- With at least three slots, a call of `add` that comes back with a slot when its two accounts have
  -- come to belong to two groups merges nothing: whenever `tx` and `old` have no account in common and
  -- `between` is between the creditor of `tx` and the debtor of `old`, a service that has just started
  -- can reach a state, with no panic, in which one worker is handling `old` and another one `between`,
  -- and neither group is cancelled or merging.
  pub reentry_overlaps :
      (max_worker : ℕ) (tx old between : PaymentTx D)
      → Separate tx old
      → 2 < max_worker
      → cred_iban between ≡ cred_iban tx
      → deb_iban between ≡ deb_iban old
      → (t : Dispatcher D) × Reachable max_worker t
        × (g : Group D) × (h : Group D) × (get_elem? t.groups 0 ≡ some g)
        × Handles g.worker between
        × (get_elem? t.groups 1 ≡ some h)
        × Handles h.worker old
        × SharesAccount between old
        × (t.panicked ≡ false)
        × ((g.cancelled ≡ false) × (g.merging ≡ false))
        × ((h.cancelled ≡ false) × (h.merging ≡ false))
  reentry_overlaps max_worker tx old between apart many cb db =
      let (new_c, new_d) = fresh_accounts tx old apart in
      let (at_c, _, _, _) = two_classes-at tx old apart in
      let m = two_classes tx old in
      let opened_one =
        run-Reach max_worker (takes_slot between tx) here
          (run-takes_slot max_worker between tx many) in
      let opened_two = run-Reach max_worker (opens_second old) opened_one (
        run-opens_second max_worker (assign (cred_iban tx) 0 (assign (deb_iban tx) 0 (λ _. none)))
          between tx old many new_c new_d) in
      let crossing =
        run-Reach max_worker (adds 0 first ∷ adds 0 first ∷ works 0 first ∷ []) opened_two
          (run-crosses max_worker m between tx old (ap m cb ∙ at_c)) in
      (
        _,
        crossing,
        _,
        _,
        refl,
        inl refl,
        refl,
        inl refl,
        inr (inr (inr db)),
        refl,
        (refl, refl),
        (refl, refl),
      )
