-- ===== src/Dispatcher/Overlap.antt =====
-- A run of core/PaymentManagerService.go in which a call of `add` merges two groups while the worker of
-- the emptied group is in `ProcessTX`.
use cbtraining.Base.{
  ℕ, ◌<◌, String, ◌≡◌, ◌≢◌, refl, List, [], ◌∷◌, Option, some, none, true, false, arith, eq_iff,
  eq_refl, get_elem?, inl, ap, ◌∙◌,
}
use cbtraining.Errors.{ok}
use cbtraining.Entity.{PaymentTx, cred_iban, deb_iban}
use cbtraining.Dispatcher.{
  Dispatcher, new_dispatcher, Group, processing, returned, sending, counting, awaiting, new_group,
}
use cbtraining.Dispatcher.Worker.{first, work, apply}
use cbtraining.Dispatcher.Add.{
  advance, enter, reenter, route, start_merge, send, connect, assign, relabel, redirect,
}
use cbtraining.Dispatcher.System.{Action, calls, adds, works, step, run, Reachable}
use cbtraining.Dispatcher.Runs.{run-Reach, opened, opened-Reachable}
use cbtraining.Dispatcher.Exclusion.{Handles, SharesAccount}

module _ {D : Type 0} where
  -- One group, whose first payment is not sent yet.
  abbrev one_group : (String → Option ℕ) → PaymentTx D → Dispatcher D
  one_group m tx = record new_dispatcher {
    iban_to_group = m;
    semaphore = 1;
    wg = 1;
    groups = new_group ∷ [];
    calls = sending tx 0 ∷ [];
  }

  -- A second group, whose worker is handling its first payment.
  abbrev two_groups : (String → Option ℕ) → PaymentTx D → PaymentTx D → Dispatcher D
  two_groups m tx old = record new_dispatcher {
    iban_to_group = m;
    semaphore = 2;
    wg = 2;
    groups = new_group ∷ record new_group { wg = 1; worker = processing old } ∷ [];
    calls = sending tx 0 ∷ returned (ok tt) ∷ [];
    accepted = old ∷ [];
  }

  abbrev opens_second : PaymentTx D → List (Action D)
  opens_second old =
      calls old
      ∷ adds 1 first
      ∷ adds 1 first
      ∷ adds 1 first
      ∷ adds 1 first
      ∷ adds 1 first
      ∷ works 1 first
      ∷ []

  run-opens_second :
      (max_worker : ℕ) (m : String → Option ℕ) (tx old : PaymentTx D)
      → 1 < max_worker
      → m (cred_iban old) ≡ none
      → m (deb_iban old) ≡ none
      → run max_worker (opens_second old) (one_group m tx)
        ≡ some (two_groups (assign (cred_iban old) 1 (assign (deb_iban old) 1 m)) tx old)
  unfolding run step advance enter reenter route connect send work apply
  run-opens_second max_worker m tx old h c d = ground arith

  -- A call of `add` has merged the second group into the first one, and waits for the worker.
  abbrev merging_groups :
      (String → Option ℕ) → PaymentTx D → PaymentTx D → PaymentTx D → Dispatcher D
  merging_groups m tx old bridge = record (two_groups m tx old) {
    groups =
        new_group
        ∷ record new_group { wg = 1; worker = processing old; merging = true; cancelled = true }
        ∷ [];
    calls = sending tx 0 ∷ returned (ok tt) ∷ awaiting bridge 0 1 ∷ [];
  }

  run-merges :
      (max_worker : ℕ) (m : String → Option ℕ) (tx old bridge : PaymentTx D)
      → m (cred_iban bridge) ≡ some 0
      → m (deb_iban bridge) ≡ some 1
      → run max_worker (calls bridge ∷ adds 2 first ∷ []) (two_groups m tx old)
        ≡ some (merging_groups (relabel 1 0 m) tx old bridge)
  unfolding run step advance enter route start_merge
  run-merges max_worker m tx old bridge c d = ground arith

  -- A payment between the accounts of the second group goes to the worker of the first one.
  abbrev overlapping :
      (String → Option ℕ) → PaymentTx D → PaymentTx D → PaymentTx D → PaymentTx D → Dispatcher D
  overlapping m tx old bridge tx' = record (merging_groups m tx old bridge) {
    groups =
        record new_group { worker = processing tx' }
        ∷ record new_group { wg = 1; worker = processing old; merging = true; cancelled = true }
        ∷ [];
    calls = sending tx 0 ∷ returned (ok tt) ∷ awaiting bridge 0 1 ∷ counting tx' 0 ∷ [];
    accepted = tx' ∷ old ∷ [];
  }

  run-joins :
      (max_worker : ℕ) (m : String → Option ℕ) (tx old bridge tx' : PaymentTx D)
      → m (cred_iban tx') ≡ some 0
      → m (deb_iban tx') ≡ some 0
      → run max_worker
          (calls tx' ∷ adds 3 first ∷ adds 3 first ∷ works 0 first ∷ [])
          (merging_groups m tx old bridge)
        ≡ some (overlapping m tx old bridge tx')
  unfolding run step advance enter route send work apply
  run-joins max_worker m tx old bridge tx' c d = ground arith

  -- The accounts of two groups that have just been opened.
  abbrev pub two_classes : PaymentTx D → PaymentTx D → String → Option ℕ
  two_classes tx old =
      assign (cred_iban old) 1
        (assign (deb_iban old) 1 (assign (cred_iban tx) 0 (assign (deb_iban tx) 0 (λ _. none))))

  -- No account of the one payment is an account of the other.
  abbrev pub Separate : PaymentTx D → PaymentTx D → Type 0
  Separate tx old =
      (cred_iban tx ≢ cred_iban old)
      × (cred_iban tx ≢ deb_iban old)
      × (deb_iban tx ≢ cred_iban old)
      × (deb_iban tx ≢ deb_iban old)

  module _ (tx old : PaymentTx D) (apart : Separate tx old) where
    pub fresh_accounts :
        (opened tx).iban_to_group (cred_iban old) ≡ none
        × ((opened tx).iban_to_group (deb_iban old) ≡ none)
    unfolding assign
    fresh_accounts =
        let (cc', cd, dc, dd) = apart in
        (
          ground
              (arith, eq_iff (cred_iban tx) (cred_iban old), eq_iff (deb_iban tx) (cred_iban old)),
          ground (arith, eq_iff (cred_iban tx) (deb_iban old), eq_iff (deb_iban tx) (deb_iban old)),
        )

    pub two_classes-at :
        (two_classes tx old (cred_iban tx) ≡ some 0)
        × (two_classes tx old (deb_iban old) ≡ some 1)
        × (relabel 1 0 (two_classes tx old) (cred_iban old) ≡ some 0)
        × (relabel 1 0 (two_classes tx old) (deb_iban old) ≡ some 0)
    unfolding assign relabel redirect
    two_classes-at =
        let (cc', cd, dc, dd) = apart in
        (
          ground (
            arith,
            eq_refl (cred_iban tx),
            eq_iff (cred_iban old) (cred_iban tx),
            eq_iff (deb_iban old) (cred_iban tx),
          ),
          ground (arith, eq_refl (deb_iban old)),
          ground (arith, eq_refl (cred_iban old)),
          ground (arith, eq_refl (deb_iban old)),
        )

    -- With at least two slots, two payments that share an account can be handled at the same time by
    -- two workers: whenever `tx` and `old` have no account in common, `bridge` is between the creditor
    -- of `tx` and the debtor of `old`, and `later` has the accounts of `old`, a service that has just
    -- started can reach a state, with no panic, in which one worker is handling `old` and another one
    -- `later`.
    pub merge_overlaps :
        (max_worker : ℕ) (bridge later : PaymentTx D)
        → 1 < max_worker
        → cred_iban bridge ≡ cred_iban tx
        → deb_iban bridge ≡ deb_iban old
        → cred_iban later ≡ cred_iban old
        → deb_iban later ≡ deb_iban old
        → (t : Dispatcher D) × Reachable max_worker t
          × (g : Group D) × (h : Group D) × (get_elem? t.groups 0 ≡ some g)
          × Handles g.worker later
          × (get_elem? t.groups 1 ≡ some h)
          × Handles h.worker old
          × SharesAccount later old
          × (t.panicked ≡ false)
    merge_overlaps max_worker bridge later many cb db cl dl =
        let (new_c, new_d) = fresh_accounts in
        let (at_c, at_d, old_c, old_d) = two_classes-at in
        let m = two_classes tx old in
        let opened_one = opened-Reachable max_worker tx (omega arith) in
        let opened_two =
          run-Reach max_worker (opens_second old) opened_one
            (run-opens_second max_worker (opened tx).iban_to_group tx old many new_c new_d) in
        let merged =
          run-Reach max_worker (calls bridge ∷ adds 2 first ∷ []) opened_two
            (run-merges max_worker m tx old bridge (ap m cb ∙ at_c) (ap m db ∙ at_d)) in
        let overlapped =
          run-Reach max_worker (calls later ∷ adds 3 first ∷ adds 3 first ∷ works 0 first ∷ [])
            merged
            (run-joins max_worker (relabel 1 0 m) tx old bridge later
              (ap (relabel 1 0 m) cl ∙ old_c) (ap (relabel 1 0 m) dl ∙ old_d)) in
        (_, overlapped, _, _, refl, inl refl, refl, inl refl, inl cl, refl)
