-- ===== src/Dispatcher/Exclusion.antt =====
-- The workers of core/PaymentManagerService.go and the accounts of the payments in their hands, in runs
-- in which no call of `add` meets two different groups.
use cbtraining.Base.{ℕ, String, ◌≡◌, ◌⊎◌, inl, inr, ap, Option, some, arith, subst, get_elem?}
use cbtraining.Entity.{PaymentTx, cred_iban, deb_iban}
use cbtraining.Dispatcher.{WorkerAt, processing, drain_processing, Group, Dispatcher}
use cbtraining.Dispatcher.Routes.{Points, HandRouted}
use cbtraining.Dispatcher.Calm.{Routed, Calm, Calm-Routed}

module _ {D : Type 0} where
  -- The payment that a worker is handling.
  abbrev pub Handles : WorkerAt D → PaymentTx D → Type 0
  Handles w tx = (w ≡ processing tx) ⊎ (w ≡ drain_processing tx)

  abbrev pub SharesAccount : PaymentTx D → PaymentTx D → Type 0
  SharesAccount tx tx' =
      (cred_iban tx ≡ cred_iban tx')
      ⊎ (cred_iban tx ≡ deb_iban tx')
      ⊎ (deb_iban tx ≡ cred_iban tx')
      ⊎ (deb_iban tx ≡ deb_iban tx')

  pub Handles-Points :
      (m : String → Option ℕ) (j : ℕ) (w : WorkerAt D) (tx : PaymentTx D)
      → Handles w tx
      → HandRouted m j w
      → Points m j tx
  Handles-Points m j w tx (inl e) v = subst (HandRouted m j) e v
  Handles-Points m j w tx (inr e) v = subst (HandRouted m j) e v

  shared_group :
      (m : String → Option ℕ) (i j : ℕ) (tx tx' : PaymentTx D)
      → SharesAccount tx tx'
      → Points m i tx
      → Points m j tx'
      → i ≡ j
  shared_group m i j tx tx' (inl e) p q = ground (arith, ap m e)
  shared_group m i j tx tx' (inr (inl e)) p q = ground (arith, ap m e)
  shared_group m i j tx tx' (inr (inr (inl e))) p q = ground (arith, ap m e)
  shared_group m i j tx tx' (inr (inr (inr e))) p q = ground (arith, ap m e)

  -- In a run in which no call of `add` meets two different groups, two payments that share an account
  -- and are being handled at the same time are handled by one and the same worker, so they are one.
  pub calm_exclusive :
      {max_worker : ℕ} {s : Dispatcher D}
      → Calm max_worker s
      → (i j : ℕ) {g h : Group D} (tx tx' : PaymentTx D) → get_elem? s.groups i ≡ some g
      → get_elem? s.groups j ≡ some h
      → Handles g.worker tx
      → Handles h.worker tx'
      → SharesAccount tx tx'
      → (i ≡ j) × (tx ≡ tx')
  calm_exclusive {s} r i j {g} {h} tx tx' p q hg hh share =
      let v : Routed s = Calm-Routed r in
      let same : i ≡ j =
        shared_group s.iban_to_group i j tx tx' share
          (Handles-Points s.iban_to_group i g.worker tx hg (v.groups i g p).held)
          (Handles-Points s.iban_to_group j h.worker tx' hh (v.groups j h q).held) in
      (same, ground (arith, ap (get_elem? s.groups) same))
