-- ===== src/Consumer/Commits.antt =====
-- What the loop of adapters/primary/kafka/consumer.go has committed stays committed, and a round that
-- stores its result commits.
use mathlib.Core.List.{Memᴰ}
use cbtraining.Base.{
  ◌≢◌, ◌++◌, All, ℕ, String, Bool, true, false, List, [], ◌∷◌, Option, none, some, ◌≡◌, refl, arith,
  inl, inr, Option-cases, subst, sym, ap, ◌∙◌,
}
use cbtraining.Errors.{Result, ok, err, panic}
use cbtraining.Ports.{PaymentResult}
use cbtraining.Entity.{Libs}
use cbtraining.Postgres.{Tables, Server}
use cbtraining.Manager.{store_payment_result}
use cbtraining.Consumer.{
  Fetched, context_done, read_error, message, Round, stored, commit, handle, next_round,
  run_consumer,
}

module _ (pg : Server) (L : Libs) (unmarshal : String → Option PaymentResult) where
  -- The rest of a run, after a round.
  abbrev pub ran : List Round → Tables → List ℕ → Option (Tables × List ℕ) → Tables × List ℕ
  ran rest t offsets none = (t, offsets)
  ran rest t offsets (some (t', offsets')) = run_consumer pg L unmarshal rest t' offsets'

  commit-keeps :
      (b : Bool) (o : ℕ) (offsets : List ℕ) {k : ℕ}
      → Memᴰ k offsets
      → Memᴰ k (commit pg L unmarshal b o offsets)
  unfolding commit
  commit-keeps true o offsets h = Memᴰ.tail h
  commit-keeps false o offsets h = h

  stored-keeps :
      (r : Round) (o : ℕ) (m : Result (Unit {0}) × Tables) (offsets : List ℕ) {k : ℕ}
      → Memᴰ k offsets
      → Memᴰ k (stored pg L unmarshal r o m offsets).1
  unfolding stored
  stored-keeps r o (ok u, t) offsets h = commit-keeps r.commits o offsets h
  stored-keeps r o (err e, t) offsets h = h
  stored-keeps r o (panic, t) offsets h = h

  handle-keeps :
      (r : Round) (o : ℕ) (read : Option PaymentResult) (t : Tables) (offsets : List ℕ) {k : ℕ}
      → Memᴰ k offsets
      → Memᴰ k (handle pg L unmarshal r o read t offsets).1
  unfolding handle
  handle-keeps r o none t offsets h = h
  handle-keeps r o (some pr) t offsets h =
      stored-keeps r o (store_payment_result pg L r.lost r.now pr t) offsets h

  next_round-keeps :
      (f : Fetched) (r : Round) (t t' : Tables) (offsets offsets' : List ℕ) {k : ℕ}
      → next_round pg L unmarshal f r t offsets ≡ some (t', offsets')
      → Memᴰ k offsets
      → Memᴰ k offsets'
  unfolding next_round
  next_round-keeps context_done r t t' offsets offsets' e h = absurd (ground arith)
  next_round-keeps read_error r t t' offsets offsets' {k} e h =
      subst (Memᴰ k) {x = offsets} {y = offsets'} (cc) h
  next_round-keeps (message o value) r t t' offsets offsets' {k} e h =
      subst (Memᴰ k) {x = (handle pg L unmarshal r o (unmarshal value) t offsets).1} {y = offsets'}
        (cc) (handle-keeps r o (unmarshal value) t offsets h)

  -- A committed offset stays committed.
  run_consumer-keeps :
      (rounds : List Round) (t : Tables) (offsets : List ℕ) {k : ℕ}
      → Memᴰ k offsets
      → Memᴰ k (run_consumer pg L unmarshal rounds t offsets).1
  unfolding run_consumer
  run_consumer-keeps [] t offsets h = h
  run_consumer-keeps (r ∷ rest) t offsets {k} h =
      elim (Option-cases (next_round pg L unmarshal r.fetched r t offsets)) [
        | inl e ↦ subst (λ x. Memᴰ k (ran rest t offsets x).1) (sym e) h
        | inr ((t', offsets'), e) ↦
            subst (λ x. Memᴰ k (ran rest t offsets x).1) (sym e)
              (run_consumer-keeps rest t' offsets'
                (next_round-keeps r.fetched r t t' offsets offsets' e h))
      ]

  stored-commits :
      (r : Round) (o : ℕ) (m : Result (Unit {0}) × Tables) (offsets : List ℕ)
      → m.0 ≡ ok tt
      → r.commits ≡ true
      → Memᴰ o (stored pg L unmarshal r o m offsets).1
  unfolding stored commit
  stored-commits r o (ok u, t) offsets e c = rw (c, commit) (Memᴰ.head refl)
  stored-commits r o (err x, t) offsets e c = absurd (ground arith)
  stored-commits r o (panic, t) offsets e c = absurd (ground arith)

  next_round-commits :
      (r : Round) (o : ℕ) (value : String) (result : PaymentResult) (t : Tables) (offsets : List ℕ)
      → r.fetched ≡ message o value
      → unmarshal value ≡ some result
      → (store_payment_result pg L r.lost r.now result t).0 ≡ ok tt
      → r.commits ≡ true
      → (x : Tables × List ℕ) × (next_round pg L unmarshal r.fetched r t offsets ≡ some x)
        × Memᴰ o x.1
  unfolding next_round handle
  next_round-commits r o value result t offsets f e d c =
      let m = store_payment_result pg L r.lost r.now result t in
      (
        stored pg L unmarshal r o m offsets,
        ap (λ g. next_round pg L unmarshal g r t offsets) f
            ∙ ap (λ x. some (handle pg L unmarshal r o x t offsets)) e,
        stored-commits r o m offsets d c,
      )

  next_round-goes :
      (f : Fetched) (r : Round) (t : Tables) (offsets : List ℕ)
      → f ≢ context_done
      → (x : Tables × List ℕ) × (next_round pg L unmarshal f r t offsets ≡ some x)
  unfolding next_round
  next_round-goes context_done r t offsets h = absurd (h refl)
  next_round-goes read_error r t offsets h = ((t, offsets), refl)
  next_round-goes (message o value) r t offsets h =
      (handle pg L unmarshal r o (unmarshal value) t offsets, refl)

  pub reached-commits :
      (earlier rest : List Round) (r : Round) (o : ℕ) (value : String) (result : PaymentResult)
      (t : Tables) (offsets : List ℕ)
      → All (λ (x : Round). x.fetched ≢ context_done) earlier
      → r.fetched ≡ message o value
      → unmarshal value ≡ some result
      → (store_payment_result pg L r.lost r.now result
          (run_consumer pg L unmarshal earlier t offsets).0).0
        ≡ ok tt
      → r.commits ≡ true
      → Memᴰ o (run_consumer pg L unmarshal (earlier ++ r ∷ rest) t offsets).1
  unfolding run_consumer
  reached-commits [] rest r o value result t offsets go f e d c =
      let (x, n, m) = next_round-commits r o value result t offsets f e d c in
      subst (λ y. Memᴰ o (ran rest t offsets y).1) (sym n) (run_consumer-keeps rest x.0 x.1 m)
  reached-commits (q ∷ earlier) rest r o value result t offsets (g, go) f e d c =
      let (x, n) = next_round-goes q.fetched q t offsets g in
      subst (λ y. Memᴰ o (ran (earlier ++ r ∷ rest) t offsets y).1) (sym n)
        (reached-commits earlier rest r o value result x.0 x.1 go f e
          (subst
            (λ y.
              (store_payment_result pg L r.lost r.now result (ran earlier t offsets y).0).0 ≡ ok tt)
            n d)
          c)
