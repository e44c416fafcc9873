-- ===== src/Consumer/Laws.antt =====
-- The offsets that the loop of adapters/primary/kafka/consumer.go commits.
use mathlib.Core.List.{Memᴰ}
use cbtraining.Base.{
  ◌≢◌, ◌++◌, All, ◌↔◌, ℕ, String, Bool, true, false, List, [], ◌∷◌, Option, some, ◌≡◌, refl, arith,
  ◌⊎◌, inl, inr, Option-cases, subst, sym, ap, ◌∙◌,
}
use cbtraining.Errors.{Result, ok, err, panic}
use cbtraining.Ports.{PaymentResult}
use cbtraining.Entity.{Libs}
use cbtraining.Postgres.{Tables, Server}
use cbtraining.Manager.{store_payment_result, as_infrastructure}
use cbtraining.Postgres.Repo.{persist_process_result, persist}
use cbtraining.Consumer.{
  Fetched, context_done, read_error, message, Round, stored, commit, handle, next_round,
  run_consumer,
}
use cbtraining.Consumer.Commits.{ran, reached-commits}

-- `StorePaymentResult` does not panic, so that a round never ends the process.
store_payment_result_calm :
    (pg : Server) (L : Libs) (lost : ℕ → Bool) (now : ℕ) (pr : PaymentResult) (t : Tables)
    → (store_payment_result pg L lost now pr t).0 ≢ panic
unfolding store_payment_result as_infrastructure persist_process_result persist
store_payment_result_calm pg L lost now pr t = ground arith

module _ (pg : Server) (L : Libs) (unmarshal : String → Option PaymentResult) where
  -- A message whose result was stored, in the tables that the earlier rounds had left, and then
  -- committed, in a round that the loop has reached.
  pub record Kept (offset : ℕ) (rounds : List Round) (t : Tables) (offsets : List ℕ) : Type 0 where
    pub earlier : List Round
    pub round : Round
    pub rest : List Round
    pub value : String
    pub result : PaymentResult
    pub before : Tables
    pub among : rounds ≡ earlier ++ round ∷ rest
    pub running : All (λ (r : Round). r.fetched ≢ context_done) earlier
    pub reached : before ≡ (run_consumer pg L unmarshal earlier t offsets).0
    pub fetched : round.fetched ≡ message offset value
    pub read : unmarshal value ≡ some result
    pub stored : (store_payment_result pg L round.lost round.now result before).0 ≡ ok tt
    pub acknowledged : round.commits ≡ true

  goes_on :
      (f : Fetched) (r : Round) (t : Tables) (offsets : List ℕ) {x : Tables × List ℕ}
      → next_round pg L unmarshal f r t offsets ≡ some x
      → f ≢ context_done
  unfolding next_round
  goes_on f r t offsets h = ground arith

  later :
      {offset : ℕ} {rounds : List Round} (r : Round) (t t' : Tables) (offsets offsets' : List ℕ)
      → next_round pg L unmarshal r.fetched r t offsets ≡ some (t', offsets')
      → Kept offset rounds t' offsets'
      → Kept offset (r ∷ rounds) t offsets
  unfolding run_consumer
  later r t t' offsets offsets' e k = record {
    earlier = r ∷ k.earlier;
    round = k.round;
    rest = k.rest;
    value = k.value;
    result = k.result;
    before = k.before;
    among = ap (λ (rs : List Round). r ∷ rs) k.among;
    running = (goes_on r.fetched r t offsets e, k.running);
    reached = rw (e, run_consumer) k.reached;
    fetched = k.fetched;
    read = k.read;
    stored = k.stored;
    acknowledged = k.acknowledged;
  }

  commit-new :
      (b : Bool) (o : ℕ) (offsets : List ℕ) {k : ℕ}
      → Memᴰ k (commit pg L unmarshal b o offsets)
      → Memᴰ k offsets ⊎ ((k ≡ o) × (b ≡ true))
  unfolding commit
  commit-new true o offsets (Memᴰ.head e) = inr (e, refl)
  commit-new true o offsets (Memᴰ.tail m) = inl m
  commit-new false o offsets h = inl h

  stored-new :
      (r : Round) (o : ℕ) (m : Result (Unit {0}) × Tables) (offsets : List ℕ) {k : ℕ}
      → Memᴰ k (stored pg L unmarshal r o m offsets).1
      → Memᴰ k offsets ⊎ ((k ≡ o) × (m.0 ≡ ok tt) × (r.commits ≡ true))
  unfolding stored
  stored-new r o (ok tt, t) offsets h = elim (commit-new r.commits o offsets h) [
    | inl m ↦ inl m
    | inr (e, c) ↦ inr (e, refl, c)
  ]
  stored-new r o (err e, t) offsets h = inl h
  stored-new r o (panic, t) offsets h = inl h

  handle-new :
      (r : Round) (o : ℕ) (value : String) (t : Tables) (offsets : List ℕ) {k : ℕ}
      (rest : List Round)
      → r.fetched ≡ message o value
      → Memᴰ k (handle pg L unmarshal r o (unmarshal value) t offsets).1
      → Memᴰ k offsets ⊎ Kept k (r ∷ rest) t offsets
  unfolding handle run_consumer
  handle-new r o value t offsets {k} rest f h = elim (Option-cases (unmarshal value)) [
    | inl e ↦ inl (subst (λ x. Memᴰ k (handle pg L unmarshal r o x t offsets).1) e h)
    | inr (pr, e) ↦
        elim (stored-new r o (store_payment_result pg L r.lost r.now pr t) offsets
          (subst (λ x. Memᴰ k (handle pg L unmarshal r o x t offsets).1) e h)) [
            | inl m ↦ inl m
            | inr (same, done, c) ↦ inr (record {
              earlier = [];
              round = r;
              rest = rest;
              value = value;
              result = pr;
              before = t;
              among = refl;
              running = tt;
              reached = refl;
              fetched = f ∙ ap (λ n. message n value) (sym same);
              read = e;
              stored = done;
              acknowledged = c;
            })
          ]
  ]

  next_round-new :
      (f : Fetched) (r : Round) (t t' : Tables) (offsets offsets' : List ℕ) {k : ℕ}
      (rest : List Round)
      → r.fetched ≡ f
      → next_round pg L unmarshal f r t offsets ≡ some (t', offsets')
      → Memᴰ k offsets'
      → Memᴰ k offsets ⊎ Kept k (r ∷ rest) t offsets
  unfolding next_round
  next_round-new context_done r t t' offsets offsets' rest f e h = absurd (ground arith)
  next_round-new read_error r t t' offsets offsets' {k} rest f e h =
      inl (subst (Memᴰ k) {x = offsets'} {y = offsets} (cc) h)
  next_round-new (message o value) r t t' offsets offsets' {k} rest f e h =
      handle-new r o value t offsets rest f (
        subst (Memᴰ k) {x = offsets'}
          {y = (handle pg L unmarshal r o (unmarshal value) t offsets).1} (cc) h)

  run_consumer-new :
      (rounds : List Round) (t : Tables) (offsets : List ℕ) {k : ℕ}
      → Memᴰ k (run_consumer pg L unmarshal rounds t offsets).1
      → Memᴰ k offsets ⊎ Kept k rounds t offsets
  unfolding run_consumer
  run_consumer-new [] t offsets h = inl h
  run_consumer-new (r ∷ rest) t offsets {k} h =
      elim (Option-cases (next_round pg L unmarshal r.fetched r t offsets)) [
        | inl e ↦ inl (subst (λ x. Memᴰ k (ran pg L unmarshal rest t offsets x).1) e h)
        | inr ((t', offsets'), e) ↦
            elim (run_consumer-new rest t' offsets'
              (subst (λ x. Memᴰ k (ran pg L unmarshal rest t offsets x).1) e h)) [
                | inl m ↦ next_round-new r.fetched r t t' offsets offsets' rest refl e m
                | inr kept ↦ inr (later r t t' offsets offsets' e kept)
              ]
      ]

  -- A consumer that starts with no committed offset commits an offset exactly if one of its rounds
  -- reads the message at that offset before the context is done, the message can be unmarshalled, its
  -- result is stored without an error in the tables that the rounds before it have left, and the
  -- commit succeeds. So a result that could not be stored is passed over, whatever comes after it.
  pub run_consumer-Kept :
      (rounds : List Round) (t : Tables) (k : ℕ)
      → Memᴰ k (run_consumer pg L unmarshal rounds t []).1 ↔ Kept k rounds t []
  run_consumer-Kept rounds t k = (
    λ h. elim (run_consumer-new rounds t [] h) [ inl m ↦ elim m [ ] | inr kept ↦ kept ],
    λ y.
        subst (λ rs. Memᴰ k (run_consumer pg L unmarshal rs t []).1) (sym y.among)
          (reached-commits pg L unmarshal y.earlier y.rest y.round k y.value y.result t [] y.running
            y.fetched y.read
            (subst (λ b. (store_payment_result pg L y.round.lost y.round.now y.result b).0 ≡ ok tt)
              y.reached y.stored)
            y.acknowledged),
  )
