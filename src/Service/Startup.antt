-- ===== src/Service/Startup.antt =====
-- What cmd/server/main.go has done when, and when it gives up.
use cbtraining.Base.{
  Bool, List, suc, ap, ℕ, pos, true, false, [], ◌∷◌, ◌++◌, ◌≡◌, ◌≢◌, ◌⊎◌, inl, inr, refl, All,
  Bool-cases, ◌∙◌,
}
use cbtraining.Errors.{ok, panic}
use cbtraining.Entity.{Libs, PaymentTx, recover_payment_tx_from_rec}
use cbtraining.Postgres.{Tables, Server}
use cbtraining.Manager.Laws.{Survives, loaded, readable, panding_recovery-readable}
use cbtraining.Config.{Config, dsn, load}
use cbtraining.Service.{
  Event, opens_pool, pings, starts_outbox, starts_consumer, gives, listens, Outside,
  new_payment_manager_service, after, serve, give_all, stuck, Run, ticking, recover_and_serve,
  recovered, start_workers, build_services, connect_db, main,
}

module _ {D : Type 0} where
  abbrev pub all_gives : List (PaymentTx D) → List (Event D)
  all_gives [] = []
  all_gives (tx ∷ rest) = gives tx ∷ all_gives rest

module _ {D : Type 0} (blocks : PaymentTx D → Bool) where
  -- The first payment on which `add` does not come back.
  pub record Stops (txs : List (PaymentTx D)) : Type 0 where
    pub before : List (PaymentTx D)
    pub tx : PaymentTx D
    pub rest : List (PaymentTx D)
    pub among : txs ≡ before ++ tx ∷ rest
    pub free : All (λ x. blocks x ≡ false) before
    pub waits : blocks tx ≡ true

  give_all-cases :
      (txs : List (PaymentTx D)) (next : Run D)
      → (All (λ x. blocks x ≡ false) txs × (give_all blocks txs next ≡ after (all_gives txs) next))
        ⊎ ((s : Stops txs) × (give_all blocks txs next
              ≡ (all_gives s.before ++ gives s.tx ∷ [], stuck)))
  unfolding give_all after
  give_all-cases [] next = inl (tt, refl)
  give_all-cases (tx ∷ rest) next = elim (Bool-cases (blocks tx)) [
    | inl e ↦ inr (
      record { before = []; tx = tx; rest = rest; among = refl; free = tt; waits = e },
      rw (e, give_all) refl,
    )
    | inr e ↦ elim (give_all-cases rest next) [
      | inl (free, f) ↦ inl ((e, free), rw (e, give_all, f) refl)
      | inr (s, f) ↦ inr (
        record {
          before = tx ∷ s.before;
          tx = s.tx;
          rest = s.rest;
          among = ap (λ (xs : List (PaymentTx D)). tx ∷ xs) s.among;
          free = (e, s.free);
          waits = s.waits;
        },
        rw (e, give_all, f) refl,
      )
    ]
  ]

module _ (pg : Server) (L : Libs) (o : Outside L.Decimal) where
  open L use {Decimal}

  -- The configuration can be read, the database answers, and the number of workers is not negative.
  pub record Starts (c : Config) : Type 0 where
    pub read : load o.env ≡ ok c
    pub opened : o.opens (dsn c.db) ≡ true
    pub answered : o.answers ≡ true
    pub workers : (n : ℕ) × (c.max_workers ≡ pos n)

  -- An event with which no request, message or payment can reach the service.
  abbrev pub IsQuiet : Event Decimal → Type 0
  IsQuiet (starts_outbox b i) = ⊥
  IsQuiet (starts_consumer topic group) = ⊥
  IsQuiet (gives tx) = ⊥
  IsQuiet (listens addr) = ⊥
  IsQuiet _ = Unit

  main-run :
      (t : Tables) (c : Config)
      → Starts c
      → main pg L o t ≡ after (opens_pool (dsn c.db) ∷ pings ∷ []) (start_workers pg L o t c)
  unfolding main connect_db build_services new_payment_manager_service
  main-run t c s =
      let (n, e) = s.workers in
      rw (s.read, main, s.opened, s.answered, connect_db, e, build_services) refl

  -- What `main` has done when it begins the recovery.
  abbrev pub started : Config → List (Event Decimal)
  started c =
      opens_pool (dsn c.db)
      ∷ pings
      ∷ starts_outbox c.outbox.batch_size c.outbox.interval
      ∷ starts_consumer c.kafka.response_topic c.kafka.consumer_group
      ∷ []

  started-run :
      (t : Tables) (c : Config) (n : ℕ)
      → Starts c
      → c.outbox.interval ≡ pos (suc n)
      → o.reader c.kafka.response_topic c.kafka.consumer_group ≡ true
      → o.world.lost 0 ≡ false
      → Survives pg L o.world
      → All (λ r. recover_payment_tx_from_rec L r ≢ panic) (loaded pg L t)
      → main pg L o t
        ≡ after (started c) (give_all o.blocks (readable pg L (loaded pg L t)) (serve c))
  unfolding start_workers after ticking recover_and_serve recovered
  started-run t c n s i r q v k =
      main-run t c s
      ∙ rw (i, r, panding_recovery-readable pg L o.world t q v k, start_workers, ticking) refl

  -- Where `main` starts the workers with an interval that is positive and a reader that is accepted, the
  -- query for the pending payments succeeds and neither `add` nor a record causes a panic: either `add`
  -- comes back for every pending payment that can be read, and `main` gives them all to `add`, in the
  -- order of the query, and then goes on to the HTTP server; or there is a first one on which `add`
  -- does not come back, and `main` gives those up to this one to `add`, does nothing more, and never
  -- opens the HTTP server.
  pub main-recovers :
      (t : Tables) (c : Config) (n : ℕ)
      → Starts c
      → c.outbox.interval ≡ pos (suc n)
      → o.reader c.kafka.response_topic c.kafka.consumer_group ≡ true
      → o.world.lost 0 ≡ false
      → Survives pg L o.world
      → All (λ r. recover_payment_tx_from_rec L r ≢ panic) (loaded pg L t)
      → let txs = readable pg L (loaded pg L t) in
        (All (λ tx. o.blocks tx ≡ false) txs
          × (main pg L o t ≡ after (started c) (after (all_gives txs) (serve c))))
        ⊎ ((s : Stops o.blocks txs) × (main pg L o t
              ≡ (started c ++ (all_gives s.before ++ gives s.tx ∷ []), stuck)))
  unfolding after
  main-recovers t c n s i r q v k =
      let txs = readable pg L (loaded pg L t) in
      let run = started-run t c n s i r q v k in
      elim (give_all-cases o.blocks txs (serve c)) [
        | inl (free, e) ↦ inl (free, run ∙ ap (after (started c)) e)
        | inr (s, e) ↦ inr (s, run ∙ ap (after (started c)) e)
      ]
