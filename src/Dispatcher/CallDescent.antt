-- ===== src/Dispatcher/CallDescent.antt =====
-- A step of one call of `add`, in core/PaymentManagerService.go: what is left to do is less.
use cbtraining.Base.{
  ◌∙◌, All, All-get, get_elem?-set_self, get_elem?-set_ne, ℕ, ◌≤◌, ◌<◌, ◌≡◌, ◌≢◌, inl, inr, List,
  [], ◌∷◌, ◌++◌, none, some, Option, arith, get_elem?, set, length-append, sum, sum-set,
  Option-cases, sym, weight-le-sum, refl,
}
use cbtraining.Entity.{PaymentTx}
use cbtraining.Dispatcher.{
  Group, CallAt, relocking, moving_next, moving, sending, Dispatcher, chan_buffer,
}
use cbtraining.Dispatcher.Worker.{Choice, first, second}
use cbtraining.Dispatcher.Add.{advance, drain_step, send}
use cbtraining.Dispatcher.Moves.{advance-Touch}
use cbtraining.Dispatcher.Sends.{Silent}
use cbtraining.Dispatcher.Mutex.{holds_mu, MuOk, busy}
use cbtraining.Dispatcher.Ready.{GroupOk, advance-calls}
use cbtraining.Dispatcher.Measure.{
  group_steps, call_steps, emptied, target, size_at, measure, target-at, target-set,
  target-set_same, size_at-set,
}
use cbtraining.Dispatcher.Descent.{Touch-size, Outside, Outside-Less}

module _ {D : Type 0} where
  -- The call that empties a group holds the mutex, and no other call is there.
  alone :
      (s : Dispatcher D) (i : ℕ) (k : CallAt D)
      → MuOk s
      → get_elem? s.calls i ≡ some k
      → holds_mu k ≡ 1
      → sum holds_mu s.calls ≡ holds_mu k
  alone s i k v p h = at_most s.mu v (weight-le-sum holds_mu s.calls i p)
    where
      at_most :
          (m : Option ℕ)
          → sum holds_mu s.calls ≡ busy m
          → holds_mu k ≤ sum holds_mu s.calls
          → sum holds_mu s.calls ≡ holds_mu k
      at_most none e l = omega arith
      at_most (some o) e l = omega arith

  pub size_at-le :
      (gs : List (Group D)) (o : Option ℕ) → All GroupOk gs → size_at gs o ≤ chan_buffer
  size_at-le gs none v = omega arith
  size_at-le gs (some b) v = elim (Option-cases (get_elem? gs b)) [
    | inl e ↦ ground arith
    | inr (g, e) ↦ ground (arith, (All-get GroupOk gs b v e).within)
  ]

  module _ (max_worker i : ℕ) (s u : Dispatcher D) (k' : CallAt D) where
    -- The measure after the call's step.
    abbrev pub after : ℕ
    after = measure (record u { calls = set u.calls i k' })

    pub Outside-descends :
        (c : Choice) (k : CallAt D)
        → get_elem? s.calls i ≡ some k
        → advance max_worker i c k s ≡ some (k', u)
        → Outside k
        → emptied k ≡ none
        → Silent k
        → after < measure s
    Outside-descends c k p h q en qs =
        let (less, en') = Outside-Less max_worker i c k s h q in
        ground (
          arith,
          less,
          advance-calls max_worker i c k s h,
          sum-set call_steps s.calls i k' p,
          target-set_same s.calls i k k' p (en' ∙ sym en),
          Touch-size k s u qs (advance-Touch max_worker i c k s h) (target s.calls),
        )

    pub relocking-descends :
        (c : Choice) (tx : PaymentTx D) (a b : ℕ)
        → get_elem? s.calls i ≡ some (relocking tx a b)
        → advance max_worker i c (relocking tx a b) s ≡ some (k', u)
        → MuOk s
        → All GroupOk s.groups
        → after < measure s
    unfolding advance
    relocking-descends c tx a b p h m v = ground (
      arith,
      sum-set call_steps s.calls i k' p,
      target-set s.calls i (relocking tx a b) k' p,
      size_at-le s.groups (some b) v,
    )

    pub moving_next-descends :
        (c : Choice) (tx : PaymentTx D) (a b : ℕ)
        → get_elem? s.calls i ≡ some (moving_next tx a b)
        → advance max_worker i c (moving_next tx a b) s ≡ some (k', u)
        → MuOk s
        → after < measure s
    unfolding advance drain_step
    moving_next-descends c tx a b p h m =
        let one : sum holds_mu s.calls ≡ 1 = alone s i (moving_next tx a b) m p refl in
        elim (Option-cases (get_elem? s.groups b)) [
          | inl e ↦ absurd (ground arith)
          | inr (g, e) ↦ by_channel g e g.ch refl one
        ]
      where
        by_channel :
            (g : Group D)
            → get_elem? s.groups b ≡ some g
            → (ps : List (PaymentTx D)) → g.ch ≡ ps
            → sum holds_mu s.calls ≡ 1
            → after < measure s
        by_channel g e [] ec one = ground (
          arith,
          sum-set call_steps s.calls i k' p,
          target-set s.calls i (moving_next tx a b) k' p one,
        )
        by_channel g e (q ∷ rest) ec one = ground (
          arith,
          sum-set call_steps s.calls i k' p,
          sum-set group_steps s.groups b (record g { ch = rest }) e,
          target-set s.calls i (moving_next tx a b) k' p one,
          target-at s.calls i (moving_next tx a b) p one,
          get_elem?-set_self s.groups b (record g { ch = rest }) e,
        )

    pub sending-descends :
        (c : Choice) (tx : PaymentTx D) (j : ℕ)
        → get_elem? s.calls i ≡ some (sending tx j)
        → advance max_worker i c (sending tx j) s ≡ some (k', u)
        → after < measure s
    unfolding advance send
    sending-descends second tx j p h =
        ground
          (arith, sum-set call_steps s.calls i k' p, target-set_same s.calls i (sending tx j) k' p)
    sending-descends first tx j p h = elim (Option-cases (get_elem? s.groups j)) [
      | inl e ↦ absurd (ground arith)
      | inr (g, e) ↦
          let g' : Group D = record g { ch = g.ch ++ tx ∷ [] } in
          ground (
            arith,
            length-append g.ch (tx ∷ []),
            sum-set call_steps s.calls i k' p,
            sum-set group_steps s.groups j g' e,
            target-set_same s.calls i (sending tx j) k' p,
            size_at-set s.groups j 1 g g' (target s.calls) e,
          )
    ]

    pub moving-descends :
        (c : Choice) (tx : PaymentTx D) (a b : ℕ) (q : PaymentTx D)
        → get_elem? s.calls i ≡ some (moving tx a b q)
        → advance max_worker i c (moving tx a b q) s ≡ some (k', u)
        → MuOk s
        → a ≢ b
        → after < measure s
    unfolding advance send
    moving-descends c tx a b q p h m apart = elim (Option-cases (get_elem? s.groups a)) [
      | inl e ↦ absurd (ground arith)
      | inr (g, e) ↦
          let g' : Group D = record g { ch = g.ch ++ q ∷ [] } in
          let one : sum holds_mu s.calls ≡ 1 = alone s i (moving tx a b q) m p refl in
          ground (
            arith,
            length-append g.ch (q ∷ []),
            sum-set call_steps s.calls i k' p,
            sum-set group_steps s.groups a g' e,
            target-set s.calls i (moving tx a b q) k' p one,
            target-at s.calls i (moving tx a b q) p one,
            get_elem?-set_ne s.groups a b g' apart,
          )
    ]
