-- ===== src/Dispatcher/Moves.antt =====
-- How a step of the dispatcher (`add`, `runWorker`, `NewGroup`) changes its groups.
use cbtraining.Base.{
  ℕ, ◌+◌, ◌<◌, ◌≡◌, inl, inr, Option-cases, Bool-cases, ◌==◌, refl, ◌∙◌, List, [], ◌∷◌, ◌++◌, some,
  true, arith, subst, sym, get_elem?, set, length, All, All-set, All-append, All-get,
}
use cbtraining.Entity.{PaymentTx, cred_iban, deb_iban}
use cbtraining.Dispatcher.{
  Group, CallAt, calling, has_slot, moving_next, moving, sending, counting, Dispatcher, new_group,
  chan_buffer,
}
use cbtraining.Dispatcher.Worker.{Choice, first, Effect, work, await, apply}
use cbtraining.Dispatcher.Add.{advance, enter, reenter, send, start_merge, connect, drain_step}
use cbtraining.Dispatcher.System.{Fired, called, added, worked, awaited, cancelled}

module _ {D : Type 0} where
  -- A call that stands at `k` is about to send `tx` to group number `b`.
  abbrev pub Gives : CallAt D → ℕ → PaymentTx D → Type 0
  Gives (sending tx' j) b tx = (j ≡ b) × (tx' ≡ tx)
  Gives (moving tx' j i p) b tx = (j ≡ b) × (p ≡ tx)
  Gives _ b tx = ⊥

  -- What a call that stands at `k` does to group number `b`.
  pub data Change (k : CallAt D) (b : ℕ) (h h' : Group D) : Type 0 where
    merges : h' ≡ record h { merging = true; cancelled = true } → Change k b h h'
    takes :
        (tx : PaymentTx D)
        → Gives k b tx
        → length h.ch < chan_buffer
        → h' ≡ record h { ch = h.ch ++ tx ∷ [] }
        → Change k b h h'
    drains :
        (tx : PaymentTx D) (a : ℕ) (p : PaymentTx D) (rest : List (PaymentTx D))
        → k ≡ moving_next tx a b
        → h.ch ≡ p ∷ rest
        → h' ≡ record h { ch = rest }
        → Change k b h h'
    counts : h' ≡ record h { wg = h.wg + 1 } → Change k b h h'

  -- Why group number `b` changed from `h` to `h'`.
  pub data Why (s : Dispatcher D) (b : ℕ) (h h' : Group D) : Type 0 where
    by_call : (i : ℕ) (k : CallAt D) → get_elem? s.calls i ≡ some k → Change k b h h' → Why s b h h'
    by_worker : (c : Choice) (e : Effect D) → work c s.root_done h ≡ some (h', e) → Why s b h h'
    by_wait : await h ≡ some h' → Why s b h h'

  pub data Touch (R : ℕ → Group D → Group D → Type 0) (s t : Dispatcher D) : Type 0 where
    untouched : t.groups ≡ s.groups → Touch R s t
    opened : t.groups ≡ s.groups ++ new_group ∷ [] → Touch R s t
    touched :
        (b : ℕ) (h h' : Group D)
        → get_elem? s.groups b ≡ some h
        → t.groups ≡ set s.groups b h'
        → R b h h'
        → Touch R s t

  start_merge-Touch :
      (a b : ℕ) (k : CallAt D) (s : Dispatcher D) {u : Dispatcher D}
      → start_merge a b s ≡ some u
      → Touch (Change k) s u
  unfolding start_merge
  start_merge-Touch a b k s h = elim (Option-cases (get_elem? s.groups b)) [
    | inl e ↦ absurd (ground arith)
    | inr (g, e) ↦
        touched b g (record g { merging = true; cancelled = true }) e (ground arith) (merges refl)
  ]

  send-Touch :
      (j : ℕ) (tx : PaymentTx D) (k : CallAt D) (s : Dispatcher D) {u : Dispatcher D}
      → Gives k j tx
      → send j tx s ≡ some u
      → Touch (Change k) s u
  unfolding send
  send-Touch j tx k s to h = elim (Option-cases (get_elem? s.groups j)) [
    | inl e ↦ absurd (ground arith)
    | inr (g, e) ↦
        touched j g (record g { ch = g.ch ++ tx ∷ [] }) e (ground arith)
          (takes tx to (ground arith) refl)
  ]

  -- The same change, seen in a state with the same groups.
  via :
      {R : ℕ → Group D → Group D → Type 0} (s : Dispatcher D) {t u : Dispatcher D}
      → Touch R s t
      → u.groups ≡ t.groups
      → Touch R s u
  via s (untouched e) f = untouched (f ∙ e)
  via s (opened e) f = opened (f ∙ e)
  via s (touched b h h' p e r) f = touched b h h' p (f ∙ e) r

  enter-Touch :
      (tx : PaymentTx D) (k : CallAt D) (s : Dispatcher D) {u : Dispatcher D} {k' : CallAt D}
      → enter tx s ≡ some (k', u)
      → Touch (Change k) s u
  unfolding enter
  enter-Touch tx k s {u} h = elim (Bool-cases s.root_done) [
    | inl e ↦ untouched (ground arith)
    | inr e ↦ elim (Option-cases (s.iban_to_group (cred_iban tx))) [
      | inl ea ↦ untouched (ground arith)
      | inr (a, ea) ↦ elim (Option-cases (s.iban_to_group (deb_iban tx))) [
        | inl eb ↦ untouched (ground arith)
        | inr (b, eb) ↦ elim (Bool-cases (a == b)) [
          | inl same ↦ untouched (ground arith)
          | inr differ ↦ elim (Option-cases (start_merge a b s)) [
            | inl f ↦ absurd (ground arith)
            | inr (t, f) ↦ start_merge-Touch a b k s {u = u} (ground arith)
          ]
        ]
      ]
    ]
  ]

  reenter-Touch :
      (tx : PaymentTx D) (k : CallAt D) (s : Dispatcher D) {u : Dispatcher D} {k' : CallAt D}
      → reenter tx s ≡ some (k', u)
      → Touch (Change k) s u
  unfolding reenter connect
  reenter-Touch tx k s {u} h = elim (Option-cases (s.iban_to_group (cred_iban tx))) [
    | inl ea ↦ elim (Option-cases (s.iban_to_group (deb_iban tx))) [
      | inl eb ↦ opened (ground arith)
      | inr (b, eb) ↦ untouched (ground arith)
    ]
    | inr (a, ea) ↦ untouched (ground arith)
  ]

  -- The step of the drain on group number `b`, by what its channel holds.
  drain_step-Touch :
      (tx : PaymentTx D) (a b : ℕ) (g : Group D) (s : Dispatcher D) {u : Dispatcher D}
      {k' : CallAt D}
      → get_elem? s.groups b ≡ some g
      → (ps : List (PaymentTx D)) → g.ch ≡ ps
      → drain_step tx a b s ≡ some (k', u)
      → Touch (Change (moving_next tx a b)) s u
  unfolding drain_step
  drain_step-Touch tx a b g s e [] c h = untouched (ground arith)
  drain_step-Touch tx a b g s e (p ∷ rest) c h =
      touched b g (record g { ch = rest }) e (ground arith) (drains tx a p rest refl c refl)

  pub advance-Touch :
      (max_worker i : ℕ) (c : Choice) (k : CallAt D) (s : Dispatcher D) {u : Dispatcher D}
      {k' : CallAt D}
      → advance max_worker i c k s ≡ some (k', u)
      → Touch (Change k) s u
  unfolding advance
  advance-Touch max_worker i c (calling tx) s {u} {k'} h =
      enter-Touch tx (calling tx) s {u = u} {k' = k'} (ground arith)
  advance-Touch max_worker i c (has_slot tx) s {u} {k'} h =
      reenter-Touch tx (has_slot tx) s {u = u} {k' = k'} (ground arith)
  advance-Touch max_worker i first (sending tx j) s h = elim (Option-cases (send j tx s)) [
    | inl e ↦ absurd (ground arith)
    | inr (t, e) ↦ via s (send-Touch j tx (sending tx j) s (refl, refl) e) (ground arith)
  ]
  advance-Touch max_worker i c (moving tx a b p) s h = elim (Option-cases (send a p s)) [
    | inl e ↦ absurd (ground arith)
    | inr (t, e) ↦ via s (send-Touch a p (moving tx a b p) s (refl, refl) e) (ground arith)
  ]
  advance-Touch max_worker i c (counting tx j) s h = elim (Option-cases (get_elem? s.groups j)) [
    | inl e ↦ absurd (ground arith)
    | inr (g, e) ↦ touched j g (record g { wg = g.wg + 1 }) e (ground arith) (counts refl)
  ]
  advance-Touch max_worker i c (moving_next tx a b) s {u} {k'} h =
      elim (Option-cases (get_elem? s.groups b)) [
        | inl e ↦ absurd (ground arith)
        | inr (g, e) ↦ drain_step-Touch tx a b g s {u = u} {k' = k'} e g.ch refl (ground arith)
      ]
  advance-Touch max_worker i c k s h = untouched (ground arith)

  Touch-map :
      {R Q : ℕ → Group D → Group D → Type 0} {s t : Dispatcher D}
      → ((b : ℕ) (h h' : Group D) → R b h h' → Q b h h')
      → Touch R s t
      → Touch Q s t
  Touch-map f (untouched e) = untouched e
  Touch-map f (opened e) = opened e
  Touch-map f (touched b h h' p e r) = touched b h h' p e (f b h h' r)

  pub apply-groups :
      (e : Effect D) (s : Dispatcher D) {t : Dispatcher D}
      → apply e s ≡ some t
      → t.groups ≡ s.groups
  unfolding apply
  apply-groups e s h = ground arith

  pub step-Touch : {max_worker : ℕ} {s t : Dispatcher D} → Fired max_worker s t → Touch (Why s) s t
  step-Touch (called tx e) = untouched (ground arith)
  step-Touch {max_worker} {s} (added i c k k' u e f g) =
      via s (Touch-map (λ b h h' r. by_call i k e r) (advance-Touch max_worker i c k s f))
        (ground arith)
  step-Touch {s} (worked j c g g' e p w h) = touched j g g' p (apply-groups e _ h) (by_worker c e w)
  step-Touch (awaited j g g' p w e) = touched j g g' p (ground arith) (by_wait w)
  step-Touch (cancelled e) = untouched (ground arith)

  -- A property of every group is kept if a new group has it and every change keeps it.
  pub Touch-All :
      (P : Group D → Type 0) {R : ℕ → Group D → Group D → Type 0} {s t : Dispatcher D}
      → P new_group
      → ((b : ℕ) (h h' : Group D) → R b h h' → P h → P h')
      → Touch R s t
      → All P s.groups
      → All P t.groups
  Touch-All P start keep (untouched e) v = subst (All P) (sym e) v
  Touch-All P {s = s} start keep (opened e) v =
      subst (All P) (sym e) (All-append P s.groups (new_group ∷ []) v (start, tt))
  Touch-All P {s = s} start keep (touched b h h' p e r) v =
      subst (All P) (sym e) (All-set P s.groups b h' v (keep b h h' r (All-get P s.groups b v p)))
