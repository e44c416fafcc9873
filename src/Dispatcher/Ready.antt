-- ===== src/Dispatcher/Ready.antt =====
-- Groups whose worker has read its channel for the last time, and calls that wait for or empty them: what
-- a step does to them.
use cbtraining.Base.{
  ℕ, ◌≤◌, ◌≡◌, inl, inr, Option-cases, refl, List, [], ◌∷◌, some, Bool, true, arith, subst, sym,
  get_elem?, length, length-append, get_elem?-set_self, get_elem?-set_ne, get_elem?-append_old,
  Bool-cases, ◌==◌,
}
use cbtraining.Entity.{PaymentTx}
use cbtraining.Dispatcher.{
  WorkerAt, leaving, released, stopped, Group, CallAt, calling, has_slot, awaiting, relocking,
  moving_next, moving, sending, Dispatcher, new_group, chan_buffer,
}
use cbtraining.Dispatcher.Worker.{Choice, first, Effect, work, await}
use cbtraining.Dispatcher.Add.{
  advance, enter, reenter, send, start_merge, connect, drain_step, is_ready,
}
use cbtraining.Dispatcher.Moves.{
  Change, merges, takes, drains, counts, Why, by_call, by_worker, by_wait, Touch, untouched, opened,
  touched,
}

module _ {D : Type 0} where
  -- A worker that reads its channel no more.
  abbrev pub IsGone : WorkerAt D → Type 0
  IsGone leaving = Unit
  IsGone released = Unit
  IsGone stopped = Unit
  IsGone _ = ⊥

  pub record GroupOk (g : Group D) : Type 0 where
    pub within : length g.ch ≤ chan_buffer
    pub gone : g.drain_ready ≡ true → IsGone g.worker
    pub merged : g.drain_ready ≡ true → g.merging ≡ true

  pub Change-GroupOk :
      {k : CallAt D} {b : ℕ} {h h' : Group D} → Change k b h h' → GroupOk h → GroupOk h'
  Change-GroupOk (merges e) v = ground (arith, v.gone, v.merged)
  Change-GroupOk {h = h} (takes tx to l e) v =
      ground (arith, v.gone, v.merged, length-append h.ch (tx ∷ []))
  Change-GroupOk (drains tx a p rest k c e) v = ground (arith, v.gone, v.merged)
  Change-GroupOk (counts e) v = ground (arith, v.gone, v.merged)

  pub work-GroupOk :
      (c : Choice) (root_done : Bool) (g : Group D) {g' : Group D} {e : Effect D}
      → work c root_done g ≡ some (g', e)
      → GroupOk g
      → GroupOk g'
  unfolding work
  work-GroupOk c root_done g h v = ground (arith, v.gone, v.merged)

  pub await-GroupOk : (g : Group D) {g' : Group D} → await g ≡ some g' → GroupOk g → GroupOk g'
  unfolding await
  await-GroupOk g h v = ground (arith, v.gone, v.merged)

  pub Why-GroupOk :
      {s : Dispatcher D} (b : ℕ) (h h' : Group D) → Why s b h h' → GroupOk h → GroupOk h'
  Why-GroupOk b h h' (by_call i k e c) v = Change-GroupOk c v
  Why-GroupOk {s} b h h' (by_worker c e w) v = work-GroupOk c s.root_done h w v
  Why-GroupOk b h h' (by_wait w) v = await-GroupOk h w v

  -- The channel `DrainReady` of group number `b` is closed.
  abbrev pub ReadyAt : List (Group D) → ℕ → Type 0
  ReadyAt groups b = (g : Group D) × (get_elem? groups b ≡ some g) × (g.drain_ready ≡ true)

  -- A call drains only a group whose worker has announced that it reads no more.
  abbrev pub CallOk : List (Group D) → CallAt D → Type 0
  CallOk groups (relocking tx a b) = ReadyAt groups b
  CallOk groups (moving_next tx a b) = ReadyAt groups b
  CallOk groups (moving tx a b p) = ReadyAt groups b
  CallOk groups _ = Unit

  pub Why-drain_ready :
      {s : Dispatcher D} (b : ℕ) (h h' : Group D)
      → Why s b h h'
      → h.drain_ready ≡ true
      → h'.drain_ready ≡ true
  unfolding work await
  Why-drain_ready b h h' (by_call i k e (merges r)) d = ground arith
  Why-drain_ready b h h' (by_call i k e (takes tx to l r)) d = ground arith
  Why-drain_ready b h h' (by_call i k e (drains tx a p rest f c r)) d = ground arith
  Why-drain_ready b h h' (by_call i k e (counts r)) d = ground arith
  Why-drain_ready b h h' (by_worker c e w) d = ground arith
  Why-drain_ready b h h' (by_wait w) d = ground arith

  pub ReadyAt-Touch :
      {s t : Dispatcher D} (b : ℕ) → Touch (Why s) s t → ReadyAt s.groups b → ReadyAt t.groups b
  ReadyAt-Touch b (untouched e) v = subst (λ gs. ReadyAt gs b) (sym e) v
  ReadyAt-Touch {s} b (opened e) (g, p, d) =
      subst (λ gs. ReadyAt gs b) (sym e) (g, get_elem?-append_old s.groups b new_group p, d)
  ReadyAt-Touch {s} b (touched j h h' p e r) (g, q, d) =
      subst (λ gs. ReadyAt gs b) (sym e)
        (elim (Bool-cases (j == b)) [
          | inl same ↦ (
            h',
            ground (arith, get_elem?-set_self s.groups j h' p),
            Why-drain_ready j h h' r (ground arith),
          )
          | inr differ ↦ (g, ground (arith, get_elem?-set_ne s.groups j b h'), d)
        ])

  pub CallOk-Touch :
      {s t : Dispatcher D}
      → Touch (Why s) s t
      → (k : CallAt D) → CallOk s.groups k
      → CallOk t.groups k
  CallOk-Touch w (relocking tx a b) v = ReadyAt-Touch b w v
  CallOk-Touch w (moving_next tx a b) v = ReadyAt-Touch b w v
  CallOk-Touch w (moving tx a b p) v = ReadyAt-Touch b w v
  CallOk-Touch w _ v = tt

  pub is_ready-ReadyAt : (b : ℕ) (s : Dispatcher D) → is_ready b s ≡ true → ReadyAt s.groups b
  unfolding is_ready
  is_ready-ReadyAt b s h = elim (Option-cases (get_elem? s.groups b)) [
    | inl e ↦ absurd (ground arith)
    | inr (g, e) ↦ (g, e, ground arith)
  ]

  -- The step of the drain on group number `b`, by what its channel holds.
  pub drain_step-CallOk :
      (tx : PaymentTx D) (a b : ℕ) (g : Group D) (s : Dispatcher D) {u : Dispatcher D}
      {k' : CallAt D}
      → get_elem? s.groups b ≡ some g
      → (ps : List (PaymentTx D)) → g.ch ≡ ps
      → drain_step tx a b s ≡ some (k', u)
      → ReadyAt s.groups b
      → CallOk s.groups k'
  unfolding drain_step
  drain_step-CallOk tx a b g s e [] c h v =
      subst (CallOk s.groups) {x = sending tx a} (ground arith) tt
  drain_step-CallOk tx a b g s e (p ∷ rest) c h v =
      subst (CallOk s.groups) {x = moving tx a b p} (ground arith) v

  pub enter-CallOk :
      (tx : PaymentTx D) (s : Dispatcher D) {u : Dispatcher D} {k' : CallAt D}
      → enter tx s ≡ some (k', u)
      → (groups : List (Group D)) → CallOk groups k'
  unfolding enter start_merge
  enter-CallOk tx s h groups = ground arith

  pub reenter-CallOk :
      (tx : PaymentTx D) (s : Dispatcher D) {u : Dispatcher D} {k' : CallAt D}
      → reenter tx s ≡ some (k', u)
      → (groups : List (Group D)) → CallOk groups k'
  unfolding reenter
  reenter-CallOk tx s h groups = ground arith

  -- What a call becomes asks for no more than what it was, or than what it has just seen.
  pub advance-CallOk :
      (max_worker i : ℕ) (c : Choice) (k : CallAt D) (s : Dispatcher D) {u : Dispatcher D}
      {k' : CallAt D}
      → advance max_worker i c k s ≡ some (k', u)
      → CallOk s.groups k
      → CallOk s.groups k'
  unfolding advance
  advance-CallOk max_worker i c (calling tx) s {u} {k'} h v =
      enter-CallOk tx s {u = u} {k' = k'} (ground arith) s.groups
  advance-CallOk max_worker i c (has_slot tx) s {u} {k'} h v =
      reenter-CallOk tx s {u = u} {k' = k'} (ground arith) s.groups
  advance-CallOk max_worker i first (awaiting tx a b) s h v =
      subst (CallOk s.groups) {x = relocking tx a b} (ground arith)
        (is_ready-ReadyAt b s (ground arith))
  advance-CallOk max_worker i c (relocking tx a b) s h v =
      subst (CallOk s.groups) {x = moving_next tx a b} (ground arith) v
  advance-CallOk max_worker i c (moving tx a b p) s h v =
      subst (CallOk s.groups) {x = moving_next tx a b} (ground arith) v
  advance-CallOk max_worker i c (moving_next tx a b) s {u} {k'} h v =
      drain_step-CallOk tx a b v.0 s {u = u} {k' = k'} v.1 v.0.ch refl (ground arith) v
  advance-CallOk max_worker i c k s h v = ground arith

  pub advance-calls :
      (max_worker i : ℕ) (c : Choice) (k : CallAt D) (s : Dispatcher D) {u : Dispatcher D}
      {k' : CallAt D}
      → advance max_worker i c k s ≡ some (k', u)
      → u.calls ≡ s.calls
  unfolding advance drain_step send enter start_merge reenter connect
  advance-calls max_worker i c k s h = ground arith
