-- ===== src/Dispatcher/Shape.antt =====
-- The buffers of the groups and the drain of a merge in core/PaymentManagerService.go, in every reachable
-- state.
use cbtraining.Base.{
  ℕ, ◌≤◌, ◌≡◌, List, [], ◌∷◌, ◌++◌, some, true, arith, subst, sym, get_elem?, set, length, All,
  All-set, All-append, All-get, All-map,
}
use cbtraining.Dispatcher.{
  Group, CallAt, calling, relocking, moving_next, moving, Dispatcher, new_group, chan_buffer,
}
use cbtraining.Dispatcher.Worker.{Effect, apply}
use cbtraining.Dispatcher.System.{
  Fired, called, added, worked, awaited, cancelled, step-Fired, Reachable, here, next,
}
use cbtraining.Dispatcher.Moves.{step-Touch, Touch-All}
use cbtraining.Dispatcher.Ready.{
  IsGone, GroupOk, Why-GroupOk, ReadyAt, CallOk, CallOk-Touch, advance-CallOk, advance-calls,
}

module _ {D : Type 0} where
  pub record Shape (s : Dispatcher D) : Type 0 where
    pub groups : All GroupOk s.groups
    pub calls : All (CallOk s.groups) s.calls

  new_group-GroupOk : GroupOk (new_group {D = D})
  new_group-GroupOk = ground arith

  apply-calls :
      (e : Effect D) (s : Dispatcher D) {t : Dispatcher D} → apply e s ≡ some t → t.calls ≡ s.calls
  unfolding apply
  apply-calls e s h = ground arith

  -- Every call keeps its claim, in the groups as they were.
  Fired-calls :
      {max_worker : ℕ} (s : Dispatcher D) {t : Dispatcher D}
      → Fired max_worker s t
      → All (CallOk s.groups) s.calls
      → All (CallOk s.groups) t.calls
  Fired-calls s (called tx e) v =
      subst (All (CallOk s.groups)) {x = s.calls ++ calling tx ∷ []} (ground arith)
        (All-append (CallOk s.groups) s.calls (calling tx ∷ []) v (tt, tt))
  Fired-calls {max_worker} s (added i c k k' u e f g) v =
      subst (All (CallOk s.groups)) {x = set s.calls i k'}
        (ground (arith, advance-calls max_worker i c k s f))
        (All-set (CallOk s.groups) s.calls i k' v
          (advance-CallOk max_worker i c k s f (All-get (CallOk s.groups) s.calls i v e)))
  Fired-calls s (worked j c g g' e p w h) v =
      subst (All (CallOk s.groups)) (sym (apply-calls e _ h)) v
  Fired-calls s (awaited j g g' p w e) v =
      subst (All (CallOk s.groups)) {x = s.calls} (ground arith) v
  Fired-calls s (cancelled e) v = subst (All (CallOk s.groups)) {x = s.calls} (ground arith) v

  pub step-Shape :
      {max_worker : ℕ} (s : Dispatcher D) {t : Dispatcher D}
      → Fired max_worker s t
      → Shape s
      → Shape t
  step-Shape s {t} f v = record {
    groups = Touch-All GroupOk new_group-GroupOk Why-GroupOk (step-Touch f) v.groups;
    calls =
        All-map (CallOk s.groups) (CallOk t.groups) t.calls (CallOk-Touch (step-Touch f))
          (Fired-calls s f v.calls);
  }

  pub Reachable-Shape : {max_worker : ℕ} {s : Dispatcher D} → Reachable max_worker s → Shape s
  Reachable-Shape here = record { groups = tt; calls = tt }
  Reachable-Shape (next {t} a r h) = step-Shape t (step-Fired _ t a h) (Reachable-Shape r)

  -- The calls of `add` that are in the drain of a group, and the group that they empty.
  abbrev pub Drains : CallAt D → ℕ → Type 0
  Drains (relocking tx a j) b = j ≡ b
  Drains (moving_next tx a j) b = j ≡ b
  Drains (moving tx a j p) b = j ≡ b
  Drains _ b = ⊥

  -- A channel never holds more than `ChanBuffer` payments.
  pub buffer-le-chan_buffer :
      {max_worker : ℕ} {s : Dispatcher D}
      → Reachable max_worker s
      → (j : ℕ) {g : Group D} → get_elem? s.groups j ≡ some g
      → length g.ch ≤ chan_buffer
  buffer-le-chan_buffer {s} r j p = (All-get GroupOk s.groups j (Reachable-Shape r).groups p).within

  Drains-ReadyAt :
      (groups : List (Group D)) (k : CallAt D) (b : ℕ)
      → Drains k b
      → CallOk groups k
      → ReadyAt groups b
  Drains-ReadyAt groups (relocking tx a j) b d v = subst (ReadyAt groups) d v
  Drains-ReadyAt groups (moving_next tx a j) b d v = subst (ReadyAt groups) d v
  Drains-ReadyAt groups (moving tx a j p) b d v = subst (ReadyAt groups) d v
  Drains-ReadyAt groups _ b d v = elim d [ ]

  -- While a call of `add` empties a group into another, the worker of the emptied group has read
  -- its channel for the last time, and the group is marked as merging.
  pub drained-IsGone :
      {max_worker : ℕ} {s : Dispatcher D}
      → Reachable max_worker s
      → (i b : ℕ) {k : CallAt D} → get_elem? s.calls i ≡ some k
      → Drains k b
      → (g : Group D) × (get_elem? s.groups b ≡ some g) × IsGone g.worker × (g.merging ≡ true)
  drained-IsGone {s} r i b {k} e d =
      let v : Shape s = Reachable-Shape r in
      let (g, p, ready) =
        Drains-ReadyAt s.groups k b d (All-get (CallOk s.groups) s.calls i v.calls e) in
      let o : GroupOk g = All-get GroupOk s.groups b v.groups p in
      (g, p, o.gone ready, o.merged ready)
