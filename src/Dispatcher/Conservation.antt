-- ===== src/Dispatcher/Conservation.antt =====
-- Payments between the last `select` of `add` and the return of `ProcessTX`, in
-- core/PaymentManagerService.go, counted.
use cbtraining.Base.{
  ℕ, ◌+◌, ◌≡◌, inl, inr, Option-cases, refl, [], ◌∷◌, some, Bool, arith, sum, sum-append, sum-set,
}
use cbtraining.Entity.{PaymentTx}
use cbtraining.Dispatcher.{
  WorkerAt, processing, drain_processing, Group, CallAt, calling, has_slot, moving, sending,
  Dispatcher,
}
use cbtraining.Dispatcher.Worker.{Choice, first, Effect, handles, negative, work, await, apply}
use cbtraining.Dispatcher.Add.{advance, enter, reenter, send, start_merge, connect}
use cbtraining.Dispatcher.System.{
  Fired, called, added, worked, awaited, cancelled, step-Fired, Reach, Reachable, here, next,
}

module _ {D : Type 0} (w : PaymentTx D → ℕ) where
  -- The payment in the hands of a worker.
  abbrev pub in_hand : WorkerAt D → ℕ
  in_hand (processing tx) = w tx
  in_hand (drain_processing tx) = w tx
  in_hand _ = 0

  abbrev pub in_group : Group D → ℕ
  in_group g = sum w g.ch + in_hand g.worker

  -- The payment that the drain has taken from one channel and not yet put into the other.
  abbrev pub in_call : CallAt D → ℕ
  in_call (moving tx a b p) = w p
  in_call _ = 0

  -- What was accepted is buffered, on its way, or handled.
  abbrev pub Conserved : Dispatcher D → Type 0
  Conserved s = sum w s.accepted ≡ sum in_group s.groups + sum in_call s.calls + sum w s.handled

  outcome : Effect D → ℕ
  outcome (handles tx) = w tx
  outcome (negative tx) = w tx
  outcome _ = 0

  work-in_group :
      (c : Choice) (root_done : Bool) (g : Group D) {g' : Group D} {e : Effect D}
      → work c root_done g ≡ some (g', e)
      → in_group g' + outcome e ≡ in_group g
  unfolding work outcome
  work-in_group c root_done g h = ground arith

  await-in_group : (g : Group D) {g' : Group D} → await g ≡ some g' → in_group g' ≡ in_group g
  unfolding await
  await-in_group g h = ground arith

  record Flow (s u : Dispatcher D) (k k' : CallAt D) : Type 0 where
    balance :
        sum w u.accepted + sum in_group s.groups + in_call k
        ≡ sum w s.accepted + sum in_group u.groups + in_call k'
    handled : u.handled ≡ s.handled
    calls : u.calls ≡ s.calls

  enter-Flow :
      (tx : PaymentTx D) (s : Dispatcher D) {u : Dispatcher D} {k' : CallAt D}
      → enter tx s ≡ some (k', u)
      → Flow s u (calling tx) k'
  unfolding enter start_merge
  enter-Flow tx s h = grind (arith, sum-set)

  reenter-Flow :
      (tx : PaymentTx D) (s : Dispatcher D) {u : Dispatcher D} {k' : CallAt D}
      → reenter tx s ≡ some (k', u)
      → Flow s u (has_slot tx) k'
  unfolding reenter connect
  reenter-Flow tx s h = grind (arith, sum-append)

  -- What `send` adds to the groups.
  send-in_group :
      (j : ℕ) (tx : PaymentTx D) (s : Dispatcher D) {u : Dispatcher D}
      → send j tx s ≡ some u
      → (sum in_group u.groups ≡ sum in_group s.groups + w tx)
        × (u.calls ≡ s.calls)
        × (u.handled ≡ s.handled)
        × (u.accepted ≡ s.accepted)
  unfolding send
  send-in_group j tx s h = grind (arith, sum-set, sum-append)

  advance-Flow :
      (max_worker i : ℕ) (c : Choice) (k : CallAt D) (s : Dispatcher D) {u : Dispatcher D}
      {k' : CallAt D}
      → advance max_worker i c k s ≡ some (k', u)
      → Flow s u k k'
  unfolding advance
  advance-Flow max_worker i c (calling tx) s {u} {k'} h =
      grind (arith, enter-Flow tx s {u = u} {k' = k'})
  advance-Flow max_worker i c (has_slot tx) s {u} {k'} h =
      grind (arith, reenter-Flow tx s {u = u} {k' = k'})
  advance-Flow max_worker i first (sending tx j) s h = elim (Option-cases (send j tx s)) [
    | inl e ↦ absurd (ground arith)
    | inr (t, e) ↦ ground (arith, send-in_group j tx s e)
  ]
  advance-Flow max_worker i c (moving tx a b p) s h = elim (Option-cases (send a p s)) [
    | inl e ↦ absurd (ground arith)
    | inr (t, e) ↦ ground (arith, send-in_group a p s e)
  ]
  advance-Flow max_worker i c k s h = grind (arith, sum-set)

  step-Conserved :
      (max_worker : ℕ) (s : Dispatcher D) {t : Dispatcher D}
      → Fired max_worker s t
      → Conserved s
      → Conserved t
  unfolding apply outcome
  step-Conserved max_worker s (called tx e) v =
      grind (arith, sum-append in_call s.calls (calling tx ∷ []))
  step-Conserved max_worker s (added i c k k' u e f g) v =
      grind (arith, advance-Flow max_worker i c k s f, sum-set in_call s.calls i k' e)
  step-Conserved max_worker s (worked j c g g' e p x h) v =
      grind (arith, work-in_group c s.root_done g x, sum-set in_group s.groups j g' p)
  step-Conserved max_worker s (awaited j g g' p x h) v =
      grind (arith, await-in_group g x, sum-set in_group s.groups j g' p)
  step-Conserved max_worker s (cancelled e) v = grind arith

  Reach-Conserved :
      {max_worker : ℕ} {s t : Dispatcher D} → Conserved s → Reach max_worker s t → Conserved t
  Reach-Conserved v here = v
  Reach-Conserved v (next {t} a r h) = step-Conserved _ t (step-Fired _ t a h) (Reach-Conserved v r)

  -- For every way to weigh payments, and so for every single payment counted: what was accepted
  -- weighs as much as what the groups and the calls of `add` hold and what was handled.
  pub Reachable-Conserved :
      {max_worker : ℕ} {s : Dispatcher D} → Reachable max_worker s → Conserved s
  Reachable-Conserved r = Reach-Conserved refl r
