-- ===== src/Dispatcher/Apart.antt =====
-- The two groups of a merge in `add` of core/PaymentManagerService.go.
use cbtraining.Base.{
  ℕ, ◌≡◌, ◌≢◌, [], ◌∷◌, ◌++◌, some, arith, subst, set, All, All-set, All-append, All-get,
}
use cbtraining.Entity.{PaymentTx}
use cbtraining.Dispatcher.{
  CallAt, calling, has_slot, awaiting, relocking, moving_next, moving, Dispatcher,
}
use cbtraining.Dispatcher.Worker.{Choice, Effect, apply}
use cbtraining.Dispatcher.Add.{advance, enter, reenter, start_merge, connect, drain_step, send}
use cbtraining.Dispatcher.System.{
  Fired, called, added, worked, awaited, cancelled, step-Fired, Reachable, here, next,
}
use cbtraining.Dispatcher.Ready.{advance-calls}

module _ {D : Type 0} where
  -- A call merges one group into another one.
  abbrev pub Apart : CallAt D → Type 0
  Apart (awaiting tx a b) = a ≢ b
  Apart (relocking tx a b) = a ≢ b
  Apart (moving_next tx a b) = a ≢ b
  Apart (moving tx a b p) = a ≢ b
  Apart _ = Unit

  enter-Apart :
      (tx : PaymentTx D) (s : Dispatcher D) {u : Dispatcher D} {k' : CallAt D}
      → enter tx s ≡ some (k', u)
      → Apart k'
  unfolding enter start_merge
  enter-Apart tx s h = ground arith

  reenter-Apart :
      (tx : PaymentTx D) (s : Dispatcher D) {u : Dispatcher D} {k' : CallAt D}
      → reenter tx s ≡ some (k', u)
      → Apart k'
  unfolding reenter connect
  reenter-Apart tx s h = ground arith

  advance-Apart :
      (max_worker i : ℕ) (c : Choice) (k : CallAt D) (s : Dispatcher D) {u : Dispatcher D}
      {k' : CallAt D}
      → advance max_worker i c k s ≡ some (k', u)
      → Apart k
      → Apart k'
  unfolding advance drain_step send
  advance-Apart max_worker i c (calling tx) s {u} {k'} h v =
      enter-Apart tx s {u = u} {k' = k'} (ground arith)
  advance-Apart max_worker i c (has_slot tx) s {u} {k'} h v =
      reenter-Apart tx s {u = u} {k' = k'} (ground arith)
  advance-Apart max_worker i c k s h v = ground arith

  apply-calls :
      (e : Effect D) (s : Dispatcher D) {t : Dispatcher D} → apply e s ≡ some t → t.calls ≡ s.calls
  unfolding apply
  apply-calls e s h = ground arith

  Fired-Apart :
      {max_worker : ℕ} (s : Dispatcher D) {t : Dispatcher D}
      → Fired max_worker s t
      → All Apart s.calls
      → All Apart t.calls
  Fired-Apart s (called tx e) v =
      subst (All Apart) {x = s.calls ++ calling tx ∷ []} (ground arith)
        (All-append Apart s.calls (calling tx ∷ []) v (tt, tt))
  Fired-Apart {max_worker} s (added i c k k' u e f g) v =
      subst (All Apart) {x = set s.calls i k'} (ground (arith, advance-calls max_worker i c k s f))
        (All-set Apart s.calls i k' v
          (advance-Apart max_worker i c k s f (All-get Apart s.calls i v e)))
  Fired-Apart s (worked j c g g' e p w h) v =
      subst (All Apart) {x = s.calls} (ground (arith, apply-calls e _ h)) v
  Fired-Apart s (awaited j g g' p w e) v = subst (All Apart) {x = s.calls} (ground arith) v
  Fired-Apart s (cancelled e) v = subst (All Apart) {x = s.calls} (ground arith) v

  -- In every reachable state, a call that waits for or empties a group sends to another one.
  pub Reachable-Apart :
      {max_worker : ℕ} {s : Dispatcher D} → Reachable max_worker s → All Apart s.calls
  Reachable-Apart here = tt
  Reachable-Apart (next {t} a r h) = Fired-Apart t (step-Fired _ t a h) (Reachable-Apart r)
