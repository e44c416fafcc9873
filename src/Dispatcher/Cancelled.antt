-- ===== src/Dispatcher/Cancelled.antt =====
-- The root context of core/PaymentManagerService.go stays cancelled.
use cbtraining.Base.{ℕ, ◌≡◌, inl, inr, arith, List, [], ◌∷◌, some, true, Option-cases}
use cbtraining.Dispatcher.{Dispatcher, CallAt, calling, has_slot, sending, moving}
use cbtraining.Dispatcher.Worker.{Choice, first, apply}
use cbtraining.Dispatcher.Add.{advance, enter, reenter, send, start_merge, connect}
use cbtraining.Dispatcher.System.{
  Action, Fired, called, added, worked, awaited, cancelled, step, step-Fired, run,
}
use cbtraining.Entity.{PaymentTx}

module _ {D : Type 0} where
  pub enter-root_done :
      (tx : PaymentTx D) (s : Dispatcher D) {u : Dispatcher D} {k' : CallAt D}
      → enter tx s ≡ some (k', u)
      → u.root_done ≡ s.root_done
  unfolding enter start_merge
  enter-root_done tx s h = ground arith

  pub reenter-root_done :
      (tx : PaymentTx D) (s : Dispatcher D) {u : Dispatcher D} {k' : CallAt D}
      → reenter tx s ≡ some (k', u)
      → u.root_done ≡ s.root_done
  unfolding reenter connect
  reenter-root_done tx s h = ground arith

  pub send-root_done :
      (j : ℕ) (tx : PaymentTx D) (s : Dispatcher D) {u : Dispatcher D}
      → send j tx s ≡ some u
      → u.root_done ≡ s.root_done
  unfolding send
  send-root_done j tx s h = ground arith

  pub advance-root_done :
      (max_worker i : ℕ) (c : Choice) (k : CallAt D) (s : Dispatcher D) {u : Dispatcher D}
      {k' : CallAt D}
      → advance max_worker i c k s ≡ some (k', u)
      → u.root_done ≡ s.root_done
  unfolding advance
  advance-root_done max_worker i c (calling tx) s {u} {k'} h =
      ground (arith, enter-root_done tx s {u = u} {k' = k'})
  advance-root_done max_worker i c (has_slot tx) s {u} {k'} h =
      ground (arith, reenter-root_done tx s {u = u} {k' = k'})
  advance-root_done max_worker i first (sending tx j) s h = elim (Option-cases (send j tx s)) [
    | inl e ↦ absurd (ground arith)
    | inr (t, e) ↦ ground (arith, send-root_done j tx s e)
  ]
  advance-root_done max_worker i c (moving tx a b p) s h = elim (Option-cases (send a p s)) [
    | inl e ↦ absurd (ground arith)
    | inr (t, e) ↦ ground (arith, send-root_done a p s e)
  ]
  advance-root_done max_worker i c k s h = ground arith

  pub step-root_done :
      (max_worker : ℕ) (s : Dispatcher D) {t : Dispatcher D}
      → Fired max_worker s t
      → s.root_done ≡ true
      → t.root_done ≡ true
  unfolding apply
  step-root_done max_worker s (called tx e) d = ground arith
  step-root_done max_worker s (added i c k k' u e f g) d =
      ground (arith, advance-root_done max_worker i c k s f)
  step-root_done max_worker s (worked j c g g' e p w h) d = ground arith
  step-root_done max_worker s (awaited j g g' p w h) d = ground arith
  step-root_done max_worker s (cancelled e) d = ground arith

  pub run-root_done :
      (max_worker : ℕ) (sched : List (Action D)) (s : Dispatcher D) {t : Dispatcher D}
      → s.root_done ≡ true
      → run max_worker sched s ≡ some t
      → t.root_done ≡ true
  unfolding run
  run-root_done max_worker [] s d h = ground arith
  run-root_done max_worker (a ∷ rest) s {t} d h = elim (Option-cases (step max_worker a s)) [
    | inl e ↦ absurd (ground arith)
    | inr (u, e) ↦
        run-root_done max_worker rest u {t = t}
          (step-root_done max_worker s (step-Fired max_worker s a e) d) (ground arith)
  ]
