-- ===== src/Dispatcher/Slots.antt =====
-- The semaphore and the wait group of core/entity/dispather.go, with the workers and calls that they
-- count.
use cbtraining.Base.{
  ℕ, ◌+◌, ◌≤◌, ◌≡◌, ◌⊎◌, inl, inr, Option-cases, refl, [], ◌∷◌, some, Bool, arith, get_elem?, sum,
  sum-append, sum-set, weight-le-sum,
}
use cbtraining.Entity.{PaymentTx}
use cbtraining.Dispatcher.{
  WorkerAt, released, stopped, Group, CallAt, calling, has_slot, moving_next, moving, sending,
  counting, Dispatcher, new_dispatcher,
}
use cbtraining.Dispatcher.Worker.{Choice, first, Effect, release_slot, wg_done, work, await, apply}
use cbtraining.Dispatcher.Add.{advance, enter, reenter, send, start_merge, connect}
use cbtraining.Dispatcher.System.{
  Fired, called, added, worked, awaited, cancelled, step-Fired, Reach, Reachable, here, next,
}

module _ {D : Type 0} where
  -- 1 for a worker that has not given its slot back.
  abbrev pub has_worker : WorkerAt D → ℕ
  has_worker released = 0
  has_worker stopped = 0
  has_worker _ = 1

  abbrev pub is_live : Group D → ℕ
  is_live g = has_worker g.worker

  abbrev pub has_entry : WorkerAt D → ℕ
  has_entry stopped = 0
  has_entry _ = 1

  -- 1 for a worker that has not called `Wg.Done`.
  abbrev pub is_registered : Group D → ℕ
  is_registered g = has_entry g.worker

  -- 1 for a call that has a slot for a worker that it has not started.
  abbrev pub holds_slot : CallAt D → ℕ
  holds_slot (has_slot tx) = 1
  holds_slot _ = 0

  pub record Slots (max_worker : ℕ) (s : Dispatcher D) : Type 0 where
    pub counted : s.semaphore ≡ sum is_live s.groups + sum holds_slot s.calls
    pub capped : s.semaphore ≤ max_worker
    pub registered : s.wg ≡ sum is_registered s.groups

  freed : Effect D → ℕ
  freed release_slot = 1
  freed _ = 0

  done : Effect D → ℕ
  done wg_done = 1
  done _ = 0

  work-is_live :
      (c : Choice) (root_done : Bool) (g : Group D) {g' : Group D} {e : Effect D}
      → work c root_done g ≡ some (g', e)
      → (is_live g' + freed e ≡ is_live g) × (is_registered g' + done e ≡ is_registered g)
  unfolding work freed done
  work-is_live c root_done g h = ground arith

  await-is_live :
      (g : Group D) {g' : Group D}
      → await g ≡ some g'
      → (is_live g' ≡ is_live g) × (is_registered g' ≡ is_registered g)
  unfolding await
  await-is_live g h = ground arith

  record Balance (max_worker : ℕ) (s u : Dispatcher D) (k k' : CallAt D) : Type 0 where
    slots :
        u.semaphore + holds_slot k + sum is_live s.groups
        ≡ s.semaphore + holds_slot k' + sum is_live u.groups
    cap : (u.semaphore ≤ s.semaphore) ⊎ (u.semaphore ≤ max_worker)
    entries : u.wg + sum is_registered s.groups ≡ s.wg + sum is_registered u.groups
    calls : u.calls ≡ s.calls

  enter-Balance :
      (max_worker : ℕ) (tx : PaymentTx D) (s : Dispatcher D) {u : Dispatcher D} {k' : CallAt D}
      → enter tx s ≡ some (k', u)
      → Balance max_worker s u (calling tx) k'
  unfolding enter start_merge
  enter-Balance max_worker tx s h = grind (arith, sum-set)

  reenter-Balance :
      (max_worker : ℕ) (tx : PaymentTx D) (s : Dispatcher D) {u : Dispatcher D} {k' : CallAt D}
      → reenter tx s ≡ some (k', u)
      → Balance max_worker s u (has_slot tx) k'
  unfolding reenter connect
  reenter-Balance max_worker tx s h = grind (arith, sum-append)

  send-Balance :
      (max_worker j : ℕ) (tx : PaymentTx D) (s : Dispatcher D) (k k' : CallAt D) {u : Dispatcher D}
      → send j tx s ≡ some u
      → holds_slot k ≡ holds_slot k'
      → Balance max_worker s u k k'
  unfolding send
  send-Balance max_worker j tx s k k' h e = grind (arith, sum-set)

  advance-Balance :
      (max_worker i : ℕ) (c : Choice) (k : CallAt D) (s : Dispatcher D) {u : Dispatcher D}
      {k' : CallAt D}
      → advance max_worker i c k s ≡ some (k', u)
      → Balance max_worker s u k k'
  unfolding advance
  advance-Balance max_worker i c (calling tx) s {u} {k'} h =
      grind (arith, enter-Balance max_worker tx s {u = u} {k' = k'})
  advance-Balance max_worker i c (has_slot tx) s {u} {k'} h =
      grind (arith, reenter-Balance max_worker tx s {u = u} {k' = k'})
  advance-Balance max_worker i first (sending tx j) s h = elim (Option-cases (send j tx s)) [
    | inl e ↦ absurd (ground arith)
    | inr (t, e) ↦
        ground (arith, send-Balance max_worker j tx s (sending tx j) (counting tx j) e refl)
  ]
  advance-Balance max_worker i c (moving tx a b p) s h = elim (Option-cases (send a p s)) [
    | inl e ↦ absurd (ground arith)
    | inr (t, e) ↦
        ground (arith, send-Balance max_worker a p s (moving tx a b p) (moving_next tx a b) e refl)
  ]
  advance-Balance max_worker i c k s h = grind (arith, sum-set)

  step-Slots :
      (max_worker : ℕ) (s : Dispatcher D) {t : Dispatcher D}
      → Fired max_worker s t
      → Slots max_worker s
      → Slots max_worker t
  unfolding apply freed done
  step-Slots max_worker s (called tx e) v =
      grind (arith, sum-append holds_slot s.calls (calling tx ∷ []))
  step-Slots max_worker s (added i c k k' u e f g) v =
      grind (arith, advance-Balance max_worker i c k s f, sum-set holds_slot s.calls i k' e)
  step-Slots max_worker s (worked j c g g' e p w h) v = grind (
    arith,
    work-is_live c s.root_done g w,
    sum-set is_live s.groups j g' p,
    sum-set is_registered s.groups j g' p,
  )
  step-Slots max_worker s (awaited j g g' p w h) v = grind (
    arith,
    await-is_live g w,
    sum-set is_live s.groups j g' p,
    sum-set is_registered s.groups j g' p,
  )
  step-Slots max_worker s (cancelled e) v = grind arith

  Reach-Slots :
      {max_worker : ℕ} {s t : Dispatcher D}
      → Slots max_worker s
      → Reach max_worker s t
      → Slots max_worker t
  Reach-Slots v here = v
  Reach-Slots v (next {t} a r h) = step-Slots _ t (step-Fired _ t a h) (Reach-Slots v r)

  new_dispatcher-Slots : (max_worker : ℕ) → Slots max_worker new_dispatcher
  new_dispatcher-Slots max_worker = ground arith

  -- In every state that the service can reach, the semaphore holds one token for each worker that
  -- runs and for each call that is about to start one, the tokens are at most `max_worker`, and the
  -- dispatcher's wait group counts the workers that have not left.
  pub Reachable-Slots :
      {max_worker : ℕ} {s : Dispatcher D} → Reachable max_worker s → Slots max_worker s
  Reachable-Slots r = Reach-Slots (new_dispatcher-Slots _) r

  -- `Wg.Wait` of `Shutdown` returns at zero: in every reachable state with that counter at zero, every
  -- worker has stopped.
  pub wg_zero_stopped :
      {max_worker : ℕ} {s : Dispatcher D}
      → Reachable max_worker s
      → s.wg ≡ 0
      → (j : ℕ) {g : Group D} → get_elem? s.groups j ≡ some g
      → g.worker ≡ stopped
  wg_zero_stopped {s} r e j {g} p =
      ground (arith, (Reachable-Slots r).registered, weight-le-sum is_registered s.groups j {x = g})
