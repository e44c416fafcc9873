-- ===== src/Dispatcher/Shutdown.antt =====
-- `Shutdown` of core/PaymentManagerService.go waits for the counter of core/entity/dispather.go, after
-- the root context is cancelled: the workers always get there.
use cbtraining.Base.{
  ℕ, suc, ◌+◌, ◌*◌, ◌≡◌, ◌≢◌, ◌⊎◌, inl, inr, refl, ◌∙◌, sym, arith, List, [], ◌∷◌, some, Bool, true,
  false, Bool-cases, Option-cases, ◌==◌, get_elem?, set, length, sum, All, weight-le-sum, subst,
  sum-append, ◌++◌, ◌<◌,
}
use cbtraining.Dispatcher.{WorkerAt, selecting, processing, stopped, Group, Dispatcher}
use cbtraining.Dispatcher.Worker.{Choice, first, second, Effect, release_slot, work, apply}
use cbtraining.Dispatcher.System.{Action, works, step, run, Reachable}
use cbtraining.Dispatcher.Slots.{Slots, Reachable-Slots, is_registered, is_live}
use cbtraining.Dispatcher.Runs.{run-Reach}
use cbtraining.Dispatcher.Termination.{goes_on, IsInner, steps_bounded}
use cbtraining.Dispatcher.Cancelled.{run-root_done}

sum-positive {ℓ} :
    {A : Type ℓ} (w : A → ℕ) (xs : List A)
    → sum w xs ≢ 0
    → (i : ℕ) × (x : A) × (get_elem? xs i ≡ some x) × (w x ≢ 0)
sum-positive w [] h = absurd (h refl)
sum-positive w (x ∷ xs) h = elim (Bool-cases (w x == 0)) [
  | inr e ↦ (0, x, refl, λ z. absurd (ground arith))
  | inl e ↦ let (i, y, p, q) = sum-positive w xs (λ z. h (ground arith)) in (suc i, y, p, q)
]

module _ {D : Type 0} where
  -- A worker that has not stopped can go on, once the root context is cancelled.
  can_work :
      (g : Group D) (w : WorkerAt D)
      → g.worker ≡ w
      → is_registered g ≢ 0
      → (c : Choice) × (g' : Group D) × (e : Effect D) × (work c true g ≡ some (g', e))
  unfolding work
  can_work g selecting e h = elim (Option-cases (work second true g)) [
    | inl z ↦ absurd (ground arith)
    | inr ((g', x), z) ↦ (second, g', x, z)
  ]
  can_work g (processing tx) e h = elim (Option-cases (work first true g)) [
    | inl z ↦ absurd (ground arith)
    | inr ((g', x), z) ↦ (first, g', x, z)
  ]
  can_work g w e h = elim (Option-cases (work first true g)) [
    | inl z ↦ absurd (ground arith)
    | inr ((g', x), z) ↦ (first, g', x, z)
  ]

  work_releases :
      (c : Choice) (root_done : Bool) (g : Group D) {g' : Group D}
      → work c root_done g ≡ some (g', release_slot)
      → is_live g ≢ 0
  unfolding work
  work_releases c root_done g h = ground arith

  can_apply :
      (e : Effect D) (s : Dispatcher D)
      → (e ≡ release_slot → s.semaphore ≢ 0)
      → (t : Dispatcher D) × (apply e s ≡ some t)
  unfolding apply
  can_apply e s h = elim (Option-cases (apply e s)) [
    | inl z ↦ absurd (ground arith)
    | inr (t, z) ↦ (t, z)
  ]

  step_works :
      (max_worker j : ℕ) (c : Choice) (s t : Dispatcher D) (g g' : Group D) (e : Effect D)
      → s.panicked ≡ false
      → get_elem? s.groups j ≡ some g
      → work c s.root_done g ≡ some (g', e)
      → apply e (record s { groups = set s.groups j g' }) ≡ some t
      → step max_worker (works j c) s ≡ some t
  unfolding step
  step_works max_worker j c s t g g' e n p w a = ground arith

  -- After the cancellation of the root context, in every reachable state whose counter is not zero
  -- some worker can go on.
  shutdown_progress :
      (max_worker : ℕ) (s : Dispatcher D)
      → Reachable max_worker s
      → s.root_done ≡ true
      → s.panicked ≡ false
      → s.wg ≢ 0
      → (j : ℕ) × (c : Choice) × (t : Dispatcher D) × (step max_worker (works j c) s ≡ some t)
  shutdown_progress max_worker s r d n h =
      let v : Slots max_worker s = Reachable-Slots r in
      let (j, g, p, q) = sum-positive is_registered s.groups (λ z. h (v.registered ∙ z)) in
      let (c, g', e, w) = can_work g g.worker refl q in
      let w : work c s.root_done g ≡ some (g', e) =
        subst (λ (b : Bool). work c b g ≡ some (g', e)) (sym d) w in
      let free : e ≡ release_slot → s.semaphore ≢ 0 = λ z. λ zero_left.
        work_releases c true g {g' = g'} (ground arith)
          (ground (arith, v.counted, weight-le-sum is_live s.groups j {x = g} p)) in
      let (t, a) = can_apply e (record s { groups = set s.groups j g' }) free in
      (j, c, t, step_works max_worker j c s t g g' e n p w a)

  run_snoc :
      (max_worker : ℕ) (sched : List (Action D)) (a : Action D) (s t : Dispatcher D)
      {u : Dispatcher D}
      → run max_worker sched s ≡ some t
      → step max_worker a t ≡ some u
      → run max_worker (sched ++ a ∷ []) s ≡ some u
  unfolding run
  run_snoc max_worker [] a s t h e = ground arith
  run_snoc max_worker (b ∷ rest) a s t h e = elim (Option-cases (step max_worker b s)) [
    | inl z ↦ absurd (ground arith)
    | inr (v, z) ↦ let more = run_snoc max_worker rest a v t (ground arith) e in ground arith
  ]

  IsInner-snoc :
      (sched : List (Action D)) (j : ℕ) (c : Choice)
      → All IsInner sched
      → All IsInner (sched ++ works j c ∷ [])
  IsInner-snoc [] j c q = (tt, tt)
  IsInner-snoc (a ∷ rest) j c q = (q.0, IsInner-snoc rest j c q.1)

  abbrev pub IsStopped : Group D → Type 0
  IsStopped g = g.worker ≡ stopped

  -- The process has panicked, or the counter that `Shutdown` waits for is at zero and every worker
  -- has stopped.
  abbrev pub IsOver : Dispatcher D → Type 0
  IsOver s = (s.panicked ≡ true) ⊎ ((s.wg ≡ 0) × All IsStopped s.groups)

  -- A worker can go on, and the schedule is shorter than the bound.
  abbrev pub GoesOn : ℕ → List (Action D) → Dispatcher D → Dispatcher D → Type 0
  GoesOn max_worker sched s t =
      (sum goes_on sched < 207 * length s.groups + 210 * length s.calls + 200)
      × ((j : ℕ) × (c : Choice) × (u : Dispatcher D) × (step max_worker (works j c) t ≡ some u))

  zero-IsStopped : (gs : List (Group D)) → sum is_registered gs ≡ 0 → All IsStopped gs
  zero-IsStopped [] h = tt
  zero-IsStopped (g ∷ gs) h = (ground arith, zero-IsStopped gs (ground arith))

  GoesOn-more :
      (max_worker : ℕ) (sched : List (Action D)) (s t : Dispatcher D)
      → Reachable max_worker s
      → s.root_done ≡ true
      → All IsInner sched
      → run max_worker sched s ≡ some t
      → t.panicked ≡ false
      → t.wg ≢ 0
      → GoesOn max_worker sched s t
  GoesOn-more max_worker sched s t r d q h n z =
      let (j, c, u, e) =
        shutdown_progress max_worker t (run-Reach max_worker sched r h)
          (run-root_done max_worker sched s d h) n z in
      let l =
        steps_bounded max_worker (sched ++ works j c ∷ []) s r (IsInner-snoc sched j c q)
          (run_snoc max_worker sched (works j c) s t h e) in
      (ground (arith, sum-append goes_on sched (works j c ∷ [])), (j, c, u, e))

  -- `Shutdown` does not hang: take a reachable state whose root context is cancelled, and a schedule
  -- from there in which no goroutine calls `add`. Where it leads, the process has panicked, or the
  -- counter is at zero and every worker has stopped, or else some worker can go on and the schedule has
  -- fewer steps than 207 for each group, 210 for each call of `add` before the cancellation and 200.
  pub shutdown_settles :
      (max_worker : ℕ) (sched : List (Action D)) (s : Dispatcher D) {t : Dispatcher D}
      → Reachable max_worker s
      → s.root_done ≡ true
      → All IsInner sched
      → run max_worker sched s ≡ some t
      → IsOver t ⊎ GoesOn max_worker sched s t
  shutdown_settles max_worker sched s {t} r d q h = elim (Bool-cases t.panicked) [
    | inl e ↦ inl (inl e)
    | inr n ↦ elim (Bool-cases (t.wg == 0)) [
      | inl e ↦
          let z : t.wg ≡ 0 = ground arith in
          let v : Slots max_worker t = Reachable-Slots (run-Reach max_worker sched r h) in
          inl (inr (z, zero-IsStopped t.groups (ground (arith, v.registered))))
      | inr e ↦ inr (GoesOn-more max_worker sched s t r d q h n (λ z. ground arith))
    ]
  ]
