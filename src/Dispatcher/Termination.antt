-- ===== src/Dispatcher/Termination.antt =====
-- The goroutines of core/PaymentManagerService.go come to rest: without new calls of `add`, they take a
-- bounded number of steps.
use cbtraining.Base.{
  true, All, All-get, ℕ, ◌+◌, ◌*◌, ◌≤◌, ◌<◌, ◌≡◌, inl, inr, List, [], ◌∷◌, some, arith, get_elem?,
  set, length, sum, Option-cases, subst, refl,
}
use cbtraining.Dispatcher.{Group, CallAt, relocking, moving_next, moving, sending, Dispatcher}
use cbtraining.Dispatcher.Worker.{Choice, Effect, work, await, apply}
use cbtraining.Dispatcher.Add.{advance}
use cbtraining.Dispatcher.Mutex.{MuOk, Reachable-MuOk}
use cbtraining.Dispatcher.Ready.{GroupOk}
use cbtraining.Dispatcher.Apart.{Apart, Reachable-Apart}
use cbtraining.Dispatcher.Measure.{group_steps, call_steps, target, measure}
use cbtraining.Dispatcher.Shape.{Reachable-Shape}
use cbtraining.Dispatcher.System.{
  Action, calls, adds, works, waits, cancels, step, run, Reachable, next,
}
use cbtraining.Dispatcher.Descent.{work-descends, await-descends, group-descends}
use cbtraining.Dispatcher.CallDescent.{
  size_at-le, after, Outside-descends, relocking-descends, moving_next-descends, sending-descends,
  moving-descends,
}

module _ {D : Type 0} where
  pub record Sound (s : Dispatcher D) : Type 0 where
    pub mu : MuOk s
    pub apart : All Apart s.calls
    pub groups : All GroupOk s.groups

  pub Reachable-Sound : {max_worker : ℕ} {s : Dispatcher D} → Reachable max_worker s → Sound s
  Reachable-Sound r = record {
    mu = Reachable-MuOk r;
    apart = Reachable-Apart r;
    groups = (Reachable-Shape r).groups;
  }

  call-descends :
      (max_worker i : ℕ) (c : Choice) (k : CallAt D) (s u : Dispatcher D) (k' : CallAt D)
      → Sound s
      → get_elem? s.calls i ≡ some k
      → advance max_worker i c k s ≡ some (k', u)
      → Apart k
      → after max_worker i s u k' < measure s
  call-descends max_worker i c (relocking tx a b) s u k' v p h d =
      relocking-descends max_worker i s u k' c tx a b p h v.mu v.groups
  call-descends max_worker i c (moving_next tx a b) s u k' v p h d =
      moving_next-descends max_worker i s u k' c tx a b p h v.mu
  call-descends max_worker i c (moving tx a b q) s u k' v p h d =
      moving-descends max_worker i s u k' c tx a b q p h v.mu d
  call-descends max_worker i c (sending tx j) s u k' v p h d =
      sending-descends max_worker i s u k' c tx j p h
  call-descends max_worker i c k s u k' v p h d =
      Outside-descends max_worker i s u k' c k p h tt refl tt

  -- 1 for a step of a goroutine that runs, 0 for a cancellation from outside.
  abbrev pub goes_on : Action D → ℕ
  goes_on (calls tx) = 0
  goes_on (adds i c) = 1
  goes_on (works j c) = 1
  goes_on (waits j) = 1
  goes_on cancels = 0

  -- No goroutine calls `add`.
  abbrev pub IsInner : Action D → Type 0
  IsInner (calls tx) = ⊥
  IsInner _ = Unit

  apply-measure :
      (e : Effect D) (s : Dispatcher D) {t : Dispatcher D}
      → apply e s ≡ some t
      → measure t ≡ measure s
  unfolding apply
  apply-measure e s h = ground arith

  step-descends :
      (max_worker : ℕ) (a : Action D) (s : Dispatcher D) {t : Dispatcher D}
      → IsInner a
      → Sound s
      → step max_worker a s ≡ some t
      → goes_on a + measure t ≤ measure s
  unfolding step
  step-descends max_worker (calls tx) s q v h = absurd q
  step-descends max_worker (adds i c) s {t} q v h = elim (Option-cases (get_elem? s.calls i)) [
    | inl e ↦ absurd (ground arith)
    | inr (k, e) ↦ elim (Option-cases (advance max_worker i c k s)) [
      | inl f ↦ absurd (ground arith)
      | inr ((k', u), f) ↦
          let l : after max_worker i s u k' < measure s =
            call-descends max_worker i c k s u k' v e f (All-get Apart s.calls i v.apart e) in
          let same : record u { calls = set u.calls i k' } ≡ t = ground arith in
          subst (λ (d : Dispatcher D). 1 + measure d ≤ measure s) same (omega arith)
    ]
  ]
  step-descends max_worker (works j c) s {t} q v h = elim (Option-cases (get_elem? s.groups j)) [
    | inl e ↦ absurd (ground arith)
    | inr (g, e) ↦ elim (Option-cases (work c s.root_done g)) [
      | inl f ↦ absurd (ground arith)
      | inr ((g', x), f) ↦
          let l : measure (record s { groups = set s.groups j g' }) < measure s =
            group-descends s j g g' e (work-descends c s.root_done g f) in
          let same : measure t ≡ measure (record s { groups = set s.groups j g' }) =
            apply-measure x (record s { groups = set s.groups j g' }) {t = t} (ground arith) in
          rw same (omega arith)
    ]
  ]
  step-descends max_worker (waits j) s {t} q v h = elim (Option-cases (get_elem? s.groups j)) [
    | inl e ↦ absurd (ground arith)
    | inr (g, e) ↦ elim (Option-cases (await g)) [
      | inl f ↦ absurd (ground arith)
      | inr (g', f) ↦
          let l : measure (record s { groups = set s.groups j g' }) < measure s =
            group-descends s j g g' e (await-descends g f) in
          let same : record s { groups = set s.groups j g' } ≡ t = ground arith in
          subst (λ (d : Dispatcher D). 1 + measure d ≤ measure s) same (omega arith)
    ]
  ]
  step-descends max_worker cancels s {t} q v h =
      let same : record s { root_done = true } ≡ t = ground arith in
      let l : measure t ≤ measure s =
        subst (λ (d : Dispatcher D). measure d ≤ measure s) same (omega arith) in
      omega arith

  -- No schedule without a new call can take more steps than the measure says.
  pub run-descends :
      (max_worker : ℕ) (sched : List (Action D)) (s : Dispatcher D) {t : Dispatcher D}
      → Reachable max_worker s
      → All IsInner sched
      → run max_worker sched s ≡ some t
      → sum goes_on sched + measure t ≤ measure s
  unfolding run
  run-descends max_worker [] s r q h = ground arith
  run-descends max_worker (a ∷ rest) s {t} r q h = elim (Option-cases (step max_worker a s)) [
    | inl e ↦ absurd (ground arith)
    | inr (u, e) ↦
        let once : goes_on a + measure u ≤ measure s =
          step-descends max_worker a s q.0 (Reachable-Sound r) e in
        let tail : run max_worker rest u ≡ some t = ground arith in
        let more : sum goes_on rest + measure t ≤ measure u =
          run-descends max_worker rest u (next a r e) q.1 tail in
        omega arith
  ]

  group_steps-le : (gs : List (Group D)) → All GroupOk gs → sum group_steps gs ≤ 207 * length gs
  group_steps-le [] v = omega arith
  group_steps-le (g ∷ gs) v = ground (arith, v.0.within, group_steps-le gs v.1)

  call_steps-le : (ks : List (CallAt D)) → sum call_steps ks ≤ 210 * length ks
  call_steps-le [] = omega arith
  call_steps-le (k ∷ ks) = ground (arith, call_steps-le ks)

  -- From every reachable state, every schedule in which no goroutine calls `add` takes at most 207
  -- steps for each group, 210 for each call of `add` so far and 200 more, cancellations of the root
  -- context not counted: the calls, the workers and the goroutines of `NewGroup` all come to rest.
  pub steps_bounded :
      (max_worker : ℕ) (sched : List (Action D)) (s : Dispatcher D) {t : Dispatcher D}
      → Reachable max_worker s
      → All IsInner sched
      → run max_worker sched s ≡ some t
      → sum goes_on sched ≤ 207 * length s.groups + 210 * length s.calls + 200
  steps_bounded max_worker sched s r q h =
      let v : All GroupOk s.groups = (Reachable-Shape r).groups in
      ground (
        arith,
        run-descends max_worker sched s r q h,
        group_steps-le s.groups v,
        call_steps-le s.calls,
        size_at-le s.groups (target s.calls) v,
      )
