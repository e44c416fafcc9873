-- ===== src/Dispatcher/Measure.antt =====
-- How many steps the goroutines of core/PaymentManagerService.go have left: a weight for each worker and
-- its channel, one for each call of `add`, and one for the channel that a drain empties.
use cbtraining.Base.{
  ℕ, ◌+◌, ◌*◌, ◌≤◌, ◌≡◌, zero, suc, List, [], ◌∷◌, ◌++◌, Option, none, some, arith, get_elem?, set,
  length, sum, refl, if◌then◌else◌, Bool-cases, inl, inr, ◌==◌, get_elem?-set_self,
  get_elem?-set_ne, get_elem?-append_cases, Option-cases, weight-le-sum,
}
use cbtraining.Dispatcher.{
  WorkerAt, selecting, processing, deciding, draining, drain_processing, leaving, released, stopped,
  Group, CallAt, calling, want_slot, has_slot, awaiting, relocking, moving_next, moving, sending,
  counting, returned, Dispatcher, new_group,
}
use cbtraining.Dispatcher.Mutex.{holds_mu}

abbrev or_else : Option ℕ → Option ℕ → Option ℕ
or_else none r = r
or_else (some b) r = some b

module _ {D : Type 0} where
  abbrev pub worker_steps : WorkerAt D → ℕ
  worker_steps stopped = 0
  worker_steps released = 1
  worker_steps leaving = 2
  worker_steps draining = 3
  worker_steps (drain_processing tx) = 4
  worker_steps deciding = 4
  worker_steps selecting = 5
  worker_steps (processing tx) = 6

  -- Two for each payment in the channel, the worker's own, and the goroutine of `NewGroup`.
  abbrev pub group_steps : Group D → ℕ
  group_steps g = 2 * length g.ch + worker_steps g.worker + (if g.awaited then 1 else 0)

  -- A payment that is sent weighs in its group and, if the group is drained, in the drain.
  abbrev pub call_steps : CallAt D → ℕ
  call_steps (returned r) = 0
  call_steps (counting tx j) = 1
  call_steps (sending tx j) = 6
  call_steps (moving_next tx a b) = 7
  call_steps (moving tx a b p) = 10
  call_steps (has_slot tx) = 13
  call_steps (want_slot tx) = 14
  call_steps (relocking tx a b) = 208
  call_steps (awaiting tx a b) = 209
  call_steps (calling tx) = 210

  -- The group that a call is emptying.
  abbrev pub emptied : CallAt D → Option ℕ
  emptied (moving_next tx a b) = some b
  emptied (moving tx a b p) = some b
  emptied _ = none

  abbrev pub target : List (CallAt D) → Option ℕ
  target [] = none
  target (k ∷ ks) = or_else (emptied k) (target ks)

  abbrev size_of : Option (Group D) → ℕ
  size_of none = 0
  size_of (some g) = length g.ch

  abbrev pub size_at : List (Group D) → Option ℕ → ℕ
  size_at gs none = 0
  size_at gs (some b) = size_of (get_elem? gs b)

  abbrev pub measure : Dispatcher D → ℕ
  measure s =
      sum group_steps s.groups + sum call_steps s.calls + 2 * size_at s.groups (target s.calls)

  -- No call is in the drain.
  target-none : (ks : List (CallAt D)) → sum holds_mu ks ≡ 0 → target ks ≡ none
  target-none [] e = refl
  target-none (k ∷ ks) e = ground (arith, target-none ks)

  -- Only call number `i` is.
  pub target-at :
      (ks : List (CallAt D)) (i : ℕ) (k : CallAt D)
      → get_elem? ks i ≡ some k
      → sum holds_mu ks ≡ holds_mu k
      → target ks ≡ emptied k
  target-at [] i k p e = absurd (ground arith)
  target-at (h ∷ ks) zero k p e =
      let same : h ≡ k = ground arith in ground (arith, target-none ks, same)
  target-at (h ∷ ks) (suc i) k p e =
      ground (arith, target-at ks i k p, weight-le-sum holds_mu ks i p)

  pub target-set :
      (ks : List (CallAt D)) (i : ℕ) (k k' : CallAt D)
      → get_elem? ks i ≡ some k
      → sum holds_mu ks ≡ holds_mu k
      → target (set ks i k') ≡ emptied k'
  target-set [] i k k' p e = absurd (ground arith)
  target-set (h ∷ ks) zero k k' p e =
      let same : h ≡ k = ground arith in ground (arith, target-none ks, same)
  target-set (h ∷ ks) (suc i) k k' p e =
      ground (arith, target-set ks i k k' p, weight-le-sum holds_mu ks i p)

  pub target-set_same :
      (ks : List (CallAt D)) (i : ℕ) (k k' : CallAt D)
      → get_elem? ks i ≡ some k
      → emptied k' ≡ emptied k
      → target (set ks i k') ≡ target ks
  target-set_same [] i k k' p e = refl
  target-set_same (h ∷ ks) zero k k' p e = let same : h ≡ k = ground arith in ground (arith, same)
  target-set_same (h ∷ ks) (suc i) k k' p e = ground (arith, target-set_same ks i k k' p e)

  pub size_at-set :
      (gs : List (Group D)) (j d : ℕ) (g g' : Group D) (o : Option ℕ)
      → get_elem? gs j ≡ some g
      → length g'.ch ≤ length g.ch + d
      → size_at (set gs j g') o ≤ size_at gs o + d
  size_at-set gs j d g g' none p l = omega arith
  size_at-set gs j d g g' (some b) p l = elim (Bool-cases (j == b)) [
    | inl same ↦ ground (arith, get_elem?-set_self gs j g' p)
    | inr differ ↦ ground (arith, get_elem?-set_ne gs j b g')
  ]

  pub size_at-append :
      (gs : List (Group D)) (o : Option ℕ) → size_at (gs ++ new_group ∷ []) o ≤ size_at gs o
  size_at-append gs none = omega arith
  size_at-append gs (some b) = elim (Option-cases (get_elem? (gs ++ new_group ∷ []) b)) [
    | inl e ↦ ground arith
    | inr (g, e) ↦ ground (arith, get_elem?-append_cases gs b new_group e)
  ]
