-- ===== src/Dispatcher/System.antt =====
-- The goroutines together: any number of calls of `add`, the workers, and the goroutines of
-- `NewGroup`, interleaved in any order.
use cbtraining.Base.{
  Option-cases, inl, inr, arith, ℕ, ◌≡◌, List, [], ◌∷◌, ◌++◌, Option, none, some, true, get_elem?,
  set, if◌then◌else◌,
}
use cbtraining.Entity.{PaymentTx}
use cbtraining.Dispatcher.{CallAt, calling, Group, Dispatcher, new_dispatcher}
use cbtraining.Dispatcher.Worker.{Choice, Effect, work, await, apply}
use cbtraining.Dispatcher.Add.{advance}

pub data Action (D : Type 0) : Type 0 where
  calls : PaymentTx D → Action D  -- a goroutine calls `add(tx)`
  adds : ℕ → Choice → Action D  -- a call goes on
  works : ℕ → Choice → Action D  -- a worker goes on
  waits : ℕ → Action D  -- `g.Wg.Wait()` returns
  cancels : Action D  -- the root context is cancelled

module _ {D : Type 0} where
  step_call : ℕ → ℕ → Choice → Option (CallAt D) → Dispatcher D → Option (Dispatcher D)
  step_call max_worker i c none s = none
  step_call max_worker i c (some k) s = elim (advance max_worker i c k s) [
    | none ↦ none
    | some (k', t) ↦ some (record t { calls = set t.calls i k' })
  ]

  step_worker : ℕ → Choice → Option (Group D) → Dispatcher D → Option (Dispatcher D)
  step_worker k c none s = none
  step_worker k c (some g) s = elim (work c s.root_done g) [
    | none ↦ none
    | some (g', e) ↦ apply e (record s { groups = set s.groups k g' })
  ]

  step_await : ℕ → Option (Group D) → Dispatcher D → Option (Dispatcher D)
  step_await k none s = none
  step_await k (some g) s = elim (await g) [
    | none ↦ none
    | some g' ↦ some (record s { groups = set s.groups k g' })
  ]

  act : ℕ → Action D → Dispatcher D → Option (Dispatcher D)
  unfolding step_call step_worker step_await
  act max_worker (calls tx) s = some (record s { calls = s.calls ++ calling tx ∷ [] })
  act max_worker (adds i c) s = step_call max_worker i c (get_elem? s.calls i) s
  act max_worker (works k c) s = step_worker k c (get_elem? s.groups k) s
  act max_worker (waits k) s = step_await k (get_elem? s.groups k) s
  act max_worker cancels s = some (record s { root_done = true })

  -- A process that has panicked does nothing more.
  unfoldable pub step : ℕ → Action D → Dispatcher D → Option (Dispatcher D)
  unfolding act
  step max_worker a s = if s.panicked then none else act max_worker a s

  unfoldable pub run : ℕ → List (Action D) → Dispatcher D → Option (Dispatcher D)
  run max_worker [] s = some s
  run max_worker (a ∷ rest) s = elim (step max_worker a s) [
    | none ↦ none
    | some t ↦ run max_worker rest t
  ]

-- The states that some interleaving leads to.
pub data Reach {D : Type 0} (max_worker : ℕ) (s : Dispatcher D) : Dispatcher D → Type 0 where
  here : Reach max_worker s s
  next :
      {t u : Dispatcher D} (a : Action D)
      → Reach max_worker s t
      → step max_worker a t ≡ some u
      → Reach max_worker s u

-- From the start of the service.
abbrev pub Reachable : {D : Type 0} → ℕ → Dispatcher D → Type 0
Reachable max_worker s = Reach max_worker new_dispatcher s

-- What a step was, with what it read and wrote.
pub data Fired {D : Type 0} (max_worker : ℕ) (s t : Dispatcher D) : Type 0 where
  called :
      (tx : PaymentTx D)
      → t ≡ record s { calls = s.calls ++ calling tx ∷ [] }
      → Fired max_worker s t
  added :
      (i : ℕ) (c : Choice) (k k' : CallAt D) (u : Dispatcher D)
      → get_elem? s.calls i ≡ some k
      → advance max_worker i c k s ≡ some (k', u)
      → t ≡ record u { calls = set u.calls i k' }
      → Fired max_worker s t
  worked :
      (j : ℕ) (c : Choice) (g g' : Group D) (e : Effect D)
      → get_elem? s.groups j ≡ some g
      → work c s.root_done g ≡ some (g', e)
      → apply e (record s { groups = set s.groups j g' }) ≡ some t
      → Fired max_worker s t
  awaited :
      (j : ℕ) (g g' : Group D)
      → get_elem? s.groups j ≡ some g
      → await g ≡ some g'
      → t ≡ record s { groups = set s.groups j g' }
      → Fired max_worker s t
  cancelled : t ≡ record s { root_done = true } → Fired max_worker s t

module _ {D : Type 0} (max_worker : ℕ) (s : Dispatcher D) {t : Dispatcher D} where
  act-Fired : (a : Action D) → act max_worker a s ≡ some t → Fired max_worker s t
  unfolding act
  act-Fired (calls tx) h = called tx (cc)
  act-Fired (adds i c) h = elim (Option-cases (get_elem? s.calls i)) [
    | inl e ↦ absurd (ground arith)
    | inr (k, e) ↦ elim (Option-cases (advance max_worker i c k s)) [
      | inl f ↦ absurd (ground arith)
      | inr ((k', u), f) ↦ added i c k k' u e f (ground arith)
    ]
  ]
  act-Fired (works j c) h = elim (Option-cases (get_elem? s.groups j)) [
    | inl e ↦ absurd (ground arith)
    | inr (g, e) ↦ elim (Option-cases (work c s.root_done g)) [
      | inl f ↦ absurd (ground arith)
      | inr ((g', x), f) ↦ worked j c g g' x e f (ground arith)
    ]
  ]
  act-Fired (waits j) h = elim (Option-cases (get_elem? s.groups j)) [
    | inl e ↦ absurd (ground arith)
    | inr (g, e) ↦ elim (Option-cases (await g)) [
      | inl f ↦ absurd (ground arith)
      | inr (g', f) ↦ awaited j g g' e f (ground arith)
    ]
  ]
  act-Fired cancels h = cancelled (cc)

  pub step-Fired : (a : Action D) → step max_worker a s ≡ some t → Fired max_worker s t
  unfolding step
  step-Fired a h = act-Fired a (ground arith)
