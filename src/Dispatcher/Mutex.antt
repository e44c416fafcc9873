-- ===== src/Dispatcher/Mutex.antt =====
-- `Mu` of core/entity/dispather.go between two steps of the calls of `add`.
use cbtraining.Base.{
  ℕ, ◌+◌, ◌≤◌, ◌≡◌, inl, inr, refl, [], ◌∷◌, Option, none, some, arith, get_elem?, Bool-cases, sum,
  sum-set, sum-append, weight-le-sum, weights-le-sum, ◌==◌,
}
use cbtraining.Entity.{PaymentTx}
use cbtraining.Dispatcher.{CallAt, calling, has_slot, moving_next, moving, Dispatcher}
use cbtraining.Dispatcher.Worker.{Choice, apply}
use cbtraining.Dispatcher.Add.{advance, enter, reenter, send, start_merge, connect, drain_step}
use cbtraining.Dispatcher.System.{
  Fired, called, added, worked, awaited, cancelled, step-Fired, Reachable, here, next,
}

abbrev pub busy : Option ℕ → ℕ
busy none = 0
busy (some i) = 1

module _ {D : Type 0} where
  abbrev pub holds_mu : CallAt D → ℕ
  holds_mu (moving_next tx a b) = 1
  holds_mu (moving tx a b p) = 1
  holds_mu _ = 0

  -- The mutex is held by one call in the drain, or free with no call in the drain.
  abbrev pub MuOk : Dispatcher D → Type 0
  MuOk s = sum holds_mu s.calls ≡ busy s.mu

  record Passes (s u : Dispatcher D) (k k' : CallAt D) : Type 0 where
    calls : u.calls ≡ s.calls
    mu : busy u.mu + holds_mu k ≡ busy s.mu + holds_mu k'

  enter-Passes :
      (tx : PaymentTx D) (s : Dispatcher D) {u : Dispatcher D} {k' : CallAt D}
      → enter tx s ≡ some (k', u)
      → Passes s u (calling tx) k'
  unfolding enter start_merge
  enter-Passes tx s h = ground arith

  reenter-Passes :
      (tx : PaymentTx D) (s : Dispatcher D) {u : Dispatcher D} {k' : CallAt D}
      → reenter tx s ≡ some (k', u)
      → Passes s u (has_slot tx) k'
  unfolding reenter connect
  reenter-Passes tx s h = ground arith

  advance-Passes :
      (max_worker i : ℕ) (c : Choice) (k : CallAt D) (s : Dispatcher D) {u : Dispatcher D}
      {k' : CallAt D}
      → advance max_worker i c k s ≡ some (k', u)
      → holds_mu k ≤ busy s.mu
      → Passes s u k k'
  unfolding advance drain_step send
  advance-Passes max_worker i c (calling tx) s {u} {k'} h l =
      grind (arith, enter-Passes tx s {u = u} {k' = k'})
  advance-Passes max_worker i c (has_slot tx) s {u} {k'} h l =
      grind (arith, reenter-Passes tx s {u = u} {k' = k'})
  advance-Passes max_worker i c k s h l = ground arith

  Fired-MuOk :
      {max_worker : ℕ} (s : Dispatcher D) {t : Dispatcher D}
      → Fired max_worker s t
      → MuOk s
      → MuOk t
  unfolding apply
  Fired-MuOk s (called tx e) v = grind (arith, sum-append holds_mu s.calls (calling tx ∷ []))
  Fired-MuOk {max_worker} s (added i c k k' u e f g) v = grind (
    arith,
    advance-Passes max_worker i c k s f,
    sum-set holds_mu s.calls i k' e,
    weight-le-sum holds_mu s.calls i e,
  )
  Fired-MuOk s (worked j c g g' e p w h) v = ground arith
  Fired-MuOk s (awaited j g g' p w e) v = ground arith
  Fired-MuOk s (cancelled e) v = ground arith

  pub Reachable-MuOk : {max_worker : ℕ} {s : Dispatcher D} → Reachable max_worker s → MuOk s
  Reachable-MuOk here = refl
  Reachable-MuOk (next {t} a r h) = Fired-MuOk t (step-Fired _ t a h) (Reachable-MuOk r)

  -- Two calls of `add` are never in the drain of a merge together.
  pub drain_alone :
      {max_worker : ℕ} {s : Dispatcher D}
      → Reachable max_worker s
      → (i j : ℕ) {k l : CallAt D} → get_elem? s.calls i ≡ some k
      → get_elem? s.calls j ≡ some l
      → holds_mu k ≡ 1
      → holds_mu l ≡ 1
      → i ≡ j
  drain_alone {s} r i j {k} {l} p q hk hl = elim (Bool-cases (i == j)) [
    | inl same ↦ ground arith
    | inr differ ↦ absurd (
        at_most s.mu (Reachable-MuOk r)
          (weights-le-sum holds_mu s.calls i j (λ e. ground arith) p q))
  ]
    where
      at_most :
          (m : Option ℕ)
          → sum holds_mu s.calls ≡ busy m
          → holds_mu k + holds_mu l ≤ sum holds_mu s.calls
          → ⊥
      at_most none e h = omega arith
      at_most (some o) e h = omega arith
