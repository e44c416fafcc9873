-- ===== src/Dispatcher/Sends.antt =====
-- What a step of `add` in core/PaymentManagerService.go does to the queues of the groups.
use cbtraining.Base.{
  ℕ, String, ◌≡◌, inl, inr, refl, ◌∙◌, sym, ap, [], ◌∷◌, ◌++◌, append_assoc, some, arith, get_elem?,
  set, Option-cases, subst,
}
use cbtraining.Entity.{PaymentTx}
use cbtraining.Dispatcher.{
  Group, CallAt, calling, has_slot, moving_next, moving, sending, Dispatcher,
}
use cbtraining.Dispatcher.Worker.{Choice, first, second}
use cbtraining.Dispatcher.Add.{advance, enter, reenter, send, start_merge, connect}
use cbtraining.Dispatcher.Routes.{CallRouted}
use cbtraining.Dispatcher.Moves.{
  Gives, Change, merges, takes, drains, counts, Touch, untouched, opened, touched, advance-Touch,
}
use cbtraining.Dispatcher.Line.{only, held, queue, line, line-append, line-set_same}

module _ {D : Type 0} where
  -- What a step of `add` does to the queues and the records.
  pub data Adds (s u : Dispatcher D) (k : CallAt D) : Type 0 where
    keeps :
        ((x : String) → line x u.groups ≡ line x s.groups)
        → u.accepted ≡ s.accepted
        → u.handled ≡ s.handled
        → Adds s u k
    sends :
        (tx : PaymentTx D) (j : ℕ) (g g' : Group D)
        → k ≡ sending tx j
        → get_elem? s.groups j ≡ some g
        → u.groups ≡ set s.groups j g'
        → queue g' ≡ queue g ++ tx ∷ []
        → u.accepted ≡ tx ∷ s.accepted
        → u.handled ≡ s.handled
        → Adds s u k

  -- A step that sends and drains nothing leaves every queue as it was.
  abbrev pub Silent : CallAt D → Type 0
  Silent (sending tx j) = ⊥
  Silent (moving tx a b p) = ⊥
  Silent (moving_next tx a b) = ⊥
  Silent _ = Unit

  pub Silent-Gives : (k : CallAt D) (b : ℕ) (tx : PaymentTx D) → Silent k → Gives k b tx → ⊥
  Silent-Gives (sending tx j) b p q to = q
  Silent-Gives (moving tx a i p) b r q to = q
  Silent-Gives _ b tx q to = to

  Change-queue :
      (k : CallAt D) (b : ℕ) (h h' : Group D) → Silent k → Change k b h h' → queue h' ≡ queue h
  Change-queue k b h h' q (merges e) = rw e refl
  Change-queue k b h h' q (counts e) = rw e refl
  Change-queue k b h h' q (takes tx to l e) = absurd (Silent-Gives k b tx q to)
  Change-queue k b h h' q (drains tx a p rest f e r) = absurd (subst Silent f q)

  Touch-line :
      (k : CallAt D) (s u : Dispatcher D)
      → Silent k
      → Touch (Change k) s u
      → (x : String) → line x u.groups ≡ line x s.groups
  Touch-line k s u q (untouched e) x = ap (line x) e
  Touch-line k s u q (opened e) x = ap (line x) e ∙ line-append x s.groups
  Touch-line k s u q (touched b h h' p e r) x =
      ap (line x) e ∙ line-set_same x s.groups b h h' p (ap (only x) (Change-queue k b h h' q r))

  enter-records :
      (tx : PaymentTx D) (s : Dispatcher D) {u : Dispatcher D} {k' : CallAt D}
      → enter tx s ≡ some (k', u)
      → (u.accepted ≡ s.accepted) × (u.handled ≡ s.handled)
  unfolding enter start_merge
  enter-records tx s h = ground arith

  reenter-records :
      (tx : PaymentTx D) (s : Dispatcher D) {u : Dispatcher D} {k' : CallAt D}
      → reenter tx s ≡ some (k', u)
      → (u.accepted ≡ s.accepted) × (u.handled ≡ s.handled)
  unfolding reenter connect
  reenter-records tx s h = ground arith

  Silent-records :
      (max_worker i : ℕ) (c : Choice) (k : CallAt D) (s : Dispatcher D) {u : Dispatcher D}
      {k' : CallAt D}
      → advance max_worker i c k s ≡ some (k', u)
      → Silent k
      → (u.accepted ≡ s.accepted) × (u.handled ≡ s.handled)
  unfolding advance
  Silent-records max_worker i c (calling tx) s {u} {k'} h q =
      enter-records tx s {u = u} {k' = k'} (ground arith)
  Silent-records max_worker i c (has_slot tx) s {u} {k'} h q =
      reenter-records tx s {u = u} {k' = k'} (ground arith)
  Silent-records max_worker i c (sending tx j) s h q = absurd q
  Silent-records max_worker i c (moving tx a b p) s h q = absurd q
  Silent-records max_worker i c (moving_next tx a b) s h q = absurd q
  Silent-records max_worker i c k s h q = ground arith

  silent-Adds :
      (max_worker i : ℕ) (c : Choice) (k : CallAt D) (s : Dispatcher D) {u : Dispatcher D}
      {k' : CallAt D}
      → advance max_worker i c k s ≡ some (k', u)
      → Silent k
      → Adds s u k
  silent-Adds max_worker i c k s {u} h q =
      let (a, d) = Silent-records max_worker i c k s h q in
      keeps (Touch-line k s u q (advance-Touch max_worker i c k s h)) a d

  pub advance-Adds :
      (max_worker i : ℕ) (c : Choice) (k : CallAt D) (s : Dispatcher D) {u : Dispatcher D}
      {k' : CallAt D}
      → advance max_worker i c k s ≡ some (k', u)
      → CallRouted s.iban_to_group k
      → Adds s u k
  unfolding advance send
  advance-Adds max_worker i first (sending tx j) s h v =
      elim (Option-cases (get_elem? s.groups j)) [
        | inl e ↦ absurd (ground arith)
        | inr (g, e) ↦
            sends tx j g (record g { ch = g.ch ++ tx ∷ [] }) refl e (ground arith)
              (sym (append_assoc (held g.worker) g.ch (tx ∷ []))) (ground arith) (ground arith)
      ]
  advance-Adds max_worker i second (sending tx j) s h v =
      keeps (λ x. ap (line x) (ground arith)) (ground arith) (ground arith)
  advance-Adds max_worker i c (moving_next tx a b) s h v = absurd v
  advance-Adds max_worker i c (moving tx a b p) s h v = absurd v
  advance-Adds max_worker i c k s h v = silent-Adds max_worker i c k s h tt
