-- ===== src/Dispatcher/Line.antt =====
-- The payments of one account that wait in the channels or are in the hands of a worker, oldest first in
-- each group.
use cbtraining.Base.{
  ℕ, zero, suc, String, ◌≡◌, ◌≢◌, refl, ◌∙◌, ap, List, [], ◌∷◌, ◌++◌, append-nil, some, Option,
  Bool, arith, get_elem?, set, All, str_eq, eq_iff, ◌||◌, if◌then◌else◌,
}
use cbtraining.Entity.{PaymentTx, cred_iban, deb_iban}
use cbtraining.Dispatcher.{WorkerAt, processing, drain_processing, Group, new_group}
use cbtraining.Dispatcher.Routes.{Points, HandRouted, GroupRouted}

module _ {D : Type 0} where
  unfoldable pub touches : String → PaymentTx D → Bool
  touches x tx = str_eq (cred_iban tx) x || str_eq (deb_iban tx) x

  -- The payments that touch an account.
  unfoldable pub only : String → List (PaymentTx D) → List (PaymentTx D)
  only x [] = []
  only x (tx ∷ rest) = if touches x tx then tx ∷ only x rest else only x rest

  abbrev pub held : WorkerAt D → List (PaymentTx D)
  held (processing tx) = tx ∷ []
  held (drain_processing tx) = tx ∷ []
  held _ = []

  abbrev pub queue : Group D → List (PaymentTx D)
  queue g = held g.worker ++ g.ch

  -- The queues of the groups, one after the other.
  unfoldable pub line : String → List (Group D) → List (PaymentTx D)
  line x [] = []
  line x (g ∷ gs) = only x (queue g) ++ line x gs

  pub only-append :
      (x : String) (xs ys : List (PaymentTx D)) → only x (xs ++ ys) ≡ only x xs ++ only x ys
  unfolding only
  only-append x [] ys = refl
  only-append x (tx ∷ xs) ys = ground (arith, only-append x xs ys)

  pub line-append : (x : String) (gs : List (Group D)) → line x (gs ++ new_group ∷ []) ≡ line x gs
  unfolding line only
  line-append x [] = refl
  line-append x (g ∷ gs) = rw (line-append x gs) refl

  -- A group whose queue for the account is the same.
  pub line-set_same :
      (x : String) (gs : List (Group D)) (j : ℕ) (g g' : Group D)
      → get_elem? gs j ≡ some g
      → only x (queue g') ≡ only x (queue g)
      → line x (set gs j g') ≡ line x gs
  unfolding line
  line-set_same x [] j g g' p e = refl
  line-set_same x (h ∷ gs) zero g g' p e =
      let same : g ≡ h = ground arith in
      ap (λ l. l ++ line x gs) (e ∙ ap (λ (k : Group D). only x (queue k)) same)
  line-set_same x (h ∷ gs) (suc j) g g' p e =
      ap (λ l. only x (queue h) ++ l) (line-set_same x gs j g g' p e)

  -- No group has payments of the account in its queue.
  pub line-nil :
      (x : String) (gs : List (Group D))
      → ((i : ℕ) (g : Group D) → get_elem? gs i ≡ some g → only x (queue g) ≡ [])
      → line x gs ≡ []
  unfolding line
  line-nil x [] h = refl
  line-nil x (g ∷ gs) h = rw (h zero g refl, line-nil x gs (λ i. h (suc i))) refl

  -- Only group number `j` has them.
  pub line-one :
      (x : String) (gs : List (Group D)) (j : ℕ) (g : Group D)
      → get_elem? gs j ≡ some g
      → ((i : ℕ) (h : Group D) → i ≢ j → get_elem? gs i ≡ some h → only x (queue h) ≡ [])
      → line x gs ≡ only x (queue g)
  unfolding line
  line-one x [] j g p h = absurd (ground arith)
  line-one x (k ∷ gs) zero g p h =
      let same : k ≡ g = ground arith in
      rw (line-nil x gs (λ i f q. h (suc i) f (λ e. omega arith) q), append-nil)
        (ap (λ (f : Group D). only x (queue f)) same)
  line-one x (k ∷ gs) (suc j) g p h =
      rw (h zero k (λ e. omega arith) refl)
        (line-one x gs j g p (λ i f d q. h (suc i) f (λ e. d (omega arith)) q))

  -- A queue whose payments all point to another group.
  elsewhere :
      (m : String → Option ℕ) (x : String) (i j : ℕ) (txs : List (PaymentTx D))
      → m x ≡ some j
      → i ≢ j
      → All (Points m i) txs
      → only x txs ≡ []
  unfolding only touches
  elsewhere m x i j [] e d h = refl
  elsewhere m x i j (tx ∷ rest) e d h =
      ground (
        arith,
        eq_iff (cred_iban tx) x,
        eq_iff (deb_iban tx) x,
        elsewhere m x i j rest e d h.1,
        ap m,
      )

  pub queue-elsewhere :
      (m : String → Option ℕ) (x : String) (i j : ℕ) (g : Group D)
      → m x ≡ some j
      → i ≢ j
      → GroupRouted m i g
      → only x (queue g) ≡ []
  unfolding only
  queue-elsewhere m x i j g e d v =
      only-append x (held g.worker) g.ch
      ∙ rw (elsewhere m x i j g.ch e d v.buffered, append-nil) (in_hand g.worker v.held)
    where
      in_hand : (w : WorkerAt D) → HandRouted m i w → only x (held w) ≡ []
      in_hand (processing tx) h = elsewhere m x i j (tx ∷ []) e d (h, tt)
      in_hand (drain_processing tx) h = elsewhere m x i j (tx ∷ []) e d (h, tt)
      in_hand _ h = refl
