-- ===== src/Trial/Pressed.antt =====
-- Calls of `add` whose payments are all to one account.
use cbtraining.Base.{
  if◌then◌else◌, ℕ, ◌≡◌, ◌⊎◌, inl, inr, refl, sym, ap, ◌∙◌, subst, arith, String, All, Option, some,
  none, true, false, length, Option-cases, Bool-cases, ◌==◌, eq_iff,
}
use cbtraining.Errors.{err, dispatcher_shuting}
use cbtraining.Entity.{PaymentTx, cred_iban, deb_iban}
use cbtraining.Dispatcher.{
  CallAt, calling, want_slot, has_slot, awaiting, relocking, moving_next, moving, returned,
  Dispatcher,
}
use cbtraining.Dispatcher.Worker.{Choice}
use cbtraining.Dispatcher.Add.{advance, enter, reenter, route, reroute, join, send, connect, assign}
use cbtraining.Dispatcher.Routes.{clash, clash_of}

module _ (x : String) where
  -- Every account that has a group has the one of the account `x`.
  abbrev pub OneGroup : (String → Option ℕ) → Type 0
  OneGroup m = (iban : String) (j : ℕ) → m iban ≡ some j → m x ≡ some j

  assign-OneGroup :
      (iban : String) (g : ℕ) (m : String → Option ℕ)
      → m x ≡ some g
      → OneGroup m
      → OneGroup (assign iban g m)
  unfolding assign
  assign-OneGroup iban g m e v other j h =
      ground (arith, eq_iff iban other, eq_iff iban x, v other j)

module _ {D : Type 0} (x : String) where
  -- The payment of a call that has not got a group yet.
  abbrev pub CallTo : CallAt D → Type 0
  CallTo (calling tx) = cred_iban tx ≡ x
  CallTo (want_slot tx) = cred_iban tx ≡ x
  CallTo (has_slot tx) = cred_iban tx ≡ x
  CallTo (awaiting tx a b) = ⊥
  CallTo (relocking tx a b) = ⊥
  CallTo (moving_next tx a b) = ⊥
  CallTo (moving tx a b p) = ⊥
  CallTo _ = Unit

  pub record Pressed (s : Dispatcher D) : Type 0 where
    pub map : OneGroup x s.iban_to_group
    pub calls : All CallTo s.calls

  pub Pressed-clash :
      (tx : PaymentTx D) (s : Dispatcher D)
      → cred_iban tx ≡ x
      → OneGroup x s.iban_to_group
      → clash_of tx s ≡ false
  unfolding clash_of clash
  Pressed-clash tx s e v = elim (Option-cases (s.iban_to_group (cred_iban tx))) [
    | inl ea ↦ ground arith
    | inr (a, ea) ↦ elim (Option-cases (s.iban_to_group (deb_iban tx))) [
      | inl eb ↦ ground arith
      | inr (b, eb) ↦
          let of_x : s.iban_to_group x ≡ some b = v (deb_iban tx) b eb in
          let one : a ≡ b = ground (arith, ap s.iban_to_group e) in ground arith
    ]
  ]

  -- What the step of a call leaves.
  abbrev Leaves : Option (CallAt D × Dispatcher D) → Type 0
  Leaves none = Unit
  Leaves (some (k', u)) = CallTo k' × OneGroup x u.iban_to_group

  route-Leaves :
      (gA gB : Option ℕ) (tx : PaymentTx D) (s : Dispatcher D)
      → cred_iban tx ≡ x
      → s.iban_to_group (cred_iban tx) ≡ gA
      → s.iban_to_group (deb_iban tx) ≡ gB
      → OneGroup x s.iban_to_group
      → Leaves (route gA gB tx s)
  unfolding route
  route-Leaves none none tx s e ea eb v = (e, v)
  route-Leaves (some a) none tx s e ea eb v =
      (tt, assign-OneGroup x (deb_iban tx) a s.iban_to_group (ap s.iban_to_group (sym e) ∙ ea) v)
  route-Leaves none (some b) tx s e ea eb v =
      absurd (ground (arith, v (deb_iban tx) b eb, ap s.iban_to_group e))
  route-Leaves (some a) (some b) tx s e ea eb v =
      let one : a ≡ b = ground (arith, v (deb_iban tx) b eb, ap s.iban_to_group e) in
      let test : (a == b) ≡ true = ground arith in rw test (tt, v)

  connect-OneGroup :
      (tx : PaymentTx D) (g : ℕ) (s : Dispatcher D)
      → cred_iban tx ≡ x
      → (s.iban_to_group x ≡ none) ⊎ (s.iban_to_group x ≡ some g)
      → OneGroup x s.iban_to_group
      → OneGroup x (connect tx g s).iban_to_group
  unfolding connect assign
  connect-OneGroup tx g s e h v other j q = ground (
    arith,
    v other j,
    eq_iff (cred_iban tx) other,
    eq_iff (deb_iban tx) other,
    eq_iff (cred_iban tx) x,
  )

  join-Leaves :
      (tx : PaymentTx D) (g : ℕ) (s : Dispatcher D)
      → cred_iban tx ≡ x
      → s.iban_to_group x ≡ some g
      → OneGroup x s.iban_to_group
      → Leaves (join tx g s)
  unfolding join
  join-Leaves tx g s e h v = elim (Bool-cases (s.semaphore == 0)) [
    | inl z ↦ rw z tt
    | inr z ↦ rw z (tt, connect-OneGroup tx g s e (inr h) v)
  ]

  reroute-Leaves :
      (gA gB : Option ℕ) (tx : PaymentTx D) (s : Dispatcher D)
      → cred_iban tx ≡ x
      → s.iban_to_group (cred_iban tx) ≡ gA
      → s.iban_to_group (deb_iban tx) ≡ gB
      → OneGroup x s.iban_to_group
      → Leaves (reroute gA gB tx s)
  unfolding reroute
  reroute-Leaves none none tx s e ea eb v =
      (tt, connect-OneGroup tx (length s.groups) s e (inl (ap s.iban_to_group (sym e) ∙ ea)) v)
  reroute-Leaves (some a) gB tx s e ea eb v =
      join-Leaves tx a s e (ap s.iban_to_group (sym e) ∙ ea) v
  reroute-Leaves none (some b) tx s e ea eb v =
      absurd (ground (arith, v (deb_iban tx) b eb, ap s.iban_to_group e))

  enter-Leaves :
      (tx : PaymentTx D) (s : Dispatcher D)
      → cred_iban tx ≡ x
      → OneGroup x s.iban_to_group
      → Leaves (enter tx s)
  unfolding enter
  enter-Leaves tx s e v = elim (Bool-cases s.root_done) [
    | inl z ↦ rw z (tt, v)
    | inr z ↦
        let gA : Option ℕ = s.iban_to_group (cred_iban tx) in
        let gB : Option ℕ = s.iban_to_group (deb_iban tx) in
        subst
          (λ b.
            Leaves (if b then some (returned (err dispatcher_shuting), s) else route gA gB tx s))
          (sym z) (route-Leaves gA gB tx s e refl refl v)
  ]

  Leaves-eq :
      (r : Option (CallAt D × Dispatcher D)) {u : Dispatcher D} {k' : CallAt D}
      → r ≡ some (k', u)
      → Leaves r
      → CallTo k' × OneGroup x u.iban_to_group
  Leaves-eq none e v = absurd (ground arith)
  Leaves-eq (some (k, t)) {u} {k'} e v = subst Leaves {x = some (k, t)} {y = some (k', u)} e v

  pub kept_map :
      (s u : Dispatcher D)
      → u.iban_to_group ≡ s.iban_to_group
      → OneGroup x s.iban_to_group
      → OneGroup x u.iban_to_group
  kept_map s u e v = subst (OneGroup x) (sym e) v

  pub advance-Leaves :
      (max_worker i : ℕ) (c : Choice) (k : CallAt D) (s : Dispatcher D) {u : Dispatcher D}
      {k' : CallAt D}
      → advance max_worker i c k s ≡ some (k', u)
      → CallTo k
      → OneGroup x s.iban_to_group
      → CallTo k' × OneGroup x u.iban_to_group
  unfolding advance send reenter
  advance-Leaves max_worker i c (calling tx) s {u} {k'} h e v =
      Leaves-eq (enter tx s) {u = u} {k' = k'} (ground arith) (enter-Leaves tx s e v)
  advance-Leaves max_worker i c (has_slot tx) s {u} {k'} h e v =
      Leaves-eq (reenter tx s) {u = u} {k' = k'} (ground arith) (
        reroute-Leaves (s.iban_to_group (cred_iban tx)) (s.iban_to_group (deb_iban tx)) tx s e refl
          refl v)
  advance-Leaves max_worker i c (awaiting tx a b) s h e v = absurd e
  advance-Leaves max_worker i c (relocking tx a b) s h e v = absurd e
  advance-Leaves max_worker i c (moving_next tx a b) s h e v = absurd e
  advance-Leaves max_worker i c (moving tx a b p) s h e v = absurd e
  advance-Leaves max_worker i c (want_slot tx) s {u} h e v =
      (ground arith, kept_map s u (ground arith) v)
  advance-Leaves max_worker i c k s {u} h e v = (ground arith, kept_map s u (ground arith) v)
