-- ===== src/Dispatcher/Routing.antt =====
-- What a step of `add` does to the map and to its own place, where it does not meet two groups.
use cbtraining.Base.{
  ℕ, ◌≡◌, ◌⊎◌, inl, inr, ◌∙◌, ap, refl, ◌+◌, Option, none, some, true, false, arith, subst, sym,
  length, Bool-cases, Option-cases, ◌==◌, eq_iff,
}
use cbtraining.Errors.{ok, err, dispatcher_shuting}
use cbtraining.Entity.{PaymentTx, cred_iban, deb_iban}
use cbtraining.Dispatcher.{
  CallAt, calling, want_slot, has_slot, awaiting, relocking, moving_next, moving, sending, counting,
  returned, Dispatcher,
}
use cbtraining.Dispatcher.Worker.{Choice, first, second}
use cbtraining.Dispatcher.Add.{
  advance, enter, reenter, send, start_merge, connect, assign, route, reroute, join,
}
use cbtraining.Dispatcher.Routes.{
  clash, Extends, assign-Extends, assign_self, clash_of, clashes, Points, CallRouted,
}

module _ {D : Type 0} where
  pub record CallMoves (s u : Dispatcher D) (k' : CallAt D) : Type 0 where
    pub more : Extends s.iban_to_group u.iban_to_group
    pub routed : CallRouted u.iban_to_group k'
    pub calls : u.calls ≡ s.calls

  abbrev OkMove : Dispatcher D → Option (CallAt D × Dispatcher D) → Type 0
  OkMove s none = Unit
  OkMove s (some (k', u)) = CallMoves s u k'

  unchanged : (s : Dispatcher D) (k' : CallAt D) → CallRouted s.iban_to_group k' → CallMoves s s k'
  unchanged s k' v = record { more = λ iban j e. e; routed = v; calls = refl }

  route-OkMove :
      (gA gB : Option ℕ) (tx : PaymentTx D) (s : Dispatcher D)
      → s.iban_to_group (cred_iban tx) ≡ gA
      → s.iban_to_group (deb_iban tx) ≡ gB
      → clash gA gB ≡ false
      → OkMove s (route gA gB tx s)
  unfolding route clash start_merge
  route-OkMove none none tx s ea eb n = unchanged s (want_slot tx) tt
  route-OkMove (some a) none tx s ea eb n =
      let more : Extends s.iban_to_group (assign (deb_iban tx) a s.iban_to_group) =
        assign-Extends (deb_iban tx) a s.iban_to_group (inl eb) in
      record {
        more = more;
        routed = (more (cred_iban tx) a ea, assign_self (deb_iban tx) a s.iban_to_group);
        calls = refl;
      }
  route-OkMove none (some b) tx s ea eb n =
      let more : Extends s.iban_to_group (assign (cred_iban tx) b s.iban_to_group) =
        assign-Extends (cred_iban tx) b s.iban_to_group (inl ea) in
      record {
        more = more;
        routed = (assign_self (cred_iban tx) b s.iban_to_group, more (deb_iban tx) b eb);
        calls = refl;
      }
  route-OkMove (some a) (some b) tx s ea eb n =
      let same : (a == b) ≡ true = ground arith in
      rw same (unchanged s (sending tx a) (ea, ground arith))

  -- Both IBANs are assigned to a group that neither contradicts.
  connect-Extends :
      (tx : PaymentTx D) (j : ℕ) (s : Dispatcher D)
      → (s.iban_to_group (cred_iban tx) ≡ none) ⊎ (s.iban_to_group (cred_iban tx) ≡ some j)
      → (s.iban_to_group (deb_iban tx) ≡ none) ⊎ (s.iban_to_group (deb_iban tx) ≡ some j)
      → Extends s.iban_to_group (connect tx j s).iban_to_group
        × Points (connect tx j s).iban_to_group j tx
  unfolding connect assign
  connect-Extends tx j s hc hd = (
    λ iban k e. ground (arith, eq_iff (cred_iban tx) iban, eq_iff (deb_iban tx) iban),
    (
      ground (arith, eq_iff (cred_iban tx) (cred_iban tx)),
      ground (arith, eq_iff (cred_iban tx) (deb_iban tx), eq_iff (deb_iban tx) (deb_iban tx)),
    ),
  )

  join-OkMove :
      (tx : PaymentTx D) (j : ℕ) (s : Dispatcher D)
      → (s.iban_to_group (cred_iban tx) ≡ none) ⊎ (s.iban_to_group (cred_iban tx) ≡ some j)
      → (s.iban_to_group (deb_iban tx) ≡ none) ⊎ (s.iban_to_group (deb_iban tx) ≡ some j)
      → OkMove s (join tx j s)
  unfolding join connect
  join-OkMove tx j s hc hd = elim (Bool-cases (s.semaphore == 0)) [
    | inl e ↦ rw e tt
    | inr e ↦
        let (more, routed) = connect-Extends tx j s hc hd in
        rw e (record { more = more; routed = routed; calls = refl })
  ]

  reroute-OkMove :
      (gA gB : Option ℕ) (tx : PaymentTx D) (s : Dispatcher D)
      → s.iban_to_group (cred_iban tx) ≡ gA
      → s.iban_to_group (deb_iban tx) ≡ gB
      → clash gA gB ≡ false
      → OkMove s (reroute gA gB tx s)
  unfolding reroute clash connect
  reroute-OkMove none none tx s ea eb n =
      let (more, routed) = connect-Extends tx (length s.groups) s (inl ea) (inl eb) in
      record { more = more; routed = routed; calls = refl }
  reroute-OkMove (some a) none tx s ea eb n = join-OkMove tx a s (inr ea) (inl eb)
  reroute-OkMove none (some b) tx s ea eb n = join-OkMove tx b s (inl ea) (inr eb)
  reroute-OkMove (some a) (some b) tx s ea eb n = join-OkMove tx a s (inr ea) (inr (ground arith))

  OkMove-CallMoves :
      (s : Dispatcher D) (r : Option (CallAt D × Dispatcher D)) {u : Dispatcher D} {k' : CallAt D}
      → r ≡ some (k', u)
      → OkMove s r
      → CallMoves s u k'
  OkMove-CallMoves s none e v = absurd (ground arith)
  OkMove-CallMoves s (some (k, t)) {u} {k'} e v =
      subst (OkMove s) {x = some (k, t)} {y = some (k', u)} e v

  -- A step that leaves the map alone.
  steady :
      (s u : Dispatcher D) (k k' : CallAt D)
      → k ≡ k'
      → CallRouted s.iban_to_group k
      → u.iban_to_group ≡ s.iban_to_group
      → u.calls ≡ s.calls
      → CallMoves s u k'
  steady s u k k' e v em ec = record {
    more = λ iban j h. ap (λ m. m iban) em ∙ h;
    routed = subst (λ m. CallRouted m k') (sym em) (subst (CallRouted s.iban_to_group) e v);
    calls = ec;
  }

  enter-CallMoves :
      (tx : PaymentTx D) (s : Dispatcher D) {u : Dispatcher D} {k' : CallAt D}
      → clash_of tx s ≡ false
      → enter tx s ≡ some (k', u)
      → CallMoves s u k'
  unfolding enter clash_of
  enter-CallMoves tx s {u} {k'} n h = elim (Bool-cases s.root_done) [
    | inl e ↦
        OkMove-CallMoves s (some (returned (err dispatcher_shuting), s)) (ground arith)
          (unchanged s _ tt)
    | inr e ↦
        OkMove-CallMoves s
          (route (s.iban_to_group (cred_iban tx)) (s.iban_to_group (deb_iban tx)) tx s)
          (ground arith) (route-OkMove _ _ tx s refl refl n)
  ]

  reenter-CallMoves :
      (tx : PaymentTx D) (s : Dispatcher D) {u : Dispatcher D} {k' : CallAt D}
      → clash_of tx s ≡ false
      → reenter tx s ≡ some (k', u)
      → CallMoves s u k'
  unfolding reenter clash_of
  reenter-CallMoves tx s n h = OkMove-CallMoves s _ h (reroute-OkMove _ _ tx s refl refl n)

  send-map :
      (j : ℕ) (tx : PaymentTx D) (s : Dispatcher D) {u : Dispatcher D}
      → send j tx s ≡ some u
      → (u.iban_to_group ≡ s.iban_to_group) × (u.calls ≡ s.calls)
  unfolding send
  send-map j tx s h = ground arith

  pub advance-CallMoves :
      (max_worker i : ℕ) (c : Choice) (k : CallAt D) (s : Dispatcher D) {u : Dispatcher D}
      {k' : CallAt D}
      → advance max_worker i c k s ≡ some (k', u)
      → clashes k s ≡ false
      → CallRouted s.iban_to_group k
      → CallMoves s u k'
  unfolding advance clashes
  advance-CallMoves max_worker i c (calling tx) s {u} {k'} h n v =
      enter-CallMoves tx s {u = u} {k' = k'} n (ground arith)
  advance-CallMoves max_worker i c (has_slot tx) s {u} {k'} h n v =
      reenter-CallMoves tx s {u = u} {k' = k'} n (ground arith)
  advance-CallMoves max_worker i first (want_slot tx) s h n v =
      OkMove-CallMoves s (some (has_slot tx, record s { semaphore = s.semaphore + 1 }))
        (ground arith) (record { more = λ iban j e. e; routed = tt; calls = refl })
  advance-CallMoves max_worker i second (want_slot tx) s h n v =
      OkMove-CallMoves s (some (returned (err dispatcher_shuting), s)) (ground arith)
        (unchanged s _ tt)
  advance-CallMoves max_worker i c (awaiting tx a b) s h n v = absurd v
  advance-CallMoves max_worker i c (relocking tx a b) s h n v = absurd v
  advance-CallMoves max_worker i c (moving_next tx a b) s h n v = absurd v
  advance-CallMoves max_worker i c (moving tx a b p) s h n v = absurd v
  advance-CallMoves max_worker i first (sending tx j) s {u} {k'} h n v =
      elim (Option-cases (send j tx s)) [
        | inl e ↦ absurd (ground arith)
        | inr (t, e) ↦
            let (em, ec) = send-map j tx s e in
            steady s u (counting tx j) k' (ground arith) tt (ground arith) (ground arith)
      ]
  advance-CallMoves max_worker i second (sending tx j) s h n v =
      OkMove-CallMoves s (some (returned (err dispatcher_shuting), s)) (ground arith)
        (unchanged s _ tt)
  advance-CallMoves max_worker i c (counting tx j) s {u} {k'} h n v =
      steady s u (returned (ok tt)) k' (ground arith) tt (ground arith) (ground arith)
  advance-CallMoves max_worker i c (returned r) s h n v = absurd (ground arith)
