-- ===== src/Dispatcher/Starved.antt =====
-- The semaphore of core/entity/dispather.go with no slot: MAX_WORKERS is zero.
use cbtraining.Base.{
  ℕ, ◌≡◌, refl, List, [], ◌∷◌, ◌++◌, Option, none, some, arith, All, All-append, All-set, All-get,
  get_elem?, set, String, ap, sym, subst, true, ◌∙◌, ◌≢◌,
}
use cbtraining.Errors.{err, dispatcher_shuting}
use cbtraining.Entity.{PaymentTx, cred_iban, deb_iban}
use cbtraining.Dispatcher.{Group, CallAt, calling, want_slot, returned, Dispatcher}
use cbtraining.Dispatcher.Worker.{Choice, first, second}
use cbtraining.Dispatcher.Add.{advance, enter}
use cbtraining.Dispatcher.System.{
  Fired, called, added, worked, awaited, cancelled, step-Fired, Reachable, here, next,
}

module _ {D : Type 0} where
  -- The call has not passed the semaphore: it may have given up.
  abbrev pub Waits : CallAt D → Type 0
  Waits (calling tx) = Unit
  Waits (want_slot tx) = Unit
  Waits (returned r) = r ≡ err dispatcher_shuting
  Waits _ = ⊥

  pub record Starved (s : Dispatcher D) : Type 0 where
    pub no_group : s.groups ≡ []
    pub unmapped : (i : String) → s.iban_to_group i ≡ none
    pub no_token : s.semaphore ≡ 0
    pub none_accepted : s.accepted ≡ []
    pub none_handled : s.handled ≡ []
    pub waiting : All Waits s.calls

  -- The state of `s`, but for its calls and its root context.
  abbrev Same : Dispatcher D → Dispatcher D → Type 0
  Same s u =
      (u.groups ≡ s.groups)
      × (u.iban_to_group ≡ s.iban_to_group)
      × (u.semaphore ≡ s.semaphore)
      × (u.accepted ≡ s.accepted)
      × (u.handled ≡ s.handled)
      × (u.calls ≡ s.calls)

  enter-Waits :
      (tx : PaymentTx D) (s : Dispatcher D) {u : Dispatcher D} {k' : CallAt D}
      → Starved s
      → enter tx s ≡ some (k', u)
      → Waits k' × Same s u
  unfolding enter
  enter-Waits tx s v h = ground (arith, v.unmapped (cred_iban tx), v.unmapped (deb_iban tx))

  advance-Waits :
      (i : ℕ) (c : Choice) (k : CallAt D) (s : Dispatcher D) {u : Dispatcher D} {k' : CallAt D}
      → Starved s
      → Waits k
      → advance 0 i c k s ≡ some (k', u)
      → Waits k' × Same s u
  unfolding advance
  advance-Waits i c (calling tx) s {u} {k'} v w h =
      enter-Waits tx s {u = u} {k' = k'} v (ground arith)
  advance-Waits i first (want_slot tx) s v w h = ground (arith, v.no_token)
  advance-Waits i second (want_slot tx) s v w h = ground arith
  advance-Waits i c (returned r) s v w h = ground arith
  advance-Waits i c k s v w h = absurd w

  Same-Starved :
      (s u : Dispatcher D) (i : ℕ) (k' : CallAt D)
      → Starved s
      → Same s u
      → Waits k'
      → Starved (record u { calls = set u.calls i k' })
  Same-Starved s u i k' v e w = record {
    no_group = e.0 ∙ v.no_group;
    unmapped = λ a. ap (λ (m : String → Option ℕ). m a) (e.1) ∙ v.unmapped a;
    no_token = e.2 ∙ v.no_token;
    none_accepted = e.3 ∙ v.none_accepted;
    none_handled = e.4 ∙ v.none_handled;
    waiting =
        All-set Waits u.calls i k'
          (subst (λ (ks : List (CallAt D)). All Waits ks) {x = s.calls} {y = u.calls} (sym e.5)
            v.waiting)
          w;
  }

  no_elem : (s : Dispatcher D) (j : ℕ) {g : Group D} → Starved s → get_elem? s.groups j ≢ some g
  no_elem s j v p = absurd (ground (arith, v.no_group))

  step-Starved : (s : Dispatcher D) {t : Dispatcher D} → Fired 0 s t → Starved s → Starved t
  step-Starved s {t} (called tx e) v =
      subst Starved {x = record s { calls = s.calls ++ calling tx ∷ [] }} {y = t} (sym e) (record {
        no_group = v.no_group;
        unmapped = v.unmapped;
        no_token = v.no_token;
        none_accepted = v.none_accepted;
        none_handled = v.none_handled;
        waiting = All-append Waits s.calls (calling tx ∷ []) v.waiting (tt, tt);
      })
  step-Starved s {t} (added i c k k' u e f g) v =
      let (w, same) =
        advance-Waits i c k s {u = u} {k' = k'} v (All-get Waits s.calls i v.waiting e) f in
      subst Starved {x = record u { calls = set u.calls i k' }} {y = t} (sym g)
        (Same-Starved s u i k' v same w)
  step-Starved s (worked j c g g' e p w h) v = absurd (no_elem s j {g = g} v p)
  step-Starved s (awaited j g g' p w h) v = absurd (no_elem s j {g = g} v p)
  step-Starved s {t} (cancelled e) v =
      subst Starved {x = record s { root_done = true }} {y = t} (sym e) (record {
        no_group = v.no_group;
        unmapped = v.unmapped;
        no_token = v.no_token;
        none_accepted = v.none_accepted;
        none_handled = v.none_handled;
        waiting = v.waiting;
      })

  -- Without a slot the service does nothing: in every state that it can reach with MAX_WORKERS at zero
  -- there is no group, no payment is accepted or handled, and each call of `add` is at its start, waits
  -- for a slot, or has answered that the dispatcher shuts down.
  pub Reachable-Starved : {s : Dispatcher D} → Reachable 0 s → Starved s
  Reachable-Starved here = record {
    no_group = refl;
    unmapped = λ i. refl;
    no_token = refl;
    none_accepted = refl;
    none_handled = refl;
    waiting = tt;
  }
  Reachable-Starved (next {t} a r h) = step-Starved t (step-Fired 0 t a h) (Reachable-Starved r)
