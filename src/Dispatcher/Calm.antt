-- ===== src/Dispatcher/Calm.antt =====
-- Runs of core/PaymentManagerService.go in which no call of `add` meets two different groups: every
-- payment stays in the group of both of its accounts.
use cbtraining.Base.{
  ℕ, String, ◌≡◌, inl, inr, ◌∙◌, ap, [], ◌∷◌, ◌++◌, Option, some, Bool, false, arith, subst, sym,
  get_elem?, set, All, All-set, All-append, All-get, All-map, get_elem?-set_self, get_elem?-set_ne,
  get_elem?-append_cases, Bool-cases, ◌==◌,
}
use cbtraining.Dispatcher.{
  Group, CallAt, calling, moving, sending, Dispatcher, new_dispatcher, new_group,
}
use cbtraining.Dispatcher.Worker.{Choice, work, await, apply, Effect}
use cbtraining.Dispatcher.System.{Fired, called, added, worked, awaited, cancelled}
use cbtraining.Dispatcher.Moves.{
  Change, merges, takes, drains, counts, Gives, Why, by_call, by_worker, by_wait, Touch, untouched,
  opened, touched, step-Touch,
}
use cbtraining.Dispatcher.Routes.{
  meets, Extends, Points, GroupRouted, CallRouted, GroupRouted-Extends, CallRouted-Extends,
}
use cbtraining.Dispatcher.Routing.{CallMoves, advance-CallMoves}

module _ {D : Type 0} where
  -- Every payment in a channel or in hand is in the group of both of its accounts.
  pub record Routed (s : Dispatcher D) : Type 0 where
    pub groups :
        (j : ℕ) (g : Group D) → get_elem? s.groups j ≡ some g → GroupRouted s.iban_to_group j g
    pub calls : All (CallRouted s.iban_to_group) s.calls

  Change-GroupRouted :
      (m : String → Option ℕ) (k : CallAt D) (b : ℕ) (h h' : Group D)
      → CallRouted m k
      → Change k b h h'
      → GroupRouted m b h
      → GroupRouted m b h'
  Change-GroupRouted m k b h h' c (merges e) v =
      rw e (record { buffered = v.buffered; held = v.held })
  Change-GroupRouted m k b h h' c (counts e) v =
      rw e (record { buffered = v.buffered; held = v.held })
  Change-GroupRouted m k b h h' c (drains tx a p rest f e r) v = absurd (subst (CallRouted m) f c)
  Change-GroupRouted m k b h h' c (takes tx to l e) v = rw e (record {
    buffered = All-append (Points m b) h.ch (tx ∷ []) v.buffered (given k to c, tt);
    held = v.held;
  })
    where
      given : (k : CallAt D) → Gives k b tx → CallRouted m k → Points m b tx
      given (sending tx' j) (ej, et) p = subst (Points m b) et (subst (λ i. Points m i tx') ej p)
      given (moving tx' j i q) to p = absurd p
      given _ to p = elim to [ ]

  work-GroupRouted :
      (m : String → Option ℕ) (j : ℕ) (c : Choice) (root_done : Bool) (g : Group D) {g' : Group D}
      {e : Effect D}
      → work c root_done g ≡ some (g', e)
      → GroupRouted m j g
      → GroupRouted m j g'
  unfolding work
  work-GroupRouted m j c root_done g h v = ground arith

  await-GroupRouted :
      (m : String → Option ℕ) (j : ℕ) (g : Group D) {g' : Group D}
      → await g ≡ some g'
      → GroupRouted m j g
      → GroupRouted m j g'
  unfolding await
  await-GroupRouted m j g h v = ground arith

  Why-GroupRouted :
      (s : Dispatcher D) (b : ℕ) (h h' : Group D)
      → All (CallRouted s.iban_to_group) s.calls
      → Why s b h h'
      → GroupRouted s.iban_to_group b h
      → GroupRouted s.iban_to_group b h'
  Why-GroupRouted s b h h' cs (by_call i k e c) v =
      Change-GroupRouted s.iban_to_group k b h h'
        (All-get (CallRouted s.iban_to_group) s.calls i cs e) c v
  Why-GroupRouted s b h h' cs (by_worker c e w) v =
      work-GroupRouted s.iban_to_group b c s.root_done h w v
  Why-GroupRouted s b h h' cs (by_wait w) v = await-GroupRouted s.iban_to_group b h w v

  apply-rest :
      (e : Effect D) (s : Dispatcher D) {t : Dispatcher D}
      → apply e s ≡ some t
      → (t.iban_to_group ≡ s.iban_to_group) × (t.calls ≡ s.calls)
  unfolding apply
  apply-rest e s h = ground arith

  module _ (max_worker : ℕ) (s t : Dispatcher D) (v : Routed s) where
    same_map : t.iban_to_group ≡ s.iban_to_group → Extends s.iban_to_group t.iban_to_group
    same_map e iban j h = ap (λ m. m iban) e ∙ h

    pub Fired-Extends :
        (f : Fired max_worker s t) → meets f ≡ false → Extends s.iban_to_group t.iban_to_group
    unfolding meets
    Fired-Extends (called tx e) n = same_map (ground arith)
    Fired-Extends (added i c k k' u e f g) n =
        let r : CallMoves s u k' =
          advance-CallMoves max_worker i c k s f n
            (All-get (CallRouted s.iban_to_group) s.calls i v.calls e) in
        λ iban j h. ap (λ (d : Dispatcher D). d.iban_to_group iban) g ∙ r.more iban j h
    Fired-Extends (worked j c g g' e p w h) n = same_map (apply-rest e _ h).0
    Fired-Extends (awaited j g g' p w e) n = same_map (ground arith)
    Fired-Extends (cancelled e) n = same_map (ground arith)

    old_calls : Extends s.iban_to_group t.iban_to_group → All (CallRouted t.iban_to_group) s.calls
    old_calls more =
        All-map (CallRouted s.iban_to_group) (CallRouted t.iban_to_group) s.calls
          (CallRouted-Extends s.iban_to_group t.iban_to_group more) v.calls

    Fired-CallRouted :
        (f : Fired max_worker s t)
        → meets f ≡ false
        → Extends s.iban_to_group t.iban_to_group
        → All (CallRouted t.iban_to_group) t.calls
    unfolding meets
    Fired-CallRouted (called tx e) n more =
        subst (All (CallRouted t.iban_to_group)) {x = s.calls ++ calling tx ∷ []} (ground arith) (
          All-append (CallRouted t.iban_to_group) s.calls (calling tx ∷ []) (old_calls more)
            (tt, tt))
    Fired-CallRouted (added i c k k' u e f g) n more =
        let r : CallMoves s u k' =
          advance-CallMoves max_worker i c k s f n
            (All-get (CallRouted s.iban_to_group) s.calls i v.calls e) in
        subst (All (CallRouted t.iban_to_group)) {x = set s.calls i k'} (ground (arith, r.calls)) (
          All-set (CallRouted t.iban_to_group) s.calls i k' (old_calls more) (
            subst (λ m. CallRouted m k') {x = u.iban_to_group} {y = t.iban_to_group} (ground arith)
              r.routed))
    Fired-CallRouted (worked j c g g' e p w h) n more =
        subst (All (CallRouted t.iban_to_group)) {x = s.calls} (sym (apply-rest e _ h).1)
          (old_calls more)
    Fired-CallRouted (awaited j g g' p w e) n more =
        subst (All (CallRouted t.iban_to_group)) {x = s.calls} (ground arith) (old_calls more)
    Fired-CallRouted (cancelled e) n more =
        subst (All (CallRouted t.iban_to_group)) {x = s.calls} (ground arith) (old_calls more)

    -- The groups of `t`, with the map of `s`.
    Touch-GroupRouted :
        Touch (Why s) s t
        → (j : ℕ) (g : Group D) → get_elem? t.groups j ≡ some g
        → GroupRouted s.iban_to_group j g
    Touch-GroupRouted (untouched e) j g p = v.groups j g (ap (λ gs. get_elem? gs j) (sym e) ∙ p)
    Touch-GroupRouted (opened e) j g p =
        elim (get_elem?-append_cases s.groups j new_group (ap (λ gs. get_elem? gs j) (sym e) ∙ p)) [
          | inl old ↦ v.groups j g old
          | inr fresh ↦
              subst (GroupRouted s.iban_to_group j) (sym fresh)
                (record { buffered = tt; held = tt })
        ]
    Touch-GroupRouted (touched b h h' q e w) j g p = elim (Bool-cases (b == j)) [
      | inl same ↦
          let routed : GroupRouted s.iban_to_group b h' =
            Why-GroupRouted s b h h' v.calls w (v.groups b h q) in
          let written : get_elem? t.groups b ≡ some h' =
            ap (λ gs. get_elem? gs b) e ∙ get_elem?-set_self s.groups b h' q in
          let at : b ≡ j = ground arith in
          subst (GroupRouted s.iban_to_group j) {x = h'} {y = g} (ground arith)
            (subst (λ i. GroupRouted s.iban_to_group i h') at routed)
      | inr differ ↦ v.groups j g (
          sym (get_elem?-set_ne s.groups b j h' (λ x. ground arith))
          ∙ ap (λ gs. get_elem? gs j) (sym e)
          ∙ p)
    ]

    step-Routed : (f : Fired max_worker s t) → meets f ≡ false → Routed t
    step-Routed f n =
        let more : Extends s.iban_to_group t.iban_to_group = Fired-Extends f n in
        record {
          groups = λ j g p.
              GroupRouted-Extends s.iban_to_group t.iban_to_group more j g
                (Touch-GroupRouted (step-Touch f) j g p);
          calls = Fired-CallRouted f n more;
        }

  -- The states that are reached by steps in which no call of `add` meets two different groups.
  pub data Calm (max_worker : ℕ) : Dispatcher D → Type 0 where
    start : Calm max_worker new_dispatcher
    later :
        {s t : Dispatcher D}
        → Calm max_worker s
        → (f : Fired max_worker s t) → meets f ≡ false
        → Calm max_worker t

  pub Calm-Routed : {max_worker : ℕ} {s : Dispatcher D} → Calm max_worker s → Routed s
  Calm-Routed start = record { groups = λ j g p. absurd (ground arith); calls = tt }
  Calm-Routed (later {s} {t} r f n) = step-Routed _ s t (Calm-Routed r) f n
