-- ===== src/Dispatcher/Lost.antt =====
-- A group of core/entity/paymentGroup.go whose worker has left outside a merge, and its channel.
use cbtraining.Base.{
  ℕ, ◌≡◌, inl, inr, ◌∙◌, List, [], ◌∷◌, ◌++◌, some, false, arith, subst, sym, append-nil,
  append_assoc, get_elem?, All-get, get_elem?-set_self, get_elem?-set_ne, get_elem?-append_old,
  Bool-cases, ◌==◌,
}
use cbtraining.Entity.{PaymentTx}
use cbtraining.Dispatcher.{stopped, Group, Dispatcher, new_group}
use cbtraining.Dispatcher.Worker.{work, await}
use cbtraining.Dispatcher.System.{Fired, step-Fired, Reach, Reachable, here, next}
use cbtraining.Dispatcher.Moves.{
  merges, takes, drains, counts, Why, by_call, by_worker, by_wait, Touch, untouched, opened,
  touched, step-Touch,
}
use cbtraining.Dispatcher.Ready.{CallOk, ReadyAt}
use cbtraining.Dispatcher.Shape.{Shape, Reachable-Shape, step-Shape}

module _ {D : Type 0} where
  -- The worker is gone, and will not announce that it is.
  pub record IsDead (g : Group D) : Type 0 where
    pub gone : g.worker ≡ stopped
    pub silent : g.drain_ready ≡ false

  -- Group number `j` is dead, and its channel begins with `ch`.
  pub record Stays (j : ℕ) (ch : List (PaymentTx D)) (s : Dispatcher D) : Type 0 where
    pub group : Group D
    pub at : get_elem? s.groups j ≡ some group
    pub dead : IsDead group
    pub later : List (PaymentTx D)
    pub holds : group.ch ≡ ch ++ later

  record Grows (h h' : Group D) : Type 0 where
    dead : IsDead h'
    more : List (PaymentTx D)
    adds : h'.ch ≡ h.ch ++ more

  not_ready :
      (groups : List (Group D)) (b : ℕ) (h : Group D)
      → get_elem? groups b ≡ some h
      → h.drain_ready ≡ false
      → ReadyAt groups b
      → ⊥
  not_ready groups b h p silent (g, q, ready) = ground arith

  Why-Grows :
      {s : Dispatcher D} (b : ℕ) (h h' : Group D)
      → Shape s
      → get_elem? s.groups b ≡ some h
      → Why s b h h'
      → IsDead h
      → Grows h h'
  unfolding work await
  Why-Grows b h h' v p (by_call i k e (merges r)) d = record {
    dead = ground arith;
    more = [];
    adds = ground (arith, append-nil h.ch);
  }
  Why-Grows b h h' v p (by_call i k e (takes tx to l r)) d = record {
    dead = ground arith;
    more = tx ∷ [];
    adds = ground arith;
  }
  Why-Grows {s} b h h' v p (by_call i k e (drains tx a q rest f c r)) d = absurd (
      not_ready s.groups b h p d.silent
        (subst (CallOk s.groups) f (All-get (CallOk s.groups) s.calls i v.calls e)))
  Why-Grows b h h' v p (by_call i k e (counts r)) d = record {
    dead = ground arith;
    more = [];
    adds = ground (arith, append-nil h.ch);
  }
  Why-Grows b h h' v p (by_worker c e w) d = absurd (ground arith)
  Why-Grows b h h' v p (by_wait w) d = record {
    dead = ground arith;
    more = [];
    adds = ground (arith, append-nil h.ch);
  }

  moved :
      {s t : Dispatcher D} {j : ℕ} {ch : List (PaymentTx D)} (r : Stays j ch s)
      → get_elem? t.groups j ≡ some r.group
      → Stays j ch t
  moved r e = record { group = r.group; at = e; dead = r.dead; later = r.later; holds = r.holds }

  Touch-Stays :
      {s t : Dispatcher D} (j : ℕ) (ch : List (PaymentTx D))
      → Shape s
      → Touch (Why s) s t
      → Stays j ch s
      → Stays j ch t
  Touch-Stays j ch v (untouched e) r = moved r (rw e r.at)
  Touch-Stays {s} j ch v (opened e) r =
      moved r (rw e (get_elem?-append_old s.groups j new_group r.at))
  Touch-Stays {s} j ch v (touched b h h' p e w) r = elim (Bool-cases (b == j)) [
    | inr differ ↦ moved r (rw e (get_elem?-set_ne s.groups b j h' (λ x. ground arith) ∙ r.at))
    | inl same ↦
        let grown : Grows h h' = Why-Grows b h h' v p w (ground arith) in
        record {
          group = h';
          at = rw e (ground (arith, get_elem?-set_self s.groups b h' p));
          dead = grown.dead;
          later = r.later ++ grown.more;
          holds = ground (arith, append_assoc ch r.later grown.more);
        }
  ]

  Reach-Stays :
      {max_worker : ℕ} {s t : Dispatcher D} (j : ℕ) (ch : List (PaymentTx D))
      → Shape s
      → Stays j ch s
      → Reach max_worker s t
      → Shape t × Stays j ch t
  Reach-Stays j ch v r here = (v, r)
  Reach-Stays j ch v r (next {t} a w h) =
      let (v', r') = Reach-Stays j ch v r w in
      let f : Fired _ t _ = step-Fired _ t a h in
      (step-Shape t f v', Touch-Stays j ch v' (step-Touch f) r')

  -- A dead group stays dead, and what its channel holds stays there in every continuation: it is
  -- never received, moved or handled.
  pub dead_channel_kept :
      {max_worker : ℕ} {s t : Dispatcher D}
      → Reachable max_worker s
      → (j : ℕ) {g : Group D} → get_elem? s.groups j ≡ some g
      → IsDead g
      → Reach max_worker s t
      → Stays j g.ch t
  dead_channel_kept r j {g} e d w =
      (Reach-Stays j g.ch (Reachable-Shape r)
        (record { group = g; at = e; dead = d; later = []; holds = sym (append-nil g.ch) }) w).1
