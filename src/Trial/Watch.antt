-- ===== src/Trial/Watch.antt =====
-- What the records of a run say of the groups that handle their accounts.
use cbtraining.Base.{
  ℕ, ◌≤◌, ◌≡◌, ◌⊎◌, inl, inr, refl, ◌∙◌, sym, ap, subst, arith, some, ◌==◌, Bool-cases, get_elem?,
  set, get_elem?-set_self, get_elem?-set_ne, get_elem?-append_cases,
}
use cbtraining.Dispatcher.{
  WorkerAt, processing, drain_processing, Group, new_group, CallAt, Dispatcher,
}
use cbtraining.Dispatcher.Moves.{
  Change, merges, takes, drains, counts, Touch, untouched, opened, touched,
}
use cbtraining.Dispatcher.Routes.{Extends}
use cbtraining.Checks.{ProcessRecord}

module _ {D : Type 0} where
  -- A worker in `ProcessTX`.
  abbrev pub IsHandling : WorkerAt D → Type 0
  IsHandling (processing tx) = Unit
  IsHandling (drain_processing tx) = Unit
  IsHandling _ = ⊥

  -- Both accounts of a record point to one group, which has not entered `ProcessTX` before its end.
  pub record Kept (s : Dispatcher D) (now : ℕ) (since : ℕ → ℕ) (r : ProcessRecord) : Type 0 where
    pub by_now : r.end_time ≤ now
    pub home : ℕ
    pub debtor : s.iban_to_group r.debtor_iban ≡ some home
    pub creditor : s.iban_to_group r.creditor_iban ≡ some home
    pub served :
        (g : Group D)
        → get_elem? s.groups home ≡ some g
        → IsHandling g.worker
        → r.end_time ≤ since home

  -- A worker in `ProcessTX` after a step was there before, or has entered it with the step.
  abbrev pub Enters : Dispatcher D → Dispatcher D → (ℕ → ℕ) → (ℕ → ℕ) → ℕ → Type 0
  Enters s t since since' later =
      (i : ℕ) (h : Group D)
      → get_elem? t.groups i ≡ some h
      → IsHandling h.worker
      → ((g : Group D) × (get_elem? s.groups i ≡ some g)
          × IsHandling g.worker
          × (since' i ≡ since i))
        ⊎ (since' i ≡ later)

  pub Kept-step :
      (s t : Dispatcher D) (since since' : ℕ → ℕ) (now later : ℕ) (r : ProcessRecord)
      → Extends s.iban_to_group t.iban_to_group
      → now ≤ later
      → Enters s t since since' later
      → Kept s now since r
      → Kept t later since' r
  Kept-step s t since since' now later r more l enters v = record {
    by_now = omega (arith, v.by_now);
    home = v.home;
    debtor = more r.debtor_iban v.home v.debtor;
    creditor = more r.creditor_iban v.home v.creditor;
    served = λ h p q. elim (enters v.home h p q) [
      | inl (g, e, hg, same) ↦ rw same (v.served g e hg)
      | inr e ↦ rw e (omega (arith, v.by_now))
    ];
  }

  -- A step that leaves the workers as they are.
  Change-worker : (k : CallAt D) (b : ℕ) (h h' : Group D) → Change k b h h' → h'.worker ≡ h.worker
  Change-worker k b h h' (merges e) = rw e refl
  Change-worker k b h h' (takes tx to l e) = rw e refl
  Change-worker k b h h' (drains tx a p rest f c e) = rw e refl
  Change-worker k b h h' (counts e) = rw e refl

  pub set-Enters :
      (s t : Dispatcher D) (since : ℕ → ℕ) (later b : ℕ) (h h' : Group D)
      → get_elem? s.groups b ≡ some h
      → t.groups ≡ set s.groups b h'
      → h'.worker ≡ h.worker
      → Enters s t since since later
  set-Enters s t since later b h h' p e w i g q a = elim (Bool-cases (b == i)) [
    | inl same ↦
        let at : b ≡ i = ground arith in
        let there : h' ≡ g = ground (arith, get_elem?-set_self s.groups b h' p, e) in
        inl (
          h,
          ap (get_elem? s.groups) (sym at) ∙ p,
          subst IsHandling (ap (λ (x : Group D). x.worker) (sym there) ∙ w) a,
          refl,
        )
    | inr differ ↦ inl (
      g,
      sym (get_elem?-set_ne s.groups b i h' (λ x. ground arith))
          ∙ ap (λ gs. get_elem? gs i) (sym e)
          ∙ q,
      a,
      refl,
    )
  ]

  pub Touch-Enters :
      (k : CallAt D) (s t : Dispatcher D) (since : ℕ → ℕ) (later : ℕ)
      → Touch (Change k) s t
      → Enters s t since since later
  Touch-Enters k s t since later (untouched e) i g q a =
      inl (g, ap (λ gs. get_elem? gs i) (sym e) ∙ q, a, refl)
  Touch-Enters k s t since later (opened e) i g q a =
      elim (get_elem?-append_cases s.groups i new_group (ap (λ gs. get_elem? gs i) (sym e) ∙ q)) [
        | inl old ↦ inl (g, old, a, refl)
        | inr fresh ↦ absurd (subst (λ (x : Group D). IsHandling x.worker) fresh a)
      ]
  Touch-Enters k s t since later (touched b h h' p e c) i g q a =
      set-Enters s t since later b h h' p e (Change-worker k b h h' c) i g q a
